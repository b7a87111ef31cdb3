-- ===== src/Tests/Commands.antt =====
-- The theorems on the command line and on JSON at concrete inputs.
use s3cpp.ListAllObjects.Main.Growth.{print_statistics_adds_up, last_reading, unmeasured, sum}
use s3cpp.ListAllObjects.Misc.{zero_metrics, Metrics}
use s3cpp.ListAllObjects.Main.Statistics.{no_samples, print_statistics, Readings}
use s3cpp.Prelude.{
  arith, ◌+◌, ℕ, suc, ◌≡◌, refl, ◌⊎◌, true, false, Option, none, some, List, [], ◌∷◌, if◌then◌else◌,
  All, Text, codes, text_eq, ok,
}
use s3cpp.Tests.Sessions.{site, working}
use s3cpp.ListAllObjects.Options.{ProgramOptions, Files}
use s3cpp.ListAllObjects.Main.{Opens, main}
use s3cpp.ListAllObjects.Main.Starts.{Refuses, Opened, main-cases}
use s3cpp.ListAllObjects.Worker.Json.{
  BoostJson, IsBoostJson, object_json, json_members, object_json-find,
}
use s3cpp.Tests.Listing.{whole, key_object}

-- A command line that asks for version 1, with keys that are the names of their files.
abbrev command : ProgramOptions whole
command = record {
  Args = Unit;
  Variables = Unit;
  store = λ options args. ok tt;
  contains = λ vars name. false;
  notify = λ vars. ok tt;
  as_string = λ vars name.
      if text_eq name (codes "api-version")
      then codes "v1"
      else (if text_eq name (codes "format") then codes "json" else name);
  as_double = λ vars name. 1;
  as_size = λ vars name. 1;
}

abbrev files : Files
files = record { Fs = ℕ; read_all = λ path fs. some path; trim = λ t. t }

abbrev opens : Opens ℕ
opens = record {
  parse_url = λ t. some (record {
    scheme = codes "https";
    host_name = codes "example.org";
    encoded_host_and_port = codes "example.org:443";
    endpoint_url = site;
  });
  open_output = λ path fs. (true, suc fs);
}

main-cases_example :
    Refuses whole command files opens working 0 tt 0 0
      (main whole command files opens working 0 tt 0 0)
    ⊎ Opened whole command files opens working 0 tt 0 0
        (main whole command files opens working 0 tt 0 0)
main-cases_example = main-cases whole command files opens working 0 tt 0 0

-- JSON values as texts, and an object as a list whose first member of a name counts.
first_of : Text → List (Text × Text) → Option Text
first_of name [] = none
first_of name ((other, v) ∷ ms) =
    let rest = first_of name ms in if text_eq other name then some v else rest

unfoldable boost_json : BoostJson
unfolding first_of
boost_json = record {
  Value = Text;
  JsonObject = List (Text × Text);
  empty_object = [];
  assign = λ o name v. (name, v) ∷ o;
  find = λ o name. first_of name o;
  from_algorithm = λ a. [];
  from_type = λ a. [];
  from_text = λ t. t;
  from_time = λ t. t ∷ [];
  from_owner = λ o. [];
  from_status = λ s. [];
  from_size = λ n. n ∷ [];
  from_class = λ c. [];
}

boost_json-IsBoostJson : IsBoostJson boost_json
unfolding boost_json first_of
boost_json-IsBoostJson = record { find-empty = λ name. refl; find-assign = λ o name other v. refl }

object_json-find_example :
    All
      (λ m. boost_json.find (object_json boost_json (key_object (codes "a"))) m.0 ≡ m.1)
      (json_members boost_json boost_json-IsBoostJson (key_object (codes "a")))
    × ((name : Text)
        → All
            (λ m. text_eq m.0 name ≡ false)
            (json_members boost_json boost_json-IsBoostJson (key_object (codes "a")))
        → boost_json.find (object_json boost_json (key_object (codes "a"))) name ≡ none)
object_json-find_example =
    object_json-find boost_json boost_json-IsBoostJson (key_object (codes "a"))

abbrev seen : ℕ → ℕ → Metrics
seen ops objects = record zero_metrics { total_ops = ops; total_objects_found = objects }

-- Two rounds; an operation with four objects comes between them.
abbrev two_rounds : List Readings
two_rounds =
    record { before = seen 0 0; after = seen 2 9; shown = seen 2 9 }
    ∷ record { before = seen 3 13; after = seen 7 20; shown = seen 7 20 }
    ∷ []

print_statistics_adds_up_example :
    (sum (print_statistics (λ samples. samples) two_rounds no_samples).1.ops
        + unmeasured (λ m. m.total_ops) 0 two_rounds
      ≡ last_reading (λ m. m.total_ops) 0 two_rounds)
    × (sum (print_statistics (λ samples. samples) two_rounds no_samples).1.objects
          + unmeasured (λ m. m.total_objects_found) 0 two_rounds
        ≡ last_reading (λ m. m.total_objects_found) 0 two_rounds)
print_statistics_adds_up_example =
    print_statistics_adds_up (λ samples. samples) two_rounds
      (omega arith, omega arith, omega arith, (omega arith, omega arith, omega arith, tt))
      (omega arith, omega arith, omega arith, (omega arith, omega arith, omega arith, tt))
