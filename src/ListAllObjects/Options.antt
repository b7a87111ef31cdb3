-- ===== src/ListAllObjects/Options.antt =====
-- list_all_objects.cpp: the command line. Boost.Program_options, the files of the keys and the
-- trimming of a text are an interface. An exit is an unexpected value: its code.
pub mod Checks
use s3cpp.Prelude.{
  ℕ, Bool, Option, List, [], ◌∷◌, if◌then◌else◌, value_or, Text, codes, text_eq, Outcome, ok,
  unexpected, ◌>>=◌,
}
use s3cpp.ListAllObjects.Misc.{OutputFormat, plain, json, ListObjectsApiVersion, v1, v2}
use s3cpp.ListAllObjects.Manager.Scaling.{Double, ScalingFactors}

-- What `add_options` says of an option's value.
pub data ValueKind : Type 0 where
  no_value string double size : ValueKind

pub data Presence : Type 0 where
  optional required : Presence
  default_value : Text → Presence

pub record OptionDescription : Type 0 where
  pub names : Text
  pub kind : ValueKind
  pub presence : Presence

abbrev described : Text → ValueKind → Presence → OptionDescription
described names kind presence = record { names = names; kind = kind; presence = presence }

abbrev pub descr : List OptionDescription
descr =
    described (codes "help,h") no_value optional
    ∷ described (codes "bucket,b") string required
    ∷ described (codes "endpoint,e") string required
    ∷ described (codes "access-key-file") string required
    ∷ described (codes "secret-access-key-file") string required
    ∷ described (codes "output-file,o") string required
    ∷ described (codes "api-version") string (default_value (codes "v2"))
    ∷ described (codes "format") string (default_value (codes "plain"))
    ∷ described (codes "scale-up-factor") double (default_value (codes "1.2"))
    ∷ described (codes "scale-down-factor") double (default_value (codes "0.8"))
    ∷ described (codes "scaling-interval") size (default_value (codes "1"))
    ∷ []

-- `store(parse_command_line(…))`, which may throw, the variables map behind it, and `notify`, which
-- throws where a required option is missing. An option's value has the type of its description.
pub record ProgramOptions (f : Double) : Type 1 where
  pub Args : Type 0
  pub Variables : Type 0
  pub store : List OptionDescription → Args → Outcome ℕ Variables
  pub contains : Variables → Text → Bool
  pub notify : Variables → Outcome {0, 0} ℕ Unit
  pub as_string : Variables → Text → Text
  pub as_double : Variables → Text → f.D
  pub as_size : Variables → Text → ℕ

-- The files that are read: nothing where a stream cannot be opened. And `boost::algorithm::trim`.
pub record Files : Type 1 where
  pub Fs : Type 0
  pub read_all : Text → Fs → Option Text
  pub trim : Text → Text

module _ (f : Double) where
  pub record Options : Type 0 where
    pub bucket : Text
    pub endpoint : Text
    pub access_key : Text
    pub secret_key : Text
    pub output_file : Text
    pub api_version : ListObjectsApiVersion
    pub output_format : OutputFormat
    pub scaling : ScalingFactors f
    pub scaling_interval_seconds : ℕ

unfoldable pub api_version_of : Text → Outcome ℕ ListObjectsApiVersion
api_version_of s =
    if text_eq s (codes "v1")
    then ok v1
    else (if text_eq s (codes "v2") then ok v2 else unexpected 1)

unfoldable pub output_format_of : Text → Outcome ℕ OutputFormat
output_format_of s =
    if text_eq s (codes "plain")
    then ok plain
    else (if text_eq s (codes "json") then ok json else unexpected 1)

module _ (f : Double) (po : ProgramOptions f) (files : Files) where
  open po use {Args, Variables, store, contains, notify, as_string, as_double, as_size}
  open files use {Fs, read_all, trim}

  -- Nothing is read from a stream that is not open.
  unfoldable pub file_to_string : Text → Fs → Text
  file_to_string path fs = value_or (read_all path fs) []

  abbrev pub help_exits : Variables → Outcome {0, 0} ℕ Unit
  help_exits vars = if contains vars (codes "help") then unexpected 0 else ok tt

  unfoldable pub parse_opts : Args → Fs → Outcome ℕ (Options f)
  parse_opts args fs = do
    vars ← store descr args
    _ ← help_exits vars
    _ ← notify vars
    version ← api_version_of (as_string vars (codes "api-version"))
    format ← output_format_of (as_string vars (codes "format"))
    ok (record {
      bucket = as_string vars (codes "bucket");
      endpoint = as_string vars (codes "endpoint");
      access_key = trim (file_to_string (as_string vars (codes "access-key-file")) fs);
      secret_key = trim (file_to_string (as_string vars (codes "secret-access-key-file")) fs);
      output_file = as_string vars (codes "output-file");
      api_version = version;
      output_format = format;
      scaling = record {
        scale_up_factor = as_double vars (codes "scale-up-factor");
        scale_down_factor = as_double vars (codes "scale-down-factor");
      };
      scaling_interval_seconds = as_size vars (codes "scaling-interval");
    })
