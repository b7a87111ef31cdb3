-- ===== src/ListAllObjects/Main/Starts.antt =====
-- When `main` starts a listing, and what it leaves alone where it does not.
use s3cpp.Prelude.{
  ℕ, ◌≡◌, refl, sym, ◌∙◌, ◌≢◌, ◌⊎◌, inl, inr, true, false, Option, none, some, Bool-cases, codes,
  Outcome, ok, unexpected, threw, ok-inj,
}
use s3cpp.ListAllObjects.Manager.Scaling.{Double}
use s3cpp.ListAllObjects.Options.{ProgramOptions, Files, Options, parse_opts}
use s3cpp.ListAllObjects.Main.{raised, Url, Job, Run, exits, lists, Opens, session_of, run, main}
use s3cpp.S3.DnsCache.{Resolver, new_cache}
use s3cpp.ListAllObjects.Options.Checks.{Accepted, parse_opts-Accepted}

module _ (f : Double) (po : ProgramOptions f) (files : Files) (opens : Opens files.Fs)
    (r : Resolver) where
  open po use {Args, Variables, store, contains, notify, as_string}
  open files use {Fs, trim}
  open opens use {parse_url, open_output}

  module _ (no_error : r.ErrorCode) (args : Args) (fs : Fs) (net : r.Net) where
    -- Nothing is listed, and neither the files nor the network have been touched.
    pub record Refuses (end : Run f r × Fs × r.Net) : Type 0 where
      pub files_kept : end.1 ≡ fs
      pub net_kept : end.2 ≡ net
      pub no_job : (job : Job f r) → end.0 ≢ lists job
      pub reason :
          (options : Options f)
          → parse_opts f po files args fs ≡ ok options
          → parse_url options.endpoint ≡ none

    -- The options are accepted, and the output file is opened: a listing starts, or `main` exits.
    pub record Opened (end : Run f r × Fs × r.Net) : Type 0 where
      pub options : Options f
      pub url : Url
      pub accepted : Accepted f po files args fs options
      pub parsed : parse_url options.endpoint ≡ some url
      pub files_after : end.1 ≡ (open_output options.output_file fs).1
      pub outcome :
          (((open_output options.output_file fs).0 ≡ false) × (end.0 ≡ exits 1))
          ⊎ (((open_output options.output_file fs).0 ≡ true)
              × (end.0
                  ≡ lists (record {
                    options = options;
                    session = session_of f po files opens r options url;
                    cache = (new_cache r url.endpoint_url no_error net).0;
                  })))

    run-Opened :
        (options : Options f) (url : Url)
        → Accepted f po files args fs options
        → parse_url options.endpoint ≡ some url
        → Opened (run f po files opens r no_error options url fs net)
    unfolding run
    run-Opened options url a p = elim (Bool-cases (open_output options.output_file fs).0) [
      | inl y ↦ record {
        options = options;
        url = url;
        accepted = a;
        parsed = p;
        files_after = rw y refl;
        outcome = inr (y, rw y refl);
      }
      | inr n ↦ record {
        options = options;
        url = url;
        accepted = a;
        parsed = p;
        files_after = rw n refl;
        outcome = inl (n, rw n refl);
      }
    ]

    refuses :
        (answer : Run f r)
        → ((job : Job f r) → answer ≢ lists job)
        → ((options : Options f)
            → parse_opts f po files args fs ≡ ok options
            → parse_url options.endpoint ≡ none)
        → Refuses (answer, fs, net)
    refuses answer ne reason = record {
      files_kept = refl;
      net_kept = refl;
      no_job = ne;
      reason = reason;
    }

    -- `main` either lists nothing and leaves the files and the network alone, which happens where
    -- the command line is refused, asks for help, or gives an endpoint that is no URL; or it opens
    -- the output file, after the options were accepted: they name the version and the format, and
    -- the keys are what the key files hold, trimmed. Then it exits with 1 if the file could not be
    -- opened, and starts the listing with these options otherwise.
    pub main-cases :
        Refuses (main f po files opens r no_error args fs net)
        ⊎ Opened (main f po files opens r no_error args fs net)
    unfolding main
    main-cases = by_options (parse_opts f po files args fs) refl
      where
        by_url :
            (options : Options f)
            → parse_opts f po files args fs ≡ ok options
            → (answer : Option Url) → parse_url options.endpoint ≡ answer
            → Refuses (main f po files opens r no_error args fs net)
              ⊎ Opened (main f po files opens r no_error args fs net)
        by_url options e none p =
            rw (main, e, p)
              (inl (
                refuses (raised (codes "url")) (λ job q. cc)
                  (λ other q. rw (sym (ok-inj (sym e ∙ q))) p)))
        by_url options e (some url) p =
            rw (main, e, p)
              (inr (run-Opened options url (parse_opts-Accepted f po files args fs options e) p))

        by_options :
            (answer : Outcome ℕ (Options f))
            → parse_opts f po files args fs ≡ answer
            → Refuses (main f po files opens r no_error args fs net)
              ⊎ Opened (main f po files opens r no_error args fs net)
        by_options (ok options) e = by_url options e (parse_url options.endpoint) refl
        by_options (unexpected code) e =
            rw (main, e)
              (inl (refuses (exits code) (λ job q. cc) (λ other q. let fails = sym e ∙ q in cc)))
        by_options (threw t) e =
            rw (main, e)
              (inl (refuses (raised t) (λ job q. cc) (λ other q. let fails = sym e ∙ q in cc)))
