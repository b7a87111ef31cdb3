-- ===== src/ListAllObjects/Main.antt =====
-- list_all_objects.cpp: `main`, up to the listing that it starts.
pub mod Statistics
pub mod Growth
pub mod Starts
use s3cpp.Prelude.{ℕ, Bool, if◌then◌else◌, Option, none, some, Text, codes, ok, unexpected, threw}
use s3cpp.ListAllObjects.Manager.Scaling.{Double}
use s3cpp.ListAllObjects.Options.{ProgramOptions, Files, Options, parse_opts}
use s3cpp.S3.DnsCache.{EndpointUrl, Resolver, DnsCache, new_cache}
use s3cpp.S3.Session.{Session}

-- A URL by its accessors.
pub record Url : Type 0 where
  pub scheme : Text
  pub host_name : Text
  pub encoded_host_and_port : Text
  pub endpoint_url : EndpointUrl

-- The listing that `main` starts over an output file that is open.
pub record Job (f : Double) (r : Resolver) : Type 0 where
  pub options : Options f
  pub session : Session
  pub cache : DnsCache r

pub data Run (f : Double) (r : Resolver) : Type 0 where
  exits : ℕ → Run f r
  raised : Text → Run f r
  lists : Job f r → Run f r

-- `boost::urls::url{text}`, which throws where the text is no URL, and `open` with `O_CREAT` and
-- `O_TRUNC`: whether it has succeeded.
pub record Opens (Fs : Type 0) : Type 0 where
  pub parse_url : Text → Option Url
  pub open_output : Text → Fs → Bool × Fs

module _ (f : Double) (po : ProgramOptions f) (files : Files) (opens : Opens files.Fs)
    (r : Resolver) where
  open files use {Fs}
  open opens use {parse_url, open_output}

  unfoldable pub session_of : Options f → Url → Session
  session_of options url = record {
    access_key = options.access_key;
    secret_access_key = options.secret_key;
    region = codes "default";
    scheme = url.scheme;
    host_name = url.host_name;
    encoded_host_and_port = url.encoded_host_and_port;
  }

  -- `main` once the endpoint is known: the session resolves it, then the output file is opened.
  unfoldable pub run : r.ErrorCode → Options f → Url → Fs → r.Net → Run f r × Fs × r.Net
  run no_error options url fs net =
      let (cache, net') = new_cache r url.endpoint_url no_error net in
      let (opened, fs') = open_output options.output_file fs in
      let job : Job f r = record {
        options = options;
        session = session_of options url;
        cache = cache;
      } in
      if opened then (lists job, fs', net') else (exits 1, fs', net')

  unfoldable pub main : r.ErrorCode → po.Args → Fs → r.Net → Run f r × Fs × r.Net
  main no_error args fs net = elim (parse_opts f po files args fs) [
    | unexpected code ↦ (exits code, fs, net)
    | threw t ↦ (raised t, fs, net)
    | ok options ↦ elim (parse_url options.endpoint) [
      | none ↦ (raised (codes "url"), fs, net)
      | some url ↦ run no_error options url fs net
    ]
  ]
