-- ===== src/ListAllObjects/Options/Checks.antt =====
-- What options that were accepted show of the command line and the key files.
use s3cpp.Prelude.{
  ℕ, ◌≡◌, refl, sym, ap, ◌∙◌, ◌⊎◌, inl, inr, false, if◌then◌else◌, Bool-cases, Text, codes, text_eq,
  text_eq_sound, Outcome, ok, unexpected, threw, ◌>>=◌, ok-inj,
}
use s3cpp.ListAllObjects.Misc.{OutputFormat, plain, json, ListObjectsApiVersion, v1, v2}
use s3cpp.ListAllObjects.Manager.Scaling.{Double}
use s3cpp.ListAllObjects.Options.{
  descr, ProgramOptions, Files, Options, api_version_of, output_format_of, file_to_string,
  help_exits, parse_opts,
}

-- The texts of the versions and the formats on the command line.
abbrev pub version_name : ListObjectsApiVersion → Text
version_name v1 = codes "v1"
version_name v2 = codes "v2"

abbrev pub format_name : OutputFormat → Text
format_name plain = codes "plain"
format_name json = codes "json"

-- A test of two texts in a row, read backwards.
choice-ok :
    {A : Type 0} (s one other : Text) (a b c : A)
    → ◌≡◌ {A = Outcome ℕ A}
        (if text_eq s one then ok a else (if text_eq s other then ok b else unexpected 1))
        (ok c)
    → ((s ≡ one) × (c ≡ a)) ⊎ ((s ≡ other) × (c ≡ b))
choice-ok s one other a b c e = elim (Bool-cases (text_eq s one)) [
  | inl y ↦ inl (text_eq_sound s one y, sym (ok-inj {E = ℕ} (sym (rw y refl) ∙ e)))
  | inr n ↦ elim (Bool-cases (text_eq s other)) [
    | inl y ↦ inr (text_eq_sound s other y, sym (ok-inj {E = ℕ} (sym (rw (n, y) refl) ∙ e)))
    | inr m ↦
        let fails : ◌≡◌ {A = Outcome ℕ _} (unexpected 1) (ok c) = sym (rw (n, m) refl) ∙ e in cc
  ]
]

api_version_of-ok :
    (s : Text) (v : ListObjectsApiVersion) → api_version_of s ≡ ok v → s ≡ version_name v
unfolding api_version_of
api_version_of-ok s v e = elim (choice-ok s (codes "v1") (codes "v2") v1 v2 v e) [
  | inl (is, same) ↦ rw (is, same) refl
  | inr (is, same) ↦ rw (is, same) refl
]

output_format_of-ok : (s : Text) (v : OutputFormat) → output_format_of s ≡ ok v → s ≡ format_name v
unfolding output_format_of
output_format_of-ok s v e = elim (choice-ok s (codes "plain") (codes "json") plain json v e) [
  | inl (is, same) ↦ rw (is, same) refl
  | inr (is, same) ↦ rw (is, same) refl
]

bind-ok :
    {E A B : Type 0} (m : Outcome E A) (f : A → Outcome E B) (b : B)
    → m >>= f ≡ ok b
    → (a : A) × (m ≡ ok a) × (f a ≡ ok b)
bind-ok (ok a) f b e = (a, refl, e)
bind-ok (unexpected x) f b e = cc
bind-ok (threw t) f b e = cc

module _ (f : Double) (po : ProgramOptions f) (files : Files) where
  open po use {Args, Variables, store, contains, notify, as_string}
  open files use {Fs, trim}

  -- What the command line and the files say of options that were accepted.
  pub record Accepted (args : Args) (fs : Fs) (options : Options f) : Type 0 where
    pub vars : Variables
    pub stored : store descr args ≡ ok vars
    pub no_help : contains vars (codes "help") ≡ false
    pub notified : notify vars ≡ ok tt
    pub version : as_string vars (codes "api-version") ≡ version_name options.api_version
    pub format : as_string vars (codes "format") ≡ format_name options.output_format
    pub bucket : options.bucket ≡ as_string vars (codes "bucket")
    pub access_key :
        options.access_key
        ≡ trim (file_to_string f po files (as_string vars (codes "access-key-file")) fs)
    pub secret_key :
        options.secret_key
        ≡ trim (file_to_string f po files (as_string vars (codes "secret-access-key-file")) fs)

  help_exits-ok :
      (vars : Variables) → help_exits f po files vars ≡ ok tt → contains vars (codes "help") ≡ false
  help_exits-ok vars e = elim (Bool-cases (contains vars (codes "help"))) [
    | inl y ↦
        let fails : ◌≡◌ {A = Outcome ℕ Unit} (unexpected 0) (ok tt) = sym (rw y refl) ∙ e in cc
    | inr n ↦ n
  ]

  pub parse_opts-Accepted :
      (args : Args) (fs : Fs) (options : Options f)
      → parse_opts f po files args fs ≡ ok options
      → Accepted args fs options
  unfolding parse_opts
  parse_opts-Accepted args fs options e =
      let (vars, stored, e1) = bind-ok _ _ options e in
      let (_, helped, e2) = bind-ok _ _ options e1 in
      let (_, notified, e3) = bind-ok _ _ options e2 in
      let (version, v, e4) = bind-ok _ _ options e3 in
      let (format, w, e5) = bind-ok _ _ options e4 in
      let same = ok-inj e5 in
      record {
        vars = vars;
        stored = stored;
        no_help = help_exits-ok vars helped;
        notified = notified;
        version = api_version_of-ok _ _ v ∙ ap (λ o. version_name o.api_version) same;
        format = output_format_of-ok _ _ w ∙ ap (λ o. format_name o.output_format) same;
        bucket = sym (ap (λ o. o.bucket) same);
        access_key = sym (ap (λ o. o.access_key) same);
        secret_key = sym (ap (λ o. o.secret_key) same);
      }
