-- ===== src/Tests/Fixtures.antt =====
-- Stand-ins for Boost.URL, Botan and Boost.Beast that behave as documented.
use s3cpp.Std.Decimal.{to_decimal}
use s3cpp.Prelude.{
  sym, ℕ, suc, ◌+◌, ◌/◌, ◌%◌, ◌≡◌, refl, ◌≢◌, inl, inr, false, ◌&&◌, Option, none, some, List, [],
  ◌∷◌, ◌++◌, map, arith, ltb, if◌then◌else◌, Bool-cases, value_or, length, Text, codes, text_eq,
  text_eq_refl, text_eq_sound, contains, Lacks,
}
use s3cpp.Iam.BoostUrl.{BoostUrl, IsBoostUrl, hex_digit}
use s3cpp.Iam.Botan.{Botan, IsBotan, IsHex}
use s3cpp.Iam.Http.{Http, IsHttp}

encode : Text → Text → Text
encode [] cs = []
encode (c ∷ s) cs =
    let rest = encode s cs in
    if contains cs c then c ∷ rest else b'%' ∷ hex_digit (c / 16) ∷ hex_digit (c % 16) ∷ rest

find_if : Text → Text → ℕ
find_if [] cs = 0
find_if (c ∷ s) cs = let rest = find_if s cs in if contains cs c then 0 else suc rest

unfoldable pub boost : BoostUrl
unfolding encode find_if
boost = record { encode = encode; find_if = find_if }

pub boost-IsBoostUrl : IsBoostUrl boost
unfolding boost encode find_if
boost-IsBoostUrl = record {
  encode-nil = λ cs. refl;
  encode-member = λ c s cs h. rw h;
  encode-other = λ c s cs lt h. rw h;
  find_if-nil = λ cs. refl;
  find_if-member = λ c s cs h. rw h;
  find_if-other = λ c s cs h. rw h;
}

-- A digest for the tests: the text itself, two digits a byte.
hex_text : Text → Text
hex_text [] = []
hex_text (c ∷ s) = ((c / 16) + b'0') ∷ ((c % 16) + b'0') ∷ hex_text s

hex_text-one_line : (t : Text) → Lacks b'\n' (hex_text t)
unfolding hex_text
hex_text-one_line [] = tt
hex_text-one_line (c ∷ s) = (omega arith, (omega arith, hex_text-one_line s))

-- And a code: the key, the length of the message and the message.
abbrev pub mac_of : Text → Text → Text
mac_of key msg = key ++ length msg ∷ msg

unfoldable pub botan : Botan
unfolding hex_text
botan = record {
  sha256 = λ t. t;
  hex_encode = hex_text;
  Mac = Text × Text;
  create = ([], []);
  set_key = λ m key. (key, m.1);
  update = λ m t. (m.0, m.1 ++ t);
  final = λ m. (mac_of m.0 m.1, (m.0, []));
  clear = λ m. ([], []);
}

pub botan-IsBotan : IsBotan botan mac_of
unfolding botan
botan-IsBotan = record { final-create = λ key msg. refl; final-clear = λ m key msg. refl }

pub botan-IsHex : IsHex botan
unfolding botan
botan-IsHex = record { one_line = hex_text-one_line }

-- Header fields as a list; the first of a name counts.
lower : ℕ → ℕ
lower c = if ltb 64 c && ltb c 91 then c + 32 else c

lookup : Text → List (Text × Text) → Option Text
unfolding lower
lookup name [] = none
lookup name ((other, v) ∷ f) =
    let rest = lookup name f in if text_eq (map lower other) (map lower name) then some v else rest

unfoldable pub http : Http
unfolding lookup lower
http = record {
  Fields = List (Text × Text);
  entries = λ f. f;
  find_host = λ f. lookup (codes "host") f;
  get = λ f name. value_or (lookup name f) [];
  set = λ f name v. (name, v) ∷ f;
  content_length = λ f n. (codes "Content-Length", to_decimal n) ∷ f;
  to_lower = map lower;
  parse_origin_form = λ t. some (record { encoded_path = t; encoded_params = [] });
}

text_eq-ne : (s t : Text) → s ≢ t → text_eq s t ≡ false
text_eq-ne s t ne = elim (Bool-cases (text_eq s t)) [
  | inl y ↦ absurd (ne (text_eq_sound s t y))
  | inr n ↦ n
]

pub http-IsHttp : IsHttp http
unfolding http lookup lower
http-IsHttp = record {
  get-set = λ f name v. rw (text_eq_refl (map lower name));
  get-set_ne = λ f name other v ne. rw (text_eq-ne (map lower name) (map lower other) ne);
  find_host-set = λ f v. refl;
  find_host-set_ne = λ f name v ne. rw (text_eq-ne (map lower name) (codes "host") ne);
  get-content_length = λ f n. refl;
  get-content_length_ne = λ f n other ne _.
      rw (text_eq-ne (codes "content-length") (map lower other) (λ e. ne (sym e)));
  find_host-content_length = λ f n. refl;
  to_lower-length = refl;
  to_lower-encoding = refl;
  to_lower-date = refl;
  to_lower-digest = refl;
  to_lower-authorization = refl;
  to_lower-host = refl;
}
