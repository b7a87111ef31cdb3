-- ===== src/Tests/Markup.antt =====
-- A stand-in for pugixml and Boost.Describe that behaves as documented.
use s3cpp.Prelude.{
  ◌≡◌, refl, Bool, true, false, Option, none, some, List, [], ◌∷◌, arith, if◌then◌else◌, Text,
  text_eq,
}
use s3cpp.S3.Xml.{Pugi, IsPugi, Describe, status_ok}

-- An element with its text, the elements inside and those that follow it.
pub data Markup : Type 0 where
  over : Markup
  element : Text → Text → Markup → Markup → Markup

abbrev pub inside : Markup → Markup
inside over = over
inside (element name text kids next) = kids

abbrev is_over : Markup → Bool
is_over over = true
is_over (element name text kids next) = false

unfoldable pub first : Markup → Text → Markup
first over name = over
first (element other text kids next) name =
    let rest = first next name in if text_eq other name then element other text kids next else rest

unfoldable pub every : Markup → Text → List Markup
every over name = []
every (element other text kids next) name =
    let rest = every next name in
    if text_eq other name then element other text kids next ∷ rest else rest

abbrev pub text_of : Markup → Text
text_of over = []
text_of (element name text kids next) = text

-- A library whose parser gives one document, whatever it reads.
unfoldable pub pugi : Markup → Pugi
unfolding first every
pugi document = record {
  Node = Markup;
  load_buffer = λ body. (status_ok, document);
  is_null = is_over;
  child = λ n name. first (inside n) name;
  children = λ n name. every (inside n) name;
  child_value = λ n name. text_of (first (inside n) name);
}

first-none : (m : Markup) (name : Text) → is_over (first m name) ≡ true → every m name ≡ []
unfolding first every
first-none over name h = refl
first-none (element other text kids next) name h = ground (arith, first-none next name)

every-none : (m : Markup) (name : Text) → every m name ≡ [] → is_over (first m name) ≡ true
unfolding first every
every-none over name h = refl
every-none (element other text kids next) name h = ground (arith, every-none next name)

first-text : (m : Markup) → is_over m ≡ true → text_of m ≡ []
first-text over h = refl
first-text (element name text kids next) h = cc

pub pugi-IsPugi : (document : Markup) → IsPugi (pugi document)
unfolding pugi first every
pugi-IsPugi document = record {
  child-null = λ n name. (first-none (inside n) name, every-none (inside n) name);
  child_value-null = λ n name h. first-text (first (inside n) name) h;
}

find_name : {E : Type 0} → List (Text × E) → Text → Option E
find_name [] name = none
find_name ((other, e) ∷ es) name =
    let rest = find_name es name in if text_eq other name then some e else rest

unfoldable pub describe : Describe
unfolding find_name
describe = record { enum_from_string = find_name }
