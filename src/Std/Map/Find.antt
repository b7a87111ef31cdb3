-- ===== src/Std/Map/Find.antt =====
-- What `find` gives in a `std::map` behind an `emplace`.
use s3cpp.Prelude.{
  ◌≡◌, refl, sym, inl, inr, false, Option, none, some, List, [], ◌∷◌, arith, if◌then◌else◌,
  Bool-cases, Text, text_eq, text_eq_sound, subst,
}
use s3cpp.Std.Map.{text_lt, text_lt_total, emplace, Above, IsMap, Above-trans}

-- The first of two values that is there.
abbrev pub or_else {ℓ} : {V : Type ℓ} → Option V → Option V → Option V
or_else (some v) o = some v
or_else none o = o

abbrev pub only_at {ℓ} : {V : Type ℓ} → Text → Text → V → Option V
only_at k i v = if text_eq k i then some v else none

unfoldable pub find {ℓ} : {V : Type ℓ} → Text → List (Text × V) → Option V
find i [] = none
find i ((j, w) ∷ m) = if text_eq j i then some w else find i m

text_lt_irrefl : (s : Text) → text_lt s s ≡ false
unfolding text_lt
text_lt_irrefl [] = refl
text_lt_irrefl (c ∷ s) = ground (arith, text_lt_irrefl s)

module _ {ℓ} {V : Type ℓ} where
  pub or_else-none : (o : Option V) → or_else o none ≡ o
  or_else-none none = refl
  or_else-none (some v) = refl

  find-Above : (i : Text) (m : List (Text × V)) → Above i m → find i m ≡ none
  unfolding find
  find-Above i [] a = refl
  find-Above i ((j, w) ∷ m) (lt, a) = elim (Bool-cases (text_eq j i)) [
    | inl y ↦ let e = text_eq_sound j i y in let z = text_lt_irrefl i in cc
    | inr n ↦ rw n (find-Above i m a)
  ]

  -- An `emplace` adds its value where the key is not there, and changes nothing else.
  pub find-emplace :
      (k i : Text) (v : V) (m : List (Text × V))
      → IsMap m
      → find i (emplace k v m) ≡ or_else (find i m) (only_at k i v)
  unfolding emplace find
  find-emplace k i v [] h = refl
  find-emplace k i v ((j, w) ∷ m) (a, h) = elim (Bool-cases (text_lt k j)) [
    | inl y ↦ elim (Bool-cases (text_eq k i)) [
      | inl c ↦
          let all_above : Above k ((j, w) ∷ m) = (y, Above-trans k j m y a) in
          let gone =
            find-Above i ((j, w) ∷ m)
              (subst (λ k. Above k ((j, w) ∷ m)) (text_eq_sound k i c) all_above) in
          rw (y, c, gone)
      | inr c ↦ rw (y, c) (sym (or_else-none _))
    ]
    | inr n ↦ elim (Bool-cases (text_lt j k)) [
      | inl y ↦ elim (Bool-cases (text_eq j i)) [
        | inl c ↦ rw (n, y, c)
        | inr c ↦ rw (n, y, c) (find-emplace k i v m h)
      ]
      | inr o ↦ elim (Bool-cases (text_eq j i)) [
        | inl c ↦ rw (n, o, c)
        | inr c ↦ rw (n, o, text_lt_total k j n o, c) (sym (or_else-none _))
      ]
    ]
  ]
