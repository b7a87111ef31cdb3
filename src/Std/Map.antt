-- ===== src/Std/Map.antt =====
-- `std::map<std::string, V>` as a list in the order of its keys; `emplace` leaves a key that is
-- there as it is.
pub mod Find
use s3cpp.Prelude.{
  ◌≡◌, refl, inl, inr, Bool, true, false, ◌||◌, List, [], ◌∷◌, arith, ltb, ◌==◌, if◌then◌else◌,
  Bool-cases, All, All-map, Text, text_eq,
}

-- `std::string::operator<`, byte by byte.
pub text_lt : Text → Text → Bool
text_lt [] [] = false
text_lt [] (d ∷ t) = true
text_lt (c ∷ s) [] = false
text_lt (c ∷ s) (d ∷ t) = if ltb c d then true else (if c == d then text_lt s t else false)

module _ {ℓ} {V : Type ℓ} where
  unfoldable pub emplace : Text → V → List (Text × V) → List (Text × V)
  emplace k v [] = (k, v) ∷ []
  emplace k v ((j, w) ∷ m) =
      let rest = emplace k v m in
      if text_lt k j
      then (k, v) ∷ (j, w) ∷ m
      else (if text_lt j k then (j, w) ∷ rest else (j, w) ∷ m)

text_lt_trans : (r s t : Text) → text_lt r s ≡ true → text_lt s t ≡ true → text_lt r t ≡ true
unfolding text_lt
text_lt_trans [] [] t h k = cc
text_lt_trans [] (d ∷ s) [] h k = cc
text_lt_trans [] (d ∷ s) (e ∷ t) h k = refl
text_lt_trans (c ∷ r) [] t h k = cc
text_lt_trans (c ∷ r) (d ∷ s) [] h k = cc
text_lt_trans (c ∷ r) (d ∷ s) (e ∷ t) h k = ground (arith, text_lt_trans r s t)

text_lt_total : (s t : Text) → text_lt s t ≡ false → text_lt t s ≡ false → s ≡ t
unfolding text_lt
text_lt_total [] [] h k = refl
text_lt_total [] (d ∷ t) h k = cc
text_lt_total (c ∷ s) [] h k = cc
text_lt_total (c ∷ s) (d ∷ t) h k = ground (arith, text_lt_total s t)

module _ {ℓ} {V : Type ℓ} where
  -- Every key of the map is above a key.
  abbrev pub Above : Text → List (Text × V) → Type 0
  Above k = All (λ e. text_lt k e.0 ≡ true)

  abbrev pub IsMap : List (Text × V) → Type 0
  IsMap [] = Unit
  IsMap ((k, v) ∷ m) = Above k m × IsMap m

  Above-emplace :
      (i k : Text) (v : V) (m : List (Text × V))
      → text_lt i k ≡ true
      → Above i m
      → Above i (emplace k v m)
  unfolding emplace
  Above-emplace i k v [] h a = (h, tt)
  Above-emplace i k v ((j, w) ∷ m) h a = ground (arith, Above-emplace i k v m h a.1)

  Above-trans : (i k : Text) (m : List (Text × V)) → text_lt i k ≡ true → Above k m → Above i m
  Above-trans i k m h = All-map (λ e l. text_lt_trans i k e.0 h l) m

  -- The keys stay in strictly rising order, so none stands twice.
  pub emplace-IsMap : (k : Text) (v : V) (m : List (Text × V)) → IsMap m → IsMap (emplace k v m)
  unfolding emplace
  emplace-IsMap k v [] h = (tt, tt)
  emplace-IsMap k v ((j, w) ∷ m) (a, h) = elim (Bool-cases (text_lt k j)) [
    | inl y ↦ rw y ((y, Above-trans k j m y a), (a, h))
    | inr n ↦ elim (Bool-cases (text_lt j k)) [
      | inl y ↦ rw (n, y) (Above-emplace j k v m y a, emplace-IsMap k v m h)
      | inr m' ↦ rw (n, m') (a, h)
    ]
  ]

-- The keys of a map, and `contains`.
abbrev pub keys {ℓ} : {V : Type ℓ} → List (Text × V) → List Text
keys [] = []
keys ((k, v) ∷ m) = k ∷ keys m

abbrev pub holds {ℓ} : {V : Type ℓ} → Text → List (Text × V) → Bool
holds i [] = false
holds i ((j, w) ∷ m) = text_eq j i || holds i m

or-swap : (a b c : Bool) → (a || (b || c)) ≡ (b || (a || c))
or-swap a b c = ground arith

or-same : (a c : Bool) → (a || c) ≡ (a || (a || c))
or-same a c = ground arith

module _ {ℓ} {V : Type ℓ} where
  -- Behind an `emplace` the keys are those of before and the new one.
  pub holds-emplace :
      (k i : Text) (v : V) (m : List (Text × V))
      → holds i (emplace k v m) ≡ (text_eq k i || holds i m)
  unfolding emplace
  holds-emplace k i v [] = refl
  holds-emplace k i v ((j, w) ∷ m) = elim (Bool-cases (text_lt k j)) [
    | inl y ↦ rw y
    | inr n ↦ elim (Bool-cases (text_lt j k)) [
      | inl y ↦ rw (n, y, holds-emplace k i v m) (or-swap (text_eq j i) (text_eq k i) (holds i m))
      | inr o ↦ rw (n, o, text_lt_total k j n o) (or-same (text_eq j i) (holds i m))
    ]
  ]
