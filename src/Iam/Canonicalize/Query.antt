-- ===== src/Iam/Canonicalize/Query.antt =====
-- canonicalize.cpp: the parameters of the canonical request.
use s3cpp.Prelude.{
  ◌≡◌, refl, sym, ap, ◌∙◌, inl, inr, Bool-cases, Option, none, some, List, [], ◌∷◌, if◌then◌else◌,
  Text, text_eq,
}
use s3cpp.Std.Map.{emplace, IsMap, emplace-IsMap}
use s3cpp.Std.Map.Find.{or_else-none, find, or_else, only_at, find-emplace}
use s3cpp.Iam.Http.{Param}
use s3cpp.Iam.Canonicalize.{param_map}

-- The first parameter with a key, in the order of the query.
unfoldable pub first_param : Text → List Param → Option Param
first_param i [] = none
first_param i (p ∷ ps) = if text_eq p.key i then some p else first_param i ps

or_else_assoc : (a b c : Option Param) → or_else (or_else a b) c ≡ or_else a (or_else b c)
or_else_assoc none b c = refl
or_else_assoc (some p) b c = refl

param_map-IsMap : (ps : List Param) (m : List (Text × Param)) → IsMap m → IsMap (param_map ps m)
unfolding param_map
param_map-IsMap [] m h = h
param_map-IsMap (p ∷ ps) m h = param_map-IsMap ps (emplace p.key p m) (emplace-IsMap p.key p m h)

first_param-cons :
    (i : Text) (p : Param) (ps : List Param)
    → first_param i (p ∷ ps) ≡ or_else (only_at p.key i p) (first_param i ps)
unfolding first_param
first_param-cons i p ps = elim (Bool-cases (text_eq p.key i)) [ inl y ↦ rw y | inr n ↦ rw n ]

find-param_map :
    (i : Text) (ps : List Param) (m : List (Text × Param))
    → IsMap m
    → find i (param_map ps m) ≡ or_else (find i m) (first_param i ps)
unfolding param_map first_param
find-param_map i [] m h = sym (or_else-none _)
find-param_map i (p ∷ ps) m h =
    find-param_map i ps (emplace p.key p m) (emplace-IsMap p.key p m h)
    ∙ ap (λ o. or_else o (first_param i ps)) (find-emplace p.key i p m h)
    ∙ or_else_assoc (find i m) (only_at p.key i p) (first_param i ps)
    ∙ ap (or_else (find i m)) (sym (first_param-cons i p ps))

-- The parameters of the canonical request are in strictly rising order of their keys, and under a
-- key stands the first parameter of the query with that key: of parameters that share a key, all
-- but the first are left out of the text that is signed.
pub param_map-first_param :
    (ps : List Param) (i : Text)
    → IsMap (param_map ps []) × (find i (param_map ps []) ≡ first_param i ps)
unfolding find
param_map-first_param ps i = (param_map-IsMap ps [] tt, find-param_map i ps [] tt)
