-- ===== src/ListAllObjects/Tree.antt =====
-- What a listing of a whole bucket is: the objects under a prefix, by recursion over the prefixes
-- below it, with no queue and no pages.
use s3cpp.Prelude.{
  ℕ, zero, suc, ◌≤◌, ◌<◌, ◌≡◌, refl, ap, List, [], ◌∷◌, ◌++◌, arith, length, Perm, sum_of, flat_map,
  flat_map-append, flat_map-Perm,
}
use s3cpp.S3.Types.{Object, CommonPrefix}

-- A bucket seen through a delimiter: the objects directly under a prefix, the prefixes directly
-- below it, and a number for each prefix that is above the sum of those below it.
pub record Bucket : Type 0 where
  pub contents : CommonPrefix → List Object
  pub below : CommonPrefix → List CommonPrefix
  pub weight : CommonPrefix → ℕ

pub record IsTree (b : Bucket) : Type 0 where
  pub falls : (p : CommonPrefix) → sum_of b.weight (b.below p) < b.weight p

module _ (b : Bucket) where
  abbrev pub total : List CommonPrefix → ℕ
  total ps = sum_of b.weight ps

  -- The objects under a prefix, down to a depth.
  pub objects_to : ℕ → CommonPrefix → List Object
  objects_to zero p = []
  objects_to (suc depth) p = b.contents p ++ flat_map (objects_to depth) (b.below p)

  -- The objects under a prefix: its weight bounds the depth.
  pub objects_under : CommonPrefix → List Object
  objects_under p = objects_to (b.weight p) p

  pub all_objects : List CommonPrefix → List Object
  all_objects ps = flat_map objects_under ps

-- Two functions that agree on the light prefixes agree on a list that is light altogether.
flat_map-eq :
    (b : Bucket) (f g : CommonPrefix → List Object) (k : ℕ)
    → ((p : CommonPrefix) → b.weight p ≤ k → f p ≡ g p)
    → (ps : List CommonPrefix) → total b ps ≤ k
    → flat_map f ps ≡ flat_map g ps
unfolding flat_map
flat_map-eq b f g k same [] h = refl
flat_map-eq b f g k same (p ∷ ps) h =
    rw (same p (omega arith), flat_map-eq b f g k same ps (omega arith)) refl

module _ (b : Bucket) (t : IsTree b) where
  objects_to-same :
      (n m : ℕ) (p : CommonPrefix)
      → b.weight p ≤ n
      → b.weight p ≤ m
      → objects_to b n p ≡ objects_to b m p
  unfolding objects_to
  objects_to-same zero m p h k = absurd (omega (arith, t.falls p))
  objects_to-same (suc n) zero p h k = absurd (omega (arith, t.falls p))
  objects_to-same (suc n) (suc m) p h k =
      ap (λ os. b.contents p ++ os)
        (flat_map-eq b (objects_to b n) (objects_to b m) (total b (b.below p))
          (λ q w. objects_to-same n m q (omega (arith, t.falls p)) (omega (arith, t.falls p)))
          (b.below p) (omega arith))

  objects_to-objects_under :
      (n : ℕ) (p : CommonPrefix)
      → b.weight p ≤ n
      → objects_to b n p ≡ b.contents p ++ all_objects b (b.below p)
  unfolding objects_to objects_under all_objects
  objects_to-objects_under zero p h = absurd (omega (arith, t.falls p))
  objects_to-objects_under (suc n) p h =
      ap (λ os. b.contents p ++ os)
        (flat_map-eq b (objects_to b n) (objects_under b) (total b (b.below p))
          (λ q w. objects_to-same n (b.weight q) q (omega (arith, t.falls p)) (omega arith))
          (b.below p) (omega arith))

  -- The objects under a prefix are those directly under it and those under the prefixes below it.
  pub objects_under_lem :
      (p : CommonPrefix) → objects_under b p ≡ b.contents p ++ all_objects b (b.below p)
  unfolding objects_under
  objects_under_lem p = objects_to-objects_under (b.weight p) p (omega arith)

  pub length-le-total : (ps : List CommonPrefix) → length ps ≤ total b ps
  length-le-total [] = omega arith
  length-le-total (p ∷ ps) = omega (arith, t.falls p, length-le-total ps)

-- Prefixes in another order have the same objects in some order, and the lists' objects join.
pub all_objects-Perm :
    (b : Bucket) {ps qs : List CommonPrefix}
    → Perm ps qs
    → Perm (all_objects b ps) (all_objects b qs)
unfolding all_objects
all_objects-Perm b = flat_map-Perm (objects_under b)

pub all_objects-append :
    (b : Bucket) (ps qs : List CommonPrefix)
    → all_objects b (ps ++ qs) ≡ all_objects b ps ++ all_objects b qs
unfolding all_objects
all_objects-append b = flat_map-append (objects_under b)

pub all_objects-cons :
    (b : Bucket) (p : CommonPrefix) (ps : List CommonPrefix)
    → all_objects b (p ∷ ps) ≡ objects_under b p ++ all_objects b ps
unfolding all_objects flat_map
all_objects-cons b p ps = refl

pub all_objects-nil : (b : Bucket) → all_objects b [] ≡ []
unfolding all_objects flat_map
all_objects-nil b = refl
