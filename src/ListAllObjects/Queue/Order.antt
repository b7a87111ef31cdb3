-- ===== src/ListAllObjects/Queue/Order.antt =====
-- The queue keeps its entries by depth, so what is taken is of the least depth.
use s3cpp.Prelude.{
  ℕ, ◌≤◌, inl, inr, Option, none, some, List, [], ◌∷◌, arith, ltb, ltb→lt, Bool-cases, All, All-map,
}
use s3cpp.S3.Types.{CommonPrefix}
use s3cpp.ListAllObjects.Misc.{PrefixQueueEntry}
use s3cpp.ListAllObjects.Queue.{emplace, drop_empty, take_path, take_top}

abbrev pub AtLeast : ℕ → List PrefixQueueEntry → Type 0
AtLeast d = All (λ e. d ≤ e.depth)

abbrev pub IsSorted : List PrefixQueueEntry → Type 0
IsSorted [] = Unit
IsSorted (e ∷ q) = AtLeast e.depth q × IsSorted q

AtLeast-mono : (c d : ℕ) (q : List PrefixQueueEntry) → c ≤ d → AtLeast d q → AtLeast c q
AtLeast-mono c d q h = All-map (λ e l. omega arith) q

AtLeast-emplace :
    (d : ℕ) (e : PrefixQueueEntry) (q : List PrefixQueueEntry)
    → d ≤ e.depth
    → AtLeast d q
    → AtLeast d (emplace e q)
unfolding emplace
AtLeast-emplace d e [] h a = (h, tt)
AtLeast-emplace d e (f ∷ q) h (l, a) = elim (Bool-cases (ltb e.depth f.depth)) [
  | inl y ↦ rw y (h, (l, a))
  | inr n ↦ rw n (l, AtLeast-emplace d e q h a)
]

pub emplace-IsSorted :
    (e : PrefixQueueEntry) (q : List PrefixQueueEntry) → IsSorted q → IsSorted (emplace e q)
unfolding emplace
emplace-IsSorted e [] s = (tt, tt)
emplace-IsSorted e (f ∷ q) (a, s) = elim (Bool-cases (ltb e.depth f.depth)) [
  | inl y ↦
      let lt = ltb→lt e.depth f.depth y in
      rw y ((omega arith, AtLeast-mono e.depth f.depth q (omega arith) a), (a, s))
  | inr n ↦ rw n (AtLeast-emplace f.depth e q (ground arith) a, emplace-IsSorted e q s)
]

AtLeast-drop_empty : (d : ℕ) (q : List PrefixQueueEntry) → AtLeast d q → AtLeast d (drop_empty q)
unfolding drop_empty
AtLeast-drop_empty d [] a = tt
AtLeast-drop_empty d (e ∷ q) (l, a) = ground (arith, AtLeast-drop_empty d q a)

pub drop_empty-IsSorted : (q : List PrefixQueueEntry) → IsSorted q → IsSorted (drop_empty q)
unfolding drop_empty
drop_empty-IsSorted [] s = tt
drop_empty-IsSorted (e ∷ q) (a, s) = ground (arith, drop_empty-IsSorted q s)

-- What is taken is of a depth that no entry left behind is below, and the rest stays sorted.
abbrev pub TakesLeast : Option ((CommonPrefix × ℕ) × List PrefixQueueEntry) → Type 0
TakesLeast none = Unit
TakesLeast (some ((p, d), q)) = AtLeast d q × IsSorted q

take_path-TakesLeast :
    (e : PrefixQueueEntry) (q : List PrefixQueueEntry) (ps : List CommonPrefix)
    → IsSorted (e ∷ q)
    → TakesLeast (elim (take_path e ps) [ none ↦ none | some (got, e') ↦ some (got, e' ∷ q) ])
unfolding take_path
take_path-TakesLeast e q [] s = tt
take_path-TakesLeast e q (p ∷ ps) (a, s) = ((omega arith, a), (a, s))

pub take_top-TakesLeast : (q : List PrefixQueueEntry) → IsSorted q → TakesLeast (take_top q)
unfolding take_top
take_top-TakesLeast [] s = tt
take_top-TakesLeast (e ∷ q) s = take_path-TakesLeast e q e.paths s
