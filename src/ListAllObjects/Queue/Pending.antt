-- ===== src/ListAllObjects/Queue/Pending.antt =====
-- The paths that wait in the queue, and what each operation does to them.
use mathlib.Core.List.{perm_append_singleton}
use mathlib.Core.List.Perm
use s3cpp.Prelude.{
  ℕ, ◌≡◌, refl, subst, inl, inr, true, false, Option, none, some, List, [], ◌∷◌, ◌++◌, ltb,
  Bool-cases, is_empty, back, pop_back, pop_back-back, Perm, perm_swap_append,
}
use s3cpp.S3.Types.{CommonPrefix}
use s3cpp.ListAllObjects.Misc.{PrefixQueueEntry}
use s3cpp.ListAllObjects.Queue.{emplace, drop_empty, take_path, take_top}

unfoldable pub pending : List PrefixQueueEntry → List CommonPrefix
pending [] = []
pending (e ∷ q) = e.paths ++ pending q

pub pending-emplace :
    (e : PrefixQueueEntry) (q : List PrefixQueueEntry)
    → Perm (pending (emplace e q)) (e.paths ++ pending q)
unfolding pending emplace
pending-emplace e [] = Perm.refl _
pending-emplace e (f ∷ q) = elim (Bool-cases (ltb e.depth f.depth)) [
  | inl y ↦ rw y (Perm.refl _)
  | inr n ↦ rw n (
      Perm.trans (Perm.append_left f.paths (pending-emplace e q))
        (perm_swap_append f.paths e.paths (pending q)))
]

is_empty-nil : (ps : List CommonPrefix) → is_empty ps ≡ true → ps ≡ []
is_empty-nil [] h = refl
is_empty-nil (p ∷ ps) h = cc

-- Entries with no path hold nothing that waits.
pub pending-drop_empty : (q : List PrefixQueueEntry) → pending (drop_empty q) ≡ pending q
unfolding pending drop_empty
pending-drop_empty [] = refl
pending-drop_empty (e ∷ q) = elim (Bool-cases (is_empty e.paths)) [
  | inl y ↦ rw (y, pending-drop_empty q, is_empty-nil e.paths y)
  | inr n ↦ rw n
]

-- After the loop the top entry has a path, or the queue is empty.
abbrev pub IsReady : List PrefixQueueEntry → Type 0
IsReady [] = Unit
IsReady (e ∷ q) = is_empty e.paths ≡ false

drop_empty-IsReady : (q : List PrefixQueueEntry) → IsReady (drop_empty q)
unfolding drop_empty
drop_empty-IsReady [] = tt
drop_empty-IsReady (e ∷ q) = elim (Bool-cases (is_empty e.paths)) [
  | inl y ↦ rw y (drop_empty-IsReady q)
  | inr n ↦ rw n n
]

-- Taking a path fails only if none waits, and otherwise moves one out.
abbrev pub Takes : List CommonPrefix → Option ((CommonPrefix × ℕ) × List PrefixQueueEntry) → Type 0
Takes waiting none = waiting ≡ []
Takes waiting (some ((p, depth), q)) = Perm waiting (p ∷ pending q)

back-perm :
    (p : CommonPrefix) (ps rest : List CommonPrefix)
    → Perm (p ∷ ps ++ rest) (back p ps ∷ (pop_back p ps ++ rest))
back-perm p ps rest =
    subst (λ l. Perm (l ++ rest) (back p ps ∷ (pop_back p ps ++ rest))) (pop_back-back p ps)
      (Perm.append_right rest (perm_append_singleton (back p ps) (pop_back p ps)))

take_path-Takes :
    (e : PrefixQueueEntry) (q : List PrefixQueueEntry) (ps : List CommonPrefix)
    → is_empty ps ≡ false
    → Takes
        (ps ++ pending q)
        (elim (take_path e ps) [ none ↦ none | some (got, e') ↦ some (got, e' ∷ q) ])
unfolding take_path pending
take_path-Takes e q [] h = cc
take_path-Takes e q (p ∷ ps) h = back-perm p ps (pending q)

take_top-Takes : (q : List PrefixQueueEntry) → IsReady q → Takes (pending q) (take_top q)
unfolding take_top pending
take_top-Takes [] r = refl
take_top-Takes (e ∷ q) r = take_path-Takes e q e.paths r

-- The two steps of `get_next_prefix` together.
pub take_top-drop_empty-Takes :
    (q : List PrefixQueueEntry) → Takes (pending q) (take_top (drop_empty q))
take_top-drop_empty-Takes q =
    rw (← pending-drop_empty q) (take_top-Takes (drop_empty q) (drop_empty-IsReady q))
