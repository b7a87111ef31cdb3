-- ===== src/ListAllObjects/Crew/Ends.antt =====
-- What an idle worker has left to do when no prefix waits.
use s3cpp.Prelude.{
  length, ℕ, ◌+◌, ◌≤◌, ◌<◌, ◌≡◌, ◌⊎◌, inl, inr, refl, ap, subst, true, Option, none, some, List, [],
  ◌∷◌, ◌++◌, arith, Text,
}
use s3cpp.S3.Types.{Object, CommonPrefix}
use s3cpp.ListAllObjects.Misc.{OutputFormat, Shared}
use s3cpp.ListAllObjects.Manager.{worker_stops}
use s3cpp.ListAllObjects.Worker.{is_done, get_next_prefix}
use s3cpp.ListAllObjects.Worker.Accounting.{waiting, IsValid}
use s3cpp.ListAllObjects.Crew.{
  Phase, seeking, listing, recording, checking, comparing, compared, leaving, Act, to_list, fetch,
  miss, write, skip, fail, store, finish, go_on, read_active, give_way, stay, leave,
}
use s3cpp.ListAllObjects.Crew.Idle.{Idle, fetches_none}

-- At most so many accesses until an idle worker ends.
abbrev pub left_of : Phase → ℕ
left_of seeking = 3
left_of (listing p d) = 0
left_of (recording p d page) = 0
left_of checking = 2
left_of comparing = 5
left_of (compared n) = 4
left_of leaving = 1

unfoldable pub all_left : List Phase → ℕ
all_left [] = 0
all_left (w ∷ ws) = left_of w + all_left ws

pub all_left-append : (xs ys : List Phase) → all_left (xs ++ ys) ≡ all_left xs + all_left ys
unfolding all_left
all_left-append [] ys = omega arith
all_left-append (x ∷ xs) ys = omega (arith, all_left-append xs ys)

-- With no prefix waiting, `is_done` answers yes.
pub none-is_done : (s : Shared) → IsValid s → waiting s ≡ [] → is_done s ≡ true
unfolding is_done
none-is_done s v gone = let e = v.counted in let f = ap length gone in ground arith

module _ {serialize : Object → Text} {format : OutputFormat} where
  pub Act-shortens :
      {w : Phase} {s : Shared} {w' : Option Phase} {s' : Shared} {took found : List CommonPrefix}
      → Act serialize format w s w' s' took found
      → Idle w
      → IsValid s
      → waiting s ≡ []
      → all_left (to_list w') < left_of w
  unfolding all_left
  Act-shortens {s = s} {s' = s'} (fetch p d _ e _ _ _) idle v gone =
      absurd (fetches_none s s' p d v gone e)
  Act-shortens (miss w _ ew _ _) idle v gone = rw (w, ew) (omega arith)
  Act-shortens (write p d page w _ _ _ _ _) idle v gone = absurd (subst Idle w idle)
  Act-shortens (skip p d w _ _ _ _) idle v gone = absurd (subst Idle w idle)
  Act-shortens (fail p d w _ _ _ _) idle v gone = absurd (subst Idle w idle)
  Act-shortens (store p d page w _ _ _ _) idle v gone = absurd (subst Idle w idle)
  Act-shortens (finish w _ _ ew _ _) idle v gone = rw (w, ew) (omega arith)
  Act-shortens {s = s} (go_on w e _ _ _ _) idle v gone = let x = none-is_done s v gone in cc
  Act-shortens (read_active w _ ew _ _) idle v gone = rw (w, ew) (omega arith)
  Act-shortens (give_way n w _ _ ew _ _) idle v gone = rw (w, ew) (omega arith)
  Act-shortens (stay n w _ _ ew _ _) idle v gone = rw (w, ew) (omega arith)
  Act-shortens (leave w _ ew _ _) idle v gone = rw (w, ew) (omega arith)

-- Some access of a worker.
pub record CanAct (serialize : Object → Text) (format : OutputFormat) (w : Phase) (s : Shared)
    : Type 0 where
  pub phase : Option Phase
  pub shared : Shared
  pub took : List CommonPrefix
  pub found : List CommonPrefix
  pub act : Act serialize format w s phase shared took found

module _ (serialize : Object → Text) (format : OutputFormat) where
  seeks :
      (s : Shared) (got : Option (CommonPrefix × ℕ)) (s' : Shared)
      → get_next_prefix s ≡ (got, s')
      → CanAct serialize format seeking s
  seeks s none s' e = record {
    phase = some checking;
    shared = s';
    took = [];
    found = [];
    act = miss refl e refl refl refl;
  }
  seeks s (some (p, d)) s' e = record {
    phase = some (listing p d);
    shared = s';
    took = p ∷ [];
    found = [];
    act = fetch p d refl e refl refl refl;
  }

  compares : (s : Shared) (n : ℕ) → CanAct serialize format (compared n) s
  compares s n = elim (le_or_lt n s.metrics.target_workers) [
    | inl le ↦ record {
      phase = some seeking;
      shared = s;
      took = [];
      found = [];
      act = stay n refl le refl refl refl refl;
    }
    | inr lt ↦ record {
      phase = some leaving;
      shared = s;
      took = [];
      found = [];
      act = give_way n refl lt refl refl refl refl;
    }
  ]
    where
      le_or_lt : (a b : ℕ) → (a ≤ b) ⊎ (b < a)
      le_or_lt a b = ground arith

  -- An idle worker is never stuck.
  pub Idle-CanAct :
      (w : Phase) (s : Shared) → Idle w → is_done s ≡ true → CanAct serialize format w s
  Idle-CanAct seeking s idle done = seeks s (get_next_prefix s).0 (get_next_prefix s).1 refl
  Idle-CanAct (listing p d) s idle done = absurd idle
  Idle-CanAct (recording p d page) s idle done = absurd idle
  Idle-CanAct checking s idle done = record {
    phase = some leaving;
    shared = s;
    took = [];
    found = [];
    act = finish refl done refl refl refl refl;
  }
  Idle-CanAct comparing s idle done = record {
    phase = some (compared s.metrics.active_workers);
    shared = s;
    took = [];
    found = [];
    act = read_active refl refl refl refl refl;
  }
  Idle-CanAct (compared n) s idle done = compares s n
  Idle-CanAct leaving s idle done = record {
    phase = none;
    shared = worker_stops s;
    took = [];
    found = [];
    act = leave refl refl refl refl refl;
  }
