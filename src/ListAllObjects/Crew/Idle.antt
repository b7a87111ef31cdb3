-- ===== src/ListAllObjects/Crew/Idle.antt =====
-- Workers that start when no prefix waits and no page is to come.
use s3cpp.ListAllObjects.Worker.{get_next_prefix}
use s3cpp.Prelude.{◌≢◌, ℕ, ◌≡◌, refl, ap, subst, List, [], length, length-Perm, arith, All}
use s3cpp.S3.Types.{Object, CommonPrefix}
use s3cpp.ListAllObjects.Misc.{OutputFormat, Shared}
use s3cpp.ListAllObjects.Manager.{worker_stops}
use s3cpp.ListAllObjects.Worker.Accounting.{waiting, IsValid, Fetches, get_next_prefix-Fetches}
use s3cpp.ListAllObjects.Crew.{
  some, none, Option, Text, Phase, seeking, listing, recording, checking, comparing, compared,
  leaving, Act, to_list, fetch, miss, write, skip, fail, store, finish, go_on, read_active,
  give_way, stay, leave,
}

-- The phases of a worker that has no prefix.
abbrev pub Idle : Phase → Type 0
Idle seeking = Unit
Idle (listing p d) = ⊥
Idle (recording p d page) = ⊥
Idle checking = Unit
Idle comparing = Unit
Idle (compared n) = Unit
Idle leaving = Unit

-- The access took, found and pushed nothing, and left nothing to take.
pub record Rests (s : Shared) (w' : Option Phase) (s' : Shared) (took found : List CommonPrefix)
    : Type 0 where
  pub took_none : took ≡ []
  pub found_none : found ≡ []
  pub same_stack : s'.write_stack ≡ s.write_stack
  pub none_waiting : waiting s' ≡ []
  pub still_idle : All Idle (to_list w')

same_state : (s : Shared) (w : Phase) → waiting s ≡ [] → Idle w → Rests s (some w) s [] []
same_state s w gone idle = record {
  took_none = refl;
  found_none = refl;
  same_stack = refl;
  none_waiting = gone;
  still_idle = (idle, tt);
}

stopped : (s : Shared) → waiting s ≡ [] → Rests s none (worker_stops s) [] []
unfolding worker_stops
stopped s gone = record {
  took_none = refl;
  found_none = refl;
  same_stack = refl;
  none_waiting = gone;
  still_idle = tt;
}

pub fetches_none :
    (s s' : Shared) (p : CommonPrefix) (d : ℕ)
    → IsValid s
    → waiting s ≡ []
    → get_next_prefix s ≢ (some (p, d), s')
fetches_none s s' p d v gone e =
    let (perm, _, _, _) = subst (Fetches s) e (get_next_prefix-Fetches s v) in
    omega (arith, length-Perm perm, ap length gone)

misses :
    (s s' : Shared) → IsValid s → get_next_prefix s ≡ (none, s') → Rests s (some checking) s' [] []
misses s s' v e =
    let (_, after, _, same) = subst (Fetches s) e (get_next_prefix-Fetches s v) in
    record {
      took_none = refl;
      found_none = refl;
      same_stack = same.0;
      none_waiting = after;
      still_idle = (tt, tt);
    }

module _ {serialize : Object → Text} {format : OutputFormat} where
  pub idle-Rests :
      {w : Phase} {s : Shared} {w' : Option Phase} {s' : Shared} {took found : List CommonPrefix}
      → Act serialize format w s w' s' took found
      → Idle w
      → IsValid s
      → waiting s ≡ []
      → Rests s w' s' took found
  idle-Rests {s = s} {s' = s'} (fetch p d _ e _ _ _) idle v gone =
      absurd (fetches_none s s' p d v gone e)
  idle-Rests {s = s} {s' = s'} (miss _ e ew et ef) idle v gone = rw (ew, et, ef) (misses s s' v e)
  idle-Rests (write p d page w _ _ _ _ _) idle v gone = absurd (subst Idle w idle)
  idle-Rests (skip p d w _ _ _ _) idle v gone = absurd (subst Idle w idle)
  idle-Rests (fail p d w _ _ _ _) idle v gone = absurd (subst Idle w idle)
  idle-Rests (store p d page w _ _ _ _) idle v gone = absurd (subst Idle w idle)
  idle-Rests {s = s} (finish _ _ e ew et ef) idle v gone =
      rw (e, ew, et, ef) (same_state s leaving gone tt)
  idle-Rests {s = s} (go_on _ _ e ew et ef) idle v gone =
      rw (e, ew, et, ef) (same_state s comparing gone tt)
  idle-Rests {s = s} (read_active _ e ew et ef) idle v gone =
      rw (e, ew, et, ef) (same_state s (compared _) gone tt)
  idle-Rests {s = s} (give_way n _ _ e ew et ef) idle v gone =
      rw (e, ew, et, ef) (same_state s leaving gone tt)
  idle-Rests {s = s} (stay n _ _ e ew et ef) idle v gone =
      rw (e, ew, et, ef) (same_state s seeking gone tt)
  idle-Rests {s = s} (leave _ e ew et ef) idle v gone = rw (e, ew, et, ef) (stopped s gone)
