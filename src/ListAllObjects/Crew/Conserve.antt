-- ===== src/ListAllObjects/Crew/Conserve.antt =====
-- No interleaving loses a prefix or hands one out twice.
use s3cpp.ListAllObjects.Crew.Polled.{poll-Polled, Polled}
use mathlib.Core.List.Perm
use s3cpp.Prelude.{
  sym, ℕ, ◌≡◌, refl, subst, Option, none, some, List, [], ◌∷◌, ◌++◌, append_assoc, arith, length,
  length-append, Text, Perm, perm_swap_append,
}
use s3cpp.Std.SizeT.{Counts, Counts-plus, Counts-decr, decr, plus}
use s3cpp.S3.Types.{Object, CommonPrefix}
use s3cpp.ListAllObjects.Misc.{OutputFormat, Shared}
use s3cpp.ListAllObjects.Queue.{emplace}
use s3cpp.ListAllObjects.Queue.Pending.{pending}
use s3cpp.ListAllObjects.Worker.{get_next_prefix, record_page, write_objects}
use s3cpp.ListAllObjects.Worker.Accounting.{
  waiting, IsValid, Fetches, get_next_prefix-Fetches, record_page-IsValid, waiting-record_page,
  write_objects-queue, record_page-active,
}
use s3cpp.ListAllObjects.Manager.{start, worker_starts, worker_stops, Poll, poll}
use s3cpp.ListAllObjects.Crew.{
  left_behind, polls, pops, Phase, Crew, Act, fetch, miss, write, skip, fail, store, finish, go_on,
  read_active, give_way, stay, leave, Step, acts, spawns, retargets, Reach, here, next, initial,
  to_list,
}

-- What the active-worker counter is behind an access.
abbrev pub active_after : Option Phase → ℕ → ℕ
active_after none n = decr n
active_after (some w) n = n

-- One access keeps the queue valid, and what is found and waited for before it is taken or waited
-- for behind it.
pub record Keeps (w' : Option Phase) (s s' : Shared) (took found : List CommonPrefix) : Type 0 where
  pub valid : IsValid s'
  pub balance : Perm (found ++ waiting s) (took ++ waiting s')
  pub active : s'.metrics.active_workers ≡ active_after w' s.metrics.active_workers

module _ (serialize : Object → Text) (format : OutputFormat) where
  Keeps-same : (w : Phase) (s : Shared) → IsValid s → Keeps (some w) s s [] []
  Keeps-same w s v = record { valid = v; balance = Perm.refl _; active = refl }

  Keeps-stop : (s : Shared) → IsValid s → Keeps none s (worker_stops s) [] []
  unfolding worker_stops
  Keeps-stop s v = record {
    valid = record { counted = v.counted; sorted = v.sorted };
    balance = Perm.refl _;
    active = refl;
  }

  Keeps-write :
      (w : Phase) (objects : List Object) (s : Shared)
      → IsValid s
      → Keeps (some w) s (write_objects serialize format objects s) [] []
  Keeps-write w objects s v =
      let (q, m) = write_objects-queue serialize format objects s in
      record {
        valid = record { counted = rw (q, m) v.counted; sorted = rw q v.sorted };
        balance = rw q (Perm.refl _);
        active = rw m;
      }

  Keeps-record :
      (w : Phase) (d : ℕ) (objects : List Object) (ps : List CommonPrefix) (s : Shared)
      → IsValid s
      → Keeps (some w) s (record_page d objects ps s) [] ps
  Keeps-record w d objects ps s v = record {
    valid = record_page-IsValid d objects ps s v;
    balance = Perm.symm (waiting-record_page d objects ps s);
    active = record_page-active d objects ps s;
  }

  Keeps-fetch :
      (w : Phase) (p : CommonPrefix) (d : ℕ) (s s' : Shared)
      → IsValid s
      → get_next_prefix s ≡ (some (p, d), s')
      → Keeps (some w) s s' (p ∷ []) []
  Keeps-fetch w p d s s' v e =
      let (perm, _, valid, same) = subst (Fetches s) e (get_next_prefix-Fetches s v) in
      record { valid = valid; balance = perm; active = same.3 }

  Keeps-miss :
      (w : Phase) (s s' : Shared)
      → IsValid s
      → get_next_prefix s ≡ (none, s')
      → Keeps (some w) s s' [] []
  Keeps-miss w s s' v e =
      let (before, after, valid, same) = subst (Fetches s) e (get_next_prefix-Fetches s v) in
      record { valid = valid; balance = rw (before, after) (Perm.refl _); active = same.3 }

  pub Act-Keeps :
      (w : Phase) (s : Shared) (w' : Option Phase) (s' : Shared) (took found : List CommonPrefix)
      → IsValid s
      → Act serialize format w s w' s' took found
      → Keeps w' s s' took found
  Act-Keeps w s w' s' took found v (fetch p d _ e ew et ef) =
      rw (ew, et, ef) (Keeps-fetch _ p d s s' v e)
  Act-Keeps w s w' s' took found v (miss _ e ew et ef) = rw (ew, et, ef) (Keeps-miss _ s s' v e)
  Act-Keeps w s w' s' took found v (write p d page _ _ e ew et ef) =
      rw (e, ew, et, ef) (Keeps-write _ page.contents s v)
  Act-Keeps w s w' s' took found v (skip p d _ e ew et ef) = rw (e, ew, et, ef) (Keeps-same _ s v)
  Act-Keeps w s w' s' took found v (fail p d _ e ew et ef) = rw (e, ew, et, ef) (Keeps-same _ s v)
  Act-Keeps w s w' s' took found v (store p d page _ e ew et ef) =
      rw (e, ew, et, ef) (Keeps-record _ d page.contents page.prefixes s v)
  Act-Keeps w s w' s' took found v (finish _ _ e ew et ef) = rw (e, ew, et, ef) (Keeps-same _ s v)
  Act-Keeps w s w' s' took found v (go_on _ _ e ew et ef) = rw (e, ew, et, ef) (Keeps-same _ s v)
  Act-Keeps w s w' s' took found v (read_active _ e ew et ef) =
      rw (e, ew, et, ef) (Keeps-same _ s v)
  Act-Keeps w s w' s' took found v (give_way n _ _ e ew et ef) =
      rw (e, ew, et, ef) (Keeps-same _ s v)
  Act-Keeps w s w' s' took found v (stay n _ _ e ew et ef) = rw (e, ew, et, ef) (Keeps-same _ s v)
  Act-Keeps w s w' s' took found v (leave _ e ew et ef) = rw (e, ew, et, ef) (Keeps-stop s v)

-- The invariant of a crew: the counters count the waiting prefixes and the workers, and the
-- prefixes found are, in some order, those handed out, those reported as left behind and those that
-- wait.
pub record Inv (c : Crew) : Type 0 where
  pub valid : IsValid c.shared
  pub balance : Perm c.found (c.taken ++ (c.reported ++ waiting c.shared))
  pub active : Counts c.shared.metrics.active_workers (length c.workers)

past :
    (others found took before after : List CommonPrefix)
    → Perm (found ++ before) (took ++ after)
    → Perm (found ++ (others ++ before)) (took ++ (others ++ after))
past others found took before after step =
    Perm.trans (perm_swap_append found others before)
      (Perm.trans (Perm.append_left others step) (Perm.symm (perm_swap_append took others after)))

balance-step :
    (found took all_found all_taken reported before after : List CommonPrefix)
    → Perm all_found (all_taken ++ (reported ++ before))
    → Perm (found ++ before) (took ++ after)
    → Perm (found ++ all_found) ((took ++ all_taken) ++ (reported ++ after))
balance-step found took all_found all_taken reported before after old step =
    let slid = past reported found took before after step in
    Perm.trans (Perm.append_left found old) (
      Perm.trans (past all_taken found took (reported ++ before) (reported ++ after) slid)
        (subst (Perm _) (sym (append_assoc took all_taken (reported ++ after))) (Perm.refl _)))

active-step :
    (before after : List Phase) (w : Phase) (w' : Option Phase) (n : ℕ)
    → Counts n (length (before ++ w ∷ after))
    → Counts (active_after w' n) (length (before ++ (to_list w' ++ after)))
active-step before after w none n h = Counts-decr n _ (
    subst (Counts n) (omega (arith, length-append before (w ∷ after), length-append before after))
      h)
active-step before after w (some w') n h =
    subst (Counts n)
      (omega (arith, length-append before (w ∷ after), length-append before (w' ∷ after))) h

reports-balance :
    (c : Crew) (left after : List CommonPrefix)
    → Perm c.found (c.taken ++ (c.reported ++ waiting c.shared))
    → Perm (waiting c.shared) (left ++ after)
    → Perm c.found (c.taken ++ ((left ++ c.reported) ++ after))
reports-balance c left after old same =
    subst (λ rest. Perm c.found (c.taken ++ rest)) (sym (append_assoc left c.reported after))
      (Perm.trans old (
        Perm.append_left c.taken
          (Perm.trans (Perm.append_left c.reported same) (perm_swap_append c.reported left after))))

module _ (serialize : Object → Text) (format : OutputFormat) where
  acts-Inv :
      (c : Crew) (before after : List Phase) (w : Phase) (w' : Option Phase) (s' : Shared)
      (took found : List CommonPrefix)
      → Inv c
      → c.workers ≡ before ++ w ∷ after
      → Keeps w' c.shared s' took found
      → Inv (record {
        shared = s';
        workers = before ++ (to_list w' ++ after);
        found = found ++ c.found;
        taken = took ++ c.taken;
        reported = c.reported;
      })
  acts-Inv c before after w w' s' took found i e k = record {
    valid = k.valid;
    balance =
        balance-step found took c.found c.taken c.reported (waiting c.shared) (waiting s') i.balance
          k.balance;
    active = rw k.active (
        active-step before after w w' c.shared.metrics.active_workers
          (subst (λ ws. Counts c.shared.metrics.active_workers (length ws)) e i.active));
  }

  polls-Inv :
      (c : Crew) (answer : Poll) (s' : Shared)
      → poll c.shared ≡ (answer, s')
      → Inv c
      → Inv (record c { shared = s'; reported = left_behind answer ++ c.reported })
  polls-Inv c answer s' e i =
      let (v, same, m) = subst (Polled c.shared) e (poll-Polled c.shared i.valid) in
      record {
        valid = v;
        balance = reports-balance c (left_behind answer) (waiting s') i.balance same;
        active = rw m i.active;
      }

  pub Step-Inv : {c c' : Crew} → Step serialize format c c' → Inv c → Inv c'
  unfolding worker_starts
  Step-Inv {c} (acts before after w w' s' took found e a e') i = rw e' (
      acts-Inv c before after w w' s' took found i e
        (Act-Keeps serialize format w c.shared w' s' took found i.valid a))
  Step-Inv {c} (spawns e) i = rw e (record {
    valid = record { counted = i.valid.counted; sorted = i.valid.sorted };
    balance = i.balance;
    active = subst (Counts _) (omega arith) (Counts-plus _ (length c.workers) 1 i.active);
  })
  Step-Inv {c} (retargets n e) i = rw e (record {
    valid = record { counted = i.valid.counted; sorted = i.valid.sorted };
    balance = i.balance;
    active = i.active;
  })
  Step-Inv {c} (pops text rest h e) i = rw e (record {
    valid = record { counted = i.valid.counted; sorted = i.valid.sorted };
    balance = i.balance;
    active = i.active;
  })
  Step-Inv {c} (polls answer s' h e) i = rw e (polls-Inv c answer s' h i)

  initial-Inv : Inv initial
  unfolding initial start emplace pending plus
  initial-Inv = record {
    valid = record { counted = refl; sorted = omega arith };
    balance = Perm.refl _;
    active = refl;
  }

  -- However the workers of a crew are interleaved and whatever the server answers, the queue stays
  -- sorted by depth, its counter counts the prefixes that wait and `active_workers` the workers,
  -- both modulo 2 ^ 64, and the prefixes ever found are, as often and in some order, those handed
  -- out to a worker, those that the destructor reported and dropped, and those that still wait.
  pub Reach-Inv : {c : Crew} → Reach serialize format initial c → Inv c
  Reach-Inv here = initial-Inv
  Reach-Inv (next r s) = Step-Inv s (Reach-Inv r)
