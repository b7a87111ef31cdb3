-- ===== src/ListAllObjects/Crew/Refines/Spawn.antt =====
-- A run of `spawn_worker` as the steps of one worker: it starts, acts and ends.
use s3cpp.Prelude.{
  ℕ, zero, suc, ◌≡◌, refl, ◌≢◌, inl, inr, false, Option, none, some, List, [], ◌∷◌, arith,
  Bool-cases, Text,
}
use s3cpp.S3.Types.{Object, CommonPrefix}
use s3cpp.ListAllObjects.Misc.{OutputFormat, ListObjectsApiVersion, Shared}
use s3cpp.ListAllObjects.Worker.{is_done, should_terminate_early, get_next_prefix}
use s3cpp.ListAllObjects.Process.{
  ClientApi, Ending, finished, skipped, out_of_fuel, failed, process_prefix, work,
}
use s3cpp.ListAllObjects.Manager.{worker_starts, worker_stops, spawn_worker}
use s3cpp.ListAllObjects.Crew.{
  Phase, leaving, leave, seeking, listing, checking, comparing, compared, Reach, fetch, miss,
  finish, go_on, read_active, give_way, stay, spawns, here as at_rest, next as and_then,
}
use s3cpp.ListAllObjects.Crew.Refines.{stands, holds, process_prefix-Follows}
use s3cpp.ListAllObjects.Crew.Alone.{
  Solo, at, Alone, here, Alone-trans, quietly, Alone-Reach, Reach-trans, crew_of,
}
use s3cpp.ListAllObjects.Crew.Refines.Rounds.{next_round, work-miss, work-fetch}

module _ (c : ClientApi) (bucket : Text) (version : ListObjectsApiVersion)
    (serialize : Object → Text) (format : OutputFormat) where
  open c use {Net}

  -- From `a` the worker goes on until it ends, or until the model's fuel is spent.
  abbrev Works : Solo c → Ending × Shared × Net → Type 0
  Works a (out_of_fuel, t, end) =
      (w : Phase) × (token : Option Text) × Alone c bucket version serialize format a
        (at c (some w) token t end)
  Works a (finished, t, end) =
      Alone c bucket version serialize format a (at c none none (worker_stops t) end)
  Works a (skipped, t, end) =
      Alone c bucket version serialize format a (at c none none (worker_stops t) end)
  Works a (failed x, t, end) =
      Alone c bucket version serialize format a (at c none none (worker_stops t) end)

  Works-trans :
      {a b : Solo c} (done : Ending × Shared × Net)
      → Alone c bucket version serialize format a b
      → Works b done
      → Works a done
  Works-trans (finished, t, end) r q = Alone-trans c bucket version serialize format r q
  Works-trans (skipped, t, end) r q = Alone-trans c bucket version serialize format r q
  Works-trans (failed x, t, end) r q = Alone-trans c bucket version serialize format r q
  Works-trans (out_of_fuel, t, end) r (w, k, q) =
      (w, k, Alone-trans c bucket version serialize format r q)

  -- The worker's scope guard counts it off.
  goes :
      (token : Option Text) (t : Shared) (end : Net)
      → Alone c bucket version serialize format
          (at c (some leaving) token t end)
          (at c none none (worker_stops t) end)
  goes token t end =
      quietly c bucket version serialize format leaving none token t (worker_stops t) end [] [] refl
        (leave refl refl refl refl refl)

  -- The tests behind a prefix: it ends, gives way or seeks another.
  module _ (fuel : ℕ) (t : Shared) (end : Net)
      (ih : Works
        (at c (some seeking) none t end)
        (work c bucket version serialize format fuel t end)) where
    compares :
        (token : Option Text)
        → is_done t ≡ false
        → Alone c bucket version serialize format
            (at c (some checking) token t end)
            (at c (some (compared t.metrics.active_workers)) none t end)
    compares token more =
        Alone-trans c bucket version serialize format
          (quietly c bucket version serialize format checking (some comparing) token t t end [] []
            refl (go_on refl more refl refl refl refl))
          (quietly c bucket version serialize format comparing
            (some (compared t.metrics.active_workers)) none t t end [] [] refl
            (read_active refl refl refl refl refl))

    next_round-Works :
        (token : Option Text)
        → Works
            (at c (some checking) token t end)
            (next_round c bucket version serialize format fuel (finished, t, end))
    unfolding should_terminate_early
    next_round-Works token = elim (Bool-cases (is_done t)) [
      | inl y ↦ rw y (
          Alone-trans c bucket version serialize format
            (quietly c bucket version serialize format checking (some leaving) token t t end [] []
              refl (finish refl y refl refl refl refl))
            (goes none t end))
      | inr n ↦ elim (Bool-cases (should_terminate_early t)) [
        | inl y ↦
            rw (n, y)
              (Alone-trans c bucket version serialize format (compares token n) (
                Alone-trans c bucket version serialize format
                  (quietly c bucket version serialize format _ (some leaving) none t t end [] []
                    refl (give_way _ refl (ground arith) refl refl refl refl))
                  (goes none t end)))
        | inr m ↦
            rw (n, m)
              (Works-trans _
                (Alone-trans c bucket version serialize format (compares token n) (
                  quietly c bucket version serialize format _ (some seeking) none t t end [] [] refl
                    (stay _ refl (ground arith) refl refl refl refl)))
                ih)
      ]
    ]

  by_ending :
      (fuel : ℕ) (a : Solo c) (p : CommonPrefix) (d : ℕ)
      → ((t : Shared) (end : Net)
          → Works
              (at c (some seeking) none t end)
              (work c bucket version serialize format fuel t end))
      → (done : Ending × Shared × Net) (token : Option Text)
      → Alone c bucket version serialize format a
          (at c (stands p d done.0) (holds done.0 token) done.1 done.2)
      → Works a (next_round c bucket version serialize format fuel done)
  by_ending fuel a p d ih (finished, t, end) token r =
      Works-trans (next_round c bucket version serialize format fuel (finished, t, end)) r
        (next_round-Works fuel t end (ih t end) none)
  by_ending fuel a p d ih (skipped, t, end) token r =
      Works-trans (next_round c bucket version serialize format fuel (finished, t, end)) r
        (next_round-Works fuel t end (ih t end) none)
  by_ending fuel a p d ih (out_of_fuel, t, end) token r = (listing p d, token, r)
  by_ending fuel a p d ih (failed x, t, end) token r =
      Alone-trans c bucket version serialize format r (goes none t end)

  work-Works :
      (fuel : ℕ) (s : Shared) (net : Net)
      → Works (at c (some seeking) none s net) (work c bucket version serialize format fuel s net)
  unfolding work
  work-Works zero s net = (seeking, none, here)
  work-Works (suc fuel) s net = by_fetch (work-Works fuel) (get_next_prefix s) refl
    where
      by_fetch :
          ((t : Shared) (end : Net)
            → Works
                (at c (some seeking) none t end)
                (work c bucket version serialize format fuel t end))
          → (got : Option (CommonPrefix × ℕ) × Shared) → get_next_prefix s ≡ got
          → Works
              (at c (some seeking) none s net)
              (work c bucket version serialize format (suc fuel) s net)
      by_fetch ih (none, t) e = rw (work-miss c bucket version serialize format fuel s t net e) (
          Works-trans (next_round c bucket version serialize format fuel (finished, t, net))
            (quietly c bucket version serialize format seeking (some checking) none s t net [] []
              refl (miss refl e refl refl refl))
            (next_round-Works fuel t net (ih t net) none))
      by_fetch ih (some (p, d), t) e =
          let (token, r) =
            process_prefix-Follows c bucket version serialize format fuel p d none t net in
          rw (work-fetch c bucket version serialize format fuel s t net p d _ e refl) (
            by_ending fuel _ p d ih
              (process_prefix c bucket version serialize format fuel p d none t net) token
              (Alone-trans c bucket version serialize format
                (quietly c bucket version serialize format seeking (some (listing p d)) none s t net
                  (p ∷ []) [] refl (fetch p d refl e refl refl refl))
                r))

  -- A run of `spawn_worker` that comes to an end, by an exception too, is what one worker does by
  -- itself: from the state in which it has been counted, with all the network's answers, access by
  -- access to the shared state and the network that the run leaves, where it has been counted off
  -- and is gone. Among any other workers of a crew, which stand still, these accesses lead from the
  -- shared state before the run to the one behind it.
  pub spawn_worker-Alone :
      (fuel : ℕ) (s : Shared) (net : Net) (others : List Phase) (found taken : List CommonPrefix)
      → (spawn_worker c bucket version serialize format fuel s net).0 ≢ out_of_fuel
      → Alone c bucket version serialize format (at c (some seeking) none (worker_starts s) net) (
          at c none none
            (spawn_worker c bucket version serialize format fuel s net).1
            (spawn_worker c bucket version serialize format fuel s net).2)
        × (found' taken' : List CommonPrefix) × Reach serialize format
            (crew_of s others found taken)
            (crew_of
              (spawn_worker c bucket version serialize format fuel s net).1
              others
              found'
              taken')
  unfolding spawn_worker
  spawn_worker-Alone fuel s net others found taken ends =
      let done = work c bucket version serialize format fuel (worker_starts s) net in
      let alone = by_end done (work-Works fuel (worker_starts s) net) ends in
      let (found', taken', r) =
        Alone-Reach c bucket version serialize format _ _ others found taken alone in
      (alone, found', taken', Reach-trans serialize format (and_then at_rest (spawns refl)) r)
    where
      by_end :
          (done : Ending × Shared × Net)
          → Works (at c (some seeking) none (worker_starts s) net) done
          → done.0 ≢ out_of_fuel
          → Alone c bucket version serialize format
              (at c (some seeking) none (worker_starts s) net)
              (at c none none (worker_stops done.1) done.2)
      by_end (finished, t, end) r ne = r
      by_end (skipped, t, end) r ne = r
      by_end (failed x, t, end) r ne = r
      by_end (out_of_fuel, t, end) w ne = absurd (ne refl)
