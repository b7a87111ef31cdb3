-- ===== src/ListAllObjects/Life/Closed.antt =====
-- Behind the destructor's loop: what workers do that start late.
use s3cpp.ListAllObjects.Queue.Pending.{pending}
use s3cpp.Prelude.{
  ℕ, ◌≡◌, ◌≢◌, refl, ap, sym, subst, ◌∙◌, List, [], ◌∷◌, ◌++◌, length, length-append, length-zero,
  arith, All, All-append, All-parts, Text,
}
use s3cpp.S3.Types.{Object, CommonPrefix}
use s3cpp.ListAllObjects.Misc.{OutputFormat, Shared}
use s3cpp.ListAllObjects.Manager.{worker_starts}
use s3cpp.ListAllObjects.Manager.Scaling.{ScalingFactors, Double}
use s3cpp.ListAllObjects.Manager.Writer.{ended}
use s3cpp.ListAllObjects.Manager.Writer.Drains.{ended-empty, signal-pushed}
use s3cpp.ListAllObjects.Worker.Accounting.{waiting}
use s3cpp.ListAllObjects.Crew.{
  Phase, Act, acted, Crew, Reach as CrewReach, here as still, next as then,
}
use s3cpp.ListAllObjects.Crew.Conserve.{Inv, Step-Inv}
use s3cpp.ListAllObjects.Crew.Idle.{Idle, idle-Rests}
use s3cpp.ListAllObjects.Life.{
  Option, Life, Step, Reach, here, next, works, starts, scales, writes, waits, leaves,
  cancels_scaling, cancels_writing, joins, polling,
}
use s3cpp.ListAllObjects.Life.Parts.{Step-crew}

-- The life `l`, where the destructor's loop ended at `m`: no prefix waits and no worker has one,
-- what was found, handed out and pushed is what it was at `m`, and the writer ends over an empty
-- stack.
pub record Closed {f : Double} (m l : Life f) : Type 0 where
  pub inv : Inv l.crew
  pub none_waiting : waiting l.crew.shared ≡ []
  pub idle : All Idle l.crew.workers
  pub none_reported : l.crew.reported ≡ []
  pub same_found : l.crew.found ≡ m.crew.found
  pub same_taken : l.crew.taken ≡ m.crew.taken
  pub same_pushed : l.pushed ≡ m.pushed
  pub dried : l.writing ≡ ended → l.crew.shared.write_stack ≡ []
  pub past : l.destructor ≢ polling

no_growth : (new ts : List Text) → ts ≡ new ++ ts → new ≡ []
no_growth new ts e = length-zero new (omega (arith, ap length e, length-append new ts))

module _ (serialize : Object → Text) (format : OutputFormat) where
  pub CrewReach-Inv : {c d : Crew} → CrewReach serialize format c d → Inv c → Inv d
  CrewReach-Inv still i = i
  CrewReach-Inv (then r s) i = Step-Inv serialize format s (CrewReach-Inv r i)

  module _ {f : Double} (rolling_mean : List ℕ → f.D) (config : ScalingFactors f) where
    works-Closed :
        (m l : Life f) (before after : List Phase) (w : Phase) (w' : Option Phase) (s' : Shared)
        (took found : List CommonPrefix) (new : List Text)
        → l.crew.workers ≡ before ++ w ∷ after
        → Act serialize format w l.crew.shared w' s' took found
        → s'.write_stack ≡ new ++ l.crew.shared.write_stack
        → Closed m l
        → Inv (acted l.crew before after w' s' took found)
        → Closed m (record l {
          crew = acted l.crew before after w' s' took found;
          pushed = new ++ l.pushed;
        })
    works-Closed m l before after w w' s' took found new e a grown c i =
        let (idle_before, idle_rest) =
          All-parts Idle before (w ∷ after) (subst (All Idle) e c.idle) in
        let r = idle-Rests a idle_rest.0 c.inv.valid c.none_waiting in
        let none_new = no_growth new l.crew.shared.write_stack (sym r.same_stack ∙ grown) in
        record {
          inv = i;
          none_waiting = r.none_waiting;
          idle =
              All-append Idle before _ idle_before
                (All-append Idle _ after r.still_idle idle_rest.1);
          none_reported = c.none_reported;
          same_found = rw r.found_none c.same_found;
          same_taken = rw r.took_none c.same_taken;
          same_pushed = rw none_new c.same_pushed;
          dried = λ over. r.same_stack ∙ c.dried over;
          past = c.past;
        }

    -- What leaves the queue and the records of the prefixes and the texts as they are.
    quiet-Closed :
        (m l t : Life f)
        → Closed m l
        → Inv t.crew
        → t.crew.shared.prefix_queue ≡ l.crew.shared.prefix_queue
        → (t.crew.reported ≡ l.crew.reported)
          × (t.crew.found ≡ l.crew.found)
          × (t.crew.taken ≡ l.crew.taken)
          × (t.pushed ≡ l.pushed)
        → All Idle t.crew.workers
        → (t.writing ≡ ended → t.crew.shared.write_stack ≡ [])
        → t.destructor ≢ polling
        → Closed m t
    quiet-Closed m l t c i q (reported, found, taken, pushed) idle dried past = record {
      inv = i;
      none_waiting = ap pending q ∙ c.none_waiting;
      idle = idle;
      none_reported = reported ∙ c.none_reported;
      same_found = found ∙ c.same_found;
      same_taken = taken ∙ c.same_taken;
      same_pushed = pushed ∙ c.same_pushed;
      dried = dried;
      past = past;
    }

    pub Step-Closed :
        {m l t : Life f} → Step rolling_mean config serialize format l t → Closed m l → Closed m t
    unfolding worker_starts
    Step-Closed {m} {l} {t} step c =
        by_step step (CrewReach-Inv (Step-crew serialize format rolling_mean config step) c.inv)
      where
        by_step : Step rolling_mean config serialize format l t → Inv t.crew → Closed m t
        by_step (works before after w w' s' took found new e a grown h) i =
            subst (Closed m) (sym h) (
              works-Closed m l before after w w' s' took found new e a grown c
                (subst (λ t. Inv t.crew) h i))
        by_step (starts n e h) i = subst (Closed m) (sym h) (
            quiet-Closed m l _ c (subst (λ t. Inv t.crew) h i) refl (refl, refl, refl, refl)
              (tt, c.idle) c.dried c.past)
        by_step (scales s x h) i = subst (Closed m) (sym h) (
            quiet-Closed m l _ c (subst (λ t. Inv t.crew) h i) refl (refl, refl, refl, refl) c.idle
              c.dried c.past)
        by_step (writes w x same h) i = subst (Closed m) (sym h) (
            quiet-Closed m l _ c (subst (λ t. Inv t.crew) h i) refl (refl, refl, refl, same) c.idle
              (ended-empty x same c.dried) c.past)
        by_step (waits e _ h) i = absurd (c.past e)
        by_step (leaves left x) i = absurd (c.past x.was_polling)
        by_step (cancels_scaling s e x h) i = subst (Closed m) (sym h) (
            quiet-Closed m l _ c (subst (λ t. Inv t.crew) h i) refl (refl, refl, refl, refl) c.idle
              c.dried (λ e. cc))
        by_step (cancels_writing w e x h) i =
            let same = signal-pushed x refl in
            subst (Closed m) (sym h) (
              quiet-Closed m l _ c (subst (λ t. Inv t.crew) h i) refl (refl, refl, refl, same)
                c.idle (ended-empty x same c.dried) (λ e. cc))
        by_step (joins j h) i = subst (Closed m) (sym h) (
            quiet-Closed m l _ c (subst (λ t. Inv t.crew) h i) refl (refl, refl, refl, refl) c.idle
              c.dried (λ e. cc))

    pub Reach-Closed :
        {m l t : Life f} → Reach rolling_mean config serialize format l t → Closed m l → Closed m t
    Reach-Closed here c = c
    Reach-Closed (next r s) c = Step-Closed s (Reach-Closed r c)
