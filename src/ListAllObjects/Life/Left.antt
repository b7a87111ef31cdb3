-- ===== src/ListAllObjects/Life/Left.antt =====
-- How many steps are left to the coroutines of a manager and to its destructor.
use s3cpp.Prelude.{
  ℕ, ◌+◌, ◌*◌, ◌<◌, ◌≡◌, ◌⊎◌, inl, inr, refl, ap, sym, subst, ◌∙◌, true, List, arith, length,
}
use s3cpp.ListAllObjects.Manager.Scaling.{ScalingFactors, Double}
use s3cpp.ListAllObjects.Manager.Scaling.Steps.{
  ScalerPhase, Scaler, Scales, begin, elapse, break, sample, see_none, see_some, read_active, align,
  decide, keep, differ, change, count, post, settle, abort, miss, starting as unstarted,
  waiting as sleeping_on, woken, sampled, idling, idled, deciding, wanting, changing, counting,
  posting, ended as stopped, raised as thrown,
}
use s3cpp.ListAllObjects.Manager.Writer.{
  WriterPhase, starting, waiting as sleeping, draining, writing as busy, ended, raised, Writer, own,
  Event, Step as Writes, push, begin as opens, elapse as expires, break as breaks, pop, write, fail,
  go_on, finish, abort as aborts, miss as misses,
}
use s3cpp.ListAllObjects.Manager.Writer.Drains.{longer}
use s3cpp.ListAllObjects.Crew.Ends.{all_left}
use s3cpp.ListAllObjects.Life.{
  Life, Destructor, polling, cancelling_scaling, cancelling_writing, joining, returned,
}

-- The phases of a writer that the signal has reached, or that has ended.
abbrev pub Aborted : WriterPhase → Type 0
Aborted starting = ⊥
Aborted sleeping = ⊥
Aborted (draining aborted) = aborted ≡ true
Aborted (busy aborted text) = aborted ≡ true
Aborted ended = Unit
Aborted raised = Unit

-- The phases of a scaling coroutine that has ended.
abbrev pub Over : {f : Double} → ScalerPhase f → Type 0
Over unstarted = ⊥
Over sleeping_on = ⊥
Over woken = ⊥
Over (sampled rate) = ⊥
Over idling = ⊥
Over (idled n) = ⊥
Over (deciding rate) = ⊥
Over (wanting n) = ⊥
Over (changing n) = ⊥
Over (counting n) = ⊥
Over (posting k) = ⊥
Over stopped = Unit
Over thrown = Unit

pub is_over : {f : Double} (s : ScalerPhase f) → Over s → (s ≡ stopped) ⊎ (s ≡ thrown)
is_over unstarted o = absurd o
is_over sleeping_on o = absurd o
is_over woken o = absurd o
is_over (sampled rate) o = absurd o
is_over idling o = absurd o
is_over (idled n) o = absurd o
is_over (deciding rate) o = absurd o
is_over (wanting n) o = absurd o
is_over (changing n) o = absurd o
is_over (counting n) o = absurd o
is_over (posting k) o = absurd o
is_over stopped o = inl refl
is_over thrown o = inr refl

-- At most so many steps of an aborted writer, over a stack of `n` texts.
unfoldable pub writer_left : WriterPhase → ℕ → ℕ
writer_left starting n = 0
writer_left sleeping n = 0
writer_left (draining aborted) n = 1 + 2 * n
writer_left (busy aborted text) n = 2 + 2 * n
writer_left ended n = 0
writer_left raised n = 0

unfoldable pub destructor_left : Destructor → ℕ
destructor_left polling = 0
destructor_left cancelling_scaling = 0
destructor_left cancelling_writing = 0
destructor_left joining = 1
destructor_left returned = 0

-- At most so many steps until the destructor returns.
unfoldable pub steps_left : {f : Double} → Life f → ℕ
steps_left l =
    4 * l.posted
    + (all_left l.crew.workers
        + (writer_left l.writing (length l.crew.shared.write_stack) + destructor_left l.destructor))

-- A step of an aborted writer brings it nearer its end, and it stays aborted.
pub writer-shortens :
    {e : Event} {s t : Writer}
    → Writes e s t
    → e ≡ own
    → t.pushed ≡ s.pushed
    → Aborted s.phase
    → (writer_left t.phase (length t.write_stack) < writer_left s.phase (length s.write_stack))
      × Aborted t.phase
unfolding writer_left
writer-shortens {s = s} (push text _ h) o same a =
    absurd (longer text s.pushed (sym same ∙ ap (λ w. w.pushed) h))
writer-shortens (opens _ p h) o same a = absurd (subst Aborted p a)
writer-shortens (expires _ p h) o same a = absurd (subst Aborted p a)
writer-shortens (breaks _ p h) o same a = absurd (subst Aborted p a)
writer-shortens (pop aborted text rest _ p q h) o same a =
    rw (h, p, q) (omega arith, subst Aborted p a)
writer-shortens (write aborted text _ p h) o same a = rw (h, p) (omega arith, subst Aborted p a)
writer-shortens (fail aborted text _ p h) o same a = rw (h, p) (omega arith, subst Aborted p a)
writer-shortens (go_on _ p _ h) o same a = let x = subst Aborted p a in cc
writer-shortens (finish _ p _ h) o same a = rw (h, p) (omega arith, tt)
writer-shortens (aborts e _ h) o same a = cc
writer-shortens (misses e _ h) o same a = cc

module _ {f : Double} {rolling_mean : List ℕ → f.D} {config : ScalingFactors f} where
  -- A coroutine that is over makes no step.
  pub no_own_step :
      {e : Event} {s t : Scaler f} → Scales f rolling_mean config e s t → e ≡ own → ¬ Over s.phase
  no_own_step (begin _ p _) o over = subst Over p over
  no_own_step (elapse _ p _) o over = subst Over p over
  no_own_step (break _ p _) o over = subst Over p over
  no_own_step (sample _ _ p _ _) o over = subst Over p over
  no_own_step (see_none _ _ p _ _) o over = subst Over p over
  no_own_step (see_some _ _ p _ _) o over = subst Over p over
  no_own_step (read_active _ p _) o over = subst Over p over
  no_own_step (align _ _ p _) o over = subst Over p over
  no_own_step (decide _ _ p _) o over = subst Over p over
  no_own_step (keep _ _ p _ _) o over = subst Over p over
  no_own_step (differ _ _ p _ _) o over = subst Over p over
  no_own_step (change _ _ p _) o over = subst Over p over
  no_own_step (count _ _ p _) o over = subst Over p over
  no_own_step (post _ _ p _) o over = subst Over p over
  no_own_step (settle _ p _) o over = subst Over p over
  no_own_step (abort e _ _) o over = cc
  no_own_step (miss e _ _) o over = cc
