-- ===== src/ListAllObjects/Life/Lost.antt =====
-- What a lost signal does to the destructor.
use s3cpp.Prelude.{ℕ, refl, ◌≡◌, ◌≢◌, ◌⊎◌, inl, inr, ap, sym, subst, ◌∙◌, List, Text}
use s3cpp.ListAllObjects.Manager.Writer.{WriterPhase, ended, raised, own, Event}
use s3cpp.ListAllObjects.Manager.Writer.Signal.{Unaborted, Step-Unaborted}
use s3cpp.S3.Types.{Object}
use s3cpp.ListAllObjects.Misc.{OutputFormat}
use s3cpp.ListAllObjects.Manager.Scaling.{ScalingFactors, Double}
use s3cpp.ListAllObjects.Manager.Scaling.Steps.{
  ScalerPhase, Scaler, Scales, begin, elapse, break, sample, see_none, see_some, read_active, align,
  decide, keep, differ, change, count, post, settle, abort, miss, ended as stopped,
  raised as thrown,
}
use s3cpp.ListAllObjects.Life.{
  Life, Joins, Step, Reach, Destructor, here, next, works, starts, scales, writes, waits, leaves,
  cancels_scaling, cancels_writing, joins, polling, cancelling_scaling, cancelling_writing, joining,
  returned,
}

-- The destructor has emitted both signals.
abbrev pub After : Destructor → Type 0
After polling = ⊥
After cancelling_scaling = ⊥
After cancelling_writing = ⊥
After joining = Unit
After returned = Unit

module _ {f : Double} {rolling_mean : List ℕ → f.D} {config : ScalingFactors f} where
  -- Only a signal ends the scaling coroutine.
  own-stopped :
      {e : Event} {s t : Scaler f}
      → Scales f rolling_mean config e s t
      → e ≡ own
      → s.phase ≢ stopped
      → t.phase ≢ stopped
  own-stopped (begin _ _ h) o ne y = let x = sym (ap (λ s. s.phase) h) ∙ y in cc
  own-stopped (elapse _ _ h) o ne y = let x = sym (ap (λ s. s.phase) h) ∙ y in cc
  own-stopped (break _ _ h) o ne y = let x = sym (ap (λ s. s.phase) h) ∙ y in cc
  own-stopped (sample _ _ _ _ h) o ne y = let x = sym (ap (λ s. s.phase) h) ∙ y in cc
  own-stopped (see_none _ _ _ _ h) o ne y = let x = sym (ap (λ s. s.phase) h) ∙ y in cc
  own-stopped (see_some _ _ _ _ h) o ne y = let x = sym (ap (λ s. s.phase) h) ∙ y in cc
  own-stopped (read_active _ _ h) o ne y = let x = sym (ap (λ s. s.phase) h) ∙ y in cc
  own-stopped (align _ _ _ h) o ne y = let x = sym (ap (λ s. s.phase) h) ∙ y in cc
  own-stopped (decide _ _ _ h) o ne y = let x = sym (ap (λ s. s.phase) h) ∙ y in cc
  own-stopped (keep _ _ _ _ h) o ne y = let x = sym (ap (λ s. s.phase) h) ∙ y in cc
  own-stopped (differ _ _ _ _ h) o ne y = let x = sym (ap (λ s. s.phase) h) ∙ y in cc
  own-stopped (change _ _ _ h) o ne y = let x = sym (ap (λ s. s.phase) h) ∙ y in cc
  own-stopped (count _ _ _ h) o ne y = let x = sym (ap (λ s. s.phase) h) ∙ y in cc
  own-stopped (post _ _ _ h) o ne y = let x = sym (ap (λ s. s.phase) h) ∙ y in cc
  own-stopped (settle _ _ h) o ne y = let x = sym (ap (λ s. s.phase) h) ∙ y in cc
  own-stopped (abort e _ h) o ne y = cc
  own-stopped (miss e _ h) o ne y = cc

-- From `l` to `t` no signal was emitted: what none had reached, none has.
abbrev pub Quiet : {f : Double} → Life f → Life f → Type 0
Quiet l t =
    After t.destructor
    × (Unaborted l.writing → Unaborted t.writing)
    × (l.scaling ≢ stopped → t.scaling ≢ stopped)

module _ {f : Double} (rolling_mean : List ℕ → f.D) (config : ScalingFactors f)
    (serialize : Object → Text) (format : OutputFormat) where
  pub Step-Quiet :
      {l t : Life f}
      → Step rolling_mean config serialize format l t
      → After l.destructor
      → Quiet l t
  Step-Quiet (works _ _ _ _ _ _ _ _ _ _ _ h) a = rw h (a, λ u. u, λ u. u)
  Step-Quiet (starts _ _ h) a = rw h (a, λ u. u, λ u. u)
  Step-Quiet (scales _ x h) a = rw h (a, λ u. u, own-stopped x refl)
  Step-Quiet (writes _ x _ h) a = rw h (a, Step-Unaborted x, λ u. u)
  Step-Quiet (waits _ _ h) a = rw h (a, λ u. u, λ u. u)
  Step-Quiet (leaves left x) a = absurd (subst After x.was_polling a)
  Step-Quiet (cancels_scaling _ e _ h) a = absurd (subst After e a)
  Step-Quiet (cancels_writing _ e _ h) a = absurd (subst After e a)
  Step-Quiet (joins _ h) a = rw h (tt, λ u. u, λ u. u)

  Reach-Quiet :
      {l t : Life f}
      → Reach rolling_mean config serialize format l t
      → After l.destructor
      → Quiet l t
  Reach-Quiet here a = (a, λ u. u, λ u. u)
  Reach-Quiet (next r s) a =
      let (b, unaborted, unstopped) = Reach-Quiet r a in
      let (c, writing, scaling) = Step-Quiet s b in
      (c, λ u. writing (unaborted u), λ u. scaling (unstopped u))

  -- Once the destructor has emitted both signals and is joining the pool: if no signal has reached
  -- the writer, the join returns only after the writer ended by an exception, and if none has
  -- stopped the scaling coroutine, only after that one ended by an exception.
  pub lost_signals :
      {l n : Life f}
      → l.destructor ≡ joining
      → Reach rolling_mean config serialize format l n
      → Joins n
      → (Unaborted l.writing → n.writing ≡ raised) × (l.scaling ≢ stopped → n.scaling ≡ thrown)
  lost_signals {l} {n} e r j =
      let (_, unaborted, unstopped) = Reach-Quiet r (subst After (sym e) tt) in
      (
        λ u. not_ended n.writing j.writing_over (unaborted u),
        λ u. not_stopped n.scaling j.scaling_over (unstopped u),
      )
    where
      not_ended : (w : WriterPhase) → (w ≡ ended) ⊎ (w ≡ raised) → Unaborted w → w ≡ raised
      not_ended w (inl e) u = absurd (subst Unaborted e u)
      not_ended w (inr e) u = e

      not_stopped : (s : ScalerPhase f) → (s ≡ stopped) ⊎ (s ≡ thrown) → s ≢ stopped → s ≡ thrown
      not_stopped s (inl e) u = absurd (u e)
      not_stopped s (inr e) u = e
