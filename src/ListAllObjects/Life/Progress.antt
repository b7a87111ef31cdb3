-- ===== src/ListAllObjects/Life/Progress.antt =====
-- What can still happen while the destructor joins the pool.
use s3cpp.ListAllObjects.Life.Left.{Aborted}
use s3cpp.Prelude.{ℕ, ◌≡◌, ◌⊎◌, inl, inr, refl, ap, subst, ◌∙◌, true, List, [], ◌∷◌, Text, All}
use s3cpp.S3.Types.{Object}
use s3cpp.ListAllObjects.Misc.{OutputFormat}
use s3cpp.ListAllObjects.Manager.Scaling.{ScalingFactors, Double}
use s3cpp.ListAllObjects.Manager.Writer.{
  WriterPhase, starting, waiting as sleeping, draining, writing as busy, ended, raised, pop, write,
  finish,
}
use s3cpp.ListAllObjects.Crew.{Phase}
use s3cpp.ListAllObjects.Crew.Idle.{Idle, idle-Rests}
use s3cpp.ListAllObjects.Crew.Ends.{Idle-CanAct, none-is_done}
use s3cpp.ListAllObjects.Life.{
  Life, Step, Destructor, works, writes, polling, cancelling_scaling, cancelling_writing, joining,
  returned,
}
use s3cpp.ListAllObjects.Life.Closed.{Closed}
use s3cpp.ListAllObjects.Life.Lost.{After}

module _ {f : Double} (rolling_mean : List ℕ → f.D) (config : ScalingFactors f)
    (serialize : Object → Text) (format : OutputFormat) where
  abbrev pub GoesOn : Life f → Type 0
  GoesOn l = (t : Life f) × Step rolling_mean config serialize format l t

  pub works_on :
      (m l : Life f) (w : Phase) (ws : List Phase) → l.crew.workers ≡ w ∷ ws → Closed m l → GoesOn l
  works_on m l w ws e c =
      let idle = (subst (All Idle) e c.idle).0 in
      let done = none-is_done l.crew.shared c.inv.valid c.none_waiting in
      let a = Idle-CanAct serialize format w l.crew.shared idle done in
      let r = idle-Rests a.act idle c.inv.valid c.none_waiting in
      (_, works [] ws w a.phase a.shared a.took a.found [] e a.act r.same_stack refl)

  drains_on :
      (l : Life f) (ts : List Text)
      → l.crew.shared.write_stack ≡ ts
      → l.writing ≡ draining true
      → GoesOn l
  drains_on l [] e p = (_, writes _ (finish refl p e refl) refl refl)
  drains_on l (text ∷ rest) e p = (_, writes _ (pop true text rest refl p e refl) refl refl)

  pub writes_on :
      (l : Life f) (p : WriterPhase)
      → l.writing ≡ p
      → Aborted p
      → GoesOn l ⊎ ((l.writing ≡ ended) ⊎ (l.writing ≡ raised))
  writes_on l starting e a = absurd a
  writes_on l sleeping e a = absurd a
  writes_on l (draining aborted) e a =
      inl (drains_on l l.crew.shared.write_stack refl (e ∙ ap draining a))
  writes_on l (busy aborted text) e a = inl (_, writes _ (write aborted text refl e refl) refl refl)
  writes_on l ended e a = inr (inl e)
  writes_on l raised e a = inr (inr e)

  pub joins_on :
      (l : Life f) (d : Destructor)
      → l.destructor ≡ d
      → After d
      → (l.destructor ≡ joining → GoesOn l)
      → (l.destructor ≡ returned) ⊎ GoesOn l
  joins_on l polling e a join = absurd a
  joins_on l cancelling_scaling e a join = absurd a
  joins_on l cancelling_writing e a join = absurd a
  joins_on l joining e a join = inr (join e)
  joins_on l returned e a join = inl e
