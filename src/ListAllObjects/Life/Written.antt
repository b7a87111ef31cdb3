-- ===== src/ListAllObjects/Life/Written.antt =====
-- What becomes of the texts that the workers push, over the life of the manager.
use s3cpp.Prelude.{arith, ℕ, ◌≡◌, refl, ap, sym, subst, List, [], ◌∷◌, ◌++◌, Text}
use s3cpp.ListAllObjects.Manager.Writer.{
  Writer, Reach as WriterReach, here as still, next as then, own, signal, push,
}
use s3cpp.ListAllObjects.Manager.{poll, worker_starts}
use s3cpp.S3.Types.{Object}
use s3cpp.ListAllObjects.Misc.{OutputFormat, Shared}
use s3cpp.ListAllObjects.Manager.Scaling.{ScalingFactors, Double}
use s3cpp.ListAllObjects.Life.{
  writer_of, Life, Step, Reach, here, next, works, starts, scales, writes, waits, leaves,
  cancels_scaling, cancels_writing, joins,
}

WriterReach-trans : {s t u : Writer} → WriterReach s t → WriterReach t u → WriterReach s u
WriterReach-trans r still = r
WriterReach-trans r (then e q x) = then e (WriterReach-trans r q) x

pushes :
    (new : List Text) (w : Writer)
    → WriterReach w (record w { write_stack = new ++ w.write_stack; pushed = new ++ w.pushed })
pushes [] w = still
pushes (text ∷ new) w = then own (pushes new w) (push text refl refl)

poll-stack : (s : Shared) → (poll s).1.write_stack ≡ s.write_stack
unfolding poll
poll-stack s = ground arith

module _ {f : Double} (rolling_mean : List ℕ → f.D) (config : ScalingFactors f)
    (serialize : Object → Text) (format : OutputFormat) where
  same_writer : (s t : Writer) → t ≡ s → WriterReach s t
  same_writer s t e = subst (WriterReach s) (sym e) still

  abbrev with_stack : Life f → List Text → List Text → Writer
  with_stack l pushed ts = record (writer_of l) { write_stack = ts; pushed = pushed }

  -- Whatever the manager, its crew and the destructor do are steps of a writer, or nothing to it.
  Step-writer :
      {l t : Life f}
      → Step rolling_mean config serialize format l t
      → WriterReach (writer_of l) (writer_of t)
  unfolding worker_starts
  Step-writer {l} (works before after w w' s' took found new _ _ e h) = rw h (
      subst (λ ts. WriterReach (writer_of l) (with_stack l (new ++ l.pushed) ts)) (sym e)
        (pushes new (writer_of l)))
  Step-writer {l} (starts n _ h) = rw h still
  Step-writer {l} (scales s _ h) = rw h still
  Step-writer {l} (writes w x _ h) = rw h (then own still x)
  Step-writer {l} (waits _ _ h) =
      rw h (same_writer _ _ (ap (with_stack l l.pushed) (poll-stack l.crew.shared)))
  Step-writer {l} (leaves left x) =
      rw x.behind (same_writer _ _ (ap (with_stack l l.pushed) (poll-stack l.crew.shared)))
  Step-writer {l} (cancels_scaling s _ _ h) = rw h still
  Step-writer {l} (cancels_writing w _ x h) = rw h (then signal still x)
  Step-writer {l} (joins _ h) = rw h still

  pub Reach-writer :
      {l t : Life f}
      → Reach rolling_mean config serialize format l t
      → WriterReach (writer_of l) (writer_of t)
  Reach-writer here = still
  Reach-writer (next r s) = WriterReach-trans (Reach-writer r) (Step-writer s)
