-- ===== src/ListAllObjects/Manager/Writer/Conserve.antt =====
-- What becomes of the texts that workers push.
use s3cpp.Prelude.{
  ◌≡◌, sym, ap, subst, ◌∙◌, ◌≢◌, List, [], ◌∷◌, ◌++◌, append_assoc, append-nil, Text, Perm,
  perm_swap_append,
}
use mathlib.Core.List.Perm
use s3cpp.ListAllObjects.Manager.Writer.{
  in_flight, WriterPhase, draining, ended, Writer, Event, Step, push, begin, elapse, break, pop,
  write, fail, go_on, finish, abort, miss, Reach, here, next, new_writer,
}

-- Each text that was pushed is in one place.
abbrev pub Places : Writer → WriterPhase → List Text → Type 0
Places s phase stack = Perm s.pushed (s.failed ++ (s.file ++ (in_flight phase ++ stack)))

abbrev pub Balanced : Writer → Type 0
Balanced s = Places s s.phase s.write_stack

slides : (text : Text) (ts us : List Text) → Perm (text ∷ (ts ++ us)) (ts ++ text ∷ us)
slides text ts us = perm_swap_append (text ∷ []) ts us

Step-Balanced : {e : Event} {s t : Writer} → Step e s t → Balanced s → Balanced t
Step-Balanced {s} (push text e f) b =
    let flight = in_flight s.phase in
    rw f (
      Perm.trans (Perm.cons text b) (
        Perm.trans (slides text s.failed (s.file ++ (flight ++ s.write_stack))) (
          Perm.append_left s.failed (
            Perm.trans (slides text s.file (flight ++ s.write_stack))
              (Perm.append_left s.file (slides text flight s.write_stack))))))
Step-Balanced {s} (begin e p f) b = rw f (subst (λ w. Places s w s.write_stack) p b)
Step-Balanced {s} (elapse e p f) b = rw f (subst (λ w. Places s w s.write_stack) p b)
Step-Balanced {s} (break e p f) b = rw f (subst (λ w. Places s w s.write_stack) p b)
Step-Balanced {s} (pop aborted text rest e p q f) b =
    rw f (subst (Places s (draining aborted)) q (subst (λ w. Places s w s.write_stack) p b))
Step-Balanced {s} (write aborted text e p f) b =
    rw f (
      rw (append_assoc s.file (text ∷ []) s.write_stack)
        (subst (λ w. Places s w s.write_stack) p b))
Step-Balanced {s} (fail aborted text e p f) b = rw f (
    Perm.trans (subst (λ w. Places s w s.write_stack) p b) (
      Perm.trans (Perm.append_left s.failed (Perm.symm (slides text s.file s.write_stack)))
        (Perm.symm (slides text s.failed (s.file ++ s.write_stack)))))
Step-Balanced {s} (go_on e p q f) b = rw f (subst (λ w. Places s w s.write_stack) p b)
Step-Balanced {s} (finish e p q f) b = rw f (subst (λ w. Places s w s.write_stack) p b)
Step-Balanced {s} (abort e p f) b = rw f (subst (λ w. Places s w s.write_stack) p b)
Step-Balanced {s} (miss e p f) b = rw f b

pub Reach-Balanced : {s t : Writer} → Reach s t → Balanced s → Balanced t
Reach-Balanced here b = b
Reach-Balanced (next e q s) b = Step-Balanced s (Reach-Balanced q b)

-- The coroutine ends over an empty stack.
ends-empty :
    {e : Event} {s t : Writer} → Step e s t → s.phase ≢ ended → t.phase ≡ ended → t.write_stack ≡ []
ends-empty (push text e f) ne y = absurd (ne (sym (ap (λ w. w.phase) f) ∙ y))
ends-empty (begin e p f) ne y = let x = sym (ap (λ w. w.phase) f) ∙ y in cc
ends-empty (elapse e p f) ne y = let x = sym (ap (λ w. w.phase) f) ∙ y in cc
ends-empty (break e p f) ne y = let x = sym (ap (λ w. w.phase) f) ∙ y in cc
ends-empty (pop aborted text rest e p q f) ne y = let x = sym (ap (λ w. w.phase) f) ∙ y in cc
ends-empty (write aborted text e p f) ne y = let x = sym (ap (λ w. w.phase) f) ∙ y in cc
ends-empty (fail aborted text e p f) ne y = let x = sym (ap (λ w. w.phase) f) ∙ y in cc
ends-empty (go_on e p q f) ne y = let x = sym (ap (λ w. w.phase) f) ∙ y in cc
ends-empty (finish e p q f) ne y = ap (λ w. w.write_stack) f ∙ q
ends-empty (abort e p f) ne y = let x = sym (ap (λ w. w.phase) f) ∙ y in cc
ends-empty (miss e p f) ne y = absurd (ne (sym (ap (λ w. w.phase) f) ∙ y))

-- However the coroutine, the workers that push, failing writes and signals interleave: each text
-- that was ever pushed is, once for each time it was pushed, in the file, among those whose write
-- failed, being written or on the stack; and when the coroutine ends, in the file or among those
-- whose write failed.
pub new_writer-Balanced :
    {s t : Writer} {e : Event}
    → Reach new_writer s
    → Step e s t
    → Balanced t × (s.phase ≢ ended → t.phase ≡ ended → Perm t.pushed (t.failed ++ t.file))
unfolding new_writer
new_writer-Balanced {s} {t} {e} q step =
    let b = Step-Balanced step (Reach-Balanced q (Perm.refl _)) in (b, last step b)
  where
    last :
        Step e s t
        → Balanced t
        → s.phase ≢ ended
        → t.phase ≡ ended
        → Perm t.pushed (t.failed ++ t.file)
    last x b ne y =
        subst (λ file. Perm t.pushed (t.failed ++ file)) (append-nil t.file)
          (subst (Places t ended) (ends-empty x ne y) (subst (λ w. Places t w t.write_stack) y b))
