-- ===== src/ListAllObjects/Manager/Writer/Drains.antt =====
-- What a step of the writer that is not a push does to the stack.
use s3cpp.Prelude.{◌≡◌, sym, ap, ◌∙◌, ◌≢◌, ◌⊎◌, inl, inr, List, [], ◌∷◌, arith, length, Text}
use s3cpp.ListAllObjects.Manager.Writer.{
  ended, Writer, Event, signal, Step, push, begin, elapse, break, pop, write, fail, go_on, finish,
  abort, miss,
}

pub longer : (text : Text) (ts : List Text) → ts ≢ text ∷ ts
longer text ts e = omega (arith, ap length e)

-- A step of the writer that pushes nothing leaves the stack as it is or takes its top.
abbrev pub Drains : Writer → Writer → Type 0
Drains s t =
    (t.write_stack ≡ s.write_stack) ⊎ ((text : Text) × (s.write_stack ≡ text ∷ t.write_stack))

pub Step-Drains : {e : Event} {s t : Writer} → Step e s t → t.pushed ≡ s.pushed → Drains s t
Step-Drains {s} (push text _ f) same =
    absurd (longer text s.pushed (sym same ∙ ap (λ w. w.pushed) f))
Step-Drains (begin _ _ f) same = inl (ap (λ w. w.write_stack) f)
Step-Drains (elapse _ _ f) same = inl (ap (λ w. w.write_stack) f)
Step-Drains (break _ _ f) same = inl (ap (λ w. w.write_stack) f)
Step-Drains (pop _ text rest _ _ q f) same = inr (text, q ∙ ap (λ w. text ∷ w.write_stack) (sym f))
Step-Drains (write _ _ _ _ f) same = inl (ap (λ w. w.write_stack) f)
Step-Drains (fail _ _ _ _ f) same = inl (ap (λ w. w.write_stack) f)
Step-Drains (go_on _ _ _ f) same = inl (ap (λ w. w.write_stack) f)
Step-Drains (finish _ _ _ f) same = inl (ap (λ w. w.write_stack) f)
Step-Drains (abort _ _ f) same = inl (ap (λ w. w.write_stack) f)
Step-Drains (miss _ _ f) same = inl (ap (λ w. w.write_stack) f)

-- The signal pushes nothing.
pub signal-pushed : {e : Event} {s t : Writer} → Step e s t → e ≡ signal → t.pushed ≡ s.pushed
signal-pushed (push text e f) x = cc
signal-pushed (begin _ _ f) x = ap (λ w. w.pushed) f
signal-pushed (elapse _ _ f) x = ap (λ w. w.pushed) f
signal-pushed (break _ _ f) x = ap (λ w. w.pushed) f
signal-pushed (pop _ _ _ _ _ _ f) x = ap (λ w. w.pushed) f
signal-pushed (write _ _ _ _ f) x = ap (λ w. w.pushed) f
signal-pushed (fail _ _ _ _ f) x = ap (λ w. w.pushed) f
signal-pushed (go_on _ _ _ f) x = ap (λ w. w.pushed) f
signal-pushed (finish _ _ _ f) x = ap (λ w. w.pushed) f
signal-pushed (abort _ _ f) x = ap (λ w. w.pushed) f
signal-pushed (miss _ _ f) x = ap (λ w. w.pushed) f

-- Once the coroutine has ended over an empty stack, only a push changes that.
pub ended-empty :
    {e : Event} {s t : Writer}
    → Step e s t
    → t.pushed ≡ s.pushed
    → (s.phase ≡ ended → s.write_stack ≡ [])
    → t.phase ≡ ended
    → t.write_stack ≡ []
ended-empty {s = s} (push text e f) same h y =
    absurd (longer text s.pushed (sym same ∙ ap (λ w. w.pushed) f))
ended-empty (begin e p f) same h y = let x = sym (ap (λ w. w.phase) f) ∙ y in cc
ended-empty (elapse e p f) same h y = let x = sym (ap (λ w. w.phase) f) ∙ y in cc
ended-empty (break e p f) same h y = let x = sym (ap (λ w. w.phase) f) ∙ y in cc
ended-empty (pop aborted text rest e p q f) same h y = let x = sym (ap (λ w. w.phase) f) ∙ y in cc
ended-empty (write aborted text e p f) same h y = let x = sym (ap (λ w. w.phase) f) ∙ y in cc
ended-empty (fail aborted text e p f) same h y = let x = sym (ap (λ w. w.phase) f) ∙ y in cc
ended-empty (go_on e p q f) same h y = let x = sym (ap (λ w. w.phase) f) ∙ y in cc
ended-empty (finish e p q f) same h y = ap (λ w. w.write_stack) f ∙ q
ended-empty (abort e p f) same h y = let x = sym (ap (λ w. w.phase) f) ∙ y in cc
ended-empty (miss e p f) same h y = ap (λ w. w.write_stack) f ∙ h (sym (ap (λ w. w.phase) f) ∙ y)
