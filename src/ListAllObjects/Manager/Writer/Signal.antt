-- ===== src/ListAllObjects/Manager/Writer/Signal.antt =====
-- What becomes of a cancellation signal that finds no wait.
use s3cpp.Prelude.{◌≡◌, refl, sym, subst, ◌≢◌, true, false}
use s3cpp.ListAllObjects.Manager.Writer.{
  WriterPhase, starting, waiting, draining, writing, ended, raised, Writer, Event, own, signal,
  Step, push, begin, elapse, break, pop, write, fail, go_on, finish, abort, miss, Quiet, still,
  acts,
}

-- The phases that no signal has reached.
abbrev pub Unaborted : WriterPhase → Type 0
Unaborted starting = Unit
Unaborted waiting = Unit
Unaborted (draining aborted) = aborted ≡ false
Unaborted (writing aborted text) = aborted ≡ false
Unaborted ended = ⊥
Unaborted raised = Unit

pub Step-Unaborted : {s t : Writer} → Step own s t → Unaborted s.phase → Unaborted t.phase
Step-Unaborted (push text e f) u = rw f u
Step-Unaborted (begin e p f) u = rw f tt
Step-Unaborted (elapse e p f) u = rw f refl
Step-Unaborted (break e p f) u = rw f tt
Step-Unaborted (pop aborted text rest e p q f) u = rw f (subst Unaborted p u)
Step-Unaborted (write aborted text e p f) u = rw f (subst Unaborted p u)
Step-Unaborted (fail aborted text e p f) u = rw f (subst Unaborted p u)
Step-Unaborted (go_on e p q f) u = rw f tt
Step-Unaborted (finish e p q f) u = absurd (true_ne (subst Unaborted p u))
  where
    true_ne : true ≢ false
    true_ne e = cc
Step-Unaborted (abort e p f) u = cc
Step-Unaborted (miss e p f) u = cc

Quiet-Unaborted : {s t : Writer} → Quiet s t → Unaborted s.phase → Unaborted t.phase
Quiet-Unaborted still u = u
Quiet-Unaborted (acts q s) u = Step-Unaborted s (Quiet-Unaborted q u)

-- A signal that finds no wait changes nothing.
pub signal-miss : {e : Event} {s t : Writer} → Step e s t → e ≡ signal → s.phase ≢ waiting → t ≡ s
signal-miss (push text e f) x ne = cc
signal-miss (begin e p f) x ne = cc
signal-miss (elapse e p f) x ne = cc
signal-miss (break e p f) x ne = cc
signal-miss (pop aborted text rest e p q f) x ne = cc
signal-miss (write aborted text e p f) x ne = cc
signal-miss (fail aborted text e p f) x ne = cc
signal-miss (go_on e p q f) x ne = cc
signal-miss (finish e p q f) x ne = cc
signal-miss (abort e p f) x ne = absurd (ne p)
signal-miss (miss e p f) x ne = f

-- A signal that is emitted while the coroutine is not waiting is lost: if none has reached it
-- before, it does not end by whatever happens until another is emitted.
pub miss-Unaborted :
    {s t : Writer}
    → s.phase ≢ waiting
    → Unaborted s.phase
    → Step signal s t
    → (u : Writer) → Quiet t u
    → u.phase ≢ ended
miss-Unaborted ne un step u q x =
    let same = signal-miss step refl ne in
    subst Unaborted x (Quiet-Unaborted q (subst (λ w. Unaborted w.phase) (sym same) un))
