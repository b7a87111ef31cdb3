-- ===== src/ListAllObjects/Manager/Writer.antt =====
-- worker_manager.cpp: the coroutine that writes what workers push, and the cancellation signal that
-- the destructor emits. The signal reaches the coroutine only while it waits for its timer, since
-- its slot is bound to that wait alone.
pub mod Conserve
pub mod Signal
pub mod Drains
use s3cpp.Prelude.{◌+◌, ◌≡◌, ◌≢◌, Bool, true, false, List, [], ◌∷◌, ◌++◌, Text}

-- Where the coroutine stands: posted to the pool; waiting for the timer; emptying the stack, after
-- a wait that was aborted or not; writing a text; ended; or ended by an exception.
pub data WriterPhase : Type 0 where
  starting : WriterPhase
  waiting : WriterPhase
  draining : Bool → WriterPhase
  writing : Bool → Text → WriterPhase
  ended : WriterPhase
  raised : WriterPhase

-- `file` holds the texts in the order in which they were written, `failed` those whose write
-- failed, and `pushed` all that were ever pushed.
pub record Writer : Type 0 where
  pub phase : WriterPhase
  pub write_stack : List Text
  pub file : List Text
  pub failed : List Text
  pub pushed : List Text

-- What happens by itself, and the signal.
pub data Event : Type 0 where
  own signal : Event

pub data Step (e : Event) (s t : Writer) : Type 0 where
  push :
      (text : Text)
      → e ≡ own
      → t ≡ record s { write_stack = text ∷ s.write_stack; pushed = text ∷ s.pushed }
      → Step e s t
  begin : e ≡ own → s.phase ≡ starting → t ≡ record s { phase = waiting } → Step e s t
  elapse : e ≡ own → s.phase ≡ waiting → t ≡ record s { phase = draining false } → Step e s t
  break : e ≡ own → s.phase ≡ waiting → t ≡ record s { phase = raised } → Step e s t
  pop :
      (aborted : Bool) (text : Text) (rest : List Text)
      → e ≡ own
      → s.phase ≡ draining aborted
      → s.write_stack ≡ text ∷ rest
      → t ≡ record s { phase = writing aborted text; write_stack = rest }
      → Step e s t
  write :
      (aborted : Bool) (text : Text)
      → e ≡ own
      → s.phase ≡ writing aborted text
      → t ≡ record s { phase = draining aborted; file = s.file ++ text ∷ [] }
      → Step e s t
  fail :
      (aborted : Bool) (text : Text)
      → e ≡ own
      → s.phase ≡ writing aborted text
      → t ≡ record s { phase = draining aborted; failed = text ∷ s.failed }
      → Step e s t
  go_on :
      e ≡ own
      → s.phase ≡ draining false
      → s.write_stack ≡ []
      → t ≡ record s { phase = waiting }
      → Step e s t
  finish :
      e ≡ own
      → s.phase ≡ draining true
      → s.write_stack ≡ []
      → t ≡ record s { phase = ended }
      → Step e s t
  abort : e ≡ signal → s.phase ≡ waiting → t ≡ record s { phase = draining true } → Step e s t
  miss : e ≡ signal → s.phase ≢ waiting → t ≡ s → Step e s t

pub data Reach (s : Writer) : Writer → Type 0 where
  here : Reach s s
  next : {t u : Writer} (e : Event) → Reach s t → Step e t u → Reach s u

-- The coroutine that the constructor starts, over an empty stack.
unfoldable pub new_writer : Writer
new_writer = record { phase = starting; write_stack = []; file = []; failed = []; pushed = [] }

abbrev pub in_flight : WriterPhase → List Text
in_flight (writing aborted text) = text ∷ []
in_flight w = []

-- Steps without a signal.
pub data Quiet (s : Writer) : Writer → Type 0 where
  still : Quiet s s
  acts : {t u : Writer} → Quiet s t → Step own t u → Quiet s u
