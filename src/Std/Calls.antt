-- ===== src/Std/Calls.antt =====
-- Calls that change a world and may fail: `co_await` of an asynchronous operation. No answer stands
-- for a loop that the model's fuel has cut.

use s3cpp.Prelude.{◌≡◌, refl, Option, none, some, Outcome, ok, unexpected, threw}

abbrev pub Call : Type 0 → Type 0 → Type 0 → Type 0
Call W E A = W → Option (Outcome E A) × W

module _ {W E : Type 0} where
  abbrev pub return : {A : Type 0} → A → Call W E A
  return a w = (some (ok a), w)

  -- What stands behind a call runs where it gave a value.
  abbrev pub continue_with :
      {A B : Type 0} → (A → Call W E B) → Option (Outcome E A) × W → Option (Outcome E B) × W
  continue_with f (some (ok a), w) = f a w
  continue_with f (some (unexpected e), w) = (some (unexpected e), w)
  continue_with f (some (threw t), w) = (some (threw t), w)
  continue_with f (none, w) = (none, w)

  -- A call that answers with an error code: none where it has not failed.
  abbrev pub code : Option E × W → Option {0} (Outcome {0, 0} E Unit) × W
  code (none, w) = (some (ok tt), w)
  code (some e, w) = (some (unexpected e), w)

infixl 5 ◌>>=◌
abbrev pub ◌>>=◌ : {W E A B : Type 0} → Call W E A → (A → Call W E B) → Call W E B
(m >>= f) w = continue_with f (m w)

-- What a chain of calls gave shows that its first call gave something.
pub continue_with-ok :
    {W E A B : Type 0} (f : A → Call W E B) (answer : Option (Outcome E A) × W) (b : B)
    → (continue_with f answer).0 ≡ some (ok b)
    → (a : A) × (w : W) × (answer ≡ (some (ok a), w)) × ((f a w).0 ≡ some (ok b))
continue_with-ok f (some (ok a), w) b e = (a, w, refl, e)
continue_with-ok f (some (unexpected x), w) b e = cc
continue_with-ok f (some (threw t), w) b e = cc
continue_with-ok f (none, w) b e = cc
