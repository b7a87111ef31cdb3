-- ===== src/Prelude/Expected.antt =====
-- The result of a call that returns `std::expected<A, E>` and may throw `std::runtime_error`.
use mathlib.Core.Path.{◌≡◌, refl, subst}
use mathlib.Core.List.{List, [], ◌∷◌}
use s3cpp.Prelude.Bytes.{Text}

pub data Outcome {ℓ κ} (E : Type ℓ) (A : Type κ) : Type (ℓ ⊔ κ) where
  ok : A → Outcome E A
  unexpected : E → Outcome E A
  threw : Text → Outcome E A

infixl 5 ◌>>=◌
abbrev pub ◌>>=◌ {ℓ κ μ} :
    {E : Type ℓ} {A : Type κ} {B : Type μ} → Outcome E A → (A → Outcome E B) → Outcome E B
ok a >>= f = f a
unexpected e >>= f = unexpected e
threw m >>= f = threw m

-- `std::expected::transform_error`.
abbrev pub transform_error {ℓ κ μ} :
    {E : Type ℓ} {F : Type κ} {A : Type μ} → (E → F) → Outcome E A → Outcome F A
transform_error f (ok a) = ok a
transform_error f (unexpected e) = unexpected (f e)
transform_error f (threw m) = threw m

-- A loop that appends the result of a fallible constructor for each item.
abbrev pub traverse {ℓ κ μ} :
    {E : Type ℓ} {A : Type κ} {B : Type μ} → (A → Outcome E B) → List A → Outcome E (List B)
traverse f [] = ok []
traverse f (x ∷ xs) = do y ← f x; ys ← traverse f xs; ok (y ∷ ys)

-- What holds of a result, if there is one, and the rule for a chain of calls.
module _ {ℓ κ μ} {E : Type ℓ} {A : Type κ} (P : A → Type μ) where
  abbrev pub Ensures : Outcome E A → Type μ
  Ensures (ok a) = P a
  Ensures (unexpected e) = Unit
  Ensures (threw t) = Unit

  pub Ensures-ok : (m : Outcome E A) {a : A} → Ensures m → m ≡ ok a → P a
  Ensures-ok (ok b) h e = subst P (cc) h
  Ensures-ok (unexpected d) h e = cc
  Ensures-ok (threw t) h e = cc

  pub Ensures->>= {ν} :
      {B : Type ν} (m : Outcome E B) (f : B → Outcome E A)
      → ((b : B) → m ≡ ok b → Ensures (f b))
      → Ensures (m >>= f)
  Ensures->>= (ok b) f h = h b refl
  Ensures->>= (unexpected d) f h = tt
  Ensures->>= (threw t) f h = tt

pub ok-inj {ℓ κ} : {E : Type ℓ} {A : Type κ} {a b : A} → ◌≡◌ {A = Outcome E A} (ok a) (ok b) → a ≡ b
ok-inj e = cc
