-- ===== src/ListAllObjects/Process/Retry.antt =====
-- How `list_one_impl` answers: the first success within five attempts, an exception, or an empty
-- listing.
use s3cpp.Prelude.{
  ℕ, zero, suc, ◌<◌, ◌≡◌, refl, ◌⊎◌, inl, inr, arith, Text, Outcome, ok, unexpected, threw,
}
use s3cpp.ListAllObjects.Process.{ClientApi, Listing, listed, raised, retry}

module _ (c : ClientApi) where
  open c use {Net, Error, wait_second}

  -- Some number of attempts in a row that fail with an error code, each with its second of waiting.
  abbrev pub Fails : {A : Type 0} → (Net → Outcome Error A × Net) → ℕ → Net → Net → Type 0
  Fails call zero net net' = net' ≡ net
  Fails call (suc n) net net' =
      (e : Error) × ((call net).0 ≡ unexpected e) × Fails call n (wait_second (call net).1) net'

  -- The three ways in which the attempts can go.
  abbrev pub Succeeds :
      {A : Type 0} → (Net → Outcome Error A × Net) → ℕ → Net → Listing A × Net → Type 0
  Succeeds {A} call n net r =
      (k : ℕ) × (before : Net) × (a : A) × (k < n)
      × Fails call k net before
      × ((call before).0 ≡ ok a)
      × (r ≡ (listed a, (call before).1))

  abbrev pub Raises :
      {A : Type 0} → (Net → Outcome Error A × Net) → ℕ → Net → Listing A × Net → Type 0
  Raises call n net r =
      (k : ℕ) × (before : Net) × (t : Text) × (k < n)
      × Fails call k net before
      × ((call before).0 ≡ threw t)
      × (r ≡ (raised t, (call before).1))

  abbrev pub GivesUp :
      {A : Type 0} → (Net → Outcome Error A × Net) → A → ℕ → Net → Listing A × Net → Type 0
  GivesUp call give_up n net r =
      (after : Net) × Fails call n net after × (r ≡ (listed give_up, after))

  Outcome-cases :
      {A : Type 0} (m : Outcome Error A)
      → ((a : A) × (m ≡ ok a)) ⊎ ((e : Error) × (m ≡ unexpected e)) ⊎ ((t : Text) × (m ≡ threw t))
  Outcome-cases (ok a) = inl (a, refl)
  Outcome-cases (unexpected e) = inr (inl (e, refl))
  Outcome-cases (threw t) = inr (inr (t, refl))

  -- A number of attempts ends in exactly what the network does: the result of the first success
  -- behind failures, the exception of an attempt behind failures, or, where every attempt fails,
  -- the result to give up with.
  pub retry-cases :
      {A : Type 0} (call : Net → Outcome Error A × Net) (give_up : A) (n : ℕ) (net : Net)
      → Succeeds call n net (retry c call give_up n net)
        ⊎ Raises call n net (retry c call give_up n net)
        ⊎ GivesUp call give_up n net (retry c call give_up n net)
  unfolding retry
  retry-cases call give_up zero net = inr (inr (net, refl, refl))
  retry-cases call give_up (suc n) net = elim (Outcome-cases (call net).0) [
    | inl (a, e) ↦ inl (0, net, a, omega arith, refl, e, rw (e, retry))
    | inr (inr (t, e)) ↦ inr (inl (0, net, t, omega arith, refl, e, rw (e, retry)))
    | inr (inl (d, e)) ↦ elim (retry-cases call give_up n (wait_second (call net).1)) [
      | inl (k, before, a, lt, fails, found, r) ↦
          inl (suc k, before, a, omega arith, (d, e, fails), found, rw (e, retry) r)
      | inr (inl (k, before, t, lt, fails, found, r)) ↦
          inr (inl (suc k, before, t, omega arith, (d, e, fails), found, rw (e, retry) r))
      | inr (inr (after, fails, r)) ↦ inr (inr (after, (d, e, fails), rw (e, retry) r))
    ]
  ]
