-- ===== src/S3/Exchange/Succeeds.antt =====
-- Calls of a list that all succeed.
use s3cpp.Prelude.{◌≡◌, refl, sym, ap, ◌∙◌, Option, none, some, List, [], ◌∷◌}
use s3cpp.S3.Exchange.Order.{in_order}

module _ {Net ErrorCode : Type 0} where
  -- Each of the calls succeeds, and they lead from one state to another.
  abbrev pub Succeeds : List (Net → Option ErrorCode × Net) → Net → Net → Type 0
  Succeeds [] net end = net ≡ end
  Succeeds (call ∷ calls) net end =
      (next : Net) × (call net ≡ (none, next)) × Succeeds calls next end

  module _ (call : Net → Option ErrorCode × Net) (calls : List (Net → Option ErrorCode × Net))
      (net next : Net) where
    in_order-none : call net ≡ (none, next) → in_order (call ∷ calls) net ≡ in_order calls next
    in_order-none e = rw e (rw e refl)

    in_order-some :
        (x : ErrorCode) → call net ≡ (some x, next) → in_order (call ∷ calls) net ≡ (some x, next)
    in_order-some x e = rw e (rw e refl)

  pub in_order-Succeeds :
      (calls : List (Net → Option ErrorCode × Net)) (net end : Net)
      → in_order calls net ≡ (none, end)
      → Succeeds calls net end
  in_order-Succeeds [] net end e = ap (λ x. x.1) e
  in_order-Succeeds (call ∷ calls) net end e = by_code (in_order-Succeeds calls) (call net) refl e
    where
      by_code :
          ((net end : Net) → in_order calls net ≡ (none, end) → Succeeds calls net end)
          → (answer : Option ErrorCode × Net) → call net ≡ answer
          → in_order (call ∷ calls) net ≡ (none, end)
          → Succeeds (call ∷ calls) net end
      by_code ih (none, next) q e =
          (next, q, ih next end (sym (in_order-none call calls net next q) ∙ e))
      by_code ih (some x, next) q e =
          let codes_agree = ap (λ a. a.0) (sym (in_order-some call calls net next x q) ∙ e) in cc
