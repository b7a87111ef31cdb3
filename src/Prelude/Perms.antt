-- ===== src/Prelude/Perms.antt =====
-- Permutations: what they keep, and moving a part across another.
use Prim.Native.Nat.{◌+◌, ℕ, suc}
use mathlib.Core.Path.{◌≡◌, refl, ap, ◌∙◌}
use mathlib.Core.Logic.{∥∥₁_elim}
use mathlib.Core.List.{
  [], Perm-prop, flat_map, ◌∷◌, List, ◌++◌, append_assoc, Perm, Permᴰ, perm_append_comm,
}
use mathlib.Core.List.Perm
use native.Mathlib.Nat.{ℕ_set}
use native.Mathlib.Omega.{arith}
use s3cpp.Prelude.Lists.{length}

module _ {ℓ} {A : Type ℓ} where
  length-Permᴰ : {xs ys : List A} → Permᴰ xs ys → length xs ≡ length ys
  length-Permᴰ Permᴰ.nil = refl
  length-Permᴰ (Permᴰ.cons e p) = ap suc (length-Permᴰ p)
  length-Permᴰ (Permᴰ.swap e f) = refl
  length-Permᴰ (Permᴰ.trans p q) = length-Permᴰ p ∙ length-Permᴰ q

  pub length-Perm : {xs ys : List A} → Perm xs ys → length xs ≡ length ys
  length-Perm p = ∥∥₁_elim p (ℕ_set _ _) length-Permᴰ

  -- A part moves in front of another.
  pub perm_swap_append : (xs ys zs : List A) → Perm (xs ++ (ys ++ zs)) (ys ++ (xs ++ zs))
  perm_swap_append xs ys zs =
      rw (← append_assoc xs ys zs, ← append_assoc ys xs zs)
        (Perm.append_right zs (perm_append_comm xs ys))

  -- What the items of a list weigh together, in any order.
  abbrev pub sum_of : (A → ℕ) → List A → ℕ
  sum_of w [] = 0
  sum_of w (x ∷ xs) = w x + sum_of w xs

  pub sum_of-append : (w : A → ℕ) (xs ys : List A) → sum_of w (xs ++ ys) ≡ sum_of w xs + sum_of w ys
  sum_of-append w [] ys = omega arith
  sum_of-append w (x ∷ xs) ys = omega (arith, sum_of-append w xs ys)

  sum_of-Permᴰ : (w : A → ℕ) {xs ys : List A} → Permᴰ xs ys → sum_of w xs ≡ sum_of w ys
  sum_of-Permᴰ w Permᴰ.nil = refl
  sum_of-Permᴰ w (Permᴰ.cons e p) = omega (arith, ap w e, sum_of-Permᴰ w p)
  sum_of-Permᴰ w (Permᴰ.swap e f) = omega (arith, ap w e, ap w f)
  sum_of-Permᴰ w (Permᴰ.trans p q) = sum_of-Permᴰ w p ∙ sum_of-Permᴰ w q

  pub sum_of-Perm : (w : A → ℕ) {xs ys : List A} → Perm xs ys → sum_of w xs ≡ sum_of w ys
  sum_of-Perm w p = ∥∥₁_elim p (ℕ_set _ _) (sum_of-Permᴰ w)

module _ {ℓ κ} {A : Type ℓ} {B : Type κ} (f : A → List B) where
  pub flat_map-append : (xs ys : List A) → flat_map f (xs ++ ys) ≡ flat_map f xs ++ flat_map f ys
  unfolding flat_map
  flat_map-append [] ys = refl
  flat_map-append (x ∷ xs) ys = rw (flat_map-append xs ys, append_assoc (f x)) refl

  flat_map-Permᴰ : {xs ys : List A} → Permᴰ xs ys → Perm (flat_map f xs) (flat_map f ys)
  unfolding flat_map
  flat_map-Permᴰ Permᴰ.nil = Perm.refl _
  flat_map-Permᴰ (Permᴰ.cons {l₁} e p) = rw e (Perm.append_left _ (flat_map-Permᴰ p))
  flat_map-Permᴰ (Permᴰ.swap {a} {b} {l} e g) =
      rw (← e, ← g) (perm_swap_append (f a) (f b) (flat_map f l))
  flat_map-Permᴰ (Permᴰ.trans p q) = Perm.trans (flat_map-Permᴰ p) (flat_map-Permᴰ q)

  -- The same items in any order give the same images in some order.
  pub flat_map-Perm : {xs ys : List A} → Perm xs ys → Perm (flat_map f xs) (flat_map f ys)
  flat_map-Perm p = ∥∥₁_elim p Perm-prop flat_map-Permᴰ
