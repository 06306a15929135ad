-- ===== src/Base/Sums.antt =====
-- Sums over lists: of equal terms, of sums, of one term, and in either order.
use Prim.Native.Nat.{ℕ, ◌+◌}
use mathlib.Core.Path.{◌≡◌, refl, sym}
use mathlib.Core.Logic.{inl, inr}
use mathlib.Core.Bool.{Bool}
use mathlib.Core.List.{List, [], ◌∷◌}
use native.Mathlib.Omega.{arith}
use agentpg.Base.Tests.{if◌then◌else◌, Bool-cases}
use agentpg.Base.Lists.{All, keep, length, total}

module _ {ℓ} {A : Type ℓ} where
  pub total-ext : (f g : A → ℕ) (xs : List A) → ((x : A) → f x ≡ g x) → total f xs ≡ total g xs
  total-ext f g [] same = refl
  total-ext f g (x ∷ xs) same = omega (arith, same x, total-ext f g xs same)

  pub total-ext-All :
      (f g : A → ℕ) (xs : List A) → All (λ x. f x ≡ g x) xs → total f xs ≡ total g xs
  total-ext-All f g [] same = refl
  total-ext-All f g (x ∷ xs) (h, hs) = omega (arith, total-ext-All f g xs hs)

  pub total-add : (f g : A → ℕ) (xs : List A) → total (λ x. f x + g x) xs ≡ total f xs + total g xs
  total-add f g [] = omega arith
  total-add f g (x ∷ xs) = omega (arith, total-add f g xs)

  pub total-zero : (xs : List A) → total (λ x. 0) xs ≡ 0
  total-zero [] = refl
  total-zero (x ∷ xs) = omega (arith, total-zero xs)

  -- One element passes the test: the sum is its term.
  pub total-none :
      (p : A → Bool) (v : ℕ) (xs : List A)
      → total (λ x. if p x then 1 else 0) xs ≡ 0
      → total (λ x. if p x then v else 0) xs ≡ 0
  total-none p v [] h = refl
  total-none p v (x ∷ xs) h = elim (Bool-cases (p x)) [
    | inl yes_ ↦ absurd (ground arith)
    | inr no_ ↦ ground (arith, total-none p v xs)
  ]

  pub total-one :
      (p : A → Bool) (v : ℕ) (xs : List A)
      → total (λ x. if p x then 1 else 0) xs ≡ 1
      → total (λ x. if p x then v else 0) xs ≡ v
  total-one p v [] h = absurd (omega arith)
  total-one p v (x ∷ xs) h = elim (Bool-cases (p x)) [
    | inl yes_ ↦ ground (arith, total-none p v xs)
    | inr no_ ↦ ground (arith, total-one p v xs)
  ]

pub total-swap {ℓ κ} :
    {A : Type ℓ} {B : Type κ} (f : A → B → ℕ) (xs : List A) (ys : List B)
    → total (λ x. total (f x) ys) xs ≡ total (λ y. total (λ x. f x y) xs) ys
total-swap f [] ys = sym (total-zero ys)
total-swap f (x ∷ xs) ys =
    omega (arith, total-swap f xs ys, total-add (f x) (λ y. total (λ z. f z y) xs) ys)

module _ {ℓ} {A : Type ℓ} where
  pub total-keep :
      (f : A → ℕ) (p : A → Bool) (xs : List A)
      → total f (keep p xs) ≡ total (λ x. if p x then f x else 0) xs
  total-keep f p [] = refl
  total-keep f p (x ∷ xs) = ground (arith, total-keep f p xs)

  pub length-total : (xs : List A) → length xs ≡ total (λ x. 1) xs
  length-total [] = refl
  length-total (x ∷ xs) = omega (arith, length-total xs)
