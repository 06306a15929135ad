-- ===== src/Base/Orders.antt =====
-- Lists in another order: what `map` and `keep` make of them.
use mathlib.Core.Path.{◌≡◌, ap, subst, refl}
use mathlib.Core.Bool.{Bool, true, false}
use mathlib.Core.List.{List, [], ◌∷◌, map, Permᴰ}
use agentpg.Base.Lists.{keep}
use agentpg.Base.Tests.{if◌then◌else◌}

pub Permᴰ-self {ℓ} : {A : Type ℓ} (xs : List A) → Permᴰ xs xs
Permᴰ-self [] = Permᴰ.nil
Permᴰ-self (x ∷ xs) = Permᴰ.cons refl (Permᴰ-self xs)

pub Permᴰ-map {ℓ κ} :
    {A : Type ℓ} {B : Type κ} (f : A → B) {xs ys : List A}
    → Permᴰ xs ys
    → Permᴰ (map f xs) (map f ys)
Permᴰ-map f Permᴰ.nil = Permᴰ.nil
Permᴰ-map f (Permᴰ.cons e p) = Permᴰ.cons (ap f e) (Permᴰ-map f p)
Permᴰ-map f (Permᴰ.swap e e') = Permᴰ.swap (ap f e) (ap f e')
Permᴰ-map f (Permᴰ.trans p q) = Permᴰ.trans (Permᴰ-map f p) (Permᴰ-map f q)

module _ {ℓ} {A : Type ℓ} (p : A → Bool) where
  abbrev keep_one : Bool → A → List A → List A
  keep_one b x xs = if b then x ∷ xs else xs

  keep_one-Permᴰ :
      (b : Bool) (x : A) {xs ys : List A} → Permᴰ xs ys → Permᴰ (keep_one b x xs) (keep_one b x ys)
  keep_one-Permᴰ true x q = Permᴰ.cons refl q
  keep_one-Permᴰ false x q = q

  keep_one-swap :
      (b c : Bool) (x y : A) (xs : List A)
      → Permᴰ (keep_one b x (keep_one c y xs)) (keep_one c y (keep_one b x xs))
  keep_one-swap true true x y xs = Permᴰ.swap refl refl
  keep_one-swap true false x y xs = Permᴰ-self _
  keep_one-swap false true x y xs = Permᴰ-self _
  keep_one-swap false false x y xs = Permᴰ-self _

  keep_same :
      {a b : A} (xs ys : List A)
      → a ≡ b
      → Permᴰ (keep p xs) (keep p ys)
      → Permᴰ (keep p (a ∷ xs)) (keep p (b ∷ ys))
  keep_same {a} {b} xs ys e q =
      subst (λ y. Permᴰ (keep p (a ∷ xs)) (keep p (y ∷ ys))) e (keep_one-Permᴰ (p a) a q)

  keep_two :
      {a b a' b' : A} (xs : List A)
      → a ≡ b'
      → b ≡ a'
      → Permᴰ (keep p (a ∷ b ∷ xs)) (keep p (a' ∷ b' ∷ xs))
  keep_two {a} {b} {a'} {b'} xs e e' =
      subst (λ x. Permᴰ (keep p (a ∷ b ∷ xs)) (keep p (x ∷ b' ∷ xs))) e'
        (subst (λ x. Permᴰ (keep p (a ∷ b ∷ xs)) (keep p (b ∷ x ∷ xs))) e
          (keep_one-swap (p a) (p b) a b (keep p xs)))

  pub Permᴰ-keep : {xs ys : List A} → Permᴰ xs ys → Permᴰ (keep p xs) (keep p ys)
  Permᴰ-keep Permᴰ.nil = Permᴰ.nil
  Permᴰ-keep (Permᴰ.cons e q) = keep_same _ _ e (Permᴰ-keep q)
  Permᴰ-keep (Permᴰ.swap e e') = keep_two _ e e'
  Permᴰ-keep (Permᴰ.trans q r) = Permᴰ.trans (Permᴰ-keep q) (Permᴰ-keep r)
