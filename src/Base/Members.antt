-- ===== src/Base/Members.antt =====
-- Membership with its position kept, and the elements that a test keeps.
use mathlib.Core.Path.{◌≡◌, refl, sym, ◌∙◌, ap, subst}
use mathlib.Core.Logic.{◌⊎◌, inl, inr}
use mathlib.Core.Bool.{Bool, true, false}
use mathlib.Core.List.{List, [], ◌∷◌, ◌++◌, Memᴰ}
use mathlib.Core.List.Memᴰ
use agentpg.Base.Tests.{Bool-cases}
use agentpg.Base.Lists.{keep, All}

module _ {ℓ} {A : Type ℓ} where
  pub Memᴰ-keep : (p : A → Bool) (a : A) (xs : List A) → Memᴰ a xs → p a ≡ true → Memᴰ a (keep p xs)
  Memᴰ-keep p a [] m h = elim m [ ]
  Memᴰ-keep p a (x ∷ xs) (Memᴰ.head e) h = rw (subst (λ y. p y ≡ true) e h) (Memᴰ.head e)
  Memᴰ-keep p a (x ∷ xs) (Memᴰ.tail m) h = elim (Bool-cases (p x)) [
    | inl kept ↦ rw kept (Memᴰ.tail (Memᴰ-keep p a xs m h))
    | inr dropped ↦ rw dropped (Memᴰ-keep p a xs m h)
  ]

  pub Memᴰ_of_keep :
      (p : A → Bool) (a : A) (xs : List A) → Memᴰ a (keep p xs) → Memᴰ a xs × (p a ≡ true)
  Memᴰ_of_keep p a [] m = absurd (Memᴰ.not-nil m)
  Memᴰ_of_keep p a (x ∷ xs) m = elim (Bool-cases (p x)) [
    | inl kept ↦ go kept (Memᴰ_of_keep p a xs) (Memᴰ.cases_cons (kept_mem kept m))
    | inr dropped ↦
        let (found, passes) = Memᴰ_of_keep p a xs (dropped_mem dropped m) in
        (Memᴰ.tail found, passes)
  ]
    where
      kept_mem : p x ≡ true → Memᴰ a (keep p (x ∷ xs)) → Memᴰ a (x ∷ keep p xs)
      kept_mem kept found = rw kept at found

      dropped_mem : p x ≡ false → Memᴰ a (keep p (x ∷ xs)) → Memᴰ a (keep p xs)
      dropped_mem dropped found = rw dropped at found

      go :
          p x ≡ true
          → (Memᴰ a (keep p xs) → Memᴰ a xs × (p a ≡ true))
          → (a ≡ x) ⊎ Memᴰ a (keep p xs)
          → Memᴰ a (x ∷ xs) × (p a ≡ true)
      go kept later (inl e) = (Memᴰ.head e, ap p e ∙ kept)
      go kept later (inr found) = let (rest, passes) = later found in (Memᴰ.tail rest, passes)

  pub All-Memᴰ {κ} : (P : A → Type κ) (a : A) (xs : List A) → All P xs → Memᴰ a xs → P a
  All-Memᴰ P a [] h m = elim m [ ]
  All-Memᴰ P a (x ∷ xs) h (Memᴰ.head e) = subst P (sym e) h.0
  All-Memᴰ P a (x ∷ xs) h (Memᴰ.tail m) = All-Memᴰ P a xs h.1 m

  pub All-Memᴰ_intro {κ} : (P : A → Type κ) (xs : List A) → ((x : A) → Memᴰ x xs → P x) → All P xs
  All-Memᴰ_intro P [] h = tt
  All-Memᴰ_intro P (x ∷ xs) h =
      (h x (Memᴰ.head refl), All-Memᴰ_intro P xs (λ y m. h y (Memᴰ.tail m)))

  pub Memᴰ-last : (xs : List A) (a : A) → Memᴰ a (xs ++ a ∷ [])
  Memᴰ-last [] a = Memᴰ.head refl
  Memᴰ-last (x ∷ xs) a = Memᴰ.tail (Memᴰ-last xs a)

  pub Memᴰ_of_append : {a : A} (xs ys : List A) → Memᴰ a (xs ++ ys) → Memᴰ a xs ⊎ Memᴰ a ys
  Memᴰ_of_append [] ys m = inr m
  Memᴰ_of_append (x ∷ xs) ys (Memᴰ.head e) = inl (Memᴰ.head e)
  Memᴰ_of_append (x ∷ xs) ys (Memᴰ.tail m) = elim (Memᴰ_of_append xs ys m) [
    | inl old ↦ inl (Memᴰ.tail old)
    | inr new ↦ inr new
  ]
