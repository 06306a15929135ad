-- ===== src/Compaction/Partition/Keys.antt =====
-- The map `messageCategories`: which identifiers are keys of it, and lists of distinct messages.
use mathlib.Core.List.{reverse-cons}
use agentpg.Base.{ℕ, ◌≡◌, refl, Bool, false, ◌||◌, List, [], ◌∷◌, ◌++◌, reverse, All, arith, ◌==◌}
use agentpg.Compaction.Partition.{Item}

unfoldable pub has_id : ℕ → List Item → Bool
has_id id [] = false
has_id id ((msg, tokens) ∷ rest) = msg.id == id || has_id id rest

-- No two of the messages have one identifier.
abbrev pub Distinct : List Item → Type 0
Distinct [] = Unit
Distinct (x ∷ xs) = (has_id x.0.id xs ≡ false) × Distinct xs

-- No message of the first list has its identifier in the second.
abbrev pub Apart : List Item → List Item → Type 0
Apart xs ys = All (λ x. has_id x.0.id ys ≡ false) xs

pub has_id-append :
    (id : ℕ) (xs ys : List Item) → has_id id (xs ++ ys) ≡ (has_id id xs || has_id id ys)
unfolding has_id
has_id-append id [] ys = refl
has_id-append id (x ∷ xs) ys = ground (arith, has_id-append id xs ys)

pub has_id-reverse : (id : ℕ) (xs : List Item) → has_id id (reverse xs) ≡ has_id id xs
unfolding has_id
has_id-reverse id [] = refl
has_id-reverse id (x ∷ xs) =
    rw (reverse-cons x xs)
      (ground (arith, has_id-append id (reverse xs) (x ∷ []), has_id-reverse id xs))

pub Distinct-append :
    (xs ys : List Item) → Distinct (xs ++ ys) → Distinct xs × Distinct ys × Apart xs ys
Distinct-append [] ys d = (tt, d, tt)
Distinct-append (x ∷ xs) ys d =
    let (dx, dy, apart) = Distinct-append xs ys d.1 in
    ground (arith, dx, dy, apart, has_id-append x.0.id xs ys)

Apart-cons :
    (y : Item) (xs ys : List Item) → has_id y.0.id xs ≡ false → Apart xs ys → Apart xs (y ∷ ys)
unfolding has_id
Apart-cons y [] ys h a = tt
Apart-cons y (x ∷ xs) ys h a = (ground arith, Apart-cons y xs ys (ground arith) a.1)

Apart-nil : (ys : List Item) → Apart ys []
unfolding has_id
Apart-nil [] = tt
Apart-nil (y ∷ ys) = (refl, Apart-nil ys)

pub Apart-symm : (xs ys : List Item) → Apart xs ys → Apart ys xs
Apart-symm [] ys a = Apart-nil ys
Apart-symm (x ∷ xs) ys a = Apart-cons x ys xs a.0 (Apart-symm xs ys a.1)

pub Distinct-snoc :
    (xs : List Item) (y : Item) → Distinct xs → has_id y.0.id xs ≡ false → Distinct (xs ++ y ∷ [])
unfolding has_id
Distinct-snoc [] y d h = (refl, tt)
Distinct-snoc (x ∷ xs) y d h =
    (ground (arith, has_id-append x.0.id xs (y ∷ [])), Distinct-snoc xs y d.1 (ground arith))

pub Distinct-reverse : (xs : List Item) → Distinct xs → Distinct (reverse xs)
Distinct-reverse [] d = tt
Distinct-reverse (x ∷ xs) d = rw (reverse-cons x xs) (
    Distinct-snoc (reverse xs) x (Distinct-reverse xs d.1)
      (ground (arith, has_id-reverse x.0.id xs)))
