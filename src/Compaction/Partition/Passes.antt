-- ===== src/Compaction/Partition/Passes.antt =====
-- What each pass of `Partition` does with messages of distinct identifiers: it adds a part of the
-- list to one of the groups.
use agentpg.Base.{
  ℕ, suc, ◌+◌, ◌-◌, ◌≡◌, refl, sym, true, false, ◌||◌, inl, inr, List, [], ◌∷◌, ◌++◌, All, take,
  take-nil, arith, ◌==◌, if◌then◌else◌, Bool-cases,
}
use agentpg.Base.Int.{ℤ, pos, pos_part, leb_ℤ, ltb_ℤ}
use agentpg.Compaction.Partition.{
  Item, Pass, exists, add_protected, add_recent, add_remaining, protect_pass, recent_pass,
  remaining_pass,
}
use agentpg.Compaction.Partition.Keys.{has_id, Distinct, Apart}

unfoldable pub add_all : (Item → Pass → Pass) → List Item → Pass → Pass
add_all add [] p = p
add_all add (x ∷ xs) p = add_all add xs (add x p)

-- The items have no entry in the map, or all have one.
abbrev pub Fresh : List Item → Pass → Type 0
Fresh xs p = All (λ x. exists x.0.id p.categories ≡ false) xs

abbrev pub Sorted : List Item → Pass → Type 0
Sorted xs p = All (λ x. exists x.0.id p.categories ≡ true) xs

-- An operation that enters the message it adds in the map.
abbrev pub Enters : (Item → Pass → Pass) → Type 0
Enters add =
    (x : Item) (p : Pass) (id : ℕ)
    → exists id (add x p).categories ≡ (x.0.id == id || exists id p.categories)

pub add_protected-Enters : Enters add_protected
unfolding add_protected exists
add_protected-Enters x p id = refl

pub add_recent-Enters : Enters add_recent
unfolding add_recent exists
add_recent-Enters x p id = refl

pub add_remaining-Enters : Enters add_remaining
unfolding add_remaining exists
add_remaining-Enters x p id = ground arith

module _ (add : Item → Pass → Pass) (enters : Enters add) where
  pub exists-add_all :
      (id : ℕ) (xs : List Item) (p : Pass)
      → exists id (add_all add xs p).categories ≡ (has_id id xs || exists id p.categories)
  unfolding add_all has_id
  exists-add_all id [] p = refl
  exists-add_all id (x ∷ xs) p = ground (arith, exists-add_all id xs (add x p), enters x p id)

  pub Fresh-add_all :
      (xs ys : List Item) (p : Pass) → Apart ys xs → Fresh ys p → Fresh ys (add_all add xs p)
  Fresh-add_all xs [] p a f = tt
  Fresh-add_all xs (y ∷ ys) p a f =
      (ground (arith, exists-add_all y.0.id xs p), Fresh-add_all xs ys p a.1 f.1)

  pub Sorted-add_all : (xs ys : List Item) (p : Pass) → Sorted ys p → Sorted ys (add_all add xs p)
  Sorted-add_all xs [] p s = tt
  Sorted-add_all xs (y ∷ ys) p s =
      (ground (arith, exists-add_all y.0.id xs p), Sorted-add_all xs ys p s.1)

  -- Once added, messages are in the map.
  pub add_all-Sorted : (xs : List Item) (p : Pass) → Sorted xs (add_all add xs p)
  unfolding add_all
  add_all-Sorted [] p = tt
  add_all-Sorted (x ∷ xs) p = (
    ground (arith, exists-add_all x.0.id xs (add x p), enters x p x.0.id),
    add_all-Sorted xs (add x p),
  )

  Fresh-add :
      (x : Item) (xs : List Item) (p : Pass)
      → has_id x.0.id xs ≡ false
      → Fresh xs p
      → Fresh xs (add x p)
  unfolding has_id
  Fresh-add x [] p h f = tt
  Fresh-add x (y ∷ ys) p h f =
      (ground (arith, enters x p y.0.id), Fresh-add x ys p (ground arith) f.1)

-- How many of the newest messages fit under the limit.
unfoldable pub protected_count : ℤ → ℕ → List Item → ℕ
protected_count limit sum [] = 0
protected_count limit sum (x ∷ older) =
    let count = suc (protected_count limit (sum + x.1) older) in
    if leb_ℤ (pos (sum + x.1)) limit then count else 0

pub protect_pass_lem :
    (limit : ℤ) (sum : ℕ) (xs : List Item) (p : Pass)
    → protect_pass limit sum xs p ≡ add_all add_protected (take (protected_count limit sum xs) xs) p
unfolding protect_pass add_all protected_count
protect_pass_lem limit sum [] p = refl
protect_pass_lem limit sum (x ∷ xs) p = elim (Bool-cases (leb_ℤ (pos (sum + x.1)) limit)) [
  | inl fits ↦ rw fits (protect_pass_lem limit (sum + x.1) xs (add_protected x p))
  | inr stop ↦ rw stop refl
]

recent_pass_full :
    (limit : ℤ) (count : ℕ) (xs : List Item) (p : Pass)
    → ltb_ℤ (pos count) limit ≡ false
    → recent_pass limit count xs p ≡ p
unfolding recent_pass
recent_pass_full limit count [] p full = refl
recent_pass_full limit count (x ∷ xs) p full = rw full refl

-- Messages that are in the map are passed over.
pub recent_pass-append :
    (limit : ℤ) (count : ℕ) (xs ys : List Item) (p : Pass)
    → Sorted xs p
    → recent_pass limit count (xs ++ ys) p ≡ recent_pass limit count ys p
unfolding recent_pass
recent_pass-append limit count [] ys p s = refl
recent_pass-append limit count (x ∷ xs) ys p s = elim (Bool-cases (ltb_ℤ (pos count) limit)) [
  | inl more ↦ rw (more, s.0) (recent_pass-append limit count xs ys p s.1)
  | inr full ↦ rw full (sym (recent_pass_full limit count ys p full))
]

-- Of the others the newest are taken, as many as the limit leaves room for.
pub recent_pass_lem :
    (limit : ℤ) (count : ℕ) (xs : List Item) (p : Pass)
    → Distinct xs
    → Fresh xs p
    → recent_pass limit count xs p ≡ add_all add_recent (take (pos_part limit - count) xs) p
unfolding recent_pass add_all
recent_pass_lem limit count [] p d f = rw (take-nil (pos_part limit - count)) refl
recent_pass_lem limit count (x ∷ xs) p d f = elim (Bool-cases (ltb_ℤ (pos count) limit)) [
  | inl more ↦
      let room : pos_part limit - count ≡ suc (pos_part limit - (count + 1)) = ground arith in
      rw (room, more, f.0)
        (recent_pass_lem limit (count + 1) xs (add_recent x p) d.1
          (Fresh-add add_recent add_recent-Enters x xs p d.0 f.1))
  | inr full ↦
      let none_left : pos_part limit - count ≡ 0 = ground arith in rw (full, none_left) refl
]

-- Messages that are not in the map are all sorted by their flags.
pub remaining_pass_lem :
    (xs ys : List Item) (p : Pass)
    → Distinct xs
    → Fresh xs p
    → remaining_pass (xs ++ ys) p ≡ remaining_pass ys (add_all add_remaining xs p)
unfolding remaining_pass add_all
remaining_pass_lem [] ys p d f = refl
remaining_pass_lem (x ∷ xs) ys p d f =
    rw (f.0, remaining_pass)
      (remaining_pass_lem xs ys (add_remaining x p) d.1
        (Fresh-add add_remaining add_remaining-Enters x xs p d.0 f.1))

pub remaining_pass_done : (xs : List Item) (p : Pass) → Sorted xs p → remaining_pass xs p ≡ p
unfolding remaining_pass
remaining_pass_done [] p s = refl
remaining_pass_done (x ∷ xs) p s = rw s.0 (remaining_pass_done xs p s.1)
