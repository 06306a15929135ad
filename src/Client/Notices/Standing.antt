-- ===== src/Client/Notices/Standing.antt =====
-- Where a channel of a wait stands: it waits for its run only, or it holds that run.
use agentpg.Base.{
  ℕ, ◌≡◌, refl, sym, ap, subst, ◌∙◌, inl, inr, ◌⊎◌, Bool, true, false, ◌||◌, List, [], ◌∷◌, ◌++◌,
  Option, none, some, ◌==◌, Bool-cases, Option-cases, arith, if◌then◌else◌, bytes_eq, codes,
}
use agentpg.Driver.{Bytes}
use agentpg.Store.Runs.{Run}
use agentpg.Store.World.{find_run}
use agentpg.Store.World.Rows.{find-id}
use agentpg.Client.Notices.{
  Listening, ListenEvent, registered, left, received, noticed, register, without, send_to, send_all,
  notify_run_waiters, created_in, finalized_in, completed_in,
}

abbrev pub among : ℕ → List ℕ → Bool
among ch [] = false
among ch (w ∷ ws) = w == ch || among ch ws

pub among-append :
    (ch c : ℕ) (ws : List ℕ) → (c == ch) ≡ false → among ch (ws ++ c ∷ []) ≡ among ch ws
among-append ch c [] other = rw other refl
among-append ch c (w ∷ ws) other = rw (among-append ch c ws other) refl

among-last : (ch : ℕ) (ws : List ℕ) → among ch (ws ++ ch ∷ []) ≡ true
among-last ch [] = ground arith
among-last ch (w ∷ ws) = ground (arith, among-last ch ws)

pub among-without :
    (ch c : ℕ) (ws : List ℕ) → (c == ch) ≡ false → among ch (without c ws) ≡ among ch ws
unfolding without
among-without ch c [] other = refl
among-without ch c (w ∷ ws) other = ground (arith, among-without ch c ws other)

module _ (run : Option Run) (ch : ℕ) where
  send_all-skips :
      (chs : List ℕ) (held : ℕ → Option (Option Run))
      → among ch chs ≡ false
      → send_all run chs held ch ≡ held ch
  unfolding send_all
  send_all-skips [] held none_ = refl
  send_all-skips (c ∷ chs) held apart = elim (Bool-cases (c == ch)) [
    | inl it ↦ absurd (ground arith)
    | inr other ↦
        send_all-skips chs (λ x. if c == x then send_to run (held x) else held x) (ground arith)
        ∙ rw other refl
  ]

  pub send_all-keeps :
      (chs : List ℕ) (held : ℕ → Option (Option Run)) (found : Option Run)
      → held ch ≡ some found
      → send_all run chs held ch ≡ some found
  unfolding send_all
  send_all-keeps [] held found full = full
  send_all-keeps (c ∷ chs) held found full =
      send_all-keeps chs (λ x. if c == x then send_to run (held x) else held x) found
        (elim (Bool-cases (c == ch)) [ inl it ↦ rw (it, full) refl | inr other ↦ rw other full ])

  send_all-gives :
      (chs : List ℕ) (held : ℕ → Option (Option Run))
      → among ch chs ≡ true
      → held ch ≡ none
      → send_all run chs held ch ≡ some run
  unfolding send_all
  send_all-gives [] held here empty = absurd cc
  send_all-gives (c ∷ chs) held here empty = elim (Bool-cases (c == ch)) [
    | inl it ↦
        send_all-keeps chs (λ x. if c == x then send_to run (held x) else held x) run
          (rw (it, empty) refl)
    | inr other ↦
        send_all-gives chs (λ x. if c == x then send_to run (held x) else held x) (ground arith)
          (rw other empty)
  ]

-- What the channel holds is the run, or nil where there was no run.
abbrev pub IsOf : ℕ → Option Run → Type 0
IsOf id none = Unit
IsOf id (some run) = run.id ≡ id

abbrev pub Given : ℕ → ℕ → Listening → Type 0
Given ch id s = (found : Option Run) × (s.held ch ≡ some found) × IsOf id found

-- The channel waits for this run only, and if it does so no more, it holds the run.
abbrev pub Standing : ℕ → ℕ → Listening → Type 0
Standing ch id s =
    ((k : ℕ) → (k == id) ≡ false → among ch (s.waiters k) ≡ false)
    × (((s.held ch ≡ none) × (among ch (s.waiters id) ≡ true)) ⊎ Given ch id s)

-- The channel is new: nothing holds it.
abbrev pub IsNew : ℕ → Listening → Type 0
IsNew ch s = (s.held ch ≡ none) × ((k : ℕ) → among ch (s.waiters k) ≡ false)

-- The event is not of this channel's wait.
abbrev pub Elsewhere : ℕ → ListenEvent → Type 0
Elsewhere ch (registered c k) = (c == ch) ≡ false
Elsewhere ch (left c k) = (c == ch) ≡ false
Elsewhere ch (received c) = (c == ch) ≡ false
Elsewhere ch (noticed notif breaks runs) = Unit

pub found-IsOf : (id : ℕ) (runs : List Run) → IsOf id (find_run id runs)
found-IsOf id runs = elim (Option-cases (find_run id runs)) [
  | inl gone ↦ subst (IsOf id) (sym gone) tt
  | inr (run, here) ↦ subst (IsOf id) (sym here) (sym (find-id id runs run here))
]

-- The waiters of each run changed so that the channel stands where it stood, and its buffer is as it was.
pub same-Standing :
    (ch id : ℕ) (s t : Listening)
    → ((k : ℕ) → among ch (t.waiters k) ≡ among ch (s.waiters k))
    → t.held ch ≡ s.held ch
    → Standing ch id s
    → Standing ch id t
same-Standing ch id s t same buffer (only, now) = (
  (λ k other. same k ∙ only k other),
  elim now [
    | inl (empty, here) ↦ inl (buffer ∙ empty, same id ∙ here)
    | inr (found, full, of_id) ↦ inr (found, buffer ∙ full, of_id)
  ],
)

is_refl : (k : ℕ) → (k == k) ≡ true
is_refl k = ground arith

is_key : (k j : ℕ) → (k == j) ≡ true → k ≡ j
is_key k j h = ground arith

not_key : (k j : ℕ) → (k == j) ≡ false → (j == k) ≡ false
not_key k j h = ground arith

module _ (ch id : ℕ) where
  pub register-Standing : (s : Listening) → IsNew ch s → Standing ch id (register ch id s)
  register-Standing s (empty, apart) =
      ((λ k other. rw other (apart k)), inl (empty, rw (is_refl id) (among-last ch (s.waiters id))))

  -- One key of the map changed so that the channel stands where it stood.
  pub at_key :
      (f : List ℕ → List ℕ) (j k : ℕ) (s : Listening)
      → ((ws : List ℕ) → among ch (f ws) ≡ among ch ws)
      → among ch (if k == j then f (s.waiters j) else s.waiters k) ≡ among ch (s.waiters k)
  at_key f j k s same = elim (Bool-cases (k == j)) [
    | inl it ↦ rw it (same (s.waiters j) ∙ ap (λ x. among ch (s.waiters x)) (sym (is_key k j it)))
    | inr other ↦ rw other refl
  ]

  key_cleared :
      (j k : ℕ) (s : Listening)
      → among ch (s.waiters k) ≡ false
      → among ch (if k == j then [] else s.waiters k) ≡ false
  key_cleared j k s apart = elim (Bool-cases (k == j)) [
    | inl it ↦ rw it refl
    | inr other ↦ rw other apart
  ]

  -- The run of this wait is notified.
  pub notified-Given :
      (run : Option Run) (s : Listening)
      → IsOf id run
      → Standing ch id s
      → Given ch id (notify_run_waiters id run s)
  unfolding notify_run_waiters
  notified-Given run s of_id (only, now) = elim now [
    | inl (empty, here) ↦ (run, send_all-gives run ch (s.waiters id) s.held here empty, of_id)
    | inr (found, full, is_of) ↦
        (found, send_all-keeps run ch (s.waiters id) s.held found full, is_of)
  ]

  notified-Standing :
      (j : ℕ) (run : Option Run) (s : Listening)
      → IsOf j run
      → Standing ch id s
      → Standing ch id (notify_run_waiters j run s)
  unfolding notify_run_waiters
  notified-Standing j run s of_j (only, now) = (
    (λ k other. key_cleared j k s (only k other)),
    elim (Bool-cases (j == id)) [
      | inl it ↦ inr (
          subst (λ x. Given ch id (notify_run_waiters x run s)) (sym (is_key j id it))
            (notified-Given run s (subst (λ x. IsOf x run) (is_key j id it) of_j) (only, now)))
      | inr other ↦ elim now [
        | inl (empty, here) ↦ inl (
          send_all-skips run ch (s.waiters j) s.held (only j other) ∙ empty,
          rw (not_key j id other) here,
        )
        | inr (found, full, is_of) ↦
            inr (found, send_all-keeps run ch (s.waiters j) s.held found full, is_of)
      ]
    ],
  )

  pub finalized-Standing :
      (breaks : Bool) (runs : List Run) (found : Option ℕ) (s : Listening)
      → Standing ch id s
      → Standing ch id (finalized_in breaks runs found s)
  finalized-Standing breaks runs none s now = now
  finalized-Standing true runs (some j) s now = now
  finalized-Standing false runs (some j) s now =
      notified-Standing j (find_run j runs) s (found-IsOf j runs) now

  pub created-Standing :
      (mode : Option Bytes) (s : Listening) → Standing ch id s → Standing ch id (created_in mode s)
  created-Standing none s now = now
  created-Standing (some mode) s now = elim (Bool-cases (bytes_eq mode (codes "streaming"))) [
    | inl it ↦ rw it now
    | inr other ↦ rw other now
  ]

  pub completed-Standing :
      (run : Option ℕ) (s : Listening) → Standing ch id s → Standing ch id (completed_in run s)
  completed-Standing none s now = now
  completed-Standing (some run) s now = now
