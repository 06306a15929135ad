-- ===== src/Rescuer/Outcomes.antt =====
-- What a rescue does to the runs.
use agentpg.Base.{
  ℕ, ◌≡◌, refl, ◌∙◌, inl, inr, ◌⊎◌, Bool, true, false, ◌&&◌, List, [], ◌∷◌, map, keep, All,
  All-take, All-Memᴰ_intro, Memᴰ, ltb, leb, ◌==◌, Bool-cases, arith,
}
use agentpg.Store.Runs.{Run, RunState, update_run}
use agentpg.Rescuer.{
  is_stuck, insert_by_claim, sort_by_claim, get_stuck_runs, rescued, rescue_all, rescue_stuck_runs,
}

abbrev HasTries : ℕ → List Run → Type 0
HasTries max runs = All (λ run. ltb run.rescue_attempts max ≡ true) runs

insert-HasTries :
    (max : ℕ) (run : Run) (runs : List Run)
    → ltb run.rescue_attempts max ≡ true
    → HasTries max runs
    → HasTries max (insert_by_claim run runs)
unfolding insert_by_claim
insert-HasTries max run [] h hs = (h, tt)
insert-HasTries max run (other ∷ runs) h hs =
    ground (arith, h, hs.0, hs.1, insert-HasTries max run runs h hs.1)

sort-HasTries : (max : ℕ) (runs : List Run) → HasTries max runs → HasTries max (sort_by_claim runs)
unfolding sort_by_claim
sort-HasTries max [] h = tt
sort-HasTries max (run ∷ runs) h =
    insert-HasTries max run (sort_by_claim runs) h.0 (sort-HasTries max runs h.1)

stuck-HasTries :
    (now timeout max : ℕ) (busy : ℕ → Bool) (runs : List Run)
    → HasTries max (keep (is_stuck now timeout max busy) runs)
unfolding is_stuck
stuck-HasTries now timeout max busy [] = tt
stuck-HasTries now timeout max busy (run ∷ runs) =
    ground (arith, stuck-HasTries now timeout max busy runs)

-- Each row is one of those before, or it waits to be claimed.
abbrev pub Rescues : List Run → List Run → Type 0
Rescues before after = All (λ row. Memᴰ row before ⊎ (row.state ≡ RunState.pending)) after

abbrev pub run_ids : List Run → List ℕ
run_ids runs = map (λ row. row.id) runs

update-Rescues :
    (now id : ℕ) (before table : List Run)
    → Rescues before table
    → Rescues before (update_run id (rescued now) table)
unfolding rescued
update-Rescues now id before [] h = tt
update-Rescues now id before (row ∷ rows) h = elim (Bool-cases (row.id == id)) [
  | inl same ↦ rw same (inr refl, update-Rescues now id before rows h.1)
  | inr other ↦ rw other (h.0, update-Rescues now id before rows h.1)
]

update-ids :
    (now id : ℕ) (table : List Run) → run_ids (update_run id (rescued now) table) ≡ run_ids table
unfolding rescued
update-ids now id [] = refl
update-ids now id (row ∷ rows) = ground (arith, update-ids now id rows)

not-leb : (a b : ℕ) → ltb a b ≡ true → leb b a ≡ false
not-leb a b h = ground arith

module _ (fails : ℕ → Bool) (now max : ℕ) (before : List Run) where
  abbrev Result : List Run → Type 0
  Result table = Rescues before table × (run_ids table ≡ run_ids before)

  rescue_all-Rescues :
      (runs table : List Run)
      → HasTries max runs
      → Result table
      → Result (rescue_all fails now max runs table)
  unfolding rescue_all
  rescue_all-Rescues [] table t r = r
  rescue_all-Rescues (run ∷ runs) table t (r, i) = elim (Bool-cases (fails run.id)) [
    | inl failed ↦ rw (rescue_all, failed) (rescue_all-Rescues runs table t.1 (r, i))
    | inr written ↦
        rw (rescue_all, written, not-leb run.rescue_attempts max t.0)
          (rescue_all-Rescues runs (update_run run.id (rescued now) table) t.1
            (update-Rescues now run.id before table r, update-ids now run.id table ∙ i))
  ]

  -- A rescue leaves each run as it is or sets it back to wait for a worker, and the table has the
  -- same runs in the same places: no run is marked as failed, so the branch for runs with too many
  -- attempts is never taken, whichever updates fail.
  pub rescue_stuck_runs-Rescues :
      (leads found : Bool) (timeout : ℕ) (busy : ℕ → Bool)
      → Rescues before (rescue_stuck_runs fails now max leads found timeout busy before)
        × (run_ids (rescue_stuck_runs fails now max leads found timeout busy before)
            ≡ run_ids before)
  unfolding rescue_stuck_runs get_stuck_runs
  rescue_stuck_runs-Rescues leads found timeout busy =
      let kept =
        All-Memᴰ_intro (λ row. Memᴰ row before ⊎ (row.state ≡ RunState.pending)) before
          (λ x m. inl m) in
      let stuck = keep (is_stuck now timeout max busy) before in
      elim (Bool-cases (leads && found)) [
        | inl go ↦
            rw (rescue_stuck_runs, go)
              (rescue_all-Rescues (get_stuck_runs now timeout max 100 busy before) before
                (All-take (λ run. ltb run.rescue_attempts max ≡ true) 100 (sort_by_claim stuck)
                  (sort-HasTries max stuck (stuck-HasTries now timeout max busy before)))
                (kept, refl))
        | inr stop ↦ rw (rescue_stuck_runs, stop) (kept, refl)
      ]
