-- ===== src/Worker/Runs/Exclusive.antt =====
-- No run is claimed twice.
use agentpg.Base.{
  ℕ, ◌≡◌, refl, sym, ◌∙◌, inl, inr, Bool, true, false, List, [], ◌∷◌, map, keep, take, All,
  All-take, All-map, All-Memᴰ, All-Memᴰ_intro, Memᴰ_of_keep, ◌==◌, Bool-cases, arith,
}
use agentpg.Store.Runs.{Run, RunMode, update_run}
use agentpg.Store.World.{World, write_run}
use agentpg.Worker.Runs.{
  is_pending_run, claimed_state, claimed_run, is_claimable_run, claim_all, claim_runs_of,
}

-- No row of this identifier waits for a worker.
abbrev Taken : ℕ → List Run → Type 0
Taken id runs = All (λ row. (row.id == id) ≡ true → is_pending_run row.state ≡ false) runs

claimed-busy : (mode : RunMode) → is_pending_run (claimed_state mode) ≡ false
claimed-busy RunMode.batch = refl
claimed-busy RunMode.streaming = refl

busy-run :
    (now instance_id : ℕ) (run : Run)
    → is_pending_run (claimed_run now instance_id run).state ≡ false
unfolding claimed_run
busy-run now instance_id run = claimed-busy run.run_mode

update-Taken :
    (now instance_id id : ℕ) (runs : List Run)
    → Taken id (update_run id (claimed_run now instance_id) runs)
update-Taken now instance_id id [] = tt
update-Taken now instance_id id (row ∷ runs) = elim (Bool-cases (row.id == id)) [
  | inl here ↦
      rw here ((λ same. busy-run now instance_id row), update-Taken now instance_id id runs)
  | inr there ↦ rw there ((λ same. absurd cc), update-Taken now instance_id id runs)
]

update-keeps :
    (now instance_id id k : ℕ) (runs : List Run)
    → Taken k runs
    → Taken k (update_run id (claimed_run now instance_id) runs)
update-keeps now instance_id id k [] h = tt
update-keeps now instance_id id k (row ∷ runs) (h, hs) = elim (Bool-cases (row.id == id)) [
  | inl here ↦
      rw here ((λ same. busy-run now instance_id row), update-keeps now instance_id id k runs hs)
  | inr there ↦ rw there (h, update-keeps now instance_id id k runs hs)
]

claim_all-keeps :
    (instance_id k : ℕ) (runs : List Run) (world : World)
    → Taken k world.runs
    → Taken k (claim_all instance_id runs world).runs
unfolding claim_all write_run
claim_all-keeps instance_id k [] world h = h
claim_all-keeps instance_id k (run ∷ runs) world h =
    claim_all-keeps instance_id k runs
      (write_run run.id (claimed_run world.db.now instance_id) world)
      (update-keeps world.db.now instance_id run.id k world.runs h)

claim_all-Taken :
    (instance_id : ℕ) (runs : List Run) (world : World)
    → All (λ run. Taken run.id (claim_all instance_id runs world).runs) runs
unfolding claim_all write_run
claim_all-Taken instance_id [] world = tt
claim_all-Taken instance_id (run ∷ runs) world =
    let next = write_run run.id (claimed_run world.db.now instance_id) world in
    (
      claim_all-keeps instance_id run.id runs next
          (update-Taken world.db.now instance_id run.id world.runs),
      claim_all-Taken instance_id runs next,
    )

-- One claim: the instance, its limit, the mode, and the runs whose tools it has.
pub record Claim : Type 0 where
  pub instance_id : ℕ
  pub max : ℕ
  pub mode : RunMode
  pub capable : Run → Bool

abbrev pub claim_of : Claim → World → World × List Run
claim_of c world = claim_runs_of c.instance_id c.max c.mode c.capable world

unfoldable pub after_claims : List Claim → World → World
after_claims [] world = world
after_claims (c ∷ claims) world = after_claims claims (claim_of c world).0

after_claims-keeps :
    (claims : List Claim) (k : ℕ) (world : World)
    → Taken k world.runs
    → Taken k (after_claims claims world).runs
unfolding after_claims claim_runs_of
after_claims-keeps [] k world h = h
after_claims-keeps (c ∷ claims) k world h = after_claims-keeps claims k (claim_of c world).0 (
    claim_all-keeps c.instance_id k
      (take c.max (keep (is_claimable_run c.mode c.capable) world.runs)) world h)

abbrev pub Apart : List Run → List Run → Type 0
Apart first second = All (λ a. All (λ b. (b.id == a.id) ≡ false) second) first

pending-of_claimable :
    (mode : RunMode) (capable : Run → Bool) (run : Run)
    → is_claimable_run mode capable run ≡ true
    → is_pending_run run.state ≡ true
unfolding is_claimable_run
pending-of_claimable mode capable run h = ground arith

differs :
    (run : Run) (id : ℕ)
    → is_pending_run run.state ≡ true
    → ((run.id == id) ≡ true → is_pending_run run.state ≡ false)
    → (run.id == id) ≡ false
differs run id pending taken = elim (Bool-cases (run.id == id)) [
  | inl same ↦ let clash : true ≡ false = sym pending ∙ taken same in absurd cc
  | inr other ↦ other
]

All-mapped :
    (P : Run → Type 0) (f : Run → Run) (xs : List Run) → All (λ x. P (f x)) xs → All P (map f xs)
All-mapped P f [] h = tt
All-mapped P f (x ∷ xs) (h, hs) = (h, All-mapped P f xs hs)

claim-misses :
    (c : Claim) (k : ℕ) (world : World)
    → Taken k world.runs
    → All (λ b. (b.id == k) ≡ false) (claim_of c world).1
unfolding claim_runs_of claimed_run
claim-misses c k world taken =
    let test = is_claimable_run c.mode c.capable in
    All-mapped (λ b. (b.id == k) ≡ false) (claimed_run world.db.now c.instance_id)
      (take c.max (keep test world.runs))
      (All-take (λ b. (b.id == k) ≡ false) c.max (keep test world.runs)
        (All-Memᴰ_intro (λ b. (b.id == k) ≡ false) (keep test world.runs)
          (λ run m.
            let (stored, passes) = Memᴰ_of_keep test run world.runs m in
            differs run k (pending-of_claimable c.mode c.capable run passes) (
              All-Memᴰ (λ row. (row.id == k) ≡ true → is_pending_run row.state ≡ false) run
                world.runs taken stored))))

-- Claims are exclusive: what an instance claims is not claimed again, whatever other instances claim in
-- between, for either mode.
pub claim_runs-Apart :
    (first second : Claim) (between : List Claim) (world : World)
    → let (claimed, runs) = claim_of first world in
      Apart runs (claim_of second (after_claims between claimed)).1
unfolding claim_runs_of claimed_run
claim_runs-Apart first second between world =
    let runs = take first.max (keep (is_claimable_run first.mode first.capable) world.runs) in
    let claimed = claim_all first.instance_id runs world in
    let later = after_claims between claimed in
    All-mapped (λ a. All (λ b. (b.id == a.id) ≡ false) (claim_of second later).1)
      (claimed_run world.db.now first.instance_id) runs
      (All-map (λ run. Taken run.id claimed.runs)
        (λ run. All (λ b. (b.id == run.id) ≡ false) (claim_of second later).1) runs
        (λ run taken.
          claim-misses second run.id later (after_claims-keeps between run.id claimed taken))
        (claim_all-Taken first.instance_id runs world))
