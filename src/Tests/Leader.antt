-- ===== src/Tests/Leader.antt =====
-- Runs of the theorem on the leader election: an instance that extends its lease while another tries.
use agentpg.Base.{ℕ, ◌<◌, ◌≡◌, refl, true, false, List, [], ◌∷◌, some, ◌==◌}
use agentpg.Leader.{Cluster, Event, tick, release, is_leader, steps}
use agentpg.Leader.Lease.{holds, within, lease-excludes}

abbrev cluster : Cluster
cluster = record {
  row = some (record { leader_id = 1; elected_at = 10; expires_at = 40 });
  leading = λ id. id == 1;
}

abbrev turns : List Event
turns = tick 2 15 false ∷ tick 1 25 false ∷ tick 2 35 false ∷ release 2 36 ∷ []

lease-excludes_example :
    ((now other : ℕ) → now < 40 → is_leader now other (steps 30 turns cluster).row ≡ (1 == other))
    × ((other : ℕ)
        → (other == 1) ≡ false
        → (steps 30 turns cluster).leading other ≡ true
        → (other == 1) ≡ true)
unfolding holds within
lease-excludes_example =
    lease-excludes 30 1 10 turns cluster refl (refl, (refl, (refl, (refl, tt))))
