-- ===== src/Leader.antt =====
-- The election of a leader among the instances: the lease in the one row of agentpg_leader, which
-- driver/pgxv5/store.go takes, extends and gives back, and the turns of the leader loop in client.go.
-- `NOW()` is an argument.
pub mod Lease
use agentpg.Base.{
  ℕ, ◌+◌, Bool, true, false, ◌&&◌, List, [], ◌∷◌, Option, none, some, ltb, ◌==◌, if◌then◌else◌,
}

pub record LeaderRow : Type 0 where
  pub leader_id : ℕ
  pub elected_at : ℕ
  pub expires_at : ℕ

abbrev leased : ℕ → ℕ → ℕ → LeaderRow
leased now ttl instance_id = record {
  leader_id = instance_id;
  elected_at = now;
  expires_at = now + ttl;
}

-- The row afterwards, and whether a row was written.
unfoldable pub try_acquire_leader : ℕ → ℕ → ℕ → Option LeaderRow → Option LeaderRow × Bool
try_acquire_leader now ttl instance_id none = (some (leased now ttl instance_id), true)
try_acquire_leader now ttl instance_id (some row) =
    if ltb row.expires_at now then (some (leased now ttl instance_id), true) else (some row, false)

-- The row afterwards, and whether the call succeeded. An expired lease can still be extended.
unfoldable pub refresh_leader : ℕ → ℕ → ℕ → Option LeaderRow → Option LeaderRow × Bool
refresh_leader now ttl instance_id none = (none, false)
refresh_leader now ttl instance_id (some row) =
    if row.leader_id == instance_id
    then (some (record row { expires_at = now + ttl }), true)
    else (some row, false)

unfoldable pub release_leader : ℕ → Option LeaderRow → Option LeaderRow
release_leader instance_id none = none
release_leader instance_id (some row) = if row.leader_id == instance_id then none else some row

-- `IsLeader`, for an instance whose name is not empty.
unfoldable pub is_leader : ℕ → ℕ → Option LeaderRow → Bool
is_leader now instance_id none = false
is_leader now instance_id (some row) = ltb now row.expires_at && row.leader_id == instance_id

-- `tryAcquireOrRefreshLeadership` of an instance that takes itself for the leader if `was_leader`
-- says so: the row afterwards, and what the instance takes itself for then.
unfoldable pub try_acquire_or_refresh :
    Bool → ℕ → ℕ → ℕ → Bool → Option LeaderRow → Option LeaderRow × Bool
try_acquire_or_refresh fails now ttl instance_id true row =
    if fails then (row, false) else refresh_leader now ttl instance_id row
try_acquire_or_refresh fails now ttl instance_id false row =
    if fails then (row, false) else try_acquire_leader now ttl instance_id row

-- The row, and which instances take themselves for the leader.
pub record Cluster : Type 0 where
  pub row : Option LeaderRow
  pub leading : ℕ → Bool

-- A turn of an instance's leader loop, its store call failing or not, or its stop, which
-- gives the lease back if it takes itself for the leader.
pub data Event : Type 0 where
  tick : ℕ → ℕ → Bool → Event
  release : ℕ → ℕ → Event

abbrev set : ℕ → Bool → (ℕ → Bool) → ℕ → Bool
set id value f other = if other == id then value else f other

module _ (ttl : ℕ) where
  unfoldable pub step : Event → Cluster → Cluster
  step (tick instance_id now fails) s =
      let (row, leading) =
        try_acquire_or_refresh fails now ttl instance_id (s.leading instance_id) s.row in
      record { row = row; leading = set instance_id leading s.leading }
  step (release instance_id now) s =
      if s.leading instance_id then record s { row = release_leader instance_id s.row } else s

  unfoldable pub steps : List Event → Cluster → Cluster
  steps [] s = s
  steps (event ∷ events) s = steps events (step event s)
