-- ===== src/Leader/Lease.antt =====
-- No instance takes the leadership while another one holds the lease.
use agentpg.Base.{
  ℕ, ◌+◌, ◌≤◌, ◌<◌, ◌≡◌, sym, ◌∙◌, Bool, true, false, not, ◌&&◌, List, [], ◌∷◌, All, Option, none,
  some, leb, ◌==◌, arith,
}
use agentpg.Leader.{
  LeaderRow, try_acquire_leader, refresh_leader, release_leader, is_leader, try_acquire_or_refresh,
  Cluster, Event, tick, release, step, steps,
}

-- The lease of an instance lasts up to a time at least.
unfoldable pub holds : ℕ → ℕ → Option LeaderRow → Bool
holds id until none = false
holds id until (some row) = row.leader_id == id && leb until row.expires_at

-- The event is between two times, and is not the release of the instance.
unfoldable pub within : ℕ → ℕ → ℕ → Event → Bool
within id from until (tick other now fails) = leb from now && leb now until
within id from until (release other now) = leb from now && (leb now until && not (other == id))

module _ (ttl id from : ℕ) where
  turn-holds :
      (fails : Bool) (now other : ℕ) (was : Bool) (row : Option LeaderRow)
      → holds id (from + ttl) row ≡ true
      → from ≤ now
      → now ≤ from + ttl
      → (holds id (from + ttl) (try_acquire_or_refresh fails now ttl other was row).0 ≡ true)
        × ((other == id) ≡ false → (try_acquire_or_refresh fails now ttl other was row).1 ≡ false)
  unfolding holds try_acquire_or_refresh refresh_leader try_acquire_leader
  turn-holds fails now other was none h a b = absurd cc
  turn-holds fails now other true (some row) h a b = (ground arith, λ d. ground arith)
  turn-holds fails now other false (some row) h a b = (ground arith, λ d. ground arith)

  release-holds :
      (other : ℕ) (row : Option LeaderRow)
      → holds id (from + ttl) row ≡ true
      → (other == id) ≡ false
      → holds id (from + ttl) (release_leader other row) ≡ true
  unfolding holds release_leader
  release-holds other none h d = absurd cc
  release-holds other (some row) h d = ground arith

  stop-holds :
      (other now : ℕ) (s : Cluster)
      → holds id (from + ttl) s.row ≡ true
      → (other == id) ≡ false
      → holds id (from + ttl) (step ttl (release other now) s).row ≡ true
  unfolding step
  stop-holds other now s h d = ground (arith, release-holds other s.row h d)

  stop-leading :
      (stopped now : ℕ) (s : Cluster) (other : ℕ)
      → (step ttl (release stopped now) s).leading other ≡ s.leading other
  unfolding step
  stop-leading stopped now s other = ground arith

  lease-keeps :
      (events : List Event) (s : Cluster)
      → holds id (from + ttl) s.row ≡ true
      → All (λ event. within id from (from + ttl) event ≡ true) events
      → (holds id (from + ttl) (steps ttl events s).row ≡ true)
        × ((other : ℕ)
            → (other == id) ≡ false
            → (steps ttl events s).leading other ≡ true
            → s.leading other ≡ true)
  unfolding steps step within
  lease-keeps [] s h w = (h, λ other d l. l)
  lease-keeps (tick instance_id now fails ∷ events) s h w =
      let (held, other_not) =
        turn-holds fails now instance_id (s.leading instance_id) s.row h (ground (arith, w.0))
          (ground (arith, w.0)) in
      let (later, none_new) =
        lease-keeps events (step ttl (tick instance_id now fails) s) held w.1 in
      (later, λ other d l. go other d (none_new other d l) other_not)
    where
      go :
          (other : ℕ)
          → (other == id) ≡ false
          → (step ttl (tick instance_id now fails) s).leading other ≡ true
          → ((instance_id == id) ≡ false
              → (try_acquire_or_refresh fails now ttl instance_id (s.leading instance_id) s.row).1
                ≡ false)
          → s.leading other ≡ true
      go other d l other_not = ground (arith, other_not)
  lease-keeps (release instance_id now ∷ events) s h w =
      let (later, none_new) =
        lease-keeps events (step ttl (release instance_id now) s)
          (stop-holds instance_id now s h (ground (arith, w.0))) w.1 in
      (later, λ other d l. sym (stop-leading instance_id now s other) ∙ none_new other d l)

  holds-is_leader :
      (row : Option LeaderRow) (now other : ℕ)
      → holds id (from + ttl) row ≡ true
      → now < from + ttl
      → is_leader now other row ≡ (id == other)
  unfolding holds is_leader
  holds-is_leader none now other h l = absurd cc
  holds-is_leader (some row) now other h l = ground arith

  -- An instance that has the lease from `from` on is the leader for its time to live, and no other
  -- is, nor does any other start to take itself for the leader: this holds after all turns of all
  -- instances and all stops of others in that time, in any order, whichever calls fail.
  pub lease-excludes :
      (events : List Event) (s : Cluster)
      → holds id (from + ttl) s.row ≡ true
      → All (λ event. within id from (from + ttl) event ≡ true) events
      → ((now other : ℕ)
          → now < from + ttl
          → is_leader now other (steps ttl events s).row ≡ (id == other))
        × ((other : ℕ)
            → (other == id) ≡ false
            → (steps ttl events s).leading other ≡ true
            → s.leading other ≡ true)
  lease-excludes events s h w =
      let (held, none_new) = lease-keeps events s h w in
      (λ now other l. holds-is_leader (steps ttl events s).row now other held l, none_new)
