-- ===== src/Compaction/Stats/Counts.antt =====
-- What the statistics of a session say, and when they cannot be had.
use mathlib.Core.Path.{subst}
use agentpg.Base.{
  ℕ, ◌+◌, ◌≡◌, refl, ap, inl, inr, false, not, ◌&&◌, List, [], ◌∷◌, keep, Option, none, some,
  length, length-append, Bool-cases, arith,
}
use agentpg.Base.Int.{ℤ}
use agentpg.Driver.{Message}
use agentpg.Anthropic.{Sdk}
use agentpg.Store.Messages.{
  Db, Session, Faults, get_messages, get_session, get_messages_in, get_session_by, find_session,
  messages_of,
}
use agentpg.Compaction.Errors.{ok, err, storage_error}
use agentpg.Compaction.Counter.{TokenCounter, TokenCountResult, count_tokens}
use agentpg.Compaction.Partition.{MessagePartition, DistinctIds}
use agentpg.Compaction.Partition.Conservation.{partition-shape}
use agentpg.Compaction.Compactor.{Compactor, partition_messages}
use agentpg.Compaction.Compactor.Kept.{Distinct-keep}
use agentpg.Compaction.Stats.{
  Stats, stats_of, Call, returns, panics, stats_from, stats_of_session, get_stats,
}

length-three :
    (ms : List Message)
    → length (keep (λ m. m.is_summary) ms)
        + length (keep (λ m. not m.is_summary && m.is_preserved) ms)
        + length (keep (λ m. not m.is_summary && not m.is_preserved) ms)
      ≡ length ms
length-three [] = refl
length-three (m ∷ ms) = ground (arith, length-three ms)

module _ (sdk : Sdk) (c : Compactor) (tc : TokenCounter) where
  groups-length :
      (ms : List Message)
      → DistinctIds ms
      → let p = (partition_messages sdk c.config tc ms).0 in
        length p.protected
          + length p.preserved
          + length p.recent
          + length p.summaries
          + length p.compactable
        ≡ length ms
  unfolding partition_messages
  groups-length [] d = refl
  groups-length (m ∷ ms) d =
      let result = (count_tokens sdk tc (m ∷ ms)).0 in
      let (before, e, _, s, p, k) = partition-shape c.config (m ∷ ms) result d in
      omega (
        arith,
        ap length e,
        length-append before _,
        length-append (partition_messages sdk c.config tc (m ∷ ms)).0.recent _,
        ap length s,
        ap length p,
        ap length k,
        length-three before,
      )

stats_or : Stats → Call Stats → Stats
stats_or stats (returns (ok found) tc) = found
stats_or stats (returns (err e) tc) = stats
stats_or stats panics = stats

module _ (sdk : Sdk) (fails : Faults) (scale : ℤ → ℕ → ℤ) (c : Compactor) (db : Db)
    (session : ℕ) where
  -- If the store does not fail, the statistics of a session that is not there are a panic, and those
  -- of a session that is there are returned, with the compaction count of its row.
  pub get_stats-panics :
      fails get_messages ≡ false
      → fails get_session ≡ false
      → (find_session session db.sessions ≡ none → get_stats sdk fails scale c db session ≡ panics)
        × ((row : Session)
            → find_session session db.sessions ≡ some row
            → (stats : Stats) × (tc : TokenCounter) × (get_stats sdk fails scale c db session
                ≡ returns (ok stats) tc)
              × (stats.compaction_count ≡ row.compaction_count))
  unfolding get_stats get_messages_in get_session_by
  get_stats-panics m s = (
    λ e. rw (get_stats, get_messages_in, get_session_by, m, s, e) refl,
    λ row e. (
      stats_of sdk fails scale c row (messages_of db session) counts parts.0,
      parts.1,
      rw (get_stats, get_messages_in, get_session_by, m, s, e) refl,
      refl,
    ),
  )
    where
      counts : TokenCountResult
      counts = (count_tokens sdk c.token_counter (messages_of db session)).0

      parts : MessagePartition × TokenCounter
      parts =
          partition_messages sdk c.config
            (count_tokens sdk c.token_counter (messages_of db session)).1 (messages_of db session)

  -- All the groups are counted in what `get_stats` returns.
  CountsAll : List Message → Stats → Type 0
  CountsAll ms stats =
      (stats.preserved_messages + stats.summary_messages + stats.compactable_messages
        ≡ stats.total_messages)
      × (stats.total_messages ≡ length ms)

  from-CountsAll :
      (ms : List Message) (found : Option Session) (stats : Stats) (tc : TokenCounter)
      → DistinctIds ms
      → stats_from sdk fails scale c ms found ≡ returns (ok stats) tc
      → CountsAll ms stats
  unfolding CountsAll stats_or
  from-CountsAll ms none stats tc d h = absurd cc
  from-CountsAll ms (some row) stats tc d h =
      subst (CountsAll ms) (ap (stats_or stats) h)
        (omega (arith, groups-length sdk c (count_tokens sdk c.token_counter ms).1 ms d), refl)

  session-CountsAll :
      (ms : List Message) (read : Option (Option Session)) (stats : Stats) (tc : TokenCounter)
      → DistinctIds ms
      → stats_of_session sdk fails scale c ms read ≡ returns (ok stats) tc
      → CountsAll ms stats
  session-CountsAll ms none stats tc d h = absurd cc
  session-CountsAll ms (some found) stats tc d h = from-CountsAll ms found stats tc d h

  -- The statistics of messages with distinct identifiers count each message once: the preserved ones,
  -- the summaries and the compactable ones are all the messages of the session.
  get_stats-counts :
      (stats : Stats) (tc : TokenCounter)
      → DistinctIds db.messages
      → get_stats sdk fails scale c db session ≡ returns (ok stats) tc
      → (stats.preserved_messages + stats.summary_messages + stats.compactable_messages
          ≡ stats.total_messages)
        × (stats.total_messages ≡ length (messages_of db session))
  unfolding get_stats get_messages_in messages_of CountsAll
  get_stats-counts stats tc d h = elim (Bool-cases (fails get_messages)) [
    | inl failed ↦ absurd (refused (rw (get_stats, get_messages_in, failed) at h))
    | inr read ↦
        session-CountsAll (messages_of db session) (get_session_by fails db session) stats tc
          (Distinct-keep _ db.messages d) (rw (get_stats, get_messages_in, read) at h)
  ]
    where
      refused : returns (err storage_error) c.token_counter ≡ returns (ok stats) tc → ⊥
      refused e = cc
