-- ===== src/Compaction/Errors.antt =====
-- compaction/errors.go: the sentinel errors, and results that may be one of them. The operation and
-- session that `CompactionError` records around a sentinel are left out.
pub data Error : Type 0 where
  invalid_config no_messages_to_compact compaction_in_progress summarization_failed
        token_counting_failed session_not_found storage_error :
      Error

pub data Result {ℓ} (A : Type ℓ) : Type ℓ where
  ok : A → Result A
  err : Error → Result A
