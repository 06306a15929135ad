-- ===== src/Store/Messages.antt =====
-- Sessions, messages, the archive and the compaction events in driver/pgxv5/store.go, whose tables
-- storage/migrations/001_agentpg_migration.up.sql declares. Rows stand in the order of insertion,
-- which is that of `created_at`. Any call may fail: `fails` says which do. New identifiers and times
-- come from two counters.
use agentpg.Base.{
  ℕ, suc, ◌+◌, Bool, true, false, not, ◌||◌, List, [], ◌∷◌, ◌++◌, map, keep, Option, none, some,
  ◌==◌, if◌then◌else◌,
}
use agentpg.Base.Int.{ℤ}
use agentpg.Driver.{Bytes, MessageRole, ContentBlock, Message, Usage}

pub record Session : Type 0 where
  pub id : ℕ
  pub metadata : Bytes
  pub compaction_count : ℕ

pub record CompactionEvent : Type 0 where
  pub id : ℕ
  pub session_id : ℕ
  pub original_tokens : ℕ
  pub compacted_tokens : ℤ
  pub messages_removed : ℕ
  pub summary_content : Option Bytes
  pub preserved_message_ids : List ℕ
  pub model_used : Option Bytes

pub record ArchivedMessage : Type 0 where
  pub id : ℕ
  pub compaction_event_id : ℕ
  pub session_id : ℕ
  pub original_message : Message

pub record Db : Type 0 where
  pub sessions : List Session
  pub messages : List Message
  pub archive : List ArchivedMessage
  pub events : List CompactionEvent
  pub next_id : ℕ
  pub now : ℕ

-- The calls of the store that the compactor makes.
pub data StoreCall : Type 0 where
  get_messages get_session create_compaction_event create_message update_session : StoreCall
  create_content_block archive_message delete_message : ℕ → StoreCall

abbrev pub Faults : Type 0
Faults = StoreCall → Bool

abbrev pub in_session : ℕ → Message → Bool
in_session session msg = msg.session_id == session

unfoldable pub messages_of : Db → ℕ → List Message
messages_of db session = keep (in_session session) db.messages

unfoldable pub find_session : ℕ → List Session → Option Session
find_session id [] = none
find_session id (session ∷ sessions) =
    let rest = find_session id sessions in if session.id == id then some session else rest

pub record CreateMessageParams : Type 0 where
  pub session_id : ℕ
  pub run_id : Option ℕ
  pub role : MessageRole
  pub content : List ContentBlock
  pub usage : Usage
  pub is_preserved : Bool
  pub is_summary : Bool
  pub metadata : Bytes

abbrev pub message_row : Db → CreateMessageParams → List ContentBlock → Message
message_row db params content = record {
  id = db.next_id;
  session_id = params.session_id;
  run_id = params.run_id;
  role = params.role;
  content = content;
  usage = params.usage;
  is_preserved = params.is_preserved;
  is_summary = params.is_summary;
  metadata = params.metadata;
  created_at = db.now;
  updated_at = db.now;
}

abbrev pub is_archived : ℕ → List ArchivedMessage → Bool
is_archived id [] = false
is_archived id (row ∷ rows) = row.id == id || is_archived id rows

module _ (fails : Faults) where
  -- `none` is an error. A limit of 0, the only one the compactor gives, is no limit.
  unfoldable pub get_messages_in : Db → ℕ → Option (List Message)
  get_messages_in db session = if fails get_messages then none else some (messages_of db session)

  -- `none` is an error; a missing row is a nil pointer without an error.
  unfoldable pub get_session_by : Db → ℕ → Option (Option Session)
  get_session_by db id = if fails get_session then none else some (find_session id db.sessions)

  -- The blocks that are written: those before the first that fails.
  unfoldable pub written_blocks : ℕ → List ContentBlock → List ContentBlock
  written_blocks index [] = []
  written_blocks index (block ∷ blocks) =
      let rest = written_blocks (index + 1) blocks in
      if fails (create_content_block index) then [] else block ∷ rest

  unfoldable pub all_written : ℕ → List ContentBlock → Bool
  all_written index [] = true
  all_written index (block ∷ blocks) =
      let rest = all_written (index + 1) blocks in
      if fails (create_content_block index) then false else rest

  -- The row is inserted before its blocks, and stays when one of them fails. The second part says
  -- whether the call succeeded.
  unfoldable pub insert_message : Db → CreateMessageParams → Db × Bool
  insert_message db params = if fails create_message then (db, false) else (
    record db {
      messages = db.messages ++ message_row db params (written_blocks 0 params.content) ∷ [];
      next_id = suc db.next_id;
      now = suc db.now;
    },
    all_written 0 params.content,
  )

  unfoldable pub remove_message : ℕ → Db → Db
  remove_message id db =
      if fails (delete_message id)
      then db
      else record db { messages = keep (λ msg. not (msg.id == id)) db.messages }

  -- The identifier is the primary key of the archive: a second row for it is an error.
  unfoldable pub insert_archived : ℕ → ℕ → Message → Db → Db
  insert_archived event session msg db =
      if fails (archive_message msg.id) || is_archived msg.id db.archive then db else record db {
        archive =
            db.archive
            ++ record {
              id = msg.id;
              compaction_event_id = event;
              session_id = session;
              original_message = msg;
            }
              ∷ [];
      }

  -- `UPDATE agentpg_sessions SET compaction_count = $2 WHERE id = $1`
  unfoldable pub set_compaction_count : ℕ → ℕ → Db → Db
  set_compaction_count id count db = if fails update_session then db else record db {
    sessions =
        map
          (λ session.
            if session.id == id then record session { compaction_count = count } else session)
          db.sessions;
  }
