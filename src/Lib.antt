-- ===== src/Lib.antt =====
-- agentpg runs AI agents on PostgreSQL: runs and tool executions are rows that worker instances claim,
-- send to the Claude API, and move from state to state; a session that grows too long is compacted.
--
-- - Base, Base/*: Go's comparisons, lists over the native numbers, integers.
-- - Driver, Anthropic: the records of driver/driver.go, and the requests that the program builds with
--   the anthropic-sdk-go package, which with encoding/json is a parameter (`Sdk`).
-- - Store/Messages, Store/Runs, Store/Tools: the tables and the calls of driver/pgxv5/store.go as
--   functions on rows; where a query has no order, or its order leaves rows equal, it gives
--   them as the list has them, or a parameter picks one. A call may fail: `Faults` says which do, and what is
--   left then is what the code leaves. Store/Tools has the claim of
--   storage/migrations/001_agentpg_migration.up.sql too.
-- - Compaction/*: the package in compaction/. Tokens and Counter are token_counter.go, Config is config.go,
--   Partition is message_partition.go, Summarize is summarization.go with prompt.go, Hybrid is
--   hybrid.go with strategy.go, Compactor and Stats are compaction.go. Compact counts and partitions
--   the messages of a session, lets a strategy decide what goes, writes an event, archives, deletes
--   and inserts the summary; Compactor/Effects follows the tables through these steps.
-- - Store/World: the tables together, the calls that read and write runs and tool executions, and the
--   trigger by which an agent's run ends the execution it was made for. Store/Context is the query for
--   the messages of a run, Store/Iterations the one for the iterations to poll. Store/Instances has the rows
--   of the instances, their clean-up in client.go with the triggers on it, and the counts of their work.
-- - Tool/Schema: tool/tool.go; Tool/Schema/Reader is a reader of its documents, the independent
--   description that they are compared with.
-- - Worker/*: Runs is the claim of runs and the loop over them in run_worker.go and streaming_worker.go,
--   with Runs/Batch and Runs/Streaming for their processRun; Request is buildTools and the parameters of a
--   request, Messages is buildMessages. Poll is the polling in batch_poller.go, Answer is processResult
--   and buildToolParams of batch_poller.go and streaming_worker.go. Tools is tool_worker.go with
--   tool/errors.go and the delays of config.go: Tools/Agents the agents as tools, Tools/Results how
--   results answer the uses, Tools/Continue the end of
--   an iteration's tools. A run goes from Runs to Answer, by a stream at once and by a batch through
--   Poll, from there to Tools, and from Tools/Continue back to Runs.
-- - Lifecycle: the life of a run as constants.go draws it, and the turns of all instances,
--   one after the other.
-- - Leader: the lease of agentpg_leader in driver/pgxv5/store.go and the leader loop of client.go.
-- - Client: Config is the configuration of config.go, Wait is WaitForRun and buildResponse of client.go,
--   Agents its agents, over the rows in Store/Agents, Notices the notifications, the channels of the waits
--   and the triggers of the workers, Runs the calls that create runs and wait for them.
-- - Rescuer: rescuer.go, with what it calls of the store.
-- - Ui: ui/service. Conversation is GetHierarchicalConversation of messages.go, Groups its tree of runs,
--   Summaries the summaries of runs.go.
-- - Tests/*: the theorems on concrete data.
--
-- Numbers: identifiers, times and counts are natural numbers, a configured `int` that may be negative is
-- an integer; sums of tokens are taken to fit an int64, and where they may not, in the retry delay, the
-- wrap-around is written out. Floats are bit patterns, compared as such. All loops are structural on
-- their list; only the tree of Ui/Groups goes down by fuel, one more than the greatest depth of a run, and
-- more changes nothing (Ui/Groups/Enough).
--
-- Not modelled: log lines and durations, goroutines (a worker's turn is one step on the
-- row it claimed, a notification one step of the client), the HTTP interface, what
-- the migrations declare beyond the functions and the trigger named above, the driver for database/sql, which repeats the other, the
-- listings of the store, the rest of the user interface, the rest of client.go, and the compaction that a
-- worker may start after a completed run.
pub mod Anthropic
pub mod Base
pub mod Client
pub mod Compaction
pub mod Driver
pub mod Leader
pub mod Lifecycle
pub mod Rescuer
pub mod Store
pub mod Tests
pub mod Tool
pub mod Ui
pub mod Worker
