-- ===== src/Worker/Answer/Outcomes.antt =====
-- What the processing of an answer leaves behind, and where the two workers agree.
use agentpg.Base.{
  ℕ, suc, ◌+◌, ◌≡◌, refl, ap, ◌∙◌, inl, inr, Bool, Bool-cases, true, false, ◌||◌, List, [], ◌∷◌,
  map, keep, All, Option, some, length, length-append, if◌then◌else◌, arith,
}
use agentpg.Driver.{Bytes, ContentBlock}
use agentpg.Store.Messages.{Faults}
use agentpg.Store.Runs.{Run, RunState, Iteration, CreateToolExecutionParams}
use agentpg.Worker.Answer.{
  Answer, AnswerBlock, is_text, is_tool_use, batch_blocks, stream_blocks, has_tool_use,
  count_tool_uses, tool_execution_count, build_tool_params, add_usage, or_empty,
}
use agentpg.Worker.Answer.Process.{AnswerCall, Work, save_answer, process_streaming, process_batch}

module _ (agent_named : Bytes → Option ℕ) (encode : Bytes → Bytes) (max_attempts : ℕ)
    (iter : Iteration) (run : Run) where
  length-build_tool_params :
      (content : List AnswerBlock)
      → length (build_tool_params agent_named encode max_attempts iter run content)
        ≡ tool_execution_count content
  unfolding build_tool_params count_tool_uses has_tool_use
  length-build_tool_params [] = refl
  length-build_tool_params (block ∷ content) =
      ground (arith, length-build_tool_params content, no_uses content)
    where
      no_uses : (bs : List AnswerBlock) → has_tool_use bs ≡ false → count_tool_uses bs ≡ 0
      no_uses [] h = refl
      no_uses (b ∷ bs) h = ground (arith, no_uses bs)

abbrev pub use_ids : List ContentBlock → List Bytes
use_ids blocks = map (λ block. block.tool_use_id) (keep (λ block. is_tool_use block.type) blocks)

abbrev pub created_ids : List CreateToolExecutionParams → List Bytes
created_ids params = map (λ param. param.tool_use_id) params

-- A worker that streams creates one tool execution for each tool use that it stores, in the same
-- order, and a worker on a batch does the same.
pub build_tool_params-ids :
    (agent_named : Bytes → Option ℕ) (marshal : Bytes → Option Bytes) (encode : Bytes → Bytes)
    (max_attempts : ℕ) (iter : Iteration) (run : Run) (content : List AnswerBlock)
    → (created_ids (build_tool_params agent_named encode max_attempts iter run content)
        ≡ use_ids (stream_blocks marshal content))
      × (created_ids (build_tool_params agent_named encode max_attempts iter run content)
          ≡ use_ids (batch_blocks content))
unfolding build_tool_params stream_blocks batch_blocks
build_tool_params-ids agent_named marshal encode max_attempts iter run content =
    (stream content, batch content)
  where
    stream :
        (bs : List AnswerBlock)
        → created_ids (build_tool_params agent_named encode max_attempts iter run bs)
          ≡ use_ids (stream_blocks marshal bs)
    stream [] = refl
    stream (b ∷ bs) = ground (arith, stream bs)

    batch :
        (bs : List AnswerBlock)
        → created_ids (build_tool_params agent_named encode max_attempts iter run bs)
          ≡ use_ids (batch_blocks bs)
    batch [] = refl
    batch (b ∷ bs) = ground (arith, batch bs)

abbrev pub next_state : Answer → RunState
next_state answer =
    if has_tool_use answer.content then RunState.pending_tools else RunState.completed

module _ (fails : Faults) (breaks : AnswerCall → Bool) (agent_named : Bytes → Option ℕ)
    (max_attempts : ℕ) (marshal : Bytes → Option Bytes) (run : Run) (iter : Iteration)
    (answer : Answer) (now : ℕ) (work : Work) where
  abbrev after : Work × Bool
  after = process_streaming fails breaks agent_named max_attempts marshal run iter answer now work

  -- When the processing of a streamed answer succeeds, the run waits for tools if the answer uses
  -- one and is completed otherwise; its usage is that of the run as read plus the answer's; and as
  -- many tool executions are new as the iteration says.
  pub process_streaming-moves :
      after.1 ≡ true
      → (after.0.run.state ≡ next_state answer)
        × (after.0.run.usage ≡ add_usage run.usage answer.usage)
        × (after.0.run.iteration_count ≡ suc run.iteration_count)
        × (length after.0.created ≡ length work.created + after.0.iteration.tool_execution_count)
  unfolding process_streaming save_answer
  process_streaming-moves h =
      let params =
        build_tool_params agent_named (λ input. or_empty (marshal input)) max_attempts iter run
          answer.content in
      let counted =
        length-build_tool_params agent_named (λ input. or_empty (marshal input)) max_attempts iter
          run answer.content in
      (
        ground arith,
        ground arith,
        ground arith,
        ground (arith, counted, length-append work.created params),
      )

  -- When the processing of a streamed answer fails, the run is as it was and there are no new tool
  -- executions.
  pub process_streaming-fails :
      after.1 ≡ false → (after.0.run ≡ work.run) × (after.0.created ≡ work.created)
  unfolding process_streaming save_answer
  process_streaming-fails h = (ground arith, ground arith)

abbrev is_known : AnswerBlock → Bool
is_known block = is_text block.type || is_tool_use block.type

-- A block of an answer that both workers keep, with an input that encoding leaves as it is.
abbrev pub IsAlike : (Bytes → Option Bytes) → AnswerBlock → Type 0
IsAlike marshal block =
    (is_known block ≡ true)
    × (is_tool_use block.type ≡ true → marshal block.input ≡ some block.input)

same_blocks :
    (marshal : Bytes → Option Bytes) (content : List AnswerBlock)
    → All (IsAlike marshal) content
    → batch_blocks content ≡ stream_blocks marshal content
unfolding batch_blocks stream_blocks
same_blocks marshal [] h = refl
same_blocks marshal (b ∷ bs) ((known, encoded), h) =
    let rest = same_blocks marshal bs h in
    elim (Bool-cases (is_tool_use b.type)) [
      | inl uses ↦ let e = encoded uses in ground (arith, rest, known)
      | inr other ↦ ground (arith, rest, known)
    ]

same_params :
    (agent_named : Bytes → Option ℕ) (marshal : Bytes → Option Bytes) (max_attempts : ℕ)
    (iter : Iteration) (run : Run) (content : List AnswerBlock)
    → All (IsAlike marshal) content
    → build_tool_params agent_named (λ input. input) max_attempts iter run content
      ≡ build_tool_params agent_named
          (λ input. or_empty (marshal input))
          max_attempts
          iter
          run
          content
unfolding build_tool_params
same_params agent_named marshal max_attempts iter run [] h = refl
same_params agent_named marshal max_attempts iter run (b ∷ bs) ((known, encoded), h) =
    let rest = same_params agent_named marshal max_attempts iter run bs h in
    elim (Bool-cases (is_tool_use b.type)) [
      | inl uses ↦ rw (uses, encoded uses, rest) refl
      | inr other ↦ rw other rest
    ]

-- The same rows, but for the end of the stream, which is as it was.
abbrev pub unstreamed : Work → Work × Bool → Work × Bool
unstreamed before (after, done) = (
  record after {
    iteration = record after.iteration {
      streaming_completed_at = before.iteration.streaming_completed_at;
    };
  },
  done,
)

save_answer-unstreamed :
    (fails : Faults) (breaks : AnswerCall → Bool) (run : Run) (iter : Iteration) (answer : Answer)
    (now : ℕ) (blocks : List ContentBlock) (params : List CreateToolExecutionParams) (work : Work)
    → save_answer fails breaks false run iter answer now blocks params work
      ≡ unstreamed work (save_answer fails breaks true run iter answer now blocks params work)
unfolding save_answer
save_answer-unstreamed fails breaks run iter answer now blocks params work = ground arith

-- On an answer of text and tool uses only, a batch and a stream return the same and store the same rows,
-- but that the stream notes when it ended in the iteration, if encoding the input of each tool use
-- gives the bytes that the batch has for it.
pub process_batch-process_streaming :
    (fails : Faults) (breaks : AnswerCall → Bool) (agent_named : Bytes → Option ℕ)
    (max_attempts : ℕ) (marshal : Bytes → Option Bytes) (run : Run) (iter : Iteration)
    (answer : Answer) (now : ℕ) (work : Work)
    → All (IsAlike marshal) answer.content
    → process_batch fails breaks agent_named max_attempts
        (some (some run))
        iter
        (some answer)
        now
        work
      ≡ some (
          unstreamed work (
            process_streaming fails breaks agent_named max_attempts marshal run iter answer now
              work))
unfolding process_batch process_streaming
process_batch-process_streaming fails breaks agent_named max_attempts marshal run iter answer now
      work alike =
    let streamed =
      build_tool_params agent_named (λ input. or_empty (marshal input)) max_attempts iter run
        answer.content in
    ap some (
      ap
        (λ blocks.
          save_answer fails breaks false run iter answer now blocks
            (build_tool_params agent_named (λ input. input) max_attempts iter run answer.content)
            work)
        (same_blocks marshal answer.content alike)
      ∙ ap
          (λ params.
            save_answer fails breaks false run iter answer now
              (stream_blocks marshal answer.content) params work)
          (same_params agent_named marshal max_attempts iter run answer.content alike)
      ∙ save_answer-unstreamed fails breaks run iter answer now
          (stream_blocks marshal answer.content) streamed work)
