-- ===== src/Lib.antt =====
-- A development about the Rust agent of this repository: the parts that carry a model's answer from
-- the provider's stream to every attached client, the turn of the agent that they are put together
-- in, and the layer that records and undoes file writes.
--
-- How the parts interact. A provider streams fragments; `generate` (server/kosong/src/generate.rs)
-- joins them into one message by the merging rules of server/kosong/src/message.rs and passes each
-- fragment on. The soul sends the fragments and its own events into a wire (server/dvadva-agent/src/wire/channel.rs), which publishes them on a raw and on a merged broadcast queue
-- (server/dvadva-agent/src/utils/broadcast.rs over utils/aioqueue.rs). The server reads the wire
-- and routes each message to the attached clients (server/dvadva-agent/src/wire/fanout.rs). The
-- tools write files through `CachedKaos` (server/kaos/src/cached.rs and snapshot.rs), which keeps
-- what undoing the writes needs. The soul's conversation is kept in memory and in a log
-- (soul/context.rs), which soul/compaction.rs shortens, and background shell processes in a
-- registry and in files (tasks.rs). A tool that needs the user's consent asks soul/approval.rs for
-- it, and cuts its output to a budget (tools/utils.rs). A flow chart is checked before it is run
-- (skill/flow/mod.rs). A client folds the messages that it gets into blocks to show
-- (client/wire-client/src/transcript.rs), and takes input by a line editor
-- (client/dvadva-tui/src/input.rs). An input that is a slash command is read and looked up by
-- utils/slashcmd.rs. The soul (soul/kimisoul.rs) runs a turn: in each step it shortens the context if
-- it is too long, makes a checkpoint, asks the model and runs its tools (kosong/src/lib.rs), appends
-- the answer and the tools' messages (soul/message.rs) and goes on until an answer calls no tool. A
-- tool may send a D-mail (soul/denwarenji.rs), which takes the conversation back to a checkpoint, and
-- the user may steer between steps. A flow chart is run by such turns, one or more at each node.
--
-- Files:
--   Common: shared tests on booleans, list lemmas, equality, hash maps and integers.
--   Queue: utils/aioqueue.rs; Queue/Store: the queues that several parts hold, by handle;
--     Queue/Fifo: sequences of calls.
--   Message: message.rs (types, `merge_in_place`, `extract_text`); Message/Atoms: what a fragment
--     says, character by character, and that merging keeps it.
--   Tooling: kosong/src/tooling/mod.rs (`ToolReturnValue`, `DisplayBlock`).
--   Generate: generate.rs (`generate`, `append_part`); Assembly, Content, Errors: its theorems.
--   Wire: wire/types.rs (`WireMessage`); Wire/Broadcast: utils/broadcast.rs; Wire/Channel:
--     wire/channel.rs (`WireSoulSide`); Wire/Channel/Atoms: what its messages say; Delivery and
--     Merge: their theorems.
--   Fanout: wire/fanout.rs; Routing, Others, Calls, CatchUp: its theorems.
--   Kaos/History: the caps on the write history (`trim_history`); Kaos/Undo: `record_write`,
--     `write_bytes` and `undo`; Bounds, Report, Newest, Restore: their theorems.
--   Context: server/dvadva-agent/src/soul/context.rs; Replay, Revert, Checkpoints: its theorems.
--   Tasks: server/dvadva-agent/src/tasks.rs; Truth, Agreement: its theorem.
--   Approval: server/dvadva-agent/src/soul/approval.rs; Session, Fetch: its theorems.
--   Compaction: server/dvadva-agent/src/soul/compaction.rs (`prepare`);
--     Compaction/Compact: `compact`; Kept, Shrunk: their theorems.
--   Flow: server/dvadva-agent/src/skill/flow/mod.rs (`validate_flow`) and mermaid.rs
--     (`infer_decision_nodes`); Search, Labels, Validity, Decisions: its theorems.
--   Kaos/Index: the cached listing of cached.rs, as steps of calls that interleave; Invariant, Fresh:
--     its theorems.
--   Editor: client/dvadva-tui/src/input.rs; Zipper: its theorem.
--   Output: server/dvadva-agent/src/tools/utils.rs (`ToolResultBuilder`); Lines, Cuts, Budget, Whole:
--     its theorems.
--   Transcript: client/wire-client/src/transcript.rs (its state and what events do to blocks); Titles:
--     the titles of tabs; Events: `apply_event`; Changes, Idle, Live, Words, Spoken, Nested: its
--     theorems.
--   Slash: server/dvadva-agent/src/utils/slashcmd.rs; Names, Calls: its theorems.
--   Soul/DenwaRenji: soul/denwarenji.rs; Soul/Steps: kosong/src/lib.rs (`step`, `StepResult`);
--     Soul/Results: soul/message.rs; Soul/State, Effects, Step, Turn: soul/kimisoul.rs, from the
--     operations on the context to `turn`; Soul/Answers, Replies, Marks, Fit, Compacting, Handling,
--     Stepping, Turns: what a turn keeps.
--   Soul/Prompts, Flows: soul/kimisoul.rs (`FlowRunner`) and `parse_choice` of skill/flow/mod.rs;
--     Walks, FlowEnds, Ralph, Choices, FlowRuns: their theorems. Soul/Commands: `slash_compact`, `slash_clear`
--     and `run_skill`, with its theorems.
--   Tests: runs of the definitions, and the theorems at concrete inputs.
--
-- How state is modelled. A call on shared state is one step from a state record to the next; a call of
-- the background tasks writes its file after it releases the lock, so that write is a later step of its
-- own (`land`), which may fail and which other calls and writes may overtake. A text
-- is the list of its Unicode characters, since merging concatenates them; ids and names are
-- strings. A queue's `Arc` is a handle into a store, so that a publisher and a subscriber see one
-- queue. Counters (`AtomicUsize`, `AtomicU64`, `u64` ids) wrap around at 2^64. Loops are structural
-- recursion on the stream, on the list they walk or on the count they run to, so no fuel is needed;
-- the printing of a number n in Context has fuel, n + 1, which is at least its number of digits, and
-- the search of a flow has as much as there are edges, and two more: it is shown to end before.
-- A turn recurses on the steps and on the retries that are left. A flow's run has fuel for its rounds,
-- two for each move and two more, and fuel for the turns at a node, which the code does not bound: a
-- run is shown to end unless a decision node gets no answer it knows in all those turns. An
-- offset into a text counts the bytes of UTF-8 (Common/Utf8), and a cut within a character, which
-- panics, is `none`.
--
-- What is a parameter: the JSON values of serde_json (`J`, `V`) and what is read from them for a title
-- (`Json`), the width of characters on a screen, `BTreeMap::extend`, the model's answer to
-- a compaction, floating-point numbers (`F`), and
-- the file system (`Disk`: the operations that undo calls, with the laws that a write that succeeds
-- is read back, that a removed file has no metadata, and that metadata reports the length of what
-- is read), what the model answers and the tools do in a turn and whether the disk works (`Services`
-- in Soul/State), and what JSON makes of a line of the context's log (`Codec`). Tests/Files instantiates
-- the file system with a directory in memory, and Tests/Conversations the log.
--
-- What is not modelled: scheduling inside a call (the waiting of `get`, tasks, locks) but for the late
-- writes of the background tasks,
-- (de)serializers, network transports, drawing of the user interfaces, configuration, the LLM providers' HTTP
-- code, the other slash commands of the soul and its forks, and the task beside a step that forwards its
-- fragments and approvals.
pub mod Common
pub mod Queue
pub mod Message
pub mod Tooling
pub mod Generate
pub mod Wire
pub mod Fanout
pub mod Kaos
pub mod Context
pub mod Tasks
pub mod Approval
pub mod Compaction
pub mod Flow
pub mod Editor
pub mod Output
pub mod Transcript
pub mod Slash
pub mod Soul
pub mod Tests
