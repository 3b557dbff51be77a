-- ===== src/Soul.antt =====
-- server/dvadva-agent/src/soul: the turn of the agent, and the flows that are run by turns.
pub mod DenwaRenji
pub mod Steps
pub mod Results
pub mod State
pub mod Effects
pub mod Step
pub mod Turn
pub mod Answers
pub mod Fit
pub mod Compacting
pub mod Handling
pub mod Stepping
pub mod Turns
pub mod Prompts
pub mod Flows
pub mod Walks
pub mod FlowEnds
pub mod Ralph
pub mod Choices
pub mod FlowRuns
pub mod Commands
pub mod Marks
pub mod Replies
