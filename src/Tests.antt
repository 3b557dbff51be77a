-- ===== src/Tests.antt =====
-- Runs of the definitions on small inputs, and the theorems at concrete ones.
pub mod Queues
pub mod Streams
pub mod Turns
pub mod Router
pub mod Files
pub mod Conversations
pub mod Processes
pub mod Approvals
pub mod Compactions
pub mod Flows
pub mod Listings
pub mod Keys
pub mod Outputs
pub mod Sessions
pub mod Commands
pub mod Rounds
