-- ===== src/Task.antt =====
-- The data of a task: its status, identifier, retry policy, result and message.
pub mod Status
pub mod Id
pub mod Policy
pub mod Result
pub mod Message
