-- ===== src/Agents/WakeQueue.antt =====
-- `SessionWakeQueue` of src/agents/runtime/session-wake-queue.ts for the sessions of one agent: a journal
-- of wakes for each session, and the index of the sessions with pending wakes. A call is one step: no other
-- call runs between its reads and its writes.
pub mod State
pub mod Index
pub mod Calls
pub mod Due
pub mod Journal
pub mod Dedupe
pub mod Completing
pub mod Consuming
pub mod Enqueuing
pub mod Unlisting
pub mod Listing
pub mod Indexed
pub mod Cancelling
