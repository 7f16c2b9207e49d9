-- ===== src/Chat/CommandService.antt =====
-- `ChatCommandService` of src/chat/policy/command-service.ts. A method runs to its end before the next
-- one starts, and two readings of the clock between two writes are equal.
pub mod Action
pub mod Permission
pub mod Grants
pub mod Rooms
pub mod Messages
pub mod Cursors
pub mod Reads
pub mod Roster
pub mod Appending
pub mod Run
pub mod Refusal
pub mod Running
pub mod Editing
pub mod Authorship
pub mod Bootstrap
