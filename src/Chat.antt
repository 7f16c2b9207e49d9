-- ===== src/Chat.antt =====
-- src/chat: the chat kernel. `Model` is core/model.ts, `Ledger` core/ledger.ts, `Authorization`
-- policy/authorization.ts, `Service` core/conversation-service.ts and
-- `CommandService` policy/command-service.ts.
pub mod Model
pub mod Authorization
pub mod Ledger
pub mod Service
pub mod CommandService
pub mod Tests
