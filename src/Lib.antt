-- ===== src/Lib.antt =====
-- A model of the chat kernel of openboa, and of the queue that wakes its agents: the shared chat ledger, the permissions, and the service
-- through which participants observe conversations and contribute to them, and the command service that
-- guards the ledger's calls by the permissions.
--
-- The parts and how they interact. The ledger (src/chat/core/ledger.ts) is a file of events that is only
-- appended to; every view (messages, rooms, memberships, grants, cursors, attachments, participants) is
-- computed by replaying the events of a scope. The conversation service (src/chat/core/conversation-service.ts)
-- posts to the ledger on behalf of a participant who names the revision of the conversation that it has
-- seen. The authorization (src/chat/policy/authorization.ts) decides from grants, membership and the room
-- what a participant may do. The command service (src/chat/policy/command-service.ts) checks that before it
-- calls the ledger.
-- Beside the chat, the runtime of the agents keeps for each session a journal of the wakes that are due to
-- it (src/agents/runtime/session-wake-queue.ts).
--
-- The files:
--   Chat/Model: the records and literal types of src/chat/core/model.ts; Chat/Model/Shape its checks
--     (`uniqueNonBlankStrings`, `chatConversationIdentity`, `assertValid...`); Chat/Model/Outcome the errors
--     that are thrown, as values.
--   Chat/Ledger: the class `SharedChatLedger`; its state is the file, the default scope (the name of the
--     storage directory), what the host gives, and the number of identifiers issued. `list_events` is
--     `listEvents`, `append_event` is `appendJsonl`. Its modules: Messages (`listMessages`,
--     `findMessageById`), Threads (`listScopeMessages`, `validateThreadScope`,
--     `findMessageByIdempotencyKey`), Posting (`appendMessage`, `editMessage`, `redactMessage`,
--     `setMessageReaction`), Conversations and Rooms (`ensureConversation`, `updateConversation` and the
--     lookups), Memberships, Grants, Cursors, Participants, Replay
--     (`replayConversationState`), Transcript (`listTranscript`); Commands runs sequences of the writing
--     calls. Order states the invariant of the file, Fresh that of the identifiers, and Latest is about the loops
--     that keep the latest record of a key.
--   Chat/Authorization: the roles and both decisions; Access the table they are compared with.
--   Chat/Service: `observeConversation`, `listConversationMessages`, `contributeToConversation`,
--     `deferConversation`, `postSystemMessage`, with the types of src/chat/core/conversation-capability.ts.
--   Chat/CommandService: the class `ChatCommandService`. Action is a method as a function of the process'
--     environment and the ledger to a result and the next ledger, which is kept when the method throws, and
--     `resolveChatActorId` of src/chat/actor-id.ts; Permission, Grants, Rooms, Messages, Cursors, Reads and
--     Roster hold the methods, a name that the ledger has too with `conversation` in it
--     (`edit_conversation_message` is `editMessage`); Run has the writing methods as commands, Appending
--     and Refusal what all of them keep and require.
--   Chat/Tests: test data and runs of the code on it.
--   Agents/WakeQueue: the class `SessionWakeQueue` for one agent; its state is the journal of each session
--     and the index of the sessions with pending wakes. `list_pending`, `consume_due`, `consume_known` and
--     `cancel_pending` are the methods that end in `ForAgentSession`. State has the records and the fold of a
--     journal, Index the file of the index, Calls and Due the methods on one session and on all of them.
--     Journal says what the calls leave in the journals; Dedupe, Completing and Consuming, Cancelling,
--     and Enqueuing are about the keys, the taken, the cancelled and the new wakes, and Listing, Unlisting and
--     Indexed about the sessions that the index lists.
--   Prelude: lists, texts, JavaScript's `Map` and `sort`.
--
-- The choices. A method of the ledger is a function from the ledger to a result and the next ledger; a call
-- of it that throws is an error and writes nothing. Numbers are natural. Texts are sequences of code points; `sort()` compares
-- their UTF-16 units. `localeCompare` and `uuidv7` are code outside the repository: the host's order and its
-- sequence of identifiers are parameters, and that an identifier is new is a hypothesis where it is needed.
-- Loops go by structural recursion on lists, so no fuel is used.
--
-- Not modelled: the renaming of the legacy file in
-- src/chat/core/ledger.ts; `searchConversationMessages`, and the interleaving inside `withScopeLock`, in
-- src/chat/core/conversation-service.ts, where a call is one step; the reads of projections in
-- src/chat/policy/command-service.ts, whose methods run one after the other, with one reading of the clock
-- between two writes; in src/agents/runtime/session-wake-queue.ts the lock file with its retries, the parsing
-- of the index file, the lookup of the session and the event on a change; src/chat/projections and the rest
-- of src/agents; the shell and the user interface, which are input and output.
pub mod Prelude
pub mod Chat
pub mod Agents
