-- ===== src/Chat/Service.antt =====
-- `ConversationService` of src/chat/core/conversation-service.ts, with the types of
-- src/chat/core/conversation-capability.ts: how a participant observes a conversation and contributes
-- to it on the revision it has seen. A call is one step: `withScopeLock` lets the calls of a scope
-- that it guards run one after the other.
pub mod Conflicts
pub mod Retry
pub mod Reached
use openboa.Prelude.{
  ℕ, ◌-◌, max, String, ◌≡◌, Bool, true, false, not, ◌&&◌, ◌||◌, Option, none, some, List, [], ◌∷◌,
  ◌++◌, map, filter, last?, head?, drop, length, if◌then◌else◌, ◌==◌, nat_eq, truthy, is_truthy,
  opt_eq, or_default, or_else, trim, dedupe,
}
use openboa.Chat.Model.{
  ChatMessage, ChatMessageInput, ChatMessageKind, participant_message, system_event,
  ChatParticipantRef, ChatConversationAttachmentRecord, ChatConversationRecord, ChatSystemEventKind,
  Result, ok, err, ◌>>=◌,
}
use openboa.Chat.Ledger.{SharedChatLedger}
use openboa.Chat.Ledger.Threads.{list_scope_messages, find_message_by_idempotency_key, in_thread}
use openboa.Chat.Ledger.Cursors.{list_conversation_attachments}
use openboa.Chat.Ledger.Conversations.{get_conversation_by_id}
use openboa.Chat.Ledger.Posting.{append_message}

pub record ConversationScope : Type 0 where
  pub conversation_id : String
  pub thread_id : Option String

pub record ConversationObservation : Type 0 where
  pub scope : ConversationScope
  pub revision : ℕ
  pub latest_message_id : Option String
  pub room_participant_ids : List String
  pub visible_participant_ids : List String
  pub attached_participant_ids : List String
  pub messages : List ChatMessage
  pub trigger_message : Option ChatMessage

-- `messageKind?: ChatMessageKind | "all"`
pub data MessageKindFilter : Type 0 where
  all_kinds : MessageKindFilter
  only : ChatMessageKind → MessageKindFilter

pub record ConversationMessageListInput : Type 0 where
  pub limit : Option ℕ
  pub before_message_id : Option String
  pub author_id : Option String
  pub message_kind : Option MessageKindFilter

pub record ContributionAttempt : Type 0 where
  pub scope : ConversationScope
  pub session_id : String
  pub idempotency_key : Option String
  pub based_on_revision : ℕ
  pub based_on_message_id : Option (Option String)
  pub author : ChatParticipantRef
  pub audience : Option ChatParticipantRef
  pub body : String
  pub created_at : String
  pub mentioned_ids : Option (List String)
  pub related_message_id : Option String

pub data ContributionResult : Type 0 where
  accepted : ℕ → ChatMessage → ContributionResult
  stale : ℕ → Option String → ContributionResult

pub record DeferredContribution : Type 0 where
  pub revision : ℕ
  pub reason : Option String

-- `unique` of the service: trimmed, without blanks, each once.
unfoldable pub unique_trimmed : List String → List String
unique_trimmed values = dedupe (filter truthy (map trim values))

unfoldable pub active_attachment_ids : List ChatConversationAttachmentRecord → List String
active_attachment_ids records =
    unique_trimmed (map (λ r. r.participant_id) (filter (λ r. r.attached) records))

-- The largest revision, 0 where there is no message.
unfoldable pub latest_scope_revision : List ChatMessage → ℕ
latest_scope_revision [] = 0
latest_scope_revision (m ∷ ms) = max m.revision (latest_scope_revision ms)

-- The last reply of the thread, or its root where there is none; the last message of the main line.
unfoldable pub latest_message : Option String → List ChatMessage → Option ChatMessage
latest_message none messages = last? messages
latest_message (some thread_id) messages =
    or_else (last? (filter (in_thread (some thread_id)) messages))
      (if truthy thread_id then head? messages else none)

abbrev pub participants_of : Option ChatConversationRecord → List String
participants_of none = []
participants_of (some room) = room.participant_ids

abbrev pub id_of : Option ChatMessage → Option String
id_of none = none
id_of (some m) = some m.message_id

unfoldable pub observation_of :
    ConversationScope
    → Option ChatMessage
    → List ChatMessage
    → List String
    → List String
    → ConversationObservation
observation_of scope trigger messages participants attached = record {
  scope = scope;
  revision = latest_scope_revision messages;
  latest_message_id = id_of (latest_message scope.thread_id messages);
  room_participant_ids = unique_trimmed participants;
  visible_participant_ids = unique_trimmed (participants ++ attached);
  attached_participant_ids = attached;
  messages = messages;
  trigger_message = trigger;
}

unfoldable pub observe_conversation :
    String
    → SharedChatLedger
    → ConversationScope
    → Option ChatMessage
    → Result ConversationObservation
observe_conversation scope_id l scope trigger = do
  messages ← list_scope_messages l scope_id scope.conversation_id scope.thread_id
  let participants = participants_of (get_conversation_by_id l scope.conversation_id scope_id)
  let attached = unique_trimmed (
      active_attachment_ids
        (list_conversation_attachments l scope_id (some scope.conversation_id) (some none))
      ++ active_attachment_ids (
          list_conversation_attachments l scope_id (some scope.conversation_id)
            (some scope.thread_id)))
  ok (observation_of scope trigger messages participants attached)

abbrev pub matches_author : Option String → ChatMessage → Bool
matches_author none m = true
matches_author (some id) m = if truthy id then m.author.id == id else true

abbrev kind_eq : ChatMessageKind → ChatMessageKind → Bool
kind_eq participant_message participant_message = true
kind_eq system_event system_event = true
kind_eq _ _ = false

abbrev pub matches_message_kind : Option MessageKindFilter → ChatMessage → Bool
matches_message_kind (some (only k)) m = kind_eq m.message_kind k
matches_message_kind _ m = true

-- The messages before the first one with the identifier; all of them where there is none.
unfoldable pub before_message : String → List ChatMessage → List ChatMessage
before_message id [] = []
before_message id (m ∷ ms) = if m.message_id == id then [] else m ∷ before_message id ms

-- `messages.slice(-limit)` for a positive limit.
unfoldable pub last_entries : ℕ → List ChatMessage → List ChatMessage
last_entries limit messages = drop (length messages - limit) messages

abbrev pub bounded : Option String → List ChatMessage → List ChatMessage
bounded none messages = messages
bounded (some id) messages = before_message id messages

unfoldable pub list_conversation_messages :
    String
    → SharedChatLedger
    → ConversationScope
    → ConversationMessageListInput
    → Result (List ChatMessage)
list_conversation_messages scope_id l scope input = do
  messages ← list_scope_messages l scope_id scope.conversation_id scope.thread_id
  let wanted =
      filter (λ m. matches_author input.author_id m && matches_message_kind input.message_kind m)
        messages
  ok (last_entries (max 1 (or_default input.limit 20)) (bounded input.before_message_id wanted))

abbrev pub contribution_input : String → ContributionAttempt → ChatMessageInput
contribution_input scope_id attempt = record {
  scope_id = some scope_id;
  conversation_id = attempt.scope.conversation_id;
  thread_id = attempt.scope.thread_id;
  session_id = attempt.session_id;
  idempotency_key = attempt.idempotency_key;
  author = attempt.author;
  audience = attempt.audience;
  body = attempt.body;
  created_at = attempt.created_at;
  mentioned_ids = attempt.mentioned_ids;
  related_message_id = attempt.related_message_id;
  message_kind = none;
  system_event_kind = none;
}

-- The message that was contributed with the attempt's key before.
unfoldable pub contributed_before :
    String → SharedChatLedger → ConversationScope → Option String → Option ChatMessage
contributed_before scope_id l scope none = none
contributed_before scope_id l scope (some key) =
    if truthy key
    then find_message_by_idempotency_key l key scope_id (some scope.conversation_id) scope.thread_id
    else none

-- `basedOnMessageId !== undefined && basedOnMessageId !== latestMessageId`
abbrev pub based_on_other_message : Option (Option String) → Option String → Bool
based_on_other_message none latest = false
based_on_other_message (some id) latest = not (opt_eq id latest)

unfoldable pub is_stale : ContributionAttempt → ConversationObservation → Bool
is_stale attempt observation =
    not (nat_eq observation.revision attempt.based_on_revision)
    || based_on_other_message attempt.based_on_message_id observation.latest_message_id

abbrev pub accept_message :
    ChatMessage × SharedChatLedger → Result (ContributionResult × SharedChatLedger)
accept_message (message, l) = ok (accepted message.revision message, l)

unfoldable pub contribute_on :
    String
    → SharedChatLedger
    → ContributionAttempt
    → ConversationObservation
    → Result (ContributionResult × SharedChatLedger)
contribute_on scope_id l attempt observation =
    if is_stale attempt observation
    then ok (stale observation.revision observation.latest_message_id, l)
    else append_message l (contribution_input scope_id attempt) >>= accept_message

unfoldable pub contribute_unless :
    String
    → SharedChatLedger
    → ContributionAttempt
    → Option ChatMessage
    → Result (ContributionResult × SharedChatLedger)
contribute_unless scope_id l attempt (some existing) = ok (accepted existing.revision existing, l)
contribute_unless scope_id l attempt none = do
  observation ← observe_conversation scope_id l attempt.scope none
  contribute_on scope_id l attempt observation

unfoldable pub contribute_to_conversation :
    String → SharedChatLedger → ContributionAttempt → Result (ContributionResult × SharedChatLedger)
contribute_to_conversation scope_id l attempt =
    contribute_unless scope_id l attempt
      (contributed_before scope_id l attempt.scope attempt.idempotency_key)

unfoldable pub defer_conversation : ℕ → Option String → DeferredContribution
defer_conversation based_on_revision reason = record {
  revision = based_on_revision;
  reason = reason;
}

pub record SystemMessageInput : Type 0 where
  pub scope : ConversationScope
  pub session_id : String
  pub author : ChatParticipantRef
  pub body : String
  pub system_event_kind : ChatSystemEventKind
  pub idempotency_key : Option String
  pub related_message_id : Option String

-- `now` is what `nowIsoString` returns.
unfoldable pub post_system_message :
    String
    → String
    → SharedChatLedger
    → SystemMessageInput
    → Result (ChatMessage × SharedChatLedger)
post_system_message now scope_id l input = append_message l (record {
  scope_id = some scope_id;
  conversation_id = input.scope.conversation_id;
  thread_id = input.scope.thread_id;
  session_id = input.session_id;
  idempotency_key = input.idempotency_key;
  author = input.author;
  audience = none;
  body = input.body;
  created_at = now;
  mentioned_ids = none;
  related_message_id = input.related_message_id;
  message_kind = some system_event;
  system_event_kind = some input.system_event_kind;
})
