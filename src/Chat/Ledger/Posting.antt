-- ===== src/Chat/Ledger/Posting.antt =====
-- Posting, editing, redacting and reacting in src/chat/core/ledger.ts.
pub mod Mentions
pub mod Revision
pub mod Idempotency
pub mod Lines
pub mod Numbering
pub mod Permanence
use openboa.Prelude.{
  ℕ, zero, ◌+◌, String, Bool, true, false, Option, none, some, List, [], ◌∷◌, ◌++◌, filter, last?,
  if◌then◌else◌, trim_or_null, or_default,
}
use openboa.Chat.Model.{
  ChatLedgerEvent, message_posted, reaction_set, message_edited, message_redacted, ChatMessage,
  ChatMessageInput, ChatMessageKind, participant_message, system_event, ChatSystemEventKind,
  ChatMessageEditRecord, ChatMessageRedactionRecord, ChatMessageReactionRecord, ChatParticipantRef,
  Result, ok, err, ◌>>=◌, ◌>>◌, message_not_found,
}
use openboa.Chat.Model.Shape.{assert_valid_chat_message_input}
use openboa.Chat.Ledger.{
  SharedChatLedger, next_sequence, append_event, make_id, scope_or_default, unique,
}
use openboa.Chat.Ledger.Messages.{find_message_by_id}
use openboa.Chat.Ledger.Threads.{
  validate_thread_scope, list_scope_messages, in_thread, find_message_by_idempotency_key,
}
use Mentions.{mention_ids_from_body}

abbrev kept_event_kind : ChatMessageKind → Option ChatSystemEventKind → Option ChatSystemEventKind
kept_event_kind system_event k = k
kept_event_kind participant_message k = none

-- The number of a scope's last message.
unfoldable pub last_scope_sequence : List ChatMessage → ℕ
last_scope_sequence messages = elim (last? messages) [ none ↦ 0 | some m ↦ m.scope_sequence ]

-- The message that `appendMessage` writes, after the messages of its scope.
unfoldable pub new_message : SharedChatLedger → ChatMessageInput → List ChatMessage → ChatMessage
unfolding last_scope_sequence
new_message l input scope_messages =
    let scope = scope_or_default l input.scope_id in
    let kind : ChatMessageKind = or_default input.message_kind participant_message in
    let sequence = next_sequence l scope in
    record {
      scope_id = scope;
      message_id = make_id l "msg" 0;
      event_id = make_id l "msg" 0;
      sequence = sequence;
      scope_sequence = last_scope_sequence (filter (in_thread input.thread_id) scope_messages) + 1;
      revision = sequence;
      conversation_id = input.conversation_id;
      room_id = input.conversation_id;
      thread_id = input.thread_id;
      session_id = input.session_id;
      author = input.author;
      audience = input.audience;
      content = input.body;
      body = input.body;
      idempotency_key = trim_or_null input.idempotency_key;
      created_at = input.created_at;
      edited_at = none;
      edited_by_id = none;
      redacted_at = none;
      redacted_by_id = none;
      mentioned_ids =
          unique (or_default input.mentioned_ids [] ++ mention_ids_from_body input.body);
      reactions = [];
      related_message_id = input.related_message_id;
      message_kind = kind;
      system_event_kind = kept_event_kind kind input.system_event_kind;
    }

unfoldable pub posted_under :
    SharedChatLedger → ChatMessageInput → Option String → Option ChatMessage
posted_under l input none = none
posted_under l input (some key) =
    find_message_by_idempotency_key l key (scope_or_default l input.scope_id)
      (some input.conversation_id) input.thread_id

-- The message that was posted with the key before, if the call has a key.
unfoldable pub posted_before : SharedChatLedger → ChatMessageInput → Option ChatMessage
posted_before l input = posted_under l input (trim_or_null input.idempotency_key)

unfoldable pub write_message :
    SharedChatLedger → ChatMessageInput → Result (ChatMessage × SharedChatLedger)
write_message l input = do
  scope_messages ←
      list_scope_messages l (scope_or_default l input.scope_id) input.conversation_id
        input.thread_id
  let message = new_message l input scope_messages
  ok (message, append_event l 1 (message_posted message))

unfoldable pub post_unless :
    SharedChatLedger
    → ChatMessageInput
    → Option ChatMessage
    → Result (ChatMessage × SharedChatLedger)
post_unless l input (some existing) = ok (existing, l)
post_unless l input none = write_message l input

unfoldable pub append_message :
    SharedChatLedger → ChatMessageInput → Result (ChatMessage × SharedChatLedger)
append_message l input = do
  assert_valid_chat_message_input input
  root ←
      validate_thread_scope l (scope_or_default l input.scope_id) input.conversation_id
        input.thread_id
  post_unless l input (posted_before l input)

pub record EditInput : Type 0 where
  pub scope_id : Option String
  pub message_id : String
  pub editor : ChatParticipantRef
  pub body : String
  pub created_at : String

unfoldable pub edit_message :
    SharedChatLedger → EditInput → Result (ChatMessageEditRecord × SharedChatLedger)
edit_message l input =
    let scope = scope_or_default l input.scope_id in
    let sequence = next_sequence l scope in
    let persisted : ChatMessageEditRecord = record {
      scope_id = scope;
      event_id = make_id l "message-edit" 0;
      sequence = sequence;
      scope_revision = sequence;
      message_id = input.message_id;
      editor = input.editor;
      body = input.body;
      content = input.body;
      mentioned_ids = mention_ids_from_body input.body;
      created_at = input.created_at;
    } in
    elim (find_message_by_id l input.message_id scope) [
      | none ↦ err (message_not_found input.message_id)
      | some message ↦ ok (persisted, append_event l 1 (message_edited persisted))
    ]

pub record RedactInput : Type 0 where
  pub scope_id : Option String
  pub message_id : String
  pub redactor : ChatParticipantRef
  pub created_at : String

unfoldable pub redact_message :
    SharedChatLedger → RedactInput → Result (ChatMessageRedactionRecord × SharedChatLedger)
redact_message l input =
    let scope = scope_or_default l input.scope_id in
    let sequence = next_sequence l scope in
    let persisted : ChatMessageRedactionRecord = record {
      scope_id = scope;
      event_id = make_id l "message-redaction" 0;
      sequence = sequence;
      scope_revision = sequence;
      message_id = input.message_id;
      redactor = input.redactor;
      created_at = input.created_at;
    } in
    elim (find_message_by_id l input.message_id scope) [
      | none ↦ err (message_not_found input.message_id)
      | some message ↦ ok (persisted, append_event l 1 (message_redacted persisted))
    ]

pub record ReactionInput : Type 0 where
  pub scope_id : Option String
  pub message_id : String
  pub emoji : String
  pub participant : ChatParticipantRef
  pub active : Bool
  pub created_at : String

unfoldable pub set_message_reaction :
    SharedChatLedger → ReactionInput → ChatMessageReactionRecord × SharedChatLedger
set_message_reaction l input =
    let scope = scope_or_default l input.scope_id in
    let persisted : ChatMessageReactionRecord = record {
      scope_id = scope;
      event_id = make_id l "reaction" 0;
      sequence = next_sequence l scope;
      message_id = input.message_id;
      emoji = input.emoji;
      participant = input.participant;
      active = input.active;
      created_at = input.created_at;
    } in
    (persisted, append_event l 1 (reaction_set persisted))
