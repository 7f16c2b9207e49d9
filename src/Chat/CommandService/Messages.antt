-- ===== src/Chat/CommandService/Messages.antt =====
-- The messages of src/chat/policy/command-service.ts: posting, editing, redacting and reacting.
use openboa.Prelude.{
  String, Bool, true, false, not, ◌&&◌, ◌||◌, Option, none, some, any, find, if◌then◌else◌, ◌==◌,
  truthy, is_truthy, trim, includes, or_default, pieces,
}
use openboa.Chat.Model.{
  ChatConversationRecord, ChatMessage, ChatMessageReaction, ChatMessageKind, participant_message,
  system_event, ChatParticipantRef, ChatParticipantKind, message_missing, message_gone,
  emoji_required, body_required, redacted_not_mutated, redacted_not_edited, only_participant_edited,
  only_participant_redacted, only_author_edits, only_author_or_manager_redacts,
  mass_mention_in_thread, audience_not_participant, audience_not_visible,
}
use openboa.Chat.Authorization.{
  message_create, message_edit, message_redact, message_react, message_mass_mention,
}
use openboa.Chat.Ledger.Messages.{find_message_by_id}
use openboa.Chat.Service.{ConversationScope, observe_conversation}
use openboa.Chat.CommandService.Action.{
  Action, pure, raise, gets, asks, or_raise, ensure, done, now_iso_string, make_uuid_v7,
  ledger_append_message, ledger_edit_message, ledger_redact_message, ledger_set_message_reaction,
  ◌>>=◌, ◌>>◌,
}
use openboa.Chat.CommandService.Permission.{
  require_conversation, assert_conversation_action, has_manager_authority,
}

-- `/(^|\s)@(?:channel|here|all)(?=\s|$)/u`: the mention stands between white space.
unfoldable pub normalize_mass_mention : String → Bool
normalize_mass_mention body =
    any (λ w. (w == "@channel") || (w == "@here") || (w == "@all")) (pieces body)

pub record PostConversationMessageInput : Type 0 where
  pub conversation_id : String
  pub sender_id : String
  pub sender_kind : Option ChatParticipantKind
  pub body : String
  pub thread_id : Option String
  pub idempotency_key : Option String
  pub session_id : Option String
  pub audience : Option ChatParticipantRef
  pub related_message_id : Option String

abbrev pub is_participant_kind : ChatParticipantKind → Bool
is_participant_kind ChatParticipantKind.participant = true
is_participant_kind ChatParticipantKind.system = false

unfoldable pub check_audience :
    ChatConversationRecord → Option String → Option ChatParticipantRef → Action (Unit {0})
check_audience room thread_id none = done
check_audience room thread_id (some audience) = do
  ensure (is_participant_kind audience.kind) audience_not_participant
  let scope : ConversationScope = record {
    conversation_id = room.conversation_id;
    thread_id = thread_id;
  }
  observation ← asks (λ l. observe_conversation l.default_scope l scope none)
  ensure (includes audience.id observation.visible_participant_ids) audience_not_visible

abbrev pub session_or_uuid : Option String → Action String
session_or_uuid none = make_uuid_v7
session_or_uuid (some id) = pure id

abbrev pub mass_mention_check : Bool → String → ChatConversationRecord → Action (Unit {0})
mass_mention_check true sender room = assert_conversation_action sender room message_mass_mention
mass_mention_check false sender room = done

unfoldable pub post_message : PostConversationMessageInput → Action ChatMessage
post_message input = do
  room ← require_conversation input.conversation_id
  let has_mass_mention = normalize_mass_mention input.body
  ensure (not (has_mass_mention && is_truthy input.thread_id)) mass_mention_in_thread
  mass_mention_check has_mass_mention input.sender_id room
  assert_conversation_action input.sender_id room message_create
  check_audience room input.thread_id input.audience
  session_id ← session_or_uuid input.session_id
  at ← now_iso_string
  ledger_append_message (record {
    scope_id = none;
    conversation_id = input.conversation_id;
    thread_id = input.thread_id;
    session_id = session_id;
    idempotency_key = input.idempotency_key;
    author = record {
      kind = or_default input.sender_kind ChatParticipantKind.participant;
      id = input.sender_id;
      display_name = none;
    };
    audience = input.audience;
    body = input.body;
    created_at = at;
    mentioned_ids = none;
    related_message_id = input.related_message_id;
    message_kind = none;
    system_event_kind = none;
  })

abbrev pub message_in_room :
    Option ChatMessage → ChatConversationRecord → String → Action ChatMessage
message_in_room none room id = raise (message_missing id)
message_in_room (some m) room id =
    if m.conversation_id == room.conversation_id then pure m else raise (message_missing id)

unfoldable pub require_message : ChatConversationRecord → String → Action ChatMessage
require_message room message_id = do
  found ← gets (λ l. find_message_by_id l message_id l.default_scope)
  message_in_room found room message_id

-- The message after a write, under its own identifier; `asked` is the one that the call named.
unfoldable pub reread_message : String → String → Action ChatMessage
reread_message message_id asked = do
  updated ← gets (λ l. find_message_by_id l message_id l.default_scope)
  or_raise updated (message_gone asked)

abbrev pub participant_ref : String → ChatParticipantRef
participant_ref id = record { kind = ChatParticipantKind.participant; id = id; display_name = none }

abbrev pub is_participant_message : ChatMessageKind → Bool
is_participant_message participant_message = true
is_participant_message system_event = false

unfoldable pub write_edit : ChatMessage → String → String → String → Action ChatMessage
write_edit message actor_id asked body = do
  at ← now_iso_string
  edit ← ledger_edit_message (record {
    scope_id = none;
    message_id = message.message_id;
    editor = participant_ref actor_id;
    body = body;
    created_at = at;
  })
  reread_message message.message_id asked

unfoldable pub edit_conversation_message : String → String → String → String → Action ChatMessage
edit_conversation_message conversation_id actor_id message_id body = do
  room ← require_conversation conversation_id
  assert_conversation_action actor_id room message_edit
  ensure (truthy (trim body)) body_required
  message ← require_message room message_id
  ensure (is_participant_message message.message_kind) only_participant_edited
  ensure (not (is_truthy message.redacted_at)) redacted_not_edited
  ensure (message.author.id == actor_id) only_author_edits
  if message.body == body then pure message else write_edit message actor_id message_id body

unfoldable pub write_redaction :
    ChatConversationRecord → ChatMessage → String → String → Action ChatMessage
write_redaction room message actor_id asked = do
  can_moderate ← gets (λ l. has_manager_authority l actor_id room)
  ensure ((message.author.id == actor_id) || can_moderate) only_author_or_manager_redacts
  at ← now_iso_string
  redaction ← ledger_redact_message (record {
    scope_id = none;
    message_id = message.message_id;
    redactor = participant_ref actor_id;
    created_at = at;
  })
  reread_message message.message_id asked

unfoldable pub redact_conversation_message : String → String → String → Action ChatMessage
redact_conversation_message conversation_id actor_id message_id = do
  room ← require_conversation conversation_id
  assert_conversation_action actor_id room message_redact
  message ← require_message room message_id
  ensure (is_participant_message message.message_kind) only_participant_redacted
  if is_truthy message.redacted_at
      then pure message
      else write_redaction room message actor_id message_id

abbrev pub reacts_with : String → Option ChatMessageReaction → Bool
reacts_with actor_id none = false
reacts_with actor_id (some r) = includes actor_id r.participant_ids

abbrev same_bool : Bool → Bool → Bool
same_bool a b = if a then b else not b

unfoldable pub write_reaction : ChatMessage → String → String → String → Bool → Action ChatMessage
write_reaction message actor_id asked emoji active = do
  at ← now_iso_string
  reaction ← ledger_set_message_reaction (record {
    scope_id = none;
    message_id = message.message_id;
    emoji = emoji;
    participant = participant_ref actor_id;
    active = active;
    created_at = at;
  })
  reread_message message.message_id asked

unfoldable pub set_conversation_reaction :
    String → String → String → String → Bool → Action ChatMessage
set_conversation_reaction conversation_id actor_id message_id asked_emoji active = do
  room ← require_conversation conversation_id
  assert_conversation_action actor_id room message_react
  let emoji = trim asked_emoji
  ensure (truthy emoji) emoji_required
  message ← require_message room message_id
  ensure (not (is_truthy message.redacted_at)) redacted_not_mutated
  if same_bool (reacts_with actor_id (find (λ r. r.emoji == emoji) message.reactions)) active
      then pure message
      else write_reaction message actor_id message_id emoji active
