-- ===== src/Chat/CommandService/Cursors.antt =====
-- The read cursors and the watch and follow states of src/chat/policy/command-service.ts.
use openboa.Prelude.{
  ℕ, String, Bool, true, false, not, ◌&&◌, Option, none, some, List, filter, find, head?, last?,
  if◌then◌else◌, nat_eq, ◌==◌,
}
use openboa.Chat.Model.{ChatCursorRecord, ChatConversationAttachmentRecord, ChatMessage}
use openboa.Chat.Authorization.{room_read}
use openboa.Chat.Ledger.{SharedChatLedger}
use openboa.Chat.Ledger.Threads.{list_scope_messages, in_thread}
use openboa.Chat.Ledger.Cursors.{list_cursor_records, list_conversation_attachments}
use openboa.Chat.Service.{latest_scope_revision}
use openboa.Chat.CommandService.Action.{
  Action, pure, gets, asks, now_iso_string, ledger_upsert_cursor, ledger_upsert_attachment, ◌>>=◌,
  ◌>>◌,
}
use openboa.Chat.CommandService.Permission.{require_conversation, assert_conversation_action}

pub record ConversationCursorState : Type 0 where
  pub participant_id : String
  pub conversation_id : String
  pub thread_id : Option String
  pub last_observed_sequence : ℕ
  pub last_observed_scope_sequence : ℕ
  pub last_observed_scope_revision : ℕ
  pub last_contributed_sequence : Option ℕ
  pub created_at : Option String
  pub updated_at : Option String
  pub has_persisted_cursor : Bool

abbrev pub normalize_cursor_state :
    String → String → Option String → Option ChatCursorRecord → ConversationCursorState
normalize_cursor_state participant_id conversation_id thread_id none = record {
  participant_id = participant_id;
  conversation_id = conversation_id;
  thread_id = thread_id;
  last_observed_sequence = 0;
  last_observed_scope_sequence = 0;
  last_observed_scope_revision = 0;
  last_contributed_sequence = none;
  created_at = none;
  updated_at = none;
  has_persisted_cursor = false;
}
normalize_cursor_state participant_id conversation_id thread_id (some r) = record {
  participant_id = participant_id;
  conversation_id = conversation_id;
  thread_id = thread_id;
  last_observed_sequence = r.last_observed_sequence;
  last_observed_scope_sequence = r.last_observed_scope_sequence;
  last_observed_scope_revision = r.last_observed_scope_revision;
  last_contributed_sequence = r.last_contributed_sequence;
  created_at = some r.created_at;
  updated_at = some r.updated_at;
  has_persisted_cursor = true;
}

pub record ConversationAttachmentState : Type 0 where
  pub participant_id : String
  pub conversation_id : String
  pub thread_id : Option String
  pub attached : Option Bool
  pub created_at : Option String
  pub updated_at : Option String
  pub has_persisted_attachment : Bool

abbrev pub normalize_attachment_state :
    String
    → String
    → Option String
    → Option ChatConversationAttachmentRecord
    → ConversationAttachmentState
normalize_attachment_state participant_id conversation_id thread_id none = record {
  participant_id = participant_id;
  conversation_id = conversation_id;
  thread_id = thread_id;
  attached = none;
  created_at = none;
  updated_at = none;
  has_persisted_attachment = false;
}
normalize_attachment_state participant_id conversation_id thread_id (some r) = record {
  participant_id = participant_id;
  conversation_id = conversation_id;
  thread_id = thread_id;
  attached = some r.attached;
  created_at = some r.created_at;
  updated_at = some r.updated_at;
  has_persisted_attachment = true;
}

unfoldable pub get_cursor_record :
    SharedChatLedger → String → Option String → String → Option ChatCursorRecord
get_cursor_record l conversation_id thread_id participant_id = head? (
    list_cursor_records l l.default_scope (some conversation_id) (some thread_id)
      (some participant_id))

unfoldable pub get_attachment_record :
    SharedChatLedger → String → Option String → String → Option ChatConversationAttachmentRecord
get_attachment_record l conversation_id thread_id participant_id =
    find (λ r. r.participant_id == participant_id)
      (list_conversation_attachments l l.default_scope (some conversation_id) (some thread_id))

unfoldable pub read_conversation_cursor :
    String → String → Option String → Action ConversationCursorState
read_conversation_cursor conversation_id actor_id thread_id = do
  room ← require_conversation conversation_id
  assert_conversation_action actor_id room room_read
  cursor ← gets (λ l. get_cursor_record l room.conversation_id thread_id actor_id)
  pure (normalize_cursor_state actor_id room.conversation_id thread_id cursor)

-- The numbers of the last message and of the latest revision that a reader of the line has seen.
pub record Observed : Type 0 where
  pub last_sequence : ℕ
  pub last_scope_sequence : ℕ
  pub scope_revision : ℕ

abbrev sequence_or_zero : Option ChatMessage → ℕ × ℕ
sequence_or_zero none = (0, 0)
sequence_or_zero (some m) = (m.sequence, m.scope_sequence)

abbrev revised : Option String → List ChatMessage → List ChatMessage
revised none scope_messages = filter (in_thread none) scope_messages
revised (some thread_id) scope_messages = scope_messages

unfoldable pub observed : Option String → List ChatMessage → Observed
observed thread_id scope_messages =
    let latest = sequence_or_zero (last? (filter (in_thread thread_id) scope_messages)) in
    record {
      last_sequence = latest.0;
      last_scope_sequence = latest.1;
      scope_revision = latest_scope_revision (revised thread_id scope_messages);
    }

abbrev pub is_at : Observed → Option ChatCursorRecord → Bool
is_at seen none = false
is_at seen (some r) =
    nat_eq r.last_observed_sequence seen.last_sequence
    && nat_eq r.last_observed_scope_sequence seen.last_scope_sequence
    && nat_eq r.last_observed_scope_revision seen.scope_revision

unfoldable pub write_cursor :
    String → String → Option String → Observed → Action ConversationCursorState
write_cursor conversation_id actor_id thread_id seen = do
  at ← now_iso_string
  updated ← ledger_upsert_cursor (record {
    scope_id = none;
    participant_id = actor_id;
    conversation_id = conversation_id;
    thread_id = thread_id;
    last_observed_sequence = seen.last_sequence;
    last_observed_scope_sequence = some seen.last_scope_sequence;
    last_observed_scope_revision = seen.scope_revision;
    last_contributed_sequence = none;
    created_at = none;
    updated_at = at;
  })
  pure (normalize_cursor_state actor_id conversation_id thread_id (some updated))

unfoldable pub mark_conversation_read :
    String → String → Option String → Action ConversationCursorState
mark_conversation_read conversation_id actor_id thread_id = do
  room ← require_conversation conversation_id
  assert_conversation_action actor_id room room_read
  existing ← gets (λ l. get_cursor_record l room.conversation_id thread_id actor_id)
  messages ← asks (λ l. list_scope_messages l l.default_scope room.conversation_id thread_id)
  let seen = observed thread_id messages
  if is_at seen existing
      then pure (normalize_cursor_state actor_id room.conversation_id thread_id existing)
      else write_cursor room.conversation_id actor_id thread_id seen

-- `readThreadFollowState`; `readConversationWatchState` on the main line.
unfoldable pub read_attachment_state :
    String → String → Option String → Action ConversationAttachmentState
read_attachment_state conversation_id actor_id thread_id = do
  room ← require_conversation conversation_id
  assert_conversation_action actor_id room room_read
  existing ← gets (λ l. get_attachment_record l room.conversation_id thread_id actor_id)
  pure (normalize_attachment_state actor_id room.conversation_id thread_id existing)

unfoldable pub read_thread_follow_state :
    String → String → String → Action ConversationAttachmentState
read_thread_follow_state conversation_id actor_id thread_id =
    read_attachment_state conversation_id actor_id (some thread_id)

unfoldable pub read_conversation_watch_state : String → String → Action ConversationAttachmentState
read_conversation_watch_state conversation_id actor_id =
    read_attachment_state conversation_id actor_id none

abbrev pub is_attached_as : Bool → Option ChatConversationAttachmentRecord → Bool
is_attached_as asked none = false
is_attached_as asked (some r) = if r.attached then asked else not asked

unfoldable pub write_attachment :
    String → String → Option String → Bool → Action ConversationAttachmentState
write_attachment conversation_id actor_id thread_id asked = do
  at ← now_iso_string
  updated ← ledger_upsert_attachment (record {
    scope_id = none;
    conversation_id = conversation_id;
    thread_id = thread_id;
    participant_id = actor_id;
    attached = some asked;
    created_at = none;
    updated_at = at;
  })
  pure (normalize_attachment_state actor_id conversation_id thread_id (some updated))

-- `setThreadFollowState`; `setConversationWatchState` on the main line.
unfoldable pub set_attachment_state :
    String → String → Option String → Bool → Action ConversationAttachmentState
set_attachment_state conversation_id actor_id thread_id asked = do
  room ← require_conversation conversation_id
  assert_conversation_action actor_id room room_read
  existing ← gets (λ l. get_attachment_record l room.conversation_id thread_id actor_id)
  if is_attached_as asked existing
      then pure (normalize_attachment_state actor_id room.conversation_id thread_id existing)
      else write_attachment room.conversation_id actor_id thread_id asked

unfoldable pub set_thread_follow_state :
    String → String → String → Bool → Action ConversationAttachmentState
set_thread_follow_state conversation_id actor_id thread_id asked =
    set_attachment_state conversation_id actor_id (some thread_id) asked

unfoldable pub set_conversation_watch_state :
    String → String → Bool → Action ConversationAttachmentState
set_conversation_watch_state conversation_id actor_id asked =
    set_attachment_state conversation_id actor_id none asked
