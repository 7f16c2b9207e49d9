-- ===== src/Chat/CommandService/Reads.antt =====
-- The reading methods of src/chat/policy/command-service.ts that go by the ledger alone.
pub mod Access
pub mod Events
use openboa.Prelude.{
  ℕ, String, Bool, true, false, not, ◌&&◌, Option, none, some, List, [], ◌∷◌, ◌++◌, map, filter,
  find, take, if◌then◌else◌, ltb, nat_eq, ◌==◌, truthy, is_truthy, trim, includes, or_default,
}
use openboa.Prelude.JsMap.{JsMap, get, set}
use openboa.Chat.Model.{
  ChatConversationRecord, ChatGrantBindingRecord, ChatRoomMembershipRecord, ChatGrantScopeKind,
  chat, conversation, scope_kind_eq, ChatMessage, ChatLedgerEvent, conversation_upserted,
  membership_upserted, grant_binding_upserted, cursor_updated, attachment_upserted, message_posted,
  participant_upserted, reaction_set, message_edited, message_redacted, Result, ok, err, denied,
  room_missing, ref_required, thread_scope_without_root,
}
use openboa.Chat.Authorization.{
  room_read, room_grant_manage, is_active_binding, evaluate_conversation_action,
}
use openboa.Chat.Ledger.{SharedChatLedger, latest_by, list_events, sequence_of}
use openboa.Chat.Ledger.Conversations.{
  list_conversation_records, get_conversation_by_id, find_conversation_by_slug,
}
use openboa.Chat.Ledger.Memberships.{list_room_membership_records}
use openboa.Chat.Ledger.Grants.{list_grant_bindings, any_grant}
use openboa.Chat.Ledger.Messages.{find_message_by_id}
use openboa.Chat.Ledger.Threads.{is_none}
use openboa.Chat.Service.{
  ConversationScope, ConversationMessageListInput, MessageKindFilter, all_kinds,
  list_conversation_messages,
}
use openboa.Chat.CommandService.Action.{
  Action, pure, raise, gets, asks, or_raise, ensure, actor_or_default, ◌>>=◌, ◌>>◌,
}
use openboa.Chat.CommandService.Permission.{require_conversation, assert_conversation_action}
use openboa.Chat.CommandService.Cursors.{
  ConversationCursorState, ConversationAttachmentState, read_thread_follow_state,
  read_conversation_cursor,
}

-- What `readConversationAccessState` gathers for one viewer.
pub record ConversationAccess : Type 0 where
  pub viewer_id : String
  pub conversation_records : List ChatConversationRecord
  pub chat_bindings : List ChatGrantBindingRecord
  pub conversation_bindings : JsMap (List ChatGrantBindingRecord)
  pub memberships : JsMap ChatRoomMembershipRecord

abbrev pub Buckets : Type 0
Buckets = JsMap (List ChatGrantBindingRecord)

unfoldable pub push : String → ChatGrantBindingRecord → Buckets → Buckets
push key b buckets = set key (or_default (get key buckets) [] ++ b ∷ []) buckets

abbrev pub push_room : Option String → ChatGrantBindingRecord → Buckets → Buckets
push_room none b buckets = buckets
push_room (some id) b buckets = if truthy id then push id b buckets else buckets

-- The active bindings of the conversations, each under its own.
unfoldable pub bucket_bindings : Buckets → List ChatGrantBindingRecord → Buckets
bucket_bindings buckets [] = buckets
bucket_bindings buckets (b ∷ bs) =
    if is_active_binding b && scope_kind_eq b.scope_kind conversation
    then bucket_bindings (push_room b.conversation_id b buckets) bs
    else bucket_bindings buckets bs

abbrev pub is_chat_binding : ChatGrantBindingRecord → Bool
is_chat_binding b = is_active_binding b && scope_kind_eq b.scope_kind chat

unfoldable pub access_state : SharedChatLedger → String → ConversationAccess
access_state l viewer_id =
    let bindings =
      list_grant_bindings l l.default_scope (record any_grant { subject_id = some viewer_id }) in
    record {
      viewer_id = viewer_id;
      conversation_records = list_conversation_records l l.default_scope;
      chat_bindings = filter is_chat_binding bindings;
      conversation_bindings = bucket_bindings [] bindings;
      memberships =
          latest_by (λ m. m.conversation_id)
            (list_room_membership_records l l.default_scope none (some viewer_id));
    }

unfoldable pub read_conversation_access_state : String → Action ConversationAccess
read_conversation_access_state actor_id = do
  viewer_id ← actor_or_default (some actor_id)
  gets (λ l. access_state l viewer_id)

unfoldable pub can_read_conversation : ConversationAccess → ChatConversationRecord → Bool
can_read_conversation access room =
    (evaluate_conversation_action (record {
      room = room;
      actor_id = access.viewer_id;
      bindings =
          access.chat_bindings
          ++ or_default (get room.conversation_id access.conversation_bindings) [];
      membership = get room.conversation_id access.memberships;
      action = room_read;
    })).allowed

unfoldable pub read_visible_conversations : String → Action (List ChatConversationRecord)
read_visible_conversations actor_id = do
  access ← read_conversation_access_state actor_id
  pure (filter (can_read_conversation access) access.conversation_records)

unfoldable pub read_conversation : String → String → Action ChatConversationRecord
read_conversation conversation_id actor_id = do
  room ← require_conversation conversation_id
  assert_conversation_action actor_id room room_read
  pure room

abbrev pub first_found :
    Option ChatConversationRecord
    → Option ChatConversationRecord
    → String
    → Action ChatConversationRecord
first_found (some room) by_slug ref = pure room
first_found none (some room) ref = pure room
first_found none none ref = raise (room_missing ref)

unfoldable pub resolve_conversation_ref : String → Action ChatConversationRecord
resolve_conversation_ref asked = do
  let ref = trim asked
  ensure (truthy ref) (ref_required)
  by_id ← gets (λ l. get_conversation_by_id l ref l.default_scope)
  by_slug ← gets (λ l. find_conversation_by_slug l ref l.default_scope)
  first_found by_id by_slug ref

unfoldable pub read_conversation_messages :
    String → String → Option String → ConversationMessageListInput → Action (List ChatMessage)
read_conversation_messages conversation_id actor_id thread_id input = do
  room ← require_conversation conversation_id
  assert_conversation_action actor_id room room_read
  let scope : ConversationScope = record {
    conversation_id = room.conversation_id;
    thread_id = thread_id;
  }
  asks (λ l. list_conversation_messages l.default_scope l scope input)

unfoldable pub read_conversation_grant_bindings :
    String → String → Bool → Action (List ChatGrantBindingRecord)
read_conversation_grant_bindings conversation_id actor_id include_revoked = do
  room ← require_conversation conversation_id
  assert_conversation_action actor_id room room_grant_manage
  bindings ← gets (λ l.
      list_grant_bindings l l.default_scope
        (record any_grant { conversation_id = some (some room.conversation_id) }))
  pure (if include_revoked then bindings else filter is_active_binding bindings)

-- `"conversationId" in event`
unfoldable pub event_conversation : ChatLedgerEvent → Option String
event_conversation (conversation_upserted r) = some r.conversation_id
event_conversation (membership_upserted r) = some r.conversation_id
event_conversation (grant_binding_upserted r) = r.conversation_id
event_conversation (cursor_updated r) = some r.conversation_id
event_conversation (attachment_upserted r) = some r.conversation_id
event_conversation (message_posted r) = some r.conversation_id
event_conversation _ = none

abbrev pub is_one_of : List String → Option String → Bool
is_one_of ids none = false
is_one_of ids (some id) = includes id ids

abbrev pub is_readable : List String → ChatLedgerEvent → Bool
is_readable ids e = is_one_of ids (event_conversation e)

-- The rooms whose events are shown: the one that is named, or all that the viewer may read.
abbrev pub one_readable :
    ConversationAccess → String → Option ChatConversationRecord → Result (List String)
one_readable access id none = err (room_missing id)
one_readable access id (some room) =
    if can_read_conversation access room
    then ok (room.conversation_id ∷ [])
    else err (denied "Private rooms require an explicit grant")

unfoldable pub readable_ids : ConversationAccess → Option String → Result (List String)
readable_ids access none = ok (
    map (λ r. r.conversation_id)
      (filter (can_read_conversation access) access.conversation_records))
readable_ids access (some id) =
    one_readable access id (find (λ r. r.conversation_id == id) access.conversation_records)

-- `input.limit ? xs.slice(0, input.limit) : xs`
abbrev pub up_to {ℓ} : {A : Type ℓ} → Option ℕ → List A → List A
up_to none xs = xs
up_to (some limit) xs = if nat_eq limit 0 then xs else take limit xs

unfoldable pub read_chat_events :
    String → Option String → Option ℕ → Option ℕ → Action (List ChatLedgerEvent)
read_chat_events actor_id conversation_id after_sequence limit = do
  access ← read_conversation_access_state actor_id
  ids ← asks (λ l. readable_ids access conversation_id)
  events ← gets (λ l. list_events l l.default_scope)
  pure (
      up_to limit (
        filter (λ e. ltb (or_default after_sequence 0) (sequence_of e))
          (filter (is_readable ids) events)))

pub record ConversationThreadView : Type 0 where
  pub conversation_id : String
  pub thread_id : String
  pub root_message : ChatMessage
  pub replies : List ChatMessage
  pub follow_state : ConversationAttachmentState
  pub cursor_state : ConversationCursorState

abbrev pub thread_root_of : String → Option ChatMessage → Action ChatMessage
thread_root_of conversation_id none = raise thread_scope_without_root
thread_root_of conversation_id (some root) =
    if (root.conversation_id == conversation_id) && is_none root.thread_id
    then pure root
    else raise thread_scope_without_root

unfoldable pub require_thread_root : String → String → Action ChatMessage
require_thread_root conversation_id thread_id = do
  found ← gets (λ l. find_message_by_id l thread_id l.default_scope)
  thread_root_of conversation_id found

unfoldable pub read_conversation_thread :
    String → String → String → ConversationMessageListInput → Action ConversationThreadView
read_conversation_thread conversation_id actor_id thread_id input = do
  room ← require_conversation conversation_id
  assert_conversation_action actor_id room room_read
  root ← require_thread_root room.conversation_id thread_id
  messages ← read_conversation_messages room.conversation_id actor_id (some thread_id) input
  follow ← read_thread_follow_state room.conversation_id actor_id thread_id
  cursor ← read_conversation_cursor room.conversation_id actor_id (some thread_id)
  pure (record {
    conversation_id = room.conversation_id;
    thread_id = thread_id;
    root_message = root;
    replies = filter (λ m. not (m.message_id == root.message_id)) messages;
    follow_state = follow;
    cursor_state = cursor;
  })
