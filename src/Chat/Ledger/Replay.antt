-- ===== src/Chat/Ledger/Replay.antt =====
-- The view `replayConversationState` of src/chat/core/ledger.ts.
pub mod Complete
use openboa.Prelude.{
  ◌≡◌, refl, sym, ap, ◌∙◌, ℕ, String, Bool, true, false, not, ◌&&◌, ◌||◌, Option, none, some, List,
  [], ◌∷◌, ◌++◌, or_default, map, filter, last?, if◌then◌else◌, ◌==◌, opt_eq, truthy, eq_refl, In,
  In-filter, Bool-cases, inl, inr,
}
use openboa.Prelude.Lists.{dedupe_by}
use openboa.Prelude.Sorting.{sort_by, In-sort_by}
use openboa.Chat.Model.{
  ChatConversationRecord, ChatRoomMembershipRecord, ChatGrantBindingRecord, ChatCursorRecord,
  ChatMessage, ChatParticipantRef, participant, system, participant_message, system_event,
  ChatMessageKind,
}
use openboa.Chat.Ledger.{SharedChatLedger}
use openboa.Chat.Ledger.Messages.{list_messages}
use openboa.Chat.Ledger.Threads.{is_none, scope_order, in_thread, main_line}
use openboa.Chat.Ledger.Conversations.{get_conversation_by_id}
use openboa.Chat.Ledger.Memberships.{list_room_membership_records}
use openboa.Chat.Ledger.Grants.{list_grant_bindings, any_grant}
use openboa.Chat.Ledger.Cursors.{list_cursor_records}

pub record ChatConversationReplayScope : Type 0 where
  pub thread_id : Option String
  pub latest_scope_sequence : ℕ
  pub messages : List ChatMessage
  pub cursors : List ChatCursorRecord

pub record ChatConversationReplayState : Type 0 where
  pub conversation : Option ChatConversationRecord
  pub participant_ids : List String
  pub memberships : List ChatRoomMembershipRecord
  pub grant_bindings : List ChatGrantBindingRecord
  pub messages : List ChatMessage
  pub cursors : List ChatCursorRecord
  pub scopes : List ChatConversationReplayScope

-- The main line of a conversation, and the thread of every message and cursor, each once.
unfoldable pub scope_thread_ids : List ChatMessage → List ChatCursorRecord → List (Option String)
scope_thread_ids messages cursors =
    dedupe_by opt_eq (none ∷ map (λ m. m.thread_id) messages ++ map (λ c. c.thread_id) cursors)

-- The root of a thread stands before the replies.
abbrev pub replay_order : ChatMessage → ChatMessage → Bool
replay_order a b =
    if is_none a.thread_id && not (is_none b.thread_id)
    then true
    else if is_none b.thread_id && not (is_none a.thread_id)
    then false
    else scope_order a b

abbrev pub in_thread_or_root : String → ChatMessage → Bool
in_thread_or_root thread_id m = (m.message_id == thread_id) || in_thread (some thread_id) m

unfoldable pub replay_messages : List ChatMessage → Option String → List ChatMessage
replay_messages messages none = main_line messages
replay_messages messages (some thread_id) =
    if truthy thread_id
    then sort_by replay_order (filter (in_thread_or_root thread_id) messages)
    else main_line messages

abbrev pub sequence_or_zero : Option ChatMessage → ℕ
sequence_or_zero none = 0
sequence_or_zero (some m) = m.scope_sequence

unfoldable pub latest_scope_sequence_of : List ChatMessage → Option String → ℕ
latest_scope_sequence_of scope_messages none = sequence_or_zero (last? scope_messages)
latest_scope_sequence_of scope_messages (some thread_id) =
    if truthy thread_id
    then sequence_or_zero (last? (filter (in_thread (some thread_id)) scope_messages))
    else sequence_or_zero (last? scope_messages)

unfoldable pub replay_scope :
    SharedChatLedger
    → List ChatMessage
    → List ChatCursorRecord
    → Option String
    → ChatConversationReplayScope
replay_scope l messages cursors thread_id =
    let scope_messages = replay_messages messages thread_id in
    record {
      thread_id = thread_id;
      latest_scope_sequence = latest_scope_sequence_of scope_messages thread_id;
      messages = scope_messages;
      cursors =
          sort_by (λ a b. l.locale_le a.participant_id b.participant_id)
            (filter (λ c. opt_eq c.thread_id thread_id) cursors);
    }

-- The main line first, then by the thread.
abbrev pub thread_le : SharedChatLedger → Option String → Option String → Bool
thread_le l none b = true
thread_le l (some a) none = false
thread_le l (some a) (some b) = l.locale_le a b

unfoldable pub replay_scopes :
    SharedChatLedger → List ChatMessage → List ChatCursorRecord → List ChatConversationReplayScope
replay_scopes l messages cursors =
    sort_by (λ a b. thread_le l a.thread_id b.thread_id)
      (map (replay_scope l messages cursors) (scope_thread_ids messages cursors))

abbrev pub participants_or_none : Option ChatConversationRecord → List String
participants_or_none none = []
participants_or_none (some room) = room.participant_ids

unfoldable pub replay_conversation_state :
    SharedChatLedger → String → String → ChatConversationReplayState
replay_conversation_state l conversation_id scope =
    let conversation = get_conversation_by_id l conversation_id scope in
    let cursors = list_cursor_records l scope (some conversation_id) none none in
    let messages = list_messages l scope (some conversation_id) in
    record {
      conversation = conversation;
      participant_ids = participants_or_none conversation;
      memberships = list_room_membership_records l scope (some conversation_id) none;
      grant_bindings =
          list_grant_bindings l scope
            (record any_grant { conversation_id = some (some conversation_id) });
      messages = messages;
      cursors = cursors;
      scopes = replay_scopes l messages cursors;
    }
