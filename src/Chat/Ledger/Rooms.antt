-- ===== src/Chat/Ledger/Rooms.antt =====
-- `ensureConversation` and `updateConversation` of src/chat/core/ledger.ts.
pub mod Immutable
use openboa.Prelude.{
  ℕ, ◌+◌, String, Bool, true, false, not, ◌&&◌, ◌||◌, Option, none, some, List, [], ◌∷◌,
  if◌then◌else◌, ◌==◌, opt_eq, truthy, trim, trim_or_null, is_truthy, or_default, or_else,
}
use openboa.Chat.Model.{
  conversation_upserted, ChatConversationRecord, ChatConversationInput, ChatRoomKind, channel, dm,
  group_dm, unrestricted, ChatConversationLifecycleState, ChatConversationHistoryMode,
  is_direct_conversation_kind, room_kind_eq, history_mode_eq, chat_conversation_section,
  default_conversation_visibility, default_conversation_history_mode, Result, ok, err, ◌>>=◌, ◌>>◌,
  require, conversation_not_found, room_kind_immutable, direct_participants_immutable,
  direct_lineage_immutable,
}
use openboa.Chat.Model.Shape.{chat_conversation_identity, assert_valid_chat_conversation_shape}
use openboa.Chat.Ledger.{
  SharedChatLedger, next_sequence, append_event, make_id, make_uuid, scope_or_default, unique,
}
use openboa.Chat.Ledger.Memberships.{sync_membership_records}
use openboa.Chat.Ledger.Conversations.{
  LineageInput, get_conversation_by_id, find_conversation_by_slug,
  find_direct_conversation_by_participants, validate_direct_conversation_lineage,
}

-- The room that a call of `ensureConversation` would repeat.
unfoldable pub existing_room :
    SharedChatLedger
    → String
    → ChatRoomKind
    → Option String
    → List String
    → Result (Option ChatConversationRecord)
existing_room l scope channel none ids = ok none
existing_room l scope channel (some slug) ids = ok (find_conversation_by_slug l slug scope)
existing_room l scope _ slug ids = find_direct_conversation_by_participants l ids scope

-- The root of a lineage: the predecessor's, or the one asked for, or the room itself.
unfoldable pub lineage_root_or : Option ChatConversationRecord → Option String → String → String
lineage_root_or none asked id = or_default asked id
lineage_root_or (some p) asked id =
    if truthy p.lineage_root_conversation_id
    then p.lineage_root_conversation_id
    else or_default asked id

unfoldable pub new_room :
    SharedChatLedger
    → ChatConversationInput
    → Option ChatConversationRecord
    → ChatConversationRecord
new_room l input predecessor =
    let scope = scope_or_default l input.scope_id in
    let id = make_uuid l 1 in
    let predecessor_id = trim_or_null input.predecessor_conversation_id in
    record {
      scope_id = scope;
      event_id = make_id l "conv-event" 0;
      sequence = next_sequence l scope;
      conversation_id = id;
      kind = input.kind;
      section = chat_conversation_section input.kind;
      slug = trim_or_null input.slug;
      title = trim input.title;
      topic = input.topic;
      visibility = or_default input.visibility (default_conversation_visibility input.kind);
      posting_policy = or_default input.posting_policy unrestricted;
      lifecycle_state = or_default input.lifecycle_state ChatConversationLifecycleState.active;
      participant_ids = unique (or_default input.participant_ids []);
      predecessor_conversation_id = predecessor_id;
      lineage_root_conversation_id =
          lineage_root_or predecessor (trim_or_null input.lineage_root_conversation_id) id;
      history_mode =
          or_default input.history_mode (default_conversation_history_mode predecessor_id);
      created_at = or_default input.created_at input.updated_at;
      updated_at = input.updated_at;
    }

-- Writes a room, then the memberships that its participants change.
unfoldable pub write_room :
    SharedChatLedger
    → ℕ
    → ChatConversationRecord
    → List String
    → ChatConversationRecord × SharedChatLedger
write_room l taken room previous_ids = (
  room,
  sync_membership_records (append_event l taken (conversation_upserted room)) room.scope_id
      room.conversation_id previous_ids room.participant_ids room.updated_at,
)

create_room :
    SharedChatLedger → ChatConversationInput → Result (ChatConversationRecord × SharedChatLedger)
create_room l input = do
  let scope = scope_or_default l input.scope_id
  predecessor ← validate_direct_conversation_lineage l (record {
    scope_id = scope;
    kind = input.kind;
    participant_ids = unique (or_default input.participant_ids []);
    predecessor_conversation_id = trim_or_null input.predecessor_conversation_id;
    lineage_root_conversation_id = input.lineage_root_conversation_id;
    history_mode = input.history_mode;
    current_conversation_id = none;
  })
  ok (write_room l 2 (new_room l input predecessor) [])

unfoldable pub ensure_conversation :
    SharedChatLedger → ChatConversationInput → Result (ChatConversationRecord × SharedChatLedger)
unfolding create_room
ensure_conversation l input = do
  let scope = scope_or_default l input.scope_id
  let ids = unique (or_default input.participant_ids [])
  let slug = trim_or_null input.slug
  assert_valid_chat_conversation_shape input.kind slug (some ids)
      (trim_or_null input.predecessor_conversation_id) input.history_mode
  existing ← existing_room l scope input.kind slug ids
  elim existing [ some room ↦ ok (room, l) | none ↦ create_room l input ]

-- The values of an update, each the input's or else the previous one's.
abbrev pub next_participants : ChatConversationRecord → ChatConversationInput → List String
next_participants previous input =
    unique (or_default input.participant_ids previous.participant_ids)

abbrev pub next_predecessor : ChatConversationRecord → ChatConversationInput → Option String
next_predecessor previous input =
    or_else (trim_or_null input.predecessor_conversation_id)
      (trim_or_null previous.predecessor_conversation_id)

abbrev pub next_slug : ChatConversationRecord → ChatConversationInput → Option String
next_slug previous input = or_else (trim_or_null input.slug) (trim_or_null previous.slug)

abbrev pub next_history_mode :
    ChatConversationRecord → ChatConversationInput → ChatConversationHistoryMode
next_history_mode previous input = or_default input.history_mode previous.history_mode

abbrev pub same_lineage : ChatConversationRecord → ChatConversationInput → Bool
same_lineage previous input =
    opt_eq (next_predecessor previous input) previous.predecessor_conversation_id
    && history_mode_eq (next_history_mode previous input) previous.history_mode
    && (or_default (trim_or_null input.lineage_root_conversation_id)
          previous.lineage_root_conversation_id
        == previous.lineage_root_conversation_id)

-- A direct room keeps its participants and its lineage.
unfoldable pub check_direct_update :
    ChatConversationRecord → ChatConversationInput → Result (Unit {0})
check_direct_update previous input =
    if is_direct_conversation_kind previous.kind
    then (do
      before ← chat_conversation_identity previous.kind none (some previous.participant_ids)
      after ←
          chat_conversation_identity previous.kind none (some (next_participants previous input))
      require (before == after) direct_participants_immutable
      require (same_lineage previous input) direct_lineage_immutable)
    else ok tt

unfoldable pub updated_room :
    SharedChatLedger
    → String
    → ChatConversationRecord
    → ChatConversationInput
    → Option ChatConversationRecord
    → ChatConversationRecord
updated_room l conversation_id previous input predecessor =
    let scope = scope_or_default l input.scope_id in
    record {
      scope_id = scope;
      event_id = make_id l "conv-event" 0;
      sequence = next_sequence l scope;
      conversation_id = conversation_id;
      kind = previous.kind;
      section = chat_conversation_section previous.kind;
      slug = next_slug previous input;
      title = trim input.title;
      topic = input.topic;
      visibility = or_default input.visibility previous.visibility;
      posting_policy = or_default input.posting_policy previous.posting_policy;
      lifecycle_state = or_default input.lifecycle_state previous.lifecycle_state;
      participant_ids = next_participants previous input;
      predecessor_conversation_id = next_predecessor previous input;
      lineage_root_conversation_id =
          lineage_root_or predecessor
            (if truthy previous.lineage_root_conversation_id
              then some previous.lineage_root_conversation_id
              else none)
            conversation_id;
      history_mode = next_history_mode previous input;
      created_at = previous.created_at;
      updated_at = input.updated_at;
    }

-- `updateConversation` once the room is found.
unfoldable pub update_room :
    SharedChatLedger
    → String
    → ChatConversationRecord
    → ChatConversationInput
    → Result (ChatConversationRecord × SharedChatLedger)
update_room l conversation_id previous input = do
  require (room_kind_eq input.kind previous.kind) room_kind_immutable
  assert_valid_chat_conversation_shape previous.kind (next_slug previous input)
      (some (next_participants previous input)) (next_predecessor previous input)
      (some (next_history_mode previous input))
  check_direct_update previous input
  predecessor ← validate_direct_conversation_lineage l (record {
    scope_id = scope_or_default l input.scope_id;
    kind = previous.kind;
    participant_ids = next_participants previous input;
    predecessor_conversation_id = next_predecessor previous input;
    lineage_root_conversation_id =
        some (or_default input.lineage_root_conversation_id previous.lineage_root_conversation_id);
    history_mode = some (next_history_mode previous input);
    current_conversation_id = some conversation_id;
  })
  ok (
      write_room l 1 (updated_room l conversation_id previous input predecessor)
        previous.participant_ids)

abbrev pub update_found :
    SharedChatLedger
    → String
    → ChatConversationInput
    → Option ChatConversationRecord
    → Result (ChatConversationRecord × SharedChatLedger)
update_found l conversation_id input none = err (conversation_not_found conversation_id)
update_found l conversation_id input (some previous) = update_room l conversation_id previous input

unfoldable pub update_conversation :
    SharedChatLedger
    → String
    → ChatConversationInput
    → Result (ChatConversationRecord × SharedChatLedger)
update_conversation l conversation_id input =
    update_found l conversation_id input
      (get_conversation_by_id l conversation_id (scope_or_default l input.scope_id))
