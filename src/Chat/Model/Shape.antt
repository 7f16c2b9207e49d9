-- ===== src/Chat/Model/Shape.antt =====
-- The checks of src/chat/core/model.ts on the shape of conversations, messages and participants.
pub mod Laws
use openboa.Prelude.{
  ℕ, String, ◌⧺◌, Bool, true, false, not, ◌&&◌, ◌||◌, Option, none, some, List, [], ◌∷◌, map,
  filter, if◌then◌else◌, nat_eq, ltb, length, trim, truthy, is_truthy, or_null, trim_or_null,
  dedupe, join_by, or_default, code_unit_le,
}
use openboa.Prelude.Sorting.{sort_by}
use openboa.Chat.Model.{
  ChatRoomKind, channel, dm, group_dm, ChatConversationHistoryMode, inherit_full, history_mode_eq,
  default_conversation_history_mode, room_kind_eq, is_direct_conversation_kind, ChatMessageInput,
  ChatMessageKind, participant_message, system_event, ChatSystemEventKind,
  ChatParticipantUpsertInput, Result, ok, err, ◌>>=◌, ◌>>◌, require, channel_requires_slug,
  direct_room_has_slug, dm_requires_two, group_dm_requires_three,
  inherited_history_requires_predecessor, system_event_requires_kind,
  participant_message_has_event_kind, participant_id_required,
}

unfoldable pub unique_non_blank_strings : List String → List String
unique_non_blank_strings values = dedupe (filter truthy (map trim values))

room_kind_name : ChatRoomKind → String
room_kind_name channel = "channel"
room_kind_name dm = "dm"
room_kind_name group_dm = "group_dm"

unfoldable pub chat_conversation_identity :
    ChatRoomKind → Option String → Option (List String) → Result String
unfolding room_kind_name
chat_conversation_identity kind slug participant_ids =
    if room_kind_eq kind channel
    then (elim (trim_or_null slug) [
      | none ↦ err channel_requires_slug
      | some s ↦ ok ("channel:" ⧺ s)
    ])
    else ok (
        room_kind_name kind
        ⧺ ":"
        ⧺ join_by ","
            (sort_by code_unit_le (unique_non_blank_strings (or_default participant_ids []))))

-- The checks on the slug and on the number of participants.
check_room : ChatRoomKind → Option String → List String → Result (Unit {0})
check_room channel slug ids = require (is_truthy slug) channel_requires_slug
check_room dm slug ids = do
  require (not (is_truthy slug)) direct_room_has_slug
  require (nat_eq (length ids) 2) dm_requires_two
check_room group_dm slug ids = do
  require (not (is_truthy slug)) direct_room_has_slug
  require (not (ltb (length ids) 3)) group_dm_requires_three

unfoldable pub assert_valid_chat_conversation_shape :
    ChatRoomKind
    → Option String
    → Option (List String)
    → Option String
    → Option ChatConversationHistoryMode
    → Result (Unit {0})
unfolding check_room
assert_valid_chat_conversation_shape kind slug participant_ids predecessor history_mode = do
  let predecessor_id = trim_or_null predecessor
  let mode = or_default history_mode (default_conversation_history_mode predecessor_id)
  check_room kind (trim_or_null slug) (unique_non_blank_strings (or_default participant_ids []))
  require (not (history_mode_eq mode inherit_full && not (is_truthy predecessor_id)))
      inherited_history_requires_predecessor

message_kind_check : ChatMessageKind → Option ChatSystemEventKind → Result (Unit {0})
message_kind_check system_event none = err system_event_requires_kind
message_kind_check system_event (some k) = ok tt
message_kind_check participant_message none = ok tt
message_kind_check participant_message (some k) = err participant_message_has_event_kind

unfoldable pub assert_valid_chat_message_input : ChatMessageInput → Result (Unit {0})
unfolding message_kind_check
assert_valid_chat_message_input input =
    message_kind_check (or_default input.message_kind participant_message) input.system_event_kind

unfoldable pub assert_valid_chat_participant_input : ChatParticipantUpsertInput → Result (Unit {0})
assert_valid_chat_participant_input input =
    require (truthy (trim input.participant_id)) participant_id_required
