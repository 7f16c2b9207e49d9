-- ===== src/Chat/CommandService/Roster.antt =====
-- `readConversationRoster` of src/chat/policy/command-service.ts.
use openboa.Prelude.{
  String, Bool, not, Option, none, some, List, [], ◌∷◌, ◌++◌, map, filter, includes, or_default,
}
use openboa.Prelude.JsMap.{get}
use openboa.Prelude.Sorting.{sort_by}
use openboa.Chat.Model.{
  ChatConversationRecord, ChatConversationAttachmentRecord, ChatGrantBindingRecord,
  ChatGrantScopeKind, ChatParticipantRecord, ChatRoleId, ChatRoomMembershipRecord,
  ChatRoomMembershipState, ParticipantCapability,
}
use openboa.Chat.Authorization.{
  room_read, is_active_binding, resolve_conversation_role_ids, resolve_chat_role_ids,
}
use openboa.Chat.Ledger.{SharedChatLedger, latest_by}
use openboa.Chat.Ledger.Cursors.{list_conversation_attachments}
use openboa.Chat.Ledger.Grants.{list_grant_bindings, any_grant}
use openboa.Chat.Ledger.Memberships.{list_room_membership_records}
use openboa.Chat.Ledger.Participants.{list_participant_records}
use openboa.Chat.Service.{unique_trimmed}
use openboa.Chat.CommandService.Action.{Action, gets, ◌>>=◌, ◌>>◌}
use openboa.Chat.CommandService.Permission.{require_conversation, assert_conversation_action}
use openboa.Chat.CommandService.Reads.{Buckets, push}

pub record ConversationRosterEntry : Type 0 where
  pub participant_id : String
  pub display_name : Option String
  pub capabilities : List ParticipantCapability
  pub conversation_role_ids : List ChatRoleId
  pub chat_role_ids : List ChatRoleId
  pub membership_state : Option ChatRoomMembershipState
  pub in_conversation : Bool
  pub watch_attached : Option Bool

-- `uniqueSortedIds`
unfoldable pub unique_sorted_ids : SharedChatLedger → List String → List String
unique_sorted_ids l ids = sort_by l.locale_le (unique_trimmed ids)

unfoldable pub group_from : Buckets → List ChatGrantBindingRecord → Buckets
group_from buckets [] = buckets
group_from buckets (b ∷ bs) = group_from (push b.subject_id b buckets) bs

unfoldable pub group_bindings_by_subject : List ChatGrantBindingRecord → Buckets
unfolding group_from
group_bindings_by_subject bindings = group_from [] bindings

abbrev name_of : Option ChatParticipantRecord → Option String
name_of none = none
name_of (some p) = p.display_name

abbrev capabilities_of : Option ChatParticipantRecord → List ParticipantCapability
capabilities_of none = []
capabilities_of (some p) = p.capabilities

abbrev state_of : Option ChatRoomMembershipRecord → Option ChatRoomMembershipState
state_of none = none
state_of (some m) = some m.membership_state

abbrev attached_of : Option ChatConversationAttachmentRecord → Option Bool
attached_of none = none
attached_of (some a) = some a.attached

unfoldable pub roster_of : SharedChatLedger → ChatConversationRecord → List ConversationRosterEntry
roster_of l room =
    let room_bindings = filter is_active_binding (
      list_grant_bindings l l.default_scope
        (record any_grant { conversation_id = some (some room.conversation_id) })) in
    let chat_bindings =
      list_grant_bindings l l.default_scope
        (record any_grant { scope_kind = some ChatGrantScopeKind.chat }) in
    let memberships =
      latest_by (λ m. m.participant_id)
        (list_room_membership_records l l.default_scope (some room.conversation_id) none) in
    let attachments =
      list_conversation_attachments l l.default_scope (some room.conversation_id) (some none) in
    let attachments_by_id = latest_by (λ a. a.participant_id) attachments in
    let participants =
      latest_by (λ p. p.participant_id) (list_participant_records l l.default_scope) in
    let others =
      filter (λ p. not (includes p room.participant_ids))
        (unique_sorted_ids l (
          map (λ b. b.subject_id) room_bindings
          ++ map (λ a. a.participant_id) (filter (λ a. a.attached) attachments))) in
    map
      (λ id. record {
        participant_id = id;
        display_name = name_of (get id participants);
        capabilities = capabilities_of (get id participants);
        conversation_role_ids =
            resolve_conversation_role_ids
              (or_default (get id (group_bindings_by_subject room_bindings)) [])
              room.conversation_id;
        chat_role_ids =
            resolve_chat_role_ids
              (or_default (get id (group_bindings_by_subject chat_bindings)) []);
        membership_state = state_of (get id memberships);
        in_conversation = includes id room.participant_ids;
        watch_attached = attached_of (get id attachments_by_id);
      })
      (room.participant_ids ++ others)

unfoldable pub read_conversation_roster : String → String → Action (List ConversationRosterEntry)
read_conversation_roster conversation_id actor_id = do
  room ← require_conversation conversation_id
  assert_conversation_action actor_id room room_read
  gets (λ l. roster_of l room)
