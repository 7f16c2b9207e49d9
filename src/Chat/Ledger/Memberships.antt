-- ===== src/Chat/Ledger/Memberships.antt =====
-- The room memberships of src/chat/core/ledger.ts.
pub mod Latest
use openboa.Prelude.{
  String, Bool, not, ◌&&◌, Option, none, some, List, [], ◌∷◌, map, filter, head?, includes,
  or_default, or_else,
}
use openboa.Prelude.JsMap.{values}
use openboa.Prelude.Sorting.{sort_by}
use openboa.Chat.Model.{
  ChatLedgerEvent, conversation_upserted, membership_upserted, ChatRoomMembershipRecord,
  ChatRoomMembershipInput, ChatRoomMembershipState, joined, left, is_joined_state,
}
use openboa.Chat.Ledger.{
  SharedChatLedger, list_events, next_sequence, append_event, make_id, scope_or_default, unique,
  membership_key, matches, latest_by,
}

-- The membership events of a list.
unfoldable pub memberships : List ChatLedgerEvent → List ChatRoomMembershipRecord
memberships [] = []
memberships (membership_upserted r ∷ es) = r ∷ memberships es
memberships (conversation_upserted r ∷ es) = memberships es
memberships (e ∷ es) = memberships es

abbrev pub in_membership_scope : Option String → Option String → ChatRoomMembershipRecord → Bool
in_membership_scope conversation_id participant_id r =
    matches conversation_id r.conversation_id && matches participant_id r.participant_id

unfoldable pub list_room_membership_records :
    SharedChatLedger → String → Option String → Option String → List ChatRoomMembershipRecord
list_room_membership_records l scope conversation_id participant_id =
    sort_by (λ a b. l.locale_le a.created_at b.created_at)
      (values (
        latest_by (λ r. membership_key r.conversation_id r.participant_id)
          (filter (in_membership_scope conversation_id participant_id)
            (memberships (list_events l scope)))))

unfoldable pub upsert_room_membership :
    SharedChatLedger → ChatRoomMembershipInput → ChatRoomMembershipRecord × SharedChatLedger
upsert_room_membership l input =
    let scope = scope_or_default l input.scope_id in
    let previous : Option ChatRoomMembershipRecord = head? (
      list_room_membership_records l scope (some input.conversation_id)
        (some input.participant_id)) in
    let record_ : ChatRoomMembershipRecord = record {
      scope_id = scope;
      event_id = make_id l "membership-event" 0;
      sequence = next_sequence l scope;
      conversation_id = input.conversation_id;
      participant_id = input.participant_id;
      membership_state = or_default input.membership_state joined;
      created_at =
          or_default
            (or_else input.created_at (elim previous [ none ↦ none | some p ↦ some p.created_at ]))
            input.updated_at;
      updated_at = input.updated_at;
    } in
    (record_, append_event l 1 (membership_upserted record_))

unfoldable pub list_joined_participant_ids : SharedChatLedger → String → String → List String
list_joined_participant_ids l conversation_id scope =
    map (λ r. r.participant_id)
      (filter (λ r. is_joined_state r.membership_state)
        (list_room_membership_records l scope (some conversation_id) none))

-- One loop of `syncMembershipRecords`.
unfoldable pub upsert_all :
    SharedChatLedger
    → String
    → String
    → ChatRoomMembershipState
    → String
    → List String
    → SharedChatLedger
upsert_all l scope conversation_id state updated_at [] = l
upsert_all l scope conversation_id state updated_at (p ∷ ps) =
    upsert_all
      (upsert_room_membership l (record {
        scope_id = some scope;
        conversation_id = conversation_id;
        participant_id = p;
        membership_state = some state;
        created_at = none;
        updated_at = updated_at;
      })).1
      scope conversation_id state updated_at ps

unfoldable pub sync_membership_records :
    SharedChatLedger → String → String → List String → List String → String → SharedChatLedger
unfolding upsert_all
sync_membership_records l scope conversation_id previous_ids next_ids updated_at =
    let previous = unique previous_ids in
    let next = unique next_ids in
    upsert_all
      (upsert_all l scope conversation_id joined updated_at
        (filter (λ p. not (includes p previous)) next))
      scope conversation_id left updated_at (filter (λ p. not (includes p next)) previous)
