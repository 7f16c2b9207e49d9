-- ===== src/Chat/Tests/Rooms.antt =====
-- Rooms, grants and decisions of src/chat on test data.
use openboa.Prelude.{◌≡◌, refl, none, some, [], ◌∷◌}
use openboa.Chat.Model.{
  ok, ChatConversationRecord, ChatConversationInput, dm, dms, is_private, unrestricted,
  ChatConversationLifecycleState, native, ChatRoleId, ChatGrantBindingRecord, ChatGrantBindingInput,
  ChatGrantBindingState, conversation, conversation_upserted, grant_binding_upserted,
}
use openboa.Chat.Ledger.{SharedChatLedger, stored}
use openboa.Chat.Ledger.Order.{IsOrdered}
use openboa.Chat.Ledger.Grants.Laws.{create_grant_binding-get}
use openboa.Chat.Ledger.Grants.Identity.{
  create_grant_binding-SameGrant, revoke_grant_binding-revokes, SameGrant,
}
use openboa.Chat.Ledger.Rooms.Immutable.{update_conversation-Kept, Kept}
use openboa.Chat.Ledger.Commands.{run_commands, run_command, run_commands-IsOrdered, grants}
use openboa.Chat.Tests.{test_host, empty_ledger}
use openboa.Prelude.JsMap.{set, values}
use openboa.Prelude.Sorting.{sort_by}
use openboa.Prelude.Text.{trim, join_by, code_unit_le}
use openboa.Prelude.Lists.{dedupe_by}
use openboa.Chat.Model.Shape.{
  unique_non_blank_strings, chat_conversation_identity, assert_valid_chat_conversation_shape,
}
use openboa.Chat.Ledger.{
  scope_of, sequence_of, admitted, scoped_events, list_events, next_sequence, append_event, make_id,
  unique, latest_by,
}
use openboa.Chat.Ledger.Grants.{
  grant_bindings, list_grant_bindings, get_grant_binding, new_grant_binding, create_grant_binding,
  revoke_grant_binding,
}
use openboa.Chat.Ledger.Conversations.{
  conversations, room_memberships, hydrate_conversation_participants, list_conversation_records,
  get_conversation_by_id, validate_direct_conversation_lineage,
}
use openboa.Chat.Ledger.Memberships.{memberships, sync_membership_records}
use openboa.Chat.Ledger.Rooms.{
  lineage_root_or, write_room, check_direct_update, updated_room, update_room, update_conversation,
}

abbrev pair : ChatConversationRecord
pair = record {
  scope_id = "s";
  event_id = "e1";
  sequence = 1;
  conversation_id = "p";
  kind = dm;
  section = dms;
  slug = none;
  title = "pair";
  topic = none;
  visibility = is_private;
  posting_policy = unrestricted;
  lifecycle_state = ChatConversationLifecycleState.active;
  participant_ids = "a" ∷ "b" ∷ [];
  predecessor_conversation_id = none;
  lineage_root_conversation_id = "p";
  history_mode = native;
  created_at = "t0";
  updated_at = "t0";
}

abbrev one_room : SharedChatLedger
one_room = record {
  default_scope = "s";
  file = stored (conversation_upserted pair) ∷ [];
  host = test_host;
  issued = 0;
}

-- Grants.
abbrev grant_input : ChatGrantBindingInput
grant_input = record {
  scope_id = none;
  binding_id = some "g";
  subject_id = "a";
  role_id = ChatRoleId.participant;
  scope_kind = conversation;
  conversation_id = some "p";
  binding_state = none;
  created_at = none;
  updated_at = "t1";
}

abbrev grant : ChatGrantBindingRecord
grant = record {
  scope_id = "s";
  event_id = "grant-event-u";
  sequence = 1;
  binding_id = "g";
  subject_id = "a";
  role_id = ChatRoleId.participant;
  scope_kind = conversation;
  conversation_id = some "p";
  binding_state = ChatGrantBindingState.active;
  created_at = "t1";
  updated_at = "t1";
}

abbrev one_grant : SharedChatLedger
one_grant = append_event empty_ledger 1 (grant_binding_upserted grant)

granted : create_grant_binding empty_ledger grant_input ≡ ok (grant, one_grant)
unfolding values sort_by trim admitted scoped_events list_events next_sequence make_id latest_by
    grant_bindings list_grant_bindings get_grant_binding new_grant_binding create_grant_binding
granted = refl

abbrev renewed : ChatGrantBindingRecord
renewed = record grant { event_id = "grant-event-xu"; sequence = 2 }

granted_again :
    create_grant_binding one_grant grant_input
    ≡ ok (renewed, append_event one_grant 1 (grant_binding_upserted renewed))
unfolding set values sort_by trim scope_of sequence_of admitted scoped_events list_events
    next_sequence append_event make_id latest_by grant_bindings list_grant_bindings
    get_grant_binding new_grant_binding create_grant_binding
granted_again = refl

abbrev revoked_grant : ChatGrantBindingRecord
revoked_grant = record renewed { binding_state = ChatGrantBindingState.revoked; updated_at = "t2" }

revoked :
    revoke_grant_binding one_grant "g" "t2" "s"
    ≡ ok (revoked_grant, append_event one_grant 1 (grant_binding_upserted revoked_grant))
unfolding set values sort_by trim scope_of sequence_of admitted scoped_events list_events
    next_sequence append_event make_id latest_by grant_bindings list_grant_bindings
    get_grant_binding new_grant_binding create_grant_binding revoke_grant_binding
revoked = refl

empty_ledger-IsOrdered : IsOrdered empty_ledger
unfolding scoped_events admitted
empty_ledger-IsOrdered = record { rising = λ s. tt; stamped = λ s. tt }

one_grant-IsOrdered : IsOrdered one_grant
unfolding values sort_by trim admitted scoped_events list_events next_sequence make_id latest_by
    grant_bindings list_grant_bindings get_grant_binding new_grant_binding create_grant_binding
    run_commands run_command
one_grant-IsOrdered =
    run_commands-IsOrdered empty_ledger (grants grant_input ∷ []) empty_ledger-IsOrdered

create_grant_binding-get_example : get_grant_binding one_grant "g" "s" ≡ some grant
create_grant_binding-get_example =
    create_grant_binding-get empty_ledger grant_input empty_ledger-IsOrdered refl granted

revoke_grant_binding-revokes_example :
    (p : ChatGrantBindingRecord) × (get_grant_binding one_grant "g" "s" ≡ some p)
    × (get_grant_binding (append_event one_grant 1 (grant_binding_upserted revoked_grant)) "g" "s"
        ≡ some revoked_grant)
    × (revoked_grant.binding_state ≡ ChatGrantBindingState.revoked)
    × SameGrant p revoked_grant
    × (get_grant_binding (append_event one_grant 1 (grant_binding_upserted revoked_grant)) "h" "s"
        ≡ get_grant_binding one_grant "h" "s")
revoke_grant_binding-revokes_example =
    revoke_grant_binding-revokes one_grant "g" "t2" "s" "h" one_grant-IsOrdered refl refl refl
      revoked

found_grant : get_grant_binding one_grant "g" "s" ≡ some grant
unfolding set values sort_by scope_of admitted scoped_events list_events append_event latest_by
    grant_bindings list_grant_bindings get_grant_binding
found_grant = refl

create_grant_binding-SameGrant_example :
    (q : ChatGrantBindingRecord) × (get_grant_binding
        (append_event one_grant 1 (grant_binding_upserted renewed))
        "g"
        "s"
      ≡ some q)
    × SameGrant grant q
unfolding make_id append_event
create_grant_binding-SameGrant_example =
    create_grant_binding-SameGrant one_grant grant_input "g" one_grant-IsOrdered refl refl
      found_grant granted_again

-- Rooms.
abbrev rename : ChatConversationInput
rename = record {
  scope_id = none;
  kind = dm;
  slug = none;
  title = "the pair";
  topic = none;
  visibility = none;
  posting_policy = none;
  lifecycle_state = none;
  participant_ids = none;
  predecessor_conversation_id = none;
  lineage_root_conversation_id = none;
  history_mode = none;
  created_at = none;
  updated_at = "t1";
}

abbrev renamed : ChatConversationRecord
renamed = record pair {
  event_id = "conv-event-u";
  sequence = 2;
  title = "the pair";
  updated_at = "t1";
}

abbrev renamed_ledger : SharedChatLedger
renamed_ledger = append_event one_room 1 (conversation_upserted renamed)

renamed_ok : update_conversation one_room "p" rename ≡ ok (renamed, renamed_ledger)
unfolding set values sort_by trim join_by code_unit_le dedupe_by unique_non_blank_strings
    chat_conversation_identity assert_valid_chat_conversation_shape scope_of sequence_of admitted
    scoped_events list_events next_sequence make_id unique latest_by conversations room_memberships
    hydrate_conversation_participants list_conversation_records get_conversation_by_id
    validate_direct_conversation_lineage memberships sync_membership_records lineage_root_or
    write_room check_direct_update updated_room update_room update_conversation
renamed_ok = refl

update_conversation-Kept_example :
    (p : ChatConversationRecord) × (get_conversation_by_id one_room "p" "s" ≡ some p)
    × Kept "p" p renamed
update_conversation-Kept_example = update_conversation-Kept one_room "p" rename renamed_ok
