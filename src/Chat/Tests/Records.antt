-- ===== src/Chat/Tests/Records.antt =====
-- Memberships and cursors of src/chat/core/ledger.ts on the test ledger.
use openboa.Prelude.{◌≡◌, refl, none, some, [], ◌∷◌}
use openboa.Chat.Model.{
  ok, ChatRoomMembershipInput, ChatRoomMembershipState, ChatCursorInput, ChatCursorRecord,
  cursor_updated,
}
use openboa.Chat.Ledger.{SharedChatLedger}
use openboa.Chat.Ledger.Order.{IsOrdered}
use openboa.Chat.Ledger.Memberships.{list_room_membership_records, upsert_room_membership}
use openboa.Chat.Ledger.Memberships.Latest.{upsert_room_membership-list}
use openboa.Chat.Ledger.Cursors.Latest.{upsert_cursor-list}
use openboa.Chat.Ledger.Commands.{run_commands, run_commands-IsOrdered, sets_membership}
use openboa.Chat.Tests.{empty_ledger}
use openboa.Prelude.JsMap.{values}
use openboa.Prelude.Sorting.{sort_by}
use openboa.Chat.Ledger.{
  admitted, scoped_events, list_events, next_sequence, append_event, make_id, latest_by,
}
use openboa.Chat.Ledger.Threads.{validate_thread_scope}
use openboa.Chat.Ledger.Cursors.{cursors, list_cursor_records, new_cursor, upsert_cursor}

abbrev joins : ChatRoomMembershipInput
joins = record {
  scope_id = some "s";
  conversation_id = "c";
  participant_id = "alice";
  membership_state = none;
  created_at = none;
  updated_at = "t0";
}

abbrev leaves : ChatRoomMembershipInput
leaves = record joins { membership_state = some ChatRoomMembershipState.left; updated_at = "t1" }

empty_ledger-IsOrdered : IsOrdered empty_ledger
unfolding scoped_events admitted
empty_ledger-IsOrdered = record { rising = λ s. tt; stamped = λ s. tt }

abbrev joined_ledger : SharedChatLedger
joined_ledger = run_commands empty_ledger (sets_membership joins ∷ [])

upsert_room_membership-list_example :
    list_room_membership_records
      (upsert_room_membership joined_ledger leaves).1
      "s"
      (some "c")
      (some "alice")
    ≡ (upsert_room_membership joined_ledger leaves).0 ∷ []
upsert_room_membership-list_example =
    upsert_room_membership-list joined_ledger leaves
      (run_commands-IsOrdered empty_ledger (sets_membership joins ∷ []) empty_ledger-IsOrdered) refl
      refl

abbrev reads : ChatCursorInput
reads = record {
  scope_id = none;
  participant_id = "alice";
  conversation_id = "c";
  thread_id = none;
  last_observed_sequence = 4;
  last_observed_scope_sequence = none;
  last_observed_scope_revision = 4;
  last_contributed_sequence = none;
  created_at = none;
  updated_at = "t0";
}

abbrev cursor : ChatCursorRecord
cursor = record {
  scope_id = "s";
  event_id = "cursor-event-u";
  sequence = 1;
  participant_id = "alice";
  conversation_id = "c";
  thread_id = none;
  last_observed_sequence = 4;
  last_observed_scope_sequence = 4;
  last_observed_scope_revision = 4;
  last_contributed_sequence = none;
  created_at = "t0";
  updated_at = "t0";
}

abbrev read_ledger : SharedChatLedger
read_ledger = append_event empty_ledger 1 (cursor_updated cursor)

cursor_written : upsert_cursor empty_ledger reads ≡ ok (cursor, read_ledger)
unfolding values sort_by admitted scoped_events list_events next_sequence make_id latest_by
    validate_thread_scope cursors list_cursor_records new_cursor upsert_cursor
cursor_written = refl

upsert_cursor-list_example :
    (cursor.last_observed_scope_revision ≡ reads.last_observed_scope_revision)
    × (list_cursor_records read_ledger "s" (some "c") (some none) (some "alice") ≡ cursor ∷ [])
upsert_cursor-list_example =
    upsert_cursor-list empty_ledger reads empty_ledger-IsOrdered refl refl cursor_written
