-- ===== src/Chat/Tests/Posting.antt =====
-- Calls of src/chat/core/ledger.ts on the test ledger.
use openboa.Prelude.{◌<◌, ◌≡◌, refl, none, some, true, [], ◌∷◌, ◌++◌, ◌⊎◌, All, ◌==◌}
use openboa.Chat.Model.{
  ok, ChatMessage, ChatMessageInput, message_posted, message_redacted, ChatMessageRedactionRecord,
  ChatLedgerEvent, message_edited,
}
use openboa.Chat.Ledger.{SharedChatLedger}
use openboa.Chat.Ledger.Order.{IsOrdered}
use openboa.Chat.Ledger.Posting.{RedactInput}
use openboa.Chat.Ledger.Posting.Revision.{append_message-advances, IsFresh}
use openboa.Chat.Ledger.Posting.Idempotency.{append_message-retry}
use openboa.Chat.Ledger.Posting.Numbering.{append_message-numbers}
use openboa.Chat.Ledger.Threads.Laws.{line_messages}
use openboa.Chat.Ledger.Posting.Permanence.{redact_message-permanent}
use openboa.Chat.Ledger.Messages.Redaction.{Redacted}
use openboa.Chat.Ledger.Messages.Laws.{list_messages-Within, MessageWithin}
use openboa.Chat.Ledger.Commands.{run_commands, run_command, run_commands-IsOrdered, posts}
use openboa.Chat.Tests.{empty_ledger, hello, hello_again, alice}
use openboa.Prelude.JsMap.{set, values}
use openboa.Prelude.Sorting.{sort_by}
use openboa.Prelude.Text.{trim}
use openboa.Chat.Model.Shape.{assert_valid_chat_message_input}
use openboa.Chat.Ledger.{
  scope_of, sequence_of, admitted, scoped_events, list_events, last_sequence, next_sequence,
  append_event, make_id,
}
use openboa.Chat.Ledger.Messages.{replay_event, replay_events, list_messages, find_message_by_id}
use openboa.Chat.Ledger.Threads.{
  validate_thread_scope, main_line, list_scope_messages, find_message_by_idempotency_key,
}
use openboa.Chat.Ledger.Posting.{
  new_message, posted_under, posted_before, write_message, post_unless, append_message,
  redact_message,
}

empty_ledger-IsOrdered : IsOrdered empty_ledger
unfolding scoped_events admitted
empty_ledger-IsOrdered = record { rising = λ s. tt; stamped = λ s. tt }

empty_ledger-IsFresh : IsFresh empty_ledger "s"
unfolding sort_by admitted scoped_events list_events
empty_ledger-IsFresh = tt

abbrev first_message : ChatMessage
first_message = new_message empty_ledger hello []

abbrev one_message : SharedChatLedger
one_message = append_event empty_ledger 1 (message_posted first_message)

hello_posted : append_message empty_ledger hello ≡ ok (first_message, one_message)
unfolding values sort_by trim assert_valid_chat_message_input admitted scoped_events list_events
    replay_events list_messages validate_thread_scope main_line list_scope_messages
    find_message_by_idempotency_key posted_under posted_before write_message post_unless
    append_message
hello_posted = refl

append_message-advances_example :
    (one_message ≡ empty_ledger)
    ⊎ ((list_messages one_message "s" none
          ≡ list_messages empty_ledger "s" none ++ first_message ∷ [])
        × All
            (λ x. (x.sequence < first_message.sequence) × (x.revision < first_message.revision))
            (list_messages empty_ledger "s" none))
append_message-advances_example =
    append_message-advances empty_ledger hello empty_ledger-IsOrdered empty_ledger-IsFresh
      hello_posted

append_message-retry_example :
    append_message one_message hello_again ≡ ok (first_message, one_message)
unfolding trim assert_valid_chat_message_input
append_message-retry_example =
    append_message-retry empty_ledger hello hello_again "k" empty_ledger-IsOrdered
      empty_ledger-IsFresh refl
      (record { scope = refl; conversation = refl; thread = refl; key = refl }) refl hello_posted

one_message-IsOrdered : IsOrdered one_message
unfolding values sort_by trim assert_valid_chat_message_input admitted scoped_events list_events
    replay_events list_messages validate_thread_scope main_line list_scope_messages
    find_message_by_idempotency_key posted_under posted_before write_message post_unless
    append_message run_commands run_command
one_message-IsOrdered =
    run_commands-IsOrdered empty_ledger (posts hello ∷ []) empty_ledger-IsOrdered

list_messages-Within_example :
    All
      (MessageWithin (last_sequence (list_events one_message "s")))
      (list_messages one_message "s" none)
list_messages-Within_example = list_messages-Within "s" one_message-IsOrdered none

abbrev redaction_input : RedactInput
redaction_input = record {
  scope_id = none;
  message_id = "msg-u";
  redactor = alice;
  created_at = "t1";
}

abbrev redaction : ChatMessageRedactionRecord
redaction = record {
  scope_id = "s";
  event_id = "message-redaction-xu";
  sequence = 2;
  scope_revision = 2;
  message_id = "msg-u";
  redactor = alice;
  created_at = "t1";
}

abbrev redacted_ledger : SharedChatLedger
redacted_ledger = append_event one_message 1 (message_redacted redaction)

redacted : redact_message one_message redaction_input ≡ ok (redaction, redacted_ledger)
unfolding set values sort_by scope_of sequence_of admitted scoped_events list_events next_sequence
    append_event make_id replay_event replay_events list_messages find_message_by_id new_message
    redact_message
redacted = refl

-- An edit that comes after the redaction.
abbrev late_edit : ChatLedgerEvent
late_edit = message_edited (record {
  scope_id = "s";
  event_id = "message-edit-xxu";
  sequence = 3;
  scope_revision = 3;
  message_id = "msg-u";
  editor = alice;
  body = "back again";
  content = "back again";
  mentioned_ids = [];
  created_at = "t2";
})

abbrev edited_ledger : SharedChatLedger
edited_ledger = append_event redacted_ledger 1 late_edit

late_edit_listed : list_events edited_ledger "s" ≡ list_events redacted_ledger "s" ++ late_edit ∷ []
unfolding sort_by scope_of sequence_of admitted scoped_events list_events next_sequence append_event
    new_message
late_edit_listed = refl

redact_message-permanent_example :
    All (λ m. (m.message_id == "msg-u") ≡ true → Redacted m) (list_messages edited_ledger "s" none)
unfolding append_event
redact_message-permanent_example =
    redact_message-permanent one_message redaction_input edited_ledger (late_edit ∷ [])
      one_message-IsOrdered refl redacted late_edit_listed ((tt, tt), tt) none

-- A second message of the line.
abbrev second : ChatMessageInput
second = record hello { idempotency_key = none; body = "and you?" }

abbrev second_message : ChatMessage
second_message = new_message one_message second (first_message ∷ [])

abbrev two_messages : SharedChatLedger
two_messages = append_event one_message 1 (message_posted second_message)

second_posted : append_message one_message second ≡ ok (second_message, two_messages)
unfolding set values sort_by assert_valid_chat_message_input scope_of admitted scoped_events
    list_events append_event replay_event replay_events list_messages validate_thread_scope
    main_line list_scope_messages new_message posted_under posted_before write_message post_unless
    append_message
second_posted = refl

append_message-numbers_example :
    (two_messages ≡ one_message)
    ⊎ All
        (λ x. x.scope_sequence < second_message.scope_sequence)
        (line_messages none (list_messages one_message "s" (some "c")))
unfolding append_event
append_message-numbers_example = append_message-numbers one_message second tt second_posted
