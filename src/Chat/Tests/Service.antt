-- ===== src/Chat/Tests/Service.antt =====
-- Contributions of src/chat/core/conversation-service.ts on the test ledger.
use openboa.Prelude.{◌≡◌, refl, none, some, [], ◌⊎◌, inl}
use openboa.Chat.Model.{ok, ChatMessage, message_posted}
use openboa.Chat.Ledger.{SharedChatLedger}
use openboa.Chat.Ledger.Order.{IsOrdered}
use openboa.Chat.Ledger.Posting.Revision.{IsFresh}
use openboa.Chat.Service.{accepted, stale, ConversationObservation, contribution_input}
use openboa.Chat.Service.Conflicts.{
  contribute_to_conversation-no_lost_update, contribute_to_conversation-elsewhere,
}
use openboa.Chat.Service.Retry.{contribute_to_conversation-retry}
use openboa.Chat.Tests.{empty_ledger, attempt, rival_attempt, other_attempt}
use openboa.Prelude.JsMap.{set, values}
use openboa.Prelude.Sorting.{sort_by}
use openboa.Prelude.Text.{trim}
use openboa.Prelude.Lists.{dedupe_by}
use openboa.Chat.Model.Shape.{assert_valid_chat_message_input}
use openboa.Chat.Ledger.{
  scope_of, admitted, scoped_events, list_events, next_sequence, append_event, make_id, latest_by,
}
use openboa.Chat.Ledger.Messages.{replay_event, replay_events, list_messages}
use openboa.Chat.Ledger.Threads.{
  validate_thread_scope, main_line, list_scope_messages, find_message_by_idempotency_key,
}
use openboa.Chat.Ledger.Posting.{
  new_message, posted_under, posted_before, write_message, post_unless, append_message,
}
use openboa.Chat.Ledger.Cursors.{attachments, list_conversation_attachments}
use openboa.Chat.Ledger.Conversations.{
  conversations, list_conversation_records, get_conversation_by_id,
}
use openboa.Chat.Service.{
  unique_trimmed, active_attachment_ids, latest_scope_revision, latest_message, observation_of,
  observe_conversation, contributed_before, is_stale, contribute_on, contribute_unless,
  contribute_to_conversation,
}

empty_ledger-IsOrdered : IsOrdered empty_ledger
unfolding scoped_events admitted
empty_ledger-IsOrdered = record { rising = λ s. tt; stamped = λ s. tt }

empty_ledger-IsFresh : IsFresh empty_ledger "s"
unfolding sort_by admitted scoped_events list_events
empty_ledger-IsFresh = tt

abbrev contributed : ChatMessage
contributed = new_message empty_ledger (contribution_input "s" attempt) []

abbrev contributed_ledger : SharedChatLedger
contributed_ledger = append_event empty_ledger 1 (message_posted contributed)

attempt_accepted :
    contribute_to_conversation "s" empty_ledger attempt
    ≡ ok (accepted 1 contributed, contributed_ledger)
unfolding values sort_by trim assert_valid_chat_message_input admitted scoped_events list_events
    next_sequence replay_events list_messages validate_thread_scope main_line list_scope_messages
    find_message_by_idempotency_key new_message posted_under posted_before write_message post_unless
    append_message latest_scope_revision observation_of observe_conversation contributed_before
    is_stale contribute_on contribute_unless contribute_to_conversation
attempt_accepted = refl

rival_stale :
    contribute_to_conversation "s" contributed_ledger rival_attempt
    ≡ ok (stale 1 (some "msg-u"), contributed_ledger)
unfolding set values sort_by trim scope_of admitted scoped_events list_events next_sequence
    append_event make_id replay_event replay_events list_messages main_line list_scope_messages
    find_message_by_idempotency_key new_message latest_scope_revision latest_message observation_of
    observe_conversation contributed_before is_stale contribute_on contribute_unless
    contribute_to_conversation
rival_stale = refl

contribute_to_conversation-no_lost_update_example :
    (contributed_ledger ≡ empty_ledger) ⊎ (contributed_ledger ≡ contributed_ledger)
contribute_to_conversation-no_lost_update_example =
    contribute_to_conversation-no_lost_update "s" empty_ledger empty_ledger-IsOrdered
      empty_ledger-IsFresh attempt rival_attempt tt refl refl attempt_accepted rival_stale

abbrev seen : ConversationObservation
seen = observation_of other_attempt.scope none [] [] []

other_seen : observe_conversation "s" empty_ledger other_attempt.scope none ≡ ok seen
unfolding values sort_by dedupe_by admitted scoped_events list_events latest_by replay_events
    list_messages main_line list_scope_messages attachments list_conversation_attachments
    conversations list_conversation_records get_conversation_by_id unique_trimmed
    active_attachment_ids observe_conversation
other_seen = refl

contribute_to_conversation-elsewhere_example :
    (o' : ConversationObservation) × (observe_conversation "s" contributed_ledger
        other_attempt.scope none
      ≡ ok o')
    × (is_stale other_attempt o' ≡ is_stale other_attempt seen)
contribute_to_conversation-elsewhere_example =
    contribute_to_conversation-elsewhere "s" empty_ledger empty_ledger-IsOrdered
      empty_ledger-IsFresh attempt other_attempt refl tt (inl refl) attempt_accepted other_seen

contribute_to_conversation-retry_example :
    contribute_to_conversation "s" contributed_ledger
      (record attempt { body = "hi, again"; based_on_revision = 7 })
    ≡ ok (accepted 1 contributed, contributed_ledger)
unfolding sort_by trim admitted scoped_events list_events next_sequence new_message
contribute_to_conversation-retry_example =
    contribute_to_conversation-retry "s" empty_ledger attempt
      (record attempt { body = "hi, again"; based_on_revision = 7 }) "k" empty_ledger-IsOrdered
      empty_ledger-IsFresh refl refl refl attempt_accepted
