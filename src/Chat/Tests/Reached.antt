-- ===== src/Chat/Tests/Reached.antt =====
-- Contributions of src/chat/core/conversation-service.ts after a message in another conversation.
use openboa.Prelude.{◌≡◌, refl, some, [], ◌∷◌, ◌⊎◌}
use openboa.Chat.Model.{ok, ChatMessage, message_posted}
use openboa.Chat.Ledger.{SharedChatLedger}
use openboa.Chat.Ledger.Commands.{posts}
use openboa.Chat.Service.{accepted, stale, contribution_input}
use openboa.Chat.Service.Reached.{reached, contribute_to_conversation-reached}
use openboa.Chat.Tests.{test_host, hello, attempt, rival_attempt}
use openboa.Chat.Tests.Commands.{test_host-IssuesOnce}
use openboa.Prelude.JsMap.{set, values}
use openboa.Prelude.Sorting.{sort_by}
use openboa.Prelude.Text.{trim}
use openboa.Chat.Model.Shape.{assert_valid_chat_message_input}
use openboa.Chat.Ledger.{
  scope_of, sequence_of, admitted, scoped_events, list_events, next_sequence, append_event, make_id,
}
use openboa.Chat.Ledger.Messages.{replay_event, replay_events, list_messages}
use openboa.Chat.Ledger.Threads.{
  validate_thread_scope, main_line, list_scope_messages, find_message_by_idempotency_key,
}
use openboa.Chat.Ledger.Posting.{
  new_message, posted_under, posted_before, write_message, post_unless, append_message,
}
use openboa.Chat.Service.{
  latest_scope_revision, latest_message, observation_of, observe_conversation, contributed_before,
  is_stale, contribute_on, contribute_unless, contribute_to_conversation,
}
use openboa.Chat.Ledger.Commands.{run_command, run_commands}

abbrev busy : SharedChatLedger
busy = reached test_host "s" (posts (record hello { conversation_id = "d" }) ∷ [])

abbrev contributed : ChatMessage
contributed = new_message busy (contribution_input "s" attempt) []

abbrev contributed_ledger : SharedChatLedger
contributed_ledger = append_event busy 1 (message_posted contributed)

attempt_accepted :
    contribute_to_conversation "s" busy attempt ≡ ok (accepted 2 contributed, contributed_ledger)
unfolding values sort_by trim assert_valid_chat_message_input scope_of sequence_of admitted
    scoped_events list_events next_sequence append_event replay_event replay_events list_messages
    validate_thread_scope main_line list_scope_messages find_message_by_idempotency_key new_message
    posted_under posted_before write_message post_unless append_message latest_scope_revision
    observation_of observe_conversation contributed_before is_stale contribute_on contribute_unless
    contribute_to_conversation run_command run_commands
attempt_accepted = refl

rival_stale :
    contribute_to_conversation "s" contributed_ledger rival_attempt
    ≡ ok (stale 2 (some "msg-xu"), contributed_ledger)
unfolding set values sort_by trim assert_valid_chat_message_input scope_of sequence_of admitted
    scoped_events list_events next_sequence append_event make_id replay_event replay_events
    list_messages validate_thread_scope main_line list_scope_messages
    find_message_by_idempotency_key new_message posted_under posted_before write_message post_unless
    append_message latest_scope_revision latest_message observation_of observe_conversation
    contributed_before is_stale contribute_on contribute_unless contribute_to_conversation
    run_command run_commands
rival_stale = refl

contribute_to_conversation-reached_example :
    (contributed_ledger ≡ busy) ⊎ (contributed_ledger ≡ contributed_ledger)
contribute_to_conversation-reached_example =
    contribute_to_conversation-reached test_host "s"
      (posts (record hello { conversation_id = "d" }) ∷ []) "s" attempt rival_attempt
      test_host-IssuesOnce tt refl refl attempt_accepted rival_stale
