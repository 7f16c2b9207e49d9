-- ===== src/Chat/Tests.antt =====
-- Test data of src/chat: a host, an empty ledger, and calls on it.
pub mod Posting
pub mod Reached
pub mod Records
pub mod Rooms
pub mod Policy
pub mod Commands
pub mod Service
pub mod Views
pub mod CommandService
use openboa.Prelude.{ℕ, zero, suc, String, true, none, some, []}
use openboa.Chat.Model.{ChatParticipantRef, ChatParticipantKind, ChatMessageInput}
use openboa.Chat.Ledger.{SharedChatLedger, Host}
use openboa.Chat.Service.{ContributionAttempt, ConversationScope}

-- A new text for each number.
abbrev pub test_uuid : ℕ → String
test_uuid zero = "u"
test_uuid (suc n) = String.◌∷◌ "x" (test_uuid n)

abbrev pub test_host : Host
test_host = record { locale_le = λ a b. true; uuid = test_uuid }

abbrev pub empty_ledger : SharedChatLedger
empty_ledger = record { default_scope = "s"; file = []; host = test_host; issued = 0 }

abbrev pub alice : ChatParticipantRef
alice = record { kind = ChatParticipantKind.participant; id = "alice"; display_name = none }

abbrev pub hello : ChatMessageInput
hello = record {
  scope_id = none;
  conversation_id = "c";
  thread_id = none;
  session_id = "w";
  idempotency_key = some "k";
  author = alice;
  audience = none;
  body = "hi";
  created_at = "t0";
  mentioned_ids = none;
  related_message_id = none;
  message_kind = none;
  system_event_kind = none;
}

-- The same call with another body.
abbrev pub hello_again : ChatMessageInput
hello_again = record hello { body = "hi, again" }

abbrev pub main_scope : ConversationScope
main_scope = record { conversation_id = "c"; thread_id = none }

abbrev pub attempt : ContributionAttempt
attempt = record {
  scope = main_scope;
  session_id = "w";
  idempotency_key = some "k";
  based_on_revision = 0;
  based_on_message_id = none;
  author = alice;
  audience = none;
  body = "hi";
  created_at = "t0";
  mentioned_ids = none;
  related_message_id = none;
}

-- Another participant's attempt on the same revision.
abbrev pub rival_attempt : ContributionAttempt
rival_attempt = record attempt { idempotency_key = some "other"; body = "me first" }

-- An attempt in another conversation.
-- An attempt in another conversation.
abbrev pub other_attempt : ContributionAttempt
other_attempt = record attempt {
  scope = record { conversation_id = "d"; thread_id = none };
  idempotency_key = none;
}
