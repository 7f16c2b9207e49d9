-- ===== src/Chat/Tests/Views.antt =====
-- The views of src/chat/core/ledger.ts on a ledger with one message.
use openboa.Prelude.{◌≡◌, refl, inl, some, [], ◌∷◌, map, In}
use openboa.Prelude.JsMap.{set, values}
use openboa.Prelude.Sorting.{sort_by}
use openboa.Chat.Model.{message_posted, ChatMessage}
use openboa.Chat.Ledger.{
  SharedChatLedger, scope_of, sequence_of, admitted, scoped_events, list_events, next_sequence,
  append_event, make_id,
}
use openboa.Chat.Ledger.Messages.{replay_event, replay_events, list_messages}
use openboa.Chat.Ledger.Posting.{new_message}
use openboa.Chat.Ledger.Replay.{ChatConversationReplayScope, replay_conversation_state}
use openboa.Chat.Ledger.Replay.Complete.{replay_conversation_state_complete}
use openboa.Chat.Ledger.Transcript.{list_transcript}
use openboa.Chat.Tests.{empty_ledger, hello}

abbrev said : ChatMessage
said = new_message empty_ledger hello []

abbrev told_ledger : SharedChatLedger
told_ledger = append_event empty_ledger 1 (message_posted said)

replay_conversation_state_complete_example :
    (s : ChatConversationReplayScope) × In s
      (replay_conversation_state told_ledger hello.conversation_id "s").scopes
    × In said s.messages
unfolding set values sort_by scope_of sequence_of admitted scoped_events list_events next_sequence
    append_event make_id replay_event replay_events list_messages new_message
replay_conversation_state_complete_example =
    replay_conversation_state_complete told_ledger hello.conversation_id "s" said (inl refl) refl

told_ledger-transcript :
    map (λ r. r.message) (list_transcript told_ledger "s" (some hello.conversation_id))
    ≡ hello.body ∷ []
unfolding set values sort_by scope_of sequence_of admitted scoped_events list_events next_sequence
    append_event make_id replay_event replay_events list_messages new_message list_transcript
told_ledger-transcript = refl
