-- ===== src/Chat/Ledger/Participants.antt =====
-- The participants of src/chat/core/ledger.ts.
use openboa.Prelude.{
  String, true, Option, none, some, List, [], ◌∷◌, find, ◌==◌, or_default, or_else, dedupe_by,
}
use openboa.Prelude.JsMap.{values}
use openboa.Prelude.Sorting.{sort_by}
use openboa.Chat.Model.{
  ChatLedgerEvent, conversation_upserted, participant_upserted, ChatParticipantRecord,
  ChatParticipantUpsertInput, ParticipantCapability, Result, ok, ◌>>◌,
}
use openboa.Chat.Model.Shape.{assert_valid_chat_participant_input}
use openboa.Chat.Ledger.{
  SharedChatLedger, list_events, next_sequence, append_event, make_id, scope_or_default, latest_by,
}

unfoldable pub participants : List ChatLedgerEvent → List ChatParticipantRecord
participants [] = []
participants (participant_upserted r ∷ es) = r ∷ participants es
participants (conversation_upserted r ∷ es) = participants es
participants (e ∷ es) = participants es

unfoldable pub list_participant_records : SharedChatLedger → String → List ChatParticipantRecord
list_participant_records l scope =
    sort_by (λ a b. l.locale_le a.created_at b.created_at)
      (values (latest_by (λ r. r.participant_id) (participants (list_events l scope))))

unfoldable pub get_participant_record :
    SharedChatLedger → String → String → Option ChatParticipantRecord
get_participant_record l participant_id scope =
    find (λ r. r.participant_id == participant_id) (list_participant_records l scope)

-- Every value of the type is the capability "chat-participant", so its filter keeps all.
unfoldable pub unique_capabilities : List ParticipantCapability → List ParticipantCapability
unique_capabilities = dedupe_by (λ a b. true)

unfoldable pub upsert_participant :
    SharedChatLedger
    → ChatParticipantUpsertInput
    → Result (ChatParticipantRecord × SharedChatLedger)
upsert_participant l input = do
  let scope = scope_or_default l input.scope_id
  let previous = get_participant_record l input.participant_id scope
  assert_valid_chat_participant_input input
  let participant : ChatParticipantRecord = record {
    scope_id = scope;
    event_id = make_id l "participant-event" 0;
    sequence = next_sequence l scope;
    participant_id = input.participant_id;
    display_name =
        or_else input.display_name (elim previous [ none ↦ none | some p ↦ p.display_name ]);
    capabilities = unique_capabilities (
        or_default
          (or_else input.capabilities
            (elim previous [ none ↦ none | some p ↦ some p.capabilities ]))
          []);
    created_at =
        or_default
          (or_else input.created_at (elim previous [ none ↦ none | some p ↦ some p.created_at ]))
          input.updated_at;
    updated_at = input.updated_at;
  }
  ok (participant, append_event l 1 (participant_upserted participant))
