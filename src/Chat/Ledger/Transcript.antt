-- ===== src/Chat/Ledger/Transcript.antt =====
-- The view `listTranscript` of src/chat/core/ledger.ts, with the types of src/chat/transcript.ts.
use openboa.Prelude.{
  String, Bool, true, false, Option, none, some, List, map, filter, or_default, if◌then◌else◌,
}
use openboa.Chat.Model.{
  ChatMessage, ChatParticipantRef, ChatParticipantKind, participant_message, system_event,
}
use openboa.Chat.Ledger.{SharedChatLedger}
use openboa.Chat.Ledger.Messages.{list_messages}

pub data TranscriptParticipantKind : Type 0 where
  participant room system : TranscriptParticipantKind

pub record TranscriptParticipantRef : Type 0 where
  pub kind : TranscriptParticipantKind
  pub id : String

pub record TranscriptRecord : Type 0 where
  pub scope_id : String
  pub conversation_id : String
  pub thread_id : Option String
  pub session_id : String
  pub sender : TranscriptParticipantRef
  pub recipient : TranscriptParticipantRef
  pub message : String
  pub timestamp : String

abbrev is_participant_kind : ChatParticipantKind → Bool
is_participant_kind ChatParticipantKind.participant = true
is_participant_kind ChatParticipantKind.system = false

abbrev is_participant : ChatParticipantRef → Bool
is_participant p = is_participant_kind p.kind

abbrev the_room : TranscriptParticipantRef
the_room = record { kind = room; id = "room" }

unfoldable pub transcript_recipient_for_message :
    Option ChatParticipantRef → TranscriptParticipantRef
unfolding the_room
transcript_recipient_for_message none = the_room
transcript_recipient_for_message (some audience) =
    if is_participant audience
    then record { kind = TranscriptParticipantKind.participant; id = audience.id }
    else the_room

abbrev is_transcribed : ChatMessage → Bool
is_transcribed m = elim m.message_kind [
  | participant_message ↦ is_participant m.author
  | system_event ↦ false
]

-- The conversation is `general` where the call names none.
unfoldable pub list_transcript : SharedChatLedger → String → Option String → List TranscriptRecord
list_transcript l scope conversation_id =
    let conversation = or_default conversation_id "general" in
    map
      (λ m. record {
        scope_id = scope;
        conversation_id = conversation;
        thread_id = m.thread_id;
        session_id = m.session_id;
        sender = record { kind = TranscriptParticipantKind.participant; id = m.author.id };
        recipient = transcript_recipient_for_message m.audience;
        message = m.body;
        timestamp = m.created_at;
      })
      (filter is_transcribed (list_messages l scope (some conversation)))
