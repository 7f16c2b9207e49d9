-- ===== src/Chat/Ledger/Commands/Cases.antt =====
-- What a successful call of each writing operation does: it changes nothing, or it writes its result
-- as the next event of its scope.
use openboa.Prelude.{String, ◌≡◌, ◌⊎◌, arith, List, [], none, some, inl, inr}
use openboa.Chat.Model.{
  ChatGrantBindingInput, ChatGrantBindingRecord, ChatCursorInput, ChatCursorRecord,
  ChatConversationAttachmentInput, ChatConversationAttachmentRecord, ChatConversationInput,
  ChatConversationRecord, ChatMessageInput, ChatMessage, ChatMessageEditRecord,
  ChatMessageRedactionRecord, ChatParticipantUpsertInput, ChatParticipantRecord, ok, message_posted,
  message_edited, message_redacted, grant_binding_upserted, cursor_updated, attachment_upserted,
  participant_upserted,
}
use openboa.Chat.Ledger.{SharedChatLedger, next_sequence, append_event, make_id, scope_or_default}
use openboa.Chat.Ledger.Grants.{
  create_grant_binding, revoke_grant_binding, new_grant_binding, ids_taken,
}
use openboa.Chat.Ledger.Cursors.{
  upsert_cursor, upsert_conversation_attachment, new_cursor, new_attachment,
}
use openboa.Chat.Ledger.Participants.{upsert_participant}
use openboa.Chat.Ledger.Posting.{
  append_message, edit_message, redact_message, EditInput, RedactInput,
}
use openboa.Chat.Ledger.Posting.Revision.{
  append_message_parts, Written-scope, Written-sequence, Written-revision, Written-id,
}
use openboa.Chat.Ledger.Conversations.{get_conversation_by_id}
use openboa.Chat.Ledger.Rooms.{
  ensure_conversation, update_conversation, update_room, write_room, new_room, updated_room,
}

module _ (l : SharedChatLedger) where
  pub append_message_cases :
      (i : ChatMessageInput) {r : ChatMessage} {l' : SharedChatLedger}
      → append_message l i ≡ ok (r, l')
      → (l' ≡ l)
        ⊎ ((l' ≡ append_event l 1 (message_posted r))
            × (r.scope_id ≡ scope_or_default l i.scope_id)
            × (r.sequence ≡ next_sequence l (scope_or_default l i.scope_id))
            × (r.revision ≡ r.sequence)
            × (r.message_id ≡ make_id l "msg" 0))
  append_message_cases i h =
      let (_, _, parts) = append_message_parts l i h in
      elim parts [
        | inl c ↦ inl c.1
        | inr c ↦
            let w = c.1 in
            inr (w.ledger, Written-scope w, Written-sequence w, Written-revision w, Written-id w)
      ]

  pub edit_message_cases :
      (i : EditInput) {r : ChatMessageEditRecord} {l' : SharedChatLedger}
      → edit_message l i ≡ ok (r, l')
      → (l' ≡ append_event l 1 (message_edited r))
        × (r.scope_id ≡ scope_or_default l i.scope_id)
        × (r.sequence ≡ next_sequence l (scope_or_default l i.scope_id))
        × (r.scope_revision ≡ r.sequence)
  unfolding edit_message
  edit_message_cases i h = ground arith

  pub redact_message_cases :
      (i : RedactInput) {r : ChatMessageRedactionRecord} {l' : SharedChatLedger}
      → redact_message l i ≡ ok (r, l')
      → (l' ≡ append_event l 1 (message_redacted r))
        × (r.scope_id ≡ scope_or_default l i.scope_id)
        × (r.sequence ≡ next_sequence l (scope_or_default l i.scope_id))
        × (r.scope_revision ≡ r.sequence)
  unfolding redact_message
  redact_message_cases i h = ground arith

  pub create_grant_binding_cases :
      (i : ChatGrantBindingInput) {r : ChatGrantBindingRecord} {l' : SharedChatLedger}
      → create_grant_binding l i ≡ ok (r, l')
      → (l' ≡ append_event l (ids_taken i) (grant_binding_upserted r))
        × (r.scope_id ≡ scope_or_default l i.scope_id)
        × (r.sequence ≡ next_sequence l (scope_or_default l i.scope_id))
  unfolding create_grant_binding new_grant_binding
  create_grant_binding_cases i h = ground arith

  pub upsert_cursor_cases :
      (i : ChatCursorInput) {r : ChatCursorRecord} {l' : SharedChatLedger}
      → upsert_cursor l i ≡ ok (r, l')
      → (l' ≡ append_event l 1 (cursor_updated r))
        × (r.scope_id ≡ scope_or_default l i.scope_id)
        × (r.sequence ≡ next_sequence l (scope_or_default l i.scope_id))
  unfolding upsert_cursor new_cursor
  upsert_cursor_cases i h = ground arith

  pub upsert_conversation_attachment_cases :
      (i : ChatConversationAttachmentInput) {r : ChatConversationAttachmentRecord}
      {l' : SharedChatLedger}
      → upsert_conversation_attachment l i ≡ ok (r, l')
      → (l' ≡ append_event l 1 (attachment_upserted r))
        × (r.scope_id ≡ scope_or_default l i.scope_id)
        × (r.sequence ≡ next_sequence l (scope_or_default l i.scope_id))
  unfolding upsert_conversation_attachment new_attachment
  upsert_conversation_attachment_cases i h = ground arith

  pub upsert_participant_cases :
      (i : ChatParticipantUpsertInput) {r : ChatParticipantRecord} {l' : SharedChatLedger}
      → upsert_participant l i ≡ ok (r, l')
      → (l' ≡ append_event l 1 (participant_upserted r))
        × (r.scope_id ≡ scope_or_default l i.scope_id)
        × (r.sequence ≡ next_sequence l (scope_or_default l i.scope_id))
  unfolding upsert_participant
  upsert_participant_cases i h = ground arith

  pub revoke_grant_binding_cases :
      (id at scope : String) {r : ChatGrantBindingRecord} {l' : SharedChatLedger}
      → revoke_grant_binding l id at scope ≡ ok (r, l')
      → (l' ≡ append_event l 1 (grant_binding_upserted r))
        × (r.scope_id ≡ scope)
        × (r.sequence ≡ next_sequence l scope)
  unfolding revoke_grant_binding create_grant_binding new_grant_binding
  revoke_grant_binding_cases id at scope h = ground arith

  pub ensure_conversation_cases :
      (i : ChatConversationInput) {r : ChatConversationRecord} {l' : SharedChatLedger}
      → ensure_conversation l i ≡ ok (r, l')
      → (l' ≡ l)
        ⊎ ((l' ≡ (write_room l 2 r []).1)
            × (r.scope_id ≡ scope_or_default l i.scope_id)
            × (r.sequence ≡ next_sequence l (scope_or_default l i.scope_id)))
  unfolding ensure_conversation write_room new_room
  ensure_conversation_cases i h = ground arith

  -- The members that a room had before an update.
  abbrev pub members_before : String → ChatConversationInput → List String
  members_before id i = elim (get_conversation_by_id l id (scope_or_default l i.scope_id)) [
    | none ↦ []
    | some previous ↦ previous.participant_ids
  ]

  pub update_conversation_cases :
      (id : String) (i : ChatConversationInput) {r : ChatConversationRecord} {l' : SharedChatLedger}
      → update_conversation l id i ≡ ok (r, l')
      → (l' ≡ (write_room l 1 r (members_before id i)).1)
        × (r.scope_id ≡ scope_or_default l i.scope_id)
        × (r.sequence ≡ next_sequence l (scope_or_default l i.scope_id))
  unfolding update_conversation update_room write_room updated_room
  update_conversation_cases id i h = ground arith
