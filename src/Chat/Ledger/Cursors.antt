-- ===== src/Chat/Ledger/Cursors.antt =====
-- The read cursors and the attachments of src/chat/core/ledger.ts.
pub mod Latest
use openboa.Prelude.{
  String, ◌⧺◌, Bool, true, ◌&&◌, Option, none, some, List, [], ◌∷◌, filter, find, head?, ◌==◌,
  or_default, or_else,
}
use openboa.Prelude.JsMap.{values}
use openboa.Prelude.Sorting.{sort_by}
use openboa.Chat.Model.{
  ChatLedgerEvent, conversation_upserted, cursor_updated, attachment_upserted, ChatCursorRecord,
  ChatCursorInput, ChatConversationAttachmentRecord, ChatConversationAttachmentInput, Result, ok,
  ◌>>=◌,
}
use openboa.Chat.Ledger.{
  SharedChatLedger, list_events, next_sequence, append_event, make_id, scope_or_default, cursor_key,
  message_scope_key, matches, matches_nullable, latest_by,
}
use openboa.Chat.Ledger.Threads.{validate_thread_scope}

unfoldable pub cursors : List ChatLedgerEvent → List ChatCursorRecord
cursors [] = []
cursors (cursor_updated r ∷ es) = r ∷ cursors es
cursors (conversation_upserted r ∷ es) = cursors es
cursors (e ∷ es) = cursors es

abbrev pub in_cursor_scope :
    Option String → Option (Option String) → Option String → ChatCursorRecord → Bool
in_cursor_scope conversation_id thread_id participant_id r =
    matches conversation_id r.conversation_id
    && matches participant_id r.participant_id
    && matches_nullable thread_id r.thread_id

unfoldable pub list_cursor_records :
    SharedChatLedger
    → String
    → Option String
    → Option (Option String)
    → Option String
    → List ChatCursorRecord
list_cursor_records l scope conversation_id thread_id participant_id =
    sort_by (λ a b. l.locale_le a.created_at b.created_at)
      (values (
        latest_by (λ r. cursor_key r.conversation_id r.thread_id r.participant_id)
          (filter (in_cursor_scope conversation_id thread_id participant_id)
            (cursors (list_events l scope)))))

unfoldable pub new_cursor : SharedChatLedger → ChatCursorInput → ChatCursorRecord
new_cursor l input =
    let scope = scope_or_default l input.scope_id in
    let previous : Option ChatCursorRecord = head? (
      list_cursor_records l scope (some input.conversation_id) (some input.thread_id)
        (some input.participant_id)) in
    record {
      scope_id = scope;
      event_id = make_id l "cursor-event" 0;
      sequence = next_sequence l scope;
      participant_id = input.participant_id;
      conversation_id = input.conversation_id;
      thread_id = input.thread_id;
      last_observed_sequence = input.last_observed_sequence;
      last_observed_scope_sequence =
          or_default
            (or_else input.last_observed_scope_sequence
              (elim previous [ none ↦ none | some p ↦ some p.last_observed_scope_sequence ]))
            input.last_observed_scope_revision;
      last_observed_scope_revision = input.last_observed_scope_revision;
      last_contributed_sequence =
          or_else input.last_contributed_sequence
            (elim previous [ none ↦ none | some p ↦ p.last_contributed_sequence ]);
      created_at =
          or_default
            (or_else input.created_at (elim previous [ none ↦ none | some p ↦ some p.created_at ]))
            input.updated_at;
      updated_at = input.updated_at;
    }

unfoldable pub upsert_cursor :
    SharedChatLedger → ChatCursorInput → Result (ChatCursorRecord × SharedChatLedger)
upsert_cursor l input = do
  let scope = scope_or_default l input.scope_id
  root ← validate_thread_scope l scope input.conversation_id input.thread_id
  let cursor = new_cursor l input
  ok (cursor, append_event l 1 (cursor_updated cursor))

unfoldable pub attachments : List ChatLedgerEvent → List ChatConversationAttachmentRecord
attachments [] = []
attachments (attachment_upserted r ∷ es) = r ∷ attachments es
attachments (conversation_upserted r ∷ es) = attachments es
attachments (e ∷ es) = attachments es

-- `attachmentScopeKey` is `messageScopeKey`.
abbrev attachment_key : ChatConversationAttachmentRecord → String
attachment_key r = message_scope_key r.conversation_id r.thread_id ⧺ ":" ⧺ r.participant_id

unfoldable pub list_conversation_attachments :
    SharedChatLedger
    → String
    → Option String
    → Option (Option String)
    → List ChatConversationAttachmentRecord
list_conversation_attachments l scope conversation_id thread_id =
    sort_by (λ a b. l.locale_le a.created_at b.created_at)
      (values (
        latest_by attachment_key (
          filter
            (λ r.
              matches conversation_id r.conversation_id && matches_nullable thread_id r.thread_id)
            (attachments (list_events l scope)))))

unfoldable pub new_attachment :
    SharedChatLedger → ChatConversationAttachmentInput → ChatConversationAttachmentRecord
new_attachment l input =
    let scope = scope_or_default l input.scope_id in
    let previous : Option ChatConversationAttachmentRecord =
      find (λ r. r.participant_id == input.participant_id)
        (list_conversation_attachments l scope (some input.conversation_id)
          (some input.thread_id)) in
    record {
      scope_id = scope;
      event_id = make_id l "attachment-event" 0;
      sequence = next_sequence l scope;
      conversation_id = input.conversation_id;
      thread_id = input.thread_id;
      participant_id = input.participant_id;
      attached = or_default input.attached true;
      created_at =
          or_default
            (or_else input.created_at (elim previous [ none ↦ none | some p ↦ some p.created_at ]))
            input.updated_at;
      updated_at = input.updated_at;
    }

unfoldable pub upsert_conversation_attachment :
    SharedChatLedger
    → ChatConversationAttachmentInput
    → Result (ChatConversationAttachmentRecord × SharedChatLedger)
upsert_conversation_attachment l input = do
  let scope = scope_or_default l input.scope_id
  root ← validate_thread_scope l scope input.conversation_id input.thread_id
  let attachment = new_attachment l input
  ok (attachment, append_event l 1 (attachment_upserted attachment))
