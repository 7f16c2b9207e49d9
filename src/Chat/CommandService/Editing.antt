-- ===== src/Chat/CommandService/Editing.antt =====
-- `editMessage` of src/chat/policy/command-service.ts from its checks to the message that it returns.
use openboa.Prelude.{
  ◌≡◌, refl, sym, ap, ◌∙◌, String, true, false, some, ◌==◌, eq_iff, eq_refl, truthy, trim,
  is_truthy, Bool-cases, inl, inr,
}
use openboa.Chat.Model.{
  ChatConversationRecord, ChatMessage, ChatMessageEditRecord, participant_message, message_edited,
  ok,
}
use openboa.Chat.Authorization.{message_edit}
use openboa.Chat.Authorization.Access.{permits}
use openboa.Chat.Ledger.{SharedChatLedger, append_event, next_sequence, scope_or_default, make_id}
use openboa.Chat.Ledger.Posting.Mentions.{mention_ids_from_body}
use openboa.Chat.Ledger.Order.{IsOrdered}
use openboa.Chat.Ledger.Conversations.{get_conversation_by_id}
use openboa.Chat.Ledger.Messages.{find_message_by_id, edited_message}
use openboa.Chat.Ledger.Messages.Lookup.{find_message_by_id-edited, find_message_by_id-named}
use openboa.Chat.Ledger.Posting.{edit_message, EditInput}
use openboa.Chat.CommandService.Action.{
  Env, ledger_edit_message, now_iso_string, gets, pure, calls, ◌>>=◌,
}
use openboa.Chat.CommandService.Permission.{permission_input, require_conversation}
use openboa.Chat.CommandService.Messages.{
  edit_conversation_message, write_edit, reread_message, require_message, participant_ref,
}
use openboa.Chat.CommandService.Running.{
  bind-ok, ensure-holds, require_conversation-found, assert_conversation_action-permits,
}

-- The message shows the body and is what the ledger finds under its identifier.
abbrev pub Shows : SharedChatLedger → ChatMessage → String → ChatMessage → Type 0
Shows l' m body r =
    (r.body ≡ body)
    × (r.author ≡ m.author)
    × (r.message_id ≡ m.message_id)
    × (find_message_by_id l' m.message_id l'.default_scope ≡ some r)

-- An edit of a message that is there succeeds, and what it writes.
edit_message-writes :
    (l : SharedChatLedger) (i : EditInput) (m : ChatMessage)
    → find_message_by_id l i.message_id (scope_or_default l i.scope_id) ≡ some m
    → (e : ChatMessageEditRecord) × (edit_message l i ≡ ok (e, append_event l 1 (message_edited e)))
      × (e.message_id ≡ i.message_id)
      × (e.body ≡ i.body)
      × (e.scope_id ≡ scope_or_default l i.scope_id)
      × (e.sequence ≡ next_sequence l (scope_or_default l i.scope_id))
      × (e.scope_revision ≡ e.sequence)
unfolding edit_message
edit_message-writes l i m h =
    let scope = scope_or_default l i.scope_id in
    let e : ChatMessageEditRecord = record {
      scope_id = scope;
      event_id = make_id l "message-edit" 0;
      sequence = next_sequence l scope;
      scope_revision = next_sequence l scope;
      message_id = i.message_id;
      editor = i.editor;
      body = i.body;
      content = i.body;
      mentioned_ids = mention_ids_from_body i.body;
      created_at = i.created_at;
    } in
    (e, rw (h, edit_message) refl, refl, refl, refl, refl, refl)

module _ (env : Env) (l : SharedChatLedger) (m : ChatMessage) (actor asked body : String) where
  write_edit-edits :
      IsOrdered l
      → find_message_by_id l m.message_id l.default_scope ≡ some m
      → is_truthy m.redacted_at ≡ false
      → (r : ChatMessage) × (l' : SharedChatLedger) × (write_edit m actor asked body env l
          ≡ (ok r, l'))
        × Shows l' m body r
  unfolding write_edit now_iso_string ◌>>=◌ ledger_edit_message calls reread_message gets pure
      edited_message append_event
  write_edit-edits h found u =
      let i : EditInput = record {
        scope_id = some l.default_scope;
        message_id = m.message_id;
        editor = participant_ref actor;
        body = body;
        created_at = env.clock l;
      } in
      let (e, p, named, b, s, n, r) = edit_message-writes l i m found in
      let seen =
        ap (λ id. find_message_by_id (append_event l 1 (message_edited e)) id l.default_scope)
          (sym named)
        ∙ find_message_by_id-edited l l.default_scope 1 e m h s n r
            (ap (λ id. find_message_by_id l id l.default_scope) named ∙ found) u in
      (
        edited_message m e,
        append_event l 1 (message_edited e),
        rw (p, seen) refl,
        (b, refl, refl, seen),
      )

-- One who may edit in the room, and who wrote the message, edits it: the call returns the message with
-- the body, by the same author and under the same identifier, and the ledger that the call leaves finds
-- this message under the identifier. The ledger is ordered, the access table permits the action, the body is not blank, and the
-- message stands in the room, is a participant's and is not redacted.
pub edit_conversation_message-edits :
    (env : Env) (l : SharedChatLedger) (conversation_id actor id body : String)
    (room : ChatConversationRecord) (m : ChatMessage)
    → IsOrdered l
    → get_conversation_by_id l conversation_id l.default_scope ≡ some room
    → permits (permission_input l actor room message_edit) ≡ true
    → truthy (trim body) ≡ true
    → find_message_by_id l id l.default_scope ≡ some m
    → m.conversation_id ≡ room.conversation_id
    → m.message_kind ≡ participant_message
    → is_truthy m.redacted_at ≡ false
    → m.author.id ≡ actor
    → (r : ChatMessage) × (l' : SharedChatLedger) × (edit_conversation_message conversation_id actor
          id body env l
        ≡ (ok r, l'))
      × Shows l' m body r
unfolding edit_conversation_message require_message gets pure
edit_conversation_message-edits env l conversation_id actor id body room m h found may b at_id here
      kind u own =
    let by_id =
      ap (λ t. find_message_by_id l t l.default_scope)
        (find_message_by_id-named l id l.default_scope m at_id)
      ∙ at_id in
    let required : require_message room id env l ≡ (ok m, l) =
      bind-ok env l _ _ (some m) l (rw at_id) ∙ rw (here, eq_refl room.conversation_id) refl in
    let start =
      bind-ok env l (require_conversation conversation_id) _ room l
        (require_conversation-found env l conversation_id room found)
      ∙ bind-ok env l _ _ tt l
          (assert_conversation_action-permits env l actor room message_edit may)
      ∙ bind-ok env l _ _ tt l (ensure-holds env l _ _ b)
      ∙ bind-ok env l _ _ m l required
      ∙ bind-ok env l _ _ tt l (ensure-holds env l _ _ (rw kind refl))
      ∙ bind-ok env l _ _ tt l (ensure-holds env l _ _ (rw u refl))
      ∙ bind-ok env l _ _ tt l (ensure-holds env l _ _ (rw own (eq_refl actor))) in
    elim (Bool-cases (m.body == body)) [
      | inl t ↦ (m, l, start ∙ rw t refl, ((eq_iff _ _).0 t, refl, refl, by_id))
      | inr t ↦
          let (r, l', p, shows) = write_edit-edits env l m actor id body h by_id u in
          (r, l', start ∙ rw t p, shows)
    ]
