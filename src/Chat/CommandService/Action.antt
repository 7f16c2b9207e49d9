-- ===== src/Chat/CommandService/Action.antt =====
-- A method of `ChatCommandService`: it reads and appends to the ledger and may throw. What it has
-- written stays written when it throws.
use openboa.Prelude.{
  String, Bool, true, false, Option, none, some, ◌+◌, if◌then◌else◌, truthy, or_default,
  trim_or_null,
}
use openboa.Chat.Model.{
  ChatError, Result, ok, err, ChatMessage, ChatMessageInput, ChatMessageEditRecord,
  ChatMessageRedactionRecord, ChatMessageReactionRecord, ChatGrantBindingInput,
  ChatGrantBindingRecord, ChatCursorInput, ChatCursorRecord, ChatConversationAttachmentInput,
  ChatConversationAttachmentRecord, ChatConversationInput, ChatConversationRecord,
  ChatParticipantUpsertInput, ChatParticipantRecord,
}
use openboa.Chat.Ledger.{SharedChatLedger, make_uuid}
use openboa.Chat.Ledger.Grants.{create_grant_binding, revoke_grant_binding}
use openboa.Chat.Ledger.Cursors.{upsert_cursor, upsert_conversation_attachment}
use openboa.Chat.Ledger.Participants.{upsert_participant}
use openboa.Chat.Ledger.Posting.{
  append_message, edit_message, redact_message, set_message_reaction, EditInput, RedactInput,
  ReactionInput,
}
use openboa.Chat.Ledger.Rooms.{ensure_conversation, update_conversation}

-- What the process gives: `nowIsoString()`, read at a state of the ledger, and the variable
-- OPENBOA_DEFAULT_ACTOR_ID.
pub record Env : Type 0 where
  pub clock : SharedChatLedger → String
  pub default_actor : Option String

unfoldable pub default_chat_actor_id : Env → String
default_chat_actor_id env = or_default (trim_or_null env.default_actor) "local-actor"

unfoldable pub resolve_chat_actor_id : Env → Option String → String
unfolding default_chat_actor_id
resolve_chat_actor_id env value = or_default (trim_or_null value) (default_chat_actor_id env)

abbrev pub Action : Type 0 → Type 0
Action A = Env → SharedChatLedger → Result A × SharedChatLedger

module _ {A : Type 0} where
  unfoldable pub pure : A → Action A
  pure a env l = (ok a, l)

  unfoldable pub raise : ChatError → Action A
  raise e env l = (err e, l)

  unfoldable pub gets : (SharedChatLedger → A) → Action A
  gets f env l = (ok (f l), l)

  -- A reading call of the ledger that may throw.
  unfoldable pub asks : (SharedChatLedger → Result A) → Action A
  asks f env l = (f l, l)

  abbrev pub kept : SharedChatLedger → Result (A × SharedChatLedger) → Result A × SharedChatLedger
  kept l (ok (a, l')) = (ok a, l')
  kept l (err e) = (err e, l)

  -- A writing call of the ledger; one that throws has written nothing.
  unfoldable pub calls : (SharedChatLedger → Result (A × SharedChatLedger)) → Action A
  calls f env l = kept l (f l)

  abbrev pub or_raise : Option A → ChatError → Action A
  or_raise none e = raise e
  or_raise (some a) e = pure a

abbrev pub continue :
    {A B : Type 0}
    → Result A × SharedChatLedger
    → (A → Action B)
    → Env
    → Result B × SharedChatLedger
continue (ok a, l) f env = f a env l
continue (err e, l) f env = (err e, l)

infixl 5 ◌>>=◌ ◌>>◌
-- `await`
unfoldable pub ◌>>=◌ : {A B : Type 0} → Action A → (A → Action B) → Action B
(m >>= f) env l = continue (m env l) f env

abbrev pub ◌>>◌ : {A B : Type 0} → Action A → Action B → Action B
m >> k = m >>= λ _. k

-- `if (!b) throw e`
unfoldable pub ensure : Bool → ChatError → Action (Unit {0})
ensure true e env l = (ok tt, l)
ensure false e env l = (err e, l)

abbrev pub done : Action (Unit {0})
done = pure tt

-- `if (s) { … }` for a text that may be missing or empty.
abbrev pub if_truthy : Option String → (String → Action (Unit {0})) → Action (Unit {0})
if_truthy none body = done
if_truthy (some s) body = if truthy s then body s else done

-- `nowIsoString()`
unfoldable pub now_iso_string : Action String
now_iso_string env l = (ok (env.clock l), l)

unfoldable pub actor_or_default : Option String → Action String
actor_or_default value env l = (ok (resolve_chat_actor_id env value), l)

-- `makeUuidV7()`
unfoldable pub make_uuid_v7 : Action String
make_uuid_v7 env l = (ok (make_uuid l 0), record l { issued = l.issued + 1 })

-- The writing calls, each with `scopeId: this.scopeId()`.
unfoldable pub ledger_append_message : ChatMessageInput → Action ChatMessage
ledger_append_message input =
    calls λ l. append_message l (record input { scope_id = some l.default_scope })

unfoldable pub ledger_edit_message : EditInput → Action ChatMessageEditRecord
ledger_edit_message input =
    calls λ l. edit_message l (record input { scope_id = some l.default_scope })

unfoldable pub ledger_redact_message : RedactInput → Action ChatMessageRedactionRecord
ledger_redact_message input =
    calls λ l. redact_message l (record input { scope_id = some l.default_scope })

unfoldable pub ledger_set_message_reaction : ReactionInput → Action ChatMessageReactionRecord
ledger_set_message_reaction input =
    calls λ l. ok (set_message_reaction l (record input { scope_id = some l.default_scope }))

unfoldable pub ledger_create_grant_binding : ChatGrantBindingInput → Action ChatGrantBindingRecord
ledger_create_grant_binding input =
    calls λ l. create_grant_binding l (record input { scope_id = some l.default_scope })

unfoldable pub ledger_revoke_grant_binding : String → String → Action ChatGrantBindingRecord
ledger_revoke_grant_binding binding_id updated_at =
    calls λ l. revoke_grant_binding l binding_id updated_at l.default_scope

unfoldable pub ledger_upsert_cursor : ChatCursorInput → Action ChatCursorRecord
ledger_upsert_cursor input =
    calls λ l. upsert_cursor l (record input { scope_id = some l.default_scope })

unfoldable pub ledger_upsert_attachment :
    ChatConversationAttachmentInput → Action ChatConversationAttachmentRecord
ledger_upsert_attachment input =
    calls λ l. upsert_conversation_attachment l (record input { scope_id = some l.default_scope })

unfoldable pub ledger_upsert_participant : ChatParticipantUpsertInput → Action ChatParticipantRecord
ledger_upsert_participant input =
    calls λ l. upsert_participant l (record input { scope_id = some l.default_scope })

unfoldable pub ledger_ensure_conversation : ChatConversationInput → Action ChatConversationRecord
ledger_ensure_conversation input =
    calls λ l. ensure_conversation l (record input { scope_id = some l.default_scope })

unfoldable pub ledger_update_conversation :
    String → ChatConversationInput → Action ChatConversationRecord
ledger_update_conversation conversation_id input =
    calls
      λ l. update_conversation l conversation_id (record input { scope_id = some l.default_scope })
