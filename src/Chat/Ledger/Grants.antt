-- ===== src/Chat/Ledger/Grants.antt =====
-- The grant bindings of src/chat/core/ledger.ts.
pub mod Laws
pub mod Listing
pub mod Identity
use openboa.Prelude.{
  ℕ, String, Bool, true, false, not, ◌&&◌, ◌||◌, Option, none, some, List, [], ◌∷◌, filter, head?,
  if◌then◌else◌, ◌==◌, opt_eq, trim_or_null, is_truthy, truthy, or_default, or_else,
}
use openboa.Prelude.JsMap.{values}
use openboa.Prelude.Sorting.{sort_by}
use openboa.Chat.Model.{
  ChatLedgerEvent, conversation_upserted, grant_binding_upserted, ChatGrantBindingRecord,
  ChatGrantBindingInput, ChatGrantBindingState, ChatGrantScopeKind, chat, conversation,
  scope_kind_eq, role_eq, Result, ok, err, ◌>>=◌, ◌>>◌, require, grant_binding_not_found,
  conversation_grant_requires_id, grant_identity_immutable,
}
use openboa.Chat.Ledger.{
  SharedChatLedger, list_events, next_sequence, append_event, make_id, scope_or_default, matches,
  matches_nullable, latest_by,
}

unfoldable pub grant_bindings : List ChatLedgerEvent → List ChatGrantBindingRecord
grant_bindings [] = []
grant_bindings (grant_binding_upserted r ∷ es) = r ∷ grant_bindings es
grant_bindings (conversation_upserted r ∷ es) = grant_bindings es
grant_bindings (e ∷ es) = grant_bindings es

-- The optional conditions of `listGrantBindings`.
pub record GrantScope : Type 0 where
  pub binding_id : Option String
  pub subject_id : Option String
  pub conversation_id : Option (Option String)
  pub scope_kind : Option ChatGrantScopeKind

abbrev pub any_grant : GrantScope
any_grant = record {
  binding_id = none;
  subject_id = none;
  conversation_id = none;
  scope_kind = none;
}

abbrev matches_scope_kind : Option ChatGrantScopeKind → ChatGrantScopeKind → Bool
matches_scope_kind none actual = true
matches_scope_kind (some wanted) actual = scope_kind_eq actual wanted

abbrev pub in_grant_scope : GrantScope → ChatGrantBindingRecord → Bool
in_grant_scope scope r =
    matches scope.binding_id r.binding_id
    && matches scope.subject_id r.subject_id
    && matches_scope_kind scope.scope_kind r.scope_kind
    && matches_nullable scope.conversation_id r.conversation_id

unfoldable pub list_grant_bindings :
    SharedChatLedger → String → GrantScope → List ChatGrantBindingRecord
list_grant_bindings l scope wanted =
    sort_by (λ a b. l.locale_le a.created_at b.created_at)
      (values (
        latest_by (λ r. r.binding_id)
          (filter (in_grant_scope wanted) (grant_bindings (list_events l scope)))))

unfoldable pub get_grant_binding :
    SharedChatLedger → String → String → Option ChatGrantBindingRecord
get_grant_binding l binding_id scope =
    head? (list_grant_bindings l scope (record any_grant { binding_id = some binding_id }))

-- `input.scopeKind === "conversation" ? input.conversationId?.trim() || null : null`
abbrev pub grant_conversation : ChatGrantBindingInput → Option String
grant_conversation input =
    if scope_kind_eq input.scope_kind conversation then trim_or_null input.conversation_id else none

abbrev pub same_grant_identity : ChatGrantBindingRecord → ChatGrantBindingInput → Bool
same_grant_identity previous input =
    previous.subject_id == input.subject_id
    && role_eq previous.role_id input.role_id
    && scope_kind_eq previous.scope_kind input.scope_kind
    && opt_eq previous.conversation_id (grant_conversation input)

-- `input.bindingId ? await this.getGrantBinding(input.bindingId, scopeId) : null`
abbrev pub previous_grant :
    SharedChatLedger → String → Option String → Option ChatGrantBindingRecord
previous_grant l scope none = none
previous_grant l scope (some id) = if truthy id then get_grant_binding l id scope else none

abbrev pub identity_kept : Option ChatGrantBindingRecord → ChatGrantBindingInput → Bool
identity_kept none input = true
identity_kept (some previous) input = same_grant_identity previous input

-- The record that `createGrantBinding` writes.
unfoldable pub new_grant_binding : SharedChatLedger → ChatGrantBindingInput → ChatGrantBindingRecord
new_grant_binding l input =
    let scope = scope_or_default l input.scope_id in
    let previous : Option ChatGrantBindingRecord = previous_grant l scope input.binding_id in
    record {
      scope_id = scope;
      event_id = make_id l "grant-event" 0;
      sequence = next_sequence l scope;
      binding_id = or_default input.binding_id (make_id l "grant" 1);
      subject_id = input.subject_id;
      role_id = input.role_id;
      scope_kind = input.scope_kind;
      conversation_id = grant_conversation input;
      binding_state = or_default input.binding_state ChatGrantBindingState.active;
      created_at =
          or_default
            (or_else input.created_at (elim previous [ none ↦ none | some p ↦ some p.created_at ]))
            input.updated_at;
      updated_at = input.updated_at;
    }

-- The identifiers that the record takes: one for the event, and one for a binding without an id.
abbrev pub ids_taken : ChatGrantBindingInput → ℕ
ids_taken input = elim input.binding_id [ none ↦ 2 | some id ↦ 1 ]

unfoldable pub create_grant_binding :
    SharedChatLedger → ChatGrantBindingInput → Result (ChatGrantBindingRecord × SharedChatLedger)
create_grant_binding l input = do
  let scope = scope_or_default l input.scope_id
  require
      (not
        (scope_kind_eq input.scope_kind conversation && not (is_truthy (grant_conversation input))))
      conversation_grant_requires_id
  require (identity_kept (previous_grant l scope input.binding_id) input) grant_identity_immutable
  let binding = new_grant_binding l input
  ok (binding, append_event l (ids_taken input) (grant_binding_upserted binding))

-- What `revokeGrantBinding` passes on.
abbrev pub revocation_of : ChatGrantBindingRecord → String → String → ChatGrantBindingInput
revocation_of previous scope updated_at = record {
  scope_id = some scope;
  binding_id = some previous.binding_id;
  subject_id = previous.subject_id;
  role_id = previous.role_id;
  scope_kind = previous.scope_kind;
  conversation_id = previous.conversation_id;
  binding_state = some ChatGrantBindingState.revoked;
  created_at = some previous.created_at;
  updated_at = updated_at;
}

unfoldable pub revoke_grant_binding :
    SharedChatLedger → String → String → String → Result (ChatGrantBindingRecord × SharedChatLedger)
revoke_grant_binding l binding_id updated_at scope = elim (get_grant_binding l binding_id scope) [
  | none ↦ err (grant_binding_not_found binding_id)
  | some previous ↦ create_grant_binding l (revocation_of previous scope updated_at)
]
