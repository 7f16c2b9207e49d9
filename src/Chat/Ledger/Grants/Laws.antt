-- ===== src/Chat/Ledger/Grants/Laws.antt =====
-- What `createGrantBinding` of src/chat/core/ledger.ts writes.
use openboa.Prelude.{
  String, ◌≡◌, refl, ap, true, some, List, [], ◌∷◌, ◌++◌, All-map, filter, filter-append, arith,
  truthy, eq_iff, eq_refl,
}
use openboa.Prelude.Sorting.{sort_by, insert_by}
use openboa.Chat.Model.{
  ChatLedgerEvent, conversation_upserted, membership_upserted, grant_binding_upserted,
  cursor_updated, attachment_upserted, message_posted, participant_upserted, reaction_set,
  message_edited, message_redacted, ChatGrantBindingRecord, ChatGrantBindingInput, ok,
}
use openboa.Chat.Ledger.{SharedChatLedger, scope_or_default, list_events, scope_of, sequence_of}
use openboa.Chat.Ledger.Order.{IsOrdered}
use openboa.Chat.Ledger.Latest.{latest_by-one, filter_holds}
use openboa.Chat.Ledger.Messages.Laws.{list_events-append_event}
use openboa.Chat.Ledger.Commands.Cases.{create_grant_binding_cases}
use openboa.Chat.Ledger.Grants.{
  create_grant_binding, get_grant_binding, grant_bindings, list_grant_bindings, in_grant_scope,
  GrantScope, any_grant, ids_taken,
}

pub grant_bindings-append :
    (es fs : List ChatLedgerEvent)
    → grant_bindings (es ++ fs) ≡ grant_bindings es ++ grant_bindings fs
unfolding grant_bindings
grant_bindings-append [] fs = refl
grant_bindings-append (conversation_upserted r ∷ es) fs = grant_bindings-append es fs
grant_bindings-append (membership_upserted r ∷ es) fs = grant_bindings-append es fs
grant_bindings-append (grant_binding_upserted r ∷ es) fs =
    ap (λ t. r ∷ t) (grant_bindings-append es fs)
grant_bindings-append (cursor_updated r ∷ es) fs = grant_bindings-append es fs
grant_bindings-append (attachment_upserted r ∷ es) fs = grant_bindings-append es fs
grant_bindings-append (message_posted r ∷ es) fs = grant_bindings-append es fs
grant_bindings-append (participant_upserted r ∷ es) fs = grant_bindings-append es fs
grant_bindings-append (reaction_set r ∷ es) fs = grant_bindings-append es fs
grant_bindings-append (message_edited r ∷ es) fs = grant_bindings-append es fs
grant_bindings-append (message_redacted r ∷ es) fs = grant_bindings-append es fs

abbrev pub with_id : String → GrantScope
with_id id = record any_grant { binding_id = some id }

pub with_id-binding :
    (id : String) (r : ChatGrantBindingRecord)
    → truthy id ≡ true
    → in_grant_scope (with_id id) r ≡ true
    → r.binding_id ≡ id
with_id-binding id r t h = ground (arith, eq_iff r.binding_id id)

-- A grant that is written is the one that is found under its identifier, in place of any earlier one.
-- The ledger is ordered and the identifier is not the empty text.
pub create_grant_binding-get :
    (l : SharedChatLedger) (i : ChatGrantBindingInput) {r : ChatGrantBindingRecord}
    {l' : SharedChatLedger}
    → IsOrdered l
    → truthy r.binding_id ≡ true
    → create_grant_binding l i ≡ ok (r, l')
    → get_grant_binding l' r.binding_id (scope_or_default l i.scope_id) ≡ some r
unfolding get_grant_binding list_grant_bindings scope_of sequence_of grant_bindings sort_by
    insert_by
create_grant_binding-get l i {r} h t p =
    let scope = scope_or_default l i.scope_id in
    let (e, s, n) = create_grant_binding_cases l i p in
    let old =
      filter (in_grant_scope (with_id r.binding_id)) (grant_bindings (list_events l scope)) in
    rw
      (
        e,
        list_events-append_event scope h (ids_taken i) (grant_binding_upserted r) s n tt,
        grant_bindings-append (list_events l scope) (grant_binding_upserted r ∷ []),
        filter-append (in_grant_scope (with_id r.binding_id)) (grant_bindings (list_events l scope))
            (r ∷ []),
        t,
        eq_refl r.binding_id,
        latest_by-one (λ x. x.binding_id) r.binding_id r old refl
            (All-map _ _ old (λ x k. with_id-binding r.binding_id x t k)
              (filter_holds (in_grant_scope (with_id r.binding_id))
                (grant_bindings (list_events l scope)))),
      )
      refl
