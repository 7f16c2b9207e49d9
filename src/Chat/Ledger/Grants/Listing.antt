-- ===== src/Chat/Ledger/Grants/Listing.antt =====
-- What `listGrantBindings` of src/chat/core/ledger.ts lists after a grant is written.
use openboa.Prelude.{
  ◌≡◌, ap, ◌∙◌, String, true, List, [], ◌∷◌, ◌++◌, All, All-filter, In, filter, filter-append,
}
use openboa.Prelude.JsMap.{JsMap, set, values, In-set, values-set}
use openboa.Prelude.Sorting.{sort_by-All, In-sort_by}
use openboa.Chat.Model.{grant_binding_upserted, ChatGrantBindingRecord, ChatGrantBindingInput, ok}
use openboa.Chat.Ledger.{
  SharedChatLedger, scope_or_default, list_events, scope_of, sequence_of, latest_by, latest_from,
}
use openboa.Chat.Ledger.Order.{IsOrdered}
use openboa.Chat.Ledger.Latest.{filter_holds}
use openboa.Chat.Ledger.Messages.Laws.{list_events-append_event}
use openboa.Chat.Ledger.Commands.Cases.{create_grant_binding_cases}
use openboa.Chat.Ledger.Grants.{
  create_grant_binding, grant_bindings, list_grant_bindings, in_grant_scope, GrantScope, ids_taken,
}
use openboa.Chat.Ledger.Grants.Laws.{grant_bindings-append}

module _ {V : Type 0} where
  module _ (key : V → String) where
    latest_from-In :
        (m : JsMap V) (vs : List V) (v : V) → In v (values (latest_from key m (vs ++ v ∷ [])))
    unfolding latest_from
    latest_from-In m [] v = In-set (key v) v m
    latest_from-In m (w ∷ vs) v = latest_from-In (set (key w) w m) vs v

    latest_from-All :
        (P : V → Type 0) (m : JsMap V) (vs : List V)
        → All P (values m)
        → All P vs
        → All P (values (latest_from key m vs))
    unfolding latest_from
    latest_from-All P m [] h k = h
    latest_from-All P m (v ∷ vs) h k =
        latest_from-All P (set (key v) v m) vs (values-set P (key v) v m k.0 h) k.1

-- What holds of all grants that were written holds of those that are listed.
pub list_grant_bindings-All :
    (P : ChatGrantBindingRecord → Type 0) (l : SharedChatLedger) (scope : String) (w : GrantScope)
    → All P (grant_bindings (list_events l scope))
    → All P (list_grant_bindings l scope w)
unfolding list_grant_bindings latest_by values
list_grant_bindings-All P l scope w h =
    sort_by-All P _ _
      (latest_from-All (λ r. r.binding_id) P [] _ tt (All-filter P (in_grant_scope w) _ h))

-- Those that are listed meet the conditions.
pub list_grant_bindings-holds :
    (l : SharedChatLedger) (scope : String) (w : GrantScope)
    → All (λ r. in_grant_scope w r ≡ true) (list_grant_bindings l scope w)
unfolding list_grant_bindings latest_by values
list_grant_bindings-holds l scope w = sort_by-All _ _ _ (
    latest_from-All (λ r. r.binding_id) _ [] _ tt
      (filter_holds (in_grant_scope w) (grant_bindings (list_events l scope))))

pub grant_bindings-create :
    (l : SharedChatLedger) (i : ChatGrantBindingInput) {r : ChatGrantBindingRecord}
    {l' : SharedChatLedger}
    → IsOrdered l
    → create_grant_binding l i ≡ ok (r, l')
    → grant_bindings (list_events l' (scope_or_default l i.scope_id))
      ≡ grant_bindings (list_events l (scope_or_default l i.scope_id)) ++ r ∷ []
unfolding scope_of sequence_of grant_bindings
grant_bindings-create l i {r} h p =
    let scope = scope_or_default l i.scope_id in
    let (e, s, n) = create_grant_binding_cases l i p in
    ap (λ t. grant_bindings (list_events t scope)) e
    ∙ ap grant_bindings
        (list_events-append_event scope h (ids_taken i) (grant_binding_upserted r) s n tt)
    ∙ grant_bindings-append (list_events l scope) (grant_binding_upserted r ∷ [])

-- A grant that is written is among those that are listed, if it meets the conditions.
pub list_grant_bindings-create :
    (l : SharedChatLedger) (i : ChatGrantBindingInput) (w : GrantScope) {r : ChatGrantBindingRecord}
    {l' : SharedChatLedger}
    → IsOrdered l
    → create_grant_binding l i ≡ ok (r, l')
    → in_grant_scope w r ≡ true
    → In r (list_grant_bindings l' (scope_or_default l i.scope_id) w)
unfolding list_grant_bindings latest_by
list_grant_bindings-create l i w {r} h p t =
    rw
      (
        grant_bindings-create l i h p,
        filter-append (in_grant_scope w)
            (grant_bindings (list_events l (scope_or_default l i.scope_id))) (r ∷ []),
        t,
      )
      (In-sort_by _ r _ (
        latest_from-In (λ r. r.binding_id) []
          (filter (in_grant_scope w)
            (grant_bindings (list_events l (scope_or_default l i.scope_id))))
          r))
