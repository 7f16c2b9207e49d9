-- ===== src/Chat/Ledger/Grants/Identity.antt =====
-- What `createGrantBinding` and `revokeGrantBinding` of src/chat/core/ledger.ts leave of the bindings.
use openboa.Prelude.{
  String, ◌≡◌, refl, sym, ap, ◌∙◌, subst, true, false, Option, none, some, List, [], ◌∷◌, All,
  head?, filter, filter-append, append-nil, arith, opt_eq, opt_eq-path, truthy, ◌==◌, eq_iff,
  eq_refl, or_default, Bool-cases, inl, inr,
}
use mathlib.Core.Option.{some-injective}
use openboa.Chat.Model.{
  grant_binding_upserted, ChatGrantBindingRecord, ChatGrantBindingInput, ChatGrantBindingState, ok,
}
use openboa.Chat.Ledger.{
  SharedChatLedger, scope_or_default, list_events, scope_of, sequence_of, append_event, make_id,
}
use openboa.Chat.Ledger.Order.{IsOrdered}
use openboa.Chat.Ledger.Messages.Laws.{list_events-append_event}
use openboa.Chat.Ledger.Commands.Cases.{create_grant_binding_cases}
use openboa.Chat.Ledger.Grants.{
  create_grant_binding, revoke_grant_binding, revocation_of, get_grant_binding, previous_grant,
  new_grant_binding, grant_bindings, list_grant_bindings, in_grant_scope, ids_taken,
}
use openboa.Chat.Ledger.Grants.Laws.{
  create_grant_binding-get, grant_bindings-append, with_id, with_id-binding,
}
use openboa.Chat.Ledger.Grants.Listing.{list_grant_bindings-holds}

-- What a grant leaves of another binding.
get_grant_binding-other :
    (l : SharedChatLedger) (i : ChatGrantBindingInput) (id : String) {r : ChatGrantBindingRecord}
    {l' : SharedChatLedger}
    → IsOrdered l
    → truthy id ≡ true
    → (r.binding_id == id) ≡ false
    → create_grant_binding l i ≡ ok (r, l')
    → get_grant_binding l' id (scope_or_default l i.scope_id)
      ≡ get_grant_binding l id (scope_or_default l i.scope_id)
unfolding get_grant_binding list_grant_bindings scope_of sequence_of grant_bindings append_event
get_grant_binding-other l i id {r} h t n p =
    let scope = scope_or_default l i.scope_id in
    let (e, s, k) = create_grant_binding_cases l i p in
    rw
      (
        e,
        list_events-append_event scope h (ids_taken i) (grant_binding_upserted r) s k tt,
        grant_bindings-append (list_events l scope) (grant_binding_upserted r ∷ []),
        filter-append (in_grant_scope (with_id id)) (grant_bindings (list_events l scope)) (r ∷ []),
        t,
        n,
        append-nil (filter (in_grant_scope (with_id id)) (grant_bindings (list_events l scope))),
      )
      refl

head-All :
    (P : ChatGrantBindingRecord → Type 0) (xs : List ChatGrantBindingRecord)
    (p : ChatGrantBindingRecord)
    → All P xs
    → head? xs ≡ some p
    → P p
head-All P [] p h e = cc
head-All P (x ∷ xs) p h e = subst P (some-injective x p e) h.0

-- A binding that is found stands under the identifier.
get_grant_binding-named :
    (l : SharedChatLedger) (id scope : String) {p : ChatGrantBindingRecord}
    → truthy id ≡ true
    → get_grant_binding l id scope ≡ some p
    → p.binding_id ≡ id
unfolding get_grant_binding
get_grant_binding-named l id scope {p} t h = with_id-binding id p t (
    head-All (λ r. in_grant_scope (with_id id) r ≡ true) _ p
      (list_grant_bindings-holds l scope (with_id id)) h)

-- The same grant, in whatever state.
abbrev pub SameGrant : ChatGrantBindingRecord → ChatGrantBindingRecord → Type 0
SameGrant p q =
    (q.binding_id ≡ p.binding_id)
    × (q.subject_id ≡ p.subject_id)
    × (q.role_id ≡ p.role_id)
    × (q.scope_kind ≡ p.scope_kind)
    × (q.conversation_id ≡ p.conversation_id)

-- A grant under the identifier of another one has passed the check of the identity.
replaced-same :
    (l : SharedChatLedger) (i : ChatGrantBindingInput) {r p : ChatGrantBindingRecord}
    {l' : SharedChatLedger}
    → create_grant_binding l i ≡ ok (r, l')
    → previous_grant l (scope_or_default l i.scope_id) i.binding_id ≡ some p
    → (r.subject_id ≡ p.subject_id)
      × (r.role_id ≡ p.role_id)
      × (r.scope_kind ≡ p.scope_kind)
      × (opt_eq p.conversation_id r.conversation_id ≡ true)
unfolding create_grant_binding new_grant_binding
replaced-same l i {r} {p} h q = ground (arith, eq_iff p.subject_id i.subject_id)

replaced-SameGrant :
    (l : SharedChatLedger) (i : ChatGrantBindingInput) {r p : ChatGrantBindingRecord}
    {l' : SharedChatLedger}
    → create_grant_binding l i ≡ ok (r, l')
    → previous_grant l (scope_or_default l i.scope_id) i.binding_id ≡ some p
    → r.binding_id ≡ p.binding_id
    → SameGrant p r
replaced-SameGrant l i h q e =
    let (subject, role, kind, room) = replaced-same l i h q in
    (e, subject, role, kind, sym (opt_eq-path _ _ room))

-- The identifier of a grant that is written.
written-id :
    (l : SharedChatLedger) (i : ChatGrantBindingInput) {r : ChatGrantBindingRecord}
    {l' : SharedChatLedger}
    → create_grant_binding l i ≡ ok (r, l')
    → r.binding_id ≡ or_default i.binding_id (make_id l "grant" 1)
unfolding create_grant_binding new_grant_binding
written-id l i h = ground arith

previous_grant-written :
    (l : SharedChatLedger) (scope id : String) (o : Option String) {p : ChatGrantBindingRecord}
    → truthy id ≡ true
    → (make_id l "grant" 1 == id) ≡ false
    → get_grant_binding l id scope ≡ some p
    → or_default o (make_id l "grant" 1) ≡ id
    → previous_grant l scope o ≡ some p
previous_grant-written l scope id none t new found e =
    let same : (make_id l "grant" 1 == id) ≡ true = ap (λ x. x == id) e ∙ eq_refl id in cc
previous_grant-written l scope id (some j) t new found e = rw (e, t) found

-- Whatever grant is written, the binding that stands under an identifier stays the grant of the same role
-- to the same subject, in the whole chat or in the same conversation. The ledger is ordered, the identifier
-- is not the empty text, and the one that the host gives next is another.
pub create_grant_binding-SameGrant :
    (l : SharedChatLedger) (i : ChatGrantBindingInput) (id : String) {r p : ChatGrantBindingRecord}
    {l' : SharedChatLedger}
    → IsOrdered l
    → truthy id ≡ true
    → (make_id l "grant" 1 == id) ≡ false
    → get_grant_binding l id (scope_or_default l i.scope_id) ≡ some p
    → create_grant_binding l i ≡ ok (r, l')
    → (q : ChatGrantBindingRecord) × (get_grant_binding l' id (scope_or_default l i.scope_id)
        ≡ some q)
      × SameGrant p q
create_grant_binding-SameGrant l i id {r} {p} {l'} h t new found w =
    let scope = scope_or_default l i.scope_id in
    elim (Bool-cases (r.binding_id == id)) [
      | inr n ↦ (p, get_grant_binding-other l i id h t n w ∙ found, (refl, refl, refl, refl, refl))
      | inl e ↦
          let same = (eq_iff r.binding_id id).0 e in
          let previous =
            previous_grant-written l scope id i.binding_id t new found
              (sym (written-id l i w) ∙ same) in
          (
            r,
            subst (λ x. get_grant_binding l' x scope ≡ some r) same
                (create_grant_binding-get l i h (ap truthy same ∙ t) w),
            replaced-SameGrant l i w previous
                (same ∙ sym (get_grant_binding-named l id scope t found)),
          )
    ]

revocation :
    (l : SharedChatLedger) (id at scope : String) {r : ChatGrantBindingRecord}
    {l' : SharedChatLedger}
    → revoke_grant_binding l id at scope ≡ ok (r, l')
    → (p : ChatGrantBindingRecord) × (get_grant_binding l id scope ≡ some p)
      × (create_grant_binding l (revocation_of p scope at) ≡ ok (r, l'))
unfolding revoke_grant_binding
revocation l id at scope h = ground arith

-- A revocation that succeeds finds the binding, and afterwards the same grant is found, revoked, under the
-- identifier, while what any other identifier finds is as it was. The ledger is ordered and the identifiers
-- are not the empty text.
pub revoke_grant_binding-revokes :
    (l : SharedChatLedger) (id at scope other : String) {r : ChatGrantBindingRecord}
    {l' : SharedChatLedger}
    → IsOrdered l
    → truthy id ≡ true
    → truthy other ≡ true
    → (id == other) ≡ false
    → revoke_grant_binding l id at scope ≡ ok (r, l')
    → (p : ChatGrantBindingRecord) × (get_grant_binding l id scope ≡ some p)
      × (get_grant_binding l' id scope ≡ some r)
      × (r.binding_state ≡ ChatGrantBindingState.revoked)
      × SameGrant p r
      × (get_grant_binding l' other scope ≡ get_grant_binding l other scope)
unfolding create_grant_binding new_grant_binding
revoke_grant_binding-revokes l id at scope other {r} {l'} h t t' n w =
    let (p, found, written) = revocation l id at scope w in
    let i = revocation_of p scope at in
    let named = get_grant_binding-named l id scope t found in
    let own : r.binding_id ≡ id = written-id l i written ∙ named in
    let previous : previous_grant l scope (some p.binding_id) ≡ some p = rw (named, t) found in
    let revoked : r.binding_state ≡ ChatGrantBindingState.revoked = ground arith in
    (
      p,
      found,
      subst (λ x. get_grant_binding l' x scope ≡ some r) own
          (create_grant_binding-get l i h (ap truthy own ∙ t) written),
      revoked,
      replaced-SameGrant l i written previous (own ∙ sym named),
      get_grant_binding-other l i other h t' (ap (λ x. x == other) own ∙ n) written,
    )
