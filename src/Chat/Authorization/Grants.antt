-- ===== src/Chat/Authorization/Grants.antt =====
-- What grants do to decisions: more grants never take a permission away, and grants that are revoked
-- or belong to another room do nothing.
use openboa.Prelude.{
  String, ◌≡◌, refl, sym, ◌∙◌, Bool, true, false, ◌&&◌, ◌||◌, none, some, List, [], ◌∷◌, filter,
  any, arith, In, Included, In-of_any, any_of_In, Bool-cases, inl, inr, ◌↔◌,
}
use openboa.Chat.Model.{
  ChatGrantBindingRecord, ChatRoleId, role_eq, conversation, chat, scope_kind_eq,
}
use openboa.Chat.Authorization.{
  ChatActionId, chat_grant_manage, room_read, room_join, message_create, role_allows,
  is_active_binding, in_resolution_scope, ChatGrantResolutionScope, resolve_scoped_role_ids,
  resolve_conversation_role_ids, resolve_chat_role_ids, ConversationPermissionInput, is_archived,
  evaluate_conversation_action, evaluate_chat_action,
}
use openboa.Chat.Authorization.Access.{
  holds, permits, needs_open_room, evaluate_conversation_action-eq-permits,
  any-resolve_scoped_role_ids,
}

holds_mono :
    (p : ChatRoleId → Bool) (scope : ChatGrantResolutionScope) (bs cs : List ChatGrantBindingRecord)
    → Included bs cs
    → holds p scope bs ≡ true
    → holds p scope cs ≡ true
holds_mono p scope bs cs sub h = let (b, m, e) = In-of_any _ bs h in any_of_In _ b cs (sub b m) e

module _ (input : ConversationPermissionInput) (more : List ChatGrantBindingRecord)
    (sub : Included input.bindings more) where
  abbrev enlarged : ChatActionId → ConversationPermissionInput
  enlarged action = record input { bindings = more; action = action }

  abbrev given : ChatActionId → ConversationPermissionInput
  given action = record input { action = action }

  abbrev room_scope : ChatGrantResolutionScope
  room_scope = record {
    scope_kind = conversation;
    conversation_id = some input.room.conversation_id;
  }

  mono :
      (p : ChatRoleId → Bool)
      → holds p room_scope input.bindings ≡ true
      → holds p room_scope more ≡ true
  mono p = holds_mono p room_scope input.bindings more sub

  permits_mono :
      (action : ChatActionId) → permits (given action) ≡ true → permits (enlarged action) ≡ true
  permits_mono room_read h = ground (arith, mono (λ r. true))
  permits_mono message_create h = ground (
    arith,
    mono (λ r. role_allows r message_create),
    mono (λ r. role_eq ChatRoleId.room_manager r || role_eq ChatRoleId.chat_admin r),
  )
  permits_mono action h = ground (arith, mono (λ r. role_allows r action))

-- A decision to allow survives any larger set of grants: granting takes no permission away.
pub evaluate_conversation_action_mono :
    (input : ConversationPermissionInput) (more : List ChatGrantBindingRecord)
    → Included input.bindings more
    → (evaluate_conversation_action input).allowed ≡ true
    → (evaluate_conversation_action (record input { bindings = more })).allowed ≡ true
evaluate_conversation_action_mono input more sub h =
    evaluate_conversation_action-eq-permits (record input { bindings = more })
    ∙ permits_mono input more sub input.action
        (sym (evaluate_conversation_action-eq-permits input) ∙ h)

-- A grant that is active and reaches the room.
abbrev pub is_relevant : String → ChatGrantBindingRecord → Bool
is_relevant conversation_id b =
    is_active_binding b
    && in_resolution_scope
        (record { scope_kind = conversation; conversation_id = some conversation_id }) b

filter_relevant :
    (scope : ChatGrantResolutionScope) (bs : List ChatGrantBindingRecord)
    → filter (in_resolution_scope scope) (
        filter is_active_binding
          (filter (λ b. is_active_binding b && in_resolution_scope scope b) bs))
      ≡ filter (in_resolution_scope scope) (filter is_active_binding bs)
filter_relevant scope [] = refl
filter_relevant scope (b ∷ bs) = elim (Bool-cases (is_active_binding b)) [
  | inl a ↦ elim (Bool-cases (in_resolution_scope scope b)) [
    | inl i ↦ rw (a, i, a, i, filter_relevant scope bs)
    | inr i ↦ rw (a, i, filter_relevant scope bs)
  ]
  | inr a ↦ rw (a, filter_relevant scope bs)
]

-- Revoked grants and grants for other rooms are inert: without them the decision, its reason and the
-- resolved roles are the same.
pub evaluate_conversation_action-relevant :
    (input : ConversationPermissionInput)
    → evaluate_conversation_action
        (record input { bindings = filter (is_relevant input.room.conversation_id) input.bindings })
      ≡ evaluate_conversation_action input
unfolding evaluate_conversation_action resolve_conversation_role_ids resolve_scoped_role_ids
evaluate_conversation_action-relevant input = rw (
    filter_relevant
      (record { scope_kind = conversation; conversation_id = some input.room.conversation_id })
      input.bindings)

permits-archived :
    (input : ConversationPermissionInput) (action : ChatActionId)
    → is_archived input.room.lifecycle_state ≡ true
    → needs_open_room action ≡ true
    → permits (record input { action = action }) ≡ false
permits-archived input room_join h n = ground arith
permits-archived input _ h n = ground arith

-- In an archived room the decision denies joining, posting, editing, redacting, reacting and
-- mass-mentioning, whatever the grants.
pub evaluate_conversation_action-archived :
    (input : ConversationPermissionInput)
    → is_archived input.room.lifecycle_state ≡ true
    → needs_open_room input.action ≡ true
    → (evaluate_conversation_action input).allowed ≡ false
evaluate_conversation_action-archived input h n =
    evaluate_conversation_action-eq-permits input ∙ permits-archived input input.action h n

only_admin : (r : ChatRoleId) → role_allows r chat_grant_manage ≡ role_eq r ChatRoleId.chat_admin
unfolding role_allows
only_admin ChatRoleId.viewer = refl
only_admin _ = refl

-- Managing grants of the whole chat takes an active `chat_admin` grant of chat scope, and that is
-- enough.
pub evaluate_chat_action_iff :
    (bindings : List ChatGrantBindingRecord)
    → ((evaluate_chat_action bindings).allowed ≡ true) ↔ (
        (b : ChatGrantBindingRecord) × In b bindings
        × ((is_active_binding b
              && scope_kind_eq b.scope_kind chat
              && role_eq b.role_id ChatRoleId.chat_admin)
            ≡ true))
unfolding evaluate_chat_action
evaluate_chat_action_iff bindings = (
  (λ h.
      let (b, m, e) = In-of_any _ bindings (sym allows ∙ granted h) in
      (b, m, ground (arith, only_admin b.role_id))),
  (λ (b, m, e).
      ground (arith, allows ∙ any_of_In _ b bindings m (ground (arith, only_admin b.role_id)))),
)
  where
    allows :
        any (λ r. role_allows r chat_grant_manage) (resolve_chat_role_ids bindings)
        ≡ holds
            (λ r. role_allows r chat_grant_manage)
            (record { scope_kind = chat; conversation_id = none })
            bindings
    allows = any-resolve_scoped_role_ids _ _ bindings

    granted :
        (evaluate_chat_action bindings).allowed ≡ true
        → any (λ r. role_allows r chat_grant_manage) (resolve_chat_role_ids bindings) ≡ true
    granted h = ground arith
