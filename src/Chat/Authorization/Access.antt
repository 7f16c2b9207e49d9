-- ===== src/Chat/Authorization/Access.antt =====
-- The permissions of a room as a table, and the decisions of the code against it.
use openboa.Prelude.{
  ◌≡◌, refl, ap, ◌∙◌, Bool, true, false, not, ◌&&◌, ◌||◌, some, List, [], ◌∷◌, map, filter, any,
  arith, ltb, length, any-dedupe_by, Bool-cases, inl, inr,
}
use openboa.Chat.Model.{ChatGrantBindingRecord, ChatRoleId, role_eq, conversation}
use openboa.Chat.Authorization.{
  ChatActionId, room_read, room_join, room_leave, message_create, message_edit, message_redact,
  message_react, message_mass_mention, role_allows, is_active_binding, in_resolution_scope,
  ChatGrantResolutionScope, resolve_scoped_role_ids, resolve_conversation_role_ids,
  ConversationPermissionInput, is_public_room, is_archived, is_restricted, has_joined, verdict,
  evaluate_conversation_action,
}

-- An active grant that reaches the scope and whose role passes the test.
abbrev pub holds :
    (ChatRoleId → Bool) → ChatGrantResolutionScope → List ChatGrantBindingRecord → Bool
holds p scope = any (λ b. is_active_binding b && in_resolution_scope scope b && p b.role_id)

abbrev pub needs_membership : ChatActionId → Bool
needs_membership room_leave = true
needs_membership message_create = true
needs_membership message_edit = true
needs_membership message_redact = true
needs_membership message_react = true
needs_membership message_mass_mention = true
needs_membership _ = false

-- The actions that an archived room refuses.
abbrev pub needs_open_room : ChatActionId → Bool
needs_open_room room_join = true
needs_open_room message_create = true
needs_open_room message_edit = true
needs_open_room message_redact = true
needs_open_room message_react = true
needs_open_room message_mass_mention = true
needs_open_room _ = false

abbrev pub is_manager : ChatRoleId → Bool
is_manager r = role_eq ChatRoleId.room_manager r || role_eq ChatRoleId.chat_admin r

abbrev implies : Bool → Bool → Bool
implies a b = not a || b

-- The roles that open an action, for a member of the public or by grant.
abbrev grants_access : ChatActionId → Bool → (ChatRoleId → Bool) × Bool
grants_access room_read open_to_all = ((λ r. true), open_to_all)
grants_access room_join open_to_all = ((λ r. role_allows r room_join), open_to_all)
grants_access action open_to_all = ((λ r. role_allows r action), false)

abbrev is_posting : ChatActionId → Bool
is_posting message_create = true
is_posting _ = false

-- The access table: a role (or a public room, for reading and joining), membership where the action
-- needs it, an open room where it needs one, and a manager to post where posting is restricted.
abbrev permits_action : ConversationPermissionInput → ChatActionId → Bool
permits_action input action =
    let scope : ChatGrantResolutionScope = record {
      scope_kind = conversation;
      conversation_id = some input.room.conversation_id;
    } in
    let access : (ChatRoleId → Bool) × Bool =
      grants_access action (is_public_room input.room.visibility) in
    (access.1 || holds access.0 scope input.bindings)
    && implies (needs_membership action) (has_joined input.membership)
    && implies (needs_open_room action) (not (is_archived input.room.lifecycle_state))
    && implies (is_posting action && is_restricted input.room.posting_policy)
        (holds is_manager scope input.bindings)

abbrev pub permits : ConversationPermissionInput → Bool
permits input = permits_action input input.action

role_eq_sound : (r s : ChatRoleId) → role_eq r s ≡ true → r ≡ s
role_eq_sound ChatRoleId.viewer s h = ground arith
role_eq_sound _ s h = ground arith

any-roles :
    (p : ChatRoleId → Bool) (scope : ChatGrantResolutionScope) (bs : List ChatGrantBindingRecord)
    → any p
        (map (λ b. b.role_id) (filter (in_resolution_scope scope) (filter is_active_binding bs)))
      ≡ holds p scope bs
any-roles p scope [] = refl
any-roles p scope (b ∷ bs) = elim (Bool-cases (is_active_binding b)) [
  | inl a ↦ elim (Bool-cases (in_resolution_scope scope b)) [
    | inl i ↦ rw (a, i, any-roles p scope bs)
    | inr i ↦ rw (a, i, any-roles p scope bs)
  ]
  | inr a ↦ rw (a, any-roles p scope bs)
]

-- Some resolved role passes a test exactly if an active grant in scope does.
pub any-resolve_scoped_role_ids :
    (p : ChatRoleId → Bool) (scope : ChatGrantResolutionScope) (bs : List ChatGrantBindingRecord)
    → any p (resolve_scoped_role_ids bs scope) ≡ holds p scope bs
unfolding resolve_scoped_role_ids
any-resolve_scoped_role_ids p scope bs =
    any-dedupe_by role_eq p (λ r s h. ap p (role_eq_sound r s h)) _ ∙ any-roles p scope bs

any-of_length {ℓ} : {A : Type ℓ} (xs : List A) → ltb 0 (length xs) ≡ any (λ _. true) xs
any-of_length [] = refl
any-of_length (x ∷ xs) = ground arith

pub any-or {ℓ} :
    {A : Type ℓ} (p q : A → Bool) (xs : List A) → (any p xs || any q xs) ≡ any (λ x. p x || q x) xs
any-or p q [] = refl
any-or p q (x ∷ xs) = ground (arith, any-or p q xs)

module _ (input : ConversationPermissionInput) (roles : List ChatRoleId) where
  abbrev held : (ChatRoleId → Bool) → Bool
  held p =
      holds p
        (record { scope_kind = conversation; conversation_id = some input.room.conversation_id })
        input.bindings

  verdict-eq-permits :
      (action : ChatActionId)
      → ((p : ChatRoleId → Bool) → any p roles ≡ held p)
      → (verdict input roles action).0 ≡ permits_action input action
  unfolding verdict
  verdict-eq-permits room_read h = ground (arith, any-of_length roles, h (λ _. true))
  verdict-eq-permits room_join h = ground (arith, h (λ r. role_allows r room_join))
  verdict-eq-permits action h = ground (
    arith,
    h (λ r. role_allows r action),
    h is_manager,
    any-or (role_eq ChatRoleId.room_manager) (role_eq ChatRoleId.chat_admin) roles,
  )

-- The code allows an action exactly if the access table does, whatever the room, the grants, the
-- membership and the action.
pub evaluate_conversation_action-eq-permits :
    (input : ConversationPermissionInput)
    → (evaluate_conversation_action input).allowed ≡ permits input
unfolding evaluate_conversation_action resolve_conversation_role_ids
evaluate_conversation_action-eq-permits input =
    verdict-eq-permits input _ input.action (λ p. any-resolve_scoped_role_ids p _ input.bindings)
