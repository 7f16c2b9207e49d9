-- ===== src/Chat/CommandService/Refusal/Authorized.antt =====
-- No write without permission, by the access table.
use openboa.Prelude.{
  ◌≡◌, refl, ap, sym, ◌∙◌, String, Bool, true, false, none, some, ◌⊎◌, inl, inr, List, In, ◌&&◌,
  Option-cases, if◌then◌else◌,
}
use openboa.Chat.Model.{
  ChatConversationRecord, ChatGrantBindingRecord, ChatError, ChatRoleId, ChatGrantScopeKind, chat,
  scope_kind_eq, role_eq, room_missing,
}
use openboa.Chat.Authorization.{is_active_binding}
use openboa.Chat.Authorization.Access.{permits, evaluate_conversation_action-eq-permits}
use openboa.Chat.Authorization.Grants.{evaluate_chat_action_iff}
use openboa.Chat.Ledger.{SharedChatLedger}
use openboa.Chat.Ledger.Conversations.{get_conversation_by_id}
use openboa.Chat.Ledger.Grants.{list_grant_bindings, any_grant}
use openboa.Chat.CommandService.Action.{Env}
use openboa.Chat.CommandService.Permission.{
  permission_input, evaluate_conversation_permission, evaluate_chat_permission,
}
use openboa.Chat.CommandService.Run.{ServiceCommand, perform}
use openboa.Chat.CommandService.Refusal.{Requirement, free, in_room, in_chat, requirement, unmet}
use openboa.Chat.CommandService.Refusal.Stops.{perform-refused}

abbrev pub chat_bindings_of : SharedChatLedger → String → List ChatGrantBindingRecord
chat_bindings_of l actor =
    list_grant_bindings l l.default_scope
      (record any_grant { subject_id = some actor; scope_kind = some ChatGrantScopeKind.chat })

-- The room is there and the access table permits the action to the actor; or the actor has an active
-- `chat_admin` grant of chat scope.
abbrev pub IsPermitted : SharedChatLedger → Requirement → Type 0
IsPermitted l free = Unit {0}
IsPermitted l (in_room actor id action) =
    (room : ChatConversationRecord) × (get_conversation_by_id l id l.default_scope ≡ some room)
    × (permits (permission_input l actor room action) ≡ true)
IsPermitted l (in_chat actor) =
    (b : ChatGrantBindingRecord) × In b (chat_bindings_of l actor)
    × ((is_active_binding b
          && scope_kind_eq b.scope_kind chat
          && role_eq b.role_id ChatRoleId.chat_admin)
        ≡ true)

allowed-of_none : (b : Bool) (e : ChatError) → (if b then none else some e) ≡ none → b ≡ true
allowed-of_none true e h = refl
allowed-of_none false e h = cc

unmet-IsPermitted : (l : SharedChatLedger) (r : Requirement) → unmet l r ≡ none → IsPermitted l r
unfolding evaluate_conversation_permission evaluate_chat_permission
unmet-IsPermitted l free h = tt
unmet-IsPermitted l (in_room actor id action) h =
    elim (Option-cases (get_conversation_by_id l id l.default_scope)) [
      | inl p ↦ absurd (missing (rw p at h))
      | inr (room, p) ↦ (
        room,
        p,
        sym (evaluate_conversation_action-eq-permits (permission_input l actor room action))
            ∙ allowed-of_none _ _ (rw p at h),
      )
    ]
  where
    missing : some (room_missing id) ≡ none → ⊥
    missing q = cc
unmet-IsPermitted l (in_chat actor) h =
    (evaluate_chat_action_iff (chat_bindings_of l actor)).0 (allowed-of_none _ _ h)

-- A method that changes the ledger was permitted: the room that it names is there and the access table
-- gives its action to the one who acts, or, for a grant of the chat, the one who acts has an active
-- `chat_admin` grant. The theorem says nothing of what asks for no permission: registering, creating rooms,
-- the first admin, the revocation inside a room, a grant or a revocation with no granter or with an empty
-- one; nor of the revocation of a binding that is missing and of a mass mention in a thread.
pub perform-authorized :
    (env : Env) (l : SharedChatLedger) (c : ServiceCommand)
    → ((perform c env l).1 ≡ l) ⊎ IsPermitted l (requirement l c)
perform-authorized env l c = elim (Option-cases (unmet l (requirement l c))) [
  | inl p ↦ inr (unmet-IsPermitted l (requirement l c) p)
  | inr (e, p) ↦ inl (ap (λ r. r.1) (perform-refused env l e c p))
]
