-- ===== src/Chat/CommandService/Bootstrap.antt =====
-- `bootstrapChatAdmin` of src/chat/policy/command-service.ts: the first admin of a chat.
use openboa.Prelude.{
  ◌≡◌, refl, sym, ap, ◌∙◌, subst, String, Bool, true, false, Option, none, some, List, [], ◌∷◌, All,
  All-map, All-append, All-filter, All-both, In, In-filter, filter, find, ◌==◌, eq_refl, arith,
}
use openboa.Chat.Model.{
  ChatGrantBindingRecord, ChatGrantBindingInput, ChatRoleId, chat, role_eq, admin_bootstrapped, ok,
  err,
}
use openboa.Chat.Authorization.Grants.{evaluate_chat_action_iff}
use openboa.Chat.Ledger.{SharedChatLedger, list_events, append_event, scope_or_default}
use openboa.Chat.Ledger.Latest.{filter_holds}
use openboa.Chat.Ledger.Order.{IsOrdered}
use openboa.Chat.Ledger.Grants.{
  grant_bindings, list_grant_bindings, create_grant_binding, new_grant_binding, in_grant_scope,
  any_grant, GrantScope,
}
use openboa.Chat.Ledger.Grants.Listing.{
  list_grant_bindings-All, list_grant_bindings-create, grant_bindings-create,
}
use openboa.Chat.CommandService.Action.{
  Env, resolve_chat_actor_id, actor_or_default, now_iso_string, gets, pure, raise, calls, ◌>>=◌,
  ledger_create_grant_binding,
}
use openboa.Chat.CommandService.Permission.{evaluate_chat_permission}
use openboa.Chat.CommandService.Grants.{
  GrantRequest, existing_grant, is_requested, create_unless, ensure_grant_binding_with_status,
  ensure_grant_binding, ensure_chat_role, is_active_admin, active_admins, admin_unless,
  bootstrap_chat_admin,
}

-- The grants of `chat_admin` that the ledger holds are all the subject's.
abbrev OnlyAdmin : String → ChatGrantBindingRecord → Type 0
OnlyAdmin subject b = role_eq b.role_id ChatRoleId.chat_admin ≡ true → b.subject_id ≡ subject

-- No grant of `chat_admin` was ever written in the ledger's scope.
abbrev pub NoAdminYet : SharedChatLedger → Type 0
NoAdminYet l =
    All (λ b. role_eq b.role_id ChatRoleId.chat_admin ≡ false)
      (grant_bindings (list_events l l.default_scope))

-- An admin grant of the whole chat for the subject, as `ensureGrantBinding` asks for it.
abbrev admin_request : String → String → GrantRequest
admin_request subject at = record {
  subject_id = subject;
  role_id = ChatRoleId.chat_admin;
  scope_kind = chat;
  conversation_id = none;
  updated_at = at;
}

abbrev admin_input : SharedChatLedger → String → String → ChatGrantBindingInput
admin_input l subject at = record {
  scope_id = some l.default_scope;
  binding_id = none;
  subject_id = subject;
  role_id = ChatRoleId.chat_admin;
  scope_kind = chat;
  conversation_id = none;
  binding_state = none;
  created_at = none;
  updated_at = at;
}

find-none : {A : Type 0} (p : A → Bool) (xs : List A) → All (λ x. p x ≡ false) xs → find p xs ≡ none
find-none p [] h = refl
find-none p (x ∷ xs) h = rw h.0 (find-none p xs h.1)

filter-none :
    {A : Type 0} (p : A → Bool) (xs : List A) → All (λ x. p x ≡ false) xs → filter p xs ≡ []
filter-none p [] h = refl
filter-none p (x ∷ xs) h = rw h.0 (filter-none p xs h.1)

active_admins-none : (l : SharedChatLedger) → NoAdminYet l → active_admins l ≡ []
unfolding active_admins
active_admins-none l h = filter-none is_active_admin _ (
    list_grant_bindings-All (λ b. is_active_admin b ≡ false) l l.default_scope _
      (All-map _ _ _ (λ b n. ground (arith, n)) h))

existing_grant-none :
    (l : SharedChatLedger) (subject at : String)
    → NoAdminYet l
    → existing_grant l (admin_request subject at) ≡ none
unfolding existing_grant
existing_grant-none l subject at h = find-none (is_requested (admin_request subject at)) _ (
    list_grant_bindings-All (λ b. is_requested (admin_request subject at) b ≡ false) l
      l.default_scope _ (All-map _ _ _ (λ b n. ground (arith, n)) h))

-- What the first bootstrap runs: one grant.
bootstrap-writes :
    (env : Env) (l : SharedChatLedger) (subject : Option String)
    → NoAdminYet l
    → (b : ChatGrantBindingRecord) × (l' : SharedChatLedger) × (create_grant_binding l
          (admin_input l (resolve_chat_actor_id env subject) (env.clock l))
        ≡ ok (b, l'))
      × (bootstrap_chat_admin subject env l ≡ (ok b, l'))
      × (b.subject_id ≡ resolve_chat_actor_id env subject)
      × (is_active_admin b ≡ true)
      × (b.scope_kind ≡ chat)
      × (l'.default_scope ≡ l.default_scope)
unfolding bootstrap_chat_admin actor_or_default gets ◌>>=◌ ensure_chat_role now_iso_string
    ensure_grant_binding ensure_grant_binding_with_status create_unless ledger_create_grant_binding
    calls pure create_grant_binding new_grant_binding append_event
bootstrap-writes env l subject h = (
  _,
  _,
  refl,
  rw
      (
        active_admins-none l h,
        existing_grant-none l (resolve_chat_actor_id env subject) (env.clock l) h,
      )
      refl,
  refl,
  refl,
  refl,
  refl,
)

admin_role :
    (x : ChatGrantBindingRecord)
    → is_active_admin x ≡ true
    → role_eq x.role_id ChatRoleId.chat_admin ≡ true
admin_role x h = ground arith

-- The admin of a chat that has one refuses to be followed by another.
bootstrap-refused :
    (env : Env) (l : SharedChatLedger) (first : String) (other : Option String)
    (b : ChatGrantBindingRecord)
    → In b (active_admins l)
    → All (λ x. x.subject_id ≡ first) (active_admins l)
    → (first == resolve_chat_actor_id env other) ≡ false
    → bootstrap_chat_admin other env l ≡ (err admin_bootstrapped, l)
unfolding bootstrap_chat_admin actor_or_default gets ◌>>=◌ raise
bootstrap-refused env l first other b m h differs =
    rw
      (find-none (λ x. x.subject_id == resolve_chat_actor_id env other) (active_admins l)
        (All-map _ _ _ (λ x e. ap (λ t. t == resolve_chat_actor_id env other) e ∙ differs) h))
      (refuse (active_admins l) m)
  where
    refuse :
        (admins : List ChatGrantBindingRecord)
        → In b admins
        → admin_unless (resolve_chat_actor_id env other) admins none env l
          ≡ (err admin_bootstrapped, l)
    refuse [] k = absurd k
    refuse (x ∷ xs) k = refl

module _ (l : SharedChatLedger) (i : ChatGrantBindingInput) (subject : String)
    {b : ChatGrantBindingRecord} {l' : SharedChatLedger} (h : IsOrdered l) (none_yet : NoAdminYet l)
    (p : create_grant_binding l i ≡ ok (b, l')) (here : i.scope_id ≡ some l.default_scope)
    (own : b.subject_id ≡ subject) (admin : is_active_admin b ≡ true) (kind : b.scope_kind ≡ chat)
    (kept_scope : l'.default_scope ≡ l.default_scope) where
  written_here : scope_or_default l i.scope_id ≡ l'.default_scope
  written_here = ap (scope_or_default l) here ∙ sym kept_scope

  list_grant_bindings-written :
      (w : GrantScope)
      → in_grant_scope w b ≡ true
      → In b (list_grant_bindings l' l'.default_scope w)
  list_grant_bindings-written w t =
      subst (λ s. In b (list_grant_bindings l' s w)) written_here
        (list_grant_bindings-create l i w h p t)

  grant_bindings-OnlyAdmin :
      All (OnlyAdmin subject) (grant_bindings (list_events l' l'.default_scope))
  grant_bindings-OnlyAdmin =
      subst (λ s. All (OnlyAdmin subject) (grant_bindings (list_events l' s))) written_here
        (subst (All (OnlyAdmin subject)) (sym (grant_bindings-create l i h p)) (
          All-append (OnlyAdmin subject) _ _
            (subst (λ s. All (OnlyAdmin subject) (grant_bindings (list_events l s)))
              (sym (ap (scope_or_default l) here))
              (All-map _ _ _ (λ x n a. absurd (clash x n a)) none_yet))
            ((λ a. own), tt)))
    where
      clash :
          (x : ChatGrantBindingRecord)
          → role_eq x.role_id ChatRoleId.chat_admin ≡ false
          → role_eq x.role_id ChatRoleId.chat_admin ≡ true
          → ⊥
      clash x n a = cc

  active_admins-own : All (λ x. x.subject_id ≡ subject) (active_admins l')
  unfolding active_admins
  active_admins-own =
      let listed =
        list_grant_bindings l' l'.default_scope (record any_grant { scope_kind = some chat }) in
      All-map _ _ _ (λ x (o, a). o (admin_role x a))
        (All-both (OnlyAdmin subject) _ _
          (All-filter _ is_active_admin listed
            (list_grant_bindings-All _ l' l'.default_scope _ grant_bindings-OnlyAdmin))
          (filter_holds is_active_admin listed))

in_chat_scope :
    (b : ChatGrantBindingRecord) (subject : String)
    → b.subject_id ≡ subject
    → b.scope_kind ≡ chat
    → (in_grant_scope (record any_grant { scope_kind = some chat }) b ≡ true)
      × (in_grant_scope (record any_grant { subject_id = some subject; scope_kind = some chat }) b
          ≡ true)
in_chat_scope b subject own kind = ground (arith, eq_refl subject)

-- Where no admin grant was ever written, bootstrapping returns and makes the subject an admin who may
-- manage the chat's grants, and on the ledger that it leaves bootstrapping anyone else, at any time, throws
-- and changes nothing. The ledger is ordered.
pub bootstrap_chat_admin-first :
    (env : Env) (l : SharedChatLedger) (subject : Option String)
    → IsOrdered l
    → NoAdminYet l
    → (b : ChatGrantBindingRecord) × (l' : SharedChatLedger) × (bootstrap_chat_admin subject env l
        ≡ (ok b, l'))
      × ((evaluate_chat_permission l' (resolve_chat_actor_id env subject)).allowed ≡ true)
      × ((later : Env) (other : Option String)
          → (resolve_chat_actor_id env subject == resolve_chat_actor_id later other) ≡ false
          → bootstrap_chat_admin other later l' ≡ (err admin_bootstrapped, l'))
unfolding evaluate_chat_permission active_admins
bootstrap_chat_admin-first env l subject h none_yet =
    let first = resolve_chat_actor_id env subject in
    let (b, l', p, run, own, admin, kind, scope) = bootstrap-writes env l subject none_yet in
    let i = admin_input l first (env.clock l) in
    let (in_chat, in_own) = in_chat_scope b first own kind in
    let listed = list_grant_bindings-written l i first h none_yet p refl own admin kind scope in
    (
      b,
      l',
      run,
      (evaluate_chat_action_iff _).1 (b, listed _ in_own, ground arith),
      (λ later other differs.
          bootstrap-refused later l' first other b
            (In-filter is_active_admin b _ (listed _ in_chat) admin)
            (active_admins-own l i first h none_yet p refl own admin kind scope) differs),
    )
