-- ===== src/Chat/CommandService/Appending/Grants.antt =====
-- The checks of `ChatCommandService` and its methods on grants only append.
use openboa.Prelude.{String, Bool, true, false, Option, none, some, List, [], ◌∷◌}
use openboa.Chat.Model.{
  ChatConversationRecord, ChatRoleId, ChatSystemEventKind, ChatGrantBindingRecord,
}
use openboa.Chat.Authorization.{ChatActionId}
use openboa.Chat.CommandService.Action.{Action, ◌>>=◌, now_iso_string, ledger_revoke_grant_binding}
use openboa.Chat.CommandService.Permission.{
  require_conversation, assert_conversation_action, assert_chat_action,
}
use openboa.Chat.CommandService.Grants.{
  post_conversation_system_message, GrantRequest, create_unless, ensure_grant_binding_with_status,
  ensure_grant_binding, post_if, grant_conversation_role, ensure_chat_role, grant_chat_role,
  admin_unless, bootstrap_chat_admin, assert_may_revoke, post_revoked, revoke_binding,
  revoke_conversation_grant_binding, revoke_each, is_revocable, revoke_conversation_roles,
}
use openboa.Chat.CommandService.Appending.{
  IsAppending, appending_rules, if-IsAppending, bind-IsAppending, now_iso_string-IsAppending,
  ledger_revoke_grant_binding-IsAppending,
}

pub require_conversation-IsAppending : (id : String) → IsAppending (require_conversation id)
unfolding require_conversation
require_conversation-IsAppending id = search appending_rules

pub assert_conversation_action-IsAppending :
    (actor : String) (room : ChatConversationRecord) (action : ChatActionId)
    → IsAppending (assert_conversation_action actor room action)
unfolding assert_conversation_action
assert_conversation_action-IsAppending actor room action = search appending_rules

pub assert_chat_action-IsAppending : (actor : String) → IsAppending (assert_chat_action actor)
unfolding assert_chat_action
assert_chat_action-IsAppending actor = search appending_rules

pub post_conversation_system_message-IsAppending :
    (id body : String) (kind : ChatSystemEventKind)
    → IsAppending (post_conversation_system_message id body kind)
unfolding post_conversation_system_message
post_conversation_system_message-IsAppending id body kind = search appending_rules

pub create_unless-IsAppending :
    (i : GrantRequest) (o : Option ChatGrantBindingRecord) → IsAppending (create_unless i o)
unfolding create_unless
create_unless-IsAppending i none = search appending_rules
create_unless-IsAppending i (some b) = search appending_rules

pub ensure_grant_binding-IsAppending : (i : GrantRequest) → IsAppending (ensure_grant_binding i)
unfolding ensure_grant_binding ensure_grant_binding_with_status
ensure_grant_binding-IsAppending i = search (appending_rules, create_unless-IsAppending)

pub ruleset check_rules = (
  appending_rules, require_conversation-IsAppending, assert_conversation_action-IsAppending,
  assert_chat_action-IsAppending, post_conversation_system_message-IsAppending,
  create_unless-IsAppending, ensure_grant_binding-IsAppending,
)

pub post_if-IsAppending :
    (b : Bool) (id body : String) (kind : ChatSystemEventKind)
    → IsAppending (post_if b id body kind)
unfolding post_if
post_if-IsAppending true id body kind = search (check_rules) depth 30
post_if-IsAppending false id body kind = search (check_rules) depth 30

pub grant_conversation_role-IsAppending :
    (id subject : String) (role : ChatRoleId) (by : Option String)
    → IsAppending (grant_conversation_role id subject role by)
unfolding grant_conversation_role ensure_grant_binding_with_status
grant_conversation_role-IsAppending id subject role by =
    search (check_rules, post_if-IsAppending) depth 30

ensure_chat_role-IsAppending :
    (subject : String) (role : ChatRoleId) → IsAppending (ensure_chat_role subject role)
unfolding ensure_chat_role
ensure_chat_role-IsAppending subject role = search (check_rules) depth 30

pub grant_chat_role-IsAppending :
    (subject : String) (role : ChatRoleId) (by : Option String)
    → IsAppending (grant_chat_role subject role by)
unfolding grant_chat_role
grant_chat_role-IsAppending subject role by =
    search (check_rules, ensure_chat_role-IsAppending) depth 30

admin_unless-IsAppending :
    (subject : String) (bs : List ChatGrantBindingRecord) (o : Option ChatGrantBindingRecord)
    → IsAppending (admin_unless subject bs o)
admin_unless-IsAppending subject bs (some b) =
    search (check_rules, ensure_chat_role-IsAppending) depth 30
admin_unless-IsAppending subject [] none =
    search (check_rules, ensure_chat_role-IsAppending) depth 30
admin_unless-IsAppending subject (b ∷ bs) none =
    search (check_rules, ensure_chat_role-IsAppending) depth 30

pub bootstrap_chat_admin-IsAppending :
    (subject : Option String) → IsAppending (bootstrap_chat_admin subject)
unfolding bootstrap_chat_admin
bootstrap_chat_admin-IsAppending subject = search (check_rules, admin_unless-IsAppending) depth 30

assert_may_revoke-IsAppending :
    (b : ChatGrantBindingRecord) (o : Option String) (actor : String)
    → IsAppending (assert_may_revoke b o actor)
assert_may_revoke-IsAppending b none actor = search (check_rules) depth 30
assert_may_revoke-IsAppending b (some id) actor = search (check_rules) depth 30

post_revoked-IsAppending :
    (b : ChatGrantBindingRecord) (o : Option String) → IsAppending (post_revoked b o)
post_revoked-IsAppending b none = search (check_rules, post_if-IsAppending) depth 30
post_revoked-IsAppending b (some id) = search (check_rules, post_if-IsAppending) depth 30

pub revoke_binding-IsAppending :
    (id : String) (by : Option String) → IsAppending (revoke_binding id by)
unfolding revoke_binding
revoke_binding-IsAppending id by =
    search (check_rules, assert_may_revoke-IsAppending, post_revoked-IsAppending) depth 30

pub revoke_conversation_grant_binding-IsAppending :
    (id binding actor : String) → IsAppending (revoke_conversation_grant_binding id binding actor)
unfolding revoke_conversation_grant_binding
revoke_conversation_grant_binding-IsAppending id binding actor =
    search (check_rules, revoke_binding-IsAppending) depth 30

revoke_one-IsAppending :
    (b : ChatGrantBindingRecord) (rest : Action (Unit {0}))
    → IsAppending rest
    → IsAppending
        (now_iso_string >>= λ at. ledger_revoke_grant_binding b.binding_id at >>= λ revoked. rest)
revoke_one-IsAppending b rest h =
    bind-IsAppending _ _ now_iso_string-IsAppending
      λ at. bind-IsAppending _ _ (ledger_revoke_grant_binding-IsAppending b.binding_id at) λ _. h

revoke_each-IsAppending :
    (roles : List ChatRoleId) (bs : List ChatGrantBindingRecord)
    → IsAppending (revoke_each roles bs)
unfolding revoke_each
revoke_each-IsAppending roles [] = search (check_rules) depth 30
revoke_each-IsAppending roles (b ∷ bs) =
    let ih = revoke_each-IsAppending roles bs in
    if-IsAppending (is_revocable roles b) _ _ (revoke_one-IsAppending b _ ih) ih

pub revoke_conversation_roles-IsAppending :
    (id subject : String) (roles : List ChatRoleId)
    → IsAppending (revoke_conversation_roles id subject roles)
unfolding revoke_conversation_roles
revoke_conversation_roles-IsAppending id subject roles =
    search (check_rules, revoke_each-IsAppending) depth 30
