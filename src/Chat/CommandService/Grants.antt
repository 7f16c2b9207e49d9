-- ===== src/Chat/CommandService/Grants.antt =====
-- The grants of src/chat/policy/command-service.ts: granting, inviting, bootstrapping and revoking.
use openboa.Prelude.{
  String, ◌⧺◌, Bool, true, false, not, ◌&&◌, Option, none, some, List, [], ◌∷◌, filter, find, any,
  if◌then◌else◌, ◌==◌, opt_eq, is_truthy,
}
use openboa.Chat.Model.{
  ChatGrantBindingRecord, ChatRoleId, ChatGrantScopeKind, chat, conversation, role_eq,
  scope_kind_eq, ChatMessage, ChatParticipantKind, ChatSystemEventKind, room_grant_added,
  room_grant_revoked, system_event, binding_missing, binding_elsewhere, admin_bootstrapped,
}
use openboa.Chat.Authorization.{is_active_binding, room_grant_manage}
use openboa.Chat.Ledger.{SharedChatLedger}
use openboa.Chat.Ledger.Grants.{list_grant_bindings, get_grant_binding, any_grant, GrantScope}
use openboa.Chat.CommandService.Action.{
  Action, pure, raise, gets, or_raise, ensure, done, if_truthy, now_iso_string, actor_or_default,
  make_uuid_v7, ledger_append_message, ledger_create_grant_binding, ledger_revoke_grant_binding,
  ◌>>=◌, ◌>>◌,
}
use openboa.Chat.CommandService.Permission.{
  require_conversation, assert_conversation_action, assert_chat_action,
}

abbrev pub system_event_name : ChatSystemEventKind → String
system_event_name ChatSystemEventKind.participant_added = "participant-added"
system_event_name ChatSystemEventKind.participant_left = "participant-left"
system_event_name ChatSystemEventKind.room_grant_added = "room-grant-added"
system_event_name ChatSystemEventKind.room_grant_revoked = "room-grant-revoked"
system_event_name ChatSystemEventKind.room_renamed = "room-renamed"
system_event_name ChatSystemEventKind.room_topic_changed = "room-topic-changed"
system_event_name ChatSystemEventKind.room_posting_policy_changed = "room-posting-policy-changed"
system_event_name ChatSystemEventKind.room_archived = "room-archived"

-- `postConversationSystemMessage`, through `postSystemMessage` of the conversation service.
unfoldable pub post_conversation_system_message :
    String → String → ChatSystemEventKind → Action ChatMessage
post_conversation_system_message conversation_id body kind = do
  uuid ← make_uuid_v7
  at ← now_iso_string
  ledger_append_message (record {
    scope_id = none;
    conversation_id = conversation_id;
    thread_id = none;
    session_id = "chat-system:" ⧺ system_event_name kind ⧺ ":" ⧺ uuid;
    idempotency_key = none;
    author = record { kind = ChatParticipantKind.system; id = "chat"; display_name = none };
    audience = none;
    body = body;
    created_at = at;
    mentioned_ids = none;
    related_message_id = none;
    message_kind = some system_event;
    system_event_kind = some kind;
  })

pub record GrantRequest : Type 0 where
  pub subject_id : String
  pub role_id : ChatRoleId
  pub scope_kind : ChatGrantScopeKind
  pub conversation_id : Option String
  pub updated_at : String

abbrev pub listed_for : GrantRequest → GrantScope
listed_for input =
    if scope_kind_eq input.scope_kind conversation
    then record any_grant {
      subject_id = some input.subject_id;
      conversation_id = some input.conversation_id;
    }
    else record any_grant { subject_id = some input.subject_id; scope_kind = some chat }

abbrev pub is_requested : GrantRequest → ChatGrantBindingRecord → Bool
is_requested input b =
    is_active_binding b
    && role_eq b.role_id input.role_id
    && scope_kind_eq b.scope_kind input.scope_kind
    && opt_eq b.conversation_id input.conversation_id

unfoldable pub existing_grant : SharedChatLedger → GrantRequest → Option ChatGrantBindingRecord
existing_grant l input =
    find (is_requested input) (list_grant_bindings l l.default_scope (listed_for input))

unfoldable pub create_unless :
    GrantRequest → Option ChatGrantBindingRecord → Action (ChatGrantBindingRecord × Bool)
create_unless input (some binding) = pure (binding, false)
create_unless input none = do
  binding ← ledger_create_grant_binding (record {
    scope_id = none;
    binding_id = none;
    subject_id = input.subject_id;
    role_id = input.role_id;
    scope_kind = input.scope_kind;
    conversation_id = input.conversation_id;
    binding_state = none;
    created_at = none;
    updated_at = input.updated_at;
  })
  pure (binding, true)

-- The binding, and whether the call created it.
unfoldable pub ensure_grant_binding_with_status :
    GrantRequest → Action (ChatGrantBindingRecord × Bool)
ensure_grant_binding_with_status input = do
  existing ← gets (λ l. existing_grant l input)
  create_unless input existing

unfoldable pub ensure_grant_binding : GrantRequest → Action ChatGrantBindingRecord
ensure_grant_binding input = do grant ← ensure_grant_binding_with_status input; pure grant.0

unfoldable pub describe_conversation_grant_added : String → ChatRoleId → String
describe_conversation_grant_added subject_id ChatRoleId.participant =
    subject_id ⧺ " was invited to the room."
describe_conversation_grant_added subject_id ChatRoleId.viewer =
    subject_id ⧺ " can now view the room."
describe_conversation_grant_added subject_id role = subject_id ⧺ " can now manage the room."

unfoldable pub describe_conversation_grant_revoked : String → ChatRoleId → String
describe_conversation_grant_revoked subject_id ChatRoleId.participant =
    "Room invite for " ⧺ subject_id ⧺ " was revoked."
describe_conversation_grant_revoked subject_id ChatRoleId.viewer =
    "Viewer access for " ⧺ subject_id ⧺ " was revoked."
describe_conversation_grant_revoked subject_id role =
    "Room manager access for " ⧺ subject_id ⧺ " was revoked."

-- A message of the system where a condition holds.
unfoldable pub post_if : Bool → String → String → ChatSystemEventKind → Action (Unit {0})
post_if true conversation_id body kind = do
  message ← post_conversation_system_message conversation_id body kind
  done
post_if false conversation_id body kind = done

unfoldable pub grant_conversation_role :
    String → String → ChatRoleId → Option String → Action ChatGrantBindingRecord
grant_conversation_role conversation_id subject_id role granted_by = do
  room ← require_conversation conversation_id
  if_truthy granted_by λ actor. assert_conversation_action actor room room_grant_manage
  at ← now_iso_string
  grant ← ensure_grant_binding_with_status (record {
    subject_id = subject_id;
    role_id = role;
    scope_kind = conversation;
    conversation_id = some conversation_id;
    updated_at = at;
  })
  post_if grant.1 room.conversation_id (describe_conversation_grant_added subject_id role)
      room_grant_added
  pure grant.0

unfoldable pub invite_participant : String → String → String → Action ChatGrantBindingRecord
invite_participant conversation_id subject_id invited_by =
    grant_conversation_role conversation_id subject_id ChatRoleId.participant (some invited_by)

unfoldable pub grant_viewer_access : String → String → String → Action ChatGrantBindingRecord
grant_viewer_access conversation_id subject_id granted_by =
    grant_conversation_role conversation_id subject_id ChatRoleId.viewer (some granted_by)

unfoldable pub ensure_chat_role : String → ChatRoleId → Action ChatGrantBindingRecord
ensure_chat_role subject_id role = do
  at ← now_iso_string
  ensure_grant_binding (record {
    subject_id = subject_id;
    role_id = role;
    scope_kind = chat;
    conversation_id = none;
    updated_at = at;
  })

unfoldable pub grant_chat_role : String → ChatRoleId → Option String → Action ChatGrantBindingRecord
grant_chat_role subject_id role granted_by = do
  if_truthy granted_by assert_chat_action
  ensure_chat_role subject_id role

abbrev pub is_active_admin : ChatGrantBindingRecord → Bool
is_active_admin b = is_active_binding b && role_eq b.role_id ChatRoleId.chat_admin

unfoldable pub active_admins : SharedChatLedger → List ChatGrantBindingRecord
active_admins l =
    filter is_active_admin
      (list_grant_bindings l l.default_scope (record any_grant { scope_kind = some chat }))

abbrev pub admin_unless :
    String
    → List ChatGrantBindingRecord
    → Option ChatGrantBindingRecord
    → Action ChatGrantBindingRecord
admin_unless subject_id admins (some binding) = pure binding
admin_unless subject_id [] none = ensure_chat_role subject_id ChatRoleId.chat_admin
admin_unless subject_id (b ∷ bs) none = raise admin_bootstrapped

unfoldable pub bootstrap_chat_admin : Option String → Action ChatGrantBindingRecord
bootstrap_chat_admin subject = do
  subject_id ← actor_or_default subject
  admins ← gets active_admins
  admin_unless subject_id admins (find (λ b. b.subject_id == subject_id) admins)

-- `binding.scopeKind === "conversation" && binding.conversationId`
abbrev pub binding_room : ChatGrantBindingRecord → Option String
binding_room b =
    if scope_kind_eq b.scope_kind conversation && is_truthy b.conversation_id
    then b.conversation_id
    else none

abbrev pub assert_may_revoke : ChatGrantBindingRecord → Option String → String → Action (Unit {0})
assert_may_revoke b none actor = assert_chat_action actor
assert_may_revoke b (some conversation_id) actor = do
  room ← require_conversation conversation_id
  assert_conversation_action actor room room_grant_manage

abbrev pub post_revoked : ChatGrantBindingRecord → Option String → Action (Unit {0})
post_revoked b none = done
post_revoked b (some conversation_id) =
    post_if (is_active_binding b && not (role_eq b.role_id ChatRoleId.chat_admin)) conversation_id
      (describe_conversation_grant_revoked b.subject_id b.role_id) room_grant_revoked

unfoldable pub revoke_binding : String → Option String → Action ChatGrantBindingRecord
revoke_binding binding_id revoked_by = do
  found ← gets (λ l. get_grant_binding l binding_id l.default_scope)
  binding ← or_raise found (binding_missing binding_id)
  if_truthy revoked_by (assert_may_revoke binding (binding_room binding))
  at ← now_iso_string
  revoked ← ledger_revoke_grant_binding binding_id at
  post_revoked binding (binding_room binding)
  pure revoked

unfoldable pub revoke_conversation_grant_binding :
    String → String → String → Action ChatGrantBindingRecord
revoke_conversation_grant_binding conversation_id binding_id actor_id = do
  room ← require_conversation conversation_id
  found ← gets (λ l. get_grant_binding l binding_id l.default_scope)
  binding ← or_raise found (binding_missing binding_id)
  ensure
      (scope_kind_eq binding.scope_kind conversation
        && opt_eq binding.conversation_id (some room.conversation_id))
      binding_elsewhere
  if is_active_binding binding
      then revoke_binding binding.binding_id (some actor_id)
      else pure binding

abbrev pub is_revocable : List ChatRoleId → ChatGrantBindingRecord → Bool
is_revocable roles b = is_active_binding b && any (λ r. role_eq r b.role_id) roles

unfoldable pub revoke_each : List ChatRoleId → List ChatGrantBindingRecord → Action (Unit {0})
revoke_each roles [] = done
revoke_each roles (b ∷ bs) =
    let rest = revoke_each roles bs in
    if is_revocable roles b
    then (do at ← now_iso_string; revoked ← ledger_revoke_grant_binding b.binding_id at; rest)
    else rest

unfoldable pub revoke_conversation_roles : String → String → List ChatRoleId → Action (Unit {0})
unfolding revoke_each
revoke_conversation_roles conversation_id subject_id roles = do
  bindings ← gets (λ l. list_grant_bindings l l.default_scope (record any_grant {
    subject_id = some subject_id;
    conversation_id = some (some conversation_id);
  }))
  revoke_each roles bindings
