-- ===== src/Chat/Authorization.antt =====
-- src/chat/policy/authorization.ts: the roles, and who may do what in a room.
pub mod Access
pub mod Grants
use openboa.Prelude.{
  String, ◌⧺◌, Bool, true, false, not, ◌&&◌, ◌||◌, Option, none, some, List, [], ◌∷◌, ◌++◌, map,
  filter, any, if◌then◌else◌, ltb, length, ◌==◌, opt_eq, dedupe_by,
}
use openboa.Chat.Model.{
  ChatConversationRecord, ChatGrantBindingRecord, ChatRoleId, ChatRoomMembershipRecord,
  ChatGrantScopeKind, chat, conversation, ChatGrantBindingState, ChatConversationVisibility,
  ChatConversationLifecycleState, ChatConversationPostingPolicy, is_public, is_private, restricted,
  unrestricted, role_eq, scope_kind_eq, is_joined_state,
}

pub data ChatActionId : Type 0 where
  chat_grant_manage room_read room_join room_leave : ChatActionId
  message_create message_edit message_redact message_react message_mass_mention : ChatActionId
  room_settings_update room_archive room_membership_manage room_grant_manage : ChatActionId

unfoldable pub action_name : ChatActionId → String
action_name chat_grant_manage = "chat.grant.manage"
action_name room_read = "room.read"
action_name room_join = "room.join"
action_name room_leave = "room.leave"
action_name message_create = "message.create"
action_name message_edit = "message.edit"
action_name message_redact = "message.redact"
action_name message_react = "message.react"
action_name message_mass_mention = "message.mass_mention"
action_name room_settings_update = "room.settings.update"
action_name room_archive = "room.archive"
action_name room_membership_manage = "room.membership.manage"
action_name room_grant_manage = "room.grant.manage"

participant_actions : List ChatActionId
participant_actions =
    room_read ∷ room_join ∷ room_leave ∷ message_create ∷ message_edit ∷ message_redact
    ∷ message_react ∷ []

room_manager_actions : List ChatActionId
unfolding participant_actions
room_manager_actions =
    participant_actions
    ++ (message_mass_mention ∷ room_settings_update ∷ room_archive ∷ room_membership_manage
        ∷ room_grant_manage ∷ [])

-- `CHAT_ROLE_DEFINITIONS`
unfoldable pub role_actions : ChatRoleId → List ChatActionId
unfolding participant_actions room_manager_actions
role_actions ChatRoleId.viewer = room_read ∷ []
role_actions ChatRoleId.participant = participant_actions
role_actions ChatRoleId.room_manager = room_manager_actions
role_actions ChatRoleId.chat_admin = chat_grant_manage ∷ room_manager_actions

unfoldable pub role_allows : ChatRoleId → ChatActionId → Bool
unfolding role_actions action_name
role_allows role action = any (λ a. action_name a == action_name action) (role_actions role)

abbrev pub is_active_state : ChatGrantBindingState → Bool
is_active_state ChatGrantBindingState.active = true
is_active_state ChatGrantBindingState.revoked = false

abbrev pub is_active_binding : ChatGrantBindingRecord → Bool
is_active_binding binding = is_active_state binding.binding_state

pub record ChatGrantResolutionScope : Type 0 where
  pub scope_kind : ChatGrantScopeKind
  pub conversation_id : Option String

-- The second filter of `resolveScopedRoleIds`.
abbrev pub in_resolution_scope : ChatGrantResolutionScope → ChatGrantBindingRecord → Bool
in_resolution_scope scope binding =
    (scope_kind_eq binding.scope_kind chat
      && (scope_kind_eq scope.scope_kind chat || scope_kind_eq scope.scope_kind conversation))
    || (scope_kind_eq scope.scope_kind conversation
        && scope_kind_eq binding.scope_kind conversation
        && opt_eq binding.conversation_id scope.conversation_id)

unfoldable pub resolve_scoped_role_ids :
    List ChatGrantBindingRecord → ChatGrantResolutionScope → List ChatRoleId
resolve_scoped_role_ids bindings scope =
    dedupe_by role_eq (
      map (λ b. b.role_id) (filter (in_resolution_scope scope) (filter is_active_binding bindings)))

unfoldable pub resolve_conversation_role_ids :
    List ChatGrantBindingRecord → String → List ChatRoleId
resolve_conversation_role_ids bindings conversation_id =
    resolve_scoped_role_ids bindings
      (record { scope_kind = conversation; conversation_id = some conversation_id })

unfoldable pub resolve_chat_role_ids : List ChatGrantBindingRecord → List ChatRoleId
resolve_chat_role_ids bindings =
    resolve_scoped_role_ids bindings (record { scope_kind = chat; conversation_id = none })

pub record ChatPermissionDecision : Type 0 where
  pub allowed : Bool
  pub reason : String
  pub role_ids : List ChatRoleId

-- `action` is `chat.grant.manage`, the one action of the chat scope.
unfoldable pub evaluate_chat_action : List ChatGrantBindingRecord → ChatPermissionDecision
unfolding resolve_chat_role_ids action_name
evaluate_chat_action bindings =
    let role_ids = resolve_chat_role_ids bindings in
    if not (any (λ r. role_allows r chat_grant_manage) role_ids)
    then record {
      allowed = false;
      reason = "No active role grants " ⧺ action_name chat_grant_manage;
      role_ids = role_ids;
    }
    else record {
      allowed = true;
      reason = "Role grant allows " ⧺ action_name chat_grant_manage;
      role_ids = role_ids;
    }

pub record ConversationPermissionInput : Type 0 where
  pub room : ChatConversationRecord
  pub actor_id : String
  pub bindings : List ChatGrantBindingRecord
  pub membership : Option ChatRoomMembershipRecord
  pub action : ChatActionId

pub record ConversationPermissionDecision : Type 0 where
  pub allowed : Bool
  pub reason : String
  pub role_ids : List ChatRoleId
  pub is_joined : Bool

abbrev pub is_public_room : ChatConversationVisibility → Bool
is_public_room is_public = true
is_public_room is_private = false

abbrev pub is_archived : ChatConversationLifecycleState → Bool
is_archived ChatConversationLifecycleState.active = false
is_archived ChatConversationLifecycleState.archived = true

abbrev pub is_restricted : ChatConversationPostingPolicy → Bool
is_restricted unrestricted = false
is_restricted restricted = true

abbrev pub has_joined : Option ChatRoomMembershipRecord → Bool
has_joined none = false
has_joined (some m) = is_joined_state m.membership_state

abbrev Verdict : Type 0
Verdict = Bool × String

read_verdict : ConversationPermissionInput → List ChatRoleId → Verdict
read_verdict input role_ids =
    if is_public_room input.room.visibility
    then (true, "Public rooms are readable without an explicit grant")
    else if ltb 0 (length role_ids)
    then (true, "Explicit grant allows " ⧺ input.actor_id ⧺ " to read the room")
    else (false, "Private rooms require an explicit grant")

join_verdict : ConversationPermissionInput → List ChatRoleId → Verdict
join_verdict input role_ids =
    if is_archived input.room.lifecycle_state
    then (false, "Archived rooms cannot accept new joins")
    else if is_public_room input.room.visibility
    then (true, "Public rooms can be joined directly")
    else if any (λ r. role_allows r room_join) role_ids
    then (true, "Explicit participant access allows joining this private room")
    else (false, "Joining a private room requires participant access")

-- Creating, editing and redacting share the branches up to the posting policy.
write_verdict : ConversationPermissionInput → List ChatRoleId → Bool → String → String → Verdict
write_verdict input role_ids posts unjoined done =
    if not (has_joined input.membership)
    then (false, unjoined)
    else if is_archived input.room.lifecycle_state
    then (false, "Archived rooms are read-only")
    else if posts
        && is_restricted input.room.posting_policy
        && not (any (role_eq ChatRoleId.room_manager) role_ids)
        && not (any (role_eq ChatRoleId.chat_admin) role_ids)
    then (false, "Restricted rooms only allow room managers to post")
    else (true, done)

-- The verdict once a role grants the action.
granted_verdict : ConversationPermissionInput → List ChatRoleId → ChatActionId → Verdict
unfolding write_verdict action_name
granted_verdict input role_ids room_leave =
    if has_joined input.membership
    then (true, "Joined participants can leave their rooms")
    else (false, "Only joined participants can leave a room")
granted_verdict input role_ids message_create =
    write_verdict input role_ids true "Only joined participants can post messages"
      "Joined participant can post in this room"
granted_verdict input role_ids message_edit =
    write_verdict input role_ids false "Only joined participants can edit messages"
      "Joined participant can edit messages in this room"
granted_verdict input role_ids message_redact =
    write_verdict input role_ids false "Only joined participants can redact messages"
      "Joined participant can redact messages in this room"
granted_verdict input role_ids message_react =
    write_verdict input role_ids false "Only joined participants can react to messages"
      "Joined participant can react in this room"
granted_verdict input role_ids message_mass_mention =
    write_verdict input role_ids false "Only joined participants can use mass mention"
      ("Role grant allows " ⧺ action_name message_mass_mention)
granted_verdict input role_ids action = (true, "Role grant allows " ⧺ action_name action)

verdict : ConversationPermissionInput → List ChatRoleId → ChatActionId → Verdict
unfolding read_verdict join_verdict granted_verdict action_name
verdict input role_ids room_read = read_verdict input role_ids
verdict input role_ids room_join = join_verdict input role_ids
verdict input role_ids action =
    if not (any (λ r. role_allows r action) role_ids)
    then (false, "No active role grants " ⧺ action_name action)
    else granted_verdict input role_ids action

unfoldable pub evaluate_conversation_action :
    ConversationPermissionInput → ConversationPermissionDecision
unfolding verdict
evaluate_conversation_action input =
    let role_ids = resolve_conversation_role_ids input.bindings input.room.conversation_id in
    let v : Verdict = verdict input role_ids input.action in
    record {
      allowed = v.0;
      reason = v.1;
      role_ids = role_ids;
      is_joined = has_joined input.membership;
    }
