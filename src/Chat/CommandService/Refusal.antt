-- ===== src/Chat/CommandService/Refusal.antt =====
-- What a method of `ChatCommandService` requires of the one who calls it, and what it does without it.
pub mod Stops
pub mod Authorized
pub mod Archived
use openboa.Prelude.{
  ◌≡◌, refl, ap, sym, ◌∙◌, String, Bool, true, false, not, ◌&&◌, Option, none, some, ◌⊎◌, inl, inr,
  if◌then◌else◌, truthy, is_truthy, Bool-cases, Option-cases, arith,
}
use openboa.Chat.Model.{
  ChatConversationRecord, ChatGrantBindingRecord, Result, ChatError, err, ok, denied, room_missing,
  binding_missing, ChatRoleId,
}
use openboa.Chat.Authorization.{
  ChatActionId, room_read, room_join, room_leave, room_membership_manage, room_grant_manage,
  room_settings_update, room_archive, message_create, message_edit, message_redact, message_react,
  message_mass_mention,
}
use openboa.Chat.Ledger.{SharedChatLedger}
use openboa.Chat.Ledger.Conversations.{get_conversation_by_id}
use openboa.Chat.Ledger.Grants.{get_grant_binding}
use openboa.Chat.CommandService.Action.{
  Action, Env, pure, gets, raise, or_raise, continue, ensure, ◌>>=◌, ◌>>◌, if_truthy, done,
}
use openboa.Chat.CommandService.Permission.{
  require_conversation, assert_conversation_action, assert_chat_action,
  evaluate_conversation_permission, evaluate_chat_permission,
}
use openboa.Chat.CommandService.Grants.{
  grant_conversation_role, grant_chat_role, revoke_binding, binding_room, assert_may_revoke,
}
use openboa.Chat.CommandService.Rooms.{
  UpdateConversationSettingsInput, join_conversation, leave_conversation,
  remove_conversation_participant, update_conversation_settings, archive_conversation,
}
use openboa.Chat.CommandService.Messages.{
  PostConversationMessageInput, normalize_mass_mention, mass_mention_check, post_message,
  edit_conversation_message, redact_conversation_message, set_conversation_reaction,
}
use openboa.Chat.CommandService.Cursors.{mark_conversation_read, set_attachment_state}
use openboa.Chat.CommandService.Run.{
  ServiceCommand, registers, creates_channel, ensures_direct, bootstraps, revokes_in_room, joins,
  leaves, removes, grants_role, grants_chat_role, revokes, updates_settings, archives, marks_read,
  attaches, reacts, edits, redacts, posts, to_unit, perform,
}

-- Nothing, an action in a room, or the management of the chat's grants.
pub data Requirement : Type 0 where
  free : Requirement
  in_room : String → String → ChatActionId → Requirement
  in_chat : String → Requirement

abbrev pub of_granter : Option String → (String → Requirement) → Requirement
of_granter none r = free
of_granter (some by) r = if truthy by then r by else free

abbrev pub to_revoke_in : Option String → String → Requirement
to_revoke_in none by = in_chat by
to_revoke_in (some id) by = in_room by id room_grant_manage

abbrev pub to_revoke : Option ChatGrantBindingRecord → String → Requirement
to_revoke none by = free
to_revoke (some b) by = to_revoke_in (binding_room b) by

-- A mass mention in a thread is refused before any permission is read.
abbrev pub to_post : PostConversationMessageInput → Requirement
to_post i =
    if normalize_mass_mention i.body
    then (if is_truthy i.thread_id
        then free
        else in_room i.sender_id i.conversation_id message_mass_mention)
    else in_room i.sender_id i.conversation_id message_create

-- What is asked first of the one who acts, in this order: actor, room, action.
abbrev pub requirement : SharedChatLedger → ServiceCommand → Requirement
requirement l (joins id p) = in_room p id room_join
requirement l (leaves id p) = in_room p id room_leave
requirement l (removes id actor p) = in_room actor id room_membership_manage
requirement l (grants_role id subject role by) =
    of_granter by (λ actor. in_room actor id room_grant_manage)
requirement l (grants_chat_role subject role by) = of_granter by in_chat
requirement l (revokes binding by) =
    of_granter by (to_revoke (get_grant_binding l binding l.default_scope))
requirement l (updates_settings i) = in_room i.updated_by_id i.conversation_id room_settings_update
requirement l (archives id actor) = in_room actor id room_archive
requirement l (marks_read id actor thread) = in_room actor id room_read
requirement l (attaches id actor thread on) = in_room actor id room_read
requirement l (reacts id actor message emoji on) = in_room actor id message_react
requirement l (edits id actor message body) = in_room actor id message_edit
requirement l (redacts id actor message) = in_room actor id message_redact
requirement l (posts i) = to_post i
requirement l _ = free

-- The error that a requirement ends in, if it is not met.
abbrev pub in_room_error :
    SharedChatLedger
    → String
    → ChatActionId
    → String
    → Option ChatConversationRecord
    → Option ChatError
in_room_error l actor action id none = some (room_missing id)
in_room_error l actor action id (some room) =
    let decision = evaluate_conversation_permission l actor room action in
    if decision.allowed then none else some (denied decision.reason)

abbrev pub unmet : SharedChatLedger → Requirement → Option ChatError
unmet l free = none
unmet l (in_room actor id action) =
    in_room_error l actor action id (get_conversation_by_id l id l.default_scope)
unmet l (in_chat actor) =
    let decision = evaluate_chat_permission l actor in
    if decision.allowed then none else some (denied decision.reason)
