-- ===== src/Chat/CommandService/Run.antt =====
-- The writing methods of `ChatCommandService` as commands.
use openboa.Prelude.{String, Bool, Option, List, [], ◌∷◌}
use openboa.Chat.Model.{ChatRoleId, ChatParticipantRef, ParticipantCapability}
use openboa.Chat.Ledger.{SharedChatLedger}
use openboa.Chat.CommandService.Action.{Action, Env, pure, ◌>>=◌}
use openboa.Chat.CommandService.Grants.{
  grant_conversation_role, grant_chat_role, bootstrap_chat_admin, revoke_binding,
  revoke_conversation_grant_binding,
}
use openboa.Chat.CommandService.Rooms.{
  CreateChannelInput, UpdateConversationSettingsInput, register_participant, create_channel,
  ensure_direct_conversation, join_conversation, leave_conversation,
  remove_conversation_participant, update_conversation_settings, archive_conversation,
}
use openboa.Chat.CommandService.Messages.{
  PostConversationMessageInput, post_message, edit_conversation_message,
  redact_conversation_message, set_conversation_reaction,
}
use openboa.Chat.CommandService.Cursors.{mark_conversation_read, set_attachment_state}

-- One constructor per method. `grants_role` stands for the invitation and the viewer's access too,
-- and `attaches` for the watch state on the main line and the follow state in a thread.
pub data ServiceCommand : Type 0 where
  registers : String → Option String → Option (List ParticipantCapability) → ServiceCommand
  creates_channel : CreateChannelInput → ServiceCommand
  ensures_direct : List ChatParticipantRef → Option String → ServiceCommand
  joins : String → String → ServiceCommand
  leaves : String → String → ServiceCommand
  removes : String → String → String → ServiceCommand
  grants_role : String → String → ChatRoleId → Option String → ServiceCommand
  grants_chat_role : String → ChatRoleId → Option String → ServiceCommand
  bootstraps : Option String → ServiceCommand
  revokes : String → Option String → ServiceCommand
  revokes_in_room : String → String → String → ServiceCommand
  updates_settings : UpdateConversationSettingsInput → ServiceCommand
  archives : String → String → ServiceCommand
  marks_read : String → String → Option String → ServiceCommand
  attaches : String → String → Option String → Bool → ServiceCommand
  reacts : String → String → String → String → Bool → ServiceCommand
  edits : String → String → String → String → ServiceCommand
  redacts : String → String → String → ServiceCommand
  posts : PostConversationMessageInput → ServiceCommand

-- The result is left out; an error stays.
unfoldable pub to_unit : {A : Type 0} → Action A → Action (Unit {0})
to_unit m = m >>= λ _. pure tt

unfoldable pub perform : ServiceCommand → Action (Unit {0})
perform (registers id name capabilities) = to_unit (register_participant id name capabilities)
perform (creates_channel input) = to_unit (create_channel input)
perform (ensures_direct ps title) = to_unit (ensure_direct_conversation ps title)
perform (joins id p) = to_unit (join_conversation id p)
perform (leaves id p) = to_unit (leave_conversation id p)
perform (removes id actor p) = to_unit (remove_conversation_participant id actor p)
perform (grants_role id subject role by) = to_unit (grant_conversation_role id subject role by)
perform (grants_chat_role subject role by) = to_unit (grant_chat_role subject role by)
perform (bootstraps subject) = to_unit (bootstrap_chat_admin subject)
perform (revokes binding by) = to_unit (revoke_binding binding by)
perform (revokes_in_room id binding actor) =
    to_unit (revoke_conversation_grant_binding id binding actor)
perform (updates_settings input) = to_unit (update_conversation_settings input)
perform (archives id actor) = to_unit (archive_conversation id actor)
perform (marks_read id actor thread) = to_unit (mark_conversation_read id actor thread)
perform (attaches id actor thread on) = to_unit (set_attachment_state id actor thread on)
perform (reacts id actor message emoji on) =
    to_unit (set_conversation_reaction id actor message emoji on)
perform (edits id actor message body) = to_unit (edit_conversation_message id actor message body)
perform (redacts id actor message) = to_unit (redact_conversation_message id actor message)
perform (posts input) = to_unit (post_message input)

-- One method after the other, each with what the process gives at its time.
unfoldable pub perform_all : SharedChatLedger → List (Env × ServiceCommand) → SharedChatLedger
perform_all l [] = l
perform_all l ((env, c) ∷ rest) = perform_all (perform c env l).1 rest
