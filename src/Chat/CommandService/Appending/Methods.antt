-- ===== src/Chat/CommandService/Appending/Methods.antt =====
-- Every writing method of `ChatCommandService` only appends.
use openboa.Prelude.{List, [], ◌∷◌}
use openboa.Chat.Ledger.{SharedChatLedger}
use openboa.Chat.Ledger.Order.{Appends, Appends-IsOrdered, IsOrdered}
use openboa.Chat.CommandService.Action.{Env}
use openboa.Chat.CommandService.Run.{
  ServiceCommand, registers, creates_channel, ensures_direct, joins, leaves, removes, grants_role,
  grants_chat_role, bootstraps, revokes, revokes_in_room, updates_settings, archives, marks_read,
  attaches, reacts, edits, redacts, posts, to_unit, perform, perform_all,
}
use openboa.Chat.CommandService.Appending.{IsAppending, appending_rules}
use openboa.Chat.CommandService.Appending.Grants.{
  grant_conversation_role-IsAppending, grant_chat_role-IsAppending,
  bootstrap_chat_admin-IsAppending, revoke_binding-IsAppending,
  revoke_conversation_grant_binding-IsAppending,
}
use openboa.Chat.CommandService.Appending.Rooms.{
  register_participant-IsAppending, create_channel-IsAppending,
  ensure_direct_conversation-IsAppending, join_conversation-IsAppending,
  leave_conversation-IsAppending, remove_conversation_participant-IsAppending,
  update_conversation_settings-IsAppending, archive_conversation-IsAppending,
}
use openboa.Chat.CommandService.Appending.Messages.{
  post_message-IsAppending, edit_conversation_message-IsAppending,
  redact_conversation_message-IsAppending, set_conversation_reaction-IsAppending,
  mark_conversation_read-IsAppending, set_attachment_state-IsAppending,
}

ruleset method_rules = (
  appending_rules, register_participant-IsAppending, create_channel-IsAppending,
  ensure_direct_conversation-IsAppending, join_conversation-IsAppending,
  leave_conversation-IsAppending, remove_conversation_participant-IsAppending,
  grant_conversation_role-IsAppending, grant_chat_role-IsAppending,
  bootstrap_chat_admin-IsAppending, revoke_binding-IsAppending,
  revoke_conversation_grant_binding-IsAppending, update_conversation_settings-IsAppending,
  archive_conversation-IsAppending, mark_conversation_read-IsAppending,
  set_attachment_state-IsAppending, set_conversation_reaction-IsAppending,
  edit_conversation_message-IsAppending, redact_conversation_message-IsAppending,
  post_message-IsAppending,
)

perform-IsAppending : (c : ServiceCommand) → IsAppending (perform c)
unfolding perform to_unit
perform-IsAppending (registers id name cs) = search method_rules
perform-IsAppending (creates_channel i) = search method_rules
perform-IsAppending (ensures_direct ps title) = search method_rules
perform-IsAppending (joins id p) = search method_rules
perform-IsAppending (leaves id p) = search method_rules
perform-IsAppending (removes id actor p) = search method_rules
perform-IsAppending (grants_role id subject role by) = search method_rules
perform-IsAppending (grants_chat_role subject role by) = search method_rules
perform-IsAppending (bootstraps subject) = search method_rules
perform-IsAppending (revokes id by) = search method_rules
perform-IsAppending (revokes_in_room id binding actor) = search method_rules
perform-IsAppending (updates_settings i) = search method_rules
perform-IsAppending (archives id actor) = search method_rules
perform-IsAppending (marks_read id actor thread) = search method_rules
perform-IsAppending (attaches id actor thread on) = search method_rules
perform-IsAppending (reacts id actor m emoji on) = search method_rules
perform-IsAppending (edits id actor m body) = search method_rules
perform-IsAppending (redacts id actor m) = search method_rules
perform-IsAppending (posts i) = search method_rules

-- Every method, whether it returns or throws part way through its writes, only appends events of the
-- ledger's own scope, each with the next sequence number of the scope; messages, edits and redactions
-- with that number as their revision, and messages under the next identifier.
pub perform-Appends :
    (env : Env) (l : SharedChatLedger) (c : ServiceCommand)
    → Appends l.default_scope l (perform c env l).1
perform-Appends env l c = (perform-IsAppending c).at env l

-- Whatever methods run, returning or throwing part way, an ordered ledger stays ordered: in every scope
-- the sequences rise along the file with no number twice, and revisions are sequences.
pub perform_all-IsOrdered :
    (l : SharedChatLedger) (cs : List (Env × ServiceCommand))
    → IsOrdered l
    → IsOrdered (perform_all l cs)
unfolding perform_all
perform_all-IsOrdered l [] h = h
perform_all-IsOrdered l ((env, c) ∷ rest) h =
    perform_all-IsOrdered (perform c env l).1 rest (Appends-IsOrdered (perform-Appends env l c) h)
