-- ===== src/Chat/CommandService/Appending/Messages.antt =====
-- The methods of `ChatCommandService` on messages, cursors and attachments only append.
use openboa.Prelude.{String, Bool, true, false, Option, none, some}
use openboa.Chat.Model.{ChatConversationRecord, ChatMessage, ChatParticipantRef}
use openboa.Chat.CommandService.Messages.{
  PostConversationMessageInput, check_audience, mass_mention_check, session_or_uuid, post_message,
  message_in_room, require_message, reread_message, write_edit, edit_conversation_message,
  write_redaction, redact_conversation_message, write_reaction, set_conversation_reaction,
}
use openboa.Chat.CommandService.Cursors.{
  write_cursor, mark_conversation_read, write_attachment, set_attachment_state,
}
use openboa.Chat.CommandService.Appending.{IsAppending}
use openboa.Chat.CommandService.Appending.Grants.{check_rules}

check_audience-IsAppending :
    (room : ChatConversationRecord) (thread : Option String) (audience : Option ChatParticipantRef)
    → IsAppending (check_audience room thread audience)
unfolding check_audience
check_audience-IsAppending room thread none = search (check_rules) depth 30
check_audience-IsAppending room thread (some a) = search (check_rules) depth 30

mass_mention_check-IsAppending :
    (b : Bool) (sender : String) (room : ChatConversationRecord)
    → IsAppending (mass_mention_check b sender room)
mass_mention_check-IsAppending true sender room = search (check_rules) depth 30
mass_mention_check-IsAppending false sender room = search (check_rules) depth 30

session_or_uuid-IsAppending : (o : Option String) → IsAppending (session_or_uuid o)
session_or_uuid-IsAppending none = search (check_rules) depth 30
session_or_uuid-IsAppending (some id) = search (check_rules) depth 30

pub post_message-IsAppending : (i : PostConversationMessageInput) → IsAppending (post_message i)
unfolding post_message
post_message-IsAppending i =
    search
      (
        check_rules, check_audience-IsAppending, mass_mention_check-IsAppending,
        session_or_uuid-IsAppending,
      )
      depth 30

message_in_room-IsAppending :
    (o : Option ChatMessage) (room : ChatConversationRecord) (id : String)
    → IsAppending (message_in_room o room id)
message_in_room-IsAppending none room id = search (check_rules) depth 30
message_in_room-IsAppending (some m) room id = search (check_rules) depth 30

require_message-IsAppending :
    (room : ChatConversationRecord) (id : String) → IsAppending (require_message room id)
unfolding require_message
require_message-IsAppending room id = search (check_rules, message_in_room-IsAppending) depth 30

reread_message-IsAppending : (id asked : String) → IsAppending (reread_message id asked)
unfolding reread_message
reread_message-IsAppending id asked = search (check_rules) depth 30

ruleset message_rules = (check_rules, require_message-IsAppending, reread_message-IsAppending)

write_edit-IsAppending :
    (m : ChatMessage) (actor asked body : String) → IsAppending (write_edit m actor asked body)
unfolding write_edit
write_edit-IsAppending m actor asked body = search (message_rules) depth 30

pub edit_conversation_message-IsAppending :
    (id actor message body : String) → IsAppending (edit_conversation_message id actor message body)
unfolding edit_conversation_message
edit_conversation_message-IsAppending id actor message body =
    search (message_rules, write_edit-IsAppending) depth 30

write_redaction-IsAppending :
    (room : ChatConversationRecord) (m : ChatMessage) (actor asked : String)
    → IsAppending (write_redaction room m actor asked)
unfolding write_redaction
write_redaction-IsAppending room m actor asked = search (message_rules) depth 30

pub redact_conversation_message-IsAppending :
    (id actor message : String) → IsAppending (redact_conversation_message id actor message)
unfolding redact_conversation_message
redact_conversation_message-IsAppending id actor message =
    search (message_rules, write_redaction-IsAppending) depth 30

write_reaction-IsAppending :
    (m : ChatMessage) (actor asked emoji : String) (active : Bool)
    → IsAppending (write_reaction m actor asked emoji active)
unfolding write_reaction
write_reaction-IsAppending m actor asked emoji active = search (message_rules) depth 30

pub set_conversation_reaction-IsAppending :
    (id actor message emoji : String) (active : Bool)
    → IsAppending (set_conversation_reaction id actor message emoji active)
unfolding set_conversation_reaction
set_conversation_reaction-IsAppending id actor message emoji active =
    search (message_rules, write_reaction-IsAppending) depth 30

pub mark_conversation_read-IsAppending :
    (id actor : String) (thread : Option String)
    → IsAppending (mark_conversation_read id actor thread)
unfolding mark_conversation_read write_cursor
mark_conversation_read-IsAppending id actor thread = search (message_rules) depth 30

pub set_attachment_state-IsAppending :
    (id actor : String) (thread : Option String) (asked : Bool)
    → IsAppending (set_attachment_state id actor thread asked)
unfolding set_attachment_state write_attachment
set_attachment_state-IsAppending id actor thread asked = search (message_rules) depth 30
