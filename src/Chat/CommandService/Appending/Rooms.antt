-- ===== src/Chat/CommandService/Appending/Rooms.antt =====
-- The methods of `ChatCommandService` on participants and rooms only append.
use openboa.Prelude.{String, Bool, true, false, Option, none, some, List, [], ◌∷◌}
use openboa.Chat.Model.{
  ChatConversationRecord, ChatError, ChatRoleId, ChatParticipantRef, ChatParticipantRecord,
  ParticipantCapability,
}
use openboa.Chat.CommandService.Action.{Action, ◌>>◌}
use openboa.Chat.CommandService.Rooms.{
  CreateChannelInput, UpdateConversationSettingsInput, register_participant,
  upsert_participant_named, existing_or, grant_in_room, create_channel, grant_participants,
  ensure_direct_conversation, enter_room, join_conversation, remove_participant_from_conversation,
  leave_conversation, put_out, remove_conversation_participant, change_settings,
  update_conversation_settings, close_room, archive_conversation,
}
use openboa.Chat.CommandService.Appending.{IsAppending, bind-IsAppending}
use openboa.Chat.CommandService.Appending.Grants.{
  check_rules, post_if-IsAppending, revoke_conversation_roles-IsAppending,
}

existing_or-IsAppending :
    (b : Bool) (o : Option ChatParticipantRecord) (m : Action ChatParticipantRecord)
    → IsAppending m
    → IsAppending (existing_or b o m)
existing_or-IsAppending true (some p) m h = search (check_rules) depth 30
existing_or-IsAppending true none m h = search (check_rules) depth 30
existing_or-IsAppending false o m h = search (check_rules) depth 30

upsert_participant_named-IsAppending :
    (id name : String) (cs : Option (List ParticipantCapability))
    → IsAppending (upsert_participant_named id name cs)
unfolding upsert_participant_named
upsert_participant_named-IsAppending id name cs =
    search (check_rules, existing_or-IsAppending) depth 30

pub register_participant-IsAppending :
    (id : String) (name : Option String) (cs : Option (List ParticipantCapability))
    → IsAppending (register_participant id name cs)
unfolding register_participant
register_participant-IsAppending id name cs =
    search (check_rules, upsert_participant_named-IsAppending) depth 30

grant_in_room-IsAppending :
    (subject : String) (role : ChatRoleId) (id at : String)
    → IsAppending (grant_in_room subject role id at)
unfolding grant_in_room
grant_in_room-IsAppending subject role id at = search (check_rules) depth 30

pub create_channel-IsAppending : (i : CreateChannelInput) → IsAppending (create_channel i)
unfolding create_channel
create_channel-IsAppending i = search (check_rules, grant_in_room-IsAppending) depth 30

grant_one-IsAppending :
    (p id at : String) (rest : Action (Unit {0}))
    → IsAppending rest
    → IsAppending (
        grant_in_room p ChatRoleId.participant id at
        >> (grant_in_room p ChatRoleId.room_manager id at >> rest))
grant_one-IsAppending p id at rest h =
    bind-IsAppending _ _ (grant_in_room-IsAppending p ChatRoleId.participant id at)
      λ _. bind-IsAppending _ _ (grant_in_room-IsAppending p ChatRoleId.room_manager id at) λ _. h

grant_participants-IsAppending :
    (ps : List ChatParticipantRef) (id at : String) → IsAppending (grant_participants ps id at)
unfolding grant_participants
grant_participants-IsAppending [] id at = search (check_rules, grant_in_room-IsAppending) depth 30
grant_participants-IsAppending (p ∷ ps) id at =
    grant_one-IsAppending p.id id at _ (grant_participants-IsAppending ps id at)

pub ensure_direct_conversation-IsAppending :
    (ps : List ChatParticipantRef) (title : Option String)
    → IsAppending (ensure_direct_conversation ps title)
unfolding ensure_direct_conversation
ensure_direct_conversation-IsAppending ps title =
    search (check_rules, grant_in_room-IsAppending, grant_participants-IsAppending) depth 30

enter_room-IsAppending :
    (room : ChatConversationRecord) (p : String) → IsAppending (enter_room room p)
unfolding enter_room
enter_room-IsAppending room p = search (check_rules, grant_in_room-IsAppending) depth 30

pub join_conversation-IsAppending : (id p : String) → IsAppending (join_conversation id p)
unfolding join_conversation
join_conversation-IsAppending id p =
    search (check_rules, grant_in_room-IsAppending, enter_room-IsAppending) depth 30

remove_participant_from_conversation-IsAppending :
    (room : ChatConversationRecord) (p : String) (e : ChatError)
    → IsAppending (remove_participant_from_conversation room p e)
unfolding remove_participant_from_conversation
remove_participant_from_conversation-IsAppending room p e =
    search (check_rules, grant_in_room-IsAppending, revoke_conversation_roles-IsAppending) depth 30

pub leave_conversation-IsAppending : (id p : String) → IsAppending (leave_conversation id p)
unfolding leave_conversation
leave_conversation-IsAppending id p =
    search (check_rules, remove_participant_from_conversation-IsAppending) depth 30

put_out-IsAppending : (room : ChatConversationRecord) (p : String) → IsAppending (put_out room p)
unfolding put_out
put_out-IsAppending room p =
    search (check_rules, remove_participant_from_conversation-IsAppending) depth 30

pub remove_conversation_participant-IsAppending :
    (id actor p : String) → IsAppending (remove_conversation_participant id actor p)
unfolding remove_conversation_participant
remove_conversation_participant-IsAppending id actor p =
    search (check_rules, remove_participant_from_conversation-IsAppending, put_out-IsAppending)
      depth 30

change_settings-IsAppending :
    (room : ChatConversationRecord) (i : UpdateConversationSettingsInput)
    → IsAppending (change_settings room i)
unfolding change_settings
change_settings-IsAppending room i = search (check_rules, post_if-IsAppending) depth 30

pub update_conversation_settings-IsAppending :
    (i : UpdateConversationSettingsInput) → IsAppending (update_conversation_settings i)
unfolding update_conversation_settings
update_conversation_settings-IsAppending i =
    search (check_rules, change_settings-IsAppending) depth 30

close_room-IsAppending : (room : ChatConversationRecord) → IsAppending (close_room room)
unfolding close_room
close_room-IsAppending room = search (check_rules) depth 30

pub archive_conversation-IsAppending :
    (id actor : String) → IsAppending (archive_conversation id actor)
unfolding archive_conversation
archive_conversation-IsAppending id actor = search (check_rules, close_room-IsAppending) depth 30
