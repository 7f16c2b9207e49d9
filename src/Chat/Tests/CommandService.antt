-- ===== src/Chat/Tests/CommandService.antt =====
-- Methods of src/chat/policy/command-service.ts on a ledger with one public room and one message.
use openboa.Prelude.{
  ◌≡◌, refl, String, true, false, Option, none, some, [], ◌∷◌, ◌⊎◌, All, ◌==◌, truthy, is_truthy,
  filter,
}
use openboa.Chat.Model.{
  ChatMessage, ChatGrantBindingRecord, conversation_upserted, grant_binding_upserted,
  ChatConversationRecord, ChatConversationLifecycleState, ChatError, membership_upserted,
  message_posted, participant_message, ok, err, denied, admin_bootstrapped,
}
use openboa.Chat.Ledger.{SharedChatLedger}
use openboa.Chat.Ledger.Order.{IsOrdered, append_event-IsOrdered}
use openboa.Chat.Authorization.{room_read, message_edit}
use openboa.Chat.Authorization.Access.{permits}
use openboa.Chat.CommandService.Permission.{permission_input}
use openboa.Chat.CommandService.Action.{Env}
use openboa.Chat.CommandService.Run.{bootstraps, edits, archives, joins}
use openboa.Chat.CommandService.Appending.Methods.{perform_all-IsOrdered}
use openboa.Chat.CommandService.Refusal.{requirement, unmet}
use openboa.Chat.CommandService.Refusal.Stops.{perform-refused}
use openboa.Chat.CommandService.Refusal.Authorized.{IsPermitted, perform-authorized}
use openboa.Chat.CommandService.Refusal.Archived.{perform-archived}
use openboa.Chat.CommandService.Editing.{Shows, edit_conversation_message-edits}
use openboa.Chat.CommandService.Authorship.{
  Fails, edit_conversation_message-only_author, redact_conversation_message-only_author_or_manager,
}
use openboa.Chat.CommandService.Bootstrap.{NoAdminYet, bootstrap_chat_admin-first}
use openboa.Chat.CommandService.Reads.Access.{read_visible_conversations-eq}
use openboa.Chat.CommandService.Reads.Events.{IsShownTo, read_chat_events-confidential}
use openboa.Chat.Tests.{empty_ledger, alice, hello}
use openboa.Chat.Tests.Commands.{empty_ledger-IsOrdered}
use openboa.Chat.Tests.Policy.{hall, member, joined_hall}
use openboa.Prelude.JsMap.{set, values}
use openboa.Prelude.Sorting.{sort_by}
use openboa.Prelude.Text.{trim}
use openboa.Prelude.Lists.{dedupe_by}
use openboa.Chat.Ledger.{
  scope_of, sequence_of, admitted, scoped_events, list_events, next_sequence, append_event, make_id,
  unique, latest_by,
}
use openboa.Chat.Ledger.Messages.{replay_event, replay_events, list_messages, find_message_by_id}
use openboa.Chat.Ledger.Posting.{new_message}
use openboa.Chat.Ledger.Conversations.{
  conversations, room_memberships, hydrate_conversation_participants, list_conversation_records,
  get_conversation_by_id,
}
use openboa.Chat.Ledger.Memberships.{memberships, list_room_membership_records}
use openboa.Chat.Ledger.Grants.{grant_bindings, list_grant_bindings}
use openboa.Chat.Authorization.{
  role_allows, resolve_scoped_role_ids, resolve_conversation_role_ids, evaluate_conversation_action,
}
use openboa.Chat.CommandService.Action.{
  resolve_chat_actor_id, pure, gets, asks, ◌>>=◌, actor_or_default,
}
use openboa.Chat.CommandService.Permission.{
  get_membership, get_bindings_for_subject, evaluate_conversation_permission,
  evaluate_chat_permission, has_manager_authority,
}
use openboa.Chat.CommandService.Grants.{bootstrap_chat_admin}
use openboa.Chat.CommandService.Messages.{edit_conversation_message, redact_conversation_message}
use openboa.Chat.CommandService.Reads.{
  access_state, read_conversation_access_state, can_read_conversation, read_visible_conversations,
  event_conversation, readable_ids, read_chat_events,
}
use openboa.Chat.CommandService.Run.{perform, perform_all}

abbrev env : Env
env = record { clock = λ l. "t9"; default_actor = none }

abbrev with_hall : SharedChatLedger
with_hall =
    append_event
      (append_event (append_event empty_ledger 1 (conversation_upserted hall)) 1
        (grant_binding_upserted member))
      1 (membership_upserted joined_hall)

abbrev greeting : ChatMessage
greeting =
    new_message with_hall
      (record hello { conversation_id = "h"; author = record alice { id = "a" } }) []

abbrev hall_ledger : SharedChatLedger
hall_ledger = append_event with_hall 1 (message_posted greeting)

-- What the methods find on the ledger.
record HallFacts : Type 0 where
  found : get_conversation_by_id hall_ledger "h" hall_ledger.default_scope ≡ some hall
  may_edit : permits (permission_input hall_ledger "a" hall message_edit) ≡ true
  not_blank : truthy (trim "new") ≡ true
  at_id : find_message_by_id hall_ledger "msg-xxxu" hall_ledger.default_scope ≡ some greeting
  in_hall : greeting.conversation_id ≡ "h"
  by_participant : greeting.message_kind ≡ participant_message
  not_redacted : is_truthy greeting.redacted_at ≡ false
  own : greeting.author.id ≡ "a"
  other : (greeting.author.id == "b") ≡ false
  plain : has_manager_authority hall_ledger "b" hall ≡ false
  no_admin : NoAdminYet hall_ledger
  named :
      All
        (λ r. truthy r.conversation_id ≡ true)
        (list_conversation_records hall_ledger hall_ledger.default_scope)
  refused :
      unmet hall_ledger (requirement hall_ledger (archives "h" "a"))
      ≡ some (denied "No active role grants room.archive")
  shown :
      read_chat_events "a" none (some 3) none env hall_ledger
      ≡ (ok (message_posted greeting ∷ []), hall_ledger)

hall_facts : HallFacts
unfolding set values sort_by trim dedupe_by scope_of sequence_of admitted scoped_events list_events
    next_sequence append_event make_id unique latest_by replay_event replay_events list_messages
    find_message_by_id new_message conversations room_memberships hydrate_conversation_participants
    list_conversation_records get_conversation_by_id memberships list_room_membership_records
    grant_bindings list_grant_bindings role_allows resolve_scoped_role_ids
    resolve_conversation_role_ids evaluate_conversation_action pure gets asks ◌>>=◌ actor_or_default
    get_membership get_bindings_for_subject evaluate_conversation_permission has_manager_authority
    access_state read_conversation_access_state can_read_conversation event_conversation
    readable_ids read_chat_events
hall_facts = record {
  found = refl;
  may_edit = refl;
  not_blank = refl;
  at_id = refl;
  in_hall = refl;
  by_participant = refl;
  not_redacted = refl;
  own = refl;
  other = refl;
  plain = refl;
  no_admin = (refl, tt);
  named = (refl, tt);
  refused = refl;
  shown = refl;
}

hall_ledger-IsOrdered : IsOrdered hall_ledger
unfolding sort_by scope_of sequence_of admitted scoped_events list_events next_sequence append_event
    new_message
hall_ledger-IsOrdered =
    append_event-IsOrdered with_hall 1 (message_posted greeting) "s" refl refl refl (
      append_event-IsOrdered _ 1 (membership_upserted joined_hall) "s" refl refl tt (
        append_event-IsOrdered _ 1 (grant_binding_upserted member) "s" refl refl tt (
          append_event-IsOrdered empty_ledger 1 (conversation_upserted hall) "s" refl refl tt
            empty_ledger-IsOrdered)))

perform_all-IsOrdered_example :
    IsOrdered (
      perform_all hall_ledger ((env, edits "h" "a" "msg-xxxu" "new") ∷ (env, bootstraps none) ∷ []))
perform_all-IsOrdered_example =
    perform_all-IsOrdered hall_ledger
      ((env, edits "h" "a" "msg-xxxu" "new") ∷ (env, bootstraps none) ∷ []) hall_ledger-IsOrdered

perform-authorized_example :
    ((perform (joins "h" "b") env hall_ledger).1 ≡ hall_ledger)
    ⊎ IsPermitted hall_ledger (requirement hall_ledger (joins "h" "b"))
perform-authorized_example = perform-authorized env hall_ledger (joins "h" "b")

perform-refused_example :
    perform (archives "h" "a") env hall_ledger
    ≡ (err (denied "No active role grants room.archive"), hall_ledger)
perform-refused_example =
    perform-refused env hall_ledger (denied "No active role grants room.archive") (archives "h" "a")
      hall_facts.refused

edit_conversation_message-edits_example :
    (r : ChatMessage) × (l' : SharedChatLedger) × (edit_conversation_message "h" "a" "msg-xxxu"
        "new" env hall_ledger
      ≡ (ok r, l'))
    × Shows l' greeting "new" r
edit_conversation_message-edits_example =
    edit_conversation_message-edits env hall_ledger "h" "a" "msg-xxxu" "new" hall greeting
      hall_ledger-IsOrdered hall_facts.found hall_facts.may_edit hall_facts.not_blank
      hall_facts.at_id hall_facts.in_hall hall_facts.by_participant hall_facts.not_redacted
      hall_facts.own

edit_conversation_message-only_author_example :
    Fails env hall_ledger (edit_conversation_message "h" "b" "msg-xxxu" "new")
edit_conversation_message-only_author_example =
    edit_conversation_message-only_author env hall_ledger "h" "b" "msg-xxxu" "new" greeting
      hall_facts.at_id hall_facts.other

redact_conversation_message-only_author_or_manager_example :
    Fails env hall_ledger (redact_conversation_message "h" "b" "msg-xxxu")
redact_conversation_message-only_author_or_manager_example =
    redact_conversation_message-only_author_or_manager env hall_ledger "h" "b" "msg-xxxu" hall
      greeting hall_facts.found hall_facts.at_id hall_facts.not_redacted hall_facts.other
      hall_facts.plain

bootstrap_chat_admin-first_example :
    (b : ChatGrantBindingRecord) × (l' : SharedChatLedger) × (bootstrap_chat_admin
        (some "root")
        env
        hall_ledger
      ≡ (ok b, l'))
    × ((evaluate_chat_permission l' (resolve_chat_actor_id env (some "root"))).allowed ≡ true)
    × ((later : Env) (other : Option String)
        → (resolve_chat_actor_id env (some "root") == resolve_chat_actor_id later other) ≡ false
        → bootstrap_chat_admin other later l' ≡ (err admin_bootstrapped, l'))
bootstrap_chat_admin-first_example =
    bootstrap_chat_admin-first env hall_ledger (some "root") hall_ledger-IsOrdered
      hall_facts.no_admin

read_visible_conversations-eq_example : read_visible_conversations "a" env hall_ledger ≡ (
  ok (
      filter
        (λ room.
          (evaluate_conversation_permission hall_ledger
            (resolve_chat_actor_id env (some "a"))
            room
            room_read).allowed)
        (list_conversation_records hall_ledger hall_ledger.default_scope)),
  hall_ledger,
)
read_visible_conversations-eq_example =
    read_visible_conversations-eq env hall_ledger "a" hall_facts.named

read_chat_events-confidential_example :
    All
      (IsShownTo hall_ledger (resolve_chat_actor_id env (some "a")))
      (message_posted greeting ∷ [])
    × (hall_ledger ≡ hall_ledger)
read_chat_events-confidential_example =
    read_chat_events-confidential env hall_ledger "a" none (some 3) none hall_facts.named
      hall_facts.shown

abbrev closed_hall : ChatConversationRecord
closed_hall = record hall { lifecycle_state = ChatConversationLifecycleState.archived }

abbrev closed_ledger : SharedChatLedger
closed_ledger = append_event empty_ledger 1 (conversation_upserted closed_hall)

closed_hall-found :
    get_conversation_by_id closed_ledger "h" closed_ledger.default_scope ≡ some closed_hall
unfolding set values sort_by scope_of admitted scoped_events list_events append_event latest_by
    conversations room_memberships hydrate_conversation_participants list_conversation_records
    get_conversation_by_id memberships unique dedupe_by trim
closed_hall-found = refl

perform-archived_example :
    (e : ChatError) × (perform (joins "h" "b") env closed_ledger ≡ (err e, closed_ledger))
perform-archived_example =
    perform-archived env closed_ledger (joins "h" "b") "h" closed_hall refl closed_hall-found refl
