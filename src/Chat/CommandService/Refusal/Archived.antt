-- ===== src/Chat/CommandService/Refusal/Archived.antt =====
-- The methods of `ChatCommandService` on a room that is archived.
use openboa.Prelude.{
  ◌≡◌, refl, ap, ◌∙◌, String, true, Option, none, some, is_truthy, Bool-cases, inl, inr,
}
use mathlib.Core.Option.{some-injective}
use openboa.Chat.Model.{ChatConversationRecord, ChatError, err, denied, mass_mention_in_thread}
use openboa.Chat.Authorization.{
  ChatActionId, room_join, message_create, message_edit, message_redact, message_react,
  message_mass_mention, is_archived,
}
use openboa.Chat.Authorization.Access.{needs_open_room}
use openboa.Chat.Authorization.Grants.{evaluate_conversation_action-archived}
use openboa.Chat.Ledger.{SharedChatLedger}
use openboa.Chat.Ledger.Conversations.{get_conversation_by_id}
use openboa.Chat.CommandService.Action.{Env}
use openboa.Chat.CommandService.Permission.{evaluate_conversation_permission, permission_input}
use openboa.Chat.CommandService.Messages.{PostConversationMessageInput, normalize_mass_mention}
use openboa.Chat.CommandService.Run.{ServiceCommand, joins, reacts, edits, redacts, posts, perform}
use openboa.Chat.CommandService.Authorship.{Fails}
use openboa.Chat.CommandService.Refusal.{in_room, requirement, unmet}
use openboa.Chat.CommandService.Refusal.Stops.{perform-refused, thread_mention-refused}

-- The room in which a method joins, posts, edits, redacts or reacts.
abbrev pub room_entered : ServiceCommand → Option String
room_entered (joins id p) = some id
room_entered (reacts id actor message emoji on) = some id
room_entered (edits id actor message body) = some id
room_entered (redacts id actor message) = some id
room_entered (posts i) = some i.conversation_id
room_entered _ = none

module _ (env : Env) (l : SharedChatLedger) (id : String) (room : ChatConversationRecord)
    (found : get_conversation_by_id l id l.default_scope ≡ some room)
    (archived : is_archived room.lifecycle_state ≡ true) where
  archived-unmet :
      (actor : String) (action : ChatActionId)
      → needs_open_room action ≡ true
      → unmet l (in_room actor id action)
        ≡ some (denied (evaluate_conversation_permission l actor room action).reason)
  unfolding evaluate_conversation_permission
  archived-unmet actor action n =
      rw
        (
          found,
          evaluate_conversation_action-archived (permission_input l actor room action) archived n,
        )
        refl

  stopped :
      (c : ServiceCommand) (actor : String) (action : ChatActionId)
      → requirement l c ≡ in_room actor id action
      → needs_open_room action ≡ true
      → Fails env l (perform c)
  stopped c actor action r n =
      (_, perform-refused env l _ c (ap (unmet l) r ∙ archived-unmet actor action n))

  posting-Fails :
      (i : PostConversationMessageInput) → i.conversation_id ≡ id → Fails env l (perform (posts i))
  posting-Fails i here = elim (Bool-cases (normalize_mass_mention i.body)) [
    | inr m ↦ stopped (posts i) i.sender_id message_create (rw (m, here) refl) refl
    | inl m ↦ elim (Bool-cases (is_truthy i.thread_id)) [
      | inr t ↦ stopped (posts i) i.sender_id message_mass_mention (rw (m, t, here) refl) refl
      | inl t ↦ (
        mass_mention_in_thread,
        thread_mention-refused env l i room
            (ap (λ j. get_conversation_by_id l j l.default_scope) here ∙ found) m t,
      )
    ]
  ]

  entering-Fails : (c : ServiceCommand) → room_entered c ≡ some id → Fails env l (perform c)
  entering-Fails (joins j p) h =
      stopped (joins j p) p room_join (ap (λ k. in_room p k room_join) (some-injective j id h)) refl
  entering-Fails (reacts j actor message emoji on) h =
      stopped (reacts j actor message emoji on) actor message_react
        (ap (λ k. in_room actor k message_react) (some-injective j id h)) refl
  entering-Fails (edits j actor message body) h =
      stopped (edits j actor message body) actor message_edit
        (ap (λ k. in_room actor k message_edit) (some-injective j id h)) refl
  entering-Fails (redacts j actor message) h =
      stopped (redacts j actor message) actor message_redact
        (ap (λ k. in_room actor k message_redact) (some-injective j id h)) refl
  entering-Fails (posts i) h = posting-Fails i (some-injective i.conversation_id id h)
  entering-Fails _ h = cc

-- In a room that is archived nobody joins, posts, edits, redacts or reacts by the methods of the command
-- service, whatever the grants: the method throws and leaves the ledger as it is.
pub perform-archived :
    (env : Env) (l : SharedChatLedger) (c : ServiceCommand) (id : String)
    (room : ChatConversationRecord)
    → room_entered c ≡ some id
    → get_conversation_by_id l id l.default_scope ≡ some room
    → is_archived room.lifecycle_state ≡ true
    → (e : ChatError) × (perform c env l ≡ (err e, l))
perform-archived env l c id room h found archived = entering-Fails env l id room found archived c h
