-- ===== src/Chat/CommandService/Refusal/Stops.antt =====
-- A method whose requirement is not met stops before it writes.
use openboa.Prelude.{
  ◌≡◌, refl, String, Bool, true, false, Option, none, some, inl, inr, if◌then◌else◌, truthy,
  is_truthy, Bool-cases, Option-cases,
}
use openboa.Chat.Model.{
  ChatConversationRecord, ChatGrantBindingRecord, ChatError, err, ok, room_missing, binding_missing,
  ChatRoleId, mass_mention_in_thread,
}
use openboa.Chat.Authorization.{
  ChatActionId, room_read, room_join, room_leave, room_membership_manage, room_grant_manage,
  room_settings_update, room_archive, message_create, message_edit, message_redact, message_react,
  message_mass_mention,
}
use openboa.Chat.Ledger.{SharedChatLedger}
use openboa.Chat.Ledger.Conversations.{get_conversation_by_id}
use openboa.Chat.Ledger.Grants.{get_grant_binding}
use openboa.Chat.CommandService.Action.{
  Action, Env, pure, gets, raise, or_raise, ensure, ◌>>=◌, if_truthy,
}
use openboa.Chat.CommandService.Permission.{
  require_conversation, assert_conversation_action, assert_chat_action,
}
use openboa.Chat.CommandService.Grants.{
  grant_conversation_role, grant_chat_role, revoke_binding, binding_room, assert_may_revoke,
}
use openboa.Chat.CommandService.Rooms.{
  join_conversation, leave_conversation, remove_conversation_participant,
  update_conversation_settings, archive_conversation,
}
use openboa.Chat.CommandService.Messages.{
  PostConversationMessageInput, normalize_mass_mention, post_message, edit_conversation_message,
  redact_conversation_message, set_conversation_reaction,
}
use openboa.Chat.CommandService.Cursors.{mark_conversation_read, set_attachment_state}
use openboa.Chat.CommandService.Run.{
  ServiceCommand, registers, creates_channel, ensures_direct, bootstraps, revokes_in_room, joins,
  leaves, removes, grants_role, grants_chat_role, revokes, updates_settings, archives, marks_read,
  attaches, reacts, edits, redacts, posts, to_unit, perform,
}
use openboa.Chat.CommandService.Running.{require_conversation-found}
use openboa.Chat.CommandService.Refusal.{
  free, in_room, in_chat, of_granter, to_revoke_in, to_revoke, to_post, requirement, in_room_error,
  unmet,
}

module _ (env : Env) (l : SharedChatLedger) (e : ChatError) where
  -- The method ends at once with the error.
  abbrev Stops : {A : Type 0} → Action A → Type 0
  Stops m = m env l ≡ (err e, l)

  bind-Stops : {A B : Type 0} (m : Action A) (f : A → Action B) → Stops m → Stops (m >>= f)
  unfolding ◌>>=◌
  bind-Stops m f h = rw h

  bind_later-Stops :
      {A B : Type 0} (m : Action A) (f : A → Action B) (a : A)
      → m env l ≡ (ok a, l)
      → Stops (f a)
      → Stops (m >>= f)
  unfolding ◌>>=◌
  bind_later-Stops m f a p h = rw (p, h)

  ensure-Stops :
      (b : Bool) (r : ChatError) → (if b then none else some r) ≡ some e → Stops (ensure b r)
  unfolding ensure
  ensure-Stops true r h = cc
  ensure-Stops false r h = cc

  assert-Stops :
      (actor : String) (room : ChatConversationRecord) (action : ChatActionId) (id : String)
      → in_room_error l actor action id (some room) ≡ some e
      → Stops (assert_conversation_action actor room action)
  unfolding assert_conversation_action ◌>>=◌ gets
  assert-Stops actor room action id h = ensure-Stops _ _ h

  assert_chat-Stops :
      (actor : String) → unmet l (in_chat actor) ≡ some e → Stops (assert_chat_action actor)
  unfolding assert_chat_action ◌>>=◌ gets
  assert_chat-Stops actor h = ensure-Stops _ _ h

  require-missing :
      (id : String)
      → get_conversation_by_id l id l.default_scope ≡ none
      → some (room_missing id) ≡ some e
      → Stops (require_conversation id)
  unfolding require_conversation ◌>>=◌ gets raise
  require-missing id p h = rw p (cc)

  no_error : unmet l free ≡ some e → ⊥
  no_error q = cc

  -- A method that looks up a room first.
  in_room-Stops :
      {A : Type 0} (actor id : String) (action : ChatActionId)
      (rest : ChatConversationRecord → Action A)
      → unmet l (in_room actor id action) ≡ some e
      → ((room : ChatConversationRecord)
          → Stops (assert_conversation_action actor room action)
          → Stops (rest room))
      → Stops (require_conversation id >>= rest)
  in_room-Stops actor id action rest h refused =
      elim (Option-cases (get_conversation_by_id l id l.default_scope)) [
        | inl p ↦ bind-Stops _ _ (require-missing id p (rw p at h))
        | inr (room, p) ↦
            bind_later-Stops _ _ room (require_conversation-found env l id room p)
              (refused room (assert-Stops actor room action id (rw p at h)))
      ]

  -- A method that looks up its room and checks one permission before anything else.
  checked-Stops :
      {A : Type 0} (actor id : String) (action : ChatActionId)
      (rest : ChatConversationRecord → Unit {0} → Action A)
      → unmet l (in_room actor id action) ≡ some e
      → Stops (
          require_conversation id >>= λ room.
          assert_conversation_action actor room action >>= rest room)
  checked-Stops actor id action rest h =
      in_room-Stops actor id action _ h (λ room k. bind-Stops _ _ k)

  granter-Stops :
      (by : String) (body : String → Action (Unit {0}))
      → truthy by ≡ true
      → Stops (body by)
      → Stops (if_truthy (some by) body)
  granter-Stops by body t h = rw t h

  grants-Stops :
      (id subject : String) (role : ChatRoleId) (by : Option String)
      → unmet l (of_granter by (λ actor. in_room actor id room_grant_manage)) ≡ some e
      → Stops (grant_conversation_role id subject role by)
  unfolding grant_conversation_role
  grants-Stops id subject role none h = cc
  grants-Stops id subject role (some by) h = elim (Bool-cases (truthy by)) [
    | inl t ↦ in_room-Stops by id room_grant_manage _ (rw t at h) (λ room k.
        bind-Stops _ _
          (granter-Stops by (λ actor. assert_conversation_action actor room room_grant_manage) t k))
    | inr t ↦ absurd (no_error (rw t at h))
  ]

  chat_grants-Stops :
      (subject : String) (role : ChatRoleId) (by : Option String)
      → unmet l (of_granter by in_chat) ≡ some e
      → Stops (grant_chat_role subject role by)
  unfolding grant_chat_role
  chat_grants-Stops subject role none h = cc
  chat_grants-Stops subject role (some by) h = elim (Bool-cases (truthy by)) [
    | inl t ↦
        bind-Stops _ _ (granter-Stops by assert_chat_action t (assert_chat-Stops by (rw t at h)))
    | inr t ↦ absurd (no_error (rw t at h))
  ]

  may_revoke-Stops :
      (b : ChatGrantBindingRecord) (by : String) (room : Option String)
      → unmet l (to_revoke_in room by) ≡ some e
      → Stops (assert_may_revoke b room by)
  may_revoke-Stops b by none h = assert_chat-Stops by h
  may_revoke-Stops b by (some id) h = in_room-Stops by id room_grant_manage _ h (λ room k. k)

  revokes-Stops :
      (id : String) (by : Option String)
      → unmet l (of_granter by (to_revoke (get_grant_binding l id l.default_scope))) ≡ some e
      → Stops (revoke_binding id by)
  unfolding revoke_binding gets pure
  revokes-Stops id none h = cc
  revokes-Stops id (some by) h = elim (Bool-cases (truthy by)) [
    | inr t ↦ absurd (no_error (rw t at h))
    | inl t ↦ elim (Option-cases (get_grant_binding l id l.default_scope)) [
      | inl p ↦ absurd (no_error (rw (t, p) at h))
      | inr (b, p) ↦ bind_later-Stops _ _ (some b) (rw p) (
          bind_later-Stops (or_raise (some b) (binding_missing id)) _ b refl (
            bind-Stops _ _ (
              granter-Stops by (assert_may_revoke b (binding_room b)) t
                (may_revoke-Stops b by (binding_room b) (rw (t, p) at h)))))
    ]
  ]

  posts-Stops :
      (i : PostConversationMessageInput) → unmet l (to_post i) ≡ some e → Stops (post_message i)
  unfolding post_message ◌>>=◌ ensure pure
  posts-Stops i h = elim (Bool-cases (normalize_mass_mention i.body)) [
    | inr m ↦
        in_room-Stops i.sender_id i.conversation_id message_create _ (rw m at h)
          (λ room k. rw (m, k) refl)
    | inl m ↦ elim (Bool-cases (is_truthy i.thread_id)) [
      | inl t ↦ absurd (no_error (rw (m, t) at h))
      | inr t ↦
          in_room-Stops i.sender_id i.conversation_id message_mass_mention _ (rw (m, t) at h)
            (λ room k. rw (m, t, k) refl)
    ]
  ]

  -- A method whose requirement is not met ends in the error of the requirement, the room that is
  -- missing or the reason of the decision, and leaves the ledger as it is.
  pub perform-refused :
      (c : ServiceCommand) → unmet l (requirement l c) ≡ some e → perform c env l ≡ (err e, l)
  unfolding perform to_unit join_conversation leave_conversation remove_conversation_participant
      update_conversation_settings archive_conversation mark_conversation_read set_attachment_state
      set_conversation_reaction edit_conversation_message redact_conversation_message
  perform-refused (joins id p) h = bind-Stops _ _ (checked-Stops p id room_join _ h)
  perform-refused (leaves id p) h = bind-Stops _ _ (checked-Stops p id room_leave _ h)
  perform-refused (removes id actor p) h =
      bind-Stops _ _ (checked-Stops actor id room_membership_manage _ h)
  perform-refused (grants_role id subject role by) h =
      bind-Stops _ _ (grants-Stops id subject role by h)
  perform-refused (grants_chat_role subject role by) h =
      bind-Stops _ _ (chat_grants-Stops subject role by h)
  perform-refused (revokes id by) h = bind-Stops _ _ (revokes-Stops id by h)
  perform-refused (updates_settings i) h =
      bind-Stops _ _ (checked-Stops i.updated_by_id i.conversation_id room_settings_update _ h)
  perform-refused (archives id actor) h = bind-Stops _ _ (checked-Stops actor id room_archive _ h)
  perform-refused (marks_read id actor thread) h =
      bind-Stops _ _ (checked-Stops actor id room_read _ h)
  perform-refused (attaches id actor thread on) h =
      bind-Stops _ _ (checked-Stops actor id room_read _ h)
  perform-refused (reacts id actor message emoji on) h =
      bind-Stops _ _ (checked-Stops actor id message_react _ h)
  perform-refused (edits id actor message body) h =
      bind-Stops _ _ (checked-Stops actor id message_edit _ h)
  perform-refused (redacts id actor message) h =
      bind-Stops _ _ (checked-Stops actor id message_redact _ h)
  perform-refused (posts i) h = bind-Stops _ _ (posts-Stops i h)
  perform-refused (registers id name cs) h = cc
  perform-refused (creates_channel i) h = cc
  perform-refused (ensures_direct ps title) h = cc
  perform-refused (bootstraps subject) h = cc
  perform-refused (revokes_in_room id binding actor) h = cc

-- A mass mention in a thread of a room that is there is refused, whatever the permissions.
pub thread_mention-refused :
    (env : Env) (l : SharedChatLedger) (i : PostConversationMessageInput)
    (room : ChatConversationRecord)
    → get_conversation_by_id l i.conversation_id l.default_scope ≡ some room
    → normalize_mass_mention i.body ≡ true
    → is_truthy i.thread_id ≡ true
    → perform (posts i) env l ≡ (err mass_mention_in_thread, l)
unfolding perform to_unit post_message ensure ◌>>=◌
thread_mention-refused env l i room found m t =
    bind-Stops env l mass_mention_in_thread (post_message i) _ (
      bind_later-Stops env l mass_mention_in_thread (require_conversation i.conversation_id) _ room
        (require_conversation-found env l i.conversation_id room found) (rw (m, t) refl))
