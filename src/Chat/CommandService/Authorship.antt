-- ===== src/Chat/CommandService/Authorship.antt =====
-- Whose messages `editMessage` and `redactMessage` of src/chat/policy/command-service.ts touch.
use openboa.Prelude.{
  ◌≡◌, refl, sym, ap, ◌∙◌, String, Bool, true, false, some, ◌==◌, Bool-cases, Option-cases, ◌⊎◌,
  inl, inr, if◌then◌else◌, truthy, trim, is_truthy,
}
use mathlib.Core.Option.{some-injective}
use openboa.Chat.Model.{
  ChatError, ok, err, ChatConversationRecord, ChatMessage, message_missing, room_missing,
}
use openboa.Chat.Authorization.{ChatActionId, message_edit, message_redact}
use openboa.Chat.Ledger.{SharedChatLedger}
use openboa.Chat.Ledger.Conversations.{get_conversation_by_id}
use openboa.Chat.Ledger.Messages.{find_message_by_id}
use openboa.Chat.CommandService.Action.{Action, Env, pure, raise, gets, ensure, ◌>>=◌}
use openboa.Chat.CommandService.Permission.{
  require_conversation, assert_conversation_action, evaluate_conversation_permission,
  has_manager_authority,
}
use openboa.Chat.CommandService.Messages.{
  edit_conversation_message, redact_conversation_message, require_message, write_redaction,
}

module _ (env : Env) (l : SharedChatLedger) where
  -- The method throws and changes nothing.
  abbrev pub Fails : {A : Type 0} → Action A → Type 0
  Fails m = (e : ChatError) × (m env l ≡ (err e, l))

  -- The method returns one value that has the property, or throws; it changes nothing.
  abbrev Checks : {A : Type 0} → (A → Type 0) → Action A → Type 0
  Checks {A} P m = ((a : A) × P a × (m env l ≡ (ok a, l))) ⊎ Fails m

  bind-Fails :
      {A B : Type 0} (P : A → Type 0) (m : Action A) (f : A → Action B)
      → Checks P m
      → ((a : A) → P a → Fails (f a))
      → Fails (m >>= f)
  unfolding ◌>>=◌
  bind-Fails P m f (inl (a, x, p)) h = let (e, q) = h a x in (e, rw p q)
  bind-Fails P m f (inr (e, p)) h = (e, rw p refl)

  ensure-Checks : (b : Bool) (e : ChatError) → Checks (λ u. b ≡ true) (ensure b e)
  unfolding ensure
  ensure-Checks true e = inl (tt, refl, refl)
  ensure-Checks false e = inr (e, refl)

  require-Checks :
      (id : String)
      → Checks
          (λ room. get_conversation_by_id l id l.default_scope ≡ some room)
          (require_conversation id)
  unfolding require_conversation ◌>>=◌ gets pure raise
  require-Checks id = elim (Option-cases (get_conversation_by_id l id l.default_scope)) [
    | inl p ↦ inr (room_missing id, rw p refl)
    | inr (room, p) ↦ inl (room, p, rw p refl)
  ]

  assert-Checks :
      (actor : String) (room : ChatConversationRecord) (action : ChatActionId)
      → Checks
          (λ u. (evaluate_conversation_permission l actor room action).allowed ≡ true)
          (assert_conversation_action actor room action)
  unfolding assert_conversation_action ◌>>=◌ gets
  assert-Checks actor room action = ensure-Checks _ _

  -- The message that the call goes on with is the one that the ledger has, and stands in the room.
  message-Checks :
      (room : ChatConversationRecord) (id : String) (m : ChatMessage)
      → find_message_by_id l id l.default_scope ≡ some m
      → Checks
          (λ a. (a ≡ m) × ((m.conversation_id == room.conversation_id) ≡ true))
          (require_message room id)
  unfolding require_message ◌>>=◌ gets pure raise
  message-Checks room id m h = elim (Bool-cases (m.conversation_id == room.conversation_id)) [
    | inl t ↦ inl (m, (refl, t), rw (h, t) refl)
    | inr t ↦ inr (message_missing id, rw (h, t) refl)
  ]

  gets-ok : {A : Type 0} (f : SharedChatLedger → A) → gets f env l ≡ (ok (f l), l)
  unfolding gets
  gets-ok f = refl

  refused : (b : Bool) (e : ChatError) → b ≡ false → Fails (ensure b e)
  unfolding ensure
  refused b e h = (e, rw h refl)

  bind-Fails_first : {A B : Type 0} (m : Action A) (f : A → Action B) → Fails m → Fails (m >>= f)
  unfolding ◌>>=◌
  bind-Fails_first m f (e, p) = (e, rw p refl)

  -- An edit of another's message throws and leaves the ledger as it is, whatever the roles of the one
  -- who asks.
  pub edit_conversation_message-only_author :
      (conversation_id actor id body : String) (m : ChatMessage)
      → find_message_by_id l id l.default_scope ≡ some m
      → (m.author.id == actor) ≡ false
      → Fails (edit_conversation_message conversation_id actor id body)
  unfolding edit_conversation_message
  edit_conversation_message-only_author conversation_id actor id body m found other =
      bind-Fails _ _ _ (require-Checks conversation_id) λ room r.
        bind-Fails _ _ _ (assert-Checks actor room message_edit) λ _ a.
          bind-Fails _ _ _ (ensure-Checks (truthy (trim body)) _) λ _ b.
            bind-Fails _ _ _ (message-Checks room id m found) λ x p.
              bind-Fails _ _ _ (ensure-Checks _ _) λ _ k.
                bind-Fails _ _ _ (ensure-Checks _ _) λ _ u.
                  bind-Fails_first _ _ (refused _ _ (ap (λ y. y.author.id == actor) (p.0) ∙ other))

  redaction_refused :
      (room : ChatConversationRecord) (m : ChatMessage) (actor asked : String)
      → is_truthy m.redacted_at ≡ false
      → (m.author.id == actor) ≡ false
      → has_manager_authority l actor room ≡ false
      → Fails (if is_truthy m.redacted_at then pure m else write_redaction room m actor asked)
  unfolding write_redaction
  redaction_refused room m actor asked u other plain = rw u (
      bind-Fails (λ b. b ≡ false) _ _ (inl (has_manager_authority l actor room, plain, at_gets))
        λ b n. bind-Fails_first _ _ (refused _ _ (rw (other, n) refl)))
    where
      at_gets :
          gets (λ l. has_manager_authority l actor room) env l
          ≡ (ok (has_manager_authority l actor room), l)
      at_gets = gets-ok (λ l. has_manager_authority l actor room)

  -- A redaction of another's message by one who does not manage the room, a message that is not yet
  -- redacted, throws and leaves the ledger as it is.
  pub redact_conversation_message-only_author_or_manager :
      (conversation_id actor id : String) (room : ChatConversationRecord) (m : ChatMessage)
      → get_conversation_by_id l conversation_id l.default_scope ≡ some room
      → find_message_by_id l id l.default_scope ≡ some m
      → is_truthy m.redacted_at ≡ false
      → (m.author.id == actor) ≡ false
      → has_manager_authority l actor room ≡ false
      → Fails (redact_conversation_message conversation_id actor id)
  unfolding redact_conversation_message write_redaction
  redact_conversation_message-only_author_or_manager conversation_id actor id room m here found u
        other plain =
      bind-Fails _ _ _ (require-Checks conversation_id) λ room' r.
        bind-Fails _ _ _ (assert-Checks actor room' message_redact) λ _ a.
          bind-Fails _ _ _ (message-Checks room' id m found) λ x p.
            bind-Fails _ _ _ (ensure-Checks _ _) λ _ k.
              redaction_refused room' x actor id (ap (λ y. is_truthy y.redacted_at) (p.0) ∙ u)
                (ap (λ y. y.author.id == actor) (p.0) ∙ other)
                (ap (has_manager_authority l actor) (some-injective room' room (sym r ∙ here))
                  ∙ plain)
