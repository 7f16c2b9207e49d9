-- ===== src/Chat/CommandService/Running.antt =====
-- How the methods of `ChatCommandService` run, step by step.
use openboa.Prelude.{◌≡◌, refl, sym, ap, ◌∙◌, String, Bool, true, false, some}
use openboa.Chat.Model.{ChatError, Result, ok, err, ChatConversationRecord}
use openboa.Chat.Authorization.{ChatActionId}
use openboa.Chat.Authorization.Access.{permits, evaluate_conversation_action-eq-permits}
use openboa.Chat.Ledger.{SharedChatLedger}
use openboa.Chat.Ledger.Conversations.{get_conversation_by_id}
use openboa.Chat.CommandService.Action.{Action, Env, pure, gets, ensure, ◌>>=◌, continue}
use openboa.Chat.CommandService.Permission.{
  require_conversation, assert_conversation_action, evaluate_conversation_permission,
  permission_input,
}

module _ (env : Env) (l : SharedChatLedger) where
  -- A step that returns is followed by the next one, in the state that it leaves.
  pub bind-ok :
      {A B : Type 0} (m : Action A) (f : A → Action B) (a : A) (l' : SharedChatLedger)
      → m env l ≡ (ok a, l')
      → (m >>= f) env l ≡ f a env l'
  unfolding ◌>>=◌
  bind-ok m f a l' h = rw h refl

  -- A chain that returns has returned from its first step.
  pub bind-returned :
      {A B : Type 0} (m : Action A) (f : A → Action B) (b : B) (l'' : SharedChatLedger)
      → (m >>= f) env l ≡ (ok b, l'')
      → (a : A) × (l' : SharedChatLedger) × (m env l ≡ (ok a, l')) × (f a env l' ≡ (ok b, l''))
  unfolding ◌>>=◌
  bind-returned {A} m f b l'' h = first (m env l) refl h
    where
      first :
          (r : Result A × SharedChatLedger)
          → m env l ≡ r
          → continue r f env ≡ (ok b, l'')
          → (a : A) × (l' : SharedChatLedger) × (m env l ≡ (ok a, l')) × (f a env l' ≡ (ok b, l''))
      first (ok a, l') p q = (a, l', p, q)
      first (err e, l') p q = absurd (thrown (ap (λ t. t.0) q))
        where
          thrown : err e ≡ ok b → ⊥
          thrown t = cc

  pub ensure-holds : (b : Bool) (e : ChatError) → b ≡ true → ensure b e env l ≡ (ok tt, l)
  unfolding ensure
  ensure-holds b e h = rw h refl

  pub ensure-returned :
      (b : Bool) (e : ChatError) (l' : SharedChatLedger)
      → ensure b e env l ≡ (ok tt, l')
      → (b ≡ true) × (l' ≡ l)
  unfolding ensure
  ensure-returned true e l' h = (refl, sym (ap (λ t. t.1) h))
  ensure-returned false e l' h = absurd (thrown (ap (λ t. t.0) h))
    where
      thrown : Path (Result (Unit {0})) (err e) (ok tt) → ⊥
      thrown t = cc

  pub require_conversation-found :
      (id : String) (room : ChatConversationRecord)
      → get_conversation_by_id l id l.default_scope ≡ some room
      → require_conversation id env l ≡ (ok room, l)
  unfolding require_conversation ◌>>=◌ gets pure
  require_conversation-found id room p = rw p refl

  pub assert_conversation_action-permits :
      (actor : String) (room : ChatConversationRecord) (action : ChatActionId)
      → permits (permission_input l actor room action) ≡ true
      → assert_conversation_action actor room action env l ≡ (ok tt, l)
  unfolding assert_conversation_action evaluate_conversation_permission ◌>>=◌ gets ensure
  assert_conversation_action-permits actor room action h =
      rw (evaluate_conversation_action-eq-permits (permission_input l actor room action) ∙ h) refl
