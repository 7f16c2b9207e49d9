-- ===== src/Chat/CommandService/Appending.antt =====
-- The methods of `ChatCommandService` only append: one rule for each way to build a method.
pub mod Grants
pub mod Rooms
pub mod Messages
pub mod Methods
use openboa.Prelude.{
  ◌≡◌, refl, ap, ◌∙◌, subst, Bool, true, false, String, Option, none, some, if◌then◌else◌, truthy,
}
use openboa.Chat.Model.{
  ChatError, Result, ok, err, ChatMessageInput, ChatGrantBindingInput, ChatCursorInput,
  ChatConversationAttachmentInput, ChatConversationInput, ChatParticipantUpsertInput,
}
use openboa.Chat.Ledger.{SharedChatLedger, append_event}
use openboa.Chat.Ledger.Order.{Appends, same, write, skip, Appends-trans}
use openboa.Chat.Ledger.Posting.{EditInput, RedactInput, ReactionInput}
use openboa.Chat.Ledger.Commands.{Command, after, run_command, run_command-Appends}
use openboa.Chat.CommandService.Action.{
  Env, Action, pure, raise, gets, asks, calls, kept, or_raise, continue, ◌>>=◌, ensure, done,
  if_truthy, now_iso_string, actor_or_default, make_uuid_v7, ledger_append_message,
  ledger_edit_message, ledger_redact_message, ledger_set_message_reaction,
  ledger_create_grant_binding, ledger_revoke_grant_binding, ledger_upsert_cursor,
  ledger_upsert_attachment, ledger_upsert_participant, ledger_ensure_conversation,
  ledger_update_conversation,
}

-- Whether it returns or throws, `m` only appends to the ledger's own scope.
pub record IsAppending {A : Type 0} (m : Action A) : Type 0 where
  pub at : (env : Env) (l : SharedChatLedger) → Appends l.default_scope l (m env l).1

pub Appends-default_scope :
    {scope : String} {l m : SharedChatLedger}
    → Appends scope l m
    → m.default_scope ≡ l.default_scope
unfolding append_event
Appends-default_scope same = refl
Appends-default_scope (write taken e p s n st t) = Appends-default_scope p
Appends-default_scope (skip p) = Appends-default_scope p

module _ {A : Type 0} where
  pub pure-IsAppending : (a : A) → IsAppending (pure a)
  unfolding pure
  pure-IsAppending a = record { at = λ env l. same }

  pub raise-IsAppending : (e : ChatError) → IsAppending (raise {A = A} e)
  unfolding raise
  raise-IsAppending e = record { at = λ env l. same }

  pub gets-IsAppending : (f : SharedChatLedger → A) → IsAppending (gets f)
  unfolding gets
  gets-IsAppending f = record { at = λ env l. same }

  pub asks-IsAppending : (f : SharedChatLedger → Result A) → IsAppending (asks f)
  unfolding asks
  asks-IsAppending f = record { at = λ env l. same }

  pub or_raise-IsAppending : (o : Option A) (e : ChatError) → IsAppending (or_raise o e)
  or_raise-IsAppending none e = raise-IsAppending e
  or_raise-IsAppending (some a) e = pure-IsAppending a

  pub if-IsAppending :
      (b : Bool) (m n : Action A) → IsAppending m → IsAppending n → IsAppending (if b then m else n)
  if-IsAppending true m n hm hn = hm
  if-IsAppending false m n hm hn = hn

  kept-after : (l : SharedChatLedger) (r : Result (A × SharedChatLedger)) → (kept l r).1 ≡ after l r
  kept-after l (ok (a, l')) = refl
  kept-after l (err e) = refl

  calls-IsAppending :
      (f : SharedChatLedger → Result (A × SharedChatLedger))
      → ((l : SharedChatLedger) → Appends l.default_scope l (after l (f l)))
      → IsAppending (calls f)
  unfolding calls
  calls-IsAppending f h = record { at = λ env l. rw (kept-after l (f l)) (h l) }

module _ {A B : Type 0} where
  continue-Appends :
      (scope : String) (env : Env) (l : SharedChatLedger) (r : Result A × SharedChatLedger)
      (f : A → Action B)
      → ((a : A) → IsAppending (f a))
      → Appends scope l r.1
      → l.default_scope ≡ scope
      → Appends scope l (continue r f env).1
  continue-Appends scope env l (err e, m) f hf p q = p
  continue-Appends scope env l (ok a, m) f hf p q =
      Appends-trans p
        (subst (λ s. Appends s m (f a env m).1) (Appends-default_scope p ∙ q) ((hf a).at env m))

  pub bind-IsAppending :
      (m : Action A) (f : A → Action B)
      → IsAppending m
      → ((a : A) → IsAppending (f a))
      → IsAppending (m >>= f)
  unfolding ◌>>=◌
  bind-IsAppending m f hm hf = record {
    at = λ env l. continue-Appends l.default_scope env l (m env l) f hf (hm.at env l) refl;
  }

pub ensure-IsAppending : (b : Bool) (e : ChatError) → IsAppending (ensure b e)
unfolding ensure
ensure-IsAppending true e = record { at = λ env l. same }
ensure-IsAppending false e = record { at = λ env l. same }

pub if_truthy-IsAppending :
    (o : Option String) (body : String → Action (Unit {0}))
    → ((s : String) → IsAppending (body s))
    → IsAppending (if_truthy o body)
if_truthy-IsAppending none body h = pure-IsAppending tt
if_truthy-IsAppending (some s) body h =
    if-IsAppending (truthy s) (body s) done (h s) (pure-IsAppending tt)

pub now_iso_string-IsAppending : IsAppending now_iso_string
unfolding now_iso_string
now_iso_string-IsAppending = record { at = λ env l. same }

pub actor_or_default-IsAppending : (v : Option String) → IsAppending (actor_or_default v)
unfolding actor_or_default
actor_or_default-IsAppending v = record { at = λ env l. same }

pub make_uuid_v7-IsAppending : IsAppending make_uuid_v7
unfolding make_uuid_v7
make_uuid_v7-IsAppending = record { at = λ env l. skip same }

-- The writing calls, by the theorem on the ledger's commands.
pub ledger_append_message-IsAppending :
    (i : ChatMessageInput) → IsAppending (ledger_append_message i)
unfolding ledger_append_message run_command
ledger_append_message-IsAppending i =
    calls-IsAppending _
      λ l. run_command-Appends l (Command.posts (record i { scope_id = some l.default_scope }))

pub ledger_edit_message-IsAppending : (i : EditInput) → IsAppending (ledger_edit_message i)
unfolding ledger_edit_message run_command
ledger_edit_message-IsAppending i =
    calls-IsAppending _
      λ l. run_command-Appends l (Command.edits (record i { scope_id = some l.default_scope }))

pub ledger_redact_message-IsAppending : (i : RedactInput) → IsAppending (ledger_redact_message i)
unfolding ledger_redact_message run_command
ledger_redact_message-IsAppending i =
    calls-IsAppending _
      λ l. run_command-Appends l (Command.redacts (record i { scope_id = some l.default_scope }))

pub ledger_set_message_reaction-IsAppending :
    (i : ReactionInput) → IsAppending (ledger_set_message_reaction i)
unfolding ledger_set_message_reaction run_command
ledger_set_message_reaction-IsAppending i =
    calls-IsAppending _
      λ l. run_command-Appends l (Command.reacts (record i { scope_id = some l.default_scope }))

pub ledger_create_grant_binding-IsAppending :
    (i : ChatGrantBindingInput) → IsAppending (ledger_create_grant_binding i)
unfolding ledger_create_grant_binding run_command
ledger_create_grant_binding-IsAppending i =
    calls-IsAppending _
      λ l. run_command-Appends l (Command.grants (record i { scope_id = some l.default_scope }))

pub ledger_revoke_grant_binding-IsAppending :
    (id at : String) → IsAppending (ledger_revoke_grant_binding id at)
unfolding ledger_revoke_grant_binding run_command
ledger_revoke_grant_binding-IsAppending id at =
    calls-IsAppending _ λ l. run_command-Appends l (Command.revokes id at l.default_scope)

pub ledger_upsert_cursor-IsAppending : (i : ChatCursorInput) → IsAppending (ledger_upsert_cursor i)
unfolding ledger_upsert_cursor run_command
ledger_upsert_cursor-IsAppending i =
    calls-IsAppending _ λ l.
      run_command-Appends l (Command.moves_cursor (record i { scope_id = some l.default_scope }))

pub ledger_upsert_attachment-IsAppending :
    (i : ChatConversationAttachmentInput) → IsAppending (ledger_upsert_attachment i)
unfolding ledger_upsert_attachment run_command
ledger_upsert_attachment-IsAppending i =
    calls-IsAppending _
      λ l. run_command-Appends l (Command.attaches (record i { scope_id = some l.default_scope }))

pub ledger_upsert_participant-IsAppending :
    (i : ChatParticipantUpsertInput) → IsAppending (ledger_upsert_participant i)
unfolding ledger_upsert_participant run_command
ledger_upsert_participant-IsAppending i =
    calls-IsAppending _
      λ l. run_command-Appends l (Command.registers (record i { scope_id = some l.default_scope }))

pub ledger_ensure_conversation-IsAppending :
    (i : ChatConversationInput) → IsAppending (ledger_ensure_conversation i)
unfolding ledger_ensure_conversation run_command
ledger_ensure_conversation-IsAppending i =
    calls-IsAppending _
      λ l. run_command-Appends l (Command.ensures (record i { scope_id = some l.default_scope }))

pub ledger_update_conversation-IsAppending :
    (id : String) (i : ChatConversationInput) → IsAppending (ledger_update_conversation id i)
unfolding ledger_update_conversation run_command
ledger_update_conversation-IsAppending id i =
    calls-IsAppending _
      λ l. run_command-Appends l (Command.updates id (record i { scope_id = some l.default_scope }))

pub ruleset appending_rules = (
  pure-IsAppending, raise-IsAppending, gets-IsAppending, asks-IsAppending, or_raise-IsAppending,
  if-IsAppending, bind-IsAppending, ensure-IsAppending, if_truthy-IsAppending,
  now_iso_string-IsAppending, actor_or_default-IsAppending, make_uuid_v7-IsAppending,
  ledger_append_message-IsAppending, ledger_edit_message-IsAppending,
  ledger_redact_message-IsAppending, ledger_set_message_reaction-IsAppending,
  ledger_create_grant_binding-IsAppending, ledger_revoke_grant_binding-IsAppending,
  ledger_upsert_cursor-IsAppending, ledger_upsert_attachment-IsAppending,
  ledger_upsert_participant-IsAppending, ledger_ensure_conversation-IsAppending,
  ledger_update_conversation-IsAppending,
)
