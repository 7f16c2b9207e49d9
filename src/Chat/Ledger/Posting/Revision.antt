-- ===== src/Chat/Ledger/Posting/Revision.antt =====
-- What `appendMessage` of src/chat/core/ledger.ts writes: where the new message stands and how its
-- revision compares.
use openboa.Prelude.{
  ◌<◌, String, ◌≡◌, refl, sym, ap, ◌∙◌, true, false, Option, none, some, List, [], ◌∷◌, ◌++◌, All,
  All-map, arith, ◌⊎◌, inl, inr,
}
use openboa.Chat.Model.{
  ChatMessage, ChatMessageInput, ok, ◌>>=◌, ok-of_bind, ok-injective_pair, message_posted,
}
use openboa.Chat.Model.Shape.{assert_valid_chat_message_input}
use openboa.Chat.Ledger.{
  SharedChatLedger, next_sequence, append_event, make_id, scope_or_default, list_events, matches,
}
use openboa.Chat.Ledger.Order.{IsOrdered}
use openboa.Chat.Ledger.Messages.{list_messages}
use openboa.Chat.Ledger.Messages.Laws.{
  NotPosted, list_messages-posted, list_messages-posted_elsewhere, list_messages-Within,
}
use openboa.Chat.Ledger.Threads.{list_scope_messages, validate_thread_scope}
use openboa.Chat.Ledger.Posting.{
  append_message, new_message, posted_before, write_message, post_unless,
}

-- The identifier that the next call takes names no message of the scope yet.
abbrev pub IsFresh : SharedChatLedger → String → Type 0
IsFresh l scope = All (NotPosted (make_id l "msg" 0)) (list_events l scope)

-- What a call that wrote its message has gone through.
pub record Written (l : SharedChatLedger) (i : ChatMessageInput) (m : ChatMessage)
    (l' : SharedChatLedger) : Type 0 where
  pub scope_messages : List ChatMessage
  pub listed :
      list_scope_messages l (scope_or_default l i.scope_id) i.conversation_id i.thread_id
      ≡ ok scope_messages
  pub message : m ≡ new_message l i scope_messages
  pub ledger : l' ≡ append_event l 1 (message_posted m)

write_message-Written :
    (l : SharedChatLedger) (i : ChatMessageInput) {m : ChatMessage} {l' : SharedChatLedger}
    → write_message l i ≡ ok (m, l')
    → Written l i m l'
unfolding write_message
write_message-Written l i {m} {l'} h =
    let (sms, q, r) = ok-of_bind _ _ (m, l') h in
    let (p, e) = ok-injective_pair _ (m, l') r in
    record {
      scope_messages = sms;
      listed = q;
      message = sym p;
      ledger = sym e ∙ ap (λ t. append_event l 1 (message_posted t)) p;
    }

post_unless_cases :
    (l : SharedChatLedger) (i : ChatMessageInput) (found : Option ChatMessage) {m : ChatMessage}
    {l' : SharedChatLedger}
    → post_unless l i found ≡ ok (m, l')
    → ((found ≡ some m) × (l' ≡ l)) ⊎ ((found ≡ none) × Written l i m l')
unfolding post_unless
post_unless_cases l i (some x) {m} {l'} h =
    let (p, e) = ok-injective_pair _ (m, l') h in inl (ap some p, sym e)
post_unless_cases l i none h = inr (refl, write_message-Written l i h)

-- What a successful call has gone through: its checks, and then either a message that was posted with
-- the key before, or a write.
pub append_message_parts :
    (l : SharedChatLedger) (i : ChatMessageInput) {m : ChatMessage} {l' : SharedChatLedger}
    → append_message l i ≡ ok (m, l')
    → (root : Option ChatMessage) × (validate_thread_scope l
          (scope_or_default l i.scope_id)
          i.conversation_id
          i.thread_id
        ≡ ok root)
      × (((posted_before l i ≡ some m) × (l' ≡ l))
          ⊎ ((posted_before l i ≡ none) × Written l i m l'))
unfolding append_message
append_message_parts l i {m} {l'} h =
    let checked =
      validate_thread_scope l (scope_or_default l i.scope_id) i.conversation_id i.thread_id in
    let rest = λ (root : Option ChatMessage). post_unless l i (posted_before l i) in
    let (u, _, g) =
      ok-of_bind (assert_valid_chat_message_input i) (λ _. checked >>= rest) (m, l') h in
    let (root, v, p) = ok-of_bind checked rest (m, l') g in
    (root, v, post_unless_cases l i (posted_before l i) p)

module _ {l : SharedChatLedger} {i : ChatMessageInput} {m : ChatMessage} {l' : SharedChatLedger}
    (w : Written l i m l') where
  pub Written-sequence : m.sequence ≡ next_sequence l (scope_or_default l i.scope_id)
  unfolding new_message
  Written-sequence = ap (λ t. t.sequence) w.message

  pub Written-revision : m.revision ≡ m.sequence
  unfolding new_message
  Written-revision = ap (λ t. t.revision) w.message ∙ sym Written-sequence

  pub Written-conversation : m.conversation_id ≡ i.conversation_id
  unfolding new_message
  Written-conversation = ap (λ t. t.conversation_id) w.message

  pub Written-thread : m.thread_id ≡ i.thread_id
  unfolding new_message
  Written-thread = ap (λ t. t.thread_id) w.message

  pub Written-positive : 0 < m.revision
  unfolding next_sequence
  Written-positive = omega (arith, Written-sequence, Written-revision)

  pub Written-scope : m.scope_id ≡ scope_or_default l i.scope_id
  unfolding new_message
  Written-scope = ap (λ t. t.scope_id) w.message

  pub Written-id : m.message_id ≡ make_id l "msg" 0
  unfolding new_message
  Written-id = ap (λ t. t.message_id) w.message

  pub list_messages-Written :
      (conversation_id : Option String)
      → IsOrdered l
      → IsFresh l (scope_or_default l i.scope_id)
      → matches conversation_id i.conversation_id ≡ true
      → list_messages l' (scope_or_default l i.scope_id) conversation_id
        ≡ list_messages l (scope_or_default l i.scope_id) conversation_id ++ m ∷ []
  list_messages-Written c h fresh t = rw (w.ledger) (
      list_messages-posted _ h c 1 m Written-scope Written-sequence Written-revision
        (rw Written-conversation t) (rw Written-id fresh))

  pub list_messages-Written_elsewhere :
      (conversation_id : Option String)
      → IsOrdered l
      → matches conversation_id i.conversation_id ≡ false
      → list_messages l' (scope_or_default l i.scope_id) conversation_id
        ≡ list_messages l (scope_or_default l i.scope_id) conversation_id
  list_messages-Written_elsewhere c h t = rw (w.ledger) (
      list_messages-posted_elsewhere _ h c 1 m Written-scope Written-sequence Written-revision
        (rw Written-conversation t))

  pub Written-above :
      (conversation_id : Option String)
      → IsOrdered l
      → All
          (λ x. (x.sequence < m.sequence) × (x.revision < m.revision))
          (list_messages l (scope_or_default l i.scope_id) conversation_id)
  unfolding next_sequence
  Written-above c h =
      All-map _ _ _
        (λ x k. (
          omega (arith, k.0, Written-sequence),
          omega (arith, k.1, Written-sequence, Written-revision),
        ))
        (list_messages-Within _ h c)

-- A call that writes puts its message at the end of the list of its scope, with a sequence and a
-- revision above those of all messages of the scope; a call that does not write changes nothing.
-- The ledger is ordered and the new identifier is unused.
pub append_message-advances :
    (l : SharedChatLedger) (i : ChatMessageInput) {m : ChatMessage} {l' : SharedChatLedger}
    → IsOrdered l
    → IsFresh l (scope_or_default l i.scope_id)
    → append_message l i ≡ ok (m, l')
    → (l' ≡ l)
      ⊎ ((list_messages l' (scope_or_default l i.scope_id) none
            ≡ list_messages l (scope_or_default l i.scope_id) none ++ m ∷ [])
          × All
              (λ x. (x.sequence < m.sequence) × (x.revision < m.revision))
              (list_messages l (scope_or_default l i.scope_id) none))
append_message-advances l i h fresh p =
    let (_, _, c) = append_message_parts l i p in
    elim c [
      | inl q ↦ inl q.1
      | inr q ↦ inr (list_messages-Written q.1 none h fresh refl, Written-above q.1 none h)
    ]
