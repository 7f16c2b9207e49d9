-- ===== src/Chat/Ledger/Posting/Idempotency.antt =====
-- A message that is posted again with its key, in src/chat/core/ledger.ts.
use openboa.Prelude.{
  String, ◌≡◌, refl, ap, ◌∙◌, true, Option, none, some, List, [], ◌∷◌, ◌++◌, arith, inl, inr, ◌==◌,
  eq_refl, truthy, trim, trim_or_null, Bool-cases, Option-cases, find-append_some, find-append_none,
  find,
}
use openboa.Prelude.Text.Trim.{trim-trim}
use openboa.Chat.Model.{ChatMessage, ChatMessageInput, ok}
use openboa.Chat.Model.Shape.{assert_valid_chat_message_input}
use openboa.Chat.Ledger.{
  SharedChatLedger, append_event, scope_or_default, matches, message_scope_key,
}
use openboa.Chat.Ledger.Order.{IsOrdered}
use openboa.Chat.Ledger.Messages.{list_messages, find_message_by_id}
use openboa.Chat.Ledger.Threads.{
  validate_thread_scope, check_thread_root, find_message_by_idempotency_key, has_idempotency_key,
}
use openboa.Chat.Ledger.Posting.{
  append_message, new_message, posted_before, posted_under, post_unless,
}
use openboa.Chat.Ledger.Posting.Revision.{
  IsFresh, Written, append_message_parts, list_messages-Written, Written-conversation,
  Written-thread,
}

pub matches_self : (s : String) → matches (some s) s ≡ true
matches_self s = elim (Bool-cases (truthy s)) [ inl t ↦ rw t (eq_refl s) | inr t ↦ rw t refl ]

-- A thread that could be posted to can be posted to again.
pub validate_thread_scope-grown :
    (l l' : SharedChatLedger) (scope conversation_id : String) (thread_id : Option String)
    (new : List ChatMessage) {root : Option ChatMessage}
    → list_messages l' scope none ≡ list_messages l scope none ++ new
    → validate_thread_scope l scope conversation_id thread_id ≡ ok root
    → validate_thread_scope l' scope conversation_id thread_id ≡ ok root
unfolding validate_thread_scope find_message_by_id check_thread_root
validate_thread_scope-grown l l' scope c none new g h = h
validate_thread_scope-grown l l' scope c (some t) new {root} g h =
    elim (Option-cases (find (λ x. x.message_id == t) (list_messages l scope none))) [
      | inl q ↦ elim (Bool-cases (truthy t)) [
        | inl b ↦ absurd (refused b q)
        | inr b ↦ rw b (rw b at h)
      ]
      | inr (r, q) ↦ rw (g, find-append_some _ (list_messages l scope none) new r q) (rw q at h)
    ]
  where
    refused :
        truthy t ≡ true → find (λ x. x.message_id == t) (list_messages l scope none) ≡ none → ⊥
    refused b q = let k = rw (b, q) at h in cc

-- The two calls name the same place and the same key.
pub record IsRetry (i j : ChatMessageInput) : Type 0 where
  pub scope : j.scope_id ≡ i.scope_id
  pub conversation : j.conversation_id ≡ i.conversation_id
  pub thread : j.thread_id ≡ i.thread_id
  pub key : j.idempotency_key ≡ i.idempotency_key

pub posted_before-IsRetry :
    (l : SharedChatLedger) (i j : ChatMessageInput)
    → IsRetry i j
    → posted_before l j ≡ posted_before l i
unfolding posted_before posted_under
posted_before-IsRetry l i j r = rw (r.scope, r.conversation, r.thread, r.key) refl

-- A key that is kept is not blank, and it is trimmed.
trim_or_null-some :
    (k : Option String) (key : String)
    → trim_or_null k ≡ some key
    → (truthy key ≡ true) × (trim key ≡ key)
trim_or_null-some none key h = cc
trim_or_null-some (some s) key h = ground (arith, trim-trim s)

has_idempotency_key_self :
    (m : ChatMessage) (key : String)
    → m.idempotency_key ≡ some key
    → has_idempotency_key key (some m.conversation_id) m.thread_id m ≡ true
has_idempotency_key_self m key h = elim (Bool-cases (truthy m.conversation_id)) [
  | inl t ↦ rw (h, eq_refl key, t, eq_refl (message_scope_key m.conversation_id m.thread_id)) refl
  | inr t ↦ rw (h, eq_refl key, t) refl
]

module _ {l : SharedChatLedger} {i : ChatMessageInput} {m : ChatMessage} {l' : SharedChatLedger}
    (w : Written l i m l') where
  pub scope-Written : scope_or_default l' i.scope_id ≡ scope_or_default l i.scope_id
  unfolding append_event
  scope-Written = ap (λ t. scope_or_default t i.scope_id) w.ledger

  -- A lookup that missed before the write finds the new message.
  pub find_by_key-Written :
      (key : String)
      → IsOrdered l
      → IsFresh l (scope_or_default l i.scope_id)
      → truthy key ≡ true
      → trim key ≡ key
      → m.idempotency_key ≡ some key
      → find_message_by_idempotency_key l key
          (scope_or_default l i.scope_id)
          (some i.conversation_id)
          i.thread_id
        ≡ none
      → find_message_by_idempotency_key l' key
          (scope_or_default l i.scope_id)
          (some i.conversation_id)
          i.thread_id
        ≡ some m
  unfolding find_message_by_idempotency_key
  find_by_key-Written key h fresh t k q missed =
      rw
        (
          k,
          t,
          list_messages-Written w (some i.conversation_id) h fresh (matches_self i.conversation_id),
          find-append_none _
              (list_messages l (scope_or_default l i.scope_id) (some i.conversation_id)) (m ∷ [])
              (rw (k, t) at missed),
          ← Written-conversation w,
          ← Written-thread w,
          has_idempotency_key_self m key q,
        )
        refl

  Written-key : m.idempotency_key ≡ trim_or_null i.idempotency_key
  unfolding new_message
  Written-key = ap (λ t. t.idempotency_key) w.message

  pub posted_before-Written :
      (key : String)
      → IsOrdered l
      → IsFresh l (scope_or_default l i.scope_id)
      → trim_or_null i.idempotency_key ≡ some key
      → posted_before l i ≡ none
      → posted_before l' i ≡ some m
  unfolding posted_before posted_under
  posted_before-Written key h fresh k missed =
      let (t, e) = trim_or_null-some i.idempotency_key key k in
      rw (k, scope-Written) (find_by_key-Written key h fresh t e (Written-key ∙ k) (rw k at missed))

-- Posting is idempotent under a key: after a call with a key that is not blank, a valid call that
-- names the same scope, conversation, thread and key answers with the first call's message and
-- leaves the ledger as it is. The ledger is ordered and the new identifier is unused.
pub append_message-retry :
    (l : SharedChatLedger) (i j : ChatMessageInput) (key : String) {m : ChatMessage}
    {l' : SharedChatLedger}
    → IsOrdered l
    → IsFresh l (scope_or_default l i.scope_id)
    → trim_or_null i.idempotency_key ≡ some key
    → IsRetry i j
    → assert_valid_chat_message_input j ≡ ok tt
    → append_message l i ≡ ok (m, l')
    → append_message l' j ≡ ok (m, l')
unfolding append_message post_unless
append_message-retry l i j key {m} {l'} h fresh k r valid p =
    let (root, v, c) = append_message_parts l i p in
    elim c [
      | inl (q, e) ↦
          rw (valid, e, posted_before-IsRetry l i j r, q, r.scope, r.conversation, r.thread, v) refl
      | inr (q, w) ↦
          rw
            (
              valid,
              posted_before-IsRetry l' i j r,
              posted_before-Written w key h fresh k q,
              r.scope,
              r.conversation,
              r.thread,
              scope-Written w,
              validate_thread_scope-grown l l' _ i.conversation_id i.thread_id (m ∷ [])
                  (list_messages-Written w none h fresh refl) v,
            )
            refl
    ]
