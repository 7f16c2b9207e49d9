-- ===== src/Chat/Service/Retry.antt =====
-- A contribution of src/chat/core/conversation-service.ts that is tried again with its key.
use openboa.Prelude.{
  ℕ, String, ◌≡◌, refl, sym, ap, ◌∙◌, true, false, Option, none, some, inl, inr, arith, truthy,
  trim, trim_or_null, Bool-cases, eq_iff, if◌then◌else◌, or_null,
}
use openboa.Prelude.Text.Trim.{trim-trim, trim_empty}
use openboa.Chat.Model.{ChatMessage, ok}
use openboa.Chat.Ledger.{SharedChatLedger}
use openboa.Chat.Ledger.Order.{IsOrdered}
use openboa.Chat.Ledger.Threads.{find_message_by_idempotency_key}
use openboa.Chat.Ledger.Posting.{posted_before, posted_under}
use openboa.Chat.Ledger.Posting.Revision.{IsFresh, append_message_parts}
use openboa.Chat.Ledger.Posting.Idempotency.{posted_before-Written}
use openboa.Chat.Service.{
  ContributionAttempt, ContributionResult, accepted, stale, contribution_input, contributed_before,
  contribute_unless, contribute_to_conversation,
}
use openboa.Chat.Service.Conflicts.{contribute_parts}

-- The service and the ledger look for the same earlier message.
pub contributed_before-eq :
    (scope_id : String) (l : SharedChatLedger) (a : ContributionAttempt)
    → contributed_before scope_id l a.scope a.idempotency_key
      ≡ posted_before l (contribution_input scope_id a)
unfolding contributed_before posted_before posted_under find_message_by_idempotency_key
contributed_before-eq s l a = same_lookup a.idempotency_key
  where
    blank : (raw : String) → truthy raw ≡ false → truthy (trim raw) ≡ true → ⊥
    blank raw t u = ground (arith, eq_iff raw "", trim_empty)

    same_key :
        (raw : String)
        → (if truthy raw
            then find_message_by_idempotency_key l raw s
                (some a.scope.conversation_id)
                a.scope.thread_id
            else none)
          ≡ posted_under l (contribution_input s a) (or_null (trim raw))
    same_key raw = elim (Bool-cases (truthy (trim raw))) [
      | inl u ↦ elim (Bool-cases (truthy raw)) [
        | inl t ↦ rw (t, u, trim-trim raw, u) refl
        | inr t ↦ absurd (blank raw t u)
      ]
      | inr u ↦ elim (Bool-cases (truthy raw)) [ inl t ↦ rw (t, u) refl | inr t ↦ rw (t, u) refl ]
    ]

    same_lookup :
        (key : Option String)
        → contributed_before s l a.scope key
          ≡ posted_under l (contribution_input s a) (trim_or_null key)
    same_lookup none = refl
    same_lookup (some raw) = same_key raw

accepted-message : ContributionResult → Option ChatMessage
accepted-message (accepted r m) = some m
accepted-message (stale r id) = none

-- After an accepted contribution its message is found under its key.
found_after :
    (scope_id : String) (l : SharedChatLedger) (a : ContributionAttempt) (key : String) {r : ℕ}
    {m : ChatMessage} {l1 : SharedChatLedger}
    → IsOrdered l
    → IsFresh l scope_id
    → trim_or_null a.idempotency_key ≡ some key
    → contribute_to_conversation scope_id l a ≡ ok (accepted r m, l1)
    → contributed_before scope_id l1 a.scope a.idempotency_key ≡ some m
unfolding accepted-message
found_after s l a key {r} {m} h fresh k p = elim (contribute_parts s l a p) [
  | inl (x, found, q, e) ↦ rw e (found ∙ sym (ap accepted-message q))
  | inr (inl (o, q, e)) ↦ absurd (cc)
  | inr (inr c) ↦
      let (_, _, parts) = append_message_parts l (contribution_input s a) c.posted in
      elim parts [
        | inl (found, e) ↦
            rw e (contributed_before-eq s l a ∙ found ∙ sym (ap accepted-message c.answer))
        | inr (missed, w) ↦
            contributed_before-eq s _ a
            ∙ posted_before-Written w key h fresh k missed
            ∙ sym (ap accepted-message c.answer)
      ]
]

-- Contributing is idempotent under a key: after an accepted contribution with a key that is not blank,
-- any attempt in the same line with the same key, whatever its body and the revision it is based on,
-- is accepted with the same message and leaves the ledger as it is. The ledger is ordered and the next
-- identifier is unused.
pub contribute_to_conversation-retry :
    (scope_id : String) (l : SharedChatLedger) (a b : ContributionAttempt) (key : String) {r : ℕ}
    {m : ChatMessage} {l1 : SharedChatLedger}
    → IsOrdered l
    → IsFresh l scope_id
    → trim_or_null a.idempotency_key ≡ some key
    → b.scope ≡ a.scope
    → b.idempotency_key ≡ a.idempotency_key
    → contribute_to_conversation scope_id l a ≡ ok (accepted r m, l1)
    → contribute_to_conversation scope_id l1 b ≡ ok (accepted m.revision m, l1)
unfolding contribute_to_conversation contribute_unless
contribute_to_conversation-retry s l a b key {m} {l1} h fresh k same_scope same_key p =
    rw
      (ap (λ t. contributed_before s l1 t b.idempotency_key) same_scope
        ∙ ap (contributed_before s l1 a.scope) same_key
        ∙ found_after s l a key h fresh k p)
      refl
