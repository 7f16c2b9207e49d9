-- ===== src/Chat/Ledger/Posting/Permanence.antt =====
-- The effect of `redactMessage` of src/chat/core/ledger.ts on every later list of messages.
use openboa.Prelude.{
  String, ◌≡◌, ap, ◌∙◌, true, Option, List, [], ◌∷◌, ◌++◌, All, ◌==◌, truthy, append_assoc, arith,
}
use openboa.Prelude.Sorting.{sort_by-All}
use openboa.Chat.Model.{ChatLedgerEvent, message_redacted, ChatMessageRedactionRecord, ok}
use openboa.Chat.Ledger.{SharedChatLedger, list_events, scope_of, sequence_of, scope_or_default}
use openboa.Chat.Ledger.Order.{IsOrdered}
use openboa.Chat.Ledger.Messages.{list_messages}
use openboa.Chat.Ledger.Messages.Laws.{list_events-append_event}
use openboa.Chat.Ledger.Messages.Redaction.{Redacted, Keeps, Redacted-in_list}
use openboa.Chat.Ledger.Commands.Cases.{redact_message_cases}
use openboa.Chat.Ledger.Posting.{redact_message, RedactInput}

redact_message-record :
    (l : SharedChatLedger) (i : RedactInput) {r : ChatMessageRedactionRecord}
    {l' : SharedChatLedger}
    → redact_message l i ≡ ok (r, l')
    → (r.message_id ≡ i.message_id) × (r.created_at ≡ i.created_at)
unfolding redact_message
redact_message-record l i h = ground arith

-- A redacted message stays redacted: after a successful redaction with a time that is not empty,
-- whatever events come behind it in the scope, every list of messages shows the message without its
-- text, mentions and reactions and as redacted. The ledger is ordered, no later event posts the
-- identifier again, and the later redactions have a time that is not empty.
pub redact_message-permanent :
    (l : SharedChatLedger) (i : RedactInput) {r : ChatMessageRedactionRecord}
    {l' : SharedChatLedger} (l'' : SharedChatLedger) (fs : List ChatLedgerEvent)
    → IsOrdered l
    → truthy i.created_at ≡ true
    → redact_message l i ≡ ok (r, l')
    → list_events l'' (scope_or_default l i.scope_id)
      ≡ list_events l' (scope_or_default l i.scope_id) ++ fs
    → All (Keeps i.message_id) fs
    → (c : Option String)
    → All
        (λ m. (m.message_id == i.message_id) ≡ true → Redacted m)
        (list_messages l'' (scope_or_default l i.scope_id) c)
unfolding list_messages scope_of sequence_of
redact_message-permanent l i {r} l'' fs h d p later k c =
    let scope = scope_or_default l i.scope_id in
    let (e, s, n, q) = redact_message_cases l i p in
    let (named, dated) = redact_message-record l i p in
    let events =
      later
      ∙ ap (λ es. es ++ fs)
          (ap (λ t. list_events t scope) e
            ∙ list_events-append_event scope h 1 (message_redacted r) s n q)
      ∙ append_assoc (list_events l scope) (message_redacted r ∷ []) fs in
    rw (events, ← named)
      (sort_by-All _ _ _ (Redacted-in_list c (list_events l scope) fs r (rw dated d) (rw named k)))
