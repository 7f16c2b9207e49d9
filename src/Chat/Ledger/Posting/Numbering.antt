-- ===== src/Chat/Ledger/Posting/Numbering.antt =====
-- How `appendMessage` of src/chat/core/ledger.ts numbers the messages of a line.
use openboa.Prelude.{
  ◌+◌, ◌<◌, ◌≤◌, String, ◌≡◌, refl, sym, ap, ◌∙◌, Bool, true, false, Option, none, some, List, [],
  ◌∷◌, All, All-map, filter, truthy, arith, Bool-cases, inl, inr, ◌⊎◌,
}
use openboa.Prelude.Sorting.{sort_by, insert_by, sort_by-All, insert_by-All}
use openboa.Chat.Model.{ChatMessage, ChatMessageInput, ok, ok-injective}
use openboa.Chat.Ledger.{SharedChatLedger, scope_or_default}
use openboa.Chat.Ledger.Latest.{filter_holds}
use openboa.Chat.Ledger.Messages.{list_messages}
use openboa.Chat.Ledger.Threads.{
  scope_order, in_thread, is_none, main_line, list_scope_messages, validate_thread_scope,
  check_thread_root,
}
use openboa.Chat.Ledger.Threads.Laws.{NamesLine, in_line, line_messages, list_scope_messages_parts}
use openboa.Chat.Ledger.Posting.{append_message, new_message, last_scope_sequence}
use openboa.Chat.Ledger.Posting.Revision.{Written, append_message_parts}

-- No message of the list has a number above the last one's.
abbrev UpToLast : List ChatMessage → Type 0
UpToLast ms = All (λ x. x.scope_sequence ≤ last_scope_sequence ms) ms

last-insert_by :
    (x y : ChatMessage) (ys : List ChatMessage)
    → last_scope_sequence (y ∷ insert_by scope_order x ys)
      ≡ last_scope_sequence (insert_by scope_order x ys)
unfolding last_scope_sequence insert_by
last-insert_by x y [] = refl
last-insert_by x y (z ∷ zs) = elim (Bool-cases (scope_order x z)) [
  | inl t ↦ rw t refl
  | inr t ↦ rw t refl
]

scope_order-le : (x y : ChatMessage) → scope_order x y ≡ true → x.scope_sequence ≤ y.scope_sequence
scope_order-le x y h = ground arith

scope_order-ge : (x y : ChatMessage) → scope_order x y ≡ false → y.scope_sequence ≤ x.scope_sequence
scope_order-ge x y h = ground arith

-- The last number is not below the inserted one, and not below the last one before.
insert_by-last :
    (x : ChatMessage) (ys : List ChatMessage)
    → UpToLast ys
    → (x.scope_sequence ≤ last_scope_sequence (insert_by scope_order x ys))
      × (last_scope_sequence ys ≤ last_scope_sequence (insert_by scope_order x ys))
unfolding last_scope_sequence insert_by
insert_by-last x [] h = (omega arith, omega arith)
insert_by-last x (y ∷ []) h = elim (Bool-cases (scope_order x y)) [
  | inl t ↦ rw t (scope_order-le x y t, omega arith)
  | inr t ↦ rw t (omega arith, scope_order-ge x y t)
]
insert_by-last x (y ∷ z ∷ zs) h = elim (Bool-cases (scope_order x y)) [
  | inl t ↦ let q = scope_order-le x y t in rw t (omega (arith, q, h.0), omega arith)
  | inr t ↦ rw (t, last-insert_by x y (z ∷ zs)) (insert_by-last x (z ∷ zs) h.1)
]

insert_by-UpToLast :
    (x : ChatMessage) (ys : List ChatMessage) → UpToLast ys → UpToLast (insert_by scope_order x ys)
insert_by-UpToLast x ys h =
    let (low, high) = insert_by-last x ys h in
    insert_by-All (λ z. z.scope_sequence ≤ last_scope_sequence (insert_by scope_order x ys))
      scope_order x ys low (All-map _ _ ys (λ z k. omega (arith, k, high)) h)

-- The last message of a sorted line has the largest number.
sort_by-UpToLast : (ms : List ChatMessage) → UpToLast (sort_by scope_order ms)
unfolding sort_by
sort_by-UpToLast [] = tt
sort_by-UpToLast (m ∷ ms) = insert_by-UpToLast m (sort_by scope_order ms) (sort_by-UpToLast ms)

filter-of_All {ℓ} :
    {A : Type ℓ} (p : A → Bool) (xs : List A) → All (λ x. p x ≡ true) xs → filter p xs ≡ xs
filter-of_All p [] h = refl
filter-of_All p (x ∷ xs) h = rw (h.0, filter-of_All p xs h.1) refl

main_line-in_thread : (m : ChatMessage) → is_none m.thread_id ≡ true → in_thread none m ≡ true
main_line-in_thread m h = ground arith

root-thread :
    (l : SharedChatLedger) (scope c t : String) {root : ChatMessage}
    → truthy t ≡ true
    → validate_thread_scope l scope c (some t) ≡ ok (some root)
    → in_thread (some t) root ≡ false
unfolding validate_thread_scope check_thread_root
root-thread l scope c t b h = ground arith

-- The replies that count for the next number are the messages of the line.
filter-listed :
    (l : SharedChatLedger) (scope c : String) (t : Option String) {sms : List ChatMessage}
    → NamesLine t
    → list_scope_messages l scope c t ≡ ok sms
    → filter (in_thread t) sms ≡ line_messages t (list_messages l scope (some c))
unfolding list_scope_messages main_line validate_thread_scope check_thread_root
filter-listed l scope c none {sms} b h =
    ap (filter (in_thread none)) (sym (ok-injective _ sms h))
    ∙ filter-of_All (in_thread none) _ (
        All-map _ _ _ (λ m k. main_line-in_thread m k)
          (sort_by-All _ scope_order _
            (filter_holds (λ m. is_none m.thread_id) (list_messages l scope (some c)))))
filter-listed l scope c (some t) {sms} b h =
    let (root, v, p) = list_scope_messages_parts l scope c t b h in
    rw (p, root-thread l scope c t b v)
      (filter-of_All (in_thread (some t)) _ (
        sort_by-All _ scope_order _
          (filter_holds (in_thread (some t)) (list_messages l scope (some c)))))

Written-number :
    {l : SharedChatLedger} {i : ChatMessageInput} {m : ChatMessage} {l' : SharedChatLedger}
    (w : Written l i m l')
    → m.scope_sequence ≡ last_scope_sequence (filter (in_thread i.thread_id) w.scope_messages) + 1
unfolding new_message
Written-number w = ap (λ t. t.scope_sequence) w.message

-- A call that writes gives its message a number in its line, the main line of the conversation or a
-- thread, above those of all messages that the line lists; a call that does not write changes nothing.
-- The thread identifier is not the empty text.
pub append_message-numbers :
    (l : SharedChatLedger) (i : ChatMessageInput) {m : ChatMessage} {l' : SharedChatLedger}
    → NamesLine i.thread_id
    → append_message l i ≡ ok (m, l')
    → (l' ≡ l)
      ⊎ All
          (λ x. x.scope_sequence < m.scope_sequence)
          (line_messages i.thread_id
            (list_messages l (scope_or_default l i.scope_id) (some i.conversation_id)))
append_message-numbers l i {m} line p =
    let (_, _, parts) = append_message_parts l i p in
    elim parts [
      | inl c ↦ inl c.1
      | inr c ↦ inr (
          let number = Written-number c.1 in
          let listed = ap last_scope_sequence (
            filter-listed l (scope_or_default l i.scope_id) i.conversation_id i.thread_id line
              c.1.listed) in
          All-map _ _ _ (λ x k. omega (arith, k, number, listed))
            (sort_by-UpToLast (
              filter (in_line i.thread_id)
                (list_messages l (scope_or_default l i.scope_id) (some i.conversation_id)))))
    ]
