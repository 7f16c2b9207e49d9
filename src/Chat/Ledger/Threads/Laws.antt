-- ===== src/Chat/Ledger/Threads/Laws.antt =====
-- What `listScopeMessages` of src/chat/core/ledger.ts lists, and how a new message changes it.
use openboa.Prelude.{
  String, ◌≡◌, sym, Bool, true, Option, none, some, List, ◌∷◌, All, All-filter, inl, inr, arith,
  filter, ◌==◌, truthy, find, subst, Bool-cases, find-All,
}
use openboa.Prelude.Sorting.{sort_by, sort_by-All}
use openboa.Chat.Model.{ChatMessage, ok, ok-of_bind, ok-injective}
use openboa.Chat.Ledger.{SharedChatLedger}
use openboa.Chat.Ledger.Messages.{list_messages, find_message_by_id}
use openboa.Chat.Ledger.Threads.{
  is_none, check_thread_root, validate_thread_scope, scope_order, in_thread, main_line, thread_of,
  list_scope_messages,
}

-- The thread identifier names the main line or a thread; the empty text does neither.
abbrev pub NamesLine : Option String → Type 0
NamesLine none = Unit {0}
NamesLine (some t) = truthy t ≡ true

-- A message that stands in the line of the thread identifier.
abbrev pub in_line : Option String → ChatMessage → Bool
in_line none m = is_none m.thread_id
in_line (some t) m = in_thread (some t) m

-- The messages of a line, without the root of a thread.
abbrev pub line_messages : Option String → List ChatMessage → List ChatMessage
line_messages t messages = sort_by scope_order (filter (in_line t) messages)

-- What a listing of a thread has gone through.
pub list_scope_messages_parts :
    (l : SharedChatLedger) (scope conversation_id thread_id : String) {sms : List ChatMessage}
    → truthy thread_id ≡ true
    → list_scope_messages l scope conversation_id (some thread_id) ≡ ok sms
    → (root : ChatMessage) × (validate_thread_scope l scope conversation_id (some thread_id)
        ≡ ok (some root))
      × (sms ≡ root ∷ line_messages (some thread_id) (list_messages l scope (some conversation_id)))
unfolding list_scope_messages thread_of
list_scope_messages_parts l scope c t {sms} b h =
    let messages = list_messages l scope (some c) in
    let (root, v, p) =
      ok-of_bind (validate_thread_scope l scope c (some t)) (λ r. thread_of t messages r) sms
        (rw b at h) in
    thread_root root v p
  where
    thread_root :
        (r : Option ChatMessage)
        → validate_thread_scope l scope c (some t) ≡ ok r
        → thread_of t (list_messages l scope (some c)) r ≡ ok sms
        → (root : ChatMessage) × (validate_thread_scope l scope c (some t) ≡ ok (some root))
          × (sms ≡ root ∷ line_messages (some t) (list_messages l scope (some c)))
    thread_root none v p = cc
    thread_root (some root) v p = (root, v, sym (ok-injective _ _ p))

root-found :
    (l : SharedChatLedger) (scope conversation_id thread_id : String) {root : ChatMessage}
    → truthy thread_id ≡ true
    → validate_thread_scope l scope conversation_id (some thread_id) ≡ ok (some root)
    → find (λ x. x.message_id == thread_id) (list_messages l scope none) ≡ some root
unfolding validate_thread_scope check_thread_root find_message_by_id
root-found l scope c t b h = ground arith

-- What holds of all messages of a scope holds of those that a line lists.
pub list_scope_messages-All :
    (P : ChatMessage → Type 0) (l : SharedChatLedger) (scope conversation_id : String)
    (thread_id : Option String) {sms : List ChatMessage}
    → All P (list_messages l scope none)
    → All P (list_messages l scope (some conversation_id))
    → list_scope_messages l scope conversation_id thread_id ≡ ok sms
    → All P sms
unfolding list_scope_messages main_line
list_scope_messages-All P l scope c none {sms} h k e =
    subst (All P) (ok-injective _ sms e) (sort_by-All P _ _ (All-filter P _ _ k))
list_scope_messages-All P l scope c (some t) {sms} h k e = elim (Bool-cases (truthy t)) [
  | inl b ↦
      let (root, v, p) = list_scope_messages_parts l scope c t b e in
      rw p (
        find-All P _ (list_messages l scope none) root h (root-found l scope c t b v),
        sort_by-All P _ _ (All-filter P _ _ k),
      )
  | inr b ↦ subst (All P) (ok-injective _ sms (rw b at e)) (sort_by-All P _ _ (All-filter P _ _ k))
]
