-- ===== src/Chat/Ledger/Threads.antt =====
-- The scopes of a conversation in src/chat/core/ledger.ts: its main line and its threads, and the
-- lookup of messages in them.
pub mod Laws
use openboa.Prelude.{
  String, Bool, true, false, ◌&&◌, ◌||◌, Option, none, some, List, ◌∷◌, filter, find, if◌then◌else◌,
  leb, ltb, nat_eq, ◌==◌, truthy, trim, opt_eq,
}
use openboa.Prelude.Sorting.{sort_by}
use openboa.Chat.Model.{
  ChatMessage, Result, ok, err, ◌>>=◌, ◌>>◌, require, thread_root_missing, thread_nested,
}
use openboa.Chat.Ledger.{SharedChatLedger, message_scope_key}
use openboa.Chat.Ledger.Messages.{list_messages, find_message_by_id}

abbrev pub is_none : Option String → Bool
is_none none = true
is_none (some s) = false

-- The tests on a thread's root, once the lookup is made.
unfoldable pub check_thread_root : String → Option ChatMessage → Result (Option ChatMessage)
check_thread_root conversation_id none = err thread_root_missing
check_thread_root conversation_id (some root) = do
  require (root.conversation_id == conversation_id) thread_root_missing
  require (is_none root.thread_id) thread_nested
  ok (some root)

unfoldable pub validate_thread_scope :
    SharedChatLedger → String → String → Option String → Result (Option ChatMessage)
unfolding check_thread_root
validate_thread_scope l scope conversation_id none = ok none
validate_thread_scope l scope conversation_id (some thread_id) =
    if truthy thread_id
    then check_thread_root conversation_id (find_message_by_id l thread_id scope)
    else ok none

-- `left.scopeSequence - right.scopeSequence || left.sequence - right.sequence`
abbrev pub scope_order : ChatMessage → ChatMessage → Bool
scope_order a b =
    ltb a.scope_sequence b.scope_sequence
    || (nat_eq a.scope_sequence b.scope_sequence && leb a.sequence b.sequence)

abbrev pub in_thread : Option String → ChatMessage → Bool
in_thread thread_id m = opt_eq m.thread_id thread_id

unfoldable pub main_line : List ChatMessage → List ChatMessage
main_line messages = sort_by scope_order (filter (λ m. is_none m.thread_id) messages)

unfoldable pub thread_of :
    String → List ChatMessage → Option ChatMessage → Result (List ChatMessage)
thread_of thread_id messages none = err thread_root_missing
thread_of thread_id messages (some root) =
    ok (root ∷ sort_by scope_order (filter (in_thread (some thread_id)) messages))

unfoldable pub list_scope_messages :
    SharedChatLedger → String → String → Option String → Result (List ChatMessage)
unfolding thread_of
list_scope_messages l scope conversation_id none =
    ok (main_line (list_messages l scope (some conversation_id)))
list_scope_messages l scope conversation_id (some thread_id) =
    let messages = list_messages l scope (some conversation_id) in
    if truthy thread_id
    then (do
      root ← validate_thread_scope l scope conversation_id (some thread_id)
      thread_of thread_id messages root)
    else ok (main_line messages)

-- A message with the key, in the scope if a conversation is named.
abbrev pub has_idempotency_key : String → Option String → Option String → ChatMessage → Bool
has_idempotency_key key none thread_id m = opt_eq m.idempotency_key (some key)
has_idempotency_key key (some conversation_id) thread_id m =
    opt_eq m.idempotency_key (some key)
    && (if truthy conversation_id
        then message_scope_key m.conversation_id m.thread_id
          == message_scope_key conversation_id thread_id
        else true)

unfoldable pub find_message_by_idempotency_key :
    SharedChatLedger → String → String → Option String → Option String → Option ChatMessage
find_message_by_idempotency_key l key scope conversation_id thread_id =
    let normalized_key = trim key in
    if truthy normalized_key
    then find (has_idempotency_key normalized_key conversation_id thread_id)
        (list_messages l scope conversation_id)
    else none
