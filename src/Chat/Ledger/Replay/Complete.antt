-- ===== src/Chat/Ledger/Replay/Complete.antt =====
-- The scopes of `replayConversationState` of src/chat/core/ledger.ts hold every message.
use openboa.Prelude.{
  ◌≡◌, refl, sym, ap, ◌∙◌, subst, String, Bool, true, false, not, ◌||◌, Option, none, some, List,
  [], ◌∷◌, ◌++◌, map, opt_eq, opt_eq_refl, opt_eq-path, truthy, ◌==◌, eq_refl, In, In-filter,
  In-append_left, inl, inr,
}
use openboa.Prelude.Lists.{any-dedupe_by, any_of_In, In-of_any}
use openboa.Prelude.Sorting.{In-sort_by}
use openboa.Chat.Model.{ChatMessage, ChatCursorRecord}
use openboa.Chat.Ledger.{SharedChatLedger}
use openboa.Chat.Ledger.Messages.{list_messages}
use openboa.Chat.Ledger.Cursors.{list_cursor_records}
use openboa.Chat.Ledger.Threads.{main_line}
use openboa.Chat.Ledger.Replay.{
  ChatConversationReplayScope, scope_thread_ids, replay_messages, replay_scope, replay_scopes,
  replay_conversation_state,
}

opt_eq-respects : (o x y : Option String) → opt_eq x y ≡ true → opt_eq x o ≡ opt_eq y o
opt_eq-respects o x y h = ap (λ a. opt_eq a o) (opt_eq-path x y h)

thread-In :
    (m : ChatMessage) (messages : List ChatMessage)
    → In m messages
    → In m.thread_id (map (λ x. x.thread_id) messages)
thread-In m [] i = i
thread-In m (x ∷ xs) (inl e) = inl (ap (λ y. y.thread_id) e)
thread-In m (x ∷ xs) (inr i) = inr (thread-In m xs i)

scope-In :
    (l : SharedChatLedger) (messages : List ChatMessage) (cursors : List ChatCursorRecord)
    (o : Option String) (os : List (Option String))
    → In o os
    → In (replay_scope l messages cursors o) (map (replay_scope l messages cursors) os)
scope-In l messages cursors o [] i = absurd i
scope-In l messages cursors o (x ∷ xs) (inl e) = inl (ap (replay_scope l messages cursors) e)
scope-In l messages cursors o (x ∷ xs) (inr i) = inr (scope-In l messages cursors o xs i)

scope_thread_ids-In :
    (m : ChatMessage) (messages : List ChatMessage) (cursors : List ChatCursorRecord)
    → In m messages
    → In m.thread_id (scope_thread_ids messages cursors)
unfolding scope_thread_ids
scope_thread_ids-In m messages cursors i =
    let ids : List (Option String) =
      none ∷ map (λ x. x.thread_id) messages ++ map (λ c. c.thread_id) cursors in
    let is_own : Option String → Bool = λ x. opt_eq x m.thread_id in
    let listed : In m.thread_id ids = inr (
      In-append_left m.thread_id (map (λ x. x.thread_id) messages) (map (λ c. c.thread_id) cursors)
        (thread-In m messages i)) in
    let (x, j, e) = In-of_any is_own (scope_thread_ids messages cursors) (
      any-dedupe_by opt_eq is_own (opt_eq-respects m.thread_id) ids
      ∙ any_of_In is_own m.thread_id ids listed (opt_eq_refl m.thread_id)) in
    subst (λ y. In y (scope_thread_ids messages cursors)) (opt_eq-path x m.thread_id e) j

replay_messages-In :
    (m : ChatMessage) (messages : List ChatMessage) (o : Option String)
    → m.thread_id ≡ o
    → opt_eq m.thread_id (some "") ≡ false
    → In m messages
    → In m (replay_messages messages o)
unfolding replay_messages main_line
replay_messages-In m messages none e n i = In-sort_by _ m _ (In-filter _ m messages i (rw e refl))
replay_messages-In m messages (some t) e n i =
    let filled : truthy t ≡ true = ap not (ap (λ o. opt_eq o (some "")) (sym e) ∙ n) in
    rw filled (In-sort_by _ m _ (In-filter _ m messages i (either (m.message_id == t))))
  where
    either : (b : Bool) → (b || opt_eq m.thread_id (some t)) ≡ true
    either true = refl
    either false = rw e (eq_refl t)

-- Every message of the conversation, unless its thread is the empty text, stands in a scope of the replay.
pub replay_conversation_state_complete :
    (l : SharedChatLedger) (conversation_id scope : String) (m : ChatMessage)
    → In m (list_messages l scope (some conversation_id))
    → opt_eq m.thread_id (some "") ≡ false
    → (s : ChatConversationReplayScope) × In s
        (replay_conversation_state l conversation_id scope).scopes
      × In m s.messages
unfolding replay_conversation_state replay_scopes replay_scope
replay_conversation_state_complete l conversation_id scope m i n =
    let messages = list_messages l scope (some conversation_id) in
    let cursors = list_cursor_records l scope (some conversation_id) none none in
    (
      replay_scope l messages cursors m.thread_id,
      In-sort_by _ (replay_scope l messages cursors m.thread_id) _ (
          scope-In l messages cursors m.thread_id (scope_thread_ids messages cursors)
            (scope_thread_ids-In m messages cursors i)),
      replay_messages-In m messages m.thread_id refl n i,
    )
