-- ===== src/Chat/Ledger/Messages/Laws.antt =====
-- How the list of messages of src/chat/core/ledger.ts follows the events: what stays true of every
-- entry, and what a new message changes.
use openboa.Prelude.{
  ℕ, ◌≤◌, String, ◌≡◌, refl, ◌∙◌, true, false, Option, none, some, List, [], ◌∷◌, ◌++◌, All,
  All-map, All-both, le→leb, ◌==◌, eq_refl, is_truthy, Bool-cases, inl, inr, arith,
}
use openboa.Prelude.JsMap.{
  get, values, set-All, get-All, get-of_All, values-All, set-of_none, values-append,
}
use openboa.Prelude.Sorting.{sort_by-All, sort_by-append_last}
use openboa.Chat.Model.{
  ChatLedgerEvent, conversation_upserted, membership_upserted, grant_binding_upserted,
  cursor_updated, attachment_upserted, message_posted, participant_upserted, reaction_set,
  message_edited, message_redacted, ChatMessage, ChatMessageReaction, ChatMessageEditRecord,
  ChatMessageRedactionRecord,
}
use openboa.Chat.Ledger.{
  SharedChatLedger, list_events, matches, last_sequence, next_sequence, append_event, scope_of,
  sequence_of,
}
use openboa.Chat.Ledger.Order.{
  IsOrdered, Stamped, list_events-of_IsOrdered, scoped_events-append_event, Above-le-last,
  append_event-IsOrdered,
}
use openboa.Chat.Ledger.Messages.{
  ReplayState, empty_replay, replay_event, replay_events, edited_message, redacted_message,
  list_messages, edit_known, redact_known, react_known, with_known,
}

-- The entry that an event writes for a message it knows has the property that the old entry had.
module _ (P : String × ChatMessage → Type 0) (Fits : ChatLedgerEvent → Type 0)
    (posts : (m : ChatMessage) → Fits (message_posted m) → P (m.message_id, m))
    (edits : (k : String) (m : ChatMessage) (e : ChatMessageEditRecord)
      → Fits (message_edited e)
      → is_truthy m.redacted_at ≡ false
      → P (k, m)
      → P (k, edited_message m e))
    (redacts : (k : String) (m : ChatMessage) (e : ChatMessageRedactionRecord)
      → Fits (message_redacted e)
      → P (k, m)
      → P (k, redacted_message m e))
    (reacts : (k : String) (m : ChatMessage) (rs : List ChatMessageReaction)
      → is_truthy m.redacted_at ≡ false
      → P (k, m)
      → P (k, record m { reactions = rs })) where
  with_known-All :
      (found : Option ChatMessage) (st : ReplayState) (change : ChatMessage → ReplayState)
      → All P st.messages
      → ((m : ChatMessage) → found ≡ some m → All P (change m).messages)
      → All P (with_known found st change).messages
  with_known-All none st change h step = h
  with_known-All (some m) st change h step = step m refl

  replay_event-All :
      (conversation_id : Option String) (st : ReplayState) (e : ChatLedgerEvent)
      → Fits e
      → All P st.messages
      → All P (replay_event conversation_id st e).messages
  unfolding replay_event edit_known redact_known react_known
  replay_event-All c st (message_posted m) f h = elim (Bool-cases (matches c m.conversation_id)) [
    | inl t ↦ rw t (set-All P m.message_id m st.messages (posts m f) h)
    | inr t ↦ rw t h
  ]
  replay_event-All c st (message_edited e) f h =
      with_known-All (get e.message_id st.messages) st (edit_known st e) h λ m t.
        elim (Bool-cases (is_truthy m.redacted_at)) [
          | inl r ↦ rw r h
          | inr r ↦
              rw r (set-All P _ _ st.messages (edits _ m e f r (get-All P _ st.messages m h t)) h)
        ]
  replay_event-All c st (message_redacted e) f h =
      with_known-All (get e.message_id st.messages) st (redact_known st e) h
        λ m t. set-All P _ _ st.messages (redacts _ m e f (get-All P _ st.messages m h t)) h
  replay_event-All c st (reaction_set e) f h =
      with_known-All (get e.message_id st.messages) st (react_known st e) h λ m t.
        elim (Bool-cases (is_truthy m.redacted_at)) [
          | inl r ↦ rw r h
          | inr r ↦
              rw r (set-All P _ _ st.messages (reacts _ m _ r (get-All P _ st.messages m h t)) h)
        ]
  replay_event-All c st (conversation_upserted r) f h = h
  replay_event-All c st (membership_upserted r) f h = h
  replay_event-All c st (grant_binding_upserted r) f h = h
  replay_event-All c st (cursor_updated r) f h = h
  replay_event-All c st (attachment_upserted r) f h = h
  replay_event-All c st (participant_upserted r) f h = h

  -- A property of entries that every event keeps holds of the entries that the loop leaves.
  pub replay_events-All :
      (conversation_id : Option String) (st : ReplayState) (es : List ChatLedgerEvent)
      → All Fits es
      → All P st.messages
      → All P (replay_events conversation_id st es).messages
  unfolding replay_events
  replay_events-All c st [] f h = h
  replay_events-All c st (e ∷ es) f h =
      replay_events-All c (replay_event c st e) es f.1 (replay_event-All c st e f.0 h)

pub replay_events-append :
    (conversation_id : Option String) (st : ReplayState) (es fs : List ChatLedgerEvent)
    → replay_events conversation_id st (es ++ fs)
      ≡ replay_events conversation_id (replay_events conversation_id st es) fs
unfolding replay_events
replay_events-append c st [] fs = refl
replay_events-append c st (e ∷ es) fs = replay_events-append c (replay_event c st e) es fs

-- The event does not post a message with this identifier.
abbrev pub NotPosted : String → ChatLedgerEvent → Type 0
NotPosted id (message_posted m) = (m.message_id == id) ≡ false
NotPosted id _ = Unit {0}

-- A message that was not posted is not there.
pub get-replay_events :
    (conversation_id : Option String) (id : String) (es : List ChatLedgerEvent)
    → All (NotPosted id) es
    → get id (replay_events conversation_id empty_replay es).messages ≡ none
get-replay_events c id es h = get-of_All id _ (
    replay_events-All (λ (e : String × ChatMessage). (e.0 == id) ≡ false) (NotPosted id) (λ m f. f)
      (λ k m e f u h. h) (λ k m e f h. h) (λ k m rs u h. h) c empty_replay es h tt)

-- The event's sequence and its revision are not above the bound.
abbrev pub Within : ℕ → ChatLedgerEvent → Type 0
Within n e = (sequence_of e ≤ n) × Stamped e

abbrev pub MessageWithin : ℕ → ChatMessage → Type 0
MessageWithin n m = (m.sequence ≤ n) × (m.revision ≤ n)

pub values-Within :
    (conversation_id : Option String) (n : ℕ) (es : List ChatLedgerEvent)
    → All (Within n) es
    → All (MessageWithin n) (values (replay_events conversation_id empty_replay es).messages)
unfolding edited_message redacted_message sequence_of
values-Within c n es h = values-All (MessageWithin n) _ (
    replay_events-All (λ (e : String × ChatMessage). MessageWithin n e.1) (Within n)
      (λ m f. (f.0, omega (arith, f.0, f.1))) (λ k m e f u h. (h.0, omega (arith, f.0, f.1, h.1)))
      (λ k m e f h. (h.0, omega (arith, f.0, f.1, h.1))) (λ k m rs u h. h) c empty_replay es h tt)

module _ {l : SharedChatLedger} (scope : String) (h : IsOrdered l) where
  list_events-Within : All (Within (last_sequence (list_events l scope))) (list_events l scope)
  list_events-Within =
      rw (list_events-of_IsOrdered scope h)
        (All-both _ _ _ (Above-le-last 0 _ (h.rising scope)) (h.stamped scope))

  -- In an ordered ledger no message of a scope has a sequence or a revision above the scope's last.
  pub list_messages-Within :
      (conversation_id : Option String)
      → All
          (MessageWithin (last_sequence (list_events l scope)))
          (list_messages l scope conversation_id)
  unfolding list_messages
  list_messages-Within c = sort_by-All _ _ _ (
      values-Within c (last_sequence (list_events l scope)) (list_events l scope)
        list_events-Within)

  pub list_events-append_event :
      (taken : ℕ) (e : ChatLedgerEvent)
      → scope_of e ≡ scope
      → sequence_of e ≡ next_sequence l scope
      → Stamped e
      → list_events (append_event l taken e) scope ≡ list_events l scope ++ e ∷ []
  list_events-append_event taken e s n st =
      list_events-of_IsOrdered scope (append_event-IsOrdered l taken e scope s n st h)
      ∙ scoped_events-append_event l taken e scope
      ∙ rw (s, eq_refl scope, list_events-of_IsOrdered scope h) refl

  -- A message posted under a new identifier goes to the end of every list that asks for its
  -- conversation, and nothing else changes there.
  pub list_messages-posted :
      (conversation_id : Option String) (taken : ℕ) (m : ChatMessage)
      → m.scope_id ≡ scope
      → m.sequence ≡ next_sequence l scope
      → m.revision ≡ m.sequence
      → matches conversation_id m.conversation_id ≡ true
      → All (NotPosted m.message_id) (list_events l scope)
      → list_messages (append_event l taken (message_posted m)) scope conversation_id
        ≡ list_messages l scope conversation_id ++ m ∷ []
  unfolding list_messages next_sequence replay_events replay_event scope_of sequence_of
  list_messages-posted c taken m s n r t fresh =
      rw
        (
          list_events-append_event taken (message_posted m) s n r,
          replay_events-append c empty_replay (list_events l scope) (message_posted m ∷ []),
          t,
          set-of_none m.message_id m _ (get-replay_events c m.message_id _ fresh),
          values-append m.message_id m
              (replay_events c empty_replay (list_events l scope)).messages,
        )
        (sort_by-append_last _ m _ (
          All-map _ _ _ (λ x w. le→leb _ _ (omega (arith, w.0, n)))
            (values-Within c _ (list_events l scope) list_events-Within)))

  -- A message posted to a conversation that the list does not ask for changes nothing there.
  pub list_messages-posted_elsewhere :
      (conversation_id : Option String) (taken : ℕ) (m : ChatMessage)
      → m.scope_id ≡ scope
      → m.sequence ≡ next_sequence l scope
      → m.revision ≡ m.sequence
      → matches conversation_id m.conversation_id ≡ false
      → list_messages (append_event l taken (message_posted m)) scope conversation_id
        ≡ list_messages l scope conversation_id
  unfolding list_messages next_sequence replay_events replay_event scope_of sequence_of
  list_messages-posted_elsewhere c taken m s n r t =
      rw
        (
          list_events-append_event taken (message_posted m) s n r,
          replay_events-append c empty_replay (list_events l scope) (message_posted m ∷ []),
          t,
        )
        refl
