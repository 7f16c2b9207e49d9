-- ===== src/Chat/Ledger/Messages/Redaction.antt =====
-- A message that `redactMessage` of src/chat/core/ledger.ts has redacted stays redacted.
use openboa.Prelude.{
  String, ◌≡◌, refl, true, false, Option, none, some, List, [], ◌∷◌, ◌++◌, All, All-map, All-both,
  ◌==◌, is_truthy, truthy, Bool-cases, inl, inr,
}
use openboa.Prelude.JsMap.{
  get, values, values-All, Distinct, Distinct-set, set-All_at, All-of_get-none,
}
use openboa.Chat.Model.{
  ChatLedgerEvent, conversation_upserted, membership_upserted, grant_binding_upserted,
  cursor_updated, attachment_upserted, message_posted, participant_upserted, reaction_set,
  message_edited, message_redacted, ChatMessage, ChatMessageRedactionRecord, redacted_message_body,
}
use openboa.Chat.Ledger.{matches}
use openboa.Chat.Ledger.Messages.{
  ReplayState, empty_replay, replay_event, replay_events, edited_message, redacted_message,
  with_known, edit_known, redact_known, react_known,
}
use openboa.Chat.Ledger.Messages.Laws.{replay_events-All, replay_events-append, NotPosted}

-- The message shows nothing of what was posted, and says that it is redacted.
pub record Redacted (m : ChatMessage) : Type 0 where
  pub body : m.body ≡ redacted_message_body
  pub content : m.content ≡ redacted_message_body
  pub mentions : m.mentioned_ids ≡ []
  pub reactions : m.reactions ≡ []
  pub dated : is_truthy m.redacted_at ≡ true

-- A redaction carries a time that is not the empty text.
abbrev pub Dated : ChatLedgerEvent → Type 0
Dated (message_redacted e) = truthy e.created_at ≡ true
Dated _ = Unit {0}

redacted_message-Redacted :
    (m : ChatMessage) (e : ChatMessageRedactionRecord)
    → truthy e.created_at ≡ true
    → Redacted (redacted_message m e)
unfolding redacted_message
redacted_message-Redacted m e h = record {
  body = refl;
  content = refl;
  mentions = refl;
  reactions = refl;
  dated = h;
}

-- A change that is made to a message that is not redacted does not reach a redacted one.
still_redacted {ℓ} :
    {X : Type ℓ} (m : ChatMessage) → is_truthy m.redacted_at ≡ false → Redacted m → X
still_redacted m u r = let d = r.dated in absurd (cc)

-- The loop's map has no key twice.
with_known-Distinct :
    (found : Option ChatMessage) (st : ReplayState) (change : ChatMessage → ReplayState)
    → Distinct st.messages
    → ((m : ChatMessage) → Distinct (change m).messages)
    → Distinct (with_known found st change).messages
with_known-Distinct none st change h step = h
with_known-Distinct (some m) st change h step = step m

replay_event-Distinct :
    (conversation_id : Option String) (st : ReplayState) (e : ChatLedgerEvent)
    → Distinct st.messages
    → Distinct (replay_event conversation_id st e).messages
unfolding replay_event edit_known redact_known react_known
replay_event-Distinct c st (message_posted m) h = elim (Bool-cases (matches c m.conversation_id)) [
  | inl t ↦ rw t (Distinct-set m.message_id m st.messages h)
  | inr t ↦ rw t h
]
replay_event-Distinct c st (message_edited e) h =
    with_known-Distinct (get e.message_id st.messages) st (edit_known st e) h λ m.
      elim (Bool-cases (is_truthy m.redacted_at)) [
        | inl r ↦ rw r h
        | inr r ↦ rw r (Distinct-set _ _ st.messages h)
      ]
replay_event-Distinct c st (message_redacted e) h =
    with_known-Distinct (get e.message_id st.messages) st (redact_known st e) h
      λ m. Distinct-set _ _ st.messages h
replay_event-Distinct c st (reaction_set e) h =
    with_known-Distinct (get e.message_id st.messages) st (react_known st e) h λ m.
      elim (Bool-cases (is_truthy m.redacted_at)) [
        | inl r ↦ rw r h
        | inr r ↦ rw r (Distinct-set _ _ st.messages h)
      ]
replay_event-Distinct c st (conversation_upserted r) h = h
replay_event-Distinct c st (membership_upserted r) h = h
replay_event-Distinct c st (grant_binding_upserted r) h = h
replay_event-Distinct c st (cursor_updated r) h = h
replay_event-Distinct c st (attachment_upserted r) h = h
replay_event-Distinct c st (participant_upserted r) h = h

pub replay_events-Distinct :
    (conversation_id : Option String) (st : ReplayState) (es : List ChatLedgerEvent)
    → Distinct st.messages
    → Distinct (replay_events conversation_id st es).messages
unfolding replay_events
replay_events-Distinct c st [] h = h
replay_events-Distinct c st (e ∷ es) h =
    replay_events-Distinct c (replay_event c st e) es (replay_event-Distinct c st e h)

module _ (id : String) where
  -- The entry of the identifier, if there is one, is redacted.
  abbrev RedactedEntry : String × ChatMessage → Type 0
  RedactedEntry e = (e.0 == id) ≡ true → Redacted e.1

  abbrev pub Keeps : ChatLedgerEvent → Type 0
  Keeps e = NotPosted id e × Dated e

  other_entry : (e : String × ChatMessage) → (e.0 == id) ≡ false → RedactedEntry e
  other_entry e h t = absurd (cc)

  -- Later events keep it redacted.
  stays_redacted :
      (c : Option String) (st : ReplayState) (fs : List ChatLedgerEvent)
      → All Keeps fs
      → All RedactedEntry st.messages
      → All RedactedEntry (replay_events c st fs).messages
  stays_redacted c st fs k h =
      replay_events-All RedactedEntry Keeps (λ m f. other_entry _ (f.0))
        (λ k m e f u h t. still_redacted _ u (h t))
        (λ k m e f h t. redacted_message-Redacted m e f.1)
        (λ k m rs u h t. still_redacted _ u (h t)) c st fs k h

-- The redaction reaches the message, whatever the conversation that the list asks for.
redacted_now :
    (c : Option String) (st : ReplayState) (e : ChatMessageRedactionRecord)
    → truthy e.created_at ≡ true
    → Distinct st.messages
    → All (RedactedEntry e.message_id) (replay_event c st (message_redacted e)).messages
unfolding replay_event redact_known
redacted_now c st e d h = reached (get e.message_id st.messages) refl
  where
    reached :
        (found : Option ChatMessage)
        → get e.message_id st.messages ≡ found
        → All (RedactedEntry e.message_id) (with_known found st (redact_known st e)).messages
    reached none p =
        All-map _ (RedactedEntry e.message_id) st.messages (other_entry e.message_id)
          (All-of_get-none e.message_id st.messages p)
    reached (some m) p =
        set-All_at (RedactedEntry e.message_id) e.message_id _ st.messages
          (λ t. redacted_message-Redacted m e d) (other_entry e.message_id) h

-- Every entry of the loop's map stands under its message's identifier.
pub entries-named :
    (c : Option String) (es : List ChatLedgerEvent)
    → All
        (λ (e : String × ChatMessage). e.0 ≡ e.1.message_id)
        (replay_events c empty_replay es).messages
unfolding edited_message redacted_message
entries-named c es =
    replay_events-All (λ (e : String × ChatMessage). e.0 ≡ e.1.message_id) (λ e. Unit {0})
      (λ m f. refl) (λ k m e f u h. h) (λ k m e f h. h) (λ k m rs u h. h) c empty_replay es
      (anything es) tt
  where
    anything : (es : List ChatLedgerEvent) → All (λ e. Unit {0}) es
    anything [] = tt
    anything (e ∷ es) = (tt, anything es)

-- A redaction among the events, with no later event that posts its identifier again, shows in every
-- list of messages.
pub Redacted-in_list :
    (c : Option String) (es fs : List ChatLedgerEvent) (e : ChatMessageRedactionRecord)
    → truthy e.created_at ≡ true
    → All (Keeps e.message_id) fs
    → All
        (λ m. (m.message_id == e.message_id) ≡ true → Redacted m)
        (values (replay_events c empty_replay (es ++ message_redacted e ∷ fs)).messages)
unfolding replay_events
Redacted-in_list c es fs e d k =
    values-All (λ m. (m.message_id == e.message_id) ≡ true → Redacted m) _
      (All-map (λ (x : String × ChatMessage). (x.0 ≡ x.1.message_id) × RedactedEntry e.message_id x)
        _ _ (λ x h t. h.1 (rw (h.0) t))
        (All-both _ _ _ (entries-named c (es ++ message_redacted e ∷ fs)) (
          rw (replay_events-append c empty_replay es (message_redacted e ∷ fs)) (
            stays_redacted e.message_id c _ fs k (
              redacted_now c (replay_events c empty_replay es) e d
                (replay_events-Distinct c empty_replay es tt))))))
