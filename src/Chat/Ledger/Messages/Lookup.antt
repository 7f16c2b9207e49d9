-- ===== src/Chat/Ledger/Messages/Lookup.antt =====
-- `findMessageById` of src/chat/core/ledger.ts as a lookup in the map of the loop.
use openboa.Prelude.{
  ℕ, eq_refl, subst, String, ◌≡◌, refl, sym, ap, ◌∙◌, Bool, true, false, none, some, List, [], ◌∷◌,
  All, find, ◌==◌, eq_iff, Bool-cases, inl, inr, arith, if◌then◌else◌, is_truthy,
}
use openboa.Prelude.JsMap.{JsMap, get, get-set, values, Distinct, Absent}
use openboa.Prelude.Sorting.{sort_by, insert_by, sort_by-All}
use openboa.Chat.Model.{ChatMessage, message_edited, ChatMessageEditRecord}
use openboa.Chat.Ledger.{
  SharedChatLedger, list_events, append_event, scope_of, sequence_of, next_sequence,
}
use openboa.Chat.Ledger.Order.{IsOrdered}
use openboa.Chat.Ledger.Messages.{
  empty_replay, replay_events, replay_event, list_messages, find_message_by_id, edited_message,
  edit_known,
}
use openboa.Chat.Ledger.Messages.Laws.{replay_events-append, list_events-append_event}
use openboa.Chat.Ledger.Messages.Redaction.{entries-named, replay_events-Distinct}

module _ {A : Type 0} (p : A → Bool) where
  -- At most one entry passes the test.
  abbrev Once : List A → Type 0
  Once [] = Unit {0}
  Once (x ∷ xs) = (p x ≡ true → All (λ y. p y ≡ false) xs) × Once xs

  find-none : (xs : List A) → All (λ y. p y ≡ false) xs → find p xs ≡ none
  find-none [] h = refl
  find-none (x ∷ xs) h = rw h.0 (find-none xs h.1)

  find-insert_by :
      (le : A → A → Bool) (x : A) (xs : List A)
      → (p x ≡ true → All (λ y. p y ≡ false) xs)
      → find p (insert_by le x xs) ≡ find p (x ∷ xs)
  unfolding insert_by
  find-insert_by le x [] h = refl
  find-insert_by le x (y ∷ ys) h = elim (Bool-cases (le x y)) [
    | inl e ↦ rw e
    | inr e ↦ elim (Bool-cases (p x)) [
      | inl t ↦ rw (e, (h t).0, find-insert_by le x ys (λ t. (h t).1), t) refl
      | inr t ↦ rw (e, find-insert_by le x ys (λ u. absurd (cc)), t) refl
    ]
  ]

  -- Sorting does not change which entry is found, if there is at most one to find.
  find-sort_by : (le : A → A → Bool) (xs : List A) → Once xs → find p (sort_by le xs) ≡ find p xs
  unfolding sort_by
  find-sort_by le [] h = refl
  find-sort_by le (x ∷ xs) h =
      find-insert_by le x (sort_by le xs) (λ t. sort_by-All _ le xs (h.0 t))
      ∙ ap (λ o. if p x then some x else o) (find-sort_by le xs h.1)

module _ (id : String) where
  abbrev has_id : ChatMessage → Bool
  has_id m = m.message_id == id

  -- The entries stand under their messages' identifiers.
  abbrev Named : JsMap ChatMessage → Type 0
  Named = All (λ (e : String × ChatMessage). e.0 ≡ e.1.message_id)

  values-others :
      (m : JsMap ChatMessage) → Named m → Absent id m → All (λ x. has_id x ≡ false) (values m)
  unfolding values
  values-others [] h a = tt
  values-others ((j, x) ∷ m) h a = (ap (λ k. k == id) (sym h.0) ∙ a.0, values-others m h.1 a.1)

  values-Once : (m : JsMap ChatMessage) → Named m → Distinct m → Once has_id (values m)
  unfolding values
  values-Once [] h d = tt
  values-Once ((j, x) ∷ m) h d = (
    (λ t. values-others m h.1 (subst (λ k. Absent k m) (h.0 ∙ (eq_iff _ _).0 t) d.0)),
    values-Once m h.1 d.1,
  )

  find-values : (m : JsMap ChatMessage) → Named m → find has_id (values m) ≡ get id m
  unfolding values get
  find-values [] h = refl
  find-values ((j, x) ∷ m) h = rw (find-values m h.1, h.0) refl

-- Looking a message up is looking its identifier up in the map that the events leave.
pub find_message_by_id-get :
    (l : SharedChatLedger) (id scope : String)
    → find_message_by_id l id scope
      ≡ get id (replay_events none empty_replay (list_events l scope)).messages
unfolding find_message_by_id list_messages
find_message_by_id-get l id scope =
    let m = (replay_events none empty_replay (list_events l scope)).messages in
    let named = entries-named none (list_events l scope) in
    find-sort_by (has_id id) _ (values m)
      (values-Once id m named (replay_events-Distinct none empty_replay (list_events l scope) tt))
    ∙ find-values id m named

pub find_message_by_id-named :
    (l : SharedChatLedger) (id scope : String) (m : ChatMessage)
    → find_message_by_id l id scope ≡ some m
    → m.message_id ≡ id
unfolding find_message_by_id
find_message_by_id-named l id scope m h = named_of _ h
  where
    named_of :
        (xs : List ChatMessage) → find (λ x. x.message_id == id) xs ≡ some m → m.message_id ≡ id
    named_of [] h = cc
    named_of (x ∷ xs) h = ground (arith, eq_iff x.message_id id, named_of xs)

-- An edit that is written shows in the message that the ledger then finds.
pub find_message_by_id-edited :
    (l : SharedChatLedger) (scope : String) (taken : ℕ) (e : ChatMessageEditRecord)
    (m : ChatMessage)
    → IsOrdered l
    → e.scope_id ≡ scope
    → e.sequence ≡ next_sequence l scope
    → e.scope_revision ≡ e.sequence
    → find_message_by_id l e.message_id scope ≡ some m
    → is_truthy m.redacted_at ≡ false
    → find_message_by_id (append_event l taken (message_edited e)) e.message_id scope
      ≡ some (edited_message m e)
unfolding replay_event edit_known scope_of sequence_of replay_events
find_message_by_id-edited l scope taken e m h s n r found u =
    let known = sym (find_message_by_id-get l e.message_id scope) ∙ found in
    find_message_by_id-get (append_event l taken (message_edited e)) e.message_id scope
    ∙ rw
        (
          list_events-append_event scope h taken (message_edited e) s n r,
          replay_events-append none empty_replay (list_events l scope) (message_edited e ∷ []),
          known,
          u,
          get-set e.message_id e.message_id (edited_message m e)
              (replay_events none empty_replay (list_events l scope)).messages,
          eq_refl e.message_id,
        )
        refl
