-- ===== src/Chat/CommandService/Reads/Events.antt =====
-- What `readChatEvents` of src/chat/policy/command-service.ts shows to a viewer.
use openboa.Prelude.{
  ◌≡◌, refl, sym, ap, ◌∙◌, ℕ, String, Bool, true, false, Option, none, some, List, [], ◌∷◌, filter,
  find, take, All, All-map, All-filter, In, In-All, zero, suc, In-of_filter, In-of_any, ◌==◌,
  eq_iff, truthy, or_default, ltb, includes, map, Bool-cases, Option-cases, inl, inr, nat_eq, subst,
}
use mathlib.Core.Option.{some-injective}
use openboa.Chat.Model.{
  ChatConversationRecord, ChatLedgerEvent, Result, ok, err, room_missing, denied, ok-injective,
}
use openboa.Chat.Authorization.{room_read}
use openboa.Chat.Ledger.{SharedChatLedger, list_events, sequence_of}
use openboa.Chat.Ledger.Latest.{filter_holds}
use openboa.Chat.Ledger.Conversations.{list_conversation_records}
use openboa.Chat.CommandService.Action.{
  Env, resolve_chat_actor_id, actor_or_default, continue, gets, asks, pure, ◌>>=◌,
}
use openboa.Chat.CommandService.Permission.{evaluate_conversation_permission}
use openboa.Chat.CommandService.Reads.{
  ConversationAccess, access_state, can_read_conversation, read_conversation_access_state,
  readable_ids, one_readable, read_chat_events, event_conversation, is_readable, up_to,
}
use openboa.Chat.CommandService.Reads.Access.{can_read_conversation-eq-permission}

module _ (access : ConversationAccess) where
  -- The identifier of a room that the viewer may read.
  abbrev Readable : String → Type 0
  Readable id =
      (room : ChatConversationRecord) × In room access.conversation_records
      × (room.conversation_id ≡ id)
      × (can_read_conversation access room ≡ true)

  map-Readable :
      (rooms : List ChatConversationRecord)
      → ((room : ChatConversationRecord) → In room rooms → Readable room.conversation_id)
      → All Readable (map (λ r. r.conversation_id) rooms)
  map-Readable [] h = tt
  map-Readable (r ∷ rs) h = (h r (inl refl), map-Readable rs (λ x m. h x (inr m)))

  find-In : {A : Type 0} (p : A → Bool) (xs : List A) (x : A) → find p xs ≡ some x → In x xs
  find-In p [] x h = cc
  find-In p (y ∷ ys) x h = elim (Bool-cases (p y)) [
    | inl t ↦ inl (sym (some-injective y x (rw t at h)))
    | inr t ↦ inr (find-In p ys x (rw t at h))
  ]

  readable_ids-Readable :
      (asked : Option String) (ids : List String)
      → readable_ids access asked ≡ ok ids
      → All Readable ids
  unfolding readable_ids
  readable_ids-Readable none ids h = subst (All Readable) (ok-injective _ _ h) (
      map-Readable _
        λ r m. let (i, t) = In-of_filter (can_read_conversation access) r _ m in (r, i, refl, t))
  readable_ids-Readable (some id) ids h =
      elim (Option-cases (find (λ r. r.conversation_id == id) access.conversation_records)) [
        | inl p ↦ absurd (thrown (rw p at h))
        | inr (room, p) ↦ one room (find-In _ _ room p) (rw p at h)
      ]
    where
      thrown : err (room_missing id) ≡ ok ids → ⊥
      thrown q = cc

      denied_one : err (denied "Private rooms require an explicit grant") ≡ ok ids → ⊥
      denied_one q = cc

      one :
          (room : ChatConversationRecord)
          → In room access.conversation_records
          → one_readable access id (some room) ≡ ok ids
          → All Readable ids
      one room m q = elim (Bool-cases (can_read_conversation access room)) [
        | inl t ↦ subst (All Readable) (ok-injective _ _ (rw t at q)) ((room, m, refl, t), tt)
        | inr t ↦ absurd (denied_one (rw t at q))
      ]

  includes-Readable :
      (ids : List String) (id : String) → All Readable ids → includes id ids ≡ true → Readable id
  includes-Readable ids id h m =
      let (y, i, t) = In-of_any (λ y. y == id) ids m in
      subst Readable ((eq_iff y id).0 t) (In-All Readable y ids h i)

  is_readable-Readable :
      (ids : List String) (e : ChatLedgerEvent)
      → All Readable ids
      → is_readable ids e ≡ true
      → (id : String) × (event_conversation e ≡ some id) × Readable id
  is_readable-Readable ids e h m = elim (Option-cases (event_conversation e)) [
    | inl p ↦ absurd (no_room (rw p at m))
    | inr (id, p) ↦ (id, p, includes-Readable ids id h (rw p at m))
  ]
    where
      no_room : false ≡ true → ⊥
      no_room q = cc

module _ {ℓ κ} {A : Type ℓ} (P : A → Type κ) where
  All-take : (k : ℕ) (ys : List A) → All P ys → All P (take k ys)
  All-take zero ys a = tt
  All-take (suc k) [] a = tt
  All-take (suc k) (y ∷ ys) a = (a.0, All-take k ys a.1)

  All-up_to : (n : Option ℕ) (xs : List A) → All P xs → All P (up_to n xs)
  All-up_to none xs h = h
  All-up_to (some n) xs h = elim (Bool-cases (nat_eq n 0)) [
    | inl t ↦ rw t h
    | inr t ↦ rw t (All-take n xs h)
  ]

-- The event is of a room that `readConversation` would show to the viewer.
abbrev pub IsShownTo : SharedChatLedger → String → ChatLedgerEvent → Type 0
IsShownTo l viewer e =
    (room : ChatConversationRecord) × In room (list_conversation_records l l.default_scope)
    × (event_conversation e ≡ some room.conversation_id)
    × ((evaluate_conversation_permission l viewer room room_read).allowed ≡ true)

-- Whatever is asked, every event that a viewer is given belongs to a room of the ledger that the
-- permission check lets the viewer read, and the call leaves the ledger as it is. No room has the empty
-- text for an identifier.
pub read_chat_events-confidential :
    (env : Env) (l : SharedChatLedger) (actor : String) (asked : Option String)
    (after limit : Option ℕ) {es : List ChatLedgerEvent} {l' : SharedChatLedger}
    → All (λ r. truthy r.conversation_id ≡ true) (list_conversation_records l l.default_scope)
    → read_chat_events actor asked after limit env l ≡ (ok es, l')
    → All (IsShownTo l (resolve_chat_actor_id env (some actor))) es × (l' ≡ l)
unfolding read_chat_events read_conversation_access_state actor_or_default gets asks pure ◌>>=◌
    access_state
read_chat_events-confidential env l actor asked after limit {es} {l'} named h =
    split (readable_ids access asked) refl h
  where
    viewer : String
    viewer = resolve_chat_actor_id env (some actor)

    access : ConversationAccess
    access = access_state l viewer

    shown :
        (ids : List String)
        → readable_ids access asked ≡ ok ids
        → (e : ChatLedgerEvent) → is_readable ids e ≡ true
        → IsShownTo l viewer e
    shown ids p e m =
        let (id, q, (room, i, same, t)) =
          is_readable-Readable access ids e (readable_ids-Readable access asked ids p) m in
        (
          room,
          i,
          q ∙ ap some (sym same),
          sym (can_read_conversation-eq-permission l viewer room (In-All _ room _ named i)) ∙ t,
        )

    split :
        (r : Result (List String))
        → readable_ids access asked ≡ r
        → continue
            (r, l)
            (λ ids. gets (λ l. list_events l l.default_scope) >>= λ events. pure (
              up_to limit (
                filter
                  (λ e. ltb (or_default after 0) (sequence_of e))
                  (filter (is_readable ids) events))))
            env
          ≡ (ok es, l')
        → All (IsShownTo l viewer) es × (l' ≡ l)
    split (err e) p q = absurd (thrown (ap (λ t. t.0) q))
      where
        thrown : err e ≡ ok es → ⊥
        thrown t = cc
    split (ok ids) p q = (
      subst (All (IsShownTo l viewer)) (ok-injective _ _ (ap (λ t. t.0) q)) (
          All-up_to _ limit _ (
            All-filter _ _ _ (
              All-map _ _ _ (shown ids p)
                (filter_holds (is_readable ids) (list_events l l.default_scope))))),
      sym (ap (λ t. t.1) q),
    )
