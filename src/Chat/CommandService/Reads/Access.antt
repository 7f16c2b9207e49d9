-- ===== src/Chat/CommandService/Reads/Access.antt =====
-- The access state of src/chat/policy/command-service.ts, gathered once for all rooms, against the check
-- of one room.
use openboa.Prelude.{
  ◌≡◌, refl, sym, ap, ◌∙◌, String, Bool, true, false, ◌&&◌, ◌||◌, Option, none, some, List, [], ◌∷◌,
  ◌++◌, append_assoc, append-nil, filter, filter_ext, any, All, In-All, ◌==◌, opt_eq, truthy,
  or_default, eq_iff, eq_refl, Bool-cases, inl, inr, arith, if◌then◌else◌,
}
use openboa.Prelude.JsMap.{get, get-set}
use openboa.Chat.Model.{
  ok, ChatConversationRecord, ChatGrantBindingRecord, ChatGrantScopeKind, chat, conversation,
  scope_kind_eq,
}
use openboa.Chat.Authorization.{
  room_read, is_active_binding, is_public_room, in_resolution_scope, ChatGrantResolutionScope,
}
use openboa.Chat.Authorization.Access.{any-or, evaluate_conversation_action-eq-permits}
use openboa.Chat.Ledger.{SharedChatLedger}
use openboa.Chat.Ledger.Conversations.{list_conversation_records}
use openboa.Chat.CommandService.Action.{
  Env, resolve_chat_actor_id, actor_or_default, gets, pure, ◌>>=◌,
}
use openboa.Chat.CommandService.Permission.{
  evaluate_conversation_permission, get_bindings_for_subject,
}
use openboa.Chat.CommandService.Reads.{
  Buckets, push, push_room, bucket_bindings, is_chat_binding, access_state,
  read_visible_conversations, read_conversation_access_state, can_read_conversation,
}

any-append {ℓ} :
    {A : Type ℓ} (p : A → Bool) (xs ys : List A) → any p (xs ++ ys) ≡ (any p xs || any p ys)
any-append p [] ys = refl
any-append p (x ∷ xs) ys = ground (arith, any-append p xs ys)

any-filter {ℓ} :
    {A : Type ℓ} (q p : A → Bool) (xs : List A) → any q (filter p xs) ≡ any (λ x. p x && q x) xs
any-filter q p [] = refl
any-filter q p (x ∷ xs) = ground (arith, any-filter q p xs)

any_ext {ℓ} :
    {A : Type ℓ} (p q : A → Bool) → ((x : A) → p x ≡ q x) → (xs : List A) → any p xs ≡ any q xs
any_ext p q h [] = refl
any_ext p q h (x ∷ xs) = rw (h x, any_ext p q h xs)

append-if {ℓ} :
    {A : Type ℓ} (xs : List A) (b : Bool) (y : A) (ys : List A)
    → (xs ++ (if b then y ∷ [] else [])) ++ ys ≡ xs ++ (if b then y ∷ ys else ys)
append-if xs true y ys = append_assoc xs (y ∷ []) ys
append-if xs false y ys = append_assoc xs [] ys

module _ (id : String) (named : truthy id ≡ true) where
  abbrev in_room_binding : ChatGrantBindingRecord → Bool
  in_room_binding b =
      (is_active_binding b && scope_kind_eq b.scope_kind conversation)
      && opt_eq b.conversation_id (some id)

  bucket_of : Buckets → List ChatGrantBindingRecord
  bucket_of m = or_default (get id m) []

  bucket_of-push_room :
      (m : Buckets) (b : ChatGrantBindingRecord) (o : Option String)
      → bucket_of (push_room o b m) ≡ bucket_of m ++ (if opt_eq o (some id) then b ∷ [] else [])
  unfolding bucket_of push
  bucket_of-push_room m b none = sym (append-nil _)
  bucket_of-push_room m b (some j) = elim (Bool-cases (j == id)) [
    | inl t ↦
        let same = (eq_iff j id).0 t in
        rw (same, named, get-set id id (or_default (get id m) [] ++ b ∷ []) m, eq_refl id) refl
    | inr t ↦ elim (Bool-cases (truthy j)) [
      | inl u ↦ rw (u, get-set j id (or_default (get j m) [] ++ b ∷ []) m, t) (sym (append-nil _))
      | inr u ↦ rw (u, t) (sym (append-nil _))
    ]
  ]

  -- A room's bucket has the active bindings of the room, in their order.
  bucket_of-bucket_bindings :
      (m : Buckets) (bs : List ChatGrantBindingRecord)
      → bucket_of (bucket_bindings m bs) ≡ bucket_of m ++ filter in_room_binding bs
  unfolding bucket_bindings
  bucket_of-bucket_bindings m [] = sym (append-nil _)
  bucket_of-bucket_bindings m (b ∷ bs) =
      elim (Bool-cases (is_active_binding b && scope_kind_eq b.scope_kind conversation)) [
        | inl t ↦
            rw
              (
                t,
                bucket_of-bucket_bindings (push_room b.conversation_id b m) bs,
                bucket_of-push_room m b b.conversation_id,
              )
              (append-if _ (opt_eq b.conversation_id (some id)) b _)
        | inr t ↦ rw (t, bucket_of-bucket_bindings m bs) refl
      ]

  abbrev room_scope : ChatGrantResolutionScope
  room_scope = record { scope_kind = conversation; conversation_id = some id }

  -- An active binding that reaches the room is one of the chat or one of the room.
  reaches : ChatGrantBindingRecord → Bool
  reaches b = is_active_binding b && in_resolution_scope room_scope b && true

  reaches-split :
      (b : ChatGrantBindingRecord)
      → ((is_chat_binding b && reaches b) || (in_room_binding b && reaches b)) ≡ reaches b
  unfolding reaches
  reaches-split b = split (is_active_binding b) b.scope_kind (opt_eq b.conversation_id (some id))
    where
      within : Bool → ChatGrantScopeKind → Bool → Bool
      within a k o =
          a
          && ((scope_kind_eq k chat
                && (scope_kind_eq conversation chat || scope_kind_eq conversation conversation))
              || (scope_kind_eq conversation conversation && scope_kind_eq k conversation && o))
          && true

      split :
          (a : Bool) (k : ChatGrantScopeKind) (o : Bool)
          → (((a && scope_kind_eq k chat) && within a k o)
              || (((a && scope_kind_eq k conversation) && o) && within a k o))
            ≡ within a k o
      split false k o = refl
      split true chat o = refl
      split true conversation true = refl
      split true conversation false = refl

  any-split :
      (bs : List ChatGrantBindingRecord)
      → any reaches (filter is_chat_binding bs ++ filter in_room_binding bs) ≡ any reaches bs
  any-split bs =
      any-append reaches (filter is_chat_binding bs) (filter in_room_binding bs)
      ∙ ap (λ t. t || any reaches (filter in_room_binding bs))
          (any-filter reaches is_chat_binding bs)
      ∙ ap (λ t. any (λ b. is_chat_binding b && reaches b) bs || t)
          (any-filter reaches in_room_binding bs)
      ∙ any-or (λ b. is_chat_binding b && reaches b) (λ b. in_room_binding b && reaches b) bs
      ∙ any_ext _ _ reaches-split bs

-- The check on the gathered state is the check of the one room, for a viewer and a room with an
-- identifier that is not empty.
pub can_read_conversation-eq-permission :
    (l : SharedChatLedger) (viewer : String) (room : ChatConversationRecord)
    → truthy room.conversation_id ≡ true
    → can_read_conversation (access_state l viewer) room
      ≡ (evaluate_conversation_permission l viewer room room_read).allowed
unfolding can_read_conversation access_state evaluate_conversation_permission
    get_bindings_for_subject bucket_of reaches get
can_read_conversation-eq-permission l viewer room named =
    let id = room.conversation_id in
    let bindings = get_bindings_for_subject l viewer in
    evaluate_conversation_action-eq-permits _
    ∙ ap (λ t. (is_public_room room.visibility || t) && true && true && true)
        (ap (λ t. any (reaches id named) (filter is_chat_binding bindings ++ t))
            (bucket_of-bucket_bindings id named [] bindings)
          ∙ any-split id named bindings)
    ∙ sym (evaluate_conversation_action-eq-permits _)

-- The visible rooms are those that the permission check of `readConversation` lets the viewer read, each
-- of them, in the ledger's order, and the call leaves the ledger as it is. No room has the empty text
-- for an identifier.
pub read_visible_conversations-eq :
    (env : Env) (l : SharedChatLedger) (actor : String)
    → All (λ r. truthy r.conversation_id ≡ true) (list_conversation_records l l.default_scope)
    → read_visible_conversations actor env l ≡ (
      ok (
          filter
            (λ room.
              (evaluate_conversation_permission l
                (resolve_chat_actor_id env (some actor))
                room
                room_read).allowed)
            (list_conversation_records l l.default_scope)),
      l,
    )
unfolding read_visible_conversations read_conversation_access_state actor_or_default gets pure ◌>>=◌
    access_state
read_visible_conversations-eq env l actor named =
    ap (λ rs. (ok rs, l))
      (filter_ext _ _ (list_conversation_records l l.default_scope) λ room m.
        can_read_conversation-eq-permission l (resolve_chat_actor_id env (some actor)) room
          (In-All _ room _ named m))
