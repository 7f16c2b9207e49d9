-- ===== src/Chat/Ledger/Rooms/Immutable.antt =====
-- What `updateConversation` of src/chat/core/ledger.ts never changes.
use openboa.Prelude.{
  String, ◌≡◌, true, refl, Option, some, none, arith, opt_eq, eq_iff, ◌==◌, Bool-cases, inl, inr,
  ap, sym,
}
use openboa.Chat.Model.{
  ChatConversationRecord, ChatConversationInput, is_direct_conversation_kind, history_mode_eq,
  Result, ok, err, ◌>>=◌, ◌>>◌, require, direct_participants_immutable,
}
use openboa.Chat.Model.Shape.{chat_conversation_identity}
use openboa.Chat.Ledger.{SharedChatLedger, scope_or_default}
use openboa.Chat.Ledger.Conversations.{get_conversation_by_id}
use openboa.Chat.Ledger.Rooms.{
  update_conversation, update_room, updated_room, write_room, check_direct_update,
  next_participants, update_found,
}

-- What a room and the room that an update leaves have in common.
pub record Kept (id : String) (p r : ChatConversationRecord) : Type 0 where
  pub same_id : r.conversation_id ≡ id
  pub same_kind : r.kind ≡ p.kind
  pub same_start : r.created_at ≡ p.created_at
  pub same_identity :
      is_direct_conversation_kind p.kind ≡ true
      → chat_conversation_identity p.kind none (some r.participant_ids)
        ≡ chat_conversation_identity p.kind none (some p.participant_ids)
  pub same_predecessor :
      is_direct_conversation_kind p.kind ≡ true
      → opt_eq r.predecessor_conversation_id p.predecessor_conversation_id ≡ true
  pub same_history :
      is_direct_conversation_kind p.kind ≡ true
      → history_mode_eq r.history_mode p.history_mode ≡ true

compared :
    (before after : Result String) (rest : Result (Unit {0}))
    → (before >>= λ a. after >>= λ b. require (a == b) direct_participants_immutable >> rest)
      ≡ ok tt
    → after ≡ before
compared (ok a) (ok b) rest h = elim (Bool-cases (a == b)) [
  | inl t ↦ ap ok (sym ((eq_iff a b).0 t))
  | inr t ↦ absurd (let k = rw t at h in cc)
]
compared (ok a) (err e) rest h = cc
compared (err e) after rest h = cc

check_direct_update-identity :
    (p : ChatConversationRecord) (i : ChatConversationInput)
    → check_direct_update p i ≡ ok tt
    → is_direct_conversation_kind p.kind ≡ true
    → chat_conversation_identity p.kind none (some (next_participants p i))
      ≡ chat_conversation_identity p.kind none (some p.participant_ids)
unfolding check_direct_update
check_direct_update-identity p i h d = compared _ _ _ (rw d at h)

update_room-Kept :
    (l : SharedChatLedger) (id : String) (p : ChatConversationRecord) (i : ChatConversationInput)
    {r : ChatConversationRecord} {l' : SharedChatLedger}
    → update_room l id p i ≡ ok (r, l')
    → Kept id p r
unfolding update_room write_room updated_room check_direct_update
update_room-Kept l id p i {r} h = record {
  same_id = ground arith;
  same_kind = ground arith;
  same_start = ground arith;
  same_identity = λ d.
      let checked : check_direct_update p i ≡ ok tt = ground arith in
      rw (written) (check_direct_update-identity p i checked d);
  same_predecessor = λ d. ground arith;
  same_history = λ d. ground arith;
}
  where
    written : r.participant_ids ≡ next_participants p i
    written = ground arith

-- An update finds its room, keeps its identifier, kind and time of creation, and of a direct room the
-- participants' identity, the predecessor and the history mode.
pub update_conversation-Kept :
    (l : SharedChatLedger) (id : String) (i : ChatConversationInput) {r : ChatConversationRecord}
    {l' : SharedChatLedger}
    → update_conversation l id i ≡ ok (r, l')
    → (p : ChatConversationRecord) × (get_conversation_by_id l id (scope_or_default l i.scope_id)
        ≡ some p)
      × Kept id p r
unfolding update_conversation
update_conversation-Kept l id i {r} {l'} h =
    found (get_conversation_by_id l id (scope_or_default l i.scope_id)) refl h
  where
    found :
        (o : Option ChatConversationRecord)
        → get_conversation_by_id l id (scope_or_default l i.scope_id) ≡ o
        → update_found l id i o ≡ ok (r, l')
        → (p : ChatConversationRecord) × (get_conversation_by_id l id
              (scope_or_default l i.scope_id)
            ≡ some p)
          × Kept id p r
    found none q k = absurd (cc)
    found (some p) q k = (p, q, update_room-Kept l id p i k)
