-- ===== src/Chat/Ledger/Commands.antt =====
-- All writing operations of `SharedChatLedger` as commands, and what any sequence of them keeps.
pub mod Cases
use openboa.Prelude.{
  ℕ, String, ◌≡◌, refl, sym, ap, ◌∙◌, append_assoc, append-nil, Bool, true, false, Option, none,
  some, List, [], ◌∷◌, ◌++◌, map, All, or_default, ◌⊎◌, inl, inr, arith, subst, filter, not,
  includes,
}
use mathlib.Core.List.{map-append}
use openboa.Chat.Model.{
  ChatMessage, ChatMessageEditRecord, ChatMessageRedactionRecord, message_posted, message_edited,
  message_redacted, grant_binding_upserted, cursor_updated, attachment_upserted,
  participant_upserted, ChatRoomMembershipInput, ChatGrantBindingInput, ChatGrantBindingRecord,
  ChatCursorInput, ChatConversationAttachmentInput, ChatConversationInput, ChatConversationRecord,
  ChatMessageInput, ChatParticipantUpsertInput, ChatRoomMembershipState, joined, left, Result, ok,
  err, ◌>>=◌, ◌>>◌, ChatLedgerEvent, conversation_upserted,
}
use openboa.Chat.Ledger.{
  SharedChatLedger, stored, scope_of, sequence_of, next_sequence, append_event, scope_or_default,
  unique,
}
use openboa.Chat.Ledger.Order.{
  IsOrdered, Stamped, TakesId, Appends, same, write, Appends-trans, Appends-IsOrdered,
}
use openboa.Chat.Ledger.Commands.Cases.{
  append_message_cases, edit_message_cases, redact_message_cases, create_grant_binding_cases,
  revoke_grant_binding_cases, upsert_cursor_cases, upsert_conversation_attachment_cases,
  upsert_participant_cases, ensure_conversation_cases, update_conversation_cases, members_before,
}
use openboa.Chat.Ledger.Memberships.{upsert_room_membership, sync_membership_records, upsert_all}
use openboa.Chat.Ledger.Grants.{create_grant_binding, revoke_grant_binding, ids_taken}
use openboa.Chat.Ledger.Cursors.{
  upsert_cursor, upsert_conversation_attachment, new_cursor, new_attachment,
}
use openboa.Chat.Ledger.Participants.{upsert_participant}
use openboa.Chat.Ledger.Posting.{
  append_message, edit_message, redact_message, set_message_reaction, EditInput, RedactInput,
  ReactionInput, new_message,
}
use openboa.Chat.Ledger.Rooms.{
  ensure_conversation, update_conversation, write_room, new_room, updated_room,
}

pub data Command : Type 0 where
  posts : ChatMessageInput → Command
  edits : EditInput → Command
  redacts : RedactInput → Command
  reacts : ReactionInput → Command
  sets_membership : ChatRoomMembershipInput → Command
  grants : ChatGrantBindingInput → Command
  revokes : String → String → String → Command
  moves_cursor : ChatCursorInput → Command
  attaches : ChatConversationAttachmentInput → Command
  registers : ChatParticipantUpsertInput → Command
  ensures : ChatConversationInput → Command
  updates : String → ChatConversationInput → Command

-- The scope that a command writes to.
abbrev pub target_scope : SharedChatLedger → Command → String
target_scope l (posts i) = scope_or_default l i.scope_id
target_scope l (edits i) = scope_or_default l i.scope_id
target_scope l (redacts i) = scope_or_default l i.scope_id
target_scope l (reacts i) = scope_or_default l i.scope_id
target_scope l (sets_membership i) = scope_or_default l i.scope_id
target_scope l (grants i) = scope_or_default l i.scope_id
target_scope l (revokes id at scope) = scope
target_scope l (moves_cursor i) = scope_or_default l i.scope_id
target_scope l (attaches i) = scope_or_default l i.scope_id
target_scope l (registers i) = scope_or_default l i.scope_id
target_scope l (ensures i) = scope_or_default l i.scope_id
target_scope l (updates id i) = scope_or_default l i.scope_id

-- The ledger after a call: a call that throws has written nothing.
abbrev pub after {ℓ} :
    {A : Type ℓ} → SharedChatLedger → Result (A × SharedChatLedger) → SharedChatLedger
after l (ok (a, l')) = l'
after l (err e) = l

unfoldable pub run_command : SharedChatLedger → Command → SharedChatLedger
run_command l (posts i) = after l (append_message l i)
run_command l (edits i) = after l (edit_message l i)
run_command l (redacts i) = after l (redact_message l i)
run_command l (reacts i) = (set_message_reaction l i).1
run_command l (sets_membership i) = (upsert_room_membership l i).1
run_command l (grants i) = after l (create_grant_binding l i)
run_command l (revokes id at scope) = after l (revoke_grant_binding l id at scope)
run_command l (moves_cursor i) = after l (upsert_cursor l i)
run_command l (attaches i) = after l (upsert_conversation_attachment l i)
run_command l (registers i) = after l (upsert_participant l i)
run_command l (ensures i) = after l (ensure_conversation l i)
run_command l (updates id i) = after l (update_conversation l id i)

unfoldable pub run_commands : SharedChatLedger → List Command → SharedChatLedger
run_commands l [] = l
run_commands l (c ∷ cs) = run_commands (run_command l c) cs

module _ (l : SharedChatLedger) (scope : String) where
  -- One write, from what the cases of an operation say.
  Appends-write :
      {l' : SharedChatLedger} (taken : ℕ) (e : ChatLedgerEvent)
      → l' ≡ append_event l taken e
      → scope_of e ≡ scope
      → sequence_of e ≡ next_sequence l scope
      → Stamped e
      → TakesId l taken e
      → Appends scope l l'
  Appends-write taken e p s n st t = rw p (write taken e same s n st t)

  after_cases {ℓ} :
      {A : Type ℓ} (r : Result (A × SharedChatLedger))
      → ((a : A) (l' : SharedChatLedger) → r ≡ ok (a, l') → Appends scope l l')
      → Appends scope l (after l r)
  after_cases (ok (a, l')) h = h a l' refl
  after_cases (err e) h = same

upsert_room_membership-Appends :
    (l : SharedChatLedger) (i : ChatRoomMembershipInput)
    → Appends (scope_or_default l i.scope_id) l (upsert_room_membership l i).1
unfolding upsert_room_membership scope_of sequence_of
upsert_room_membership-Appends l i = write 1 _ same refl refl tt tt

upsert_all-Appends :
    (scope id : String) (state : ChatRoomMembershipState) (at : String) (l : SharedChatLedger)
    (ps : List String)
    → Appends scope l (upsert_all l scope id state at ps)
unfolding upsert_all
upsert_all-Appends scope id state at l [] = same
upsert_all-Appends scope id state at l (p ∷ ps) =
    let i : ChatRoomMembershipInput = record {
      scope_id = some scope;
      conversation_id = id;
      participant_id = p;
      membership_state = some state;
      created_at = none;
      updated_at = at;
    } in
    Appends-trans (upsert_room_membership-Appends l i)
      (upsert_all-Appends scope id state at (upsert_room_membership l i).1 ps)

sync_membership_records-Appends :
    (l : SharedChatLedger) (scope id : String) (before next : List String) (at : String)
    → Appends scope l (sync_membership_records l scope id before next at)
unfolding sync_membership_records
sync_membership_records-Appends l scope id before next at =
    let joining = filter (λ p. not (includes p (unique before))) (unique next) in
    let leaving = filter (λ p. not (includes p (unique next))) (unique before) in
    Appends-trans (upsert_all-Appends scope id joined at l joining)
      (upsert_all-Appends scope id left at (upsert_all l scope id joined at joining) leaving)

write_room-Appends :
    (l : SharedChatLedger) (taken : ℕ) (room : ChatConversationRecord) (before : List String)
    → room.sequence ≡ next_sequence l room.scope_id
    → Appends room.scope_id l (write_room l taken room before).1
unfolding write_room scope_of sequence_of
write_room-Appends l taken room before n =
    Appends-trans (write taken (conversation_upserted room) same refl n tt tt) (
      sync_membership_records-Appends (append_event l taken (conversation_upserted room))
        room.scope_id room.conversation_id before room.participant_ids room.updated_at)

room-Appends :
    (l : SharedChatLedger) (scope : String) (taken : ℕ) (room : ChatConversationRecord)
    (before : List String) {l' : SharedChatLedger}
    → l' ≡ (write_room l taken room before).1
    → room.scope_id ≡ scope
    → room.sequence ≡ next_sequence l scope
    → Appends scope l l'
room-Appends l scope taken room before p s n = rw p (
    subst (λ t. Appends t l (write_room l taken room before).1) s
      (write_room-Appends l taken room before (n ∙ ap (next_sequence l) (sym s))))

-- Every command only appends events of its own scope, each with the next sequence number of the scope:
-- messages, edits and redactions with that number as their revision, and messages under the next
-- identifier.
pub run_command-Appends :
    (l : SharedChatLedger) (c : Command) → Appends (target_scope l c) l (run_command l c)
unfolding run_command scope_of sequence_of set_message_reaction
run_command-Appends l (posts i) = after_cases l _ (append_message l i) λ m l' h.
    elim (append_message_cases l i h) [
      | inl p ↦ rw p same
      | inr (p, s, n, r, t) ↦ Appends-write l _ 1 (message_posted m) p s n r (t, omega arith)
    ]
run_command-Appends l (edits i) = after_cases l _ (edit_message l i) λ e l' h.
    let (p, s, n, r) = edit_message_cases l i h in Appends-write l _ 1 (message_edited e) p s n r tt
run_command-Appends l (redacts i) = after_cases l _ (redact_message l i) λ e l' h.
    let (p, s, n, r) = redact_message_cases l i h in
    Appends-write l _ 1 (message_redacted e) p s n r tt
run_command-Appends l (reacts i) = write 1 _ same refl refl tt tt
run_command-Appends l (sets_membership i) = upsert_room_membership-Appends l i
run_command-Appends l (grants i) = after_cases l _ (create_grant_binding l i) λ b l' h.
    let (p, s, n) = create_grant_binding_cases l i h in
    Appends-write l _ (ids_taken i) (grant_binding_upserted b) p s n tt tt
run_command-Appends l (revokes id at scope) =
    after_cases l _ (revoke_grant_binding l id at scope) λ b l' h.
      let (p, s, n) = revoke_grant_binding_cases l id at scope h in
      Appends-write l _ 1 (grant_binding_upserted b) p s n tt tt
run_command-Appends l (moves_cursor i) = after_cases l _ (upsert_cursor l i) λ c l' h.
    let (p, s, n) = upsert_cursor_cases l i h in Appends-write l _ 1 (cursor_updated c) p s n tt tt
run_command-Appends l (attaches i) = after_cases l _ (upsert_conversation_attachment l i) λ a l' h.
    let (p, s, n) = upsert_conversation_attachment_cases l i h in
    Appends-write l _ 1 (attachment_upserted a) p s n tt tt
run_command-Appends l (registers i) = after_cases l _ (upsert_participant l i) λ r l' h.
    let (p, s, n) = upsert_participant_cases l i h in
    Appends-write l _ 1 (participant_upserted r) p s n tt tt
run_command-Appends l (ensures i) = after_cases l _ (ensure_conversation l i) λ room l' h.
    elim (ensure_conversation_cases l i h) [
      | inl p ↦ rw p same
      | inr (p, s, n) ↦ room-Appends l _ 2 room [] p s n
    ]
run_command-Appends l (updates id i) = after_cases l _ (update_conversation l id i) λ room l' h.
    let (p, s, n) = update_conversation_cases l id i h in
    room-Appends l _ 1 room (members_before l id i) p s n

-- Whatever commands run, failing or not, an ordered ledger stays ordered: in every scope the sequences rise
-- along the file with no number twice, and revisions are sequences.
pub run_commands-IsOrdered :
    (l : SharedChatLedger) (cs : List Command) → IsOrdered l → IsOrdered (run_commands l cs)
unfolding run_commands
run_commands-IsOrdered l [] h = h
run_commands-IsOrdered l (c ∷ cs) h =
    run_commands-IsOrdered (run_command l c) cs (Appends-IsOrdered (run_command-Appends l c) h)
