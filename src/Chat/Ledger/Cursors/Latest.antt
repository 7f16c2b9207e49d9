-- ===== src/Chat/Ledger/Cursors/Latest.antt =====
-- The cursor that `upsertCursor` of src/chat/core/ledger.ts writes is the one that is read.
use openboa.Prelude.{
  String, ◌≡◌, refl, ap, true, Option, none, some, List, [], ◌∷◌, ◌++◌, All-map, filter,
  filter-append, arith, opt_eq, truthy, eq_iff, eq_refl,
}
use openboa.Prelude.Sorting.{sort_by, insert_by}
use openboa.Chat.Model.{
  ChatLedgerEvent, conversation_upserted, membership_upserted, grant_binding_upserted,
  cursor_updated, attachment_upserted, message_posted, participant_upserted, reaction_set,
  message_edited, message_redacted, ok, ChatCursorRecord, ChatCursorInput,
}
use openboa.Chat.Ledger.{
  SharedChatLedger, scope_or_default, list_events, scope_of, sequence_of, cursor_key,
}
use openboa.Chat.Ledger.Order.{IsOrdered}
use openboa.Chat.Ledger.Latest.{latest_by-one, filter_holds}
use openboa.Chat.Ledger.Messages.Laws.{list_events-append_event}
use openboa.Chat.Ledger.Commands.Cases.{upsert_cursor_cases}
use openboa.Chat.Ledger.Cursors.{
  cursors, in_cursor_scope, list_cursor_records, upsert_cursor, new_cursor,
}

cursors-append : (es fs : List ChatLedgerEvent) → cursors (es ++ fs) ≡ cursors es ++ cursors fs
unfolding cursors
cursors-append [] fs = refl
cursors-append (conversation_upserted r ∷ es) fs = cursors-append es fs
cursors-append (membership_upserted r ∷ es) fs = cursors-append es fs
cursors-append (grant_binding_upserted r ∷ es) fs = cursors-append es fs
cursors-append (cursor_updated r ∷ es) fs = ap (λ t. r ∷ t) (cursors-append es fs)
cursors-append (attachment_upserted r ∷ es) fs = cursors-append es fs
cursors-append (message_posted r ∷ es) fs = cursors-append es fs
cursors-append (participant_upserted r ∷ es) fs = cursors-append es fs
cursors-append (reaction_set r ∷ es) fs = cursors-append es fs
cursors-append (message_edited r ∷ es) fs = cursors-append es fs
cursors-append (message_redacted r ∷ es) fs = cursors-append es fs

opt_eq_sound : (a b : Option String) → opt_eq a b ≡ true → a ≡ b
opt_eq_sound none none h = refl
opt_eq_sound none (some b) h = cc
opt_eq_sound (some a) none h = cc
opt_eq_sound (some a) (some b) h = ap some ((eq_iff a b).0 h)

opt_eq_refl : (a : Option String) → opt_eq a a ≡ true
opt_eq_refl none = refl
opt_eq_refl (some a) = eq_refl a

in_cursor_scope-key :
    (c p : String) (t : Option String) (x : ChatCursorRecord)
    → truthy c ≡ true
    → truthy p ≡ true
    → in_cursor_scope (some c) (some t) (some p) x ≡ true
    → cursor_key x.conversation_id x.thread_id x.participant_id ≡ cursor_key c t p
in_cursor_scope-key c p t x u v h =
    let a : x.conversation_id ≡ c = ground (arith, eq_iff x.conversation_id c) in
    let b : x.participant_id ≡ p = ground (arith, eq_iff x.participant_id p) in
    let d : opt_eq x.thread_id t ≡ true = ground arith in
    rw (a, b, opt_eq_sound x.thread_id t d) refl

cursor-place :
    (l : SharedChatLedger) (i : ChatCursorInput) {r : ChatCursorRecord} {l' : SharedChatLedger}
    → upsert_cursor l i ≡ ok (r, l')
    → (r.conversation_id ≡ i.conversation_id)
      × (r.participant_id ≡ i.participant_id)
      × (r.thread_id ≡ i.thread_id)
      × (r.last_observed_scope_revision ≡ i.last_observed_scope_revision)
unfolding upsert_cursor new_cursor
cursor-place l i h = ground arith

-- A cursor that is written holds the revision that the call names, and it is the one record that is
-- listed for its participant and line, in place of any earlier one. The ledger is ordered, and neither
-- the conversation nor the participant is named by the empty text.
pub upsert_cursor-list :
    (l : SharedChatLedger) (i : ChatCursorInput) {r : ChatCursorRecord} {l' : SharedChatLedger}
    → IsOrdered l
    → truthy r.conversation_id ≡ true
    → truthy r.participant_id ≡ true
    → upsert_cursor l i ≡ ok (r, l')
    → (r.last_observed_scope_revision ≡ i.last_observed_scope_revision)
      × (list_cursor_records l'
            (scope_or_default l i.scope_id)
            (some r.conversation_id)
            (some r.thread_id)
            (some r.participant_id)
          ≡ r ∷ [])
unfolding list_cursor_records scope_of sequence_of cursors sort_by insert_by
upsert_cursor-list l i {r} h t u p =
    let scope = scope_or_default l i.scope_id in
    let (e, s, n) = upsert_cursor_cases l i p in
    let wanted =
      in_cursor_scope (some r.conversation_id) (some r.thread_id) (some r.participant_id) in
    let old = filter wanted (cursors (list_events l scope)) in
    (
      (cursor-place l i p).3,
      rw
          (
            e,
            list_events-append_event scope h 1 (cursor_updated r) s n tt,
            cursors-append (list_events l scope) (cursor_updated r ∷ []),
            filter-append wanted (cursors (list_events l scope)) (r ∷ []),
            t,
            u,
            eq_refl r.conversation_id,
            eq_refl r.participant_id,
            opt_eq_refl r.thread_id,
            latest_by-one (λ x. cursor_key x.conversation_id x.thread_id x.participant_id) _ r old
                refl
                (All-map _ _ old
                  (λ x k.
                    in_cursor_scope-key r.conversation_id r.participant_id r.thread_id x t u k)
                  (filter_holds wanted (cursors (list_events l scope)))),
          )
          refl,
    )
