-- ===== src/Chat/Ledger/Memberships/Latest.antt =====
-- The membership that `upsertRoomMembership` of src/chat/core/ledger.ts writes is the one that is read.
use openboa.Prelude.{
  String, ◌≡◌, refl, ap, true, some, List, [], ◌∷◌, ◌++◌, All-map, filter, filter-append, arith,
  truthy, eq_iff, eq_refl,
}
use openboa.Prelude.Sorting.{sort_by, insert_by}
use openboa.Chat.Model.{
  ChatLedgerEvent, conversation_upserted, membership_upserted, grant_binding_upserted,
  cursor_updated, attachment_upserted, message_posted, participant_upserted, reaction_set,
  message_edited, message_redacted, ChatRoomMembershipRecord, ChatRoomMembershipInput,
}
use openboa.Chat.Ledger.{
  SharedChatLedger, scope_or_default, list_events, scope_of, sequence_of, membership_key,
}
use openboa.Chat.Ledger.Order.{IsOrdered}
use openboa.Chat.Ledger.Latest.{latest_by-one, filter_holds}
use openboa.Chat.Ledger.Messages.Laws.{list_events-append_event}
use openboa.Chat.Ledger.Memberships.{
  memberships, in_membership_scope, list_room_membership_records, upsert_room_membership,
}

memberships-append :
    (es fs : List ChatLedgerEvent) → memberships (es ++ fs) ≡ memberships es ++ memberships fs
unfolding memberships
memberships-append [] fs = refl
memberships-append (conversation_upserted r ∷ es) fs = memberships-append es fs
memberships-append (membership_upserted r ∷ es) fs = ap (λ t. r ∷ t) (memberships-append es fs)
memberships-append (grant_binding_upserted r ∷ es) fs = memberships-append es fs
memberships-append (cursor_updated r ∷ es) fs = memberships-append es fs
memberships-append (attachment_upserted r ∷ es) fs = memberships-append es fs
memberships-append (message_posted r ∷ es) fs = memberships-append es fs
memberships-append (participant_upserted r ∷ es) fs = memberships-append es fs
memberships-append (reaction_set r ∷ es) fs = memberships-append es fs
memberships-append (message_edited r ∷ es) fs = memberships-append es fs
memberships-append (message_redacted r ∷ es) fs = memberships-append es fs

in_membership_scope-key :
    (c p : String) (x : ChatRoomMembershipRecord)
    → truthy c ≡ true
    → truthy p ≡ true
    → in_membership_scope (some c) (some p) x ≡ true
    → membership_key x.conversation_id x.participant_id ≡ membership_key c p
in_membership_scope-key c p x t u h =
    let a : x.conversation_id ≡ c = ground (arith, eq_iff x.conversation_id c) in
    let b : x.participant_id ≡ p = ground (arith, eq_iff x.participant_id p) in rw (a, b) refl

-- A membership that is written is the one record that is listed for its room and participant, in place
-- of any earlier one. The ledger is ordered, and neither identifier is the empty text.
pub upsert_room_membership-list :
    (l : SharedChatLedger) (i : ChatRoomMembershipInput)
    → IsOrdered l
    → truthy i.conversation_id ≡ true
    → truthy i.participant_id ≡ true
    → list_room_membership_records
        (upsert_room_membership l i).1
        (scope_or_default l i.scope_id)
        (some i.conversation_id)
        (some i.participant_id)
      ≡ (upsert_room_membership l i).0 ∷ []
unfolding list_room_membership_records upsert_room_membership scope_of sequence_of memberships
    sort_by insert_by
upsert_room_membership-list l i h t u =
    let scope = scope_or_default l i.scope_id in
    let r = (upsert_room_membership l i).0 in
    let wanted = in_membership_scope (some i.conversation_id) (some i.participant_id) in
    let old = filter wanted (memberships (list_events l scope)) in
    rw
      (
        list_events-append_event scope h 1 (membership_upserted r) refl refl tt,
        memberships-append (list_events l scope) (membership_upserted r ∷ []),
        filter-append wanted (memberships (list_events l scope)) (r ∷ []),
        t,
        u,
        eq_refl i.conversation_id,
        eq_refl i.participant_id,
        latest_by-one (λ x. membership_key x.conversation_id x.participant_id) _ r old refl
            (All-map _ _ old
              (λ x k. in_membership_scope-key i.conversation_id i.participant_id x t u k)
              (filter_holds wanted (memberships (list_events l scope)))),
      )
      refl
