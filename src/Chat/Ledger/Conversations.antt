-- ===== src/Chat/Ledger/Conversations.antt =====
-- The conversations of src/chat/core/ledger.ts: reading, creating and updating rooms.
use openboa.Prelude.{
  String, Bool, true, false, not, ◌&&◌, Option, none, some, List, [], ◌∷◌, ◌++◌, map, filter, find,
  all, length, if◌then◌else◌, ltb, nat_eq, ◌==◌, truthy, trim, trim_or_null, includes, or_default,
  code_unit_le,
}
use openboa.Prelude.JsMap.{JsMap, values}
use openboa.Prelude.Sorting.{sort_by}
use openboa.Chat.Model.{
  ChatLedgerEvent, conversation_upserted, membership_upserted, ChatConversationRecord,
  ChatRoomMembershipRecord, ChatRoomKind, channel, dm, group_dm, ChatConversationSection, dms,
  ChatConversationHistoryMode, inherit_full, is_joined_state, is_direct_conversation_kind,
  room_kind_eq, history_mode_eq, default_conversation_history_mode, Result, ok, err, ◌>>=◌, ◌>>◌,
  require, only_direct_rooms_inherit, inherit_requires_full_history, predecessor_not_found,
  inherits_from_itself, predecessor_not_direct, lineage_requires_superset, lineage_root_mismatch,
}
use openboa.Chat.Model.Shape.{chat_conversation_identity}
use openboa.Chat.Ledger.{SharedChatLedger, list_events, unique, latest_by}
use openboa.Chat.Ledger.Memberships.{memberships}

unfoldable pub conversations : List ChatLedgerEvent → List ChatConversationRecord
conversations [] = []
conversations (conversation_upserted r ∷ es) = r ∷ conversations es
conversations (membership_upserted r ∷ es) = conversations es
conversations (e ∷ es) = conversations es

-- The latest memberships of a room, by participant: one entry of the source's map of maps.
unfoldable pub room_memberships : String → List ChatLedgerEvent → JsMap ChatRoomMembershipRecord
room_memberships conversation_id es =
    latest_by (λ r. r.participant_id)
      (filter (λ r. r.conversation_id == conversation_id) (memberships es))

joined_ids : JsMap ChatRoomMembershipRecord → List String
joined_ids m =
    map (λ r. r.participant_id) (filter (λ r. is_joined_state r.membership_state) (values m))

unfoldable pub hydrate_conversation_participants :
    ChatConversationRecord → JsMap ChatRoomMembershipRecord → List String
unfolding joined_ids
hydrate_conversation_participants r [] = unique r.participant_ids
hydrate_conversation_participants r (e ∷ es) =
    let joined = joined_ids (e ∷ es) in
    unique (filter (λ p. includes p joined) r.participant_ids ++ joined)

abbrev pub hydrated : List ChatLedgerEvent → ChatConversationRecord → ChatConversationRecord
hydrated events r = record r {
  participant_ids = hydrate_conversation_participants r (room_memberships r.conversation_id events);
}

unfoldable pub list_conversation_records : SharedChatLedger → String → List ChatConversationRecord
list_conversation_records l scope =
    let events = list_events l scope in
    sort_by (λ a b. l.locale_le a.created_at b.created_at)
      (map (hydrated events) (values (latest_by (λ r. r.conversation_id) (conversations events))))

unfoldable pub get_conversation_by_id :
    SharedChatLedger → String → String → Option ChatConversationRecord
get_conversation_by_id l conversation_id scope =
    find (λ r. r.conversation_id == conversation_id) (list_conversation_records l scope)

abbrev pub has_slug : String → ChatConversationRecord → Bool
has_slug slug r =
    room_kind_eq r.kind channel && (elim r.slug [ none ↦ false | some s ↦ trim s == slug ])

unfoldable pub find_conversation_by_slug :
    SharedChatLedger → String → String → Option ChatConversationRecord
find_conversation_by_slug l slug scope =
    let normalized = trim slug in
    if truthy normalized
    then find (has_slug normalized) (list_conversation_records l scope)
    else none

abbrev is_dms : ChatConversationSection → Bool
is_dms dms = true
is_dms _ = false

-- The search stops at the first room with the identity; a room without one stops it with an error.
unfoldable pub find_by_identity :
    String → List ChatConversationRecord → Result (Option ChatConversationRecord)
find_by_identity expected [] = ok none
find_by_identity expected (r ∷ rs) =
    let rest = find_by_identity expected rs in
    if is_dms r.section
    then (do
      identity ← chat_conversation_identity r.kind none (some r.participant_ids)
      if identity == expected then ok (some r) else rest)
    else rest

unfoldable pub find_direct_conversation_by_participants :
    SharedChatLedger → List String → String → Result (Option ChatConversationRecord)
find_direct_conversation_by_participants l participant_ids scope =
    let normalized = sort_by code_unit_le (unique participant_ids) in
    if ltb (length normalized) 2 then ok none else (do
      expected ←
          chat_conversation_identity (if nat_eq (length normalized) 2 then dm else group_dm) none
            (some normalized)
      find_by_identity expected (list_conversation_records l scope))

-- What `validateDirectConversationLineage` is asked.
pub record LineageInput : Type 0 where
  pub scope_id : String
  pub kind : ChatRoomKind
  pub participant_ids : List String
  pub predecessor_conversation_id : Option String
  pub lineage_root_conversation_id : Option String
  pub history_mode : Option ChatConversationHistoryMode
  pub current_conversation_id : Option String

abbrev pub is_strict_superset : List String → List String → Bool
is_strict_superset next previous =
    ltb (length previous) (length next) && all (λ p. includes p next) previous

-- `predecessor.lineageRootConversationId || predecessor.conversationId`
abbrev pub lineage_root : ChatConversationRecord → String
lineage_root r =
    if truthy r.lineage_root_conversation_id
    then r.lineage_root_conversation_id
    else r.conversation_id

abbrev pub is_current : Option String → String → Bool
is_current none id = false
is_current (some current) id = truthy current && (id == current)

abbrev pub root_matches : Option String → String → Bool
root_matches none expected = true
root_matches (some root) expected = root == expected

-- The tests on a predecessor that was found.
unfoldable pub check_predecessor :
    LineageInput → ChatConversationRecord → Result (Option ChatConversationRecord)
check_predecessor input predecessor = do
  require (not (is_current input.current_conversation_id predecessor.conversation_id))
      inherits_from_itself
  require (is_direct_conversation_kind predecessor.kind) predecessor_not_direct
  require (is_strict_superset (unique input.participant_ids) (unique predecessor.participant_ids))
      lineage_requires_superset
  require
      (root_matches (trim_or_null input.lineage_root_conversation_id) (lineage_root predecessor))
      lineage_root_mismatch
  ok (some predecessor)

unfoldable pub validate_lineage_of :
    SharedChatLedger → LineageInput → Option String → Result (Option ChatConversationRecord)
unfolding check_predecessor
validate_lineage_of l input none = ok none
validate_lineage_of l input (some predecessor_id) = do
  require (is_direct_conversation_kind input.kind) only_direct_rooms_inherit
  require
      (history_mode_eq
        (or_default input.history_mode (default_conversation_history_mode (some predecessor_id)))
        inherit_full)
      inherit_requires_full_history
  elim (get_conversation_by_id l predecessor_id input.scope_id) [
    | none ↦ err (predecessor_not_found predecessor_id)
    | some predecessor ↦ check_predecessor input predecessor
  ]

unfoldable pub validate_direct_conversation_lineage :
    SharedChatLedger → LineageInput → Result (Option ChatConversationRecord)
unfolding validate_lineage_of
validate_direct_conversation_lineage l input =
    validate_lineage_of l input (trim_or_null input.predecessor_conversation_id)
