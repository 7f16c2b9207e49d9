-- ===== src/Chat/Ledger.antt =====
-- The class `SharedChatLedger` of src/chat/core/ledger.ts: the file of events, how it is read and
-- appended to. Its operations are in the modules below.
pub mod Order
pub mod Latest
pub mod Memberships
pub mod Grants
pub mod Messages
pub mod Threads
pub mod Cursors
pub mod Participants
pub mod Posting
pub mod Conversations
pub mod Rooms
pub mod Commands
pub mod Fresh
pub mod Replay
pub mod Transcript
use openboa.Prelude.{
  ℕ, suc, ◌+◌, String, ◌⧺◌, Bool, true, false, Option, none, some, List, [], ◌∷◌, ◌++◌, filter,
  last?, if◌then◌else◌, leb, ◌==◌, truthy, dedupe, non_blank, opt_eq, or_default,
}
use openboa.Prelude.JsMap.{JsMap, set}
use openboa.Prelude.Sorting.{sort_by}
use openboa.Chat.Model.{
  ChatLedgerEvent, conversation_upserted, membership_upserted, grant_binding_upserted,
  cursor_updated, attachment_upserted, message_posted, participant_upserted, reaction_set,
  message_edited, message_redacted,
}

-- A line of the file: no chat event, an event of this version, an old event that names its scope
-- `companyId`, or an event with neither name.
pub data StoredRecord : Type 0 where
  foreign : StoredRecord
  stored : ChatLedgerEvent → StoredRecord
  legacy : String → ChatLedgerEvent → StoredRecord
  unscoped : ChatLedgerEvent → StoredRecord

-- What the host gives: the order of `localeCompare` as `a.localeCompare(b) <= 0`, and the identifiers
-- that `uuidv7` returns, one after the other.
pub record Host : Type 0 where
  pub locale_le : String → String → Bool
  pub uuid : ℕ → String

pub record SharedChatLedger : Type 0 where
  pub default_scope : String
  pub file : List StoredRecord
  pub host : Host
  pub open host use *
  pub issued : ℕ

unfoldable pub scope_of : ChatLedgerEvent → String
scope_of (conversation_upserted r) = r.scope_id
scope_of (membership_upserted r) = r.scope_id
scope_of (grant_binding_upserted r) = r.scope_id
scope_of (cursor_updated r) = r.scope_id
scope_of (attachment_upserted r) = r.scope_id
scope_of (message_posted r) = r.scope_id
scope_of (participant_upserted r) = r.scope_id
scope_of (reaction_set r) = r.scope_id
scope_of (message_edited r) = r.scope_id
scope_of (message_redacted r) = r.scope_id

unfoldable pub sequence_of : ChatLedgerEvent → ℕ
sequence_of (conversation_upserted r) = r.sequence
sequence_of (membership_upserted r) = r.sequence
sequence_of (grant_binding_upserted r) = r.sequence
sequence_of (cursor_updated r) = r.sequence
sequence_of (attachment_upserted r) = r.sequence
sequence_of (message_posted r) = r.sequence
sequence_of (participant_upserted r) = r.sequence
sequence_of (reaction_set r) = r.sequence
sequence_of (message_edited r) = r.sequence
sequence_of (message_redacted r) = r.sequence

with_scope : String → ChatLedgerEvent → ChatLedgerEvent
with_scope s (conversation_upserted r) = conversation_upserted (record r { scope_id = s })
with_scope s (membership_upserted r) = membership_upserted (record r { scope_id = s })
with_scope s (grant_binding_upserted r) = grant_binding_upserted (record r { scope_id = s })
with_scope s (cursor_updated r) = cursor_updated (record r { scope_id = s })
with_scope s (attachment_upserted r) = attachment_upserted (record r { scope_id = s })
with_scope s (message_posted r) = message_posted (record r { scope_id = s })
with_scope s (participant_upserted r) = participant_upserted (record r { scope_id = s })
with_scope s (reaction_set r) = reaction_set (record r { scope_id = s })
with_scope s (message_edited r) = message_edited (record r { scope_id = s })
with_scope s (message_redacted r) = message_redacted (record r { scope_id = s })

-- `isChatLedgerEvent` and `normalizeLegacyChatEvent`. An event with no scope at all passes both and
-- is then dropped by the test on its scope; it is dropped here.
unfoldable pub admitted : List StoredRecord → List ChatLedgerEvent
unfolding with_scope
admitted [] = []
admitted (foreign ∷ rs) = admitted rs
admitted (stored e ∷ rs) = e ∷ admitted rs
admitted (legacy s e ∷ rs) = with_scope s e ∷ admitted rs
admitted (unscoped e ∷ rs) = admitted rs

-- The events of a scope in the order of the file.
unfoldable pub scoped_events : SharedChatLedger → String → List ChatLedgerEvent
scoped_events l scope = filter (λ e. scope_of e == scope) (admitted l.file)

unfoldable pub list_events : SharedChatLedger → String → List ChatLedgerEvent
list_events l scope = sort_by (λ a b. leb (sequence_of a) (sequence_of b)) (scoped_events l scope)

unfoldable pub last_sequence : List ChatLedgerEvent → ℕ
last_sequence events = elim (last? events) [ none ↦ 0 | some e ↦ sequence_of e ]

-- `(events.at(-1)?.sequence ?? 0) + 1`
unfoldable pub next_sequence : SharedChatLedger → String → ℕ
unfolding last_sequence
next_sequence l scope = last_sequence (list_events l scope) + 1

-- `appendJsonl(this.filePath(), event)`, after the identifiers that the event took.
unfoldable pub append_event : SharedChatLedger → ℕ → ChatLedgerEvent → SharedChatLedger
append_event l taken e = record l { file = l.file ++ stored e ∷ []; issued = l.issued + taken }

-- `makeId(prefix)` and `makeUuidV7()`, for the nth identifier that an operation takes.
unfoldable pub make_uuid : SharedChatLedger → ℕ → String
make_uuid l n = l.uuid (l.issued + n)

unfoldable pub make_id : SharedChatLedger → String → ℕ → String
unfolding make_uuid
make_id l prefix n = prefix ⧺ "-" ⧺ make_uuid l n

-- `input.scopeId ?? this.scopeId()`
abbrev pub scope_or_default : SharedChatLedger → Option String → String
scope_or_default l scope = or_default scope l.default_scope

-- `unique` of the ledger: blank texts go, the others are not trimmed.
unfoldable pub unique : List String → List String
unique values = dedupe (filter non_blank values)

-- `threadId ?? "root"`
abbrev pub thread_or_root : Option String → String
thread_or_root thread_id = or_default thread_id "root"

-- The keys of the ledger's maps.
unfoldable pub message_scope_key : String → Option String → String
message_scope_key conversation_id thread_id = conversation_id ⧺ "::" ⧺ thread_or_root thread_id

unfoldable pub membership_key : String → String → String
membership_key conversation_id participant_id = conversation_id ⧺ "::" ⧺ participant_id

unfoldable pub cursor_key : String → Option String → String → String
cursor_key conversation_id thread_id participant_id =
    conversation_id ⧺ "::" ⧺ thread_or_root thread_id ⧺ "::" ⧺ participant_id

-- `!wanted || wanted === actual`, for a text that may be missing or empty.
abbrev pub matches : Option String → String → Bool
matches none actual = true
matches (some wanted) actual = if truthy wanted then actual == wanted else true

-- `wanted === undefined || wanted === actual`, for a text that may be null.
abbrev pub matches_nullable : Option (Option String) → Option String → Bool
matches_nullable none actual = true
matches_nullable (some wanted) actual = opt_eq actual wanted

module _ {ℓ} {V : Type ℓ} (key : V → String) where
  unfoldable pub latest_from : JsMap V → List V → JsMap V
  latest_from m [] = m
  latest_from m (v ∷ vs) = latest_from (set (key v) v m) vs

  -- `for (const event of events) latest.set(key(event), event)`
  unfoldable pub latest_by : List V → JsMap V
  unfolding latest_from
  latest_by vs = latest_from [] vs
