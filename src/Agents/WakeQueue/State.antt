-- ===== src/Agents/WakeQueue/State.antt =====
-- The state of `SessionWakeQueue` of src/agents/runtime/session-wake-queue.ts, the fold of a journal, and
-- what is pending.
use openboa.Prelude.{
  ℕ, String, Bool, true, false, not, ◌&&◌, Option, none, some, List, [], ◌∷◌, map, filter, length,
  head?, ltb, leb, or_default,
}
use openboa.Prelude.JsMap.{JsMap, get, set, values}
use openboa.Prelude.Sorting.{sort_by}

pub data WakePriority : Type 0 where
  low normal high : WakePriority

pub record SessionWake : Type 0 where
  pub id : String
  pub session_id : String
  pub created_at : String
  pub due_at : String
  pub reason : String
  pub note : Option String
  pub dedupe_key : Option String
  pub priority : WakePriority

pub data SessionWakeJournalRecord : Type 0 where
  wake_enqueued : String → SessionWake → SessionWakeJournalRecord
  wake_completed : String → String → String → SessionWakeJournalRecord

pub record WakeState : Type 0 where
  pub wake : SessionWake
  pub completed_at : Option String

pub record PendingWakeSessionIndexEntry : Type 0 where
  pub session_id : String
  pub next_due_at : String

pub record DueSessionWakeBatch : Type 0 where
  pub session_id : String
  pub next_due_at : String
  pub due_wakes : List SessionWake

pub record SessionPendingWakeState : Type 0 where
  pub pending_count : ℕ
  pub next_due_at : Option String

-- What the host gives: `Date.parse`, none for NaN, the order of `localeCompare` as
-- `a.localeCompare(b) <= 0`, and the identifiers of `uuidv7`.
pub record WakeHost : Type 0 where
  pub date_parse : String → Option ℕ
  pub locale_le : String → String → Bool
  pub uuid : ℕ → String

pub record SessionWakeQueue : Type 0 where
  pub journals : JsMap (List SessionWakeJournalRecord)
  pub index : List PendingWakeSessionIndexEntry
  pub host : WakeHost
  pub open host use *
  pub issued : ℕ

-- `compareIso(left, right) < 0`, `<= 0` and `> 0`: false where one of them is NaN.
abbrev pub compared : (ℕ → ℕ → Bool) → Option ℕ → Option ℕ → Bool
compared test (some a) (some b) = test a b
compared test _ _ = false

abbrev pub iso_lt : WakeHost → String → String → Bool
iso_lt h left right = compared ltb (h.date_parse left) (h.date_parse right)

abbrev pub iso_le : WakeHost → String → String → Bool
iso_le h left right = compared leb (h.date_parse left) (h.date_parse right)

abbrev pub iso_gt : WakeHost → String → String → Bool
iso_gt h left right = iso_lt h right left

-- `wakes.sort((left, right) => compareIso(left.dueAt, right.dueAt))`
unfoldable pub by_due : WakeHost → List SessionWake → List SessionWake
by_due h wakes = sort_by (λ a b. not (iso_gt h a.due_at b.due_at)) wakes

unfoldable pub journal : SessionWakeQueue → String → List SessionWakeJournalRecord
journal q session_id = or_default (get session_id q.journals) []

abbrev pub with_current : Option WakeState → JsMap WakeState → String → String → JsMap WakeState
with_current none states wake_id completed_at = states
with_current (some s) states wake_id completed_at =
    set wake_id (record s { completed_at = some completed_at }) states

unfoldable pub fold_record : JsMap WakeState → SessionWakeJournalRecord → JsMap WakeState
fold_record states (wake_enqueued session_id wake) =
    set wake.id (record { wake = wake; completed_at = none }) states
fold_record states (wake_completed session_id wake_id completed_at) =
    with_current (get wake_id states) states wake_id completed_at

unfoldable pub fold_from : JsMap WakeState → List SessionWakeJournalRecord → JsMap WakeState
fold_from states [] = states
fold_from states (r ∷ rs) = fold_from (fold_record states r) rs

unfoldable pub fold : List SessionWakeJournalRecord → JsMap WakeState
fold records = fold_from [] records

abbrev pub is_pending : WakeState → Bool
is_pending s = elim s.completed_at [ none ↦ true | some at ↦ false ]

unfoldable pub pending_wakes : SessionWakeQueue → String → List SessionWake
pending_wakes q session_id =
    by_due q.host (map (λ s. s.wake) (filter is_pending (values (fold (journal q session_id)))))

abbrev pub is_due : WakeHost → String → WakeState → Bool
is_due h at s = is_pending s && iso_le h s.wake.due_at at

-- `listPendingForAgentSession`
unfoldable pub list_pending : SessionWakeQueue → String → String → List SessionWake
list_pending q session_id at =
    by_due q.host
      (map (λ s. s.wake) (filter (is_due q.host at) (values (fold (journal q session_id)))))

unfoldable pub inspect_pending : SessionWakeQueue → String → SessionPendingWakeState
inspect_pending q session_id =
    let pending = pending_wakes q session_id in
    record {
      pending_count = length pending;
      next_due_at = elim (head? pending) [ none ↦ none | some w ↦ some w.due_at ];
    }
