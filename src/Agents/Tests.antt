-- ===== src/Agents/Tests.antt =====
-- Runs of src/agents/runtime/session-wake-queue.ts on test data.
use openboa.Prelude.{
  includes, false, ◌≡◌, refl, ℕ, String, true, Option, none, some, [], ◌∷◌, In, ◌==◌, if◌then◌else◌,
  map, arith, nat_eq,
}
use openboa.Prelude.JsMap.{get, set, values}
use openboa.Prelude.Sorting.{sort_by, insert_by}
use openboa.Prelude.Text.{trim}
use openboa.Agents.WakeQueue.State.{
  SessionWake, SessionWakeQueue, WakeHost, WakePriority, by_due, fold, fold_from, fold_record,
  inspect_pending, journal, list_pending, pending_wakes, wake_enqueued,
}
use openboa.Agents.WakeQueue.Index.{
  dedupe_from, dedupe_pending_wake_entries, earliest_pending_wake_due_at, read_index,
  same_pending_wake_entries, sync_index, write_index,
}
use openboa.Agents.WakeQueue.Calls.{
  WakeInput, append_records, complete, consume_due, enqueue, enqueue_unless, pending_with_key,
}
use openboa.Agents.WakeQueue.Due.{
  confirm_entries, confirm_entry, list_due_session_wakes, peek_next_due_at,
}
use openboa.Agents.WakeQueue.Dedupe.{
  enqueues, consumes, IsDeduped, run_wake_commands, run_wake_commands-IsDeduped, pending_count_of,
}
use openboa.Agents.WakeQueue.Due.{list_session_ids_with_pending_wakes}
use openboa.Agents.WakeQueue.Calls.{cancel_pending}
use openboa.Agents.WakeQueue.Cancelling.{cancel_pending-eq}
use openboa.Agents.WakeQueue.Indexed.{enqueue-indexed}
use openboa.Agents.WakeQueue.Consuming.{consume_due-eq}
use openboa.Agents.WakeQueue.Enqueuing.{enqueue-consumed, enqueue-twice}

abbrev parsed : String → Option ℕ
parsed t = if t == "08:00" then some 8 else if t == "09:00" then some 9 else none

abbrev wake_host : WakeHost
wake_host = record {
  date_parse = parsed;
  locale_le = λ a b. true;
  uuid = λ n. if nat_eq n 0 then "w0" else if nat_eq n 1 then "w1" else "w2";
}

abbrev empty_queue : SessionWakeQueue
empty_queue = record { journals = []; index = []; host = wake_host; issued = 0 }

abbrev wanted : String → WakeInput
wanted due = record {
  session_id = "s";
  due_at = due;
  reason = "check";
  note = none;
  dedupe_key = some "check";
  priority = WakePriority.normal;
}

abbrev wake : String → String → SessionWake
wake id due = record {
  id = id;
  session_id = "s";
  created_at = "07:00";
  due_at = due;
  reason = "check";
  note = none;
  dedupe_key = none;
  priority = WakePriority.normal;
}

-- One wake is due at eight, the other one at nine.
abbrev two_wakes : SessionWakeQueue
two_wakes = record {
  journals =
      ("s", wake_enqueued "s" (wake "late" "09:00") ∷ wake_enqueued "s" (wake "early" "08:00") ∷ [])
      ∷ [];
  index = [];
  host = wake_host;
  issued = 0;
}

empty_queue-IsDeduped : IsDeduped empty_queue
unfolding journal fold fold_from values get pending_count_of
empty_queue-IsDeduped session_id key t = omega arith

run_wake_commands-IsDeduped_example : IsDeduped (
    run_wake_commands empty_queue (
      enqueues "07:00" (wanted "08:00")
      ∷ enqueues "07:00" (wanted "09:00")
      ∷ consumes "s" "08:00"
      ∷ []))
run_wake_commands-IsDeduped_example =
    run_wake_commands-IsDeduped empty_queue
      (enqueues "07:00" (wanted "08:00")
        ∷ enqueues "07:00" (wanted "09:00")
        ∷ consumes "s" "08:00"
        ∷ [])
      empty_queue-IsDeduped

consume_due-eq_example :
    ((consume_due two_wakes "s" "08:00").0 ≡ list_pending two_wakes "s" "08:00")
    × (list_pending (consume_due two_wakes "s" "08:00").1 "s" "08:00" ≡ [])
    × (pending_wakes (consume_due two_wakes "s" "08:00").1 "s" ≡ wake "late" "09:00" ∷ [])
unfolding journal fold fold_from fold_record values get set by_due sort_by insert_by
consume_due-eq_example = consume_due-eq two_wakes "s" "08:00"

enqueue-consumed_example :
    In
      (enqueue empty_queue "07:00" (wanted "08:00")).0
      (consume_due (enqueue empty_queue "07:00" (wanted "08:00")).1 "s" "09:00").0
unfolding enqueue enqueue_unless pending_with_key journal fold fold_from values get
enqueue-consumed_example = enqueue-consumed empty_queue "07:00" "09:00" (wanted "08:00") refl

enqueue-twice_example :
    ((enqueue (enqueue empty_queue "07:00" (wanted "08:00")).1 "07:30" (wanted "09:00")).0
      ≡ (enqueue empty_queue "07:00" (wanted "08:00")).0)
    × ((enqueue
          (enqueue empty_queue "07:00" (wanted "08:00")).1
          "07:30"
          (wanted "09:00")).1.journals
        ≡ (enqueue empty_queue "07:00" (wanted "08:00")).1.journals)
    × ((enqueue (enqueue empty_queue "07:00" (wanted "08:00")).1 "07:30" (wanted "09:00")).1.index
        ≡ (enqueue empty_queue "07:00" (wanted "08:00")).1.index)
enqueue-twice_example =
    enqueue-twice empty_queue "07:00" "07:30" "check" (wanted "08:00") (wanted "09:00") refl refl
      refl refl

-- The wake that is due at nine is what is next, once the one at eight is taken.
two_wakes-next :
    (inspect_pending two_wakes "s").next_due_at ≡ some "08:00"
    × ((inspect_pending (consume_due two_wakes "s" "08:00").1 "s").next_due_at ≡ some "09:00")
    × (peek_next_due_at (consume_due two_wakes "s" "08:00").1 none ≡ some "09:00")
    × (map
          (λ b. b.session_id)
          (list_due_session_wakes (consume_due two_wakes "s" "08:00").1 "08:00").0
        ≡ [])
    × (map
          (λ b. b.session_id)
          (list_due_session_wakes (consume_due two_wakes "s" "08:00").1 "09:00").0
        ≡ "s" ∷ [])
unfolding journal fold fold_from fold_record values get set by_due sort_by insert_by inspect_pending
    pending_wakes consume_due list_pending complete append_records sync_index write_index read_index
    dedupe_pending_wake_entries dedupe_from same_pending_wake_entries earliest_pending_wake_due_at
    peek_next_due_at list_due_session_wakes confirm_entries confirm_entry trim
two_wakes-next = (refl, refl, refl, refl, refl)

two_pending : pending_wakes two_wakes "s" ≡ wake "early" "08:00" ∷ wake "late" "09:00" ∷ []
unfolding journal fold fold_from fold_record values get set by_due sort_by insert_by pending_wakes
two_pending = refl

cancel_pending-eq_example :
    ((cancel_pending two_wakes "s" "08:30").0 ≡ wake "early" "08:00" ∷ wake "late" "09:00" ∷ [])
    × (pending_wakes (cancel_pending two_wakes "s" "08:30").1 "s" ≡ [])
    × (includes "s" (list_session_ids_with_pending_wakes (cancel_pending two_wakes "s" "08:30").1)
        ≡ false)
    × (journal (cancel_pending two_wakes "s" "08:30").1 "t" ≡ journal two_wakes "t")
cancel_pending-eq_example = cancel_pending-eq two_wakes "s" "08:30" "t" two_pending refl

enqueue-indexed_example :
    includes "s"
      (list_session_ids_with_pending_wakes (enqueue empty_queue "07:00" (wanted "08:00")).1)
    ≡ true
unfolding pending_with_key journal fold fold_from values get trim
enqueue-indexed_example = enqueue-indexed empty_queue "07:00" (wanted "08:00") refl refl refl tt
