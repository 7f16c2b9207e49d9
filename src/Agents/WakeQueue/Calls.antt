-- ===== src/Agents/WakeQueue/Calls.antt =====
-- The calls of src/agents/runtime/session-wake-queue.ts that make and complete the wakes of a session.
use openboa.Prelude.{
  ◌+◌, String, Bool, ◌&&◌, Option, none, some, List, [], ◌∷◌, ◌++◌, map, find, if◌then◌else◌,
  opt_eq, truthy,
}
use openboa.Prelude.JsMap.{JsMap, set, values}
use openboa.Agents.WakeQueue.State.{
  SessionWake, SessionWakeJournalRecord, SessionWakeQueue, WakeHost, WakePriority, WakeState,
  by_due, fold, is_pending, journal, list_pending, pending_wakes, wake_completed, wake_enqueued,
}
use openboa.Agents.WakeQueue.Index.{sync_index}

-- `appendJsonl` on the journal of a session.
unfoldable pub append_records :
    SessionWakeQueue → String → List SessionWakeJournalRecord → SessionWakeQueue
append_records q session_id records = record q {
  journals = set session_id (journal q session_id ++ records) q.journals;
}

pub record WakeInput : Type 0 where
  pub session_id : String
  pub due_at : String
  pub reason : String
  pub note : Option String
  pub dedupe_key : Option String
  pub priority : WakePriority

abbrev pub has_key : String → WakeState → Bool
has_key key s = is_pending s && opt_eq s.wake.dedupe_key (some key)

-- A pending wake with the key, if the call has one.
unfoldable pub pending_with_key : JsMap WakeState → Option String → Option WakeState
pending_with_key states none = none
pending_with_key states (some key) = if truthy key then find (has_key key) (values states) else none

abbrev pub new_wake : SessionWakeQueue → String → WakeInput → SessionWake
new_wake q now input = record {
  id = q.uuid q.issued;
  session_id = input.session_id;
  created_at = now;
  due_at = input.due_at;
  reason = input.reason;
  note = input.note;
  dedupe_key = input.dedupe_key;
  priority = input.priority;
}

unfoldable pub enqueue_unless :
    SessionWakeQueue → SessionWake → Option WakeState → SessionWake × SessionWakeQueue
enqueue_unless q wake (some existing) = (existing.wake, q)
enqueue_unless q wake none =
    let states = fold (journal q wake.session_id) in
    (
      wake,
      sync_index (append_records q wake.session_id (wake_enqueued wake.session_id wake ∷ []))
          wake.session_id (set wake.id (record { wake = wake; completed_at = none }) states),
    )

-- `now` is what `nowIsoString` returns.
unfoldable pub enqueue : SessionWakeQueue → String → WakeInput → SessionWake × SessionWakeQueue
enqueue q now input =
    let wake = new_wake q now input in
    enqueue_unless (record q { issued = q.issued + 1 }) wake
      (pending_with_key (fold (journal q input.session_id)) input.dedupe_key)

abbrev pub completions : String → String → List SessionWake → List SessionWakeJournalRecord
completions session_id at = map (λ w. wake_completed session_id w.id at)

-- The loop that writes the completions, and the index after it, unless there was none to write.
unfoldable pub complete :
    SessionWakeQueue → String → String → List SessionWake → List SessionWake × SessionWakeQueue
complete q session_id at [] = ([], q)
complete q session_id at (w ∷ ws) =
    let written = append_records q session_id (completions session_id at (w ∷ ws)) in
    (w ∷ ws, sync_index written session_id (fold (journal written session_id)))

-- `consumeDueForAgentSession`
unfoldable pub consume_due :
    SessionWakeQueue → String → String → List SessionWake × SessionWakeQueue
consume_due q session_id at = complete q session_id at (list_pending q session_id at)

unfoldable pub dedupe_wakes_from : JsMap SessionWake → List SessionWake → JsMap SessionWake
dedupe_wakes_from m [] = m
dedupe_wakes_from m (w ∷ ws) = dedupe_wakes_from (set w.id w m) ws

unfoldable pub dedupe_wake_list : WakeHost → List SessionWake → List SessionWake
unfolding dedupe_wakes_from
dedupe_wake_list h wakes = by_due h (values (dedupe_wakes_from [] wakes))

-- `consumeKnownForAgentSession`
unfoldable pub consume_known :
    SessionWakeQueue → String → String → List SessionWake → List SessionWake × SessionWakeQueue
consume_known q session_id at wakes = complete q session_id at (dedupe_wake_list q.host wakes)

-- `cancelPendingForAgentSession`
unfoldable pub cancel_pending :
    SessionWakeQueue → String → String → List SessionWake × SessionWakeQueue
cancel_pending q session_id at = complete q session_id at (pending_wakes q session_id)
