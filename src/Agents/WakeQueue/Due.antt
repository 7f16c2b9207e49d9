-- ===== src/Agents/WakeQueue/Due.antt =====
-- The calls of src/agents/runtime/session-wake-queue.ts that go by the index.
use openboa.Prelude.{
  ◌+◌, String, Bool, true, ◌&&◌, Option, none, some, List, [], ◌∷◌, ◌++◌, map, filter, find, length,
  if◌then◌else◌, ltb, non_blank, includes,
}
use openboa.Agents.WakeQueue.State.{
  DueSessionWakeBatch, PendingWakeSessionIndexEntry, SessionWake, SessionWakeQueue, WakeHost,
  iso_gt, iso_le, pending_wakes,
}
use openboa.Agents.WakeQueue.Index.{read_index, write_index}

unfoldable pub list_session_ids_with_pending_wakes : SessionWakeQueue → List String
list_session_ids_with_pending_wakes q = map (λ e. e.session_id) (read_index q)

abbrev pub is_allowed : Option (List String) → String → Bool
is_allowed none id = true
is_allowed (some ids) id = includes id ids

unfoldable pub peek_next_due_at : SessionWakeQueue → Option (List String) → Option String
peek_next_due_at q allowed =
    elim (find (λ e. non_blank e.next_due_at && is_allowed allowed e.session_id) (read_index q)) [
      | none ↦ none
      | some e ↦ some e.next_due_at
    ]

-- One round of the loop of `listDueSessionWakes` on an entry that may be due: the entry that is confirmed
-- and the batch that is due.
unfoldable pub confirm_entry :
    WakeHost
    → String
    → PendingWakeSessionIndexEntry
    → List SessionWake
    → List PendingWakeSessionIndexEntry × List DueSessionWakeBatch
confirm_entry h at entry [] = ([], [])
confirm_entry h at entry (next ∷ rest) =
    let due = filter (λ w. iso_le h w.due_at at) (next ∷ rest) in
    (
      record { session_id = entry.session_id; next_due_at = next.due_at } ∷ [],
      (if ltb 0 (length due)
          then record { session_id = entry.session_id; next_due_at = next.due_at; due_wakes = due }
            ∷ []
          else []),
    )

abbrev pub is_later : WakeHost → String → PendingWakeSessionIndexEntry → Bool
is_later h at e = non_blank e.next_due_at && iso_gt h e.next_due_at at

unfoldable pub confirm_entries :
    SessionWakeQueue
    → String
    → List PendingWakeSessionIndexEntry
    → List PendingWakeSessionIndexEntry × List DueSessionWakeBatch
unfolding confirm_entry
confirm_entries q at [] = ([], [])
confirm_entries q at (e ∷ es) =
    let rest = confirm_entries q at es in
    if is_later q.host at e
    then (e ∷ rest.0, rest.1)
    else (let one = confirm_entry q.host at e (pending_wakes q e.session_id) in
        (one.0 ++ rest.0, one.1 ++ rest.1))

-- The lock takes an identifier.
unfoldable pub list_due_session_wakes :
    SessionWakeQueue → String → List DueSessionWakeBatch × SessionWakeQueue
list_due_session_wakes q at =
    let indexed = read_index q in
    let found = confirm_entries q at indexed in
    let locked : SessionWakeQueue = record q { issued = q.issued + 1 } in
    (found.1, write_index locked indexed found.0)

-- `listSessionIdsWithDueWakes`
unfoldable pub list_session_ids_with_due_wakes :
    SessionWakeQueue → String → List String × SessionWakeQueue
list_session_ids_with_due_wakes q at =
    let found = list_due_session_wakes q at in (map (λ b. b.session_id) found.0, found.1)
