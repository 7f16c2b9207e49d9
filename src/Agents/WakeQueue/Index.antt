-- ===== src/Agents/WakeQueue/Index.antt =====
-- The index of the sessions with pending wakes of src/agents/runtime/session-wake-queue.ts.
use openboa.Prelude.{
  ◌+◌, String, Bool, true, false, not, ◌&&◌, Option, none, some, List, [], ◌∷◌, ◌++◌, map, filter,
  head?, if◌then◌else◌, ◌==◌, truthy, non_blank,
}
use openboa.Prelude.JsMap.{JsMap, get, set, values}
use openboa.Prelude.Sorting.{sort_by}
use openboa.Agents.WakeQueue.State.{
  PendingWakeSessionIndexEntry, SessionWakeQueue, WakeHost, WakeState, is_pending, iso_gt, iso_le,
  iso_lt,
}

unfoldable pub earliest_pending_wake_due_at : WakeHost → JsMap WakeState → Option String
earliest_pending_wake_due_at h states = head? (
    sort_by (λ a b. not (iso_gt h a b))
      (map (λ s. s.wake.due_at) (filter is_pending (values states))))

-- The entries of a map of sessions: the first one of a session, or one that is due before it.
abbrev pub replaces :
    WakeHost → Option PendingWakeSessionIndexEntry → PendingWakeSessionIndexEntry → Bool
replaces h none entry = true
replaces h (some current) entry =
    truthy entry.next_due_at && iso_lt h entry.next_due_at current.next_due_at

unfoldable pub dedupe_from :
    WakeHost
    → JsMap PendingWakeSessionIndexEntry
    → List PendingWakeSessionIndexEntry
    → JsMap PendingWakeSessionIndexEntry
dedupe_from h m [] = m
dedupe_from h m (e ∷ es) =
    dedupe_from h (if replaces h (get e.session_id m) e then set e.session_id e m else m) es

-- A difference that is NaN counts as no difference.
abbrev pub entry_le : WakeHost → PendingWakeSessionIndexEntry → PendingWakeSessionIndexEntry → Bool
entry_le h a b =
    if iso_lt h a.next_due_at b.next_due_at
    then true
    else if iso_gt h a.next_due_at b.next_due_at
    then false
    else if iso_le h a.next_due_at b.next_due_at
    then h.locale_le a.session_id b.session_id
    else true

unfoldable pub dedupe_pending_wake_entries :
    WakeHost → List PendingWakeSessionIndexEntry → List PendingWakeSessionIndexEntry
unfolding dedupe_from
dedupe_pending_wake_entries h entries = sort_by (entry_le h) (values (dedupe_from h [] entries))

unfoldable pub same_pending_wake_entries :
    List PendingWakeSessionIndexEntry → List PendingWakeSessionIndexEntry → Bool
same_pending_wake_entries [] [] = true
same_pending_wake_entries (a ∷ rest) (b ∷ bs) =
    (a.session_id == b.session_id)
    && (a.next_due_at == b.next_due_at)
    && same_pending_wake_entries rest bs
same_pending_wake_entries _ _ = false

-- `readPendingWakeSessionIndex`: entries with a blank session are left out.
unfoldable pub read_index : SessionWakeQueue → List PendingWakeSessionIndexEntry
read_index q = filter (λ e. non_blank e.session_id) q.index

-- `writePendingWakeSessionIndex`, unless the entries are those that were read; the name of the temporary
-- file takes an identifier.
unfoldable pub write_index :
    SessionWakeQueue
    → List PendingWakeSessionIndexEntry
    → List PendingWakeSessionIndexEntry
    → SessionWakeQueue
write_index q current next =
    if same_pending_wake_entries current next
    then q
    else record q { index = dedupe_pending_wake_entries q.host next; issued = q.issued + 1 }

abbrev pub next_entries :
    WakeHost
    → List PendingWakeSessionIndexEntry
    → String
    → Option String
    → List PendingWakeSessionIndexEntry
next_entries h others session_id none = others
next_entries h others session_id (some due) =
    if truthy due
    then dedupe_pending_wake_entries h
        (others ++ record { session_id = session_id; next_due_at = due } ∷ [])
    else others

-- `syncPendingWakeSessionIndex`, once the states of the session are folded. The lock takes an identifier.
unfoldable pub sync_index : SessionWakeQueue → String → JsMap WakeState → SessionWakeQueue
sync_index q session_id states =
    let current = read_index q in
    let others = filter (λ e. not (e.session_id == session_id)) current in
    write_index (record q { issued = q.issued + 1 }) current
      (next_entries q.host others session_id (earliest_pending_wake_due_at q.host states))
