-- ===== src/Agents/WakeQueue/Unlisting.antt =====
-- When the index of src/agents/runtime/session-wake-queue.ts does not list a session.
use openboa.Prelude.{
  ◌≡◌, ap, ◌∙◌, ◌+◌, String, true, false, not, List, [], ◌∷◌, filter, All, All-filter, ◌==◌, eq_iff,
  Bool-cases, inl, inr, non_blank,
}
use openboa.Prelude.JsMap.{JsMap, get, set, values, values-set}
use openboa.Prelude.Sorting.{sort_by, sort_by-All}
use openboa.Agents.WakeQueue.State.{
  PendingWakeSessionIndexEntry, SessionWakeQueue, WakeHost, WakeState, is_pending,
}
use openboa.Agents.WakeQueue.Index.{
  replaces, dedupe_from, entry_le, dedupe_pending_wake_entries, same_pending_wake_entries,
  read_index, write_index, sync_index, earliest_pending_wake_due_at,
}

-- No entry is the session's.
abbrev pub Unlisted : String → List PendingWakeSessionIndexEntry → Type 0
Unlisted session_id es = All (λ e. (e.session_id == session_id) ≡ false) es

dedupe_from-All :
    (P : PendingWakeSessionIndexEntry → Type 0) (h : WakeHost)
    (es : List PendingWakeSessionIndexEntry) (m : JsMap PendingWakeSessionIndexEntry)
    → All P (values m)
    → All P es
    → All P (values (dedupe_from h m es))
unfolding dedupe_from
dedupe_from-All P h [] m a b = a
dedupe_from-All P h (e ∷ es) m a b = elim (Bool-cases (replaces h (get e.session_id m) e)) [
  | inl t ↦
      rw t (dedupe_from-All P h es (set e.session_id e m) (values-set P e.session_id e m b.0 a) b.1)
  | inr t ↦ rw t (dedupe_from-All P h es m a b.1)
]

same-Unlisted :
    (session_id : String) (es fs : List PendingWakeSessionIndexEntry)
    → same_pending_wake_entries es fs ≡ true
    → Unlisted session_id fs
    → Unlisted session_id es
unfolding same_pending_wake_entries
same-Unlisted session_id [] fs h u = tt
same-Unlisted session_id (e ∷ es) [] h u = cc
same-Unlisted session_id (e ∷ es) (f ∷ fs) h u = elim (Bool-cases (e.session_id == f.session_id)) [
  | inr n ↦ absurd (differ (rw n at h))
  | inl t ↦ elim (Bool-cases (e.next_due_at == f.next_due_at)) [
    | inr n ↦ absurd (differ (rw (t, n) at h))
    | inl t' ↦ (
      ap (λ k. k == session_id) ((eq_iff _ _).0 t) ∙ u.0,
      same-Unlisted session_id es fs (rw (t, t') at h) u.1,
    )
  ]
]
  where
    differ : false ≡ true → ⊥
    differ p = cc

-- What is written lists no session that the entries do not list.
write_index-Unlisted :
    (q : SessionWakeQueue) (session_id : String) (next : List PendingWakeSessionIndexEntry)
    → Unlisted session_id next
    → Unlisted session_id (read_index (write_index q (read_index q) next))
unfolding write_index read_index dedupe_pending_wake_entries values
write_index-Unlisted q session_id next u =
    elim (Bool-cases (same_pending_wake_entries (read_index q) next)) [
      | inl t ↦ rw t (same-Unlisted session_id (read_index q) next t u)
      | inr t ↦ rw t (
          All-filter (λ e. (e.session_id == session_id) ≡ false) (λ e. non_blank e.session_id) _
            (sort_by-All _ (entry_le q.host) _
              (dedupe_from-All (λ e. (e.session_id == session_id) ≡ false) q.host next [] tt u)))
    ]

others-Unlisted :
    (session_id : String) (es : List PendingWakeSessionIndexEntry)
    → Unlisted session_id (filter (λ e. not (e.session_id == session_id)) es)
others-Unlisted session_id [] = tt
others-Unlisted session_id (e ∷ es) = elim (Bool-cases (e.session_id == session_id)) [
  | inl t ↦ rw t (others-Unlisted session_id es)
  | inr t ↦ rw t (t, others-Unlisted session_id es)
]

-- A session without pending wakes leaves the index.
pub sync_index-Unlisted :
    (q : SessionWakeQueue) (session_id : String) (states : JsMap WakeState)
    → filter is_pending (values states) ≡ []
    → Unlisted session_id (read_index (sync_index q session_id states))
unfolding sync_index read_index earliest_pending_wake_due_at sort_by
sync_index-Unlisted q session_id states none_left =
    write_index-Unlisted (record q { issued = q.issued + 1 }) session_id _
      (rw none_left (others-Unlisted session_id (read_index q)))
