-- ===== src/Agents/WakeQueue/Journal.antt =====
-- What the calls of `SessionWakeQueue` leave in the journals.
use openboa.Prelude.{
  ◌≡◌, refl, sym, ap, ◌∙◌, String, Bool, true, false, Option, none, some, List, [], ◌∷◌, ◌++◌,
  append-nil, ◌==◌, eq_refl, or_default, Bool-cases, inl, inr, if◌then◌else◌,
}
use openboa.Prelude.JsMap.{JsMap, get, get-set}
use openboa.Agents.WakeQueue.State.{
  PendingWakeSessionIndexEntry, SessionWake, SessionWakeJournalRecord, SessionWakeQueue, WakeState,
  fold_from, fold_record, journal, wake_enqueued,
}
use openboa.Agents.WakeQueue.Index.{same_pending_wake_entries, sync_index, write_index}
use openboa.Agents.WakeQueue.Calls.{append_records, complete, completions, enqueue_unless}
use openboa.Agents.WakeQueue.Due.{list_due_session_wakes}

-- The index is written beside the journals.
pub write_index-journals :
    (q : SessionWakeQueue) (current next : List PendingWakeSessionIndexEntry)
    → (write_index q current next).journals ≡ q.journals
unfolding write_index
write_index-journals q current next = elim (Bool-cases (same_pending_wake_entries current next)) [
  | inl t ↦ rw t refl
  | inr t ↦ rw t refl
]

write_index-host :
    (q : SessionWakeQueue) (current next : List PendingWakeSessionIndexEntry)
    → (write_index q current next).host ≡ q.host
unfolding write_index
write_index-host q current next = elim (Bool-cases (same_pending_wake_entries current next)) [
  | inl t ↦ rw t refl
  | inr t ↦ rw t refl
]

pub sync_index-host :
    (q : SessionWakeQueue) (session_id : String) (states : JsMap WakeState)
    → (sync_index q session_id states).host ≡ q.host
unfolding sync_index
sync_index-host q session_id states = write_index-host _ _ _

pub sync_index-journal :
    (q : SessionWakeQueue) (session_id : String) (states : JsMap WakeState) (other : String)
    → journal (sync_index q session_id states) other ≡ journal q other
unfolding sync_index journal
sync_index-journal q session_id states other =
    ap (λ m. or_default (get other m) []) (write_index-journals _ _ _)

-- A write goes to the end of its own journal and to no other.
pub append_records-journal :
    (q : SessionWakeQueue) (session_id : String) (rs : List SessionWakeJournalRecord)
    (other : String)
    → journal (append_records q session_id rs) other
      ≡ (if session_id == other then journal q session_id ++ rs else journal q other)
unfolding append_records journal
append_records-journal q session_id rs other =
    rw (get-set session_id other (or_default (get session_id q.journals) [] ++ rs) q.journals)
      (both (session_id == other))
  where
    both :
        (b : Bool)
        → or_default
            (if b
              then some (or_default (get session_id q.journals) [] ++ rs)
              else get other q.journals)
            []
          ≡ (if b
              then or_default (get session_id q.journals) [] ++ rs
              else or_default (get other q.journals) [])
    both true = refl
    both false = refl

-- The completions of a call, in the journal of its session.
pub complete-journal :
    (q : SessionWakeQueue) (session_id at : String) (ws : List SessionWake)
    → journal (complete q session_id at ws).1 session_id
      ≡ journal q session_id ++ completions session_id at ws
unfolding complete
complete-journal q session_id at [] = sym (append-nil _)
complete-journal q session_id at (w ∷ ws) =
    sync_index-journal _ session_id _ session_id
    ∙ append_records-journal q session_id (completions session_id at (w ∷ ws)) session_id
    ∙ rw (eq_refl session_id) refl

pub complete-journal_elsewhere :
    (q : SessionWakeQueue) (session_id at : String) (ws : List SessionWake) (other : String)
    → (session_id == other) ≡ false
    → journal (complete q session_id at ws).1 other ≡ journal q other
unfolding complete
complete-journal_elsewhere q session_id at [] other n = refl
complete-journal_elsewhere q session_id at (w ∷ ws) other n =
    sync_index-journal _ session_id _ other
    ∙ append_records-journal q session_id (completions session_id at (w ∷ ws)) other
    ∙ rw n refl

pub enqueue_unless-journal :
    (q : SessionWakeQueue) (w : SessionWake) (other : String)
    → journal (enqueue_unless q w none).1 other ≡ (
        if w.session_id == other
        then journal q w.session_id ++ wake_enqueued w.session_id w ∷ []
        else journal q other)
unfolding enqueue_unless
enqueue_unless-journal q w other =
    sync_index-journal _ w.session_id _ other
    ∙ append_records-journal q w.session_id (wake_enqueued w.session_id w ∷ []) other

pub fold_from-append :
    (m : JsMap WakeState) (rs ss : List SessionWakeJournalRecord)
    → fold_from m (rs ++ ss) ≡ fold_from (fold_from m rs) ss
unfolding fold_from
fold_from-append m [] ss = refl
fold_from-append m (r ∷ rs) ss = fold_from-append (fold_record m r) rs ss

pub list_due_session_wakes-journal :
    (q : SessionWakeQueue) (at other : String)
    → journal (list_due_session_wakes q at).1 other ≡ journal q other
unfolding list_due_session_wakes journal
list_due_session_wakes-journal q at other =
    ap (λ m. or_default (get other m) []) (write_index-journals _ _ _)

pub complete-wakes :
    (q : SessionWakeQueue) (session_id at : String) (ws : List SessionWake)
    → (complete q session_id at ws).0 ≡ ws
unfolding complete
complete-wakes q session_id at [] = refl
complete-wakes q session_id at (w ∷ ws) = refl

pub enqueue_unless-host :
    (q : SessionWakeQueue) (w : SessionWake) (found : Option WakeState)
    → (enqueue_unless q w found).1.host ≡ q.host
unfolding enqueue_unless append_records
enqueue_unless-host q w none = sync_index-host _ w.session_id _
enqueue_unless-host q w (some existing) = refl

pub complete-host :
    (q : SessionWakeQueue) (session_id at : String) (ws : List SessionWake)
    → (complete q session_id at ws).1.host ≡ q.host
unfolding complete append_records
complete-host q session_id at [] = refl
complete-host q session_id at (w ∷ ws) = sync_index-host _ session_id _
