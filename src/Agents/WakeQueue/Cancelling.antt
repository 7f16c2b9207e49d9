-- ===== src/Agents/WakeQueue/Cancelling.antt =====
-- What `cancelPendingForAgentSession` of src/agents/runtime/session-wake-queue.ts leaves.
use openboa.Prelude.{
  ◌≡◌, refl, sym, ◌∙◌, subst, String, Bool, false, List, [], ◌∷◌, filter, map, In, includes, ◌==◌,
  Bool-cases, inl, inr,
}
use openboa.Prelude.JsMap.{values}
use openboa.Prelude.Sorting.{sort_by, In-sort_by}
use openboa.Agents.WakeQueue.State.{
  PendingWakeSessionIndexEntry, SessionWake, SessionWakeQueue, WakeState, by_due, fold, is_pending,
  journal, pending_wakes,
}
use openboa.Agents.WakeQueue.Index.{read_index}
use openboa.Agents.WakeQueue.Calls.{complete, completions, cancel_pending}
use openboa.Agents.WakeQueue.Due.{list_session_ids_with_pending_wakes}
use openboa.Agents.WakeQueue.Journal.{
  complete-journal, complete-journal_elsewhere, complete-wakes, sync_index-journal,
  fold_from-append,
}
use openboa.Agents.WakeQueue.Completing.{fold-IsKeyed, pending_if, and_false}
use openboa.Agents.WakeQueue.Consuming.{spares, complete_all, spares-own, wakes-In}
use openboa.Agents.WakeQueue.Unlisting.{Unlisted, sync_index-Unlisted}

filter-none :
    (p : WakeState → Bool) (xs : List WakeState)
    → ((x : WakeState) → In x xs → p x ≡ false)
    → filter p xs ≡ []
filter-none p [] h = refl
filter-none p (x ∷ xs) h = rw (h x (inl refl), filter-none p xs (λ y i. h y (inr i))) refl

module _ (q : SessionWakeQueue) (session_id at : String) where
  all_spared :
      (s : WakeState)
      → In s (values (fold (journal q session_id)))
      → pending_if (spares (pending_wakes q session_id)) s ≡ false
  unfolding pending_wakes by_due
  all_spared s i = elim (Bool-cases (is_pending s)) [
    | inr n ↦ rw (n, and_false (spares (pending_wakes q session_id) s.wake.id)) refl
    | inl p ↦
        rw
          (spares-own s.wake (pending_wakes q session_id)
            (In-sort_by _ s.wake _ (wakes-In is_pending s _ i p)))
          refl
  ]

  cancelled-states :
      filter is_pending (values (fold (journal (cancel_pending q session_id at).1 session_id))) ≡ []
  unfolding cancel_pending fold
  cancelled-states =
      rw
        (
          complete-journal q session_id at (pending_wakes q session_id),
          fold_from-append [] (journal q session_id)
              (completions session_id at (pending_wakes q session_id)),
        )
        (complete_all session_id at (pending_wakes q session_id) (fold (journal q session_id))
            (fold-IsKeyed (journal q session_id))
          ∙ filter-none _ _ all_spared)

complete-Unlisted :
    (q : SessionWakeQueue) (session_id at : String) (w : SessionWake) (ws : List SessionWake)
    → filter is_pending (values (fold (journal (complete q session_id at (w ∷ ws)).1 session_id)))
      ≡ []
    → Unlisted session_id (read_index (complete q session_id at (w ∷ ws)).1)
unfolding complete
complete-Unlisted q session_id at w ws h = sync_index-Unlisted _ session_id _ (
    subst (λ rs. filter is_pending (values (fold rs)) ≡ [])
      (sync_index-journal _ session_id _ session_id) h)

Unlisted-includes :
    (session_id : String) (es : List PendingWakeSessionIndexEntry)
    → Unlisted session_id es
    → includes session_id (map (λ e. e.session_id) es) ≡ false
Unlisted-includes session_id [] u = refl
Unlisted-includes session_id (e ∷ es) u = rw (u.0, Unlisted-includes session_id es u.1) refl

-- A call that cancels the pending wakes of a session returns them, if there are any, the earliest first.
-- After it none is pending, the index does not list the session, and the journal of any other session is as
-- it was.
pub cancel_pending-eq :
    (q : SessionWakeQueue) (session_id at other : String) {w : SessionWake} {ws : List SessionWake}
    → pending_wakes q session_id ≡ w ∷ ws
    → (session_id == other) ≡ false
    → ((cancel_pending q session_id at).0 ≡ w ∷ ws)
      × (pending_wakes (cancel_pending q session_id at).1 session_id ≡ [])
      × (includes session_id
            (list_session_ids_with_pending_wakes (cancel_pending q session_id at).1)
          ≡ false)
      × (journal (cancel_pending q session_id at).1 other ≡ journal q other)
unfolding cancel_pending pending_wakes by_due sort_by list_session_ids_with_pending_wakes
cancel_pending-eq q session_id at other {w} {ws} h n =
    let listed = pending_wakes q session_id in
    (
      complete-wakes q session_id at listed ∙ h,
      rw (cancelled-states q session_id at) refl,
      Unlisted-includes session_id _ (
          subst (λ xs. Unlisted session_id (read_index (complete q session_id at xs).1)) (sym h)
            (complete-Unlisted q session_id at w ws (
              subst
                (λ xs.
                  filter is_pending
                    (values (fold (journal (complete q session_id at xs).1 session_id)))
                  ≡ [])
                h (cancelled-states q session_id at)))),
      complete-journal_elsewhere q session_id at listed other n,
    )
