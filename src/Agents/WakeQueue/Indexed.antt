-- ===== src/Agents/WakeQueue/Indexed.antt =====
-- That `enqueue` of src/agents/runtime/session-wake-queue.ts puts its session into the index.
use openboa.Prelude.{
  ◌≡◌, refl, ap, ◌∙◌, String, true, none, some, List, [], ◌∷◌, map, head?, All, All-filter, In,
  In-filter, any_of_In, includes, ◌==◌, eq_refl, inl, inr, non_blank, truthy,
}
use openboa.Prelude.JsMap.{JsMap, set, values, In-set, values-set}
use openboa.Prelude.Sorting.{sort_by-All, In-sort_by}
use openboa.Agents.WakeQueue.State.{
  PendingWakeSessionIndexEntry, SessionWakeQueue, WakeHost, WakeState, fold, is_pending, journal,
}
use openboa.Agents.WakeQueue.Index.{earliest_pending_wake_due_at}
use openboa.Agents.WakeQueue.Calls.{
  WakeInput, append_records, enqueue, enqueue_unless, new_wake, pending_with_key,
}
use openboa.Agents.WakeQueue.Due.{list_session_ids_with_pending_wakes}
use openboa.Agents.WakeQueue.Listing.{Listed, sync_index-Listed}

head-holds :
    (P : String → Type 0) (x : String) (xs : List String)
    → In x xs
    → All P xs
    → (y : String) × (head? xs ≡ some y) × P y
head-holds P x [] i h = absurd i
head-holds P x (y ∷ xs) i h = (y, refl, h.0)

dues-All :
    (xs : List WakeState)
    → All (λ s. truthy s.wake.due_at ≡ true) xs
    → All (λ t. truthy t ≡ true) (map (λ s. s.wake.due_at) xs)
dues-All [] h = tt
dues-All (x ∷ xs) h = (h.0, dues-All xs h.1)

dues-In :
    (s : WakeState) (xs : List WakeState) → In s xs → In s.wake.due_at (map (λ x. x.wake.due_at) xs)
dues-In s [] i = i
dues-In s (x ∷ xs) (inl e) = inl (ap (λ y. y.wake.due_at) e)
dues-In s (x ∷ xs) (inr i) = inr (dues-In s xs i)

-- Where a wake is pending and all due times are given, there is an earliest one.
earliest-given :
    (h : WakeHost) (s : WakeState) (states : JsMap WakeState)
    → In s (values states)
    → is_pending s ≡ true
    → All (λ x. truthy x.wake.due_at ≡ true) (values states)
    → (due : String) × (earliest_pending_wake_due_at h states ≡ some due) × (truthy due ≡ true)
unfolding earliest_pending_wake_due_at
earliest-given h s states i p given =
    head-holds (λ t. truthy t ≡ true) s.wake.due_at _
      (In-sort_by _ s.wake.due_at _ (dues-In s _ (In-filter is_pending s (values states) i p)))
      (sort_by-All (λ t. truthy t ≡ true) _ _
        (dues-All _
          (All-filter (λ x. truthy x.wake.due_at ≡ true) is_pending (values states) given)))

Listed-includes :
    (session_id : String) (es : List PendingWakeSessionIndexEntry)
    → Listed session_id es
    → includes session_id (map (λ e. e.session_id) es) ≡ true
Listed-includes session_id es (f, i, p) =
    any_of_In (λ y. y == session_id) f.session_id (map (λ e. e.session_id) es) (sessions-In es i)
      (ap (λ x. x == session_id) p ∙ eq_refl session_id)
  where
    sessions-In :
        (xs : List PendingWakeSessionIndexEntry)
        → In f xs
        → In f.session_id (map (λ e. e.session_id) xs)
    sessions-In [] k = k
    sessions-In (x ∷ xs) (inl e) = inl (ap (λ y. y.session_id) e)
    sessions-In (x ∷ xs) (inr k) = inr (sessions-In xs k)

-- A call of `enqueue` that makes a new wake leaves its session among those that the index lists as having
-- pending wakes. The session is not blank, and the due times of the wake and of those of the session are not
-- empty.
pub enqueue-indexed :
    (q : SessionWakeQueue) (now : String) (input : WakeInput)
    → non_blank input.session_id ≡ true
    → pending_with_key (fold (journal q input.session_id)) input.dedupe_key ≡ none
    → truthy input.due_at ≡ true
    → All (λ s. truthy s.wake.due_at ≡ true) (values (fold (journal q input.session_id)))
    → includes input.session_id (list_session_ids_with_pending_wakes (enqueue q now input).1) ≡ true
unfolding enqueue enqueue_unless append_records journal list_session_ids_with_pending_wakes
enqueue-indexed q now input b free t given =
    let w = new_wake q now input in
    let s : WakeState = record { wake = w; completed_at = none } in
    let states = fold (journal q input.session_id) in
    let (due, e, d) =
      earliest-given q.host s (set w.id s states) (In-set w.id s states) refl
        (values-set (λ x. truthy x.wake.due_at ≡ true) w.id s states t given) in
    rw free (Listed-includes input.session_id _ (sync_index-Listed _ input.session_id due _ b e d))
