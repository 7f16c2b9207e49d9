-- ===== src/Agents/WakeQueue/Enqueuing.antt =====
-- What `enqueue` of src/agents/runtime/session-wake-queue.ts leaves for the later calls.
use openboa.Prelude.{
  ◌≡◌, refl, sym, ap, ◌∙◌, subst, ◌+◌, String, Bool, true, false, ◌&&◌, Option, none, some, List,
  [], ◌∷◌, find, map, In, In-filter, truthy, ◌==◌, eq_refl, Bool-cases, inl, inr,
}
use mathlib.Core.Option.{some-injective}
use openboa.Prelude.JsMap.{JsMap, set, values, In-set}
use openboa.Prelude.Sorting.{In-sort_by}
use openboa.Agents.WakeQueue.State.{
  SessionWake, SessionWakeQueue, WakeState, by_due, fold, fold_from, fold_record, is_due,
  is_pending, iso_le, journal, list_pending, wake_enqueued,
}
use openboa.Agents.WakeQueue.Calls.{
  WakeInput, consume_due, enqueue, enqueue_unless, has_key, new_wake, pending_with_key,
}
use openboa.Agents.WakeQueue.Journal.{
  enqueue_unless-journal, enqueue_unless-host, complete-wakes, fold_from-append,
}

find-In :
    (p : WakeState → Bool) (xs : List WakeState) (x : WakeState)
    → find p xs ≡ some x
    → In x xs × (p x ≡ true)
find-In p [] x h = absurd (cc)
find-In p (y ∷ ys) x h = elim (Bool-cases (p y)) [
  | inl t ↦ let same = some-injective y x (rw t at h) in (inl (sym same), ap p (sym same) ∙ t)
  | inr t ↦ let rest = find-In p ys x (rw t at h) in (inr rest.0, rest.1)
]

find-set :
    (p : WakeState → Bool) (k : String) (v : WakeState) (m : JsMap WakeState)
    → find p (values m) ≡ none
    → p v ≡ true
    → find p (values (set k v m)) ≡ some v
unfolding set values
find-set p k v [] h t = rw t refl
find-set p k v ((j, w) ∷ m) h t = elim (Bool-cases (p w)) [
  | inl e ↦ absurd (found (rw e at h))
  | inr e ↦ elim (Bool-cases (j == k)) [
    | inl s ↦ rw (s, t) refl
    | inr s ↦ rw (s, e) (find-set p k v m (rw e at h) t)
  ]
]
  where
    found : some w ≡ none → ⊥
    found q = cc

-- The states of a session after a new wake.
enqueued-states :
    (q : SessionWakeQueue) (w : SessionWake)
    → fold (journal (enqueue_unless q w none).1 w.session_id)
      ≡ set w.id (record { wake = w; completed_at = none }) (fold (journal q w.session_id))
unfolding fold fold_from fold_record
enqueued-states q w =
    rw
      (
        enqueue_unless-journal q w w.session_id,
        eq_refl w.session_id,
        fold_from-append [] (journal q w.session_id) (wake_enqueued w.session_id w ∷ []),
      )
      refl

pending_with_key-In :
    (m : JsMap WakeState) (key : Option String) (s : WakeState)
    → pending_with_key m key ≡ some s
    → In s (values m) × (is_pending s ≡ true)
unfolding pending_with_key
pending_with_key-In m none s h = absurd (cc)
pending_with_key-In m (some key) s h = elim (Bool-cases (truthy key)) [
  | inr t ↦ absurd (missing (rw t at h))
  | inl t ↦
      let found = find-In (has_key key) (values m) s (rw t at h) in
      (found.0, pending (is_pending s) _ found.1)
]
  where
    missing : none ≡ some s → ⊥
    missing e = cc

    pending : (b r : Bool) → (b && r) ≡ true → b ≡ true
    pending true r e = refl
    pending false r e = e

list_pending-In :
    (q : SessionWakeQueue) (session_id at : String) (s : WakeState)
    → In s (values (fold (journal q session_id)))
    → is_due q.host at s ≡ true
    → In s.wake (list_pending q session_id at)
unfolding list_pending by_due
list_pending-In q session_id at s i d =
    In-sort_by _ s.wake _ (In-map s _ (In-filter (is_due q.host at) s _ i d))
  where
    In-map : (x : WakeState) (xs : List WakeState) → In x xs → In x.wake (map (λ y. y.wake) xs)
    In-map x [] m = m
    In-map x (y ∷ ys) (inl e) = inl (ap (λ z. z.wake) e)
    In-map x (y ∷ ys) (inr m) = inr (In-map x ys m)

returned-In :
    (q : SessionWakeQueue) (w : SessionWake) (at : String) (found : Option WakeState)
    → pending_with_key (fold (journal q w.session_id)) w.dedupe_key ≡ found
    → iso_le q.host (enqueue_unless q w found).0.due_at at ≡ true
    → In (enqueue_unless q w found).0 (list_pending (enqueue_unless q w found).1 w.session_id at)
unfolding enqueue_unless
returned-In q w at none p d =
    list_pending-In (enqueue_unless q w none).1 w.session_id at
      (record { wake = w; completed_at = none })
      (subst (λ m. In (record { wake = w; completed_at = none }) (values m))
        (sym (enqueued-states q w))
        (In-set w.id (record { wake = w; completed_at = none }) (fold (journal q w.session_id))))
      (rw (enqueue_unless-host q w none) d)
returned-In q w at (some s) p d =
    let found = pending_with_key-In (fold (journal q w.session_id)) w.dedupe_key s p in
    list_pending-In q w.session_id at s found.0 (rw (found.1, d) refl)

-- The wake that `enqueue` returns is among those that a call for the due wakes of its session takes, at a
-- time at which it is due.
pub enqueue-consumed :
    (q : SessionWakeQueue) (now at : String) (input : WakeInput)
    → iso_le q.host (enqueue q now input).0.due_at at ≡ true
    → In (enqueue q now input).0 (consume_due (enqueue q now input).1 input.session_id at).0
unfolding enqueue consume_due journal
enqueue-consumed q now at input d =
    rw (complete-wakes (enqueue q now input).1 input.session_id at _)
      (returned-In (record q { issued = q.issued + 1 }) (new_wake q now input) at _ refl d)

new-with_key :
    (q : SessionWakeQueue) (w : SessionWake) (key : String)
    → pending_with_key (fold (journal q w.session_id)) (some key) ≡ none
    → w.dedupe_key ≡ some key
    → truthy key ≡ true
    → pending_with_key (fold (journal (enqueue_unless q w none).1 w.session_id)) (some key)
      ≡ some (record { wake = w; completed_at = none })
unfolding pending_with_key
new-with_key q w key p e t =
    rw (enqueued-states q w, t)
      (find-set (has_key key) w.id _ (fold (journal q w.session_id)) (rw t at p)
        (rw e (eq_refl key)))

returned-with_key :
    (q : SessionWakeQueue) (w : SessionWake) (key : String) (found : Option WakeState)
    → pending_with_key (fold (journal q w.session_id)) w.dedupe_key ≡ found
    → w.dedupe_key ≡ some key
    → truthy key ≡ true
    → (s : WakeState) × (pending_with_key
          (fold (journal (enqueue_unless q w found).1 w.session_id))
          (some key)
        ≡ some s)
      × (s.wake ≡ (enqueue_unless q w found).0)
unfolding enqueue_unless
returned-with_key q w key (some s) p e t =
    (s, subst (λ o. pending_with_key (fold (journal q w.session_id)) o ≡ some s) e p, refl)
returned-with_key q w key none p e t = (
  record { wake = w; completed_at = none },
  new-with_key q w key (subst (λ o. pending_with_key (fold (journal q w.session_id)) o ≡ none) e p)
      e t,
  refl,
)

-- A second call of `enqueue` after a first one, for the same session and the same key that is not empty,
-- returns the wake of the first one and leaves the journals and the index as they are.
pub enqueue-twice :
    (q : SessionWakeQueue) (now later key : String) (input again : WakeInput)
    → input.dedupe_key ≡ some key
    → again.dedupe_key ≡ some key
    → again.session_id ≡ input.session_id
    → truthy key ≡ true
    → ((enqueue (enqueue q now input).1 later again).0 ≡ (enqueue q now input).0)
      × ((enqueue (enqueue q now input).1 later again).1.journals
          ≡ (enqueue q now input).1.journals)
      × ((enqueue (enqueue q now input).1 later again).1.index ≡ (enqueue q now input).1.index)
unfolding enqueue enqueue_unless journal
enqueue-twice q now later key input again e f g t =
    let first = (enqueue q now input).1 in
    let (s, found, same) =
      returned-with_key (record q { issued = q.issued + 1 }) (new_wake q now input) key _ refl e
        t in
    rw (g, f, found) (same, refl, refl)
