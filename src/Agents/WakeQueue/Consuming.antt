-- ===== src/Agents/WakeQueue/Consuming.antt =====
-- What `consumeDueForAgentSession` of src/agents/runtime/session-wake-queue.ts leaves pending.
use openboa.Prelude.{
  ◌≡◌, refl, sym, ap, ◌∙◌, String, Bool, true, false, not, ◌&&◌, List, [], ◌∷◌, filter, filter_ext,
  map, All, In, ◌==◌, eq_iff, eq_refl, Bool-cases, inl, inr,
}
use openboa.Prelude.JsMap.{JsMap, get, values, Absent}
use openboa.Prelude.Sorting.{sort_by, sort_by-All, In-sort_by}
use openboa.Agents.WakeQueue.State.{
  SessionWake, SessionWakeQueue, WakeHost, WakeState, by_due, fold, fold_from, fold_record, is_due,
  is_pending, iso_le, journal, list_pending, pending_wakes, with_current,
}
use openboa.Agents.WakeQueue.Calls.{completions, consume_due}
use openboa.Agents.WakeQueue.Journal.{
  complete-journal, complete-wakes, complete-host, fold_from-append,
}
use openboa.Agents.WakeQueue.Completing.{
  IsKeyed, Named, with_current-IsKeyed, fold-IsKeyed, pending_if, and_false, complete_one,
}

-- None of the wakes has the identifier.
abbrev pub spares : List SessionWake → String → Bool
spares [] k = true
spares (w ∷ ws) k = not (k == w.id) && spares ws k

pub complete_all :
    (session_id at : String) (ws : List SessionWake) (m : JsMap WakeState)
    → IsKeyed m
    → filter (pending_if (λ k. true)) (values (fold_from m (completions session_id at ws)))
      ≡ filter (pending_if (spares ws)) (values m)
unfolding fold_from fold_record
complete_all session_id at [] m h = refl
complete_all session_id at (w ∷ ws) m h =
    complete_all session_id at ws (with_current (get w.id m) m w.id at)
      (with_current-IsKeyed m w.id at (get w.id m) refl h)
    ∙ complete_one (spares ws) w.id at m h

pub spares-own : (w : SessionWake) (ws : List SessionWake) → In w ws → spares ws w.id ≡ false
spares-own w [] m = absurd m
spares-own w (x ∷ xs) (inl e) = rw (← e, eq_refl w.id) refl
spares-own w (x ∷ xs) (inr m) = elim (Bool-cases (w.id == x.id)) [
  | inl t ↦ rw t refl
  | inr t ↦ rw (t, spares-own w xs m) refl
]

spares-others :
    (k : String) (ws : List SessionWake) → All (λ w. (k == w.id) ≡ false) ws → spares ws k ≡ true
spares-others k [] h = refl
spares-others k (w ∷ ws) h = rw (h.0, spares-others k ws h.1) refl

Absent-values :
    (j : String) (t : WakeState) (m : JsMap WakeState)
    → Named m
    → Absent j m
    → In t (values m)
    → (t.wake.id == j) ≡ false
unfolding values
Absent-values j t [] h a m = absurd m
Absent-values j t ((i, w) ∷ m) h a (inl e) =
    ap (λ x. x.wake.id == j) e ∙ ap (λ k. k == j) (sym h.0) ∙ a.0
Absent-values j t ((i, w) ∷ m) h a (inr i') = Absent-values j t m h.1 a.1 i'

clash :
    (k : String) (t w s : WakeState)
    → s ≡ w
    → k ≡ w.wake.id
    → s.wake.id ≡ t.wake.id
    → (t.wake.id == k) ≡ false
    → ⊥
clash k t w s p n e f =
    let same : t.wake.id ≡ k = sym e ∙ ap (λ x. x.wake.id) p ∙ sym n in
    let equal : (t.wake.id == k) ≡ true = ap (λ x. x == k) same ∙ eq_refl k in cc

-- A state is told by its wake's identifier.
values_unique :
    (s t : WakeState) (m : JsMap WakeState)
    → IsKeyed m
    → In s (values m)
    → In t (values m)
    → s.wake.id ≡ t.wake.id
    → s ≡ t
unfolding values
values_unique s t [] h i j e = absurd i
values_unique s t ((k, w) ∷ m) h (inl p) (inl q) e = p ∙ sym q
values_unique s t ((k, w) ∷ m) h (inl p) (inr q) e =
    absurd (clash k t w s p h.named.0 e (Absent-values k t m h.named.1 h.distinct.0 q))
values_unique s t ((k, w) ∷ m) h (inr p) (inl q) e =
    absurd (clash k s w t q h.named.0 (sym e) (Absent-values k s m h.named.1 h.distinct.0 p))
values_unique s t ((k, w) ∷ m) h (inr p) (inr q) e =
    values_unique s t m (record { named = h.named.1; distinct = h.distinct.1 }) p q e

pub wakes-In :
    (p : WakeState → Bool) (s : WakeState) (xs : List WakeState)
    → In s xs
    → p s ≡ true
    → In s.wake (map (λ x. x.wake) (filter p xs))
wakes-In p s [] i e = absurd i
wakes-In p s (x ∷ xs) (inl q) e = rw (ap p (sym q) ∙ e) (inl (ap (λ y. y.wake) q))
wakes-In p s (x ∷ xs) (inr i) e = elim (Bool-cases (p x)) [
  | inl t ↦ rw t (inr (wakes-In p s xs i e))
  | inr t ↦ rw t (wakes-In p s xs i e)
]

wakes-All :
    (p : WakeState → Bool) (Q : SessionWake → Type 0) (xs : List WakeState)
    → ((x : WakeState) → In x xs → p x ≡ true → Q x.wake)
    → All Q (map (λ x. x.wake) (filter p xs))
wakes-All p Q [] h = tt
wakes-All p Q (x ∷ xs) h = elim (Bool-cases (p x)) [
  | inl t ↦ rw t (h x (inl refl) t, wakes-All p Q xs (λ y i. h y (inr i)))
  | inr t ↦ rw t (wakes-All p Q xs (λ y i. h y (inr i)))
]

-- Pending, and not due at the time.
abbrev pub is_left : WakeHost → String → WakeState → Bool
is_left h at s = is_pending s && not (iso_le h s.wake.due_at at)

filter_twice :
    (p r : WakeState → Bool) (xs : List WakeState)
    → filter (λ x. p x && r x) xs ≡ filter r (filter p xs)
filter_twice p r [] = refl
filter_twice p r (x ∷ xs) = elim (Bool-cases (p x)) [
  | inl t ↦ rw (t, filter_twice p r xs) refl
  | inr t ↦ rw (t, filter_twice p r xs) refl
]

left-none_due :
    (h : WakeHost) (at : String) (xs : List WakeState)
    → filter (λ s. iso_le h s.wake.due_at at) (filter (is_left h at) xs) ≡ []
left-none_due h at [] = refl
left-none_due h at (x ∷ xs) = elim (Bool-cases (is_pending x)) [
  | inr n ↦ rw n (left-none_due h at xs)
  | inl p ↦ elim (Bool-cases (iso_le h x.wake.due_at at)) [
    | inl t ↦ rw (p, t) (left-none_due h at xs)
    | inr f ↦ rw (p, f, f) (left-none_due h at xs)
  ]
]

module _ (q : SessionWakeQueue) (session_id at : String) where
  abbrev states : List WakeState
  states = values (fold (journal q session_id))

  due-spared :
      (s : WakeState)
      → In s states
      → is_due q.host at s ≡ true
      → spares (list_pending q session_id at) s.wake.id ≡ false
  unfolding list_pending by_due
  due-spared s i d =
      spares-own s.wake (list_pending q session_id at)
        (In-sort_by _ s.wake _ (wakes-In (is_due q.host at) s states i d))

  left-spared :
      (s : WakeState)
      → In s states
      → is_due q.host at s ≡ false
      → spares (list_pending q session_id at) s.wake.id ≡ true
  unfolding list_pending by_due
  left-spared s i n = spares-others s.wake.id (list_pending q session_id at) (
      sort_by-All (λ w. (s.wake.id == w.id) ≡ false) _ _
        (wakes-All (is_due q.host at) (λ w. (s.wake.id == w.id) ≡ false) states other))
    where
      other :
          (x : WakeState)
          → In x states
          → is_due q.host at x ≡ true
          → (s.wake.id == x.wake.id) ≡ false
      other x j d = elim (Bool-cases (s.wake.id == x.wake.id)) [
        | inr f ↦ f
        | inl t ↦
            let same =
              values_unique s x (fold (journal q session_id)) (fold-IsKeyed (journal q session_id))
                i j ((eq_iff s.wake.id x.wake.id).0 t) in
            absurd (differ (sym n ∙ ap (is_due q.host at) same ∙ d))
      ]
        where
          differ : false ≡ true → ⊥
          differ e = cc

  due-or_left :
      (s : WakeState)
      → In s states
      → pending_if (spares (list_pending q session_id at)) s ≡ is_left q.host at s
  due-or_left s i = elim (Bool-cases (is_pending s)) [
    | inr n ↦ rw (n, and_false (spares (list_pending q session_id at) s.wake.id)) refl
    | inl p ↦ elim (Bool-cases (iso_le q.host s.wake.due_at at)) [
      | inl t ↦ rw (due-spared s i (rw (p, t) refl), t, p) refl
      | inr f ↦ rw (left-spared s i (rw (p, f) refl), f, p) refl
    ]
  ]

  consume_due-states :
      filter is_pending (values (fold (journal (consume_due q session_id at).1 session_id)))
      ≡ filter (is_left q.host at) states
  unfolding consume_due fold
  consume_due-states =
      rw
        (
          complete-journal q session_id at (list_pending q session_id at),
          fold_from-append [] (journal q session_id)
              (completions session_id at (list_pending q session_id at)),
        )
        (complete_all session_id at (list_pending q session_id at) (fold (journal q session_id))
            (fold-IsKeyed (journal q session_id))
          ∙ filter_ext _ _ states due-or_left)

  consume_due-none_due :
      filter (is_due q.host at) (values (fold (journal (consume_due q session_id at).1 session_id)))
      ≡ []
  consume_due-none_due =
      filter_twice is_pending (λ s. iso_le q.host s.wake.due_at at)
        (values (fold (journal (consume_due q session_id at).1 session_id)))
      ∙ rw consume_due-states (left-none_due q.host at states)

  -- A call for the due wakes returns those that were due. After it none is due, and the pending wakes are
  -- those that were pending and not due, the earliest first.
  pub consume_due-eq :
      ((consume_due q session_id at).0 ≡ list_pending q session_id at)
      × (list_pending (consume_due q session_id at).1 session_id at ≡ [])
      × (pending_wakes (consume_due q session_id at).1 session_id
          ≡ by_due q.host (
              map
                (λ s. s.wake)
                (filter (is_left q.host at) (values (fold (journal q session_id))))))
  unfolding list_pending pending_wakes by_due consume_due sort_by
  consume_due-eq = (complete-wakes q session_id at (list_pending q session_id at), no_due, left)
    where
      same_host : (consume_due q session_id at).1.host ≡ q.host
      same_host = complete-host q session_id at (list_pending q session_id at)

      no_due : list_pending (consume_due q session_id at).1 session_id at ≡ []
      no_due = rw (same_host, consume_due-none_due) refl

      left :
          pending_wakes (consume_due q session_id at).1 session_id
          ≡ by_due q.host (map (λ s. s.wake) (filter (is_left q.host at) states))
      left = rw (same_host, consume_due-states) refl
