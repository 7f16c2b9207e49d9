-- ===== src/Agents/WakeQueue/Dedupe.antt =====
-- One pending wake for each key of `SessionWakeQueue`.
use openboa.Prelude.{
  ◌≡◌, refl, sym, subst, ℕ, ◌+◌, ◌≤◌, String, Bool, true, Option, none, some, List, [], ◌∷◌, filter,
  find, length, truthy, opt_eq, ◌==◌, eq_iff, Bool-cases, inl, inr, arith, if◌then◌else◌,
}
use openboa.Prelude.JsMap.{JsMap, get, set, values}
use openboa.Agents.WakeQueue.State.{
  SessionWake, SessionWakeQueue, WakeState, fold, fold_from, fold_record, journal, wake_enqueued,
  with_current,
}
use openboa.Agents.WakeQueue.Calls.{
  WakeInput, cancel_pending, complete, completions, consume_due, consume_known, enqueue,
  enqueue_unless, has_key, new_wake, pending_with_key,
}
use openboa.Agents.WakeQueue.Due.{list_due_session_wakes}
use openboa.Agents.WakeQueue.Journal.{
  complete-journal, complete-journal_elsewhere, enqueue_unless-journal, fold_from-append,
  list_due_session_wakes-journal,
}

-- The writing calls of the queue; the time comes with each of them.
pub data WakeCommand : Type 0 where
  enqueues : String → WakeInput → WakeCommand
  consumes : String → String → WakeCommand
  consumes_known : String → String → List SessionWake → WakeCommand
  cancels : String → String → WakeCommand
  lists_due : String → WakeCommand

unfoldable pub run_wake_command : SessionWakeQueue → WakeCommand → SessionWakeQueue
run_wake_command q (enqueues now input) = (enqueue q now input).1
run_wake_command q (consumes session_id at) = (consume_due q session_id at).1
run_wake_command q (consumes_known session_id at wakes) = (consume_known q session_id at wakes).1
run_wake_command q (cancels session_id at) = (cancel_pending q session_id at).1
run_wake_command q (lists_due at) = (list_due_session_wakes q at).1

unfoldable pub run_wake_commands : SessionWakeQueue → List WakeCommand → SessionWakeQueue
run_wake_commands q [] = q
run_wake_commands q (c ∷ cs) = run_wake_commands (run_wake_command q c) cs

-- How many wakes with the key are pending in a map.
unfoldable pub pending_count_of : String → JsMap WakeState → ℕ
pending_count_of key m = length (filter (has_key key) (values m))

-- In every session at most one wake is pending for each key that is not empty.
abbrev pub IsDeduped : SessionWakeQueue → Type 0
IsDeduped q =
    (session_id key : String)
    → truthy key ≡ true
    → pending_count_of key (fold (journal q session_id)) ≤ 1

count-set :
    (p : WakeState → Bool) (k : String) (v : WakeState) (m : JsMap WakeState)
    → length (filter p (values (set k v m))) ≤ length (filter p (values m)) + (if p v then 1 else 0)
unfolding set values
count-set p k v [] = elim (Bool-cases (p v)) [
  | inl t ↦ rw t (omega arith)
  | inr t ↦ rw t (omega arith)
]
count-set p k v ((j, w) ∷ m) = ground (arith, count-set p k v m)

-- Completions leave no more pending wakes than there were.
with_current-count :
    (key : String) (found : Option WakeState) (m : JsMap WakeState) (id at : String)
    → pending_count_of key (with_current found m id at) ≤ pending_count_of key m
unfolding pending_count_of
with_current-count key none m id at = omega arith
with_current-count key (some s) m id at =
    let c = count-set (has_key key) id (record s { completed_at = some at }) m in omega (arith, c)

completions-count :
    (key session_id at : String) (m : JsMap WakeState) (ws : List SessionWake)
    → pending_count_of key (fold_from m (completions session_id at ws)) ≤ pending_count_of key m
unfolding fold_from fold_record
completions-count key session_id at m [] = omega arith
completions-count key session_id at m (w ∷ ws) =
    let a = with_current-count key (get w.id m) m w.id at in
    let b = completions-count key session_id at (with_current (get w.id m) m w.id at) ws in
    omega (arith, a, b)

complete-IsDeduped :
    (q : SessionWakeQueue) (session_id at : String) (ws : List SessionWake)
    → IsDeduped q
    → IsDeduped (complete q session_id at ws).1
unfolding fold
complete-IsDeduped q session_id at ws h other key t = elim (Bool-cases (session_id == other)) [
  | inr n ↦ rw (complete-journal_elsewhere q session_id at ws other n) (h other key t)
  | inl e ↦
      let same = (eq_iff session_id other).0 e in
      let c = completions-count key session_id at (fold (journal q session_id)) ws in
      rw (← same) (
        rw
          (
            complete-journal q session_id at ws,
            fold_from-append [] (journal q session_id) (completions session_id at ws),
          )
          (omega (arith, c, h session_id key t)))
]

none-count :
    (key : String) (xs : List WakeState)
    → find (has_key key) xs ≡ none
    → length (filter (has_key key) xs) ≡ 0
none-count key [] h = refl
none-count key (x ∷ xs) h = elim (Bool-cases (has_key key x)) [
  | inl t ↦ absurd (found (rw t at h))
  | inr t ↦ rw t (none-count key xs (rw t at h))
]
  where
    found : some x ≡ none → ⊥
    found q = cc

-- The new wake is the only one with its key, and counts for no other.
enqueued-count :
    (key : String) (w : SessionWake) (m : JsMap WakeState)
    → truthy key ≡ true
    → pending_with_key m w.dedupe_key ≡ none
    → pending_count_of key m ≤ 1
    → pending_count_of key (set w.id (record { wake = w; completed_at = none }) m) ≤ 1
unfolding pending_count_of pending_with_key
enqueued-count key w m t free h =
    let c = count-set (has_key key) w.id (record { wake = w; completed_at = none }) m in
    elim (Bool-cases (opt_eq w.dedupe_key (some key))) [
      | inr n ↦ omega (arith, rw n at c, h)
      | inl e ↦ omega (arith, rw e at c, none-count key (values m) (no_other w.dedupe_key e free))
    ]
  where
    no_other :
        (o : Option String)
        → opt_eq o (some key) ≡ true
        → pending_with_key m o ≡ none
        → find (has_key key) (values m) ≡ none
    no_other none e p = cc
    no_other (some k) e p =
        let same = (eq_iff k key).0 e in
        rw t at (subst (λ x. pending_with_key m (some x) ≡ none) same p)

enqueued-IsDeduped :
    (q : SessionWakeQueue) (w : SessionWake)
    → pending_with_key (fold (journal q w.session_id)) w.dedupe_key ≡ none
    → IsDeduped q
    → IsDeduped (enqueue_unless q w none).1
unfolding fold fold_from fold_record
enqueued-IsDeduped q w p h other key t = elim (Bool-cases (w.session_id == other)) [
  | inr n ↦ rw (enqueue_unless-journal q w other, n) (h other key t)
  | inl e ↦
      rw
        (
          enqueue_unless-journal q w other,
          e,
          fold_from-append [] (journal q w.session_id) (wake_enqueued w.session_id w ∷ []),
        )
        (enqueued-count key w (fold (journal q w.session_id)) t p (h w.session_id key t))
]

enqueue_unless-IsDeduped :
    (q : SessionWakeQueue) (w : SessionWake) (found : Option WakeState)
    → pending_with_key (fold (journal q w.session_id)) w.dedupe_key ≡ found
    → IsDeduped q
    → IsDeduped (enqueue_unless q w found).1
unfolding enqueue_unless
enqueue_unless-IsDeduped q w (some existing) p h = h
enqueue_unless-IsDeduped q w none p h = enqueued-IsDeduped q w p h

run_wake_command-IsDeduped :
    (q : SessionWakeQueue) (c : WakeCommand) → IsDeduped q → IsDeduped (run_wake_command q c)
unfolding run_wake_command enqueue consume_due consume_known cancel_pending journal
run_wake_command-IsDeduped q (enqueues now input) h =
    enqueue_unless-IsDeduped (record q { issued = q.issued + 1 }) (new_wake q now input) _ refl h
run_wake_command-IsDeduped q (consumes session_id at) h = complete-IsDeduped q session_id at _ h
run_wake_command-IsDeduped q (consumes_known session_id at wakes) h =
    complete-IsDeduped q session_id at _ h
run_wake_command-IsDeduped q (cancels session_id at) h = complete-IsDeduped q session_id at _ h
run_wake_command-IsDeduped q (lists_due at) h = λ other key t.
    subst (λ rs. pending_count_of key (fold rs) ≤ 1)
      (sym (list_due_session_wakes-journal q at other)) (h other key t)

-- Whatever calls are made on a queue in which, in every session, at most one wake is pending for each
-- key that is not empty, that stays so.
pub run_wake_commands-IsDeduped :
    (q : SessionWakeQueue) (cs : List WakeCommand)
    → IsDeduped q
    → IsDeduped (run_wake_commands q cs)
unfolding run_wake_commands
run_wake_commands-IsDeduped q [] h = h
run_wake_commands-IsDeduped q (c ∷ cs) h =
    run_wake_commands-IsDeduped (run_wake_command q c) cs (run_wake_command-IsDeduped q c h)
