-- ===== src/Agents/WakeQueue/Completing.antt =====
-- One completion in the journals of src/agents/runtime/session-wake-queue.ts.
use openboa.Prelude.{
  ◌≡◌, refl, sym, ap, ◌∙◌, subst, String, Bool, true, false, not, ◌&&◌, Option, none, some, List,
  [], ◌∷◌, filter, All, ◌==◌, eq_iff, Bool-cases, inl, inr,
}
use mathlib.Core.Option.{some-injective}
use openboa.Prelude.JsMap.{JsMap, get, set, values, Absent, Distinct, Distinct-set}
use openboa.Agents.WakeQueue.State.{
  SessionWakeJournalRecord, WakeState, fold, fold_from, fold_record, is_pending, wake_completed,
  wake_enqueued, with_current,
}

-- The states stand under their wakes' identifiers, each once.
abbrev pub Named : JsMap WakeState → Type 0
Named = All (λ (e : String × WakeState). e.0 ≡ e.1.wake.id)

pub record IsKeyed (m : JsMap WakeState) : Type 0 where
  pub named : Named m
  pub distinct : Distinct m

set-Named :
    (k : String) (v : WakeState) (m : JsMap WakeState) → k ≡ v.wake.id → Named m → Named (set k v m)
unfolding set
set-Named k v [] e h = (e, tt)
set-Named k v ((j, w) ∷ m) e h = elim (Bool-cases (j == k)) [
  | inl t ↦ rw t (e, h.1)
  | inr t ↦ rw t (h.0, set-Named k v m e h.1)
]

get-Named :
    (k : String) (m : JsMap WakeState) (s : WakeState) → Named m → get k m ≡ some s → k ≡ s.wake.id
unfolding get
get-Named k [] s h p = cc
get-Named k ((j, w) ∷ m) s h p = elim (Bool-cases (j == k)) [
  | inl t ↦ sym ((eq_iff j k).0 t) ∙ h.0 ∙ ap (λ x. x.wake.id) (some-injective w s (rw t at p))
  | inr t ↦ get-Named k m s h.1 (rw t at p)
]

pub with_current-IsKeyed :
    (m : JsMap WakeState) (id at : String) (found : Option WakeState)
    → get id m ≡ found
    → IsKeyed m
    → IsKeyed (with_current found m id at)
with_current-IsKeyed m id at none p h = h
with_current-IsKeyed m id at (some s) p h = record {
  named = set-Named id _ m (get-Named id m s h.named p) h.named;
  distinct = Distinct-set id _ m h.distinct;
}

fold_from-IsKeyed :
    (rs : List SessionWakeJournalRecord) (m : JsMap WakeState)
    → IsKeyed m
    → IsKeyed (fold_from m rs)
unfolding fold_from fold_record
fold_from-IsKeyed [] m h = h
fold_from-IsKeyed (wake_enqueued session_id w ∷ rs) m h =
    fold_from-IsKeyed rs (set w.id (record { wake = w; completed_at = none }) m) (record {
      named = set-Named w.id _ m refl h.named;
      distinct = Distinct-set w.id _ m h.distinct;
    })
fold_from-IsKeyed (wake_completed session_id id at ∷ rs) m h =
    fold_from-IsKeyed rs (with_current (get id m) m id at)
      (with_current-IsKeyed m id at (get id m) refl h)

pub fold-IsKeyed : (rs : List SessionWakeJournalRecord) → IsKeyed (fold rs)
unfolding fold
fold-IsKeyed rs = fold_from-IsKeyed rs [] (record { named = tt; distinct = tt })

-- Pending, under an identifier that passes the test.
abbrev pub pending_if : (String → Bool) → WakeState → Bool
pending_if g s = g s.wake.id && is_pending s

abbrev but : String → (String → Bool) → String → Bool
but id g k = not (k == id) && g k

-- Entries with other identifiers are pending as they were.
filter-Absent :
    (g : String → Bool) (id : String) (m : JsMap WakeState)
    → Named m
    → Absent id m
    → filter (pending_if g) (values m) ≡ filter (pending_if (but id g)) (values m)
unfolding values
filter-Absent g id [] h a = refl
filter-Absent g id ((j, w) ∷ m) h a =
    let other : (w.wake.id == id) ≡ false = ap (λ k. k == id) (sym h.0) ∙ a.0 in
    rw (filter-Absent g id m h.1 a.1, other) refl

pub and_false : (b : Bool) → (b && false) ≡ false
and_false true = refl
and_false false = refl

with_current-behind :
    (id at j : String) (w : WakeState) (found : Option WakeState) (m : JsMap WakeState)
    → (j == id) ≡ false
    → with_current found ((j, w) ∷ m) id at ≡ (j, w) ∷ with_current found m id at
unfolding set
with_current-behind id at j w none m n = refl
with_current-behind id at j w (some s) m n = rw n refl

-- One completion takes its own wake from the pending ones and no other.
pub complete_one :
    (g : String → Bool) (id at : String) (m : JsMap WakeState)
    → IsKeyed m
    → filter (pending_if g) (values (with_current (get id m) m id at))
      ≡ filter (pending_if (but id g)) (values m)
unfolding values get set
complete_one g id at [] h = refl
complete_one g id at ((j, w) ∷ m) h =
    let named : (w.wake.id == id) ≡ (j == id) = ap (λ k. k == id) (sym h.named.0) in
    elim (Bool-cases (j == id)) [
      | inl t ↦ completed t named
      | inr t ↦
          rw
            (
              t,
              with_current-behind id at j w (get id m) m t,
              complete_one g id at m (record { named = h.named.1; distinct = h.distinct.1 }),
              named,
              t,
            )
            refl
    ]
  where
    completed :
        (j == id) ≡ true
        → (w.wake.id == id) ≡ (j == id)
        → filter (pending_if g) (values (with_current (get id ((j, w) ∷ m)) ((j, w) ∷ m) id at))
          ≡ filter (pending_if (but id g)) (values ((j, w) ∷ m))
    completed t named =
        rw (named, t, t, and_false (g w.wake.id))
          (filter-Absent g id m h.named.1
            (subst (λ k. Absent k m) ((eq_iff j id).0 t) h.distinct.0))
