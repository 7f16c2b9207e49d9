-- ===== src/Agents/WakeQueue/Listing.antt =====
-- When the index of src/agents/runtime/session-wake-queue.ts lists a session.
use openboa.Prelude.{
  ◌≡◌, refl, sym, ap, ◌∙◌, ◌+◌, subst, String, true, false, not, some, List, [], ◌∷◌, filter, All,
  In, In-filter, In-append_right, ◌==◌, eq_iff, Bool-cases, Option-cases, inl, inr, ◌⊎◌, non_blank,
  truthy,
}
use openboa.Prelude.JsMap.{JsMap, get, set, values, In-set}
use openboa.Prelude.Sorting.{In-sort_by}
use openboa.Agents.WakeQueue.State.{
  PendingWakeSessionIndexEntry, SessionWakeQueue, WakeHost, WakeState,
}
use openboa.Agents.WakeQueue.Index.{
  replaces, dedupe_from, dedupe_pending_wake_entries, same_pending_wake_entries, read_index,
  write_index, sync_index, earliest_pending_wake_due_at,
}

-- An entry is the session's.
abbrev pub Listed : String → List PendingWakeSessionIndexEntry → Type 0
Listed session_id es = (e : PendingWakeSessionIndexEntry) × In e es × (e.session_id ≡ session_id)

abbrev Named : JsMap PendingWakeSessionIndexEntry → Type 0
Named = All (λ (e : String × PendingWakeSessionIndexEntry). e.0 ≡ e.1.session_id)

set-Named :
    (e : PendingWakeSessionIndexEntry) (m : JsMap PendingWakeSessionIndexEntry)
    → Named m
    → Named (set e.session_id e m)
unfolding set
set-Named e [] n = (refl, tt)
set-Named e ((j, w) ∷ m) n = elim (Bool-cases (j == e.session_id)) [
  | inl t ↦ rw t (refl, n.1)
  | inr t ↦ rw t (n.0, set-Named e m n.1)
]

later :
    (s : String) (es : List PendingWakeSessionIndexEntry) (e : PendingWakeSessionIndexEntry)
    → Listed s es
    → Listed s (e ∷ es)
later s es e (f, i, p) = (f, inr i, p)

set-Listed :
    (s : String) (e : PendingWakeSessionIndexEntry) (m : JsMap PendingWakeSessionIndexEntry)
    → Named m
    → Listed s (values m)
    → Listed s (values (set e.session_id e m))
unfolding set values
set-Listed s e [] n (f, i, p) = absurd i
set-Listed s e ((j, w) ∷ m) n (f, inl i, p) = elim (Bool-cases (j == e.session_id)) [
  | inl t ↦ rw t (e, inl refl, sym ((eq_iff _ _).0 t) ∙ n.0 ∙ sym (ap (λ x. x.session_id) i) ∙ p)
  | inr t ↦ rw t (f, inl i, p)
]
set-Listed s e ((j, w) ∷ m) n (f, inr i, p) = elim (Bool-cases (j == e.session_id)) [
  | inl t ↦ rw t (f, inr i, p)
  | inr t ↦ rw t (later s _ w (set-Listed s e m n.1 (f, i, p)))
]

get-Listed :
    (s : String) (c : PendingWakeSessionIndexEntry) (m : JsMap PendingWakeSessionIndexEntry)
    → Named m
    → get s m ≡ some c
    → Listed s (values m)
unfolding get values
get-Listed s c [] n p = cc
get-Listed s c ((j, w) ∷ m) n p = elim (Bool-cases (j == s)) [
  | inl t ↦ (w, inl refl, sym n.0 ∙ (eq_iff j s).0 t)
  | inr t ↦ later s _ w (get-Listed s c m n.1 (rw t at p))
]

kept-Listed :
    (h : WakeHost) (e : PendingWakeSessionIndexEntry) (m : JsMap PendingWakeSessionIndexEntry)
    → Named m
    → replaces h (get e.session_id m) e ≡ false
    → Listed e.session_id (values m)
kept-Listed h e m n r = elim (Option-cases (get e.session_id m)) [
  | inl p ↦ absurd (fresh (rw p at r))
  | inr (c, p) ↦ get-Listed e.session_id c m n p
]
  where
    fresh : true ≡ false → ⊥
    fresh q = cc

-- No session is lost.
dedupe_from-Listed :
    (h : WakeHost) (s : String) (es : List PendingWakeSessionIndexEntry)
    (m : JsMap PendingWakeSessionIndexEntry)
    → Named m
    → Listed s (values m) ⊎ Listed s es
    → Listed s (values (dedupe_from h m es))
unfolding dedupe_from
dedupe_from-Listed h s [] m n (inl l) = l
dedupe_from-Listed h s [] m n (inr (f, i, p)) = absurd i
dedupe_from-Listed h s (e ∷ es) m n l = elim (Bool-cases (replaces h (get e.session_id m) e)) [
  | inl t ↦ rw t (dedupe_from-Listed h s es (set e.session_id e m) (set-Named e m n) (replaced l))
  | inr t ↦ rw t (dedupe_from-Listed h s es m n (kept t l))
]
  where
    replaced :
        Listed s (values m) ⊎ Listed s (e ∷ es)
        → Listed s (values (set e.session_id e m)) ⊎ Listed s es
    replaced (inl k) = inl (set-Listed s e m n k)
    replaced (inr (f, inl i, p)) =
        inl (e, In-set e.session_id e m, ap (λ x. x.session_id) (sym i) ∙ p)
    replaced (inr (f, inr i, p)) = inr (f, i, p)

    kept :
        replaces h (get e.session_id m) e ≡ false
        → Listed s (values m) ⊎ Listed s (e ∷ es)
        → Listed s (values m) ⊎ Listed s es
    kept t (inl k) = inl k
    kept t (inr (f, inl i, p)) = inl (
        subst (λ x. Listed x (values m)) (ap (λ x. x.session_id) (sym i) ∙ p)
          (kept-Listed h e m n t))
    kept t (inr (f, inr i, p)) = inr (f, i, p)

dedupe-Listed :
    (h : WakeHost) (s : String) (es : List PendingWakeSessionIndexEntry)
    → Listed s es
    → Listed s (dedupe_pending_wake_entries h es)
unfolding dedupe_pending_wake_entries
dedupe-Listed h s es l =
    let (f, i, p) = dedupe_from-Listed h s es [] tt (inr l) in (f, In-sort_by _ f _ i, p)

same-Listed :
    (s : String) (es fs : List PendingWakeSessionIndexEntry)
    → same_pending_wake_entries es fs ≡ true
    → Listed s fs
    → Listed s es
unfolding same_pending_wake_entries
same-Listed s es [] h (f, i, p) = absurd i
same-Listed s [] (f ∷ fs) h l = cc
same-Listed s (e ∷ es) (f ∷ fs) h l = elim (Bool-cases (e.session_id == f.session_id)) [
  | inr n ↦ absurd (differ (rw n at h))
  | inl t ↦ elim (Bool-cases (e.next_due_at == f.next_due_at)) [
    | inr n ↦ absurd (differ (rw (t, n) at h))
    | inl t' ↦ matched ((eq_iff _ _).0 t) (same-Listed s es fs (rw (t, t') at h)) l
  ]
]
  where
    differ : false ≡ true → ⊥
    differ p = cc

    matched :
        e.session_id ≡ f.session_id
        → (Listed s fs → Listed s es)
        → Listed s (f ∷ fs)
        → Listed s (e ∷ es)
    matched same rest (g, inl i, p) = (e, inl refl, same ∙ ap (λ x. x.session_id) (sym i) ∙ p)
    matched same rest (g, inr i, p) = later s es e (rest (g, i, p))

write_index-Listed :
    (q : SessionWakeQueue) (s : String) (next : List PendingWakeSessionIndexEntry)
    → non_blank s ≡ true
    → Listed s next
    → Listed s (read_index (write_index q (read_index q) next))
unfolding write_index read_index
write_index-Listed q s next b l =
    elim (Bool-cases (same_pending_wake_entries (read_index q) next)) [
      | inl t ↦ rw t (same-Listed s (read_index q) next t l)
      | inr t ↦
          let (f, i, p) = dedupe-Listed q.host s next l in
          rw t (f, In-filter (λ e. non_blank e.session_id) f _ i (ap non_blank p ∙ b), p)
    ]

-- A session whose earliest wake has a due time is listed.
pub sync_index-Listed :
    (q : SessionWakeQueue) (s due : String) (states : JsMap WakeState)
    → non_blank s ≡ true
    → earliest_pending_wake_due_at q.host states ≡ some due
    → truthy due ≡ true
    → Listed s (read_index (sync_index q s states))
unfolding sync_index read_index
sync_index-Listed q s due states b e t =
    write_index-Listed (record q { issued = q.issued + 1 }) s _ b
      (rw (e, t)
        (dedupe-Listed q.host s _ (
          record { session_id = s; next_due_at = due },
          In-append_right _ (filter (λ e. not (e.session_id == s)) (read_index q)) _ (inl refl),
          refl,
        )))
