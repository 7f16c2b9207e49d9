-- ===== src/Chat/Ledger/Order.antt =====
-- The order of the ledger: each write takes the next sequence number of its scope.
use openboa.Prelude.{
  ℕ, ◌+◌, Bool, ◌≤◌, ◌<◌, String, ◌≡◌, refl, sym, ap, ◌∙◌, true, false, List, [], ◌∷◌, ◌++◌,
  filter-append, arith, if◌then◌else◌, leb, le→leb, ◌==◌, eq_iff, All, All-append, Bool-cases, ◌⊎◌,
  inl, inr, append-nil,
}
use openboa.Prelude.Sorting.{IsSorted, sort_by-of_IsSorted}
use openboa.Chat.Model.{ChatLedgerEvent, message_posted, message_edited, message_redacted}
use openboa.Chat.Ledger.{
  StoredRecord, foreign, stored, legacy, unscoped, SharedChatLedger, scope_of, sequence_of,
  admitted, scoped_events, list_events, last_sequence, next_sequence, append_event, make_id,
}

-- The sequences rise along the list, from above a bound.
abbrev pub Above : ℕ → List ChatLedgerEvent → Type 0
Above n [] = Unit {0}
Above n (e ∷ es) = (n < sequence_of e) × Above (sequence_of e) es

-- A message, an edit and a redaction carry their own sequence as the revision that they make.
abbrev pub Stamped : ChatLedgerEvent → Type 0
Stamped (message_posted m) = m.revision ≡ m.sequence
Stamped (message_edited e) = e.scope_revision ≡ e.sequence
Stamped (message_redacted e) = e.scope_revision ≡ e.sequence
Stamped _ = Unit {0}

-- In every scope the events stand in the file in the order of their sequences, with no number twice,
-- and their revisions are their sequences.
pub record IsOrdered (l : SharedChatLedger) : Type 0 where
  pub rising : (scope : String) → Above 0 (scoped_events l scope)
  pub stamped : (scope : String) → All Stamped (scoped_events l scope)

Above-IsSorted :
    (n : ℕ) (es : List ChatLedgerEvent)
    → Above n es
    → IsSorted (λ a b. leb (sequence_of a) (sequence_of b)) es
Above-IsSorted n [] h = tt
Above-IsSorted n (e ∷ []) h = tt
Above-IsSorted n (e ∷ f ∷ es) h =
    (le→leb _ _ (omega arith), Above-IsSorted (sequence_of e) (f ∷ es) h.1)

-- Reading an ordered ledger sorts nothing: the events come as the file has them.
pub list_events-of_IsOrdered :
    {l : SharedChatLedger} (scope : String)
    → IsOrdered l
    → list_events l scope ≡ scoped_events l scope
unfolding list_events
list_events-of_IsOrdered scope h = sort_by-of_IsSorted _ _ (Above-IsSorted 0 _ (h.rising scope))

admitted-append :
    (rs : List StoredRecord) (e : ChatLedgerEvent)
    → admitted (rs ++ stored e ∷ []) ≡ admitted rs ++ e ∷ []
unfolding admitted
admitted-append [] e = refl
admitted-append (foreign ∷ rs) e = admitted-append rs e
admitted-append (stored f ∷ rs) e = rw (admitted-append rs e)
admitted-append (legacy s f ∷ rs) e = rw (admitted-append rs e)
admitted-append (unscoped f ∷ rs) e = admitted-append rs e

-- A write shows at the end of its own scope, and in no other.
pub scoped_events-append_event :
    (l : SharedChatLedger) (taken : ℕ) (e : ChatLedgerEvent) (scope : String)
    → scoped_events (append_event l taken e) scope
      ≡ scoped_events l scope ++ (if scope_of e == scope then e ∷ [] else [])
unfolding scoped_events append_event
scoped_events-append_event l taken e scope =
    rw (admitted-append l.file e) (filter-append _ (admitted l.file) (e ∷ []))

head-le-last :
    (n : ℕ) (e : ChatLedgerEvent) (es : List ChatLedgerEvent)
    → Above n (e ∷ es)
    → sequence_of e ≤ last_sequence (e ∷ es)
unfolding last_sequence
head-le-last n e [] h = omega arith
head-le-last n e (f ∷ es) h = let r = head-le-last (sequence_of e) f es h.1 in omega arith

-- No sequence of a rising list is above its last one.
pub Above-le-last :
    (n : ℕ) (es : List ChatLedgerEvent)
    → Above n es
    → All (λ e. sequence_of e ≤ last_sequence es) es
unfolding last_sequence
Above-le-last n [] h = tt
Above-le-last n (e ∷ []) h = (omega arith, tt)
Above-le-last n (e ∷ f ∷ es) h =
    (head-le-last n e (f ∷ es) h, Above-le-last (sequence_of e) (f ∷ es) h.1)

Above-append :
    (n : ℕ) (es : List ChatLedgerEvent) (e : ChatLedgerEvent)
    → Above n es
    → n < sequence_of e
    → last_sequence es < sequence_of e
    → Above n (es ++ e ∷ [])
unfolding last_sequence
Above-append n [] e h k m = (k, tt)
Above-append n (f ∷ []) e h k m = (h.0, (m, tt))
Above-append n (f ∷ g ∷ es) e h k m =
    let first = head-le-last (sequence_of f) g es h.1 in
    (h.0, Above-append (sequence_of f) (g ∷ es) e h.1 (omega arith) m)

pub append_event-IsOrdered :
    (l : SharedChatLedger) (taken : ℕ) (e : ChatLedgerEvent) (scope : String)
    → scope_of e ≡ scope
    → sequence_of e ≡ next_sequence l scope
    → Stamped e
    → IsOrdered l
    → IsOrdered (append_event l taken e)
append_event-IsOrdered l taken e scope s q st h = record {
  stamped = λ other.
      rw (scoped_events-append_event l taken e other)
        (All-append Stamped _ _ (h.stamped other) (own_stamp (scope_of e == other)));
  rising = λ other.
      rw (scoped_events-append_event l taken e other)
        (own_or_other other (Bool-cases (scope_of e == other)));
}
  where
    fits : last_sequence (scoped_events l scope) < sequence_of e
    fits =
        unfold next_sequence in
        omega (arith, q, ap last_sequence (list_events-of_IsOrdered scope h))

    own_stamp : (b : Bool) → All Stamped (if b then e ∷ [] else [])
    own_stamp true = (st, tt)
    own_stamp false = tt

    own_or_other :
        (other : String)
        → (scope_of e == other) ≡ true ⊎ (scope_of e == other) ≡ false
        → Above 0 (scoped_events l other ++ (if scope_of e == other then e ∷ [] else []))
    own_or_other other (inl t) =
        let same : scope ≡ other = sym s ∙ (eq_iff _ _).0 t in
        rw (t, ← same) (Above-append 0 _ e (h.rising scope) (omega (arith, fits)) fits)
    own_or_other other (inr t) = rw (t, append-nil) (h.rising other)

-- A message that is posted stands under the next identifier, and the write takes it.
abbrev pub TakesId : SharedChatLedger → ℕ → ChatLedgerEvent → Type 0
TakesId l taken (message_posted m) = (m.message_id ≡ make_id l "msg" 0) × (0 < taken)
TakesId l taken _ = Unit {0}

-- The ledger after an identifier is taken for no event.
abbrev pub skip_id : SharedChatLedger → SharedChatLedger
skip_id l = record l { issued = l.issued + 1 }

-- `l'` is `l` after writes in a scope, each with the next sequence number of that scope, and after
-- identifiers that are taken for no event.
pub data Appends (scope : String) (l : SharedChatLedger) : SharedChatLedger → Type 0 where
  same : Appends scope l l
  write :
      {m : SharedChatLedger} (taken : ℕ) (e : ChatLedgerEvent)
      → Appends scope l m
      → scope_of e ≡ scope
      → sequence_of e ≡ next_sequence m scope
      → Stamped e
      → TakesId m taken e
      → Appends scope l (append_event m taken e)
  skip : {m : SharedChatLedger} → Appends scope l m → Appends scope l (skip_id m)

pub Appends-trans :
    {scope : String} {k l m : SharedChatLedger}
    → Appends scope k l
    → Appends scope l m
    → Appends scope k m
Appends-trans p same = p
Appends-trans p (write taken e q s n st t) = write taken e (Appends-trans p q) s n st t
Appends-trans p (skip q) = skip (Appends-trans p q)

skip_id-IsOrdered : (l : SharedChatLedger) → IsOrdered l → IsOrdered (skip_id l)
unfolding scoped_events
skip_id-IsOrdered l h = record {
  rising = λ scope. h.rising scope;
  stamped = λ scope. h.stamped scope;
}

pub Appends-IsOrdered :
    {scope : String} {l m : SharedChatLedger} → Appends scope l m → IsOrdered l → IsOrdered m
Appends-IsOrdered same h = h
Appends-IsOrdered {scope} (write {m = k} taken e p s n st t) h =
    append_event-IsOrdered k taken e scope s n st (Appends-IsOrdered p h)
Appends-IsOrdered (skip {m = k} p) h = skip_id-IsOrdered k (Appends-IsOrdered p h)
