-- ===== src/Chat/Ledger/Fresh.antt =====
-- The identifiers of src/chat/core/ledger.ts: what the host has not issued yet names no message.
use openboa.Prelude.{
  ℕ, ◌+◌, ◌<◌, String, ◌≡◌, refl, sym, subst, Bool, true, false, List, [], ◌∷◌, All, All-append,
  if◌then◌else◌, ◌==◌, eq_iff, Bool-cases, inl, inr, arith,
}
use text.Mathlib.TextLemmas.{append_cancel_left}
use native.Mathlib.Nat.{add_assoc}
use openboa.Chat.Model.{
  ChatLedgerEvent, conversation_upserted, membership_upserted, grant_binding_upserted,
  cursor_updated, attachment_upserted, message_posted, participant_upserted, reaction_set,
  message_edited, message_redacted,
}
use openboa.Chat.Ledger.{SharedChatLedger, Host, scope_of, scoped_events, append_event, make_id}
use openboa.Chat.Ledger.Order.{
  IsOrdered, TakesId, Appends, same, write, skip, skip_id, scoped_events-append_event,
  list_events-of_IsOrdered,
}
use openboa.Chat.Ledger.Messages.Laws.{NotPosted}
use openboa.Chat.Ledger.Posting.Revision.{IsFresh}
use openboa.Chat.Ledger.Commands.{Command, run_command, run_commands, run_command-Appends}

-- The host returns each identifier once, as `uuidv7` does.
abbrev pub IssuesOnce : Host → Type 0
IssuesOnce h = (a b : ℕ) → h.uuid a ≡ h.uuid b → a ≡ b

-- No message stands under an identifier that is still to come.
abbrev pub IsUnused : SharedChatLedger → Type 0
IsUnused l = (scope : String) (n : ℕ) → All (NotPosted (make_id l "msg" n)) (scoped_events l scope)

make_id-append_event :
    (l : SharedChatLedger) (taken n : ℕ) (e : ChatLedgerEvent)
    → make_id (append_event l taken e) "msg" n ≡ make_id l "msg" (taken + n)
unfolding make_id append_event
make_id-append_event l taken n e = rw (add_assoc l.issued taken n) refl

make_id-differs :
    (l : SharedChatLedger) (k : ℕ)
    → IssuesOnce l.host
    → 0 < k
    → (make_id l "msg" 0 == make_id l "msg" k) ≡ false
unfolding make_id
make_id-differs l k once pos = elim (Bool-cases (make_id l "msg" 0 == make_id l "msg" k)) [
  | inr t ↦ t
  | inl t ↦
      let uuids = append_cancel_left "-" _ _ (append_cancel_left "msg" _ _ ((eq_iff _ _).0 t)) in
      let places = once (l.issued + 0) (l.issued + k) uuids in absurd (clash places)
]
  where
    clash : l.issued + 0 ≡ l.issued + k → ⊥
    clash q = omega (arith, q, pos)

NotPosted-new :
    (l : SharedChatLedger) (taken n : ℕ) (e : ChatLedgerEvent)
    → IssuesOnce l.host
    → TakesId l taken e
    → NotPosted (make_id l "msg" (taken + n)) e
NotPosted-new l taken n (message_posted m) once (q, pos) =
    rw q (make_id-differs l (taken + n) once (omega (arith, pos)))
NotPosted-new l taken n (conversation_upserted r) once t = tt
NotPosted-new l taken n (membership_upserted r) once t = tt
NotPosted-new l taken n (grant_binding_upserted r) once t = tt
NotPosted-new l taken n (cursor_updated r) once t = tt
NotPosted-new l taken n (attachment_upserted r) once t = tt
NotPosted-new l taken n (participant_upserted r) once t = tt
NotPosted-new l taken n (reaction_set r) once t = tt
NotPosted-new l taken n (message_edited r) once t = tt
NotPosted-new l taken n (message_redacted r) once t = tt

append_event-IsUnused :
    (l : SharedChatLedger) (taken : ℕ) (e : ChatLedgerEvent)
    → IssuesOnce l.host
    → TakesId l taken e
    → IsUnused l
    → IsUnused (append_event l taken e)
append_event-IsUnused l taken e once t h scope n =
    rw (make_id-append_event l taken n e, scoped_events-append_event l taken e scope)
      (All-append (NotPosted (make_id l "msg" (taken + n))) _ _ (h scope (taken + n))
        (own (scope_of e == scope)))
  where
    own : (b : Bool) → All (NotPosted (make_id l "msg" (taken + n))) (if b then e ∷ [] else [])
    own true = (NotPosted-new l taken n e once t, tt)
    own false = tt

pub Appends-host : {scope : String} {l m : SharedChatLedger} → Appends scope l m → m.host ≡ l.host
unfolding append_event
Appends-host same = refl
Appends-host (write taken e p s n st t) = Appends-host p
Appends-host (skip p) = Appends-host p

skip_id-IsUnused : (l : SharedChatLedger) → IsUnused l → IsUnused (skip_id l)
unfolding make_id scoped_events
skip_id-IsUnused l h scope n = rw (add_assoc l.issued 1 n) (h scope (1 + n))

pub Appends-IsUnused :
    {scope : String} {l m : SharedChatLedger}
    → Appends scope l m
    → IssuesOnce l.host
    → IsUnused l
    → IsUnused m
Appends-IsUnused same once h = h
Appends-IsUnused (write {m = k} taken e p s n st t) once h =
    append_event-IsUnused k taken e (subst IssuesOnce (sym (Appends-host p)) once) t
      (Appends-IsUnused p once h)
Appends-IsUnused (skip {m = k} p) once h = skip_id-IsUnused k (Appends-IsUnused p once h)

-- Where the host issues each identifier once and no message stands under one that is still to come, no
-- sequence of writing calls, failing or not, brings a message under an identifier that is still to come.
pub run_commands-IsUnused :
    (l : SharedChatLedger) (cs : List Command)
    → IssuesOnce l.host
    → IsUnused l
    → IsUnused (run_commands l cs)
unfolding run_commands
run_commands-IsUnused l [] once h = h
run_commands-IsUnused l (c ∷ cs) once h =
    let p = run_command-Appends l c in
    run_commands-IsUnused (run_command l c) cs (subst IssuesOnce (sym (Appends-host p)) once)
      (Appends-IsUnused p once h)

-- The next identifier is unused in every scope of such a ledger.
pub IsFresh-of_IsUnused :
    {l : SharedChatLedger} (scope : String) → IsOrdered l → IsUnused l → IsFresh l scope
IsFresh-of_IsUnused scope o h = rw (list_events-of_IsOrdered scope o) (h scope 0)
