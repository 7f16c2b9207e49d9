-- ===== src/Chat/Ledger/Posting/Lines.antt =====
-- Where a posted message shows: in its own line of its conversation, and in no other line.
use openboa.Prelude.{
  String, ◌≡◌, refl, ap, ◌∙◌, subst, Bool, true, false, Option, none, some, List, [], ◌∷◌, ◌++◌, In,
  In-filter, In-append_right, inl, inr, arith, filter, filter-append, append-nil, ◌==◌, eq_refl,
  truthy, opt_eq, ◌⊎◌, Bool-cases, eq_iff,
}
use openboa.Prelude.Sorting.{In-sort_by}
use openboa.Chat.Model.{ChatMessage, ChatMessageInput, ok}
use openboa.Chat.Ledger.{SharedChatLedger, scope_or_default}
use openboa.Chat.Ledger.Order.{IsOrdered}
use openboa.Chat.Ledger.Messages.{list_messages}
use openboa.Chat.Ledger.Threads.{is_none, in_thread, main_line, thread_of, list_scope_messages}
use openboa.Chat.Ledger.Threads.Laws.{NamesLine, in_line, line_messages, list_scope_messages_parts}
use openboa.Chat.Ledger.Posting.Revision.{
  IsFresh, Written, list_messages-Written, list_messages-Written_elsewhere, Written-thread,
}
use openboa.Chat.Ledger.Posting.Idempotency.{matches_self, validate_thread_scope-grown}

module _ {l : SharedChatLedger} {i : ChatMessageInput} {m : ChatMessage} {l' : SharedChatLedger}
    (w : Written l i m l') (h : IsOrdered l)
    (fresh : IsFresh l (scope_or_default l i.scope_id)) where
  abbrev pub line_scope : String
  line_scope = scope_or_default l i.scope_id

  posted-In :
      (p : ChatMessage → Bool)
      → p m ≡ true
      → In m (filter p (list_messages l line_scope (some i.conversation_id) ++ m ∷ []))
  posted-In p t =
      In-filter p m _
        (In-append_right m (list_messages l line_scope (some i.conversation_id)) (m ∷ [])
          (inl refl))
        t

  -- The new message is listed in its line.
  pub list_scope_messages-Written :
      NamesLine i.thread_id
      → (sms : List ChatMessage) × (list_scope_messages l' line_scope i.conversation_id i.thread_id
          ≡ ok sms)
        × In m sms
  unfolding list_scope_messages main_line thread_of
  list_scope_messages-Written line = listed i.thread_id refl line
    where
      all :
          list_messages l' line_scope (some i.conversation_id)
          ≡ list_messages l line_scope (some i.conversation_id) ++ m ∷ []
      all =
          list_messages-Written w (some i.conversation_id) h fresh (matches_self i.conversation_id)

      listed :
          (t : Option String)
          → i.thread_id ≡ t
          → NamesLine t
          → (sms : List ChatMessage) × (list_scope_messages l' line_scope i.conversation_id t
              ≡ ok sms)
            × In m sms
      listed none q b = (
        main_line (list_messages l line_scope (some i.conversation_id) ++ m ∷ []),
        rw all refl,
        In-sort_by _ m _ (posted-In (λ x. is_none x.thread_id) (rw (Written-thread w, q) refl)),
      )
      listed (some t) q b =
          let (root, v, p) = list_scope_messages_parts l line_scope i.conversation_id t b (
            subst (λ x. list_scope_messages l line_scope i.conversation_id x ≡ ok w.scope_messages)
              q w.listed) in
          (
            root
                ∷ line_messages (some t)
                    (list_messages l line_scope (some i.conversation_id) ++ m ∷ []),
            rw
                (
                  b,
                  validate_thread_scope-grown l l' line_scope i.conversation_id (some t) (m ∷ [])
                      (list_messages-Written w none h fresh refl) v,
                  all,
                )
                refl,
            inr (
                In-sort_by _ m _
                  (posted-In (in_thread (some t)) (rw (Written-thread w, q) (eq_refl t)))),
          )

  not_in_line : (t : Option String) → opt_eq i.thread_id t ≡ false → in_line t m ≡ false
  not_in_line none e = ground (arith, Written-thread w)
  not_in_line (some t) e = rw (Written-thread w) e

  line_messages-Written_elsewhere :
      (t : Option String)
      → opt_eq i.thread_id t ≡ false
      → line_messages t (list_messages l line_scope (some i.conversation_id) ++ m ∷ [])
        ≡ line_messages t (list_messages l line_scope (some i.conversation_id))
  line_messages-Written_elsewhere t e =
      rw
        (
          filter-append (in_line t) (list_messages l line_scope (some i.conversation_id)) (m ∷ []),
          not_in_line t e,
          append-nil,
        )
        refl

  -- The lines of another conversation, and the other lines of this one, list what they listed.
  list_scope-elsewhere :
      (c : String) (t : Option String) {sms : List ChatMessage}
      → NamesLine t
      → line_messages t (list_messages l' line_scope (some c))
        ≡ line_messages t (list_messages l line_scope (some c))
      → list_scope_messages l line_scope c t ≡ ok sms
      → list_scope_messages l' line_scope c t ≡ ok sms
  unfolding list_scope_messages main_line thread_of
  list_scope-elsewhere c none b e q = ap ok e ∙ q
  list_scope-elsewhere c (some t) b e q =
      let (root, v, p) = list_scope_messages_parts l line_scope c t b q in
      rw
        (
          b,
          validate_thread_scope-grown l l' line_scope c (some t) (m ∷ [])
              (list_messages-Written w none h fresh refl) v,
          p,
        )
        (ap (λ x. ok (root ∷ x)) e)

  pub list_scope_messages-Written_elsewhere :
      (c : String) (t : Option String) {sms : List ChatMessage}
      → truthy c ≡ true
      → NamesLine t
      → ((i.conversation_id == c) ≡ false) ⊎ (opt_eq i.thread_id t ≡ false)
      → list_scope_messages l line_scope c t ≡ ok sms
      → list_scope_messages l' line_scope c t ≡ ok sms
  list_scope_messages-Written_elsewhere c t k b other q =
      elim (Bool-cases (i.conversation_id == c)) [
        | inr d ↦
            list_scope-elsewhere c t b
              (rw (list_messages-Written_elsewhere w (some c) h (rw k d)) refl) q
        | inl d ↦
            list_scope-elsewhere c t b (same_conversation ((eq_iff _ _).0 d) (other_thread d other))
              q
      ]
    where
      other_thread :
          (i.conversation_id == c) ≡ true
          → ((i.conversation_id == c) ≡ false) ⊎ (opt_eq i.thread_id t ≡ false)
          → opt_eq i.thread_id t ≡ false
      other_thread d (inl e) = cc
      other_thread d (inr e) = e

      same_conversation :
          i.conversation_id ≡ c
          → opt_eq i.thread_id t ≡ false
          → line_messages t (list_messages l' line_scope (some c))
            ≡ line_messages t (list_messages l line_scope (some c))
      same_conversation d e =
          rw
            (
              ← d,
              list_messages-Written w (some i.conversation_id) h fresh
                  (matches_self i.conversation_id),
            )
            (line_messages-Written_elsewhere t e)
