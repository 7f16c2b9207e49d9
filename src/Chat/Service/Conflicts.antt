-- ===== src/Chat/Service/Conflicts.antt =====
-- Contributions of src/chat/core/conversation-service.ts that meet: two on the same revision, one that
-- is tried again, and two in different lines.
use openboa.Prelude.{
  ℕ, ◌<◌, ◌≤◌, String, ◌≡◌, refl, sym, ap, ◌∙◌, subst, true, false, Option, none, some, List, [],
  ◌∷◌, ◌++◌, All, All-map, In, inl, inr, arith, ◌⊎◌, ◌==◌, truthy, opt_eq, Bool-cases,
}
use openboa.Chat.Model.{ChatMessage, ok, ok-of_bind, ok-injective, ok-injective_pair}
use openboa.Chat.Ledger.{SharedChatLedger}
use openboa.Chat.Ledger.Order.{IsOrdered}
use openboa.Chat.Ledger.Threads.{list_scope_messages}
use openboa.Chat.Ledger.Threads.Laws.{NamesLine, list_scope_messages-All}
use openboa.Chat.Ledger.Posting.{append_message}
use openboa.Chat.Ledger.Posting.Revision.{
  IsFresh, Written, append_message_parts, Written-above, Written-positive,
}
use openboa.Chat.Ledger.Posting.Lines.{
  list_scope_messages-Written, list_scope_messages-Written_elsewhere,
}
use openboa.Chat.Ledger.Conversations.{get_conversation_by_id}
use openboa.Chat.Ledger.Cursors.{list_conversation_attachments}
use openboa.Chat.Service.{
  ConversationScope, ConversationObservation, ContributionAttempt, ContributionResult, accepted,
  stale, latest_scope_revision, observation_of, observe_conversation, contribution_input,
  contributed_before, is_stale, contribute_on, contribute_unless, contribute_to_conversation,
  accept_message, id_of, latest_message, participants_of, unique_trimmed, active_attachment_ids,
}

In-le-latest :
    (m : ChatMessage) (ms : List ChatMessage) → In m ms → m.revision ≤ latest_scope_revision ms
unfolding latest_scope_revision
In-le-latest m [] p = absurd p
In-le-latest m (x ∷ ms) (inl e) = let q = ap (λ t. t.revision) e in omega (arith, q)
In-le-latest m (x ∷ ms) (inr p) = let q = In-le-latest m ms p in omega (arith, q)

latest-lt :
    (n : ℕ) (ms : List ChatMessage)
    → 0 < n
    → All (λ x. x.revision < n) ms
    → latest_scope_revision ms < n
unfolding latest_scope_revision
latest-lt n [] p h = p
latest-lt n (x ∷ ms) p h = let q = latest-lt n ms p h.1 in omega (arith, q, h.0)

-- An observation is made on the listed messages, and its revision is their largest one.
observe_conversation_parts :
    (scope_id : String) (l : SharedChatLedger) (scope : ConversationScope)
    (trigger : Option ChatMessage) {o : ConversationObservation}
    → observe_conversation scope_id l scope trigger ≡ ok o
    → (sms : List ChatMessage) × (list_scope_messages l scope_id scope.conversation_id
          scope.thread_id
        ≡ ok sms)
      × (o.revision ≡ latest_scope_revision sms)
      × (o.latest_message_id ≡ id_of (latest_message scope.thread_id sms))
unfolding observe_conversation observation_of
observe_conversation_parts s l scope trigger {o} h = ground arith

-- Two ledgers that list the same messages for a line agree on what is stale there.
is_stale-same_line :
    (scope_id : String) (l l1 : SharedChatLedger) (b : ContributionAttempt)
    {o : ConversationObservation}
    → ((sms : List ChatMessage)
        → list_scope_messages l scope_id b.scope.conversation_id b.scope.thread_id ≡ ok sms
        → list_scope_messages l1 scope_id b.scope.conversation_id b.scope.thread_id ≡ ok sms)
    → observe_conversation scope_id l b.scope none ≡ ok o
    → (o' : ConversationObservation) × (observe_conversation scope_id l1 b.scope none ≡ ok o')
      × (is_stale b o' ≡ is_stale b o)
unfolding observe_conversation observation_of is_stale
is_stale-same_line s l l1 b {o} keeps before =
    let (sms, listed, r, i) = observe_conversation_parts s l b.scope none before in
    (
      observation_of b.scope none sms
          (participants_of (get_conversation_by_id l1 b.scope.conversation_id s))
          (unique_trimmed (
            active_attachment_ids
              (list_conversation_attachments l1 s (some b.scope.conversation_id) (some none))
            ++ active_attachment_ids (
                list_conversation_attachments l1 s (some b.scope.conversation_id)
                  (some b.scope.thread_id)))),
      rw (keeps sms listed) refl,
      rw (r, i) refl,
    )

-- What a contribution has gone through that came to post.
pub record Contributed (scope_id : String) (l : SharedChatLedger) (a : ContributionAttempt)
    (result : ContributionResult) (l' : SharedChatLedger) : Type 0 where
  pub observation : ConversationObservation
  pub observed : observe_conversation scope_id l a.scope none ≡ ok observation
  pub current : is_stale a observation ≡ false
  pub message : ChatMessage
  pub posted : append_message l (contribution_input scope_id a) ≡ ok (message, l')
  pub answer : result ≡ accepted message.revision message

contribute_on_cases :
    (scope_id : String) (l : SharedChatLedger) (a : ContributionAttempt)
    (o : ConversationObservation) {result : ContributionResult} {l' : SharedChatLedger}
    → observe_conversation scope_id l a.scope none ≡ ok o
    → contribute_on scope_id l a o ≡ ok (result, l')
    → ((result ≡ stale o.revision o.latest_message_id) × (l' ≡ l))
      ⊎ Contributed scope_id l a result l'
unfolding contribute_on
contribute_on_cases s l a o {result} {l'} q h = elim (Bool-cases (is_stale a o)) [
  | inl t ↦ let (p, e) = ok-injective_pair _ (result, l') (rw t at h) in inl (sym p, sym e)
  | inr t ↦
      let ((m, k), p, e) =
        ok-of_bind (append_message l (contribution_input s a)) accept_message (result, l')
          (rw t at h) in
      let (x, y) = ok-injective_pair _ (result, l') e in
      inr (record {
        observation = o;
        observed = q;
        current = t;
        message = m;
        posted = p ∙ ap (λ z. ok (m, z)) y;
        answer = sym x;
      })
]

-- A call answers with an earlier message, says that it is stale, or posts.
pub contribute_parts :
    (scope_id : String) (l : SharedChatLedger) (a : ContributionAttempt)
    {result : ContributionResult} {l' : SharedChatLedger}
    → contribute_to_conversation scope_id l a ≡ ok (result, l')
    → ((x : ChatMessage) × (contributed_before scope_id l a.scope a.idempotency_key ≡ some x)
        × (result ≡ accepted x.revision x)
        × (l' ≡ l))
      ⊎ (((o : ConversationObservation) × (result ≡ stale o.revision o.latest_message_id)
            × (l' ≡ l))
          ⊎ Contributed scope_id l a result l')
unfolding contribute_to_conversation contribute_unless
contribute_parts s l a {result} {l'} h = parts (contributed_before s l a.scope a.idempotency_key) h
  where
    parts :
        (found : Option ChatMessage)
        → contribute_unless s l a found ≡ ok (result, l')
        → ((x : ChatMessage) × (found ≡ some x) × (result ≡ accepted x.revision x) × (l' ≡ l))
          ⊎ (((o : ConversationObservation) × (result ≡ stale o.revision o.latest_message_id)
                × (l' ≡ l))
              ⊎ Contributed s l a result l')
    parts (some x) p =
        let (q, e) = ok-injective_pair _ (result, l') p in inl (x, refl, sym q, sym e)
    parts none p =
        let (o, q, r) =
          ok-of_bind (observe_conversation s l a.scope none) (contribute_on s l a) (result, l') p in
        elim (contribute_on_cases s l a o q r) [
          | inl c ↦ inr (inl (o, c.0, c.1))
          | inr c ↦ inr (inr c)
        ]

contribute_cases :
    (scope_id : String) (l : SharedChatLedger) (a : ContributionAttempt)
    {result : ContributionResult} {l' : SharedChatLedger}
    → contribute_to_conversation scope_id l a ≡ ok (result, l')
    → (l' ≡ l) ⊎ Contributed scope_id l a result l'
contribute_cases s l a h = elim (contribute_parts s l a h) [
  | inl (x, _, _, e) ↦ inl e
  | inr (inl (o, _, e)) ↦ inl e
  | inr (inr c) ↦ inr c
]

-- An attempt that is current names the revision that is observed.
is_stale-revision :
    (a : ContributionAttempt) (o : ConversationObservation)
    → is_stale a o ≡ false
    → o.revision ≡ a.based_on_revision
unfolding is_stale
is_stale-revision a o h = ground arith

module _ (scope_id : String) (l : SharedChatLedger) (h : IsOrdered l)
    (fresh : IsFresh l scope_id) where
  -- After a message is posted, the revision of its line is above the one that was observed.
  revision-rises :
      (a : ContributionAttempt) {m : ChatMessage} {l1 : SharedChatLedger}
      {o o' : ConversationObservation}
      → NamesLine a.scope.thread_id
      → Written l (contribution_input scope_id a) m l1
      → observe_conversation scope_id l a.scope none ≡ ok o
      → observe_conversation scope_id l1 a.scope none ≡ ok o'
      → o.revision < o'.revision
  revision-rises a {m} {l1} {o} {o'} line w before now =
      let (sms, listed, r, _) = observe_conversation_parts scope_id l a.scope none before in
      let (sms', listed', r', _) = observe_conversation_parts scope_id l1 a.scope none now in
      let (ms, shown, at) = list_scope_messages-Written w h fresh line in
      let below =
        list_scope_messages-All (λ x. x.revision < m.revision) l scope_id a.scope.conversation_id
          a.scope.thread_id (All-map _ _ _ (λ x k. k.1) (Written-above w none h))
          (All-map _ _ _ (λ x k. k.1) (Written-above w (some a.scope.conversation_id) h)) listed in
      let low = latest-lt m.revision sms (Written-positive w) below in
      let high = In-le-latest m ms at in
      let same = ap latest_scope_revision (ok-injective _ _ (sym shown ∙ listed')) in
      omega (arith, low, high, same, r, r')

  second_writes_nothing :
      (a b : ContributionAttempt) {ra rb : ContributionResult} {l1 l2 : SharedChatLedger}
      → NamesLine a.scope.thread_id
      → b.scope ≡ a.scope
      → b.based_on_revision ≡ a.based_on_revision
      → Contributed scope_id l a ra l1
      → Contributed scope_id l1 b rb l2
      → l1 ≡ l
  second_writes_nothing a b {l1} line same_scope same_revision ca cb =
      let (_, _, c) = append_message_parts l (contribution_input scope_id a) ca.posted in
      elim c [ inl q ↦ q.1 | inr q ↦ absurd (conflict q.1) ]
    where
      conflict : Written l (contribution_input scope_id a) ca.message l1 → ⊥
      conflict w =
          let now =
            subst (λ s. observe_conversation scope_id l1 s none ≡ ok cb.observation) same_scope
              cb.observed in
          let rises = revision-rises a line w ca.observed now in
          let old = is_stale-revision a ca.observation ca.current in
          let new = is_stale-revision b cb.observation cb.current in
          omega (arith, rises, old, new, same_revision)

  -- Of two contributions to the same line that are based on the same revision, one after the other, at
  -- most one writes: the first left the ledger as it was, or the second does. The ledger is ordered, the
  -- next identifier is unused, and the thread identifier is not the empty text.
  pub contribute_to_conversation-no_lost_update :
      (a b : ContributionAttempt) {ra rb : ContributionResult} {l1 l2 : SharedChatLedger}
      → NamesLine a.scope.thread_id
      → b.scope ≡ a.scope
      → b.based_on_revision ≡ a.based_on_revision
      → contribute_to_conversation scope_id l a ≡ ok (ra, l1)
      → contribute_to_conversation scope_id l1 b ≡ ok (rb, l2)
      → (l1 ≡ l) ⊎ (l2 ≡ l1)
  contribute_to_conversation-no_lost_update a b {l1} line same_scope same_revision pa pb =
      elim (contribute_cases scope_id l a pa) [
        | inl e ↦ inl e
        | inr ca ↦ elim (contribute_cases scope_id l1 b pb) [
          | inl e ↦ inr e
          | inr cb ↦ inl (second_writes_nothing a b line same_scope same_revision ca cb)
        ]
      ]

  -- A contribution to another line leaves an attempt as current, or as stale, as it was: the line of the
  -- attempt can still be observed, and the test gives the same answer. The ledger is ordered, the next
  -- identifier is unused, and neither the conversation nor the thread is named by the empty text.
  pub contribute_to_conversation-elsewhere :
      (a b : ContributionAttempt) {ra : ContributionResult} {l1 : SharedChatLedger}
      {o : ConversationObservation}
      → truthy b.scope.conversation_id ≡ true
      → NamesLine b.scope.thread_id
      → ((a.scope.conversation_id == b.scope.conversation_id) ≡ false)
        ⊎ (opt_eq a.scope.thread_id b.scope.thread_id ≡ false)
      → contribute_to_conversation scope_id l a ≡ ok (ra, l1)
      → observe_conversation scope_id l b.scope none ≡ ok o
      → (o' : ConversationObservation) × (observe_conversation scope_id l1 b.scope none ≡ ok o')
        × (is_stale b o' ≡ is_stale b o)
  contribute_to_conversation-elsewhere a b {l1} named line other p before =
      is_stale-same_line scope_id l l1 b keeps before
    where
      keeps_posted :
          (m : ChatMessage) {sms : List ChatMessage}
          → append_message l (contribution_input scope_id a) ≡ ok (m, l1)
          → list_scope_messages l scope_id b.scope.conversation_id b.scope.thread_id ≡ ok sms
          → list_scope_messages l1 scope_id b.scope.conversation_id b.scope.thread_id ≡ ok sms
      keeps_posted m posted q =
          let (_, _, c) = append_message_parts l (contribution_input scope_id a) posted in
          elim c [
            | inl e ↦ rw (e.1) q
            | inr w ↦
                list_scope_messages-Written_elsewhere w.1 h fresh b.scope.conversation_id
                  b.scope.thread_id named line other q
          ]

      keeps :
          (sms : List ChatMessage)
          → list_scope_messages l scope_id b.scope.conversation_id b.scope.thread_id ≡ ok sms
          → list_scope_messages l1 scope_id b.scope.conversation_id b.scope.thread_id ≡ ok sms
      keeps sms q = elim (contribute_cases scope_id l a p) [
        | inl e ↦ rw e q
        | inr c ↦ keeps_posted c.message c.posted q
      ]
