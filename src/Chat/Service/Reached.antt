-- ===== src/Chat/Service/Reached.antt =====
-- Contributions of src/chat/core/conversation-service.ts in the ledgers that the writing calls of
-- src/chat/core/ledger.ts reach from an empty file.
use openboa.Prelude.{String, ◌≡◌, List, [], ◌⊎◌}
use openboa.Chat.Model.{ok}
use openboa.Chat.Ledger.{SharedChatLedger, Host, scoped_events, admitted}
use openboa.Chat.Ledger.Order.{IsOrdered}
use openboa.Chat.Ledger.Fresh.{IssuesOnce, run_commands-IsUnused, IsFresh-of_IsUnused}
use openboa.Chat.Ledger.Posting.Revision.{IsFresh}
use openboa.Chat.Ledger.Commands.{Command, run_commands, run_commands-IsOrdered}
use openboa.Chat.Ledger.Threads.Laws.{NamesLine}
use openboa.Chat.Service.{ContributionAttempt, ContributionResult, contribute_to_conversation}
use openboa.Chat.Service.Conflicts.{contribute_to_conversation-no_lost_update}

module _ (host : Host) (name : String) (cs : List Command) where
  -- The ledger after the calls, from an empty file.
  abbrev pub reached : SharedChatLedger
  reached = run_commands (record { default_scope = name; file = []; host = host; issued = 0 }) cs

  pub reached-IsOrdered : IsOrdered reached
  unfolding scoped_events admitted
  reached-IsOrdered = run_commands-IsOrdered _ cs (record { rising = λ s. tt; stamped = λ s. tt })

  pub reached-IsFresh : IssuesOnce host → (scope : String) → IsFresh reached scope
  unfolding scoped_events admitted
  reached-IsFresh once scope =
      IsFresh-of_IsUnused scope reached-IsOrdered (run_commands-IsUnused _ cs once (λ s n. tt))

-- In every ledger that writing calls reach from an empty file, with a host that issues each identifier
-- once: of two contributions to the same line that are based on the same revision, one after the other,
-- at most one writes. The thread identifier is not the empty text.
pub contribute_to_conversation-reached :
    (host : Host) (name : String) (cs : List Command) (scope_id : String)
    (a b : ContributionAttempt) {ra rb : ContributionResult} {l1 l2 : SharedChatLedger}
    → IssuesOnce host
    → NamesLine a.scope.thread_id
    → b.scope ≡ a.scope
    → b.based_on_revision ≡ a.based_on_revision
    → contribute_to_conversation scope_id (reached host name cs) a ≡ ok (ra, l1)
    → contribute_to_conversation scope_id l1 b ≡ ok (rb, l2)
    → (l1 ≡ reached host name cs) ⊎ (l2 ≡ l1)
contribute_to_conversation-reached host name cs scope_id a b once line s r p q =
    contribute_to_conversation-no_lost_update scope_id (reached host name cs)
      (reached-IsOrdered host name cs) (reached-IsFresh host name cs once scope_id) a b line s r p q
