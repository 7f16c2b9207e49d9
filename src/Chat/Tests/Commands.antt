-- ===== src/Chat/Tests/Commands.antt =====
-- A run of writing calls of src/chat/core/ledger.ts on the test ledger.
use Prim.Native.Char.{code}
use openboa.Prelude.{nat_eq, Bool, false, String, zero, suc, ◌≡◌, refl, ap, none, List, [], ◌∷◌}
use openboa.Chat.Ledger.{scoped_events, admitted}
use openboa.Chat.Ledger.Fresh.{IssuesOnce, IsUnused, run_commands-IsUnused}
use openboa.Chat.Ledger.Order.{IsOrdered, Appends}
use openboa.Chat.Ledger.Commands.{
  Command, posts, edits, redacts, run_command, run_commands, run_command-Appends,
  run_commands-IsOrdered,
}
use openboa.Chat.Tests.{test_host, empty_ledger, hello, hello_again, alice}

abbrev calls : List Command
calls =
    posts hello
    ∷ posts hello_again
    ∷ edits (record {
      scope_id = none;
      message_id = "msg-u";
      editor = alice;
      body = "bye";
      created_at = "t1";
    })
    ∷ redacts
        (record { scope_id = none; message_id = "missing"; redactor = alice; created_at = "t2" })
    ∷ []

pub empty_ledger-IsOrdered : IsOrdered empty_ledger
unfolding scoped_events admitted
empty_ledger-IsOrdered = record { rising = λ s. tt; stamped = λ s. tt }

run_commands-IsOrdered_example : IsOrdered (run_commands empty_ledger calls)
run_commands-IsOrdered_example = run_commands-IsOrdered empty_ledger calls empty_ledger-IsOrdered

run_command-Appends_example : Appends "s" empty_ledger (run_command empty_ledger (posts hello))
run_command-Appends_example = run_command-Appends empty_ledger (posts hello)

abbrev starts_with_u : String → Bool
starts_with_u String.[] = false
starts_with_u (String.◌∷◌ c s) = nat_eq (code c) 117

abbrev tail : String → String
tail String.[] = ""
tail (String.◌∷◌ c s) = s

pub test_host-IssuesOnce : IssuesOnce test_host
test_host-IssuesOnce zero zero h = refl
test_host-IssuesOnce zero (suc b) h = let e : starts_with_u "u" ≡ false = ap starts_with_u h in cc
test_host-IssuesOnce (suc a) zero h = let e : false ≡ starts_with_u "u" = ap starts_with_u h in cc
test_host-IssuesOnce (suc a) (suc b) h = ap suc (test_host-IssuesOnce a b (ap tail h))

empty_ledger-IsUnused : IsUnused empty_ledger
unfolding scoped_events admitted
empty_ledger-IsUnused scope n = tt

run_commands-IsUnused_example : IsUnused (run_commands empty_ledger calls)
run_commands-IsUnused_example =
    run_commands-IsUnused empty_ledger calls test_host-IssuesOnce empty_ledger-IsUnused
