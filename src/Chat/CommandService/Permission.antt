-- ===== src/Chat/CommandService/Permission.antt =====
-- The permission checks of src/chat/policy/command-service.ts.
use openboa.Prelude.{String, Bool, some, Option, List, head?}
use openboa.Chat.Model.{
  ChatConversationRecord, ChatRoomMembershipRecord, ChatGrantBindingRecord, ChatGrantScopeKind,
  denied, room_missing,
}
use openboa.Chat.Authorization.{
  ChatActionId, room_grant_manage, ConversationPermissionInput, ConversationPermissionDecision,
  ChatPermissionDecision, evaluate_conversation_action, evaluate_chat_action,
}
use openboa.Chat.Ledger.{SharedChatLedger}
use openboa.Chat.Ledger.Conversations.{get_conversation_by_id}
use openboa.Chat.Ledger.Memberships.{list_room_membership_records}
use openboa.Chat.Ledger.Grants.{list_grant_bindings, any_grant}
use openboa.Chat.CommandService.Action.{Action, gets, or_raise, ensure, ◌>>=◌}

unfoldable pub require_conversation : String → Action ChatConversationRecord
require_conversation conversation_id = do
  found ← gets (λ l. get_conversation_by_id l conversation_id l.default_scope)
  or_raise found (room_missing conversation_id)

unfoldable pub get_membership : SharedChatLedger → String → String → Option ChatRoomMembershipRecord
get_membership l conversation_id participant_id =
    head?
      (list_room_membership_records l l.default_scope (some conversation_id) (some participant_id))

unfoldable pub get_bindings_for_subject : SharedChatLedger → String → List ChatGrantBindingRecord
get_bindings_for_subject l subject_id =
    list_grant_bindings l l.default_scope (record any_grant { subject_id = some subject_id })

-- What a permission in a room goes by, at one state of the ledger.
abbrev pub permission_input :
    SharedChatLedger → String → ChatConversationRecord → ChatActionId → ConversationPermissionInput
permission_input l actor_id room action = record {
  room = room;
  actor_id = actor_id;
  bindings = get_bindings_for_subject l actor_id;
  membership = get_membership l room.conversation_id actor_id;
  action = action;
}

unfoldable pub evaluate_conversation_permission :
    SharedChatLedger
    → String
    → ChatConversationRecord
    → ChatActionId
    → ConversationPermissionDecision
evaluate_conversation_permission l actor_id room action =
    evaluate_conversation_action (permission_input l actor_id room action)

unfoldable pub assert_conversation_action :
    String → ChatConversationRecord → ChatActionId → Action (Unit {0})
assert_conversation_action actor_id room action = do
  decision ← gets (λ l. evaluate_conversation_permission l actor_id room action)
  ensure decision.allowed (denied decision.reason)

-- The decision of `assertChatAction`.
unfoldable pub evaluate_chat_permission : SharedChatLedger → String → ChatPermissionDecision
evaluate_chat_permission l actor_id = evaluate_chat_action (
    list_grant_bindings l l.default_scope
      (record any_grant { subject_id = some actor_id; scope_kind = some ChatGrantScopeKind.chat }))

unfoldable pub assert_chat_action : String → Action (Unit {0})
assert_chat_action actor_id = do
  decision ← gets (λ l. evaluate_chat_permission l actor_id)
  ensure decision.allowed (denied decision.reason)

unfoldable pub has_manager_authority : SharedChatLedger → String → ChatConversationRecord → Bool
has_manager_authority l subject_id room =
    (evaluate_conversation_permission l subject_id room room_grant_manage).allowed
