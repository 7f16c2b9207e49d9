-- ===== src/Chat/Tests/Policy.antt =====
-- Decisions of src/chat/policy/authorization.ts on test data.
use openboa.Prelude.{
  ◌≡◌, ◌↔◌, refl, ◌∙◌, none, some, true, [], ◌∷◌, In, Included, inr, ◌&&◌, filter,
}
use openboa.Chat.Model.{
  ChatConversationRecord, channel, channels, is_public, unrestricted,
  ChatConversationLifecycleState, native, ChatRoleId, role_eq, scope_kind_eq,
  ChatGrantBindingRecord, ChatGrantBindingState, chat, ChatRoomMembershipRecord,
  ChatRoomMembershipState,
}
use openboa.Chat.Authorization.{
  ConversationPermissionInput, evaluate_conversation_action, evaluate_chat_action, role_allows,
  message_create, is_active_binding,
}
use openboa.Chat.Authorization.Access.{permits, evaluate_conversation_action-eq-permits}
use openboa.Chat.Authorization.Grants.{
  evaluate_conversation_action_mono, evaluate_conversation_action-relevant,
  evaluate_chat_action_iff, is_relevant,
}

abbrev pub hall : ChatConversationRecord
hall = record {
  scope_id = "s";
  event_id = "e1";
  sequence = 1;
  conversation_id = "h";
  kind = channel;
  section = channels;
  slug = some "hall";
  title = "hall";
  topic = none;
  visibility = is_public;
  posting_policy = unrestricted;
  lifecycle_state = ChatConversationLifecycleState.active;
  participant_ids = "a" ∷ [];
  predecessor_conversation_id = none;
  lineage_root_conversation_id = "h";
  history_mode = native;
  created_at = "t0";
  updated_at = "t0";
}

abbrev pub member : ChatGrantBindingRecord
member = record {
  scope_id = "s";
  event_id = "e2";
  sequence = 2;
  binding_id = "g";
  subject_id = "a";
  role_id = ChatRoleId.participant;
  scope_kind = chat;
  conversation_id = none;
  binding_state = ChatGrantBindingState.active;
  created_at = "t1";
  updated_at = "t1";
}

abbrev withdrawn : ChatGrantBindingRecord
withdrawn = record member { binding_id = "w"; binding_state = ChatGrantBindingState.revoked }

abbrev admin : ChatGrantBindingRecord
admin = record member { binding_id = "x"; role_id = ChatRoleId.chat_admin }

abbrev pub joined_hall : ChatRoomMembershipRecord
joined_hall = record {
  scope_id = "s";
  event_id = "e3";
  sequence = 3;
  conversation_id = "h";
  participant_id = "a";
  membership_state = ChatRoomMembershipState.joined;
  created_at = "t1";
  updated_at = "t1";
}

abbrev asks_to_post : ConversationPermissionInput
asks_to_post = record {
  room = hall;
  actor_id = "a";
  bindings = member ∷ [];
  membership = some joined_hall;
  action = message_create;
}

evaluate_conversation_action-eq-permits_example :
    (evaluate_conversation_action asks_to_post).allowed ≡ permits asks_to_post
evaluate_conversation_action-eq-permits_example =
    evaluate_conversation_action-eq-permits asks_to_post

allowed_to_post : permits asks_to_post ≡ true
unfolding role_allows
allowed_to_post = refl

may_post : (evaluate_conversation_action asks_to_post).allowed ≡ true
may_post = evaluate_conversation_action-eq-permits asks_to_post ∙ allowed_to_post

more_grants : Included (member ∷ []) (withdrawn ∷ member ∷ [])
more_grants x m = inr m

evaluate_conversation_action_mono_example :
    (evaluate_conversation_action
      (record asks_to_post { bindings = withdrawn ∷ member ∷ [] })).allowed
    ≡ true
evaluate_conversation_action_mono_example =
    evaluate_conversation_action_mono asks_to_post (withdrawn ∷ member ∷ []) more_grants may_post

abbrev mixed : ConversationPermissionInput
mixed = record asks_to_post { bindings = withdrawn ∷ member ∷ [] }

evaluate_conversation_action-relevant_example :
    evaluate_conversation_action
      (record mixed { bindings = filter (is_relevant "h") mixed.bindings })
    ≡ evaluate_conversation_action mixed
evaluate_conversation_action-relevant_example = evaluate_conversation_action-relevant mixed

evaluate_chat_action_iff_example : ((evaluate_chat_action (member ∷ admin ∷ [])).allowed ≡ true) ↔ (
    (b : ChatGrantBindingRecord) × In b (member ∷ admin ∷ [])
    × ((is_active_binding b
          && scope_kind_eq b.scope_kind chat
          && role_eq b.role_id ChatRoleId.chat_admin)
        ≡ true))
evaluate_chat_action_iff_example = evaluate_chat_action_iff (member ∷ admin ∷ [])
