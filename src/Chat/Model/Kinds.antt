-- ===== src/Chat/Model/Kinds.antt =====
-- The literal types of src/chat/core/model.ts, their equality, and the defaults that go by them.
use openboa.Prelude.{String, Bool, true, false, Option, if◌then◌else◌, is_truthy}

pub data ChatParticipantKind : Type 0 where
  participant system : ChatParticipantKind

pub data ChatRoomKind : Type 0 where
  channel dm group_dm : ChatRoomKind

pub data ChatConversationSection : Type 0 where
  channels dms : ChatConversationSection

pub data ChatConversationVisibility : Type 0 where
  is_public is_private : ChatConversationVisibility

pub data ChatConversationPostingPolicy : Type 0 where
  unrestricted restricted : ChatConversationPostingPolicy

pub data ChatConversationLifecycleState : Type 0 where
  active archived : ChatConversationLifecycleState

pub data ChatConversationHistoryMode : Type 0 where
  native inherit_full : ChatConversationHistoryMode

pub data ChatRoleId : Type 0 where
  viewer participant room_manager chat_admin : ChatRoleId

pub data ChatRoomMembershipState : Type 0 where
  joined left : ChatRoomMembershipState

pub data ChatGrantScopeKind : Type 0 where
  chat conversation : ChatGrantScopeKind

pub data ChatGrantBindingState : Type 0 where
  active revoked : ChatGrantBindingState

pub data ChatMessageKind : Type 0 where
  participant_message system_event : ChatMessageKind

pub data ParticipantCapability : Type 0 where
  chat_participant : ParticipantCapability

pub data ChatSystemEventKind : Type 0 where
  participant_added participant_left room_grant_added room_grant_revoked : ChatSystemEventKind
  room_renamed room_topic_changed room_posting_policy_changed room_archived : ChatSystemEventKind

-- Equality of the enumerations, `===`.
abbrev pub room_kind_eq : ChatRoomKind → ChatRoomKind → Bool
room_kind_eq channel channel = true
room_kind_eq dm dm = true
room_kind_eq group_dm group_dm = true
room_kind_eq _ _ = false

abbrev pub role_eq : ChatRoleId → ChatRoleId → Bool
role_eq ChatRoleId.viewer ChatRoleId.viewer = true
role_eq ChatRoleId.participant ChatRoleId.participant = true
role_eq ChatRoleId.room_manager ChatRoleId.room_manager = true
role_eq ChatRoleId.chat_admin ChatRoleId.chat_admin = true
role_eq _ _ = false

abbrev pub scope_kind_eq : ChatGrantScopeKind → ChatGrantScopeKind → Bool
scope_kind_eq chat chat = true
scope_kind_eq conversation conversation = true
scope_kind_eq _ _ = false

abbrev pub history_mode_eq : ChatConversationHistoryMode → ChatConversationHistoryMode → Bool
history_mode_eq native native = true
history_mode_eq inherit_full inherit_full = true
history_mode_eq _ _ = false

abbrev pub is_joined_state : ChatRoomMembershipState → Bool
is_joined_state joined = true
is_joined_state left = false

abbrev pub is_direct_conversation_kind : ChatRoomKind → Bool
is_direct_conversation_kind channel = false
is_direct_conversation_kind dm = true
is_direct_conversation_kind group_dm = true

abbrev pub chat_conversation_section : ChatRoomKind → ChatConversationSection
chat_conversation_section channel = channels
chat_conversation_section _ = dms

abbrev pub default_conversation_visibility : ChatRoomKind → ChatConversationVisibility
default_conversation_visibility channel = is_public
default_conversation_visibility _ = is_private

abbrev pub default_conversation_history_mode : Option String → ChatConversationHistoryMode
default_conversation_history_mode p = if is_truthy p then inherit_full else native
