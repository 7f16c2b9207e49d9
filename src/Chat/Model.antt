-- ===== src/Chat/Model.antt =====
-- src/chat/core/model.ts: the records of the chat ledger. Optional and nullable fields are options.
-- An `eventType` literal is the constructor of `ChatLedgerEvent`.
mod Kinds
mod Outcome
pub mod Shape
pub use Kinds.*
pub use Outcome.*
use openboa.Prelude.{ℕ, String, Bool, Option, List}

pub record ChatParticipantRef : Type 0 where
  pub kind : ChatParticipantKind
  pub id : String
  pub display_name : Option String

pub record ChatConversationRecord : Type 0 where
  pub scope_id : String
  pub event_id : String
  pub sequence : ℕ
  pub conversation_id : String
  pub kind : ChatRoomKind
  pub section : ChatConversationSection
  pub slug : Option String
  pub title : String
  pub topic : Option String
  pub visibility : ChatConversationVisibility
  pub posting_policy : ChatConversationPostingPolicy
  pub lifecycle_state : ChatConversationLifecycleState
  pub participant_ids : List String
  pub predecessor_conversation_id : Option String
  pub lineage_root_conversation_id : String
  pub history_mode : ChatConversationHistoryMode
  pub created_at : String
  pub updated_at : String

pub record ChatRoomMembershipRecord : Type 0 where
  pub scope_id : String
  pub event_id : String
  pub sequence : ℕ
  pub conversation_id : String
  pub participant_id : String
  pub membership_state : ChatRoomMembershipState
  pub created_at : String
  pub updated_at : String

pub record ChatRoomMembershipInput : Type 0 where
  pub scope_id : Option String
  pub conversation_id : String
  pub participant_id : String
  pub membership_state : Option ChatRoomMembershipState
  pub created_at : Option String
  pub updated_at : String

pub record ChatGrantBindingRecord : Type 0 where
  pub scope_id : String
  pub event_id : String
  pub sequence : ℕ
  pub binding_id : String
  pub subject_id : String
  pub role_id : ChatRoleId
  pub scope_kind : ChatGrantScopeKind
  pub conversation_id : Option String
  pub binding_state : ChatGrantBindingState
  pub created_at : String
  pub updated_at : String

pub record ChatGrantBindingInput : Type 0 where
  pub scope_id : Option String
  pub binding_id : Option String
  pub subject_id : String
  pub role_id : ChatRoleId
  pub scope_kind : ChatGrantScopeKind
  pub conversation_id : Option String
  pub binding_state : Option ChatGrantBindingState
  pub created_at : Option String
  pub updated_at : String

pub record ChatCursorRecord : Type 0 where
  pub scope_id : String
  pub event_id : String
  pub sequence : ℕ
  pub participant_id : String
  pub conversation_id : String
  pub thread_id : Option String
  pub last_observed_sequence : ℕ
  pub last_observed_scope_sequence : ℕ
  pub last_observed_scope_revision : ℕ
  pub last_contributed_sequence : Option ℕ
  pub created_at : String
  pub updated_at : String

pub record ChatCursorInput : Type 0 where
  pub scope_id : Option String
  pub participant_id : String
  pub conversation_id : String
  pub thread_id : Option String
  pub last_observed_sequence : ℕ
  pub last_observed_scope_sequence : Option ℕ
  pub last_observed_scope_revision : ℕ
  pub last_contributed_sequence : Option ℕ
  pub created_at : Option String
  pub updated_at : String

pub record ChatConversationAttachmentRecord : Type 0 where
  pub scope_id : String
  pub event_id : String
  pub sequence : ℕ
  pub conversation_id : String
  pub thread_id : Option String
  pub participant_id : String
  pub attached : Bool
  pub created_at : String
  pub updated_at : String

pub record ChatConversationAttachmentInput : Type 0 where
  pub scope_id : Option String
  pub conversation_id : String
  pub thread_id : Option String
  pub participant_id : String
  pub attached : Option Bool
  pub created_at : Option String
  pub updated_at : String

pub record ChatConversationInput : Type 0 where
  pub scope_id : Option String
  pub kind : ChatRoomKind
  pub slug : Option String
  pub title : String
  pub topic : Option String
  pub visibility : Option ChatConversationVisibility
  pub posting_policy : Option ChatConversationPostingPolicy
  pub lifecycle_state : Option ChatConversationLifecycleState
  pub participant_ids : Option (List String)
  pub predecessor_conversation_id : Option String
  pub lineage_root_conversation_id : Option String
  pub history_mode : Option ChatConversationHistoryMode
  pub created_at : Option String
  pub updated_at : String

pub record ChatMessageReaction : Type 0 where
  pub emoji : String
  pub participant_ids : List String
  pub count : ℕ

pub record ChatMessage : Type 0 where
  pub scope_id : String
  pub message_id : String
  pub event_id : String
  pub sequence : ℕ
  pub scope_sequence : ℕ
  pub revision : ℕ
  pub conversation_id : String
  pub room_id : String
  pub thread_id : Option String
  pub session_id : String
  pub author : ChatParticipantRef
  pub audience : Option ChatParticipantRef
  pub content : String
  pub body : String
  pub idempotency_key : Option String
  pub created_at : String
  pub edited_at : Option String
  pub edited_by_id : Option String
  pub redacted_at : Option String
  pub redacted_by_id : Option String
  pub mentioned_ids : List String
  pub reactions : List ChatMessageReaction
  pub related_message_id : Option String
  pub message_kind : ChatMessageKind
  pub system_event_kind : Option ChatSystemEventKind

pub record ChatMessageInput : Type 0 where
  pub scope_id : Option String
  pub conversation_id : String
  pub thread_id : Option String
  pub session_id : String
  pub idempotency_key : Option String
  pub author : ChatParticipantRef
  pub audience : Option ChatParticipantRef
  pub body : String
  pub created_at : String
  pub mentioned_ids : Option (List String)
  pub related_message_id : Option String
  pub message_kind : Option ChatMessageKind
  pub system_event_kind : Option ChatSystemEventKind

pub record ChatParticipantRecord : Type 0 where
  pub scope_id : String
  pub event_id : String
  pub sequence : ℕ
  pub participant_id : String
  pub display_name : Option String
  pub capabilities : List ParticipantCapability
  pub created_at : String
  pub updated_at : String

pub record ChatParticipantUpsertInput : Type 0 where
  pub scope_id : Option String
  pub participant_id : String
  pub display_name : Option String
  pub capabilities : Option (List ParticipantCapability)
  pub created_at : Option String
  pub updated_at : String

pub record ChatMessageReactionRecord : Type 0 where
  pub scope_id : String
  pub event_id : String
  pub sequence : ℕ
  pub message_id : String
  pub emoji : String
  pub participant : ChatParticipantRef
  pub active : Bool
  pub created_at : String

pub record ChatMessageEditRecord : Type 0 where
  pub scope_id : String
  pub event_id : String
  pub sequence : ℕ
  pub scope_revision : ℕ
  pub message_id : String
  pub editor : ChatParticipantRef
  pub body : String
  pub content : String
  pub mentioned_ids : List String
  pub created_at : String

pub record ChatMessageRedactionRecord : Type 0 where
  pub scope_id : String
  pub event_id : String
  pub sequence : ℕ
  pub scope_revision : ℕ
  pub message_id : String
  pub redactor : ChatParticipantRef
  pub created_at : String

pub data ChatLedgerEvent : Type 0 where
  conversation_upserted : ChatConversationRecord → ChatLedgerEvent
  membership_upserted : ChatRoomMembershipRecord → ChatLedgerEvent
  grant_binding_upserted : ChatGrantBindingRecord → ChatLedgerEvent
  cursor_updated : ChatCursorRecord → ChatLedgerEvent
  attachment_upserted : ChatConversationAttachmentRecord → ChatLedgerEvent
  message_posted : ChatMessage → ChatLedgerEvent
  participant_upserted : ChatParticipantRecord → ChatLedgerEvent
  reaction_set : ChatMessageReactionRecord → ChatLedgerEvent
  message_edited : ChatMessageEditRecord → ChatLedgerEvent
  message_redacted : ChatMessageRedactionRecord → ChatLedgerEvent

abbrev pub redacted_message_body : String
redacted_message_body = "[message redacted]"
