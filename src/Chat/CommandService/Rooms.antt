-- ===== src/Chat/CommandService/Rooms.antt =====
-- The rooms of src/chat/policy/command-service.ts: participants, channels and direct rooms, joining,
-- leaving and removing, settings and archive.
use openboa.Prelude.{
  String, ◌⧺◌, Bool, true, false, not, ◌&&◌, ◌||◌, Option, none, some, List, [], ◌∷◌, ◌++◌, map,
  filter, any, all, length, if◌then◌else◌, ltb, nat_eq, ◌==◌, opt_eq, truthy, trim, trim_or_null,
  includes, or_default, or_else, join_by,
}
use openboa.Prelude.JsMap.{values}
use openboa.Chat.Model.{
  ChatConversationRecord, ChatConversationInput, ChatConversationVisibility,
  ChatConversationPostingPolicy, ChatConversationLifecycleState, channel, dm, group_dm, is_public,
  is_private, restricted, unrestricted, ChatParticipantRef, ChatParticipantKind,
  ChatParticipantRecord, ParticipantCapability, chat_participant, ChatRoleId, conversation,
  ChatError, room_renamed, room_topic_changed, room_posting_policy_changed, room_archived,
  participant_added, participant_left, registration_requires_id, slug_required, title_required,
  slug_taken, two_participants_required, system_participant_refused, cannot_leave_as_last_manager,
  cannot_remove_last_manager,
}
use openboa.Chat.Authorization.{
  room_join, room_leave, room_membership_manage, room_settings_update, room_archive, is_archived,
}
use openboa.Chat.Ledger.{SharedChatLedger, latest_by}
use openboa.Chat.Ledger.Conversations.{find_conversation_by_slug}
use openboa.Chat.Ledger.Memberships.{list_joined_participant_ids}
use openboa.Chat.Ledger.Participants.{get_participant_record, unique_capabilities}
use openboa.Chat.Service.{unique_trimmed}
use openboa.Chat.CommandService.Action.{
  Action, pure, gets, ensure, done, now_iso_string, ledger_ensure_conversation,
  ledger_update_conversation, ledger_upsert_participant, ◌>>=◌, ◌>>◌,
}
use openboa.Chat.CommandService.Permission.{
  require_conversation, assert_conversation_action, has_manager_authority,
}
use openboa.Chat.CommandService.Grants.{
  ensure_grant_binding, revoke_conversation_roles, post_conversation_system_message, post_if,
}

abbrev capability_eq : ParticipantCapability → ParticipantCapability → Bool
capability_eq chat_participant chat_participant = true

-- The record is there, with this name and these capabilities.
abbrev pub same_participant :
    Option ChatParticipantRecord → String → List ParticipantCapability → Bool
same_participant none name capabilities = false
same_participant (some p) name capabilities =
    opt_eq p.display_name (some name)
    && nat_eq (length p.capabilities) (length capabilities)
    && all (λ c. any (capability_eq c) capabilities) p.capabilities

abbrev pub existing_or :
    Bool
    → Option ChatParticipantRecord
    → Action ChatParticipantRecord
    → Action ChatParticipantRecord
existing_or true (some p) write = pure p
existing_or _ existing write = write

unfoldable pub upsert_participant_named :
    String → String → Option (List ParticipantCapability) → Action ChatParticipantRecord
upsert_participant_named id name asked = do
  let capabilities = unique_capabilities (or_default asked (chat_participant ∷ []))
  existing ← gets (λ l. get_participant_record l id l.default_scope)
  existing_or (same_participant existing name capabilities) existing (do
    at ← now_iso_string
    ledger_upsert_participant (record {
      scope_id = none;
      participant_id = id;
      display_name = some name;
      capabilities = some capabilities;
      created_at = none;
      updated_at = at;
    }))

unfoldable pub register_participant :
    String → Option String → Option (List ParticipantCapability) → Action ChatParticipantRecord
register_participant participant_id display_name capabilities = do
  let id = trim participant_id
  ensure (truthy id) registration_requires_id
  upsert_participant_named id (or_default display_name id) capabilities

pub record CreateChannelInput : Type 0 where
  pub slug : String
  pub title : String
  pub created_by_id : String
  pub visibility : Option ChatConversationVisibility
  pub posting_policy : Option ChatConversationPostingPolicy
  pub topic : Option String

unfoldable pub grant_in_room : String → ChatRoleId → String → String → Action (Unit {0})
grant_in_room subject_id role conversation_id at = do
  binding ← ensure_grant_binding (record {
    subject_id = subject_id;
    role_id = role;
    scope_kind = conversation;
    conversation_id = some conversation_id;
    updated_at = at;
  })
  done

abbrev is_found : Option ChatConversationRecord → Bool
is_found none = false
is_found (some room) = true

unfoldable pub create_channel : CreateChannelInput → Action ChatConversationRecord
create_channel input = do
  let slug = trim input.slug
  let title = trim input.title
  ensure (truthy slug) slug_required
  ensure (truthy title) title_required
  existing ← gets (λ l. find_conversation_by_slug l slug l.default_scope)
  ensure (not (is_found existing)) (slug_taken slug)
  at ← now_iso_string
  room ← ledger_ensure_conversation (record {
    scope_id = none;
    kind = channel;
    slug = some slug;
    title = title;
    topic = input.topic;
    visibility = input.visibility;
    posting_policy = input.posting_policy;
    lifecycle_state = none;
    participant_ids = some (input.created_by_id ∷ []);
    predecessor_conversation_id = none;
    lineage_root_conversation_id = none;
    history_mode = none;
    created_at = none;
    updated_at = at;
  })
  grant_in_room input.created_by_id ChatRoleId.room_manager room.conversation_id at
  pure room

-- `uniqueParticipants`
unfoldable pub unique_participants : List ChatParticipantRef → List ChatParticipantRef
unique_participants ps = values (latest_by (λ p. p.id) (filter (λ p. truthy (trim p.id)) ps))

abbrev is_system : ChatParticipantKind → Bool
is_system ChatParticipantKind.system = true
is_system ChatParticipantKind.participant = false

unfoldable pub grant_participants : List ChatParticipantRef → String → String → Action (Unit {0})
grant_participants [] conversation_id at = done
grant_participants (p ∷ ps) conversation_id at = do
  grant_in_room p.id ChatRoleId.participant conversation_id at
  grant_in_room p.id ChatRoleId.room_manager conversation_id at
  grant_participants ps conversation_id at

unfoldable pub ensure_direct_conversation :
    List ChatParticipantRef → Option String → Action ChatConversationRecord
unfolding grant_participants
ensure_direct_conversation asked title = do
  let participants = unique_participants asked
  ensure (not (ltb (length participants) 2)) two_participants_required
  ensure (not (any (λ p. is_system p.kind) participants)) system_participant_refused
  let ids = map (λ p. p.id) participants
  at ← now_iso_string
  room ← ledger_ensure_conversation (record {
    scope_id = none;
    kind = if nat_eq (length participants) 2 then dm else group_dm;
    slug = none;
    title = or_default (trim_or_null title) (join_by ", " ids);
    topic = none;
    visibility = some is_private;
    posting_policy = some unrestricted;
    lifecycle_state = none;
    participant_ids = some ids;
    predecessor_conversation_id = none;
    lineage_root_conversation_id = none;
    history_mode = none;
    created_at = none;
    updated_at = at;
  })
  grant_participants participants room.conversation_id at
  pure room

-- What `updateConversation` is passed: the room as it is.
abbrev pub unchanged : ChatConversationRecord → String → ChatConversationInput
unchanged room at = record {
  scope_id = none;
  kind = room.kind;
  slug = room.slug;
  title = room.title;
  topic = room.topic;
  visibility = some room.visibility;
  posting_policy = some room.posting_policy;
  lifecycle_state = some room.lifecycle_state;
  participant_ids = some room.participant_ids;
  predecessor_conversation_id = room.predecessor_conversation_id;
  lineage_root_conversation_id = some room.lineage_root_conversation_id;
  history_mode = some room.history_mode;
  created_at = none;
  updated_at = at;
}

unfoldable pub enter_room : ChatConversationRecord → String → Action ChatConversationRecord
enter_room room participant_id = do
  at ← now_iso_string
  updated ← ledger_update_conversation room.conversation_id (record (unchanged room at) {
    participant_ids = some (unique_trimmed (room.participant_ids ++ participant_id ∷ []));
  })
  grant_in_room participant_id ChatRoleId.participant room.conversation_id at
  message ←
      post_conversation_system_message room.conversation_id (participant_id ⧺ " joined the room.")
        participant_added
  pure updated

unfoldable pub join_conversation : String → String → Action ChatConversationRecord
join_conversation conversation_id participant_id = do
  room ← require_conversation conversation_id
  assert_conversation_action participant_id room room_join
  if includes participant_id room.participant_ids then pure room else enter_room room participant_id

unfoldable pub list_joined_manager_ids :
    SharedChatLedger → ChatConversationRecord → String → List String
list_joined_manager_ids l room excluding =
    filter (λ p. not (p == excluding) && has_manager_authority l p room)
      (list_joined_participant_ids l room.conversation_id l.default_scope)

abbrev pub without : String → List String → List String
without participant_id ids = filter (λ p. not (p == participant_id)) ids

-- The room would go on without any manager.
unfoldable pub is_last_manager : SharedChatLedger → ChatConversationRecord → String → Bool
is_last_manager l room participant_id =
    includes participant_id (list_joined_participant_ids l room.conversation_id l.default_scope)
    && ltb 0 (length (without participant_id room.participant_ids))
    && nat_eq (length (list_joined_manager_ids l room participant_id)) 0
    && has_manager_authority l participant_id room

unfoldable pub remove_participant_from_conversation :
    ChatConversationRecord → String → ChatError → Action ChatConversationRecord
remove_participant_from_conversation room participant_id last_manager_error = do
  is_last ← gets (λ l. is_last_manager l room participant_id)
  ensure (not is_last) last_manager_error
  at ← now_iso_string
  updated ← ledger_update_conversation room.conversation_id (record (unchanged room at) {
    participant_ids = some (without participant_id room.participant_ids);
  })
  revoke_conversation_roles room.conversation_id participant_id
      (ChatRoleId.participant ∷ ChatRoleId.room_manager ∷ [])
  pure updated

unfoldable pub leave_conversation : String → String → Action ChatConversationRecord
leave_conversation conversation_id participant_id = do
  room ← require_conversation conversation_id
  assert_conversation_action participant_id room room_leave
  updated ← remove_participant_from_conversation room participant_id cannot_leave_as_last_manager
  message ←
      post_conversation_system_message room.conversation_id (participant_id ⧺ " left the room.")
        participant_left
  pure updated

unfoldable pub put_out : ChatConversationRecord → String → Action ChatConversationRecord
put_out room participant_id = do
  updated ← remove_participant_from_conversation room participant_id cannot_remove_last_manager
  message ←
      post_conversation_system_message room.conversation_id
        (participant_id ⧺ " was removed from the room.") participant_left
  pure updated

unfoldable pub remove_conversation_participant :
    String → String → String → Action ChatConversationRecord
unfolding put_out
remove_conversation_participant conversation_id actor_id participant_id = do
  room ← require_conversation conversation_id
  assert_conversation_action actor_id room room_membership_manage
  if includes participant_id room.participant_ids then put_out room participant_id else pure room

abbrev visibility_eq : ChatConversationVisibility → ChatConversationVisibility → Bool
visibility_eq is_public is_public = true
visibility_eq is_private is_private = true
visibility_eq _ _ = false

abbrev posting_policy_eq : ChatConversationPostingPolicy → ChatConversationPostingPolicy → Bool
posting_policy_eq unrestricted unrestricted = true
posting_policy_eq restricted restricted = true
posting_policy_eq _ _ = false

abbrev posting_policy_name : ChatConversationPostingPolicy → String
posting_policy_name unrestricted = "open"
posting_policy_name restricted = "restricted"

abbrev topic_text : Option String → String
topic_text none = "Room topic cleared."
topic_text (some t) = "Room topic set to \"" ⧺ t ⧺ "\"."

pub record UpdateConversationSettingsInput : Type 0 where
  pub conversation_id : String
  pub updated_by_id : String
  pub title : Option String
  pub topic : Option String
  pub visibility : Option ChatConversationVisibility
  pub posting_policy : Option ChatConversationPostingPolicy

-- The settings that a call leaves.
abbrev pub next_settings :
    ChatConversationRecord → UpdateConversationSettingsInput → String → ChatConversationInput
next_settings room input at = record (unchanged room at) {
  title = or_default (trim_or_null input.title) room.title;
  topic = or_else input.topic room.topic;
  visibility = some (or_default input.visibility room.visibility);
  posting_policy = some (or_default input.posting_policy room.posting_policy);
}

unfoldable pub change_settings :
    ChatConversationRecord → UpdateConversationSettingsInput → Action ChatConversationRecord
change_settings room input = do
  let title_changed = not (or_default (trim_or_null input.title) room.title == room.title)
  let topic_changed = not (opt_eq (or_else input.topic room.topic) room.topic)
  let policy_changed =
      not (
        posting_policy_eq (or_default input.posting_policy room.posting_policy) room.posting_policy)
  let visibility_changed =
      not (visibility_eq (or_default input.visibility room.visibility) room.visibility)
  if title_changed || topic_changed || policy_changed || visibility_changed
      then (do
        at ← now_iso_string
        updated ← ledger_update_conversation room.conversation_id (next_settings room input at)
        post_if title_changed room.conversation_id ("Room renamed to \"" ⧺ updated.title ⧺ "\".")
            room_renamed
        post_if topic_changed room.conversation_id (topic_text updated.topic) room_topic_changed
        post_if policy_changed room.conversation_id
            ("Room posting policy changed to " ⧺ posting_policy_name updated.posting_policy ⧺ ".")
            room_posting_policy_changed
        pure updated)
      else pure room

unfoldable pub update_conversation_settings :
    UpdateConversationSettingsInput → Action ChatConversationRecord
update_conversation_settings input = do
  room ← require_conversation input.conversation_id
  assert_conversation_action input.updated_by_id room room_settings_update
  change_settings room input

unfoldable pub close_room : ChatConversationRecord → Action ChatConversationRecord
close_room room = do
  at ← now_iso_string
  closed ← ledger_update_conversation room.conversation_id (record (unchanged room at) {
    lifecycle_state = some ChatConversationLifecycleState.archived;
  })
  message ← post_conversation_system_message room.conversation_id "Room archived." room_archived
  pure closed

unfoldable pub archive_conversation : String → String → Action ChatConversationRecord
unfolding close_room
archive_conversation conversation_id archived_by = do
  room ← require_conversation conversation_id
  assert_conversation_action archived_by room room_archive
  if is_archived room.lifecycle_state then pure room else close_room room
