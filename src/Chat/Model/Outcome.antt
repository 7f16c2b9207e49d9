-- ===== src/Chat/Model/Outcome.antt =====
-- The errors that src/chat/core throws, as values.
use openboa.Prelude.{String, ◌≡◌, refl, ap, Bool, true, false}

-- What a call throws; a message that names an id carries it.
pub data ChatError : Type 0 where
  channel_requires_slug direct_room_has_slug dm_requires_two group_dm_requires_three : ChatError
  inherited_history_requires_predecessor : ChatError
  system_event_requires_kind participant_message_has_event_kind participant_id_required : ChatError
  conversation_not_found message_not_found grant_binding_not_found : String → ChatError
  room_kind_immutable direct_participants_immutable direct_lineage_immutable : ChatError
  conversation_grant_requires_id grant_identity_immutable : ChatError
  only_direct_rooms_inherit inherit_requires_full_history : ChatError
  predecessor_not_found : String → ChatError
  inherits_from_itself predecessor_not_direct lineage_requires_superset : ChatError
  lineage_root_mismatch thread_root_missing thread_nested : ChatError
  -- of src/chat/policy/command-service.ts, where a refusal carries the decision's reason
  denied : String → ChatError
  room_missing binding_missing slug_taken message_missing message_gone : String → ChatError
  registration_requires_id slug_required title_required two_participants_required : ChatError
  system_participant_refused admin_bootstrapped ref_required binding_elsewhere : ChatError
  cannot_leave_as_last_manager cannot_remove_last_manager emoji_required body_required : ChatError
  redacted_not_mutated redacted_not_edited only_participant_edited only_participant_redacted :
      ChatError
  only_author_edits only_author_or_manager_redacts mass_mention_in_thread : ChatError
  audience_not_participant audience_not_visible thread_scope_without_root : ChatError

pub data Result {ℓ} (Value : Type ℓ) : Type ℓ where
  err : ChatError → Result Value
  ok : Value → Result Value

-- `await` on a call that may throw.
infixl 5 ◌>>=◌ ◌>>◌
abbrev pub ◌>>=◌ {ℓ κ} :
    {A : Type ℓ} {B : Type κ} (call : Result A) (next : A → Result B) → Result B
err thrown >>= next = err thrown
ok value >>= next = next value

abbrev pub ◌>>◌ {ℓ} : {B : Type ℓ} (check : Result (Unit {0})) (next : Result B) → Result B
check >> next = check >>= λ _. next

-- A chain that succeeds has succeeded at each of its steps.
pub ok-of_bind {ℓ κ} :
    {A : Type ℓ} {B : Type κ} (m : Result A) (f : A → Result B) (b : B)
    → (m >>= f) ≡ ok b
    → (a : A) × (m ≡ ok a) × (f a ≡ ok b)
ok-of_bind (ok a) f b h = (a, refl, h)
ok-of_bind (err e) f b h = cc

ok_or {ℓ} : {A : Type ℓ} → A → Result A → A
ok_or a (ok b) = b
ok_or a (err e) = a

pub ok-injective {ℓ} : {A : Type ℓ} (a b : A) → ok a ≡ ok b → a ≡ b
unfolding ok_or
ok-injective a b h = ap (ok_or a) h

pub ok-injective_pair {ℓ κ} :
    {A : Type ℓ} {B : Type κ} (p q : A × B) → ok p ≡ ok q → (p.0 ≡ q.0) × (p.1 ≡ q.1)
unfolding ok_or
ok-injective_pair p q h = (ap (λ t. (ok_or p t).0) h, ap (λ t. (ok_or p t).1) h)

-- `if (!b) throw e`
abbrev pub require : Bool → ChatError → Result (Unit {0})
require true e = ok tt
require false e = err e
