-- ===== src/Chat/Ledger/Messages.antt =====
-- `listMessages` of src/chat/core/ledger.ts: the messages as the events of the ledger leave them.
pub mod Laws
pub mod Redaction
pub mod Lookup
use openboa.Prelude.{
  ℕ, String, ◌⧺◌, Bool, true, false, Option, none, some, List, [], ◌∷◌, map, filter, find, length,
  max, if◌then◌else◌, leb, ◌==◌, is_truthy, or_default,
}
use openboa.Prelude.JsMap.{JsMap, get, set, delete, values}
use openboa.Prelude.Sorting.{sort_by}
use openboa.Chat.Model.{
  ChatLedgerEvent, conversation_upserted, message_posted, reaction_set, message_edited,
  message_redacted, ChatMessage, ChatMessageReaction, ChatMessageEditRecord,
  ChatMessageRedactionRecord, ChatMessageReactionRecord, ChatParticipantRef, ChatParticipantKind,
  redacted_message_body,
}
use openboa.Chat.Ledger.{SharedChatLedger, list_events, unique, matches}

participant_kind_name : ChatParticipantKind → String
participant_kind_name ChatParticipantKind.participant = "participant"
participant_kind_name ChatParticipantKind.system = "system"

unfoldable pub reaction_participant_key : ChatParticipantRef → String
unfolding participant_kind_name
reaction_participant_key p = participant_kind_name p.kind ⧺ ":" ⧺ p.id

-- The participants of each emoji.
abbrev pub EmojiReactions : Type 0
EmojiReactions = JsMap (JsMap ChatParticipantRef)

pub record ReplayState : Type 0 where
  pub messages : JsMap ChatMessage
  pub reaction_state : JsMap EmojiReactions

abbrev pub empty_replay : ReplayState
empty_replay = record { messages = []; reaction_state = [] }

unfoldable pub edited_message : ChatMessage → ChatMessageEditRecord → ChatMessage
edited_message m e = record m {
  body = e.body;
  content = e.content;
  mentioned_ids = unique e.mentioned_ids;
  edited_at = some e.created_at;
  edited_by_id = some e.editor.id;
  revision = max m.revision e.scope_revision;
}

unfoldable pub redacted_message : ChatMessage → ChatMessageRedactionRecord → ChatMessage
redacted_message m e = record m {
  body = redacted_message_body;
  content = redacted_message_body;
  mentioned_ids = [];
  reactions = [];
  redacted_at = some e.created_at;
  redacted_by_id = some e.redactor.id;
  revision = max m.revision e.scope_revision;
}

-- The participants of an emoji after a reaction is set or withdrawn.
unfoldable pub react :
    JsMap ChatParticipantRef → ChatMessageReactionRecord → JsMap ChatParticipantRef
react participants e =
    let key = reaction_participant_key e.participant in
    if e.active then set key e.participant participants else delete key participants

abbrev pub keep_non_empty {ℓ} : {V : Type ℓ} → String → JsMap V → JsMap (JsMap V) → JsMap (JsMap V)
keep_non_empty k [] m = delete k m
keep_non_empty k (v ∷ vs) m = set k (v ∷ vs) m

unfoldable pub react_emoji : EmojiReactions → ChatMessageReactionRecord → EmojiReactions
unfolding react
react_emoji emojis e = keep_non_empty e.emoji (react (or_default (get e.emoji emojis) []) e) emojis

unfoldable pub shown_reactions : EmojiReactions → List ChatMessageReaction
shown_reactions [] = []
shown_reactions ((emoji, participants) ∷ rest) =
    record {
      emoji = emoji;
      participant_ids = map (λ p. p.id) (values participants);
      count = length participants;
    }
    ∷ shown_reactions rest

-- The effect of an edit, a redaction or a reaction on the state in which its message is known.
unfoldable pub edit_known : ReplayState → ChatMessageEditRecord → ChatMessage → ReplayState
edit_known st e m =
    if is_truthy m.redacted_at
    then st
    else record st { messages = set e.message_id (edited_message m e) st.messages }

unfoldable pub redact_known : ReplayState → ChatMessageRedactionRecord → ChatMessage → ReplayState
redact_known st e m = record {
  messages = set e.message_id (redacted_message m e) st.messages;
  reaction_state = delete e.message_id st.reaction_state;
}

unfoldable pub react_known : ReplayState → ChatMessageReactionRecord → ChatMessage → ReplayState
unfolding react_emoji shown_reactions
react_known st e m =
    let emojis = react_emoji (or_default (get e.message_id st.reaction_state) []) e in
    if is_truthy m.redacted_at then st else record {
      messages = set e.message_id (record m { reactions = shown_reactions emojis }) st.messages;
      reaction_state = keep_non_empty e.message_id emojis st.reaction_state;
    }

-- `if (!existing) continue`
abbrev pub with_known : Option ChatMessage → ReplayState → (ChatMessage → ReplayState) → ReplayState
with_known none st change = st
with_known (some m) st change = change m

-- One round of the loop.
unfoldable pub replay_event : Option String → ReplayState → ChatLedgerEvent → ReplayState
unfolding edit_known redact_known react_known
replay_event conversation_id st (message_posted m) =
    if matches conversation_id m.conversation_id
    then record st { messages = set m.message_id m st.messages }
    else st
replay_event conversation_id st (message_edited e) =
    with_known (get e.message_id st.messages) st (edit_known st e)
replay_event conversation_id st (message_redacted e) =
    with_known (get e.message_id st.messages) st (redact_known st e)
replay_event conversation_id st (reaction_set e) =
    with_known (get e.message_id st.messages) st (react_known st e)
replay_event conversation_id st _ = st

unfoldable pub replay_events : Option String → ReplayState → List ChatLedgerEvent → ReplayState
replay_events conversation_id st [] = st
replay_events conversation_id st (e ∷ es) =
    replay_events conversation_id (replay_event conversation_id st e) es

unfoldable pub list_messages : SharedChatLedger → String → Option String → List ChatMessage
list_messages l scope conversation_id =
    sort_by (λ a b. leb a.sequence b.sequence)
      (values (replay_events conversation_id empty_replay (list_events l scope)).messages)

unfoldable pub find_message_by_id : SharedChatLedger → String → String → Option ChatMessage
find_message_by_id l message_id scope =
    find (λ m. m.message_id == message_id) (list_messages l scope none)
