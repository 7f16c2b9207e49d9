-- ===== src/Chat/Model/Shape/Laws.antt =====
-- Which conversations the shape check accepts.
use openboa.Prelude.{String, ◌≤◌, ◌≡◌, true, false, Option, some, List, length, is_truthy}
use openboa.Chat.Model.{
  ChatRoomKind, channel, dm, group_dm, ChatConversationHistoryMode, inherit_full,
}

-- The rooms of each kind: channels have a slug, direct rooms have none and have as many distinct
-- members as their kind asks for.
abbrev pub FitsKind : ChatRoomKind → Option String → List String → Type 0
FitsKind channel slug ids = is_truthy slug ≡ true
FitsKind dm slug ids = (is_truthy slug ≡ false) × (length ids ≡ 2)
FitsKind group_dm slug ids = (is_truthy slug ≡ false) × (3 ≤ length ids)

-- Who asks for the whole history names a predecessor; who says nothing of the history asks for none.
abbrev pub InheritsFrom : Option String → Option ChatConversationHistoryMode → Type 0
InheritsFrom predecessor mode = mode ≡ some inherit_full → is_truthy predecessor ≡ true
