-- ===== src/Chat/Ledger/Posting/Mentions.antt =====
-- `mentionIdsFromBody` of src/chat/core/ledger.ts: the matches of /@([a-zA-Z0-9._-]+)/ in a text.
use Prim.Native.Char.{code}
use openboa.Prelude.{
  ℕ, String, ◌⧺◌, ◌≡◌, refl, Bool, ◌&&◌, ◌||◌, Option, none, some, List, [], ◌∷◌, if◌then◌else◌,
  leb, nat_eq, truthy,
}

is_mention_char : ℕ → Bool
is_mention_char c =
    (leb b'a' c && leb c b'z')
    || (leb b'A' c && leb c b'Z')
    || (leb b'0' c && leb c b'9')
    || nat_eq c b'.'
    || nat_eq c b'_'
    || nat_eq c b'-'

-- A match that ends: it counts if it has a character behind the `@`.
abbrev close : Option String → List String → List String
close none rest = rest
close (some name) rest = if truthy name then name ∷ rest else rest

-- The state is the name read since the last `@`, if a match is open.
scan : Option String → String → List String
unfolding is_mention_char
scan name String.[] = close name []
scan name (String.◌∷◌ c s) =
    let opened = scan (some "") s in
    let ended = scan none s in
    let longer = scan (elim name [ none ↦ none | some n ↦ some (n ⧺ String.◌∷◌ c String.[]) ]) s in
    if nat_eq (code c) b'@'
    then close name opened
    else if is_mention_char (code c)
    then longer
    else close name ended

unfoldable pub mention_ids_from_body : String → List String
unfolding scan
mention_ids_from_body body = scan none body

two_mentions :
    mention_ids_from_body "hi @ann.b, @@bob-2 and @ ende@x" ≡ "ann.b" ∷ "bob-2" ∷ "x" ∷ []
unfolding mention_ids_from_body
two_mentions = refl
