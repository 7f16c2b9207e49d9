-- ===== src/Prelude/Text.antt =====
-- The string functions of the source's language: `trim`, `||`, concatenation and the two orders.
pub mod Trim
use Prim.Native.Nat.{ℕ, ◌+◌, ◌-◌, ◌/◌, ◌%◌}
use Prim.Native.Char.{code}
use Prim.Native.String.{String, ◌++◌}
use mathlib.Core.Bool.{Bool, true, false, not, ◌&&◌, ◌||◌}
use mathlib.Core.List.{List, [], ◌∷◌, ◌++◌ as ◌++ᴸ◌}
use mathlib.Core.Option.{Option, none, some}
use text.Mathlib.Text.{◌==◌}
use text.Mathlib.TextEquality.{eq_iff}
use text.Mathlib.TextPositions.{eq_refl}
use mathlib.Core.Path.{◌≡◌, refl, ap}
use openboa.Prelude.Tests.{ltb, leb, nat_eq, if◌then◌else◌}
use openboa.Prelude.Lists.{any, dedupe_by}

infixr 66 ◌⧺◌
-- `${a}${b}`
abbrev pub ◌⧺◌ : String → String → String
a ⧺ b = a ++ b

-- White space and line ends, as `trim` strips them.
unfoldable is_space : ℕ → Bool
is_space c =
    (leb 9 c && leb c 13)
    || nat_eq c 32
    || nat_eq c 0xa0
    || nat_eq c 0x1680
    || (leb 0x2000 c && leb c 0x200a)
    || nat_eq c 0x2028
    || nat_eq c 0x2029
    || nat_eq c 0x202f
    || nat_eq c 0x205f
    || nat_eq c 0x3000
    || nat_eq c 0xfeff

unfoldable trim_start : String → String
trim_start String.[] = ""
trim_start (String.◌∷◌ c s) =
    let rest = trim_start s in if is_space (code c) then rest else String.◌∷◌ c s

unfoldable trim_end : String → String
trim_end String.[] = ""
trim_end (String.◌∷◌ c s) =
    let rest = trim_end s in if (rest == "") && is_space (code c) then "" else String.◌∷◌ c rest

unfoldable pub trim : String → String
unfolding is_space trim_start trim_end
trim s = trim_end (trim_start s)

-- `Boolean(s)`: the empty string is false.
abbrev pub truthy : String → Bool
truthy s = not (s == "")

abbrev pub is_truthy : Option String → Bool
is_truthy none = false
is_truthy (some s) = truthy s

-- `s || null`
abbrev pub or_null : String → Option String
or_null s = if truthy s then some s else none

-- `value?.trim() || null`
abbrev pub trim_or_null : Option String → Option String
trim_or_null none = none
trim_or_null (some s) = or_null (trim s)

abbrev pub non_blank : String → Bool
non_blank s = truthy (trim s)

-- Equality of optional texts, `a === b` on `string | null`.
abbrev pub opt_eq : Option String → Option String → Bool
opt_eq none none = true
opt_eq (some a) (some b) = a == b
opt_eq _ _ = false

pub opt_eq_refl : (a : Option String) → opt_eq a a ≡ true
opt_eq_refl none = refl
opt_eq_refl (some a) = eq_refl a

pub opt_eq-path : (a b : Option String) → opt_eq a b ≡ true → a ≡ b
opt_eq-path none none h = refl
opt_eq-path none (some b) h = cc
opt_eq-path (some a) none h = cc
opt_eq-path (some a) (some b) h = ap some ((eq_iff a b).0 h)

-- `xs.includes(x)` and `new Set(xs).has(x)`
abbrev pub includes : String → List String → Bool
includes x = any (λ y. y == x)

-- `Array.from(new Set(xs))` of texts.
abbrev pub dedupe : List String → List String
dedupe = dedupe_by ◌==◌

-- `parts.join(separator)`
unfoldable pub join_by : String → List String → String
join_by separator [] = ""
join_by separator (x ∷ []) = x
join_by separator (x ∷ y ∷ rest) = x ⧺ separator ⧺ join_by separator (y ∷ rest)

-- The UTF-16 code units of a text, by which `sort()` compares.
units_of : ℕ → List ℕ
units_of c =
    if ltb c 0x10000
    then c ∷ []
    else (0xd800 + (c - 0x10000) / 0x400) ∷ (0xdc00 + (c - 0x10000) % 0x400) ∷ []

utf16 : String → List ℕ
unfolding units_of
utf16 String.[] = []
utf16 (String.◌∷◌ c s) = units_of (code c) ++ᴸ utf16 s

units_le : List ℕ → List ℕ → Bool
units_le [] ys = true
units_le (x ∷ xs) [] = false
units_le (x ∷ xs) (y ∷ ys) = let rest = units_le xs ys in ltb x y || (nat_eq x y && rest)

-- The order of `xs.sort()` on texts.
unfoldable pub code_unit_le : String → String → Bool
unfolding utf16 units_le
code_unit_le a b = units_le (utf16 a) (utf16 b)

-- The pieces of a text between white space; pieces may be empty.
unfoldable pieces_from : String → String × List String
unfolding is_space
pieces_from String.[] = ("", [])
pieces_from (String.◌∷◌ c s) =
    let rest : String × List String = pieces_from s in
    if is_space (code c) then ("", rest.0 ∷ rest.1) else (String.◌∷◌ c rest.0, rest.1)

unfoldable pub pieces : String → List String
unfolding pieces_from
pieces s = (pieces_from s).0 ∷ (pieces_from s).1
