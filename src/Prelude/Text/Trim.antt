-- ===== src/Prelude/Text/Trim.antt =====
-- Trimming twice is trimming once.
use Prim.Native.Char.{code}
use Prim.Native.String.{String}
use mathlib.Core.Path.{◌≡◌, refl, ◌∙◌, ap}
use mathlib.Core.Logic.{inl, inr}
use mathlib.Core.Bool.{false, ◌&&◌}
use text.Mathlib.Text.{◌==◌}
use openboa.Prelude.Tests.{Bool-cases}
use openboa.Prelude.Text.{trim, trim_start, trim_end, is_space}

-- The text does not begin with white space.
abbrev StartsSolid : String → Type 0
StartsSolid String.[] = Unit {0}
StartsSolid (String.◌∷◌ c s) = is_space (code c) ≡ false

trim_start-StartsSolid : (s : String) → StartsSolid (trim_start s)
unfolding trim_start
trim_start-StartsSolid String.[] = tt
trim_start-StartsSolid (String.◌∷◌ c s) = elim (Bool-cases (is_space (code c))) [
  | inl t ↦ rw t (trim_start-StartsSolid s)
  | inr t ↦ rw (t, t) refl
]

trim_start-of_StartsSolid : (s : String) → StartsSolid s → trim_start s ≡ s
unfolding trim_start
trim_start-of_StartsSolid String.[] h = refl
trim_start-of_StartsSolid (String.◌∷◌ c s) h = rw h

trim_end-StartsSolid : (s : String) → StartsSolid s → StartsSolid (trim_end s)
unfolding trim_end
trim_end-StartsSolid String.[] h = tt
trim_end-StartsSolid (String.◌∷◌ c s) h =
    elim (Bool-cases ((trim_end s == "") && is_space (code c))) [ inl t ↦ rw t tt | inr t ↦ rw t h ]

trim_end-trim_end : (s : String) → trim_end (trim_end s) ≡ trim_end s
unfolding trim_end
trim_end-trim_end String.[] = refl
trim_end-trim_end (String.◌∷◌ c s) = elim (Bool-cases ((trim_end s == "") && is_space (code c))) [
  | inl t ↦ rw t refl
  | inr t ↦ rw (t, trim_end-trim_end s, t) refl
]

pub trim-trim : (s : String) → trim (trim s) ≡ trim s
unfolding trim
trim-trim s =
    ap trim_end (
      trim_start-of_StartsSolid (trim_end (trim_start s))
        (trim_end-StartsSolid (trim_start s) (trim_start-StartsSolid s)))
    ∙ trim_end-trim_end (trim_start s)

pub trim_empty : trim "" ≡ ""
unfolding trim trim_start trim_end
trim_empty = refl
