-- ===== src/Prelude/Text.antt =====
-- Strings of the standard library as the program uses them: truthiness, `trim`.
use Prim.Native.Char.{Char, code}
use Prim.Native.String.{String}
use mathlib.Core.Bool.{Bool, true, false, not, ◌&&◌, ◌||◌}
use mathlib.Core.Option.{Option, none, some}
use mathlib.Core.Path.{◌≡◌, refl, sym, ◌∙◌}
use mathlib.Core.Logic.{inl, inr}
use native.Mathlib.Omega.{arith}
use ling_dian.Prelude.Tests.{nat_beq, leb, if◌then◌else◌, Bool-cases}

-- A string is truthy unless it is empty; `undefined` and `null` are falsy.
abbrev pub non_empty : String → Bool
non_empty String.[] = false
non_empty (String.◌∷◌ c s) = true

abbrev pub truthy : Option String → Bool
truthy none = false
truthy (some s) = non_empty s

-- The white space of ASCII: tab to carriage return, and the space.
is_blank : Char → Bool
is_blank c = nat_beq (code c) 32 || (leb 9 (code c) && leb (code c) 13)

trim_start : String → String
trim_start String.[] = String.[]
trim_start (String.◌∷◌ c s) = if is_blank c then trim_start s else String.◌∷◌ c s

trim_end : String → String
trim_end String.[] = String.[]
trim_end (String.◌∷◌ c s) =
    let rest = trim_end s in
    if is_blank c && not (non_empty rest) then String.[] else String.◌∷◌ c rest

unfoldable pub trim : String → String
unfolding trim_start trim_end is_blank
trim s = trim_end (trim_start s)

-- A text with anything but blanks.
has_ink : String → Bool
has_ink String.[] = false
has_ink (String.◌∷◌ c s) = not (is_blank c) || has_ink s

has_ink-trim_start : (s : String) → has_ink (trim_start s) ≡ has_ink s
unfolding has_ink trim_start
has_ink-trim_start String.[] = refl
has_ink-trim_start (String.◌∷◌ c s) = elim (Bool-cases (is_blank c)) [
  | inl e ↦ rw e (has_ink-trim_start s)
  | inr e ↦ rw e (rw e refl)
]

non_empty-trim_end : (s : String) → non_empty (trim_end s) ≡ has_ink s
unfolding has_ink trim_end
non_empty-trim_end String.[] = refl
non_empty-trim_end (String.◌∷◌ c s) = ground (arith, non_empty-trim_end s)

has_ink-trim_end : (s : String) → has_ink (trim_end s) ≡ has_ink s
unfolding has_ink trim_end
has_ink-trim_end String.[] = refl
has_ink-trim_end (String.◌∷◌ c s) = ground (arith, non_empty-trim_end s, has_ink-trim_end s)

-- Trimming again leaves no text empty that was not.
pub non_empty-trim-trim : (s : String) → non_empty (trim (trim s)) ≡ non_empty (trim s)
unfolding trim
non_empty-trim-trim s =
    non_empty-trim_end (trim_start (trim_end (trim_start s)))
    ∙ has_ink-trim_start (trim_end (trim_start s))
    ∙ has_ink-trim_end (trim_start s)
    ∙ sym (non_empty-trim_end (trim_start s))

trim_test : trim "  a b " ≡ "a b"
unfolding trim
trim_test = refl
