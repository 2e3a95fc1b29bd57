-- ===== src/Base/Affixes.antt =====
-- The tests of Go's `strings` for prefixes and parts of a text.
use Prim.Native.Char.{code}
use Prim.Native.String.{String}
use mathlib.Core.Bool.{Bool, true, false, ◌&&◌, ◌||◌}
use mathlib.Core.Option.{Option, none, some}
use text.Mathlib.Text.{◌==◌}
use botfam.Base.Tests.{nat_eq, if◌then◌else◌}

-- strings.HasPrefix
unfoldable pub has_prefix : String → String → Bool
has_prefix s String.[] = true
has_prefix String.[] (String.◌∷◌ d t) = false
has_prefix (String.◌∷◌ c s) (String.◌∷◌ d t) = nat_eq (code c) (code d) && has_prefix s t

-- strings.Contains
unfoldable pub contains : String → String → Bool
unfolding has_prefix
contains String.[] t = t == ""
contains (String.◌∷◌ c s) t = has_prefix (String.◌∷◌ c s) t || contains s t

-- strings.CutPrefix, the prefix first: what follows it
unfoldable pub cut_prefix : String → String → Option String
cut_prefix String.[] s = some s
cut_prefix (String.◌∷◌ d t) String.[] = none
cut_prefix (String.◌∷◌ d t) (String.◌∷◌ c s) =
    let rest = cut_prefix t s in if nat_eq (code c) (code d) then rest else none
