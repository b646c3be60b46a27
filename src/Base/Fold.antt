-- ===== src/Base/Fold.antt =====
-- What the program uses of case folding: `strings.ToLower` with a test against an ASCII prefix, and
-- `strings.EqualFold` against an ASCII word.
use Prim.Native.Nat.{ℕ, ◌+◌}
use Prim.Native.Char.{Char, code}
use Prim.Native.String.{String}
use mathlib.Core.Bool.{Bool, true, false, ◌&&◌}
use mathlib.Core.Option.{Option, none, some}
use cova.Base.Tests.{leb, ◌==◌, if◌then◌else◌}
use cova.Base.Text.{is_empty}

-- `strings.ToLower` of one character, as far as the comparison with an ASCII letter reads it.
unfoldable pub lower : Char → ℕ
lower c = if leb 65 (code c) && leb (code c) 90 then code c + 32 else code c

unfoldable pub cut_prefix : String → String → Option String
unfolding lower
cut_prefix String.[] raw = some raw
cut_prefix (String.◌∷◌ p prefix) String.[] = none
cut_prefix (String.◌∷◌ p prefix) (String.◌∷◌ c raw) =
    let rest = cut_prefix prefix raw in if lower c == code p then rest else none

unfoldable pub is_there : Option String → Bool
is_there none = false
is_there (some s) = true

-- `strings.HasPrefix(strings.ToLower(raw), prefix)` for a lower-case ASCII prefix.
unfoldable pub has_lower_prefix : String → String → Bool
unfolding cut_prefix is_there
has_lower_prefix prefix raw = is_there (cut_prefix prefix raw)

-- Folding takes the long s and the Kelvin sign to ASCII letters, too.
unfoldable pub fold : Char → ℕ
unfolding lower
fold c = if code c == 0x17f then 115 else if code c == 0x212a then 107 else lower c

-- `strings.EqualFold(s, word)` for a lower-case ASCII word.
unfoldable pub equal_fold : String → String → Bool
unfolding fold
equal_fold String.[] s = is_empty s
equal_fold (String.◌∷◌ p word) String.[] = false
equal_fold (String.◌∷◌ p word) (String.◌∷◌ c s) =
    let rest = equal_fold word s in fold c == code p && rest
