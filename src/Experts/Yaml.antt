-- ===== src/Experts/Yaml.antt =====
-- internal/registry/loader.go: the lines of a YAML file. A line is read by characters.
use Prim.Native.Char.{Char, code}
use cova.Base.{
  ℕ, suc, String, Bool, true, false, not, ◌&&◌, ◌||◌, Option, none, some, if◌then◌else◌, ◌==◌,
  is_empty, trim_space, map_option,
}
use cova.Base.Bytes.{value_or}
use cova.Base.Fold.{cut_prefix}

-- What a file gives, or the line that is wrong and why.
pub data Read {ℓ} (A : Type ℓ) : Type ℓ where
  fails : ℕ → String → Read A
  gives : A → Read A

-- What stands before the first colon, and after it.
unfoldable pub push_left : Char → Option (String × String) → Option (String × String)
push_left c none = none
push_left c (some (a, b)) = some (String.◌∷◌ c a, b)

unfoldable pub at_colon : String → Option (String × String)
unfolding push_left
at_colon String.[] = none
at_colon (String.◌∷◌ c s) =
    let rest = push_left c (at_colon s) in if code c == 58 then some (String.[], s) else rest

-- The text up to a last character with the code `q`.
unfoldable pub close : ℕ → String → Option String
close q String.[] = none
close q (String.◌∷◌ c String.[]) = if code c == q then some String.[] else none
close q (String.◌∷◌ c (String.◌∷◌ d s)) = map_option (String.◌∷◌ c) (close q (String.◌∷◌ d s))

unfoldable pub unquote_trimmed : String → String
unfolding close value_or
unquote_trimmed String.[] = String.[]
unquote_trimmed (String.◌∷◌ c s) =
    if code c == 34 || code c == 39
    then value_or (String.◌∷◌ c s) (close (code c) s)
    else String.◌∷◌ c s

unfoldable pub unquote_yaml_scalar : String → String
unfolding unquote_trimmed
unquote_yaml_scalar value = unquote_trimmed (trim_space value)

unfoldable pub key_value : Option (String × String) → Option (String × String)
unfolding unquote_yaml_scalar
key_value none = none
key_value (some (before, after)) =
    if is_empty before || is_empty (trim_space before)
    then none
    else some (trim_space before, unquote_yaml_scalar (trim_space after))

unfoldable pub split_yaml_key_value : String → Option (String × String)
unfolding key_value at_colon
split_yaml_key_value line = key_value (at_colon line)

-- Single and double quotes that are open.
unfoldable pub strip_from : Bool → Bool → String → String
strip_from single double String.[] = String.[]
strip_from single double (String.◌∷◌ c s) =
    let single' = if code c == 39 && not double then not single else single in
    let double' = if code c == 34 && not single then not double else double in
    let rest = strip_from single' double' s in
    if code c == 35 && not single && not double then String.[] else String.◌∷◌ c rest

unfoldable pub strip_inline_comment : String → String
unfolding strip_from
strip_inline_comment line = strip_from false false line

unfoldable pub leading_spaces : String → ℕ
leading_spaces String.[] = 0
leading_spaces (String.◌∷◌ c s) =
    let rest = leading_spaces s in if code c == 32 then suc rest else 0

unfoldable pub is_end : Option String → Bool
is_end none = false
is_end (some s) = is_empty s

-- `strings.ToLower(s)` is the word.
unfoldable pub spelled : String → String → Bool
unfolding cut_prefix is_end
spelled word s = is_end (cut_prefix word s)

-- `strconv.ParseBool(strings.ToLower(value))`
unfoldable pub parse_bool_lower : String → Option Bool
unfolding spelled
parse_bool_lower s =
    if spelled "1" s || spelled "t" s || spelled "true" s
    then some true
    else if spelled "0" s || spelled "f" s || spelled "false" s
    then some false
    else none
