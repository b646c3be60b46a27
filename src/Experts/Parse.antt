-- ===== src/Experts/Parse.antt =====
-- internal/registry/loader.go: `parseRegistry` and `applyRegistryItemField`. Lines count from 0 here
-- and from 1 in an error.
use cova.Base.{
  ℕ, suc, String, Bool, true, false, not, Option, none, some, List, [], ◌∷◌, ◌++◌, if◌then◌else◌,
  ◌==◌, ◌=s◌, is_empty, trim_space,
}
use cova.Base.Bytes.{split, after_prefix}
use cova.Experts.{RegistryRef, Registry}
use cova.Experts.Yaml.{
  Read, fails, gives, split_yaml_key_value, strip_inline_comment, leading_spaces, parse_bool_lower,
}

-- The loop's state: the file so far, whether the lines belong to `experts`, and the current entry.
pub record Reading : Type 0 where
  pub out : Registry
  pub in_experts : Bool
  pub current : Option RegistryRef

unfoldable pub empty_ref : RegistryRef
empty_ref = record { expert_id = ""; config_path = ""; enabled = false }

unfoldable pub set_enabled : ℕ → RegistryRef → Option Bool → Read RegistryRef
set_enabled line item none = fails line "enabled must be true/false"
set_enabled line item (some b) = gives (record item { enabled = b })

unfoldable pub set_field : ℕ → RegistryRef → Option (String × String) → Read RegistryRef
unfolding set_enabled parse_bool_lower
set_field line item none = fails line "invalid field"
set_field line item (some (key, value)) =
    if key =s "expert_id"
    then gives (record item { expert_id = value })
    else if key =s "config_path"
    then gives (record item { config_path = value })
    else if key =s "enabled"
    then set_enabled line item (parse_bool_lower value)
    else gives item

unfoldable pub apply_registry_item_field : ℕ → RegistryRef → String → Read RegistryRef
unfolding set_field split_yaml_key_value
apply_registry_item_field line item text = set_field line item (split_yaml_key_value text)

-- `out.Experts = append(out.Experts, *current)`
unfoldable pub flush : Reading → Registry
flush y = elim y.current [
  | none ↦ y.out
  | some item ↦ record y.out { experts = y.out.experts ++ (item ∷ []) }
]

unfoldable pub with_item : Reading → Read RegistryRef → Read Reading
with_item y (fails line why) = fails line why
with_item y (gives item) = gives (record y { current = some item })

unfoldable pub set_top : ℕ → Reading → Option (String × String) → Read Reading
set_top line y none = gives y
set_top line y (some (key, value)) =
    if key =s "api_version"
    then gives (record y { out = record y.out { api_version = value } })
    else if key =s "kind"
    then gives (record y { out = record y.out { kind = value } })
    else if key =s "experts"
    then (if is_empty value
        then gives (record y { in_experts = true })
        else fails line "experts must be a sequence")
    else gives y

unfoldable pub new_item : ℕ → Reading → String → Read Reading
unfolding with_item apply_registry_item_field empty_ref flush
new_item line y rest =
    let y' = record y { out = flush y; current = some empty_ref } in
    if is_empty rest then gives y' else with_item y' (apply_registry_item_field line empty_ref rest)

unfoldable pub more_fields : ℕ → Reading → String → Option RegistryRef → Read Reading
unfolding with_item apply_registry_item_field
more_fields line y trimmed none = fails line "registry entry field found before list item"
more_fields line y trimmed (some item) = with_item y (apply_registry_item_field line item trimmed)

unfoldable pub item_line : ℕ → Reading → String → Option String → Read Reading
unfolding new_item more_fields
item_line line y trimmed (some rest) = new_item line y (trim_space rest)
item_line line y trimmed none = more_fields line y trimmed y.current

-- One line of the loop.
unfoldable pub read_line : ℕ → String → Reading → Read Reading
unfolding set_top item_line leading_spaces strip_inline_comment split_yaml_key_value after_prefix
read_line line text y =
    let trimmed = trim_space (strip_inline_comment text) in
    if is_empty trimmed
    then gives y
    else if leading_spaces text == 0
    then set_top line (record y { in_experts = false }) (split_yaml_key_value trimmed)
    else if not y.in_experts
    then gives y
    else item_line line y trimmed (after_prefix "- " trimmed)

unfoldable pub read_on : (Reading → Read Registry) → Read Reading → Read Registry
read_on more (fails line why) = fails line why
read_on more (gives y) = more y

unfoldable pub read_lines : ℕ → List String → Reading → Read Registry
unfolding read_line read_on flush
read_lines line [] y = gives (flush y)
read_lines line (text ∷ lines) y =
    read_on (read_lines (suc line) lines) (read_line (suc line) text y)

unfoldable pub parse_registry : String → Read Registry
unfolding read_lines split
parse_registry raw = read_lines 0 (split 10 raw) (record {
  out = record { api_version = ""; kind = ""; experts = [] };
  in_experts = false;
  current = none;
})
