-- ===== src/Experts/Define.antt =====
-- internal/registry/loader.go: `parseExpertDefinition`.
use cova.Base.{
  ℕ, String, ◌+s◌, false, Option, none, some, List, [], ◌∷◌, ◌++◌, if◌then◌else◌, ◌=s◌, leb,
  is_empty, trim_space,
}
use cova.Base.Bytes.{split, after_prefix}
use cova.Webhook.Clock.{pos, parse_int}
use cova.Experts.{ExpertDefinition, ExpertMetadata, ExpertSpec, ExpertRuntime, ExpertOutputs}
use cova.Experts.Yaml.{
  split_yaml_key_value, unquote_yaml_scalar, strip_inline_comment, leading_spaces, parse_bool_lower,
}

unfoldable pub empty_definition : ExpertDefinition
empty_definition = record {
  api_version = "";
  kind = "";
  metadata = record {
    expert_id = "";
    expert_name = "";
    expert_type = "";
    version = "";
    owner = "";
    description = "";
  };
  spec = record {
    enabled = false;
    capabilities = [];
    routing = record { priority = pos 0; tags = [] };
    runtime = record {
      mode = "";
      entrypoint = "";
      timeout_seconds = pos 0;
      max_concurrency = pos 0;
    };
    inputs = record { accepts = [] };
    outputs = record { result_schema = ""; evidence_mode = "" };
  };
}

-- The keys that the lines stand under, the innermost first.
pub record PathNode : Type 0 where
  pub indent : ℕ
  pub key : String

unfoldable pub pop : ℕ → List PathNode → List PathNode
pop indent [] = []
pop indent (n ∷ stack) =
    let rest = pop indent stack in if leb indent n.indent then rest else n ∷ stack

-- The path of a key below the stack, joined with dots.
unfoldable pub path_to : List PathNode → String → String
path_to [] key = key
path_to (n ∷ stack) key = path_to stack (n.key +s ("." +s key))

unfoldable pub parent_path : List PathNode → String
unfolding path_to
parent_path [] = ""
parent_path (n ∷ stack) = path_to stack n.key

unfoldable pub add_item : String → String → ExpertDefinition → ExpertDefinition
add_item path item d =
    if path =s "spec.capabilities"
    then record d { spec = record d.spec { capabilities = d.spec.capabilities ++ (item ∷ []) } }
    else if path =s "spec.routing.tags"
    then record d {
      spec = record d.spec {
        routing = record d.spec.routing { tags = d.spec.routing.tags ++ (item ∷ []) };
      };
    }
    else if path =s "spec.inputs.accepts"
    then record d {
      spec = record d.spec {
        inputs = record d.spec.inputs { accepts = d.spec.inputs.accepts ++ (item ∷ []) };
      };
    }
    else d

unfoldable pub set_metadata : String → String → ExpertMetadata → ExpertMetadata
set_metadata path value m =
    if path =s "metadata.expert_id"
    then record m { expert_id = value }
    else if path =s "metadata.expert_name"
    then record m { expert_name = value }
    else if path =s "metadata.expert_type"
    then record m { expert_type = value }
    else if path =s "metadata.version"
    then record m { version = value }
    else if path =s "metadata.owner"
    then record m { owner = value }
    else if path =s "metadata.description"
    then record m { description = value }
    else m

unfoldable pub or_kept : {A : Type 0} → A → Option A → A
or_kept kept none = kept
or_kept kept (some a) = a

unfoldable pub set_runtime : String → String → ExpertRuntime → ExpertRuntime
unfolding or_kept parse_int
set_runtime path value r =
    if path =s "spec.runtime.mode"
    then record r { mode = value }
    else if path =s "spec.runtime.entrypoint"
    then record r { entrypoint = value }
    else if path =s "spec.runtime.timeout_seconds"
    then record r { timeout_seconds = or_kept r.timeout_seconds (parse_int value) }
    else if path =s "spec.runtime.max_concurrency"
    then record r { max_concurrency = or_kept r.max_concurrency (parse_int value) }
    else r

unfoldable pub set_outputs : String → String → ExpertOutputs → ExpertOutputs
set_outputs path value o =
    if path =s "spec.outputs.result_schema"
    then record o { result_schema = value }
    else if path =s "spec.outputs.evidence_mode"
    then record o { evidence_mode = value }
    else o

unfoldable pub set_spec : String → String → ExpertSpec → ExpertSpec
unfolding set_runtime set_outputs or_kept parse_int parse_bool_lower
set_spec path value s =
    if path =s "spec.enabled"
    then record s { enabled = or_kept s.enabled (parse_bool_lower value) }
    else if path =s "spec.routing.priority"
    then record s {
      routing = record s.routing { priority = or_kept s.routing.priority (parse_int value) };
    }
    else record s {
      runtime = set_runtime path value s.runtime;
      outputs = set_outputs path value s.outputs;
    }

-- The `switch` on the path of a scalar; the paths are distinct.
unfoldable pub set_scalar : String → String → ExpertDefinition → ExpertDefinition
unfolding set_metadata set_spec
set_scalar path value d =
    if path =s "api_version"
    then record d { api_version = value }
    else if path =s "kind"
    then record d { kind = value }
    else record d {
      metadata = set_metadata path value d.metadata;
      spec = set_spec path value d.spec;
    }

unfoldable pub scalar_line :
    ℕ
    → List PathNode
    → ExpertDefinition
    → Option (String × String)
    → List PathNode × ExpertDefinition
unfolding set_scalar path_to
scalar_line indent stack d none = (stack, d)
scalar_line indent stack d (some (key, value)) =
    if is_empty value
    then ((record { indent = indent; key = key }) ∷ stack, d)
    else (stack, set_scalar (path_to stack key) value d)

unfoldable pub sequence_item :
    List PathNode → ExpertDefinition → String → List PathNode × ExpertDefinition
unfolding add_item parent_path unquote_yaml_scalar
sequence_item stack d item =
    if is_empty item
    then (stack, d)
    else (stack, add_item (parent_path stack) (unquote_yaml_scalar item) d)

unfoldable pub filled_line :
    ℕ → List PathNode → ExpertDefinition → String → Option String → List PathNode × ExpertDefinition
unfolding scalar_line sequence_item split_yaml_key_value
filled_line indent stack d trimmed (some rest) = sequence_item stack d (trim_space rest)
filled_line indent stack d trimmed none = scalar_line indent stack d (split_yaml_key_value trimmed)

unfoldable pub definition_line :
    String → List PathNode × ExpertDefinition → List PathNode × ExpertDefinition
unfolding filled_line pop leading_spaces strip_inline_comment after_prefix
definition_line text (stack, d) =
    let trimmed = trim_space (strip_inline_comment text) in
    if is_empty trimmed
    then (stack, d)
    else filled_line (leading_spaces text) (pop (leading_spaces text) stack) d trimmed
        (after_prefix "- " trimmed)

unfoldable pub definition_lines :
    List String → List PathNode × ExpertDefinition → List PathNode × ExpertDefinition
unfolding definition_line
definition_lines [] y = y
definition_lines (text ∷ lines) y = definition_lines lines (definition_line text y)

unfoldable pub parse_expert_definition : String → ExpertDefinition
unfolding definition_lines empty_definition split
parse_expert_definition raw = (definition_lines (split 10 raw) ([], empty_definition)).1
