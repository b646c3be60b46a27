-- ===== src/Experts/Examples.antt =====
-- internal/registry on a small registry with its files.
use cova.Base.{
  String, ◌≡◌, refl, true, false, Option, none, some, [], ◌∷◌, All, ◌=s◌, if◌then◌else◌, is_empty,
  is_blank, trim_space,
}
use cova.Base.Fold.{cut_prefix}
use cova.Base.Bytes.{split, after_prefix}
use cova.Webhook.Clock.{pos, parse_int}
use cova.Experts.{RegistryRef, Registry, ExpertDefinition, Snapshot, enabled_experts}
use cova.Experts.Yaml.{gives, fails, strip_inline_comment, split_yaml_key_value}
use cova.Experts.Check.{validate_registry, validate_expert_definition}
use cova.Experts.Parse.{parse_registry}
use cova.Experts.Define.{parse_expert_definition}
use cova.Experts.Load.{load_snapshot}
use cova.Experts.Distinct.{Distinct}
use cova.Experts.Aligned.{refs_of, Sound, load_snapshot-Follows}

-- Named on an `unfolding` line, this opens the whole program.
program : Unit {0}
unfolding load_snapshot parse_registry parse_expert_definition validate_registry
    validate_expert_definition cut_prefix split after_prefix is_empty is_blank trim_space ◌=s◌
    parse_int strip_inline_comment split_yaml_key_value enabled_experts
program = tt

abbrev registry_text : String
registry_text =
    "api_version: cova/v1 # first\nkind: ExpertRegistry\nexperts:\n  - expert_id: \"macro\"\n    config_path: macro.yaml\n    enabled: True\n  - expert_id: fx\n    config_path: fx.yaml\n"

abbrev expert_text : String
expert_text =
    "api_version: cova/v1\nkind: ExpertDefinition\nmetadata:\n  expert_id: macro\n  expert_name: 'Macro # one'\n  expert_type: macro\n  version: 1.0.12\nspec:\n  capabilities:\n    - daily_brief\n  runtime:\n    mode: service\n    timeout_seconds: 60\n    max_concurrency: 2\n  inputs:\n    accepts:\n      - date\n  outputs:\n    result_schema: brief\n    evidence_mode: references\n"

abbrev files : String → Option String
files path =
    if path =s "registry.yaml"
    then some registry_text
    else if path =s "macro.yaml"
    then some expert_text
    else none

abbrev beside : String → String → String
beside registry path = path

abbrev macro_ref : RegistryRef
macro_ref = record { expert_id = "macro"; config_path = "macro.yaml"; enabled = true }

abbrev registry : Registry
registry = record {
  api_version = "cova/v1";
  kind = "ExpertRegistry";
  experts =
      macro_ref ∷ (record { expert_id = "fx"; config_path = "fx.yaml"; enabled = false }) ∷ [];
}

registry_read : parse_registry registry_text ≡ gives registry
unfolding program
registry_read = refl

abbrev macro_definition : ExpertDefinition
macro_definition = record {
  api_version = "cova/v1";
  kind = "ExpertDefinition";
  metadata = record {
    expert_id = "macro";
    expert_name = "Macro # one";
    expert_type = "macro";
    version = "1.0.12";
    owner = "";
    description = "";
  };
  spec = record {
    enabled = false;
    capabilities = "daily_brief" ∷ [];
    routing = record { priority = pos 0; tags = [] };
    runtime = record {
      mode = "service";
      entrypoint = "";
      timeout_seconds = pos 60;
      max_concurrency = pos 2;
    };
    inputs = record { accepts = "date" ∷ [] };
    outputs = record { result_schema = "brief"; evidence_mode = "references" };
  };
}

definition_read : parse_expert_definition expert_text ≡ macro_definition
unfolding program
definition_read = refl

orphan_refused :
    parse_registry "experts:\n  enabled: true"
    ≡ fails 2 "registry entry field found before list item"
unfolding program
orphan_refused = refl

abbrev snap : Snapshot
snap = record {
  registry = registry;
  experts =
      (record { ref = macro_ref; config_path = "macro.yaml"; definition = macro_definition }) ∷ [];
}

load_snapshot-Follows_example :
    (refs_of snap.experts ≡ enabled_experts snap.registry.experts)
    × All Sound snap.experts
    × (validate_registry snap.registry ≡ [])
    × Distinct (refs_of snap.experts)
unfolding program
load_snapshot-Follows_example =
    load_snapshot-Follows files beside (λ path. path) "registry.yaml" snap refl
