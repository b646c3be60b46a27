-- ===== src/Experts.antt =====
-- internal/registry: the registry of experts and their definitions (types.go).
pub mod Yaml
pub mod Check
pub mod Parse
pub mod Define
pub mod Load
mod Distinct
mod Aligned
mod Examples
use cova.Base.{ℕ, String, Bool, List, [], ◌∷◌, if◌then◌else◌}
use cova.Webhook.Clock.{ℤ}

pub record RegistryRef : Type 0 where
  pub expert_id : String
  pub config_path : String
  pub enabled : Bool

pub record Registry : Type 0 where
  pub api_version : String
  pub kind : String
  pub experts : List RegistryRef

-- `EnabledExperts`
unfoldable pub enabled_experts : List RegistryRef → List RegistryRef
enabled_experts [] = []
enabled_experts (r ∷ refs) = let rest = enabled_experts refs in if r.enabled then r ∷ rest else rest

pub record ExpertMetadata : Type 0 where
  pub expert_id : String
  pub expert_name : String
  pub expert_type : String
  pub version : String
  pub owner : String
  pub description : String

pub record ExpertRouting : Type 0 where
  pub priority : ℤ
  pub tags : List String

pub record ExpertRuntime : Type 0 where
  pub mode : String
  pub entrypoint : String
  pub timeout_seconds : ℤ
  pub max_concurrency : ℤ

pub record ExpertInputs : Type 0 where
  pub accepts : List String

pub record ExpertOutputs : Type 0 where
  pub result_schema : String
  pub evidence_mode : String

pub record ExpertSpec : Type 0 where
  pub enabled : Bool
  pub capabilities : List String
  pub routing : ExpertRouting
  pub runtime : ExpertRuntime
  pub inputs : ExpertInputs
  pub outputs : ExpertOutputs

pub record ExpertDefinition : Type 0 where
  pub api_version : String
  pub kind : String
  pub metadata : ExpertMetadata
  pub spec : ExpertSpec

pub record LoadedExpert : Type 0 where
  pub ref : RegistryRef
  pub config_path : String
  pub definition : ExpertDefinition

pub record Snapshot : Type 0 where
  pub registry : Registry
  pub experts : List LoadedExpert
