-- ===== src/Experts/Check.antt =====
-- internal/registry/loader.go: `ValidateRegistry` and `ValidateExpertDefinition`. The errors of
-- `validationErrors` are values, each with its index where the message has one.
use cova.Base.{
  ℕ, zero, suc, String, Bool, true, false, not, ◌&&◌, ◌||◌, List, [], ◌∷◌, ◌++◌, if◌then◌else◌, leb,
  ◌=s◌, is_empty, is_blank, trim_space,
}
use Prim.Native.Char.{code}
use cova.Base.Bytes.{split}
use cova.Webhook.Clock.{ℤ, pos, negsuc}
use cova.Experts.{RegistryRef, Registry, ExpertDefinition}

pub data Fault : Type 0 where
  bad_api_version bad_kind no_experts : Fault
  expert_id_required config_path_required : ℕ → Fault
  expert_id_duplicated : ℕ → String → Fault
  metadata_expert_id metadata_expert_name metadata_expert_type metadata_version : Fault
  not_semantic no_capabilities runtime_mode runtime_timeout runtime_concurrency : Fault
  empty_capability : ℕ → Fault
  unsupported_capability : ℕ → String → Fault
  no_accepts result_schema_required evidence_mode_required bad_evidence_mode : Fault

-- `if test { errs.add(fault) }`
unfoldable pub fault_if : Bool → Fault → List Fault
fault_if true f = f ∷ []
fault_if false f = []

unfoldable pub seen_id : String → List String → Bool
seen_id id [] = false
seen_id id (s ∷ seen) = let rest = seen_id id seen in s =s id || rest

unfoldable pub check_ref : ℕ → List String → RegistryRef → List Fault
unfolding fault_if seen_id
check_ref idx seen ref =
    let id = trim_space ref.expert_id in
    (if is_empty id
      then expert_id_required idx ∷ []
      else fault_if (seen_id id seen) (expert_id_duplicated idx id))
    ++ fault_if (is_blank ref.config_path) (config_path_required idx)

unfoldable pub note_id : RegistryRef → List String → List String
note_id ref seen = if is_blank ref.expert_id then seen else trim_space ref.expert_id ∷ seen

unfoldable pub check_refs : ℕ → List String → List RegistryRef → List Fault
unfolding check_ref note_id
check_refs idx seen [] = []
check_refs idx seen (ref ∷ refs) =
    check_ref idx seen ref ++ check_refs (suc idx) (note_id ref seen) refs

unfoldable pub no_refs : List RegistryRef → Bool
no_refs [] = true
no_refs (r ∷ refs) = false

unfoldable pub validate_registry : Registry → List Fault
unfolding fault_if check_refs no_refs
validate_registry r =
    fault_if (not (trim_space r.api_version =s "cova/v1")) bad_api_version
    ++ (fault_if (not (trim_space r.kind =s "ExpertRegistry")) bad_kind
        ++ (fault_if (no_refs r.experts) no_experts ++ check_refs 0 [] r.experts))

unfoldable pub all_digits : String → Bool
all_digits String.[] = true
all_digits (String.◌∷◌ c s) = let rest = all_digits s in leb 48 (code c) && leb (code c) 57 && rest

unfoldable pub is_number : String → Bool
unfolding all_digits
is_number s = not (is_empty s) && all_digits s

unfoldable pub three_numbers : List String → Bool
unfolding is_number
three_numbers (a ∷ b ∷ c ∷ []) = is_number a && is_number b && is_number c
three_numbers parts = false

-- `^\d+\.\d+\.\d+$`
unfoldable pub is_semver : String → Bool
unfolding three_numbers split
is_semver v = three_numbers (split 46 v)

unfoldable pub check_capabilities : ℕ → List String → List Fault
unfolding fault_if
check_capabilities idx [] = []
check_capabilities idx (raw ∷ capabilities) =
    let c = trim_space raw in
    (if is_empty c
      then empty_capability idx ∷ []
      else fault_if (not (c =s "daily_brief" || c =s "query")) (unsupported_capability idx c))
    ++ check_capabilities (suc idx) capabilities

unfoldable pub capability_faults : List String → List Fault
unfolding check_capabilities
capability_faults [] = no_capabilities ∷ []
capability_faults (c ∷ capabilities) = check_capabilities 0 (c ∷ capabilities)

unfoldable pub version_faults : String → List Fault
unfolding fault_if is_semver
version_faults version =
    if is_blank version
    then metadata_version ∷ []
    else fault_if (not (is_semver (trim_space version))) not_semantic

unfoldable pub evidence_faults : String → List Fault
unfolding fault_if
evidence_faults mode =
    if is_blank mode
    then evidence_mode_required ∷ []
    else fault_if (not (mode =s "references" || mode =s "citations")) bad_evidence_mode

unfoldable pub is_positive : ℤ → Bool
is_positive (pos zero) = false
is_positive (pos (suc n)) = true
is_positive (negsuc n) = false

unfoldable pub none_listed : List String → Bool
none_listed [] = true
none_listed (s ∷ more) = false

unfoldable pub validate_expert_definition : ExpertDefinition → List Fault
unfolding fault_if version_faults capability_faults evidence_faults is_positive none_listed
validate_expert_definition d =
    fault_if (not (trim_space d.api_version =s "cova/v1")) bad_api_version
    ++ (fault_if (not (trim_space d.kind =s "ExpertDefinition")) bad_kind
        ++ (fault_if (is_blank d.metadata.expert_id) metadata_expert_id
            ++ (fault_if (is_blank d.metadata.expert_name) metadata_expert_name
                ++ (fault_if (is_blank d.metadata.expert_type) metadata_expert_type
                    ++ (version_faults d.metadata.version
                        ++ (capability_faults d.spec.capabilities
                            ++ (fault_if (is_blank d.spec.runtime.mode) runtime_mode
                                ++ (fault_if (not (is_positive d.spec.runtime.timeout_seconds))
                                      runtime_timeout
                                    ++ (fault_if (not (is_positive d.spec.runtime.max_concurrency))
                                          runtime_concurrency
                                        ++ (fault_if (none_listed d.spec.inputs.accepts) no_accepts
                                            ++ (fault_if (is_blank d.spec.outputs.result_schema)
                                                  result_schema_required
                                                ++ evidence_faults
                                                    d.spec.outputs.evidence_mode)))))))))))
