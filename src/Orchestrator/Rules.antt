-- ===== src/Orchestrator/Rules.antt =====
-- internal/orchestrator/server.go: the small functions that the handlers share.
use cova.Base.{
  ℕ, String, Bool, true, false, ◌&&◌, ◌+◌, ◌/◌, Option, none, some, List, [], ◌∷◌, ltb,
  if◌then◌else◌, ◌=s◌, ◌+s◌, is_empty, is_blank, trim_space, format_uint,
}
use Prim.Native.String.{len}
use cova.Api.{JobStatus, succeeded, failed, canceled, expired, CallbackSigning, CallbackConfig}
use cova.Orchestrator.Types.{Job, ExpertMetadata}

-- The four statuses that the handlers take for final.
abbrev pub is_terminal : JobStatus → Bool
is_terminal succeeded = true
is_terminal failed = true
is_terminal canceled = true
is_terminal expired = true
is_terminal _ = false

abbrev pub is_canceled : JobStatus → Bool
is_canceled canceled = true
is_canceled _ = false

-- `isExpired`
unfoldable pub is_expired : Job → ℕ → Bool
is_expired j now = elim j.expires_at [ none ↦ false | some at ↦ ltb at now ]

-- `markExpired`
unfoldable pub mark_expired : Job → ℕ → Job
mark_expired j now = record j { status = expired; updated_at = now }

-- `jobInScope`
unfoldable pub job_in_scope : Job → String → String → Bool
job_in_scope j tenant_id project_id = (j.tenant_id =s tenant_id) && (j.project_id =s project_id)

-- `normalizeRequestID`; `stamp` is `time.Now().UnixNano()`.
unfoldable pub normalize_request_id : ℕ → String → String
normalize_request_id stamp request_id =
    let trimmed = trim_space request_id in
    if is_empty trimmed then "req_" +s format_uint stamp else trimmed

-- `ptrValue`
abbrev pub ptr_value : Option String → String
ptr_value none = ""
ptr_value (some v) = v

-- `expertTypePtr`
unfoldable pub expert_type_ptr : String → Option String
expert_type_ptr v = if is_blank v then none else some v

unfoldable pub clone_signing : Option CallbackSigning → Option CallbackSigning
clone_signing none = none
clone_signing (some g) = some (record g { algorithm = trim_space g.algorithm })

-- `cloneCallbackConfig`
unfoldable pub clone_callback_config : Option CallbackConfig → Option CallbackConfig
clone_callback_config none = none
clone_callback_config (some c) =
    if is_blank c.url
    then none
    else some (record { url = trim_space c.url; signing = clone_signing c.signing })

-- `scopedIdempotencyKey`
unfoldable pub scoped_idempotency_key : String → String → String → String
scoped_idempotency_key tenant_id project_id raw =
    let key = trim_space raw in
    if is_empty key then "" else tenant_id +s ("::" +s (project_id +s ("::" +s key)))

unfoldable pub any_supports : List String → String → Bool
any_supports [] capability = false
any_supports (item ∷ rest) capability =
    let later = any_supports rest capability in
    if trim_space item =s capability then true else later

-- `expertSupports`
unfoldable pub expert_supports : ExpertMetadata → String → Bool
unfolding any_supports
expert_supports e capability = any_supports e.supports capability

-- `estimateTokens`; `len` counts bytes, as in Go.
unfoldable pub estimate_tokens : String → ℕ
estimate_tokens text =
    let trimmed = trim_space text in if is_empty trimmed then 0 else (len trimmed + 3) / 4
