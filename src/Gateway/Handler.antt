-- ===== src/Gateway/Handler.antt =====
-- internal/api/gateway/middleware.go: `NewHandler` and `ServeHTTP` with `injectRequestID`,
-- `injectTraceparent` and `validateRequest`. A `Clock` gives the readings of one request: the text of
-- the time in an id, the nanoseconds for the limiter, and the second at the end. `trace` is the text
-- made of SHA-256, `split_host` is `net.SplitHostPort`.
use cova.Base.{
  ℕ, ◌*◌, zero, suc, ◌+◌, ◌%◌, ◌^◌, String, ◌+s◌, Bool, true, false, ◌&&◌, ◌||◌, not, Option, none,
  some, List, Dict, ltb, if◌then◌else◌, ◌=s◌, is_empty, is_blank, trim_space, format_uint,
}
use cova.Base.Fold.{has_lower_prefix}
use cova.Base.Bytes.{byte_length}
use cova.Http.{Request, header, set_header}
use cova.Gateway.Auth.{AuthBinding, Principal, Checked, refuse, grant, auth_tokens, authorize}
use cova.Gateway.Limiter.{Float64, Limiter, new_limiter, allow, client_key}
use cova.Gateway.Metrics.{
  Metrics, new_gateway_metrics, Outcome, forwarded, rejected_auth, rejected_rate_limit,
  rejected_validation, note,
}

pub record Config : Type 0 where
  pub auth_enabled : Bool
  pub auth_tokens : List String
  pub auth_bindings : List AuthBinding
  pub rate_limit_enabled : Bool
  pub float : Float64
  pub rate : ℕ
  pub burst : ℕ
  pub max_body_bytes : ℕ

pub record Middleware : Type 0 where
  pub cfg : Config
  pub known : Dict Principal
  pub limiter : Limiter
  pub seq : ℕ
  pub metrics : Metrics

unfoldable pub or_default : ℕ → ℕ → ℕ
or_default d zero = d
or_default d (suc n) = suc n

-- The defaults of `NewHandler`: 1 MiB, a burst of 40, and 20 tokens a second.
unfoldable pub defaults : Config → Config
unfolding or_default
defaults c = record c {
  max_body_bytes = or_default (2 ^ 20) c.max_body_bytes;
  burst = or_default 40 c.burst;
  rate = or_default (20 * c.float.one) c.rate;
}

unfoldable pub assemble : Config → Checked (Dict Principal) → Checked Middleware
assemble c (refuse e) = refuse e
assemble c (grant known) = grant (record {
  cfg = c;
  known = known;
  limiter = new_limiter c.float c.rate c.burst;
  seq = 0;
  metrics = new_gateway_metrics;
})

unfoldable pub new_handler : Config → Checked Middleware
unfolding defaults assemble
new_handler c = assemble (defaults c) (auth_tokens c.auth_enabled c.auth_tokens c.auth_bindings)

pub record Clock : Type 0 where
  pub stamp : String
  pub now : ℕ
  pub second : ℕ

unfoldable pub inject_request_id : Clock → Request → Middleware → Middleware × Request
inject_request_id t r m =
    if is_blank (header "X-Request-Id" r)
    then (let seq = (m.seq + 1) % 2 ^ 64 in
        (
          record m { seq = seq },
          set_header "X-Request-Id" ("gw_" +s t.stamp +s "_" +s format_uint seq) r,
        ))
    else (m, r)

unfoldable pub trace_source : Clock → String → String
trace_source t request_id = if is_empty request_id then "req_" +s format_uint t.now else request_id

unfoldable pub inject_traceparent : (String → String) → Clock → Request → Request
unfolding trace_source
inject_traceparent trace t r =
    if is_blank (header "traceparent" r)
    then set_header "traceparent" (trace (trace_source t (trim_space (header "X-Request-Id" r)))) r
    else r

pub data Invalid : Type 0 where
  unsupported_media_type : Invalid
  payload_too_large : Invalid
  invalid_header : Invalid

pub data Validated : Type 0 where
  invalid : Invalid → Validated
  valid : Request → Validated

unfoldable pub is_json_post : Request → Bool
is_json_post r =
    (r.method =s "POST") && ((r.path =s "/v1/assistant/jobs") || (r.path =s "/v1/assistant/query"))

unfoldable pub too_long : ℕ → Option ℕ → Bool
too_long limit none = false
too_long limit (some n) = ltb limit n

unfoldable pub validate_request : ℕ → Request → Validated
unfolding is_json_post too_long
validate_request max_body_bytes r =
    if ltb 128 (byte_length (header "X-Request-Id" r))
    then invalid invalid_header
    else if ltb 256 (byte_length (header "Idempotency-Key" r))
    then invalid invalid_header
    else if not (is_json_post r)
    then valid r
    else if not (has_lower_prefix "application/json" (trim_space (header "Content-Type" r)))
    then invalid unsupported_media_type
    else if too_long max_body_bytes r.content_length
    then invalid payload_too_large
    else valid (record r { body_limit = some max_body_bytes })

-- What becomes of a request: it reaches the next handler, or is answered with a status.
pub data Passage : Type 0 where
  passed : Request → Passage
  stopped : Outcome → ℕ → Passage

unfoldable pub invalid_status : Invalid → ℕ
invalid_status unsupported_media_type = 415
invalid_status payload_too_large = 413
invalid_status invalid_header = 400

unfoldable pub after_validation : Validated → Passage
unfolding invalid_status
after_validation (invalid e) = stopped rejected_validation (invalid_status e)
after_validation (valid r) = passed r

unfoldable pub validation : Request → Middleware → Passage
unfolding validate_request after_validation
validation r m = after_validation (validate_request m.cfg.max_body_bytes r)

unfoldable pub after_limit : Request → Middleware → Limiter × Bool → Middleware × Passage
unfolding validation
after_limit r m (l, true) = (record m { limiter = l }, validation r m)
after_limit r m (l, false) = (record m { limiter = l }, stopped rejected_rate_limit 429)

unfoldable pub limited : String → Clock → Request → Middleware → Middleware × Passage
unfolding after_limit validation
limited key t r m =
    if m.cfg.rate_limit_enabled
    then after_limit r m (allow key t.now m.limiter)
    else (m, validation r m)

unfoldable pub after_auth : String → Clock → Middleware → Checked Request → Middleware × Passage
unfolding limited
after_auth key t m (refuse e) = (m, stopped rejected_auth 401)
after_auth key t m (grant r) = limited key t r m

unfoldable pub checked : String → Clock → Request → Middleware → Middleware × Passage
unfolding after_auth limited
checked key t r m =
    if m.cfg.auth_enabled then after_auth key t m (authorize m.known r) else limited key t r m

module _ (trace : String → String) (split_host : String → Option String) where
  -- `ServeHTTP` up to the next handler.
  unfoldable pub enter : Clock → Request → Middleware → Middleware × Passage
  unfolding checked inject_request_id inject_traceparent
  enter t r m =
      let (m', named) = inject_request_id t r m in
      checked (client_key split_host r) t (inject_traceparent trace t named) m'

  -- The status of an answer, and the outcome that is counted.
  unfoldable pub outcome_of : Passage → Outcome
  outcome_of (passed r) = forwarded
  outcome_of (stopped outcome status) = outcome

  unfoldable pub noted : Clock → ℕ → Passage → Middleware → Middleware
  unfolding outcome_of
  noted t status (passed r) m = record m { metrics = note status forwarded t.second m.metrics }
  noted t status (stopped outcome code) m = record m {
    metrics = note code outcome t.second m.metrics;
  }

  -- `ServeHTTP`; `status` is the status that the next handler writes, 0 if none.
  unfoldable pub serve_http : Clock → ℕ → Request → Middleware → Middleware × Passage
  unfolding enter noted
  serve_http t status r m = let (m', p) = enter t r m in (noted t status p m', p)
