-- ===== src/Webhook/Dispatcher.antt =====
-- internal/delivery/webhook/dispatcher.go: `NewDispatcher`, `deliver`, `tryOnce` and `backoff`, and
-- `DeliveryRecord` of store.go. A `World` answers for what is outside: the clock, the HTTP client,
-- the random numbers of the jitter, and the sleep. Times are nanoseconds; the backoff before its cap
-- is taken below 2 ^ 63.
use cova.Base.{
  ℕ, zero, suc, ◌-◌, ◌*◌, ◌^◌, String, ◌+s◌, Bool, true, false, ◌&&◌, ◌||◌, not, Option, none, some,
  List, [], ◌∷◌, ltb, leb, ◌==◌, if◌then◌else◌, is_empty, is_blank, trim_space, format_uint,
}
use cova.Api.{CallbackConfig, CallbackSigning}
use cova.Base.Fold.{cut_prefix}

pub record Config : Type 0 where
  pub max_attempts : ℕ
  pub initial_backoff : ℕ
  pub max_backoff : ℕ
  pub jittered : Bool
  pub source : String

pub data DispatchOption : Type 0 where
  with_max_attempts : ℕ → DispatchOption
  with_initial_backoff : ℕ → DispatchOption
  with_max_backoff : ℕ → DispatchOption
  with_jitter_fraction : Bool → DispatchOption
  with_source : String → DispatchOption

unfoldable pub configure : DispatchOption → Config → Config
configure (with_max_attempts zero) c = c
configure (with_max_attempts (suc n)) c = record c { max_attempts = suc n }
configure (with_initial_backoff d) c = record c { initial_backoff = d }
configure (with_max_backoff d) c = record c { max_backoff = d }
configure (with_jitter_fraction b) c = record c { jittered = b }
configure (with_source s) c = if is_blank s then c else record c { source = trim_space s }

unfoldable pub configure_all : List DispatchOption → Config → Config
unfolding configure
configure_all [] c = c
configure_all (o ∷ options) c = configure_all options (configure o c)

unfoldable pub new_dispatcher : List DispatchOption → Config
unfolding configure_all
new_dispatcher options = configure_all options (record {
  max_attempts = 10;
  initial_backoff = 200000000;
  max_backoff = 3000000000;
  jittered = true;
  source = "cova://orchestrator";
})

pub record Request : Type 0 where
  pub url : String
  pub payload : String
  pub signing : Option (String × String)

-- What the client does with a request.
pub data Answer : Type 0 where
  send_failed : String → Answer
  answered : ℕ → Answer

pub data AttemptError : Type 0 where
  retryable : String → AttemptError
  non_retryable : String → AttemptError

pub record AttemptResult : Type 0 where
  pub status_code : ℕ
  pub err : Option AttemptError

-- The outside world, by the number of the attempt.
pub record World : Type 0 where
  pub now : ℕ → ℕ
  pub unix : ℕ → String
  pub build : ℕ → String → Option String
  pub send : ℕ → Request → Answer
  pub duration : ℕ → ℕ
  pub jitter : ℕ → ℕ → ℕ
  pub sleep : ℕ → ℕ → Option String

pub record DeliveryRecord : Type 0 where
  pub delivery_id : String
  pub event_id : String
  pub event_type : String
  pub job_id : String
  pub callback_url : String
  pub attempt : ℕ
  pub max_attempts : ℕ
  pub success : Bool
  pub http_status : Option ℕ
  pub error : Option String
  pub requested_at : ℕ
  pub duration_ms : ℕ
  pub next_retry_at : Option ℕ
  pub payload_hash : String

unfoldable pub error_text : AttemptError → String
error_text (retryable s) = s
error_text (non_retryable s) = s

unfoldable pub is_non_retryable : AttemptError → Bool
is_non_retryable (retryable s) = false
is_non_retryable (non_retryable s) = true

unfoldable pub judge : Answer → AttemptResult
judge (send_failed s) = record { status_code = 0; err = some (retryable ("send request: " +s s)) }
judge (answered code) =
    if ltb code 200 || leb 300 code
    then record {
      status_code = code;
      err = some (retryable ("unexpected status code: " +s format_uint code));
    }
    else record { status_code = code; err = none }

unfoldable pub rejected : String → AttemptResult
rejected text = record { status_code = 0; err = some (non_retryable text) }

-- `strings.ToLower(strings.TrimSpace(algorithm)) == "hmac-sha256"`
unfoldable pub is_known : Option String → Bool
is_known none = false
is_known (some rest) = is_empty rest

unfoldable pub is_supported : String → Bool
unfolding is_known
is_supported algorithm = is_known (cut_prefix "hmac-sha256" (trim_space algorithm))

unfoldable pub capped : ℕ → ℕ → ℕ
capped zero d = d
capped (suc limit) d = if ltb (suc limit) d then suc limit else d

unfoldable pub backoff : Config → World → ℕ → ℕ
unfolding capped
backoff c w attempt =
    let d = capped c.max_backoff (c.initial_backoff * 2 ^ (attempt - 1)) in
    if d == 0 || not c.jittered then d else w.jitter attempt d

pub data Delivered : Type 0 where
  delivered : Delivered
  retry_canceled : String → Delivered
  failed_after : ℕ → Option AttemptError → Delivered

-- `retryableFailure`
unfoldable pub may_retry : Config → ℕ → Option AttemptError → Bool
unfolding is_non_retryable
may_retry c attempt none = false
may_retry c attempt (some e) = ltb attempt c.max_attempts && not (is_non_retryable e)

-- `computeHMAC`; `mac` takes a secret and a message to the hex digits of their HMAC over SHA-256
-- (crypto/hmac). What follows takes the function of the secret, the timestamp and the body.
unfoldable pub compute_hmac : (String → String → String) → String → String → String → String
compute_hmac mac secret timestamp payload = mac secret (timestamp +s "." +s payload)

module _ (hmac : String → String → String → String) where
  unfoldable pub sign : CallbackSigning → String → Request → Request
  sign signing ts r = record r {
    signing = some (ts, "sha256=" +s hmac (trim_space signing.secret_ref) ts r.payload);
  }

  unfoldable pub try_signed : World → ℕ → Request → Option CallbackSigning → AttemptResult
  unfolding sign judge is_supported rejected
  try_signed w attempt r none = judge (w.send attempt r)
  try_signed w attempt r (some signing) =
      if not (is_supported signing.algorithm)
      then rejected ("unsupported signing algorithm: " +s signing.algorithm)
      else if is_blank signing.secret_ref
      then rejected "empty signing secret"
      else judge (w.send attempt (sign signing (w.unix attempt) r))

  unfoldable pub try_built :
      World → ℕ → CallbackConfig → String → String → Option String → AttemptResult
  unfolding try_signed
  try_built w attempt callback url payload (some e) = record {
    status_code = 0;
    err = some (retryable ("build request: " +s e));
  }
  try_built w attempt callback url payload none =
      try_signed w attempt (record { url = url; payload = payload; signing = none })
        callback.signing

  unfoldable pub try_once : World → ℕ → CallbackConfig → String → String → AttemptResult
  unfolding try_built
  try_once w attempt callback url payload =
      try_built w attempt callback url payload (w.build attempt url)
