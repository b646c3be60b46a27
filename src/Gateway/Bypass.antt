-- ===== src/Gateway/Bypass.antt =====
-- The paths that internal/api/gateway/middleware.go checks, against those that
-- internal/api/openapi/server_gen.go serves.
use cova.Base.{
  ℕ, String, ◌≡◌, ◌≤◌, refl, sym, ◌∙◌, ap, Bool, true, false, ◌&&◌, Option, some, [], Dict, ltb,
  subst, if_true, if_false, ◌=s◌, is_blank, is_empty, inl, inr, Bool-cases, arith,
}
use cova.Base.Bytes.{byte_length}
use cova.Http.{Request, header, set_header}
use cova.Gateway.Auth.{
  Principal, grant, set_scope, differs, inject_tenant_scope, check_auth, authorize,
}
use cova.Gateway.Limiter.{Limiter, allow, client_key}
use cova.Gateway.Handler.{
  Middleware, Clock, Passage, inject_request_id, inject_traceparent, passed, valid, is_json_post,
  validate_request, after_validation, validation, after_limit, limited, after_auth, checked, enter,
}
use cova.Gateway.Scoped.{named, scoped_grants, request_id_settings}
use cova.Gateway.Tenants.{not_denied}
use cova.Openapi.{find_route, routes, submit_brief_job}

-- Two requests that differ in their headers alone.
record Alike (r g : Request) : Type 0 where
  method : g.method ≡ r.method
  path : g.path ≡ r.path
  body_limit : g.body_limit ≡ r.body_limit

Alike-trans : {r g h : Request} → Alike r g → Alike g h → Alike r h
Alike-trans a b = record {
  method = b.method ∙ a.method;
  path = b.path ∙ a.path;
  body_limit = b.body_limit ∙ a.body_limit;
}

traceparent-Alike :
    (trace : String → String) (t : Clock) (r : Request) → Alike r (inject_traceparent trace t r)
unfolding inject_traceparent set_header
traceparent-Alike trace t r = elim (Bool-cases (is_blank (header "traceparent" r))) [
  | inl missing ↦ rw missing (record { method = refl; path = refl; body_limit = refl })
  | inr given ↦ rw given (record { method = refl; path = refl; body_limit = refl })
]

request_id-Alike :
    (t : Clock) (r : Request) (m : Middleware)
    → Alike r (inject_request_id t r m).1 × ((inject_request_id t r m).0.limiter ≡ m.limiter)
unfolding inject_request_id set_header
request_id-Alike t r m = elim (Bool-cases (is_blank (header "X-Request-Id" r))) [
  | inl missing ↦ rw missing (record { method = refl; path = refl; body_limit = refl }, refl)
  | inr given ↦ rw given (record { method = refl; path = refl; body_limit = refl }, refl)
]

scope-Alike : (p : Principal) (r g : Request) → inject_tenant_scope p r ≡ grant g → Alike r g
unfolding inject_tenant_scope
scope-Alike p r g e = elim (Bool-cases (is_empty p.tenant_id && is_empty p.project_id)) [
  | inl free ↦
      let kept : grant r ≡ grant g =
        sym (if_true (is_empty p.tenant_id && is_empty p.project_id) _ _ free) ∙ e in
      let is_it : r ≡ g = cc kept in
      subst (Alike r) is_it (record { method = refl; path = refl; body_limit = refl })
  | inr limited_scope ↦
      let asked =
        sym (if_false (is_empty p.tenant_id && is_empty p.project_id) _ _ limited_scope) ∙ e in
      let tenant =
        not_denied (differs (header "X-Tenant-Id" r) p.tenant_id)
          "X-Tenant-Id does not match authenticated token scope" _ g asked in
      let project =
        not_denied (differs (header "X-Project-Id" r) p.project_id)
          "X-Project-Id does not match authenticated token scope" (grant (set_scope p r)) g
          tenant in
      let is_it : set_scope p r ≡ g = cc project in
      subst (Alike r) is_it
        (unfold set_scope set_header in record { method = refl; path = refl; body_limit = refl })
]

granted-Alike : (known : Dict Principal) (r g : Request) → authorize known r ≡ grant g → Alike r g
unfolding authorize
granted-Alike known r g e =
    let (p, c, scope) = scoped_grants r g (check_auth known r) e in scope-Alike p r g scope

-- The checks of `validateRequest` on a submission with a slash behind its path.
unlimited :
    (limit : ℕ) (r : Request)
    → r.method ≡ "POST"
    → r.path ≡ "/v1/assistant/jobs/"
    → byte_length (header "X-Request-Id" r) ≤ 128
    → byte_length (header "Idempotency-Key" r) ≤ 256
    → validate_request limit r ≡ valid r
unfolding validate_request is_json_post ◌=s◌
unlimited limit r m p short key =
    let a : ltb 128 (byte_length (header "X-Request-Id" r)) ≡ false = ground arith in
    let b : ltb 256 (byte_length (header "Idempotency-Key" r)) ≡ false = ground arith in
    rw (a, b, m, p) refl

routed_submission :
    (r : Request)
    → r.method ≡ "POST"
    → r.path ≡ "/v1/assistant/jobs/"
    → find_route routes r ≡ some (submit_brief_job, [])
unfolding find_route routes ◌=s◌ is_empty
routed_submission r m p = rw (m, p) refl

allowed_on :
    (g : Request) (m : Middleware) (a : Limiter × Bool)
    → a.1 ≡ true
    → validate_request m.cfg.max_body_bytes g ≡ valid g
    → (after_limit g m a).1 ≡ passed g
unfolding after_limit validation after_validation
allowed_on g m (l, b) h fine = rw (h, fine) refl

limited_on :
    (key : String) (t : Clock) (g : Request) (m : Middleware)
    → m.cfg.rate_limit_enabled ≡ true
    → (allow key t.now m.limiter).1 ≡ true
    → validate_request m.cfg.max_body_bytes g ≡ valid g
    → (limited key t g m).1 ≡ passed g
unfolding limited
limited_on key t g m limits allowed fine =
    ap (λ (x : Middleware × Passage). x.1) (if_true m.cfg.rate_limit_enabled _ _ limits)
    ∙ allowed_on g m (allow key t.now m.limiter) allowed fine

-- A request that the token grants and the limiter allows is handed on if it is valid.
handed_on :
    (key : String) (t : Clock) (r g : Request) (m : Middleware)
    → m.cfg.auth_enabled ≡ true
    → m.cfg.rate_limit_enabled ≡ true
    → authorize m.known r ≡ grant g
    → (allow key t.now m.limiter).1 ≡ true
    → validate_request m.cfg.max_body_bytes g ≡ valid g
    → (checked key t r m).1 ≡ passed g
unfolding checked after_auth
handed_on key t r g m on limits granted allowed fine =
    ap (λ (x : Middleware × Passage). x.1) (if_true m.cfg.auth_enabled _ _ on)
    ∙ ap (λ c. (after_auth key t m c).1) granted
    ∙ limited_on key t g m limits allowed fine

module _ (trace : String → String) (split_host : String → Option String) where
  -- With a slash behind its path, a submission that its token grants and the limiter allows, with
  -- headers of legal lengths, passes the gateway with all its checks on, whatever its content type
  -- and its length, with no other limit on its body than it came with; and the server takes it as a
  -- submission.
  pub slash_bypasses :
      (t : Clock) (r g : Request) (m : Middleware)
      → m.cfg.auth_enabled ≡ true
      → m.cfg.rate_limit_enabled ≡ true
      → r.method ≡ "POST"
      → r.path ≡ "/v1/assistant/jobs/"
      → authorize m.known (named trace t r m) ≡ grant g
      → (allow (client_key split_host r) t.now m.limiter).1 ≡ true
      → byte_length (header "X-Request-Id" g) ≤ 128
      → byte_length (header "Idempotency-Key" g) ≤ 256
      → ((enter trace split_host t r m).1 ≡ passed g)
        × (g.body_limit ≡ r.body_limit)
        × (find_route routes g ≡ some (submit_brief_job, []))
  unfolding enter
  slash_bypasses t r g m on limits is_post path granted allowed short key =
      let same = request_id_settings t r m in
      let first = request_id-Alike t r m in
      let before = Alike-trans first.0 (traceparent-Alike trace t (inject_request_id t r m).1) in
      let alike = Alike-trans before (granted-Alike m.known (named trace t r m) g granted) in
      let method = alike.method ∙ is_post in
      let slashed = alike.path ∙ path in
      (
        handed_on (client_key split_host r) t (named trace t r m) g (inject_request_id t r m).0
            (ap (λ c. c.auth_enabled) same.1 ∙ on) (ap (λ c. c.rate_limit_enabled) same.1 ∙ limits)
            (ap (λ k. authorize k (named trace t r m)) same.0 ∙ granted)
            (ap (λ l. (allow (client_key split_host r) t.now l).1) first.1 ∙ allowed)
            (unlimited (inject_request_id t r m).0.cfg.max_body_bytes g method slashed short key),
        alike.body_limit,
        routed_submission g method slashed,
      )
