-- ===== src/Gateway/Tenants.antt =====
-- The gateway before the server: what a caller with a bound token is told, through
-- internal/api/gateway/middleware.go, internal/api/openapi/server_gen.go and
-- internal/orchestrator/server.go.
use cova.Base.{
  ℕ, String, ◌≡◌, refl, sym, subst, ◌∙◌, Bool, true, false, ◌&&◌, ◌≢◌, ap, List, some, Option, Dict,
  if◌then◌else◌, if_false, ◌=s◌, is_empty, trim_space,
}
use cova.Http.{Request, header}
use cova.Gateway.Auth.{Principal, Checked, refuse, grant, set_scope, differs, inject_tenant_scope}
use cova.Gateway.Handler.{Middleware, Clock, passed, enter}
use cova.Gateway.Scoped.{Bearer, enter-Cleared, header-set_header}
use cova.Api.{SubmitBriefRequest, Reply}
use cova.Webhook.Dispatcher.{DeliveryRecord}
use cova.Openapi.{find_route, routes, submit_brief_job, trimmed_header}
use cova.Openapi.Dispatch.{Payload, serve_http}
use cova.Orchestrator.Types.{Server}
use cova.Orchestrator.Service.{Readings, service}
use cova.Orchestrator.Served.{served-Owns}
use cova.Orchestrator.Scope.{Owns}

Bearer_unique :
    (known : Dict Principal) (r : Request) (p q : Principal)
    → Bearer known r p
    → Bearer known r q
    → p ≡ q
Bearer_unique known r p q a b =
    let wa = a.words in let wb = b.words in let ha = a.holder in let hb = b.holder in cc

pub set_scope_headers :
    (p : Principal) (r : Request)
    → (header "X-Tenant-Id" (set_scope p r) ≡ p.tenant_id)
      × (header "X-Project-Id" (set_scope p r) ≡ p.project_id)
unfolding set_scope
set_scope_headers p r = (
  rw (header-set_header, header-set_header) (unfold ◌=s◌ in refl),
  rw header-set_header (unfold ◌=s◌ in refl),
)

pub not_denied :
    (b : Bool) (x : String) (v : Checked Request) (r : Request)
    → (if b then refuse x else v) ≡ grant r
    → v ≡ grant r
not_denied true x v r e = cc e
not_denied false x v r e = e

-- A token with a scope puts its scope on the request.
pub inject_scope_headers :
    (p : Principal) (r r' : Request)
    → (is_empty p.tenant_id && is_empty p.project_id) ≡ false
    → inject_tenant_scope p r ≡ grant r'
    → (header "X-Tenant-Id" r' ≡ p.tenant_id) × (header "X-Project-Id" r' ≡ p.project_id)
unfolding inject_tenant_scope
inject_scope_headers p r r' bound e =
    let asked = sym (if_false (is_empty p.tenant_id && is_empty p.project_id) _ _ bound) ∙ e in
    let tenant =
      not_denied (differs (header "X-Tenant-Id" r) p.tenant_id)
        "X-Tenant-Id does not match authenticated token scope" _ r' asked in
    let project =
      not_denied (differs (header "X-Project-Id" r) p.project_id)
        "X-Project-Id does not match authenticated token scope" (grant (set_scope p r)) r' tenant in
    let is_it : set_scope p r ≡ r' = cc project in
    subst (λ q. (header "X-Tenant-Id" q ≡ p.tenant_id) × (header "X-Project-Id" q ≡ p.project_id))
      is_it (set_scope_headers p r)

pub header_alike :
    (name : String) (r r' : Request) → r'.headers ≡ r.headers → header name r' ≡ header name r
unfolding header
header_alike name r r' e = rw e refl

module _ (trace : String → String) (split_host : String → Option String) where
  passed_scope :
      (t : Clock) (r r' : Request) (m : Middleware) (p : Principal)
      → m.cfg.auth_enabled ≡ true
      → Bearer m.known r p
      → (is_empty p.tenant_id && is_empty p.project_id) ≡ false
      → (enter trace split_host t r m).1 ≡ passed r'
      → (header "X-Tenant-Id" r' ≡ p.tenant_id) × (header "X-Project-Id" r' ≡ p.project_id)
  passed_scope t r r' m p on token bound e =
      let a = enter-Cleared trace split_host t r r' m on e in
      let same = Bearer_unique m.known r a.principal p a.bearer token in
      let h =
        inject_scope_headers p a.asked a.granted bound
          (subst (λ q. inject_tenant_scope q a.asked ≡ grant a.granted) same a.in_scope) in
      (
        header_alike "X-Tenant-Id" a.granted r' a.sent ∙ h.0,
        header_alike "X-Project-Id" a.granted r' a.sent ∙ h.1,
      )

  -- While the gateway checks tokens, a request with a token bound to a tenant and a project that
  -- reaches the server, and is not a submission, is answered with nothing of a job but of one of that
  -- tenant and that project, whatever its own headers say.
  pub bound_tokens_isolate :
      (hash_request : SubmitBriefRequest → Option String)
      (reader : Option (String → Option (List DeliveryRecord))) (render : ℕ → String) (c : Readings)
      (t : Clock) (r r' : Request) (m : Middleware) (p : Principal) (body : Payload) (s : Server)
      (reply : Reply)
      → m.cfg.auth_enabled ≡ true
      → Bearer m.known r p
      → (is_empty p.tenant_id && is_empty p.project_id) ≡ false
      → (enter trace split_host t r m).1 ≡ passed r'
      → ((params : Dict String) → find_route routes r' ≢ some (submit_brief_job, params))
      → (serve_http (service hash_request reader render c) r' body s).1 ≡ some reply
      → Owns (trim_space p.tenant_id) (trim_space p.project_id) reply.body
  bound_tokens_isolate hash_request reader render c t r r' m p body s reply on token bound e other
        told =
      let h = passed_scope t r r' m p on token bound e in
      let tenant : trimmed_header "X-Tenant-Id" r' ≡ trim_space p.tenant_id =
        unfold trimmed_header in ap trim_space h.0 in
      let project : trimmed_header "X-Project-Id" r' ≡ trim_space p.project_id =
        unfold trimmed_header in ap trim_space h.1 in
      subst (λ b. Owns (trim_space p.tenant_id) b reply.body) project
        (subst (λ a. Owns a (trimmed_header "X-Project-Id" r') reply.body) tenant
          (served-Owns hash_request reader render c r' body s reply other told))
