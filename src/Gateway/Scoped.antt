-- ===== src/Gateway/Scoped.antt =====
-- What holds of a request that `ServeHTTP` of internal/api/gateway/middleware.go hands on.
use cova.Base.{
  ℕ, String, ◌≡◌, refl, Bool, true, false, not, Option, none, some, List, [], ◌∷◌, Dict, lookup,
  if◌then◌else◌, inl, inr, if_true, if_false, subst, ap, sym, ◌∙◌, Bool-cases, ◌=s◌, is_empty,
  is_blank, trim_space, lookup-insert,
}
use cova.Base.Fold.{equal_fold, has_lower_prefix}
use cova.Base.Bytes.{fields}
use cova.Http.{Request, header, set_header, or_blank}
use cova.Gateway.Auth.{
  Principal, Checked, refuse, grant, principal_of, bearer, check_auth, inject_tenant_scope, scoped,
  authorize,
}
use cova.Gateway.Limiter.{Limiter, allow, client_key}
use cova.Gateway.Handler.{
  Middleware, Clock, inject_request_id, inject_traceparent, Validated, invalid, valid, is_json_post,
  too_long, validate_request, Invalid, invalid_header, unsupported_media_type, payload_too_large,
  Passage, passed, after_validation, validation, after_limit, limited, after_auth, checked, enter,
}

pub header-set_header :
    (name key value : String) (r : Request)
    → header name (set_header key value r) ≡ (if key =s name then value else header name r)
unfolding header set_header or_blank
header-set_header name key value r = elim (Bool-cases (key =s name)) [
  | inl same ↦ rw (lookup-insert key name value r.headers, same) refl
  | inr other ↦ rw (lookup-insert key name value r.headers, other) refl
]

-- The request as it is checked, with the ids that were missing.
abbrev pub named : (String → String) → Clock → Request → Middleware → Request
named trace t r m = inject_traceparent trace t (inject_request_id t r m).1

request_id_keeps :
    (name : String) (t : Clock) (r : Request) (m : Middleware)
    → ("X-Request-Id" =s name) ≡ false
    → header name (inject_request_id t r m).1 ≡ header name r
unfolding inject_request_id
request_id_keeps name t r m other = elim (Bool-cases (is_blank (header "X-Request-Id" r))) [
  | inl missing ↦ rw (missing, header-set_header, other) refl
  | inr given ↦ rw given refl
]

traceparent_keeps :
    (name : String) (trace : String → String) (t : Clock) (r : Request)
    → ("traceparent" =s name) ≡ false
    → header name (inject_traceparent trace t r) ≡ header name r
unfolding inject_traceparent
traceparent_keeps name trace t r other = elim (Bool-cases (is_blank (header "traceparent" r))) [
  | inl missing ↦ rw (missing, header-set_header, other) refl
  | inr given ↦ rw given refl
]

named_keeps :
    (name : String) (trace : String → String) (t : Clock) (r : Request) (m : Middleware)
    → ("X-Request-Id" =s name) ≡ false
    → ("traceparent" =s name) ≡ false
    → header name (named trace t r m) ≡ header name r
named_keeps name trace t r m id parent =
    traceparent_keeps name trace t (inject_request_id t r m).1 parent
    ∙ request_id_keeps name t r m id

pub request_id_settings :
    (t : Clock) (r : Request) (m : Middleware)
    → ((inject_request_id t r m).0.known ≡ m.known) × ((inject_request_id t r m).0.cfg ≡ m.cfg)
unfolding inject_request_id
request_id_settings t r m = elim (Bool-cases (is_blank (header "X-Request-Id" r))) [
  | inl missing ↦ rw missing (refl, refl)
  | inr given ↦ rw given (refl, refl)
]

not_refused :
    (b : Bool) (x : Invalid) (v : Validated) (r : Request)
    → (if b then invalid x else v) ≡ valid r
    → v ≡ valid r
not_refused true x v r e = cc e
not_refused false x v r e = e

post_headers :
    (b : Bool) (limit : ℕ) (v : Validated) (r r' : Request)
    → (v ≡ valid r' → r'.headers ≡ r.headers)
    → (if b then valid r else v) ≡ valid r'
    → r'.headers ≡ r.headers
post_headers true limit v r r' h e = cc e
post_headers false limit v r r' h e = h e

validate_request_headers :
    (limit : ℕ) (r r' : Request) → validate_request limit r ≡ valid r' → r'.headers ≡ r.headers
unfolding validate_request
validate_request_headers limit r r' e =
    post_headers (not (is_json_post r)) limit _ r r'
      (λ h.
        let typed =
          not_refused
            (not (has_lower_prefix "application/json" (trim_space (header "Content-Type" r))))
            unsupported_media_type _ r' h in
        let small =
          not_refused (too_long limit r.content_length) payload_too_large
            (valid (record r { body_limit = some limit })) r' typed in
        cc small)
      (not_refused _ invalid_header _ r' (not_refused _ invalid_header _ r' e))

after_validation_valid : (v : Validated) (r : Request) → after_validation v ≡ passed r → v ≡ valid r
unfolding after_validation
after_validation_valid (invalid x) r e = cc e
after_validation_valid (valid r') r e = cc e

validation_headers :
    (r r' : Request) (m : Middleware) → validation r m ≡ passed r' → r'.headers ≡ r.headers
unfolding validation
validation_headers r r' m e =
    validate_request_headers m.cfg.max_body_bytes r r' (after_validation_valid _ r' e)

after_limit_headers :
    (r r' : Request) (m : Middleware) (a : Limiter × Bool)
    → (after_limit r m a).1 ≡ passed r'
    → r'.headers ≡ r.headers
unfolding after_limit
after_limit_headers r r' m (l, true) e = validation_headers r r' m e
after_limit_headers r r' m (l, false) e = cc e

limited_headers :
    (key : String) (t : Clock) (r r' : Request) (m : Middleware)
    → (limited key t r m).1 ≡ passed r'
    → r'.headers ≡ r.headers
unfolding limited
limited_headers key t r r' m e = elim (Bool-cases m.cfg.rate_limit_enabled) [
  | inl on ↦
      after_limit_headers r r' m (allow key t.now m.limiter)
        (sym (ap (λ (x : Middleware × Passage). x.1) (if_true m.cfg.rate_limit_enabled _ _ on)) ∙ e)
  | inr off ↦
      validation_headers r r' m (
        sym (ap (λ (x : Middleware × Passage). x.1) (if_false m.cfg.rate_limit_enabled _ _ off))
        ∙ e)
]

-- The words of the Authorization header, and the scope of the token among them.
pub record Bearer (known : Dict Principal) (r : Request) (p : Principal) : Type 0 where
  pub scheme : String
  pub token : String
  pub words : fields (trim_space (header "Authorization" r)) ≡ scheme ∷ token ∷ []
  pub is_bearer : equal_fold "bearer" scheme ≡ true
  pub holder : lookup token known ≡ some p

principal_granted : (o : Option Principal) (p : Principal) → principal_of o ≡ grant p → o ≡ some p
unfolding principal_of
principal_granted none p e = cc e
principal_granted (some q) p e = cc e

bearer_grants :
    (known : Dict Principal) (words : List String) (p : Principal)
    → bearer known words ≡ grant p
    → (scheme token : String) × (words ≡ scheme ∷ token ∷ [])
      × (equal_fold "bearer" scheme ≡ true)
      × (lookup token known ≡ some p)
unfolding bearer principal_of
bearer_grants known [] p e = cc e
bearer_grants known (scheme ∷ []) p e = cc e
bearer_grants known (scheme ∷ token ∷ []) p e = elim (Bool-cases (equal_fold "bearer" scheme)) [
  | inl right ↦
      (scheme, token, refl, right, principal_granted (lookup token known) p (rw right at e))
  | inr wrong ↦ absurd (let no = rw wrong at e in cc no)
]
bearer_grants known (scheme ∷ token ∷ extra ∷ words) p e = cc e

check_auth-Bearer :
    (known : Dict Principal) (r : Request) (p : Principal)
    → check_auth known r ≡ grant p
    → Bearer known r p
unfolding check_auth
check_auth-Bearer known r p e =
    elim (Bool-cases (is_empty (trim_space (header "Authorization" r)))) [
      | inl missing ↦ absurd (let no = rw missing at e in cc no)
      | inr given ↦
          let g =
            bearer_grants known (fields (trim_space (header "Authorization" r))) p
              (rw given at e) in
          record { scheme = g.0; token = g.1; words = g.2; is_bearer = g.3; holder = g.4 }
    ]

-- Two requests with the same Authorization header have the same token.
Bearer-alike :
    (known : Dict Principal) (r r' : Request) (p : Principal)
    → header "Authorization" r' ≡ header "Authorization" r
    → Bearer known r' p
    → Bearer known r p
Bearer-alike known r r' p e b = record {
  scheme = b.scheme;
  token = b.token;
  words = rw (← e) b.words;
  is_bearer = b.is_bearer;
  holder = b.holder;
}

pub scoped_grants :
    (r r' : Request) (c : Checked Principal)
    → scoped r c ≡ grant r'
    → (p : Principal) × (c ≡ grant p) × (inject_tenant_scope p r ≡ grant r')
unfolding scoped
scoped_grants r r' (refuse x) e = cc e
scoped_grants r r' (grant p) e = (p, refl, e)

after_auth_grants :
    (key : String) (t : Clock) (m : Middleware) (c : Checked Request) (r' : Request)
    → (after_auth key t m c).1 ≡ passed r'
    → (r : Request) × (c ≡ grant r) × (r'.headers ≡ r.headers)
unfolding after_auth
after_auth_grants key t m (refuse x) r' e = cc e
after_auth_grants key t m (grant r) r' e = (r, refl, limited_headers key t r r' m e)

-- What is known of a request that passes while tokens are checked: the request that `authorize` has
-- seen, and what it has made of it.
pub record Cleared (known : Dict Principal) (r r' : Request) : Type 0 where
  pub principal : Principal
  pub bearer : Bearer known r principal
  pub asked : Request
  pub granted : Request
  pub in_scope : inject_tenant_scope principal asked ≡ grant granted
  pub sent : r'.headers ≡ granted.headers
  pub asked_tenant : header "X-Tenant-Id" asked ≡ header "X-Tenant-Id" r
  pub asked_project : header "X-Project-Id" asked ≡ header "X-Project-Id" r

checked-Cleared :
    (key : String) (t : Clock) (r r' : Request) (m : Middleware)
    → m.cfg.auth_enabled ≡ true
    → (checked key t r m).1 ≡ passed r'
    → Cleared m.known r r'
unfolding checked authorize
checked-Cleared key t r r' m on e =
    let (granted, c, sent) =
      after_auth_grants key t m (authorize m.known r) r'
        (sym (ap (λ (x : Middleware × Passage). x.1) (if_true m.cfg.auth_enabled _ _ on)) ∙ e) in
    let (p, a, s) = scoped_grants r granted (check_auth m.known r) c in
    record {
      principal = p;
      bearer = check_auth-Bearer m.known r p a;
      asked = r;
      granted = granted;
      in_scope = s;
      sent = sent;
      asked_tenant = refl;
      asked_project = refl;
    }

module _ (trace : String → String) (split_host : String → Option String) where
  pub enter-Cleared :
      (t : Clock) (r r' : Request) (m : Middleware)
      → m.cfg.auth_enabled ≡ true
      → (enter trace split_host t r m).1 ≡ passed r'
      → Cleared m.known r r'
  unfolding enter ◌=s◌
  enter-Cleared t r r' m on e =
      let s = request_id_settings t r m in
      let a =
        checked-Cleared (client_key split_host r) t (named trace t r m) r'
          (inject_request_id t r m).0 (rw s.1 on) e in
      record {
        principal = a.principal;
        bearer =
            Bearer-alike m.known r (named trace t r m) a.principal
              (named_keeps "Authorization" trace t r m refl refl)
              (subst (λ k. Bearer k (named trace t r m) a.principal) s.0 a.bearer);
        asked = a.asked;
        granted = a.granted;
        in_scope = a.in_scope;
        sent = a.sent;
        asked_tenant = a.asked_tenant ∙ named_keeps "X-Tenant-Id" trace t r m refl refl;
        asked_project = a.asked_project ∙ named_keeps "X-Project-Id" trace t r m refl refl;
      }
