-- ===== src/Gateway/Admitted.antt =====
-- internal/api/gateway/middleware.go: the scope of a request that `ServeHTTP` hands on.
use cova.Base.{
  String, ◌≡◌, refl, sym, ◌∙◌, ap, Bool, true, false, ◌&&◌, ◌⊎◌, inl, inr, Bool-cases, Option, Dict,
  if◌then◌else◌, if_true, if_false, ◌=s◌, =s_iff, is_empty, is_blank, trim_space,
}
use cova.Http.{Request, header}
use cova.Gateway.Auth.{Principal, Checked, refuse, grant, set_scope, differs, inject_tenant_scope}
use cova.Gateway.Handler.{Middleware, Clock, passed, enter}
use cova.Gateway.Scoped.{Bearer, enter-Cleared}
use cova.Gateway.Tenants.{not_denied, inject_scope_headers, header_alike}

-- A caller's header goes with an id: it is blank, or names the id.
unfoldable pub Suits : String → String → Type 0
Suits text id = (is_blank text ≡ true) ⊎ (trim_space text ≡ id)

-- The headers of the request handed on: those of the caller for a token without a scope, else those
-- of the token's scope, which the caller's go with.
pub data InScope (p : Principal) (r r' : Request) : Type 0 where
  unbound :
      is_empty p.tenant_id && is_empty p.project_id ≡ true
      → header "X-Tenant-Id" r' ≡ header "X-Tenant-Id" r
      → header "X-Project-Id" r' ≡ header "X-Project-Id" r
      → InScope p r r'
  bound :
      is_empty p.tenant_id && is_empty p.project_id ≡ false
      → Suits (header "X-Tenant-Id" r) p.tenant_id
      → Suits (header "X-Project-Id" r) p.project_id
      → header "X-Tenant-Id" r' ≡ p.tenant_id
      → header "X-Project-Id" r' ≡ p.project_id
      → InScope p r r'

pub record Admitted (known : Dict Principal) (r r' : Request) : Type 0 where
  pub principal : Principal
  pub bearer : Bearer known r principal
  pub in_scope : InScope principal r r'

differs-Suits : (text id : String) → differs text id ≡ false → Suits text id
unfolding differs Suits
differs-Suits text id e = elim (Bool-cases (is_blank text)) [
  | inl blank ↦ inl blank
  | inr given ↦ elim (Bool-cases (trim_space text =s id)) [
    | inl same ↦ inr ((=s_iff (trim_space text) id).0 same)
    | inr other ↦ absurd (let no = rw (given, other) at e in cc no)
  ]
]

-- A test that does not deny.
not_denied_false :
    (b : Bool) (x : String) (v : Checked Request) (r : Request)
    → (if b then refuse x else v) ≡ grant r
    → b ≡ false
not_denied_false true x v r e = cc e
not_denied_false false x v r e = refl

-- The checks of a token with a scope.
inject_tenant_scope-Suits :
    (p : Principal) (r r' : Request)
    → is_empty p.tenant_id && is_empty p.project_id ≡ false
    → inject_tenant_scope p r ≡ grant r'
    → Suits (header "X-Tenant-Id" r) p.tenant_id × Suits (header "X-Project-Id" r) p.project_id
unfolding inject_tenant_scope
inject_tenant_scope-Suits p r r' limited e =
    let asked = sym (if_false (is_empty p.tenant_id && is_empty p.project_id) _ _ limited) ∙ e in
    let wrong_tenant : String = "X-Tenant-Id does not match authenticated token scope" in
    let tenant =
      not_denied (differs (header "X-Tenant-Id" r) p.tenant_id) wrong_tenant _ r' asked in
    (
      differs-Suits (header "X-Tenant-Id" r) p.tenant_id
          (not_denied_false (differs (header "X-Tenant-Id" r) p.tenant_id) wrong_tenant _ r' asked),
      differs-Suits (header "X-Project-Id" r) p.project_id (
          not_denied_false (differs (header "X-Project-Id" r) p.project_id)
            "X-Project-Id does not match authenticated token scope" (grant (set_scope p r)) r'
            tenant),
    )

unbound_same :
    (p : Principal) (r r' : Request)
    → is_empty p.tenant_id && is_empty p.project_id ≡ true
    → inject_tenant_scope p r ≡ grant r'
    → r ≡ r'
unfolding inject_tenant_scope
unbound_same p r r' free e =
    let same : grant r ≡ grant r' =
      sym (if_true (is_empty p.tenant_id && is_empty p.project_id) _ _ free) ∙ e in
    cc same

module _ (trace : String → String) (split_host : String → Option String) where
  -- While tokens are checked, a request passes only with a bearer token of the table. When the token
  -- has a scope, each of the tenant and project headers of the caller is blank or names that scope,
  -- and the request handed on has exactly the scope's two headers; when it has none, the request
  -- handed on has the caller's two headers.
  pub enter-Admitted :
      (t : Clock) (r r' : Request) (m : Middleware)
      → m.cfg.auth_enabled ≡ true
      → (enter trace split_host t r m).1 ≡ passed r'
      → Admitted m.known r r'
  enter-Admitted t r r' m on e =
      let a = enter-Cleared trace split_host t r r' m on e in
      let p = a.principal in
      let sent_tenant = header_alike "X-Tenant-Id" a.granted r' a.sent in
      let sent_project = header_alike "X-Project-Id" a.granted r' a.sent in
      record {
        principal = p;
        bearer = a.bearer;
        in_scope = elim (Bool-cases (is_empty p.tenant_id && is_empty p.project_id)) [
          | inl free ↦
              let same = unbound_same p a.asked a.granted free a.in_scope in
              unbound free (sent_tenant ∙ sym (ap (header "X-Tenant-Id") same) ∙ a.asked_tenant)
                (sent_project ∙ sym (ap (header "X-Project-Id") same) ∙ a.asked_project)
          | inr limited ↦
              let suits = inject_tenant_scope-Suits p a.asked a.granted limited a.in_scope in
              let set = inject_scope_headers p a.asked a.granted limited a.in_scope in
              bound limited (rw a.asked_tenant at suits.0) (rw a.asked_project at suits.1)
                (sent_tenant ∙ set.0) (sent_project ∙ set.1)
        ];
      }
