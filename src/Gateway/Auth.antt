-- ===== src/Gateway/Auth.antt =====
-- internal/api/gateway/middleware.go: the table of tokens that `NewHandler` builds, `checkAuth` and
-- `injectTenantScope`.
use cova.Base.{
  String, Bool, true, false, ◌&&◌, ◌||◌, not, Option, none, some, List, [], ◌∷◌, Dict, lookup,
  insert, if◌then◌else◌, ◌=s◌, is_empty, is_blank, trim_space,
}
use cova.Base.Fold.{equal_fold}
use cova.Base.Bytes.{fields}
use cova.Http.{Request, header, set_header}

pub record AuthBinding : Type 0 where
  pub token : String
  pub tenant_id : String
  pub project_id : String

-- `authPrincipal`
pub record Principal : Type 0 where
  pub tenant_id : String
  pub project_id : String

pub data Checked {ℓ} (A : Type ℓ) : Type ℓ where
  refuse : String → Checked A
  grant : A → Checked A

unfoldable pub plain_tokens : List String → Dict Principal → Dict Principal
plain_tokens [] known = known
plain_tokens (raw ∷ tokens) known = plain_tokens tokens (
    if is_blank raw
    then known
    else insert (trim_space raw) (record { tenant_id = ""; project_id = "" }) known)

unfoldable pub bind : AuthBinding → Dict Principal → Checked (Dict Principal)
bind b known =
    if is_blank b.token
    then grant known
    else if is_blank b.tenant_id || is_blank b.project_id
    then refuse "auth binding requires token + tenant_id + project_id"
    else grant (
        insert (trim_space b.token)
          (record { tenant_id = trim_space b.tenant_id; project_id = trim_space b.project_id })
          known)

unfoldable pub bind_more :
    (Dict Principal → Checked (Dict Principal))
    → Checked (Dict Principal)
    → Checked (Dict Principal)
bind_more more (refuse e) = refuse e
bind_more more (grant known) = more known

unfoldable pub bound_tokens : List AuthBinding → Dict Principal → Checked (Dict Principal)
unfolding bind bind_more
bound_tokens [] known = grant known
bound_tokens (b ∷ bindings) known = bind_more (bound_tokens bindings) (bind b known)

unfoldable pub is_none : List (String × Principal) → Bool
is_none [] = true
is_none (p ∷ known) = false

unfoldable pub enough : Bool → Checked (Dict Principal) → Checked (Dict Principal)
unfolding is_none
enough enabled (refuse e) = refuse e
enough enabled (grant known) =
    if enabled && is_none known
    then refuse "auth is enabled but no auth tokens configured"
    else grant known

-- The part of `NewHandler` on tokens.
unfoldable pub auth_tokens : Bool → List String → List AuthBinding → Checked (Dict Principal)
unfolding enough bound_tokens plain_tokens
auth_tokens enabled tokens bindings =
    enough enabled (bound_tokens bindings (plain_tokens tokens []))

unfoldable pub principal_of : Option Principal → Checked Principal
principal_of none = refuse "invalid bearer token"
principal_of (some p) = grant p

-- The words of the Authorization header.
unfoldable pub bearer : Dict Principal → List String → Checked Principal
unfolding principal_of
bearer known [] = refuse "Authorization must use Bearer token"
bearer known (scheme ∷ []) = refuse "Authorization must use Bearer token"
bearer known (scheme ∷ token ∷ []) =
    if equal_fold "bearer" scheme
    then principal_of (lookup token known)
    else refuse "Authorization must use Bearer token"
bearer known (scheme ∷ token ∷ extra ∷ words) = refuse "Authorization must use Bearer token"

unfoldable pub check_auth : Dict Principal → Request → Checked Principal
unfolding bearer
check_auth known r =
    let raw = trim_space (header "Authorization" r) in
    if is_empty raw then refuse "missing Authorization header" else bearer known (fields raw)

unfoldable pub set_scope : Principal → Request → Request
set_scope p r = set_header "X-Project-Id" p.project_id (set_header "X-Tenant-Id" p.tenant_id r)

-- The id that a header names is not the token's.
unfoldable pub differs : String → String → Bool
differs text id = not (is_blank text) && not (trim_space text =s id)

-- `injectTenantScope`: the request with the token's scope.
unfoldable pub inject_tenant_scope : Principal → Request → Checked Request
unfolding set_scope differs
inject_tenant_scope p r =
    if is_empty p.tenant_id && is_empty p.project_id
    then grant r
    else if differs (header "X-Tenant-Id" r) p.tenant_id
    then refuse "X-Tenant-Id does not match authenticated token scope"
    else if differs (header "X-Project-Id" r) p.project_id
    then refuse "X-Project-Id does not match authenticated token scope"
    else grant (set_scope p r)

unfoldable pub scoped : Request → Checked Principal → Checked Request
unfolding inject_tenant_scope
scoped r (refuse e) = refuse e
scoped r (grant p) = inject_tenant_scope p r

-- Both checks of `ServeHTTP` on the token.
unfoldable pub authorize : Dict Principal → Request → Checked Request
unfolding scoped check_auth
authorize known r = scoped r (check_auth known r)
