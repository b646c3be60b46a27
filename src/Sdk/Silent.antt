-- ===== src/Sdk/Silent.antt =====
-- sdk/go/cova/client_gen.go: the requests of the client name no tenant.
use cova.Base.{
  String, ◌+s◌, ◌≡◌, refl, sym, ap, ◌∙◌, Bool, Bool-cases, true, false, not, ◌&&◌, Option, none, [],
  ◌∷◌, inl, inr, Dict, is_empty, is_blank, ◌=s◌, insert, lookup,
}
use cova.Http.{Request, header, set_header, or_blank}
use cova.Gateway.Scoped.{header-set_header}
use cova.Openapi.Dispatch.{Payload}
use cova.Sdk.{set_unless_blank, set_headers, set_when, has_body, json_request, header_unless_empty}
use cova.Sdk.Calls.{CallIds, call_headers, submit_headers}

-- The request names no tenant.
abbrev pub IsSilent : Request → Type 0
IsSilent r = header "X-Tenant-Id" r ≡ ""

-- None of the headers is the tenant's.
unfoldable pub spares : Dict String → Bool
spares [] = true
spares ((name, value) ∷ headers) = not (name =s "X-Tenant-Id") && spares headers

set_header-IsSilent :
    (name value : String) (r : Request)
    → name =s "X-Tenant-Id" ≡ false
    → IsSilent r
    → IsSilent (set_header name value r)
set_header-IsSilent name value r e h = rw (header-set_header "X-Tenant-Id" name value r, e) h

set_when-IsSilent :
    (b : Bool) (name value : String) (r : Request)
    → name =s "X-Tenant-Id" ≡ false
    → IsSilent r
    → IsSilent (set_when b name value r)
unfolding set_when
set_when-IsSilent true name value r e h = set_header-IsSilent name value r e h
set_when-IsSilent false name value r e h = h

set_unless_blank-IsSilent :
    (name value : String) (r : Request)
    → name =s "X-Tenant-Id" ≡ false
    → IsSilent r
    → IsSilent (set_unless_blank name value r)
unfolding set_unless_blank
set_unless_blank-IsSilent name value r e h = elim (Bool-cases (is_blank value)) [
  | inl b ↦ rw b h
  | inr b ↦ rw b (set_header-IsSilent name value r e h)
]

set_headers-IsSilent :
    (headers : Dict String) (r : Request)
    → spares headers ≡ true
    → IsSilent r
    → IsSilent (set_headers headers r)
unfolding set_headers spares
set_headers-IsSilent [] r e h = h
set_headers-IsSilent ((name, value) ∷ headers) r e h = elim (Bool-cases (name =s "X-Tenant-Id")) [
  | inl b ↦ cc (e, ap (λ b. not b && spares headers) b)
  | inr b ↦
      set_headers-IsSilent headers (set_unless_blank name value r)
        (sym (ap (λ b. not b && spares headers) b) ∙ e) (set_unless_blank-IsSilent name value r b h)
]

abbrev pub plain_request : String → String → Request
plain_request method path = record {
  method = method;
  path = path;
  headers = [];
  remote_addr = "";
  content_length = none;
  body_limit = none;
}

pub json_request-IsSilent :
    (token method path : String) (body : Option Payload) (headers : Dict String)
    → spares headers ≡ true
    → IsSilent (json_request token method path body headers)
unfolding json_request ◌=s◌ header or_blank lookup
json_request-IsSilent token method path body headers e =
    let plain = plain_request method path in
    let typed = set_when (has_body body) "Content-Type" "application/json" plain in
    let accepting = set_header "Accept" "application/json, application/problem+json" typed in
    set_headers-IsSilent headers _ e (
      set_when-IsSilent (not (is_empty token)) "Authorization" ("Bearer " +s token) accepting refl (
        set_header-IsSilent "Accept" "application/json, application/problem+json" typed refl
          (set_when-IsSilent (has_body body) "Content-Type" "application/json" plain refl refl)))

pub call_headers-spares : (ids : CallIds) → spares (call_headers ids) ≡ true
unfolding call_headers header_unless_empty spares ◌=s◌ insert
call_headers-spares ids = elim (Bool-cases (is_empty ids.request_id)) [
  | inl e ↦ rw e refl
  | inr e ↦ rw e refl
]

pub submit_headers-spares : (key : String) (ids : CallIds) → spares (submit_headers key ids) ≡ true
unfolding submit_headers call_headers header_unless_empty spares ◌=s◌ insert
submit_headers-spares key ids = elim (Bool-cases (is_empty ids.request_id)) [
  | inl e ↦ elim (Bool-cases (is_empty key)) [ inl f ↦ rw (e, f) refl | inr f ↦ rw (e, f) refl ]
  | inr e ↦ elim (Bool-cases (is_empty key)) [ inl f ↦ rw (e, f) refl | inr f ↦ rw (e, f) refl ]
]
