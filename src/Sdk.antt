-- ===== src/Sdk.antt =====
-- sdk/go/cova/client_gen.go: the generated client. Go's http client `H` is a parameter, with what it
-- does (`send`, on the state `S` of whatever it reaches), the path of a URL once net/url has parsed
-- it, and encoding/json. A request's body is kept as the two types it can be.
mod Calls
mod Workspace
mod Silent
mod Refused
mod Paths
mod Routed
mod Examples
use cova.Base.{
  ℕ, String, ◌+s◌, ◌≡◌, Bool, true, false, not, Option, none, some, ◌⊎◌, inl, inr, List, [], ◌∷◌,
  Dict, insert, ◌==◌, leb, if◌then◌else◌, is_empty, is_blank, trim_space,
}
use cova.Base.Bytes.{cut_right}
use cova.Base.Decimal.{format_uint}
use cova.Api.{SubmitBriefRequest, QueryRequest, Problem, Body}
use cova.Http.{Request, set_header}
use cova.Openapi.{Operation}
use cova.Openapi.Dispatch.{Payload}

pub record Client (H : Type 0) : Type 0 where
  pub base_url : String
  pub http_client : H
  pub token : String

-- `ClientOption`
pub data ClientOption (H : Type 0) : Type 0 where
  with_http_client : Option H → ClientOption H
  with_bearer_token : String → ClientOption H

unfoldable pub apply_option : {H : Type 0} → ClientOption H → Client H → Client H
apply_option (with_http_client none) c = c
apply_option (with_http_client (some h)) c = record c { http_client = h }
apply_option (with_bearer_token token) c = record c { token = token }

unfoldable pub apply_options : {H : Type 0} → List (ClientOption H) → Client H → Client H
unfolding apply_option
apply_options [] c = c
apply_options (o ∷ opts) c = apply_options opts (apply_option o c)

unfoldable pub client_at :
    {H : Type 0} → H → List (ClientOption H) → String ⊎ String → String ⊎ Client H
unfolding apply_options cut_right
client_at default_client opts (inl e) = inl ("invalid baseURL: " +s e)
client_at default_client opts (inr url) = inr (
    apply_options opts
      (record { base_url = cut_right 47 url; http_client = default_client; token = "" }))

-- `NewClient`; `parse` is `url.Parse` with `String`.
unfoldable pub new_client :
    {H : Type 0}
    → (String → String ⊎ String)
    → H
    → String
    → List (ClientOption H)
    → String ⊎ Client H
unfolding client_at
new_client parse default_client base_url opts =
    if is_blank base_url
    then inl "baseURL is required"
    else client_at default_client opts (parse (trim_space base_url))

-- What the http client brings back, with the status and the body of a response.
pub data Exchange : Type 0 where
  send_error : String → Exchange
  read_error : String → Exchange
  response : ℕ → String → Exchange

-- What `doJSON` returns.
pub data Fetched : Type 0 where
  fetched : ℕ → String → Option Problem → Fetched
  not_fetched : String → Fetched

-- What a method returns: a value, a problem, or an error.
pub data Answer : Type 0 where
  accepted : Body → Answer
  problem : Problem → Answer
  call_failed : String → Answer

-- A header that `doJSON` leaves out when its value is blank.
unfoldable pub set_unless_blank : String → String → Request → Request
unfolding set_header
set_unless_blank name value r = if is_blank value then r else set_header name value r

-- A header that a method asks for.
unfoldable pub header_unless_empty : String → String → Dict String → Dict String
header_unless_empty name value headers =
    if is_empty value then headers else insert name value headers

unfoldable pub set_headers : Dict String → Request → Request
unfolding set_unless_blank
set_headers [] r = r
set_headers ((name, value) ∷ headers) r = set_headers headers (set_unless_blank name value r)

unfoldable pub set_when : Bool → String → String → Request → Request
unfolding set_header
set_when true name value r = set_header name value r
set_when false name value r = r

unfoldable pub has_body : Option Payload → Bool
has_body none = false
has_body (some body) = true

unfoldable pub payload : Option Payload → Payload
payload none = record { submission = none; query = none }
payload (some body) = body

-- The request that `doJSON` sends, at the path of its URL.
unfoldable pub json_request : String → String → String → Option Payload → Dict String → Request
unfolding set_when set_headers set_header has_body
json_request token method path body headers =
    let plain : Request = record {
      method = method;
      path = path;
      headers = [];
      remote_addr = "";
      content_length = none;
      body_limit = none;
    } in
    let typed = set_when (has_body body) "Content-Type" "application/json" plain in
    let accepting = set_header "Accept" "application/json, application/problem+json" typed in
    let authorized =
      set_when (not (is_empty token)) "Authorization" ("Bearer " +s token) accepting in
    set_headers headers authorized

-- The problem of a response, if it has one with a title.
unfoldable pub titled : Option Problem → Option Problem
titled none = none
titled (some p) = if is_blank p.title then none else some p

unfoldable pub received : (String → Option Problem) → Exchange → Fetched
unfolding titled
received decode_problem (send_error e) = not_fetched ("send request: " +s e)
received decode_problem (read_error e) = not_fetched ("read response body: " +s e)
received decode_problem (response status body) =
    fetched status body (if leb 400 status then titled (decode_problem body) else none)

unfoldable pub decoded : String ⊎ Body → Answer
decoded (inl e) = call_failed ("decode success response: " +s e)
decoded (inr body) = accepted body

unfoldable pub problem_or : ℕ → Option Problem → Answer
problem_or status none = call_failed ("unexpected status code: " +s format_uint status)
problem_or status (some p) = problem p

-- How each method reads what `doJSON` returns, with the status it takes for success.
unfoldable pub answer : ℕ → (String → String ⊎ Body) → Fetched → Answer
unfolding decoded problem_or
answer expected decode (not_fetched e) = call_failed e
answer expected decode (fetched status body p) =
    if status == expected then decoded (decode body) else problem_or status p

-- What the client has of the libraries.
pub record Libraries (H S : Type 0) : Type 0 where
  pub marshal_error : Payload → Option String
  pub url_path : String → String ⊎ String
  pub send : H → Request → Payload → S → S × Exchange
  pub decode_problem : String → Option Problem
  pub decode : Operation → String → String ⊎ Body

-- A body is marshalled where there is one.
unfoldable pub body_error : (Payload → Option String) → Option Payload → Option String
body_error marshal_error none = none
body_error marshal_error (some body) = marshal_error body

-- `doJSON`
module _ {H S : Type 0} (libs : Libraries H S) where
  unfoldable pub send_request :
      Client H → String → Option Payload → Dict String → String ⊎ String → S → S × Fetched
  unfolding received json_request payload
  send_request c method body headers (inl e) s = (s, not_fetched ("build request: " +s e))
  send_request c method body headers (inr path) s =
      let sent =
        libs.send c.http_client (json_request c.token method path body headers) (payload body) s in
      (sent.0, received libs.decode_problem sent.1)

  unfoldable pub marshalled :
      Client H → String → String → Option Payload → Dict String → Option String → S → S × Fetched
  unfolding send_request
  marshalled c method path body headers none s =
      send_request c method body headers (libs.url_path (c.base_url +s path)) s
  marshalled c method path body headers (some e) s = (s, not_fetched ("encode request body: " +s e))

  unfoldable pub do_json :
      Client H → String → String → Option Payload → Dict String → S → S × Fetched
  unfolding marshalled body_error
  do_json c method path body headers s =
      marshalled c method path body headers (body_error libs.marshal_error body) s
