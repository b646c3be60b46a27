-- ===== src/Http.antt =====
-- An HTTP request of Go's net/http, as far as the program reads it: the first value of each header
-- under its canonical name, and a length of the body where it is known. `body_limit` is the limit of
-- a `MaxBytesReader` around the body.
use cova.Base.{ℕ, String, Option, none, some, Dict, lookup, insert}

pub record Request : Type 0 where
  pub method : String
  pub path : String
  pub headers : Dict String
  pub remote_addr : String
  pub content_length : Option ℕ
  pub body_limit : Option ℕ

unfoldable pub or_blank : Option String → String
or_blank none = ""
or_blank (some s) = s

-- `r.Header.Get(name)`
unfoldable pub header : String → Request → String
unfolding or_blank
header name r = or_blank (lookup name r.headers)

-- `r.Header.Set(name, value)`
unfoldable pub set_header : String → String → Request → Request
set_header name value r = record r { headers = insert name value r.headers }
