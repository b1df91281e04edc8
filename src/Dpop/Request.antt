-- ===== src/Dpop/Request.antt =====
-- internal/auth/oidc/dpop/request.go: the token of the Authorization header and the URL of a request.
use onyxia_backend.Common.{
  String, Bool, Option, none, some, List, [], ◌∷◌, Dict, lookup, if◌then◌else◌,
}
use onyxia_backend.Common.Text.{cut, equal_fold}

-- `url.URL`, as far as the code reads it
pub record Url : Type 0 where
  pub scheme : String
  pub host : String
  pub path : String
  pub raw_query : String
  pub fragment : String

-- `http.Header`: each name, in canonical form, with its values
abbrev pub Header : Type 0
Header = Dict (List String)

-- `http.Request`: `host` is the Host header, `tls` says whether the connection is encrypted.
pub record Request : Type 0 where
  pub method : String
  pub url : Option Url
  pub header : Header
  pub host : String
  pub tls : Bool

-- The loop over the values of the header.
token_in : String → List String → Option String
token_in prefix [] = none
token_in prefix (v ∷ vs) =
    let rest = token_in prefix vs in
    elim (cut b' ' v) [
      | none ↦ rest
      | some (scheme, value) ↦ if equal_fold scheme prefix then some value else rest
    ]

-- `FindAuthorization`
unfoldable pub find_authorization : Header → String → Option String
unfolding token_in lookup cut equal_fold
find_authorization h prefix = elim (lookup "Authorization" h) [
  | none ↦ none
  | some vs ↦ token_in prefix vs
]

-- `Header.Get`, at a name in canonical form
unfoldable pub header_get : Header → String → String
unfolding lookup
header_get h name = elim (lookup name h) [ some (v ∷ vs) ↦ v | _ ↦ "" ]

-- `AbsoluteRequestURL`, with `URL.String` as a parameter
unfoldable pub absolute_request_url : (Url → String) → Option Request → String
absolute_request_url url_string none = ""
absolute_request_url url_string (some r) = elim r.url [
  | none ↦ ""
  | some u ↦ url_string (record u { fragment = "" })
]
