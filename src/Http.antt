-- ===== src/Http.antt =====
-- internal/httputil/proxy.go: the middleware that makes the URL of a request absolute.
use onyxia_backend.Common.{
  String, ◌≡◌, ◌≢◌, refl, true, false, Option, none, some, ◌==◌, eq_iff, if◌then◌else◌, arith, not,
  ap,
}
use onyxia_backend.Dpop.Request.{Url, Request, header_get, absolute_request_url}

-- The scheme of the forwarding proxy, or else that of the connection; the URL's host, or else the
-- Host header.
pub absolute_url : Request → Url → Url
unfolding header_get
absolute_url r u =
    let proto = header_get r.header "X-Forwarded-Proto" in
    record u {
      scheme = if not (proto == "") then proto else if r.tls then "https" else "http";
      host = if u.host == "" then r.host else u.host;
    }

-- `ProxyHeaders`, up to the call of the next handler; `none` where the source dereferences a nil
-- `r.URL`, which a server always sets.
unfoldable pub proxy_headers : Request → Option Request
unfolding absolute_url
proxy_headers r = elim r.url [
  | none ↦ none
  | some u ↦ some (record r { url = some (absolute_url r u) })
]

-- The URL under which a client has sent `r`, by what the proxy in front of the server says of it,
-- where `u` is the URL that the server has read.
pub record IsExternal (r : Request) (u external : Url) : Type 0 where
  pub forwarded :
      header_get r.header "X-Forwarded-Proto" ≢ ""
      → external.scheme ≡ header_get r.header "X-Forwarded-Proto"
  pub over_tls :
      header_get r.header "X-Forwarded-Proto" ≡ "" → r.tls ≡ true → external.scheme ≡ "https"
  pub plain :
      header_get r.header "X-Forwarded-Proto" ≡ "" → r.tls ≡ false → external.scheme ≡ "http"
  pub own_host : u.host ≢ "" → external.host ≡ u.host
  pub host_header : u.host ≡ "" → external.host ≡ r.host
  pub path : external.path ≡ u.path
  pub query : external.raw_query ≡ u.raw_query
  pub fragment : external.fragment ≡ ""

absolute_url-IsExternal :
    (r : Request) (u : Url) → IsExternal r u (record (absolute_url r u) { fragment = "" })
unfolding absolute_url
absolute_url-IsExternal r u =
    let proto = header_get r.header "X-Forwarded-Proto" in
    record {
      forwarded = ground (arith, eq_iff proto "");
      over_tls = ground (arith, eq_iff proto "");
      plain = ground (arith, eq_iff proto "");
      own_host = ground (arith, eq_iff u.host "");
      host_header = ground (arith, eq_iff u.host "");
      path = refl;
      query = refl;
      fragment = refl;
    }

host_again :
    (own header : String)
    → (if (if own == "" then header else own) == ""
        then header
        else if own == ""
        then header
        else own)
      ≡ (if own == "" then header else own)
host_again own header = ground arith

absolute_url-again :
    (r : Request) (u : Url)
    → absolute_url (record r { url = some (absolute_url r u) }) (absolute_url r u)
      ≡ absolute_url r u
unfolding absolute_url
absolute_url-again r u = ap (λ x. record (absolute_url r u) { host = x }) (host_again u.host r.host)

proxy_headers-again :
    (r : Request) (u : Url)
    → proxy_headers (record r { url = some (absolute_url r u) })
      ≡ some (record r { url = some (absolute_url r u) })
unfolding proxy_headers
proxy_headers-again r u = ap (λ x. some (record r { url = some x })) (absolute_url-again r u)

-- Behind the middleware, the URL that a DPoP proof is compared with is the text of the one under
-- which the client has sent the request: with the scheme of the forwarding proxy, or else that of the
-- connection, the URL's own host or else the Host header, the path and query that came in, and no
-- fragment. The headers and the method are those that came in, and to pass through the middleware
-- once more changes nothing.
pub proxied_request_url :
    (url_string : Url → String) (r : Request) (u : Url)
    → r.url ≡ some u
    → (r' : Request) × (external : Url) × (proxy_headers r ≡ some r')
      × IsExternal r u external
      × (absolute_request_url url_string (some r') ≡ url_string external)
      × (r'.header ≡ r.header)
      × (r'.method ≡ r.method)
      × (proxy_headers r' ≡ some r')
unfolding proxy_headers absolute_url absolute_request_url
proxied_request_url url_string r u h = (
  record r { url = some (absolute_url r u) },
  record (absolute_url r u) { fragment = "" },
  rw h,
  absolute_url-IsExternal r u,
  refl,
  refl,
  refl,
  proxy_headers-again r u,
)
