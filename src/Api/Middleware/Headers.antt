-- ===== src/Api/Middleware/Headers.antt =====
-- The security headers of responses, archive/python-legacy/backend/app/main.py.
use ffllowwgreeks.Prelude.{
  Bool, true, false, ◌&&◌, ◌||◌, Option, none, some, List, [], ◌∷◌, ◌++◌, if◌then◌else◌, Text,
  codes, same, lower,
}
use ffllowwgreeks.Ingestion.Live.Dispatch.{starts_with}

abbrev pub Header : Type 0
Header = Text × Text

abbrev pub base_headers : List Header
base_headers =
    (codes "strict-transport-security", codes "max-age=63072000; includeSubDomains; preload")
    ∷ (codes "x-content-type-options", codes "nosniff")
    ∷ (codes "referrer-policy", codes "strict-origin-when-cross-origin")
    ∷ (codes "x-frame-options", codes "DENY")
    ∷ (
      codes "permissions-policy",
      codes "camera=(), microphone=(), geolocation=(), interest-cohort=()",
    )
    ∷ []

abbrev pub csp : Text
csp = codes "content-security-policy"

abbrev pub html_csp : Text
html_csp =
    codes "default-src 'self'; script-src 'self' https://cdn.jsdelivr.net 'unsafe-inline'; "
    ++ codes "style-src 'self' https://cdn.jsdelivr.net 'unsafe-inline'; "
    ++ codes "img-src 'self' data: https://fastapi.tiangolo.com; "
    ++ codes "font-src 'self' data: https://cdn.jsdelivr.net; connect-src 'self'; "
    ++ codes "frame-ancestors 'none'; object-src 'none'; base-uri 'self'"

abbrev pub json_csp : Text
json_csp = codes "default-src 'none'; frame-ancestors 'none'; base-uri 'none'"

-- The value of a header, its name in lower case.
unfoldable pub find : Text → List Header → Option Text
unfolding same lower
find name [] = none
find name ((k, v) ∷ headers) = if same (lower k) name then some v else find name headers

unfoldable pub has : Text → List Header → Bool
unfolding find
has name headers = elim (find name headers) [ none ↦ false | some v ↦ true ]

-- The headers of a list that the response does not have.
unfoldable pub missing : List Header → List Header → List Header
unfolding has
missing existing [] = []
missing existing ((k, v) ∷ headers) =
    let rest = missing existing headers in if has k existing then rest else (k, v) ∷ rest

unfoldable pub is_html_csp_path : Text → Bool
unfolding same
is_html_csp_path path =
    same path (codes "/docs")
    || same path (codes "/redoc")
    || same path (codes "/openapi.json")
    || same path (codes "/docs/oauth2-redirect")

abbrev pub content_type : List Header → Text
content_type headers = elim (find (codes "content-type") headers) [ none ↦ [] | some v ↦ lower v ]

unfoldable pub csp_for : Text → List Header → Text
unfolding is_html_csp_path starts_with
csp_for path headers =
    if is_html_csp_path path && starts_with (codes "text/html") (content_type headers)
    then html_csp
    else json_csp

-- The headers of the start of a response.
unfoldable pub with_headers : Text → List Header → List Header
unfolding missing has csp_for
with_headers path existing =
    let headers = existing ++ missing existing base_headers in
    if has csp existing then headers else headers ++ ((csp, csp_for path headers) ∷ [])

-- What a response sends: its start, with the headers, or something else.
pub data Response : Type 0 where
  http_response_start : (status : Text) → List Header → Response
  other_response : Text → Response

unfoldable pub send_with_headers : Bool → Text → Response → Response
unfolding with_headers
send_with_headers is_http path (http_response_start status headers) =
    if is_http
    then http_response_start status (with_headers path headers)
    else http_response_start status headers
send_with_headers is_http path (other_response body) = other_response body
