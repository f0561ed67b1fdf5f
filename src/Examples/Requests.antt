-- ===== src/Examples/Requests.antt =====
-- Uses of a key that are flushed, a body over the limit, and the headers of a page.
use ffllowwgreeks.Prelude.{
  ℕ, ◌-◌, ◌≡◌, refl, true, false, Option, none, some, List, [], ◌∷◌, Text, codes, same, lower,
}
use ffllowwgreeks.Prelude.Dict
use ffllowwgreeks.Api.ApiKeys.{ApiKey, Server, record_api_key_usage}
use ffllowwgreeks.Api.Usage.{flush_begin, flush_end}
use ffllowwgreeks.Api.Usage.Conserved
use ffllowwgreeks.Api.Usage.Conserved.{IsConserved, opened, run-opened-IsConserved}
use ffllowwgreeks.Api.Usage.Counts.{uses}
use ffllowwgreeks.Api.Middleware.BodyLimit.{http_request, call, declares_too_much}
use ffllowwgreeks.Api.Middleware.Capped.{IsLimited, call-IsLimited}
use ffllowwgreeks.Api.Middleware.Headers.{Header, find, with_headers, html_csp}
use ffllowwgreeks.Api.Middleware.Secured.{values, or_else, defaults, values-with_headers}

abbrev key_row : ApiKey
key_row = record {
  id = codes "u1";
  key_hash = [];
  key_prefix = [];
  key_lookup = none;
  label = codes "desk";
  allowed_symbols = [];
  created_at = 0;
  expires_at = none;
  is_active = true;
  last_used_at = none;
  usage_count = 4;
  deleted_at = none;
}

abbrev server : Server
server = record {
  api_keys = key_row ∷ [];
  audit_events = [];
  usage_delta = Dict.empty;
  usage_last_seen = Dict.empty;
}

-- Two uses, a flush of them with a third use in between, and a flush that is cancelled.
abbrev acts : List Conserved.Act
acts =
    Conserved.use_key 1 (codes "u1")
    ∷ Conserved.use_key 2 (codes "u1")
    ∷ Conserved.begin
    ∷ Conserved.use_key 3 (codes "u1")
    ∷ Conserved.end 4 (λ k. true) true
    ∷ Conserved.begin
    ∷ Conserved.cancel
    ∷ []

run-opened-IsConserved_example : IsConserved server.api_keys (Conserved.run acts (opened server))
run-opened-IsConserved_example = run-opened-IsConserved acts server

counted_uses : uses (codes "u1") (Conserved.run acts (opened server)).server.api_keys ≡ 6
unfolding uses Conserved.run opened same flush_begin flush_end record_api_key_usage Dict.keys
    Dict.put Dict.empty Dict.get
counted_uses = refl

-- One digit.
abbrev int : Text → Option ℕ
int [] = none
int (c ∷ cs) = some (c - b'0')

abbrev declared : List (Text × Text)
declared = (codes "Content-Length", codes "2") ∷ []

call-IsLimited_example :
    IsLimited int 3 declared
      (http_request (codes "ab") true ∷ http_request (codes "cd") false ∷ [])
      (call int 3 true declared
        (http_request (codes "ab") true ∷ http_request (codes "cd") false ∷ []))
call-IsLimited_example =
    call-IsLimited int 3 declared
      (http_request (codes "ab") true ∷ http_request (codes "cd") false ∷ [])

-- Four bytes under a limit of three.
refused_uncalled : call int 3 true ((codes "content-length", codes "4") ∷ []) [] ≡ (false, [], 1)
unfolding call declares_too_much same lower
refused_uncalled = refl

abbrev page : List Header
page =
    (codes "Content-Type", codes "text/html") ∷ (codes "X-Frame-Options", codes "SAMEORIGIN") ∷ []

values-with_headers_example :
    values (codes "x-frame-options") (with_headers (codes "/docs") page)
    ≡ or_else
        (values (codes "x-frame-options") page)
        (values (codes "x-frame-options") (defaults (codes "/docs") page))
values-with_headers_example = values-with_headers (codes "/docs") (codes "x-frame-options") page

docs_policy :
    find (codes "content-security-policy") (with_headers (codes "/docs") page) ≡ some html_csp
unfolding find with_headers
docs_policy = refl
