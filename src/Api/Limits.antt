-- ===== src/Api/Limits.antt =====
-- The in-process rate limiter of archive/python-legacy/backend/app/api/deps.py. Moments are numbers
-- of a clock's ticks; a client is its address as text.
pub mod Window
use ffllowwgreeks.Prelude.{
  ℕ, ◌+◌, Bool, true, false, ◌&&◌, ◌||◌, Option, none, some, List, [], ◌∷◌, ◌++◌, ltb, leb, ◌==◌,
  length, if◌then◌else◌, Text, codes,
}
use ffllowwgreeks.Prelude.Dict
use ffllowwgreeks.Prelude.Dict.{Dict}
use ffllowwgreeks.Api.ApiKeys.{Reply, ok, raised}

-- `str.isspace` on Latin-1, which headers are in.
abbrev pub is_space : ℕ → Bool
is_space c = (leb 9 c && leb c 13) || (leb 28 c && leb c 32) || (c == 133) || (c == 160)

abbrev pub strip_left : Text → Text
strip_left [] = []
strip_left (c ∷ cs) = let rest = strip_left cs in if is_space c then rest else c ∷ cs

abbrev pub put_back : ℕ → Text → Text
put_back c [] = if is_space c then [] else c ∷ []
put_back c (d ∷ cs) = c ∷ d ∷ cs

abbrev pub strip_right : Text → Text
strip_right [] = []
strip_right (c ∷ cs) = put_back c (strip_right cs)

abbrev pub strip : Text → Text
strip s = strip_right (strip_left s)

-- `header.split(",", 1)[0]`
abbrev pub before_comma : Text → Text
before_comma [] = []
before_comma (c ∷ cs) = let rest = before_comma cs in if c == b',' then [] else c ∷ rest

abbrev pub or_peer : Text → Text → Text
or_peer peer [] = peer
or_peer peer (c ∷ cs) = c ∷ cs

-- `peer` is what `get_remote_address` gives; `forwarded` is the header `x-forwarded-for`.
unfoldable pub real_client_ip : Bool → Option Text → Text → Text
real_client_ip trust_proxy_headers none peer = peer
real_client_ip trust_proxy_headers (some forwarded) peer =
    if trust_proxy_headers then or_peer peer (strip (before_comma forwarded)) else peer

-- `while bucket and bucket[0] < now - period: bucket.popleft()`
unfoldable pub pop_old : ℕ → ℕ → List ℕ → List ℕ
pop_old now period [] = []
pop_old now period (t ∷ ts) =
    let rest = pop_old now period ts in if ltb (t + period) now then rest else t ∷ ts

unfoldable pub allow : ℕ → Text → ℕ → ℕ → Dict (List ℕ) → Bool × Dict (List ℕ)
unfolding pop_old
allow now key limit period buckets =
    let bucket = pop_old now period (Dict.get_default buckets key []) in
    if leb limit (length bucket)
    then (false, Dict.put buckets key bucket)
    else (true, Dict.put buckets key (bucket ++ (now ∷ [])))

-- What the dependency keeps of its route.
pub record Route : Type 0 where
  pub limit : ℕ
  pub period_seconds : ℕ
  pub key : Text

abbrev pub too_many_requests : Text → Reply Unit
too_many_requests detail = raised 429 detail

-- The dependency of a route; `detail` is its text with the two numbers filled in.
unfoldable pub rate_limit :
    Bool → Text → ℕ → Route → Text → Dict (List ℕ) → Reply Unit × Dict (List ℕ)
unfolding allow
rate_limit limiter_enabled detail now route ip buckets =
    if limiter_enabled
    then (let answer =
          allow now (route.key ++ (codes ":" ++ ip)) route.limit route.period_seconds buckets in
        (if answer.0 then ok tt else too_many_requests detail, answer.1))
    else (ok tt, buckets)
