-- ===== src/Api/Streaming.antt =====
-- The guards of the live streams in archive/python-legacy/backend/app/api/endpoints/stream.py: who
-- may connect, how often, and when a connection is told that its key was revoked.
pub mod Agreement
pub mod Opening
pub mod Slots
pub mod Watcher
use ffllowwgreeks.Prelude.{
  ℕ, ◌+◌, ◌-◌, Bool, true, false, not, ◌||◌, Option, none, some, List, [], ◌∷◌, leb, ◌==◌,
  if◌then◌else◌, Text, same,
}
use ffllowwgreeks.Prelude.Dict
use ffllowwgreeks.Prelude.Dict.{Dict}
use ffllowwgreeks.Api.ApiKeys.{
  ApiKey, Server, Hashing, match_key, has_expired, is_deleted, may_access, record_api_key_usage,
}

module _ (hashing : Hashing) where
  unfoldable pub check_streaming : ℕ → Text → Option ApiKey → Server → Option ApiKey × Server
  unfolding is_deleted has_expired may_access record_api_key_usage
  check_streaming now symbol none s = (none, s)
  check_streaming now symbol (some row) s =
      if not row.is_active
      then (none, s)
      else if is_deleted row
      then (none, s)
      else if has_expired now row
      then (none, s)
      else if may_access symbol row
      then (some row, record_api_key_usage now row.id s)
      else (none, s)

  unfoldable pub authenticate_streaming_key :
      ℕ → Option Text → Text → Server → Option ApiKey × Server
  unfolding match_key check_streaming
  authenticate_streaming_key now none symbol s = (none, s)
  authenticate_streaming_key now (some []) symbol s = (none, s)
  authenticate_streaming_key now (some (c ∷ cs)) symbol s =
      check_streaming now symbol (match_key hashing (c ∷ cs) s.api_keys) s

-- `session.get(ApiKey, id)`
unfoldable pub get_row : Text → List ApiKey → Option ApiKey
get_row i [] = none
get_row i (row ∷ rows) = if same row.id i then some row else get_row i rows

abbrev pub row_revoked : ℕ → Option ApiKey → Bool
row_revoked now none = true
row_revoked now (some row) = not row.is_active || is_deleted row || has_expired now row

-- `_check_key_revoked`; a database that fails says no.
unfoldable pub check_key_revoked : Bool → ℕ → List ApiKey → Text → Bool
unfolding get_row is_deleted has_expired
check_key_revoked reachable now rows i =
    if reachable then row_revoked now (get_row i rows) else false

-- `_ws_connections_per_key`
unfoldable pub ws_try_register : ℕ → Text → Dict ℕ → Bool × Dict ℕ
ws_try_register cap i d =
    let n = Dict.get_default d i 0 in
    if leb cap n then (false, Dict.put d i n) else (true, Dict.put d i (n + 1))

unfoldable pub ws_release : Text → Dict ℕ → Dict ℕ
ws_release i d =
    let current = Dict.get_default d i 0 in
    if leb current 1 then Dict.remove d i else Dict.put d i (current - 1)

unfoldable pub ws_connection_count : Text → Dict ℕ → ℕ
ws_connection_count i d = Dict.get_default d i 0

-- `_KEY_REVOCATION_SUBSCRIBERS`, the events that are set, and the name of the next event.
pub record Watch : Type 0 where
  pub subscribers : Dict (List ℕ)
  pub signalled : List ℕ
  pub next_event : ℕ

unfoldable pub create_watch : Watch
create_watch = record { subscribers = Dict.empty; signalled = []; next_event = 0 }

abbrev pub elem : ℕ → List ℕ → Bool
elem n [] = false
elem n (m ∷ ms) = (n == m) || elem n ms

abbrev pub discard : ℕ → List ℕ → List ℕ
discard n [] = []
discard n (m ∷ ms) = let rest = discard n ms in if n == m then rest else m ∷ rest

unfoldable pub register_revocation_subscriber : Text → Watch → ℕ × Watch
register_revocation_subscriber i w = (
  w.next_event,
  record w {
    subscribers = Dict.put w.subscribers i (w.next_event ∷ Dict.get_default w.subscribers i []);
    next_event = w.next_event + 1;
  },
)

abbrev pub drop_empty : Text → List ℕ → Watch → Watch
drop_empty i [] w = record w { subscribers = Dict.remove w.subscribers i }
drop_empty i (e ∷ es) w = record w { subscribers = Dict.put w.subscribers i (e ∷ es) }

unfoldable pub deregister_revocation_subscriber : Text → ℕ → Watch → Watch
deregister_revocation_subscriber i e w = elim (Dict.get w.subscribers i) [
  | none ↦ w
  | some bucket ↦ drop_empty i (discard e bucket) w
]

abbrev pub set_all : List ℕ → Watch → Watch
set_all [] w = w
set_all (e ∷ es) w = set_all es (record w { signalled = e ∷ w.signalled })

-- One round of the watcher over the keys it watches; `revoked` is what each check answers.
unfoldable pub watch_keys : (Text → Bool) → List Text → Watch → Watch
watch_keys revoked [] w = w
watch_keys revoked (i ∷ is) w =
    let events = Dict.get_default w.subscribers i [] in
    watch_keys revoked is (if revoked i then set_all events w else w)

unfoldable pub watcher_round : (Text → Bool) → Watch → Watch
unfolding watch_keys
watcher_round revoked w = watch_keys revoked (Dict.keys w.subscribers) w
