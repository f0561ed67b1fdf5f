-- ===== src/Ingestion/KeyPool.antt =====
-- archive/python-legacy/backend/app/ingestion/key_pool.py: the API keys that an ingester may try.
-- The table `databento_api_keys` is a list of rows; decryption and the settings are arguments, and
-- times are in microseconds.
pub mod Selection
pub mod Cooldown
use ffllowwgreeks.Prelude.{
  ℕ, suc, ◌+◌, ◌*◌, Bool, true, false, ◌&&◌, ◌||◌, Option, none, some, List, [], ◌∷◌, ◌++◌, ltb,
  leb, ◌==◌, if◌then◌else◌, Text, codes, upper, same, take,
}

abbrev pub max_errors_before_skip : ℕ
max_errors_before_skip = 5

-- Thirty minutes.
abbrev pub skip_cooldown : ℕ
skip_cooldown = 1_800_000_000

-- A row of `databento_api_keys`.
pub record ApiKey : Type 0 where
  pub id : ℕ
  pub label : Text
  pub dataset : Text
  pub api_key_encrypted : Text
  pub priority : ℕ
  pub is_active : Bool
  pub error_count : ℕ
  pub last_error_at : Option ℕ
  pub last_error_msg : Option Text
  pub last_used_at : Option ℕ

-- `source` and `db_id` of a candidate: the environment, or a row.
pub data Source : Type 0 where
  env : Source
  db : ℕ → Source

pub record KeyCandidate : Type 0 where
  pub label : Text
  pub api_key : Text
  pub source : Source

-- `settings.opra_api_key` and `settings.globex_api_key`, empty if not set.
pub record Settings : Type 0 where
  pub opra_api_key : Text
  pub globex_api_key : Text

abbrev pub opra : Text
opra = codes "OPRA.PILLAR"

abbrev pub globex : Text
globex = codes "GLBX.MDP3"

abbrev non_empty : Text → Option Text
non_empty [] = none
non_empty (c ∷ cs) = some (c ∷ cs)

unfoldable pub env_key_for : Settings → Text → Option Text
env_key_for settings dataset =
    let name = upper dataset in
    if same name opra
    then non_empty settings.opra_api_key
    else if same name globex
    then non_empty settings.globex_api_key
    else none

-- The WHERE clause of the query.
unfoldable pub is_eligible : Text → ApiKey → Bool
is_eligible dataset row =
    row.is_active && (same row.dataset dataset || same row.dataset (codes "BOTH"))

-- The ORDER BY clause: by priority, then by id.
unfoldable pub goes_first : ApiKey → ApiKey → Bool
goes_first r s = ltb r.priority s.priority || (r.priority == s.priority && leb r.id s.id)

unfoldable pub place : ApiKey → List ApiKey → List ApiKey
unfolding goes_first
place r [] = r ∷ []
place r (s ∷ rows) = let rest = place r rows in if goes_first r s then r ∷ s ∷ rows else s ∷ rest

-- The rows of the query.
unfoldable pub query : Text → List ApiKey → List ApiKey
unfolding is_eligible place
query dataset [] = []
query dataset (r ∷ table) =
    let rest = query dataset table in if is_eligible dataset r then place r rest else rest

-- The last error is less than the cooldown ago.
unfoldable pub is_recent : ℕ → Option ℕ → Bool
is_recent now none = false
is_recent now (some at) = ltb now (at + skip_cooldown)

unfoldable pub is_cooling : ℕ → ApiKey → Bool
unfolding is_recent
is_cooling now row = leb max_errors_before_skip row.error_count && is_recent now row.last_error_at

abbrev pub candidate_of : ApiKey → Text → KeyCandidate
candidate_of row plaintext = record { label = row.label; api_key = plaintext; source = db row.id }

abbrev pub put_decrypted : ApiKey → Option Text → List KeyCandidate → List KeyCandidate
put_decrypted row none rest = rest
put_decrypted row (some plaintext) rest = candidate_of row plaintext ∷ rest

-- The loop over the rows; `none` as decryption is InvalidToken.
unfoldable pub candidates_of : (Text → Option Text) → ℕ → List ApiKey → List KeyCandidate
unfolding is_cooling
candidates_of decrypt now [] = []
candidates_of decrypt now (row ∷ rows) =
    let rest = candidates_of decrypt now rows in
    if is_cooling now row then rest else put_decrypted row (decrypt row.api_key_encrypted) rest

abbrev pub env_candidates : Text → Option Text → List KeyCandidate
env_candidates dataset none = []
env_candidates dataset (some key) =
    record { label = codes "env:" ++ dataset; api_key = key; source = env } ∷ []

-- `none` is the ValueError for an unknown dataset.
unfoldable pub iter_keys :
    Settings → (Text → Option Text) → ℕ → Text → List ApiKey → Option (List KeyCandidate)
unfolding env_key_for query candidates_of
iter_keys settings decrypt now dataset table =
    let name = upper dataset in
    if same name opra || same name globex
    then some (
        env_candidates name (env_key_for settings name)
        ++ candidates_of decrypt now (query name table))
    else none

-- `update(DatabentoApiKey).where(id == db_id)`
unfoldable pub update_row : ℕ → (ApiKey → ApiKey) → List ApiKey → List ApiKey
update_row k f [] = []
update_row k f (r ∷ table) = (if r.id == k then f r else r) ∷ update_row k f table

unfoldable pub succeeded : ℕ → ApiKey → ApiKey
succeeded now r = record r { last_used_at = some now; error_count = 0; last_error_msg = none }

unfoldable pub failed : ℕ → Text → ApiKey → ApiKey
failed now message r = record r {
  last_error_at = some now;
  last_error_msg = some (take 1000 message);
  error_count = r.error_count + 1;
}

unfoldable pub record_key_success : ℕ → KeyCandidate → List ApiKey → List ApiKey
unfolding update_row succeeded
record_key_success now candidate table = elim candidate.source [
  | env ↦ table
  | db k ↦ update_row k (succeeded now) table
]

unfoldable pub record_key_error : ℕ → KeyCandidate → Text → List ApiKey → List ApiKey
unfolding update_row failed
record_key_error now candidate message table = elim candidate.source [
  | env ↦ table
  | db k ↦ update_row k (failed now message) table
]
