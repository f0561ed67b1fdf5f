-- ===== src/Api/ApiKeys.antt =====
-- API-key authentication of REST requests, archive/python-legacy/backend/app/api/deps.py, with the
-- digests of core/security.py. Moments are numbers; a key's id is its UUID as text.
use ffllowwgreeks.Prelude.{
  ℕ, ◌+◌, ◌≡◌, Bool, true, false, not, ◌||◌, Option, none, some, List, [], ◌∷◌, map, ltb,
  if◌then◌else◌, Text, codes, same, upper,
}
use ffllowwgreeks.Prelude.Dict
use ffllowwgreeks.Prelude.Dict.{Dict}

-- A row of `api_keys`.
pub record ApiKey : Type 0 where
  pub id : Text
  pub key_hash : Text
  pub key_prefix : Text
  pub key_lookup : Option Text
  pub label : Text
  pub allowed_symbols : List Text
  pub created_at : ℕ
  pub expires_at : Option ℕ
  pub is_active : Bool
  pub last_used_at : Option ℕ
  pub usage_count : ℕ
  pub deleted_at : Option ℕ

-- A row of the audit of administrators, for the action `api_key_deleted`.
pub record AuditEvent : Type 0 where
  pub actor_username : Text
  pub api_key_id : Text
  pub key_prefix : Text
  pub label : Text

-- The buffers `_USAGE_DELTA` and `_USAGE_LAST_SEEN`, beside the two tables.
pub record Server : Type 0 where
  pub api_keys : List ApiKey
  pub audit_events : List AuditEvent
  pub usage_delta : Dict ℕ
  pub usage_last_seen : Dict ℕ

-- bcrypt and keyed BLAKE2b; `checkpw` is none where bcrypt raises an error.
pub record Hashing : Type 0 where
  pub hashpw : Text → Text → Text
  pub checkpw : Text → Text → Option Bool
  pub digest : Text → Text
  pub checkpw-hashpw : (salt key : Text) → checkpw key (hashpw salt key) ≡ some true

-- What an endpoint answers, or the exception it raises, with status and detail.
pub data Reply (A : Type 0) : Type 0 where
  ok : A → Reply A
  raised : ℕ → Text → Reply A

-- The one answer to every request whose key does not do.
abbrev pub unauthorized : {A : Type 0} → Reply A
unauthorized = raised 401 (codes "Invalid or unauthorized API key")

abbrev pub equal : Option Text → Text → Bool
equal none t = false
equal (some s) t = same s t

-- `select(ApiKey).where(ApiKey.key_lookup == digest)`; the column is unique.
unfoldable pub find_key : Text → List ApiKey → Option ApiKey
find_key d [] = none
find_key d (row ∷ rows) = if equal row.key_lookup d then some row else find_key d rows

-- `UPDATE api_keys SET ... WHERE id = ...`
unfoldable pub update_rows : Text → (ApiKey → ApiKey) → List ApiKey → List ApiKey
update_rows i f = map (λ row. if same row.id i then f row else row)

abbrev pub contains : Text → List Text → Bool
contains s [] = false
contains s (t ∷ ts) = same s t || contains s ts

unfoldable pub has_expired : ℕ → ApiKey → Bool
has_expired now row = elim row.expires_at [ none ↦ false | some e ↦ ltb e now ]

unfoldable pub is_deleted : ApiKey → Bool
is_deleted row = elim row.deleted_at [ none ↦ false | some e ↦ true ]

-- `symbol.upper() in [s.upper() for s in allowed_symbols]`
unfoldable pub may_access : Text → ApiKey → Bool
may_access symbol row = contains (upper symbol) (map upper row.allowed_symbols)

unfoldable pub record_api_key_usage : ℕ → Text → Server → Server
record_api_key_usage now i s = record s {
  usage_delta = Dict.put s.usage_delta i (Dict.get_default s.usage_delta i 0 + 1);
  usage_last_seen = Dict.put s.usage_last_seen i now;
}

abbrev pub used : ℕ → ApiKey → ApiKey
used now row = record row { usage_count = row.usage_count + 1; last_used_at = some now }

module _ (hashing : Hashing) where
  unfoldable pub verify_api_key : Text → Text → Bool
  verify_api_key key key_hash = elim (hashing.checkpw key key_hash) [ none ↦ false | some b ↦ b ]

  abbrev pub verified : Text → Option ApiKey → Option ApiKey
  verified key none = none
  verified key (some row) = if verify_api_key key row.key_hash then some row else none

  -- The lookup by digest and the one bcrypt check that both ways in share.
  unfoldable pub match_key : Text → List ApiKey → Option ApiKey
  match_key key rows = verified key (find_key (hashing.digest key) rows)

  -- What is done for a request whose key passed: an update at once in tests, else the buffer.
  unfoldable pub count_use : Bool → ℕ → ApiKey → Server → Reply ApiKey × Server
  unfolding record_api_key_usage update_rows
  count_use testing now row s =
      if testing
      then (ok (used now row), record s { api_keys = update_rows row.id (used now) s.api_keys })
      else (ok row, record_api_key_usage now row.id s)

  unfoldable pub check_matched : Bool → ℕ → Option ApiKey → Server → Reply ApiKey × Server
  unfolding is_deleted has_expired count_use
  check_matched testing now none s = (unauthorized, s)
  check_matched testing now (some row) s =
      if is_deleted row
      then (unauthorized, s)
      else if not row.is_active
      then (unauthorized, s)
      else if has_expired now row
      then (unauthorized, s)
      else count_use testing now row s

  unfoldable pub authenticate_api_key : Bool → ℕ → Option Text → Server → Reply ApiKey × Server
  unfolding check_matched match_key
  authenticate_api_key testing now none s = (unauthorized, s)
  authenticate_api_key testing now (some []) s = (unauthorized, s)
  authenticate_api_key testing now (some (c ∷ cs)) s =
      check_matched testing now (match_key (c ∷ cs) s.api_keys) s

  -- `require_symbol_access`, given the answer of `authenticate_api_key`.
  unfoldable pub check_access : Option Text → Reply ApiKey → Reply ApiKey
  unfolding may_access
  check_access symbol (raised n why) = raised n why
  check_access none (ok row) = ok row
  check_access (some symbol) (ok row) = if may_access symbol row then ok row else unauthorized

  unfoldable pub require_symbol_access :
      Bool → ℕ → Option Text → Option Text → Server → Reply ApiKey × Server
  unfolding authenticate_api_key check_access
  require_symbol_access testing now symbol key s =
      let answer = authenticate_api_key testing now key s in
      (check_access symbol answer.0, answer.1)
