-- ===== src/Api/KeyCrud.antt =====
-- The endpoints `/admin/api-keys` of archive/python-legacy/backend/app/api/endpoints/admin.py, behind
-- the check of the admin token.

pub mod Deletion
pub mod Issue
use ffllowwgreeks.Prelude.{
  ℕ, Bool, true, false, ◌||◌, Option, none, some, List, [], ◌∷◌, ◌++◌, map, take, leb,
  if◌then◌else◌, Text, codes, same,
}
use ffllowwgreeks.Api.ApiKeys.{
  ApiKey, AuditEvent, Server, Hashing, Reply, ok, raised, equal, update_rows, is_deleted,
}
use ffllowwgreeks.Api.Streaming.{get_row}

-- The body of a creation, with the plaintext, the salt, the id and the moment that it draws.
pub record Creation : Type 0 where
  pub label : Text
  pub allowed_symbols : List Text
  pub expires_at : Option ℕ
  pub plaintext : Text
  pub salt : Text
  pub id : Text
  pub now : ℕ

pub record ApiKeyUpdate : Type 0 where
  pub label : Option Text
  pub allowed_symbols : Option (List Text)
  pub expires_at : Option ℕ
  pub is_active : Option Bool

-- What the endpoints show of a row.
pub record ApiKeySummary : Type 0 where
  pub id : Text
  pub key_prefix : Text
  pub label : Text
  pub allowed_symbols : List Text
  pub created_at : ℕ
  pub expires_at : Option ℕ
  pub is_active : Bool
  pub last_used_at : Option ℕ
  pub usage_count : ℕ

unfoldable pub to_summary : ApiKey → ApiKeySummary
to_summary row = record {
  id = row.id;
  key_prefix = row.key_prefix;
  label = row.label;
  allowed_symbols = row.allowed_symbols;
  created_at = row.created_at;
  expires_at = row.expires_at;
  is_active = row.is_active;
  last_used_at = row.last_used_at;
  usage_count = row.usage_count;
}

abbrev pub not_found : {A : Type 0} → Reply A
not_found = raised 404 (codes "API key not found")

-- Null lookups do not clash.
abbrev pub equal_lookup : Option Text → Option Text → Bool
equal_lookup o none = false
equal_lookup o (some t) = equal o t

-- The unique columns: the primary key, `key_hash` and `key_lookup`.
abbrev pub conflicts : ApiKey → List ApiKey → Bool
conflicts new [] = false
conflicts new (row ∷ rows) =
    same row.id new.id
    || same row.key_hash new.key_hash
    || equal_lookup row.key_lookup new.key_lookup
    || conflicts new rows

abbrev pub or_keep : {A : Type 0} → Option A → A → A
or_keep none old = old
or_keep (some new) old = new

abbrev pub or_keep_some : {A : Type 0} → Option A → Option A → Option A
or_keep_some none old = old
or_keep_some (some new) old = some new

unfoldable pub display_prefix : Text → Text
display_prefix = take 11

unfoldable pub apply_update : ApiKeyUpdate → ApiKey → ApiKey
apply_update payload row = record row {
  label = or_keep payload.label row.label;
  allowed_symbols = or_keep payload.allowed_symbols row.allowed_symbols;
  expires_at = or_keep_some payload.expires_at row.expires_at;
  is_active = or_keep payload.is_active row.is_active;
}

abbrev pub mark_deleted : ℕ → ApiKey → ApiKey
mark_deleted now row = record row { is_active = false; deleted_at = some now }

module _ (hashing : Hashing) where
  unfoldable pub new_row : Creation → ApiKey
  unfolding display_prefix
  new_row c = record {
    id = c.id;
    key_hash = hashing.hashpw c.salt c.plaintext;
    key_prefix = display_prefix c.plaintext;
    key_lookup = some (hashing.digest c.plaintext);
    label = c.label;
    allowed_symbols = c.allowed_symbols;
    created_at = c.now;
    expires_at = c.expires_at;
    is_active = true;
    last_used_at = none;
    usage_count = 0;
    deleted_at = none;
  }

  -- A clash of unique columns fails the commit, which the server answers with 500.
  unfoldable pub create_api_key : Creation → Server → Reply (ApiKeySummary × Text) × Server
  unfolding new_row to_summary
  create_api_key c s =
      let row = new_row c in
      if conflicts row s.api_keys
      then (raised 500 (codes "Internal Server Error"), s)
      else (ok (to_summary row, c.plaintext), record s { api_keys = s.api_keys ++ (row ∷ []) })

-- The row of an endpoint's path, unless it is deleted.
unfoldable pub live_row : Text → Server → Option ApiKey
unfolding get_row is_deleted
live_row i s = elim (get_row i s.api_keys) [
  | none ↦ none
  | some row ↦ if is_deleted row then none else some row
]

unfoldable pub update_api_key : Text → ApiKeyUpdate → Server → Reply ApiKeySummary × Server
unfolding live_row update_rows apply_update to_summary
update_api_key i payload s = elim (live_row i s) [
  | none ↦ (not_found, s)
  | some row ↦ (
    ok (to_summary (apply_update payload row)),
    record s { api_keys = update_rows i (apply_update payload) s.api_keys },
  )
]

abbrev pub deletion_of : Text → ApiKey → AuditEvent
deletion_of admin row = record {
  actor_username = admin;
  api_key_id = row.id;
  key_prefix = row.key_prefix;
  label = row.label;
}

-- `admin` is the name that the check of the token gives.
unfoldable pub delete_api_key : Text → ℕ → Text → Server → Reply Unit × Server
unfolding live_row update_rows
delete_api_key admin now i s = elim (live_row i s) [
  | none ↦ (not_found, s)
  | some row ↦ (
    ok tt,
    record s {
      api_keys = update_rows i (mark_deleted now) s.api_keys;
      audit_events = s.audit_events ++ (deletion_of admin row ∷ []);
    },
  )
]

-- The rows that are not deleted, the latest creation first.
abbrev pub insert_row : ApiKey → List ApiKey → List ApiKey
insert_row row [] = row ∷ []
insert_row row (r ∷ rows) =
    let rest = insert_row row rows in
    if leb r.created_at row.created_at then row ∷ r ∷ rows else r ∷ rest

unfoldable pub sorted_rows : List ApiKey → List ApiKey
unfolding is_deleted
sorted_rows [] = []
sorted_rows (row ∷ rows) =
    let rest = sorted_rows rows in if is_deleted row then rest else insert_row row rest

unfoldable pub list_api_keys : Server → List ApiKeySummary
unfolding sorted_rows to_summary
list_api_keys s = map to_summary (sorted_rows s.api_keys)

-- The columns that `api_key_usage` shows.
pub record KeyUsage : Type 0 where
  pub id : Text
  pub label : Text
  pub key_prefix : Text
  pub usage_count : ℕ
  pub last_used_at : Option ℕ
  pub is_active : Bool
  pub expires_at : Option ℕ

unfoldable pub api_key_usage : Text → Server → Reply KeyUsage
unfolding live_row
api_key_usage i s = elim (live_row i s) [
  | none ↦ not_found
  | some row ↦ ok (record {
    id = row.id;
    label = row.label;
    key_prefix = row.key_prefix;
    usage_count = row.usage_count;
    last_used_at = row.last_used_at;
    is_active = row.is_active;
    expires_at = row.expires_at;
  })
]
