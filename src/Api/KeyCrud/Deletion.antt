-- ===== src/Api/KeyCrud/Deletion.antt =====
-- What a soft deletion by archive/python-legacy/backend/app/api/endpoints/admin.py means for the
-- authentication in api/deps.py and api/endpoints/stream.py.
use ffllowwgreeks.Prelude.{
  ℕ, ◌≡◌, refl, sym, ap, ◌∙◌, inl, inr, Bool, true, false, Option, none, some, List, [], ◌∷◌, ◌++◌,
  Text, same_iff, arith, Bool-cases, Option-cases,
}
use mathlib.Core.Option.{some-injective}
use ffllowwgreeks.Api.ApiKeys.{
  ApiKey, Server, Hashing, ok, unauthorized, equal, find_key, update_rows, match_key, is_deleted,
  record_api_key_usage, count_use, check_matched, authenticate_api_key, check_access,
  require_symbol_access, used, verified, verify_api_key,
}
use ffllowwgreeks.Api.Streaming.{check_streaming, authenticate_streaming_key}
use ffllowwgreeks.Api.KeyCrud.{
  Creation, ApiKeyUpdate, new_row, create_api_key, update_api_key, delete_api_key, live_row,
  apply_update, mark_deleted,
}

-- What clients and administrators call.
pub data Call : Type 0 where
  create : Creation → Call
  update : Text → ApiKeyUpdate → Call
  delete : Text → ℕ → Text → Call
  request : Bool → ℕ → Option Text → Option Text → Call
  stream : ℕ → Option Text → Text → Call

pub step : Hashing → Call → Server → Server
step hashing (create c) s = (create_api_key hashing c s).1
step hashing (update i payload) s = (update_api_key i payload s).1
step hashing (delete admin now i) s = (delete_api_key admin now i s).1
step hashing (request testing now symbol key) s =
    (require_symbol_access hashing testing now symbol key s).1
step hashing (stream now key symbol) s = (authenticate_streaming_key hashing now key symbol s).1

unfoldable pub run : Hashing → List Call → Server → Server
unfolding step
run hashing [] s = s
run hashing (c ∷ cs) s = run hashing cs (step hashing c s)

deleted_row : Option ApiKey → Bool
deleted_row none = false
deleted_row (some row) = is_deleted row

-- The lookup finds a row, and a deleted one.
dead : Text → List ApiKey → Bool
unfolding find_key deleted_row
dead d rows = deleted_row (find_key d rows)

-- A change of a row that keeps its lookup and does not undo a deletion.
Harmless : (ApiKey → ApiKey) → Type 0
Harmless f =
    (row : ApiKey)
    → ((f row).key_lookup ≡ row.key_lookup) × (is_deleted row ≡ true → is_deleted (f row) ≡ true)

dead-update_rows :
    (d i : Text) (f : ApiKey → ApiKey) (rows : List ApiKey)
    → Harmless f
    → dead d rows ≡ true
    → dead d (update_rows i f rows) ≡ true
unfolding dead deleted_row update_rows find_key Harmless
dead-update_rows d i f [] ok_f h = h
dead-update_rows d i f (row ∷ rows) ok_f h =
    ground (arith, dead-update_rows d i f rows ok_f, ok_f row)

dead-append :
    (d : Text) (rows more : List ApiKey) → dead d rows ≡ true → dead d (rows ++ more) ≡ true
unfolding dead deleted_row find_key
dead-append d [] more h = absurd (ground arith)
dead-append d (row ∷ rows) more h = ground (arith, dead-append d rows more)

find_key-mark_deleted :
    (d : Text) (now : ℕ) (found : ApiKey) (rows : List ApiKey)
    → find_key d rows ≡ some found
    → dead d (update_rows found.id (mark_deleted now) rows) ≡ true
unfolding dead deleted_row update_rows find_key is_deleted
find_key-mark_deleted d now found [] h = absurd (ground arith)
find_key-mark_deleted d now found (row ∷ rows) h = elim (Bool-cases (equal row.key_lookup d)) [
  | inl e ↦
      let same_row = some-injective row found (sym (rw (e) refl) ∙ h) in
      ground (arith, e, (same_iff row.id found.id).1 (ap (λ r. r.id) same_row))
  | inr e ↦ ground (arith, e, find_key-mark_deleted d now found rows (sym (rw (e) refl) ∙ h))
]

delete_api_key-dead :
    (d admin : Text) (now : ℕ) (found : ApiKey) (s : Server)
    → find_key d s.api_keys ≡ some found
    → (delete_api_key admin now found.id s).0 ≡ ok tt
    → dead d (delete_api_key admin now found.id s).1.api_keys ≡ true
unfolding delete_api_key
delete_api_key-dead d admin now found s h done = elim (Option-cases (live_row found.id s)) [
  | inl e ↦ absurd (ground (arith, rw (e, delete_api_key) at done))
  | inr (row, e) ↦ rw (e, delete_api_key) (find_key-mark_deleted d now found s.api_keys h)
]

used-Harmless : (now : ℕ) → Harmless (used now)
unfolding Harmless is_deleted
used-Harmless now row = (refl, λ h. h)

apply_update-Harmless : (payload : ApiKeyUpdate) → Harmless (apply_update payload)
unfolding Harmless is_deleted apply_update
apply_update-Harmless payload row = (refl, λ h. h)

mark_deleted-Harmless : (now : ℕ) → Harmless (mark_deleted now)
unfolding Harmless is_deleted
mark_deleted-Harmless now row = (refl, λ h. refl)

update-dead :
    (d i : Text) (payload : ApiKeyUpdate) (s : Server)
    → dead d s.api_keys ≡ true
    → dead d (update_api_key i payload s).1.api_keys ≡ true
unfolding update_api_key
update-dead d i payload s h = ground (
  arith,
  dead-update_rows d i (apply_update payload) s.api_keys (apply_update-Harmless payload) h,
)

delete-dead :
    (d admin : Text) (now : ℕ) (i : Text) (s : Server)
    → dead d s.api_keys ≡ true
    → dead d (delete_api_key admin now i s).1.api_keys ≡ true
unfolding delete_api_key
delete-dead d admin now i s h =
    ground (arith, dead-update_rows d i (mark_deleted now) s.api_keys (mark_deleted-Harmless now) h)

module _ (hashing : Hashing) where
  count_use-dead :
      (d : Text) (testing : Bool) (now : ℕ) (row : ApiKey) (s : Server)
      → dead d s.api_keys ≡ true
      → dead d (count_use hashing testing now row s).1.api_keys ≡ true
  unfolding count_use record_api_key_usage
  count_use-dead d false now row s h = h
  count_use-dead d true now row s h =
      dead-update_rows d row.id (used now) s.api_keys (used-Harmless now) h

  check_matched-dead :
      (d : Text) (testing : Bool) (now : ℕ) (o : Option ApiKey) (s : Server)
      → dead d s.api_keys ≡ true
      → dead d (check_matched hashing testing now o s).1.api_keys ≡ true
  unfolding check_matched
  check_matched-dead d testing now none s h = h
  check_matched-dead d testing now (some row) s h =
      ground (arith, count_use-dead d testing now row s h)

  request-dead :
      (d : Text) (testing : Bool) (now : ℕ) (symbol key : Option Text) (s : Server)
      → dead d s.api_keys ≡ true
      → dead d (require_symbol_access hashing testing now symbol key s).1.api_keys ≡ true
  unfolding require_symbol_access authenticate_api_key
  request-dead d testing now symbol none s h = h
  request-dead d testing now symbol (some []) s h = h
  request-dead d testing now symbol (some (c ∷ cs)) s h =
      check_matched-dead d testing now (match_key hashing (c ∷ cs) s.api_keys) s h

  check_streaming-dead :
      (d : Text) (now : ℕ) (symbol : Text) (o : Option ApiKey) (s : Server)
      → dead d s.api_keys ≡ true
      → dead d (check_streaming hashing now symbol o s).1.api_keys ≡ true
  unfolding check_streaming record_api_key_usage
  check_streaming-dead d now symbol none s h = h
  check_streaming-dead d now symbol (some row) s h = ground (arith, h)

  stream-dead :
      (d : Text) (now : ℕ) (key : Option Text) (symbol : Text) (s : Server)
      → dead d s.api_keys ≡ true
      → dead d (authenticate_streaming_key hashing now key symbol s).1.api_keys ≡ true
  unfolding authenticate_streaming_key
  stream-dead d now none symbol s h = h
  stream-dead d now (some []) symbol s h = h
  stream-dead d now (some (c ∷ cs)) symbol s h =
      check_streaming-dead d now symbol (match_key hashing (c ∷ cs) s.api_keys) s h

  create-dead :
      (d : Text) (c : Creation) (s : Server)
      → dead d s.api_keys ≡ true
      → dead d (create_api_key hashing c s).1.api_keys ≡ true
  unfolding create_api_key
  create-dead d c s h = ground (arith, dead-append d s.api_keys (new_row hashing c ∷ []) h)

  step-dead :
      (d : Text) (c : Call) (s : Server)
      → dead d s.api_keys ≡ true
      → dead d (step hashing c s).api_keys ≡ true
  unfolding step
  step-dead d (create c) s h = create-dead d c s h
  step-dead d (update i payload) s h = update-dead d i payload s h
  step-dead d (delete admin now i) s h = delete-dead d admin now i s h
  step-dead d (request testing now symbol key) s h = request-dead d testing now symbol key s h
  step-dead d (stream now key symbol) s h = stream-dead d now key symbol s h

  run-dead :
      (d : Text) (calls : List Call) (s : Server)
      → dead d s.api_keys ≡ true
      → dead d (run hashing calls s).api_keys ≡ true
  unfolding run
  run-dead d [] s h = h
  run-dead d (c ∷ cs) s h = run-dead d cs (step hashing c s) (step-dead d c s h)

  check_matched-verified :
      (testing : Bool) (now : ℕ) (key : Text) (o : Option ApiKey) (s : Server)
      → deleted_row o ≡ true
      → (check_matched hashing testing now (verified hashing key o) s).0 ≡ unauthorized
  unfolding check_matched deleted_row
  check_matched-verified testing now key none s h = refl
  check_matched-verified testing now key (some row) s h =
      elim (Bool-cases (verify_api_key hashing key row.key_hash)) [
        | inl e ↦ rw (e, h) refl
        | inr e ↦ rw (e) refl
      ]

  -- The key that finds a deleted row is not admitted.
  dead-unauthorized :
      (testing : Bool) (now : ℕ) (symbol : Option Text) (key : Text) (s : Server)
      → dead (hashing.digest key) s.api_keys ≡ true
      → (require_symbol_access hashing testing now symbol (some key) s).0 ≡ unauthorized
  unfolding require_symbol_access authenticate_api_key match_key dead check_access
  dead-unauthorized testing now symbol [] s h = refl
  dead-unauthorized testing now symbol (c ∷ cs) s h =
      let key = c ∷ cs in
      rw
        (
          check_matched-verified testing now key (find_key (hashing.digest key) s.api_keys) s h,
          check_access,
        )
        refl

  -- After a key's row was deleted with success, and whatever calls follow, with any later
  -- changes, creations and deletions, the key is answered with the one 401.
  pub require_symbol_access-delete_api_key :
      (row : ApiKey) (key admin : Text) (deleted_at : ℕ) (calls : List Call) (s : Server)
      (testing : Bool) (now : ℕ) (symbol : Option Text)
      → find_key (hashing.digest key) s.api_keys ≡ some row
      → (delete_api_key admin deleted_at row.id s).0 ≡ ok tt
      → (require_symbol_access hashing testing now symbol
          (some key)
          (run hashing calls (delete_api_key admin deleted_at row.id s).1)).0
        ≡ unauthorized
  require_symbol_access-delete_api_key row key admin deleted_at calls s testing now symbol found
        done =
      dead-unauthorized testing now symbol key
        (run hashing calls (delete_api_key admin deleted_at row.id s).1)
        (run-dead (hashing.digest key) calls (delete_api_key admin deleted_at row.id s).1
          (delete_api_key-dead (hashing.digest key) admin deleted_at row s found done))
