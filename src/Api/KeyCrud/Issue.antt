-- ===== src/Api/KeyCrud/Issue.antt =====
-- A created key, archive/python-legacy/backend/app/api/endpoints/admin.py, presented to the
-- authentication in api/deps.py.
use ffllowwgreeks.Prelude.{
  ℕ, ◌≡◌, refl, sym, ap, ◌∙◌, true, false, Option, none, some, List, [], ◌∷◌, ◌++◌, ◌≢◌, ◌≤◌, inl,
  inr, ltb, Text, same, same_refl, arith, Bool-cases, map, upper,
}
use mathlib.Core.Path.{subst}
use ffllowwgreeks.Api.ApiKeys.{
  ApiKey, Server, Hashing, Reply, ok, raised, contains, find_key, match_key, has_expired,
  is_deleted, count_use, check_matched, authenticate_api_key, check_access, require_symbol_access,
  verify_api_key, may_access,
}
use ffllowwgreeks.Api.KeyCrud.{
  Creation, ApiKeySummary, to_summary, new_row, create_api_key, conflicts,
}

equal-found :
    (new : ApiKey) (d : Text)
    → new.key_lookup ≡ some d
    → same d d ≡ true
    → find_key d (new ∷ []) ≡ some new
unfolding find_key
equal-found new d h e = ground (arith, h, e)

from_ok : {A : Type 0} → A → Reply A → A
from_ok a (ok b) = b
from_ok a (raised n why) = a

-- The lookup of a new row that clashes with no row finds it.
find_key-append :
    (new : ApiKey) (d : Text) (rows : List ApiKey)
    → new.key_lookup ≡ some d
    → conflicts new rows ≡ false
    → find_key d (rows ++ (new ∷ [])) ≡ some new
unfolding find_key
find_key-append new d [] h free = equal-found new d h (same_refl d)
find_key-append new d (row ∷ rows) h free = ground (arith, find_key-append new d rows h)

-- The moment is not after the expiry.
abbrev pub Unexpired : ℕ → Option ℕ → Type 0
Unexpired now none = Unit
Unexpired now (some e) = now ≤ e

not_past :
    (now : ℕ) (o : Option ℕ)
    → Unexpired now o
    → (elim o [ none ↦ false | some e ↦ ltb e now ]) ≡ false
not_past now none h = refl
not_past now (some e) h = ground (arith, h)

has_expired-Unexpired :
    (now : ℕ) (row : ApiKey) → Unexpired now row.expires_at → has_expired now row ≡ false
unfolding has_expired
has_expired-Unexpired now row h = not_past now row.expires_at h

allowed_in :
    (row : ApiKey) (symbol : Text) (view : ApiKeySummary)
    → to_summary row ≡ view
    → contains (upper symbol) (map upper view.allowed_symbols) ≡ true
    → may_access symbol row ≡ true
unfolding may_access to_summary
allowed_in row symbol view e h =
    ap (λ v. contains (upper symbol) (map upper v.allowed_symbols)) e ∙ h

module _ (hashing : Hashing) where
  create_api_key-found :
      (c : Creation) (s : Server) (view : ApiKeySummary) (key : Text)
      → (create_api_key hashing c s).0 ≡ ok (view, key)
      → (to_summary (new_row hashing c) ≡ view)
        × ((c.plaintext ≡ key)
            × (find_key (hashing.digest c.plaintext) (create_api_key hashing c s).1.api_keys
                ≡ some (new_row hashing c)))
  unfolding create_api_key from_ok new_row
  create_api_key-found c s view key h =
      elim (Bool-cases (conflicts (new_row hashing c) s.api_keys)) [
        | inl e ↦ absurd (ground (arith, rw (e, create_api_key) at h))
        | inr e ↦
            let answer : ApiKeySummary × Text = (to_summary (new_row hashing c), c.plaintext) in
            let same_answer = ap (from_ok answer) (rw (e, create_api_key) at h) in
            (
              ap (λ a. a.0) same_answer,
              (
                ap (λ a. a.1) same_answer,
                rw (e, create_api_key)
                    (find_key-append (new_row hashing c) (hashing.digest c.plaintext) s.api_keys
                      refl e),
              ),
            )
      ]

  authenticate-matched :
      (now : ℕ) (key : Text) (row : ApiKey) (s : Server)
      → key ≢ []
      → match_key hashing key s.api_keys ≡ some row
      → authenticate_api_key hashing false now (some key) s
        ≡ check_matched hashing false now (some row) s
  unfolding authenticate_api_key
  authenticate-matched now [] row s given h = absurd (given refl)
  authenticate-matched now (c ∷ cs) row s given h = rw (h, authenticate_api_key) refl

  verify_lem : (salt key : Text) → verify_api_key hashing key (hashing.hashpw salt key) ≡ true
  unfolding verify_api_key
  verify_lem salt key = rw (hashing.checkpw-hashpw salt key, verify_api_key) refl

  match_key-new_row :
      (c : Creation) (s : Server)
      → find_key (hashing.digest c.plaintext) s.api_keys ≡ some (new_row hashing c)
      → match_key hashing c.plaintext s.api_keys ≡ some (new_row hashing c)
  unfolding match_key new_row
  match_key-new_row c s found = rw (found, verify_lem c.salt c.plaintext) refl

  check_matched-new_row :
      (c : Creation) (now : ℕ) (symbol : Text) (s : Server)
      → has_expired now (new_row hashing c) ≡ false
      → may_access symbol (new_row hashing c) ≡ true
      → check_access hashing
          (some symbol)
          (check_matched hashing false now (some (new_row hashing c)) s).0
        ≡ ok (new_row hashing c)
  unfolding check_matched check_access count_use new_row is_deleted
  check_matched-new_row c now symbol s live allowed = rw (live, allowed) refl

  -- If a creation succeeds with a summary and a key, then the key, unless it is empty, is admitted
  -- to every symbol of the summary, in any spelling, until the summary's expiry, with a row that
  -- has that summary.
  pub require_symbol_access-create_api_key :
      (c : Creation) (s : Server) (view : ApiKeySummary) (key symbol : Text) (now : ℕ)
      → (create_api_key hashing c s).0 ≡ ok (view, key)
      → key ≢ []
      → contains (upper symbol) (map upper view.allowed_symbols) ≡ true
      → Unexpired now view.expires_at
      → (row : ApiKey) × (((require_symbol_access hashing false now
              (some symbol)
              (some key)
              (create_api_key hashing c s).1).0
            ≡ ok row)
          × (to_summary row ≡ view))
  unfolding require_symbol_access to_summary
  require_symbol_access-create_api_key c s view key symbol now h given allowed live =
      let found = create_api_key-found c s view key h in
      let after = (create_api_key hashing c s).1 in
      let row = new_row hashing c in
      (
        row,
        (
          ap (λ k. (require_symbol_access hashing false now (some symbol) (some k) after).0)
                (sym found.1.0)
              ∙ (ap (λ a. check_access hashing (some symbol) a.0)
                    (authenticate-matched now c.plaintext row after (λ e. given (sym found.1.0 ∙ e))
                      (match_key-new_row c after found.1.1))
                  ∙ check_matched-new_row c now symbol after
                      (has_expired-Unexpired now row
                        (subst (λ v. Unexpired now v.expires_at) (sym found.0) live))
                      (allowed_in row symbol view found.0 allowed)),
          found.0,
        ),
      )
