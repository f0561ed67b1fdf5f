-- ===== src/Api/Admin.antt =====
-- The admin tokens of archive/python-legacy/backend/app: core/security.py decodes them, api/deps.py
-- accepts them and api/endpoints/admin.py issues, refreshes and revokes them. Moments are in
-- microseconds and the claim `exp` in seconds; the table `jwt_revocations` is a list of rows.
pub mod Denial
pub mod Grace
pub mod Uncommitted
use ffllowwgreeks.Prelude.{
  ℕ, zero, suc, ◌+◌, ◌*◌, ◌-◌, ◌/◌, ◌<◌, ◌≤◌, ◌≡◌, Bool, true, false, not, ◌&&◌, ◌||◌, Option, none,
  some, List, [], ◌∷◌, ltb, leb, if◌then◌else◌, Text, codes, same,
}

pub record Claims : Type 0 where
  pub sub : Option Text
  pub typ : Option Text
  pub jti : Option Text
  pub exp : Option ℕ

pub data Decoded : Type 0 where
  valid : Claims → Decoded
  expired invalid : Decoded

abbrev pub seconds : ℕ → ℕ
seconds n = n * 1_000_000

-- PyJWT with the settings' secret: `decode verify_exp now token`, and `encode`.
pub record Jwt (Token : Type 0) : Type 0 where
  pub decode : Bool → ℕ → Token → Decoded
  pub encode : Claims → Token
  -- A token has one set of claims, whenever it is read.
  pub decode_once :
      (b c : Bool) (now later : ℕ) (t : Token) (p q : Claims)
      → decode b now t ≡ valid p
      → decode c later t ≡ valid q
      → p ≡ q
  -- With `verify_exp` a token is read only before its `exp`.
  pub decode_live :
      (now : ℕ) (t : Token) (p : Claims) (e : ℕ)
      → decode true now t ≡ valid p
      → p.exp ≡ some e
      → now < seconds e
  -- A token that was read once is, later, expired by its `exp` and otherwise still read.
  pub decode_later :
      (now later : ℕ) (t : Token) (p : Claims) (e : ℕ)
      → now ≤ later
      → decode true now t ≡ valid p
      → p.exp ≡ some e
      → (decode false later t ≡ valid p)
        × (decode true later t ≡ (if ltb later (seconds e) then valid p else expired))

-- A row of `jwt_revocations`.
pub record Revocation : Type 0 where
  pub jti : Text
  pub expires_at : ℕ

pub record Settings : Type 0 where
  pub admin_username : Text
  pub jwt_expire_minutes : ℕ
  pub jwt_refresh_grace_seconds : ℕ

-- What a request is refused with: 401 with its detail, or 403.
pub data Refusal : Type 0 where
  missing_token token_expired invalid_token not_admin token_revoked bad_credentials : Refusal

pub data Answer (A : Type 0) : Type 0 where
  ok : A → Answer A
  refused : Refusal → Answer A

abbrev pub equal : Option Text → Option Text → Bool
equal none none = true
equal (some s) (some t) = same s t
equal none (some t) = false
equal (some s) none = false

abbrev pub admin : Text
admin = codes "admin"

-- `payload.get("typ") != ADMIN_TOKEN_TYPE`
unfoldable pub checked : Claims → Decoded
checked p = if equal p.typ (some admin) then valid p else invalid

abbrev pub only_admin : Decoded → Decoded
only_admin (valid p) = checked p
only_admin expired = expired
only_admin invalid = invalid

abbrev pub is_revoked : Text → List Revocation → Bool
is_revoked j [] = false
is_revoked j (r ∷ rows) = same r.jti j || is_revoked j rows

-- A lookup for a claim that may be absent.
abbrev pub has_revocation : Option Text → List Revocation → Bool
has_revocation none rows = false
has_revocation (some j) rows = is_revoked j rows

-- `DELETE ... WHERE expires_at < now`
unfoldable pub prune_expired_jwt_revocations : ℕ → List Revocation → List Revocation
prune_expired_jwt_revocations now [] = []
prune_expired_jwt_revocations now (r ∷ rows) =
    let rest = prune_expired_jwt_revocations now rows in
    if ltb r.expires_at now then rest else r ∷ rest

-- When a revocation may be forgotten: at `exp`, or after a day.
abbrev pub forgotten_at : ℕ → Option ℕ → ℕ
forgotten_at now none = now + seconds 86_400
forgotten_at now (some e) = seconds e

-- The insertion, if there is no row yet, given whether its commit succeeds; any failure of it, that
-- of a racing insertion too, is rolled back and goes unnoticed.
unfoldable pub revoke : Bool → ℕ → Text → Option ℕ → List Revocation → List Revocation
revoke committed now j exp rows =
    if is_revoked j rows
    then rows
    else if committed
    then record { jti = j; expires_at = forgotten_at now exp } ∷ rows
    else rows

unfoldable pub revoke_claim : Bool → ℕ → Claims → Option Text → List Revocation → List Revocation
unfolding revoke
revoke_claim committed now p none rows = rows
revoke_claim committed now p (some j) rows = revoke committed now j p.exp rows

-- A logout skips an empty identifier, too.
unfoldable pub revoke_non_empty :
    Bool → ℕ → Claims → Option Text → List Revocation → List Revocation
unfolding revoke
revoke_non_empty committed now p none rows = rows
revoke_non_empty committed now p (some []) rows = rows
revoke_non_empty committed now p (some (c ∷ cs)) rows = revoke committed now (c ∷ cs) p.exp rows

module _ {Token : Type 0} (jwt : Jwt Token) (settings : Settings) where
  unfoldable pub decode_jwt_token : ℕ → Token → Decoded
  unfolding checked
  decode_jwt_token now t = only_admin (jwt.decode true now t)

  -- The second decoding, for a token that has expired.
  unfoldable pub within_grace : ℕ → ℕ → Decoded → Decoded
  within_grace grace_seconds now (valid p) =
      if equal p.typ (some admin)
      then elim p.exp [
        | none ↦ invalid
        | some e ↦ if ltb (seconds (e + grace_seconds)) now then expired else valid p
      ]
      else invalid
  within_grace grace_seconds now expired = expired
  within_grace grace_seconds now invalid = invalid

  unfoldable pub decode_jwt_token_allow_grace : ℕ → ℕ → Token → Decoded
  unfolding decode_jwt_token within_grace
  decode_jwt_token_allow_grace zero now t = decode_jwt_token now t
  decode_jwt_token_allow_grace (suc grace) now t = elim (decode_jwt_token now t) [
    | valid p ↦ valid p
    | expired ↦ within_grace (suc grace) now (jwt.decode false now t)
    | invalid ↦ invalid
  ]

  -- What follows the decoding, in `authenticate_admin` and at the start of a refresh.
  unfoldable pub admit : List Revocation → Decoded → Answer Claims
  admit rows (valid p) =
      if equal p.sub (some settings.admin_username)
      then if has_revocation p.jti rows then refused token_revoked else ok p
      else refused not_admin
  admit rows expired = refused token_expired
  admit rows invalid = refused invalid_token

  unfoldable pub authenticate_admin : ℕ → Option Token → List Revocation → Answer Claims
  unfolding decode_jwt_token admit
  authenticate_admin now none rows = refused missing_token
  authenticate_admin now (some t) rows = admit rows (decode_jwt_token now t)

  -- The claims of a new token; `j` is its random identifier.
  unfoldable pub create_jwt_token : ℕ → Text → Text → Claims
  create_jwt_token now subject j = record {
    sub = some subject;
    typ = some admin;
    jti = some j;
    exp = some ((now + seconds (settings.jwt_expire_minutes * 60)) / 1_000_000);
  }

  -- `admin_login`, given whether the user name and the password are right.
  unfoldable pub admin_login : ℕ → Bool → Bool → Text → Answer Token
  unfolding create_jwt_token
  admin_login now username_ok password_ok j =
      if username_ok && password_ok
      then ok (jwt.encode (create_jwt_token now settings.admin_username j))
      else refused bad_credentials

  -- `admin_logout` behind `admin_token_payload`, with the table that it leaves; `committed` says
  -- whether the commit succeeds, here and in a refresh.
  unfoldable pub logout_with :
      Bool → ℕ → Decoded → List Revocation → Answer Claims × List Revocation
  unfolding revoke_non_empty
  logout_with committed now (valid p) rows = (ok p, revoke_non_empty committed now p p.jti rows)
  logout_with committed now expired rows = (refused token_expired, rows)
  logout_with committed now invalid rows = (refused invalid_token, rows)

  unfoldable pub admin_logout :
      Bool → ℕ → Option Token → List Revocation → Answer Claims × List Revocation
  unfolding decode_jwt_token logout_with
  admin_logout committed now none rows = (refused missing_token, rows)
  admin_logout committed now (some t) rows = logout_with committed now (decode_jwt_token now t) rows

  unfoldable pub refresh_with :
      Bool → ℕ → Text → Answer Claims → List Revocation → Answer Token × List Revocation
  unfolding create_jwt_token revoke_claim
  refresh_with committed now j (ok p) rows = (
    ok (jwt.encode (create_jwt_token now settings.admin_username j)),
    revoke_claim committed now p p.jti rows,
  )
  refresh_with committed now j (refused r) rows = (refused r, rows)

  unfoldable pub admin_refresh_token :
      Bool → ℕ → Text → Option Token → List Revocation → Answer Token × List Revocation
  unfolding refresh_with admit decode_jwt_token_allow_grace
  admin_refresh_token committed now j none rows = (refused missing_token, rows)
  admin_refresh_token committed now j (some t) rows =
      refresh_with committed now j
        (admit rows (decode_jwt_token_allow_grace settings.jwt_refresh_grace_seconds now t)) rows
