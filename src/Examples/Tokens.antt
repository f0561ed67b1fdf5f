-- ===== src/Examples/Tokens.antt =====
-- Admin tokens that are their own claims.
use ffllowwgreeks.Prelude.{
  ℕ, ◌≤◌, ◌<◌, ◌≡◌, refl, sym, ap, inl, inr, ◌∙◌, Bool, true, false, Option, none, some, List, [],
  ◌∷◌, same, ltb, if◌then◌else◌, codes, arith, Bool-cases,
}
use ffllowwgreeks.Api.Admin.{
  Claims, Decoded, valid, expired, seconds, Jwt, Settings, Refusal, refused, ok, admin,
  authenticate_admin, admin_logout, admin_refresh_token, create_jwt_token,
  prune_expired_jwt_revocations,
}
use ffllowwgreeks.Api.Admin.Denial.{Event, prune, log_out, run, authenticate_admin-run-admin_logout}
use ffllowwgreeks.Api.Admin.Uncommitted.{logout-stays_admitted}
use ffllowwgreeks.Api.Admin.Grace.{logout_prune_refresh_succeeds}

abbrev past : ℕ → Option ℕ → Bool
past now none = false
past now (some e) = if ltb now (seconds e) then false else true

abbrev read : Bool → ℕ → Claims → Decoded
read false now p = valid p
read true now p = if past now p.exp then expired else valid p

abbrev claims_of : Claims → Decoded → Claims
claims_of p (valid q) = q
claims_of p expired = p
claims_of p Decoded.invalid = p

read_self : (b : Bool) (now : ℕ) (t p : Claims) → read b now t ≡ valid p → t ≡ p
read_self false now t p h = ap (claims_of t) h
read_self true now t p h = elim (Bool-cases (past now t.exp)) [
  | inl e ↦ absurd (ground (arith, rw (e) at h))
  | inr e ↦ ap (claims_of t) (rw (e) at h)
]

read-valid : (now : ℕ) (t p : Claims) → read true now t ≡ valid p → past now t.exp ≡ false
read-valid now t p h = elim (Bool-cases (past now t.exp)) [
  | inl e ↦ absurd (ground (arith, rw (e) at h))
  | inr e ↦ e
]

exp-read :
    (b : Bool) (now : ℕ) (t p : Claims) (e : ℕ)
    → read b now t ≡ valid p
    → p.exp ≡ some e
    → t.exp ≡ some e
exp-read b now t p e h he = ap (λ x. x.exp) (read_self b now t p h) ∙ he

past-exp :
    (later e : ℕ) (o : Option ℕ)
    → o ≡ some e
    → past later o ≡ (if ltb later (seconds e) then false else true)
past-exp later e o h = ap (past later) h

read_live :
    (now : ℕ) (t p : Claims) (e : ℕ) → read true now t ≡ valid p → p.exp ≡ some e → now < seconds e
read_live now t p e h he =
    ground (arith, read-valid now t p h, past-exp now e t.exp (exp-read true now t p e h he))

read_later :
    (now later : ℕ) (t p : Claims) (e : ℕ)
    → now ≤ later
    → read true now t ≡ valid p
    → p.exp ≡ some e
    → (read false later t ≡ valid p)
      × (read true later t ≡ (if ltb later (seconds e) then valid p else expired))
read_later now later t p e le h he = (
  ap valid (read_self true now t p h),
  rw (past-exp later e t.exp (exp-read true now t p e h he), read_self true now t p h)
      (ground arith),
)

abbrev plain : Jwt Claims
plain = record {
  decode = read;
  encode = λ p. p;
  decode_once = λ b c now later t p q h g. sym (read_self b now t p h) ∙ read_self c later t q g;
  decode_live = read_live;
  decode_later = read_later;
}

abbrev config : Settings
config = record {
  admin_username = codes "root";
  jwt_expire_minutes = 60;
  jwt_refresh_grace_seconds = 300;
}

abbrev token : Claims
token = record {
  sub = some (codes "root");
  typ = some admin;
  jti = some (codes "x1");
  exp = some 3_600;
}

abbrev later_events : List (ℕ × Event Claims)
later_events = (seconds 20, prune) ∷ (seconds 30, log_out true (some token)) ∷ []

authenticate_admin-run-admin_logout_example :
    (r : Refusal) × (authenticate_admin plain config (seconds 40) (some token) (
        run plain config later_events
          (admin_logout plain config true (seconds 10) (some token) []).1)
      ≡ refused r)
unfolding admin_logout same
authenticate_admin-run-admin_logout_example =
    authenticate_admin-run-admin_logout plain config token token 3_600 b'x' (codes "1") (seconds 10)
      (seconds 40) later_events [] refl refl tt refl (omega arith, (omega arith, tt))

logout_prune_refresh_succeeds_example :
    (admin_refresh_token plain config true (seconds 3_800) (codes "x2") (some token) (
      prune_expired_jwt_revocations
        (seconds 3_700)
        (admin_logout plain config true (seconds 10) (some token) []).1)).0
    ≡ ok (create_jwt_token plain config (seconds 3_800) (codes "root") (codes "x2"))
logout_prune_refresh_succeeds_example =
    logout_prune_refresh_succeeds plain config token token 3_600 b'x' (codes "1") (codes "x2")
      (seconds 10) (seconds 3_700) (seconds 3_800) true true [] refl refl refl refl refl refl
      (omega arith) (omega arith) (omega arith) (omega arith)

logout-stays_admitted_example :
    ((admin_logout plain config false (seconds 10) (some token) []).0 ≡ ok token)
    × (authenticate_admin plain config
          (seconds 3_000)
          (some token)
          (admin_logout plain config false (seconds 10) (some token) []).1
        ≡ ok token)
logout-stays_admitted_example =
    logout-stays_admitted plain config token token 3_600 b'x' (codes "1") (seconds 10)
      (seconds 3_000) [] refl refl refl refl refl refl (omega arith) (omega arith)
