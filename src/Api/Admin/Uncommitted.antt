-- ===== src/Api/Admin/Uncommitted.antt =====
-- A logout of archive/python-legacy/backend/app/api/endpoints/admin.py whose commit fails.
use ffllowwgreeks.Prelude.{
  ℕ, ◌≤◌, ◌<◌, ◌≡◌, refl, true, false, if◌then◌else◌, some, List, ◌∷◌, Text, lt→ltb, ap, ◌∙◌,
}
use ffllowwgreeks.Api.Admin.{
  Claims, valid, expired, seconds, Jwt, Revocation, Settings, ok, admit, admin, is_revoked, revoke,
  revoke_non_empty, admin_logout, logout_with, authenticate_admin,
}
use ffllowwgreeks.Api.Admin.Grace.{decode_jwt_token_live, equal-some}

revoke_non_empty_uncommitted :
    (now c : ℕ) (cs : Text) (p : Claims) (rows : List Revocation)
    → p.jti ≡ some (c ∷ cs)
    → is_revoked (c ∷ cs) rows ≡ false
    → revoke_non_empty false now p p.jti rows ≡ rows
unfolding revoke_non_empty revoke
revoke_non_empty_uncommitted now c cs p rows hj fresh = rw (hj, fresh) refl

module _ {Token : Type 0} (jwt : Jwt Token) (settings : Settings) where
  admit-ok :
      (c : ℕ) (cs : Text) (p : Claims) (rows : List Revocation)
      → p.sub ≡ some settings.admin_username
      → p.jti ≡ some (c ∷ cs)
      → is_revoked (c ∷ cs) rows ≡ false
      → admit jwt settings rows (valid p) ≡ ok p
  unfolding admit
  admit-ok c cs p rows hs hj fresh =
      rw (equal-some p.sub settings.admin_username hs, hj, fresh) refl

  -- A logout of an admin's token with a non-empty identifier that has no row is answered as done
  -- though its commit fails, and the token is accepted after it at any moment before its `exp`.
  pub logout-stays_admitted :
      (t : Token) (p : Claims) (e c : ℕ) (cs : Text) (now later : ℕ) (rows : List Revocation)
      → jwt.decode true now t ≡ valid p
      → p.sub ≡ some settings.admin_username
      → p.typ ≡ some admin
      → p.jti ≡ some (c ∷ cs)
      → p.exp ≡ some e
      → is_revoked (c ∷ cs) rows ≡ false
      → now ≤ later
      → later < seconds e
      → ((admin_logout jwt settings false now (some t) rows).0 ≡ ok p)
        × (authenticate_admin jwt settings later
              (some t)
              (admin_logout jwt settings false now (some t) rows).1
            ≡ ok p)
  unfolding admin_logout logout_with authenticate_admin
  logout-stays_admitted t p e c cs now later rows h hs ht hj he fresh after early =
      let later_read =
        (jwt.decode_later now later t p e after h he).1
        ∙ ap (λ b. if b then valid p else expired) (lt→ltb later (seconds e) early) in
      rw
        (
          decode_jwt_token_live jwt settings now t p h ht,
          decode_jwt_token_live jwt settings later t p later_read ht,
          revoke_non_empty_uncommitted now c cs p rows hj fresh,
          admit-ok c cs p rows hs hj fresh,
        )
        (refl, refl)
