-- ===== src/Api/Admin/Grace.antt =====
-- The grace window of `/admin/refresh-token` against the pruning of the denylist,
-- archive/python-legacy/backend/app/api/deps.py and api/endpoints/admin.py.
use ffllowwgreeks.Prelude.{
  ℕ, zero, suc, ◌+◌, ◌≤◌, ◌<◌, ◌≡◌, refl, Bool, true, false, Option, some, List, [], ◌∷◌, Text,
  same_refl, arith, lt→ltb,
}
use ffllowwgreeks.Api.Admin.{
  Claims, valid, expired, seconds, Jwt, Revocation, Settings, ok, admit, admin, equal, is_revoked,
  has_revocation, prune_expired_jwt_revocations, revoke, revoke_non_empty, checked, within_grace,
  decode_jwt_token, decode_jwt_token_allow_grace, admin_logout, refresh_with, create_jwt_token,
  admin_refresh_token,
}

is_revoked-prune :
    (j : Text) (m : ℕ) (rows : List Revocation)
    → is_revoked j rows ≡ false
    → is_revoked j (prune_expired_jwt_revocations m rows) ≡ false
unfolding prune_expired_jwt_revocations
is_revoked-prune j m [] h = h
is_revoked-prune j m (r ∷ rows) h = ground (arith, is_revoked-prune j m rows (ground arith))

-- The row of a token is gone from the table once it is pruned after the token's `exp`.
is_revoked-prune-revoke :
    (j : Text) (m now e : ℕ) (b : Bool) (rows : List Revocation)
    → is_revoked j rows ≡ false
    → seconds e < m
    → is_revoked j (prune_expired_jwt_revocations m (revoke b now j (some e) rows)) ≡ false
unfolding prune_expired_jwt_revocations revoke
is_revoked-prune-revoke j m now e true rows h late =
    rw (h, lt→ltb (seconds e) m late) (is_revoked-prune j m rows h)
is_revoked-prune-revoke j m now e false rows h late = rw h (is_revoked-prune j m rows h)

pub equal-some : (o : Option Text) (s : Text) → o ≡ some s → equal o (some s) ≡ true
equal-some o s h = rw (h) (same_refl s)

pruned_logout :
    (m now e c : ℕ) (b : Bool) (cs : Text) (p : Claims) (rows : List Revocation)
    → p.jti ≡ some (c ∷ cs)
    → p.exp ≡ some e
    → is_revoked (c ∷ cs) rows ≡ false
    → seconds e < m
    → has_revocation p.jti (prune_expired_jwt_revocations m (revoke_non_empty b now p p.jti rows))
      ≡ false
unfolding revoke_non_empty
pruned_logout m now e c b cs p rows hj he h late =
    rw (hj, he) (is_revoked-prune-revoke (c ∷ cs) m now e b rows h late)

module _ {Token : Type 0} (jwt : Jwt Token) (settings : Settings) where
  pub decode_jwt_token_live :
      (now : ℕ) (t : Token) (p : Claims)
      → jwt.decode true now t ≡ valid p
      → p.typ ≡ some admin
      → decode_jwt_token jwt settings now t ≡ valid p
  unfolding decode_jwt_token checked
  decode_jwt_token_live now t p h ht = rw (h, equal-some p.typ admin ht) refl

  decode_jwt_token_expired :
      (now later e : ℕ) (t : Token) (p : Claims)
      → jwt.decode true now t ≡ valid p
      → p.exp ≡ some e
      → now ≤ later
      → seconds e < later
      → decode_jwt_token jwt settings later t ≡ expired
  unfolding decode_jwt_token
  decode_jwt_token_expired now later e t p h he after late =
      let re_read = jwt.decode_later now later t p e after h he in rw (re_read.1) (ground arith)

  within_grace_lem :
      (grace later e : ℕ) (p : Claims)
      → p.typ ≡ some admin
      → p.exp ≡ some e
      → later ≤ seconds (e + grace)
      → within_grace jwt settings grace later (valid p) ≡ valid p
  unfolding within_grace
  within_grace_lem grace later e p ht he soon = rw (equal-some p.typ admin ht, he) (ground arith)

  decode_jwt_token_allow_grace_lem :
      (grace now later e : ℕ) (t : Token) (p : Claims)
      → jwt.decode true now t ≡ valid p
      → p.typ ≡ some admin
      → p.exp ≡ some e
      → now ≤ later
      → seconds e < later
      → later ≤ seconds (e + grace)
      → decode_jwt_token_allow_grace jwt settings grace later t ≡ valid p
  unfolding decode_jwt_token_allow_grace
  decode_jwt_token_allow_grace_lem zero now later e t p h ht he after late soon =
      absurd (omega (arith, soon, late))
  decode_jwt_token_allow_grace_lem (suc g) now later e t p h ht he after late soon =
      rw
        (
          decode_jwt_token_expired now later e t p h he after late,
          (jwt.decode_later now later t p e after h he).0,
          decode_jwt_token_allow_grace,
        )
        (within_grace_lem (suc g) later e p ht he soon)

  refresh_admitted :
      (later : ℕ) (b : Bool) (i : Text) (p : Claims) (rows : List Revocation)
      → p.sub ≡ some settings.admin_username
      → has_revocation p.jti rows ≡ false
      → (refresh_with jwt settings b later i (admit jwt settings rows (valid p)) rows).0
        ≡ ok (jwt.encode (create_jwt_token jwt settings later settings.admin_username i))
  unfolding refresh_with admit
  refresh_admitted later b i p rows hs hr =
      rw (equal-some p.sub settings.admin_username hs, hr) refl

  -- A token with a non-empty identifier, not in the table, is logged out while it is valid; once
  -- the table is pruned after the token's `exp`, a refresh with it succeeds, up to the end of the
  -- grace window, whatever the commits of the logout and the refresh do.
  pub logout_prune_refresh_succeeds :
      (t : Token) (p : Claims) (e c : ℕ) (cs i : Text) (now pruned later : ℕ)
      (committed again : Bool) (rows : List Revocation)
      → jwt.decode true now t ≡ valid p
      → p.sub ≡ some settings.admin_username
      → p.typ ≡ some admin
      → p.jti ≡ some (c ∷ cs)
      → p.exp ≡ some e
      → is_revoked (c ∷ cs) rows ≡ false
      → now ≤ pruned
      → seconds e < pruned
      → pruned ≤ later
      → later ≤ seconds (e + settings.jwt_refresh_grace_seconds)
      → (admin_refresh_token jwt settings again later i (some t) (
          prune_expired_jwt_revocations pruned
            (admin_logout jwt settings committed now (some t) rows).1)).0
        ≡ ok (jwt.encode (create_jwt_token jwt settings later settings.admin_username i))
  unfolding admin_refresh_token admin_logout
  logout_prune_refresh_succeeds t p e c cs i now pruned later committed again rows h hs ht hj he
        fresh h1 h2 h3 h4 =
      rw
        (
          decode_jwt_token_live now t p h ht,
          decode_jwt_token_allow_grace_lem settings.jwt_refresh_grace_seconds now later e t p h ht
              he (omega arith) (omega arith) h4,
        )
        (refresh_admitted later again i p
          (prune_expired_jwt_revocations pruned (revoke_non_empty committed now p p.jti rows)) hs
          (pruned_logout pruned now e c committed cs p rows hj he fresh h2))
