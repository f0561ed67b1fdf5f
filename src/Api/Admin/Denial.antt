-- ===== src/Api/Admin/Denial.antt =====
-- The denylist of tokens, archive/python-legacy/backend/app/api/deps.py, over runs of the admin
-- endpoints and of the pruning loop.
use ffllowwgreeks.Prelude.{
  Bool, if-cases, ℕ, ◌≤◌, ◌≡◌, refl, sym, ap, ◌∙◌, true, ◌⊎◌, inl, inr, Option, none, some, List,
  [], ◌∷◌, All, ltb, Text, same, same_refl, arith, Bool-cases,
}
use ffllowwgreeks.Api.Admin.{
  Claims, Decoded, valid, expired, invalid, seconds, Jwt, Revocation, Settings, Refusal,
  token_expired, invalid_token, token_revoked, not_admin, Answer, ok, refused, admit, is_revoked,
  prune_expired_jwt_revocations, revoke, revoke_claim, revoke_non_empty, checked, only_admin, admin,
  decode_jwt_token, authenticate_admin, logout_with, admin_logout, admin_refresh_token,
  refresh_with, equal, decode_jwt_token_allow_grace,
}

-- What may happen to the table: a logout, a refresh with the identifier of the new token, each with
-- the outcome of its commit, and a pruning.
pub data Event (Token : Type 0) : Type 0 where
  log_out : Bool → Option Token → Event Token
  refresh : Bool → Text → Option Token → Event Token
  prune : Event Token

-- Every row of an identifier lasts until the moment `m`.
abbrev pub Lasting : Text → ℕ → List Revocation → Type 0
Lasting j m rows = All (λ r. same r.jti j ≡ true → m ≤ r.expires_at) rows

-- There is a row of the identifier that lasts until `m`.
Kept : Text → ℕ → List Revocation → Type 0
Kept j m [] = ⊥
Kept j m (r ∷ rows) = ((same r.jti j ≡ true) × (m ≤ r.expires_at)) ⊎ Kept j m rows

Kept-prune :
    (j : Text) (m now : ℕ) (rows : List Revocation)
    → now ≤ m
    → Kept j m rows
    → Kept j m (prune_expired_jwt_revocations now rows)
unfolding Kept prune_expired_jwt_revocations
Kept-prune j m now [] h k = absurd k
Kept-prune j m now (r ∷ rows) h (inl k) = elim (Bool-cases (ltb r.expires_at now)) [
  | inl e ↦ absurd (ground (arith, k.1))
  | inr e ↦ rw (e) (inl k)
]
Kept-prune j m now (r ∷ rows) h (inr k) =
    let rest = Kept-prune j m now rows h k in
    elim (Bool-cases (ltb r.expires_at now)) [ inl e ↦ rw (e) rest | inr e ↦ rw (e) (inr rest) ]

Kept-revoke :
    (j i : Text) (m now : ℕ) (b : Bool) (exp : Option ℕ) (rows : List Revocation)
    → Kept j m rows
    → Kept j m (revoke b now i exp rows)
unfolding Kept revoke
Kept-revoke j i m now b exp rows k =
    if-cases (Kept j m) (is_revoked i rows) _ _ (λ e. k)
      (λ e. if-cases (Kept j m) b _ _ (λ e. inr k) (λ e. k))

is_revoked-Kept :
    (j : Text) (m : ℕ) (rows : List Revocation) → Kept j m rows → is_revoked j rows ≡ true
unfolding Kept
is_revoked-Kept j m [] k = absurd k
is_revoked-Kept j m (r ∷ rows) (inl k) = rw (k.0)
is_revoked-Kept j m (r ∷ rows) (inr k) = ground (arith, is_revoked-Kept j m rows k)

Lasting-Kept :
    (j : Text) (m : ℕ) (rows : List Revocation)
    → is_revoked j rows ≡ true
    → Lasting j m rows
    → Kept j m rows
unfolding Kept
Lasting-Kept j m [] h l = absurd (ground arith)
Lasting-Kept j m (r ∷ rows) h l = elim (Bool-cases (same r.jti j)) [
  | inl e ↦ inl (e, l.0 e)
  | inr e ↦ inr (Lasting-Kept j m rows (ground arith) l.1)
]

revoke-Kept :
    (j : Text) (now e : ℕ) (rows : List Revocation)
    → Lasting j (seconds e) rows
    → Kept j (seconds e) (revoke true now j (some e) rows)
unfolding Kept revoke
revoke-Kept j now e rows l = elim (Bool-cases (is_revoked j rows)) [
  | inl h ↦ rw (h) (Lasting-Kept j (seconds e) rows h l)
  | inr h ↦ rw (h) (inl (same_refl j, omega arith))
]

from_ok : Claims → Answer Claims → Claims
from_ok p (ok q) = q
from_ok p (refused r) = p

revoke_claim-Kept :
    (j : Text) (m now : ℕ) (b : Bool) (p : Claims) (o : Option Text) (rows : List Revocation)
    → Kept j m rows
    → Kept j m (revoke_claim b now p o rows)
unfolding revoke_claim
revoke_claim-Kept j m now b p none rows k = k
revoke_claim-Kept j m now b p (some i) rows k = Kept-revoke j i m now b p.exp rows k

revoke_non_empty-Kept :
    (j : Text) (m now : ℕ) (b : Bool) (p : Claims) (o : Option Text) (rows : List Revocation)
    → Kept j m rows
    → Kept j m (revoke_non_empty b now p o rows)
unfolding revoke_non_empty
revoke_non_empty-Kept j m now b p none rows k = k
revoke_non_empty-Kept j m now b p (some []) rows k = k
revoke_non_empty-Kept j m now b p (some (c ∷ cs)) rows k =
    Kept-revoke j (c ∷ cs) m now b p.exp rows k

revoke_non_empty_lem :
    (now e c : ℕ) (cs : Text) (p : Claims) (rows : List Revocation)
    → p.jti ≡ some (c ∷ cs)
    → p.exp ≡ some e
    → Lasting (c ∷ cs) (seconds e) rows
    → Kept (c ∷ cs) (seconds e) (revoke_non_empty true now p p.jti rows)
unfolding revoke_non_empty
revoke_non_empty_lem now e c cs p rows hj he l = rw (hj, he) (revoke-Kept (c ∷ cs) now e rows l)

module _ {Token : Type 0} (jwt : Jwt Token) (settings : Settings) where
  step : ℕ → Event Token → List Revocation → List Revocation
  step now (log_out committed t) rows = (admin_logout jwt settings committed now t rows).1
  step now (refresh committed j t) rows =
      (admin_refresh_token jwt settings committed now j t rows).1
  step now prune rows = prune_expired_jwt_revocations now rows

  unfoldable pub run : List (ℕ × Event Token) → List Revocation → List Revocation
  unfolding step
  run [] rows = rows
  run ((now, event) ∷ rest) rows = run rest (step now event rows)

  logout_with-Kept :
      (j : Text) (m now : ℕ) (b : Bool) (d : Decoded) (rows : List Revocation)
      → Kept j m rows
      → Kept j m (logout_with jwt settings b now d rows).1
  unfolding logout_with
  logout_with-Kept j m now b (valid p) rows k = revoke_non_empty-Kept j m now b p p.jti rows k
  logout_with-Kept j m now b expired rows k = k
  logout_with-Kept j m now b invalid rows k = k

  refresh_with-Kept :
      (j i : Text) (m now : ℕ) (b : Bool) (a : Answer Claims) (rows : List Revocation)
      → Kept j m rows
      → Kept j m (refresh_with jwt settings b now i a rows).1
  unfolding refresh_with
  refresh_with-Kept j i m now b (ok p) rows k = revoke_claim-Kept j m now b p p.jti rows k
  refresh_with-Kept j i m now b (refused r) rows k = k

  step-Kept :
      (j : Text) (m now : ℕ) (event : Event Token) (rows : List Revocation)
      → now ≤ m
      → Kept j m rows
      → Kept j m (step now event rows)
  unfolding step admin_logout admin_refresh_token
  step-Kept j m now (log_out b none) rows h k = k
  step-Kept j m now (log_out b (some t)) rows h k =
      logout_with-Kept j m now b (decode_jwt_token jwt settings now t) rows k
  step-Kept j m now (refresh b i none) rows h k = k
  step-Kept j m now (refresh b i (some t)) rows h k =
      refresh_with-Kept j i m now b
        (admit jwt settings rows
          (decode_jwt_token_allow_grace jwt settings settings.jwt_refresh_grace_seconds now t))
        rows k
  step-Kept j m now prune rows h k = Kept-prune j m now rows h k

  run-Kept :
      (j : Text) (m later : ℕ) (events : List (ℕ × Event Token)) (rows : List Revocation)
      → later ≤ m
      → All (λ e. e.0 ≤ later) events
      → Kept j m rows
      → Kept j m (run events rows)
  unfolding run
  run-Kept j m later [] rows h before k = k
  run-Kept j m later ((now, event) ∷ rest) rows h before k =
      run-Kept j m later rest (step now event rows) h before.1
        (step-Kept j m now event rows (omega (arith, before.0)) k)

  logout-Kept :
      (now e c : ℕ) (cs : Text) (p : Claims) (d : Decoded) (rows : List Revocation)
      → p.jti ≡ some (c ∷ cs)
      → p.exp ≡ some e
      → (logout_with jwt settings true now d rows).0 ≡ ok p
      → Lasting (c ∷ cs) (seconds e) rows
      → Kept (c ∷ cs) (seconds e) (logout_with jwt settings true now d rows).1
  unfolding logout_with from_ok
  logout-Kept now e c cs p (valid q) rows hj he h l =
      revoke_non_empty_lem now e c cs q rows (ap (λ a. (from_ok q a).jti) h ∙ hj)
        (ap (λ a. (from_ok q a).exp) h ∙ he) l
  logout-Kept now e c cs p expired rows hj he h l = absurd (ground arith)
  logout-Kept now e c cs p invalid rows hj he h l = absurd (ground arith)

  -- An answer of the admitting check on what a decoding gives.
  authenticate-refused :
      (p : Claims) (j : Text) (rows : List Revocation) (d : Decoded)
      → p.jti ≡ some j
      → ((q : Claims) → d ≡ valid q → (q ≡ p) × (is_revoked j rows ≡ true))
      → (r : Refusal) × (admit jwt settings rows d ≡ refused r)
  unfolding admit
  authenticate-refused p j rows (valid q) hj h =
      let denied = h q refl in
      elim (Bool-cases (equal q.sub (some settings.admin_username))) [
        | inl e ↦ (token_revoked, rw (e, ap (λ x. x.jti) denied.0, hj, denied.1) refl)
        | inr e ↦ (not_admin, rw (e) refl)
      ]
  authenticate-refused p j rows expired hj h = (token_expired, refl)
  authenticate-refused p j rows invalid hj h = (invalid_token, refl)

  logout_with-ok :
      (now : ℕ) (p : Claims) (d : Decoded) (rows : List Revocation)
      → (logout_with jwt settings true now d rows).0 ≡ ok p
      → d ≡ valid p
  unfolding logout_with from_ok
  logout_with-ok now p (valid q) rows h = ap (λ a. valid (from_ok q a)) h
  logout_with-ok now p expired rows h = absurd (ground arith)
  logout_with-ok now p invalid rows h = absurd (ground arith)

  only_admin-valid : (d : Decoded) (q : Claims) → only_admin d ≡ valid q → d ≡ valid q
  unfolding checked
  only_admin-valid (valid p) q h = elim (Bool-cases (equal p.typ (some admin))) [
    | inl e ↦ sym (rw (e) refl) ∙ h
    | inr e ↦ absurd (ground arith)
  ]
  only_admin-valid expired q h = h
  only_admin-valid invalid q h = h

  decode_jwt_token-valid :
      (now : ℕ) (t : Token) (q : Claims)
      → decode_jwt_token jwt settings now t ≡ valid q
      → jwt.decode true now t ≡ valid q
  unfolding decode_jwt_token
  decode_jwt_token-valid now t q h = only_admin-valid (jwt.decode true now t) q h

  -- Once a token with a non-empty identifier is logged out by a logout whose commit succeeds, and if
  -- no row of that identifier expires before the token, then after any logouts, refreshes and
  -- prunings up to some moment, whatever their commits do, the token is refused at that moment.
  pub authenticate_admin-run-admin_logout :
      (t : Token) (p : Claims) (e c : ℕ) (cs : Text) (now later : ℕ)
      (events : List (ℕ × Event Token)) (rows : List Revocation)
      → p.jti ≡ some (c ∷ cs)
      → p.exp ≡ some e
      → Lasting (c ∷ cs) (seconds e) rows
      → (admin_logout jwt settings true now (some t) rows).0 ≡ ok p
      → All (λ e. e.0 ≤ later) events
      → (r : Refusal) × (authenticate_admin jwt settings later
            (some t)
            (run events (admin_logout jwt settings true now (some t) rows).1)
          ≡ refused r)
  unfolding admin_logout authenticate_admin
  authenticate_admin-run-admin_logout t p e c cs now later events rows hj he l done before =
      let first = decode_jwt_token jwt settings now t in
      let rows' = (logout_with jwt settings true now first rows).1 in
      authenticate-refused p (c ∷ cs) (run events rows') (decode_jwt_token jwt settings later t) hj
        (λ q d.
          let same_claims =
            jwt.decode_once true true later now t q p (decode_jwt_token-valid later t q d)
              (decode_jwt_token-valid now t p (logout_with-ok now p first rows done)) in
          let live =
            jwt.decode_live later t q e (decode_jwt_token-valid later t q d)
              (ap (λ x. x.exp) same_claims ∙ he) in
          (
            same_claims,
            is_revoked-Kept (c ∷ cs) (seconds e) (run events rows') (
                run-Kept (c ∷ cs) (seconds e) later events rows' (omega (arith, live)) before
                  (logout-Kept now e c cs p first rows hj he done l)),
          ))
