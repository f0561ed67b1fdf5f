-- ===== src/Api/Middleware/Declared.antt =====
-- Requests that declare too long a body to the middleware of archive/python-legacy/backend/app/main.py.
use ffllowwgreeks.Prelude.{
  ℕ, ◌<◌, ◌≡◌, refl, ap, ◌∙◌, true, false, Option, some, List, [], ◌∷◌, ◌++◌, arith, ltb→lt, lt→ltb,
  Text, codes, same, lower, All, Bool-cases, Option-cases, inl, inr,
}
use ffllowwgreeks.Api.Middleware.BodyLimit.{declares_too_much}

-- The first content-length of the headers is a number above the limit.
pub record Declares (int : Text → Option ℕ) (max_size : ℕ) (headers : List (Text × Text))
    : Type 0 where
  pub before : List (Text × Text)
  pub name : Text
  pub value : Text
  pub rest : List (Text × Text)
  pub declared : ℕ
  pub made_of : headers ≡ before ++ ((name, value) ∷ rest)
  pub first : All (λ h. same (lower h.0) (codes "content-length") ≡ false) before
  pub named : same (lower name) (codes "content-length") ≡ true
  pub read : int value ≡ some declared
  pub above : max_size < declared

module _ (int : Text → Option ℕ) (max_size : ℕ) where
  declares_too_much-append :
      (before : List (Text × Text)) (k v : Text) (rest : List (Text × Text)) (n : ℕ)
      → All (λ h. same (lower h.0) (codes "content-length") ≡ false) before
      → same (lower k) (codes "content-length") ≡ true
      → int v ≡ some n
      → max_size < n
      → declares_too_much int max_size (before ++ ((k, v) ∷ rest)) ≡ true
  unfolding declares_too_much
  declares_too_much-append [] k v rest n others e read above =
      rw (e, read) (lt→ltb max_size n above)
  declares_too_much-append ((j, w) ∷ before) k v rest n others e read above =
      rw (others.0) (declares_too_much-append before k v rest n others.1 e read above)

  Declares-next :
      (k v : Text) (headers : List (Text × Text))
      → same (lower k) (codes "content-length") ≡ false
      → Declares int max_size headers
      → Declares int max_size ((k, v) ∷ headers)
  Declares-next k v headers other d = record {
    before = (k, v) ∷ d.before;
    name = d.name;
    value = d.value;
    rest = d.rest;
    declared = d.declared;
    made_of = ap (λ hs. (k, v) ∷ hs) d.made_of;
    first = (other, d.first);
    named = d.named;
    read = d.read;
    above = d.above;
  }

  pub declares_too_much-Declares :
      (headers : List (Text × Text))
      → declares_too_much int max_size headers ≡ true
      → Declares int max_size headers
  unfolding declares_too_much
  declares_too_much-Declares [] h = absurd (ground arith)
  declares_too_much-Declares ((k, v) ∷ headers) h =
      elim (Bool-cases (same (lower k) (codes "content-length"))) [
        | inr other ↦
            Declares-next k v headers other (declares_too_much-Declares headers (rw other at h))
        | inl named ↦ elim (Option-cases (int v)) [
          | inl e ↦ absurd (ground (arith, rw (named, e) at h))
          | inr (n, e) ↦ record {
            before = [];
            name = k;
            value = v;
            rest = headers;
            declared = n;
            made_of = refl;
            first = tt;
            named = named;
            read = e;
            above = ltb→lt max_size n (rw (named, e) at h);
          }
        ]
      ]

  pub Declares-declares_too_much :
      (headers : List (Text × Text))
      → Declares int max_size headers
      → declares_too_much int max_size headers ≡ true
  Declares-declares_too_much headers d =
      ap (declares_too_much int max_size) d.made_of
      ∙ declares_too_much-append d.before d.name d.value d.rest d.declared d.first d.named d.read
          d.above
