-- ===== src/Api/Middleware/Secured.antt =====
-- Which headers a response has after the middleware of archive/python-legacy/backend/app/main.py.
use mathlib.Core.List.{append-nil, append_assoc}
use ffllowwgreeks.Prelude.{
  ◌≡◌, refl, sym, ap, ◌∙◌, inl, inr, true, false, none, some, List, [], ◌∷◌, ◌++◌, All, arith,
  if◌then◌else◌, Bool-cases, Text, codes, same, same_iff, lower,
}
use ffllowwgreeks.Api.Middleware.Headers.{
  Header, base_headers, csp, find, has, missing, content_type, csp_for, with_headers,
}

-- All the values of a response under a name in lower case, in order.
pub values : Text → List Header → List Text
values name [] = []
values name ((k, v) ∷ headers) =
    let rest = values name headers in if same (lower k) name then v ∷ rest else rest

abbrev pub or_else {ℓ} : {A : Type ℓ} → List A → List A → List A
or_else [] ys = ys
or_else (x ∷ xs) ys = x ∷ xs

-- The headers that a response without any of them would get.
abbrev pub defaults : Text → List Header → List Header
defaults path existing = base_headers ++ ((csp, csp_for path existing) ∷ [])

values-append : (n : Text) (xs ys : List Header) → values n (xs ++ ys) ≡ values n xs ++ values n ys
unfolding values
values-append n [] ys = refl
values-append n ((k, v) ∷ xs) ys = ground (arith, values-append n xs ys)

has-values :
    (n : Text) (hs : List Header) → has n hs ≡ elim (values n hs) [ [] ↦ false | v ∷ vs ↦ true ]
unfolding values has find
has-values n [] = refl
has-values n ((k, v) ∷ hs) = ground (arith, has-values n hs)

has-none : (n : Text) (hs : List Header) → has n hs ≡ false → values n hs ≡ []
has-none n hs h = ground (arith, has-values n hs)

has-or_else :
    (n : Text) (hs : List Header) (ys : List Text)
    → has n hs ≡ true
    → or_else (values n hs) ys ≡ values n hs
has-or_else n hs ys h = ground (arith, has-values n hs)

-- A header that the response lacks is added as the list has it; one that it has is not added.
values-missing_new :
    (n : Text) (existing ds : List Header)
    → All (λ h. lower h.0 ≡ h.0) ds
    → has n existing ≡ false
    → values n (missing existing ds) ≡ values n ds
unfolding values missing
values-missing_new n existing [] low e = refl
values-missing_new n existing ((k, v) ∷ ds) low e =
    ground (arith, values-missing_new n existing ds low.1 e, same_iff (lower k) n)

values-missing_kept :
    (n : Text) (existing ds : List Header)
    → All (λ h. lower h.0 ≡ h.0) ds
    → has n existing ≡ true
    → values n (missing existing ds) ≡ []
unfolding values missing
values-missing_kept n existing [] low e = refl
values-missing_kept n existing ((k, v) ∷ ds) low e =
    ground (arith, values-missing_kept n existing ds low.1 e, same_iff (lower k) n)

missing-append :
    (existing xs ys : List Header)
    → missing existing (xs ++ ys) ≡ missing existing xs ++ missing existing ys
unfolding missing
missing-append existing [] ys = refl
missing-append existing ((k, v) ∷ xs) ys = ground (arith, missing-append existing xs ys)

values-added :
    (n : Text) (existing ds : List Header)
    → All (λ h. lower h.0 ≡ h.0) ds
    → values n (existing ++ missing existing ds) ≡ or_else (values n existing) (values n ds)
values-added n existing ds low = elim (Bool-cases (has n existing)) [
  | inl e ↦
      rw (values-append n existing (missing existing ds), values-missing_kept n existing ds low e)
        (append-nil (values n existing) ∙ sym (has-or_else n existing (values n ds) e))
  | inr e ↦
      rw
        (
          values-append n existing (missing existing ds),
          values-missing_new n existing ds low e,
          has-none n existing e,
        )
        refl
]

with_policy :
    (c p : Text) (existing bs : List Header)
    → (if has c existing
        then existing ++ missing existing bs
        else (existing ++ missing existing bs) ++ ((c, p) ∷ []))
      ≡ existing ++ missing existing (bs ++ ((c, p) ∷ []))
unfolding missing
with_policy c p existing bs = elim (Bool-cases (has c existing)) [
  | inl e ↦
      rw (missing-append existing bs ((c, p) ∷ []), e)
        (ap (λ t. existing ++ t) (sym (append-nil (missing existing bs))))
  | inr e ↦
      rw (missing-append existing bs ((c, p) ∷ []), e)
        (append_assoc existing (missing existing bs) ((c, p) ∷ []))
]

find-append : (n : Text) (xs ys : List Header) → find n ys ≡ none → find n (xs ++ ys) ≡ find n xs
unfolding find
find-append n [] ys h = h
find-append n ((k, v) ∷ xs) ys h = ground (arith, find-append n xs ys h)

find-missing :
    (n : Text) (existing ds : List Header) → find n ds ≡ none → find n (missing existing ds) ≡ none
unfolding find missing
find-missing n existing [] h = refl
find-missing n existing ((k, v) ∷ ds) h = ground (arith, find-missing n existing ds)

content_type-append :
    (existing added : List Header)
    → find (codes "content-type") added ≡ none
    → content_type (existing ++ added) ≡ content_type existing
content_type-append existing added h =
    ap (λ o. elim o [ none ↦ [] | some v ↦ lower v ])
      (find-append (codes "content-type") existing added h)

csp_for-append :
    (path : Text) (existing added : List Header)
    → find (codes "content-type") added ≡ none
    → csp_for path (existing ++ added) ≡ csp_for path existing
unfolding csp_for
csp_for-append path existing added h = rw (content_type-append existing added h) refl

-- A response that starts has, under every name, the values that the application gave it, in their
-- order, and if it gave none, the default one and no other: of the base headers, or the policy for
-- the path and the content.
pub values-with_headers :
    (path n : Text) (existing : List Header)
    → values n (with_headers path existing)
      ≡ or_else (values n existing) (values n (defaults path existing))
unfolding with_headers
values-with_headers path n existing =
    ap (values n) (
      with_policy csp (csp_for path (existing ++ missing existing base_headers)) existing
        base_headers
      ∙ ap (λ p. existing ++ missing existing (base_headers ++ ((csp, p) ∷ [])))
          (csp_for-append path existing (missing existing base_headers) (
            find-missing (codes "content-type") existing base_headers
              (unfold find in unfold same in unfold lower in refl))))
    ∙ values-added n existing (defaults path existing)
        (unfold lower in (refl, (refl, (refl, (refl, (refl, (refl, tt)))))))
