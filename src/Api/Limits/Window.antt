-- ===== src/Api/Limits/Window.antt =====
-- The sliding window of archive/python-legacy/backend/app/api/deps.py over a run of calls.
use ffllowwgreeks.Prelude.{
  ℕ, suc, ◌+◌, ◌≤◌, ◌≡◌, refl, true, false, ◌&&◌, inl, inr, List, [], ◌∷◌, ◌++◌, leb, length,
  if◌then◌else◌, Text, same, same_iff, arith, Bool-cases,
}
use ffllowwgreeks.Prelude.Dict
use ffllowwgreeks.Prelude.Dict.{Dict}
use ffllowwgreeks.Api.Limits.{pop_old, allow}

-- How many moments are at least `t`, and how many of them at most `t + period`.
abbrev pub since : ℕ → List ℕ → ℕ
since t [] = 0
since t (x ∷ xs) = let n = since t xs in if leb t x then suc n else n

abbrev pub within : ℕ → ℕ → List ℕ → ℕ
within t period [] = 0
within t period (x ∷ xs) =
    let n = within t period xs in if leb t x && leb x (t + period) then suc n else n

within≤since : (t period : ℕ) (xs : List ℕ) → within t period xs ≤ since t xs
within≤since t period [] = omega arith
within≤since t period (x ∷ xs) = ground (arith, within≤since t period xs)

since≤length : (t : ℕ) (xs : List ℕ) → since t xs ≤ length xs
since≤length t [] = omega arith
since≤length t (x ∷ xs) = ground (arith, since≤length t xs)

since-append : (t now : ℕ) (xs : List ℕ) → since t (xs ++ (now ∷ [])) ≡ since t (now ∷ xs)
since-append t now [] = refl
since-append t now (x ∷ xs) = ground (arith, since-append t now xs)

-- What is popped is outside every window that reaches to now.
since-pop_old :
    (t now period : ℕ) (xs : List ℕ)
    → now ≤ t + period
    → since t (pop_old now period xs) ≡ since t xs
unfolding pop_old
since-pop_old t now period [] h = refl
since-pop_old t now period (x ∷ xs) h = ground (arith, since-pop_old t now period xs h)

-- One call of the limiter.
pub record Call : Type 0 where
  pub now : ℕ
  pub key : Text
  pub limit : ℕ
  pub period : ℕ

-- The buckets, and the moments at which calls for the key were let through, newest first.
pub record Log : Type 0 where
  pub buckets : Dict (List ℕ)
  pub admitted : List ℕ

abbrev step : Text → Call → Log → Log
step k c l =
    let answer = allow c.now c.key c.limit c.period l.buckets in
    record {
      buckets = answer.1;
      admitted = if same c.key k && answer.0 then c.now ∷ l.admitted else l.admitted;
    }

unfoldable pub run : Text → List Call → Log → Log
run k [] l = l
run k (c ∷ cs) l = run k cs (step k c l)

-- The clock does not go back, and calls for the key have its limit and its period.
abbrev pub Regular : Text → ℕ → ℕ → ℕ → List Call → Type 0
Regular k limit period last [] = Unit
Regular k limit period last (c ∷ cs) =
    (last ≤ c.now)
    × ((c.key ≡ k → (c.limit ≡ limit) × (c.period ≡ period)) × Regular k limit period c.now cs)

bucket_of : Text → Dict (List ℕ) → List ℕ
bucket_of k d = Dict.get_default d k []

-- No window holds too much, and the bucket has all of a window that reaches to the last call.
Tight : Text → ℕ → ℕ → ℕ → Dict (List ℕ) → List ℕ → Type 0
Tight k limit period last d admitted =
    ((t : ℕ) → within t period admitted ≤ limit)
    × ((t : ℕ) → last ≤ t + period → since t admitted ≤ since t (bucket_of k d))

other-allow :
    (k key : Text) (now limit period : ℕ) (d : Dict (List ℕ))
    → same key k ≡ false
    → bucket_of k (allow now key limit period d).1 ≡ bucket_of k d
unfolding allow bucket_of
other-allow k key now limit period d h = ground (
  arith,
  h,
  Dict.get_default-put d key k (pop_old now period (Dict.get_default d key [])) [],
  Dict.get_default-put d key k (pop_old now period (Dict.get_default d key []) ++ (now ∷ [])) [],
)

-- What a call for the key does, by its answer.
refused-allow :
    (k : Text) (now limit period : ℕ) (d : Dict (List ℕ))
    → leb limit (length (pop_old now period (bucket_of k d))) ≡ true
    → ((allow now k limit period d).0 ≡ false)
      × (bucket_of k (allow now k limit period d).1 ≡ pop_old now period (bucket_of k d))
unfolding allow bucket_of
refused-allow k now limit period d h = (
  rw (h) refl,
  rw (h) (Dict.get_default-put_self d k (pop_old now period (Dict.get_default d k [])) []),
)

admitted-allow :
    (k : Text) (now limit period : ℕ) (d : Dict (List ℕ))
    → leb limit (length (pop_old now period (bucket_of k d))) ≡ false
    → ((allow now k limit period d).0 ≡ true)
      × (bucket_of k (allow now k limit period d).1
          ≡ pop_old now period (bucket_of k d) ++ (now ∷ []))
unfolding allow bucket_of
admitted-allow k now limit period d h = (
  rw (h) refl,
  rw (h) (
      Dict.get_default-put_self d k (pop_old now period (Dict.get_default d k []) ++ (now ∷ []))
        []),
)

-- The pruned bucket still has all of a window that reaches to now.
since-pruned :
    (t last now period : ℕ) (bucket admitted : List ℕ)
    → last ≤ now
    → now ≤ t + period
    → (last ≤ t + period → since t admitted ≤ since t bucket)
    → since t admitted ≤ since t (pop_old now period bucket)
since-pruned t last now period bucket admitted le h kept =
    omega (arith, kept (omega arith), since-pop_old t now period bucket h)

within-admitted :
    (t limit last now period : ℕ) (bucket admitted : List ℕ)
    → last ≤ now
    → leb limit (length (pop_old now period bucket)) ≡ false
    → within t period admitted ≤ limit
    → (last ≤ t + period → since t admitted ≤ since t bucket)
    → within t period (now ∷ admitted) ≤ limit
within-admitted t limit last now period bucket admitted le free w kept =
    elim (Bool-cases (leb t now && leb now (t + period))) [
      | inl e ↦ ground (
        arith,
        e,
        free,
        since-pruned t last now period bucket admitted le (ground (arith, e)) kept,
        within≤since t period admitted,
        since≤length t (pop_old now period bucket),
      )
      | inr e ↦ ground (arith, e, w)
    ]

since-admitted :
    (t last now period : ℕ) (bucket admitted : List ℕ)
    → last ≤ now
    → now ≤ t + period
    → (last ≤ t + period → since t admitted ≤ since t bucket)
    → since t (now ∷ admitted) ≤ since t (pop_old now period bucket ++ (now ∷ []))
since-admitted t last now period bucket admitted le h kept =
    rw (since-append t now (pop_old now period bucket))
      (ground (arith, since-pruned t last now period bucket admitted le h kept))

module _ (k : Text) (limit period : ℕ) where
  own-Tight :
      (last now : ℕ) (d : Dict (List ℕ)) (admitted : List ℕ)
      → last ≤ now
      → Tight k limit period last d admitted
      → Tight k limit period now
          (allow now k limit period d).1
          (if (allow now k limit period d).0 then now ∷ admitted else admitted)
  unfolding Tight
  own-Tight last now d admitted le h =
      elim (Bool-cases (leb limit (length (pop_old now period (bucket_of k d))))) [
        | inl e ↦
            let out = refused-allow k now limit period d e in
            rw (out.0, out.1)
              (
                h.0,
                λ t near. since-pruned t last now period (bucket_of k d) admitted le near (h.1 t),
              )
        | inr e ↦
            let out = admitted-allow k now limit period d e in
            rw (out.0, out.1)
              (
                λ t.
                    within-admitted t limit last now period (bucket_of k d) admitted le e (h.0 t)
                      (h.1 t),
                λ t near. since-admitted t last now period (bucket_of k d) admitted le near (h.1 t),
              )
      ]

  step-Tight :
      (last : ℕ) (c : Call) (l : Log)
      → last ≤ c.now
      → (c.key ≡ k → (c.limit ≡ limit) × (c.period ≡ period))
      → Tight k limit period last l.buckets l.admitted
      → Tight k limit period c.now (step k c l).buckets (step k c l).admitted
  unfolding Tight
  step-Tight last c l le routes h = elim (Bool-cases (same c.key k)) [
    | inl e ↦
        let key_k = (same_iff c.key k).0 e in
        rw (e, key_k, (routes key_k).0, (routes key_k).1)
          (own-Tight last c.now l.buckets l.admitted le h)
    | inr e ↦ rw (e) (
      h.0,
      λ t near.
          rw (other-allow k c.key c.now c.limit c.period l.buckets e)
            (h.1 t (omega (arith, le, near))),
    )
  ]

  run-Tight :
      (last : ℕ) (cs : List Call) (l : Log)
      → Regular k limit period last cs
      → Tight k limit period last l.buckets l.admitted
      → (t : ℕ) → within t period (run k cs l).admitted ≤ limit
  unfolding run Tight
  run-Tight last [] l regular h = h.0
  run-Tight last (c ∷ cs) l regular h =
      run-Tight c.now cs (step k c l) regular.1.1 (step-Tight last c l regular.0 regular.1.0 h)

unfoldable pub empty_log : Log
empty_log = record { buckets = Dict.empty; admitted = [] }

-- From a new limiter, if the clock does not go back and the calls for a key have one limit and one
-- period, then no window of that period, wherever it starts, has more calls for the key let
-- through than the limit.
pub within-run :
    (k : Text) (limit period : ℕ) (cs : List Call)
    → Regular k limit period 0 cs
    → (t : ℕ) → within t period (run k cs empty_log).admitted ≤ limit
unfolding empty_log Tight bucket_of
within-run k limit period cs regular =
    run-Tight k limit period 0 cs empty_log regular (λ t. omega arith, λ t h. omega arith)
