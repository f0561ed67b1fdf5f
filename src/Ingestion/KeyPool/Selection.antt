-- ===== src/Ingestion/KeyPool/Selection.antt =====
-- Which keys `iter_keys` of key_pool.py offers, and in which order.
use ffllowwgreeks.Prelude.{
  ℕ, ◌≡◌, refl, ◌↔◌, ◌⊎◌, inl, inr, Bool, true, false, Option, none, some, List, [], ◌∷◌, ◌++◌, All,
  arith, if◌then◌else◌, Text, upper, Bool-cases, ap, sym, ◌∙◌,
}
use ffllowwgreeks.Ingestion.KeyPool.{
  ApiKey, KeyCandidate, Settings, env_key_for, env_candidates, is_eligible, goes_first, place,
  query, is_cooling, candidate_of, put_decrypted, candidates_of, iter_keys,
}
use mathlib.Core.Path.{subst}
use mathlib.Core.Option.{some-injective}

abbrev pub In : {A : Type 0} → A → List A → Type 0
In x [] = ⊥
In x (y ∷ ys) = (x ≡ y) ⊎ In x ys

In-append : {A : Type 0} (x : A) (xs ys : List A) → In x (xs ++ ys) ↔ (In x xs ⊎ In x ys)
In-append x [] ys = (λ m. inr m, λ m. elim m [ inl n ↦ absurd n | inr n ↦ n ])
In-append x (y ∷ xs) ys =
    let (split, join) = In-append x xs ys in
    (
      λ m. elim m [
        | inl e ↦ inl (inl e)
        | inr n ↦ elim (split n) [ inl l ↦ inl (inr l) | inr r ↦ inr r ]
      ],
      λ m. elim m [
        | inl l ↦ elim l [ inl e ↦ inl e | inr n ↦ inr (join (inl n)) ]
        | inr r ↦ inr (join (inr r))
      ],
    )

In-place : (r s : ApiKey) (rows : List ApiKey) → In s (place r rows) ↔ ((s ≡ r) ⊎ In s rows)
unfolding place
In-place r s [] = (λ m. m, λ m. m)
In-place r s (t ∷ rows) = elim (Bool-cases (goes_first r t)) [
  | inl first ↦ rw first (λ m. m, λ m. m)
  | inr behind ↦
      let (down, up) = In-place r s rows in
      rw behind (
        λ m. elim m [
          | inl e ↦ inr (inl e)
          | inr n ↦ elim (down n) [ inl e ↦ inl e | inr o ↦ inr (inr o) ]
        ],
        λ m. elim m [
          | inl e ↦ inr (up (inl e))
          | inr n ↦ elim n [ inl e ↦ inl e | inr o ↦ inr (up (inr o)) ]
        ],
      )
]

In-query :
    (dataset : Text) (s : ApiKey) (table : List ApiKey)
    → In s (query dataset table) ↔ (In s table × (is_eligible dataset s ≡ true))
unfolding query
In-query dataset s [] = (λ m. absurd m, λ m. m.0)
In-query dataset s (r ∷ table) =
    let (down, up) = In-query dataset s table in
    elim (Bool-cases (is_eligible dataset r)) [
      | inl takes ↦
          let (pull, push) = In-place r s (query dataset table) in
          rw takes (
            λ m. elim (pull m) [
              | inl e ↦ (inl e, ap (is_eligible dataset) e ∙ takes)
              | inr n ↦ (inr (down n).0, (down n).1)
            ],
            λ m. elim m.0 [ inl e ↦ push (inl e) | inr n ↦ push (inr (up (n, m.1))) ],
          )
      | inr leaves ↦ rw leaves (
        λ m. (inr (down m).0, (down m).1),
        λ m. elim m.0 [
          | inl e ↦ absurd (cc (ap (is_eligible dataset) e, m.1, leaves))
          | inr n ↦ up (n, m.1)
        ],
      )
    ]

-- The candidate of a row that is tried: it is not cooling, and its key can be decrypted.
abbrev pub Offers : (Text → Option Text) → ℕ → KeyCandidate → ApiKey → Type 0
Offers decrypt now c row =
    (is_cooling now row ≡ false)
    × (plaintext : Text) × (decrypt row.api_key_encrypted ≡ some plaintext)
    × (c ≡ candidate_of row plaintext)

-- One row of the loop.
In-put :
    (decrypt : Text → Option Text) (now : ℕ) (c : KeyCandidate) (row : ApiKey) (o : Option Text)
    (rest : List KeyCandidate)
    → decrypt row.api_key_encrypted ≡ o
    → is_cooling now row ≡ false
    → In c (put_decrypted row o rest) ↔ (Offers decrypt now c row ⊎ In c rest)
In-put decrypt now c row none rest e awake =
    (λ m. inr m, λ m. elim m [ inl offer ↦ absurd (cc (offer.2, e)) | inr n ↦ n ])
In-put decrypt now c row (some p) rest e awake = (
  λ m. elim m [ inl same_key ↦ inl (awake, p, e, same_key) | inr n ↦ inr n ],
  λ m. elim m [
    | inl (a, q, d, same_key) ↦
        inl (same_key ∙ ap (candidate_of row) (some-injective _ _ (sym d ∙ e)))
    | inr n ↦ inr n
  ],
)

In-candidates_of :
    (decrypt : Text → Option Text) (now : ℕ) (c : KeyCandidate) (rows : List ApiKey)
    → In c (candidates_of decrypt now rows)
      ↔ ((row : ApiKey) × In row rows × Offers decrypt now c row)
unfolding candidates_of
In-candidates_of decrypt now c [] = (λ m. absurd m, λ m. m.1)
In-candidates_of decrypt now c (r ∷ rows) =
    let (down, up) = In-candidates_of decrypt now c rows in
    elim (Bool-cases (is_cooling now r)) [
      | inl cooling ↦ rw cooling (
        λ m. ((down m).0, inr (down m).1, (down m).2),
        λ (row, m, offer). elim m [
          | inl e ↦ absurd (cc (ap (is_cooling now) e, offer.0, cooling))
          | inr n ↦ up (row, n, offer)
        ],
      )
      | inr awake ↦
          let (pull, push) =
            In-put decrypt now c r (decrypt r.api_key_encrypted) (candidates_of decrypt now rows)
              refl awake in
          rw awake (
            λ m. elim (pull m) [
              | inl offer ↦ (r, inl refl, offer)
              | inr n ↦ ((down n).0, inr (down n).1, (down n).2)
            ],
            λ (row, m, offer). elim m [
              | inl e ↦ push (inl (subst (Offers decrypt now c) e offer))
              | inr n ↦ push (inr (up (row, n, offer)))
            ],
          )
    ]

known_dataset :
    (b : Bool) (xs ys : List KeyCandidate) → (if b then some xs else none) ≡ some ys → xs ≡ ys
known_dataset true xs ys e = some-injective _ _ e
known_dataset false xs ys e = cc

-- A row of the table that the query takes and that is tried.
abbrev pub Chosen : (Text → Option Text) → ℕ → Text → List ApiKey → KeyCandidate → ApiKey → Type 0
Chosen decrypt now dataset table c row =
    (In row table × (is_eligible dataset row ≡ true)) × Offers decrypt now c row

abbrev pub Offered :
    Settings → (Text → Option Text) → ℕ → Text → List ApiKey → KeyCandidate → Type 0
Offered settings decrypt now dataset table c =
    In c (env_candidates dataset (env_key_for settings dataset))
    ⊎ ((row : ApiKey) × Chosen decrypt now dataset table c row)

-- The keys offered for a known dataset: that of the environment if it is set, and those of the
-- active rows for the dataset or for both that are not cooling and can be decrypted; no others.
pub In-iter_keys :
    (settings : Settings) (decrypt : Text → Option Text) (now : ℕ) (dataset : Text)
    (table : List ApiKey) (cs : List KeyCandidate) (c : KeyCandidate)
    → iter_keys settings decrypt now dataset table ≡ some cs
    → In c cs ↔ Offered settings decrypt now (upper dataset) table c
unfolding iter_keys
In-iter_keys settings decrypt now dataset table cs c e =
    subst (λ l. In c l ↔ Offered settings decrypt now name table c) (known_dataset _ _ cs e)
      (
        λ m. elim ((In-append c first later).0 m) [
          | inl n ↦ inl n
          | inr n ↦
              let (row, found, offer) = (In-candidates_of decrypt now c rows).0 n in
              inr (row, ((In-query name row table).0 found, offer))
        ],
        λ m. elim m [
          | inl n ↦ (In-append c first later).1 (inl n)
          | inr (row, (chosen, offer)) ↦ (In-append c first later).1 (
              inr (
                (In-candidates_of decrypt now c rows).1
                  (row, (In-query name row table).1 chosen, offer)))
        ],
      )
  where
    name : Text
    name = upper dataset

    rows : List ApiKey
    rows = query name table

    first : List KeyCandidate
    first = env_candidates name (env_key_for settings name)

    later : List KeyCandidate
    later = candidates_of decrypt now rows

-- Rows that come in the order of the query.
abbrev pub Sorted : List ApiKey → Type 0
Sorted [] = Unit
Sorted (r ∷ rows) = All (λ s. goes_first r s ≡ true) rows × Sorted rows

goes_first-total : (r s : ApiKey) → goes_first r s ≡ false → goes_first s r ≡ true
unfolding goes_first
goes_first-total r s h = ground arith

goes_first_trans :
    (r s t : ApiKey) → goes_first r s ≡ true → goes_first s t ≡ true → goes_first r t ≡ true
unfolding goes_first
goes_first_trans r s t h k = ground arith

All-later :
    (r s : ApiKey) (rows : List ApiKey)
    → goes_first r s ≡ true
    → All (λ t. goes_first s t ≡ true) rows
    → All (λ t. goes_first r t ≡ true) rows
All-later r s [] h a = tt
All-later r s (t ∷ rows) h a = (goes_first_trans r s t h a.0, All-later r s rows h a.1)

place_later :
    (s r : ApiKey) (rows : List ApiKey)
    → goes_first s r ≡ true
    → All (λ t. goes_first s t ≡ true) rows
    → All (λ t. goes_first s t ≡ true) (place r rows)
unfolding place
place_later s r [] h a = (h, tt)
place_later s r (t ∷ rows) h a = elim (Bool-cases (goes_first r t)) [
  | inl first ↦ rw first (h, a)
  | inr behind ↦ rw behind (a.0, place_later s r rows h a.1)
]

place-Sorted : (r : ApiKey) (rows : List ApiKey) → Sorted rows → Sorted (place r rows)
unfolding place
place-Sorted r [] v = (tt, tt)
place-Sorted r (s ∷ rows) v = elim (Bool-cases (goes_first r s)) [
  | inl first ↦ rw first ((first, All-later r s rows first v.0), v)
  | inr behind ↦
      rw behind (place_later s r rows (goes_first-total r s behind) v.0, place-Sorted r rows v.1)
]

-- The rows are tried by ascending priority, and by ascending id where priorities are equal.
pub query-Sorted : (dataset : Text) (table : List ApiKey) → Sorted (query dataset table)
unfolding query
query-Sorted dataset [] = tt
query-Sorted dataset (r ∷ table) =
    let rest = query-Sorted dataset table in
    elim (Bool-cases (is_eligible dataset r)) [
      | inl takes ↦ rw takes (place-Sorted r (query dataset table) rest)
      | inr leaves ↦ rw leaves rest
    ]
