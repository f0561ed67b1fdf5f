-- ===== src/Processing/MaxPain/Expiries.antt =====
-- How compute_max_pain of max_pain.py divides the rows among expirations, and drops expired ones.
use ffllowwgreeks.Prelude.{
  ℕ, zero, suc, ◌≤◌, ◌≡◌, refl, ap, sym, ◌∙◌, inl, inr, Bool, true, false, not, ◌&&◌, List, [], ◌∷◌,
  arith, leb, leb→le, All, Bool-cases, length, take,
}
use ffllowwgreeks.Processing.MaxPain.{
  Contract, Chain, Expiration, day, any_expiry, clean, all_missing, is_active, active_rows, is_on,
  rows_on, one_of, rows_in, days_of, expiries_of, expiry_max_pain, default_summary, fold_summary,
  summary_from, compute_from, compute_max_pain,
}
use ffllowwgreeks.Processing.MaxPain.Strikes.{In, In-sorted_unique, In-of_sorted_unique}

one_of-In : (d : ℕ) (ds : List ℕ) → In d ds → one_of ds (day d) ≡ true
unfolding one_of is_on
one_of-In d [] m = absurd m
one_of-In d (e ∷ ds) (inl h) = ground arith
one_of-In d (e ∷ ds) (inr m) = ground (arith, one_of-In d ds m)

In-one_of : (d : ℕ) (ds : List ℕ) → one_of ds (day d) ≡ true → In d ds
unfolding one_of is_on
In-one_of d [] h = cc
In-one_of d (e ∷ ds) h = ground (arith, In-one_of d ds)

-- The days of the active rows are those of the rows from today on.
In-days : (today d : ℕ) (cs : List Contract) → In d (days_of (active_rows today cs)) → today ≤ d
unfolding active_rows is_active days_of
In-days today d [] m = absurd m
In-days today d (c ∷ cs) m = ground (arith, In-days today d cs)

-- Every row of `cs` is in the selection `ds` exactly if it is active.
abbrev Selects : ℕ → List ℕ → List Contract → Type 0
Selects today ds cs = All (λ c. one_of ds c.expiration ≡ is_active today c.expiration) cs

rows_in-active :
    (today : ℕ) (ds : List ℕ) (cs : List Contract)
    → Selects today ds cs
    → rows_in ds cs ≡ active_rows today cs
unfolding rows_in active_rows
rows_in-active today ds [] h = refl
rows_in-active today ds (c ∷ cs) h = ground (arith, rows_in-active today ds cs h.1, h.0)

-- Restricting the rows to the active ones changes no selection of days from today on.
rows_on-active :
    (today d : ℕ) (cs : List Contract) → today ≤ d → rows_on d (active_rows today cs) ≡ rows_on d cs
unfolding rows_on active_rows is_active is_on
rows_on-active today d [] h = refl
rows_on-active today d (c ∷ cs) h = ground (arith, rows_on-active today d cs h)

active-active :
    (today : ℕ) (cs : List Contract)
    → active_rows today (active_rows today cs) ≡ active_rows today cs
unfolding active_rows
active-active today [] = refl
active-active today (c ∷ cs) = ground (arith, active-active today cs)

In-days_of_active :
    (today d : ℕ) (cs : List Contract) (c : Contract)
    → c.expiration ≡ day d
    → today ≤ d
    → In d (days_of (active_rows today (c ∷ cs)))
unfolding active_rows is_active days_of
In-days_of_active today d cs c e h = ground arith

In-days_of_tail :
    (today d : ℕ) (cs : List Contract) (c : Contract)
    → In d (days_of (active_rows today cs))
    → In d (days_of (active_rows today (c ∷ cs)))
unfolding active_rows is_active days_of
In-days_of_tail today d cs c m = ground arith

one_of-missing : (ds : List ℕ) → one_of ds Expiration.missing ≡ false
unfolding one_of is_on
one_of-missing [] = refl
one_of-missing (d ∷ ds) = one_of-missing ds

one_of-unparseable : (ds : List ℕ) → one_of ds Expiration.unparseable ≡ false
unfolding one_of is_on
one_of-unparseable [] = refl
one_of-unparseable (d ∷ ds) = one_of-unparseable ds

pub expiries_from_today :
    (today d : ℕ) (cs : List Contract) → In d (expiries_of today cs) → today ≤ d
unfolding expiries_of
expiries_from_today today d cs m =
    In-days today d cs (In-of_sorted_unique d (days_of (active_rows today cs)) m)

-- The selection of all listed expirations is right for a row whose active day is among them.
selects_one :
    (today : ℕ) (all : List Contract) (e : Expiration)
    → ((d : ℕ) → e ≡ day d → today ≤ d → In d (days_of (active_rows today all)))
    → one_of (expiries_of today all) e ≡ is_active today e
unfolding is_active
selects_one today all Expiration.missing h = one_of-missing (expiries_of today all)
selects_one today all Expiration.unparseable h = one_of-unparseable (expiries_of today all)
selects_one today all (day d) h = elim (Bool-cases (leb today d)) [
  | inl active ↦
      one_of-In d (expiries_of today all) (
        unfold expiries_of in
        In-sorted_unique d (days_of (active_rows today all)) (h d refl (leb→le _ _ active)))
      ∙ sym active
  | inr expired ↦ elim (Bool-cases (one_of (expiries_of today all) (day d))) [
    | inl picked ↦
        let from : today ≤ d =
          expiries_from_today today d all (In-one_of d (expiries_of today all) picked) in
        absurd (ground arith)
    | inr passed ↦ passed ∙ sym expired
  ]
]

abbrev Has : ℕ → List Contract → List Contract → Type 0
Has today all cs =
    All (λ c. (d : ℕ) → c.expiration ≡ day d → today ≤ d → In d (days_of (active_rows today all)))
      cs

Has-cons :
    (today : ℕ) (x : Contract) (all cs : List Contract) → Has today all cs → Has today (x ∷ all) cs
Has-cons today x all [] h = tt
Has-cons today x all (c ∷ cs) h =
    ((λ d e le. In-days_of_tail today d all x (h.0 d e le)), Has-cons today x all cs h.1)

Has-self : (today : ℕ) (cs : List Contract) → Has today cs cs
Has-self today [] = tt
Has-self today (c ∷ cs) =
    ((λ d e le. In-days_of_active today d cs c e le), Has-cons today c cs cs (Has-self today cs))

Selects-all :
    (today : ℕ) (all cs : List Contract)
    → Has today all cs
    → Selects today (expiries_of today all) cs
Selects-all today all [] h = tt
Selects-all today all (c ∷ cs) h =
    (selects_one today all c.expiration h.0, Selects-all today all cs h.1)

-- The rows of all listed expirations are the rows that have not expired.
rows_in-expiries :
    (today : ℕ) (cs : List Contract) → rows_in (expiries_of today cs) cs ≡ active_rows today cs
rows_in-expiries today cs =
    rows_in-active today (expiries_of today cs) cs (Selects-all today cs cs (Has-self today cs))

take-all {ℓ} : {A : Type ℓ} (n : ℕ) (xs : List A) → length xs ≤ n → take n xs ≡ xs
take-all zero [] h = refl
take-all zero (x ∷ xs) h = absurd (omega arith)
take-all (suc n) [] h = refl
take-all (suc n) (x ∷ xs) h = ap (λ r. x ∷ r) (take-all n xs (omega arith))

aggregate-default :
    (n today : ℕ) (cs : List Contract)
    → (default_summary n today cs).aggregate
      ≡ expiry_max_pain (rows_in (take n (expiries_of today cs)) cs)
unfolding default_summary
aggregate-default n today cs = refl

aggregate-fold :
    (today : ℕ) (cs : List Contract)
    → (fold_summary true today cs).aggregate ≡ expiry_max_pain (active_rows today cs)
unfolding fold_summary
aggregate-fold today cs = refl

aggregate-all :
    (n today : ℕ) (cs : List Contract)
    → length (expiries_of today cs) ≤ n
    → (default_summary n today cs).aggregate ≡ (fold_summary true today cs).aggregate
aggregate-all n today cs h =
    aggregate-default n today cs
    ∙ ap (λ ds. expiry_max_pain (rows_in ds cs)) (take-all n (expiries_of today cs) h)
    ∙ ap expiry_max_pain (rows_in-expiries today cs)
    ∙ sym (aggregate-fold today cs)

aggregate-from :
    (column : Bool) (n m today : ℕ) (cs : List Contract)
    → length (expiries_of today cs) ≤ n
    → (compute_from column n any_expiry false today cs).aggregate
      ≡ (compute_from column m any_expiry true today cs).aggregate
unfolding compute_from summary_from
aggregate-from column n m today [] h = refl
aggregate-from column n m today (c ∷ cs) h =
    elim (Bool-cases (column && not (all_missing (c ∷ cs)))) [
      | inl has ↦ rw has (aggregate-all n today (c ∷ cs) h)
      | inr lacks ↦ rw lacks refl
    ]

-- With `aggregate_n` at least the number of listed expirations, the aggregate of the default call
-- is that of `fold_all=True`, whatever `aggregate_n` is there.
pub aggregate-fold_all :
    (n m today : ℕ) (df : Chain)
    → length (expiries_of today (clean df)) ≤ n
    → (compute_max_pain n any_expiry false today df).aggregate
      ≡ (compute_max_pain m any_expiry true today df).aggregate
unfolding compute_max_pain
aggregate-fold_all n m today df h = aggregate-from df.has_expiration n m today (clean df) h
