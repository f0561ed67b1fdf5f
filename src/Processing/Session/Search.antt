-- ===== src/Processing/Session/Search.antt =====
-- The search for the next business day and the calendar of session.py.
use ffllowwgreeks.Prelude.{
  ℕ, zero, suc, ◌+◌, ◌≤◌, ◌<◌, ◌≡◌, refl, ap, inl, inr, Bool, true, false, not, ◌||◌, ◌&&◌, Option,
  none, some, List, [], ◌∷◌, arith, ◌==◌, leb, Bool-cases,
}
use mathlib.Core.Path.{subst}
use ffllowwgreeks.Processing.Calendar.{
  weekday, is_in, is_market_holiday, is_business_day, nyse_holidays_hardcoded,
  nyse_half_days_hardcoded,
}
use ffllowwgreeks.Processing.Session.{search_business_day, next_business_day}

-- The first business day from `cur` on.
abbrev pub IsFirst : Option (ℕ → Bool) → ℕ → ℕ → Type 0
IsFirst nyse cur n =
    (cur ≤ n)
    × (is_business_day nyse n ≡ true)
    × ((d : ℕ) → cur ≤ d → d < n → is_business_day nyse d ≡ false)

IsFirst-suc :
    (nyse : Option (ℕ → Bool)) (cur n : ℕ)
    → is_business_day nyse cur ≡ false
    → IsFirst nyse (cur + 1) n
    → IsFirst nyse cur n
IsFirst-suc nyse cur n closed (later, is_open, none_between) = (
  omega arith,
  is_open,
  λ d h k. elim (Bool-cases (cur == d)) [
    | inl here ↦
        let e : cur ≡ d = ground arith in subst (λ x. is_business_day nyse x ≡ false) e closed
    | inr there ↦ none_between d (ground arith) k
  ],
)

nonzero :
    (nyse : Option (ℕ → Bool)) (k cur : ℕ)
    → is_business_day nyse (cur + k) ≡ true
    → is_business_day nyse cur ≡ false
    → (j : ℕ) × (k ≡ suc j)
nonzero nyse zero cur h closed =
    let e : cur + 0 ≡ cur = omega arith in absurd (cc (ap (is_business_day nyse) e, h, closed))
nonzero nyse (suc j) cur h closed = (j, refl)

-- With as much fuel as there are days up to a business day, the search finds the first one.
search_lem :
    (nyse : Option (ℕ → Bool)) (k fuel cur : ℕ)
    → is_business_day nyse (cur + k) ≡ true
    → k < fuel
    → (n : ℕ) × (search_business_day nyse fuel cur ≡ some n) × IsFirst nyse cur n
unfolding search_business_day
search_lem nyse k zero cur h enough = absurd (omega arith)
search_lem nyse k (suc fuel) cur h enough = elim (Bool-cases (is_business_day nyse cur)) [
  | inl here ↦ rw here (cur, refl, (omega arith, here, λ d a b. absurd (omega arith)))
  | inr closed ↦
      let (j, e) = nonzero nyse k cur h closed in
      let (n, found, first) =
        search_lem nyse j fuel (cur + 1)
          (subst (λ d. is_business_day nyse d ≡ true) (omega (arith, e)) h) (omega (arith, e)) in
      rw closed (n, found, IsFirst-suc nyse cur n closed first)
]

-- Some day from `h + 1` to `h + 4` is a business day by the built-in table.
abbrev reopens : ℕ → Bool
reopens h =
    is_business_day none (h + 1)
    || is_business_day none (h + 2)
    || is_business_day none (h + 3)
    || is_business_day none (h + 4)

abbrev all_of : (ℕ → Bool) → List ℕ → Bool
all_of p [] = true
all_of p (d ∷ ds) = p d && all_of p ds

all_of-is_in :
    (p : ℕ → Bool) (d : ℕ) (ds : List ℕ) → all_of p ds ≡ true → is_in d ds ≡ true → p d ≡ true
all_of-is_in p d [] h m = cc
all_of-is_in p d (e ∷ ds) h m = elim (Bool-cases (e == d)) [
  | inl hit ↦ let same_day : e ≡ d = ground arith in subst (λ x. p x ≡ true) same_day (ground arith)
  | inr miss ↦ all_of-is_in p d ds (ground arith) (ground arith)
]

holidays_reopen : all_of reopens nyse_holidays_hardcoded ≡ true
unfolding is_business_day is_market_holiday
holidays_reopen = refl

half_days_open : all_of (is_business_day none) nyse_half_days_hardcoded ≡ true
unfolding is_business_day is_market_holiday
half_days_open = refl

-- No early close of the built-in table is on a weekend or on a full closure of the built-in table.
pub half_days-is_business_day :
    (d : ℕ) → is_in d nyse_half_days_hardcoded ≡ true → is_business_day none d ≡ true
half_days-is_business_day d m =
    all_of-is_in (is_business_day none) d nyse_half_days_hardcoded half_days_open m

neither : (a b : Bool) → a ≡ false → b ≡ false → (not a && not b) ≡ true
neither a b h k = ground arith

one_of_four :
    (p : ℕ → Bool) (d : ℕ)
    → (p (d + 1) || p (d + 2) || p (d + 3) || p (d + 4)) ≡ true
    → (k : ℕ) × (k ≤ 4) × (p (d + k) ≡ true)
one_of_four p d h = elim (Bool-cases (p (d + 1))) [
  | inl a ↦ (1, omega arith, a)
  | inr a ↦ elim (Bool-cases (p (d + 2))) [
    | inl b ↦ (2, omega arith, b)
    | inr b ↦ elim (Bool-cases (p (d + 3))) [
      | inl c ↦ (3, omega arith, c)
      | inr c ↦ (4, omega arith, ground arith)
    ]
  ]
]

ordinary :
    (d : ℕ)
    → leb 5 (weekday d) ≡ false
    → is_in d nyse_holidays_hardcoded ≡ false
    → is_business_day none d ≡ true
unfolding is_business_day is_market_holiday
ordinary d h m = neither (leb 5 (weekday d)) (is_in d nyse_holidays_hardcoded) h m

-- A weekday is open, or a day soon after is.
weekday_opens :
    (d : ℕ) → leb 5 (weekday d) ≡ false → (k : ℕ) × (k ≤ 4) × (is_business_day none (d + k) ≡ true)
weekday_opens d h = elim (Bool-cases (is_in d nyse_holidays_hardcoded)) [
  | inl closed ↦
      one_of_four (is_business_day none) d
        (all_of-is_in reopens d nyse_holidays_hardcoded holidays_reopen closed)
  | inr not_closed ↦ (
    0,
    omega arith,
    let same_day : d ≡ d + 0 = omega arith in
        subst (λ x. is_business_day none x ≡ true) same_day (ordinary d h not_closed),
  )
]

weekday_soon : (d : ℕ) → (i : ℕ) × (i ≤ 2) × (leb 5 (weekday (d + i)) ≡ false)
weekday_soon d = elim (Bool-cases (leb 5 (weekday (d + 0)))) [
  | inr a ↦ (0, omega arith, a)
  | inl a ↦ elim (Bool-cases (leb 5 (weekday (d + 1)))) [
    | inr b ↦ (1, omega arith, b)
    | inl b ↦ (2, omega arith, ground arith)
  ]
]

-- By the built-in calendar the loop of `next_business_day` ends after at most seven steps, with the
-- first business day strictly after the given day.
pub next_business_day-IsFirst :
    (from_day : ℕ)
    → (n : ℕ) × (next_business_day none 7 from_day ≡ some n) × IsFirst none (from_day + 1) n
unfolding next_business_day
next_business_day-IsFirst from_day =
    let (i, near, open_week) = weekday_soon (from_day + 1) in
    let (k, soon, is_open) = weekday_opens (from_day + 1 + i) open_week in
    let same_day : from_day + 1 + i + k ≡ from_day + 1 + (i + k) = omega arith in
    search_lem none (i + k) 7 (from_day + 1)
      (subst (λ x. is_business_day none x ≡ true) same_day is_open) (omega arith)

-- By any calendar, if some later day is a business day, the loop ends, with the first one.
pub next_business_day-total :
    (nyse : Option (ℕ → Bool)) (from_day k : ℕ)
    → is_business_day nyse (from_day + 1 + k) ≡ true
    → (n : ℕ) × (next_business_day nyse (suc k) from_day ≡ some n) × IsFirst nyse (from_day + 1) n
unfolding next_business_day
next_business_day-total nyse from_day k h = search_lem nyse k (suc k) (from_day + 1) h (omega arith)
