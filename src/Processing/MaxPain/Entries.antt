-- ===== src/Processing/MaxPain/Entries.antt =====
-- The entries that compute_max_pain of max_pain.py lists for single expirations.
use ffllowwgreeks.Prelude.{
  ℕ, ◌≤◌, ◌≡◌, refl, ap, ◌∙◌, inl, inr, Bool, true, false, not, ◌&&◌, some, List, [], ◌∷◌, map,
  arith, All, Bool-cases,
}
use ffllowwgreeks.Processing.MaxPain.{
  Contract, Chain, Pain, ExpiryEntry, any_expiry, clean, all_missing, is_active, active_rows, is_on,
  rows_on, days_of, expiries_of, expiry_max_pain, default_summary, summary_from, compute_from,
  compute_max_pain,
}
use ffllowwgreeks.Processing.MaxPain.Expiries.{expiries_from_today}
use ffllowwgreeks.Processing.MaxPain.Strikes.{In, In-of_sorted_unique}
use ffllowwgreeks.Processing.MaxPain.Optimal.{
  IsMaxPain, expiry_max_pain-IsMaxPain, expiry_max_pain-total,
}

-- An entry of the default call: a day from today on, with the answer for the rows of that day.
abbrev pub IsEntry : ℕ → List Contract → ExpiryEntry → Type 0
IsEntry today cs e =
    (d : ℕ) × (r : Pain) × (e.expiration ≡ some d)
    × (today ≤ d)
    × (e.result ≡ some r)
    × IsMaxPain (rows_on d cs) r

In-days_of_other :
    (today d : ℕ) (c : Contract) (cs : List Contract)
    → is_on d c.expiration ≡ false
    → In d (days_of (active_rows today (c ∷ cs)))
    → In d (days_of (active_rows today cs))
unfolding days_of active_rows is_on is_active
In-days_of_other today d c cs off m = ground arith

rows_on-occupied :
    (today d : ℕ) (cs : List Contract)
    → In d (days_of (active_rows today cs))
    → (c : Contract) × (rest : List Contract) × (rows_on d cs ≡ c ∷ rest)
unfolding rows_on
rows_on-occupied today d [] m = absurd (unfold active_rows days_of in m)
rows_on-occupied today d (c ∷ cs) m = elim (Bool-cases (is_on d c.expiration)) [
  | inl on ↦ (c, rows_on d cs, rw on refl)
  | inr off ↦
      let (x, rest, e) = rows_on-occupied today d cs (In-days_of_other today d c cs off m) in
      (x, rest, rw off e)
]

entry_lem :
    (today d : ℕ) (cs : List Contract)
    → In d (expiries_of today cs)
    → IsEntry today cs (record { expiration = some d; result = expiry_max_pain (rows_on d cs) })
entry_lem today d cs m =
    let listed : In d (days_of (active_rows today cs)) =
      unfold expiries_of in In-of_sorted_unique d (days_of (active_rows today cs)) m in
    let (c, rest, e) = rows_on-occupied today d cs listed in
    let (r, found) = expiry_max_pain-total c rest in
    let answer : expiry_max_pain (rows_on d cs) ≡ some r = ap expiry_max_pain e ∙ found in
    (
      d,
      r,
      refl,
      expiries_from_today today d cs m,
      answer,
      expiry_max_pain-IsMaxPain (rows_on d cs) r answer,
    )

entries_lem :
    (today : ℕ) (cs : List Contract) (ds : List ℕ)
    → ((d : ℕ) → In d ds → In d (expiries_of today cs))
    → All
        (IsEntry today cs)
        (map (λ d. record { expiration = some d; result = expiry_max_pain (rows_on d cs) }) ds)
entries_lem today cs [] h = tt
entries_lem today cs (d ∷ ds) h =
    (entry_lem today d cs (h d (inl refl)), entries_lem today cs ds (λ e m. h e (inr m)))

default-IsEntry :
    (n today : ℕ) (cs : List Contract)
    → All (IsEntry today cs) (default_summary n today cs).per_expiry
unfolding default_summary
default-IsEntry n today cs = entries_lem today cs (expiries_of today cs) (λ d m. m)

entries-from :
    (column : Bool) (n today : ℕ) (cs : List Contract)
    → (column && not (all_missing cs)) ≡ true
    → All (IsEntry today cs) (compute_from column n any_expiry false today cs).per_expiry
unfolding compute_from summary_from
entries-from column n today [] h = tt
entries-from column n today (c ∷ cs) h = rw h (default-IsEntry n today (c ∷ cs))

-- If the chain has expirations, each entry of the default call is for a day from today on and
-- holds the best strike of the rows of that day: expired rows get no entry.
pub per_expiry-IsEntry :
    (n today : ℕ) (df : Chain)
    → (df.has_expiration && not (all_missing (clean df))) ≡ true
    → All (IsEntry today (clean df)) (compute_max_pain n any_expiry false today df).per_expiry
unfolding compute_max_pain
per_expiry-IsEntry n today df h = entries-from df.has_expiration n today (clean df) h
