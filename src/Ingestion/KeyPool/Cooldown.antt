-- ===== src/Ingestion/KeyPool/Cooldown.antt =====
-- How reported errors and successes demote and restore a key of key_pool.py.
use ffllowwgreeks.Prelude.{
  ℕ, suc, ◌+◌, ◌≤◌, ◌<◌, ◌≡◌, ◌≢◌, refl, ap, sym, ◌∙◌, inl, inr, true, Option, none, some, List, [],
  ◌∷◌, arith, ◌==◌, if◌then◌else◌, Text, upper, Bool-cases, length,
}
use mathlib.Core.Path.{subst}
use ffllowwgreeks.Ingestion.KeyPool.{
  ApiKey, KeyCandidate, Settings, db, env, is_eligible, is_cooling, is_recent, skip_cooldown,
  candidate_of, iter_keys, update_row, succeeded, failed, record_key_success, record_key_error,
  env_candidates,
}
use ffllowwgreeks.Ingestion.KeyPool.Selection.{In, In-iter_keys}

-- Errors reported for one candidate, each with its time and message.
unfoldable pub errors : KeyCandidate → List (ℕ × Text) → List ApiKey → List ApiKey
errors c [] table = table
errors c ((at, message) ∷ more) table = errors c more (record_key_error at c message table)

-- A row with an error at or after `at` and at least `n` of them.
abbrev Burnt : ℕ → ℕ → ApiKey → Type 0
Burnt n at r = (n ≤ r.error_count) × (r.last_error_at ≡ some at)

Burnt-is_cooling :
    (n at now : ℕ) (r : ApiKey)
    → 5 ≤ n
    → Burnt n at r
    → now < at + skip_cooldown
    → is_cooling now r ≡ true
unfolding is_cooling is_recent
Burnt-is_cooling n at now r many burnt soon = rw burnt.1 (ground arith)

row_of :
    (k : ℕ) (f : ApiKey → ApiKey) (r : ApiKey) (table : List ApiKey)
    → In r (update_row k f table)
    → (q : ApiKey) × In q table × (r ≡ (if q.id == k then f q else q))
unfolding update_row
row_of k f r [] m = absurd m
row_of k f r (q ∷ table) m = elim m [
  | inl e ↦ (q, inl refl, e)
  | inr n ↦ let (p, found, e) = row_of k f r table n in (p, inr found, e)
]

In-update_row :
    (k : ℕ) (f : ApiKey → ApiKey) (q : ApiKey) (table : List ApiKey)
    → In q table
    → q.id ≡ k
    → In (f q) (update_row k f table)
unfolding update_row
In-update_row k f q [] m e = absurd m
In-update_row k f q (r ∷ table) m e = elim m [
  | inl same_row ↦ inl (
      subst (λ x. f q ≡ (if x.id == k then f x else x)) same_row
        (let hit : (q.id == k) ≡ true = ground arith in rw hit refl))
  | inr n ↦ inr (In-update_row k f q table n e)
]

-- Each row with the id has at least `n` errors.
abbrev Counted : ℕ → ℕ → List ApiKey → Type 0
Counted n k table = (r : ApiKey) → In r table → r.id ≡ k → n ≤ r.error_count

one_more :
    (n k at : ℕ) (message : Text) (q r : ApiKey)
    → r ≡ (if q.id == k then failed at message q else q)
    → r.id ≡ k
    → (q.id ≡ k → n ≤ q.error_count)
    → (suc n ≤ r.error_count) × (r.last_error_at ≡ some at)
unfolding failed
one_more n k at message q r e i h = elim (Bool-cases (q.id == k)) [
  | inl hit ↦
      let here : r ≡ failed at message q = e ∙ rw hit refl in
      let same_id : q.id ≡ k = ground arith in
      subst (λ x. (suc n ≤ x.error_count) × (x.last_error_at ≡ some at)) (sym here)
        (omega (arith, h same_id), refl)
  | inr miss ↦
      let here : r ≡ q = e ∙ rw miss refl in
      let same_id : r.id ≡ q.id = ap (λ x. x.id) here in absurd (ground arith)
]

Counted-errors :
    (n k : ℕ) (c : KeyCandidate) (es : List (ℕ × Text)) (table : List ApiKey)
    → c.source ≡ db k
    → Counted n k table
    → Counted (n + length es) k (errors c es table)
unfolding errors record_key_error
Counted-errors n k c [] table e h = λ r m i. omega (arith, h r m i)
Counted-errors n k c ((at, message) ∷ es) table e h = λ r m i. omega (
  arith,
  Counted-errors (suc n) k c es (record_key_error at c message table) e
      (rw e (λ s found j.
        let (q, f, d) = row_of k (failed at message) s table found in
        (one_more n k at message q s d j (h q f)).0))
      r m i,
)

env_source :
    (d : KeyCandidate) (name : Text) (o : Option Text)
    → In d (env_candidates name o)
    → d.source ≡ env
env_source d name none m = absurd m
env_source d name (some key) m = elim m [ inl e ↦ ap (λ c. c.source) e | inr n ↦ absurd n ]

-- The row of a key that has failed at least five times, the last time at `at`, is cooling.
cooling_row :
    (now at k : ℕ) (message : Text) (c : KeyCandidate) (es : List (ℕ × Text)) (row : ApiKey)
    (table : List ApiKey)
    → c.source ≡ db k
    → 4 ≤ length es
    → now < at + skip_cooldown
    → In row (update_row k (failed at message) (errors c es table))
    → row.id ≡ k
    → is_cooling now row ≡ true
cooling_row now at k message c es row table e many soon m i =
    let (q, f, d) = row_of k (failed at message) row (errors c es table) m in
    let count = Counted-errors 0 k c es table e (λ r n j. omega arith) q f in
    let burnt = one_more (length es) k at message q row d i (λ j. omega (arith, count j)) in
    Burnt-is_cooling (suc (length es)) at now row (omega arith) burnt soon

-- Five errors in a row: after four reports of an error for a key of the table and one more at
-- `at`, `iter_keys` does not offer the key, whatever else the table holds, until the cooldown is
-- over.
pub errors-iter_keys :
    (settings : Settings) (decrypt : Text → Option Text) (now at k : ℕ) (dataset message : Text)
    (c d : KeyCandidate) (es : List (ℕ × Text)) (table : List ApiKey) (cs : List KeyCandidate)
    → c.source ≡ db k
    → 4 ≤ length es
    → now < at + skip_cooldown
    → iter_keys settings decrypt now dataset (record_key_error at c message (errors c es table))
      ≡ some cs
    → In d cs
    → d.source ≢ db k
unfolding record_key_error
errors-iter_keys settings decrypt now at k dataset message c d es table cs e many soon found m hit =
    elim ((In-iter_keys settings decrypt now dataset
        (record_key_error at c message (errors c es table)) cs d found).0
      m) [
        | inl first ↦ cc (env_source d (upper dataset) _ first, hit)
        | inr (row, ((listed, eligible), (awake, p, plain, same_key))) ↦
            let same_id : row.id ≡ k = cc (ap (λ x. x.source) same_key, hit) in
            let there : In row (update_row k (failed at message) (errors c es table)) =
              subst
                (λ s. In row (elim s [
                  | env ↦ errors c es table
                  | db j ↦ update_row j (failed at message) (errors c es table)
                ]))
                e listed in
            cc (cooling_row now at k message c es row table e many soon there same_id, awake)
      ]

-- A success restores a key at once: an active row for the dataset whose key can be decrypted is
-- offered at any time after `record_key_success`, however many errors it had.
pub success-iter_keys :
    (settings : Settings) (decrypt : Text → Option Text) (now at k : ℕ) (dataset p : Text)
    (c : KeyCandidate) (q : ApiKey) (table : List ApiKey) (cs : List KeyCandidate)
    → c.source ≡ db k
    → In q table
    → q.id ≡ k
    → is_eligible (upper dataset) q ≡ true
    → decrypt q.api_key_encrypted ≡ some p
    → iter_keys settings decrypt now dataset (record_key_success at c table) ≡ some cs
    → In (candidate_of q p) cs
unfolding record_key_success succeeded is_cooling is_eligible
success-iter_keys settings decrypt now at k dataset p c q table cs e m i eligible plain found =
    (In-iter_keys settings decrypt now dataset (record_key_success at c table) cs (candidate_of q p)
        found).1
      (inr (
        succeeded at q,
        (rw e (In-update_row k (succeeded at) q table m i, eligible), (refl, p, plain, refl)),
      ))
