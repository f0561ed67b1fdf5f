-- ===== src/Ingestion/Reconnect/Sleeps.antt =====
-- How long archive/python-legacy/backend/app/ingestion/databento_live.py sleeps between attempts that
-- fail.
use mathlib.Core.Path.{subst}
use ffllowwgreeks.Prelude.{
  ℕ, zero, suc, ◌+◌, ◌*◌, ◌<◌, ◌≡◌, ◌≢◌, refl, sym, ap, ◌∙◌, inl, inr, none, List, [], ◌∷◌, ◌++◌,
  length, All, arith, if◌then◌else◌, min, lt→ltb, Text, Option-cases,
}
use ffllowwgreeks.Ingestion.KeyPool.{KeyCandidate}
use ffllowwgreeks.Ingestion.Reconnect.{
  Config, max_reconnects, Outcome, bootstrap_raised, stream_raised, closed, Try, Round, trying,
  cooling, Loop, start, drop_unsupported_schema, Verdict, stop, no_schemas, connected, exhausted,
  noted, try_candidates, conclude, make_attempt, run, record_candidate_error, default_schemas,
  initial_backoff,
}
use ffllowwgreeks.Ingestion.Reconnect.Budget.{run-trying, Same, noted-Same}
use ffllowwgreeks.Ingestion.Reconnect.Spending.{
  IsUp, IsRaised, IsPlain, IsFailing, Keeps, Spends, noted-raised, try_candidates-Keeps,
  make_attempt-plain, make_attempt-Spends, begin,
}

-- 2,000 ms, doubled n times.
abbrev pub doubled : ℕ → ℕ
doubled zero = initial_backoff
doubled (suc n) = doubled n * 2

-- The sleep after the failure with the number n: the first is not capped.
abbrev pub sleep_at : Config → ℕ → ℕ
sleep_at c zero = initial_backoff
sleep_at c (suc n) = min (doubled (suc n)) c.backoff_cap

unfoldable pub sleeps_after : Config → ℕ → List ℕ
sleeps_after c zero = []
sleeps_after c (suc n) = sleeps_after c n ++ (sleep_at c n ∷ [])

sleep_at-suc : (c : Config) (n : ℕ) → min (sleep_at c n * 2) c.backoff_cap ≡ sleep_at c (suc n)
sleep_at-suc c zero = refl
sleep_at-suc c (suc n) = omega arith

noted-some : (c : KeyCandidate) (o : Outcome) (l : Loop) → IsRaised o → (noted c o l).0 ≢ none
noted-some c (bootstrap_raised msg) l h e = ground (arith, e)
noted-some c (stream_raised msg) l h e = ground (arith, e)
noted-some c closed l h e = h

try_candidates-exhausted :
    (schemas : List Text) (ts : List Try) (l : Loop)
    → l.schemas ≡ schemas
    → All (IsUp schemas) ts
    → All (λ t. IsRaised t.outcome) ts
    → (try_candidates ts l).0 ≡ exhausted
unfolding try_candidates
try_candidates-exhausted schemas [] l e h raised = refl
try_candidates-exhausted schemas (t ∷ ts) l e h raised =
    let m = (noted t.candidate t.outcome l).1 in
    let same : Same l m = noted-Same t.candidate t.outcome l in
    elim (Option-cases (noted t.candidate t.outcome l).0) [
      | inl f ↦ absurd (noted-some t.candidate t.outcome l raised.0 f)
      | inr (msg, f) ↦
          let unnamed = noted-raised t.candidate t.outcome l schemas msg h.0.1 f in
          let g : drop_unsupported_schema msg m.schemas ≡ none =
            ap (drop_unsupported_schema msg) (same.schemas ∙ e) ∙ unnamed.0 in
          let m' = record m { key_errors = record_candidate_error t.candidate msg m.key_errors } in
          rw (h.0.0, f, g, try_candidates)
            (try_candidates-exhausted schemas ts m' (same.schemas ∙ e) h.1 raised.1)
    ]

conclude-exhausted :
    (c : Config) (l : Loop) (out : Verdict × Loop)
    → Keeps l out
    → out.0 ≡ exhausted
    → l.attempt < max_reconnects c
    → ((conclude c out).sleeps ≡ l.sleeps ++ (l.backoff ∷ []))
      × ((conclude c out).backoff ≡ min (l.backoff * 2) c.backoff_cap)
unfolding conclude
conclude-exhausted c l (exhausted, m) k e p = ground (arith, k.verdict)
conclude-exhausted c l (connected, m) k e p = absurd (ground arith)
conclude-exhausted c l (stop, m) k e p = absurd (ground arith)
conclude-exhausted c l (no_schemas, m) k e p = absurd (ground arith)

module _ (c : Config) (r : Round) (l : Loop) (h : IsFailing l.schemas r)
    (p : l.attempt + 1 < max_reconnects c) where
  make_attempt-sleeps :
      ((make_attempt c r l).sleeps ≡ l.sleeps ++ (l.backoff ∷ []))
      × ((make_attempt c r l).backoff ≡ min (l.backoff * 2) c.backoff_cap)
  unfolding begin IsFailing
  make_attempt-sleeps = rw (make_attempt-plain c r l h.0) (
      conclude-exhausted c (begin l) (try_candidates r.candidates (begin l))
        (try_candidates-Keeps l.schemas r.candidates (begin l) refl (unfold IsPlain in h.0.2))
        (try_candidates-exhausted l.schemas r.candidates (begin l) refl (unfold IsPlain in h.0.2)
          h.1)
        p)

-- The loop has slept after n failures.
record Slept (c : Config) (n : ℕ) (l : Loop) : Type 0 where
  pub sleeps : l.sleeps ≡ sleeps_after c n
  pub backoff : l.backoff ≡ sleep_at c n

run-Slept :
    (c : Config) (rs : List Round) (l : Loop) (n : ℕ)
    → l.phase ≡ trying
    → All (IsFailing l.schemas) rs
    → l.attempt + length rs < max_reconnects c
    → Slept c n l
    → Slept c (n + length rs) (run c rs l)
run-Slept c [] l n e h p s =
    unfold run in subst (λ k. Slept c k l) (let same : n ≡ n + 0 = omega arith in same) s
run-Slept c (r ∷ rs) l n e h p s =
    let m = make_attempt c r l in
    let spent : Spends c l m = make_attempt-Spends c r l e (unfold IsFailing in h.0.0) in
    let slept = make_attempt-sleeps c r l h.0 (omega arith) in
    let more = lt→ltb (l.attempt + 1) (max_reconnects c) (omega arith) in
    let next : Slept c (suc n) m = record {
      sleeps = slept.0 ∙ unfold sleeps_after in ground (arith, s.sleeps, s.backoff);
      backoff = slept.1 ∙ ap (λ b. min (b * 2) c.backoff_cap) s.backoff ∙ sleep_at-suc c n;
    } in
    let rest =
      run-Slept c rs m (suc n) (spent.phase ∙ ap (λ b. if b then trying else cooling) more)
        (subst (λ ss. All (IsFailing ss) rs) (sym spent.schemas) h.1) (omega (arith, spent.attempt))
        next in
    let moved : suc n + length rs ≡ n + suc (length rs) = omega arith in
    subst (λ x. Slept c (n + suc (length rs)) x) (sym (run-trying c r rs l e))
      (subst (λ k. Slept c k (run c rs m)) moved rest)

-- As long as all candidates of all attempts fail, for other reasons than a schema, the loop sleeps
-- two seconds after the first attempt, and after each further one twice as long up to the cap.
pub sleeps-run :
    (c : Config) (rs : List Round)
    → All (IsFailing default_schemas) rs
    → length rs < max_reconnects c
    → (run c rs start).sleeps ≡ sleeps_after c (length rs)
unfolding start
sleeps-run c rs h p =
    let slept : Slept c (0 + length rs) (run c rs start) =
      run-Slept c rs start 0 refl h (omega arith)
        record { sleeps = unfold sleeps_after in refl; backoff = refl } in
    slept.sleeps ∙ ap (sleeps_after c) (omega arith)
