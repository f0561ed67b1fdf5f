-- ===== src/Ingestion/Reconnect/Spending.antt =====
-- How archive/python-legacy/backend/app/ingestion/databento_live.py spends its attempts: a stream that
-- ends by itself takes one as a failure does, and failures sleep longer each time.
use mathlib.Core.Path.{subst}
use ffllowwgreeks.Prelude.{
  suc, ◌+◌, ◌≤◌, ◌<◌, ◌≡◌, ◌≢◌, ◌⊎◌, refl, sym, ap, ◌∙◌, inl, inr, false, none, some, List, [], ◌∷◌,
  length, All, arith, if◌then◌else◌, ltb, ltb→lt, Text, Option-cases, Bool-cases,
}
use ffllowwgreeks.Ingestion.KeyPool.{KeyCandidate}
use ffllowwgreeks.Ingestion.Reconnect.{
  Config, max_reconnects, Outcome, bootstrap_raised, stream_raised, closed, Try, Round, trying,
  cooling, returned, Loop, drop_unsupported_schema, Verdict, stop, connected, no_schemas, exhausted,
  noted, try_candidates, go_on, conclude, try_all, make_attempt, run, record_candidate_error,
}
use ffllowwgreeks.Ingestion.Reconnect.Budget.{run-trying, run-ended, Same, noted-Same}

-- The message of an outcome, if any, names none of the schemas.
abbrev pub IsUnnamed : List Text → Outcome → Type 0
IsUnnamed schemas (bootstrap_raised msg) = drop_unsupported_schema msg schemas ≡ none
IsUnnamed schemas (stream_raised msg) = drop_unsupported_schema msg schemas ≡ none
IsUnnamed schemas closed = Unit

abbrev pub IsUp : List Text → Try → Type 0
IsUp schemas t = (t.stopped ≡ false) × IsUnnamed schemas t.outcome

-- An attempt with a candidate, without a stop and without a schema to drop.
unfoldable pub IsPlain : List Text → Round → Type 0
IsPlain schemas r = (r.stopped ≡ false) × (r.candidates ≢ []) × All (IsUp schemas) r.candidates

abbrev pub IsRaised : Outcome → Type 0
IsRaised (bootstrap_raised msg) = Unit
IsRaised (stream_raised msg) = Unit
IsRaised closed = ⊥

-- An attempt whose candidates all fail.
unfoldable pub IsFailing : List Text → Round → Type 0
unfolding IsPlain
IsFailing schemas r = IsPlain schemas r × All (λ t. IsRaised t.outcome) r.candidates

-- What plain candidates leave of the loop; only a stream that ends changes the backoff.
pub record Keeps (l : Loop) (out : Verdict × Loop) : Type 0 where
  pub phase : out.1.phase ≡ l.phase
  pub attempt : out.1.attempt ≡ l.attempt
  pub schemas : out.1.schemas ≡ l.schemas
  pub sleeps : out.1.sleeps ≡ l.sleeps
  pub verdict : (out.0 ≡ connected) ⊎ ((out.0 ≡ exhausted) × (out.1.backoff ≡ l.backoff))

noted-sleeps : (c : KeyCandidate) (o : Outcome) (l : Loop) → (noted c o l).1.sleeps ≡ l.sleeps
noted-sleeps c (bootstrap_raised msg) l = refl
noted-sleeps c (stream_raised msg) l = refl
noted-sleeps c closed l = refl

pub noted-raised :
    (c : KeyCandidate) (o : Outcome) (l : Loop) (schemas : List Text) (msg : Text)
    → IsUnnamed schemas o
    → (noted c o l).0 ≡ some msg
    → (drop_unsupported_schema msg schemas ≡ none) × ((noted c o l).1.backoff ≡ l.backoff)
noted-raised c (bootstrap_raised m) l schemas msg h e = ground (arith, h, e)
noted-raised c (stream_raised m) l schemas msg h e = ground (arith, h, e)
noted-raised c closed l schemas msg h e = absurd (ground arith)

pub try_candidates-Keeps :
    (schemas : List Text) (ts : List Try) (l : Loop)
    → l.schemas ≡ schemas
    → All (IsUp schemas) ts
    → Keeps l (try_candidates ts l)
unfolding try_candidates
try_candidates-Keeps schemas [] l e h = record {
  phase = refl;
  attempt = refl;
  schemas = refl;
  sleeps = refl;
  verdict = inr (refl, refl);
}
try_candidates-Keeps schemas (t ∷ ts) l e h =
    let m = (noted t.candidate t.outcome l).1 in
    let same : Same l m = noted-Same t.candidate t.outcome l in
    let slept = noted-sleeps t.candidate t.outcome l in
    elim (Option-cases (noted t.candidate t.outcome l).0) [
      | inl f ↦
          rw (h.0.0, f, try_candidates)
            record {
              phase = same.phase;
              attempt = same.attempt;
              schemas = same.schemas;
              sleeps = slept;
              verdict = inl refl;
            }
      | inr (msg, f) ↦
          let (unnamed, same_backoff) = noted-raised t.candidate t.outcome l schemas msg h.0.1 f in
          let g : drop_unsupported_schema msg m.schemas ≡ none =
            ap (drop_unsupported_schema msg) (same.schemas ∙ e) ∙ unnamed in
          let m' = record m { key_errors = record_candidate_error t.candidate msg m.key_errors } in
          let rest : Keeps m' (try_candidates ts m') =
            try_candidates-Keeps schemas ts m' (same.schemas ∙ e) h.1 in
          rw (h.0.0, f, g, try_candidates)
            record {
              phase = rest.phase ∙ same.phase;
              attempt = rest.attempt ∙ same.attempt;
              schemas = rest.schemas ∙ same.schemas;
              sleeps = rest.sleeps ∙ slept;
              verdict = elim rest.verdict [
                | inl v ↦ inl v
                | inr (v, b) ↦ inr (v, b ∙ same_backoff)
              ];
            }
    ]

-- After a plain attempt: one attempt more, and the loop goes on as long as there are some.
pub record Spends (c : Config) (l m : Loop) : Type 0 where
  pub phase : m.phase ≡ (if ltb (l.attempt + 1) (max_reconnects c) then trying else cooling)
  pub attempt : m.attempt ≡ l.attempt + 1
  pub schemas : m.schemas ≡ l.schemas

conclude-Spends :
    (c : Config) (l begun : Loop) (out : Verdict × Loop)
    → l.phase ≡ trying
    → begun.phase ≡ l.phase
    → begun.attempt ≡ l.attempt + 1
    → begun.schemas ≡ l.schemas
    → Keeps begun out
    → Spends c l (conclude c out)
unfolding conclude go_on
conclude-Spends c l begun (connected, m) e f g h k = ground (arith, k.verdict)
conclude-Spends c l begun (exhausted, m) e f g h k = ground (arith, k.verdict)
conclude-Spends c l begun (stop, m) e f g h k = absurd (ground (arith, k.verdict))
conclude-Spends c l begun (no_schemas, m) e f g h k = absurd (ground (arith, k.verdict))

unfoldable pub begin : Loop → Loop
begin l = record l { attempt = l.attempt + 1; connection_attempts = l.attempt + 1 }

pub make_attempt-plain :
    (c : Config) (r : Round) (l : Loop)
    → IsPlain l.schemas r
    → make_attempt c r l ≡ conclude c (try_candidates r.candidates (begin l))
unfolding make_attempt IsPlain begin
make_attempt-plain c r l h =
    ap (λ b. if b then record l { phase = returned } else try_all c r.candidates (begin l)) h.0
    ∙ offered r.candidates h.1
  where
    offered :
        (ts : List Try)
        → ts ≢ []
        → try_all c ts (begin l) ≡ conclude c (try_candidates ts (begin l))
    offered [] some_one = absurd (some_one refl)
    offered (t ∷ ts) some_one = unfold try_all in refl

pub make_attempt-Spends :
    (c : Config) (r : Round) (l : Loop)
    → l.phase ≡ trying
    → IsPlain l.schemas r
    → Spends c l (make_attempt c r l)
unfolding begin
make_attempt-Spends c r l e h = rw (make_attempt-plain c r l h) (
    conclude-Spends c l (begin l) (try_candidates r.candidates (begin l)) e refl refl refl
      (try_candidates-Keeps l.schemas r.candidates (begin l) refl (unfold IsPlain in h.2)))

-- Attempts without a stop or a schema to drop, each with a candidate, are counted whether their
-- streams were up or not: the loop that has made `max_reconnects` of them cools down, and makes
-- another one with fewer.
pub run-plain :
    (c : Config) (rs : List Round) (l : Loop)
    → l.phase ≡ trying
    → All (IsPlain l.schemas) rs
    → l.attempt < max_reconnects c
    → l.attempt + length rs ≤ max_reconnects c
    → (run c rs l).phase
      ≡ (if ltb (l.attempt + length rs) (max_reconnects c) then trying else cooling)
run-plain c [] l e h p q = unfold run in ground arith
run-plain c (r ∷ rs) l e h p q =
    let m = make_attempt c r l in
    let spent : Spends c l m = make_attempt-Spends c r l e h.0 in
    ap (λ x. x.phase) (run-trying c r rs l e)
    ∙ elim (Bool-cases (ltb (l.attempt + 1) (max_reconnects c))) [
      | inl f ↦
          let open_still : m.phase ≡ trying =
            spent.phase ∙ ap (λ b. if b then trying else cooling) f in
          let more : m.attempt < max_reconnects c =
            omega (arith, spent.attempt, ltb→lt (l.attempt + 1) (max_reconnects c) f) in
          let moved : m.attempt + length rs ≡ l.attempt + suc (length rs) =
            omega (arith, spent.attempt) in
          run-plain c rs m open_still (subst (λ ss. All (IsPlain ss) rs) (sym spent.schemas) h.1)
            more (omega arith)
          ∙ ap (λ n. if ltb n (max_reconnects c) then trying else cooling) moved
      | inr f ↦
          let over : m.phase ≡ cooling = spent.phase ∙ ap (λ b. if b then trying else cooling) f in
          ap (λ x. x.phase) (run-ended c rs m (λ going. absurd (ground (arith, over))))
          ∙ over
          ∙ ground (arith, f)
    ]
