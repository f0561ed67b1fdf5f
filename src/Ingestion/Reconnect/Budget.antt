-- ===== src/Ingestion/Reconnect/Budget.antt =====
-- The budget of attempts in archive/python-legacy/backend/app/ingestion/databento_live.py: when the loop
-- of attempts ends, and how long it sleeps.
use ffllowwgreeks.Prelude.{
  ℕ, ◌+◌, ◌-◌, ◌≤◌, ◌<◌, ◌≡◌, ◌≢◌, ◌⊎◌, refl, ap, ◌∙◌, inl, inr, some, List, [], ◌∷◌, length, arith,
  ltb, leb, ltb→lt, Text, Option-cases, Bool-cases, if-cases,
}
use ffllowwgreeks.Ingestion.KeyPool.{KeyCandidate}
use ffllowwgreeks.Ingestion.Reconnect.{
  Config, max_reconnects, Outcome, bootstrap_raised, stream_raised, closed, Try, Round, Phase,
  trying, cooling, returned, Loop, drop_unsupported_schema, drop_named, names, Verdict, stop,
  connected, no_schemas, exhausted, without_schema, noted, try_candidates, go_on, conclude, try_all,
  make_attempt, run, record_candidate_error,
}

-- What the candidates leave: the phase, and the attempt with the schemas, or one less of each.
Tried : Loop → Verdict × Loop → Type 0
Tried l (v, m) =
    (m.phase ≡ l.phase)
    × (((m.attempt ≡ l.attempt) × (length m.schemas ≡ length l.schemas))
        ⊎ ((v ≢ exhausted)
            × (m.attempt ≡ l.attempt - 1)
            × (length m.schemas + 1 ≡ length l.schemas))
        ⊎ (v ≡ no_schemas))

drop_named-length :
    (msg : Text) (schemas : List Text) (dropped : Text) (remaining : List Text)
    → drop_named msg schemas ≡ some (dropped, remaining)
    → length remaining + 1 ≡ length schemas
unfolding drop_named
drop_named-length msg [] dropped remaining h = absurd (ground arith)
drop_named-length msg (s ∷ ss) dropped remaining h = elim (Bool-cases (names msg s)) [
  | inl e ↦ ground (arith, e)
  | inr e ↦ elim (Option-cases (drop_named msg ss)) [
    | inl f ↦ absurd (ground (arith, e, f))
    | inr ((t, ts), f) ↦ ground (arith, e, f, drop_named-length msg ss t ts f)
  ]
]

drop_unsupported_schema-length :
    (msg : Text) (schemas : List Text) (dropped : Text) (remaining : List Text)
    → drop_unsupported_schema msg schemas ≡ some (dropped, remaining)
    → length remaining + 1 ≡ length schemas
unfolding drop_unsupported_schema
drop_unsupported_schema-length msg schemas dropped remaining h =
    drop_named-length _ schemas dropped remaining h

without_schema-Tried :
    (dropped : Text) (remaining : List Text) (l : Loop)
    → length remaining + 1 ≡ length l.schemas
    → Tried l (without_schema dropped remaining l)
unfolding without_schema Tried
without_schema-Tried dropped [] l h = (refl, inr (inr refl))
without_schema-Tried dropped (s ∷ ss) l h = (refl, inr (inl ((ground arith), refl, h)))

Tried-like :
    (l m : Loop) (out : Verdict × Loop)
    → m.phase ≡ l.phase
    → m.attempt ≡ l.attempt
    → m.schemas ≡ l.schemas
    → Tried m out
    → Tried l out
unfolding Tried
Tried-like l m out e f g h = ground (arith, ap length g)

pub record Same (l m : Loop) : Type 0 where
  pub phase : m.phase ≡ l.phase
  pub attempt : m.attempt ≡ l.attempt
  pub schemas : m.schemas ≡ l.schemas

pub noted-Same : (c : KeyCandidate) (o : Outcome) (l : Loop) → Same l (noted c o l).1
noted-Same c (bootstrap_raised msg) l = record { phase = refl; attempt = refl; schemas = refl }
noted-Same c (stream_raised msg) l = record { phase = refl; attempt = refl; schemas = refl }
noted-Same c closed l = record { phase = refl; attempt = refl; schemas = refl }

try_candidates-Tried : (ts : List Try) (l : Loop) → Tried l (try_candidates ts l)
unfolding try_candidates
try_candidates-Tried [] l = unfold Tried in (refl, inl (refl, refl))
try_candidates-Tried (t ∷ ts) l =
    let m = (noted t.candidate t.outcome l).1 in
    let same : Same l m = noted-Same t.candidate t.outcome l in
    elim (Bool-cases t.stopped) [
      | inl e ↦ rw (e, try_candidates) unfold Tried in (refl, inl (refl, refl))
      | inr e ↦ elim (Option-cases (noted t.candidate t.outcome l).0) [
        | inl f ↦
            rw (e, f, try_candidates)
              unfold Tried in (same.phase, inl (same.attempt, ap length same.schemas))
        | inr (msg, f) ↦ elim (Option-cases (drop_unsupported_schema msg m.schemas)) [
          | inl g ↦
              let m' = record m {
                key_errors = record_candidate_error t.candidate msg m.key_errors;
              } in
              rw (e, f, g, try_candidates)
                (Tried-like l m' (try_candidates ts m') same.phase same.attempt same.schemas
                  (try_candidates-Tried ts m'))
          | inr ((dropped, remaining), g) ↦
              rw (e, f, g, try_candidates)
                (Tried-like l m (without_schema dropped remaining m) same.phase same.attempt
                  same.schemas
                  (without_schema-Tried dropped remaining m
                    (drop_unsupported_schema-length msg m.schemas dropped remaining g)))
        ]
      ]
    ]

pub try_candidates-phase : (ts : List Try) (l : Loop) → (try_candidates ts l).1.phase ≡ l.phase
unfolding Tried
try_candidates-phase ts l = let tried = try_candidates-Tried ts l in tried.0

-- The attempts and the schemas that are left.
unfoldable pub left : Config → Loop → ℕ
left c l = max_reconnects c - l.attempt + length l.schemas

-- The loop of attempts has ended, or goes on with less left than `n`.
Falls : Config → ℕ → Loop → Type 0
Falls c n m =
    (m.phase ≢ trying) ⊎ ((m.phase ≡ trying) × (m.attempt < max_reconnects c) × (left c m < n))

go_on-Falls :
    (c : Config) (n : ℕ) (m : Loop) → m.phase ≡ trying → left c m < n → Falls c n (go_on c m)
unfolding Falls go_on left
go_on-Falls c n m e h = elim (Bool-cases (ltb m.attempt (max_reconnects c))) [
  | inl f ↦ rw (f, go_on) (inr (e, ltb→lt m.attempt (max_reconnects c) f, h))
  | inr f ↦ rw (f, go_on) (inl (ground arith))
]

Tried-left :
    (c : Config) (l m : Loop) (v : Verdict)
    → Tried l (v, m)
    → v ≢ no_schemas
    → 0 < l.attempt
    → l.attempt ≤ max_reconnects c
    → left c m < left c l + 1
unfolding Tried left
Tried-left c l m v h some_left p q = ground arith

Tried-phase : (l m : Loop) (v : Verdict) → Tried l (v, m) → m.phase ≡ l.phase
unfolding Tried
Tried-phase l m v h = h.0

conclude-Falls :
    (c : Config) (l : Loop) (out : Verdict × Loop)
    → Tried l out
    → l.phase ≡ trying
    → 0 < l.attempt
    → l.attempt ≤ max_reconnects c
    → Falls c (left c l + 1) (conclude c out)
unfolding conclude Falls
conclude-Falls c l (stop, m) h e p q = inl (ground arith)
conclude-Falls c l (no_schemas, m) h e p q = inl (ground arith)
conclude-Falls c l (connected, m) h e p q =
    go_on-Falls c (left c l + 1) m (Tried-phase l m connected h ∙ e)
      (Tried-left c l m connected h (ground arith) p q)
conclude-Falls c l (exhausted, m) h e p q = elim (Bool-cases (leb (max_reconnects c) m.attempt)) [
  | inl f ↦ rw (f, conclude) (inl (ground arith))
  | inr f ↦
      rw (f, conclude)
        (inr (
          Tried-phase l m exhausted h ∙ e,
          ground (arith, f),
          unfold left in Tried-left c l m exhausted h (ground arith) p q,
        ))
]

try_all-Falls :
    (c : Config) (ts : List Try) (l : Loop)
    → l.phase ≡ trying
    → 0 < l.attempt
    → l.attempt ≤ max_reconnects c
    → Falls c (left c l + 1) (try_all c ts l)
unfolding try_all
try_all-Falls c [] l e p q = unfold Falls in inl (ground arith)
try_all-Falls c (t ∷ ts) l e p q =
    conclude-Falls c l (try_candidates (t ∷ ts) l) (try_candidates-Tried (t ∷ ts) l) e p q

make_attempt-Falls :
    (c : Config) (r : Round) (l : Loop)
    → l.phase ≡ trying
    → l.attempt < max_reconnects c
    → Falls c (left c l) (make_attempt c r l)
unfolding make_attempt
make_attempt-Falls c r l e p =
    let begun = record l { attempt = l.attempt + 1; connection_attempts = l.attempt + 1 } in
    let enough : left c begun + 1 ≡ left c l = unfold left in omega arith in
    if-cases (Falls c (left c l)) r.stopped (record l { phase = returned })
      (try_all c r.candidates begun) (λ stopped. unfold Falls in inl (ground arith))
      (λ up. rw (← enough) (try_all-Falls c r.candidates begun e (omega arith) (omega arith)))

Falls-mono : (c : Config) (n k : ℕ) (l : Loop) → n ≤ k → Falls c n l → Falls c k l
unfolding Falls
Falls-mono c n k l h (inl f) = inl f
Falls-mono c n k l h (inr (e, p, f)) = inr (e, p, omega arith)

-- A loop that has ended makes no attempt.
pub run-ended : (c : Config) (rs : List Round) (l : Loop) → l.phase ≢ trying → run c rs l ≡ l
unfolding run
run-ended c [] l h = refl
run-ended c (r ∷ rs) l h = ground arith

pub run-trying :
    (c : Config) (r : Round) (rs : List Round) (l : Loop)
    → l.phase ≡ trying
    → run c (r ∷ rs) l ≡ run c rs (make_attempt c r l)
unfolding run
run-trying c r rs l e =
    let next : Phase → Loop =
      λ p. elim p [ trying ↦ run c rs (make_attempt c r l) | cooling ↦ l | returned ↦ l ] in
    ap next e

run-Falls :
    (c : Config) (rs : List Round) (l : Loop)
    → Falls c (length rs + 1) l
    → (run c rs l).phase ≢ trying
run-Falls c rs l f = go rs l (unfold Falls in f)
  where
    go :
        (rs : List Round) (l : Loop)
        → (l.phase ≢ trying)
          ⊎ ((l.phase ≡ trying) × (l.attempt < max_reconnects c) × (left c l < length rs + 1))
        → (run c rs l).phase ≢ trying
    go rs l (inl ended) = rw (run-ended c rs l ended) ended
    go [] l (inr (e, p, h)) = absurd (unfold left in omega arith)
    go (r ∷ rs) l (inr (e, p, h)) = rw (run-trying c r rs l e) (
        go rs (make_attempt c r l) (
          unfold Falls in
          Falls-mono c (left c l) (length rs + 1) (make_attempt c r l) (omega arith)
            (make_attempt-Falls c r l e p)))

-- However the attempts go, the loop of attempts that has attempts left makes at most as many as are
-- left and schemas are subscribed: after so many rounds it cools down or has returned.
pub run-ends :
    (c : Config) (rs : List Round) (l : Loop)
    → l.phase ≡ trying
    → l.attempt < max_reconnects c
    → left c l ≤ length rs
    → (run c rs l).phase ≢ trying
run-ends c rs l e p h = run-Falls c rs l (unfold Falls in inr (e, p, omega arith))
