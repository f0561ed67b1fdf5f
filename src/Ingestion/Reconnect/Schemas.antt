-- ===== src/Ingestion/Reconnect/Schemas.antt =====
-- What archive/python-legacy/backend/app/ingestion/databento_live.py keeps over attempts and cold
-- restarts: its schemas, its counters and its flag of a terminal failure.
use ffllowwgreeks.Prelude.{
  ℕ, suc, ◌+◌, ◌≤◌, ◌<◌, ◌≡◌, ◌≢◌, refl, inl, inr, Bool, false, some, List, [], ◌∷◌, ◌++◌, All,
  arith, if◌then◌else◌, max, Text, Option-cases, Bool-cases,
}
use ffllowwgreeks.Ingestion.KeyPool.{KeyCandidate}
use ffllowwgreeks.Ingestion.Reconnect.{
  Config, max_reconnects, Outcome, bootstrap_raised, stream_raised, closed, Try, Phase, trying,
  returned, Loop, drop_unsupported_schema, drop_named, names, Verdict, stop, connected, no_schemas,
  exhausted, without_schema, noted, try_candidates, record_candidate_error, default_schemas,
  initial_backoff,
}

abbrev pub count : (Text → Bool) → List Text → ℕ
count p [] = 0
count p (s ∷ ss) = if p s then suc (count p ss) else count p ss

count-snoc :
    (p : Text → Bool) (ss : List Text) (s : Text)
    → count p (ss ++ (s ∷ [])) ≡ count p ss + count p (s ∷ [])
count-snoc p [] s = omega arith
count-snoc p (t ∷ ss) s = ground (arith, count-snoc p ss s)

drop_named-count :
    (p : Text → Bool) (msg : Text) (schemas : List Text) (dropped : Text) (remaining : List Text)
    → drop_named msg schemas ≡ some (dropped, remaining)
    → count p (dropped ∷ []) + count p remaining ≡ count p schemas
unfolding drop_named
drop_named-count p msg [] dropped remaining h = absurd (ground arith)
drop_named-count p msg (s ∷ ss) dropped remaining h = elim (Bool-cases (names msg s)) [
  | inl e ↦ ground (arith, e)
  | inr e ↦ elim (Option-cases (drop_named msg ss)) [
    | inl f ↦ absurd (ground (arith, e, f))
    | inr ((t, ts), f) ↦ ground (arith, e, f, drop_named-count p msg ss t ts f)
  ]
]

drop_unsupported_schema-count :
    (p : Text → Bool) (msg : Text) (schemas : List Text) (dropped : Text) (remaining : List Text)
    → drop_unsupported_schema msg schemas ≡ some (dropped, remaining)
    → count p (dropped ∷ []) + count p remaining ≡ count p schemas
unfolding drop_unsupported_schema
drop_unsupported_schema-count p msg schemas dropped remaining h =
    drop_named-count p _ schemas dropped remaining h

abbrev pub longest : Config → ℕ
longest c = max initial_backoff c.backoff_cap

-- What holds between two steps of an attempt: each schema is subscribed or dropped, the attempts are
-- within the budget, and no sleep is longer than the cap or the first one.
pub record IsKept (c : Config) (l : Loop) : Type 0 where
  pub schemas :
      (p : Text → Bool) → count p l.dropped_schemas + count p l.schemas ≡ count p default_schemas
  pub attempt : l.attempt ≤ max_reconnects c
  pub connection_attempts : l.connection_attempts ≤ max_reconnects c
  pub backoff : l.backoff ≤ longest c
  pub sleeps : All (λ n. n ≤ longest c) l.sleeps

-- Between the candidates the ingester is not dead, and has a schema.
pub record IsAlive (c : Config) (l : Loop) : Type 0 where
  pub kept : IsKept c l
  pub dead : l.dead ≡ false
  pub subscribed : l.schemas ≢ []

abbrev pub HasTried : Config → Verdict × Loop → Type 0
HasTried c (no_schemas, l) = IsKept c l
HasTried c (stop, l) = IsAlive c l
HasTried c (connected, l) = IsAlive c l
HasTried c (exhausted, l) = IsAlive c l

-- The same loop but for its error, its label and its backoff.
pub alike-IsKept :
    (c : Config) (l m : Loop)
    → m.schemas ≡ l.schemas
    → m.dropped_schemas ≡ l.dropped_schemas
    → m.attempt ≡ l.attempt
    → m.connection_attempts ≡ l.connection_attempts
    → m.sleeps ≡ l.sleeps
    → m.backoff ≤ longest c
    → IsKept c l
    → IsKept c m
alike-IsKept c l m es ed ea ec el b k = record {
  schemas = λ p. rw (es, ed) (k.schemas p);
  attempt = rw ea k.attempt;
  connection_attempts = rw ec k.connection_attempts;
  backoff = b;
  sleeps = rw el k.sleeps;
}

noted-IsAlive :
    (c : Config) (k : KeyCandidate) (o : Outcome) (l : Loop)
    → IsAlive c l
    → IsAlive c (noted k o l).1
noted-IsAlive c k (bootstrap_raised msg) l h = record {
  kept =
      alike-IsKept c l (noted k (bootstrap_raised msg) l).1 refl refl refl refl refl h.kept.backoff
        h.kept;
  dead = h.dead;
  subscribed = h.subscribed;
}
noted-IsAlive c k (stream_raised msg) l h = record {
  kept =
      alike-IsKept c l (noted k (stream_raised msg) l).1 refl refl refl refl refl h.kept.backoff
        h.kept;
  dead = h.dead;
  subscribed = h.subscribed;
}
noted-IsAlive c k closed l h = record {
  kept = alike-IsKept c l (noted k closed l).1 refl refl refl refl refl (omega arith) h.kept;
  dead = h.dead;
  subscribed = h.subscribed;
}

dropped-count :
    (p : Text → Bool) (dropped : Text) (gone remaining schemas all : List Text)
    → count p (dropped ∷ []) + count p remaining ≡ count p schemas
    → count p gone + count p schemas ≡ count p all
    → count p (gone ++ (dropped ∷ [])) + count p remaining ≡ count p all
dropped-count p dropped gone remaining schemas all h k =
    omega (arith, count-snoc p gone dropped, h, k)

without_schema-HasTried :
    (c : Config) (dropped : Text) (remaining : List Text) (l : Loop)
    → ((p : Text → Bool) → count p (dropped ∷ []) + count p remaining ≡ count p l.schemas)
    → IsAlive c l
    → HasTried c (without_schema dropped remaining l)
unfolding without_schema
without_schema-HasTried c dropped [] l h a = record {
  schemas = λ p.
      dropped-count p dropped l.dropped_schemas [] l.schemas default_schemas (h p)
        (a.kept.schemas p);
  attempt = a.kept.attempt;
  connection_attempts = a.kept.connection_attempts;
  backoff = a.kept.backoff;
  sleeps = a.kept.sleeps;
}
without_schema-HasTried c dropped (s ∷ ss) l h a = record {
  kept = record {
    schemas = λ p.
        dropped-count p dropped l.dropped_schemas (s ∷ ss) l.schemas default_schemas (h p)
          (a.kept.schemas p);
    attempt = omega (arith, a.kept.attempt);
    connection_attempts = a.kept.connection_attempts;
    backoff = a.kept.backoff;
    sleeps = a.kept.sleeps;
  };
  dead = a.dead;
  subscribed = λ e. ground (arith, e);
}

pub try_candidates-HasTried :
    (c : Config) (ts : List Try) (l : Loop) → IsAlive c l → HasTried c (try_candidates ts l)
unfolding try_candidates
try_candidates-HasTried c [] l a = a
try_candidates-HasTried c (t ∷ ts) l a =
    let m = (noted t.candidate t.outcome l).1 in
    let am : IsAlive c m = noted-IsAlive c t.candidate t.outcome l a in
    elim (Bool-cases t.stopped) [
      | inl e ↦ rw (e, try_candidates) a
      | inr e ↦ elim (Option-cases (noted t.candidate t.outcome l).0) [
        | inl f ↦ rw (e, f, try_candidates) am
        | inr (msg, f) ↦ elim (Option-cases (drop_unsupported_schema msg m.schemas)) [
          | inl g ↦
              let m' = record m {
                key_errors = record_candidate_error t.candidate msg m.key_errors;
              } in
              rw (e, f, g, try_candidates)
                (try_candidates-HasTried c ts m' record {
                  kept = alike-IsKept c m m' refl refl refl refl refl am.kept.backoff am.kept;
                  dead = am.dead;
                  subscribed = am.subscribed;
                })
          | inr ((dropped, remaining), g) ↦
              rw (e, f, g, try_candidates)
                (without_schema-HasTried c dropped remaining m
                  (λ p. drop_unsupported_schema-count p msg m.schemas dropped remaining g) am)
        ]
      ]
    ]

-- Each schema is subscribed or dropped, once; the attempts are within the budget, strictly so while
-- the loop goes on; no sleep is longer than the cap or the first one; and an ingester that is dead
-- or has no schema left has returned.
pub record IsSound (c : Config) (l : Loop) : Type 0 where
  pub schemas :
      (p : Text → Bool) → count p l.dropped_schemas + count p l.schemas ≡ count p default_schemas
  pub connection_attempts : l.connection_attempts ≤ max_reconnects c
  pub backoff : l.backoff ≤ longest c
  pub sleeps : All (λ n. n ≤ longest c) l.sleeps
  pub attempt : l.attempt ≤ max_reconnects c
  pub going : l.phase ≡ trying → l.attempt < max_reconnects c
  pub dead : l.phase ≢ returned → l.dead ≡ false
  pub subscribed : l.phase ≢ returned → l.schemas ≢ []

-- What has returned needs no more than what is kept.
pub returned-IsSound : (c : Config) (l : Loop) → IsKept c l → l.phase ≡ returned → IsSound c l
returned-IsSound c l k e = record {
  schemas = k.schemas;
  connection_attempts = k.connection_attempts;
  backoff = k.backoff;
  sleeps = k.sleeps;
  attempt = k.attempt;
  going = λ f. absurd (ground (arith, e, f));
  dead = λ f. absurd (f e);
  subscribed = λ f. absurd (f e);
}

pub alive-IsSound :
    (c : Config) (l : Loop)
    → IsAlive c l
    → (l.phase ≡ trying → l.attempt < max_reconnects c)
    → IsSound c l
alive-IsSound c l a h = record {
  schemas = a.kept.schemas;
  connection_attempts = a.kept.connection_attempts;
  backoff = a.kept.backoff;
  sleeps = a.kept.sleeps;
  attempt = a.kept.attempt;
  going = h;
  dead = λ f. a.dead;
  subscribed = λ f. a.subscribed;
}

-- The same loop in another phase.
pub phased-IsAlive :
    (c : Config) (l : Loop) (p : Phase) → IsAlive c l → IsAlive c (record l { phase = p })
phased-IsAlive c l p a = record {
  kept = alike-IsKept c l (record l { phase = p }) refl refl refl refl refl a.kept.backoff a.kept;
  dead = a.dead;
  subscribed = a.subscribed;
}
