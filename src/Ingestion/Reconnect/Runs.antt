-- ===== src/Ingestion/Reconnect/Runs.antt =====
-- Attempts and cold restarts of archive/python-legacy/backend/app/ingestion/databento_live.py in any
-- order.
use native.Mathlib.Nat.{zero-add}
use ffllowwgreeks.Prelude.{
  ◌+◌, ◌*◌, ◌≤◌, ◌≡◌, ◌≢◌, refl, ◌∙◌, Bool, true, false, List, [], ◌∷◌, ◌++◌, All-append, arith,
  if-cases, min, ltb, ltb→lt, leb,
}
use ffllowwgreeks.Ingestion.Reconnect.{
  Config, max_reconnects, Try, Round, Phase, trying, cooling, returned, Loop, start, Verdict, stop,
  connected, no_schemas, exhausted, try_candidates, go_on, conclude, try_all, make_attempt,
  cold_restart, default_schemas,
}
use ffllowwgreeks.Ingestion.Reconnect.Budget.{try_candidates-phase}
use ffllowwgreeks.Ingestion.Reconnect.Schemas.{
  count, longest, IsKept, IsAlive, HasTried, IsSound, try_candidates-HasTried, returned-IsSound,
  alive-IsSound, phased-IsAlive, alike-IsKept,
}

-- An attempt is made while the loop goes on, and a cooldown ends while there is one.
pub data Act : Type 0 where
  an_attempt : Round → Act
  end_of_cooldown : (stopped : Bool) → Act

unfoldable pub step : Config → Act → Loop → Loop
unfolding make_attempt cold_restart
step c (an_attempt r) l = elim l.phase [ trying ↦ make_attempt c r l | cooling ↦ l | returned ↦ l ]
step c (end_of_cooldown stopped) l = elim l.phase [
  | trying ↦ l
  | cooling ↦ cold_restart stopped l
  | returned ↦ l
]

unfoldable pub run : Config → List Act → Loop → Loop
unfolding step
run c [] l = l
run c (a ∷ acts) l = run c acts (step c a l)

phased-IsKept : (c : Config) (l : Loop) (p : Phase) → IsKept c l → IsKept c (record l { phase = p })
phased-IsKept c l p k =
    alike-IsKept c l (record l { phase = p }) refl refl refl refl refl k.backoff k

slept-IsAlive :
    (c : Config) (l : Loop)
    → IsAlive c l
    → IsAlive c (record l {
      sleeps = l.sleeps ++ (l.backoff ∷ []);
      backoff = min (l.backoff * 2) c.backoff_cap;
    })
slept-IsAlive c l a = record {
  kept = record {
    schemas = a.kept.schemas;
    attempt = a.kept.attempt;
    connection_attempts = a.kept.connection_attempts;
    backoff = omega arith;
    sleeps = All-append (λ n. n ≤ longest c) l.sleeps _ a.kept.sleeps (a.kept.backoff, tt);
  };
  dead = a.dead;
  subscribed = a.subscribed;
}

conclude-IsSound :
    (c : Config) (out : Verdict × Loop)
    → HasTried c out
    → out.1.phase ≡ trying
    → IsSound c (conclude c out)
unfolding conclude go_on
conclude-IsSound c (stop, l) h e = returned-IsSound c _ (phased-IsKept c l returned h.kept) refl
conclude-IsSound c (no_schemas, l) h e = returned-IsSound c _ (phased-IsKept c l returned h) refl
conclude-IsSound c (connected, l) h e =
    if-cases (IsSound c) (ltb l.attempt (max_reconnects c)) l (record l { phase = cooling })
      (λ f. alive-IsSound c l h (λ _. ltb→lt l.attempt (max_reconnects c) f))
      (λ f. alive-IsSound c _ (phased-IsAlive c l cooling h) (λ g. absurd (ground (arith, g))))
conclude-IsSound c (exhausted, l) h e =
    if-cases (IsSound c) (leb (max_reconnects c) l.attempt) (record l { phase = cooling }) _
      (λ f. alive-IsSound c _ (phased-IsAlive c l cooling h) (λ g. absurd (ground (arith, g))))
      (λ f. alive-IsSound c _ (slept-IsAlive c l h) (λ _. ground (arith, f)))

begun-IsAlive :
    (c : Config) (l : Loop)
    → IsSound c l
    → l.phase ≡ trying
    → IsAlive c (record l { attempt = l.attempt + 1; connection_attempts = l.attempt + 1 })
begun-IsAlive c l s e =
    let up : l.phase ≢ returned = λ f. absurd (ground (arith, e, f)) in
    record {
      kept = record {
        schemas = s.schemas;
        attempt = omega (arith, s.going e);
        connection_attempts = omega (arith, s.going e);
        backoff = s.backoff;
        sleeps = s.sleeps;
      };
      dead = s.dead up;
      subscribed = s.subscribed up;
    }

sound-IsKept : (c : Config) (l : Loop) → IsSound c l → IsKept c l
sound-IsKept c l s = record {
  schemas = s.schemas;
  attempt = s.attempt;
  connection_attempts = s.connection_attempts;
  backoff = s.backoff;
  sleeps = s.sleeps;
}

try_all-IsSound :
    (c : Config) (ts : List Try) (l : Loop)
    → IsAlive c l
    → l.phase ≡ trying
    → IsSound c (try_all c ts l)
unfolding try_all
try_all-IsSound c [] l a e =
    returned-IsSound c _
      record {
        schemas = a.kept.schemas;
        attempt = a.kept.attempt;
        connection_attempts = a.kept.connection_attempts;
        backoff = a.kept.backoff;
        sleeps = a.kept.sleeps;
      }
      refl
try_all-IsSound c (t ∷ ts) l a e =
    conclude-IsSound c (try_candidates (t ∷ ts) l) (try_candidates-HasTried c (t ∷ ts) l a)
      (try_candidates-phase (t ∷ ts) l ∙ e)

make_attempt-IsSound :
    (c : Config) (r : Round) (l : Loop)
    → IsSound c l
    → l.phase ≡ trying
    → IsSound c (make_attempt c r l)
unfolding make_attempt
make_attempt-IsSound c r l s e =
    if-cases (IsSound c) r.stopped (record l { phase = returned }) _
      (λ f. returned-IsSound c _ (phased-IsKept c l returned (sound-IsKept c l s)) refl)
      (λ f. try_all-IsSound c r.candidates _ (begun-IsAlive c l s e) e)

cold_restart-IsSound :
    (c : Config) (stopped : Bool) (l : Loop)
    → IsSound c l
    → l.phase ≡ cooling
    → IsSound c (cold_restart stopped l)
unfolding cold_restart
cold_restart-IsSound c true l s e =
    returned-IsSound c _ (phased-IsKept c l returned (sound-IsKept c l s)) refl
cold_restart-IsSound c false l s e = record {
  schemas = s.schemas;
  connection_attempts = omega arith;
  backoff = omega arith;
  sleeps = s.sleeps;
  attempt = omega arith;
  going = λ f. unfold max_reconnects in omega arith;
  dead = λ f. refl;
  subscribed = λ f. s.subscribed (λ g. absurd (ground (arith, e, g)));
}

-- A phase decides what becomes of a loop.
phase-IsSound :
    (c : Config) (p : Phase) (x y z : Loop)
    → (p ≡ trying → IsSound c x)
    → (p ≡ cooling → IsSound c y)
    → (p ≡ returned → IsSound c z)
    → IsSound c (elim p [ trying ↦ x | cooling ↦ y | returned ↦ z ])
phase-IsSound c trying x y z hx hy hz = hx refl
phase-IsSound c cooling x y z hx hy hz = hy refl
phase-IsSound c returned x y z hx hy hz = hz refl

step-IsSound : (c : Config) (a : Act) (l : Loop) → IsSound c l → IsSound c (step c a l)
unfolding step
step-IsSound c (an_attempt r) l s =
    phase-IsSound c l.phase (make_attempt c r l) l l (λ e. make_attempt-IsSound c r l s e) (λ e. s)
      (λ e. s)
step-IsSound c (end_of_cooldown stopped) l s =
    phase-IsSound c l.phase l (cold_restart stopped l) l (λ e. s)
      (λ e. cold_restart-IsSound c stopped l s e) (λ e. s)

run_from-IsSound :
    (c : Config) (acts : List Act) (l : Loop) → IsSound c l → IsSound c (run c acts l)
unfolding run
run_from-IsSound c [] l s = s
run_from-IsSound c (a ∷ acts) l s = run_from-IsSound c acts (step c a l) (step-IsSound c a l s)

start-IsSound : (c : Config) → IsSound c start
unfolding start
start-IsSound c = record {
  schemas = λ p. zero-add (count p default_schemas);
  connection_attempts = omega arith;
  backoff = omega arith;
  sleeps = tt;
  attempt = omega arith;
  going = λ f. unfold max_reconnects in omega arith;
  dead = λ f. refl;
  subscribed = λ f e. ground (arith, e);
}

-- From the start, however attempts and cooldowns go: each schema is subscribed or was dropped, once;
-- the attempts are within the budget, strictly so while the loop of attempts goes on; no sleep
-- between them is longer than the cap or the first one; and a loop that has not returned is not dead
-- and has a schema left.
pub run-start-IsSound : (c : Config) (acts : List Act) → IsSound c (run c acts start)
run-start-IsSound c acts = run_from-IsSound c acts start (start-IsSound c)
