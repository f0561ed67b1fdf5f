-- ===== src/Api/Streaming/Watcher.antt =====
-- The revocation watcher of archive/python-legacy/backend/app/api/endpoints/stream.py: who is
-- signalled by its rounds.
use ffllowwgreeks.Prelude.{
  ℕ, ◌≡◌, ◌≢◌, inl, inr, refl, ap, ◌∙◌, Bool, true, ◌||◌, List, [], ◌∷◌, ◌++◌, if◌then◌else◌, Text,
  same, same_iff, arith, Bool-cases, Option-cases,
}
use ffllowwgreeks.Prelude.Dict
use ffllowwgreeks.Prelude.Dict.{Dict}
use ffllowwgreeks.Api.ApiKeys.{ApiKey}
use ffllowwgreeks.Api.Streaming.{
  check_key_revoked, row_revoked, get_row, check_key_revoked, row_revoked, get_row, Watch, elem,
  discard, set_all, watch_keys, watcher_round, register_revocation_subscriber,
  deregister_revocation_subscriber, check_key_revoked, row_revoked, get_row, drop_empty,
}

abbrev pub events_of : Text → Watch → List ℕ
events_of i w = Dict.get_default w.subscribers i []

set_all-signalled :
    (e : ℕ) (es : List ℕ) (w : Watch)
    → elem e (set_all es w).signalled ≡ (elem e es || elem e w.signalled)
set_all-signalled e [] w = refl
set_all-signalled e (f ∷ es) w =
    ground (arith, set_all-signalled e es (record w { signalled = f ∷ w.signalled }))

set_all-subscribers : (es : List ℕ) (w : Watch) → (set_all es w).subscribers ≡ w.subscribers
set_all-subscribers [] w = refl
set_all-subscribers (f ∷ es) w = set_all-subscribers es (record w { signalled = f ∷ w.signalled })

module _ (revoked : Text → Bool) where
  abbrev signal : Text → Watch → Watch
  signal i w = if revoked i then set_all (events_of i w) w else w

  signal-subscribers : (i : Text) (w : Watch) → (signal i w).subscribers ≡ w.subscribers
  signal-subscribers i w = ground (arith, set_all-subscribers (events_of i w) w)

  watch_keys-subscribers :
      (is : List Text) (w : Watch) → (watch_keys revoked is w).subscribers ≡ w.subscribers
  unfolding watch_keys
  watch_keys-subscribers [] w = refl
  watch_keys-subscribers (i ∷ is) w =
      watch_keys-subscribers is (signal i w) ∙ signal-subscribers i w

  signal-keeps :
      (e : ℕ) (i : Text) (w : Watch)
      → elem e w.signalled ≡ true
      → elem e (signal i w).signalled ≡ true
  signal-keeps e i w h = ground (arith, set_all-signalled e (events_of i w) w)

  watch_keys-keeps :
      (e : ℕ) (is : List Text) (w : Watch)
      → elem e w.signalled ≡ true
      → elem e (watch_keys revoked is w).signalled ≡ true
  unfolding watch_keys
  watch_keys-keeps e [] w h = h
  watch_keys-keeps e (i ∷ is) w h = watch_keys-keeps e is (signal i w) (signal-keeps e i w h)

  -- A round that comes to a revoked key signals those who wait for it.
  watch_keys-signalled :
      (e : ℕ) (i : Text) (before after : List Text) (w : Watch)
      → revoked i ≡ true
      → elem e (events_of i w) ≡ true
      → elem e (watch_keys revoked (before ++ (i ∷ after)) w).signalled ≡ true
  unfolding watch_keys
  watch_keys-signalled e i [] after w r h =
      watch_keys-keeps e after (signal i w)
        (ground (arith, r, h, set_all-signalled e (events_of i w) w))
  watch_keys-signalled e i (j ∷ before) after w r h =
      watch_keys-signalled e i before after (signal j w) r
        (ap (λ d. elem e (Dict.get_default d i [])) (signal-subscribers j w) ∙ h)

  watcher_round-signalled :
      (e : ℕ) (i : Text) (w : Watch)
      → revoked i ≡ true
      → elem e (events_of i w) ≡ true
      → elem e (watcher_round revoked w).signalled ≡ true
  unfolding watcher_round
  watcher_round-signalled e i w r h = elim (Option-cases (Dict.get w.subscribers i)) [
    | inl gone ↦ absurd (ground (arith, gone, h))
    | inr (es, found) ↦
        let split = Dict.keys-split w.subscribers i es found in
        ap (λ is. elem e (watch_keys revoked is w).signalled) split.1.1
        ∙ watch_keys-signalled e i split.0 split.1.0 w r h
  ]

-- What happens between rounds, and the rounds.
pub data Act : Type 0 where
  register : Text → Act
  deregister : Text → ℕ → Act
  round : (Text → Bool) → Act

step : Act → Watch → Watch
step (register i) w = (register_revocation_subscriber i w).1
step (deregister i e) w = deregister_revocation_subscriber i e w
step (round revoked) w = watcher_round revoked w

unfoldable pub run : List Act → Watch → Watch
unfolding step
run [] w = w
run (a ∷ acts) w = run acts (step a w)

-- The connection has not ended: its event is not taken back.
abbrev pub Waits : ℕ → List Act → Type 0
Waits e [] = Unit
Waits e (register i ∷ acts) = Waits e acts
Waits e (deregister i f ∷ acts) = (e ≢ f) × Waits e acts
Waits e (round revoked ∷ acts) = Waits e acts

elem-discard : (e f : ℕ) (es : List ℕ) → e ≢ f → elem e es ≡ true → elem e (discard f es) ≡ true
elem-discard e f [] ne h = h
elem-discard e f (g ∷ es) ne h = ground (arith, elem-discard e f es ne)

drop_empty-events :
    (e : ℕ) (i j : Text) (es : List ℕ) (w : Watch)
    → elem e (if same j i then es else events_of i w) ≡ true
    → elem e (events_of i (drop_empty j es w)) ≡ true
drop_empty-events e i j [] w h = ground (arith, Dict.get-remove w.subscribers j i)
drop_empty-events e i j (f ∷ es) w h = ground (arith, Dict.get-put w.subscribers j i (f ∷ es))

deregister-events :
    (e f : ℕ) (i j : Text) (w : Watch)
    → e ≢ f
    → elem e (events_of i w) ≡ true
    → elem e (events_of i (deregister_revocation_subscriber j f w)) ≡ true
unfolding deregister_revocation_subscriber
deregister-events e f i j w ne h = elim (Option-cases (Dict.get w.subscribers j)) [
  | inl gone ↦ rw (gone, deregister_revocation_subscriber) h
  | inr (es, found) ↦
      rw (found, deregister_revocation_subscriber)
        (drop_empty-events e i j (discard f es) w (elim (Bool-cases (same j i)) [
          | inl same_key ↦ ground (arith, same_key, found, same_iff j i, h, elem-discard e f es ne)
          | inr other ↦ rw (other) h
        ]))
]

register-events :
    (e : ℕ) (i j : Text) (w : Watch)
    → elem e (events_of i w) ≡ true
    → elem e (events_of i (register_revocation_subscriber j w).1) ≡ true
unfolding register_revocation_subscriber
register-events e i j w h =
    ground (arith, Dict.get-put w.subscribers j i (w.next_event ∷ events_of j w), same_iff j i)

step-events :
    (e : ℕ) (i : Text) (a : Act) (w : Watch)
    → Waits e (a ∷ [])
    → elem e (events_of i w) ≡ true
    → elem e (events_of i (step a w)) ≡ true
unfolding step watcher_round
step-events e i (register j) w waits h = register-events e i j w h
step-events e i (deregister j f) w waits h = deregister-events e f i j w waits.0 h
step-events e i (round revoked) w waits h =
    ap (λ d. elem e (Dict.get_default d i []))
      (watch_keys-subscribers revoked (Dict.keys w.subscribers) w)
    ∙ h

run-events :
    (e : ℕ) (i : Text) (acts : List Act) (w : Watch)
    → Waits e acts
    → elem e (events_of i w) ≡ true
    → elem e (events_of i (run acts w)) ≡ true
unfolding run
run-events e i [] w waits h = h
run-events e i (register j ∷ acts) w waits h =
    run-events e i acts (step (register j) w) waits (step-events e i (register j) w tt h)
run-events e i (deregister j f ∷ acts) w waits h =
    run-events e i acts (step (deregister j f) w) waits.1
      (step-events e i (deregister j f) w (waits.0, tt) h)
run-events e i (round revoked ∷ acts) w waits h =
    run-events e i acts (step (round revoked) w) waits (step-events e i (round revoked) w tt h)

register-own :
    (i : Text) (w : Watch)
    → elem
        (register_revocation_subscriber i w).0
        (events_of i (register_revocation_subscriber i w).1)
      ≡ true
unfolding register_revocation_subscriber
register-own i w = ground (arith, Dict.get-put_self w.subscribers i (w.next_event ∷ events_of i w))

-- A connection that registers for a key and has not ended is signalled by the next round that
-- reads the key as missing, inactive, deleted or expired, whatever other connections did and
-- whatever rounds went before.
pub watcher_round-run :
    (i : Text) (w : Watch) (acts : List Act) (now : ℕ) (rows : List ApiKey)
    → Waits (register_revocation_subscriber i w).0 acts
    → row_revoked now (get_row i rows) ≡ true
    → elem
        (register_revocation_subscriber i w).0
        (watcher_round
          (check_key_revoked true now rows)
          (run acts (register_revocation_subscriber i w).1)).signalled
      ≡ true
unfolding check_key_revoked
watcher_round-run i w acts now rows waits gone =
    let mine = register_revocation_subscriber i w in
    watcher_round-signalled (check_key_revoked true now rows) mine.0 i (run acts mine.1) gone
      (run-events mine.0 i acts mine.1 waits (register-own i w))
