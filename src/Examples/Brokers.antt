-- ===== src/Examples/Brokers.antt =====
-- A stream and a tape with a subscriber each, in stream_notifier.py and tick_notifier.py.
use ffllowwgreeks.Prelude.{
  ℕ, ◌≡◌, refl, true, none, some, map, ltb, arith, List, [], ◌∷◌, ◌++◌, ◌-◌, Text, codes, same,
  length, drop, max, upper, if◌then◌else◌,
}
use ffllowwgreeks.Prelude.Dict
use ffllowwgreeks.Broker.Queue.{offered, last_of}
use ffllowwgreeks.Broker.Registry
use ffllowwgreeks.Broker.Registry.{Registry, elem}
use ffllowwgreeks.Broker.Registry.Invariant
use ffllowwgreeks.Broker.Registry.Invariant.{register-IsValid, create-IsValid}
use ffllowwgreeks.Broker.Stream
use ffllowwgreeks.Broker.Stream.{
  Stream, publish, numbering, replay_since, latest_seq, next_seq, subscribe, unsubscribe,
}
use ffllowwgreeks.Broker.Stream.Delivery.{bucket_of, publish_reaches}
use ffllowwgreeks.Broker.Stream.Replay as Log
use ffllowwgreeks.Broker.Stream.Replay.{replay_since-publish_all, publish-next_seq}
use ffllowwgreeks.Broker.Stream.Invariant as History
use ffllowwgreeks.Broker.Stream.Invariant.{Call, subscribes, publishes, run, run-create-IsValid}
use ffllowwgreeks.Api.Streaming.Opening.{
  replayed, prime, open_stream, open_stream-publish_all, open_stream-unheard,
}
use ffllowwgreeks.Broker.Tick.Tape as Tape
use ffllowwgreeks.Broker.Tick.Tape.{publish_all_tape, repeated}

abbrev es : Text
es = codes "es"

abbrev nq : Text
nq = codes "NQ"

-- One subscriber of "ES", queues of two frames and a replay buffer of two.
abbrev listening : Stream ℕ
listening = (subscribe es (Stream.create 2 2)).1

abbrev frames : List ℕ
frames = 7 ∷ 8 ∷ 9 ∷ []

listening-IsValid : Invariant.IsValid listening.registry
unfolding subscribe Stream.create
listening-IsValid = register-IsValid es (Registry.create 2) (create-IsValid 2)

publish_reaches_example :
    ((p : ℕ)
      → (publish es 7 none listening).0.queues p ≡ (
          if elem p (bucket_of es listening)
          then offered listening.queue_maxsize (listening.queues p) 7
          else listening.queues p))
    × ((publish es 7 none listening).1 ≡ length (bucket_of es listening))
    × ((publish es 7 none listening).0.subscribers ≡ listening.subscribers)
publish_reaches_example = publish_reaches 7 none listening listening-IsValid es

replay_since-publish_all_example :
    replay_since es 1 (Log.publish_all es frames listening)
    ≡ (drop (max 1 (length frames - 2)) frames, length frames)
unfolding subscribe Stream.create Registry.create Registry.register upper Dict.put Dict.get
    Dict.empty same
replay_since-publish_all_example =
    replay_since-publish_all es 1 0 [] frames listening refl refl refl

-- The client knows nothing, and the buffer has lost the first of three frames.
open_stream-publish_all_example :
    open_stream es (some 0) (some true) (Log.publish_all es frames listening)
    ≡ map replayed (drop (max 0 (length frames - 2)) frames)
      ++ (if ltb 0 (length frames - 2) then prime (some true) (length frames) ∷ [] else [])
unfolding subscribe Stream.create Registry.create Registry.register upper Dict.put Dict.get
    Dict.empty same
open_stream-publish_all_example =
    open_stream-publish_all es 0 0 [] frames (some true) listening refl refl refl

-- The only client knew the one frame when it left.
abbrev left : Stream ℕ
left = unsubscribe es 0 (publish es 6 none listening).0

open_stream-unheard_example :
    open_stream es (some 1) (some true) (subscribe es (Log.publish_all es frames left)).1 ≡ []
unfolding subscribe Stream.create Registry.create Registry.register upper Dict.put Dict.get
    Dict.empty Dict.remove same publish unsubscribe Registry.detach replay_since latest_seq
open_stream-unheard_example =
    open_stream-unheard es 1 frames (some true) left refl refl (omega arith)

publish-next_seq_example :
    let (seq, reserved) = next_seq es listening in
    let two = publish es 7 (some seq) reserved in
    let one = publish es 7 none listening in
    (two.0.registry ≡ one.0.registry)
    × (two.1 ≡ one.1)
    × (replay_since nq 0 two.0 ≡ replay_since nq 0 one.0)
unfolding subscribe Stream.create Registry.create Registry.register upper Dict.put Dict.get
    Dict.empty same
publish-next_seq_example = publish-next_seq es nq 0 0 [] 7 listening refl

run-create-IsValid_example :
    History.IsValid (run (Stream.create {F = ℕ} 2 2) (subscribes es ∷ publishes es 7 none ∷ []))
run-create-IsValid_example = run-create-IsValid 2 2 (subscribes es ∷ publishes es 7 none ∷ [])

publish_all_tape_example :
    ((Tape.publish_all es frames listening.registry).0.queues 0
      ≡ last_of 2 (listening.queues 0 ++ frames))
    × ((Tape.publish_all es frames listening.registry).1 ≡ repeated frames 1)
unfolding subscribe Stream.create Registry.create Registry.register upper Dict.put Dict.get
    Dict.empty same
publish_all_tape_example =
    publish_all_tape es 1 0 (0 ∷ []) frames listening.registry listening-IsValid refl refl refl

-- A number can be reserved with no frame published: `latest_seq` and the number of a replay then
-- run ahead of the frames.
reserved_only : replay_since es 0 (next_seq es (Stream.create {F = ℕ} 2 2)).1 ≡ ([], 1)
unfolding replay_since next_seq Stream.create Registry.create upper Dict.put Dict.get Dict.empty
    same
reserved_only = refl
