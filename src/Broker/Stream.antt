-- ===== src/Broker/Stream.antt =====
-- StreamNotifier of archive/python-legacy/backend/app/api/stream_notifier.py: snapshot frames are
-- numbered per symbol, kept in a replay buffer and fanned out. The locks guard sections that never
-- suspend, so each method is one step.
pub mod Delivery
pub mod Replay
pub mod Invariant
use ffllowwgreeks.Prelude.{
  ℕ, suc, ◌+◌, ◌≤◌, ◌<◌, ◌≡◌, Bool, true, false, Option, none, some, List, [], ◌∷◌, ltb, max,
  if◌then◌else◌, Text, upper,
}
use ffllowwgreeks.Prelude.Dict
use ffllowwgreeks.Prelude.Dict.{Dict}
use ffllowwgreeks.Broker.Queue.{append_bounded}
use ffllowwgreeks.Broker.Registry
use ffllowwgreeks.Broker.Registry.{Registry, deliver}

abbrev pub default_queue_maxsize : ℕ
default_queue_maxsize = 32

pub record Stream {ℓ} (F : Type ℓ) : Type ℓ where
  pub registry : Registry F
  pub open registry use *
  pub frame_buffer_maxlen : ℕ
  -- `_frame_seq_per_symbol`
  pub frame_seq : Dict ℕ
  -- `_frame_buffer`
  pub frame_buffer : Dict (List (ℕ × F))

-- The number under which a frame is filed, and the counter after it.
unfoldable pub numbering : ℕ → Option ℕ → ℕ × ℕ
numbering latest none = (latest + 1, latest + 1)
numbering latest (some seq) = (seq, max latest seq)

module _ {ℓ} {F : Type ℓ} where
  unfoldable pub create : ℕ → ℕ → Stream F
  unfolding Registry.create
  create queue_maxsize frame_buffer_maxlen = record {
    registry = Registry.create queue_maxsize;
    frame_buffer_maxlen = frame_buffer_maxlen;
    frame_seq = Dict.empty;
    frame_buffer = Dict.empty;
  }

  unfoldable pub subscribe : Text → Stream F → ℕ × Stream F
  subscribe symbol n =
      let (queue, r) = Registry.register symbol n.registry in (queue, record n { registry = r })

  unfoldable pub unsubscribe : Text → ℕ → Stream F → Stream F
  unsubscribe symbol queue n = record n { registry = Registry.detach symbol queue n.registry }

  unfoldable pub subscriber_count : Option Text → Stream F → ℕ
  subscriber_count symbol n = Registry.count_of symbol n.registry

  unfoldable pub latest_seq : Text → Stream F → ℕ
  latest_seq symbol n = Dict.get_default n.frame_seq (upper symbol) 0

  unfoldable pub next_seq : Text → Stream F → ℕ × Stream F
  next_seq symbol n =
      let sym = upper symbol in
      let seq = Dict.get_default n.frame_seq sym 0 + 1 in
      (seq, record n { frame_seq = Dict.put n.frame_seq sym seq })

  unfoldable pub file_frame : Text → F → Option ℕ → Stream F → Stream F
  unfolding numbering append_bounded
  file_frame sym frame seq n =
      let (filed, latest) = numbering (Dict.get_default n.frame_seq sym 0) seq in
      record n {
        frame_seq = Dict.put n.frame_seq sym latest;
        frame_buffer = Dict.put n.frame_buffer sym (
            append_bounded n.frame_buffer_maxlen (Dict.get_default n.frame_buffer sym [])
              (filed, frame));
      }

  unfoldable pub fan_out : F → List ℕ → Stream F → Stream F × ℕ
  fan_out frame bucket n =
      let (queues, delivered) = deliver n.queue_maxsize frame bucket n.queues in
      (record n { registry = record n.registry { queues = queues } }, delivered)

  unfoldable pub publish_to : Text → F → Option ℕ → Option (List ℕ) → Stream F → Stream F × ℕ
  unfolding file_frame fan_out
  publish_to sym frame seq none n = (n, 0)
  publish_to sym frame seq (some []) n = (n, 0)
  publish_to sym frame seq (some (q ∷ qs)) n = fan_out frame (q ∷ qs) (file_frame sym frame seq n)

  unfoldable pub publish : Text → F → Option ℕ → Stream F → Stream F × ℕ
  unfolding publish_to
  publish symbol frame seq n =
      let sym = upper symbol in publish_to sym frame seq (Dict.get n.subscribers sym) n

  abbrev pub frames_since : ℕ → List (ℕ × F) → List F
  frames_since since [] = []
  frames_since since ((seq, frame) ∷ rest) =
      if ltb since seq then frame ∷ frames_since since rest else frames_since since rest

  unfoldable pub replay_since : Text → ℕ → Stream F → List F × ℕ
  replay_since symbol since n =
      let sym = upper symbol in
      (
        frames_since since (Dict.get_default n.frame_buffer sym []),
        Dict.get_default n.frame_seq sym 0,
      )

  unfoldable pub reset_replay_state : Stream F → Stream F
  reset_replay_state n = record n { frame_seq = Dict.empty; frame_buffer = Dict.empty }

  -- The consumer takes the oldest frame off its queue.
  unfoldable pub receive : ℕ → Stream F → Option F × Stream F
  receive q n = let (frame, r) = Registry.receive q n.registry in (frame, record n { registry = r })
