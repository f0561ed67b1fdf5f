-- ===== src/Broker/Tick.antt =====
-- TickNotifier of archive/python-legacy/backend/app/api/tick_notifier.py: futures prices fanned out
-- from the ingester's hot path, with no numbering and no replay.
pub mod Tape
use ffllowwgreeks.Prelude.{ℕ, Option, none, some, List, [], ◌∷◌, Text, upper}
use ffllowwgreeks.Prelude.Dict
use ffllowwgreeks.Broker.Registry
use ffllowwgreeks.Broker.Registry.{Registry, deliver}

abbrev pub default_queue_maxsize : ℕ
default_queue_maxsize = 500

module _ {ℓ} {F : Type ℓ} where
  unfoldable pub create : ℕ → Registry F
  unfolding Registry.create
  create queue_maxsize = Registry.create queue_maxsize

  unfoldable pub subscribe : Text → Registry F → ℕ × Registry F
  unfolding Registry.register
  subscribe symbol n = Registry.register symbol n

  unfoldable pub unsubscribe : Text → ℕ → Registry F → Registry F
  unfolding Registry.detach
  unsubscribe symbol queue n = Registry.detach symbol queue n

  unfoldable pub subscriber_count : Option Text → Registry F → ℕ
  unfolding Registry.count_of
  subscriber_count symbol n = Registry.count_of symbol n

  unfoldable pub publish_to : F → Option (List ℕ) → Registry F → Registry F × ℕ
  publish_to payload none n = (n, 0)
  publish_to payload (some []) n = (n, 0)
  publish_to payload (some (q ∷ qs)) n =
      let (queues, delivered) = deliver n.queue_maxsize payload (q ∷ qs) n.queues in
      (record n { queues = queues }, delivered)

  unfoldable pub publish : Text → F → Registry F → Registry F × ℕ
  unfolding publish_to
  publish symbol payload n = publish_to payload (Dict.get n.subscribers (upper symbol)) n
