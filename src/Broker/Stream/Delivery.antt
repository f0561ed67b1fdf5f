-- ===== src/Broker/Stream/Delivery.antt =====
-- What StreamNotifier.publish does to the queues of stream_notifier.py.
use ffllowwgreeks.Prelude.{
  ℕ, ◌≡◌, refl, Option, none, some, List, [], ◌∷◌, if◌then◌else◌, Text, length, upper,
}
use ffllowwgreeks.Prelude.Dict
use ffllowwgreeks.Broker.Queue.{offered}
use ffllowwgreeks.Broker.Registry.{elem, deliver_lem, Distinct}
use ffllowwgreeks.Broker.Registry.Invariant.{IsValid}
use ffllowwgreeks.Broker.Stream.{Stream, publish, publish_to}

abbrev pub bucket_of {ℓ} : {F : Type ℓ} → Text → Stream F → List ℕ
bucket_of symbol n = Dict.get_default n.subscribers (upper symbol) []

module _ {ℓ} {F : Type ℓ} (frame : F) (seq : Option ℕ) (n : Stream F) (v : IsValid n.registry) where
  abbrev Reached : List ℕ → Stream F × ℕ → Type ℓ
  Reached b r =
      ((p : ℕ)
        → r.0.queues p
          ≡ (if elem p b then offered n.queue_maxsize (n.queues p) frame else n.queues p))
      × (r.1 ≡ length b)
      × (r.0.subscribers ≡ n.subscribers)

  publish_to_reaches :
      (sym : Text) (o : Option (List ℕ))
      → Dict.get n.subscribers sym ≡ o
      → Reached (elim o [ none ↦ [] | some b ↦ b ]) (publish_to sym frame seq o n)
  unfolding publish_to
  publish_to_reaches sym none e = ((λ p. refl), refl, refl)
  publish_to_reaches sym (some []) e = ((λ p. refl), refl, refl)
  publish_to_reaches sym (some (q ∷ qs)) e =
      let d : Distinct (q ∷ qs) = (v.buckets sym (q ∷ qs) e).distinct in
      let at = deliver_lem n.queue_maxsize frame (q ∷ qs) n.queues d v.fits in (at.0, at.1, refl)

  -- In a valid notifier every subscriber of the symbol, and no other queue, takes the frame (a full
  -- queue gives up its oldest one); the result counts the subscribers, whose table is unchanged.
  pub publish_reaches : (symbol : Text) → Reached (bucket_of symbol n) (publish symbol frame seq n)
  unfolding publish
  publish_reaches symbol =
      publish_to_reaches (upper symbol) (Dict.get n.subscribers (upper symbol)) refl
