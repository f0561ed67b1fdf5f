-- ===== src/Api/Streaming/Opening.antt =====
-- The first messages of `stream_ws` in
-- archive/python-legacy/backend/app/api/endpoints/stream.py: the frames that a client missed, and
-- the latest snapshot. The peer stays connected and nothing is published meanwhile; what the cache
-- or the database answers is an argument, and the text of a frame is any type.
use ffllowwgreeks.Prelude.{
  ℕ, ◌-◌, ◌≡◌, refl, Bool, Option, none, some, List, [], ◌∷◌, ◌++◌, map, ltb, leb, max, ◌≤◌, ap,
  arith, le→leb, length, drop, if◌then◌else◌, Text, upper,
}
use ffllowwgreeks.Prelude.Dict
use ffllowwgreeks.Broker.Stream.{Stream, subscribe, replay_since, latest_seq}
use ffllowwgreeks.Broker.Stream.Replay.{
  publish_all, replay_since-Logged, publish_all-fresh, publish_all-unheard,
}

pub data Message {ℓ κ} (F : Type ℓ) (P : Type κ) : Type (ℓ ⊔ κ) where
  replayed : F → Message F P
  snapshot : Option ℕ → P → Message F P
  -- Code 503: the snapshot could not be built.
  unavailable : Message F P

abbrev pub known_seq : ℕ → Option ℕ
known_seq seq = if ltb 0 seq then some seq else none

-- Whether the buffer reaches back to the number that the client knows.
abbrev pub covers : ℕ → ℕ → ℕ → Bool
covers maxlen latest since = leb (max 0 (latest - maxlen)) since

module _ {ℓ κ} {F : Type ℓ} {P : Type κ} where
  -- The latest snapshot, or none where reading or building it failed.
  unfoldable pub prime : Option P → ℕ → Message F P
  prime none seq = unavailable
  prime (some payload) seq = snapshot (known_seq seq) payload

  unfoldable pub open_stream : Text → Option ℕ → Option P → Stream F → List (Message F P)
  unfolding prime
  open_stream symbol none answer n = prime answer (latest_seq symbol n) ∷ []
  open_stream symbol (some since) answer n =
      let (frames, latest) = replay_since symbol since n in
      let skip_cache_prime = covers n.frame_buffer_maxlen latest since in
      map replayed frames
      ++ (if skip_cache_prime then [] else prime answer (latest_seq symbol n) ∷ [])

  -- For a symbol with a subscriber and no frame so far: after the frames `fs` are published, a
  -- client that knows number `since` is sent the frames after it, as far back as the buffer goes,
  -- in order, and the snapshot exactly if it missed some that the buffer has lost.
  pub open_stream-publish_all :
      (symbol : Text) (since q : ℕ) (qs : List ℕ) (fs : List F) (answer : Option P) (n : Stream F)
      → Dict.get n.subscribers (upper symbol) ≡ some (q ∷ qs)
      → Dict.get n.frame_seq (upper symbol) ≡ none
      → Dict.get n.frame_buffer (upper symbol) ≡ none
      → let lost = length fs - n.frame_buffer_maxlen in
        open_stream symbol (some since) answer (publish_all symbol fs n)
        ≡ map replayed (drop (max since lost) fs)
          ++ (if ltb since lost then prime answer (length fs) ∷ [] else [])
  unfolding open_stream latest_seq
  open_stream-publish_all symbol since q qs fs answer n subscribed fresh bare =
      let h = publish_all-fresh symbol q qs fs n subscribed fresh bare in
      let m = n.frame_buffer_maxlen in
      rw (replay_since-Logged m symbol since fs (publish_all symbol fs n) h, h.capped, h.counted)
        (ap (λ t. map replayed (drop (max since (length fs - m)) fs) ++ t) (primed (length fs) m))
    where
      primed :
          (latest m : ℕ)
          → (if covers m latest since then [] else prime answer latest ∷ [])
            ≡ (if ltb since (latest - m) then prime answer latest ∷ [] else [])
      primed latest m = ground arith

  -- A client that has all that the symbol's buffer holds and knows a number at least that of its
  -- counter is sent nothing when it comes back, neither frames nor the snapshot, though any frames
  -- were published while nobody was subscribed to the symbol.
  pub open_stream-unheard :
      (symbol : Text) (since : ℕ) (fs : List F) (answer : Option P) (n : Stream F)
      → Dict.get n.subscribers (upper symbol) ≡ none
      → (replay_since symbol since n).0 ≡ []
      → latest_seq symbol n ≤ since
      → open_stream symbol (some since) answer (subscribe symbol (publish_all symbol fs n)).1 ≡ []
  unfolding open_stream latest_seq replay_since subscribe
  open_stream-unheard symbol since fs answer n alone nothing up_to_date =
      rw
        (
          publish_all-unheard symbol fs n alone,
          nothing,
          le→leb (max 0 (latest_seq symbol n - n.frame_buffer_maxlen)) since (omega arith),
        )
        refl
