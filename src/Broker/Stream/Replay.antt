-- ===== src/Broker/Stream/Replay.antt =====
-- What a client that reconnects gets from the replay buffer of stream_notifier.py.
use ffllowwgreeks.Prelude.{
  ℕ, zero, suc, ◌+◌, ◌-◌, ◌≤◌, ◌≡◌, refl, ap, sym, ◌∙◌, Option, none, some, List, [], ◌∷◌, ◌++◌,
  arith, ltb, max, Text, length, drop, drop-drop, drop-nil, length-append, upper, Bool-cases, leb,
  leb→le, inl, inr, true, false,
}
use mathlib.Core.List.{append-nil, append_assoc}
use mathlib.Core.Path.{subst}
use native.Mathlib.Nat.{add_comm}
use native.Mathlib.Numerals.{add-one}
use ffllowwgreeks.Prelude.Dict
use ffllowwgreeks.Prelude.Dict.{get_default-put_self, get-put}
use ffllowwgreeks.Broker.Queue.{last_of, last_of-append}
use ffllowwgreeks.Broker.Stream.{Stream, publish, publish_to, frames_since, replay_since, next_seq}

-- Storing a counter a second time, by the rule for a number that was reserved, changes nothing.
put_again :
    (d : Dict.Dict ℕ) (k j : Text) (c : ℕ)
    → let once = Dict.put d k c in
      Dict.get_default (Dict.put once k (max (Dict.get_default once k 0) c)) j 0
      ≡ Dict.get_default once j 0
put_again d k j c =
    rw (get_default-put_self d k c 0)
      (ground (arith, get-put (Dict.put d k c) k j (max c c), get-put d k j c))

module _ {ℓ} {F : Type ℓ} where
  -- A log of frames with the numbers that `publish` gives them.
  abbrev number : ℕ → List F → List (ℕ × F)
  number k [] = []
  number k (f ∷ fs) = (k, f) ∷ number (suc k) fs

  number-append :
      (k : ℕ) (fs : List F) (x : F)
      → number k (fs ++ x ∷ []) ≡ number k fs ++ (k + length fs, x) ∷ []
  number-append k [] x = ap (λ i. (i, x) ∷ []) (omega arith)
  number-append k (f ∷ fs) x =
      ap (λ r. (k, f) ∷ r)
        (number-append (suc k) fs x ∙ ap (λ i. number (suc k) fs ++ (i, x) ∷ []) (omega arith))

  length-number : (k : ℕ) (fs : List F) → length (number k fs) ≡ length fs
  length-number k [] = refl
  length-number k (f ∷ fs) = ap suc (length-number (suc k) fs)

  drop-number : (a k : ℕ) (fs : List F) → drop a (number k fs) ≡ number (k + a) (drop a fs)
  drop-number zero k fs = ap (λ i. number i fs) (omega arith)
  drop-number (suc a) k [] = refl
  drop-number (suc a) k (f ∷ fs) =
      drop-number a (suc k) fs ∙ ap (λ i. number i (drop a fs)) (omega arith)

  frames_since_all :
      (since k : ℕ) (fs : List F) → since ≤ k → frames_since since (number (suc k) fs) ≡ fs
  frames_since_all since k [] h = refl
  frames_since_all since k (f ∷ fs) h = ground (arith, frames_since_all since (suc k) fs)

  frames_since-number :
      (since k : ℕ) (fs : List F) → frames_since since (number (suc k) fs) ≡ drop (since - k) fs
  frames_since-number since k [] = sym (drop-nil (since - k))
  frames_since-number since k (f ∷ fs) = elim (Bool-cases (leb since k)) [
    | inl seen_all ↦
        frames_since_all since k (f ∷ fs) (leb→le _ _ seen_all)
        ∙ ap (λ i. drop i (f ∷ fs)) (zeroth seen_all)
    | inr behind ↦
        let e : since - k ≡ suc (since - suc k) = ground arith in
        let later : ltb since (suc k) ≡ false = ground arith in
        rw (later, e) (frames_since-number since (suc k) fs)
  ]
    where
      zeroth : leb since k ≡ true → 0 ≡ since - k
      zeroth h = ground arith

  -- The symbol has subscribers, and its counter and its buffer hold what a log of frames leaves.
  pub record Logged (m : ℕ) (symbol : Text) (log : List F) (n : Stream F) : Type ℓ where
    pub capped : n.frame_buffer_maxlen ≡ m
    subscribed : (q : ℕ) × (qs : List ℕ) × (Dict.get n.subscribers (upper symbol) ≡ some (q ∷ qs))
    pub counted : Dict.get_default n.frame_seq (upper symbol) 0 ≡ length log
    buffered : Dict.get_default n.frame_buffer (upper symbol) [] ≡ last_of m (number 1 log)

  publish_to-Logged :
      (m : ℕ) (symbol : Text) (log : List F) (n : Stream F) (x : F) (o : Option (List ℕ))
      → Dict.get n.subscribers (upper symbol) ≡ o
      → Logged m symbol log n
      → Logged m symbol (log ++ x ∷ []) (publish_to (upper symbol) x none o n).0
  unfolding publish_to
  publish_to-Logged m symbol log n x none e h = let (q, qs, s) = h.subscribed in cc
  publish_to-Logged m symbol log n x (some []) e h = let (q, qs, s) = h.subscribed in cc
  publish_to-Logged m symbol log n x (some (q ∷ qs)) e h = record {
    capped = h.capped;
    subscribed = (q, qs, e);
    counted =
        rw (get_default-put_self n.frame_seq (upper symbol))
          (omega (arith, h.counted, length-append log (x ∷ [])));
    buffered = rw (get_default-put_self n.frame_buffer (upper symbol)) (
        rw (h.capped, h.buffered, h.counted, number-append 1 log x, add_comm (length log) 1)
          (last_of-append m (number 1 log) (1 + length log, x)));
  }

  -- `publish` of each frame in turn, which numbers them itself.
  pub publish_all : Text → List F → Stream F → Stream F
  publish_all symbol [] n = n
  publish_all symbol (f ∷ fs) n = publish_all symbol fs (publish symbol f none n).0

  publish_all-Logged :
      (m : ℕ) (symbol : Text) (log fs : List F) (n : Stream F)
      → Logged m symbol log n
      → Logged m symbol (log ++ fs) (publish_all symbol fs n)
  unfolding publish_all publish
  publish_all-Logged m symbol log [] n h = rw (append-nil log) h
  publish_all-Logged m symbol log (f ∷ fs) n h =
      subst (λ l. Logged m symbol l (publish_all symbol (f ∷ fs) n)) (append_assoc log (f ∷ []) fs)
        (publish_all-Logged m symbol (log ++ f ∷ []) fs (publish symbol f none n).0
          (publish_to-Logged m symbol log n f (Dict.get n.subscribers (upper symbol)) refl h))

  frames_since-last_of :
      (m since : ℕ) (log : List F)
      → frames_since since (last_of m (number 1 log)) ≡ drop (max since (length log - m)) log
  frames_since-last_of m since log =
      let a = length log - m in
      rw (length-number 1 log, drop-number a 1 log, add_comm 1 a, add-one)
        (frames_since-number since a (drop a log)
          ∙ drop-drop (since - a) a log
          ∙ ap (λ i. drop i log) (omega arith))

  pub replay_since-Logged :
      (m : ℕ) (symbol : Text) (since : ℕ) (log : List F) (n : Stream F)
      → Logged m symbol log n
      → replay_since symbol since n ≡ (drop (max since (length log - m)) log, length log)
  unfolding replay_since
  replay_since-Logged m symbol since log n h =
      rw (h.counted, h.buffered) (ap (λ l. (l, length log)) (frames_since-last_of m since log))

  pub publish_all-fresh :
      (symbol : Text) (q : ℕ) (qs : List ℕ) (fs : List F) (n : Stream F)
      → Dict.get n.subscribers (upper symbol) ≡ some (q ∷ qs)
      → Dict.get n.frame_seq (upper symbol) ≡ none
      → Dict.get n.frame_buffer (upper symbol) ≡ none
      → Logged n.frame_buffer_maxlen symbol fs (publish_all symbol fs n)
  publish_all-fresh symbol q qs fs n subscribed fresh bare =
      publish_all-Logged n.frame_buffer_maxlen symbol [] fs n record {
        capped = refl;
        subscribed = (q, qs, subscribed);
        counted = rw (fresh, Dict.get_default);
        buffered = rw (bare, Dict.get_default) (sym (drop-nil (0 - n.frame_buffer_maxlen)));
      }

  -- For a symbol with a subscriber and no frame so far: after the frames `fs` are published, a
  -- client that knows number `since` gets the frames after it, as far back as the buffer goes, in
  -- order, each once, and the number of the last one.
  pub replay_since-publish_all :
      (symbol : Text) (since q : ℕ) (qs : List ℕ) (fs : List F) (n : Stream F)
      → Dict.get n.subscribers (upper symbol) ≡ some (q ∷ qs)
      → Dict.get n.frame_seq (upper symbol) ≡ none
      → Dict.get n.frame_buffer (upper symbol) ≡ none
      → replay_since symbol since (publish_all symbol fs n)
        ≡ (drop (max since (length fs - n.frame_buffer_maxlen)) fs, length fs)
  replay_since-publish_all symbol since q qs fs n subscribed fresh bare =
      replay_since-Logged n.frame_buffer_maxlen symbol since fs (publish_all symbol fs n)
        (publish_all-fresh symbol q qs fs n subscribed fresh bare)

  pub publish_all-unheard :
      (symbol : Text) (fs : List F) (n : Stream F)
      → Dict.get n.subscribers (upper symbol) ≡ none
      → publish_all symbol fs n ≡ n
  unfolding publish_all publish publish_to
  publish_all-unheard symbol [] n h = refl
  publish_all-unheard symbol (f ∷ fs) n h = rw (h, publish_to) (publish_all-unheard symbol fs n h)

  -- A publisher that reserves the number with `next_seq` and then publishes under it leaves the same
  -- queues and the same replays, and reports the same count, as one that lets `publish` number the
  -- frame, if the symbol has a subscriber.
  pub publish-next_seq :
      (symbol s : Text) (since q : ℕ) (qs : List ℕ) (x : F) (n : Stream F)
      → Dict.get n.subscribers (upper symbol) ≡ some (q ∷ qs)
      → let (seq, reserved) = next_seq symbol n in
        let two = publish symbol x (some seq) reserved in
        let one = publish symbol x none n in
        (two.0.registry ≡ one.0.registry)
        × (two.1 ≡ one.1)
        × (replay_since s since two.0 ≡ replay_since s since one.0)
  unfolding publish publish_to next_seq replay_since
  publish-next_seq symbol s since q qs x n e =
      rw (e, publish_to)
        (
          refl,
          refl,
          cc (
              put_again n.frame_seq (upper symbol) (upper s)
                (Dict.get_default n.frame_seq (upper symbol) 0 + 1)),
        )
