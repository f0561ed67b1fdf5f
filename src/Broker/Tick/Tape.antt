-- ===== src/Broker/Tick/Tape.antt =====
-- What a slow consumer of tick_notifier.py still finds in its queue.
use ffllowwgreeks.Prelude.{
  ℕ, suc, ◌≤◌, ◌≡◌, refl, sym, ◌∙◌, ap, true, some, List, [], ◌∷◌, ◌++◌, if◌then◌else◌, Text,
  length, upper,
}
use mathlib.Core.Path.{subst}
use mathlib.Core.List.{append-nil, append_assoc}
use ffllowwgreeks.Prelude.Dict
use ffllowwgreeks.Broker.Queue.{Fits, last_of, offered, last_of-fits, last_of-last_of}
use ffllowwgreeks.Broker.Registry.{Registry, elem, deliver_lem}
use ffllowwgreeks.Broker.Registry.Invariant.{IsValid, deliver-IsValid}
use ffllowwgreeks.Broker.Tick.{publish, publish_to}

module _ {ℓ} {F : Type ℓ} where
  -- `publish` of each frame in turn, with the counts that it returns.
  pub publish_all : Text → List F → Registry F → Registry F × List ℕ
  publish_all symbol [] r = (r, [])
  publish_all symbol (f ∷ fs) r =
      let (r', delivered) = publish symbol f r in
      let (r'', counts) = publish_all symbol fs r' in (r'', delivered ∷ counts)

  -- One count for each frame.
  abbrev pub repeated : List F → ℕ → List ℕ
  repeated [] c = []
  repeated (f ∷ fs) c = c ∷ repeated fs c

  publish-IsValid :
      (symbol : Text) (x : F) (b : List ℕ) (r : Registry F)
      → IsValid r
      → Dict.get r.subscribers (upper symbol) ≡ some b
      → IsValid (publish symbol x r).0
  unfolding publish publish_to
  publish-IsValid symbol x [] r v e = rw (e, publish_to) v
  publish-IsValid symbol x (q ∷ qs) r v e =
      rw (e, publish_to) (deliver-IsValid (upper symbol) x r (q ∷ qs) v e)

  abbrev Taken : Text → F → List ℕ → ℕ → Registry F → Registry F × ℕ → Type ℓ
  Taken symbol x b p r s =
      (s.0.queues p ≡ (if elem p b then offered r.queue_maxsize (r.queues p) x else r.queues p))
      × (s.1 ≡ length b)
      × (s.0.queue_maxsize ≡ r.queue_maxsize)
      × (s.0.subscribers ≡ r.subscribers)

  publish-Taken :
      (symbol : Text) (x : F) (b : List ℕ) (p : ℕ) (r : Registry F)
      → IsValid r
      → Dict.get r.subscribers (upper symbol) ≡ some b
      → Taken symbol x b p r (publish symbol x r)
  unfolding publish publish_to
  publish-Taken symbol x [] p r v e = rw (e, publish_to) (refl, refl, refl, refl)
  publish-Taken symbol x (q ∷ qs) p r v e =
      let at =
        deliver_lem r.queue_maxsize x (q ∷ qs) r.queues
          (v.buckets (upper symbol) (q ∷ qs) e).distinct v.fits in
      rw (e, publish_to) (at.0 p, at.1, refl, refl)

  -- In a valid registry with queues of maximal size `suc m`: however many prices are published
  -- while a subscriber does not read, each publication counts every subscriber of the symbol, and
  -- the subscriber's queue ends with the newest of what it held and was sent, in order.
  pub publish_all_tape :
      (symbol : Text) (m p : ℕ) (b : List ℕ) (fs : List F) (r : Registry F)
      → IsValid r
      → Dict.get r.subscribers (upper symbol) ≡ some b
      → elem p b ≡ true
      → r.queue_maxsize ≡ suc m
      → ((publish_all symbol fs r).0.queues p ≡ last_of (suc m) (r.queues p ++ fs))
        × ((publish_all symbol fs r).1 ≡ repeated fs (length b))
  unfolding publish_all
  publish_all_tape symbol m p b [] r v e member size =
      (rw (append-nil (r.queues p)) (sym (last_of-fits (suc m) (r.queues p) short)), refl)
    where
      short : length (r.queues p) ≤ suc m
      short = subst (λ k. Fits k (r.queues p)) size (v.fits p)
  publish_all_tape symbol m p b (f ∷ fs) r v e member size =
      let r' = publish symbol f r in
      let t = publish-Taken symbol f b p r v e in
      let rest =
        publish_all_tape symbol m p b fs r'.0 (publish-IsValid symbol f b r v e)
          (ap (λ d. Dict.get d (upper symbol)) t.3 ∙ e) member (t.2 ∙ size) in
      let newest : r'.0.queues p ≡ last_of (suc m) (r.queues p ++ f ∷ []) =
        t.0
        ∙ rw member (
            subst (λ k. offered k (r.queues p) f ≡ last_of (suc m) (r.queues p ++ f ∷ []))
              (sym size) refl) in
      (
        rest.0
            ∙ ap (λ xs. last_of (suc m) (xs ++ fs)) newest
            ∙ last_of-last_of (suc m) (r.queues p ++ f ∷ []) fs
            ∙ ap (last_of (suc m)) (append_assoc (r.queues p) (f ∷ []) fs),
        cc (t.1, rest.1),
      )
