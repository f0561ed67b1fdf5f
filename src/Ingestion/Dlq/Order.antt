-- ===== src/Ingestion/Dlq/Order.antt =====
-- The order in which the dead-letter queue of dlq.py hands entries to the database, when no flush
-- overlaps another or an addition.
use mathlib.Core.Path.{subst}
use mathlib.Core.List.{append-nil, append_assoc}
use ffllowwgreeks.Prelude.{
  ◌≤◌, ◌≡◌, refl, ap, sym, ◌∙◌, inl, inr, Bool, true, false, List, [], ◌∷◌, ◌++◌, arith, ltb,
  ltb→lt, length, length-append, Bool-cases,
}
use ffllowwgreeks.Broker.Queue.{length-append_bounded, last_of-fits}
use ffllowwgreeks.Ingestion.Dlq.{Entry, Dlq, add, flush_begin, park, flush_of, flush, written}

pub data Event {ℓ} (P : Type ℓ) : Type ℓ where
  adds : Entry P → Event P
  -- A flush, and whether the database takes its batch.
  flushes : Bool → Event P

module _ {ℓ} {P : Type ℓ} where
  unfoldable pub play : Dlq P → List (Entry P) → List (Event P) → Dlq P × List (Entry P)
  play d stored [] = (d, stored)
  play d stored (adds e ∷ rest) = play (add e d) stored rest
  play d stored (flushes ok ∷ rest) =
      play (flush ok d).0 (stored ++ written ok (flush_begin d).0) rest

  abbrev pub additions : List (Event P) → List (Entry P)
  additions [] = []
  additions (adds e ∷ rest) = e ∷ additions rest
  additions (flushes ok ∷ rest) = additions rest

  -- As long as nothing was evicted, all entries are at hand in the order of their addition.
  record IsOrdered (added : List (Entry P)) (d : Dlq P) (stored : List (Entry P)) : Type ℓ where
    short : length d.buffer ≤ d.max_capacity
    in_order : d.evicted ≡ 0 → stored ++ (d.retry ++ d.buffer) ≡ added

  add-room :
      (e : Entry P) (d : Dlq P)
      → length d.buffer ≤ d.max_capacity
      → (add e d).evicted ≡ 0
      → (d.evicted ≡ 0) × (length (d.buffer ++ e ∷ []) ≤ d.max_capacity)
  unfolding add
  add-room e d h z = ground (arith, length-append d.buffer (e ∷ []))

  add-IsOrdered :
      (added : List (Entry P)) (e : Entry P) (d : Dlq P) (stored : List (Entry P))
      → IsOrdered added d stored
      → IsOrdered (added ++ e ∷ []) (add e d) stored
  unfolding add
  add-IsOrdered added e d stored v = record {
    short = length-append_bounded d.max_capacity d.buffer e;
    in_order = λ z.
        let (before, room) = add-room e d v.short z in
        rw (last_of-fits d.max_capacity (d.buffer ++ e ∷ []) room)
          (rw (← v.in_order before) (simp append_assoc));
  }

  park-room :
      (batch : List (Entry P)) (d : Dlq P)
      → (park batch d).evicted ≡ 0
      → (d.evicted ≡ 0) × ((park batch d).retry ≡ batch ++ d.retry)
  unfolding park
  park-room batch d z = elim (Bool-cases (ltb d.max_capacity (length (batch ++ d.retry)))) [
    | inl over ↦ let h = ltb→lt _ _ over in absurd (omega (arith, rw (over, park) at z))
    | inr fits ↦ rw (fits, park) (rw (fits, park) at z, refl)
  ]

  park-buffer : (batch : List (Entry P)) (d : Dlq P) → (park batch d).buffer ≡ d.buffer
  unfolding park
  park-buffer batch d = ground arith

  flush-IsOrdered :
      (added : List (Entry P)) (ok : Bool) (d : Dlq P) (stored batch : List (Entry P))
      → d.retry ++ d.buffer ≡ batch
      → IsOrdered added d stored
      → IsOrdered added (flush_of ok batch (flush_begin d).1).0 (stored ++ written ok batch)
  unfolding flush_of flush_begin
  flush-IsOrdered added true d stored [] e v = record {
    short = omega arith;
    in_order = λ z.
        simp append-nil (sym (append-nil stored) ∙ ap (λ l. stored ++ l) (sym e) ∙ v.in_order z);
  }
  flush-IsOrdered added false d stored [] e v = record {
    short = omega arith;
    in_order = λ z.
        simp append-nil (sym (append-nil stored) ∙ ap (λ l. stored ++ l) (sym e) ∙ v.in_order z);
  }
  flush-IsOrdered added true d stored (x ∷ b) e v = record {
    short = omega arith;
    in_order = λ z. simp append-nil (ap (λ l. stored ++ l) (sym e) ∙ v.in_order z);
  }
  flush-IsOrdered added false d stored (x ∷ b) e v =
      let drained = (flush_begin d).1 in
      record {
        short = rw (park-buffer (x ∷ b) drained) (omega arith);
        in_order = λ z.
            let (before, kept) = park-room (x ∷ b) drained z in
            rw (kept, park-buffer (x ∷ b) drained)
              (simp append-nil (ap (λ l. stored ++ l) (sym e) ∙ v.in_order before));
      }

  play-IsOrdered :
      (added : List (Entry P)) (events : List (Event P)) (d : Dlq P) (stored : List (Entry P))
      → IsOrdered added d stored
      → IsOrdered (added ++ additions events) (play d stored events).0 (play d stored events).1
  unfolding play flush
  play-IsOrdered added [] d stored v = rw (append-nil added) v
  play-IsOrdered added (adds e ∷ rest) d stored v =
      subst (λ l. IsOrdered l (play (add e d) stored rest).0 (play (add e d) stored rest).1)
        (append_assoc added (e ∷ []) (additions rest))
        (play-IsOrdered (added ++ e ∷ []) rest (add e d) stored (add-IsOrdered added e d stored v))
  play-IsOrdered added (flushes ok ∷ rest) d stored v =
      play-IsOrdered added rest (flush ok d).0 (stored ++ written ok (flush_begin d).0)
        (flush-IsOrdered added ok d stored (d.retry ++ d.buffer) refl v)

  -- From an empty queue, with flushes that do not overlap: as long as nothing was evicted, the rows
  -- of the database, then the retry slot, then the buffer are the added entries in the order of
  -- their addition; so database failures neither lose, repeat nor reorder an entry.
  pub play_in_order :
      (d : Dlq P) (events : List (Event P))
      → d.buffer ≡ []
      → d.retry ≡ []
      → (play d [] events).0.evicted ≡ 0
      → (play d [] events).1 ++ ((play d [] events).0.retry ++ (play d [] events).0.buffer)
        ≡ additions events
  play_in_order d events b r = (play-IsOrdered [] events d [] start).in_order
    where
      start : IsOrdered [] d []
      start = record { short = rw b (omega arith); in_order = λ z. rw (b, r) refl }
