-- ===== src/Ingestion/Dlq/Accounting.antt =====
-- Where every entry of the dead-letter queue of dlq.py ends, with flushes and additions interleaved.
use ffllowwgreeks.Prelude.{
  ℕ, zero, suc, ◌+◌, ◌-◌, ◌≤◌, ◌≡◌, refl, ap, sym, ◌∙◌, ◌==◌, inl, inr, true, false, List, [], ◌∷◌,
  ◌++◌, arith, ltb, if◌then◌else◌, length, take, drop, length-append, length-drop, Bool-cases,
  take-append-drop,
}
use ffllowwgreeks.Broker.Queue.{append_bounded, length-append_bounded}
use ffllowwgreeks.Ingestion.Dlq.{Entry, Dlq, add, flush_begin, park, flush_end}

-- The queue with the batches that flushes are writing and the rows that the database holds.
pub record System {ℓ} (P : Type ℓ) : Type ℓ where
  pub dlq : Dlq P
  pub in_flight : List (List (Entry P))
  pub stored : List (Entry P)

module _ {ℓ} {P : Type ℓ} where
  -- A weight of entries, summed; a set of entries is counted by its indicator.
  abbrev pub total : (Entry P → ℕ) → List (Entry P) → ℕ
  total w [] = 0
  total w (e ∷ es) = w e + total w es

  abbrev pub total_of_batches : (Entry P → ℕ) → List (List (Entry P)) → ℕ
  total_of_batches w [] = 0
  total_of_batches w (b ∷ bs) = total w b + total_of_batches w bs

  total-append :
      (w : Entry P → ℕ) (xs ys : List (Entry P)) → total w (xs ++ ys) ≡ total w xs + total w ys
  total-append w [] ys = omega arith
  total-append w (x ∷ xs) ys = omega (arith, total-append w xs ys)

  total-batches-append :
      (w : Entry P → ℕ) (xs ys : List (List (Entry P)))
      → total_of_batches w (xs ++ ys) ≡ total_of_batches w xs + total_of_batches w ys
  total-batches-append w [] ys = omega arith
  total-batches-append w (x ∷ xs) ys = omega (arith, total-batches-append w xs ys)

  total-take-drop :
      (w : Entry P → ℕ) (n : ℕ) (xs : List (Entry P))
      → total w (take n xs) + total w (drop n xs) ≡ total w xs
  total-take-drop w zero xs = omega arith
  total-take-drop w (suc n) [] = omega arith
  total-take-drop w (suc n) (x ∷ xs) = omega (arith, total-take-drop w n xs)

  length-take : (n : ℕ) (xs : List (Entry P)) → n ≤ length xs → length (take n xs) ≡ n
  length-take zero xs h = refl
  length-take (suc n) [] h = absurd (omega arith)
  length-take (suc n) (x ∷ xs) h = omega (arith, length-take n xs)

  -- What one addition, and one failed flush, push out.
  abbrev pushed_out : Entry P → Dlq P → List (Entry P)
  pushed_out e d = take (length (d.buffer ++ e ∷ []) - d.max_capacity) (d.buffer ++ e ∷ [])

  abbrev overflow : List (Entry P) → Dlq P → List (Entry P)
  overflow batch d = take (length (batch ++ d.retry) - d.max_capacity) (batch ++ d.retry)

  -- Every history: `Run added lost s` reaches `s` by adding `added` and dropping `lost`.
  pub data Run (s : System P) : List (Entry P) → List (Entry P) → System P → Type ℓ where
    here : Run s [] [] s
    adds :
        {added lost : List (Entry P)} {t : System P} (e : Entry P)
        → Run s added lost t
        → Run s (added ++ e ∷ []) (lost ++ pushed_out e t.dlq) (record t { dlq = add e t.dlq })
    drains :
        {added lost : List (Entry P)} {t : System P}
        → Run s added lost t
        → Run s added lost (record t {
          dlq = (flush_begin t.dlq).1;
          in_flight = (flush_begin t.dlq).0 ∷ t.in_flight;
        })
    stores :
        {added lost : List (Entry P)} {t : System P} (before after : List (List (Entry P)))
        (batch : List (Entry P))
        → t.in_flight ≡ before ++ batch ∷ after
        → Run s added lost t
        → Run s added lost (record {
          dlq = (flush_end true batch t.dlq).0;
          in_flight = before ++ after;
          stored = t.stored ++ batch;
        })
    fails :
        {added lost : List (Entry P)} {t : System P} (before after : List (List (Entry P)))
        (batch : List (Entry P))
        → t.in_flight ≡ before ++ batch ∷ after
        → Run s added lost t
        → Run s added (lost ++ overflow batch t.dlq) (record {
          dlq = (flush_end false batch t.dlq).0;
          in_flight = before ++ after;
          stored = t.stored;
        })

  abbrev pub held : (Entry P → ℕ) → System P → ℕ
  held w s =
      total w s.stored + total_of_batches w s.in_flight + total w s.dlq.retry + total w s.dlq.buffer

  pub record IsAccounted (cap : ℕ) (added lost : List (Entry P)) (s : System P) : Type ℓ where
    pub capacity : s.dlq.max_capacity ≡ cap
    pub buffer_short : length s.dlq.buffer ≤ cap
    pub retry_short : length s.dlq.retry ≤ cap
    pub evictions : s.dlq.evicted ≡ length lost
    pub weighed : (w : Entry P → ℕ) → total w added ≡ total w lost + held w s

  length-pushed_out :
      (e : Entry P) (d : Dlq P)
      → length d.buffer ≤ d.max_capacity
      → length (pushed_out e d) ≡ (if length d.buffer == d.max_capacity then 1 else 0)
  length-pushed_out e d h =
      length-take _ (d.buffer ++ e ∷ []) (omega arith)
      ∙ ground (arith, length-append d.buffer (e ∷ []))

  adds-IsAccounted :
      (cap : ℕ) (added lost : List (Entry P)) (t : System P) (e : Entry P)
      → IsAccounted cap added lost t
      → IsAccounted cap
          (added ++ e ∷ [])
          (lost ++ pushed_out e t.dlq)
          (record t { dlq = add e t.dlq })
  unfolding add append_bounded
  adds-IsAccounted cap added lost t e v = record {
    capacity = v.capacity;
    buffer_short =
        omega (arith, length-append_bounded t.dlq.max_capacity t.dlq.buffer e, v.capacity);
    retry_short = v.retry_short;
    evictions = ground (
      arith,
      length-append lost (pushed_out e t.dlq),
      length-pushed_out e t.dlq (omega (arith, v.buffer_short, v.capacity)),
      v.evictions,
    );
    weighed = λ w. omega (
      arith,
      v.weighed w,
      total-append w added (e ∷ []),
      total-append w lost (pushed_out e t.dlq),
      total-append w t.dlq.buffer (e ∷ []),
      total-take-drop w (length (t.dlq.buffer ++ e ∷ []) - t.dlq.max_capacity)
          (t.dlq.buffer ++ e ∷ []),
    );
  }

  drains-IsAccounted :
      (cap : ℕ) (added lost : List (Entry P)) (t : System P)
      → IsAccounted cap added lost t
      → IsAccounted cap added lost (record t {
        dlq = (flush_begin t.dlq).1;
        in_flight = (flush_begin t.dlq).0 ∷ t.in_flight;
      })
  unfolding flush_begin
  drains-IsAccounted cap added lost t v = record {
    capacity = v.capacity;
    buffer_short = omega arith;
    retry_short = omega arith;
    evictions = v.evictions;
    weighed = λ w. omega (arith, v.weighed w, total-append w t.dlq.retry t.dlq.buffer);
  }

  -- Taking one batch out of those in flight.
  total-in_flight :
      (w : Entry P → ℕ) (t : System P) (before after : List (List (Entry P)))
      (batch : List (Entry P))
      → t.in_flight ≡ before ++ batch ∷ after
      → total_of_batches w t.in_flight ≡ total w batch + total_of_batches w (before ++ after)
  total-in_flight w t before after batch e = rw e (
      omega
        (arith, total-batches-append w before (batch ∷ after), total-batches-append w before after))

  stores-IsAccounted :
      (cap : ℕ) (added lost : List (Entry P)) (t : System P) (before after : List (List (Entry P)))
      (batch : List (Entry P))
      → t.in_flight ≡ before ++ batch ∷ after
      → IsAccounted cap added lost t
      → IsAccounted cap added lost (record {
        dlq = (flush_end true batch t.dlq).0;
        in_flight = before ++ after;
        stored = t.stored ++ batch;
      })
  unfolding flush_end
  stores-IsAccounted cap added lost t before after batch e v = record {
    capacity = v.capacity;
    buffer_short = v.buffer_short;
    retry_short = v.retry_short;
    evictions = v.evictions;
    weighed = λ w. omega (
      arith,
      v.weighed w,
      total-append w t.stored batch,
      total-in_flight w t before after batch e,
    );
  }

  -- What parking a batch keeps and drops.
  abbrev Parked : List (Entry P) → Dlq P → Dlq P → Type ℓ
  Parked batch d d' =
      (d'.max_capacity ≡ d.max_capacity)
      × (d'.buffer ≡ d.buffer)
      × (length d'.retry ≤ d.max_capacity)
      × (d'.evicted ≡ d.evicted + length (overflow batch d))
      × (overflow batch d ++ d'.retry ≡ batch ++ d.retry)

  park-Parked : (batch : List (Entry P)) (d : Dlq P) → Parked batch d (park batch d)
  unfolding park
  park-Parked batch d = elim (Bool-cases (ltb d.max_capacity (length (batch ++ d.retry)))) [
    | inl over ↦
        rw (over, park)
          (
            refl,
            refl,
            ground (arith, length-drop (length zs - d.max_capacity) zs),
            ap (λ k. d.evicted + k)
                (sym (length-take (length zs - d.max_capacity) zs (omega arith))),
            take-append-drop (length zs - d.max_capacity) zs,
          )
    | inr fits ↦
        let none_over : length zs - d.max_capacity ≡ 0 = ground arith in
        rw (fits, park, none_over) (refl, refl, ground arith, omega arith, refl)
  ]
    where
      zs : List (Entry P)
      zs = batch ++ d.retry

  fails-IsAccounted :
      (cap : ℕ) (added lost : List (Entry P)) (t : System P) (before after : List (List (Entry P)))
      (batch : List (Entry P))
      → t.in_flight ≡ before ++ batch ∷ after
      → IsAccounted cap added lost t
      → IsAccounted cap added (lost ++ overflow batch t.dlq) (record {
        dlq = (flush_end false batch t.dlq).0;
        in_flight = before ++ after;
        stored = t.stored;
      })
  unfolding flush_end
  fails-IsAccounted cap added lost t before after batch e v =
      let (capacity, buffer, short, evicted, split) = park-Parked batch t.dlq in
      record {
        capacity = capacity ∙ v.capacity;
        buffer_short = rw buffer v.buffer_short;
        retry_short = omega (arith, short, v.capacity);
        evictions = omega (arith, evicted, v.evictions, length-append lost (overflow batch t.dlq));
        weighed = λ w. rw buffer (
            omega (
              arith,
              v.weighed w,
              total-append w lost (overflow batch t.dlq),
              total-in_flight w t before after batch e,
              ap (total w) split,
              total-append w (overflow batch t.dlq) (park batch t.dlq).retry,
              total-append w batch t.dlq.retry,
            ));
      }

  -- From an empty queue, however additions, flushes and database outcomes interleave: the buffer
  -- and the retry slot never exceed the capacity, the eviction counter is the number of entries
  -- lost, and every entry added is once in the database, in a batch in flight, in the retry slot,
  -- in the buffer or among the lost (in any weight, so for each set of entries).
  pub Run-IsAccounted :
      (s t : System P) (added lost : List (Entry P))
      → (s.dlq.buffer ≡ []) × (s.dlq.retry ≡ []) × (s.dlq.evicted ≡ 0)
      → (s.in_flight ≡ []) × (s.stored ≡ [])
      → Run s added lost t
      → IsAccounted s.dlq.max_capacity added lost t
  Run-IsAccounted s t added lost (b, r, ev) (f, st) here = record {
    capacity = refl;
    buffer_short = rw b (omega arith);
    retry_short = rw r (omega arith);
    evictions = ev;
    weighed = λ w. rw (b, r, f, st) (omega arith);
  }
  Run-IsAccounted s t added lost q d (adds {added = a} {lost = l} {t = u} e run) =
      adds-IsAccounted s.dlq.max_capacity a l u e (Run-IsAccounted s u a l q d run)
  Run-IsAccounted s t added lost q d (drains {added = a} {lost = l} {t = u} run) =
      drains-IsAccounted s.dlq.max_capacity a l u (Run-IsAccounted s u a l q d run)
  Run-IsAccounted s t added lost q d (stores {added = a} {lost = l} {t = u} pre post batch e run) =
      stores-IsAccounted s.dlq.max_capacity a l u pre post batch e (Run-IsAccounted s u a l q d run)
  Run-IsAccounted s t added lost q d (fails {added = a} {lost = l} {t = u} pre post batch e run) =
      fails-IsAccounted s.dlq.max_capacity a l u pre post batch e (Run-IsAccounted s u a l q d run)
