-- ===== src/Examples/DeadLetters.antt =====
-- A dead-letter queue of capacity one in dlq.py.
use ffllowwgreeks.Prelude.{ℕ, ◌≡◌, refl, none, some, List, [], ◌∷◌, ◌++◌, true, false, codes}
use ffllowwgreeks.Broker.Queue.{append_bounded}
use ffllowwgreeks.Ingestion.Dlq
use ffllowwgreeks.Ingestion.Dlq.{Entry, Dlq, flush, flush_begin, add, park, cleanup_dlq_older_than}
use ffllowwgreeks.Ingestion.Dlq.Accounting.{System, Run, IsAccounted, Run-IsAccounted}
use ffllowwgreeks.Ingestion.Dlq.Order.{Event, play, additions, play_in_order}

abbrev letter : ℕ → Entry ℕ
letter ts = record { ts = ts; source = codes "opra"; reason = codes "insert"; payload = some 7 }

abbrev fresh : System ℕ
fresh = record { dlq = Dlq.create none 1; in_flight = []; stored = [] }

-- Two additions to the queue of one, which loses the first, and a drain.
two_added : Run fresh (letter 1 ∷ letter 2 ∷ []) (letter 1 ∷ []) (record {
  dlq = (flush_begin (add (letter 2) (add (letter 1) fresh.dlq))).1;
  in_flight = (flush_begin (add (letter 2) (add (letter 1) fresh.dlq))).0 ∷ [];
  stored = [];
})
unfolding Dlq.create add
two_added = Run.drains (Run.adds (letter 2) (Run.adds (letter 1) Run.here))

Run-IsAccounted_example : IsAccounted 1 (letter 1 ∷ letter 2 ∷ []) (letter 1 ∷ []) (record {
  dlq = (flush_begin (add (letter 2) (add (letter 1) fresh.dlq))).1;
  in_flight = (flush_begin (add (letter 2) (add (letter 1) fresh.dlq))).0 ∷ [];
  stored = [];
})
unfolding Dlq.create
Run-IsAccounted_example =
    Run-IsAccounted fresh _ (letter 1 ∷ letter 2 ∷ []) (letter 1 ∷ []) (refl, refl, refl)
      (refl, refl) two_added

abbrev history : List (Event ℕ)
history =
    Event.adds (letter 1) ∷ Event.flushes false ∷ Event.adds (letter 2) ∷ Event.flushes true ∷ []

play_in_order_example :
    (play (Dlq.create none 4) [] history).1
      ++ ((play (Dlq.create none 4) [] history).0.retry
          ++ (play (Dlq.create none 4) [] history).0.buffer)
    ≡ additions history
unfolding Dlq.create play add flush flush_begin Dlq.flush_of Dlq.flush_end park append_bounded
play_in_order_example = play_in_order (Dlq.create none 4) history refl refl refl
