-- ===== src/Api/Usage/Conserved.antt =====
-- No use of a key is counted twice or forgotten by archive/python-legacy/backend/app/api/deps.py, but
-- for those of flushes that fail.
use ffllowwgreeks.Prelude.{
  ℕ, ◌+◌, ◌≤◌, ◌≡◌, refl, ap, ◌∙◌, Bool, true, false, List, [], ◌∷◌, if◌then◌else◌, Text, same,
  arith,
}
use ffllowwgreeks.Prelude.Dict
use ffllowwgreeks.Prelude.Dict.{
  Dict, occurs, occurs-keys-put, get-unless_occurs, occurs-keys-empty, get_default-put, get-empty,
}
use ffllowwgreeks.Api.ApiKeys.{ApiKey, Server, record_api_key_usage}
use ffllowwgreeks.Api.Usage.Counts.{
  has_row, uses, buffered, taken_of, failed_of, has_row-update_all, uses-update_all,
  buffered-record, taken_of-flush_begin,
}
use ffllowwgreeks.Api.Usage.{Delta, flush_begin, flush_end}

-- A server, what its flush has taken, the uses that were recorded and those that were lost.
pub record Ledger : Type 0 where
  pub server : Server
  pub taken : List Delta
  pub recorded : Text → ℕ
  pub lost : Text → ℕ

-- A request with a key, the beginning of a flush, its end with what the database did, or its
-- cancellation; of two flushes the second one waits.
pub data Act : Type 0 where
  use_key : (now : ℕ) → Text → Act
  begin : Act
  end : (now : ℕ) (succeeds : Text → Bool) (committed : Bool) → Act
  cancel : Act

begun : List Delta → Ledger → Ledger
begun [] l = record l {
  server = (flush_begin l.server).server;
  taken = (flush_begin l.server).taken;
}
begun (d ∷ ds) l = l

lost_of : Text → (Text → Bool) → Bool → List Delta → ℕ
lost_of k succeeds true ds = failed_of k succeeds ds
lost_of k succeeds false ds = taken_of k ds

pub step : Act → Ledger → Ledger
unfolding begun lost_of
step (use_key now i) l = record l {
  server = record_api_key_usage now i l.server;
  recorded = λ k. l.recorded k + (if same i k then 1 else 0);
}
step begin l = begun l.taken l
step (end now succeeds committed) l = record l {
  server = (flush_end now succeeds committed (record { server = l.server; taken = l.taken })).1;
  taken = [];
  lost = λ k. l.lost k + lost_of k succeeds committed l.taken;
}
step cancel l = record l { taken = []; lost = λ k. l.lost k + taken_of k l.taken }

unfoldable pub run : List Act → Ledger → Ledger
unfolding step
run [] l = l
run (a ∷ acts) l = run acts (step a l)

-- A server that has started with a table and empty buffers.
unfoldable pub opened : Server → Ledger
opened s = record {
  server = record s { usage_delta = Dict.empty; usage_last_seen = Dict.empty };
  taken = [];
  recorded = λ k. 0;
  lost = λ k. 0;
}

-- The keys of the buffer are distinct, the table has the rows that it had, and each use of a key with
-- a row that the table had counted or that was recorded is in its count, in the buffer, in the
-- flush under way or lost.
pub record IsConserved (rows : List ApiKey) (l : Ledger) : Type 0 where
  pub distinct : (k : Text) → occurs k (Dict.keys l.server.usage_delta) ≤ 1
  pub kept : (k : Text) → has_row k l.server.api_keys ≡ has_row k rows
  pub balance :
      (k : Text)
      → has_row k rows ≡ true
      → uses k l.server.api_keys + buffered k l.server + taken_of k l.taken + l.lost k
        ≡ uses k rows + l.recorded k

use_key-IsConserved :
    (rows : List ApiKey) (now : ℕ) (i : Text) (l : Ledger)
    → IsConserved rows l
    → IsConserved rows (step (use_key now i) l)
unfolding step
use_key-IsConserved rows now i l h = record {
  distinct = λ k.
      unfold record_api_key_usage in
      ground
        (arith, occurs-keys-put l.server.usage_delta i k (buffered i l.server + 1), h.distinct k);
  kept = λ k. unfold record_api_key_usage in h.kept k;
  balance = λ k there. omega (arith, h.balance k there, buffered-record k i now l.server, unused k);
}
  where
    unused :
        (k : Text)
        → uses k (record_api_key_usage now i l.server).api_keys ≡ uses k l.server.api_keys
    unused k = unfold record_api_key_usage in refl

buffered-flush_begin : (k : Text) (s : Server) → buffered k (flush_begin s).server ≡ 0
unfolding flush_begin
buffered-flush_begin k s = ground (arith, get-empty {V = ℕ} k)

api_keys-flush_begin : (s : Server) → (flush_begin s).server.api_keys ≡ s.api_keys
unfolding flush_begin
api_keys-flush_begin s = refl

taken_of-nil : (k : Text) (ds : List Delta) → ds ≡ [] → taken_of k ds ≡ 0
unfolding taken_of
taken_of-nil k ds e = rw e

begun-IsConserved :
    (rows : List ApiKey) (taken : List Delta) (l : Ledger)
    → l.taken ≡ taken
    → IsConserved rows l
    → IsConserved rows (begun taken l)
unfolding begun
begun-IsConserved rows [] l e h = record {
  distinct = λ k. unfold flush_begin in omega (arith, occurs-keys-empty ℕ k);
  kept = λ k. unfold flush_begin in h.kept k;
  balance = λ k there. omega (
    arith,
    h.balance k there,
    taken_of-flush_begin k l.server (h.distinct k),
    buffered-flush_begin k l.server,
    taken_of-nil k l.taken e,
    ap (uses k) (api_keys-flush_begin l.server),
  );
}
begun-IsConserved rows (d ∷ ds) l e h = h

end-IsConserved :
    (rows : List ApiKey) (now : ℕ) (succeeds : Text → Bool) (committed : Bool) (l : Ledger)
    → IsConserved rows l
    → IsConserved rows (step (end now succeeds committed) l)
unfolding step flush_end lost_of
end-IsConserved rows now succeeds true l h = record {
  distinct = h.distinct;
  kept = λ k. has_row-update_all k now succeeds l.taken l.server.api_keys ∙ h.kept k;
  balance = λ k there. omega (
    arith,
    h.balance k there,
    uses-update_all k now succeeds l.taken l.server.api_keys (h.kept k ∙ there),
    taken_of-nil k [] refl,
  );
}
end-IsConserved rows now succeeds false l h = record {
  distinct = h.distinct;
  kept = h.kept;
  balance = λ k there. unfold taken_of in omega (arith, h.balance k there);
}

cancel-IsConserved :
    (rows : List ApiKey) (l : Ledger) → IsConserved rows l → IsConserved rows (step cancel l)
unfolding step
cancel-IsConserved rows l h = record {
  distinct = h.distinct;
  kept = h.kept;
  balance = λ k there. unfold taken_of in omega (arith, h.balance k there);
}

step-IsConserved :
    (rows : List ApiKey) (a : Act) (l : Ledger) → IsConserved rows l → IsConserved rows (step a l)
step-IsConserved rows (use_key now i) l h = use_key-IsConserved rows now i l h
step-IsConserved rows begin l h = unfold step in begun-IsConserved rows l.taken l refl h
step-IsConserved rows (end now succeeds committed) l h =
    end-IsConserved rows now succeeds committed l h
step-IsConserved rows cancel l h = cancel-IsConserved rows l h

run_from-IsConserved :
    (rows : List ApiKey) (acts : List Act) (l : Ledger)
    → IsConserved rows l
    → IsConserved rows (run acts l)
unfolding run
run_from-IsConserved rows [] l h = h
run_from-IsConserved rows (a ∷ acts) l h =
    run_from-IsConserved rows acts (step a l) (step-IsConserved rows a l h)

opened-IsConserved : (s : Server) → IsConserved s.api_keys (opened s)
unfolding opened
opened-IsConserved s = record {
  distinct = λ k. omega (arith, occurs-keys-empty ℕ k);
  kept = λ k. refl;
  balance = λ k there. ground (arith, get-empty {V = ℕ} k, taken_of-nil k [] refl);
}

-- From empty buffers, however uses of keys and beginnings, ends and cancellations of flushes follow,
-- the table keeps its rows, and the uses of a key with a row that the table had counted, together
-- with those recorded since, are its count in the table and the uses in the buffer, in the flush
-- under way and in updates that failed, were rolled back or cancelled.
pub run-opened-IsConserved :
    (acts : List Act) (s : Server) → IsConserved s.api_keys (run acts (opened s))
run-opened-IsConserved acts s =
    run_from-IsConserved s.api_keys acts (opened s) (opened-IsConserved s)
