-- ===== src/Examples/Writes.antt =====
-- Two rows of one contract and one of another through the writer.
use ffllowwgreeks.Prelude.{
  ◌≡◌, refl, Bool, true, false, some, List, [], ◌∷◌, codes, same, if◌then◌else◌,
}
use ffllowwgreeks.Prelude.Dict
use ffllowwgreeks.Ingestion.Writer.{Row, moment, number}
use ffllowwgreeks.Ingestion.Writer.Merge.{value, latest}
use ffllowwgreeks.Ingestion.Writer.Table.{occurs}
use ffllowwgreeks.Ingestion.Writer.Upsert.{value-flush}
use ffllowwgreeks.Ingestion.Writer.Steps.{
  Writer, create, overflows, append, shed, add_rows, add_many, flush_begin, flush_end,
}
use ffllowwgreeks.Ingestion.Writer.Bulk.{add_each, but_tasks, add_many-add_each}
use ffllowwgreeks.Ingestion.Writer.Accounting
use ffllowwgreeks.Ingestion.Writer.Accounting.{IsAccounted, run-opened-IsAccounted}

abbrev bid : Bool → Row
bid first =
    Dict.put (Dict.put Dict.empty (codes "ts") (some (moment 1))) (codes "bid")
      (if first then some (number true 5) else some (number true 6))

abbrev late : Row
late = Dict.put Dict.empty (codes "ts") (some (moment 2))

abbrev batch : List Row
batch = bid true ∷ bid false ∷ late ∷ []

abbrev loaded : Writer
loaded = (add_rows 3 batch (create 500 2 0 [])).1

value-flush_example :
    value (codes "bid") (bid true) (flush_end true (flush_begin 4 loaded)).1.table ≡ (
      if occurs (bid true) loaded.buffer
      then latest (codes "bid") (bid true) loaded.buffer
      else value (codes "bid") (bid true) loaded.table)
unfolding add_rows create same overflows append shed
value-flush_example = value-flush (codes "bid") (bid true) 4 loaded refl refl

add_many-add_each_example :
    but_tasks (add_many 3 true batch (create 500 2 0 []))
    ≡ but_tasks (add_each 3 batch (create 500 2 0 []))
add_many-add_each_example = add_many-add_each 3 true batch (create 500 2 0 [])

run-opened-IsAccounted_example : IsAccounted (
    Accounting.run
      (Accounting.add_rows 1 true batch
        ∷ Accounting.begin 2
        ∷ Accounting.add_row 3 late
        ∷ Accounting.end false
        ∷ [])
      (Accounting.opened 2 2 0 []))
run-opened-IsAccounted_example = run-opened-IsAccounted 2 2 0 [] (
    Accounting.add_rows 1 true batch
    ∷ Accounting.begin 2
    ∷ Accounting.add_row 3 late
    ∷ Accounting.end false
    ∷ [])
