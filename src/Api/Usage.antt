-- ===== src/Api/Usage.antt =====
-- The deferred counts of a key's uses, archive/python-legacy/backend/app/api/deps.py. A flush is a
-- beginning, which empties the buffers, and an end, with what the database did; a cancellation in
-- between is an end of its own.
pub mod Counts
pub mod Conserved
use ffllowwgreeks.Prelude.{
  ℕ, ◌+◌, Bool, true, false, Option, none, some, List, [], ◌∷◌, if◌then◌else◌, Text,
}
use ffllowwgreeks.Prelude.Dict
use ffllowwgreeks.Prelude.Dict.{Dict}
use ffllowwgreeks.Api.ApiKeys.{ApiKey, Server, update_rows, record_api_key_usage}

-- A count that is taken out of the buffer, with the last moment of use if there is one.
pub record Delta : Type 0 where
  pub key_id : Text
  pub delta : ℕ
  pub seen : Option ℕ

-- The server, and what the flush under way has taken.
pub record Flushing : Type 0 where
  pub server : Server
  pub taken : List Delta

unfoldable pub deltas_of : List Text → Server → List Delta
deltas_of [] s = []
deltas_of (i ∷ ids) s =
    record {
      key_id = i;
      delta = Dict.get_default s.usage_delta i 0;
      seen = Dict.get s.usage_last_seen i;
    }
    ∷ deltas_of ids s

unfoldable pub flush_begin : Server → Flushing
unfolding deltas_of
flush_begin s = record {
  server = record s { usage_delta = Dict.empty; usage_last_seen = Dict.empty };
  taken = deltas_of (Dict.keys s.usage_delta) s;
}

abbrev pub or_now : ℕ → Option ℕ → ℕ
or_now now none = now
or_now now (some seen) = seen

abbrev pub add_uses : ℕ → Delta → ApiKey → ApiKey
add_uses now d row = record row {
  usage_count = row.usage_count + d.delta;
  last_used_at = some (or_now now d.seen);
}

-- The updates that succeed, one for each key.
unfoldable pub update_all : ℕ → (Text → Bool) → List Delta → List ApiKey → List ApiKey
unfolding update_rows
update_all now succeeds [] rows = rows
update_all now succeeds (d ∷ ds) rows =
    update_all now succeeds ds
      (if succeeds d.key_id then update_rows d.key_id (add_uses now d) rows else rows)

unfoldable pub updated_rows : (Text → Bool) → List Delta → ℕ
updated_rows succeeds [] = 0
updated_rows succeeds (d ∷ ds) =
    if succeeds d.key_id then updated_rows succeeds ds + 1 else updated_rows succeeds ds

-- The updates and the commit; what was taken is gone either way.
unfoldable pub flush_end : ℕ → (Text → Bool) → Bool → Flushing → ℕ × Server
unfolding update_all updated_rows
flush_end now succeeds committed f =
    if committed
    then (
      updated_rows succeeds f.taken,
      record f.server { api_keys = update_all now succeeds f.taken f.server.api_keys },
    )
    else (0, f.server)

-- `flush_usage_deltas` when nothing comes between.
unfoldable pub flush_usage_deltas : ℕ → (Text → Bool) → Bool → Server → ℕ × Server
unfolding flush_begin flush_end
flush_usage_deltas now succeeds committed s = flush_end now succeeds committed (flush_begin s)
