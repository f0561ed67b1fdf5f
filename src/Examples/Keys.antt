-- ===== src/Examples/Keys.antt =====
-- A pool with one key in key_pool.py, next to a key from the environment.
use ffllowwgreeks.Prelude.{
  ℕ, ◌≢◌, ◌↔◌, refl, inl, Option, none, some, List, [], ◌∷◌, ◌++◌, true, Text, codes, upper, same,
  arith,
}
use ffllowwgreeks.Ingestion.KeyPool.{
  ApiKey, KeyCandidate, Settings, db, env, opra, env_key_for, is_eligible, place, query, is_recent,
  is_cooling, candidate_of, candidates_of, iter_keys, update_row, succeeded, failed,
  record_key_success, record_key_error,
}
use ffllowwgreeks.Ingestion.KeyPool.Selection.{In, Offered, Sorted, In-iter_keys, query-Sorted}
use ffllowwgreeks.Ingestion.KeyPool.Cooldown.{errors, errors-iter_keys, success-iter_keys}

abbrev settings : Settings
settings = record { opra_api_key = codes "e"; globex_api_key = [] }

abbrev key : ApiKey
key = record {
  id = 7;
  label = codes "k";
  dataset = codes "BOTH";
  api_key_encrypted = codes "x";
  priority = 1;
  is_active = true;
  error_count = 0;
  last_error_at = none;
  last_error_msg = none;
  last_used_at = none;
}

abbrev decrypt : Text → Option Text
decrypt t = some (codes "s")

abbrev env_key : KeyCandidate
env_key = record { label = codes "env:" ++ opra; api_key = codes "e"; source = env }

abbrev pool_key : KeyCandidate
pool_key = candidate_of key (codes "s")

In-iter_keys_example :
    In pool_key (env_key ∷ pool_key ∷ [])
    ↔ Offered settings decrypt 100 (upper opra) (key ∷ []) pool_key
unfolding iter_keys env_key_for query place is_eligible candidates_of is_cooling upper same
In-iter_keys_example =
    In-iter_keys settings decrypt 100 opra (key ∷ []) (env_key ∷ pool_key ∷ []) pool_key refl

query-Sorted_example : Sorted (query opra (key ∷ key ∷ []))
query-Sorted_example = query-Sorted opra (key ∷ key ∷ [])

abbrev four : List (ℕ × Text)
four = (1, []) ∷ (2, []) ∷ (3, []) ∷ (4, []) ∷ []

errors-iter_keys_example : env_key.source ≢ db 7
unfolding iter_keys env_key_for query place is_eligible candidates_of is_cooling is_recent upper
    same record_key_error update_row failed errors
errors-iter_keys_example =
    errors-iter_keys settings decrypt 6 5 7 opra [] pool_key env_key four (key ∷ []) (env_key ∷ [])
      refl (omega arith) (omega arith) refl (inl refl)

success-iter_keys_example : In pool_key (env_key ∷ pool_key ∷ [])
unfolding iter_keys env_key_for query place is_eligible candidates_of is_cooling is_recent upper
    same record_key_success update_row succeeded
success-iter_keys_example =
    success-iter_keys settings decrypt 6 5 7 opra (codes "s") pool_key key (key ∷ [])
      (env_key ∷ pool_key ∷ []) refl (inl refl) refl refl refl refl
