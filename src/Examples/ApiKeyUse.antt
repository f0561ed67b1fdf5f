-- ===== src/Examples/ApiKeyUse.antt =====
-- A key issued, used on both ways in, and deleted.
use ffllowwgreeks.Prelude.{
  ◌≡◌, ◌≢◌, refl, ap, same_refl, true, false, some, [], ◌∷◌, Text, codes, upper, same, arith,
}
use ffllowwgreeks.Prelude.Dict
use ffllowwgreeks.Api.ApiKeys.{
  find_key, ApiKey, Server, Hashing, ok, unauthorized, require_symbol_access,
}
use ffllowwgreeks.Api.KeyCrud.{Creation, to_summary, new_row, create_api_key, delete_api_key}
use ffllowwgreeks.Api.KeyCrud.Deletion.{stream, delete, run, require_symbol_access-delete_api_key}
use ffllowwgreeks.Api.KeyCrud.Issue.{require_symbol_access-create_api_key}
use ffllowwgreeks.Api.Streaming.{authenticate_streaming_key}
use ffllowwgreeks.Api.Streaming.Agreement.{
  as_reply, authenticate_streaming_key-require_symbol_access,
}

same_text : (t : Text) → some (same t t) ≡ some true
same_text t = ap some (same_refl t)

abbrev plain_text : Hashing
plain_text = record {
  hashpw = λ salt key. key;
  checkpw = λ key hash. some (same key hash);
  digest = λ key. key;
  checkpw-hashpw = λ salt key. same_text key;
}

abbrev request : Creation
request = record {
  label = codes "desk";
  allowed_symbols = codes "SPX" ∷ [];
  expires_at = some 100;
  plaintext = codes "ak_1";
  salt = [];
  id = codes "u1";
  now = 5;
}

abbrev fresh : Server
fresh = record {
  api_keys = [];
  audit_events = [];
  usage_delta = Dict.empty;
  usage_last_seen = Dict.empty;
}

abbrev issued : Server
issued = record {
  api_keys = new_row plain_text request ∷ [];
  audit_events = [];
  usage_delta = Dict.empty;
  usage_last_seen = Dict.empty;
}

nonempty : codes "ak_1" ≢ []
nonempty h = ground (arith, h)

require_symbol_access-create_api_key_example :
    (row : ApiKey) × (((require_symbol_access plain_text false 50
          (some (codes "spx"))
          (some (codes "ak_1"))
          (create_api_key plain_text request fresh).1).0
        ≡ ok row)
      × (to_summary row ≡ to_summary (new_row plain_text request)))
unfolding create_api_key upper same to_summary new_row
require_symbol_access-create_api_key_example =
    require_symbol_access-create_api_key plain_text request fresh
      (to_summary (new_row plain_text request)) (codes "ak_1") (codes "spx") 50 refl nonempty refl
      (omega arith)

require_symbol_access-delete_api_key_example :
    (require_symbol_access plain_text false 50 (some (codes "SPX")) (some (codes "ak_1")) (
      run plain_text
        (stream 20 (some (codes "ak_1")) (codes "SPX") ∷ delete (codes "root") 30 (codes "u2") ∷ [])
        (delete_api_key (codes "root") 10 (codes "u1") issued).1)).0
    ≡ unauthorized
unfolding delete_api_key same new_row find_key
require_symbol_access-delete_api_key_example =
    require_symbol_access-delete_api_key plain_text (new_row plain_text request) (codes "ak_1")
      (codes "root") 10
      (stream 20 (some (codes "ak_1")) (codes "SPX") ∷ delete (codes "root") 30 (codes "u2") ∷ [])
      issued false 50 (some (codes "SPX")) refl refl

authenticate_streaming_key-require_symbol_access_example :
    (require_symbol_access plain_text false 50 (some (codes "spx")) (some (codes "ak_1")) issued).0
    ≡ as_reply
        (authenticate_streaming_key plain_text 50 (some (codes "ak_1")) (codes "spx") issued).0
authenticate_streaming_key-require_symbol_access_example =
    authenticate_streaming_key-require_symbol_access plain_text 50 (codes "spx")
      (some (codes "ak_1")) issued
