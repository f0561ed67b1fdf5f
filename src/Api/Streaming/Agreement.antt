-- ===== src/Api/Streaming/Agreement.antt =====
-- The two ways in, deps.py and stream.py of archive/python-legacy/backend/app/api, compared.
use ffllowwgreeks.Prelude.{ℕ, ◌≡◌, refl, false, Option, none, some, [], ◌∷◌, Text, arith}
use ffllowwgreeks.Api.ApiKeys.{
  ApiKey, Server, Hashing, Reply, ok, unauthorized, match_key, count_use, check_matched,
  authenticate_api_key, check_access, require_symbol_access,
}
use ffllowwgreeks.Api.Streaming.{check_streaming, authenticate_streaming_key}

-- What REST answers where a stream gives this row, or none.
unfoldable pub as_reply : Option ApiKey → Reply ApiKey
as_reply none = unauthorized
as_reply (some row) = ok row

module _ (hashing : Hashing) (now : ℕ) (symbol : Text) where
  check_streaming-check_matched :
      (o : Option ApiKey) (s : Server)
      → check_access hashing (some symbol) (check_matched hashing false now o s).0
        ≡ as_reply (check_streaming hashing now symbol o s).0
  unfolding check_streaming check_matched check_access count_use as_reply
  check_streaming-check_matched none s = refl
  check_streaming-check_matched (some row) s = ground arith

  -- REST and the streams admit the same keys to a symbol with the same rows, and REST answers
  -- every other request with the one 401.
  pub authenticate_streaming_key-require_symbol_access :
      (key : Option Text) (s : Server)
      → (require_symbol_access hashing false now (some symbol) key s).0
        ≡ as_reply (authenticate_streaming_key hashing now key symbol s).0
  unfolding require_symbol_access authenticate_streaming_key authenticate_api_key check_access
      as_reply
  authenticate_streaming_key-require_symbol_access none s = refl
  authenticate_streaming_key-require_symbol_access (some []) s = refl
  authenticate_streaming_key-require_symbol_access (some (c ∷ cs)) s =
      check_streaming-check_matched (match_key hashing (c ∷ cs) s.api_keys) s
