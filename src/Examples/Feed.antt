-- ===== src/Examples/Feed.antt =====
-- A contract that trades before it is listed, and then over two days.
use ffllowwgreeks.Prelude.{
  ◌+◌, ◌≡◌, refl, true, false, none, some, List, [], ◌∷◌, ◌++◌, codes, upper, same, pos, arith,
}
use ffllowwgreeks.Ingestion.Live.{
  Record, missing, num, other_stat, on_day, call, Contract, Settings, Live, create, update,
  record_ts,
}
use ffllowwgreeks.Ingestion.Live.Handlers.{is_zero_size, handle_trade}
use ffllowwgreeks.Ingestion.Live.Refresh.{
  Definition, fetched, read_definition, any_loaded, load_all, refresh_end,
}
use ffllowwgreeks.Ingestion.Live.Sound.{IsGood}
use ffllowwgreeks.Ingestion.Live.Runs
use ffllowwgreeks.Ingestion.Live.Runs.{create-IsGood, run-create-IsGood}
use ffllowwgreeks.Ingestion.Live.Parked.{
  Print, IsAwaited, handle_all, plain_rows, refresh_end-handle_all,
}
use ffllowwgreeks.Ingestion.Live.Volume.{
  volume_of, traded_of, share, size_of, handle_all-volume_of, handle_trade-volume_of,
}

abbrev settings : Settings
settings = record {
  drop_zero_size_trades = true;
  enable_opra_auction_detection = false;
  enable_opra_multileg_detection = false;
  quote_max_age = 5_000_000_000;
  supported_symbols = codes "SPX" ∷ [];
}

-- Two contracts at 4.50 dollars.
abbrev print : Record
print = record {
  rtype = codes "TradeMsg";
  instrument_id = some 7;
  ts_event = num 1_000_000_000;
  price = num (pos 4_500_000_000);
  last_price = missing;
  size = num 2;
  sequence = num 9;
  flags = missing;
  publisher_id = none;
  top_bid = missing;
  top_ask = missing;
  bid_px_00 = missing;
  ask_px_00 = missing;
  stat_type = other_stat;
  quantity = missing;
  value = missing;
  raw_symbol = [];
  symbol = [];
  expiration = none;
  expiration_date = none;
  strike_price = missing;
  instrument_class = [];
  option_type = [];
  err = [];
  msg = [];
  shown = [];
}

abbrev contract : Contract
contract = record {
  symbol = codes "SPX";
  expiration = 20_000;
  strike = pos 5_000_000_000_000;
  option_type = call;
}

abbrev definition : Definition
definition = record {
  underlying = codes "SPX";
  instrument_id = num 7;
  strike_price = num (pos 5_000_000_000_000);
  expiration = some (on_day 20_000);
  expiration_date = none;
  instrument_class = codes "C";
  option_type = [];
}

run-create-IsGood_example : IsGood (
    Runs.run settings
      (Runs.a_record 1 2 print
        ∷ Runs.begin_refresh 3
        ∷ Runs.end_refresh (fetched (definition ∷ []))
        ∷ Runs.session_reset
        ∷ [])
      create)
run-create-IsGood_example = run-create-IsGood settings (
    Runs.a_record 1 2 print
    ∷ Runs.begin_refresh 3
    ∷ Runs.end_refresh (fetched (definition ∷ []))
    ∷ Runs.session_reset
    ∷ [])

abbrev prints : List Print
prints = (6, contract, print) ∷ (6, contract, record print { price = num (pos 4_600_000_000) }) ∷ []

refresh_end-handle_all_example :
    (refresh_end settings (fetched (definition ∷ [])) (handle_all settings prints create)).trades
    ≡ create.trades ++ plain_rows prints
unfolding create is_zero_size IsAwaited any_loaded load_all read_definition same upper
refresh_end-handle_all_example =
    refresh_end-handle_all settings (definition ∷ []) create prints create-IsGood refl refl
      (omega arith) (((refl, refl), refl, refl), (((refl, refl), refl, refl), tt))

-- The contract is listed, and the last trade was on the first day.
abbrev listed : Live
listed = record create {
  registry = update 7 contract (λ i. none);
  volume_session_utc_date = some 0;
}

handle_all-volume_of_example :
    volume_of (handle_all settings prints listed) 7 ≡ volume_of listed 7 + traded_of 7 prints
unfolding create is_zero_size record_ts
handle_all-volume_of_example =
    handle_all-volume_of settings 0 prints listed
      (
        ((refl, refl), refl, λ ts e. ground (arith, e)),
        (((refl, refl), refl, λ ts e. ground (arith, e)), tt),
      )
      (λ e f. ground (arith, f)) 7

handle_trade-volume_of_example :
    volume_of (handle_trade settings print (record listed { volume_session_utc_date = some 3 })) 8
    ≡ share 7 8 (size_of print)
unfolding create is_zero_size record_ts
handle_trade-volume_of_example =
    handle_trade-volume_of settings 1_000_000_000 3 6 contract print
      (record listed { volume_session_utc_date = some 3 }) (refl, refl) refl refl refl
      (λ e. absurd (omega arith)) 8
