-- ===== src/Paper/Tables.antt =====
-- paper.py: the table of `PaperDatabase` and its statements. The key of a row is its strategy and
-- its slug.
use polymarket_event_quant.Base.{
  ℕ, ◌+◌, String, Bool, true, false, not, ◌&&◌, Option, none, some, List, [], ◌∷◌, ◌++◌, map, leb,
  str_eq, find, any, filter, sort_by, if◌then◌else◌,
}
use polymarket_event_quant.Paper.{PaperResult, EvidenceEvent}
use mathlib.Core.Option
use polymarket_event_quant.Models.{TradePlan, order_size}
use polymarket_event_quant.Service.{ActivationUpdate}
use polymarket_event_quant.Base.Decimal.{Decimal}

pub data PaperStatus : Type 0 where
  snapshot_pending monitoring settled missed : PaperStatus

pub record PaperRow : Type 0 where
  pub strategy_key : String
  pub slug : String
  pub condition_id : String
  pub start_ts : ℕ
  pub end_ts : ℕ
  pub up_token_id : String
  pub down_token_id : String
  pub market_discovered_ts_ms : ℕ
  pub market_parameters_detected_ts_ms : ℕ
  pub snapshot_ts_ms : Option ℕ
  pub book_source_ts_ms : Option ℕ
  pub buy_price : Decimal
  pub order_size : Decimal
  pub up_queue_ahead : Option Decimal
  pub down_queue_ahead : Option Decimal
  pub status : PaperStatus
  pub result : Option PaperResult
  pub trade_count : Option ℕ
  pub evidence : List EvidenceEvent
  pub error : Option String
  pub updated_ts : ℕ

-- the one row of `paper_state`
pub record PaperState : Type 0 where
  pub strategy_key : String
  pub buy_price : Decimal
  pub usd_per_side : Decimal
  pub order_size : Decimal
  pub started_ts : ℕ
  pub heartbeat_ts : ℕ

pub record PaperDb : Type 0 where
  pub state : Option PaperState
  pub markets : List PaperRow

abbrev pub is_row : String → String → PaperRow → Bool
is_row key slug r = str_eq r.strategy_key key && str_eq r.slug slug

abbrev pub paper_row : String → String → List PaperRow → Option PaperRow
paper_row key slug rows = find (is_row key slug) rows

abbrev pub is_snapshot_pending : PaperStatus → Bool
is_snapshot_pending PaperStatus.snapshot_pending = true
is_snapshot_pending _ = false

abbrev pub is_monitoring : PaperStatus → Bool
is_monitoring PaperStatus.monitoring = true
is_monitoring _ = false

abbrev pub is_settled : PaperStatus → Bool
is_settled PaperStatus.settled = true
is_settled _ = false

-- the text of `strategy_key(plan)` is a parameter of `start`
pub start : ℕ → String → TradePlan → PaperDb → PaperDb
start now key plan db = record db {
  state = some record {
    strategy_key = key;
    buy_price = plan.buy_price;
    usd_per_side = plan.usd_per_side;
    order_size = order_size plan;
    started_ts = now;
    heartbeat_ts = now;
  };
}

abbrev beat : ℕ → PaperState → PaperState
beat now s = record s { heartbeat_ts = now }

pub heartbeat : ℕ → PaperDb → PaperDb
heartbeat now db = record db { state = Option.map (beat now) db.state }

abbrev pub new_paper_row : ℕ → String → ActivationUpdate → TradePlan → PaperRow
new_paper_row now key u plan = record {
  strategy_key = key;
  slug = u.market.slug;
  condition_id = u.market.condition_id;
  start_ts = u.market.start_ts;
  end_ts = u.market.end_ts;
  up_token_id = u.market.up_token_id;
  down_token_id = u.market.down_token_id;
  market_discovered_ts_ms = u.market_discovered_ts_ms;
  market_parameters_detected_ts_ms = u.market_parameters_detected_ts_ms;
  snapshot_ts_ms = none;
  book_source_ts_ms = none;
  buy_price = plan.buy_price;
  order_size = order_size plan;
  up_queue_ahead = none;
  down_queue_ahead = none;
  status = PaperStatus.snapshot_pending;
  result = none;
  trade_count = none;
  evidence = [];
  error = none;
  updated_ts = now;
}

-- INSERT OR IGNORE: whether a row was written
unfoldable pub register : ℕ → String → ActivationUpdate → TradePlan → PaperDb → Bool × PaperDb
register now key u plan db =
    if any (is_row key u.market.slug) db.markets
    then (false, db)
    else (true, record db { markets = db.markets ++ new_paper_row now key u plan ∷ [] })

unfoldable pub pending_snapshots : String → PaperDb → List PaperRow
pending_snapshots key db =
    sort_by (λ r. r.market_parameters_detected_ts_ms)
      (filter (λ r. str_eq r.strategy_key key && is_snapshot_pending r.status) db.markets)

abbrev pub expire_row : String → ℕ → PaperRow → PaperRow
expire_row key now r =
    if str_eq r.strategy_key key && (is_snapshot_pending r.status && leb r.end_ts now)
    then record r {
      status = PaperStatus.missed;
      error = some "public order book was not observed before market end";
      updated_ts = now;
    }
    else r

unfoldable pub expire_pending_snapshots : String → ℕ → PaperDb → PaperDb
expire_pending_snapshots key now db = record db { markets = map (expire_row key now) db.markets }

abbrev pub finalization_delay_seconds : ℕ
finalization_delay_seconds = 120

unfoldable pub ready_to_settle : String → ℕ → PaperDb → List PaperRow
ready_to_settle key now db =
    sort_by (λ r. r.end_ts)
      (filter
        (λ r.
          str_eq r.strategy_key key
          && (is_monitoring r.status && leb (r.end_ts + finalization_delay_seconds) now))
        db.markets)

-- UPDATE ... WHERE strategy_key=? AND slug=?
abbrev pub change_row : String → String → (PaperRow → PaperRow) → PaperRow → PaperRow
change_row key slug f r = if is_row key slug r then f r else r

abbrev pub change : String → String → (PaperRow → PaperRow) → PaperDb → PaperDb
change key slug f db = record db { markets = map (change_row key slug f) db.markets }

abbrev pub snapshot_row : ℕ → ℕ → ℕ → Decimal → Decimal → PaperRow → PaperRow
snapshot_row now snapshot_ts_ms book_source_ts_ms up down r = record r {
  snapshot_ts_ms = some snapshot_ts_ms;
  book_source_ts_ms = some book_source_ts_ms;
  up_queue_ahead = some up;
  down_queue_ahead = some down;
  status = PaperStatus.monitoring;
  error = none;
  updated_ts = now;
}

unfoldable pub set_snapshot : ℕ → String → String → ℕ → ℕ → Decimal → Decimal → PaperDb → PaperDb
set_snapshot now key slug snapshot_ts_ms book_source_ts_ms up down =
    change key slug (snapshot_row now snapshot_ts_ms book_source_ts_ms up down)

abbrev pub same_error : String → Option String → Bool
same_error e none = false
same_error e (some e') = str_eq e' e

abbrev pub error_row : ℕ → String → PaperRow → PaperRow
error_row now e r = record r { error = some e; updated_ts = now }

-- whether the text is a new one for the row
unfoldable pub set_error : ℕ → String → String → String → PaperDb → Bool × PaperDb
set_error now key slug e db = (
  elim (paper_row key slug db.markets) [ none ↦ true | some r ↦ not (same_error e r.error) ],
  change key slug (error_row now e) db,
)

abbrev pub result_row : ℕ → PaperResult → ℕ → PaperRow → PaperRow
result_row now result trade_count r = record r {
  status = PaperStatus.settled;
  result = some result;
  trade_count = some trade_count;
  evidence = result.up_evidence.events ++ result.down_evidence.events;
  error = none;
  updated_ts = now;
}

unfoldable pub set_result : ℕ → String → String → PaperResult → ℕ → PaperDb → PaperDb
set_result now key slug result trade_count = change key slug (result_row now result trade_count)
