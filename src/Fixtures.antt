-- ===== src/Fixtures.antt =====
-- Small concrete data for the tests: one market, a plan with two rungs, tables with a filled entry,
-- and a venue that accepts every order.
use polymarket_event_quant.Base.{
  ℕ, String, Bool, true, false, Option, none, some, List, [], ◌∷◌, Result, ok, err,
}
use polymarket_event_quant.Base.Text.{codes}
use polymarket_event_quant.Base.Decimal.{Decimal}
use polymarket_event_quant.Models.{TradePlan, Market, Outcome, Side, Role, Status, PlacedOrder}
use polymarket_event_quant.Database.{Db, MarketRow, MarketState, OrderRow}
use polymarket_event_quant.Database.Queries.{Joined}
use polymarket_event_quant.Exchange.{RawOrder, value}
use polymarket_event_quant.Exchange.Client.{Client, Reply}
use polymarket_event_quant.Service.{Bot, Settings}

-- n hundredths
abbrev pub cents : ℕ → Decimal
cents n = polymarket_event_quant.Base.◌*◌ n 10_000_000_000

abbrev pub plan : TradePlan
plan = record {
  buy_price = cents 10;
  exit_targets =
      record { price = cents 20; fraction = cents 50 }
      ∷ record { price = cents 50; fraction = cents 25 }
      ∷ [];
  usd_per_side = cents 1000;
}

abbrev pub market : Market
market = record {
  slug = "btc-updown-5m-300";
  condition_id = "0xc1";
  start_ts = 300;
  end_ts = 600;
  up_token_id = "u1";
  down_token_id = "d1";
  min_size = cents 500;
  tick_size = cents 1;
}

abbrev pub market_row : MarketRow
market_row = record {
  run_id = 1;
  market = market;
  state = MarketState.active;
  error = none;
  updated_ts = 200;
}

-- a bought Up order, wholly matched
abbrev pub entry : OrderRow
entry = record {
  order_id = "e1";
  run_id = 1;
  slug = "btc-updown-5m-300";
  outcome = Outcome.up;
  token_id = "u1";
  side = Side.buy;
  role = Role.entry_role;
  account = "";
  price = cents 10;
  size = cents 10000;
  matched_size = cents 10000;
  status = Status.filled;
  raw_json = "{}";
  created_ts = 210;
  updated_ts = 320;
}

abbrev pub open_entry : OrderRow
open_entry = record entry {
  order_id = "e2";
  outcome = Outcome.down;
  token_id = "d1";
  matched_size = 0;
  status = Status.live;
}

abbrev pub db : Db
db = record {
  last_run_id = 1;
  runs = [];
  markets = market_row ∷ [];
  orders = entry ∷ open_entry ∷ [];
  events = [];
}

abbrev pub joined : Joined
joined = record { row = entry; market = market_row }

abbrev pub placed : PlacedOrder
placed = record {
  order_id = "x1";
  outcome = Outcome.up;
  token_id = "u1";
  price = cents 20;
  size = cents 600;
  status = Status.live;
  raw = "{}";
  side = Side.sell;
  role = Role.exit_role;
  account = "";
}

abbrev pub raw_order : RawOrder
raw_order = record {
  id = some "e9";
  order_id_upper = none;
  order_id_camel = none;
  asset_id = some "u1";
  asset_id_camel = none;
  market = some "0xc1";
  price = some (value (cents 10));
  original_size = some (value (cents 10000));
  original_size_camel = none;
  size = none;
  size_matched = some (value (cents 100));
  size_matched_camel = none;
  matched_size = none;
  side = some (codes "buy");
  status = some (codes "ORDER_STATUS_LIVE");
  type_name = none;
  account = none;
  json = "{}";
}

abbrev pub reply : Reply
reply = record { accepted = true; order_id = some "x1"; status = some (codes "live"); json = "{}" }

-- every exit is accepted, 60 tokens are free, and the venue shows `raw_order` alone
abbrev pub client : Client
client = record {
  post_exit = λ call m token price size. ok reply;
  get_open_orders = λ call condition. ok (raw_order ∷ []);
  get_order = λ call order_id. ok none;
  get_balance_allowance = λ call token. ok 60_000_000;
  cancel_orders = λ call ids. ok (some (record { canceled = ids; not_canceled = none }));
  order_book_exists = λ call token. ok true;
  classified_id = λ raw. raw.id;
}

abbrev pub settings : Settings
settings = record {
  plan = plan;
  run_id = 1;
  run_started_ts = 100;
  max_reserved_usd = none;
  max_daily_filled_cost = none;
  cancel_before_end_seconds = 2;
  live = true;
  activation = true;
  time_ns_text = λ call. "1";
}

abbrev pub bot : Bot
bot = record {
  db = db;
  calls = 0;
  placement_retries = [];
  activation_market_updates = [];
  rearmed = false;
}
