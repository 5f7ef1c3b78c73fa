-- ===== src/Database.antt =====
-- database.py: the tables of `BotDatabase` and the statements that change them. Every call takes
-- the second that `_now()` reads. `Result` is an `sqlite3.IntegrityError`; the texts of the JSON
-- columns are opaque. The id of a run is taken to be one that `start_run` has given, as the service
-- does: the foreign keys to `runs` are not tested.
pub mod Queries
pub mod Invariant
pub mod Rows
pub mod Reserve
pub mod Joins
pub mod Statements
mod Tests
use polymarket_event_quant.Base.{
  ℕ, suc, String, Bool, true, false, not, ◌&&◌, Option, none, some, List, [], ◌∷◌, ◌++◌, map,
  str_eq, ◌==◌, is_none, is_some, filter, any, find, Result, ok, err, if◌then◌else◌,
}
use polymarket_event_quant.Base.Decimal.{Decimal}
use polymarket_event_quant.Models.{Market, PlacedOrder, Outcome, Side, Role, Status}
use polymarket_event_quant.Models.Statuses.{is_matched_or_filled}

pub data RunStatus : Type 0 where
  running completed stopped failed : RunStatus

pub record Run : Type 0 where
  pub id : ℕ
  pub started_ts : ℕ
  pub stopped_ts : Option ℕ
  pub mode : String
  pub status : RunStatus
  pub plan_json : String
  pub last_error : Option String

pub data MarketState : Type 0 where
  placing placement_pending active skipped expired error exit_error : MarketState

pub record MarketRow : Type 0 where
  pub run_id : ℕ
  pub market : Market
  pub open market use *
  pub state : MarketState
  pub error : Option String
  pub updated_ts : ℕ

pub record OrderRow : Type 0 where
  pub order_id : String
  pub run_id : ℕ
  pub slug : String
  pub outcome : Outcome
  pub token_id : String
  pub side : Side
  pub role : Role
  pub account : String
  pub price : Decimal
  pub size : Decimal
  pub matched_size : Decimal
  pub status : Status
  pub raw_json : String
  pub created_ts : ℕ
  pub updated_ts : ℕ

pub record EventRow : Type 0 where
  pub run_id : Option ℕ
  pub ts : ℕ
  pub level : String
  pub event_type : String
  pub slug : Option String

pub record Db : Type 0 where
  pub last_run_id : ℕ
  pub runs : List Run
  pub markets : List MarketRow
  pub orders : List OrderRow
  pub events : List EventRow

abbrev pub empty : Db
empty = record { last_run_id = 0; runs = []; markets = []; orders = []; events = [] }

pub data IntegrityError : Type 0 where
  unique_slug unknown_market : IntegrityError

-- the key is the sequence of AUTOINCREMENT
unfoldable pub start_run : ℕ → String → String → Db → Db × ℕ
start_run now mode plan db =
    (record db { last_run_id = suc db.last_run_id; runs = db.runs ++ row ∷ [] }, suc db.last_run_id)
  where
    row : Run
    row = record {
      id = suc db.last_run_id;
      started_ts = now;
      stopped_ts = none;
      mode = mode;
      status = RunStatus.running;
      plan_json = plan;
      last_error = none;
    }

abbrev pub stop_row : ℕ → ℕ → RunStatus → Option String → Run → Run
stop_row now run_id status message r =
    if r.id == run_id
    then record r { stopped_ts = some now; status = status; last_error = message }
    else r

unfoldable pub stop_run : ℕ → ℕ → RunStatus → Option String → Db → Db
stop_run now run_id status message db = record db {
  runs = map (stop_row now run_id status message) db.runs;
}

unfoldable pub event : ℕ → Option ℕ → String → String → Option String → Db → Db
event now run_id level event_type slug db = record db { events = db.events ++ row ∷ [] }
  where
    row : EventRow
    row = record { run_id = run_id; ts = now; level = level; event_type = event_type; slug = slug }

abbrev pub market_row : String → Db → Option MarketRow
market_row slug db = find (λ m. str_eq m.slug slug) db.markets

unfoldable pub has_market : String → Db → Bool
has_market slug db = is_some (market_row slug db)

abbrev pub is_placement_pending : MarketState → Bool
is_placement_pending MarketState.placement_pending = true
is_placement_pending _ = false

unfoldable pub can_start_entry_plan : String → Db → Bool
can_start_entry_plan slug db = elim (market_row slug db) [
  | none ↦ true
  | some row ↦
      if not (is_placement_pending row.state)
      then false
      else is_none (find (λ o. str_eq o.slug slug) db.orders)
]

abbrev pub new_market_row : ℕ → ℕ → Market → MarketState → MarketRow
new_market_row now run_id market state = record {
  run_id = run_id;
  market = market;
  state = state;
  error = none;
  updated_ts = now;
}

-- `slug` is the primary key; the run's foreign key is taken to hold
unfoldable pub add_market : ℕ → ℕ → Market → MarketState → Db → Result IntegrityError Db
add_market now run_id market state db =
    if any (λ m. str_eq m.slug market.slug) db.markets
    then err unique_slug
    else ok (record db { markets = db.markets ++ new_market_row now run_id market state ∷ [] })

abbrev pub replace_market : MarketRow → MarketRow → MarketRow
replace_market row m = if str_eq m.slug row.slug then row else m

unfoldable pub prepare_market : ℕ → ℕ → Market → MarketState → Db → Result IntegrityError Db
unfolding has_market
prepare_market now run_id market state db =
    if not (has_market market.slug db)
    then add_market now run_id market state db
    else ok (record db {
      markets = map (replace_market (new_market_row now run_id market state)) db.markets;
    })

abbrev pub set_state_row : ℕ → String → MarketState → Option String → MarketRow → MarketRow
set_state_row now slug state message m =
    if str_eq m.slug slug then record m { state = state; error = message; updated_ts = now } else m

unfoldable pub set_market_state : ℕ → String → MarketState → Option String → Db → Db
set_market_state now slug state message db = record db {
  markets = map (set_state_row now slug state message) db.markets;
}

abbrev pub new_order_row : ℕ → ℕ → String → PlacedOrder → OrderRow
new_order_row now run_id slug o = record {
  order_id = o.order_id;
  run_id = run_id;
  slug = slug;
  outcome = o.outcome;
  token_id = o.token_id;
  side = o.side;
  role = o.role;
  account = o.account;
  price = o.price;
  size = o.size;
  matched_size = if is_matched_or_filled o.status then o.size else 0;
  status = o.status;
  raw_json = o.raw;
  created_ts = now;
  updated_ts = now;
}

-- `INSERT OR REPLACE`: a row of the same id goes, the new one stands last; the foreign key wants
-- the market. The run's foreign key is taken to hold.
unfoldable pub add_order : ℕ → ℕ → String → PlacedOrder → Db → Result IntegrityError Db
add_order now run_id slug o db =
    if any (λ m. str_eq m.slug slug) db.markets
    then ok (record db {
      orders =
          filter (λ r. not (str_eq r.order_id o.order_id)) db.orders
          ++ new_order_row now run_id slug o ∷ [];
    })
    else err unknown_market

abbrev pub update_row : ℕ → String → Status → Decimal → String → OrderRow → OrderRow
update_row now order_id status matched raw r =
    if str_eq r.order_id order_id
    then record r { status = status; matched_size = matched; raw_json = raw; updated_ts = now }
    else r

unfoldable pub update_order : ℕ → String → Status → Decimal → String → Db → Db
update_order now order_id status matched raw db = record db {
  orders = map (update_row now order_id status matched raw) db.orders;
}

abbrev pub mark_row : ℕ → List String → Status → OrderRow → OrderRow
mark_row now order_ids status r =
    if any (λ i. str_eq i r.order_id) order_ids
    then record r { status = status; updated_ts = now }
    else r

-- nothing is written for an empty list
unfoldable pub mark_orders : ℕ → List String → Status → Db → Db
mark_orders now [] status db = db
mark_orders now (i ∷ is) status db = record db {
  orders = map (mark_row now (i ∷ is) status) db.orders;
}
