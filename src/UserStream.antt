-- ===== src/UserStream.antt =====
-- user_stream.py: what the authenticated socket's events become, and the state of a worker. The
-- events come from the official client, read into records; the queue is the list of its updates.
pub mod Registered
pub mod Health
mod Tests
use polymarket_event_quant.Base.{
  ℕ, String, Bool, true, false, not, ◌&&◌, ◌||◌, Option, none, some, List, [], ◌∷◌, ◌++◌, leb,
  str_eq, if◌then◌else◌, any,
}
use polymarket_event_quant.Models.{Status}
use polymarket_event_quant.Base.Decimal.{Decimal}

pub data EventType : Type 0 where
  placement update cancellation : EventType

-- the texts of a payload's status that the code tells apart
pub data PayloadStatus : Type 0 where
  canceled_status delayed_status unmatched_status other_status : PayloadStatus

-- UserOrderEvent.payload, its times in milliseconds
pub record OrderPayload : Type 0 where
  pub id : String
  pub order_event_type : EventType
  pub status : PayloadStatus
  pub size_matched : Decimal
  pub original_size : Decimal
  pub timestamp : Option ℕ
  pub created_at : Option ℕ
  pub json : String

pub record UserOrderUpdate : Type 0 where
  pub order_id : String
  pub status : Status
  pub matched_size : Decimal
  pub raw : String
  pub event_type : EventType
  pub exchange_event_ts_ms : Option ℕ
  pub exchange_created_ts_ms : Option ℕ
  pub received_ts_ms : ℕ

pub record UserStreamState : Type 0 where
  pub healthy : Bool
  pub recovered : Bool
  pub error : Option String

pub data TradeStatus : Type 0 where
  mined confirmed other_trade_status : TradeStatus

pub record UserTradeUpdate : Type 0 where
  pub trade_id : String
  pub status : TradeStatus
  pub order_ids : List String

pub data StreamUpdate : Type 0 where
  order_update : UserOrderUpdate → StreamUpdate
  trade_update : UserTradeUpdate → StreamUpdate
  state_update : UserStreamState → StreamUpdate

abbrev pub is_cancellation : EventType → Bool
is_cancellation cancellation = true
is_cancellation _ = false

abbrev pub is_placement : EventType → Bool
is_placement placement = true
is_placement _ = false

abbrev pub is_canceled : PayloadStatus → Bool
is_canceled canceled_status = true
is_canceled _ = false

-- the state of a payload that is neither a cancellation nor filled
abbrev pub open_status : PayloadStatus → Status
open_status delayed_status = Status.delayed
open_status unmatched_status = Status.unmatched
open_status _ = Status.live

unfoldable pub stream_status : OrderPayload → Status
stream_status p =
    if is_cancellation p.order_event_type || is_canceled p.status
    then Status.cancelled
    else if leb p.original_size p.size_matched
    then Status.filled
    else open_status p.status

unfoldable pub normalize_stream_order : ℕ → OrderPayload → UserOrderUpdate
normalize_stream_order now_ms p = record {
  order_id = p.id;
  status = stream_status p;
  matched_size = p.size_matched;
  raw = p.json;
  event_type = p.order_event_type;
  exchange_event_ts_ms = p.timestamp;
  exchange_created_ts_ms = p.created_at;
  received_ts_ms = now_ms;
}

-- tuple(dict.fromkeys(ids)): each id once, at its first place
unfoldable pub distinct : List String → List String → List String
distinct seen [] = []
distinct seen (i ∷ is) =
    let rest = distinct (i ∷ seen) is in
    let skipped = distinct seen is in if any (str_eq i) seen then skipped else i ∷ rest

unfoldable pub normalize_trade : String → TradeStatus → String → List String → UserTradeUpdate
normalize_trade trade_id status taker_order_id maker_order_ids = record {
  trade_id = trade_id;
  status = status;
  order_ids = distinct [] (taker_order_id ∷ maker_order_ids);
}

-- `registered_at` in the order of its entries
pub record StreamWorker : Type 0 where
  pub healthy : Bool
  pub attempted : Bool
  pub registered_at : List (String × ℕ)
  pub updates : List StreamUpdate

abbrev pub new_worker : StreamWorker
new_worker = record { healthy = false; attempted = false; registered_at = []; updates = [] }

-- registered_ts_ms
unfoldable pub registered_ts_ms : String → List (String × ℕ) → Option ℕ
registered_ts_ms order_id [] = none
registered_ts_ms order_id ((i, ts) ∷ rest) =
    if str_eq i order_id then some ts else registered_ts_ms order_id rest

unfoldable pub set_default : String → ℕ → List (String × ℕ) → List (String × ℕ)
set_default order_id ts [] = (order_id, ts) ∷ []
set_default order_id ts ((i, t) ∷ rest) =
    if str_eq i order_id then (i, t) ∷ rest else (i, t) ∷ set_default order_id ts rest

-- the stamp that an update brings, where it tells of a placement
abbrev pub stamp_of : UserOrderUpdate → Option ℕ
stamp_of u = if is_placement u.event_type then u.exchange_event_ts_ms else none

abbrev pub register_stamp : String → Option ℕ → List (String × ℕ) → List (String × ℕ)
register_stamp order_id none stamps = stamps
register_stamp order_id (some ts) stamps = set_default order_id ts stamps

unfoldable pub accept_order : UserOrderUpdate → StreamWorker → StreamWorker
accept_order u w = record w {
  registered_at = register_stamp u.order_id (stamp_of u) w.registered_at;
  updates = w.updates ++ order_update u ∷ [];
}

abbrev pub same : Bool → Bool → Bool
same true b = b
same false b = not b

unfoldable pub set_health : Bool → Option String → StreamWorker → StreamWorker
set_health healthy error w =
    if not w.attempted || not (same w.healthy healthy)
    then record w {
      attempted = true;
      healthy = healthy;
      updates =
          w.updates
          ++ state_update (record {
            healthy = healthy;
            recovered = healthy && (w.attempted && not w.healthy);
            error = error;
          })
            ∷ [];
    }
    else record w { attempted = true; healthy = healthy }
