-- ===== src/Service.antt =====
-- service.py: the state of `BotService` that its handlers share, and the form of a handler.
pub mod Monad
pub mod Exits
pub mod Cancel
pub mod Reconcile
pub mod Adopt
pub mod Stream
pub mod Placement
pub mod Loop
use polymarket_event_quant.Base.{ℕ, String, Bool, Option, List}
use polymarket_event_quant.Base.Decimal.{Decimal}
use polymarket_event_quant.Models.{TradePlan, Market}
use polymarket_event_quant.Database.{Db}

-- `_PlacementRetryState`, under its slug
pub record RetryState : Type 0 where
  pub slug : String
  pub attempts : ℕ
  pub first_started_ts_ms : ℕ
  pub last_finished_ts_ms : ℕ

-- MarketActivationUpdate of market_activation.py
pub record ActivationUpdate : Type 0 where
  pub market : Market
  pub market_discovered_ts_ms : ℕ
  pub market_parameters_detected_ts_ms : ℕ

-- what the constructor fixes for a run, and the text of the clock at a call of the venue
pub record Settings : Type 0 where
  pub plan : TradePlan
  pub run_id : ℕ
  pub run_started_ts : ℕ
  pub max_reserved_usd : Option Decimal
  pub max_daily_filled_cost : Option Decimal
  pub cancel_before_end_seconds : ℕ
  -- `self.exchange` is there
  pub live : Bool
  -- a market activation worker is there
  pub activation : Bool
  pub time_ns_text : ℕ → String

-- `calls` counts the requests to the venue; `rearmed` is `last_discovery = 0.0`
pub record Bot : Type 0 where
  pub db : Db
  pub calls : ℕ
  pub placement_retries : List RetryState
  pub activation_market_updates : List ActivationUpdate
  pub rearmed : Bool
