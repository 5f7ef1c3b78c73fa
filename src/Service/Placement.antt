-- ===== src/Service/Placement.antt =====
-- service.py: `_consider_market`, `_place` without a fleet and `_place_activated_markets`.
pub mod Steps
pub mod Accounts
pub mod Budget
pub mod Live
pub mod Tests
use polymarket_event_quant.Base.{
  ℕ, suc, ◌+◌, ◌*◌, ◌%◌, String, Bool, true, false, not, ◌&&◌, Option, none, some, List, [], ◌∷◌,
  ◌++◌, any, all, find, filter, ltb, leb, ◌==◌, str_eq, Result, ok, err, if◌then◌else◌, or_else,
}
use polymarket_event_quant.Base.Concat
use polymarket_event_quant.Base.Decimal.{Decimal}
use polymarket_event_quant.Models.{
  Market, TradePlan, PlacementResult, complete, order_size, market_reserve, PlacedOrder, Status,
  Outcome, Side, Role,
}
use polymarket_event_quant.Database.{
  Db, MarketState, add_order, prepare_market, set_market_state, can_start_entry_plan,
}
use polymarket_event_quant.Database.Queries.{active_reserved_usd, daily_filled_cost}
use polymarket_event_quant.Exchange.{Exc}
use polymarket_event_quant.Exchange.Session.{Submission}
use polymarket_event_quant.Service.{Bot, Settings, RetryState, ActivationUpdate}
use polymarket_event_quant.Service.Monad.{
  Action, ◌>>=◌, ◌>>◌, pure, gets, modify, write, request, log,
}
use polymarket_event_quant.Service.Placement.Steps.{
  DualEnd, Desk, Trigger, is_activation, knock_ms, is_eligible, retry_of, drop_retry, pop_retry,
  set_retry, get_retry, off_tick, limited, note, mark, skip_market, door_answer, door_already_open,
  dry_order, legs, add_orders, failed_result, after_ambiguous, resolve_dual, submit, requeue,
  first_retry, next_retry, keep_trying, no_orders, market_parameters_activation,
}

module _ (desk : Desk) (settings : Settings) (now : ℕ) where
  abbrev pub after_incomplete :
      Market
      → PlacementResult
      → Option RetryState
      → ℕ
      → ℕ
      → Option ActivationUpdate
      → Action (Unit {0})
  after_incomplete market r retry started_ms finished_ms source =
      if r.gave_up && no_orders desk settings now r
      then skip_market desk settings now market "no acceptance within 240 s of knocking"
      else if r.retryable && no_orders desk settings now r
      then keep_trying desk settings now market r retry started_ms finished_ms source
      else pop_retry market.slug
        >> mark desk settings now market MarketState.error r.error
        >> note desk settings now "ERROR" "placement_failed" market

  abbrev pub finish :
      Market
      → Option RetryState
      → ℕ
      → ℕ
      → Option ActivationUpdate
      → PlacementResult
      → Action (Unit {0})
  finish market retry started_ms finished_ms source r =
      if complete r
      then pop_retry market.slug
        >> mark desk settings now market MarketState.active none
        >> note desk settings now "INFO" "dual_orders_placed" market
      else after_incomplete market r retry started_ms finished_ms source

  -- what follows the submission: its orders are recorded before anything else
  abbrev pub after_placement :
      Market → Option RetryState → ℕ → Option ActivationUpdate → PlacementResult → Action (Unit {0})
  after_placement market retry started_ms source r b =
      let finished_ms = desk.clock_ms b.calls in
      (add_orders desk settings now market r.orders
          >> finish market retry started_ms finished_ms source r)
        b

  abbrev pub place_live :
      Market → Option RetryState → ℕ → Option ActivationUpdate → Action (Unit {0})
  place_live market retry first_ms source b =
      let started_ms = desk.clock_ms b.calls in
      (submit desk settings now market (first_ms + knock_ms)
          >>= after_placement market retry started_ms source)
        b

  abbrev pub place_dry : Market → Action (Unit {0})
  place_dry market =
      add_orders desk settings now market (legs desk settings now desk.entry_submission market)
      >> mark desk settings now market MarketState.active none

  abbrev pub prepare_first : Market → Option RetryState → Action (Unit {0})
  prepare_first market none = write (prepare_market now settings.run_id market MarketState.placing)
  prepare_first market (some _) = pure tt

  abbrev pub place_now :
      Market → Option RetryState → ℕ → Option ActivationUpdate → Action (Unit {0})
  place_now market retry first_ms source =
      prepare_first market retry
      >> (if not settings.live then place_dry market else place_live market retry first_ms source)

  abbrev pub place_if_shut :
      Market → Option RetryState → ℕ → Option ActivationUpdate → Bool → Action (Unit {0})
  place_if_shut market retry first_ms source true =
      skip_market desk settings now market "order book already open when its turn came"
  place_if_shut market retry first_ms source false = place_now market retry first_ms source

  -- the gates of a knock, on the clock of the call
  abbrev pub place_gated :
      Market → Trigger → Option RetryState → ℕ → Option ActivationUpdate → Action (Unit {0})
  place_gated market trigger retry first_ms source b =
      (if settings.live && is_activation trigger
          then if leb (first_ms + knock_ms) (desk.clock_ms b.calls)
            then skip_market desk settings now market
                "knocking budget of 240 s used up before its turn"
            else door_already_open desk settings now market
              >>= place_if_shut market retry first_ms source
          else place_now market retry first_ms source)
        b

  abbrev pub first_started : Option RetryState → ℕ → ℕ
  first_started none clock = clock
  first_started (some r) clock = r.first_started_ts_ms

  abbrev pub place : Market → Trigger → Option ActivationUpdate → Action (Unit {0})
  place market trigger source b =
      let retry = retry_of market.slug b.placement_retries in
      place_gated market trigger retry (first_started retry (desk.clock_ms b.calls)) source b

  abbrev pub expire_retry : Market → Option RetryState → Action Bool
  expire_retry market none = pure true
  expire_retry market (some retry) =
      mark desk settings now market MarketState.expired
        (some "market ended before a complete order pair was accepted")
      >> note desk settings now "WARNING" "placement_retry_expired" market
      >> pure true

  abbrev pub over_daily : Db → Bool
  over_daily db =
      limited settings.max_daily_filled_cost
        (λ limit. leb limit (daily_filled_cost desk.day_start db))

  abbrev pub over_reserved : Db → Bool
  over_reserved db =
      limited settings.max_reserved_usd
        (λ limit. ltb limit (active_reserved_usd db + market_reserve settings.plan))

  abbrev pub place_if_ready :
      Market → Trigger → Option ActivationUpdate → Result Exc Bool → Action Bool
  place_if_ready market trigger source (err e) =
      note desk settings now "ERROR" "orderbook_check_failed" market >> pure true
  place_if_ready market trigger source (ok false) = pure true
  place_if_ready market trigger source (ok true) = place market trigger source >> pure true

  abbrev pub consider_within : Market → Trigger → Bool → Option ActivationUpdate → Action Bool
  consider_within market trigger orderbook_ready source =
      if settings.live && not orderbook_ready
      then request (λ call. desk.order_books_ready call market)
        >>= place_if_ready market trigger source
      else place market trigger source >> pure true

  abbrev pub consider_startable : Market → Trigger → Bool → Option ActivationUpdate → Action Bool
  consider_startable market trigger orderbook_ready source b =
      (if off_tick market settings.plan.buy_price
          then skip_market desk settings now market "buy price does not match market tick size"
            >> pure true
          else if any (λ t. off_tick market t.price) settings.plan.exit_targets
          then skip_market desk settings now market
              "take-profit price does not match market tick size"
            >> pure true
          else if ltb (order_size settings.plan) market.min_size
          then skip_market desk settings now market "configured order is below market minimum"
            >> pure true
          else if over_daily b.db
          then pure false
          else if over_reserved b.db
          then pure false
          else consider_within market trigger orderbook_ready source)
        b

  -- whether the markets after this one are to be considered too
  unfoldable pub consider_market : Market → Trigger → Bool → Option ActivationUpdate → Action Bool
  consider_market market trigger orderbook_ready source b =
      (if not (is_eligible market settings.run_started_ts now)
          then pop_retry market.slug
            >> expire_retry market (retry_of market.slug b.placement_retries)
          else if not (can_start_entry_plan market.slug b.db)
          then pure true
          else consider_startable market trigger orderbook_ready source)
        b

  abbrev pub go_on : Action (Unit {0}) → Bool → Action (Unit {0})
  go_on rest true = rest
  go_on rest false = pure tt

  -- the loop over the updates, which have been taken off the queue
  unfoldable pub consider_all : List ActivationUpdate → Action (Unit {0})
  consider_all [] = pure tt
  consider_all (u ∷ us) =
      consider_market u.market market_parameters_activation true (some u)
      >>= go_on (consider_all us)

  unfoldable pub place_activated_markets : Action (Unit {0})
  place_activated_markets b =
      consider_all b.activation_market_updates (record b { activation_market_updates = [] })
