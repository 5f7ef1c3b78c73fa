-- ===== src/Service/Placement/Budget.antt =====
-- The limit on reserved dollars, across a whole placement.
pub mod Placed
pub mod Rules
pub mod Steps
use polymarket_event_quant.Base.{
  ℕ, suc, ◌+◌, ◌≤◌, String, ◌≡◌, refl, Bool, true, false, not, Option, none, some, List, [], ◌∷◌,
  arith, sum_by, sum_by-append, sum_by-filter, filter, str_eq, Result, ok, err, if◌then◌else◌,
  Bool-cases, inl, inr, leb, ltb, ◌&&◌, any, ◌++◌,
}
use mathlib.Core.Path.{subst}
use polymarket_event_quant.Base.Decimal.{Decimal, mul, div, mul_mono_right}
use polymarket_event_quant.Models.{
  Market, TradePlan, PlacedOrder, PlacementResult, market_reserve, order_size, complete,
}
use polymarket_event_quant.Database.{
  Db, add_order, prepare_market, new_order_row, IntegrityError, add_market, event, set_market_state,
  MarketState, can_start_entry_plan,
}
use polymarket_event_quant.Database.Queries.{active_reserved_usd, reserved_of}
use polymarket_event_quant.Exchange.Session.{Submission}
use polymarket_event_quant.Exchange.{Exc}
use polymarket_event_quant.Service.{Bot, Settings, ActivationUpdate, RetryState}
use polymarket_event_quant.Service.Monad.{Action, ◌>>=◌, ◌>>◌, pure, write, write_result}
use polymarket_event_quant.Service.Placement.{
  consider_market, place_dry, after_incomplete, after_placement, place_live, place_now, place,
  finish, prepare_first, place_if_shut, place_gated, place_if_ready, consider_within,
  consider_startable, first_started, over_daily, over_reserved, expire_retry, consider_all, go_on,
  place_activated_markets,
}
use polymarket_event_quant.Service.Placement.Steps.{
  Desk, DualEnd, add_orders, pop_retry, skip_market, note, mark, Trigger, requeue, keep_trying,
  resolve_dual, no_orders, failed_result, knock_ms, after_ambiguous, legs, door_answer,
  door_already_open, retry_of, is_activation, off_tick, is_eligible,
}
use polymarket_event_quant.Models.Statuses.{is_buy, is_tracked}
use polymarket_event_quant.Service.Placement.Budget.Rules.{
  Holds, Keeps, Spends, Kept, ◌⨟◌, order_reserve, Spends-then, Spends-after, Spends-kept, Spends-if,
  if-Holds, Keeps-bind, Keeps-pure, IsExact,
}
use polymarket_event_quant.Service.Placement.Budget.Steps.{
  skipped, Spends-placement, Keeps-prepare, noted, popped, Spends-add_orders, returned, marked,
  Keeps-mark,
}
use polymarket_event_quant.Service.Placement.Budget.Placed.{FitsDesk, Spends-place}

module _ (limit : Decimal) (desk : Desk) (settings : Settings) (now : ℕ) where
  module _ (fits : FitsDesk settings.plan desk) (exact : IsExact settings.plan) where
    Spends-ready :
        (m : Market) (trigger : Trigger) (source : Option ActivationUpdate) (r : Result Exc Bool)
        → Spends limit
            (market_reserve settings.plan)
            (place_if_ready desk settings now m trigger source r)
    Spends-ready m trigger source (err e) b h =
        Spends-kept
          (noted limit desk settings now (market_reserve settings.plan) "ERROR"
              "orderbook_check_failed" m
            ⨟ returned limit desk settings now (market_reserve settings.plan) true)
          b h
    Spends-ready m trigger source (ok false) b h = omega (arith, h)
    Spends-ready m trigger source (ok true) b h =
        Spends-then limit (market_reserve settings.plan) (place desk settings now m trigger source)
          (λ _. pure true) (Spends-place limit desk settings now fits exact m trigger source)
          (λ _. Keeps-pure limit 0 true) b h

    Spends-considered :
        (m : Market) (trigger : Trigger) (ready : Bool) (source : Option ActivationUpdate)
        → Spends limit
            (market_reserve settings.plan)
            (consider_within desk settings now m trigger ready source)
    Spends-considered m trigger ready source =
        Spends-if limit (market_reserve settings.plan) (settings.live && not ready) _
          (place desk settings now m trigger source >> pure true)
          (λ b h.
            Spends-ready m trigger source (desk.order_books_ready b.calls m)
              (record b { calls = suc b.calls }) h)
          (Spends-then limit (market_reserve settings.plan)
            (place desk settings now m trigger source) (λ _. pure true)
            (Spends-place limit desk settings now fits exact m trigger source)
            (λ _. Keeps-pure limit 0 true))

    skip_then :
        (m : Market) (reason : String)
        → Keeps limit 0 (skip_market desk settings now m reason >> pure true)
    skip_then m reason =
        (skipped limit desk settings now 0 m reason ⨟ returned limit desk settings now 0 true).keeps

    room :
        settings.max_reserved_usd ≡ some limit
        → (b : Bot) → over_reserved desk settings now b.db ≡ false
        → Holds limit (market_reserve settings.plan) b
    room e b over = ground arith

    Keeps-expired :
        (m : Market) (retry : Option RetryState) (b : Bot)
        → Holds limit 0 b
        → Holds limit 0 ((pop_retry m.slug >> expire_retry desk settings now m retry) b).1
    Keeps-expired m none b h = h
    Keeps-expired m (some r) b h =
        (popped limit desk settings now 0 m.slug
            ⨟ (marked limit desk settings now 0 m MarketState.expired
                  (some "market ended before a complete order pair was accepted")
                ⨟ noted limit desk settings now 0 "WARNING" "placement_retry_expired" m
                ⨟ returned limit desk settings now 0 true)).keeps
          b h

    Keeps-startable :
        (m : Market) (trigger : Trigger) (ready : Bool) (source : Option ActivationUpdate)
        → settings.max_reserved_usd ≡ some limit
        → Keeps limit 0 (consider_startable desk settings now m trigger ready source)
    Keeps-startable m trigger ready source e b h =
        if-Holds limit (off_tick m settings.plan.buy_price) _ _ b
          (skip_then m "buy price does not match market tick size" b h)
          λ _.
            if-Holds limit (any (λ t. off_tick m t.price) settings.plan.exit_targets) _ _ b
              (skip_then m "take-profit price does not match market tick size" b h)
              λ _.
                if-Holds limit (ltb (order_size settings.plan) m.min_size) _ _ b
                  (skip_then m "configured order is below market minimum" b h)
                  λ _. if-Holds limit (over_daily desk settings now b.db) _ _ b h λ _.
                    if-Holds limit (over_reserved desk settings now b.db) _ _ b h
                      λ over. Spends-considered m trigger ready source b (room e b over)

    Keeps-considered :
        (m : Market) (trigger : Trigger) (ready : Bool) (source : Option ActivationUpdate)
        → settings.max_reserved_usd ≡ some limit
        → Keeps limit 0 (consider_market desk settings now m trigger ready source)
    unfolding consider_market
    Keeps-considered m trigger ready source e b h =
        if-Holds limit (not (is_eligible m settings.run_started_ts now)) _ _ b
          (Keeps-expired m (retry_of m.slug b.placement_retries) b h)
          λ _.
            if-Holds limit (not (can_start_entry_plan m.slug b.db)) _ _ b h
              λ _. Keeps-startable m trigger ready source e b h

    Keeps-go_on :
        (rest : Action (Unit {0}))
        → Keeps limit 0 rest
        → (more : Bool) → Keeps limit 0 (go_on desk settings now rest more)
    Keeps-go_on rest k true b h = k b h
    Keeps-go_on rest k false b h = h

    Keeps-all :
        (us : List ActivationUpdate)
        → settings.max_reserved_usd ≡ some limit
        → Keeps limit 0 (consider_all desk settings now us)
    unfolding consider_all
    Keeps-all [] e b h = h
    Keeps-all (u ∷ us) e b h =
        Keeps-bind limit 0
          (consider_market desk settings now u.market Trigger.market_parameters_activation true
            (some u))
          (go_on desk settings now (consider_all desk settings now us))
          (Keeps-considered u.market Trigger.market_parameters_activation true (some u) e)
          (Keeps-go_on (consider_all desk settings now us) (Keeps-all us e)) b h

-- Where a limit on reserved dollars is set and the open buys are within it, they are within it after
-- all the queued markets have been considered and placed, dry or live, whatever the exchange
-- replies: on the condition that the plan's dollars are an exact multiple of its price, to the
-- twelfth digit of the size, and that a placement returns orders that together cost at most what the
-- plan reserves for a market.
pub placement_within_limit :
    (limit : Decimal) (desk : Desk) (settings : Settings) (now : ℕ) (b : Bot)
    → FitsDesk settings.plan desk
    → IsExact settings.plan
    → settings.max_reserved_usd ≡ some limit
    → active_reserved_usd b.db ≤ limit
    → active_reserved_usd ((place_activated_markets desk settings now b).1).db ≤ limit
unfolding place_activated_markets
placement_within_limit limit desk settings now b fits exact e h = omega (
  arith,
  Keeps-all limit desk settings now fits exact b.activation_market_updates e
      (record b { activation_market_updates = [] }) (omega (arith, h)),
)
