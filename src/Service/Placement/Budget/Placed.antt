-- ===== src/Service/Placement/Budget/Placed.antt =====
-- What one placement reserves, dry or live.
use polymarket_event_quant.Base.{
  ℕ, suc, ◌+◌, ◌≤◌, Bool, true, false, not, Option, none, some, arith, sum_by, Result, ok, err,
  if◌then◌else◌, leb, ◌&&◌, ◌*◌,
}
use polymarket_event_quant.Base.Decimal.{Decimal, one}
use polymarket_event_quant.Models.{Market, TradePlan, PlacementResult, market_reserve, order_size}
use polymarket_event_quant.Database.{MarketState}
use polymarket_event_quant.Exchange.Session.{Submission}
use polymarket_event_quant.Exchange.{Exc}
use polymarket_event_quant.Service.{Settings, ActivationUpdate, RetryState}
use polymarket_event_quant.Service.Monad.{◌>>=◌}
use polymarket_event_quant.Service.Placement.{
  place_dry, after_placement, place_live, place_now, place, prepare_first, place_if_shut,
  place_gated, first_started,
}
use polymarket_event_quant.Service.Placement.Steps.{
  Desk, DualEnd, add_orders, mark, Trigger, resolve_dual, failed_result, knock_ms, after_ambiguous,
  legs, door_answer, door_already_open, retry_of, is_activation,
}
use polymarket_event_quant.Service.Placement.Budget.Rules.{
  Holds, Keeps, Spends, ◌⨟◌, order_reserve, Spends-then, Spends-after, Spends-kept, Spends-if,
  order_cost, IsExact, cost-reserve, IsExact-reserve,
}
use polymarket_event_quant.Service.Placement.Budget.Steps.{
  skipped, Spends-placement, Keeps-prepare, noted, Spends-add_orders, returned, Keeps-mark,
}

abbrev pub FitsEnd : Decimal → DualEnd → Type 0
FitsEnd n (DualEnd.placed r) = sum_by order_cost r.orders ≤ n * one
FitsEnd n _ = Unit

abbrev pub FitsResult : Decimal → Result Exc PlacementResult → Type 0
FitsResult n (ok r) = sum_by order_cost r.orders ≤ n * one
FitsResult n (err e) = Unit

-- The exchange returns orders that cost at most what the plan reserves for a market.
abbrev pub FitsDesk : TradePlan → Desk → Type 0
FitsDesk plan desk =
    ((call : ℕ) (m : Market) (until : ℕ)
      → FitsEnd (market_reserve plan)
          (desk.place_dual call m plan.buy_price (order_size plan) until))
    × ((call : ℕ) (m : Market) (retryable : Bool)
        → FitsResult (market_reserve plan)
            (desk.reconcile_ambiguous_dual call m plan.buy_price (order_size plan) retryable))

module _ (limit : Decimal) (desk : Desk) (settings : Settings) (now : ℕ) where
  abbrev pub reserve : ℕ
  reserve = market_reserve settings.plan

  module _ (fits : FitsDesk settings.plan desk) (exact : IsExact settings.plan) where
    Spends-resolved :
        (m : Market) (retry : Option RetryState) (started : ℕ) (source : Option ActivationUpdate)
        (end : DualEnd)
        → FitsEnd reserve end
        → Spends limit reserve (
            resolve_dual desk settings now m end
            >>= after_placement desk settings now m retry started source)
    Spends-resolved m retry started source (DualEnd.placed r) le b h =
        Spends-placement limit desk settings now m retry started source reserve r
          (cost-reserve reserve r.orders le) b h
    Spends-resolved m retry started source (DualEnd.raised e) le b h =
        Spends-placement limit desk settings now m retry started source reserve
          (failed_result desk settings now e false 1) (omega arith) b h
    Spends-resolved m retry started source (DualEnd.ambiguous e retryable attempts) le b h =
        go
          (desk.reconcile_ambiguous_dual b.calls m settings.plan.buy_price
            (order_size settings.plan) retryable)
          (fits.1 b.calls m retryable)
      where
        go :
            (r : Result Exc PlacementResult)
            → FitsResult reserve r
            → Holds limit 0
                (after_placement desk settings now m retry started source
                  (after_ambiguous desk settings now e retryable attempts r)
                  (record b { calls = suc b.calls })).1
        go (ok r) le =
            Spends-placement limit desk settings now m retry started source reserve
              (after_ambiguous desk settings now e retryable attempts (ok r))
              (cost-reserve reserve r.orders le) (record b { calls = suc b.calls }) h
        go (err e') le =
            Spends-placement limit desk settings now m retry started source reserve
              (after_ambiguous desk settings now e retryable attempts (err e')) (omega arith)
              (record b { calls = suc b.calls }) h

    Spends-live :
        (m : Market) (retry : Option RetryState) (first : ℕ) (source : Option ActivationUpdate)
        → Spends limit reserve (place_live desk settings now m retry first source)
    Spends-live m retry first source b h =
        Spends-resolved m retry (desk.clock_ms b.calls) source _
          (fits.0 b.calls m (first + knock_ms)) (record b { calls = suc b.calls }) h

    legs-reserve :
        (m : Market) (how : Submission)
        → sum_by order_reserve (legs desk settings now how m) ≤ reserve
    legs-reserve m Submission.both_sides = omega (arith, IsExact-reserve settings.plan exact)
    legs-reserve m Submission.solo_up = omega (arith, IsExact-reserve settings.plan exact)
    legs-reserve m Submission.solo_down = omega (arith, IsExact-reserve settings.plan exact)

    Spends-dry : (m : Market) → Spends limit reserve (place_dry desk settings now m)
    Spends-dry m =
        Spends-then limit reserve
          (add_orders desk settings now m (legs desk settings now desk.entry_submission m))
          (λ _. mark desk settings now m MarketState.active none)
          (Spends-add_orders limit desk settings now m _ reserve
            (legs-reserve m desk.entry_submission))
          (λ _. Keeps-mark limit desk settings now 0 m MarketState.active none)

    Keeps-first :
        (m : Market) (retry : Option RetryState)
        → Keeps limit reserve (prepare_first desk settings now m retry)
    Keeps-first m none b h = Keeps-prepare limit desk settings now reserve m MarketState.placing b h
    Keeps-first m (some _) b h = h

    Spends-now :
        (m : Market) (retry : Option RetryState) (first : ℕ) (source : Option ActivationUpdate)
        → Spends limit reserve (place_now desk settings now m retry first source)
    Spends-now m retry first source =
        Spends-after limit reserve (prepare_first desk settings now m retry)
          (λ _.
            if not settings.live
            then place_dry desk settings now m
            else place_live desk settings now m retry first source)
          (Keeps-first m retry)
          (λ _.
            Spends-if limit reserve (not settings.live) _ _ (Spends-dry m)
              (Spends-live m retry first source))

    Spends-if_shut :
        (m : Market) (retry : Option RetryState) (first : ℕ) (source : Option ActivationUpdate)
        (ready : Bool)
        → Spends limit reserve (place_if_shut desk settings now m retry first source ready)
    Spends-if_shut m retry first source true b h =
        Spends-kept
          (skipped limit desk settings now reserve m "order book already open when its turn came") b
          h
    Spends-if_shut m retry first source false b h = Spends-now m retry first source b h

    Keeps-answer :
        (m : Market) (r : Result Exc Bool) → Keeps limit reserve (door_answer desk settings now m r)
    Keeps-answer m (ok ready) b h = h
    Keeps-answer m (err e) b h =
        (noted limit desk settings now reserve "ERROR" "orderbook_check_failed" m
            ⨟ returned limit desk settings now reserve false).keeps
          b h

    Keeps-door : (m : Market) → Keeps limit reserve (door_already_open desk settings now m)
    Keeps-door m b h =
        Keeps-answer m (desk.order_books_ready b.calls m) (record b { calls = suc b.calls }) h

    Spends-gated :
        (m : Market) (trigger : Trigger) (retry : Option RetryState) (first : ℕ)
        (source : Option ActivationUpdate)
        → Spends limit reserve (place_gated desk settings now m trigger retry first source)
    Spends-gated m trigger retry first source b =
        Spends-if limit reserve (settings.live && is_activation trigger) _
          (place_now desk settings now m retry first source)
          (Spends-if limit reserve (leb (first + knock_ms) (desk.clock_ms b.calls)) _
            (door_already_open desk settings now m
              >>= place_if_shut desk settings now m retry first source)
            (Spends-kept (
              skipped limit desk settings now reserve m
                "knocking budget of 240 s used up before its turn"))
            (Spends-after limit reserve (door_already_open desk settings now m)
              (place_if_shut desk settings now m retry first source) (Keeps-door m)
              (Spends-if_shut m retry first source)))
          (Spends-now m retry first source) b

    pub Spends-place :
        (m : Market) (trigger : Trigger) (source : Option ActivationUpdate)
        → Spends limit reserve (place desk settings now m trigger source)
    Spends-place m trigger source b =
        Spends-gated m trigger (retry_of m.slug b.placement_retries)
          (first_started desk settings now (retry_of m.slug b.placement_retries)
            (desk.clock_ms b.calls))
          source b
