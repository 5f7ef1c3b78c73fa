-- ===== src/Service/Placement/Budget/Steps.antt =====
-- What the parts of a placement leave of the room under the limit.
use polymarket_event_quant.Base.{
  ℕ, ◌≤◌, String, Option, none, some, List, [], ◌∷◌, arith, sum_by, ◌&&◌,
}
use polymarket_event_quant.Base.Decimal.{Decimal}
use polymarket_event_quant.Models.{Market, PlacedOrder, PlacementResult, complete}
use polymarket_event_quant.Database.{
  add_order, prepare_market, event, set_market_state, MarketState,
}
use polymarket_event_quant.Database.Queries.{active_reserved_usd}
use polymarket_event_quant.Service.{Settings, ActivationUpdate, RetryState}
use polymarket_event_quant.Service.Monad.{pure, write}
use polymarket_event_quant.Service.Placement.{after_incomplete, after_placement, finish}
use polymarket_event_quant.Service.Placement.Steps.{
  Desk, add_orders, pop_retry, skip_market, note, mark, requeue, keep_trying, no_orders,
}
use polymarket_event_quant.Service.Placement.Budget.Rules.{
  Keeps, Spends, Kept, ◌⨟◌, write_result-Holds, Keeps-if, order_reserve, prepare_market-reserved,
  Spends-resume, Spends-then, add_order-reserved,
}

module _ (limit : Decimal) (desk : Desk) (settings : Settings) (now : ℕ) where
  pub Keeps-note :
      (n : ℕ) (level event_type : String) (m : Market)
      → Keeps limit n (note desk settings now level event_type m)
  unfolding active_reserved_usd event
  Keeps-note n level event_type m b h = h

  pub Keeps-mark :
      (n : ℕ) (m : Market) (state : MarketState) (reason : Option String)
      → Keeps limit n (mark desk settings now m state reason)
  unfolding active_reserved_usd set_market_state
  Keeps-mark n m state reason b h = h

  pub Keeps-prepare :
      (n : ℕ) (m : Market) (state : MarketState)
      → Keeps limit n (write (prepare_market now settings.run_id m state))
  Keeps-prepare n m state b h =
      write_result-Holds limit n n (prepare_market now settings.run_id m state b.db) b h
        (omega arith)
        (λ db e. omega (arith, prepare_market-reserved now settings.run_id m state b.db db e))

  abbrev pub noted : (n : ℕ) (level event_type : String) (m : Market) → Kept limit n (Unit {0})
  noted n level event_type m = record {
    action = note desk settings now level event_type m;
    keeps = Keeps-note n level event_type m;
  }

  abbrev pub marked :
      (n : ℕ) (m : Market) (state : MarketState) (reason : Option String) → Kept limit n (Unit {0})
  marked n m state reason = record {
    action = mark desk settings now m state reason;
    keeps = Keeps-mark n m state reason;
  }

  abbrev pub popped : (n : ℕ) (slug : String) → Kept limit n (Unit {0})
  popped n slug = record { action = pop_retry slug; keeps = λ b h. h }

  abbrev pub prepared : (n : ℕ) (m : Market) (state : MarketState) → Kept limit n (Unit {0})
  prepared n m state = record {
    action = write (prepare_market now settings.run_id m state);
    keeps = Keeps-prepare n m state;
  }

  abbrev pub skipped : (n : ℕ) (m : Market) (reason : String) → Kept limit n (Unit {0})
  skipped n m reason =
      popped n m.slug
      ⨟ prepared n m MarketState.skipped
      ⨟ marked n m MarketState.skipped (some reason)
      ⨟ noted n "WARNING" "market_skipped" m

  abbrev pub returned {ℓ} : {A : Type ℓ} (n : ℕ) (a : A) → Kept limit n A
  returned n a = record { action = pure a; keeps = λ b h. h }

  pub Keeps-skip :
      (n : ℕ) (m : Market) (reason : String)
      → Keeps limit n (skip_market desk settings now m reason)
  Keeps-skip n m reason = (skipped n m reason).keeps

  pub Keeps-requeue :
      (n : ℕ) (m : Market) (started : ℕ) (source : Option ActivationUpdate)
      → Keeps limit n (requeue desk settings now m started source)
  Keeps-requeue n m started source b h = h

  pub Keeps-trying :
      (m : Market) (r : PlacementResult) (retry : Option RetryState) (started finished : ℕ)
      (source : Option ActivationUpdate)
      → Keeps limit 0 (keep_trying desk settings now m r retry started finished source)
  unfolding active_reserved_usd event set_market_state
  Keeps-trying m r none started finished source b h = h
  Keeps-trying m r (some retry) started finished source b h = h

  pub Keeps-incomplete :
      (m : Market) (r : PlacementResult) (retry : Option RetryState) (started finished : ℕ)
      (source : Option ActivationUpdate)
      → Keeps limit 0 (after_incomplete desk settings now m r retry started finished source)
  Keeps-incomplete m r retry started finished source =
      Keeps-if limit 0 (r.gave_up && no_orders desk settings now r) _ _ (Keeps-skip 0 m _) (
        Keeps-if limit 0 (r.retryable && no_orders desk settings now r) _ _
          (Keeps-trying m r retry started finished source)
          (popped 0 m.slug
            ⨟ marked 0 m MarketState.error r.error
            ⨟ noted 0 "ERROR" "placement_failed" m).keeps)

  pub Spends-add_orders :
      (m : Market) (os : List PlacedOrder) (n : ℕ)
      → sum_by order_reserve os ≤ n
      → Spends limit n (add_orders desk settings now m os)
  unfolding add_orders
  Spends-add_orders m [] n le b h = omega (arith, h)
  Spends-add_orders m (o ∷ os) n le b h =
      Spends-resume limit (sum_by order_reserve os) (λ _. add_orders desk settings now m os)
        (write (add_order now settings.run_id m.slug o) b).0
        (write (add_order now settings.run_id m.slug o) b).1
        (write_result-Holds limit n (sum_by order_reserve os)
          (add_order now settings.run_id m.slug o b.db) b h (omega (arith, le))
          (λ db e. omega (arith, le, add_order-reserved now settings.run_id m.slug o b.db db e)))
        (λ _. Spends-add_orders m os (sum_by order_reserve os) (omega arith))

  pub Keeps-finish :
      (m : Market) (retry : Option RetryState) (started finished : ℕ)
      (source : Option ActivationUpdate) (r : PlacementResult)
      → Keeps limit 0 (finish desk settings now m retry started finished source r)
  Keeps-finish m retry started finished source r =
      Keeps-if limit 0 (complete r) _ _
        (popped 0 m.slug
          ⨟ marked 0 m MarketState.active none
          ⨟ noted 0 "INFO" "dual_orders_placed" m).keeps
        (Keeps-incomplete m r retry started finished source)

  pub Spends-placement :
      (m : Market) (retry : Option RetryState) (started : ℕ) (source : Option ActivationUpdate)
      (n : ℕ) (r : PlacementResult)
      → sum_by order_reserve r.orders ≤ n
      → Spends limit n (after_placement desk settings now m retry started source r)
  Spends-placement m retry started source n r le b =
      Spends-then limit n (add_orders desk settings now m r.orders)
        (λ _. finish desk settings now m retry started (desk.clock_ms b.calls) source r)
        (Spends-add_orders m r.orders n le)
        (λ _. Keeps-finish m retry started (desk.clock_ms b.calls) source r) b
