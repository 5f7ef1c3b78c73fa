-- ===== src/Service/Placement/Steps.antt =====
-- service.py: the parts of a placement: what skips a market, the door, the orders, the submission and
-- the retries (`_skip_market`, `_door_already_open`, parts of `_place`, `_requeue_placement`);
-- discovery.py: `is_eligible`.
use polymarket_event_quant.Base.{
  ℕ, suc, ◌+◌, ◌%◌, String, Bool, true, false, not, ◌&&◌, Option, none, some, List, [], ◌∷◌, ◌++◌,
  find, filter, ltb, leb, ◌==◌, str_eq, Result, ok, err, or_else,
}
use polymarket_event_quant.Base.Concat
use polymarket_event_quant.Base.Decimal.{Decimal}
use polymarket_event_quant.Models.{
  Market, PlacementResult, order_size, PlacedOrder, Status, Outcome, Side, Role,
}
use polymarket_event_quant.Database.{MarketState, add_order, prepare_market, set_market_state}
use polymarket_event_quant.Exchange.{Exc}
use polymarket_event_quant.Exchange.Session.{Submission}
use polymarket_event_quant.Service.{Settings, RetryState, ActivationUpdate}
use polymarket_event_quant.Service.Monad.{Action, ◌>>=◌, ◌>>◌, pure, modify, write, request, log}

-- how `Exchange.place_dual` ends
pub data DualEnd : Type 0 where
  placed : PlacementResult → DualEnd
  ambiguous : Exc → Bool → ℕ → DualEnd
  raised : Exc → DualEnd

-- what the placement takes from the exchange and from the clock: the price, the size and the time
-- to stop knocking go in; the time of a call is given by the calls made before. `day_start` is the
-- midnight that `daily_filled_cost` counts from.
pub record Desk : Type 0 where
  pub place_dual : ℕ → Market → Decimal → Decimal → ℕ → DualEnd
  pub reconcile_ambiguous_dual : ℕ → Market → Decimal → Decimal → Bool → Result Exc PlacementResult
  pub order_books_ready : ℕ → Market → Result Exc Bool
  pub entry_submission : Submission
  pub clock_ms : ℕ → ℕ
  pub day_start : ℕ

pub data Trigger : Type 0 where
  gamma market_parameters_activation : Trigger

abbrev pub is_activation : Trigger → Bool
is_activation market_parameters_activation = true
is_activation gamma = false

-- KNOCK_SECONDS in milliseconds
abbrev pub knock_ms : ℕ
knock_ms = 240_000

unfoldable pub is_eligible : Market → ℕ → ℕ → Bool
is_eligible market run_started_ts now_ts =
    leb run_started_ts market.start_ts && ltb now_ts market.end_ts

-- the retries, each under its slug: get, pop and set
abbrev pub retry_of : String → List RetryState → Option RetryState
retry_of slug rs = find (λ r. str_eq r.slug slug) rs

abbrev pub drop_retry : String → List RetryState → List RetryState
drop_retry slug rs = filter (λ r. not (str_eq r.slug slug)) rs

abbrev pub pop_retry : String → Action (Unit {0})
pop_retry slug b = (ok tt, record b { placement_retries = drop_retry slug b.placement_retries })

abbrev pub set_retry : RetryState → Action (Unit {0})
set_retry r b = (ok tt, record b { placement_retries = r ∷ drop_retry r.slug b.placement_retries })

abbrev pub get_retry : String → Action (Option RetryState)
get_retry slug b = (ok (retry_of slug b.placement_retries), b)

abbrev pub off_tick : Market → Decimal → Bool
off_tick m price = not (price % m.tick_size == 0)

-- `limit is not None and test`
abbrev pub limited : Option Decimal → (Decimal → Bool) → Bool
limited none test = false
limited (some limit) test = test limit

module _ (desk : Desk) (settings : Settings) (now : ℕ) where
  abbrev pub note : String → String → Market → Action (Unit {0})
  note level event_type market = log now settings.run_id level event_type (some market.slug)

  abbrev pub mark : Market → MarketState → Option String → Action (Unit {0})
  mark market state reason = modify (set_market_state now market.slug state reason)

  abbrev pub skip_market : Market → String → Action (Unit {0})
  skip_market market reason =
      pop_retry market.slug
      >> write (prepare_market now settings.run_id market MarketState.skipped)
      >> mark market MarketState.skipped (some reason)
      >> note "WARNING" "market_skipped" market

  -- unsure means closed
  abbrev pub door_answer : Market → Result Exc Bool → Action Bool
  door_answer market (ok ready) = pure ready
  door_answer market (err e) = note "ERROR" "orderbook_check_failed" market >> pure false

  abbrev pub door_already_open : Market → Action Bool
  door_already_open market =
      request (λ call. desk.order_books_ready call market) >>= door_answer market

  abbrev pub dry_order : Market → Outcome → String → String → PlacedOrder
  dry_order market outcome word token_id = record {
    order_id = Concat.◌++◌ "dry:" (Concat.◌++◌ market.slug (Concat.◌++◌ ":" word));
    outcome = outcome;
    token_id = token_id;
    price = settings.plan.buy_price;
    size = order_size settings.plan;
    status = Status.simulated;
    raw = "{\"dry_run\":true}";
    side = Side.buy;
    role = Role.entry_role;
    account = "";
  }

  abbrev pub legs : Submission → Market → List PlacedOrder
  legs Submission.solo_up m = dry_order m Outcome.up "up" m.up_token_id ∷ []
  legs Submission.solo_down m = dry_order m Outcome.down "down" m.down_token_id ∷ []
  legs Submission.both_sides m =
      dry_order m Outcome.up "up" m.up_token_id
      ∷ dry_order m Outcome.down "down" m.down_token_id
      ∷ []

  -- the loop over the orders of a placement
  unfoldable pub add_orders : Market → List PlacedOrder → Action (Unit {0})
  add_orders market [] = pure tt
  add_orders market (o ∷ os) =
      write (add_order now settings.run_id market.slug o) >> add_orders market os

  abbrev pub failed_result : Exc → Bool → ℕ → PlacementResult
  failed_result e retryable attempts = record {
    orders = [];
    error = some e;
    retryable = retryable;
    attempts = attempts;
    expected = 2;
    registered_ts_ms = none;
    held_back = 0;
    gave_up = false;
  }

  -- the search for the orders of a submission whose reply was lost
  abbrev pub after_ambiguous : Exc → Bool → ℕ → Result Exc PlacementResult → PlacementResult
  after_ambiguous e retryable attempts (err e') =
      failed_result
        (Concat.◌++◌ "submission=AmbiguousPlacementError: "
          (Concat.◌++◌ e (Concat.◌++◌ "; reconciliation=" e')))
        retryable attempts
  after_ambiguous e retryable attempts (ok r) = record {
    orders = r.orders;
    error = r.error;
    retryable = r.retryable;
    attempts = attempts;
    expected = 2;
    registered_ts_ms = none;
    held_back = 0;
    gave_up = false;
  }

  abbrev pub resolve_dual : Market → DualEnd → Action PlacementResult
  resolve_dual market (DualEnd.placed r) = pure r
  resolve_dual market (DualEnd.raised e) = pure (failed_result e false 1)
  resolve_dual market (DualEnd.ambiguous e retryable attempts) =
      request (λ call.
        desk.reconcile_ambiguous_dual call market settings.plan.buy_price (order_size settings.plan)
          retryable)
      >>= λ r. pure (after_ambiguous e retryable attempts r)

  abbrev pub submit : Market → ℕ → Action PlacementResult
  submit market knock_until_ms b =
      resolve_dual market
        (desk.place_dual b.calls market settings.plan.buy_price (order_size settings.plan)
          knock_until_ms)
        (record b { calls = suc b.calls })

  -- the market's turn comes again, with its own stamps or those of the placement
  abbrev pub requeue : Market → ℕ → Option ActivationUpdate → Action (Unit {0})
  requeue market started_ms source b = (
    ok tt,
    record b {
      activation_market_updates =
          b.activation_market_updates
          ++ or_else source (record {
            market = market;
            market_discovered_ts_ms = started_ms;
            market_parameters_detected_ts_ms = started_ms;
          })
            ∷ [];
    },
  )

  abbrev pub first_retry : Market → PlacementResult → ℕ → ℕ → Action (Unit {0})
  first_retry market r started_ms finished_ms =
      set_retry (record {
        slug = market.slug;
        attempts = r.attempts;
        first_started_ts_ms = started_ms;
        last_finished_ts_ms = finished_ms;
      })
      >> mark market MarketState.placement_pending r.error
      >> note "INFO" "placement_retry_started" market

  abbrev pub next_retry : PlacementResult → ℕ → RetryState → Action (Unit {0})
  next_retry r finished_ms retry =
      set_retry
        (record retry { attempts = retry.attempts + r.attempts; last_finished_ts_ms = finished_ms })

  abbrev pub keep_trying :
      Market
      → PlacementResult
      → Option RetryState
      → ℕ
      → ℕ
      → Option ActivationUpdate
      → Action (Unit {0})
  keep_trying market r none started_ms finished_ms source =
      first_retry market r started_ms finished_ms >> requeue market started_ms source
  keep_trying market r (some retry) started_ms finished_ms source =
      next_retry r finished_ms retry >> requeue market started_ms source

  abbrev pub no_orders : PlacementResult → Bool
  no_orders r = elim r.orders [ [] ↦ true | _ ∷ _ ↦ false ]
