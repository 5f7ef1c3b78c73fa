-- ===== src/Service/Placement/Tests.antt =====
-- Runs of the placement of queued markets.
use polymarket_event_quant.Base.{
  ◌≤◌, ◌≡◌, refl, none, some, [], ◌∷◌, arith, ok, true, false, ℕ, Result, List, All, length, map,
  ◌++◌,
}
use mathlib.Core.Path.{subst}
use polymarket_event_quant.Models.{PlacementResult, Market, Outcome}
use polymarket_event_quant.Database.Queries.{active_reserved_usd}
use polymarket_event_quant.Service.{Bot, Settings}
use polymarket_event_quant.Exchange.Session.{Submission}
use polymarket_event_quant.Service.Placement.{
  place_activated_markets, consider_all, consider_market,
}
use polymarket_event_quant.Service.Placement.Steps.{Desk, DualEnd, is_eligible, add_orders}
use polymarket_event_quant.Service.Placement.Budget.{placement_within_limit}
use polymarket_event_quant.Service.Placement.Budget.Placed.{FitsDesk}
use polymarket_event_quant.Fixtures.{cents, settings, bot, market, client, placed}
use polymarket_event_quant.Models.Statuses.{is_tracked}
use polymarket_event_quant.Base.Decimal.{mul, div}
use polymarket_event_quant.Database.{
  can_start_entry_plan, prepare_market, has_market, add_market, set_market_state, event, add_order,
}
use polymarket_event_quant.Exchange.Knock.{KnockOutcome, KnockPlan}
use polymarket_event_quant.Service.Placement.Live.{AcceptsOnce, exchange_desk, live_within_limit}
use polymarket_event_quant.Exchange.Lost.Tests.{half, wording}
use polymarket_event_quant.Exchange.Signing.Tests.{signer, session}
use polymarket_event_quant.Exchange.{Exc}
use polymarket_event_quant.Service.Placement.Budget.Rules.{IsExact}

abbrev result : PlacementResult
result = record {
  orders = [];
  error = some "not listed";
  retryable = true;
  attempts = 3;
  expected = 2;
  registered_ts_ms = none;
  held_back = 0;
  gave_up = false;
}

-- the exchange lists nothing yet
abbrev pub desk : Desk
desk = record {
  place_dual = λ call m price size until. DualEnd.placed result;
  reconcile_ambiguous_dual = λ call m price size retryable. ok result;
  order_books_ready = λ call m. ok false;
  entry_submission = Submission.both_sides;
  clock_ms = λ call. 1_000;
  day_start = 0;
}

abbrev new_market : Market
new_market = record market { slug = "next" }

abbrev limited_settings : Settings
limited_settings = record settings { max_reserved_usd = some (cents 1_000_000) }

abbrev pub queued : Bot
queued = record bot {
  activation_market_updates =
      record {
        market = new_market;
        market_discovered_ts_ms = 0;
        market_parameters_detected_ts_ms = 0;
      }
      ∷ [];
}

-- the exchange accepts both legs
abbrev both_placed : Market → PlacementResult
both_placed m = record result {
  orders =
      record placed {
        order_id = "n1";
        token_id = m.up_token_id;
        price = cents 10;
        size = cents 10000;
      }
      ∷ record placed {
        order_id = "n2";
        token_id = m.down_token_id;
        price = cents 10;
        size = cents 10000;
      }
      ∷ [];
  error = none;
  retryable = false;
}

abbrev placing : Desk
placing = record desk {
  place_dual = λ call m price size until. DualEnd.placed (both_placed m);
  reconcile_ambiguous_dual = λ call m price size retryable. ok (both_placed m);
}

fits : FitsDesk limited_settings.plan placing
fits = ((λ call m until. omega arith), (λ call m retryable. omega arith))

exact : IsExact limited_settings.plan
unfolding div
exact = refl

within : active_reserved_usd queued.db ≤ cents 1_000_000
unfolding active_reserved_usd is_tracked mul
within = omega arith

placement_within_limit_example :
    active_reserved_usd ((place_activated_markets placing limited_settings 150 queued).1).db
    ≤ cents 1_000_000
placement_within_limit_example =
    placement_within_limit (cents 1_000_000) placing limited_settings 150 queued fits exact refl
      within

-- the two orders of that run are in the table
both_recorded :
    map (λ o. o.order_id) (place_activated_markets placing limited_settings 150 queued).1.db.orders
    ≡ map (λ o. o.order_id) queued.db.orders ++ "n1" ∷ "n2" ∷ []
unfolding place_activated_markets consider_all consider_market is_eligible can_start_entry_plan
    active_reserved_usd is_tracked mul div prepare_market has_market add_market add_orders
    set_market_state event add_order
both_recorded = refl

queued_again :
    ((place_activated_markets desk limited_settings 150 queued).1).activation_market_updates
    ≡ queued.activation_market_updates
unfolding place_activated_markets consider_all consider_market is_eligible can_start_entry_plan
    active_reserved_usd is_tracked mul div prepare_market has_market add_market add_orders
    set_market_state event
queued_again = refl

-- the venue accepts both legs within the knock
abbrev whole : KnockOutcome
whole = record half {
  accepted =
      record { order_id = "n1"; outcome = Outcome.up; status = 200; body = "{}" }
      ∷ record { order_id = "n2"; outcome = Outcome.down; status = 200; body = "{}" }
      ∷ [];
  ambiguous = [];
}

abbrev knock_whole : ℕ → KnockPlan → Result Exc (List KnockOutcome)
knock_whole call plan = ok (whole ∷ [])

accepts_once : AcceptsOnce knock_whole
accepts_once call plan outcomes h =
    let e : whole ∷ [] ≡ outcomes = grind arith in
    subst (λ os. All (λ o. length o.accepted ≤ 2) os) e (omega arith, tt)

live_within_limit_example :
    active_reserved_usd
      (place_activated_markets
        (exchange_desk client
          (signer 2)
          wording
          knock_whole
          Submission.both_sides
          20
          (λ call. session)
          desk)
        limited_settings
        150
        queued).1.db
    ≤ cents 1_000_000
live_within_limit_example =
    live_within_limit client (signer 2) wording knock_whole Submission.both_sides 20
      (λ call. session) desk (cents 1_000_000) limited_settings 150 queued accepts_once exact refl
      within
