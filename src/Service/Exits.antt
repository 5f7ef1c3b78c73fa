-- ===== src/Service/Exits.antt =====
-- service.py: `_place_missing_exits` and `_place_exit_rung`.
pub mod Oversell
pub mod Ladder
mod Tests
use polymarket_event_quant.Base.{
  ℕ, ◌+◌, ◌-◌, String, Bool, true, false, Option, none, some, List, [], ◌∷◌, ltb, leb, min, Result,
  ok, err, if◌then◌else◌,
}
use polymarket_event_quant.Base.Concat.{◌++◌}
use polymarket_event_quant.Base.Decimal.{Decimal, mul}
use polymarket_event_quant.Models.{
  ExitTarget, TradePlan, buy_only, Market, Outcome, Side, Role, Status, PlacedOrder,
}
use polymarket_event_quant.Database.{
  Db, OrderRow, MarketRow, MarketState, add_order, set_market_state,
}
use polymarket_event_quant.Database.Queries.{
  Joined, entry_orders_with_fills, exit_handled_size, active_exit_reserved_size,
}
use polymarket_event_quant.Exchange.{Exc}
use polymarket_event_quant.Exchange.Client.{Client}
use polymarket_event_quant.Exchange.Orders.{
  place_exit, reconcile_ambiguous_exit, conditional_balance,
}
use polymarket_event_quant.Service.{Bot, Settings}
use polymarket_event_quant.Service.Monad.{
  Action, ◌>>=◌, ◌>>◌, pure, gets, modify, write, request, ask, log,
}

abbrev outcome_text : Outcome → String
outcome_text Outcome.up = "up"
outcome_text Outcome.down = "down"

-- the `Market` that the exits are sent for: the entry's own token on its side
abbrev pub exit_market : Joined → Market
exit_market j = record {
  slug = j.row.slug;
  condition_id = j.market.market.condition_id;
  start_ts = 0;
  end_ts = j.market.market.end_ts;
  up_token_id = elim j.row.outcome [ Outcome.up ↦ j.row.token_id | Outcome.down ↦ "" ];
  down_token_id = elim j.row.outcome [ Outcome.up ↦ "" | Outcome.down ↦ j.row.token_id ];
  min_size = j.market.market.min_size;
  tick_size = j.market.market.tick_size;
}

abbrev pub failed_order : Settings → ℕ → OrderRow → Decimal → Decimal → Exc → PlacedOrder
failed_order settings call row price size message = record {
  order_id =
      "failed:" ++ row.slug ++ ":" ++ outcome_text row.outcome ++ ":" ++ settings.time_ns_text call;
  outcome = row.outcome;
  token_id = row.token_id;
  price = price;
  size = size;
  status = Status.failed;
  raw = message;
  side = Side.sell;
  role = Role.exit_role;
  account = "";
}

-- one iteration of the loop over the targets that still want an exit
pub record Rung : Type 0 where
  pub target : ExitTarget
  pub pending_size : Decimal

abbrev pub pending_rung : Db → Joined → ExitTarget → List Rung → List Rung
pending_rung db j t rest =
    let desired = mul j.row.matched_size t.fraction in
    let handled = exit_handled_size j.row.slug j.row.outcome t.price db in
    if leb (handled + j.market.market.min_size) desired
    then record { target = t; pending_size = desired - handled } ∷ rest
    else rest

pub pending_targets : Db → Joined → List ExitTarget → List Rung
pending_targets db j [] = []
pending_targets db j (t ∷ ts) = pending_rung db j t (pending_targets db j ts)

module _ (client : Client) (settings : Settings) (now : ℕ) where
  abbrev record_failed : OrderRow → Decimal → Decimal → Exc → Action Bool
  record_failed row price size message b =
      (write (
            add_order now settings.run_id row.slug
              (failed_order settings b.calls row price size message))
          >> modify (set_market_state now row.slug MarketState.exit_error (some message))
          >> log now settings.run_id "ERROR" "exit_order_failed" (some row.slug)
          >> pure false)
        b

  abbrev record_placed : OrderRow → PlacedOrder → Action Bool
  record_placed row order =
      write (add_order now settings.run_id row.slug order)
      >> log now settings.run_id "INFO" "exit_order_placed" (some row.slug)
      >> pure true

  -- the search that follows a submission that raised
  abbrev after_search :
      OrderRow → Decimal → Decimal → Exc → Result Exc (Option PlacedOrder) → Action Bool
  after_search row price size e (ok (some order)) = record_placed row order
  after_search row price size e (ok none) = record_failed row price size e
  after_search row price size e (err e') =
      record_failed row price size ("submission=" ++ e ++ "; reconciliation=" ++ e')

  abbrev after_submission : Joined → Decimal → Decimal → Result Exc PlacedOrder → Action Bool
  after_submission j price size (ok order) = record_placed j.row order
  after_submission j price size (err e) =
      request (λ call.
        reconcile_ambiguous_exit client call (exit_market j) j.row.outcome j.row.token_id price
          size)
      >>= after_search j.row price size e

  pub place_exit_rung : Joined → Decimal → Decimal → Action Bool
  place_exit_rung j price size =
      request
        (λ call. place_exit client call (exit_market j) j.row.outcome j.row.token_id price size)
      >>= after_submission j price size

  -- the loop over `pending_targets`; what is left of the tokens falls with each placed rung
  pub place_rungs : Joined → Decimal → List Rung → Action Decimal
  place_rungs j available [] = pure available
  place_rungs j available (r ∷ rs) =
      let size = min r.pending_size available in
      let min_size = j.market.market.min_size in
      let skipped = place_rungs j available rs in
      let go_on = λ (left : Decimal). place_rungs j left rs in
      if ltb size min_size
      then skipped
      else (place_exit_rung j r.target.price size >>= λ placed.
          let left = if placed then available - size else available in
          if ltb left min_size then pure left else go_on left)

  abbrev after_balance : Joined → List Rung → Decimal → Action (Unit {0})
  after_balance j rungs balance =
      gets (active_exit_reserved_size j.row.slug j.row.outcome) >>= λ reserved.
      if ltb (balance - reserved) j.market.market.min_size
      then pure tt
      else place_rungs j (balance - reserved) rungs >> pure tt

  abbrev with_pending : Joined → List Rung → Action (Unit {0})
  with_pending j [] = pure tt
  with_pending j (r ∷ rs) =
      ask (λ call. conditional_balance client call j.row.token_id) >>= after_balance j (r ∷ rs)

  -- the body of the loop over the filled entries
  pub place_exits_of : Joined → Action (Unit {0})
  place_exits_of j =
      if leb j.market.market.end_ts (now + settings.cancel_before_end_seconds)
      then pure tt
      else gets (λ db. pending_targets db j settings.plan.exit_targets) >>= with_pending j

  pub place_exits : List Joined → Action (Unit {0})
  place_exits [] = pure tt
  place_exits (j ∷ js) = let rest = place_exits js in place_exits_of j >> rest

  pub place_missing_exits : Action (Unit {0})
  place_missing_exits =
      if buy_only settings.plan then pure tt else gets entry_orders_with_fills >>= place_exits
