-- ===== src/Database/Tests.antt =====
-- Tests of database.py: the theorems at small tables.
use polymarket_event_quant.Base.{
  ℕ, ◌+◌, ◌≡◌, refl, true, false, none, List, [], ◌∷◌, sum_by, filter, not, any, str_eq, All,
  IsSorted, leb,
}
use polymarket_event_quant.Models.{Status, Outcome}
use polymarket_event_quant.Models.Statuses.{is_tracked, is_due, is_active_exit}
use polymarket_event_quant.Database.{
  OrderRow, MarketState, empty, add_order, mark_orders, set_market_state, can_start_entry_plan,
}
use polymarket_event_quant.Database.Queries.{
  order, active_reserved_usd, reserved_of, exit_handled_size, tracked_open_orders, due_open_orders,
}
use polymarket_event_quant.Database.Invariant.{IsValid, after}
use polymarket_event_quant.Database.Statements.{
  Statement, adds_market, adds_order, execute_all, reachable-IsValid,
}
use polymarket_event_quant.Database.Rows.{order-add_order, can_start-after-add_order}
use polymarket_event_quant.Database.Reserve.{
  reserved-add_order, handled-add_order, reserved-mark_orders,
}
use polymarket_event_quant.Database.Joins.{
  tracked_open_orders_exact, due_open_orders_exact, ends_by,
}
use polymarket_event_quant.Fixtures.{market, db, placed, cents}

db-IsValid : IsValid db
db-IsValid = record { slugs = (refl, tt); ids = (refl, (refl, tt)); known = (refl, (refl, tt)) }

abbrev script : List Statement
script =
    adds_market 200 1 market MarketState.placing
    ∷ adds_market 201 1 market MarketState.placing
    ∷ adds_order 202 1 "btc-updown-5m-300" placed
    ∷ adds_order 203 1 "unknown" placed
    ∷ []

reachable-IsValid_example : IsValid (execute_all script empty)
reachable-IsValid_example = reachable-IsValid script

order-add_order_example :
    order "e1" (after db (add_order 400 1 "btc-updown-5m-300" placed db)) ≡ order "e1" db
order-add_order_example = order-add_order 400 1 "btc-updown-5m-300" placed "e1" db refl

can_start-after-add_order_example :
    can_start_entry_plan "btc-updown-5m-300" (
      set_market_state 500 "btc-updown-5m-300" MarketState.placement_pending none
        (after db (add_order 400 1 "btc-updown-5m-300" placed db)))
    ≡ false
can_start-after-add_order_example =
    can_start-after-add_order 400 1 500 "btc-updown-5m-300" placed MarketState.placement_pending
      none db refl

reserved-add_order_example :
    active_reserved_usd (after db (add_order 400 1 "btc-updown-5m-300" placed db))
    ≡ active_reserved_usd db + 0
reserved-add_order_example = reserved-add_order 400 1 "btc-updown-5m-300" placed db refl refl

handled-add_order_example :
    exit_handled_size "btc-updown-5m-300" Outcome.up
      (cents 20)
      (after db (add_order 400 1 "btc-updown-5m-300" placed db))
    ≡ exit_handled_size "btc-updown-5m-300" Outcome.up (cents 20) db + cents 600
unfolding is_active_exit
handled-add_order_example =
    handled-add_order 400 1 "btc-updown-5m-300" placed "btc-updown-5m-300" Outcome.up (cents 20) db
      refl refl refl

reserved-mark_orders_example :
    active_reserved_usd (mark_orders 400 ("e2" ∷ []) Status.cancelled db)
    ≡ sum_by reserved_of (filter (λ o. not (any (λ i. str_eq i o.order_id) ("e2" ∷ []))) db.orders)
unfolding is_tracked
reserved-mark_orders_example = reserved-mark_orders 400 ("e2" ∷ []) Status.cancelled db refl

tracked_open_orders_exact_example :
    ((g : OrderRow → ℕ)
      → sum_by (λ j. g j.row) (tracked_open_orders db)
        ≡ sum_by g (filter (λ o. is_tracked o.status) db.orders))
    × All (λ j. is_tracked j.row.status ≡ true) (tracked_open_orders db)
    × IsSorted (λ j. j.row.created_ts) (tracked_open_orders db)
tracked_open_orders_exact_example = tracked_open_orders_exact db db-IsValid

due_open_orders_exact_example :
    ((g : OrderRow → ℕ)
      → sum_by (λ j. g j.row) (due_open_orders 600 db)
        ≡ sum_by g (filter (ends_by 600 db) (filter (λ o. is_due o.status) db.orders)))
    × All
        (λ j. (leb j.market.market.end_ts 600 ≡ true) × (is_due j.row.status ≡ true))
        (due_open_orders 600 db)
    × IsSorted (λ j. j.market.market.end_ts) (due_open_orders 600 db)
due_open_orders_exact_example = due_open_orders_exact 600 db
