-- ===== src/Service/Exits/Oversell.antt =====
-- Exits are never sent for more tokens than the account holds free.
use polymarket_event_quant.Base.{
  ℕ, ◌+◌, ◌≤◌, String, ◌≡◌, refl, Bool, true, false, not, Option, some, List, [], ◌∷◌, str_eq,
  filter, any, sum_by, sum_by-append, sum_by-filter, Result, ok, err, if◌then◌else◌, arith,
  Bool-cases, inl, inr, max, min, none, ◌-◌, leb, suc,
}
use polymarket_event_quant.Base.Decimal.{Decimal}
use polymarket_event_quant.Models.{Outcome, PlacedOrder, Market}
use polymarket_event_quant.Models.Statuses.{is_active_exit}
use polymarket_event_quant.Database.{
  Db, OrderRow, MarketState, add_order, set_market_state, event, new_order_row,
}
use polymarket_event_quant.Database.Invariant.{after}
use polymarket_event_quant.Database.Queries.{active_exit_reserved_size, exit_reserved_of, Joined}
use polymarket_event_quant.Exchange.{Exc}
use polymarket_event_quant.Exchange.Client.{Client}
use polymarket_event_quant.Exchange.Orders.{
  place_exit, reconcile_ambiguous_exit, sole_match, conditional_balance,
}
use polymarket_event_quant.Service.{Bot, Settings}
use polymarket_event_quant.Service.Exits.{
  record_placed, record_failed, failed_order, place_exit_rung, place_rungs, place_exits_of,
  exit_market, Rung, after_search, after_submission, with_pending, pending_targets,
}

sum-filter-le :
    (f : OrderRow → ℕ) (p : OrderRow → Bool) (os : List OrderRow)
    → sum_by f (filter p os) ≤ sum_by f os
sum-filter-le f p os = omega (arith, sum_by-filter f p os)

-- Whatever is added up over the orders, `add_order` adds the new row's part at most.
pub sum-add_order-le :
    (f : OrderRow → ℕ) (now run_id : ℕ) (slug : String) (o : PlacedOrder) (db : Db)
    → sum_by f (after db (add_order now run_id slug o db)).orders
      ≤ sum_by f db.orders + f (new_order_row now run_id slug o)
unfolding add_order
sum-add_order-le f now run_id slug o db =
    elim (Bool-cases (any (λ m. str_eq m.slug slug) db.markets)) [
      | inl e ↦ rw e (
          omega (
            arith,
            sum_by-append f (filter (λ r. not (str_eq r.order_id o.order_id)) db.orders)
                (new_order_row now run_id slug o ∷ []),
            sum-filter-le f (λ r. not (str_eq r.order_id o.order_id)) db.orders,
          ))
      | inr e ↦ rw e (omega arith)
    ]

-- The order that a submission or the search for it yields has the size and price that were asked.
pub place_exit_asked :
    (client : Client) (call : ℕ) (m : Market) (c : Outcome) (token : String) (price size : Decimal)
    {o : PlacedOrder}
    → place_exit client call m c token price size ≡ ok o
    → (o.size ≡ size) × (o.price ≡ price)
unfolding place_exit
place_exit_asked client call m c token price size h = ground arith

sole_match_asked :
    (client : Client) (c : Outcome) (token : String) (price size : Decimal)
    (raws : List polymarket_event_quant.Exchange.RawOrder) {o : PlacedOrder}
    → sole_match client c token price size raws ≡ some o
    → (o.size ≡ size) × (o.price ≡ price)
sole_match_asked client c token price size [] h = cc
sole_match_asked client c token price size (raw ∷ []) h = ground arith
sole_match_asked client c token price size (raw ∷ raw' ∷ raws) h = cc

pub reconcile_exit_asked :
    (client : Client) (call : ℕ) (m : Market) (c : Outcome) (token : String) (price size : Decimal)
    {o : PlacedOrder}
    → reconcile_ambiguous_exit client call m c token price size ≡ ok (some o)
    → (o.size ≡ size) × (o.price ≡ price)
unfolding reconcile_ambiguous_exit
reconcile_exit_asked client call m c token price size h =
    grind (arith, sole_match_asked client c token price size)

-- what a rung has taken from the free tokens, by how it ended
abbrev pub taken : Result Exc Bool → Decimal → Decimal
taken (ok true) size = size
taken (ok false) size = 0
taken (err e) size = 0

module _ (slug : String) (outcome : Outcome) where
  abbrev pub reserved : Bot → Decimal
  reserved b = active_exit_reserved_size slug outcome b.db

  pub reserved-add_order-le :
      (now run_id : ℕ) (s : String) (o : PlacedOrder) (db : Db)
      → active_exit_reserved_size slug outcome (after db (add_order now run_id s o db))
        ≤ active_exit_reserved_size slug outcome db
          + (if is_active_exit o.status then o.size else 0)
  unfolding active_exit_reserved_size
  reserved-add_order-le now run_id s o db =
      ground (arith, sum-add_order-le (exit_reserved_of slug outcome) now run_id s o db)

  pub reserved-set_market_state :
      (now : ℕ) (s : String) (state : MarketState) (m : Option String) (db : Db)
      → active_exit_reserved_size slug outcome (set_market_state now s state m db)
        ≡ active_exit_reserved_size slug outcome db
  unfolding active_exit_reserved_size set_market_state
  reserved-set_market_state now s state m db = refl

  pub reserved-event :
      (now : ℕ) (run_id : Option ℕ) (level type_name : String) (s : Option String) (db : Db)
      → active_exit_reserved_size slug outcome (event now run_id level type_name s db)
        ≡ active_exit_reserved_size slug outcome db
  unfolding active_exit_reserved_size event
  reserved-event now run_id level type_name s db = refl

  module _ (client : Client) (settings : Settings) (now : ℕ) where
    record_placed-reserved :
        (row : OrderRow) (o : PlacedOrder) (b : Bot)
        → reserved (record_placed client settings now row o b).1
          ≤ reserved b + taken (record_placed client settings now row o b).0 o.size
    record_placed-reserved row o b =
        grind (arith, reserved-add_order-le now settings.run_id row.slug o b.db, reserved-event)

    record_failed-reserved :
        (row : OrderRow) (price size : Decimal) (e : Exc) (b : Bot)
        → reserved (record_failed client settings now row price size e b).1
          ≤ reserved b + taken (record_failed client settings now row price size e b).0 size
    unfolding is_active_exit
    record_failed-reserved row price size e b = grind (
      arith,
      reserved-add_order-le now settings.run_id row.slug
          (failed_order settings b.calls row price size e) b.db,
      reserved-event,
      reserved-set_market_state,
    )

    after_search-reserved :
        (j : Joined) (price size : Decimal) (e : Exc) (call : ℕ)
        (r : Result Exc (Option PlacedOrder)) (b : Bot)
        → reconcile_ambiguous_exit client call
            (exit_market j)
            j.row.outcome
            j.row.token_id
            price
            size
          ≡ r
        → reserved (after_search client settings now j.row price size e r b).1
          ≤ reserved b + taken (after_search client settings now j.row price size e r b).0 size
    after_search-reserved j price size e call (ok (some o)) b h =
        rw
          (← (reconcile_exit_asked client call (exit_market j) j.row.outcome j.row.token_id price
            size h).0)
          (record_placed-reserved j.row o b)
    after_search-reserved j price size e call (ok none) b h =
        record_failed-reserved j.row price size e b
    after_search-reserved j price size e call (err e') b h =
        record_failed-reserved j.row price size _ b

    after_submission-reserved :
        (j : Joined) (price size : Decimal) (call : ℕ) (r : Result Exc PlacedOrder) (b : Bot)
        → place_exit client call (exit_market j) j.row.outcome j.row.token_id price size ≡ r
        → reserved (after_submission client settings now j price size r b).1
          ≤ reserved b + taken (after_submission client settings now j price size r b).0 size
    after_submission-reserved j price size call (ok o) b h =
        rw
          (← (place_exit_asked client call (exit_market j) j.row.outcome j.row.token_id price size
            h).0)
          (record_placed-reserved j.row o b)
    after_submission-reserved j price size call (err e) b h =
        after_search-reserved j price size e b.calls _ _ refl

    -- A rung raises what the open exits hold by its size at most, and by nothing if it failed.
    pub place_exit_rung-reserved :
        (j : Joined) (price size : Decimal) (b : Bot)
        → reserved (place_exit_rung client settings now j price size b).1
          ≤ reserved b + taken (place_exit_rung client settings now j price size b).0 size
    unfolding place_exit_rung
    place_exit_rung-reserved j price size b =
        after_submission-reserved j price size b.calls _ _ refl

    pub place_rungs-reserved :
        (j : Joined) (available : Decimal) (rs : List Rung) (b : Bot)
        → reserved (place_rungs client settings now j available rs b).1 ≤ reserved b + available
    unfolding place_rungs
    place_rungs-reserved j available [] b = omega arith
    place_rungs-reserved j available (r ∷ rs) b = ground (
      arith,
      place_rungs-reserved j available rs b,
      place_exit_rung-reserved j r.target.price (min r.pending_size available) b,
      place_rungs-reserved j available rs
          (place_exit_rung client settings now j r.target.price (min r.pending_size available) b).1,
      place_rungs-reserved j (available - min r.pending_size available) rs
          (place_exit_rung client settings now j r.target.price (min r.pending_size available) b).1,
    )

-- The pass over one filled entry never has open exits for more tokens than the balance that the
-- venue reported: afterwards they hold at most the balance, or what they held before if that was
-- more already. It holds for every reply of the venue, lost replies and failed writes included.
pub no_oversell :
    (client : Client) (settings : Settings) (now : ℕ) (j : Joined) (b : Bot) {balance : Decimal}
    → conditional_balance client b.calls j.row.token_id ≡ ok balance
    → active_exit_reserved_size j.row.slug j.row.outcome
        (place_exits_of client settings now j b).1.db
      ≤ max balance (active_exit_reserved_size j.row.slug j.row.outcome b.db)
unfolding place_exits_of
no_oversell client settings now j b {balance} h =
    elim (Bool-cases (leb j.market.market.end_ts (now + settings.cancel_before_end_seconds))) [
      | inl e ↦ rw e (omega arith)
      | inr e ↦ rw e (rungs (pending_targets b.db j settings.plan.exit_targets))
    ]
  where
    rungs :
        (rs : List Rung)
        → active_exit_reserved_size j.row.slug j.row.outcome
            (with_pending client settings now j rs b).1.db
          ≤ max balance (active_exit_reserved_size j.row.slug j.row.outcome b.db)
    rungs [] = omega arith
    rungs (r ∷ rs) = ground (
      arith,
      h,
      place_rungs-reserved j.row.slug j.row.outcome client settings now j
          (balance - active_exit_reserved_size j.row.slug j.row.outcome b.db) (r ∷ rs)
          (record b { calls = suc b.calls }),
    )
