-- ===== src/Service/Exits/Ladder/Rungs.antt =====
-- What the rungs of an exit ladder handle at one price, as they are placed.
use polymarket_event_quant.Base.{
  ℕ, ◌+◌, ◌-◌, ◌≤◌, min, String, ◌≡◌, refl, Option, none, some, List, [], ◌∷◌, ◌==◌, sum_by, Result,
  ok, err, if◌then◌else◌, arith, inl, inr, Result-cases, suc,
}
use polymarket_event_quant.Base.Decimal.{Decimal}
use polymarket_event_quant.Models.{Outcome, PlacedOrder}
use polymarket_event_quant.Models.Statuses.{is_active_exit, is_matched_or_filled, is_failed}
use polymarket_event_quant.Database.{
  Db, OrderRow, MarketState, add_order, set_market_state, event, new_order_row,
}
use polymarket_event_quant.Database.Invariant.{after}
use polymarket_event_quant.Database.Queries.{Joined, exit_handled_size, handled_at, handled_of}
use polymarket_event_quant.Exchange.{Exc}
use polymarket_event_quant.Exchange.Client.{Client}
use polymarket_event_quant.Exchange.Orders.{place_exit, reconcile_ambiguous_exit}
use polymarket_event_quant.Service.{Bot, Settings}
use polymarket_event_quant.Service.Exits.{
  Rung, place_exit_rung, record_placed, record_failed, after_search, after_submission, exit_market,
  failed_order, place_rungs, with_pending,
}
use polymarket_event_quant.Service.Exits.Oversell.{
  sum-add_order-le, place_exit_asked, reconcile_exit_asked,
}

-- a size counts at the price it is sent at
abbrev pub at_price : Decimal → Decimal → Decimal → Decimal
at_price p q size = if q == p then size else 0

-- what the rungs at price `p` still want
abbrev pub wanted : Decimal → List Rung → Decimal
wanted p rs = sum_by (λ r. at_price p r.target.price r.pending_size) rs

module _ (slug : String) (outcome : Outcome) (p : Decimal) where
  abbrev pub handled : Bot → Decimal
  handled b = exit_handled_size slug outcome p b.db

  handled_at-new :
      (now run_id : ℕ) (s : String) (o : PlacedOrder)
      → handled_at slug outcome p (new_order_row now run_id s o) ≤ at_price p o.price o.size
  unfolding is_active_exit is_matched_or_filled is_failed
  handled_at-new now run_id s o = ground arith

  handled-add_order-le :
      (now run_id : ℕ) (s : String) (o : PlacedOrder) (db : Db)
      → exit_handled_size slug outcome p (after db (add_order now run_id s o db))
        ≤ exit_handled_size slug outcome p db + at_price p o.price o.size
  unfolding exit_handled_size
  handled-add_order-le now run_id s o db = omega (
    arith,
    sum-add_order-le (handled_at slug outcome p) now run_id s o db,
    handled_at-new now run_id s o,
  )

  handled-set_market_state :
      (now : ℕ) (s : String) (state : MarketState) (m : Option String) (db : Db)
      → exit_handled_size slug outcome p (set_market_state now s state m db)
        ≡ exit_handled_size slug outcome p db
  unfolding exit_handled_size set_market_state
  handled-set_market_state now s state m db = refl

  handled-event :
      (now : ℕ) (run_id : Option ℕ) (level type_name : String) (s : Option String) (db : Db)
      → exit_handled_size slug outcome p (event now run_id level type_name s db)
        ≡ exit_handled_size slug outcome p db
  unfolding exit_handled_size event
  handled-event now run_id level type_name s db = refl

  module _ (client : Client) (settings : Settings) (now : ℕ) where
    record_placed-handled :
        (row : OrderRow) (o : PlacedOrder) (b : Bot)
        → handled (record_placed client settings now row o b).1
          ≤ handled b + at_price p o.price o.size
    record_placed-handled row o b =
        grind (arith, handled-add_order-le now settings.run_id row.slug o b.db, handled-event)

    record_failed-handled :
        (row : OrderRow) (price size : Decimal) (e : Exc) (b : Bot)
        → handled (record_failed client settings now row price size e b).1
          ≤ handled b + at_price p price size
    record_failed-handled row price size e b = grind (
      arith,
      handled-add_order-le now settings.run_id row.slug
          (failed_order settings b.calls row price size e) b.db,
      handled-event,
      handled-set_market_state,
    )

    placed_as_asked :
        (row : OrderRow) (o : PlacedOrder) (price size : Decimal) (b : Bot)
        → (o.size ≡ size) × (o.price ≡ price)
        → handled (record_placed client settings now row o b).1 ≤ handled b + at_price p price size
    placed_as_asked row o price size b h = ground (arith, record_placed-handled row o b, h.0, h.1)

    after_search-handled :
        (j : Joined) (price size : Decimal) (e : Exc) (call : ℕ)
        (r : Result Exc (Option PlacedOrder)) (b : Bot)
        → reconcile_ambiguous_exit client call
            (exit_market j)
            j.row.outcome
            j.row.token_id
            price
            size
          ≡ r
        → handled (after_search client settings now j.row price size e r b).1
          ≤ handled b + at_price p price size
    after_search-handled j price size e call (ok (some o)) b h =
        placed_as_asked j.row o price size b (
          reconcile_exit_asked client call (exit_market j) j.row.outcome j.row.token_id price size
            h)
    after_search-handled j price size e call (ok none) b h =
        record_failed-handled j.row price size e b
    after_search-handled j price size e call (err e') b h =
        record_failed-handled j.row price size _ b

    after_submission-handled :
        (j : Joined) (price size : Decimal) (call : ℕ) (r : Result Exc PlacedOrder) (b : Bot)
        → place_exit client call (exit_market j) j.row.outcome j.row.token_id price size ≡ r
        → handled (after_submission client settings now j price size r b).1
          ≤ handled b + at_price p price size
    after_submission-handled j price size call (ok o) b h =
        placed_as_asked j.row o price size b
          (place_exit_asked client call (exit_market j) j.row.outcome j.row.token_id price size h)
    after_submission-handled j price size call (err e) b h =
        after_search-handled j price size e b.calls _ _ refl

    place_exit_rung-handled :
        (j : Joined) (price size : Decimal) (b : Bot)
        → handled (place_exit_rung client settings now j price size b).1
          ≤ handled b + at_price p price size
    unfolding place_exit_rung
    place_exit_rung-handled j price size b = after_submission-handled j price size b.calls _ _ refl

    place_rungs-handled :
        (j : Joined) (available : Decimal) (rs : List Rung) (b : Bot)
        → handled (place_rungs client settings now j available rs b).1 ≤ handled b + wanted p rs
    unfolding place_rungs
    place_rungs-handled j available [] b = omega arith
    place_rungs-handled j available (r ∷ rs) b = ground (
      arith,
      place_rungs-handled j available rs b,
      place_exit_rung-handled j r.target.price (min r.pending_size available) b,
      place_rungs-handled j available rs
          (place_exit_rung client settings now j r.target.price (min r.pending_size available) b).1,
      place_rungs-handled j (available - min r.pending_size available) rs
          (place_exit_rung client settings now j r.target.price (min r.pending_size available) b).1,
    )

    pub with_pending-handled :
        (j : Joined) (rs : List Rung) (b : Bot)
        → handled (with_pending client settings now j rs b).1 ≤ handled b + wanted p rs
    with_pending-handled j [] b = omega arith
    with_pending-handled j (r ∷ rs) b =
        elim (Result-cases (
          polymarket_event_quant.Exchange.Orders.conditional_balance client b.calls
            j.row.token_id)) [
              | inl (balance, h) ↦ ground (
                arith,
                h,
                place_rungs-handled j
                    (balance
                      - polymarket_event_quant.Database.Queries.active_exit_reserved_size j.row.slug
                          j.row.outcome b.db)
                    (r ∷ rs) (record b { calls = suc b.calls }),
              )
              | inr (e, h) ↦ ground (arith, h)
            ]
