-- ===== src/Database/Queries.antt =====
-- database.py: the statements that only read.
use polymarket_event_quant.Base.{
  ℕ, ◌+◌, ◌-◌, String, Bool, ◌&&◌, Option, none, some, List, [], ◌∷◌, ◌++◌, str_eq, ltb, leb, ◌==◌,
  filter, find, sum_by, sort_by, if◌then◌else◌,
}
use polymarket_event_quant.Base.Decimal.{Decimal, mul}
use polymarket_event_quant.Models.{Outcome}
use polymarket_event_quant.Models.Statuses.{
  is_due, is_tracked, is_active_exit, is_failed, is_buy, is_entry, is_exit, same_outcome,
}
use polymarket_event_quant.Database.{Db, OrderRow, MarketRow, market_row}

-- a row of `orders o JOIN markets m ON m.slug=o.slug`
pub record Joined : Type 0 where
  pub row : OrderRow
  pub market : MarketRow

abbrev pub join_row : Option MarketRow → OrderRow → List Joined
join_row none o = []
join_row (some m) o = record { row = o; market = m } ∷ []

-- the slug is a primary key, so an order joins one market at most
abbrev pub join : Db → List OrderRow → List Joined
join db [] = []
join db (o ∷ os) = join_row (market_row o.slug db) o ++ join db os

unfoldable pub tracked_open_orders : Db → List Joined
tracked_open_orders db =
    sort_by (λ j. j.row.created_ts) (join db (filter (λ o. is_tracked o.status) db.orders))

-- `ORDER BY m.end_ts, o.created_ts`: sorted by the second key, then stably by the first
unfoldable pub due_open_orders : ℕ → Db → List Joined
due_open_orders cutoff_ts db =
    sort_by (λ j. j.market.market.end_ts)
      (sort_by (λ j. j.row.created_ts)
        (filter (λ j. leb j.market.market.end_ts cutoff_ts)
          (join db (filter (λ o. is_due o.status) db.orders))))

unfoldable pub market_for_condition : String → ℕ → Db → Option MarketRow
market_for_condition condition_id run_id db =
    find (λ m. str_eq m.market.condition_id condition_id && m.run_id == run_id) db.markets

unfoldable pub order : String → Db → Option OrderRow
order order_id db = find (λ o. str_eq o.order_id order_id) db.orders

-- max(Decimal("0"), size - matched)
abbrev pub unmatched_size : OrderRow → Decimal
unmatched_size o = o.size - o.matched_size

abbrev pub reserved_of : OrderRow → Decimal
reserved_of o = if is_buy o.side && is_tracked o.status then mul o.price (unmatched_size o) else 0

unfoldable pub active_reserved_usd : Db → Decimal
active_reserved_usd db = sum_by reserved_of db.orders

abbrev pub filled_cost_of : ℕ → OrderRow → Decimal
filled_cost_of day_start o =
    if leb day_start o.created_ts && (is_entry o.role && is_buy o.side)
    then mul o.price o.matched_size
    else 0

-- `day_start` is the midnight, in UTC, of the day of the call
unfoldable pub daily_filled_cost : ℕ → Db → Decimal
daily_filled_cost day_start db = sum_by (filled_cost_of day_start) db.orders

unfoldable pub entry_orders_with_fills : Db → List Joined
entry_orders_with_fills db =
    sort_by (λ j. j.row.created_ts)
      (join db (filter (λ o. is_entry o.role && ltb 0 o.matched_size) db.orders))

-- the exits of one outcome of one market
abbrev pub is_exit_of : String → Outcome → OrderRow → Bool
is_exit_of slug outcome o = str_eq o.slug slug && (same_outcome o.outcome outcome && is_exit o.role)

-- what one exit order counts for: all that it matched, and the rest while it may still trade, or
-- its whole size once it has failed
abbrev pub handled_of : OrderRow → Decimal
handled_of o =
    o.matched_size
    + (if is_active_exit o.status
        then unmatched_size o
        else if is_failed o.status
        then o.size
        else 0)

abbrev pub handled_at : String → Outcome → Decimal → OrderRow → Decimal
handled_at slug outcome price o =
    if is_exit_of slug outcome o && o.price == price then handled_of o else 0

unfoldable pub exit_handled_size : String → Outcome → Decimal → Db → Decimal
exit_handled_size slug outcome price db = sum_by (handled_at slug outcome price) db.orders

abbrev pub exit_reserved_of : String → Outcome → OrderRow → Decimal
exit_reserved_of slug outcome o =
    if is_exit_of slug outcome o && is_active_exit o.status then unmatched_size o else 0

unfoldable pub active_exit_reserved_size : String → Outcome → Db → Decimal
active_exit_reserved_size slug outcome db = sum_by (exit_reserved_of slug outcome) db.orders
