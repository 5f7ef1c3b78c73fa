-- ===== src/Database/Reserve.antt =====
-- The sums over the orders: money reserved by open buys, and tokens that exits account for.
use polymarket_event_quant.Base.{
  ℕ, ◌+◌, ◌-◌, ◌≤◌, String, ◌≡◌, refl, Bool, true, false, not, ◌&&◌, ◌||◌, List, [], ◌∷◌, map,
  str_eq, filter, any, sum_by, sum_by-append, All, if◌then◌else◌, ◌==◌, arith, Bool-cases, inl, inr,
}
use polymarket_event_quant.Base.Decimal.{Decimal, mul, mul_mono_right}
use polymarket_event_quant.Base.Keyed.{has_key, drop_key_absent}
use polymarket_event_quant.Models.{PlacedOrder, Status, Outcome}
use polymarket_event_quant.Models.Statuses.{
  is_tracked, is_active_exit, is_failed, is_matched_or_filled, is_buy, is_exit, same_outcome,
}
use polymarket_event_quant.Database.{
  Db, OrderRow, add_order, update_order, update_row, mark_orders, mark_row, new_order_row,
}
use polymarket_event_quant.Database.Queries.{
  active_reserved_usd, reserved_of, exit_handled_size, handled_at, handled_of,
}
use polymarket_event_quant.Database.Invariant.{id_of, slug_of, after}

-- A sum over the orders grows by the new row's part, if its id is new.
sum-add_order :
    (f : OrderRow → ℕ) (now run_id : ℕ) (slug : String) (o : PlacedOrder) (db : Db)
    → has_key slug_of slug db.markets ≡ true
    → has_key id_of o.order_id db.orders ≡ false
    → sum_by f (after db (add_order now run_id slug o db)).orders
      ≡ sum_by f db.orders + f (new_order_row now run_id slug o)
unfolding add_order
sum-add_order f now run_id slug o db known fresh = rw known (
    rw (drop_key_absent id_of o.order_id db.orders fresh)
      (omega (arith, sum_by-append f db.orders (new_order_row now run_id slug o ∷ []))))

sub_zero : (n : ℕ) → n - 0 ≡ n
sub_zero n = omega arith

no_tracked_is_matched : (s : Status) → is_tracked s ≡ true → is_matched_or_filled s ≡ false
unfolding is_tracked is_matched_or_filled
no_tracked_is_matched s h = ground arith

-- A new buy order that may trade reserves its price times its size on top of what was reserved; a
-- new sell order, or an order in any other state, reserves nothing.
pub reserved-add_order :
    (now run_id : ℕ) (slug : String) (o : PlacedOrder) (db : Db)
    → has_key slug_of slug db.markets ≡ true
    → has_key id_of o.order_id db.orders ≡ false
    → active_reserved_usd (after db (add_order now run_id slug o db))
      ≡ active_reserved_usd db
        + (if is_buy o.side && is_tracked o.status then mul o.price o.size else 0)
unfolding active_reserved_usd
reserved-add_order now run_id slug o db known fresh =
    rw (sum-add_order reserved_of now run_id slug o db known fresh)
      (elim (Bool-cases (is_tracked o.status)) [
        | inl e ↦ rw (e, no_tracked_is_matched o.status e, sub_zero o.size)
        | inr e ↦ rw e (ground arith)
      ])

-- The states in which an exit order accounts for the whole of its size: it may trade, it has
-- traded, or it failed and is not to be sent again.
abbrev pub is_accounted : Status → Bool
is_accounted s = is_active_exit s || is_failed s || is_matched_or_filled s

exclusive :
    (s : Status)
    → (is_active_exit s ≡ true → (is_failed s ≡ false) × (is_matched_or_filled s ≡ false))
      × (is_failed s ≡ true → is_matched_or_filled s ≡ false)
unfolding is_active_exit is_failed is_matched_or_filled
exclusive s = ground arith

handled_of-new :
    (now run_id : ℕ) (slug : String) (o : PlacedOrder)
    → is_accounted o.status ≡ true
    → handled_of (new_order_row now run_id slug o) ≡ o.size
handled_of-new now run_id slug o h = ground (arith, exclusive o.status)

-- A recorded exit order, open, matched or failed, raises what is handled at its price by its size,
-- and at no other price, outcome or market.
pub handled-add_order :
    (now run_id : ℕ) (slug : String) (o : PlacedOrder) (s : String) (c : Outcome) (p : Decimal)
    (db : Db)
    → has_key slug_of slug db.markets ≡ true
    → has_key id_of o.order_id db.orders ≡ false
    → is_accounted o.status ≡ true
    → exit_handled_size s c p (after db (add_order now run_id slug o db))
      ≡ exit_handled_size s c p db
        + (if str_eq slug s && (same_outcome o.outcome c && is_exit o.role) && o.price == p
            then o.size
            else 0)
unfolding exit_handled_size
handled-add_order now run_id slug o s c p db known fresh h =
    rw (sum-add_order (handled_at s c p) now run_id slug o db known fresh)
      (rw (handled_of-new now run_id slug o h))

reserved_of-mark :
    (now : ℕ) (is : List String) (status : Status) (o : OrderRow)
    → is_tracked status ≡ false
    → reserved_of (mark_row now is status o)
      ≡ (if any (λ i. str_eq i o.order_id) is then 0 else reserved_of o)
reserved_of-mark now is status o h = ground arith

sum-mark :
    (now : ℕ) (is : List String) (status : Status) (os : List OrderRow)
    → is_tracked status ≡ false
    → sum_by reserved_of (map (mark_row now is status) os)
      ≡ sum_by reserved_of (filter (λ o. not (any (λ i. str_eq i o.order_id) is)) os)
sum-mark now is status [] h = refl
sum-mark now is status (o ∷ os) h = elim (Bool-cases (any (λ i. str_eq i o.order_id) is)) [
  | inl e ↦
      rw (reserved_of-mark now is status o h)
        (rw e (rw (sum-mark now is status os h) (omega arith)))
  | inr e ↦ rw (reserved_of-mark now is status o h) (rw e (rw (sum-mark now is status os h)))
]

filter-none : (os : List OrderRow) → filter (λ o. not (any (λ i. str_eq i o.order_id) [])) os ≡ os
filter-none [] = refl
filter-none (o ∷ os) = rw (filter-none os)

-- Marking orders with a state that is no open state (cancelled, terminal_unknown,
-- simulated_closed) frees what exactly those orders reserved.
pub reserved-mark_orders :
    (now : ℕ) (is : List String) (status : Status) (db : Db)
    → is_tracked status ≡ false
    → active_reserved_usd (mark_orders now is status db)
      ≡ sum_by reserved_of (filter (λ o. not (any (λ i. str_eq i o.order_id) is)) db.orders)
unfolding active_reserved_usd mark_orders
reserved-mark_orders now [] status db h = rw (filter-none db.orders)
reserved-mark_orders now (i ∷ is) status db h = sum-mark now (i ∷ is) status db.orders h

update_reserved-le :
    (now : ℕ) (i : String) (status : Status) (matched : Decimal) (raw : String) (o : OrderRow)
    → (is_tracked status ≡ true → is_tracked o.status ≡ true)
    → o.matched_size ≤ matched
    → reserved_of (update_row now i status matched raw o) ≤ reserved_of o
update_reserved-le now i status matched raw o keeps more =
    ground (arith, mul_mono_right o.price (o.size - matched) (o.size - o.matched_size))

sum-update :
    (now : ℕ) (i : String) (status : Status) (matched : Decimal) (raw : String) (os : List OrderRow)
    → All
        (λ o.
          str_eq o.order_id i ≡ true
          → (is_tracked status ≡ true → is_tracked o.status ≡ true) × (o.matched_size ≤ matched))
        os
    → sum_by reserved_of (map (update_row now i status matched raw) os) ≤ sum_by reserved_of os
sum-update now i status matched raw [] h = omega arith
sum-update now i status matched raw (o ∷ os) h = elim (Bool-cases (str_eq o.order_id i)) [
  | inl e ↦ omega (
    arith,
    sum-update now i status matched raw os h.1,
    update_reserved-le now i status matched raw o ((h.0 e).0) ((h.0 e).1),
  )
  | inr e ↦ rw e (omega (arith, sum-update now i status matched raw os h.1))
]

-- An update that never lowers the matched size and never reopens a closed order never raises the
-- reserve.
pub reserved-update_order :
    (now : ℕ) (i : String) (status : Status) (matched : Decimal) (raw : String) (db : Db)
    → All
        (λ o.
          str_eq o.order_id i ≡ true
          → (is_tracked status ≡ true → is_tracked o.status ≡ true) × (o.matched_size ≤ matched))
        db.orders
    → active_reserved_usd (update_order now i status matched raw db) ≤ active_reserved_usd db
unfolding active_reserved_usd update_order
reserved-update_order now i status matched raw db h =
    sum-update now i status matched raw db.orders h
