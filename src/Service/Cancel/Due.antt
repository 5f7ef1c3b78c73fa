-- ===== src/Service/Cancel/Due.antt =====
-- After the deadline has been served, no due order is left open.
use polymarket_event_quant.Base.{
  ℕ, ◌+◌, String, ◌≡◌, refl, ◌∙◌, Bool, true, false, ◌&&◌, Option, none, some, List, [], ◌∷◌, map,
  arith, any, All, filter, leb, str_eq, Bool-cases, inl, inr, Result, ok, err, eq_refl, any-sort_by,
  ◌==◌, suc,
}
use polymarket_event_quant.Database.{
  Db, OrderRow, MarketRow, market_row, mark_orders, mark_row, event,
}
use polymarket_event_quant.Service.{Bot, Settings}
use polymarket_event_quant.Service.Cancel.{
  cancel_due_orders, order_ids_of, cancel_listed, after_cancel, cancel_orders,
}
use polymarket_event_quant.Database.Queries.{Joined, due_open_orders, join}
use polymarket_event_quant.Models.Statuses.{is_due}
use polymarket_event_quant.Models.{Status}
use polymarket_event_quant.Exchange.Client.{Client, CancelReply}
use polymarket_event_quant.Exchange.{Exc}

abbrev pub ends_by : ℕ → Option MarketRow → Bool
ends_by cutoff none = false
ends_by cutoff (some m) = leb m.market.end_ts cutoff

-- an order that may still trade, in a market that ends by then
abbrev pub is_due_at : ℕ → Db → OrderRow → Bool
is_due_at cutoff db o = is_due o.status && ends_by cutoff (market_row o.slug db)

abbrev pub NoneDue : ℕ → Db → List OrderRow → Type 0
NoneDue cutoff db os = All (λ o. is_due_at cutoff db o ≡ false) os

abbrev due_rows : ℕ → Db → List OrderRow → List Joined
due_rows cutoff db os =
    filter (λ j. leb j.market.market.end_ts cutoff) (join db (filter (λ o. is_due o.status) os))

due_rows-none :
    (cutoff : ℕ) (db : Db) (os : List OrderRow) → NoneDue cutoff db os → due_rows cutoff db os ≡ []
due_rows-none cutoff db [] h = refl
due_rows-none cutoff db (o ∷ os) h = ground (arith, due_rows-none cutoff db os h.1)

pub due_open_orders-none :
    (cutoff : ℕ) (db : Db) → NoneDue cutoff db db.orders → due_open_orders cutoff db ≡ []
unfolding due_open_orders
due_open_orders-none cutoff db h = rw (due_rows-none cutoff db db.orders h) refl

-- every due order is among the ids
abbrev pub Covers : ℕ → Db → List String → List OrderRow → Type 0
Covers cutoff db is os =
    All (λ o. is_due_at cutoff db o ≡ true → any (λ i. str_eq i o.order_id) is ≡ true) os

due_rows-any :
    (q : OrderRow → Bool) (cutoff : ℕ) (db : Db) (os : List OrderRow)
    → any (λ j. q j.row) (due_rows cutoff db os) ≡ any (λ o. is_due_at cutoff db o && q o) os
due_rows-any q cutoff db [] = refl
due_rows-any q cutoff db (o ∷ os) = ground (arith, due_rows-any q cutoff db os)

any_weaken :
    (p : OrderRow → Bool) (x : OrderRow) (os rest : List OrderRow)
    → All (λ o. p o ≡ true → any (λ y. p y && str_eq y.order_id o.order_id) os ≡ true) rest
    → All (λ o. p o ≡ true → any (λ y. p y && str_eq y.order_id o.order_id) (x ∷ os) ≡ true) rest
any_weaken p x os [] h = tt
any_weaken p x os (r ∷ rest) h = (λ e. ground (arith, h.0 e), any_weaken p x os rest h.1)

pub any_self :
    (p : OrderRow → Bool) (os : List OrderRow)
    → All (λ o. p o ≡ true → any (λ y. p y && str_eq y.order_id o.order_id) os ≡ true) os
any_self p [] = tt
any_self p (o ∷ os) =
    (λ e. ground (arith, eq_refl o.order_id), any_weaken p o os os (any_self p os))

pub any-map_ids :
    (i : String) (js : List Joined)
    → any (λ k. str_eq k i) (order_ids_of js) ≡ any (λ j. str_eq j.row.order_id i) js
any-map_ids i [] = refl
any-map_ids i (j ∷ js) = ground (arith, any-map_ids i js)

covers_ids :
    (cutoff : ℕ) (db : Db) (o : OrderRow)
    → any (λ i. str_eq i o.order_id) (order_ids_of (due_open_orders cutoff db))
      ≡ any (λ y. is_due_at cutoff db y && str_eq y.order_id o.order_id) db.orders
unfolding due_open_orders
covers_ids cutoff db o =
    any-map_ids o.order_id (due_open_orders cutoff db)
    ∙ any-sort_by (λ j. str_eq j.row.order_id o.order_id) (λ j. j.market.market.end_ts) _
    ∙ any-sort_by (λ j. str_eq j.row.order_id o.order_id) (λ j. j.row.created_ts) _
    ∙ due_rows-any (λ y. str_eq y.order_id o.order_id) cutoff db db.orders

Covers-ids :
    (cutoff : ℕ) (db : Db) (os : List OrderRow)
    → All
        (λ o.
          is_due_at cutoff db o ≡ true
          → any (λ y. is_due_at cutoff db y && str_eq y.order_id o.order_id) db.orders ≡ true)
        os
    → Covers cutoff db (order_ids_of (due_open_orders cutoff db)) os
Covers-ids cutoff db [] h = tt
Covers-ids cutoff db (o ∷ os) h = (λ e. covers_ids cutoff db o ∙ h.0 e, Covers-ids cutoff db os h.1)

due-Covers :
    (cutoff : ℕ) (db : Db) → Covers cutoff db (order_ids_of (due_open_orders cutoff db)) db.orders
due-Covers cutoff db = Covers-ids cutoff db db.orders (any_self (is_due_at cutoff db) db.orders)

marked-none :
    (now cutoff : ℕ) (db : Db) (is : List String) (status : Status) (os : List OrderRow)
    → is_due status ≡ false
    → Covers cutoff db is os
    → NoneDue cutoff db (map (mark_row now is status) os)
marked-none now cutoff db is status [] d h = tt
marked-none now cutoff db is status (o ∷ os) d h =
    (ground arith, marked-none now cutoff db is status os d h.1)

-- a later mark of a state that is not open keeps it so
remark-none :
    (now cutoff : ℕ) (db : Db) (is : List String) (status : Status) (os : List OrderRow)
    → is_due status ≡ false
    → NoneDue cutoff db os
    → NoneDue cutoff db (map (mark_row now is status) os)
remark-none now cutoff db is status [] d h = tt
remark-none now cutoff db is status (o ∷ os) d h =
    (ground arith, remark-none now cutoff db is status os d h.1)

abbrev pub Served : ℕ → Db → Type 0
Served cutoff db = NoneDue cutoff db db.orders

pub Covers-nil :
    (cutoff : ℕ) (db : Db) (os : List OrderRow) → Covers cutoff db [] os → NoneDue cutoff db os
Covers-nil cutoff db [] h = tt
Covers-nil cutoff db (o ∷ os) h = (
  elim (Bool-cases (is_due_at cutoff db o)) [ inl e ↦ ground (arith, h.0 e) | inr e ↦ e ],
  Covers-nil cutoff db os h.1,
)

pub mark-Served :
    (now cutoff : ℕ) (db : Db) (is : List String) (status : Status)
    → is_due status ≡ false
    → Covers cutoff db is db.orders
    → Served cutoff (mark_orders now is status db)
unfolding mark_orders
mark-Served now cutoff db [] status d h = Covers-nil cutoff db db.orders h
mark-Served now cutoff db (i ∷ is) status d h =
    marked-none now cutoff db (i ∷ is) status db.orders d h

pub remark-Served :
    (now cutoff : ℕ) (db : Db) (is : List String) (status : Status)
    → is_due status ≡ false
    → Served cutoff db
    → Served cutoff (mark_orders now is status db)
unfolding mark_orders
remark-Served now cutoff db [] status d h = h
remark-Served now cutoff db (i ∷ is) status d h =
    remark-none now cutoff db (i ∷ is) status db.orders d h

module _ (client : Client) (settings : Settings) (now cutoff : ℕ) where
  pub after_cancel-Served :
      (done failed : String) (r : Result Exc (Option CancelReply)) (b : Bot)
      → Served cutoff b.db
      → Served cutoff ((after_cancel client settings now done failed r b).1).db
  unfolding event is_due
  after_cancel-Served done failed (err e) b h = h
  after_cancel-Served done failed (ok reply) b h =
      remark-Served now cutoff _ _ Status.terminal_unknown refl
        (remark-Served now cutoff b.db _ Status.cancelled refl h)

  cancel_listed-Served :
      (done failed : String) (is : List String) (b : Bot)
      → Covers cutoff b.db is b.db.orders
      → Served cutoff ((cancel_listed client settings now done failed is b).1).db
  unfolding is_due
  cancel_listed-Served done failed [] b h = Covers-nil cutoff b.db b.db.orders h
  cancel_listed-Served done failed (i ∷ is) b h = elim (Bool-cases settings.live) [
    | inr e ↦ rw e (mark-Served now cutoff b.db (i ∷ is) Status.simulated_closed refl h)
    | inl e ↦ rw e (
        after_cancel-Served done failed (cancel_orders client b.calls (i ∷ is))
          (record b {
            db = mark_orders now (i ∷ is) Status.cancel_requested b.db;
            calls = suc b.calls;
          })
          (mark-Served now cutoff b.db (i ∷ is) Status.cancel_requested refl h))
  ]

-- Where a cancel before the end is set, no order is left that is due by the deadline, whatever the
-- venue answers and where it fails too: each one is at least marked as asked to be cancelled.
pub cancel_due_orders_leaves_none :
    (client : Client) (settings : Settings) (now : ℕ) (b : Bot)
    → (settings.cancel_before_end_seconds == 0) ≡ false
    → due_open_orders
        (now + settings.cancel_before_end_seconds)
        ((cancel_due_orders client settings now b).1).db
      ≡ []
unfolding cancel_due_orders
cancel_due_orders_leaves_none client settings now b h =
    let cutoff = now + settings.cancel_before_end_seconds in
    due_open_orders-none cutoff _ (
      rw h (
        cancel_listed-Served client settings now cutoff "deadline_cancel" "deadline_cancel_failed" _
          b (due-Covers cutoff b.db)))
