-- ===== src/Database/Joins.antt =====
-- The joined queries lose no order, and order their rows.
use polymarket_event_quant.Base.{
  ℕ, ◌≡◌, refl, Bool, true, false, Option, none, some, ap, List, [], ◌∷◌, leb, filter, sum_by,
  sum_by-sort_by, ◌∙◌, sort_by, IsSorted, sort_by-IsSorted, All, All-sort_by, All-filter, arith,
  Bool-cases, Option-cases, inl, inr, ap,
}
use polymarket_event_quant.Base.Keyed.{has_key-lookup}
use polymarket_event_quant.Models.Statuses.{is_tracked, is_due}
use polymarket_event_quant.Database.{Db, OrderRow, MarketRow, market_row}
use polymarket_event_quant.Database.Queries.{Joined, join, tracked_open_orders, due_open_orders}
use polymarket_event_quant.Database.Invariant.{IsValid, IsKnown, slug_of}

sum-join :
    (db : Db) (g : OrderRow → ℕ) (os : List OrderRow)
    → All (IsKnown db.markets) os
    → sum_by (λ j. g j.row) (join db os) ≡ sum_by g os
sum-join db g [] h = refl
sum-join db g (o ∷ os) h = elim (Option-cases (market_row o.slug db)) [
  | inl e ↦ ground (arith, h.0, has_key-lookup slug_of o.slug db.markets, e)
  | inr (m, e) ↦ rw e (omega (arith, sum-join db g os h.1))
]

All-join {ℓ} :
    (P : OrderRow → Type ℓ) (db : Db) (os : List OrderRow)
    → All P os
    → All (λ j. P j.row) (join db os)
All-join P db [] h = tt
All-join P db (o ∷ os) h = elim (Option-cases (market_row o.slug db)) [
  | inl e ↦ rw e (All-join P db os h.1)
  | inr (m, e) ↦ rw e (h.0, All-join P db os h.1)
]

IsKnown-filter :
    (ms : List MarketRow) (p : OrderRow → Bool) (os : List OrderRow)
    → All (IsKnown ms) os
    → All (IsKnown ms) (filter p os)
IsKnown-filter ms p [] h = tt
IsKnown-filter ms p (o ∷ os) h = elim (Bool-cases (p o)) [
  | inl e ↦ rw e (h.0, IsKnown-filter ms p os h.1)
  | inr e ↦ rw e (IsKnown-filter ms p os h.1)
]

-- In valid tables `tracked_open_orders` lists each order in an open state exactly once (under every
-- measure of orders the list weighs what those orders weigh), lists no other, and does so in the
-- order of creation.
pub tracked_open_orders_exact :
    (db : Db)
    → IsValid db
    → ((g : OrderRow → ℕ)
        → sum_by (λ j. g j.row) (tracked_open_orders db)
          ≡ sum_by g (filter (λ o. is_tracked o.status) db.orders))
      × All (λ j. is_tracked j.row.status ≡ true) (tracked_open_orders db)
      × IsSorted (λ j. j.row.created_ts) (tracked_open_orders db)
unfolding tracked_open_orders
tracked_open_orders_exact db v = (
  λ g.
      sum_by-sort_by (λ j. j.row.created_ts) (λ j. g j.row) (join db kept)
      ∙ sum-join db g kept (IsKnown-filter db.markets (λ o. is_tracked o.status) db.orders v.known),
  All-sort_by (λ j. is_tracked j.row.status ≡ true) (λ j. j.row.created_ts) (join db kept)
      (All-join (λ o. is_tracked o.status ≡ true) db kept
        (All-filter (λ o. is_tracked o.status) db.orders)),
  sort_by-IsSorted (λ j. j.row.created_ts) (join db kept),
)
  where
    kept : List OrderRow
    kept = filter (λ o. is_tracked o.status) db.orders

All-filter_both :
    (p q : Joined → Bool) (js : List Joined)
    → All (λ j. q j ≡ true) js
    → All (λ j. (p j ≡ true) × (q j ≡ true)) (filter p js)
All-filter_both p q [] h = tt
All-filter_both p q (j ∷ js) h = elim (Bool-cases (p j)) [
  | inl e ↦ rw e ((e, h.0), All-filter_both p q js h.1)
  | inr e ↦ rw e (All-filter_both p q js h.1)
]

-- the market of an order is known and ends by the cutoff
abbrev pub ends_at : ℕ → Option MarketRow → Bool
ends_at cutoff_ts none = false
ends_at cutoff_ts (some m) = leb m.market.end_ts cutoff_ts

abbrev pub ends_by : ℕ → Db → OrderRow → Bool
ends_by cutoff_ts db o = ends_at cutoff_ts (market_row o.slug db)

sum-join-filter :
    (cutoff_ts : ℕ) (db : Db) (g : OrderRow → ℕ) (os : List OrderRow)
    → sum_by (λ j. g j.row) (filter (λ j. leb j.market.market.end_ts cutoff_ts) (join db os))
      ≡ sum_by g (filter (ends_by cutoff_ts db) os)
sum-join-filter cutoff_ts db g [] = refl
sum-join-filter cutoff_ts db g (o ∷ os) =
    let rest = sum-join-filter cutoff_ts db g os in
    elim (Option-cases (market_row o.slug db)) [
      | inl e ↦
          let out : ends_by cutoff_ts db o ≡ false = ap (ends_at cutoff_ts) e in
          rw e (ground (arith, out, rest))
      | inr (m, e) ↦
          let at : ends_by cutoff_ts db o ≡ leb m.market.end_ts cutoff_ts =
            ap (ends_at cutoff_ts) e in
          rw e (ground (arith, at, rest))
    ]

-- `due_open_orders` lists each order that may still trade, is not already being cancelled and stands
-- in a market that ends by the cutoff, exactly once (under every measure of orders the list weighs
-- what those orders weigh); it lists no other; and the markets that end first stand first.
pub due_open_orders_exact :
    (cutoff_ts : ℕ) (db : Db)
    → ((g : OrderRow → ℕ)
        → sum_by (λ j. g j.row) (due_open_orders cutoff_ts db)
          ≡ sum_by g (filter (ends_by cutoff_ts db) (filter (λ o. is_due o.status) db.orders)))
      × All
          (λ j. (leb j.market.market.end_ts cutoff_ts ≡ true) × (is_due j.row.status ≡ true))
          (due_open_orders cutoff_ts db)
      × IsSorted (λ j. j.market.market.end_ts) (due_open_orders cutoff_ts db)
unfolding due_open_orders
due_open_orders_exact cutoff_ts db = (
  λ g.
      sum_by-sort_by (λ j. j.market.market.end_ts) (λ j. g j.row) by_created
      ∙ sum_by-sort_by (λ j. j.row.created_ts) (λ j. g j.row) kept
      ∙ sum-join-filter cutoff_ts db g due,
  All-sort_by Good (λ j. j.market.market.end_ts) by_created
      (All-sort_by Good (λ j. j.row.created_ts) kept
        (All-filter_both (λ j. leb j.market.market.end_ts cutoff_ts) (λ j. is_due j.row.status)
          (join db due)
          (All-join (λ o. is_due o.status ≡ true) db due
            (All-filter (λ o. is_due o.status) db.orders)))),
  sort_by-IsSorted (λ j. j.market.market.end_ts) by_created,
)
  where
    Good : Joined → Type 0
    Good j = (leb j.market.market.end_ts cutoff_ts ≡ true) × (is_due j.row.status ≡ true)

    due : List OrderRow
    due = filter (λ o. is_due o.status) db.orders

    kept : List Joined
    kept = filter (λ j. leb j.market.market.end_ts cutoff_ts) (join db due)

    by_created : List Joined
    by_created = sort_by (λ j. j.row.created_ts) kept
