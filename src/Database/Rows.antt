-- ===== src/Database/Rows.antt =====
-- What the writes do to the row of one order or one market, and when an entry plan may start.
use mathlib.Core.Option
use polymarket_event_quant.Base.{
  ℕ, String, ◌≡◌, refl, Bool, true, false, not, Option, some, List, [], ◌∷◌, ◌++◌, map, str_eq,
  filter, any, find, is_some, if◌then◌else◌, arith, Option-cases, inl, inr, eq_refl, ◌⊎◌,
  Bool-cases, eq_iff,
}
use polymarket_event_quant.Base.Decimal.{Decimal}
use polymarket_event_quant.Base.Keyed.{
  has_key, lookup, has_key-lookup, lookup-map, lookup-key, lookup-drop_key, lookup-append_one,
  has_key-drop_key,
}
use polymarket_event_quant.Models.{PlacedOrder, Status}
use polymarket_event_quant.Database.{
  Db, MarketRow, OrderRow, MarketState, market_row, set_market_state, set_state_row,
  can_start_entry_plan, add_order, update_order, update_row, mark_orders, mark_row, new_order_row,
}
use polymarket_event_quant.Database.Queries.{order}
use polymarket_event_quant.Database.Invariant.{
  id_of, slug_of, after, update_row_keys, mark_row_keys,
}

-- `add_order` on a known market: its id reads the new row, every other id what it read before.
pub order-add_order :
    (now run_id : ℕ) (slug : String) (o : PlacedOrder) (j : String) (db : Db)
    → has_key slug_of slug db.markets ≡ true
    → order j (after db (add_order now run_id slug o db))
      ≡ (if str_eq o.order_id j then some (new_order_row now run_id slug o) else order j db)
unfolding order add_order
order-add_order now run_id slug o j db known = rw known (
    rw (lookup-append_one id_of j kept (new_order_row now run_id slug o) fresh)
      (ground (arith, lookup-drop_key id_of o.order_id j db.orders)))
  where
    kept : List OrderRow
    kept = filter (λ r. not (str_eq r.order_id o.order_id)) db.orders

    fresh : has_key id_of o.order_id kept ≡ false
    fresh = rw (has_key-drop_key id_of o.order_id o.order_id db.orders) (rw (eq_refl o.order_id))

pub order-id : (i : String) {o : OrderRow} (db : Db) → order i db ≡ some o → o.order_id ≡ i
unfolding order
order-id i db h = lookup-key id_of i db.orders h

-- Whether the market is known or not, `add_order` leaves the row of an id, or makes it the new one.
pub order-add_order_cases :
    (now run_id : ℕ) (slug : String) (o : PlacedOrder) (j : String) (db : Db)
    → (order j (after db (add_order now run_id slug o db)) ≡ order j db)
      ⊎ ((o.order_id ≡ j)
          × (order j (after db (add_order now run_id slug o db))
              ≡ some (new_order_row now run_id slug o)))
order-add_order_cases now run_id slug o j db = elim (Bool-cases (has_key slug_of slug db.markets)) [
  | inl e ↦ ground (arith, order-add_order now run_id slug o j db, eq_iff o.order_id j, e)
  | inr e ↦ inl (rw (unknown e))
]
  where
    unknown :
        has_key slug_of slug db.markets ≡ false → after db (add_order now run_id slug o db) ≡ db
    unknown e = unfold add_order in rw e

-- `update_order` changes the four columns of the row of that id, and no other row.
pub order-update_order :
    (now : ℕ) (i : String) (status : Status) (matched : Decimal) (raw j : String) (db : Db)
    → order j (update_order now i status matched raw db)
      ≡ Option.map (update_row now i status matched raw) (order j db)
unfolding order update_order
order-update_order now i status matched raw j db =
    lookup-map id_of (update_row now i status matched raw)
      (λ o. (update_row_keys now i status matched raw o).0) j db.orders

pub order-mark_orders :
    (now : ℕ) (is : List String) (status : Status) (j : String) (db : Db)
    → order j (mark_orders now is status db) ≡ Option.map (mark_row now is status) (order j db)
unfolding order mark_orders
order-mark_orders now [] status j db = elim (Option-cases (order j db)) [
  | inl e ↦ unfold order in rw e
  | inr (o, e) ↦ unfold order in rw e
]
order-mark_orders now (i ∷ is) status j db =
    lookup-map id_of (mark_row now (i ∷ is) status) (λ o. (mark_row_keys now (i ∷ is) status o).0) j
      db.orders

-- some order of that market is recorded
abbrev pub has_order_of : String → Db → Bool
has_order_of slug db = any (λ o. str_eq o.slug slug) db.orders

find-any {ℓ} : {A : Type ℓ} (p : A → Bool) (xs : List A) → is_some (find p xs) ≡ any p xs
find-any p [] = refl
find-any p (x ∷ xs) = ground (arith, find-any p xs)

any-append_one {ℓ} :
    {A : Type ℓ} (p : A → Bool) (xs : List A) (a : A) → p a ≡ true → any p (xs ++ a ∷ []) ≡ true
any-append_one p [] a h = ground arith
any-append_one p (x ∷ xs) a h = ground (arith, any-append_one p xs a h)

-- With an order of its market recorded, no entry plan starts, whatever the market's state.
pub can_start-false_of_order :
    (slug : String) (db : Db)
    → has_key slug_of slug db.markets ≡ true
    → has_order_of slug db ≡ true
    → can_start_entry_plan slug db ≡ false
unfolding can_start_entry_plan
can_start-false_of_order slug db known some_order = ground (
  arith,
  has_key-lookup slug_of slug db.markets,
  find-any (λ (o : OrderRow). str_eq o.slug slug) db.orders,
)

-- Recording an order shuts its market for good: no entry plan starts after `add_order`, for any
-- later market state, error or time.
pub can_start-after-add_order :
    (now run_id later : ℕ) (slug : String) (o : PlacedOrder) (state : MarketState)
    (message : Option String) (db : Db)
    → has_key slug_of slug db.markets ≡ true
    → can_start_entry_plan slug
        (set_market_state later slug state message (after db (add_order now run_id slug o db)))
      ≡ false
unfolding set_market_state add_order
can_start-after-add_order now run_id later slug o state message db known =
    can_start-false_of_order slug _ (rw known (rw (has_key-map_state db.markets) known))
      (rw known (any-append_one (λ (r : OrderRow). str_eq r.slug slug) _ _ (eq_refl slug)))
  where
    has_key-map_state :
        (ms : List MarketRow)
        → has_key slug_of slug (map (set_state_row later slug state message) ms)
          ≡ has_key slug_of slug ms
    has_key-map_state [] = refl
    has_key-map_state (m ∷ ms) = ground (arith, has_key-map_state ms)

-- A market that waits for a retry and has no order may start its plan again.
pub can_start-placement_pending :
    (now : ℕ) (slug : String) (message : Option String) (db : Db)
    → has_order_of slug db ≡ false
    → can_start_entry_plan slug (set_market_state now slug MarketState.placement_pending message db)
      ≡ true
unfolding can_start_entry_plan set_market_state
can_start-placement_pending now slug message db no_order =
    elim (Option-cases (market_row slug db)) [
      | inl e ↦ ground (arith, moved, e)
      | inr (m, e) ↦ ground (
        arith,
        moved,
        e,
        lookup-key slug_of slug db.markets e,
        eq_refl slug,
        find-any (λ (o : OrderRow). str_eq o.slug slug) db.orders,
      )
    ]
  where
    f : MarketRow → MarketRow
    f = set_state_row now slug MarketState.placement_pending message

    moved : lookup slug_of slug (map f db.markets) ≡ Option.map f (lookup slug_of slug db.markets)
    moved = lookup-map slug_of f (λ m. ground arith) slug db.markets
