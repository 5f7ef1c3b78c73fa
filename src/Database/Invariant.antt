-- ===== src/Database/Invariant.antt =====
-- The keys of the tables: slugs and order ids are distinct, and every order's market is there.
use polymarket_event_quant.Base.{
  ℕ, String, ◌≡◌, Bool, true, not, Option, List, [], ◌∷◌, ◌++◌, map, str_eq, filter, All,
  All-append, Result, ok, err, arith, Bool-cases, inl, inr, eq_iff, eq_refl,
}
use polymarket_event_quant.Base.Decimal.{Decimal}
use polymarket_event_quant.Base.Keyed.{
  IsUnique, has_key, has_key-map, map-IsUnique, has_key-append, append_one-IsUnique,
  drop_key-IsUnique, has_key-drop_key,
}
use polymarket_event_quant.Models.{Market, PlacedOrder, Status}
use polymarket_event_quant.Database.{
  Db, MarketRow, OrderRow, MarketState, IntegrityError, empty, add_market, prepare_market,
  has_market, set_market_state, set_state_row, replace_market, new_market_row, add_order,
  update_order, update_row, mark_orders, mark_row, new_order_row,
}

abbrev pub slug_of : MarketRow → String
slug_of m = m.slug

abbrev pub id_of : OrderRow → String
id_of o = o.order_id

abbrev pub IsKnown : List MarketRow → OrderRow → Type 0
IsKnown ms o = has_key slug_of o.slug ms ≡ true

pub record IsValid (db : Db) : Type 0 where
  pub slugs : IsUnique slug_of db.markets
  pub ids : IsUnique id_of db.orders
  pub known : All (IsKnown db.markets) db.orders

-- the tables after a call that may raise; a raise writes nothing
abbrev pub after : Db → Result IntegrityError Db → Db
after db (ok db') = db'
after db (err _) = db

pub empty-IsValid : IsValid empty
empty-IsValid = record { slugs = tt; ids = tt; known = tt }

IsKnown-of_map :
    (f : MarketRow → MarketRow) (keeps : (m : MarketRow) → slug_of (f m) ≡ slug_of m)
    (ms : List MarketRow) (os : List OrderRow)
    → All (IsKnown ms) os
    → All (IsKnown (map f ms)) os
IsKnown-of_map f keeps ms [] h = tt
IsKnown-of_map f keeps ms (o ∷ os) h =
    (rw (has_key-map slug_of f keeps o.slug ms) h.0, IsKnown-of_map f keeps ms os h.1)

IsKnown-of_append :
    (ms : List MarketRow) (m : MarketRow) (os : List OrderRow)
    → All (IsKnown ms) os
    → All (IsKnown (ms ++ m ∷ [])) os
IsKnown-of_append ms m [] h = tt
IsKnown-of_append ms m (o ∷ os) h =
    (ground (arith, h.0, has_key-append slug_of o.slug ms (m ∷ [])), IsKnown-of_append ms m os h.1)

IsKnown-map :
    (ms : List MarketRow) (f : OrderRow → OrderRow)
    → ((o : OrderRow) → (f o).slug ≡ o.slug)
    → (os : List OrderRow) → All (IsKnown ms) os
    → All (IsKnown ms) (map f os)
IsKnown-map ms f keeps [] h = tt
IsKnown-map ms f keeps (o ∷ os) h = (rw (keeps o) h.0, IsKnown-map ms f keeps os h.1)

IsKnown-filter :
    (ms : List MarketRow) (p : OrderRow → Bool) (os : List OrderRow)
    → All (IsKnown ms) os
    → All (IsKnown ms) (filter p os)
IsKnown-filter ms p [] h = tt
IsKnown-filter ms p (o ∷ os) h = elim (Bool-cases (p o)) [
  | inl e ↦ rw e (h.0, IsKnown-filter ms p os h.1)
  | inr e ↦ rw e (IsKnown-filter ms p os h.1)
]

module _ (f : MarketRow → MarketRow) (keeps : (m : MarketRow) → slug_of (f m) ≡ slug_of m) where
  map_markets-IsValid : (db : Db) → IsValid db → IsValid (record db { markets = map f db.markets })
  map_markets-IsValid db v = record {
    slugs = map-IsUnique slug_of f keeps db.markets v.slugs;
    ids = v.ids;
    known = IsKnown-of_map f keeps db.markets db.orders v.known;
  }

module _ (f : OrderRow → OrderRow) (same_id : (o : OrderRow) → id_of (f o) ≡ id_of o)
    (same_slug : (o : OrderRow) → (f o).slug ≡ o.slug) where
  map_orders-IsValid : (db : Db) → IsValid db → IsValid (record db { orders = map f db.orders })
  map_orders-IsValid db v = record {
    slugs = v.slugs;
    ids = map-IsUnique id_of f same_id db.orders v.ids;
    known = IsKnown-map db.markets f same_slug db.orders v.known;
  }

pub add_market-IsValid :
    (now run_id : ℕ) (m : Market) (state : MarketState) (db : Db)
    → IsValid db
    → IsValid (after db (add_market now run_id m state db))
unfolding add_market
add_market-IsValid now run_id m state db v = elim (Bool-cases (has_key slug_of m.slug db.markets)) [
  | inl e ↦ rw e v
  | inr e ↦ rw e (record {
    slugs = append_one-IsUnique slug_of db.markets (new_market_row now run_id m state) e v.slugs;
    ids = v.ids;
    known = IsKnown-of_append db.markets (new_market_row now run_id m state) db.orders v.known;
  })
]

replace_market_slug : (row m : MarketRow) → slug_of (replace_market row m) ≡ slug_of m
replace_market_slug row m = ground (arith, eq_iff m.slug row.slug)

-- Preparing a market, new or known, keeps the tables valid.
pub prepare_market-IsValid :
    (now run_id : ℕ) (m : Market) (state : MarketState) (db : Db)
    → IsValid db
    → IsValid (after db (prepare_market now run_id m state db))
unfolding prepare_market
prepare_market-IsValid now run_id m state db v = elim (Bool-cases (has_market m.slug db)) [
  | inl e ↦ rw e (
      map_markets-IsValid (replace_market (new_market_row now run_id m state))
        (replace_market_slug (new_market_row now run_id m state)) db v)
  | inr e ↦ rw e (add_market-IsValid now run_id m state db v)
]

set_state_row_slug :
    (now : ℕ) (slug : String) (state : MarketState) (message : Option String) (m : MarketRow)
    → slug_of (set_state_row now slug state message m) ≡ slug_of m
set_state_row_slug now slug state message m = ground arith

pub set_market_state-IsValid :
    (now : ℕ) (slug : String) (state : MarketState) (message : Option String) (db : Db)
    → IsValid db
    → IsValid (set_market_state now slug state message db)
unfolding set_market_state
set_market_state-IsValid now slug state message db v =
    map_markets-IsValid (set_state_row now slug state message)
      (set_state_row_slug now slug state message) db v

-- A placed order, new or replacing one, keeps the tables valid.
pub add_order-IsValid :
    (now run_id : ℕ) (slug : String) (o : PlacedOrder) (db : Db)
    → IsValid db
    → IsValid (after db (add_order now run_id slug o db))
unfolding add_order
add_order-IsValid now run_id slug o db v = elim (Bool-cases (has_key slug_of slug db.markets)) [
  | inl e ↦ rw e (record {
    slugs = v.slugs;
    ids =
        append_one-IsUnique id_of kept (new_order_row now run_id slug o)
          (rw (has_key-drop_key id_of o.order_id o.order_id db.orders) (rw (eq_refl o.order_id)))
          (drop_key-IsUnique id_of o.order_id db.orders v.ids);
    known =
        All-append (IsKnown db.markets) kept (new_order_row now run_id slug o ∷ [])
          (IsKnown-filter db.markets (λ r. not (str_eq r.order_id o.order_id)) db.orders v.known)
          (e, tt);
  })
  | inr e ↦ rw e v
]
  where
    kept : List OrderRow
    kept = filter (λ r. not (str_eq r.order_id o.order_id)) db.orders

pub update_row_keys :
    (now : ℕ) (i : String) (status : Status) (matched : Decimal) (raw : String) (o : OrderRow)
    → (id_of (update_row now i status matched raw o) ≡ id_of o)
      × ((update_row now i status matched raw o).slug ≡ o.slug)
update_row_keys now i status matched raw o = ground arith

pub update_order-IsValid :
    (now : ℕ) (i : String) (status : Status) (matched : Decimal) (raw : String) (db : Db)
    → IsValid db
    → IsValid (update_order now i status matched raw db)
unfolding update_order
update_order-IsValid now i status matched raw db v =
    map_orders-IsValid (update_row now i status matched raw)
      (λ o. (update_row_keys now i status matched raw o).0)
      (λ o. (update_row_keys now i status matched raw o).1) db v

pub mark_row_keys :
    (now : ℕ) (is : List String) (status : Status) (o : OrderRow)
    → (id_of (mark_row now is status o) ≡ id_of o) × ((mark_row now is status o).slug ≡ o.slug)
mark_row_keys now is status o = ground arith

pub mark_orders-IsValid :
    (now : ℕ) (is : List String) (status : Status) (db : Db)
    → IsValid db
    → IsValid (mark_orders now is status db)
unfolding mark_orders
mark_orders-IsValid now [] status db v = v
mark_orders-IsValid now (i ∷ is) status db v =
    map_orders-IsValid (mark_row now (i ∷ is) status) (λ o. (mark_row_keys now (i ∷ is) status o).0)
      (λ o. (mark_row_keys now (i ∷ is) status o).1) db v
