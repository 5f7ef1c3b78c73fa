-- ===== src/Service/Adopt/Ours.antt =====
-- Adoption touches no row that is there, and writes down only orders that look like the bot's own.
use polymarket_event_quant.Base.{
  ℕ, String, ◌≡◌, refl, Bool, true, false, Option, none, some, List, [], ◌∷◌, or_else, ok, err,
  arith, Option-cases, inl, inr, Result, not, ◌==◌,
}
use polymarket_event_quant.Models.{Outcome, Status}
use polymarket_event_quant.Models.Statuses.{is_terminal}
use polymarket_event_quant.Database.{Db, OrderRow, MarketRow, add_order, event, IntegrityError}
use polymarket_event_quant.Database.Queries.{order, market_for_condition}
use polymarket_event_quant.Database.Invariant.{after}
use polymarket_event_quant.Exchange.{
  ◌or◌, RawOrder, Exc, raw_order_id, read_number, normalize_order,
}
use polymarket_event_quant.Service.{Bot, Settings, Decimal}
use polymarket_event_quant.Service.Adopt.{
  adopt_row, adopt_caught, adopt_unknown_open_orders, report_foreign_order, adopt_ours,
  adopted_order, adopt_on, outcome_of, adopt_priced, lift, adopt_sized, caught,
}
use polymarket_event_quant.Database.Rows.{order-add_order_cases}
use polymarket_event_quant.Service.Monad.Ends.{if-ends, value-ends, write-ends}
use polymarket_event_quant.Service.Monad.{log}
use polymarket_event_quant.Service.Monad.{◌>>=◌, ◌>>◌, pure, log}

-- what may be said of a row of this id after an adoption pass over tables that did not have it
pub record IsOurs (settings : Settings) (o : OrderRow) : Type 0 where
  pub price : o.price ≡ settings.plan.buy_price
  pub run : o.run_id ≡ settings.run_id
  pub open_state : is_terminal o.status ≡ false

abbrev pub Adopted : Settings → Option OrderRow → Option OrderRow → Type 0
Adopted settings none none = Unit
Adopted settings none (some o) = IsOurs settings o
Adopted settings (some o) o' = o' ≡ some o

pub order-event :
    (now : ℕ) (run_id : Option ℕ) (level type_name : String) (s : Option String) (j : String)
    (db : Db)
    → order j (event now run_id level type_name s db) ≡ order j db
unfolding order event
order-event now run_id level type_name s j db = refl

module _ (settings : Settings) (now : ℕ) (j : String) where
  abbrev Done : Bot → Bot → Type 0
  Done b b' = Adopted settings (order j b.db) (order j b'.db)

  Adopted-same : (x y : Option OrderRow) → y ≡ x → Adopted settings x y
  Adopted-same none y e = rw e tt
  Adopted-same (some o) y e = e

  Done-add :
      (raw : RawOrder) (i : String) (m : MarketRow) (asset_id : String) (outcome : Outcome)
      (price size : Decimal) (status : Status) (db : Db)
      → order i db ≡ none
      → price ≡ settings.plan.buy_price
      → is_terminal status ≡ false
      → Adopted settings (order j db) (
          order j (
            after db (
              add_order now settings.run_id m.market.slug
                (adopted_order raw i outcome asset_id price size status)
                db)))
  Done-add raw i m asset_id outcome price size status db unknown p s =
      elim (order-add_order_cases now settings.run_id m.market.slug
        (adopted_order raw i outcome asset_id price size status) j db) [
          | inl e ↦ Adopted-same _ _ e
          | inr (same, e) ↦
              rw (e, ← same, unknown) (record { price = p; run = refl; open_state = s })
        ]

  written : (db : Db) {db' : Db} (r : Result IntegrityError Db) → r ≡ ok db' → after db r ≡ db'
  written db (ok d) h = ground arith
  written db (err e) h = cc

  adopt_ours-Done :
      (raw : RawOrder) (i : String) (m : MarketRow) (asset_id : String) (outcome : Outcome)
      (price : Decimal) (sm : Status × Decimal) (b : Bot)
      → order i b.db ≡ none
      → price ≡ settings.plan.buy_price
      → Done b (adopt_ours settings now raw i m asset_id outcome price sm b).1
  unfolding report_foreign_order
  adopt_ours-Done raw i m asset_id outcome price (status, matched) b unknown p =
      if-ends (Done b) (is_terminal status) (report_foreign_order settings now m)
        (λ c.
          ◌>>=◌ (lift (read_number (raw.original_size or raw.size) 0))
            (adopt_sized settings now raw i m asset_id outcome price status) c)
        b (λ e. Adopted-same _ _ (order-event now _ _ _ _ j b.db))
        (λ e.
          value-ends (Done b) (read_number (raw.original_size or raw.size) 0)
            (adopt_sized settings now raw i m asset_id outcome price status) b
            (Adopted-same _ _ refl)
            (λ size h.
              write-ends (Done b)
                (add_order now settings.run_id m.market.slug
                  (adopted_order raw i outcome asset_id price size status))
                (log now settings.run_id "WARNING" "order_adopted" (some m.market.slug)
                  >> pure true)
                b (Adopted-same _ _ refl)
                (λ db w.
                  rw
                    (order-event now (some settings.run_id) "WARNING" "order_adopted"
                      (some m.market.slug) j db)
                    (rw (written b.db _ w) at
                      (Done-add raw i m asset_id outcome price size status b.db unknown p e)))))

  on_token :
      (raw : RawOrder) (i : String) (m : MarketRow) (c : Outcome) (b : Bot)
      → order i b.db ≡ none
      → Done b (adopt_on settings now raw i m (or_else raw.asset_id "") (some c) b).1
  unfolding report_foreign_order
  on_token raw i m c b unknown =
      value-ends (Done b) (read_number raw.price settings.plan.buy_price)
        (adopt_priced settings now raw i m (or_else raw.asset_id "") c) b (Adopted-same _ _ refl)
        (λ price h.
          if-ends (Done b) (not (price == settings.plan.buy_price))
            (report_foreign_order settings now m) _ b
            (λ e. Adopted-same _ _ (order-event now _ _ _ _ j b.db))
            (λ e.
              value-ends (Done b) (normalize_order raw)
                (adopt_ours settings now raw i m (or_else raw.asset_id "") c price) b
                (Adopted-same _ _ refl)
                (λ sm n.
                  adopt_ours-Done raw i m (or_else raw.asset_id "") c price sm b unknown
                    (ground arith))))

  -- After one row of the venue's list, the row of any id is what it was, or it is new and ours.
  adopt_row-Done : (raw : RawOrder) (b : Bot) → Done b (adopt_row settings now raw b).1
  unfolding adopt_row
  adopt_row-Done raw b = elim (Option-cases (raw_order_id raw)) [
    | inl e ↦ rw e (Adopted-same _ _ refl)
    | inr (i, e) ↦ rw e (elim (Option-cases (order i b.db)) [
      | inr (o, known) ↦ rw known (Adopted-same _ _ refl)
      | inl unknown ↦
          rw unknown
            (elim (Option-cases
              (market_for_condition (or_else raw.market "") settings.run_id b.db)) [
                | inl none_there ↦ rw none_there (Adopted-same _ _ refl)
                | inr (m, there) ↦
                    rw there (elim (Option-cases (outcome_of m (or_else raw.asset_id ""))) [
                      | inl foreign ↦ rw foreign (Adopted-same _ _ refl)
                      | inr (c, token) ↦ rw token (on_token raw i m c b unknown)
                    ])
              ])
    ])
  ]

  Adopted-trans :
      (x y z : Option OrderRow) → Adopted settings x y → Adopted settings y z → Adopted settings x z
  Adopted-trans none none z p q = q
  Adopted-trans none (some o) z p q = rw q p
  Adopted-trans (some o) y z p q = (rw p at q)

  adopt_caught-Done : (raw : RawOrder) (b : Bot) → Done b (adopt_caught settings now raw b).1
  unfolding adopt_caught
  adopt_caught-Done raw b =
      caught-Done (adopt_row settings now raw b).0 (adopt_row settings now raw b).1
        (adopt_row-Done raw b)
    where
      caught-Done :
          (r : Result Exc Bool) (b' : Bot) → Done b b' → Done b (caught settings now r b').1
      caught-Done (ok adopted) b' h = h
      caught-Done (err e) b' h =
          rw (order-event now (some settings.run_id) "WARNING" "order_adopt_failed" none j b'.db) h

  pub adopt_unknown_open_orders-Done :
      (raws : List RawOrder) (b : Bot) → Done b (adopt_unknown_open_orders settings now raws b).1
  unfolding adopt_unknown_open_orders
  adopt_unknown_open_orders-Done [] b = Adopted-same _ _ refl
  adopt_unknown_open_orders-Done (raw ∷ raws) b =
      Adopted-trans _ _ _ (adopt_caught-Done raw b)
        (adopt_unknown_open_orders-Done raws (adopt_caught settings now raw b).1)

-- Over any open-orders payload of the venue, malformed rows included: a row that was there is
-- unchanged, and a row that is new was signed at the plan's price, belongs to this run and is in no
-- terminal state.
pub adoption_is_ours :
    (settings : Settings) (now : ℕ) (j : String) (raws : List RawOrder) (b : Bot)
    → Adopted settings (order j b.db) (order j (adopt_unknown_open_orders settings now raws b).1.db)
adoption_is_ours settings now j raws b = adopt_unknown_open_orders-Done settings now j raws b
