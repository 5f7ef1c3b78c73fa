-- ===== src/Service/Adopt.antt =====
-- service.py: `_adopt_unknown_open_orders` and `_report_foreign_order`.
pub mod Ours
use polymarket_event_quant.Base.{
  ℕ, suc, ◌+◌, String, Bool, true, false, not, ◌&&◌, Option, none, some, List, [], ◌∷◌, str_eq,
  ◌==◌, is_some, or_else, Result, ok, err, if◌then◌else◌,
}
use polymarket_event_quant.Base.Text.{Text, codes, upper, eq_text}
use polymarket_event_quant.Base.Decimal.{Decimal}
use polymarket_event_quant.Models.{Outcome, Side, Role, Status, PlacedOrder}
use polymarket_event_quant.Models.Statuses.{is_terminal}
use polymarket_event_quant.Database.{Db, MarketRow, add_order}
use polymarket_event_quant.Database.Queries.{order, market_for_condition}
use polymarket_event_quant.Exchange.{
  Exc, RawOrder, ◌or◌, raw_order_id, read_number, normalize_order,
}
use polymarket_event_quant.Service.{Bot, Settings}
use polymarket_event_quant.Service.Monad.{Action, ◌>>=◌, ◌>>◌, pure, gets, write, log}

-- the outcome whose token the order is for
abbrev pub outcome_of : MarketRow → String → Option Outcome
outcome_of m asset_id =
    if str_eq asset_id m.market.up_token_id
    then some Outcome.up
    else if str_eq asset_id m.market.down_token_id
    then some Outcome.down
    else none

abbrev pub side_of : RawOrder → Side
side_of raw = if eq_text (upper (or_else raw.side [])) (codes "SELL") then Side.sell else Side.buy

abbrev pub role_of : Side → Role
role_of Side.sell = Role.exit_role
role_of Side.buy = Role.entry_role

abbrev pub adopted_order :
    RawOrder → String → Outcome → String → Decimal → Decimal → Status → PlacedOrder
adopted_order raw order_id outcome asset_id price size status = record {
  order_id = order_id;
  outcome = outcome;
  token_id = asset_id;
  price = price;
  size = size;
  status = status;
  raw = raw.json;
  side = side_of raw;
  role = role_of (side_of raw);
  account = or_else raw.account "";
}

-- a value of `Result`, in a handler
abbrev pub lift {ℓ} : {A : Type ℓ} → Result Exc A → Action A
lift r b = (r, b)

module _ (settings : Settings) (now : ℕ) where
  report_foreign_order : MarketRow → Action Bool
  report_foreign_order m =
      log now settings.run_id "WARNING" "open_order_not_adopted" (some m.market.slug) >> pure false

  abbrev adopt_sized :
      RawOrder → String → MarketRow → String → Outcome → Decimal → Status → Decimal → Action Bool
  adopt_sized raw order_id m asset_id outcome price status size =
      write (
        add_order now settings.run_id m.market.slug
          (adopted_order raw order_id outcome asset_id price size status))
      >> (log now settings.run_id "WARNING" "order_adopted" (some m.market.slug) >> pure true)

  abbrev adopt_ours :
      RawOrder → String → MarketRow → String → Outcome → Decimal → Status × Decimal → Action Bool
  adopt_ours raw order_id m asset_id outcome price (status, matched) =
      if is_terminal status
      then report_foreign_order m
      else lift (read_number (raw.original_size or raw.size) 0)
        >>= adopt_sized raw order_id m asset_id outcome price status

  abbrev adopt_priced : RawOrder → String → MarketRow → String → Outcome → Decimal → Action Bool
  adopt_priced raw order_id m asset_id outcome price =
      if not (price == settings.plan.buy_price)
      then report_foreign_order m
      else lift (normalize_order raw) >>= adopt_ours raw order_id m asset_id outcome price

  abbrev adopt_on : RawOrder → String → MarketRow → String → Option Outcome → Action Bool
  adopt_on raw order_id m asset_id none = pure false
  adopt_on raw order_id m asset_id (some outcome) =
      lift (read_number raw.price settings.plan.buy_price)
      >>= adopt_priced raw order_id m asset_id outcome

  abbrev adopt_in : RawOrder → String → Option MarketRow → Action Bool
  adopt_in raw order_id none = pure false
  adopt_in raw order_id (some m) =
      let asset_id = or_else raw.asset_id "" in
      adopt_on raw order_id m asset_id (outcome_of m asset_id)

  abbrev adopt_unknown : RawOrder → String → Bool → Action Bool
  adopt_unknown raw order_id true = pure false
  adopt_unknown raw order_id false =
      gets (market_for_condition (or_else raw.market "") settings.run_id) >>= adopt_in raw order_id

  abbrev adopt_id : RawOrder → Option String → Action Bool
  adopt_id raw none = pure false
  adopt_id raw (some order_id) =
      gets (λ db. is_some (order order_id db)) >>= adopt_unknown raw order_id

  -- the body of the `try`
  pub adopt_row : RawOrder → Action Bool
  unfolding report_foreign_order
  adopt_row raw = adopt_id raw (raw_order_id raw)

  -- `except Exception` around it; what the body wrote stays
  abbrev caught : Result Exc Bool → Action Bool
  caught (ok adopted) = pure adopted
  caught (err e) = log now settings.run_id "WARNING" "order_adopt_failed" none >> pure false

  pub adopt_caught : RawOrder → Action Bool
  adopt_caught raw b = let (r, b') = adopt_row raw b in caught r b'

  abbrev count_adopted : Result Exc Bool → ℕ → ℕ
  count_adopted (ok true) n = suc n
  count_adopted _ n = n

  -- the number of adopted orders; an exception never leaves the loop
  pub adopt_unknown_open_orders : List RawOrder → Bot → ℕ × Bot
  adopt_unknown_open_orders [] b = (0, b)
  adopt_unknown_open_orders (raw ∷ raws) b =
      let (r, b1) = adopt_caught raw b in
      let (n, b2) = adopt_unknown_open_orders raws b1 in (count_adopted r n, b2)
