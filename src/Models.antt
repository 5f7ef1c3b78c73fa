-- ===== src/Models.antt =====
-- models.py: the trade plan and its validation, a market, an order and a placement's result.
pub mod Statuses
pub mod Validation
mod Tests
use polymarket_event_quant.Base.{
  ℕ, ◌*◌, String, ◌≡◌, Bool, true, false, not, ◌&&◌, ◌||◌, Option, none, some, List, [], ◌∷◌, map,
  ltb, leb, ◌==◌, is_none, all, sum_by, length, Result, ok, err, if◌then◌else◌,
}
use polymarket_event_quant.Base.Text.{Text}
use polymarket_event_quant.Base.Decimal.{Decimal, one, div}
use polymarket_event_quant.Base.Decimal.Context.{Rounded, quotient, product}

pub record ExitTarget : Type 0 where
  pub price : Decimal
  pub fraction : Decimal

pub record TradePlan : Type 0 where
  pub buy_price : Decimal
  pub exit_targets : List ExitTarget
  pub usd_per_side : Decimal

abbrev pub buy_only : TradePlan → Bool
buy_only plan = elim plan.exit_targets [ [] ↦ true | _ ∷ _ ↦ false ]

-- the sum that `hold_fraction` subtracts from one
abbrev pub exit_fraction : TradePlan → Decimal
exit_fraction plan = sum_by (λ t. t.fraction) plan.exit_targets

abbrev pub order_size : TradePlan → Decimal
order_size plan = div plan.usd_per_side plan.buy_price

abbrev pub market_reserve : TradePlan → Decimal
market_reserve plan = plan.usd_per_side * 2

-- the messages of the `ValueError`s that `validate` raises
pub data PlanError : Type 0 where
  buy_price_range usd_not_positive entry_too_small prices_not_ascending : PlanError
  target_price_range target_fraction_range rung_too_small fractions_total : PlanError

abbrev pub five : Rounded
five = 50_000_000_000_000_000_000_000_000_000_000_000_000_000

-- the order size that `validate` compares, in all its digits
abbrev pub exact_size : TradePlan → Rounded
exact_size plan = quotient plan.usd_per_side plan.buy_price

-- `prices != sorted(prices) or len(prices) != len(set(prices))`, negated
unfoldable pub ascending : List ExitTarget → Bool
ascending [] = true
ascending (t ∷ ts) = all (λ u. ltb t.price u.price) ts && ascending ts

unfoldable pub validate_target : TradePlan → ExitTarget → Result PlanError (Unit {0})
validate_target plan t =
    if not (ltb plan.buy_price t.price && ltb t.price one)
    then err target_price_range
    else if not (ltb 0 t.fraction && leb t.fraction one)
    then err target_fraction_range
    else if ltb (product (exact_size plan) t.fraction) five
    then err rung_too_small
    else ok tt

-- the loop over the targets stops at the first that raises
unfoldable pub validate_targets : TradePlan → List ExitTarget → Result PlanError (Unit {0})
validate_targets plan [] = if ltb one (exit_fraction plan) then err fractions_total else ok tt
validate_targets plan (t ∷ ts) = elim (validate_target plan t) [
  | ok _ ↦ validate_targets plan ts
  | err e ↦ err e
]

unfoldable pub validate : TradePlan → Result PlanError (Unit {0})
validate plan =
    if not (ltb 0 plan.buy_price && ltb plan.buy_price one)
    then err buy_price_range
    else if leb plan.usd_per_side 0
    then err usd_not_positive
    else if ltb (exact_size plan) five
    then err entry_too_small
    else if not (ascending plan.exit_targets)
    then err prices_not_ascending
    else validate_targets plan plan.exit_targets

pub record Market : Type 0 where
  pub slug : String
  pub condition_id : String
  pub start_ts : ℕ
  pub end_ts : ℕ
  pub up_token_id : String
  pub down_token_id : String
  pub min_size : Decimal
  pub tick_size : Decimal

pub data Outcome : Type 0 where
  up down : Outcome

pub data Side : Type 0 where
  buy sell : Side

pub data Role : Type 0 where
  entry_role exit_role : Role

-- The order states that the code names; `other` is any other text that the venue sends.
pub data Status : Type 0 where
  resting live delayed unmatched simulated cancel_requested : Status
  cancelled canceled closed filled matched expired rejected failed terminal_unknown : Status
  simulated_closed : Status
  other : Text → Status

pub record PlacedOrder : Type 0 where
  pub order_id : String
  pub outcome : Outcome
  pub token_id : String
  pub price : Decimal
  pub size : Decimal
  pub status : Status
  pub raw : String
  pub side : Side
  pub role : Role
  pub account : String

pub record PlacementResult : Type 0 where
  pub orders : List PlacedOrder
  pub error : Option String
  pub retryable : Bool
  pub attempts : ℕ
  pub expected : ℕ
  pub registered_ts_ms : Option ℕ
  pub held_back : ℕ
  pub gave_up : Bool

abbrev pub complete : PlacementResult → Bool
complete r = is_none r.error && length r.orders == r.expected
