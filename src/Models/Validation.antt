-- ===== src/Models/Validation.antt =====
-- `TradePlan.validate` accepts exactly the plans that its checks describe.
use polymarket_event_quant.Base.{
  ◌≤◌, ◌<◌, ◌≡◌, refl, ◌↔◌, true, List, [], ◌∷◌, ltb, all, All, ok, arith,
}
use polymarket_event_quant.Base.Decimal.{Decimal, one}
use polymarket_event_quant.Base.Decimal.Context.{product}
use polymarket_event_quant.Models.{
  ExitTarget, TradePlan, exact_size, exit_fraction, five, ascending, validate_target,
  validate_targets, validate,
}

-- each target above the buy price and below one, with a share that is worth five at least
pub record IsTarget (plan : TradePlan) (t : ExitTarget) : Type 0 where
  pub above : plan.buy_price < t.price
  pub below : t.price < one
  pub some_share : 0 < t.fraction
  pub one_share : t.fraction ≤ one
  pub enough : five ≤ product (exact_size plan) t.fraction

-- strictly ascending prices
abbrev pub Ascending : List ExitTarget → Type 0
Ascending [] = Unit
Ascending (t ∷ ts) = All (λ u. t.price < u.price) ts × Ascending ts

pub record IsTradable (plan : TradePlan) : Type 0 where
  pub price_pos : 0 < plan.buy_price
  pub price_below : plan.buy_price < one
  pub usd_pos : 0 < plan.usd_per_side
  pub big_enough : five ≤ exact_size plan
  pub prices : Ascending plan.exit_targets
  pub targets : All (IsTarget plan) plan.exit_targets
  pub shares : exit_fraction plan ≤ one

all_above :
    (p : Decimal) (ts : List ExitTarget)
    → (all (λ u. ltb p u.price) ts ≡ true) ↔ All (λ u. p < u.price) ts
all_above p [] = (λ h. tt, λ h. refl)
all_above p (t ∷ ts) = (
  λ h. (ground arith, (all_above p ts).0 (ground arith)),
  λ h. ground (arith, (all_above p ts).1 h.1, h.0),
)

pub ascending_iff : (ts : List ExitTarget) → (ascending ts ≡ true) ↔ Ascending ts
unfolding ascending
ascending_iff [] = (λ h. tt, λ h. refl)
ascending_iff (t ∷ ts) = (
  λ h. ((all_above t.price ts).0 (ground arith), (ascending_iff ts).0 (ground arith)),
  λ h. ground (arith, (all_above t.price ts).1 h.0, (ascending_iff ts).1 h.1),
)

validate_target_sound :
    (plan : TradePlan) (t : ExitTarget) → validate_target plan t ≡ ok tt → IsTarget plan t
unfolding validate_target
validate_target_sound plan t h = ground arith

validate_target_complete :
    (plan : TradePlan) (t : ExitTarget) → IsTarget plan t → validate_target plan t ≡ ok tt
unfolding validate_target
validate_target_complete plan t h = ground arith

validate_targets_sound :
    (plan : TradePlan) (ts : List ExitTarget)
    → validate_targets plan ts ≡ ok tt
    → All (IsTarget plan) ts × (exit_fraction plan ≤ one)
unfolding validate_targets
validate_targets_sound plan [] h = (tt, ground arith)
validate_targets_sound plan (t ∷ ts) h =
    let (rest, total) = validate_targets_sound plan ts (ground arith) in
    ((validate_target_sound plan t (ground arith), rest), total)

validate_targets_complete :
    (plan : TradePlan) (ts : List ExitTarget)
    → All (IsTarget plan) ts
    → exit_fraction plan ≤ one
    → validate_targets plan ts ≡ ok tt
unfolding validate_targets
validate_targets_complete plan [] h total = ground arith
validate_targets_complete plan (t ∷ ts) h total =
    ground (arith, validate_target_complete plan t h.0, validate_targets_complete plan ts h.1 total)

pub validate_sound : (plan : TradePlan) → validate plan ≡ ok tt → IsTradable plan
unfolding validate
validate_sound plan h =
    let (each, total) = validate_targets_sound plan plan.exit_targets (ground arith) in
    record {
      price_pos = ground arith;
      price_below = ground arith;
      usd_pos = ground arith;
      big_enough = ground arith;
      prices = (ascending_iff plan.exit_targets).0 (ground arith);
      targets = each;
      shares = total;
    }

pub validate_complete : (plan : TradePlan) → IsTradable plan → validate plan ≡ ok tt
unfolding validate
validate_complete plan v = ground (
  arith,
  v.price_pos,
  v.price_below,
  v.usd_pos,
  v.big_enough,
  (ascending_iff plan.exit_targets).1 v.prices,
  validate_targets_complete plan plan.exit_targets v.targets v.shares,
)

-- `validate` raises nothing exactly for the plans with a price strictly between 0 and 1, a positive
-- stake that buys five shares at least, strictly ascending exit prices between the buy price and 1,
-- and shares above 0 that sell five shares each and total at most 1, in the digits that the order
-- size and its shares are rounded to.
pub validate_iff : (plan : TradePlan) → (validate plan ≡ ok tt) ↔ IsTradable plan
validate_iff plan = (validate_sound plan, validate_complete plan)
