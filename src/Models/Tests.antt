-- ===== src/Models/Tests.antt =====
-- Tests of models.py.
use polymarket_event_quant.Base.{◌≡◌, refl, ◌↔◌, ok, ◌∷◌, []}
use polymarket_event_quant.Base.Decimal.Context.{last_digit}
use polymarket_event_quant.Models.{
  validate, validate_target, validate_targets, ascending, TradePlan,
}
use polymarket_event_quant.Models.Validation.{IsTradable, validate_iff}
use polymarket_event_quant.Fixtures.{plan, cents}

validate-plan : validate plan ≡ ok tt
unfolding validate validate_targets validate_target ascending last_digit
validate-plan = refl

validate_iff_example : (validate plan ≡ ok tt) ↔ IsTradable plan
validate_iff_example = validate_iff plan

-- 10 / 0.3 is cut after 28 digits, and its share of 0.15 is rounded up to five again
abbrev thirds : TradePlan
thirds = record {
  buy_price = cents 30;
  exit_targets = record { price = cents 50; fraction = cents 15 } ∷ [];
  usd_per_side = cents 1000;
}

thirds-valid : validate thirds ≡ ok tt
unfolding validate validate_targets validate_target ascending last_digit
thirds-valid = refl
