-- ===== src/Service/Placement/Budget/Rules.antt =====
-- Room under the limit on reserved dollars, across a handler: one rule for each way to build one.
use native.Mathlib.Nat.{div-mul-le_self, mul-div_cancel}
use polymarket_event_quant.Base.{
  ℕ, ◌+◌, ◌≤◌, String, ◌≡◌, refl, Bool, true, false, not, [], ◌∷◌, arith, sum_by-append,
  sum_by-filter, filter, str_eq, Result, ok, err, if◌then◌else◌, Bool-cases, inl, inr, ◌&&◌, any,
  ◌++◌, List, ◌*◌, sum_by,
}
use mathlib.Core.Path.{subst}
use polymarket_event_quant.Base.Decimal.{Decimal, mul, mul_mono_right, one}
use polymarket_event_quant.Models.{Market, PlacedOrder}
use polymarket_event_quant.Models.{TradePlan, order_size}
use polymarket_event_quant.Database.{
  Db, add_order, prepare_market, new_order_row, IntegrityError, add_market, MarketState,
}
use polymarket_event_quant.Database.Queries.{active_reserved_usd, reserved_of}
use polymarket_event_quant.Exchange.{Exc}
use polymarket_event_quant.Service.{Bot}
use polymarket_event_quant.Service.Monad.{Action, ◌>>=◌, ◌>>◌, pure, write_result}
use polymarket_event_quant.Models.Statuses.{is_buy, is_tracked}

-- what an order of a placement can reserve
abbrev pub order_reserve : PlacedOrder → Decimal
order_reserve o = mul o.price o.size

-- the same, exactly, in units of 10^-24
abbrev pub order_cost : PlacedOrder → ℕ
order_cost o = o.price * o.size

-- the plan's dollars are divided by its price without a rest beyond the twelfth digit
abbrev pub IsExact : TradePlan → Type 0
IsExact plan = plan.buy_price * order_size plan ≡ plan.usd_per_side * one

reserve-cost : (os : List PlacedOrder) → sum_by order_reserve os * one ≤ sum_by order_cost os
unfolding mul
reserve-cost [] = omega arith
reserve-cost (o ∷ os) = omega (arith, div-mul-le_self (o.price * o.size) one, reserve-cost os)

pub cost-reserve :
    (n : ℕ) (os : List PlacedOrder) → sum_by order_cost os ≤ n * one → sum_by order_reserve os ≤ n
cost-reserve n os h = omega (arith, h, reserve-cost os)

-- what an order of the plan's size reserves
pub IsExact-reserve :
    (plan : TradePlan) → IsExact plan → mul plan.buy_price (order_size plan) ≡ plan.usd_per_side
unfolding mul
IsExact-reserve plan h = rw h (mul-div_cancel plan.usd_per_side (omega arith))

pub new_row-reserved :
    (now run_id : ℕ) (slug : String) (o : PlacedOrder)
    → reserved_of (new_order_row now run_id slug o) ≤ order_reserve o
new_row-reserved now run_id slug o = elim (Bool-cases (is_buy o.side && is_tracked o.status)) [
  | inr q ↦ rw q (omega arith)
  | inl q ↦ rw q (mul_mono_right o.price _ _ (omega arith))
]

pub add_order-reserved :
    (now run_id : ℕ) (slug : String) (o : PlacedOrder) (db db' : Db)
    → add_order now run_id slug o db ≡ ok db'
    → active_reserved_usd db' ≤ active_reserved_usd db + order_reserve o
unfolding add_order active_reserved_usd
add_order-reserved now run_id slug o db db' e =
    elim (Bool-cases (any (λ m. str_eq m.slug slug) db.markets)) [
      | inr q ↦ ground arith
      | inl q ↦
          let d : record db {
            orders =
                filter (λ r. not (str_eq r.order_id o.order_id)) db.orders
                ++ new_order_row now run_id slug o ∷ [];
          }
              ≡ db' =
            ground arith in
          subst (λ x. active_reserved_usd x ≤ active_reserved_usd db + order_reserve o) d
            (omega (
              arith,
              sum_by-append reserved_of (filter (λ r. not (str_eq r.order_id o.order_id)) db.orders)
                  (new_order_row now run_id slug o ∷ []),
              sum_by-filter reserved_of (λ r. not (str_eq r.order_id o.order_id)) db.orders,
              new_row-reserved now run_id slug o,
            ))
    ]

pub prepare_market-reserved :
    (now run_id : ℕ) (m : Market) (state : MarketState) (db db' : Db)
    → prepare_market now run_id m state db ≡ ok db'
    → active_reserved_usd db' ≡ active_reserved_usd db
unfolding prepare_market add_market active_reserved_usd
prepare_market-reserved now run_id m state db db' e = ground arith

module _ (limit : Decimal) where
  -- there is room for `n` more
  abbrev pub Holds : ℕ → Bot → Type 0
  Holds n b = active_reserved_usd b.db + n ≤ limit

  module _ {ℓ} {A : Type ℓ} where
    abbrev pub Keeps : ℕ → Action A → Type 0
    Keeps n m = (b : Bot) → Holds n b → Holds n (m b).1

    abbrev pub Spends : ℕ → Action A → Type 0
    Spends n m = (b : Bot) → Holds n b → Holds 0 (m b).1

    pub Spends-of : (n : ℕ) (m : Action A) → Keeps n m → Spends n m
    Spends-of n m k b h = omega (arith, k b h)

    pub Keeps-pure : (n : ℕ) (a : A) → Keeps n (pure a)
    Keeps-pure n a b h = h

    pub Keeps-if :
        (n : ℕ) (t : Bool) (m k : Action A) → Keeps n m → Keeps n k → Keeps n (if t then m else k)
    Keeps-if n true m k hm hk = hm
    Keeps-if n false m k hm hk = hk

    pub Spends-if :
        (n : ℕ) (t : Bool) (m k : Action A)
        → Spends n m
        → Spends n k
        → Spends n (if t then m else k)
    Spends-if n true m k hm hk = hm
    Spends-if n false m k hm hk = hk

  module _ {ℓ κ} {A : Type ℓ} {B : Type κ} where
    abbrev resume : (A → Action B) → Result Exc A × Bot → Result Exc B × Bot
    resume f (r, b) = elim r [ ok a ↦ f a b | err e ↦ (err e, b) ]

    pub Keeps-resume :
        (n : ℕ) (f : A → Action B) (r : Result Exc A) (b : Bot)
        → Holds n b
        → ((a : A) → Keeps n (f a))
        → Holds n (resume f (r, b)).1
    Keeps-resume n f (ok a) b h k = k a b h
    Keeps-resume n f (err e) b h k = h

    pub Spends-resume :
        (n : ℕ) (f : A → Action B) (r : Result Exc A) (b : Bot)
        → Holds n b
        → ((a : A) → Spends n (f a))
        → Holds 0 (resume f (r, b)).1
    Spends-resume n f (ok a) b h k = k a b h
    Spends-resume n f (err e) b h k = omega (arith, h)

    pub Keeps-bind :
        (n : ℕ) (m : Action A) (f : A → Action B)
        → Keeps n m
        → ((a : A) → Keeps n (f a))
        → Keeps n (m >>= f)
    Keeps-bind n m f hm hf b h = Keeps-resume n f (m b).0 (m b).1 (hm b h) hf

    pub Spends-after :
        (n : ℕ) (m : Action A) (f : A → Action B)
        → Keeps n m
        → ((a : A) → Spends n (f a))
        → Spends n (m >>= f)
    Spends-after n m f hm hf b h = Spends-resume n f (m b).0 (m b).1 (hm b h) hf

    pub Spends-then :
        (n : ℕ) (m : Action A) (f : A → Action B)
        → Spends n m
        → ((a : A) → Keeps 0 (f a))
        → Spends n (m >>= f)
    Spends-then n m f hm hf b h = Keeps-resume 0 f (m b).0 (m b).1 (hm b h) hf

  -- a handler with its proof, so that a chain of handlers is written once
  pub record Kept {ℓ} (n : ℕ) (A : Type ℓ) : Type ℓ where
    pub action : Action A
    pub keeps : (b : Bot) → Holds n b → Holds n (action b).1

  pub if-Holds {ℓ} :
      {A : Type ℓ} (t : Bool) (m k : Action A) (b : Bot)
      → Holds 0 (m b).1
      → (t ≡ false → Holds 0 (k b).1)
      → Holds 0 ((if t then m else k) b).1
  if-Holds true m k b hm hk = hm
  if-Holds false m k b hm hk = hk refl

  pub write_result-Holds :
      (n k : ℕ) (r : Result IntegrityError Db) (b : Bot)
      → Holds n b
      → k ≤ n
      → ((db : Db) → r ≡ ok db → active_reserved_usd db + k ≤ active_reserved_usd b.db + n)
      → Holds k (write_result r b).1
  write_result-Holds n k (ok db) b h le f = omega (arith, h, f db refl)
  write_result-Holds n k (err e) b h le f = omega (arith, h)

infixl 5 ◌⨟◌
abbrev pub ◌⨟◌ {ℓ κ} :
    {limit : Decimal} {n : ℕ} {A : Type ℓ} {B : Type κ}
    → Kept limit n A
    → Kept limit n B
    → Kept limit n B
◌⨟◌ {limit = limit} {n = n} c d = record {
  action = c.action >> d.action;
  keeps = Keeps-bind limit n c.action (λ _. d.action) c.keeps (λ _. d.keeps);
}

pub Spends-kept {ℓ} :
    {limit : Decimal} {n : ℕ} {A : Type ℓ} (c : Kept limit n A) → Spends limit n c.action
Spends-kept {n = n} c b h = omega (arith, c.keeps b h)
