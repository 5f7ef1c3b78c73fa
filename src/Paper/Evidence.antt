-- ===== src/Paper/Evidence.antt =====
-- What `execution_evidence` and `fifo_fill` prove about a resting order.
use polymarket_event_quant.Base.{
  ◌+◌, ◌-◌, ◌≤◌, ◌<◌, String, ◌≡◌, refl, Bool, true, false, ◌&&◌, ◌||◌, Option, none, some, List,
  [], ◌∷◌, ◌++◌, arith, any, All, sum_by, ltb, ◌==◌, Result, ok, if◌then◌else◌, Bool-cases, inl,
  inr, All-append, sum_by-append, any-append,
}
use polymarket_event_quant.Paper.{
  Trade, ExecutionEvidence, execution_evidence, fifo_fill, is_direct, judge_trade, evidence_from,
  no_evidence, is_complementary,
}
use polymarket_event_quant.Exchange.{value, malformed, Number, read_number, Exc}
use polymarket_event_quant.Base.Decimal.{Decimal, one}

-- the number that a readable field holds
abbrev pub value_of : Option Number → Decimal
value_of none = 0
value_of (some (value n)) = n
value_of (some malformed) = 0

abbrev pub is_number : Option Number → Bool
is_number (some malformed) = false
is_number _ = true

abbrev pub is_readable : Trade → Bool
is_readable t = is_number t.price && is_number t.size

abbrev pub goes_through : String → String → Decimal → Trade → Bool
goes_through token_id opposite_token_id buy_price t =
    if is_direct token_id t
    then ltb (value_of t.price) buy_price
    else is_complementary opposite_token_id t && ltb (one - buy_price) (value_of t.price)

abbrev pub at_boundary : String → String → Decimal → Trade → Bool
at_boundary token_id opposite_token_id buy_price t =
    if is_direct token_id t
    then value_of t.price == buy_price
    else is_complementary opposite_token_id t && (value_of t.price == one - buy_price)

abbrev pub boundary_size : String → String → Decimal → Trade → Decimal
boundary_size token_id opposite_token_id buy_price t =
    if at_boundary token_id opposite_token_id buy_price t then value_of t.size else 0

read_number-value : (n : Option Number) → is_number n ≡ true → read_number n 0 ≡ ok (value_of n)
read_number-value none h = refl
read_number-value (some (value n)) h = refl
read_number-value (some malformed) h = cc

module _ (token_id opposite_token_id : String) (buy_price : Decimal) where
  abbrev Shows : List Trade → ExecutionEvidence → Result Exc ExecutionEvidence → Type 0
  Shows ts acc r =
      (e : ExecutionEvidence) × (r ≡ ok e)
      × (e.boundary_volume
          ≡ acc.boundary_volume + sum_by (boundary_size token_id opposite_token_id buy_price) ts)
      × (e.crossed ≡ (acc.crossed || any (goes_through token_id opposite_token_id buy_price) ts))

  judged :
      (t : Trade) (acc : ExecutionEvidence)
      → let e =
          judge_trade token_id opposite_token_id buy_price t
            (value_of t.price)
            (value_of t.size)
            acc in
        (e.boundary_volume
          ≡ acc.boundary_volume + boundary_size token_id opposite_token_id buy_price t)
        × (e.crossed ≡ (acc.crossed || goes_through token_id opposite_token_id buy_price t))
  judged t acc = ground arith

  evidence_from_exact :
      (ts : List Trade) (acc : ExecutionEvidence)
      → All (λ t. is_readable t ≡ true) ts
      → Shows ts acc (evidence_from token_id opposite_token_id buy_price ts acc)
  unfolding evidence_from
  evidence_from_exact [] acc h = (acc, refl, ground arith, ground arith)
  evidence_from_exact (t ∷ ts) acc h =
      let j = judged t acc in
      let (e, r, v, c) =
        evidence_from_exact ts
          (judge_trade token_id opposite_token_id buy_price t (value_of t.price) (value_of t.size)
            acc)
          h.1 in
      (
        e,
        rw (read_number-value t.price (ground arith))
            (rw (read_number-value t.size (ground arith)) r),
        ground arith,
        ground arith,
      )

-- Where every trade has a readable price and size, the evidence of a token is there: its boundary
-- volume is the sum of the sizes of the trades at the boundary price, on either route, and it is
-- crossed exactly where some trade went through that price.
pub execution_evidence_exact :
    (trades : List Trade) (token_id opposite_token_id : String) (buy_price : Decimal)
    → All (λ t. is_readable t ≡ true) trades
    → (e : ExecutionEvidence) × (execution_evidence trades token_id opposite_token_id buy_price
        ≡ ok e)
      × (e.boundary_volume ≡ sum_by (boundary_size token_id opposite_token_id buy_price) trades)
      × (e.crossed ≡ any (goes_through token_id opposite_token_id buy_price) trades)
unfolding execution_evidence evidence_from
execution_evidence_exact trades token_id opposite_token_id buy_price h =
    let (e, r, v, c) =
      evidence_from_exact token_id opposite_token_id buy_price trades no_evidence h in
    (e, r, ground arith, ground arith)

pub fifo_fill-le :
    (queue_ahead order_size : Decimal) (e : ExecutionEvidence)
    → fifo_fill queue_ahead order_size e ≤ order_size
unfolding fifo_fill
fifo_fill-le queue_ahead order_size e = ground arith

-- A fill that no trade through the price has made is at most the order, and stands behind the queue
-- ahead: where there is one, queue and fill together are at most the volume traded at the price.
pub fifo_fill_proved :
    (queue_ahead order_size : Decimal) (e : ExecutionEvidence)
    → e.crossed ≡ false
    → 0 < fifo_fill queue_ahead order_size e
    → (fifo_fill queue_ahead order_size e ≤ order_size)
      × (queue_ahead + fifo_fill queue_ahead order_size e ≤ e.boundary_volume)
unfolding fifo_fill
fifo_fill_proved queue_ahead order_size e c h =
    (fifo_fill-le queue_ahead order_size e, ground arith)

fifo_fill_mono :
    (q n : Decimal) (e e' : ExecutionEvidence)
    → e.boundary_volume ≤ e'.boundary_volume
    → (e.crossed ≡ true → e'.crossed ≡ true)
    → fifo_fill q n e ≤ fifo_fill q n e'
unfolding fifo_fill
fifo_fill_mono q n e e' h c = elim (Bool-cases e.crossed) [
  | inl d ↦ rw d (rw (c d) (omega arith))
  | inr d ↦ ground arith
]

-- Trades that come in later never take back a fill: on readable trades, the fill of a longer
-- sequence is at least that of its first part.
pub fill_grows_with_trades :
    (trades later : List Trade) (token_id opposite_token_id : String)
    (buy_price queue_ahead order_size : Decimal)
    → All (λ t. is_readable t ≡ true) trades
    → All (λ t. is_readable t ≡ true) later
    → (e : ExecutionEvidence) × (e' : ExecutionEvidence) × (execution_evidence trades token_id
          opposite_token_id buy_price
        ≡ ok e)
      × (execution_evidence (trades ++ later) token_id opposite_token_id buy_price ≡ ok e')
      × (fifo_fill queue_ahead order_size e ≤ fifo_fill queue_ahead order_size e')
fill_grows_with_trades trades later token_id opposite_token_id buy_price q n h h' =
    let (e, r, v, c) = execution_evidence_exact trades token_id opposite_token_id buy_price h in
    let (e', r', v', c') =
      execution_evidence_exact (trades ++ later) token_id opposite_token_id buy_price
        (All-append (λ t. is_readable t ≡ true) trades later h h') in
    (
      e,
      e',
      r,
      r',
      fifo_fill_mono q n e e'
          (omega (
            arith,
            v,
            v',
            sum_by-append (boundary_size token_id opposite_token_id buy_price) trades later,
          ))
          (λ d.
            ground
              (arith, any-append (goes_through token_id opposite_token_id buy_price) trades later)),
    )
