-- ===== src/Paper/Settlement.antt =====
-- What `calculate_result` makes of a settled market.
use polymarket_event_quant.Base.{
  ◌*◌, ◌+◌, ◌≤◌, ◌⊎◌, true, Bool-cases, String, ◌≡◌, List, arith, ok, Result-cases, inl, inr, some,
}
use polymarket_event_quant.Paper.{
  Trade, Sides, PaperResult, calculate_result, result_of, ExecutionEvidence, paper_result,
  execution_evidence,
}
use polymarket_event_quant.Models.{Outcome}
use polymarket_event_quant.Base.Decimal.{Decimal, mul, mul_mono_right, mul-add-le}
use polymarket_event_quant.Base.Int.{◌+ℤ◌, pos}
use polymarket_event_quant.Paper.Evidence.{fifo_fill-le}
use polymarket_event_quant.Base.Text.{to_lower, codes, lower, eq_text}

-- the market with its two sides exchanged
abbrev pub swap : Sides → Sides
swap s = record {
  up_token_id = s.down_token_id;
  down_token_id = s.up_token_id;
  buy_price = s.buy_price;
  order_size = s.order_size;
  up_queue_ahead = s.down_queue_ahead;
  down_queue_ahead = s.up_queue_ahead;
}

abbrev pub other_outcome : Outcome → Outcome
other_outcome Outcome.up = Outcome.down
other_outcome Outcome.down = Outcome.up

abbrev pub mirror : PaperResult → PaperResult
mirror x = record {
  winner_outcome = other_outcome x.winner_outcome;
  up_evidence = x.down_evidence;
  down_evidence = x.up_evidence;
  up_fill = x.down_fill;
  down_fill = x.up_fill;
  gross_cost = x.gross_cost;
  gross_payout = x.gross_payout;
  pnl_before_rebates = x.pnl_before_rebates;
}

abbrev pub outcome_word : Outcome → String
outcome_word Outcome.up = "Up"
outcome_word Outcome.down = "Down"

result_of-ok :
    (s : Sides) (trades : List Trade) (text : String) (w : Outcome) (x : PaperResult)
    → result_of s trades text (some w) ≡ ok x
    → (a : ExecutionEvidence) × (b : ExecutionEvidence) × (execution_evidence trades s.up_token_id
          s.down_token_id s.buy_price
        ≡ ok a)
      × (execution_evidence trades s.down_token_id s.up_token_id s.buy_price ≡ ok b)
      × (x ≡ paper_result s w a b)
result_of-ok s trades text w x h =
    elim (Result-cases (execution_evidence trades s.up_token_id s.down_token_id s.buy_price)) [
      | inr (e, r) ↦ ground arith
      | inl (a, r) ↦
          elim (Result-cases
            (execution_evidence trades s.down_token_id s.up_token_id s.buy_price)) [
              | inr (e, r') ↦ ground arith
              | inl (b, r') ↦ (a, b, r, r', ground arith)
            ]
    ]

-- A result treats the sides alike: with the sides exchanged and the other winner, it is the same
-- result seen from the other side, at the same cost, payout and profit.
pub calculate_result-swap :
    (w : Outcome) (trades : List Trade) (s : Sides) (x : PaperResult)
    → calculate_result (outcome_word w) trades s ≡ ok x
    → calculate_result (outcome_word (other_outcome w)) trades (swap s) ≡ ok (mirror x)
unfolding calculate_result to_lower
calculate_result-swap Outcome.up trades s x h =
    let (a, b, r, r', q) = result_of-ok s trades "Up" Outcome.up x h in ground arith
calculate_result-swap Outcome.down trades s x h =
    let (a, b, r, r', q) = result_of-ok s trades "Down" Outcome.down x h in ground arith

-- what a result has to hold, with the fill of the winning side
abbrev pub IsBounded : Sides → PaperResult → Decimal → Type 0
IsBounded s x won =
    (x.up_fill ≤ s.order_size)
    × (x.down_fill ≤ s.order_size)
    × (mul s.buy_price x.up_fill + mul s.buy_price x.down_fill ≤ x.gross_cost)
    × (x.gross_cost ≤ mul s.buy_price (2 * s.order_size))
    × (x.pnl_before_rebates +ℤ pos x.gross_cost ≡ pos won)

bounds_of :
    (s : Sides) (w : Outcome) (a b : ExecutionEvidence)
    → let x = paper_result s w a b in IsBounded s x x.gross_payout
unfolding ◌+ℤ◌
bounds_of s w a b =
    let u = fifo_fill-le s.up_queue_ahead s.order_size a in
    let d = fifo_fill-le s.down_queue_ahead s.order_size b in
    (
      u,
      d,
      mul-add-le s.buy_price _ _,
      mul_mono_right s.buy_price _ _ (omega (arith, u, d)),
      ground arith,
    )

-- A result's fills are each at most the order; its cost is at least that of each side's fill
-- together and at most that of two whole orders; and its profit with its cost is the fill of Up
-- where the winner that was read is up, in whatever case, and the fill of Down where it is down: no
-- other text has a result.
pub calculate_result-bounds :
    (text : String) (trades : List Trade) (s : Sides) (x : PaperResult)
    → calculate_result text trades s ≡ ok x
    → ((eq_text (lower (codes text)) (codes "up") ≡ true) × IsBounded s x x.up_fill)
      ⊎ ((eq_text (lower (codes text)) (codes "down") ≡ true) × IsBounded s x x.down_fill)
unfolding calculate_result
calculate_result-bounds text trades s x h =
    elim (Bool-cases (eq_text (lower (codes text)) (codes "up"))) [
      | inl e ↦
          let (a, b, r, r', q) = result_of-ok s trades text Outcome.up x (ground arith) in
          inl (e, rw q (bounds_of s Outcome.up a b))
      | inr e ↦ elim (Bool-cases (eq_text (lower (codes text)) (codes "down"))) [
        | inl e' ↦
            let (a, b, r, r', q) = result_of-ok s trades text Outcome.down x (ground arith) in
            inr (e', rw q (bounds_of s Outcome.down a b))
        | inr e' ↦ ground arith
      ]
    ]
