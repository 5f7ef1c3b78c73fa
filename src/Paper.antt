-- ===== src/Paper.antt =====
-- paper.py: the public-trade evidence, the fills that it proves and the result of a market.
-- Prices are at most one, so `1 - buy_price` never goes below zero.
pub mod Tables
pub mod Simulator
pub mod Summary
pub mod Evidence
pub mod Settlement
pub mod Fixed
pub mod Final
pub mod Totals
mod Tests
use polymarket_event_quant.Base.Concat
use polymarket_event_quant.Base.{
  ℕ, ◌+◌, ◌-◌, String, Bool, true, false, not, ◌&&◌, Option, none, some, List, [], ◌∷◌, ◌++◌, min,
  ltb, ◌==◌, or_else, str_eq, Result, ok, err, if◌then◌else◌, ◌>>=◌,
}
use polymarket_event_quant.Exchange.{Number, ◌or◌, Exc, read_number}
use polymarket_event_quant.Base.Text.{Text, eq_text, upper, codes, lower}
use polymarket_event_quant.Base.Decimal.{Decimal, one, mul}
use polymarket_event_quant.Models.{Outcome}
use polymarket_event_quant.Base.Int.{ℤ, sub_ℕ}

pub record Level : Type 0 where
  pub price : Option Number
  pub size : Option Number

-- `timestamp` is there only where its text is all digits
pub record Book : Type 0 where
  pub asset_id : Option String
  pub timestamp : Option ℕ
  pub bids : List Level

pub record Trade : Type 0 where
  pub asset : Option String
  pub asset_id : Option String
  pub side : Option Text
  pub price : Option Number
  pub size : Option Number
  pub timestamp : Option ℕ
  pub transaction_hash : Option String

abbrev pub level_at : Decimal → Level → Decimal → Result Exc Decimal
level_at price l p = if p == price then read_number l.size 0 else ok 0

unfoldable pub queue_at_levels : Decimal → List Level → Result Exc Decimal
queue_at_levels price [] = ok 0
queue_at_levels price (l ∷ ls) = read_number l.price 0 >>= level_at price l >>= λ size.
    queue_at_levels price ls >>= λ rest. ok (size + rest)

unfoldable pub queue_at_price : Book → Decimal → Result Exc Decimal
queue_at_price book price = queue_at_levels price book.bids

-- `direct` is the route
pub record EvidenceEvent : Type 0 where
  pub timestamp : Option ℕ
  pub transaction_hash : Option String
  pub asset_id : String
  pub side : Text
  pub price : Decimal
  pub size : Decimal
  pub direct : Bool
  pub through : Bool

pub record ExecutionEvidence : Type 0 where
  pub boundary_volume : Decimal
  pub crossed : Bool
  pub events : List EvidenceEvent

abbrev pub no_evidence : ExecutionEvidence
no_evidence = record { boundary_volume = 0; crossed = false; events = [] }

abbrev pub trade_asset : Trade → String
trade_asset t = or_else (t.asset or t.asset_id) ""

abbrev pub trade_side : Trade → Text
trade_side t = upper (or_else t.side [])

abbrev pub is_direct : String → Trade → Bool
is_direct token_id t = str_eq (trade_asset t) token_id && eq_text (trade_side t) (codes "SELL")

abbrev pub is_complementary : String → Trade → Bool
is_complementary opposite_token_id t =
    str_eq (trade_asset t) opposite_token_id && eq_text (trade_side t) (codes "BUY")

abbrev pub trade_event : Trade → Bool → Decimal → Decimal → Bool → EvidenceEvent
trade_event t direct price size through = record {
  timestamp = t.timestamp;
  transaction_hash = t.transaction_hash;
  asset_id = trade_asset t;
  side = trade_side t;
  price = price;
  size = size;
  direct = direct;
  through = through;
}

-- what a trade of the token's own side, or of the opposite token, adds
abbrev pub add_trade :
    Trade → Bool → Decimal → Decimal → Decimal → ExecutionEvidence → ExecutionEvidence
add_trade t direct threshold price size acc =
    let through = if direct then ltb price threshold else ltb threshold price in
    if through
    then record acc {
      crossed = true;
      events = acc.events ++ trade_event t direct price size true ∷ [];
    }
    else if price == threshold
    then record acc {
      boundary_volume = acc.boundary_volume + size;
      events = acc.events ++ trade_event t direct price size false ∷ [];
    }
    else acc

abbrev pub judge_trade :
    String → String → Decimal → Trade → Decimal → Decimal → ExecutionEvidence → ExecutionEvidence
judge_trade token_id opposite_token_id buy_price t price size acc =
    let direct = is_direct token_id t in
    if not direct && not (is_complementary opposite_token_id t)
    then acc
    else add_trade t direct (if direct then buy_price else one - buy_price) price size acc

-- the loop over the trades; a price or a size that is no number ends it
unfoldable pub evidence_from :
    String → String → Decimal → List Trade → ExecutionEvidence → Result Exc ExecutionEvidence
evidence_from token_id opposite_token_id buy_price [] acc = ok acc
evidence_from token_id opposite_token_id buy_price (t ∷ ts) acc = read_number t.price 0 >>= λ price.
    read_number t.size 0 >>= λ size.
    evidence_from token_id opposite_token_id buy_price ts
      (judge_trade token_id opposite_token_id buy_price t price size acc)

unfoldable pub execution_evidence :
    List Trade → String → String → Decimal → Result Exc ExecutionEvidence
execution_evidence trades token_id opposite_token_id buy_price =
    evidence_from token_id opposite_token_id buy_price trades no_evidence

-- `max(0, volume - queue)` is the subtraction of ℕ
unfoldable pub fifo_fill : Decimal → Decimal → ExecutionEvidence → Decimal
fifo_fill queue_ahead order_size evidence =
    if evidence.crossed then order_size else min order_size (evidence.boundary_volume - queue_ahead)

pub record PaperResult : Type 0 where
  pub winner_outcome : Outcome
  pub up_evidence : ExecutionEvidence
  pub down_evidence : ExecutionEvidence
  pub up_fill : Decimal
  pub down_fill : Decimal
  pub gross_cost : Decimal
  pub gross_payout : Decimal
  pub pnl_before_rebates : ℤ

-- `winner_outcome.lower()`, where it is one of the two
abbrev pub read_winner : String → Option Outcome
read_winner text =
    let t = lower (codes text) in
    if eq_text t (codes "up")
    then some Outcome.up
    else if eq_text t (codes "down")
    then some Outcome.down
    else none

-- the queues ahead, the size and the price of a paper market
pub record Sides : Type 0 where
  pub up_token_id : String
  pub down_token_id : String
  pub buy_price : Decimal
  pub order_size : Decimal
  pub up_queue_ahead : Decimal
  pub down_queue_ahead : Decimal

abbrev pub payout_of : Outcome → Decimal → Decimal → Decimal
payout_of Outcome.up up_fill down_fill = up_fill
payout_of Outcome.down up_fill down_fill = down_fill

abbrev pub paper_result : Sides → Outcome → ExecutionEvidence → ExecutionEvidence → PaperResult
paper_result s winner up_evidence down_evidence =
    let up_fill = fifo_fill s.up_queue_ahead s.order_size up_evidence in
    let down_fill = fifo_fill s.down_queue_ahead s.order_size down_evidence in
    let gross_cost = mul s.buy_price (up_fill + down_fill) in
    let gross_payout = payout_of winner up_fill down_fill in
    record {
      winner_outcome = winner;
      up_evidence = up_evidence;
      down_evidence = down_evidence;
      up_fill = up_fill;
      down_fill = down_fill;
      gross_cost = gross_cost;
      gross_payout = gross_payout;
      pnl_before_rebates = sub_ℕ gross_payout gross_cost;
    }

abbrev pub result_of : Sides → List Trade → String → Option Outcome → Result Exc PaperResult
result_of s trades text none = err (Concat.◌++◌ "ValueError: unsupported winning outcome: " text)
result_of s trades text (some winner) =
    execution_evidence trades s.up_token_id s.down_token_id s.buy_price >>= λ up_evidence.
    execution_evidence trades s.down_token_id s.up_token_id s.buy_price >>= λ down_evidence.
    ok (paper_result s winner up_evidence down_evidence)

unfoldable pub calculate_result : String → List Trade → Sides → Result Exc PaperResult
calculate_result winner_outcome trades s =
    result_of s trades winner_outcome (read_winner winner_outcome)
