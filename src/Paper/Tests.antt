-- ===== src/Paper/Tests.antt =====
-- Runs of the paper simulation, and instances of its theorems.
use polymarket_event_quant.Base.{
  inl, inr, ◌+◌, ◌≤◌, ◌<◌, String, ◌≡◌, refl, true, false, none, some, List, [], ◌∷◌, ◌++◌, ok, err,
  sum_by, any, arith, ◌⊎◌,
}
use polymarket_event_quant.Paper.{
  Trade, Sides, PaperResult, ExecutionEvidence, execution_evidence, fifo_fill, calculate_result,
  paper_result, evidence_from, no_evidence,
}
use polymarket_event_quant.Exchange.{value}
use polymarket_event_quant.Fixtures.{cents, plan, market}
use polymarket_event_quant.Base.Decimal.{Decimal, mul, one}
use polymarket_event_quant.Paper.Evidence.{
  fifo_fill_proved, fill_grows_with_trades, boundary_size, goes_through, execution_evidence_exact,
}
use polymarket_event_quant.Paper.Settlement.{
  swap, mirror, calculate_result-swap, calculate_result-bounds, IsBounded,
}
use polymarket_event_quant.Paper.Tables.{PaperRow, paper_row, PaperStatus}
use polymarket_event_quant.Paper.Simulator.{Sim, PublicApi}
use polymarket_event_quant.Paper.Summary.{summary, settled_results}
use polymarket_event_quant.Base.Text.{codes, to_upper, to_lower, eq_text, lower}
use polymarket_event_quant.Models.{Outcome}
use polymarket_event_quant.Paper.Final.{run_ticks, settle, capture, judged_market_is_final}
use polymarket_event_quant.Base.Int.{◌+ℤ◌, pos}
use polymarket_event_quant.Paper.Totals.{IsBalanced, summary_adds_up}

abbrev trade : String → String → Decimal → Decimal → Trade
trade asset side price size = record {
  asset = some asset;
  asset_id = none;
  side = some (codes side);
  price = some (value price);
  size = some (value size);
  timestamp = some 2_000;
  transaction_hash = none;
}

-- sells of Up at the price, and a buy of Down at its complement
abbrev trades : List Trade
trades =
    trade market.up_token_id "SELL" (cents 1) (cents 500)
    ∷ trade market.down_token_id "BUY" (cents 99) (cents 300)
    ∷ []

abbrev sides : Sides
sides = record {
  up_token_id = market.up_token_id;
  down_token_id = market.down_token_id;
  buy_price = cents 1;
  order_size = cents 1_000;
  up_queue_ahead = cents 600;
  down_queue_ahead = 0;
}

abbrev result : PaperResult
result = elim (calculate_result "Up" trades sides) [
  | ok x ↦ x
  | err _ ↦ paper_result sides Outcome.up no_evidence no_evidence
]

result_up_fill : result.up_fill ≡ cents 200
unfolding calculate_result execution_evidence evidence_from fifo_fill to_upper to_lower mul
result_up_fill = refl

calculated : calculate_result "Up" trades sides ≡ ok result
unfolding calculate_result execution_evidence evidence_from to_upper to_lower
calculated = refl

execution_evidence_exact_example :
    (e : ExecutionEvidence) × (execution_evidence trades market.up_token_id market.down_token_id
        (cents 1)
      ≡ ok e)
    × (e.boundary_volume
        ≡ sum_by (boundary_size market.up_token_id market.down_token_id (cents 1)) trades)
    × (e.crossed ≡ any (goes_through market.up_token_id market.down_token_id (cents 1)) trades)
execution_evidence_exact_example =
    execution_evidence_exact trades market.up_token_id market.down_token_id (cents 1)
      (refl, (refl, tt))

up_fill_positive : 0 < fifo_fill (cents 600) (cents 1_000) result.up_evidence
unfolding fifo_fill calculate_result execution_evidence evidence_from to_upper to_lower
up_fill_positive = omega arith

up_not_crossed : result.up_evidence.crossed ≡ false
unfolding calculate_result execution_evidence evidence_from to_upper to_lower
up_not_crossed = refl

fifo_fill_proved_example :
    (fifo_fill (cents 600) (cents 1_000) result.up_evidence ≤ cents 1_000)
    × (cents 600 + fifo_fill (cents 600) (cents 1_000) result.up_evidence
        ≤ result.up_evidence.boundary_volume)
fifo_fill_proved_example =
    fifo_fill_proved (cents 600) (cents 1_000) result.up_evidence up_not_crossed up_fill_positive

fill_grows_with_trades_example :
    (e : ExecutionEvidence) × (e' : ExecutionEvidence) × (execution_evidence trades
        market.up_token_id market.down_token_id
        (cents 1)
      ≡ ok e)
    × (execution_evidence (trades ++ trades) market.up_token_id market.down_token_id (cents 1)
        ≡ ok e')
    × (fifo_fill (cents 600) (cents 1_000) e ≤ fifo_fill (cents 600) (cents 1_000) e')
fill_grows_with_trades_example =
    fill_grows_with_trades trades trades market.up_token_id market.down_token_id (cents 1)
      (cents 600) (cents 1_000) (refl, (refl, tt)) (refl, (refl, tt))

calculate_result-swap_example : calculate_result "Down" trades (swap sides) ≡ ok (mirror result)
calculate_result-swap_example = calculate_result-swap Outcome.up trades sides result calculated

calculate_result-bounds_example :
    ((eq_text (lower (codes "Up")) (codes "up") ≡ true) × IsBounded sides result result.up_fill)
    ⊎ ((eq_text (lower (codes "Up")) (codes "down") ≡ true)
        × IsBounded sides result result.down_fill)
calculate_result-bounds_example = calculate_result-bounds "Up" trades sides result calculated

abbrev settled_row : PaperRow
settled_row = record {
  strategy_key = "key";
  slug = market.slug;
  condition_id = market.condition_id;
  start_ts = 1_000;
  end_ts = 1_300;
  up_token_id = market.up_token_id;
  down_token_id = market.down_token_id;
  market_discovered_ts_ms = 0;
  market_parameters_detected_ts_ms = 0;
  snapshot_ts_ms = some 900_000;
  book_source_ts_ms = some 0;
  buy_price = cents 1;
  order_size = cents 1_000;
  up_queue_ahead = some (cents 600);
  down_queue_ahead = some 0;
  status = PaperStatus.settled;
  result = some result;
  trade_count = some 2;
  evidence = [];
  error = none;
  updated_ts = 1_500;
}

abbrev monitored_row : PaperRow
monitored_row = record settled_row {
  slug = "other";
  status = PaperStatus.monitoring;
  result = none;
  trade_count = none;
}

abbrev sim : Sim
sim = record { db = record { state = none; markets = settled_row ∷ monitored_row ∷ [] }; calls = 0 }

-- every market is resolved for Up; the trades are those above
abbrev api : PublicApi
api = record {
  post_books = λ call up down. ok [];
  get_market = λ call slug. ok record {
    closed = true;
    outcomes = "Up" ∷ "Down" ∷ [];
    outcome_prices = value one ∷ value 0 ∷ [];
  };
  get_trades = λ call condition_id start end. ok trades;
}

judged_market_is_final_example :
    paper_row "key" market.slug
      (run_ticks "key" plan
        (settle api 2_000 2_000_000 ∷ capture api 2_001 2_001_000 ∷ [])
        sim).db.markets
    ≡ some settled_row
judged_market_is_final_example =
    judged_market_is_final "key" plan
      (settle api 2_000 2_000_000 ∷ capture api 2_001 2_001_000 ∷ []) sim "key" market.slug
      settled_row (refl, (refl, tt)) refl refl

settled_balance : IsBalanced result
unfolding calculate_result to_lower execution_evidence evidence_from
settled_balance = elim (calculate_result-bounds "Up" trades sides result calculated) [
  | inl h ↦ h.1.4
  | inr h ↦ absurd (grind (arith, h.0))
]

summary_adds_up_example :
    let t = summary 1_400 (settled_row ∷ []) in
    (t.fill_patterns.neither + t.fill_patterns.up_only + t.fill_patterns.down_only
        + t.fill_patterns.both
      ≡ t.settled)
    × (t.markets_with_fill + t.fill_patterns.neither ≡ t.settled)
    × (t.profitable + t.losing + t.breakeven ≡ t.settled)
    × (t.pnl_before_rebates +ℤ pos t.gross_cost ≡ pos t.gross_payout)
unfolding settled_results
summary_adds_up_example = summary_adds_up 1_400 (settled_row ∷ []) (settled_balance, tt)
