-- ===== src/Paper/Simulator.antt =====
-- paper.py: the handlers of `PaperSimulator`. The replies of the venue's public services are
-- parameters, one for each number of requests made before.

use polymarket_event_quant.Base.{
  ℕ, suc, ◌+◌, ◌/◌, String, Bool, true, false, not, ◌||◌, Option, none, some, List, [], ◌∷◌, max,
  leb, ◌==◌, or_else, str_eq, length, filter, Result, ok, err, if◌then◌else◌, ◌>>=◌,
}
use polymarket_event_quant.Paper.{Book, Trade, Sides, queue_at_price, calculate_result}
use polymarket_event_quant.Paper.Tables.{
  PaperDb, PaperRow, register, expire_pending_snapshots, pending_snapshots, ready_to_settle,
  set_snapshot, set_error, set_result,
}
use polymarket_event_quant.Models.{TradePlan}
use polymarket_event_quant.Service.{ActivationUpdate}
use polymarket_event_quant.Exchange.{Number, Exc, read_number}
use polymarket_event_quant.Base.Decimal.{Decimal, one}

-- the payload of a Gamma market: `closed is True`, and what its two JSON texts hold
pub record Resolution : Type 0 where
  pub closed : Bool
  pub outcomes : List String
  pub outcome_prices : List Number

pub record PublicApi : Type 0 where
  pub post_books : ℕ → String → String → Result Exc (List Book)
  pub get_market : ℕ → String → Result Exc Resolution
  pub get_trades : ℕ → String → ℕ → ℕ → Result Exc (List Trade)

pub record Sim : Type 0 where
  pub db : PaperDb
  pub calls : ℕ

-- `drain` of the worker, without its health messages
unfoldable pub drain_activation_updates :
    ℕ → String → TradePlan → List ActivationUpdate → PaperDb → Bool × PaperDb
drain_activation_updates now key plan [] db = (false, db)
drain_activation_updates now key plan (u ∷ us) db =
    let (new, db1) = register now key u plan db in
    let (more, db2) = drain_activation_updates now key plan us db1 in (new || more, db2)

-- a dict is built in order, so the last book of an asset stays
unfoldable pub book_of : String → List Book → Option Book
book_of asset [] = none
book_of asset (b ∷ bs) =
    let later = book_of asset bs in
    elim later [
      | some found ↦ some found
      | none ↦ if str_eq (or_else b.asset_id "") asset then some b else none
    ]

abbrev pub missing_outcome : Exc
missing_outcome = "ValueError: CLOB books response is missing an outcome"

abbrev pub both_books : Option Book → Option Book → Result Exc (Book × Book)
both_books (some up) (some down) = ok (up, down)
both_books _ _ = err missing_outcome

unfoldable pub books : PublicApi → ℕ → PaperRow → Result Exc (Book × Book)
books api call r = api.post_books call r.up_token_id r.down_token_id >>= λ payload.
    both_books (book_of r.up_token_id payload) (book_of r.down_token_id payload)

-- `winner` has three ends: an outcome, not yet resolved, and an exception
pub data Winner : Type 0 where
  won : String → Winner
  resolution_pending : Winner

abbrev pub decimals : List Number → Result Exc (List Decimal)
decimals [] = ok []
decimals (n ∷ ns) = read_number (some n) 0 >>= λ d. decimals ns >>= λ ds. ok (d ∷ ds)

-- zip(outcomes, prices, strict=True), where the price is one
abbrev pub winners : List String → List Decimal → Result Exc (List String)
winners [] [] = ok []
winners (o ∷ os) (p ∷ ps) = winners os ps >>= λ rest. ok (if p == one then o ∷ rest else rest)
winners (o ∷ os) [] = err "ValueError: zip() argument 2 is shorter than argument 1"
winners [] (p ∷ ps) = err "ValueError: zip() argument 2 is longer than argument 1"

abbrev pub sole_winner : List String → Winner
sole_winner (w ∷ []) = won w
sole_winner _ = resolution_pending

abbrev pub winner_in : Resolution → Result Exc Winner
winner_in p =
    if not p.closed
    then ok resolution_pending
    else (decimals p.outcome_prices >>= winners p.outcomes >>= λ ws. ok (sole_winner ws))

unfoldable pub winner : PublicApi → ℕ → String → Result Exc Winner
winner api call slug = api.get_market call slug >>= winner_in

abbrev pub trade_page_limit : ℕ
trade_page_limit = 10_000

abbrev pub trades_from : ℕ → List Trade → Result Exc (List Trade)
trades_from start_ts payload =
    if leb trade_page_limit (length payload)
    then err "ValueError: trade response reached the 10000-row audit limit"
    else ok (filter (λ t. leb start_ts (or_else t.timestamp 0)) payload)

-- the first whole second after the snapshot, which every monitored row has, as it has both queues
abbrev pub start_second : ℕ → ℕ
start_second snapshot_ts_ms = (snapshot_ts_ms + 999) / 1_000

unfoldable pub trades_of : PublicApi → ℕ → PaperRow → ℕ → Result Exc (List Trade)
trades_of api call r now =
    let start_ts = start_second (or_else r.snapshot_ts_ms 0) in
    api.get_trades call r.condition_id start_ts now >>= trades_from start_ts

module _ (api : PublicApi) (key : String) (now now_ms : ℕ) where
  abbrev pub snapshot_of : PaperRow → PaperDb → Book × Book → Result Exc PaperDb
  snapshot_of r db (up, down) = queue_at_price up r.buy_price >>= λ up_queue.
      queue_at_price down r.buy_price >>= λ down_queue. ok (
        set_snapshot now key r.slug now_ms (max (or_else up.timestamp 0) (or_else down.timestamp 0))
          up_queue down_queue db)

  -- `except Exception`
  abbrev pub or_error : PaperRow → PaperDb → Result Exc PaperDb → PaperDb
  or_error r db (ok db') = db'
  or_error r db (err e) = (set_error now key r.slug e db).1

  unfoldable pub capture_row : PaperRow → Sim → Sim
  capture_row r s = record {
    calls = suc s.calls;
    db = or_error r s.db (books api s.calls r >>= snapshot_of r s.db);
  }

  unfoldable pub capture_rows : List PaperRow → Sim → Sim
  capture_rows [] s = s
  capture_rows (r ∷ rs) s = capture_rows rs (capture_row r s)

  -- whether a snapshot is still wanted
  unfoldable pub capture_pending_snapshots : Sim → Bool × Sim
  capture_pending_snapshots s =
      let s0 = record s { db = expire_pending_snapshots key now s.db } in
      let s1 = capture_rows (pending_snapshots key s0.db) s0 in
      (elim (pending_snapshots key s1.db) [ [] ↦ false | _ ∷ _ ↦ true ], s1)

  abbrev pub sides_of : PaperRow → Sides
  sides_of r = record {
    up_token_id = r.up_token_id;
    down_token_id = r.down_token_id;
    buy_price = r.buy_price;
    order_size = r.order_size;
    up_queue_ahead = or_else r.up_queue_ahead 0;
    down_queue_ahead = or_else r.down_queue_ahead 0;
  }

  abbrev pub with_trades : PaperRow → PaperDb → String → List Trade → Result Exc PaperDb
  with_trades r db w trades = calculate_result w trades (sides_of r) >>= λ result.
      ok (set_result now key r.slug result (length trades) db)

  -- a market that is not resolved yet is left as it is, and its trades are not asked for
  abbrev pub with_winner : PaperRow → Sim → Result Exc Winner → Sim
  with_winner r s (ok (won w)) = record {
    calls = suc s.calls;
    db = or_error r s.db (trades_of api s.calls r now >>= with_trades r s.db w);
  }
  with_winner r s (ok resolution_pending) = s
  with_winner r s (err e) = record s { db = or_error r s.db (err e) }

  unfoldable pub settle_row : PaperRow → Sim → Sim
  settle_row r s = with_winner r (record s { calls = suc s.calls }) (winner api s.calls r.slug)

  unfoldable pub settle_rows : List PaperRow → Sim → Sim
  settle_rows [] s = s
  settle_rows (r ∷ rs) s = settle_rows rs (settle_row r s)

  unfoldable pub settle_finished_markets : Sim → Sim
  settle_finished_markets s = settle_rows (ready_to_settle key now s.db) s
