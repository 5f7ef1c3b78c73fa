-- ===== src/Paper/Summary.antt =====
-- paper.py: the figures of `PaperDatabase.status`. The rates, which are quotients of these, and the
-- ten latest rows are left out.
use polymarket_event_quant.Base.{
  ℕ, suc, ◌+◌, ◌-◌, ◌*◌, ◌/◌, String, Bool, true, false, not, ◌&&◌, Option, none, some, List, [],
  ◌∷◌, ltb, leb, str_eq, length, filter, sum_by, sort_by, if◌then◌else◌,
}
use mathlib.Core.Option
use polymarket_event_quant.Paper.{PaperResult}
use polymarket_event_quant.Paper.Tables.{PaperRow, PaperDb, is_settled}
use polymarket_event_quant.Base.Decimal.{Decimal, mul}
use polymarket_event_quant.Base.Int.{ℤ, ltb_ℤ, pos, ◌+ℤ◌, sub_ℕ}

pub record FillPatterns : Type 0 where
  pub neither : ℕ
  pub up_only : ℕ
  pub down_only : ℕ
  pub both : ℕ

abbrev pub no_patterns : FillPatterns
no_patterns = record { neither = 0; up_only = 0; down_only = 0; both = 0 }

pub record Summary : Type 0 where
  pub settled : ℕ
  pub fill_patterns : FillPatterns
  pub markets_with_fill : ℕ
  pub profitable : ℕ
  pub losing : ℕ
  pub breakeven : ℕ
  pub gross_cost : Decimal
  pub gross_payout : Decimal
  pub pnl_before_rebates : ℤ
  pub active_order_reserve : Decimal
  pub peak_order_reserve : ℤ

-- the results of the settled rows
unfoldable pub settled_results : List PaperRow → List PaperResult
settled_results [] = []
settled_results (r ∷ rs) =
    let rest = settled_results rs in
    if is_settled r.status then elim r.result [ none ↦ rest | some x ↦ x ∷ rest ] else rest

abbrev pub count_pattern : PaperResult → FillPatterns → FillPatterns
count_pattern x p =
    if ltb 0 x.up_fill && ltb 0 x.down_fill
    then record p { both = suc p.both }
    else if ltb 0 x.up_fill
    then record p { up_only = suc p.up_only }
    else if ltb 0 x.down_fill
    then record p { down_only = suc p.down_only }
    else record p { neither = suc p.neither }

abbrev pub patterns : List PaperResult → FillPatterns
patterns [] = no_patterns
patterns (x ∷ xs) = count_pattern x (patterns xs)

abbrev pub sum_pnl : List PaperResult → ℤ
sum_pnl [] = pos 0
sum_pnl (x ∷ xs) = x.pnl_before_rebates +ℤ sum_pnl xs

abbrev pub is_profit : PaperResult → Bool
is_profit x = ltb_ℤ (pos 0) x.pnl_before_rebates

abbrev pub is_loss : PaperResult → Bool
is_loss x = ltb_ℤ x.pnl_before_rebates (pos 0)

abbrev pub is_even : PaperResult → Bool
is_even x = not (is_profit x) && not (is_loss x)

-- a change of the running reserve at a second: `gain` where it is positive
pub record ReserveEvent : Type 0 where
  pub at : ℕ
  pub gain : Bool
  pub amount : Decimal

abbrev pub reserve_of : PaperRow → Decimal
reserve_of r = mul r.buy_price r.order_size * 2

pub reserve_events : List PaperRow → List ReserveEvent
reserve_events [] = []
reserve_events (r ∷ rs) =
    let rest = reserve_events rs in
    elim r.snapshot_ts_ms [
      | none ↦ rest
      | some ms ↦
          record { at = ms / 1_000; gain = true; amount = reserve_of r }
          ∷ record { at = r.end_ts; gain = false; amount = reserve_of r }
          ∷ rest
    ]

abbrev pub is_reserved_at : ℕ → PaperRow → Bool
is_reserved_at now r = elim r.snapshot_ts_ms [
  | none ↦ false
  | some ms ↦ leb (ms / 1_000) now && ltb now r.end_ts
]

pub active_reserve : ℕ → List PaperRow → Decimal
active_reserve now rows = sum_by reserve_of (filter (is_reserved_at now) rows)

-- the order of `(item[0], item[1] > 0)`
abbrev pub event_order : ReserveEvent → ℕ
event_order e = 2 * e.at + (if e.gain && ltb 0 e.amount then 1 else 0)

abbrev pub delta : ReserveEvent → ℤ
delta e = if e.gain then pos e.amount else sub_ℕ 0 e.amount

abbrev pub max_ℤ : ℤ → ℤ → ℤ
max_ℤ a b = if ltb_ℤ a b then b else a

pub peak_from : List ReserveEvent → ℤ → ℤ → ℤ
peak_from [] running peak = peak
peak_from (e ∷ es) running peak =
    let next = running +ℤ delta e in peak_from es next (max_ℤ peak next)

pub peak_reserve : List PaperRow → ℤ
peak_reserve rows = peak_from (sort_by event_order (reserve_events rows)) (pos 0) (pos 0)

-- of the rows of one strategy
unfoldable pub summary : ℕ → List PaperRow → Summary
summary now rows =
    let results = settled_results rows in
    record {
      settled = length results;
      fill_patterns = patterns results;
      markets_with_fill = length results - (patterns results).neither;
      profitable = length (filter is_profit results);
      losing = length (filter is_loss results);
      breakeven = length (filter is_even results);
      gross_cost = sum_by (λ x. x.gross_cost) results;
      gross_payout = sum_by (λ x. x.gross_payout) results;
      pnl_before_rebates = sum_pnl results;
      active_order_reserve = active_reserve now rows;
      peak_order_reserve = peak_reserve rows;
    }

-- no figure depends on the order of the rows
abbrev pub rows_of : String → PaperDb → List PaperRow
rows_of key db = filter (λ r. str_eq r.strategy_key key) db.markets

-- `none` is a database that no run has started
pub status : ℕ → PaperDb → Option Summary
status now db = Option.map (λ s. summary now (rows_of s.strategy_key db)) db.state
