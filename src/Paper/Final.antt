-- ===== src/Paper/Final.antt =====
-- A paper market that is settled, or missed, is final.
use polymarket_event_quant.Base.{
  ℕ, String, ◌≡◌, refl, sym, true, false, some, List, [], ◌∷◌, arith, eq_iff, any, All, Bool-cases,
  inl, inr,
}
use polymarket_event_quant.Paper.Tables.{PaperRow, is_row, paper_row}
use polymarket_event_quant.Paper.Simulator.{
  Sim, PublicApi, capture_pending_snapshots, settle_finished_markets, drain_activation_updates,
}
use polymarket_event_quant.Service.{ActivationUpdate}
use polymarket_event_quant.Models.{TradePlan}
use polymarket_event_quant.Paper.Fixed.{Fixed-updates, Fixed-capture, Fixed-settle}
use polymarket_event_quant.Paper.Fixed.Rows.{is_final, Fixed, Fixed-paper_row}

-- each key names one row
abbrev pub HasUniqueKeys : List PaperRow → Type 0
HasUniqueKeys [] = Unit
HasUniqueKeys (r ∷ rs) = (any (is_row r.strategy_key r.slug) rs ≡ false) × HasUniqueKeys rs

-- one handler of the simulator's loop: updates, a capture or a settlement, at its time, with the
-- replies of the public services at that time
pub data Tick : Type 0 where
  updates : ℕ → List ActivationUpdate → Tick
  capture : PublicApi → ℕ → ℕ → Tick
  settle : PublicApi → ℕ → ℕ → Tick

module _ (key : String) (plan : TradePlan) where
  pub run_tick : Tick → Sim → Sim
  run_tick (updates now us) s = record s { db = (drain_activation_updates now key plan us s.db).1 }
  run_tick (capture api now now_ms) s = (capture_pending_snapshots api key now now_ms s).1
  run_tick (settle api now now_ms) s = settle_finished_markets api key now now_ms s

  -- the loop of `run`, as the sequence of its handlers
  pub run_ticks : List Tick → Sim → Sim
  run_ticks [] s = s
  run_ticks (t ∷ ts) s = run_ticks ts (run_tick t s)

paper_row-is_row :
    (key slug : String) (row : PaperRow) (rows : List PaperRow)
    → paper_row key slug rows ≡ some row
    → is_row key slug row ≡ true
paper_row-is_row key slug row [] h = ground arith
paper_row-is_row key slug row (r ∷ rs) h = elim (Bool-cases (is_row key slug r)) [
  | inl e ↦ ground arith
  | inr e ↦ paper_row-is_row key slug row rs (ground arith)
]

none_of_key :
    (key slug : String) (row : PaperRow) (rows : List PaperRow)
    → any (is_row key slug) rows ≡ false
    → All (λ r. is_row key slug r ≡ true → r ≡ row) rows
none_of_key key slug row [] h = tt
none_of_key key slug row (r ∷ rs) h =
    (λ e. ground arith, none_of_key key slug row rs (ground arith))

Fixed-of_unique :
    (key slug : String) (row : PaperRow) (rows : List PaperRow)
    → HasUniqueKeys rows
    → paper_row key slug rows ≡ some row
    → (own : is_row key slug row ≡ true) → (final : is_final row.status ≡ true)
    → Fixed key slug row own final rows
Fixed-of_unique key slug row [] u h own final = ground arith
Fixed-of_unique key slug row (r ∷ rs) u h own final = elim (Bool-cases (is_row key slug r)) [
  | inl e ↦
      let a : r.strategy_key ≡ key = ground (arith, eq_iff r.strategy_key key) in
      let b : r.slug ≡ slug = ground (arith, eq_iff r.slug slug) in
      let q : r ≡ row = ground arith in
      let n : any (is_row key slug) rs ≡ false = rw (sym a) (rw (sym b) u.0) in
      ((λ e'. q, none_of_key key slug row rs n), rw e refl)
  | inr e ↦
      let rest = Fixed-of_unique key slug row rs u.1 (ground arith) own final in
      ((λ e'. ground arith, rest.0), rw e rest.1)
]

module _ (k : String) (plan : TradePlan) (key slug : String) (row : PaperRow)
    (own : is_row key slug row ≡ true) (final : is_final row.status ≡ true) where
  Fixed-tick :
      (t : Tick) (s : Sim)
      → Fixed key slug row own final s.db.markets
      → Fixed key slug row own final (run_tick k plan t s).db.markets
  unfolding run_tick
  Fixed-tick (updates now us) s h = Fixed-updates key slug row own final now k plan us s.db h
  Fixed-tick (capture api now ms) s h = Fixed-capture key slug row own final api k now ms s h
  Fixed-tick (settle api now ms) s h = Fixed-settle key slug row own final api k now ms s h

  Fixed-ticks :
      (ts : List Tick) (s : Sim)
      → Fixed key slug row own final s.db.markets
      → Fixed key slug row own final (run_ticks k plan ts s).db.markets
  unfolding run_ticks
  Fixed-ticks [] s h = h
  Fixed-ticks (t ∷ ts) s h = Fixed-ticks ts _ (Fixed-tick t s h)

-- In a table whose keys are distinct, a market that is settled or missed stays as it is under every
-- sequence of handlers of a simulator, of this or another strategy, whatever the public services
-- reply: its result is never written again.
pub judged_market_is_final :
    (k : String) (plan : TradePlan) (ts : List Tick) (s : Sim) (key slug : String) (row : PaperRow)
    → HasUniqueKeys s.db.markets
    → paper_row key slug s.db.markets ≡ some row
    → is_final row.status ≡ true
    → paper_row key slug (run_ticks k plan ts s).db.markets ≡ some row
judged_market_is_final k plan ts s key slug row u h final =
    let own = paper_row-is_row key slug row s.db.markets h in
    Fixed-paper_row key slug row own final _ (
      Fixed-ticks k plan key slug row own final ts s
        (Fixed-of_unique key slug row s.db.markets u h own final))
