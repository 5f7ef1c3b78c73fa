-- ===== src/Paper/Fixed.antt =====
-- What each handler of the simulator does to a row that is settled or missed.
pub mod Rows
use polymarket_event_quant.Base.{
  ok, err, Result, ◌>>=◌, length, ℕ, suc, ◌+◌, String, ◌≡◌, refl, sym, ap, ◌∙◌, Bool, true, false,
  ◌&&◌, some, List, [], ◌∷◌, map, arith, eq_iff, str_eq, leb, any, All, filter, All-sort_by,
  Bool-cases, inl, inr, All-append, ◌>>=◌, any-append, Result,
}
use polymarket_event_quant.Paper.Tables.{
  PaperDb, PaperRow, PaperStatus, is_row, paper_row, change, expire_pending_snapshots, change_row,
  set_error, set_snapshot, set_result, expire_row, error_row, snapshot_row, result_row, register,
  new_paper_row, pending_snapshots, ready_to_settle, is_snapshot_pending, is_monitoring,
  finalization_delay_seconds,
}
use polymarket_event_quant.Paper.Simulator.{
  won, resolution_pending, Sim, PublicApi, capture_pending_snapshots, settle_finished_markets,
  drain_activation_updates, capture_row, settle_row, books, snapshot_of, capture_rows, settle_rows,
  winner, or_error, Winner, with_winner, trades_of, with_trades, sides_of,
}
use polymarket_event_quant.Service.{ActivationUpdate}
use polymarket_event_quant.Models.{TradePlan}
use polymarket_event_quant.Base.Decimal.{Decimal}
use polymarket_event_quant.Paper.{PaperResult, queue_at_price, calculate_result}
use polymarket_event_quant.Exchange.{Exc}
use polymarket_event_quant.Paper.Fixed.Rows.{
  is_final, Fixed, Fixed-expire, Fixed-register, Fixed-set_error, Fixed-set_result,
  Fixed-set_snapshot, Others, Others-of,
}

module _ (key slug : String) (row : PaperRow) (own : is_row key slug row ≡ true)
    (final : is_final row.status ≡ true) where
  -- the table that a step leaves, where it does not raise
  abbrev FixedIfOk : Result Exc PaperDb → Type 0
  FixedIfOk (ok db) = Fixed key slug row own final db.markets
  FixedIfOk (err e) = Unit

  Fixed-bind {ℓ} :
      {A : Type ℓ} (m : Result Exc A) (f : A → Result Exc PaperDb)
      → ((a : A) → FixedIfOk (f a))
      → FixedIfOk (m >>= f)
  Fixed-bind (ok a) f h = h a
  Fixed-bind (err e) f h = tt

  module _ (api : PublicApi) (k : String) (now ms : ℕ) where
    Fixed-or_error :
        (r : PaperRow) (db : PaperDb) (m : Result Exc PaperDb)
        → is_row k r.slug row ≡ false
        → Fixed key slug row own final db.markets
        → FixedIfOk m
        → Fixed key slug row own final (or_error api k now ms r db m).markets
    Fixed-or_error r db (ok d) other h hm = hm
    Fixed-or_error r db (err e) other h hm =
        Fixed-set_error key slug row own final now k r.slug e other db h

    Fixed-capture_row :
        (r : PaperRow) (s : Sim)
        → is_row k r.slug row ≡ false
        → Fixed key slug row own final s.db.markets
        → Fixed key slug row own final (capture_row api k now ms r s).db.markets
    unfolding capture_row
    Fixed-capture_row r s other h = Fixed-or_error r s.db _ other h (
        Fixed-bind (books api s.calls r) (snapshot_of api k now ms r s.db) λ (up, down).
          Fixed-bind (queue_at_price up r.buy_price) _ λ up_queue.
            Fixed-bind (queue_at_price down r.buy_price) _ λ down_queue.
              Fixed-set_snapshot key slug row own final now ms _ k r.slug up_queue down_queue other
                s.db h)

    Fixed-with_winner :
        (r : PaperRow) (s : Sim) (w : Result Exc Winner)
        → is_row k r.slug row ≡ false
        → Fixed key slug row own final s.db.markets
        → Fixed key slug row own final (with_winner api k now ms r s w).db.markets
    Fixed-with_winner r s (ok (won w)) other h = Fixed-or_error r s.db _ other h (
        Fixed-bind (trades_of api s.calls r now) (with_trades api k now ms r s.db w) λ trades.
          Fixed-bind (calculate_result w trades (sides_of api k now ms r)) _ λ x.
            Fixed-set_result key slug row own final now k r.slug x (length trades) other s.db h)
    Fixed-with_winner r s (ok resolution_pending) other h = h
    Fixed-with_winner r s (err e) other h = Fixed-or_error r s.db (err e) other h tt

    Fixed-capture_rows :
        (rs : List PaperRow) (s : Sim)
        → Others key slug row own final k rs
        → Fixed key slug row own final s.db.markets
        → Fixed key slug row own final (capture_rows api k now ms rs s).db.markets
    unfolding capture_rows
    Fixed-capture_rows [] s o h = h
    Fixed-capture_rows (r ∷ rs) s o h = Fixed-capture_rows rs _ o.1 (Fixed-capture_row r s o.0 h)

    Fixed-settle_rows :
        (rs : List PaperRow) (s : Sim)
        → Others key slug row own final k rs
        → Fixed key slug row own final s.db.markets
        → Fixed key slug row own final (settle_rows api k now ms rs s).db.markets
    unfolding settle_rows settle_row
    Fixed-settle_rows [] s o h = h
    Fixed-settle_rows (r ∷ rs) s o h =
        Fixed-settle_rows rs _ o.1
          (Fixed-with_winner r (record s { calls = suc s.calls }) (winner api s.calls r.slug) o.0 h)

    pub Fixed-capture :
        (s : Sim)
        → Fixed key slug row own final s.db.markets
        → Fixed key slug row own final ((capture_pending_snapshots api k now ms s).1).db.markets
    unfolding capture_pending_snapshots pending_snapshots
    Fixed-capture s h =
        let h0 = Fixed-expire key slug row own final k now s.db h in
        Fixed-capture_rows _ (record s { db = expire_pending_snapshots k now s.db })
          (All-sort_by (λ r. is_row k r.slug row ≡ false) (λ r. r.market_parameters_detected_ts_ms)
            _
            (Others-of key slug row own final k
              (λ r. str_eq r.strategy_key k && is_snapshot_pending r.status) (λ r e. ground arith)
              (λ r e. ground arith) _ h0.0))
          h0

    pub Fixed-settle :
        (s : Sim)
        → Fixed key slug row own final s.db.markets
        → Fixed key slug row own final (settle_finished_markets api k now ms s).db.markets
    unfolding settle_finished_markets ready_to_settle
    Fixed-settle s h =
        Fixed-settle_rows _ s
          (All-sort_by (λ r. is_row k r.slug row ≡ false) (λ r. r.end_ts) _
            (Others-of key slug row own final k
              (λ r.
                str_eq r.strategy_key k
                && (is_monitoring r.status && leb (r.end_ts + finalization_delay_seconds) now))
              (λ r e. ground arith) (λ r e. ground arith) _ h.0))
          h

  pub Fixed-updates :
      (now : ℕ) (k : String) (plan : TradePlan) (us : List ActivationUpdate) (db : PaperDb)
      → Fixed key slug row own final db.markets
      → Fixed key slug row own final ((drain_activation_updates now k plan us db).1).markets
  unfolding drain_activation_updates
  Fixed-updates now k plan [] db h = h
  Fixed-updates now k plan (u ∷ us) db h =
      Fixed-updates now k plan us _ (Fixed-register key slug row own final now k u plan db h)
