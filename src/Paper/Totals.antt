-- ===== src/Paper/Totals.antt =====
-- What the figures of `PaperDatabase.status` add up to.
use polymarket_event_quant.Base.{
  ℕ, ◌+◌, ◌≡◌, refl, List, [], ◌∷◌, arith, length, filter, sum_by, All,
}
use polymarket_event_quant.Paper.{PaperResult}
use polymarket_event_quant.Paper.Tables.{PaperRow}
use polymarket_event_quant.Paper.Summary.{
  summary, settled_results, patterns, sum_pnl, is_profit, is_loss, is_even,
}
use polymarket_event_quant.Base.Int.{◌+ℤ◌, pos, ℤ}

-- a stored result whose profit is its payout less its cost, as `calculate_result` writes it
abbrev pub IsBalanced : PaperResult → Type 0
IsBalanced x = x.pnl_before_rebates +ℤ pos x.gross_cost ≡ pos x.gross_payout

patterns-length :
    (xs : List PaperResult)
    → let p = patterns xs in p.neither + p.up_only + p.down_only + p.both ≡ length xs
patterns-length [] = refl
patterns-length (x ∷ xs) = ground (arith, patterns-length xs)

judged-length :
    (xs : List PaperResult)
    → length (filter is_profit xs) + length (filter is_loss xs) + length (filter is_even xs)
      ≡ length xs
judged-length [] = refl
judged-length (x ∷ xs) = ground (arith, judged-length xs)

add-balanced :
    (a b : ℤ) (c d p q : ℕ)
    → a +ℤ pos c ≡ pos p
    → b +ℤ pos d ≡ pos q
    → (a +ℤ b) +ℤ pos (c + d) ≡ pos (p + q)
unfolding ◌+ℤ◌
add-balanced a b c d p q h h' = ground arith

pnl-balanced :
    (xs : List PaperResult)
    → All IsBalanced xs
    → sum_pnl xs +ℤ pos (sum_by (λ x. x.gross_cost) xs) ≡ pos (sum_by (λ x. x.gross_payout) xs)
unfolding ◌+ℤ◌
pnl-balanced [] h = refl
pnl-balanced (x ∷ xs) h =
    add-balanced x.pnl_before_rebates (sum_pnl xs) x.gross_cost _ x.gross_payout _ h.0
      (pnl-balanced xs h.1)

-- In the summary of a strategy's rows, the four fill patterns make up the settled markets, so do
-- the profitable, losing and even ones, and where each stored profit is its payout less its cost,
-- the total profit and the total cost make up the total payout.
pub summary_adds_up :
    (now : ℕ) (rows : List PaperRow)
    → All IsBalanced (settled_results rows)
    → let t = summary now rows in
      (t.fill_patterns.neither + t.fill_patterns.up_only + t.fill_patterns.down_only
          + t.fill_patterns.both
        ≡ t.settled)
      × (t.markets_with_fill + t.fill_patterns.neither ≡ t.settled)
      × (t.profitable + t.losing + t.breakeven ≡ t.settled)
      × (t.pnl_before_rebates +ℤ pos t.gross_cost ≡ pos t.gross_payout)
unfolding summary
summary_adds_up now rows h =
    let p = patterns-length (settled_results rows) in
    (
      p,
      omega (arith, p),
      judged-length (settled_results rows),
      pnl-balanced (settled_results rows) h,
    )
