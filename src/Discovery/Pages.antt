-- ===== src/Discovery/Pages.antt =====
-- The pages of a discovery come to an end.
use polymarket_event_quant.Base.{
  ℕ, zero, suc, ◌+◌, ◌≤◌, ◌<◌, ◌≡◌, ◌≢◌, Bool, false, List, [], ◌++◌, length, length-append, ltb,
  ltb→lt, Result, ok, err, arith, Bool-cases, inl, inr,
}
use polymarket_event_quant.Exchange.{Exc}
use polymarket_event_quant.Discovery.{Collected, collect, after_page, page_size, requested_events}
use polymarket_event_quant.Discovery.Reading.{GammaEvent}

not_below : (a b : ℕ) → b ≤ a → ltb a b ≡ false
not_below a b h = ground arith

module _ (get_page : ℕ → ℕ → Result Exc (List GammaEvent)) where
  after_page_ends :
      (next : List GammaEvent → Collected) (requested : ℕ) (events : List GammaEvent)
      (page : Result Exc (List GammaEvent))
      → length events < requested
      → ((more : List GammaEvent) → length events < length more → next more ≢ Collected.unfinished)
      → after_page get_page next requested events page ≢ Collected.unfinished
  after_page_ends next requested events (err e) lt h = λ q. grind arith
  after_page_ends next requested events (ok page) lt h =
      elim (Bool-cases (ltb (length page) (page_size get_page requested events))) [
        | inl q ↦ rw q (λ x. grind arith)
        | inr q ↦ rw q (h (events ++ page) (ground (arith, q, length-append events page, lt)))
      ]

  collect_from :
      (fuel requested : ℕ) (events : List GammaEvent)
      → requested ≤ length events + fuel
      → collect get_page fuel requested events ≢ Collected.unfinished
  unfolding collect
  collect_from zero requested events le =
      rw (not_below (length events) requested (omega (arith, le))) (λ q. grind arith)
  collect_from (suc fuel) requested events le = elim (Bool-cases (ltb (length events) requested)) [
    | inr q ↦ rw q (λ x. grind arith)
    | inl q ↦ rw q (
        after_page_ends (collect get_page fuel requested) requested events
          (get_page (page_size get_page requested events) (length events))
          (ltb→lt (length events) requested q)
          (λ more grows. collect_from fuel requested more (omega (arith, grows, le))))
  ]

  -- A discovery ends: as many pages as events are requested are enough, whatever the service answers,
  -- since a page that is full brings at least one event and any other is the last.
  pub collect-ends :
      (window_minutes : ℕ) (farthest_first : Bool)
      → collect get_page
          (requested_events window_minutes farthest_first)
          (requested_events window_minutes farthest_first)
          []
        ≢ Collected.unfinished
  collect-ends window_minutes farthest_first =
      collect_from (requested_events window_minutes farthest_first)
        (requested_events window_minutes farthest_first) [] (omega arith)
