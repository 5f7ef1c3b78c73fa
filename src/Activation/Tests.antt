-- ===== src/Activation/Tests.antt =====
-- Runs of the market activation worker.
use polymarket_event_quant.Base.{◌≡◌, refl, true, false, none, some, List, [], ◌∷◌, ok}
use polymarket_event_quant.Base.Keyed.{IsUnique}
use polymarket_event_quant.Activation.{
  Candidate, new_worker, update_slug, register_candidates, poll_market_parameters, activate, expire,
  retire, retire_all, poll_each,
}
use polymarket_event_quant.Activation.Once.{Step, run_steps, activated_once}
use polymarket_event_quant.Activation.Slug.{market_slug, parse_market-market_slug, digits_from}
use polymarket_event_quant.Activation.Poll.{Component, Report, no_health, report_all, overall}
use polymarket_event_quant.Activation.Healthy.{health_is_told, last_gamma, last_clob, told}
use polymarket_event_quant.Discovery.Reading.{parse_market, GammaMarket}
use polymarket_event_quant.Exchange.{Number}
use polymarket_event_quant.Models.{Market}
use polymarket_event_quant.Fixtures.{market, cents}

abbrev candidate : Candidate
candidate = record { market = market; market_discovered_ts_ms = 5 }

-- the market is found twice, and activated from a stale read too
abbrev steps : List Step
steps =
    Step.registered 100 5 (market ∷ [])
    ∷ Step.activated 7 candidate
    ∷ Step.registered 100 8 (market ∷ [])
    ∷ Step.activated 9 candidate
    ∷ []

activated_once_example : IsUnique update_slug (run_steps steps new_worker).emitted
activated_once_example = activated_once steps

handed_over :
    (run_steps steps new_worker).emitted
    ≡ record { market = market; market_discovered_ts_ms = 5; market_parameters_detected_ts_ms = 7 }
      ∷ []
unfolding register_candidates activate retire
handed_over = refl

polled :
    (poll_market_parameters 100
      (λ condition. ok (some ("u1" ∷ "d1" ∷ [])))
      (λ slug. 7)
      (run_steps (Step.registered 100 5 (market ∷ []) ∷ []) new_worker)).0
    ≡ ok true
unfolding poll_market_parameters expire retire_all poll_each register_candidates
polled = refl

abbrev row : GammaMarket
row = record {
  enable_order_book = true;
  clob_token_ids = some ("u7" ∷ "d7" ∷ []);
  outcomes = some ("Up" ∷ "Down" ∷ []);
  condition_id = some "0xc7";
  order_min_size = some (Number.value (cents 500));
  order_price_min_tick_size = some (Number.value (cents 1));
}

abbrev found_market : Market
found_market = record {
  slug = market_slug 1_758_600;
  condition_id = "0xc7";
  start_ts = 1_758_600;
  end_ts = 1_758_900;
  up_token_id = "u7";
  down_token_id = "d7";
  min_size = cents 500;
  tick_size = cents 1;
}

slug_run : market_slug 1_758_600 ≡ "btc-updown-5m-1758600"
unfolding market_slug digits_from
slug_run = refl

parse_market-market_slug_example : parse_market row (market_slug 1_758_600) ≡ ok (some found_market)
parse_market-market_slug_example =
    parse_market-market_slug 1_758_600 "0xc7" "u7" "d7" (cents 500) (cents 1)

abbrev reports : List Report
reports =
    (Component.gamma, true, none)
    ∷ (Component.clob, false, some "HTTPError: 500")
    ∷ (Component.clob, true, none)
    ∷ []

health_is_told_example :
    ((report_all reports no_health).is_healthy
      ≡ overall (last_gamma none reports) (last_clob none reports))
    × (told false (report_all reports no_health).states ≡ (report_all reports no_health).is_healthy)
health_is_told_example = health_is_told reports
