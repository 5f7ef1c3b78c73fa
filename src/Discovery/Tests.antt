-- ===== src/Discovery/Tests.antt =====
-- Runs of a discovery.
use polymarket_event_quant.Base.{ℕ, ◌≢◌, true, [], ◌∷◌, List, Result, ok}
use polymarket_event_quant.Exchange.{Exc}
use polymarket_event_quant.Discovery.{Collected, collect, requested_events}
use polymarket_event_quant.Discovery.Reading.{GammaEvent}
use polymarket_event_quant.Discovery.Pages.{collect-ends}

-- the service has one event, whatever is asked for
abbrev page : ℕ → ℕ → Result Exc (List GammaEvent)
page limit offset = ok (record { slug = "btc-updown-5m-300"; markets = [] } ∷ [])

collect-ends_example :
    collect page (requested_events 40 true) (requested_events 40 true) [] ≢ Collected.unfinished
collect-ends_example = collect-ends page 40 true
