-- ===== src/Exchange/Tests.antt =====
-- Runs of the normalisation of a state.
use polymarket_event_quant.Base.{◌≡◌, refl, ◌++◌, false}
use polymarket_event_quant.Base.Text.{codes, lower, to_lower, starts_with}
use polymarket_event_quant.Exchange.{normalize_status, order_status_prefix}
use polymarket_event_quant.Exchange.Statuses.{normalize_status-prefix}

plain : starts_with order_status_prefix (lower (codes "LIVE")) ≡ false
unfolding to_lower
plain = refl

normalize_status-prefix_example :
    (normalize_status (order_status_prefix ++ codes "LIVE") ≡ normalize_status (codes "LIVE"))
    × (normalize_status (lower (codes "LIVE")) ≡ normalize_status (codes "LIVE"))
normalize_status-prefix_example = normalize_status-prefix (codes "LIVE") plain
