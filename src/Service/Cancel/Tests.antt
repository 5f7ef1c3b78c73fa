-- ===== src/Service/Cancel/Tests.antt =====
-- Runs of the cancels.
use polymarket_event_quant.Base.{◌+◌, ◌≡◌, refl, List, [], ◌∷◌}
use polymarket_event_quant.Database.Queries.{Joined}
use polymarket_event_quant.Fixtures.{client, settings, bot, joined}
use polymarket_event_quant.Database.Queries.{due_open_orders}
use polymarket_event_quant.Service.Cancel.{cancel_due_orders}
use polymarket_event_quant.Service.Cancel.Due.{cancel_due_orders_leaves_none}

cancel_due_orders_leaves_none_example :
    due_open_orders
      (1_280 + settings.cancel_before_end_seconds)
      ((cancel_due_orders client settings 1_280 bot).1).db
    ≡ []
cancel_due_orders_leaves_none_example = cancel_due_orders_leaves_none client settings 1_280 bot refl

-- one order of the primary, and two of another account
abbrev rows : List Joined
rows =
    joined
    ∷ record joined { row = record joined.row { order_id = "a1"; account = "second" } }
    ∷ record joined { row = record joined.row { order_id = "a2"; account = "second" } }
    ∷ []
