-- ===== src/UserStream/Tests.antt =====
-- Runs of a user stream worker.
use polymarket_event_quant.Base.{
  ℕ, String, ◌≡◌, Bool, true, false, Option, none, some, List, [], ◌∷◌,
}
use polymarket_event_quant.UserStream.{UserOrderUpdate, EventType, registered_ts_ms, new_worker}
use polymarket_event_quant.UserStream.Registered.{registered_is_first, accept_all}
use polymarket_event_quant.UserStream.Health.{
  health_messages_are_changes, health_messages, observe_all, changes,
}
use polymarket_event_quant.Models.{Status}

abbrev push : String → ℕ → UserOrderUpdate
push i ts = record {
  order_id = i;
  status = Status.live;
  matched_size = 0;
  raw = "{}";
  event_type = EventType.placement;
  exchange_event_ts_ms = some ts;
  exchange_created_ts_ms = none;
  received_ts_ms = 9;
}

registered_is_first_example :
    registered_ts_ms "a"
      (accept_all (push "a" 5 ∷ push "b" 6 ∷ push "a" 7 ∷ []) new_worker).registered_at
    ≡ some 5
registered_is_first_example = registered_is_first "a" (push "a" 5 ∷ push "b" 6 ∷ push "a" 7 ∷ [])

abbrev observations : List (Bool × Option String)
observations = (true, none) ∷ (true, none) ∷ (false, some "closed") ∷ (true, none) ∷ []

health_messages_are_changes_example :
    health_messages (observe_all observations new_worker).updates ≡ changes observations
health_messages_are_changes_example = health_messages_are_changes observations
