-- ===== src/Models/Statuses.antt =====
-- The sets of order states that the SQL of database.py and service.py test membership of.
use polymarket_event_quant.Base.{Bool, true, false}
use polymarket_event_quant.Models.{Status, Side, Role, Outcome}

-- TERMINAL_ORDER_STATES
unfoldable pub is_terminal : Status → Bool
is_terminal Status.cancelled = true
is_terminal Status.canceled = true
is_terminal Status.closed = true
is_terminal Status.filled = true
is_terminal Status.matched = true
is_terminal Status.expired = true
is_terminal Status.rejected = true
is_terminal Status.failed = true
is_terminal Status.terminal_unknown = true
is_terminal _ = false

-- the states of an order that may still trade, `cancel_requested` left aside
unfoldable pub is_due : Status → Bool
is_due Status.resting = true
is_due Status.live = true
is_due Status.delayed = true
is_due Status.unmatched = true
is_due Status.simulated = true
is_due _ = false

-- the states that `tracked_open_orders` and `active_reserved_usd` select
unfoldable pub is_tracked : Status → Bool
is_tracked Status.resting = true
is_tracked Status.live = true
is_tracked Status.delayed = true
is_tracked Status.unmatched = true
is_tracked Status.simulated = true
is_tracked Status.cancel_requested = true
is_tracked _ = false

-- the states of an exit order that still holds tokens
unfoldable pub is_active_exit : Status → Bool
is_active_exit Status.resting = true
is_active_exit Status.live = true
is_active_exit Status.delayed = true
is_active_exit Status.unmatched = true
is_active_exit Status.cancel_requested = true
is_active_exit _ = false

unfoldable pub is_failed : Status → Bool
is_failed Status.failed = true
is_failed _ = false

unfoldable pub is_simulated : Status → Bool
is_simulated Status.simulated = true
is_simulated _ = false

unfoldable pub is_matched : Status → Bool
is_matched Status.matched = true
is_matched _ = false

unfoldable pub is_terminal_unknown : Status → Bool
is_terminal_unknown Status.terminal_unknown = true
is_terminal_unknown _ = false

-- the states of a new order that is recorded as fully matched
unfoldable pub is_matched_or_filled : Status → Bool
is_matched_or_filled Status.matched = true
is_matched_or_filled Status.filled = true
is_matched_or_filled _ = false

abbrev pub is_buy : Side → Bool
is_buy Side.buy = true
is_buy Side.sell = false

abbrev pub is_entry : Role → Bool
is_entry Role.entry_role = true
is_entry Role.exit_role = false

abbrev pub is_exit : Role → Bool
is_exit Role.entry_role = false
is_exit Role.exit_role = true

abbrev pub same_outcome : Outcome → Outcome → Bool
same_outcome Outcome.up Outcome.up = true
same_outcome Outcome.down Outcome.down = true
same_outcome _ _ = false
