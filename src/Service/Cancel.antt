-- ===== src/Service/Cancel.antt =====
-- service.py: `_classify_cancel_result`, `_cancel_rows` without a fleet, `_cancel_due_orders` and
-- `_cancel_tracked_orders`. The clock is read in whole seconds.
pub mod Accounts
pub mod Due
pub mod Shutdown
mod Tests
use polymarket_event_quant.Base.{
  ℕ, ◌+◌, String, Bool, true, false, Option, none, some, List, [], ◌∷◌, map, ◌==◌, Result, ok, err,
  if◌then◌else◌, not,
}
use polymarket_event_quant.Models.{Status}
use polymarket_event_quant.Database.{mark_orders}
use polymarket_event_quant.Exchange.{Exc}
use polymarket_event_quant.Exchange.Client.{Client, CancelReply}
use polymarket_event_quant.Exchange.Orders.{cancel_orders}
use polymarket_event_quant.Service.{Bot, Settings}
use polymarket_event_quant.Service.Monad.{Action, ◌>>=◌, ◌>>◌, pure, gets, modify, request, log}
use polymarket_event_quant.Base.Text.{Text, codes, contains, lower}
use polymarket_event_quant.Database.Queries.{Joined, due_open_orders, tracked_open_orders}
use polymarket_event_quant.Database.{mark_orders}

abbrev pub already_ended : Text
already_ended = codes "already canceled or matched"

abbrev pub ended_ids : List (String × Text) → List String
ended_ids [] = []
ended_ids ((i, reason) ∷ rest) =
    if contains already_ended (lower reason) then i ∷ ended_ids rest else ended_ids rest

-- the ids done, and those refused since they ended before
unfoldable pub classify_cancel_result : Option CancelReply → List String × List String
classify_cancel_result none = ([], [])
classify_cancel_result (some r) =
    (r.canceled, elim r.not_canceled [ none ↦ [] | some refused ↦ ended_ids refused ])

abbrev pub order_ids_of : List Joined → List String
order_ids_of js = map (λ j. j.row.order_id) js

module _ (client : Client) (settings : Settings) (now : ℕ) where
  -- the marks of one answer, and its event
  abbrev pub after_cancel : String → String → Result Exc (Option CancelReply) → Action (Unit {0})
  after_cancel done failed (err e) = log now settings.run_id "ERROR" failed none
  after_cancel done failed (ok reply) =
      let (canceled_ids, terminal_unknown_ids) = classify_cancel_result reply in
      modify (mark_orders now canceled_ids Status.cancelled)
      >> modify (mark_orders now terminal_unknown_ids Status.terminal_unknown)
      >> log now settings.run_id "INFO" done none

  abbrev pub cancel_listed : String → String → List String → Action (Unit {0})
  cancel_listed done failed [] = pure tt
  cancel_listed done failed (i ∷ is) =
      if not settings.live
      then modify (mark_orders now (i ∷ is) Status.simulated_closed)
      else modify (mark_orders now (i ∷ is) Status.cancel_requested)
        >> request (λ call. cancel_orders client call (i ∷ is))
        >>= after_cancel done failed

  unfoldable pub cancel_due_orders : Action (Unit {0})
  cancel_due_orders =
      if settings.cancel_before_end_seconds == 0
      then pure tt
      else gets (due_open_orders (now + settings.cancel_before_end_seconds)) >>= λ due.
          cancel_listed "deadline_cancel" "deadline_cancel_failed" (order_ids_of due)

  -- at shutdown; a failure is only logged, and no event is written
  abbrev pub after_shutdown : Result Exc (Option CancelReply) → Action (Unit {0})
  after_shutdown (err e) = pure tt
  after_shutdown (ok reply) = after_cancel "shutdown_cancel" "" (ok reply)

  abbrev pub shutdown_listed : List String → Action (Unit {0})
  shutdown_listed [] = pure tt
  shutdown_listed (i ∷ is) =
      if not settings.live
      then modify (mark_orders now (i ∷ is) Status.simulated_closed)
      else modify (mark_orders now (i ∷ is) Status.cancel_requested)
        >> request (λ call. cancel_orders client call (i ∷ is))
        >>= after_shutdown

  unfoldable pub cancel_tracked_orders : Action (Unit {0})
  cancel_tracked_orders =
      gets tracked_open_orders >>= λ tracked. shutdown_listed (order_ids_of tracked)
