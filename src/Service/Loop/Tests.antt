-- ===== src/Service/Loop/Tests.antt =====
-- Runs of the loop: a tick behind a shut gate, a block, and a run that is stopped.
use polymarket_event_quant.Base.{
  ◌≡◌, refl, true, false, some, List, [], ◌∷◌, Result, ok, err, suc, any,
}
use polymarket_event_quant.Base.Text.{codes, to_upper}
use polymarket_event_quant.Exchange.{Exc}
use polymarket_event_quant.Exchange.Orders.{cancel_orders}
use polymarket_event_quant.Geoblock.{
  GeoblockReply, is_api_trading_blocked, run_checks, new_geoblock_worker,
}
use polymarket_event_quant.Geoblock.Blocked.{is_block}
use polymarket_event_quant.Database.Queries.{due_open_orders, tracked_open_orders}
use polymarket_event_quant.Service.Monad.{◌>>=◌}
use polymarket_event_quant.Service.Loop.{
  Inbox, Times, Polls, tick, tick_first, drain_market_activation_updates, drain_geoblock_updates,
  tick_drains,
}
use polymarket_event_quant.Service.Loop.Gates.{block_stops_tick, Raises}
use polymarket_event_quant.Service.Loop.Closed.{run-IsClosed, IsClosed}
use polymarket_event_quant.Service.Loop.Process.{
  run, is_interrupted, run_ticks, run_rest, shut_down,
}
use polymarket_event_quant.Service.Placement.Tests.{desk, queued}
use polymarket_event_quant.Fixtures.{client, settings, bot}
use polymarket_event_quant.Service.Reconcile.{drain_reconciliation_updates, apply_updates}
use polymarket_event_quant.Service.Stream.{drain_user_stream_updates, apply_stream}
use polymarket_event_quant.Service.Cancel.{
  cancel_due_orders, cancel_tracked_orders, classify_cancel_result,
}
use polymarket_event_quant.Database.{start_run, stop_run, event, mark_orders}
use polymarket_event_quant.Models.Statuses.{is_due, is_tracked}

-- the service is out of reach at first, and then blocks
abbrev answers : List (Result Exc GeoblockReply)
answers =
    err "ConnectionError: no route"
    ∷ ok (record { blocked = true; country = some (codes "US") })
    ∷ []

-- a block that does not hold for the interface
exempt : is_api_trading_blocked (record { blocked = true; country = some (codes "nl") }) ≡ false
unfolding is_api_trading_blocked to_upper
exempt = refl

blocks : any is_block answers ≡ true
unfolding is_api_trading_blocked to_upper
blocks = refl

abbrev inbox : Inbox
inbox = record {
  activation = [];
  reconciled = [];
  stream = [];
  geoblock = (run_checks answers new_geoblock_worker).updates;
  geoblock_healthy = false;
  user_stream_healthy = true;
  submit_taken = true;
  discovered = ok [];
  now_ts = 150;
  monotonic_ms = 9_000;
}

abbrev quiet : Inbox
quiet = record inbox { geoblock = [] }

abbrev polls : Polls
polls = record { order_poll_ms = 5_000; discovery_ms = 10_000 }

abbrev times : Times
times = record { last_discovery = 0; last_reconcile = 0 }

block_stops_tick_example :
    Raises (tick client desk settings polls inbox times queued).0
    × ((tick client desk settings polls inbox times queued).1
        ≡ ((tick_drains client settings polls inbox >>= λ _.
              drain_geoblock_updates settings inbox.now_ts inbox.geoblock)
            queued).1)
block_stops_tick_example =
    block_stops_tick client desk settings polls inbox times queued answers new_geoblock_worker refl
      blocks refl

-- one quiet tick, and a stop
returns :
    (run client desk settings polls "live" "{}" 140 ((quiet, true) ∷ []) quiet bot).1.0 ≡ ok tt
unfolding run run_rest run_ticks tick tick_first drain_market_activation_updates
    drain_reconciliation_updates apply_updates drain_user_stream_updates apply_stream
    drain_geoblock_updates cancel_due_orders due_open_orders cancel_tracked_orders shut_down
    start_run stop_run event mark_orders is_due tracked_open_orders is_tracked cancel_orders
    classify_cancel_result
returns = refl

run-IsClosed_example :
    IsClosed client
      (suc bot.db.last_run_id)
      (is_interrupted
        (run client desk settings polls "live" "{}" 140 ((quiet, true) ∷ []) quiet bot).0)
      (run client desk settings polls "live" "{}" 140 ((quiet, true) ∷ []) quiet bot).1.1.db
run-IsClosed_example =
    run-IsClosed client desk settings polls "live" "{}" 140 ((quiet, true) ∷ []) quiet bot returns
