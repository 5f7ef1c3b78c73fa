-- ===== src/Service/Loop.antt =====
-- service.py: `run`, `_tick`, `_drain_market_activation_updates`, `_drain_geoblock_updates` and
-- `_discover_and_place`. What a tick finds in the queues of the workers, and the clocks, are its
-- inputs; the threads of the workers run beside it.
pub mod Closed
pub mod Gates
pub mod Process
mod Tests
use polymarket_event_quant.Base.{
  ℕ, ◌-◌, String, Bool, true, false, not, ◌&&◌, ◌||◌, Option, none, some, List, [], ◌∷◌, ◌++◌, leb,
  Result, ok, err, if◌then◌else◌, find, ◌==◌,
}
use polymarket_event_quant.Base.Concat
use polymarket_event_quant.Models.{Market}
use polymarket_event_quant.Database.{Db, Run, RunStatus, start_run, stop_run, event}
use polymarket_event_quant.Exchange.{Exc}
use polymarket_event_quant.Exchange.Client.{Client}
use polymarket_event_quant.Geoblock.{GeoblockUpdate}
use polymarket_event_quant.Reconciliation.{ReconciliationUpdate}
use polymarket_event_quant.Service.{Bot, Settings, ActivationUpdate}
use polymarket_event_quant.Service.Monad.{Action, ◌>>=◌, ◌>>◌, pure, raise, modify, log}
use polymarket_event_quant.Service.Reconcile.{drain_reconciliation_updates, reconcile}
use polymarket_event_quant.Service.Stream.{Drained, drain_user_stream_updates}
use polymarket_event_quant.Service.Cancel.{cancel_due_orders, cancel_tracked_orders}
use polymarket_event_quant.Service.Placement.{place_activated_markets, consider_market}
use polymarket_event_quant.Service.Placement.Steps.{Desk, Trigger}

-- MarketActivationState, or an update of a market
pub data ActivationDrained : Type 0 where
  state : Bool → Option Exc → ActivationDrained
  market_update : ActivationUpdate → ActivationDrained

-- what one tick finds: the drained queues, the health of the two workers that gate placements,
-- whether the reconciliation worker takes a snapshot, the markets of a discovery, and the clocks
pub record Inbox : Type 0 where
  pub activation : List ActivationDrained
  pub reconciled : List ReconciliationUpdate
  pub stream : List Drained
  pub geoblock : List GeoblockUpdate
  pub geoblock_healthy : Bool
  pub user_stream_healthy : Bool
  pub submit_taken : Bool
  pub discovered : Result Exc (List Market)
  pub now_ts : ℕ
  pub monotonic_ms : ℕ

-- `last_discovery` and `last_reconcile`
pub record Times : Type 0 where
  pub last_discovery : ℕ
  pub last_reconcile : ℕ

-- `order_poll_seconds` and `discovery_seconds`, in milliseconds
pub record Polls : Type 0 where
  pub order_poll_ms : ℕ
  pub discovery_ms : ℕ

abbrev pub blocked_text : Exc
blocked_text = "RuntimeError: trading blocked"

module _ (settings : Settings) where
  abbrev pub activation_word : Bool → String × String
  activation_word true = ("INFO", "market_activation_connected")
  activation_word false = ("ERROR", "market_activation_disconnected")

  abbrev pub queue_market : ActivationUpdate → Action (Unit {0})
  queue_market u b =
      (ok tt, record b { activation_market_updates = b.activation_market_updates ++ u ∷ [] })

  unfoldable pub drain_market_activation_updates : ℕ → List ActivationDrained → Action (Unit {0})
  drain_market_activation_updates now [] = pure tt
  drain_market_activation_updates now (state healthy error ∷ us) =
      log now settings.run_id (activation_word healthy).0 (activation_word healthy).1 none
      >> drain_market_activation_updates now us
  drain_market_activation_updates now (market_update u ∷ us) =
      queue_market u >> drain_market_activation_updates now us

  abbrev pub note_available : ℕ → GeoblockUpdate → Action (Unit {0})
  note_available now u =
      if u.recovered
      then log now settings.run_id "INFO" "geoblock_check_recovered" none
      else pure tt

  abbrev pub note_update : ℕ → GeoblockUpdate → Action (Unit {0})
  note_update now u =
      if u.available
      then note_available now u
      else log now settings.run_id "ERROR" "geoblock_check_failed" none

  -- a block ends the loop; a check that failed is only noted
  unfoldable pub drain_geoblock_updates : ℕ → List GeoblockUpdate → Action (Unit {0})
  drain_geoblock_updates now [] = pure tt
  drain_geoblock_updates now (u ∷ us) =
      if u.blocked
      then log now settings.run_id "ERROR" "geoblocked" none >> raise blocked_text
      else note_update now u >> drain_geoblock_updates now us

module _ (client : Client) (settings : Settings) (polls : Polls) where
  abbrev pub reconcile_due : Bool → ℕ → Times → Bool
  reconcile_due stream_recovered now_ms times =
      stream_recovered || leb polls.order_poll_ms (now_ms - times.last_reconcile)

  -- live, the worker takes a snapshot of the open orders unless it is busy
  abbrev pub reconcile_step : Inbox → Times → Bool → Action Times
  reconcile_step i times stream_recovered =
      if not (reconcile_due stream_recovered i.monotonic_ms times)
      then pure times
      else if settings.live
      then pure (if i.submit_taken then record times { last_reconcile = i.monotonic_ms } else times)
      else reconcile settings i.now_ts client
        >> pure (record times { last_reconcile = i.monotonic_ms })

  -- a dry run has no workers, and nothing to drain
  abbrev pub if_live : Action (Unit {0}) → Action (Unit {0})
  if_live m = if settings.live then m else pure tt

  abbrev pub drain_stream : Inbox → Action Bool
  drain_stream i =
      if settings.live
      then drain_user_stream_updates settings i.now_ts client i.stream
      else pure false

  abbrev pub tick_drains : Inbox → Action Bool
  tick_drains i =
      (if settings.activation
        then drain_market_activation_updates settings i.now_ts i.activation
        else pure tt)
      >> if_live (drain_reconciliation_updates settings i.now_ts client i.reconciled)
      >> drain_stream i

  abbrev pub tick_rest : Inbox → Times → Bool → Action Times
  tick_rest i times recovered =
      if_live (drain_geoblock_updates settings i.now_ts i.geoblock)
      >> cancel_due_orders client settings i.now_ts
      >> reconcile_step i times recovered

  -- what a tick does before it may place
  unfoldable pub tick_first : Inbox → Times → Action Times
  tick_first i times = tick_drains i >>= tick_rest i times

module _ (client : Client) (desk : Desk) (settings : Settings) (polls : Polls) where
  abbrev pub go_on_gamma : Action (Unit {0}) → Bool → Action (Unit {0})
  go_on_gamma rest true = rest
  go_on_gamma rest false = pure tt

  -- the loop over the discovered markets
  unfoldable pub consider_discovered : ℕ → List Market → Action (Unit {0})
  consider_discovered now [] = pure tt
  consider_discovered now (m ∷ ms) =
      consider_market desk settings now m Trigger.gamma false none
      >>= go_on_gamma (consider_discovered now ms)

  abbrev pub discover_and_place : ℕ → Result Exc (List Market) → Action (Unit {0})
  discover_and_place now (err e) = log now settings.run_id "ERROR" "discovery_failed" none
  discover_and_place now (ok markets) = consider_discovered now markets

  abbrev pub is_healthy : Inbox → Bool
  is_healthy i = not settings.live || (i.geoblock_healthy && i.user_stream_healthy)

  -- `rearmed` is a last discovery at 0
  abbrev pub discovered_at : Times → Bool → ℕ
  discovered_at times rearmed = if rearmed then 0 else times.last_discovery

  abbrev pub discovery_due : Inbox → Times → Bot → Bool
  discovery_due i times b =
      is_healthy i
      && (not settings.activation
          && leb polls.discovery_ms (i.monotonic_ms - discovered_at times b.rearmed))

  abbrev pub set_discovered : ℕ → Times → Action Times
  set_discovered now_ms times b =
      (ok (record times { last_discovery = now_ms }), record b { rearmed = false })

  abbrev pub discovery_step : Inbox → Times → Action Times
  discovery_step i times b =
      (if discovery_due i times b
          then discover_and_place i.now_ts i.discovered >> set_discovered i.monotonic_ms times
          else pure times)
        b

  abbrev pub place_step : Inbox → Action (Unit {0})
  place_step i = if is_healthy i then place_activated_markets desk settings i.now_ts else pure tt

  abbrev pub tick_places : Inbox → Times → Action Times
  tick_places i times = place_step i >> discovery_step i times

  unfoldable pub tick : Inbox → Times → Action Times
  tick i times = tick_first client settings polls i times >>= tick_places i
