-- ===== src/Service/Loop/Process.antt =====
-- service.py: `run`, the loop of the ticks and the `finally` that follows it. A stop is read after a
-- tick, where the loop reads it; an interrupt in the middle of a handler is not modelled.
use polymarket_event_quant.Base.{
  ℕ, String, Bool, true, false, Option, none, some, List, [], ◌∷◌, Result, ok, err, if◌then◌else◌,
  find, ◌==◌,
}
use polymarket_event_quant.Database.{Db, Run, RunStatus, start_run, stop_run, event}
use polymarket_event_quant.Exchange.{Exc}
use polymarket_event_quant.Exchange.Client.{Client}
use polymarket_event_quant.Service.{Bot, Settings}
use polymarket_event_quant.Service.Monad.{Action, ◌>>=◌, ◌>>◌, pure, modify, log}
use polymarket_event_quant.Service.Reconcile.{drain_reconciliation_updates}
use polymarket_event_quant.Service.Cancel.{cancel_tracked_orders}
use polymarket_event_quant.Service.Placement.Steps.{Desk}
use polymarket_event_quant.Service.Loop.{
  Inbox, Times, Polls, tick, if_live, drain_stream, drain_market_activation_updates,
}

-- how the loop of `run` ends: not yet, by Ctrl+C after a tick, or by an exception
pub data End : Type 0 where
  going interrupted : End
  failed : Exc → End

abbrev pub is_interrupted : End → Bool
is_interrupted interrupted = true
is_interrupted going = false
is_interrupted (failed e) = false

-- `SELECT status FROM runs WHERE id=?`, compared with "running"
abbrev pub is_running : Option Run → Bool
is_running none = false
is_running (some r) = elim r.status [ RunStatus.running ↦ true | _ ↦ false ]

abbrev pub run_row : ℕ → Db → Option Run
run_row run_id db = find (λ r. r.id == run_id) db.runs

module _ (client : Client) (desk : Desk) (settings : Settings) (polls : Polls) where
  -- a tick, and whether a stop came in during it
  unfoldable pub run_ticks : List (Inbox × Bool) → Times → Bot → End × Bot
  run_ticks [] times b = (going, b)
  run_ticks ((i, stop) ∷ rounds) times b =
      let (r, b') = tick client desk settings polls i times b in
      elim r [
        | err e ↦ (failed e, b')
        | ok times' ↦ if stop then (interrupted, b') else run_ticks rounds times' b'
      ]

  -- a failed run is recorded before anything is stopped
  abbrev pub record_end : ℕ → End → Action (Unit {0})
  record_end now (failed e) =
      modify (stop_run now settings.run_id RunStatus.failed (some e))
      >> log now settings.run_id "ERROR" "run_failed" none
  record_end now going = pure tt
  record_end now interrupted = pure tt

  abbrev pub stop_if_running : ℕ → Action (Unit {0})
  stop_if_running now b =
      (if is_running (run_row settings.run_id b.db)
          then modify (stop_run now settings.run_id RunStatus.stopped none)
          else pure tt)
        b

  abbrev pub drain_stream_last : Inbox → Action (Unit {0})
  drain_stream_last i = drain_stream client settings polls i >>= λ _. pure tt

  abbrev pub cancel_if : ℕ → Bool → Action (Unit {0})
  cancel_if now true = cancel_tracked_orders client settings now
  cancel_if now false = pure tt

  abbrev pub last_drains : Inbox → Action (Unit {0})
  last_drains i =
      (if settings.activation
        then drain_market_activation_updates settings i.now_ts i.activation
        else pure tt)
      >> if_live client settings polls
          (drain_reconciliation_updates settings i.now_ts client i.reconciled)
      >> drain_stream_last i

  abbrev pub close_run : ℕ → Bool → Action (Unit {0})
  close_run now by_stop = cancel_if now by_stop >> stop_if_running now

  -- the `finally` of `run`: the last updates, the cancels of a stop, and the row of the run
  unfoldable pub shut_down : Inbox → End → Action (Unit {0})
  shut_down i end = last_drains i >> close_run i.now_ts (is_interrupted end)

  -- the loop and what follows it, in a run whose row is there
  unfoldable pub run_rest :
      List (Inbox × Bool) → Inbox → Times → Bot → End × (Result Exc (Unit {0}) × Bot)
  run_rest rounds last times b =
      let (end, b') = run_ticks rounds times b in
      (end, (record_end last.now_ts end >> shut_down last end) b')

-- the row of the run, its event, and the loop
unfoldable pub run :
    Client
    → Desk
    → Settings
    → Polls
    → String
    → String
    → ℕ
    → List (Inbox × Bool)
    → Inbox
    → Bot
    → End × (Result Exc (Unit {0}) × Bot)
run client desk settings polls mode plan_json now rounds last b =
    let (db, run_id) = start_run now mode plan_json b.db in
    let s = record settings { run_id = run_id } in
    run_rest client desk s polls rounds last (record { last_discovery = 0; last_reconcile = 0 })
      (record b { db = event now (some run_id) "INFO" "run_started" none db })
