-- ===== src/Service/Loop/Closed.antt =====
-- What a run leaves behind when it has been shut down.
use polymarket_event_quant.Base.{
  ℕ, String, ◌≡◌, refl, Bool, true, false, Option, none, List, [], ◌∷◌, ok, arith, if◌then◌else◌,
  find, ◌==◌, map, Bool-cases, inl, inr, suc, ◌⊎◌,
}
use polymarket_event_quant.Database.{Db, Run, RunStatus, stop_run, stop_row, start_run}
use polymarket_event_quant.Exchange.Client.{Client}
use polymarket_event_quant.Service.{Bot, Settings}
use polymarket_event_quant.Service.Monad.{pure, modify}
use polymarket_event_quant.Service.Monad.Ends.{bind-outcome}
use polymarket_event_quant.Service.Placement.Steps.{Desk}
use polymarket_event_quant.Service.Cancel.Shutdown.{cancel_tracked_orders-IsAsked, IsAsked}
use polymarket_event_quant.Service.Loop.{Inbox, Times, Polls}
use polymarket_event_quant.Service.Loop.Process.{
  End, run_rest, run_ticks, shut_down, stop_if_running, is_running, run_row, record_end, cancel_if,
  is_interrupted, last_drains, close_run, run,
}

abbrev is_run : ℕ → Run → Bool
is_run run_id r = r.id == run_id

stop_row-running :
    (now run_id : ℕ) (message : Option String) (runs : List Run)
    → is_running (find (is_run run_id) (map (stop_row now run_id RunStatus.stopped message) runs))
      ≡ false
stop_row-running now run_id message [] = refl
stop_row-running now run_id message (r ∷ runs) = elim (Bool-cases (r.id == run_id)) [
  | inl e ↦ rw (e, e) refl
  | inr e ↦ rw (e, e) (stop_row-running now run_id message runs)
]

-- what a closed run has left: its row is not running, and where it was stopped, what is
-- open has been asked of the venue
abbrev pub IsClosed : Client → ℕ → Bool → Db → Type 0
IsClosed client run_id by_stop db =
    (is_running (run_row run_id db) ≡ false) × ((by_stop ≡ false) ⊎ (IsAsked client db))

module _ (client : Client) (desk : Desk) (settings : Settings) (polls : Polls) where
  stop_if-IsClosed :
      (now : ℕ) (by_stop running : Bool) (b : Bot)
      → is_running (run_row settings.run_id b.db) ≡ running
      → (by_stop ≡ false) ⊎ (IsAsked client b.db)
      → IsClosed client settings.run_id by_stop
          ((if running
              then modify (stop_run now settings.run_id RunStatus.stopped none)
              else pure tt)
            b).1.db
  unfolding stop_run
  stop_if-IsClosed now by_stop true b q h = (stop_row-running now settings.run_id none b.db.runs, h)
  stop_if-IsClosed now by_stop false b q h = (q, h)

  cancel_if-none :
      (now : ℕ) (by_stop : Bool) (b : Bot)
      → (by_stop ≡ false) ⊎ IsAsked client (cancel_if client desk settings polls now by_stop b).1.db
  cancel_if-none now true b = inr (cancel_tracked_orders-IsAsked client settings now b)
  cancel_if-none now false b = inl refl

  close_run-IsClosed :
      (now : ℕ) (by_stop : Bool) (b : Bot)
      → (close_run client desk settings polls now by_stop b).0 ≡ ok tt
      → IsClosed client settings.run_id by_stop
          (close_run client desk settings polls now by_stop b).1.db
  close_run-IsClosed now by_stop b =
      bind-outcome (λ end. end.0 ≡ ok tt → IsClosed client settings.run_id by_stop end.1.db)
        (cancel_if client desk settings polls now by_stop)
        (λ _. stop_if_running client desk settings polls now) b
        (λ _ p h.
          stop_if-IsClosed now by_stop _ (cancel_if client desk settings polls now by_stop b).1 refl
            (cancel_if-none now by_stop b))
        (λ e p h. absurd (grind arith))

  shut_down-IsClosed :
      (last : Inbox) (end : End) (b : Bot)
      → (shut_down client desk settings polls last end b).0 ≡ ok tt
      → IsClosed client settings.run_id
          (is_interrupted end)
          (shut_down client desk settings polls last end b).1.db
  unfolding shut_down
  shut_down-IsClosed last end b =
      bind-outcome (λ r. r.0 ≡ ok tt → IsClosed client settings.run_id (is_interrupted end) r.1.db)
        (last_drains client desk settings polls last)
        (λ _. close_run client desk settings polls last.now_ts (is_interrupted end)) b
        (λ _ p. close_run-IsClosed last.now_ts (is_interrupted end) _)
        (λ e p h. absurd (grind arith))

  run_rest-IsClosed :
      (rounds : List (Inbox × Bool)) (last : Inbox) (times : Times) (b : Bot)
      → (run_rest client desk settings polls rounds last times b).1.0 ≡ ok tt
      → IsClosed client settings.run_id
          (is_interrupted (run_rest client desk settings polls rounds last times b).0)
          (run_rest client desk settings polls rounds last times b).1.1.db
  unfolding run_rest
  run_rest-IsClosed rounds last times b =
      let (end, b') = run_ticks client desk settings polls rounds times b in
      bind-outcome (λ r. r.0 ≡ ok tt → IsClosed client settings.run_id (is_interrupted end) r.1.db)
        (record_end client desk settings polls last.now_ts end)
        (λ _. shut_down client desk settings polls last end) b'
        (λ _ p. shut_down-IsClosed last end _) (λ e p h. absurd (grind arith))

-- However the loop of a run ends, by a stop or by an exception in some tick, a run whose shut-down
-- returns is not left running in the table of runs. And after a stop, an order is left open, in a
-- known market, only where its cancel has been requested in a call of the client that names it, and
-- that call raised or its answer names the order neither as cancelled nor as ended before.
pub run-IsClosed :
    (client : Client) (desk : Desk) (settings : Settings) (polls : Polls) (mode plan_json : String)
    (now : ℕ) (rounds : List (Inbox × Bool)) (last : Inbox) (b : Bot)
    → (run client desk settings polls mode plan_json now rounds last b).1.0 ≡ ok tt
    → IsClosed client
        (suc b.db.last_run_id)
        (is_interrupted (run client desk settings polls mode plan_json now rounds last b).0)
        (run client desk settings polls mode plan_json now rounds last b).1.1.db
unfolding run start_run
run-IsClosed client desk settings polls mode plan_json now rounds last b =
    run_rest-IsClosed client desk (record settings { run_id = suc b.db.last_run_id }) polls rounds
      last _ _
