-- ===== src/Service/Reconcile.antt =====
-- service.py: `_drain_reconciliation_updates`, and `_reconcile`, which runs where there is no worker.
pub mod Progress
mod Tests
use polymarket_event_quant.Base.{
  ℕ, ◌+◌, ◌<◌, String, Bool, true, false, not, ◌&&◌, ◌||◌, Option, none, some, List, [], ◌∷◌, max,
  ltb, leb, ◌==◌, Result, ok, err, if◌then◌else◌,
}
use polymarket_event_quant.Base.Decimal.{Decimal}
use polymarket_event_quant.Models.{Status, buy_only}
use polymarket_event_quant.Models.Statuses.{
  is_terminal, is_matched, is_terminal_unknown, is_simulated, is_entry,
}
use polymarket_event_quant.Database.{Db, OrderRow, update_order}
use polymarket_event_quant.Database.Queries.{Joined, order, tracked_open_orders}
use polymarket_event_quant.Exchange.{Exc, RawOrder, normalize_order}
use polymarket_event_quant.Exchange.Client.{Client}
use polymarket_event_quant.Reconciliation.{
  Snapshot, ReconciledOrder, ReconciliationUpdate, open_by_id, gone,
}
use polymarket_event_quant.Service.{Bot, Settings}
use polymarket_event_quant.Service.Monad.{Action, ◌>>=◌, ◌>>◌, pure, gets, modify, request, log}
use polymarket_event_quant.Service.Adopt.{adopt_unknown_open_orders, lift}
use polymarket_event_quant.Service.Exits.{place_missing_exits}

abbrev pub fresh_order_grace_seconds : ℕ
fresh_order_grace_seconds = 60

-- the two flags that the loop raises
pub record Flags : Type 0 where
  pub rearm_discovery : Bool
  pub order_changed : Bool

abbrev pub no_flags : Flags
no_flags = record { rearm_discovery = false; order_changed = false }

abbrev pub is_zero : Decimal → Bool
is_zero n = n == 0

-- an order that the venue does not show, too young to be given up
abbrev pub in_grace : ℕ → OrderRow → Status → Bool
in_grace now row status =
    is_terminal_unknown status
    && (not (is_terminal row.status) && ltb now (row.created_ts + fresh_order_grace_seconds))

abbrev pub filled_if_whole : Status → Decimal → Decimal → Status
filled_if_whole status matched size =
    if is_matched status && leb size matched then Status.filled else status

-- the state that is written: a terminal state is left only for another
abbrev pub next_status : OrderRow → Status → Decimal → Decimal → Status
next_status row status matched size =
    let s = filled_if_whole status matched size in
    if is_terminal row.status && not (is_terminal s) then row.status else s

abbrev pub next_flags : OrderRow → Status → Decimal → Flags → Flags
next_flags row status matched flags = record {
  order_changed = (is_entry row.role && ltb row.matched_size matched) || flags.order_changed;
  rearm_discovery =
      (not (is_terminal row.status) && (is_terminal status && is_zero matched))
      || flags.rearm_discovery;
}

module _ (settings : Settings) (now : ℕ) where
  abbrev apply_state :
      ReconciledOrder → OrderRow → RawOrder → Flags → Status × Decimal → Action Flags
  apply_state o row raw flags (status, matched) =
      if in_grace now row status
      then pure flags
      else (let more = max matched row.matched_size in
          let s = next_status row status more o.snapshot.size in
          modify (update_order now o.snapshot.order_id s more raw.json)
          >> pure (next_flags row s more flags))

  abbrev apply_raw :
      ReconciledOrder → OrderRow → Flags → Option Exc → Option RawOrder → Action Flags
  apply_raw o row flags none (some raw) = lift (normalize_order raw) >>= apply_state o row raw flags
  apply_raw o row flags error raw =
      log now settings.run_id "WARNING" "order_reconcile_failed" (some o.snapshot.slug)
      >> pure flags

  abbrev apply_row : ReconciledOrder → Flags → Option OrderRow → Action Flags
  apply_row o flags none = pure flags
  apply_row o flags (some row) = apply_raw o row flags o.error o.raw

  -- the body of the loop over the results
  pub apply_reconciled : ReconciledOrder → Flags → Action Flags
  apply_reconciled o flags = gets (order o.snapshot.order_id) >>= apply_row o flags

  pub apply_all : List ReconciledOrder → Flags → Action Flags
  apply_all [] flags = pure flags
  apply_all (o ∷ os) flags = apply_reconciled o flags >>= λ f. apply_all os f

  abbrev adopted_flag : Flags → ℕ → Flags
  adopted_flag flags n = record flags { order_changed = ltb 0 n || flags.order_changed }

  -- `_adopt_unknown_open_orders(update.open_rows) > 0 or order_changed`
  pub adopt_open_rows : List RawOrder → Flags → Action Flags
  adopt_open_rows [] flags b = (ok flags, b)
  adopt_open_rows (raw ∷ raws) flags b =
      let (n, b') = adopt_unknown_open_orders settings now (raw ∷ raws) b in
      (ok (adopted_flag flags n), b')

  abbrev apply_batch : ReconciliationUpdate → Flags → Option Exc → Action Flags
  apply_batch u flags (some e) =
      log now settings.run_id "WARNING" "order_batch_reconcile_failed" none >> pure flags
  apply_batch u flags none = adopt_open_rows u.open_rows flags >>= apply_all u.orders

  -- the loop over the drained updates
  unfoldable pub apply_updates : List ReconciliationUpdate → Flags → Action Flags
  apply_updates [] flags = pure flags
  apply_updates (u ∷ us) flags = apply_batch u flags u.batch_error >>= λ f. apply_updates us f

  module _ (client : Client) where
    abbrev rearm : Flags → Action (Unit {0})
    rearm flags b = (
      ok tt,
      if flags.rearm_discovery && not settings.activation then record b { rearmed = true } else b,
    )

    abbrev exits_if_changed : Flags → Action (Unit {0})
    exits_if_changed flags =
        if flags.order_changed && (settings.live && not (buy_only settings.plan))
        then place_missing_exits client settings now
        else pure tt

    unfoldable pub drain_reconciliation_updates : List ReconciliationUpdate → Action (Unit {0})
    drain_reconciliation_updates us =
        apply_updates us no_flags >>= λ flags. rearm flags >> exits_if_changed flags

    -- `_reconcile`: simulated orders expire with their market
    abbrev expire_simulated : Joined → Action (Unit {0})
    expire_simulated j =
        if leb j.market.market.end_ts now
        then modify (update_order now j.row.order_id Status.expired 0 "{\"dry_run\":true}")
        else pure tt

    pub expire_all : List Joined → Action (Unit {0})
    expire_all [] = pure tt
    expire_all (j ∷ js) =
        (if is_simulated j.row.status then expire_simulated j else pure tt) >> expire_all js

    abbrev live_rows : List Joined → List Joined
    live_rows [] = []
    live_rows (j ∷ js) = if is_simulated j.row.status then live_rows js else j ∷ live_rows js

    -- the row of the open orders, or a direct read, or the mark of a missing order
    abbrev read_state : Joined → List RawOrder → Action (Result Exc (Option RawOrder))
    read_state j raws b = elim (open_by_id j.row.order_id raws) [
      | some raw ↦ (ok (ok (some raw)), b)
      | none ↦ request (λ call. client.get_order call j.row.order_id) b
    ]

    abbrev shown : Joined → Option RawOrder → RawOrder
    shown j (some raw) = raw
    shown j none = gone j.row.order_id

    abbrev write_state : Joined → RawOrder → Result Exc (Status × Decimal) → Action (Unit {0})
    write_state j raw (err e) =
        log now settings.run_id "WARNING" "order_reconcile_failed" (some j.row.slug)
    write_state j raw (ok (status, matched)) =
        let s = filled_if_whole status matched j.row.size in
        if in_grace now j.row s
        then pure tt
        else modify (update_order now j.row.order_id s matched raw.json)

    abbrev write_read : Joined → Result Exc (Option RawOrder) → Action (Unit {0})
    write_read j (err e) =
        log now settings.run_id "WARNING" "order_reconcile_failed" (some j.row.slug)
    write_read j (ok found) = write_state j (shown j found) (normalize_order (shown j found))

    pub reconcile_rows : List RawOrder → List Joined → Action (Unit {0})
    reconcile_rows raws [] = pure tt
    reconcile_rows raws (j ∷ js) = read_state j raws >>= write_read j >> reconcile_rows raws js

    abbrev exits_if_live : Action (Unit {0})
    exits_if_live =
        if settings.live && not (buy_only settings.plan)
        then place_missing_exits client settings now
        else pure tt

    -- a failed read of the open orders ends the call
    abbrev with_open : List Joined → Result Exc (List RawOrder) → Action (Unit {0})
    with_open js (err e) = log now settings.run_id "WARNING" "order_batch_reconcile_failed" none
    with_open js (ok raws) = reconcile_rows raws js >> exits_if_live

    abbrev reconcile_live : List Joined → Action (Unit {0})
    reconcile_live [] = exits_if_live
    reconcile_live (j ∷ js) =
        if settings.live
        then request (λ call. client.get_open_orders call none) >>= with_open (j ∷ js)
        else pure tt

    pub reconcile : Action (Unit {0})
    reconcile = gets tracked_open_orders >>= λ tracked.
        expire_all tracked >> reconcile_live (live_rows tracked)
