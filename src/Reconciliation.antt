-- ===== src/Reconciliation.antt =====
-- reconciliation.py: one round of `ReconciliationWorker`, `_fetch` and `_resolve`. The requests of
-- a round are numbered from its first call; whether `stop()` has come is read at each point where
-- the code reads it.
pub mod Round
use polymarket_event_quant.Base.{
  ℕ, suc, ◌+◌, String, Bool, true, false, not, ◌&&◌, Option, none, some, List, [], ◌∷◌, ◌++◌,
  str_eq, Result, ok, err, if◌then◌else◌, length,
}
use polymarket_event_quant.Base.Text.{codes}
use polymarket_event_quant.Base.Decimal.{Decimal}
use polymarket_event_quant.Exchange.{Exc, RawOrder, Number, value, raw_order_id}
use polymarket_event_quant.Exchange.Client.{Client}
use polymarket_event_quant.Models.Statuses.{is_simulated}
use polymarket_event_quant.Database.Queries.{Joined}

pub record Snapshot : Type 0 where
  pub order_id : String
  pub slug : String
  pub size : Decimal

pub record ReconciledOrder : Type 0 where
  pub snapshot : Snapshot
  pub raw : Option RawOrder
  pub error : Option Exc

pub record ReconciliationUpdate : Type 0 where
  pub orders : List ReconciledOrder
  pub batch_error : Option Exc
  pub open_rows : List RawOrder

-- the snapshots that `submit` takes of the rows
abbrev pub snapshots : List Joined → List Snapshot
snapshots [] = []
snapshots (j ∷ js) =
    if is_simulated j.row.status
    then snapshots js
    else record { order_id = j.row.order_id; slug = j.row.slug; size = j.row.size } ∷ snapshots js

-- `open_by_id.get(order_id)`: a later row of the same id replaces an earlier one
unfoldable pub open_by_id : String → List RawOrder → Option RawOrder
open_by_id i [] = none
open_by_id i (raw ∷ raws) = elim (open_by_id i raws) [
  | some later ↦ some later
  | none ↦ elim (raw_order_id raw) [ none ↦ none | some k ↦ if str_eq k i then some raw else none ]
]

abbrev no_fields : RawOrder
no_fields = record {
  id = none;
  order_id_upper = none;
  order_id_camel = none;
  asset_id = none;
  asset_id_camel = none;
  market = none;
  price = none;
  original_size = none;
  original_size_camel = none;
  size = none;
  size_matched = none;
  size_matched_camel = none;
  matched_size = none;
  side = none;
  status = none;
  type_name = none;
  account = none;
  json = "";
}

-- {"id": order_id, "status": "terminal_unknown", "size_matched": "0"}
abbrev pub gone : String → RawOrder
gone i = record no_fields {
  id = some i;
  status = some (codes "terminal_unknown");
  size_matched = some (value 0);
}

abbrev pub resolved : Snapshot → RawOrder → ReconciledOrder
resolved s raw = record { snapshot = s; raw = some raw; error = none }

abbrev pub failed_read : Snapshot → Exc → ReconciledOrder
failed_read s e = record { snapshot = s; raw = none; error = some e }

abbrev pub resolve_read : Snapshot → Bool → Result Exc (Option RawOrder) → Option ReconciledOrder
resolve_read s retire (ok (some raw)) = some (resolved s raw)
resolve_read s true (ok none) = some (resolved s (gone s.order_id))
resolve_read s false (ok none) = none
resolve_read s retire (err e) = some (failed_read s e)

module _ (client : Client) where
  -- `_resolve`: with the row of the open orders if it is there, else a direct read
  unfoldable pub resolve : ℕ → Snapshot → Option RawOrder → Bool → Option ReconciledOrder
  resolve call s (some raw) retire = some (resolved s raw)
  resolve call s none retire = resolve_read s retire (client.get_order call s.order_id)

  abbrev pub add_resolved :
      Snapshot
      → Option ReconciledOrder
      → List ReconciledOrder × List Snapshot
      → List ReconciledOrder × List Snapshot
  add_resolved s none (results, missing) = (results, s ∷ missing)
  add_resolved s (some o) (results, missing) = (o ∷ results, missing)

  -- the first loop: what resolves, and what the venue does not show
  unfoldable pub first_pass :
      ℕ → List RawOrder → List Snapshot → List ReconciledOrder × List Snapshot
  first_pass call raws [] = ([], [])
  first_pass call raws (s ∷ ss) =
      add_resolved s (resolve call s (open_by_id s.order_id raws) false)
        (first_pass (suc call) raws ss)

  abbrev keep_resolved : Option ReconciledOrder → List ReconciledOrder → List ReconciledOrder
  keep_resolved none rest = rest
  keep_resolved (some o) rest = o ∷ rest

  -- the second loop, after the pause; `stops n` says whether a stop has come before its n-th read
  unfoldable pub second_pass : (ℕ → Bool) → ℕ → List Snapshot → List ReconciledOrder
  second_pass stops call [] = []
  second_pass stops call (s ∷ ss) =
      let rest = second_pass (λ n. stops (suc n)) (suc call) ss in
      if stops 0 then [] else keep_resolved (resolve call s none true) rest

  abbrev fetched :
      Bool → (ℕ → Bool) → ℕ → List Snapshot → Result Exc (List RawOrder) → ReconciliationUpdate
  fetched stopped stops call ss (err e) = record {
    orders = [];
    batch_error = some e;
    open_rows = [];
  }
  fetched stopped stops call ss (ok raws) =
      let (results, missing) = first_pass call raws ss in
      record {
        orders = results ++ (if stopped then [] else second_pass stops (call + length ss) missing);
        batch_error = none;
        open_rows = raws;
      }

  -- `_fetch`; `stopped` is what the pause for the missing orders returns
  unfoldable pub fetch : Bool → (ℕ → Bool) → ℕ → List Snapshot → ReconciliationUpdate
  fetch stopped stops call ss =
      fetched stopped stops (suc call) ss (client.get_open_orders call none)
