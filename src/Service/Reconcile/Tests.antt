-- ===== src/Service/Reconcile/Tests.antt =====
-- Tests of adoption and reconciliation.
use polymarket_event_quant.Base.{refl, none, [], ◌∷◌, All, false}
use polymarket_event_quant.Database.Queries.{order}
use polymarket_event_quant.Reconciliation.{Snapshot, ReconciliationUpdate, fetch, resolved, gone}
use polymarket_event_quant.Reconciliation.Round.{Justified, fetch-Justified}
use polymarket_event_quant.Service.Adopt.{adopt_unknown_open_orders}
use polymarket_event_quant.Service.Adopt.Ours.{Adopted, adoption_is_ours}
use polymarket_event_quant.Service.Reconcile.{apply_updates, no_flags}
use polymarket_event_quant.Service.Reconcile.Progress.{Progress, reconciliation_moves_forward}
use polymarket_event_quant.Fixtures.{client, settings, bot, raw_order, cents}

abbrev tracked : Snapshot
tracked = record { order_id = "e2"; slug = "btc-updown-5m-300"; size = cents 10000 }

adoption_is_ours_example :
    Adopted settings none
      (order "e9" (adopt_unknown_open_orders settings 400 (raw_order ∷ []) bot).1.db)
unfolding order
adoption_is_ours_example = adoption_is_ours settings 400 "e9" (raw_order ∷ []) bot

abbrev update : ReconciliationUpdate
update = record {
  orders = resolved tracked (gone "e2") ∷ [];
  batch_error = none;
  open_rows = raw_order ∷ [];
}

reconciliation_moves_forward_example :
    Progress
      (order "e2" bot.db)
      (order "e2" (apply_updates settings 400 (update ∷ []) no_flags bot).1.db)
reconciliation_moves_forward_example =
    reconciliation_moves_forward settings 400 "e2" (update ∷ []) no_flags bot

fetch-Justified_example :
    All
      (Justified client (raw_order ∷ []))
      (fetch client false (λ n. false) 0 (tracked ∷ [])).orders
fetch-Justified_example =
    fetch-Justified client false (λ n. false) 0 (tracked ∷ []) (raw_order ∷ []) refl
