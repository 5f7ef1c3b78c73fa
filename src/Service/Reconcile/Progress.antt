-- ===== src/Service/Reconcile/Progress.antt =====
-- Reconciliation only moves orders forward.
use mathlib.Core.Option
use polymarket_event_quant.Base.{
  ℕ, ◌≤◌, String, ◌≡◌, refl, true, Option, none, some, List, [], ◌∷◌, max, str_eq, arith,
  Option-cases, Bool-cases, inl, inr, eq_iff, ◌∙◌, ap,
}
use polymarket_event_quant.Base.Decimal.{Decimal}
use polymarket_event_quant.Models.{Status}
use polymarket_event_quant.Models.Statuses.{is_terminal}
use polymarket_event_quant.Database.{OrderRow, Db, update_order, update_row, event}
use polymarket_event_quant.Database.Queries.{order}
use polymarket_event_quant.Database.Rows.{order-update_order, order-id}
use polymarket_event_quant.Exchange.{RawOrder, Exc, normalize_order}
use polymarket_event_quant.Reconciliation.{ReconciledOrder, ReconciliationUpdate}
use polymarket_event_quant.Service.{Bot, Settings}
use polymarket_event_quant.Service.Monad.Ends.{value-ends, bind-ends}
use polymarket_event_quant.Service.Adopt.Ours.{Adopted, adoption_is_ours, order-event}
use polymarket_event_quant.Service.Reconcile.{
  Flags, in_grace, next_status, apply_state, apply_raw, apply_reconciled, apply_all, apply_batch,
  apply_updates, adopt_open_rows,
}

-- What an order may become: it stays recorded, with its size, has matched no less, and is in a
-- terminal state if it was in one.
abbrev pub Moves : OrderRow → OrderRow → Type 0
Moves r r' =
    (r'.size ≡ r.size)
    × (r.matched_size ≤ r'.matched_size)
    × (is_terminal r.status ≡ true → is_terminal r'.status ≡ true)

abbrev pub Progress : Option OrderRow → Option OrderRow → Type 0
Progress none r' = Unit
Progress (some r) none = ⊥
Progress (some r) (some r') = Moves r r'

Progress-refl : (x : Option OrderRow) → Progress x x
Progress-refl none = tt
Progress-refl (some r) = (refl, omega arith, λ h. h)

Progress-trans : (x y z : Option OrderRow) → Progress x y → Progress y z → Progress x z
Progress-trans none y z p q = tt
Progress-trans (some r) none z p q = absurd p
Progress-trans (some r) (some s) none p q = absurd q
Progress-trans (some r) (some s) (some t) p q =
    (q.0 ∙ p.0, omega (arith, p.1, q.1), λ h. q.2 (p.2 h))

Progress-Adopted :
    (settings : Settings) (x y : Option OrderRow) → Adopted settings x y → Progress x y
Progress-Adopted settings none y h = tt
Progress-Adopted settings (some r) y h = rw h (Progress-refl (some r))

next_status-terminal :
    (row : OrderRow) (status : Status) (matched size : Decimal)
    → is_terminal row.status ≡ true
    → is_terminal (next_status row status matched size) ≡ true
next_status-terminal row status matched size h = ground arith

module _ (settings : Settings) (now : ℕ) (j : String) where
  abbrev Moved : Bot → Bot → Type 0
  Moved b b' = Progress (order j b.db) (order j b'.db)

  -- an update of the row of `i` that moves that row forward moves every order forward
  Moved-update :
      (i : String) (row : OrderRow) (s : Status) (matched : Decimal) (raw : String) (db : Db)
      → order i db ≡ some row
      → row.matched_size ≤ matched
      → (is_terminal row.status ≡ true → is_terminal s ≡ true)
      → Progress (order j db) (order j (update_order now i s matched raw db))
  Moved-update i row s matched raw db found more keeps =
      rw (order-update_order now i s matched raw j db) (go (order j db) refl)
    where
      go :
          (x : Option OrderRow)
          → order j db ≡ x
          → Progress x (Option.map (update_row now i s matched raw) x)
      go none e = tt
      go (some r) e = elim (Bool-cases (str_eq r.order_id i)) [
        | inr q ↦ rw q (refl, omega arith, λ h. h)
        | inl q ↦
            let same : row ≡ r = ground (arith, eq_iff r.order_id i, order-id j db e, found, e) in
            rw q (
              refl,
              rw same at more,
              λ h. keeps (rw (ap (λ (x : OrderRow). is_terminal x.status) same) h),
            )
      ]

  log-Moved :
      (level type_name : String) (s : Option String) (b : Bot)
      → Moved b (record b { db = event now (some settings.run_id) level type_name s b.db })
  log-Moved level type_name s b =
      rw (order-event now (some settings.run_id) level type_name s j b.db)
        (Progress-refl (order j b.db))

  apply_state-Moved :
      (o : ReconciledOrder) (row : OrderRow) (raw : RawOrder) (flags : Flags)
      (sm : Status × Decimal) (b : Bot)
      → order o.snapshot.order_id b.db ≡ some row
      → Moved b (apply_state settings now o row raw flags sm b).1
  apply_state-Moved o row raw flags (status, matched) b found =
      elim (Bool-cases (in_grace now row status)) [
        | inl e ↦ rw e (Progress-refl (order j b.db))
        | inr e ↦ rw e (
            Moved-update o.snapshot.order_id row
              (next_status row status (max matched row.matched_size) o.snapshot.size)
              (max matched row.matched_size) raw.json b.db found (omega arith)
              (next_status-terminal row status (max matched row.matched_size) o.snapshot.size))
      ]

  apply_raw-Moved :
      (o : ReconciledOrder) (row : OrderRow) (flags : Flags) (error : Option Exc)
      (raw : Option RawOrder) (b : Bot)
      → order o.snapshot.order_id b.db ≡ some row
      → Moved b (apply_raw settings now o row flags error raw b).1
  apply_raw-Moved o row flags none (some raw) b found =
      value-ends (Moved b) (normalize_order raw) (apply_state settings now o row raw flags) b
        (Progress-refl (order j b.db)) (λ sm h. apply_state-Moved o row raw flags sm b found)
  apply_raw-Moved o row flags none none b found = log-Moved _ _ _ b
  apply_raw-Moved o row flags (some e) raw b found = log-Moved _ _ _ b

  apply_reconciled-Moved :
      (o : ReconciledOrder) (flags : Flags) (b : Bot)
      → Moved b (apply_reconciled settings now o flags b).1
  unfolding apply_reconciled
  apply_reconciled-Moved o flags b = elim (Option-cases (order o.snapshot.order_id b.db)) [
    | inl e ↦ rw e (Progress-refl (order j b.db))
    | inr (row, e) ↦ rw e (apply_raw-Moved o row flags o.error o.raw b e)
  ]

  apply_all-Moved :
      (os : List ReconciledOrder) (flags : Flags) (b : Bot)
      → Moved b (apply_all settings now os flags b).1
  unfolding apply_all
  apply_all-Moved [] flags b = Progress-refl (order j b.db)
  apply_all-Moved (o ∷ os) flags b =
      bind-ends (Moved b) (apply_reconciled settings now o flags) (apply_all settings now os) b
        (apply_reconciled-Moved o flags b)
        (λ f h.
          Progress-trans _ _ _ (apply_reconciled-Moved o flags b)
            (apply_all-Moved os f (apply_reconciled settings now o flags b).1))

  adopt_open_rows-Moved :
      (raws : List RawOrder) (flags : Flags) (b : Bot)
      → Moved b (adopt_open_rows settings now raws flags b).1
  unfolding adopt_open_rows
  adopt_open_rows-Moved [] flags b = Progress-refl (order j b.db)
  adopt_open_rows-Moved (raw ∷ raws) flags b =
      Progress-Adopted settings _ _ (adoption_is_ours settings now j (raw ∷ raws) b)

  apply_batch-Moved :
      (u : ReconciliationUpdate) (flags : Flags) (e : Option Exc) (b : Bot)
      → Moved b (apply_batch settings now u flags e b).1
  apply_batch-Moved u flags (some e) b = log-Moved _ _ _ b
  apply_batch-Moved u flags none b =
      bind-ends (Moved b) (adopt_open_rows settings now u.open_rows flags)
        (apply_all settings now u.orders) b (adopt_open_rows-Moved u.open_rows flags b)
        (λ f h.
          Progress-trans _ _ _ (adopt_open_rows-Moved u.open_rows flags b)
            (apply_all-Moved u.orders f (adopt_open_rows settings now u.open_rows flags b).1))

-- Draining any reconciliation updates, failed batches, unreadable orders, adopted orders and
-- malformed payloads included, keeps every recorded order recorded with its size, never lowers
-- what it has matched, and never takes it out of a terminal state.
pub reconciliation_moves_forward :
    (settings : Settings) (now : ℕ) (j : String) (us : List ReconciliationUpdate) (flags : Flags)
    (b : Bot)
    → Progress (order j b.db) (order j (apply_updates settings now us flags b).1.db)
unfolding apply_updates
reconciliation_moves_forward settings now j [] flags b = Progress-refl (order j b.db)
reconciliation_moves_forward settings now j (u ∷ us) flags b =
    bind-ends (λ b'. Progress (order j b.db) (order j b'.db))
      (apply_batch settings now u flags u.batch_error) (apply_updates settings now us) b
      (apply_batch-Moved settings now j u flags u.batch_error b)
      (λ f h. Progress-trans _ _ _ (apply_batch-Moved settings now j u flags u.batch_error b) (
        reconciliation_moves_forward settings now j us f
          (apply_batch settings now u flags u.batch_error b).1))
