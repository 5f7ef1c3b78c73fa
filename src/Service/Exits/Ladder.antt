-- ===== src/Service/Exits/Ladder.antt =====
-- Each rung of the ladder accounts for its share of the matched size at most.
pub mod Rungs
use polymarket_event_quant.Base.{
  ℕ, ◌+◌, ◌-◌, ◌≤◌, max, min, String, ◌≡◌, refl, true, Option, none, some, List, [], ◌∷◌, ◌==◌, ltb,
  leb, all, sum_by, All, Result, ok, err, if◌then◌else◌, arith, Bool-cases, inl, inr, Result-cases,
  suc,
}
use polymarket_event_quant.Base.Decimal.{Decimal, mul, mul-add-le, mul-le}
use polymarket_event_quant.Models.{Outcome, PlacedOrder, ExitTarget, ascending, exit_fraction}
use polymarket_event_quant.Models.Statuses.{is_active_exit, is_matched_or_filled, is_failed}
use polymarket_event_quant.Database.{
  Db, OrderRow, MarketState, add_order, set_market_state, event, new_order_row,
}
use polymarket_event_quant.Database.Invariant.{after}
use polymarket_event_quant.Database.Queries.{Joined, exit_handled_size, handled_at, handled_of}
use polymarket_event_quant.Exchange.{Exc}
use polymarket_event_quant.Exchange.Client.{Client}
use polymarket_event_quant.Exchange.Orders.{place_exit, reconcile_ambiguous_exit}
use polymarket_event_quant.Models.Validation.{IsTradable, validate_sound, ascending_iff}
use polymarket_event_quant.Models.{validate}
use polymarket_event_quant.Service.{Bot, Settings}
use polymarket_event_quant.Service.Exits.{
  Rung, place_exit_rung, record_placed, record_failed, after_search, after_submission, exit_market,
  failed_order, place_rungs, place_exits_of, pending_targets, pending_rung, with_pending,
}
use polymarket_event_quant.Service.Exits.Oversell.{
  sum-add_order-le, place_exit_asked, reconcile_exit_asked,
}
use polymarket_event_quant.Service.Exits.Ladder.Rungs.{
  at_price, wanted, handled, with_pending-handled,
}

-- the prices of `ts` are all above `p`
absent-wanted :
    (db : Db) (j : Joined) (p : Decimal) (ts : List ExitTarget)
    → all (λ u. ltb p u.price) ts ≡ true
    → wanted p (pending_targets db j ts) ≡ 0
unfolding pending_targets
absent-wanted db j p [] h = refl
absent-wanted db j p (t ∷ ts) h = ground (arith, absent-wanted db j p ts)

-- the share of one target, and what is handled of it
abbrev pub desired : Joined → ExitTarget → Decimal
desired j t = mul j.row.matched_size t.fraction

abbrev pub handled_in : Db → Joined → ExitTarget → Decimal
handled_in db j t = exit_handled_size j.row.slug j.row.outcome t.price db

abbrev Fits : Db → Joined → List Rung → ExitTarget → Type 0
Fits db j rs t = wanted t.price rs ≤ desired j t - handled_in db j t

Fits-above :
    (db : Db) (j : Joined) (t : ExitTarget) (rs : List Rung) (us : List ExitTarget)
    → all (λ u. ltb t.price u.price) us ≡ true
    → All (Fits db j rs) us
    → All (Fits db j (pending_rung db j t rs)) us
Fits-above db j t rs [] h a = tt
Fits-above db j t rs (u ∷ us) h a =
    (ground (arith, a.0), Fits-above db j t rs us (ground arith) a.1)

pending_targets-Fits :
    (db : Db) (j : Joined) (ts : List ExitTarget)
    → ascending ts ≡ true
    → All (Fits db j (pending_targets db j ts)) ts
unfolding pending_targets ascending
pending_targets-Fits db j [] h = tt
pending_targets-Fits db j (t ∷ ts) h = (
  ground (arith, absent-wanted db j t.price ts),
  Fits-above db j t (pending_targets db j ts) ts (ground arith)
      (pending_targets-Fits db j ts (ground arith)),
)

abbrev pub Shares : Db → Db → Joined → List ExitTarget → Type 0
Shares db db' j ts = All (λ t. handled_in db' j t ≤ max (handled_in db j t) (desired j t)) ts

module _ (client : Client) (settings : Settings) (now : ℕ) (j : Joined) (b : Bot) where
  Shares-with_pending :
      (rs : List Rung) (ts : List ExitTarget)
      → All (Fits b.db j rs) ts
      → Shares b.db (with_pending client settings now j rs b).1.db j ts
  Shares-with_pending rs [] h = tt
  Shares-with_pending rs (t ∷ ts) h = (
    omega (
      arith,
      h.0,
      with_pending-handled j.row.slug j.row.outcome t.price client settings now j rs b,
    ),
    Shares-with_pending rs ts h.1,
  )

  Shares-refl : (ts : List ExitTarget) → Shares b.db b.db j ts
  Shares-refl [] = tt
  Shares-refl (t ∷ ts) = (omega arith, Shares-refl ts)

-- With the strictly ascending prices of a validated plan, the pass over one filled entry accounts
-- for at most `matched * fraction` at each target's price, or for what it accounted for before if
-- that was more: no target is sold twice, whether its submissions are accepted, lost or refused.
pub ladder_share :
    (client : Client) (settings : Settings) (now : ℕ) (j : Joined) (b : Bot)
    → ascending settings.plan.exit_targets ≡ true
    → Shares b.db (place_exits_of client settings now j b).1.db j settings.plan.exit_targets
unfolding place_exits_of
ladder_share client settings now j b h =
    elim (Bool-cases (leb j.market.market.end_ts (now + settings.cancel_before_end_seconds))) [
      | inl e ↦ rw e (Shares-refl client settings now j b settings.plan.exit_targets)
      | inr e ↦ rw e (
          Shares-with_pending client settings now j b
            (pending_targets b.db j settings.plan.exit_targets) settings.plan.exit_targets
            (pending_targets-Fits b.db j settings.plan.exit_targets h))
    ]

sum_of_desired :
    (m : Decimal) (ts : List ExitTarget)
    → sum_by (λ t. mul m t.fraction) ts ≤ mul m (sum_by (λ t. t.fraction) ts)
sum_of_desired m [] = omega arith
sum_of_desired m (t ∷ ts) =
    omega (arith, sum_of_desired m ts, mul-add-le m t.fraction (sum_by (λ u. u.fraction) ts))

sum_of-Shares :
    (db db' : Db) (j : Joined) (ts : List ExitTarget)
    → All (λ t. handled_in db j t ≤ desired j t) ts
    → Shares db db' j ts
    → sum_by (handled_in db' j) ts ≤ sum_by (desired j) ts
sum_of-Shares db db' j [] a s = omega arith
sum_of-Shares db db' j (t ∷ ts) a s = omega (arith, a.0, s.0, sum_of-Shares db db' j ts a.1 s.1)

-- From tables in which no target accounts for more than its share, a plan that `validate` accepts
-- never accounts for more exits of an entry than that entry has matched.
pub ladder_within_matched :
    (client : Client) (settings : Settings) (now : ℕ) (j : Joined) (b : Bot)
    → validate settings.plan ≡ ok tt
    → All (λ t. handled_in b.db j t ≤ desired j t) settings.plan.exit_targets
    → sum_by (handled_in (place_exits_of client settings now j b).1.db j) settings.plan.exit_targets
      ≤ j.row.matched_size
ladder_within_matched client settings now j b valid within = omega (
  arith,
  sum_of-Shares b.db (place_exits_of client settings now j b).1.db j settings.plan.exit_targets
      within
      (ladder_share client settings now j b
        ((ascending_iff settings.plan.exit_targets).1 v.prices)),
  sum_of_desired j.row.matched_size settings.plan.exit_targets,
  mul-le j.row.matched_size (exit_fraction settings.plan) v.shares,
)
  where
    v : IsTradable settings.plan
    v = validate_sound settings.plan valid
