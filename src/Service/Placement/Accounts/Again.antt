-- ===== src/Service/Placement/Accounts/Again.antt =====
-- A market whose turn comes again after a placement of the fleet.
use polymarket_event_quant.Base.{
  ℕ, suc, ◌≡◌, refl, true, false, Option, none, some, List, [], ◌∷◌, ◌++◌, length, length-append,
  ◌⊎◌, inl, inr, is_some, Result, ok, err, arith, Bool-cases, ◌∙◌, String,
}
use polymarket_event_quant.Models.{Market, PlacedOrder, PlacementResult}
use polymarket_event_quant.Database.{
  Db, add_order, prepare_market, set_market_state, event, MarketState, IntegrityError,
}
use polymarket_event_quant.Exchange.{Exc}
use polymarket_event_quant.Fleet.{MemberPlacement, FleetPlacement, gather, retryable}
use polymarket_event_quant.Fleet.Settlement.{retryable_rests_none}
use polymarket_event_quant.Service.{Bot, Settings, RetryState, ActivationUpdate}
use polymarket_event_quant.Service.Monad.{Action, write_result, ◌>>◌}
use polymarket_event_quant.Service.Monad.Ends.{bind-ends, write-ends}
use polymarket_event_quant.Service.Placement.Steps.{
  Desk, add_orders, mark, note, skip_market, keep_trying, pop_retry,
}
use polymarket_event_quant.Service.Placement.Accounts.{
  FleetDesk, Seen, gathered, watch, fleet_result, join_parts, error_parts, gave_up, gave_up_reason,
  finish_fleet, after_fleet, place_with_fleet,
}

-- the turns that are to come are those of before
abbrev pub IsSameQueue : Bot → Bot → Type 0
IsSameQueue b c = c.activation_market_updates ≡ b.activation_market_updates

-- one more turn is to come, and no order has been recorded
abbrev pub IsAgain : Bot → Bot → Type 0
IsAgain b c =
    (length c.activation_market_updates ≡ suc (length b.activation_market_updates))
    × (c.db.orders ≡ b.db.orders)

module _ (fleet : FleetDesk) (desk : Desk) (settings : Settings) (now : ℕ) (market : Market)
    (retry : Option RetryState) (knock_until_ms started_ms : ℕ)
    (source : Option ActivationUpdate) where
  written-IsSameQueue :
      (w : Result IntegrityError Db) (reason : String) (c : Bot)
      → IsSameQueue c
          (((λ _. write_result w c)
              >> mark desk settings now market MarketState.skipped (some reason)
              >> note desk settings now "WARNING" "market_skipped" market)
            c).1
  written-IsSameQueue (ok db) reason c = refl
  written-IsSameQueue (err e) reason c = refl

  skip_market-IsSameQueue :
      (reason : String) (b : Bot) → IsSameQueue b (skip_market desk settings now market reason b).1
  skip_market-IsSameQueue reason b =
      written-IsSameQueue (prepare_market now settings.run_id market MarketState.skipped b.db)
        reason (pop_retry market.slug b).1

  add_orders-IsSameQueue :
      (os : List PlacedOrder) (b c : Bot)
      → IsSameQueue b c
      → IsSameQueue b (add_orders desk settings now market os c).1
  unfolding add_orders
  add_orders-IsSameQueue [] b c h = h
  add_orders-IsSameQueue (o ∷ os) b c h =
      write-ends (IsSameQueue b) (add_order now settings.run_id market.slug o)
        (add_orders desk settings now market os) c h
        (λ db e. add_orders-IsSameQueue os b (record c { db = db }) h)

  one_more :
      (u : ActivationUpdate) (us : List ActivationUpdate) → length (us ++ u ∷ []) ≡ suc (length us)
  one_more u us = omega (arith, length-append us (u ∷ []))

  keep_trying-IsAgain :
      (r : PlacementResult) (old : Option RetryState) (finished_ms : ℕ) (b : Bot)
      → IsAgain b (keep_trying desk settings now market r old started_ms finished_ms source b).1
  unfolding set_market_state event
  keep_trying-IsAgain r none finished_ms b = (one_more _ b.activation_market_updates, refl)
  keep_trying-IsAgain r (some s) finished_ms b = (one_more _ b.activation_market_updates, refl)

  -- the end of a placement, whatever its orders
  finish_fleet-ends :
      (f : FleetPlacement) (seen : Option Seen) (finished_ms : ℕ) (b : Bot)
      → (retryable f ≡ false
          → IsSameQueue b
              (finish_fleet fleet desk settings now market retry knock_until_ms started_ms source f
                seen finished_ms b).1)
        × (IsSameQueue b
              (finish_fleet fleet desk settings now market retry knock_until_ms started_ms source f
                seen finished_ms b).1
            ⊎ IsAgain b
                (finish_fleet fleet desk settings now market retry knock_until_ms started_ms source
                  f seen finished_ms b).1)
  finish_fleet-ends f seen finished_ms b = elim (Bool-cases (is_some f.kept)) [
    | inl k ↦ rw k ((λ _. refl), inl refl)
    | inr k ↦ rw k (elim (Bool-cases (gave_up f)) [
      | inl g ↦ rw g (
        (λ _. skip_market-IsSameQueue (gave_up_reason seen knock_until_ms) b),
        inl (skip_market-IsSameQueue (gave_up_reason seen knock_until_ms) b),
      )
      | inr g ↦ rw g (elim (Bool-cases (retryable f)) [
        | inr r ↦ rw r ((λ _. refl), inl refl)
        | inl r ↦ rw r (
          (λ q. absurd (grind arith)),
          inr (
              keep_trying-IsAgain
                (record (fleet_result f) {
                  error = some (join_parts (error_parts f.placements));
                  retryable = true;
                })
                retry finished_ms b),
        )
      ])
    ])
  ]

  abbrev settled_by : List PlacedOrder → FleetPlacement → Option Seen → ℕ → Action (Unit {0})
  settled_by os f seen finished_ms =
      add_orders desk settings now market os
      >> finish_fleet fleet desk settings now market retry knock_until_ms started_ms source f seen
          finished_ms

  settled_by-nothing :
      (os : List PlacedOrder) (f : FleetPlacement) (seen : Option Seen) (finished_ms : ℕ) (b : Bot)
      → os ≡ []
      → IsSameQueue b (settled_by os f seen finished_ms b).1
        ⊎ IsAgain b (settled_by os f seen finished_ms b).1
  unfolding add_orders
  settled_by-nothing [] f seen finished_ms b e = (finish_fleet-ends f seen finished_ms b).1
  settled_by-nothing (o ∷ os) f seen finished_ms b e = absurd (grind arith)

  settled_by-last :
      (os : List PlacedOrder) (f : FleetPlacement) (seen : Option Seen) (finished_ms : ℕ) (b : Bot)
      → retryable f ≡ false
      → IsSameQueue b (settled_by os f seen finished_ms b).1
  settled_by-last os f seen finished_ms b r =
      let recorded = add_orders-IsSameQueue os b b refl in
      bind-ends (IsSameQueue b) (add_orders desk settings now market os)
        (λ _.
          finish_fleet fleet desk settings now market retry knock_until_ms started_ms source f seen
            finished_ms)
        b recorded (λ u e. (finish_fleet-ends f seen finished_ms _).0 r ∙ recorded)

  -- a placement that is to be tried again has nothing to record
  after_fleet-ends :
      (end : Result Exc (List MemberPlacement × Option Seen)) (call : ℕ) (b : Bot)
      → IsSameQueue b
          (after_fleet fleet desk settings now market retry knock_until_ms started_ms source
            (gathered fleet call end)
            b).1
        ⊎ IsAgain b
            (after_fleet fleet desk settings now market retry knock_until_ms started_ms source
              (gathered fleet call end)
              b).1
  after_fleet-ends (err e) call b = inl refl
  after_fleet-ends (ok (ps, seen)) call b =
      let f = gather (fleet.cancel call) fleet.keep_best (fleet.clocks call) ps in
      elim (Bool-cases (retryable f)) [
        | inl r ↦
            settled_by-nothing f.settled.orders f seen (desk.clock_ms b.calls) b
              (retryable_rests_none (fleet.cancel call) fleet.keep_best (fleet.clocks call) ps r)
        | inr r ↦ inl (settled_by-last f.settled.orders f seen (desk.clock_ms b.calls) b r)
      ]

-- A market comes up again after a placement of the fleet only when nothing of the placement has been
-- recorded: either the turns that are to come are those of before, or there is one more and the
-- table of orders is as it was. No retry adds to orders that rest already, whatever the members, the
-- venue's answers to their cancels and the registration clock say.
pub place_with_fleet_once :
    (fleet : FleetDesk) (desk : Desk) (settings : Settings) (now : ℕ) (market : Market)
    (retry : Option RetryState) (knock_until_ms : ℕ) (source : Option ActivationUpdate) (b : Bot)
    → IsSameQueue b
        (place_with_fleet fleet desk settings now market retry knock_until_ms source b).1
      ⊎ IsAgain b (place_with_fleet fleet desk settings now market retry knock_until_ms source b).1
unfolding place_with_fleet
place_with_fleet_once fleet desk settings now market retry knock_until_ms source b =
    after_fleet-ends fleet desk settings now market retry knock_until_ms (desk.clock_ms b.calls)
      source
      (fleet.place_members b.calls market settings.plan.buy_price knock_until_ms
        (watch fleet market))
      b.calls (record b { calls = suc b.calls })
