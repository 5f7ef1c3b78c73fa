-- ===== src/Service/Placement/Accounts.antt =====
-- service.py: `_place_with_fleet` and `_gave_up_reason`; fleet.py: what a `FleetPlacement` reports.
-- The signing and the knock of the members (Fleet.Place has them) are a parameter here, as are
-- their cancels and the registration clock.
pub mod Again
mod Tests
use polymarket_event_quant.Base.{
  ℕ, ◌+◌, String, Bool, true, false, not, ◌&&◌, Option, none, some, List, [], ◌∷◌, ◌++◌, map, all,
  is_some, is_none, ltb, ◌==◌, str_eq, Result, ok, err, if◌then◌else◌,
}
use polymarket_event_quant.Base.Concat
use polymarket_event_quant.Base.Decimal.{Decimal}
use polymarket_event_quant.Models.{Market, PlacementResult}
use polymarket_event_quant.Database.{MarketState}
use polymarket_event_quant.Exchange.{Exc}
use polymarket_event_quant.Exchange.Client.{CancelReply}
use polymarket_event_quant.Exchange.Knock.{Preview, preview_plan, preview_give_up_ms}
use polymarket_event_quant.Fleet.{
  MemberPlacement, FleetPlacement, Clock, gather, retryable, attempts, no_result,
}
use polymarket_event_quant.Service.{Settings, RetryState, ActivationUpdate}
use polymarket_event_quant.Service.Monad.{Action, ◌>>=◌, ◌>>◌, request}
use polymarket_event_quant.Service.Placement.Steps.{
  Desk, pop_retry, mark, note, skip_market, keep_trying, add_orders,
}

-- what the watch on the market's record saw
pub record Seen : Type 0 where
  pub seen_ms : Option ℕ
  pub anchor_ms : ℕ

abbrev pub is_seen : Seen → Bool
is_seen s = elim s.seen_ms [ none ↦ false | some ms ↦ not (ms == 0) ]

abbrev pub knocked_out : String
knocked_out = "no acceptance within 240 s of knocking"

-- which budget ran out, in milliseconds
abbrev pub gave_up_reason : Option Seen → ℕ → String
gave_up_reason none knock_until_ms = knocked_out
gave_up_reason (some s) knock_until_ms =
    if is_seen s && ltb (s.anchor_ms + preview_give_up_ms) knock_until_ms
    then "no acceptance within 60 s of the record turning active"
    else knocked_out

-- the first text that is there and not empty
abbrev pub truthy : Option String → List String
truthy none = []
truthy (some t) = if str_eq t "" then [] else t ∷ []

abbrev pub first_text : List String → List String → List String
first_text [] later = later
first_text (t ∷ ts) later = t ∷ []

abbrev pub result_error : MemberPlacement → Option String
result_error p = elim p.result [ none ↦ none | some r ↦ r.error ]

abbrev pub error_part : MemberPlacement → List String
error_part p =
    map (λ e. Concat.◌++◌ p.member (Concat.◌++◌ ": " e))
      (first_text (truthy p.error) (truthy (result_error p)))

unfoldable pub error_parts : List MemberPlacement → List String
error_parts [] = []
error_parts (p ∷ ps) = error_part p ++ error_parts ps

-- `"; ".join(parts) or ...`
unfoldable pub join_parts : List String → String
join_parts [] = "no member registered an order"
join_parts (p ∷ []) = p
join_parts (p ∷ q ∷ ps) = Concat.◌++◌ p (Concat.◌++◌ "; " (join_parts (q ∷ ps)))

-- `FleetPlacement.error`
abbrev pub fleet_error : FleetPlacement → Option String
fleet_error f = if is_some f.kept then none else some (join_parts (error_parts f.placements))

-- `FleetPlacement.gave_up`
abbrev pub gave_up_cleanly : MemberPlacement → Bool
gave_up_cleanly p = elim p.result [ none ↦ false | some r ↦ r.gave_up && no_result p ]

abbrev pub gave_up : FleetPlacement → Bool
gave_up f = is_none f.kept && all gave_up_cleanly f.placements

-- the fleet: the price, the time to stop knocking and the watch go in, and the members' placements
-- come out with what the watch saw, by the calls made before
pub record FleetDesk : Type 0 where
  pub place_members :
      ℕ → Market → Decimal → ℕ → Option Preview → Result Exc (List MemberPlacement × Option Seen)
  pub cancel : ℕ → String → List String → Result Exc (Option CancelReply)
  pub clocks : ℕ → List Clock
  pub keep_best : Bool
  pub knock_on_preview : Bool

abbrev pub gathered :
    FleetDesk
    → ℕ
    → Result Exc (List MemberPlacement × Option Seen)
    → Result Exc (FleetPlacement × Option Seen)
gathered fleet call (err e) = err e
gathered fleet call (ok (ps, seen)) =
    ok (gather (fleet.cancel call) fleet.keep_best (fleet.clocks call) ps, seen)

abbrev pub watch : FleetDesk → Market → Option Preview
watch fleet market = if fleet.knock_on_preview then some (preview_plan market) else none

abbrev pub fleet_result : FleetPlacement → PlacementResult
fleet_result f = record {
  orders = [];
  error = fleet_error f;
  retryable = retryable f;
  attempts = attempts f;
  expected = 2;
  registered_ts_ms = none;
  held_back = 0;
  gave_up = false;
}

module _ (fleet : FleetDesk) (desk : Desk) (settings : Settings) (now : ℕ) (market : Market)
    (retry : Option RetryState) (knock_until_ms started_ms : ℕ)
    (source : Option ActivationUpdate) where
  abbrev pub fail_placement : Option String → Action (Unit {0})
  fail_placement error =
      pop_retry market.slug
      >> mark desk settings now market MarketState.error error
      >> note desk settings now "ERROR" "placement_failed" market

  abbrev pub after_none_kept : FleetPlacement → Option Seen → ℕ → Action (Unit {0})
  after_none_kept f seen finished_ms =
      if gave_up f
      then skip_market desk settings now market (gave_up_reason seen knock_until_ms)
      else if retryable f
      then keep_trying desk settings now market (fleet_result f) retry started_ms finished_ms source
      else fail_placement (fleet_error f)

  abbrev pub finish_fleet : FleetPlacement → Option Seen → ℕ → Action (Unit {0})
  finish_fleet f seen finished_ms =
      if is_some f.kept
      then pop_retry market.slug
        >> mark desk settings now market MarketState.active none
        >> note desk settings now "INFO" "dual_orders_placed" market
      else after_none_kept f seen finished_ms

  -- the orders of every member are recorded before anything else
  abbrev pub after_fleet : Result Exc (FleetPlacement × Option Seen) → Action (Unit {0})
  after_fleet (err e) = fail_placement (some e)
  after_fleet (ok (f, seen)) = λ b.
      let finished_ms = desk.clock_ms b.calls in
      (add_orders desk settings now market f.settled.orders >> finish_fleet f seen finished_ms) b

unfoldable pub place_with_fleet :
    FleetDesk
    → Desk
    → Settings
    → ℕ
    → Market
    → Option RetryState
    → ℕ
    → Option ActivationUpdate
    → Action (Unit {0})
place_with_fleet fleet desk settings now market retry knock_until_ms source b =
    let started_ms = desk.clock_ms b.calls in
    (request (λ call. gathered fleet call (
          fleet.place_members call market settings.plan.buy_price knock_until_ms
            (watch fleet market)))
        >>= after_fleet fleet desk settings now market retry knock_until_ms started_ms source)
      b
