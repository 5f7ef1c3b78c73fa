-- ===== src/Fleet/Tests.antt =====
-- Runs of a fleet's choice and settlement.
use polymarket_event_quant.Base.{
  if◌then◌else◌, str_eq, ℕ, ◌≤◌, String, ◌≡◌, refl, true, false, Option, none, some, List, [], ◌∷◌,
  All, Result, err, filter,
}
use polymarket_event_quant.Models.{PlacementResult}
use polymarket_event_quant.Fleet.{
  MemberPlacement, Clock, choose, settle, registered, ids_of, venue_stamps, poll_stamps,
  stamp_orders, stamp_in,
}
use polymarket_event_quant.Fleet.Choice.{kept_is_first, IsAmong}
use polymarket_event_quant.Fleet.Settlement.{settle_loses_none}
use polymarket_event_quant.Exchange.{Exc}
use polymarket_event_quant.Exchange.Client.{CancelReply}
use mathlib.Core.Path.{subst}
use polymarket_event_quant.Base.{map, length, length-map, ok, arith}
use polymarket_event_quant.Exchange.Session.{Submission}
use polymarket_event_quant.Exchange.Knock.{KnockPlan, KnockOutcome}
use polymarket_event_quant.Exchange.Lost.{place_dual}
use polymarket_event_quant.Exchange.Lost.Tests.{wording, half}
use polymarket_event_quant.Exchange.Signing.Tests.{signer, session}
use polymarket_event_quant.Fleet.Place.{Member, place_members, evenly_phased}
use polymarket_event_quant.Fleet.Single.{alone, ended, AnswersEach, place_members-alone}
use polymarket_event_quant.Fleet.Phases.{evenly_phased_lem, IsPhased}
use polymarket_event_quant.Fixtures.{placed, client, market, cents}

abbrev both : String → String → PlacementResult
both i j = record {
  orders = record placed { order_id = i } ∷ record placed { order_id = j } ∷ [];
  error = none;
  retryable = false;
  attempts = 1;
  expected = 2;
  registered_ts_ms = some 7;
  held_back = 0;
  gave_up = false;
}

abbrev members : List MemberPlacement
members =
    record { member = "one"; result = some (both "a1" "a2"); error = none }
    ∷ record { member = "two"; result = some (both "b1" "b2"); error = none }
    ∷ []

-- the venue has registered the second member's orders first
abbrev clock : Clock
clock i = if str_eq i "a1" then some 50 else if str_eq i "a2" then some 51 else some 40

abbrev cancel : String → List String → Result Exc (Option CancelReply)
cancel member is = err "RuntimeError: lost"

abbrev stamps : List (String × ℕ)
stamps = ("one", 50) ∷ ("two", 40) ∷ []

stamps_known : (choose (clock ∷ []) members).stamps ≡ some stamps
unfolding choose venue_stamps poll_stamps stamp_orders
stamps_known = refl

kept_is_first_example :
    (p : MemberPlacement) × (IsAmong p members × (registered p ≡ true))
    × ((choose (clock ∷ []) members).kept ≡ some p.member)
    × All (λ q. stamp_in p.member stamps ≤ stamp_in q.member stamps) (filter registered members)
kept_is_first_example = kept_is_first (clock ∷ []) members stamps stamps_known

settle_loses_none_example :
    ids_of (settle cancel true (some "two") members).orders ≡ "a1" ∷ "a2" ∷ "b1" ∷ "b2" ∷ []
settle_loses_none_example = settle_loses_none cancel true (some "two") members

second_is_kept : (choose (clock ∷ []) members).kept ≡ some "two"
unfolding choose venue_stamps poll_stamps stamp_orders
second_is_kept = refl

-- an account whose market is not signed yet
abbrev member : Member
member = record {
  name = "first";
  client = client;
  signer = signer 2;
  session = session;
  size = cents 10000;
  phase_offset_ms = 7;
}

abbrev knock_half : ℕ → KnockPlan → Result Exc (List KnockOutcome)
knock_half call plan = ok (map (λ m. half) plan.members)

answers_each : AnswersEach knock_half
answers_each call plan outcomes h =
    let e : map (λ m. half) plan.members ≡ outcomes = grind arith in
    subst (λ os. length os ≡ length plan.members) e (length-map (λ m. half) plan.members)

place_members-alone_example :
    place_members wording Submission.both_sides knock_half market
      (cents 10)
      900
      20
      none
      (alone member ∷ [])
    ≡ ok (
        ended (alone member) (
          place_dual client
            (signer 2)
            wording
            knock_half
            Submission.both_sides
            market
            (cents 10)
            (cents 10000)
            20
            900
            session)
        ∷ [])
place_members-alone_example =
    place_members-alone wording Submission.both_sides knock_half market 900 20 member (cents 10)
      refl answers_each

evenly_phased_lem_example :
    IsPhased 20 2 0 (member ∷ member ∷ []) (evenly_phased (member ∷ member ∷ []) 20)
evenly_phased_lem_example = evenly_phased_lem (member ∷ member ∷ []) 20 (omega arith)
