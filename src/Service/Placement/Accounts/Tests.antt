-- ===== src/Service/Placement/Accounts/Tests.antt =====
-- A placement of a fleet of which no member could sign yet.
use polymarket_event_quant.Base.{◌≡◌, refl, none, some, List, [], ◌∷◌, ok, err, true, false, ◌⊎◌}
use polymarket_event_quant.Models.{PlacementResult}
use polymarket_event_quant.Fleet.{MemberPlacement, gather, choose, settle}
use polymarket_event_quant.Fixtures.{settings, market}
use polymarket_event_quant.Service.Placement.Tests.{desk, queued}
use polymarket_event_quant.Service.Placement.Accounts.{
  FleetDesk, place_with_fleet, gave_up_reason, fleet_error, join_parts, error_parts,
}
use polymarket_event_quant.Service.Placement.Accounts.Again.{
  IsSameQueue, IsAgain, place_with_fleet_once,
}

abbrev not_ready : PlacementResult
not_ready = record {
  orders = [];
  error = some "market not found";
  retryable = true;
  attempts = 1;
  expected = 2;
  registered_ts_ms = none;
  held_back = 0;
  gave_up = false;
}

abbrev members : List MemberPlacement
members =
    record { member = "one"; result = some not_ready; error = none }
    ∷ record { member = "two"; result = some not_ready; error = none }
    ∷ []

abbrev fleet : FleetDesk
fleet = record {
  place_members = λ call m price until watch. ok (members, none);
  cancel = λ call member is. err "RuntimeError: lost";
  clocks = λ call. [];
  keep_best = true;
  knock_on_preview = true;
}

told :
    fleet_error (gather (fleet.cancel 0) true [] members)
    ≡ some "one: market not found; two: market not found"
unfolding gather choose settle error_parts join_parts
told = refl

turned :
    gave_up_reason (some (record { seen_ms = some 5; anchor_ms = 1_000 })) 240_000
    ≡ "no acceptance within 60 s of the record turning active"
turned = refl

place_with_fleet_once_example :
    IsSameQueue queued (place_with_fleet fleet desk settings 150 market none 240_000 none queued).1
    ⊎ IsAgain queued (place_with_fleet fleet desk settings 150 market none 240_000 none queued).1
place_with_fleet_once_example =
    place_with_fleet_once fleet desk settings 150 market none 240_000 none queued
