-- ===== src/Fleet.antt =====
-- fleet.py: the choice of the member whose orders are kept, and the settlement of the others. What
-- the members' exchanges answer to a cancel, and what the registration clock shows at each poll
-- before the deadline, are parameters.
pub mod View
pub mod Choice
pub mod Phases
pub mod Place
pub mod Settlement
pub mod Single
mod Tests
use polymarket_event_quant.Base.{
  ℕ, ◌+◌, String, Bool, true, false, not, ◌&&◌, ◌||◌, Option, none, some, List, [], ◌∷◌, ◌++◌, map,
  all, any, filter, sum_by, is_some, is_none, ltb, min, str_eq, or_else, Result, ok, err,
  if◌then◌else◌,
}
use polymarket_event_quant.Base.Concat
use polymarket_event_quant.Models.{PlacedOrder, PlacementResult, complete, Status}
use polymarket_event_quant.Exchange.{Exc}
use polymarket_event_quant.Exchange.Client.{CancelReply}
use polymarket_event_quant.Service.Cancel.{ended_ids}

pub record MemberPlacement : Type 0 where
  pub member : String
  pub result : Option PlacementResult
  pub error : Option String

abbrev pub registered : MemberPlacement → Bool
registered p = elim p.result [ none ↦ false | some r ↦ complete r ]

abbrev pub orders_of : MemberPlacement → List PlacedOrder
orders_of p = elim p.result [ none ↦ [] | some r ↦ r.orders ]

pub data KeptBy : Type 0 where
  venue reply : KeptBy

pub record Chosen : Type 0 where
  pub kept : Option String
  pub kept_by : Option KeptBy
  pub stamps : Option (List (String × ℕ))

abbrev pub Clock : Type 0
Clock = String → Option ℕ

-- min(found), where every stamp has been found
unfoldable pub stamp_orders : Clock → List PlacedOrder → Option ℕ
stamp_orders clock [] = none
stamp_orders clock (o ∷ []) = clock o.order_id
stamp_orders clock (o ∷ p ∷ os) =
    let rest = stamp_orders clock (p ∷ os) in
    elim (clock o.order_id) [
      | none ↦ none
      | some ts ↦ elim rest [ none ↦ none | some later ↦ some (min ts later) ]
    ]

abbrev add_stamp : String → Option ℕ → Option (List (String × ℕ)) → Option (List (String × ℕ))
add_stamp member (some ts) (some rest) = some ((member, ts) ∷ rest)
add_stamp member _ _ = none

-- one poll: a stamp for every registered member, or nothing
unfoldable pub poll_stamps : Clock → List MemberPlacement → Option (List (String × ℕ))
poll_stamps clock [] = some []
poll_stamps clock (p ∷ ps) =
    add_stamp p.member (stamp_orders clock (orders_of p)) (poll_stamps clock ps)

-- the polls until the deadline
unfoldable pub venue_stamps : List Clock → List MemberPlacement → Option (List (String × ℕ))
venue_stamps [] ps = none
venue_stamps (clock ∷ clocks) ps =
    let later = venue_stamps clocks ps in
    elim (poll_stamps clock ps) [ some stamps ↦ some stamps | none ↦ later ]

abbrev pub stamp_in : String → List (String × ℕ) → ℕ
stamp_in name [] = 0
stamp_in name ((n, ts) ∷ rest) = if str_eq n name then ts else stamp_in name rest

-- min over the key and then the place: a later member only by a smaller key
abbrev pub first_by :
    (MemberPlacement → MemberPlacement → Bool)
    → MemberPlacement
    → List MemberPlacement
    → MemberPlacement
first_by before best [] = best
first_by before best (p ∷ ps) = first_by before (if before p best then p else best) ps

abbrev pub reply_ts : MemberPlacement → Option ℕ
reply_ts p = elim p.result [ none ↦ none | some r ↦ r.registered_ts_ms ]

abbrev pub before_ts : Option ℕ → Option ℕ → Bool
before_ts none _ = false
before_ts (some s) none = true
before_ts (some s) (some t) = ltb s t

abbrev pub before_reply : MemberPlacement → MemberPlacement → Bool
before_reply p q = before_ts (reply_ts p) (reply_ts q)

abbrev pub before_stamp : List (String × ℕ) → MemberPlacement → MemberPlacement → Bool
before_stamp stamps p q = ltb (stamp_in p.member stamps) (stamp_in q.member stamps)

abbrev pub choose_among :
    MemberPlacement → List MemberPlacement → Option (List (String × ℕ)) → Chosen
choose_among p ps (some stamps) = record {
  kept = some (first_by (before_stamp stamps) p ps).member;
  kept_by = some KeptBy.venue;
  stamps = some stamps;
}
choose_among p ps none = record {
  kept = some (first_by before_reply p ps).member;
  kept_by = some KeptBy.reply;
  stamps = none;
}

abbrev pub choose_registered : List Clock → List MemberPlacement → Chosen
choose_registered clocks [] = record { kept = none; kept_by = none; stamps = none }
choose_registered clocks (p ∷ ps) = choose_among p ps (venue_stamps clocks (p ∷ ps))

-- `_choose`; no clock is no poll
unfoldable pub choose : List Clock → List MemberPlacement → Chosen
choose clocks ps = choose_registered clocks (filter registered ps)

-- `_cancel_outcome`
unfoldable pub cancel_outcome : Option CancelReply → List String × List String
cancel_outcome none = ([], [])
cancel_outcome (some r) =
    (r.canceled, elim r.not_canceled [ none ↦ [] | some refused ↦ ended_ids refused ])

abbrev pub stamped : String → PlacedOrder → PlacedOrder
stamped member o = record o { account = member }

abbrev pub is_in : String → List String → Bool
is_in i is = any (λ j. str_eq j i) is

abbrev pub cancelled_status : List String → List String → String → Status
cancelled_status canceled_ids terminal_ids i =
    if is_in i canceled_ids
    then Status.cancelled
    else if is_in i terminal_ids
    then Status.terminal_unknown
    else Status.cancel_requested

abbrev pub cancelled_order : String → List String → List String → PlacedOrder → PlacedOrder
cancelled_order member canceled_ids terminal_ids o = record o {
  account = member;
  status = cancelled_status canceled_ids terminal_ids o.order_id;
}

pub record Settled : Type 0 where
  pub orders : List PlacedOrder
  pub cancelled : List String
  pub errors : List String

abbrev pub is_kept : Option String → String → Bool
is_kept none member = false
is_kept (some k) member = str_eq k member

abbrev pub is_laggard : Bool → Option String → MemberPlacement → Bool
is_laggard keep_best kept p =
    keep_best && (is_some kept && (not (is_kept kept p.member) && registered p))

abbrev pub ids_of : List PlacedOrder → List String
ids_of os = map (λ o. o.order_id) os

abbrev pub settle_laggard : MemberPlacement → Result Exc (Option CancelReply) → Settled → Settled
settle_laggard p (err e) rest = record {
  orders = map (cancelled_order p.member [] []) (orders_of p) ++ rest.orders;
  cancelled = rest.cancelled;
  errors = Concat.◌++◌ p.member (Concat.◌++◌ ": " e) ∷ rest.errors;
}
settle_laggard p (ok outcome) rest =
    let (canceled_ids, terminal_ids) = cancel_outcome outcome in
    record {
      orders =
          map (cancelled_order p.member canceled_ids terminal_ids) (orders_of p) ++ rest.orders;
      cancelled = filter (λ i. is_in i canceled_ids) (ids_of (orders_of p)) ++ rest.cancelled;
      errors = rest.errors;
    }

abbrev pub no_result : MemberPlacement → Bool
no_result p = elim (orders_of p) [ [] ↦ true | _ ∷ _ ↦ false ]

-- `_settle`; the cancel of a member is asked for once
unfoldable pub settle :
    (String → List String → Result Exc (Option CancelReply))
    → Bool
    → Option String
    → List MemberPlacement
    → Settled
settle cancel keep_best kept [] = record { orders = []; cancelled = []; errors = [] }
settle cancel keep_best kept (p ∷ ps) =
    let rest = settle cancel keep_best kept ps in
    if no_result p
    then rest
    else if not (is_laggard keep_best kept p)
    then record rest { orders = map (stamped p.member) (orders_of p) ++ rest.orders }
    else settle_laggard p (cancel p.member (ids_of (orders_of p))) rest

-- what `place` returns, without the watch on the market record
pub record FleetPlacement : Type 0 where
  pub placements : List MemberPlacement
  pub kept : Option String
  pub kept_by : Option KeptBy
  pub settled : Settled
  pub open settled use *

-- the tail of `place`, from the members' outcomes on
unfoldable pub gather :
    (String → List String → Result Exc (Option CancelReply))
    → Bool
    → List Clock
    → List MemberPlacement
    → FleetPlacement
gather cancel keep_best clocks ps =
    let c = choose clocks ps in
    record {
      placements = ps;
      kept = c.kept;
      kept_by = c.kept_by;
      settled = settle cancel keep_best c.kept ps;
    }

abbrev pub attempts : FleetPlacement → ℕ
attempts f = sum_by (λ p. elim p.result [ none ↦ 0 | some r ↦ r.attempts ]) f.placements

abbrev pub is_clean_failure : MemberPlacement → Bool
is_clean_failure p = elim p.result [ none ↦ false | some r ↦ r.retryable && no_result p ]

unfoldable pub retryable : FleetPlacement → Bool
retryable f = is_none f.kept && all is_clean_failure f.placements
