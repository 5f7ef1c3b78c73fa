-- ===== src/Exchange/Entry.antt =====
-- exchange.py: `settle_entry`, `_finalize_dual_result`, `reconcile_ambiguous_dual` and `place_dual`,
-- the entry of a market from the knock to its result.
pub mod Settled
use polymarket_event_quant.Base.{
  ℕ, suc, String, Bool, true, false, not, ◌&&◌, Option, none, some, List, [], ◌∷◌, ◌++◌, map, all,
  filter, length, leb, ltb, ◌==◌, str_eq, Result, ok, err, if◌then◌else◌, or_else, any,
}
use polymarket_event_quant.Base.Concat
use polymarket_event_quant.Base.Text.{Text, codes}
use polymarket_event_quant.Base.Decimal.{Decimal}
use polymarket_event_quant.Models.{
  Market, Outcome, Side, Role, PlacedOrder, PlacementResult, complete,
}
use polymarket_event_quant.Exchange.{Exc, RawOrder, ◌or◌, read_status}
use polymarket_event_quant.Exchange.Client.{Client}
use polymarket_event_quant.Exchange.Orders.{
  matching_orders, placed_from, status_or_open, cancel_orders,
}
use polymarket_event_quant.Exchange.Session.{
  Signer, Submission, Session, SubmissionKey, Raised, Call, ◌>>=◌, ◌>>◌, pure, raise, ask, lift,
  pop_submission, submission_key, entry_specifications,
}
use polymarket_event_quant.Exchange.Signing.{Entry, Prepared, prepare_entry}
use polymarket_event_quant.Exchange.Knock.{
  Wording, Accepted, Ended, KnockOutcome, KnockPlan, KnockMember, reply_value, reply_status,
  error_text, ambiguous_text, first_of_each, joined, is_text, value_text, knock_plan, knock_member,
}

-- `dict(specifications)[outcome]`
abbrev pub is_outcome : Outcome → Outcome → Bool
is_outcome Outcome.up Outcome.up = true
is_outcome Outcome.down Outcome.down = true
is_outcome _ _ = false

abbrev pub token_for : List (Outcome × String) → Outcome → Option String
token_for [] outcome = none
token_for ((o, t) ∷ legs) outcome = elim (token_for legs outcome) [
  | some later ↦ some later
  | none ↦ if is_outcome o outcome then some t else none
]

abbrev pub unknown_outcome : Exc
unknown_outcome = "KeyError"

module _ (client : Client) (wording : Wording) where
  abbrev pub accepted_order : Entry → Accepted → String → PlacedOrder
  accepted_order entry order token = record {
    order_id = order.order_id;
    outcome = order.outcome;
    token_id = token;
    price = entry.price;
    size = entry.size;
    status =
        read_status (status_or_open (reply_status (reply_value wording order.status order.body)));
    raw = value_text (reply_value wording order.status order.body);
    side = Side.buy;
    role = Role.entry_role;
    account = "";
  }

  abbrev pub then_accept :
      Entry
      → Accepted
      → Option String
      → Result Exc (List PlacedOrder)
      → Result Exc (List PlacedOrder)
  then_accept entry a none rest = err unknown_outcome
  then_accept entry a (some token) (err e) = err e
  then_accept entry a (some token) (ok orders) = ok (accepted_order entry a token ∷ orders)

  -- the loop over the accepted orders
  unfoldable pub accepted_orders : Entry → List Accepted → Result Exc (List PlacedOrder)
  accepted_orders entry [] = ok []
  accepted_orders entry (a ∷ more) =
      then_accept entry a (token_for entry.specifications a.outcome) (accepted_orders entry more)

  abbrev pub ids : List PlacedOrder → List String
  ids orders = map (λ o. o.order_id) orders

  abbrev pub cancel_partial :
      PlacementResult → SubmissionKey → List PlacedOrder → Call PlacementResult
  cancel_partial r key (o ∷ os) =
      ask (λ call. client.cancel_orders call (ids (o ∷ os))) >> pop_submission key >> pure r
  cancel_partial r key [] = if not r.retryable then pop_submission key >> pure r else pure r

  -- a complete result stays; the orders of a partial one are cancelled
  unfoldable pub finalize_dual_result : PlacementResult → SubmissionKey → Call PlacementResult
  finalize_dual_result r key =
      if complete r then pop_submission key >> pure r else cancel_partial r key r.orders

  abbrev pub ambiguous_message : List Ended → String
  ambiguous_message items =
      Concat.◌++◌ "staggered submission remained ambiguous: "
        (joined (first_of_each [] (map (ambiguous_text wording) items)))

  abbrev pub or_partial_placement : String → String
  or_partial_placement t = if str_eq t "" then "partial placement" else t

  abbrev pub joined_errors : List Ended → String
  joined_errors items =
      or_partial_placement
        (joined (filter is_text (first_of_each [] (map (error_text wording) items))))

  -- every leg registered; the repeats that came in meanwhile are no failures
  abbrev pub complete_result : Entry → KnockOutcome → List PlacedOrder → PlacementResult
  complete_result entry outcome orders = record {
    orders = orders;
    error = none;
    retryable = false;
    attempts = outcome.attempts;
    expected = length entry.specifications;
    registered_ts_ms = outcome.registered_ms;
    held_back = outcome.held_back;
    gave_up = false;
  }

  abbrev pub incomplete_result : Entry → KnockOutcome → List PlacedOrder → PlacementResult
  incomplete_result entry outcome (o ∷ os) = record {
    orders = o ∷ os;
    error = some (joined_errors outcome.errors);
    retryable = false;
    attempts = outcome.attempts;
    expected = length entry.specifications;
    registered_ts_ms = outcome.registered_ms;
    held_back = outcome.held_back;
    gave_up = false;
  }
  incomplete_result entry outcome [] = record {
    orders = [];
    error = some (joined_errors outcome.errors);
    retryable = false;
    attempts = outcome.attempts;
    expected = length entry.specifications;
    registered_ts_ms = none;
    held_back = outcome.held_back;
    gave_up = outcome.gave_up;
  }

  abbrev pub entry_result : Entry → KnockOutcome → List PlacedOrder → PlacementResult
  entry_result entry outcome orders =
      if length orders == length entry.specifications
      then complete_result entry outcome orders
      else incomplete_result entry outcome orders

  -- nothing accepted, and a send without a verdict
  abbrev pub is_ambiguous : KnockOutcome → List PlacedOrder → Bool
  is_ambiguous outcome (_ ∷ _) = false
  is_ambiguous outcome [] = elim outcome.ambiguous [ [] ↦ false | _ ∷ _ ↦ true ]

  abbrev pub settle_accepted : Entry → KnockOutcome → List PlacedOrder → Call PlacementResult
  settle_accepted entry outcome orders =
      if is_ambiguous outcome orders
      then raise (Raised.ambiguous (ambiguous_message outcome.ambiguous) true outcome.attempts)
      else finalize_dual_result (entry_result entry outcome orders) entry.key

  abbrev pub settle_read :
      Entry → KnockOutcome → Result Exc (List PlacedOrder) → Call PlacementResult
  settle_read entry outcome (err e) = raise (Raised.raised e)
  settle_read entry outcome (ok orders) = settle_accepted entry outcome orders

  unfoldable pub settle_entry : Entry → KnockOutcome → Call PlacementResult
  settle_entry entry outcome = settle_read entry outcome (accepted_orders entry outcome.accepted)
