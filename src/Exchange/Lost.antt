-- ===== src/Exchange/Lost.antt =====
-- exchange.py: `reconcile_ambiguous_dual`, the search for the orders of a submission whose reply
-- was lost, and `place_dual`, an account's entry on its own.
pub mod Tests
pub mod Whole
use polymarket_event_quant.Base.{
  ℕ, suc, String, Bool, true, false, not, ◌&&◌, Option, none, some, List, [], ◌∷◌, ◌++◌, map, all,
  any, length, leb, ◌==◌, str_eq, Result, ok, err, if◌then◌else◌,
}
use polymarket_event_quant.Base.Text.{Text, codes}
use polymarket_event_quant.Base.Decimal.{Decimal}
use polymarket_event_quant.Models.{Market, Outcome, Side, Role, PlacedOrder, PlacementResult}
use polymarket_event_quant.Exchange.{Exc, RawOrder, ◌or◌}
use polymarket_event_quant.Exchange.Client.{Client}
use polymarket_event_quant.Exchange.Orders.{matching_orders, placed_from, cancel_orders}
use polymarket_event_quant.Exchange.Session.{
  Signer, Submission, Session, SubmissionKey, Raised, Call, ◌>>=◌, ◌>>◌, pure, raise, ask, lift,
  pop_submission, submission_key, entry_specifications,
}
use polymarket_event_quant.Exchange.Signing.{Entry, Prepared, prepare_entry}
use polymarket_event_quant.Exchange.Knock.{
  Wording, KnockOutcome, KnockPlan, KnockMember, knock_plan, knock_member,
}
use polymarket_event_quant.Exchange.Entry.{settle_entry}

-- `{token_id: outcome for outcome, token_id in specifications}`: a token that comes again keeps its
-- place and takes the later outcome
abbrev pub put_expected : String → Outcome → List (String × Outcome) → List (String × Outcome)
put_expected token outcome [] = (token, outcome) ∷ []
put_expected token outcome ((t, o) ∷ rest) =
    if str_eq t token then (t, outcome) ∷ rest else (t, o) ∷ put_expected token outcome rest

abbrev pub expected_from :
    List (String × Outcome) → List (Outcome × String) → List (String × Outcome)
expected_from found [] = found
expected_from found ((outcome, token) ∷ legs) =
    expected_from (put_expected token outcome found) legs

-- the open orders that may be one leg of the lost entry
pub record Match : Type 0 where
  pub token_id : String
  pub outcome : Outcome
  pub rows : List RawOrder

abbrev pub is_sole : Match → Bool
is_sole m = length m.rows == 1

module _ (client : Client) where
  abbrev pub with_matches : String × Outcome → List RawOrder → List Match → List Match
  with_matches leg rows rest = record { token_id = leg.0; outcome = leg.1; rows = rows } ∷ rest

  abbrev pub then_match :
      String × Outcome
      → Result Exc (List RawOrder)
      → Result Exc (List Match)
      → Result Exc (List Match)
  then_match leg (err e) rest = err e
  then_match leg (ok rows) (err e) = err e
  then_match leg (ok rows) (ok ms) = ok (with_matches leg rows ms)

  unfoldable pub matches_of :
      Decimal → Decimal → List RawOrder → List (String × Outcome) → Result Exc (List Match)
  matches_of price size raws [] = ok []
  matches_of price size raws (leg ∷ legs) =
      then_match leg (matching_orders client (codes "BUY") leg.0 price size raws)
        (matches_of price size raws legs)

  -- `_order_id(raw) or raw.get("id")`
  abbrev pub found_id : RawOrder → Option String
  found_id raw = client.classified_id raw or raw.id

  abbrev pub found_order : Decimal → Decimal → Match → RawOrder → String → PlacedOrder
  found_order price size m raw i =
      placed_from client Side.buy Role.entry_role m.outcome m.token_id price size i raw

  abbrev pub with_order :
      Decimal
      → Decimal
      → Match
      → RawOrder
      → Option String
      → Option (List PlacedOrder)
      → Option (List PlacedOrder)
  with_order price size m raw none rest = none
  with_order price size m raw (some i) none = none
  with_order price size m raw (some i) (some orders) =
      some (found_order price size m raw i ∷ orders)

  abbrev pub then_order :
      Decimal
      → Decimal
      → Match
      → List RawOrder
      → Option (List PlacedOrder)
      → Option (List PlacedOrder)
  then_order price size m [] rest = none
  then_order price size m (raw ∷ _) rest = with_order price size m raw (found_id raw) rest

  -- the order of each leg, or nothing when one has no id
  unfoldable pub sole_orders : Decimal → Decimal → List Match → Option (List PlacedOrder)
  sole_orders price size [] = some []
  sole_orders price size (m ∷ ms) = then_order price size m m.rows (sole_orders price size ms)

  abbrev pub with_id : Option String → List String → List String
  with_id none rest = rest
  with_id (some i) rest = i ∷ rest

  -- the ids of the rows that have one
  abbrev pub ids_of_rows : List RawOrder → List String
  ids_of_rows [] = []
  ids_of_rows (raw ∷ raws) = with_id (found_id raw) (ids_of_rows raws)

  abbrev pub found_ids : List Match → List String
  found_ids [] = []
  found_ids (m ∷ ms) = ids_of_rows m.rows ++ found_ids ms

  abbrev pub result_without : String → Bool → PlacementResult
  result_without text retryable = record {
    orders = [];
    error = some text;
    retryable = retryable;
    attempts = 1;
    expected = 2;
    registered_ts_ms = none;
    held_back = 0;
    gave_up = false;
  }

  abbrev pub result_with : List PlacedOrder → ℕ → PlacementResult
  result_with orders expected = record {
    orders = orders;
    error = none;
    retryable = false;
    attempts = 1;
    expected = expected;
    registered_ts_ms = none;
    held_back = 0;
    gave_up = false;
  }

  abbrev pub keep_found : SubmissionKey → ℕ → Option (List PlacedOrder) → Call PlacementResult
  keep_found key expected none = pure (result_without "matched open order has no order id" false)
  keep_found key expected (some orders) = pop_submission key >> pure (result_with orders expected)

  abbrev pub cancel_found : SubmissionKey → Bool → List String → Call PlacementResult
  cancel_found key retryable (i ∷ is) =
      ask (λ call. cancel_orders client call (i ∷ is))
      >> pop_submission key
      >> pure
          (result_without "ambiguous submission produced a partial or duplicate order set" false)
  cancel_found key retryable [] =
      (if not retryable then pop_submission key else pure tt)
      >> pure (result_without "ambiguous submission did not produce exactly two orders" retryable)

  -- every leg matched exactly once, or the rows that were found are cancelled
  unfoldable pub resolve_matches :
      Decimal → Decimal → SubmissionKey → ℕ → Bool → List Match → Call PlacementResult
  resolve_matches price size key expected retryable ms =
      if all is_sole ms
      then keep_found key expected (sole_orders price size ms)
      else cancel_found key retryable (found_ids ms)

  -- the rows of each leg, among the open orders
  abbrev pub search_legs :
      Decimal → Decimal → List (String × Outcome) → List RawOrder → Call (List Match)
  search_legs price size legs raws s = (lift (matches_of price size raws legs), s)

  unfoldable pub reconcile_ambiguous_dual :
      Submission → Market → Decimal → Decimal → Bool → Call PlacementResult
  reconcile_ambiguous_dual how market price size retryable_if_missing =
      let specifications = entry_specifications how market in
      ask (λ call. client.get_open_orders call (some market.condition_id))
      >>= search_legs price size (expected_from [] specifications)
      >>= resolve_matches price size (submission_key market price size) (length specifications)
          retryable_if_missing

abbrev pub no_interval : Exc
no_interval = "ValueError: submission_interval_ms must be above 0"

module _ (client : Client) (signer : Signer) (wording : Wording)
    (knock : ℕ → KnockPlan → Result Exc (List KnockOutcome)) where
  abbrev pub settle_first : Entry → List KnockOutcome → Call PlacementResult
  settle_first entry [] = raise (Raised.raised "IndexError: list index out of range")
  settle_first entry (outcome ∷ _) = settle_entry client wording entry outcome

  abbrev pub knock_alone : Market → ℕ → Decimal → Entry → Call PlacementResult
  knock_alone market knock_until_ms interval_ms entry =
      if leb interval_ms 0
      then raise (Raised.raised no_interval)
      else ask (λ call.
        knock call
          (knock_plan market (knock_member entry "primary" 0 ∷ []) interval_ms knock_until_ms none))
        >>= settle_first entry

  abbrev pub place_prepared : Market → ℕ → Decimal → Prepared → Call PlacementResult
  place_prepared market knock_until_ms interval_ms (Prepared.refused r) = pure r
  place_prepared market knock_until_ms interval_ms (Prepared.ready entry) =
      knock_alone market knock_until_ms interval_ms entry

  -- an interval that is not given is none above 0
  unfoldable pub place_dual :
      Submission → Market → Decimal → Decimal → Decimal → ℕ → Call PlacementResult
  place_dual how market price size interval_ms knock_until_ms =
      prepare_entry signer how market price size
      >>= place_prepared market knock_until_ms interval_ms
