-- ===== src/Exchange/Lost/Whole.antt =====
-- The search for a lost submission: it finds the whole entry, or it leaves nothing behind.
pub mod Search
use polymarket_event_quant.Base.{
  ℕ, suc, String, ◌≡◌, refl, Bool, true, false, Option, none, some, List, [], ◌∷◌, map, all, length,
  ◌==◌, str_eq, Result, ok, err, if◌then◌else◌, arith, Bool-cases, Result-cases, inl, inr, ◌⊎◌, ap,
  ◌∙◌, ◌≢◌, sym, eq_iff, length-map, ◌≤◌,
}
use mathlib.Core.Path.{subst}
use polymarket_event_quant.Base.Decimal.{Decimal}
use polymarket_event_quant.Models.{Market, Outcome, PlacedOrder, PlacementResult, complete}
use polymarket_event_quant.Exchange.{Exc, RawOrder}
use polymarket_event_quant.Exchange.Client.{Client, CancelReply}
use polymarket_event_quant.Exchange.Orders.{cancel_orders}
use polymarket_event_quant.Exchange.Session.{
  Session, Submission, SubmissionKey, Raised, then_call, entry_specifications, lift, submission_key,
}
use polymarket_event_quant.Exchange.Lost.{
  Match, is_sole, matches_of, sole_orders, found_ids, found_id, keep_found, cancel_found,
  resolve_matches, reconcile_ambiguous_dual, expected_from, then_match, then_order, with_order,
  result_with, search_legs,
}
use polymarket_event_quant.Exchange.Entry.Settled.{Has}
use polymarket_event_quant.Exchange.Lost.Whole.Search.{
  leg_of, order_leg, LegsAre, matches_of-LegsAre, IsEmpty, IsWhole, resolve_matches-Resolved,
}

-- the leg of a match, and that of an order
module _ (client : Client) where
  -- the matches that a search has read, and what it made of them
  abbrev Searched :
      Market → Decimal → Decimal → ℕ → List (String × Outcome) → Session → PlacementResult → Type 0
  Searched market price size expected legs s r =
      (raws : List RawOrder) × (ms : List Match) × (client.get_open_orders s.calls
          (some market.condition_id)
        ≡ ok raws)
      × (matches_of client price size raws legs ≡ ok ms)
      × (IsWhole client price size expected ms r
          ⊎ IsEmpty client (record s { calls = suc s.calls }) ms r)

  searched :
      (market : Market) (price size : Decimal) (legs : List (String × Outcome)) (expected : ℕ)
      (retryable : Bool) (s : Session) (key : SubmissionKey) (raws : List RawOrder)
      (found : Result Exc (List Match)) (r : PlacementResult)
      → client.get_open_orders s.calls (some market.condition_id) ≡ ok raws
      → matches_of client price size raws legs ≡ found
      → (then_call
          (resolve_matches client price size key expected retryable)
          (lift found, record s { calls = suc s.calls })).0
        ≡ ok r
      → Searched market price size expected legs s r
  searched market price size legs expected retryable s key raws (ok ms) r g f h = (
    raws,
    ms,
    g,
    f,
    resolve_matches-Resolved client price size key expected retryable ms
        (record s { calls = suc s.calls }) r h,
  )
  searched market price size legs expected retryable s key raws (err e) r g f h =
      absurd (grind arith)

  asked :
      (market : Market) (price size : Decimal) (legs : List (String × Outcome)) (expected : ℕ)
      (retryable : Bool) (s : Session) (key : SubmissionKey) (answer : Result Exc (List RawOrder))
      (r : PlacementResult)
      → client.get_open_orders s.calls (some market.condition_id) ≡ answer
      → (then_call (resolve_matches client price size key expected retryable) (
          then_call
            (search_legs client price size legs)
            (lift answer, record s { calls = suc s.calls }))).0
        ≡ ok r
      → Searched market price size expected legs s r
  asked market price size legs expected retryable s key (ok raws) r g h =
      searched market price size legs expected retryable s key raws _ r g refl h
  asked market price size legs expected retryable s key (err e) r g h = absurd (grind arith)

  abbrev pub swap : Outcome × String → String × Outcome
  swap leg = (leg.1, leg.0)

  expected_legs :
      (how : Submission) (market : Market)
      → market.up_token_id ≢ market.down_token_id
      → expected_from [] (entry_specifications how market)
        ≡ map swap (entry_specifications how market)
  expected_legs Submission.both_sides market ne =
      ground (arith, ne, eq_iff market.up_token_id market.down_token_id)
  expected_legs Submission.solo_up market ne = refl
  expected_legs Submission.solo_down market ne = refl

  legs_at_most_two :
      (how : Submission) (market : Market)
      → length (expected_from [] (entry_specifications how market)) ≤ 2
  legs_at_most_two Submission.both_sides market =
      ground (arith, Bool-cases (str_eq market.up_token_id market.down_token_id))
  legs_at_most_two Submission.solo_up market = omega arith
  legs_at_most_two Submission.solo_down market = omega arith

  -- the orders of a search are two at most, at the price and the size asked for
  pub reconcile_ambiguous_dual-Has :
      (how : Submission) (market : Market) (price size : Decimal) (retryable : Bool) (s : Session)
      (r : PlacementResult)
      → (reconcile_ambiguous_dual client how market price size retryable s).0 ≡ ok r
      → Has price size r.orders × (length r.orders ≤ 2)
  unfolding reconcile_ambiguous_dual
  reconcile_ambiguous_dual-Has how market price size retryable s r h =
      let legs = expected_from [] (entry_specifications how market) in
      let (raws, ms, g, f, v) =
        asked market price size legs (length (entry_specifications how market)) retryable s
          (submission_key market price size) _ r refl h in
      let same : map leg_of ms ≡ legs =
        subst (λ x. LegsAre client legs x) f (matches_of-LegsAre client price size raws legs) in
      elim v [
        | inr n ↦ rw n.0 (tt, omega arith)
        | inl w ↦ (
          w.1,
          omega (
            arith,
            length-map order_leg r.orders,
            ap length (w.0 ∙ same),
            legs_at_most_two how market,
          ),
        )
      ]

  -- The search for a lost submission ends with the whole entry, or with a result without orders.
  -- Either each leg of the entry was matched by exactly one open order, and the result is complete: it
  -- has one order for each leg, with that leg's outcome and token and the price and size asked for,
  -- and its ids are those of the open orders that match. Or the result has no order, for one of three
  -- reasons: each leg was matched by exactly one open order but one of those has no id, and they are
  -- left as they are; or some leg was not matched by exactly one, and no match has an id; or some leg
  -- was not, and the venue has answered a cancel of all the matches that have an id. The market's two
  -- tokens are taken to differ.
  pub reconcile_whole_or_nothing :
      (how : Submission) (market : Market) (price size : Decimal) (retryable : Bool) (s : Session)
      (r : PlacementResult)
      → market.up_token_id ≢ market.down_token_id
      → (reconcile_ambiguous_dual client how market price size retryable s).0 ≡ ok r
      → (raws : List RawOrder) × (ms : List Match) × (client.get_open_orders s.calls
            (some market.condition_id)
          ≡ ok raws)
        × (matches_of client price size raws (map swap (entry_specifications how market)) ≡ ok ms)
        × ((complete r ≡ true)
              × (map order_leg r.orders ≡ map swap (entry_specifications how market))
              × Has price size r.orders
              × (map (λ o. o.order_id) r.orders ≡ found_ids client ms)
              × (all is_sole ms ≡ true)
            ⊎ IsEmpty client (record s { calls = suc s.calls }) ms r)
  unfolding reconcile_ambiguous_dual
  reconcile_whole_or_nothing how market price size retryable s r ne h =
      let specs = entry_specifications how market in
      let e = expected_legs how market ne in
      let (raws, ms, g, f, v) =
        asked market price size (expected_from [] specs) (length specs) retryable s
          (submission_key market price size) _ r refl h in
      let legs : map leg_of ms ≡ expected_from [] specs =
        subst (λ x. LegsAre client (expected_from [] specs) x) f
          (matches_of-LegsAre client price size raws (expected_from [] specs)) in
      (
        raws,
        ms,
        g,
        subst (λ ls. matches_of client price size raws ls ≡ ok ms) e f,
        elim v [
          | inr n ↦ inr n
          | inl w ↦ inl (
            w.4
                ∙ ground (
                  arith,
                  length-map order_leg r.orders,
                  length-map swap specs,
                  ap length (w.0 ∙ legs ∙ e),
                ),
            w.0 ∙ legs ∙ e,
            w.1,
            w.2,
            w.3,
          )
        ],
      )
