-- ===== src/Exchange/Lost/Tests.antt =====
-- Runs of an entry's end: a partial one, a lost one, and one that is found whole.
use polymarket_event_quant.Base.{
  eq_iff, ◌≡◌, refl, true, false, none, some, List, [], ◌∷◌, ok, map, ◌≢◌, arith, ◌⊎◌, all,
}
use polymarket_event_quant.Base.Text.{codes, to_upper}
use polymarket_event_quant.Models.{Outcome, PlacementResult, complete}
use polymarket_event_quant.Exchange.{RawOrder}
use polymarket_event_quant.Exchange.Client.{Client}
use polymarket_event_quant.Exchange.Session.{Submission, entry_specifications}
use polymarket_event_quant.Exchange.Signing.Tests.{session, signed_entry}
use polymarket_event_quant.Exchange.Knock.{Wording, Value, KnockOutcome, Ended}
use polymarket_event_quant.Exchange.Orders.{matching_orders}
use polymarket_event_quant.Exchange.Entry.{settle_entry, accepted_orders}
use polymarket_event_quant.Exchange.Entry.Settled.{settle_entry-IsSettled, IsSettled, Has}
use polymarket_event_quant.Exchange.Lost.{
  reconcile_ambiguous_dual, matches_of, found_ids, resolve_matches, sole_orders, found_order, Match,
  is_sole,
}
use polymarket_event_quant.Exchange.Lost.Whole.{reconcile_whole_or_nothing, swap}
use polymarket_event_quant.Exchange.Lost.Whole.Search.{IsEmpty, order_leg}
use polymarket_event_quant.Fixtures.{cents, market, client, raw_order}

abbrev pub wording : Wording
wording = record {
  parsed = λ body. Value.dict (some (codes "live")) none body;
  show_number = λ n. "n";
  show_failure = λ message. message;
}

-- one leg is accepted, the other is not
abbrev pub half : KnockOutcome
half = record {
  attempts = 40;
  held_back = 3;
  registered_ms = some 7;
  accepted = record { order_id = "a1"; outcome = Outcome.up; status = 200; body = "{}" } ∷ [];
  ambiguous = Ended.reply 0 "" ∷ [];
  errors = Ended.text "not ready" ∷ [];
  gave_up = false;
}

settle_entry-IsSettled_example :
    IsSettled client wording signed_entry half session
      (settle_entry client wording signed_entry half session)
settle_entry-IsSettled_example = settle_entry-IsSettled client wording signed_entry half session

-- nothing was accepted, and one send has no verdict
lost_run :
    (settle_entry client wording signed_entry (record half { accepted = [] }) session).1.calls ≡ 0
unfolding settle_entry accepted_orders
lost_run = refl

abbrev down_order : RawOrder
down_order = record raw_order { id = some "e8"; asset_id = some "d1" }

-- the venue shows both legs
abbrev both_shown : Client
both_shown = record client { get_open_orders = λ call condition. ok (down_order ∷ raw_order ∷ []) }

abbrev found : PlacementResult
found = record {
  orders =
      found_order both_shown (cents 10) (cents 10000)
        (record { token_id = "u1"; outcome = Outcome.up; rows = raw_order ∷ [] }) raw_order "e9"
      ∷ found_order both_shown (cents 10) (cents 10000)
          (record { token_id = "d1"; outcome = Outcome.down; rows = down_order ∷ [] }) down_order
          "e8"
      ∷ [];
  error = none;
  retryable = false;
  attempts = 1;
  expected = 2;
  registered_ts_ms = none;
  held_back = 0;
  gave_up = false;
}

tokens_differ : market.up_token_id ≢ market.down_token_id
tokens_differ h = ground (arith, h, eq_iff market.up_token_id market.down_token_id)

found_run :
    (reconcile_ambiguous_dual both_shown Submission.both_sides market
      (cents 10)
      (cents 10000)
      true
      session).0
    ≡ ok found
unfolding reconcile_ambiguous_dual matches_of matching_orders resolve_matches sole_orders to_upper
found_run = refl

reconcile_whole_or_nothing_example :
    (raws : List RawOrder) × (ms : List Match) × (both_shown.get_open_orders 0
        (some market.condition_id)
      ≡ ok raws)
    × (matches_of both_shown
          (cents 10)
          (cents 10000)
          raws
          (map (swap both_shown) (entry_specifications Submission.both_sides market))
        ≡ ok ms)
    × ((complete found ≡ true)
          × (map order_leg found.orders
              ≡ map (swap both_shown) (entry_specifications Submission.both_sides market))
          × Has (cents 10) (cents 10000) found.orders
          × (map (λ o. o.order_id) found.orders ≡ found_ids both_shown ms)
          × (all is_sole ms ≡ true)
        ⊎ IsEmpty both_shown (record session { calls = 1 }) ms found)
reconcile_whole_or_nothing_example =
    reconcile_whole_or_nothing both_shown Submission.both_sides market (cents 10) (cents 10000) true
      session found tokens_differ found_run
