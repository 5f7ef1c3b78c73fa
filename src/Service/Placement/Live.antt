-- ===== src/Service/Placement/Live.antt =====
-- service.py with exchange.py: the placement handlers on the exchange itself, and what its results
-- can reserve.
use polymarket_event_quant.Base.{
  ℕ, suc, ◌*◌, ◌≤◌, ◌≡◌, refl, Bool, true, false, none, some, List, [], ◌∷◌, length, sum_by, Result,
  ok, err, arith, All, ap, ◌∙◌, if◌then◌else◌, leb, length-map,
}
use mathlib.Core.Path.{subst}
use polymarket_event_quant.Base.Concat
use polymarket_event_quant.Base.Decimal.{Decimal, one}
use polymarket_event_quant.Models.{
  Market, TradePlan, PlacedOrder, PlacementResult, market_reserve, order_size,
}
use polymarket_event_quant.Exchange.{Exc}
use polymarket_event_quant.Exchange.Client.{Client}
use polymarket_event_quant.Exchange.Session.{
  Signer, Submission, Session, Raised, then_call, lift, raise,
}
use polymarket_event_quant.Exchange.Signing.{Entry, Prepared, prepare_entry}
use polymarket_event_quant.Exchange.Knock.{
  Wording, KnockOutcome, KnockPlan, knock_plan, knock_member,
}
use polymarket_event_quant.Exchange.Entry.Settled.{Has, settle_entry-IsSettled}
use polymarket_event_quant.Exchange.Lost.{
  place_dual, place_prepared, settle_first, reconcile_ambiguous_dual, no_interval,
}
use polymarket_event_quant.Database.Queries.{active_reserved_usd}
use polymarket_event_quant.Service.{Bot, Settings}
use polymarket_event_quant.Service.Placement.{place_activated_markets}
use polymarket_event_quant.Service.Placement.Steps.{Desk, DualEnd}
use polymarket_event_quant.Service.Placement.Budget.{placement_within_limit}
use polymarket_event_quant.Service.Placement.Budget.Placed.{FitsDesk, FitsEnd, FitsResult}
use polymarket_event_quant.Service.Placement.Budget.Rules.{order_cost, IsExact}
use polymarket_event_quant.Exchange.Signing.Reuse.{Asked, prepare_entry-Asked}
use polymarket_event_quant.Exchange.Lost.Whole.{reconcile_ambiguous_dual-Has}

-- how a call ends, as the placement handlers see it
abbrev pub dual_end : Result Raised PlacementResult → DualEnd
dual_end (ok r) = DualEnd.placed r
dual_end (err (Raised.ambiguous message retryable attempts)) =
    DualEnd.ambiguous message retryable attempts
dual_end (err (Raised.signing_not_ready t)) = DualEnd.raised (Concat.◌++◌ "_SigningNotReady: " t)
dual_end (err (Raised.raised e)) = DualEnd.raised e
dual_end (err Raised.unfinished) = DualEnd.raised "unfinished"

abbrev pub plain_end : Result Raised PlacementResult → Result Exc PlacementResult
plain_end (ok r) = ok r
plain_end (err (Raised.ambiguous message retryable attempts)) =
    err (Concat.◌++◌ "AmbiguousPlacementError: " message)
plain_end (err (Raised.signing_not_ready t)) = err (Concat.◌++◌ "_SigningNotReady: " t)
plain_end (err (Raised.raised e)) = err e
plain_end (err Raised.unfinished) = err "unfinished"

-- The library's account of a knock: at most one order is accepted for each of the two legs, so two
-- in all.
abbrev pub AcceptsOnce : (ℕ → KnockPlan → Result Exc (List KnockOutcome)) → Type 0
AcceptsOnce knock =
    (call : ℕ) (plan : KnockPlan) (outcomes : List KnockOutcome)
    → knock call plan ≡ ok outcomes
    → All (λ o. length o.accepted ≤ 2) outcomes

Has-cost :
    (price size : Decimal) (orders : List PlacedOrder)
    → Has price size orders
    → sum_by order_cost orders ≡ length orders * (price * size)
Has-cost price size [] h = grind arith
Has-cost price size (o ∷ orders) h =
    let same : order_cost o ≡ price * size = rw (h.0.0, h.0.1) refl in
    grind (arith, same, Has-cost price size orders h.1)

-- two orders at most, at the price and the size of the plan
at_most_reserve :
    (plan : TradePlan) (orders : List PlacedOrder)
    → IsExact plan
    → Has plan.buy_price (order_size plan) orders
    → length orders ≤ 2
    → sum_by order_cost orders ≤ market_reserve plan * one
at_most_reserve plan orders exact h le =
    rw (Has-cost plan.buy_price (order_size plan) orders h) (rw exact (grind (arith, le)))

module _ (client : Client) (signer : Signer) (wording : Wording)
    (knock : ℕ → KnockPlan → Result Exc (List KnockOutcome)) where
  -- the results of a call hold two orders at most, at the price and the size
  abbrev Bounded : Decimal → Decimal → Result Raised PlacementResult → Type 0
  Bounded price size end =
      (r : PlacementResult) → end ≡ ok r → Has price size r.orders × (length r.orders ≤ 2)

  settle_first-Bounded :
      (entry : Entry) (outcomes : List KnockOutcome) (s : Session)
      → All (λ o. length o.accepted ≤ 2) outcomes
      → Bounded entry.price entry.size (settle_first client signer wording knock entry outcomes s).0
  settle_first-Bounded entry [] s h r e = absurd (grind arith)
  settle_first-Bounded entry (o ∷ os) s h r e =
      let settled = (settle_entry-IsSettled client wording entry o s).1 r e in
      (
        settled.1,
        omega (
          arith,
          h.0,
          length-map (λ p. p.order_id) r.orders,
          length-map (λ a. a.order_id) o.accepted,
          ap length settled.0,
        ),
      )

  knocked-Bounded :
      (entry : Entry) (call : ℕ) (plan : KnockPlan) (answer : Result Exc (List KnockOutcome))
      (s : Session)
      → AcceptsOnce knock
      → knock call plan ≡ answer
      → Bounded entry.price entry.size
          (then_call (settle_first client signer wording knock entry) (lift answer, s)).0
  knocked-Bounded entry call plan (ok outcomes) s once q r h =
      settle_first-Bounded entry outcomes s (once call plan outcomes q) r h
  knocked-Bounded entry call plan (err e) s once q r h = absurd (grind arith)

  gated-Bounded :
      (entry : Entry) (plan : KnockPlan) (b : Bool) (s : Session)
      → AcceptsOnce knock
      → Bounded entry.price entry.size
          ((if b then raise {A = PlacementResult} (Raised.raised no_interval) else (λ s.
              then_call
                (settle_first client signer wording knock entry)
                (lift (knock s.calls plan), record s { calls = suc s.calls })))
            s).0
  gated-Bounded entry plan true s once r h = absurd (grind arith)
  gated-Bounded entry plan false s once r h =
      knocked-Bounded entry s.calls plan _ (record s { calls = suc s.calls }) once refl r h

  place_prepared-Bounded :
      (how : Submission) (market : Market) (until : ℕ) (interval price size : Decimal)
      (p : Prepared) (s : Session)
      → AcceptsOnce knock
      → Asked signer how market price size p
      → Bounded price size (place_prepared client signer wording knock market until interval p s).0
  place_prepared-Bounded how market until interval price size (Prepared.refused r') s once a r h =
      let same : r ≡ r' = grind arith in
      let e : r.orders ≡ [] = ap (λ x. x.orders) same ∙ a in rw e (tt, omega arith)
  place_prepared-Bounded how market until interval price size (Prepared.ready entry) s once a r h =
      let found =
        gated-Bounded entry
          (knock_plan market (knock_member entry "primary" 0 ∷ []) interval until none)
          (leb interval 0) s once r h in
      (
        subst (λ p. Has p size r.orders) a.0 (subst (λ z. Has entry.price z r.orders) a.1 found.0),
        found.1,
      )

  prepared-Bounded :
      (how : Submission) (market : Market) (price size interval : Decimal) (until : ℕ)
      (p : Result Raised Prepared × Session)
      → AcceptsOnce knock
      → ((x : Prepared) → p.0 ≡ ok x → Asked signer how market price size x)
      → Bounded price size
          (then_call (place_prepared client signer wording knock market until interval) p).0
  prepared-Bounded how market price size interval until (ok x, s) once a r h =
      place_prepared-Bounded how market until interval price size x s once (a x refl) r h
  prepared-Bounded how market price size interval until (err e, s) once a r h = absurd (grind arith)

  place_dual-Bounded :
      (how : Submission) (market : Market) (price size interval : Decimal) (until : ℕ) (s : Session)
      → AcceptsOnce knock
      → Bounded price size
          (place_dual client signer wording knock how market price size interval until s).0
  unfolding place_dual
  place_dual-Bounded how market price size interval until s once =
      prepared-Bounded how market price size interval until
        (prepare_entry signer how market price size s) once
        (prepare_entry-Asked signer how market price size s)

  module _ (how : Submission) (interval : Decimal) (sessions : ℕ → Session) (rest : Desk) where
    -- the exchange behind the placement handlers: a call finds the session that the calls before it
    -- have left, whichever that is; the books and the clock are those of `rest`
    abbrev pub exchange_desk : Desk
    exchange_desk = record rest {
      place_dual = λ call market price size until.
          dual_end
            (place_dual client signer wording knock how market price size interval until
              (sessions call)).0;
      reconcile_ambiguous_dual = λ call market price size retryable.
          plain_end
            (reconcile_ambiguous_dual client how market price size retryable (sessions call)).0;
      entry_submission = how;
    }

    dual_end-FitsEnd :
        (plan : TradePlan) (end : Result Raised PlacementResult)
        → IsExact plan
        → Bounded plan.buy_price (order_size plan) end
        → FitsEnd (market_reserve plan) (dual_end end)
    dual_end-FitsEnd plan (ok r) x h = at_most_reserve plan r.orders x (h r refl).0 (h r refl).1
    dual_end-FitsEnd plan (err (Raised.ambiguous t b k)) x h = tt
    dual_end-FitsEnd plan (err (Raised.signing_not_ready t)) x h = tt
    dual_end-FitsEnd plan (err (Raised.raised t)) x h = tt
    dual_end-FitsEnd plan (err Raised.unfinished) x h = tt

    plain_end-FitsResult :
        (plan : TradePlan) (end : Result Raised PlacementResult)
        → IsExact plan
        → Bounded plan.buy_price (order_size plan) end
        → FitsResult (market_reserve plan) (plain_end end)
    plain_end-FitsResult plan (ok r) x h = at_most_reserve plan r.orders x (h r refl).0 (h r refl).1
    plain_end-FitsResult plan (err (Raised.ambiguous t b k)) x h = tt
    plain_end-FitsResult plan (err (Raised.signing_not_ready t)) x h = tt
    plain_end-FitsResult plan (err (Raised.raised t)) x h = tt
    plain_end-FitsResult plan (err Raised.unfinished) x h = tt

    exchange_desk-FitsDesk :
        (plan : TradePlan) → IsExact plan → AcceptsOnce knock → FitsDesk plan exchange_desk
    exchange_desk-FitsDesk plan exact once = (
      (λ call m until. dual_end-FitsEnd plan _ exact (
          place_dual-Bounded how m plan.buy_price (order_size plan) interval until (sessions call)
            once)),
      λ call m retryable. plain_end-FitsResult plan _ exact (
          reconcile_ambiguous_dual-Has client how m plan.buy_price (order_size plan) retryable
            (sessions call)),
    )

-- The limit on reserved dollars holds across the placement handlers together with the exchange that
-- signs, knocks and settles their entries, and that searches for lost ones: when the limit is met
-- before the queue of activated markets is placed, it is met afterwards, whatever the venue answers,
-- as long as a knock reports at most two accepted orders, and the plan's dollars are an exact
-- multiple of its price, to the twelfth digit of the size.
pub live_within_limit :
    (client : Client) (signer : Signer) (wording : Wording)
    (knock : ℕ → KnockPlan → Result Exc (List KnockOutcome)) (how : Submission) (interval : Decimal)
    (sessions : ℕ → Session) (rest : Desk) (limit : Decimal) (settings : Settings) (now : ℕ)
    (b : Bot)
    → AcceptsOnce knock
    → IsExact settings.plan
    → settings.max_reserved_usd ≡ some limit
    → active_reserved_usd b.db ≤ limit
    → active_reserved_usd
        (place_activated_markets
          (exchange_desk client signer wording knock how interval sessions rest)
          settings
          now
          b).1.db
      ≤ limit
live_within_limit client signer wording knock how interval sessions rest limit settings now b once
      exact =
    placement_within_limit limit
      (exchange_desk client signer wording knock how interval sessions rest) settings now b
      (exchange_desk-FitsDesk client signer wording knock how interval sessions rest settings.plan
        exact once)
      exact
