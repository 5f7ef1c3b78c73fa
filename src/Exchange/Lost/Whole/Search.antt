-- ===== src/Exchange/Lost/Whole/Search.antt =====
-- What a search for a lost submission finds, leg by leg, and what its matches come to.
use polymarket_event_quant.Base.{
  ℕ, String, ◌≡◌, refl, Bool, true, false, Option, none, some, List, [], ◌∷◌, map, all, length,
  ◌==◌, Result, ok, err, if◌then◌else◌, arith, Bool-cases, Result-cases, inl, inr, ◌⊎◌, ap, ◌∙◌,
  sym, any, is_none,
}
use polymarket_event_quant.Base.Decimal.{Decimal}
use polymarket_event_quant.Models.{Outcome, PlacedOrder, PlacementResult, complete}
use polymarket_event_quant.Exchange.{Exc, RawOrder}
use polymarket_event_quant.Exchange.Client.{Client, CancelReply}
use polymarket_event_quant.Exchange.Orders.{cancel_orders}
use polymarket_event_quant.Exchange.Session.{Session, SubmissionKey, Raised}
use polymarket_event_quant.Exchange.Lost.{
  Match, is_sole, matches_of, sole_orders, found_ids, found_id, keep_found, cancel_found,
  resolve_matches, then_match, then_order, with_order, result_with,
}
use polymarket_event_quant.Exchange.Entry.Settled.{Has}

abbrev pub leg_of : Match → String × Outcome
leg_of m = (m.token_id, m.outcome)

abbrev pub order_leg : PlacedOrder → String × Outcome
order_leg o = (o.token_id, o.outcome)

module _ (client : Client) where
  -- the matches are those of the legs, in order
  abbrev pub LegsAre : List (String × Outcome) → Result Exc (List Match) → Type 0
  LegsAre legs (ok ms) = map leg_of ms ≡ legs
  LegsAre legs (err e) = Unit

  then_match-LegsAre :
      (leg : String × Outcome) (legs : List (String × Outcome)) (rows : Result Exc (List RawOrder))
      (rest : Result Exc (List Match))
      → LegsAre legs rest
      → LegsAre (leg ∷ legs) (then_match client leg rows rest)
  then_match-LegsAre leg legs (err e) rest h = tt
  then_match-LegsAre leg legs (ok rows) (err e) h = tt
  then_match-LegsAre leg legs (ok rows) (ok ms) h = ap (λ ls. leg ∷ ls) h

  pub matches_of-LegsAre :
      (price size : Decimal) (raws : List RawOrder) (legs : List (String × Outcome))
      → LegsAre legs (matches_of client price size raws legs)
  unfolding matches_of
  matches_of-LegsAre price size raws [] = refl
  matches_of-LegsAre price size raws (leg ∷ legs) =
      then_match-LegsAre leg legs _ _ (matches_of-LegsAre price size raws legs)

  -- the orders of sole matches: one for each leg, with the id of the row that was found
  -- a row that was found for a leg has no id
  abbrev pub lacks_id : List Match → Bool
  lacks_id ms = any (λ m. any (λ raw. is_none (found_id client raw)) m.rows) ms

  abbrev Finds : Decimal → Decimal → List Match → Option (List PlacedOrder) → Type 0
  Finds price size ms none = lacks_id ms ≡ true
  Finds price size ms (some orders) =
      (map order_leg orders ≡ map leg_of ms)
      × Has price size orders
      × (map (λ o. o.order_id) orders ≡ found_ids client ms)

  with_order-Finds :
      (price size : Decimal) (m : Match) (ms : List Match) (raw : RawOrder) (found : Option String)
      (rest : Option (List PlacedOrder))
      → found_id client raw ≡ found
      → m.rows ≡ raw ∷ []
      → Finds price size ms rest
      → Finds price size (m ∷ ms) (with_order client price size m raw found rest)
  with_order-Finds price size m ms raw none rest f e h = rw e (rw f refl)
  with_order-Finds price size m ms raw (some i) none f e h = rw e (rw f h)
  with_order-Finds price size m ms raw (some i) (some orders) f e h =
      (ap (λ ls. leg_of m ∷ ls) h.0, ((refl, refl), h.1), rw e (rw f (ap (λ is. i ∷ is) h.2)))

  then_order-Finds :
      (price size : Decimal) (m : Match) (ms : List Match) (rows : List RawOrder)
      (rest : Option (List PlacedOrder))
      → m.rows ≡ rows
      → is_sole m ≡ true
      → Finds price size ms rest
      → Finds price size (m ∷ ms) (then_order client price size m rows rest)
  then_order-Finds price size m ms [] rest e q h = absurd (ground (arith, e, q))
  then_order-Finds price size m ms (raw ∷ []) rest e q h =
      with_order-Finds price size m ms raw (found_id client raw) rest refl e h
  then_order-Finds price size m ms (raw ∷ raw' ∷ raws) rest e q h = absurd (ground (arith, e, q))

  sole_orders-Finds :
      (price size : Decimal) (ms : List Match)
      → all is_sole ms ≡ true
      → Finds price size ms (sole_orders client price size ms)
  unfolding sole_orders
  sole_orders-Finds price size [] q = (refl, tt, refl)
  sole_orders-Finds price size (m ∷ ms) q =
      then_order-Finds price size m ms m.rows _ refl (ground (arith, q))
        (sole_orders-Finds price size ms (ground (arith, q)))

  -- a result that says that there is no entry, and what became of the rows that were found
  abbrev pub IsEmpty : Session → List Match → PlacementResult → Type 0
  IsEmpty s ms r =
      (r.orders ≡ [])
      × (complete r ≡ false)
      × (((all is_sole ms ≡ true) × (lacks_id ms ≡ true))
          ⊎ ((all is_sole ms ≡ false)
              × ((found_ids client ms ≡ [])
                  ⊎ ((reply : Option CancelReply) × (client.cancel_orders s.calls
                          (found_ids client ms)
                        ≡ ok reply)))))

  -- a result that holds the orders of all the legs, those that the matches name
  abbrev pub IsWhole : Decimal → Decimal → ℕ → List Match → PlacementResult → Type 0
  IsWhole price size expected ms r =
      (map order_leg r.orders ≡ map leg_of ms)
      × Has price size r.orders
      × (map (λ o. o.order_id) r.orders ≡ found_ids client ms)
      × (all is_sole ms ≡ true)
      × (complete r ≡ (length r.orders == expected))

  abbrev Resolved :
      Decimal
      → Decimal
      → ℕ
      → List Match
      → Session
      → Result Raised PlacementResult × Session
      → Type 0
  Resolved price size expected ms s end =
      (r : PlacementResult) → end.0 ≡ ok r → IsWhole price size expected ms r ⊎ IsEmpty s ms r

  keep_found-Resolved :
      (price size : Decimal) (key : SubmissionKey) (expected : ℕ) (ms : List Match)
      (orders : Option (List PlacedOrder)) (s : Session)
      → all is_sole ms ≡ true
      → Finds price size ms orders
      → Resolved price size expected ms s (keep_found client key expected orders s)
  keep_found-Resolved price size key expected ms none s q f r h =
      (inr (ground arith, ground arith, inl (q, f)))
  keep_found-Resolved price size key expected ms (some orders) s q f r h =
      let e : r ≡ result_with client orders expected = grind arith in
      inl (
        rw e f.0,
        rw e f.1,
        rw e f.2,
        q,
        ap complete e ∙ ap (λ x. length x.orders == expected) (sym e),
      )

  cancelled-Resolved :
      (price size : Decimal) (key : SubmissionKey) (expected : ℕ) (retryable : Bool)
      (ms : List Match) (ids : List String) (s : Session)
      → all is_sole ms ≡ false
      → found_ids client ms ≡ ids
      → Resolved price size expected ms s (cancel_found client key retryable ids s)
  unfolding cancel_orders
  cancelled-Resolved price size key expected retryable ms [] s u e r h =
      (elim (Bool-cases retryable) [
        | inl b ↦ inr (ground (arith, b), ground (arith, b), inr (u, inl e))
        | inr b ↦ inr (ground (arith, b), ground (arith, b), inr (u, inl e))
      ])
  cancelled-Resolved price size key expected retryable ms (i ∷ is) s u e r h =
      elim (Result-cases (client.cancel_orders s.calls (i ∷ is))) [
        | inl (reply, q) ↦ inr (ground (arith, q), ground (arith, q), inr (u, inr (reply, rw e q)))
        | inr (x, q) ↦ absurd (ground (arith, q, h))
      ]

  choose-Resolved :
      (price size : Decimal) (key : SubmissionKey) (expected : ℕ) (retryable : Bool)
      (ms : List Match) (s : Session) (b : Bool)
      → all is_sole ms ≡ b
      → Resolved price size expected ms s (
          (if b
              then keep_found client key expected (sole_orders client price size ms)
              else cancel_found client key retryable (found_ids client ms))
            s)
  choose-Resolved price size key expected retryable ms s true q =
      keep_found-Resolved price size key expected ms (sole_orders client price size ms) s q
        (sole_orders-Finds price size ms q)
  choose-Resolved price size key expected retryable ms s false q =
      cancelled-Resolved price size key expected retryable ms (found_ids client ms) s q refl

  pub resolve_matches-Resolved :
      (price size : Decimal) (key : SubmissionKey) (expected : ℕ) (retryable : Bool)
      (ms : List Match) (s : Session)
      → Resolved price size expected ms s
          (resolve_matches client price size key expected retryable ms s)
  unfolding resolve_matches
  resolve_matches-Resolved price size key expected retryable ms s =
      choose-Resolved price size key expected retryable ms s (all is_sole ms) refl
