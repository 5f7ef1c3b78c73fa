-- ===== src/Exchange/Entry/Settled.antt =====
-- What a knock comes to: how `settle_entry` ends.
use polymarket_event_quant.Base.{
  suc, String, ◌≡◌, refl, Bool, true, false, not, ◌&&◌, Option, none, some, List, [], ◌∷◌, map,
  length, ◌==◌, Result, ok, err, if◌then◌else◌, arith, Bool-cases, inl, inr, ◌⊎◌, All, ap, ◌∙◌,
}
use polymarket_event_quant.Base.Decimal.{Decimal}
use polymarket_event_quant.Models.{PlacedOrder, PlacementResult, complete}
use polymarket_event_quant.Exchange.{Exc}
use polymarket_event_quant.Exchange.Client.{Client, CancelReply}
use polymarket_event_quant.Exchange.Session.{
  Session, SubmissionKey, Raised, submission_of, drop_submission, same_key, SignedEntry, then_call,
}
use polymarket_event_quant.Exchange.Signing.{Entry}
use polymarket_event_quant.Exchange.Knock.{Wording, Accepted, KnockOutcome}
use polymarket_event_quant.Exchange.Entry.{
  accepted_orders, settle_entry, settle_read, settle_accepted, finalize_dual_result, entry_result,
  is_ambiguous, token_for, cancel_partial, lift, then_accept,
}

-- a call that ended with an AmbiguousPlacementError
abbrev pub is_lost {ℓ} : {A : Type ℓ} → Result Raised A → Bool
is_lost (err (Raised.ambiguous message retryable attempts)) = true
is_lost _ = false

abbrev pub is_empty {ℓ} : {A : Type ℓ} → List A → Bool
is_empty [] = true
is_empty (_ ∷ _) = false

abbrev pub Has : Decimal → Decimal → List PlacedOrder → Type 0
Has price size orders = All (λ o. (o.price ≡ price) × (o.size ≡ size)) orders

submission_of-drop :
    (k : SubmissionKey) (es : List SignedEntry) → submission_of k (drop_submission k es) ≡ none
submission_of-drop k [] = refl
submission_of-drop k (e ∷ es) = elim (Bool-cases (same_key e.key k)) [
  | inl q ↦ rw q (submission_of-drop k es)
  | inr q ↦ rw (q, q) (submission_of-drop k es)
]

module _ (client : Client) (wording : Wording) where
  -- the orders that are no complete entry have been cancelled
  abbrev pub Answered : PlacementResult → Session → Type 0
  Answered r s =
      (complete r ≡ true)
      ⊎ ((r.orders ≡ [])
          ⊎ ((reply : Option CancelReply) × (client.cancel_orders s.calls
                  (map (λ o. o.order_id) r.orders)
                ≡ ok reply)))

  abbrev Finalized :
      PlacementResult → SubmissionKey → Session → Result Raised PlacementResult × Session → Type 0
  Finalized r key s end =
      (is_lost end.0 ≡ false)
      × ((res : PlacementResult)
          → end.0 ≡ ok res
          → (res ≡ r)
            × Answered r s
            × (r.retryable ≡ false → submission_of key end.1.submissions ≡ none))

  cancelled-Finalized :
      (r : PlacementResult) (key : SubmissionKey) (s : Session) (o : PlacedOrder)
      (os : List PlacedOrder) (reply : Result Exc (Option CancelReply))
      → client.cancel_orders s.calls (map (λ o. o.order_id) (o ∷ os)) ≡ reply
      → r.orders ≡ o ∷ os
      → Finalized r key s (
          then_call {A = Unit {0}}
            (λ _ s'. (ok r, s'))
            (then_call
              (λ _ s'. (ok tt, record s' { submissions = drop_submission key s'.submissions }))
              (lift reply, record s { calls = suc s.calls })))
  cancelled-Finalized r key s o os (ok reply) q e = (
    refl,
    λ res h. (grind arith, inr (inr (reply, rw e q)), λ _. submission_of-drop key s.submissions),
  )
  cancelled-Finalized r key s o os (err x) q e = (refl, λ res h. absurd (grind arith))

  cancel_partial-Finalized :
      (r : PlacementResult) (key : SubmissionKey) (s : Session) (orders : List PlacedOrder)
      → r.orders ≡ orders
      → Finalized r key s (cancel_partial client wording r key orders s)
  cancel_partial-Finalized r key s (o ∷ os) e = cancelled-Finalized r key s o os _ refl e
  cancel_partial-Finalized r key s [] e = elim (Bool-cases r.retryable) [
    | inl q ↦ rw q (refl, λ res h. (grind arith, inr (inl e), λ f. absurd (grind arith)))
    | inr q ↦
        rw q (refl, λ res h. (grind arith, inr (inl e), λ _. submission_of-drop key s.submissions))
  ]

  choose-Finalized :
      (r : PlacementResult) (key : SubmissionKey) (s : Session) (b : Bool)
      → complete r ≡ b
      → Finalized r key s (
          (if b
              then (λ s'. (ok r, record s' { submissions = drop_submission key s'.submissions }))
              else cancel_partial client wording r key r.orders)
            s)
  choose-Finalized r key s true q =
      (refl, λ res h. (grind arith, inl q, λ _. submission_of-drop key s.submissions))
  choose-Finalized r key s false q = cancel_partial-Finalized r key s r.orders refl

  finalize-Finalized :
      (r : PlacementResult) (key : SubmissionKey) (s : Session)
      → Finalized r key s (finalize_dual_result client wording r key s)
  unfolding finalize_dual_result
  finalize-Finalized r key s = choose-Finalized r key s (complete r) refl

  -- the orders of a result, against what the knock accepted
  abbrev Matches : Entry → List Accepted → Result Exc (List PlacedOrder) → Type 0
  Matches entry accepted (ok orders) =
      (map (λ o. o.order_id) orders ≡ map (λ a. a.order_id) accepted)
      × Has entry.price entry.size orders
      × (length orders ≡ length accepted)
  Matches entry accepted (err e) = is_empty accepted ≡ false

  then_accept-Matches :
      (entry : Entry) (a : Accepted) (more : List Accepted) (token : Option String)
      (rest : Result Exc (List PlacedOrder))
      → Matches entry more rest
      → Matches entry (a ∷ more) (then_accept client wording entry a token rest)
  then_accept-Matches entry a more none rest h = refl
  then_accept-Matches entry a more (some token) (err e) h = refl
  then_accept-Matches entry a more (some token) (ok orders) h =
      (ap (λ is. a.order_id ∷ is) h.0, ((refl, refl), h.1), omega (arith, h.2))

  accepted_orders-Matches :
      (entry : Entry) (accepted : List Accepted)
      → Matches entry accepted (accepted_orders client wording entry accepted)
  unfolding accepted_orders
  accepted_orders-Matches entry [] = (refl, tt, refl)
  accepted_orders-Matches entry (a ∷ more) =
      then_accept-Matches entry a more (token_for entry.specifications a.outcome) _
        (accepted_orders-Matches entry more)

  -- how an entry ends: `end` against what the knock reported
  abbrev pub IsSettled :
      Entry → KnockOutcome → Session → Result Raised PlacementResult × Session → Type 0
  IsSettled entry outcome s end =
      (is_lost end.0 ≡ (is_empty outcome.accepted && not (is_empty outcome.ambiguous)))
      × ((r : PlacementResult)
          → end.0 ≡ ok r
          → (map (λ o. o.order_id) r.orders ≡ map (λ a. a.order_id) outcome.accepted)
            × Has entry.price entry.size r.orders
            × (complete r ≡ (length outcome.accepted == length entry.specifications))
            × Answered r s
            × (submission_of entry.key end.1.submissions ≡ none))

  is_ambiguous_eq :
      (outcome : KnockOutcome) (orders : List PlacedOrder) (accepted : List Accepted)
      → length orders ≡ length accepted
      → is_ambiguous client wording outcome orders
        ≡ (is_empty accepted && not (is_empty outcome.ambiguous))
  is_ambiguous_eq outcome [] [] h = ground arith
  is_ambiguous_eq outcome (o ∷ os) [] h = absurd (omega (arith, h))
  is_ambiguous_eq outcome [] (a ∷ more) h = absurd (omega (arith, h))
  is_ambiguous_eq outcome (o ∷ os) (a ∷ more) h = refl

  entry_result_lem :
      (entry : Entry) (outcome : KnockOutcome) (orders : List PlacedOrder)
      → let r = entry_result client wording entry outcome orders in
        (r.orders ≡ orders)
        × (complete r ≡ (length orders == length entry.specifications))
        × (r.retryable ≡ false)
  entry_result_lem entry outcome [] = ground arith
  entry_result_lem entry outcome (o ∷ os) = ground arith

  finalized-IsSettled :
      (entry : Entry) (outcome : KnockOutcome) (orders : List PlacedOrder) (s : Session)
      → Matches entry outcome.accepted (ok orders)
      → is_ambiguous client wording outcome orders ≡ false
      → IsSettled entry outcome s (
          finalize_dual_result client wording
            (entry_result client wording entry outcome orders)
            entry.key
            s)
  finalized-IsSettled entry outcome orders s m q =
      let (lost, ends) =
        finalize-Finalized (entry_result client wording entry outcome orders) entry.key s in
      let (same, whole, once) = entry_result_lem entry outcome orders in
      (
        ground (arith, lost, is_ambiguous_eq outcome orders outcome.accepted m.2),
        λ r h.
            let (e, answered, gone) = ends r h in
            (
              rw e (rw same m.0),
              rw e (rw same m.1),
              ap complete e ∙ whole ∙ ap (λ n. n == length entry.specifications) m.2,
              rw e answered,
              gone once,
            ),
      )

  settle_accepted-IsSettled :
      (entry : Entry) (outcome : KnockOutcome) (orders : List PlacedOrder) (s : Session)
      → Matches entry outcome.accepted (ok orders)
      → IsSettled entry outcome s (settle_accepted client wording entry outcome orders s)
  settle_accepted-IsSettled entry outcome orders s m =
      elim (Bool-cases (is_ambiguous client wording outcome orders)) [
        | inl q ↦ rw q (
          ground (arith, is_ambiguous_eq outcome orders outcome.accepted m.2),
          λ r h. absurd (grind arith),
        )
        | inr q ↦ rw q (finalized-IsSettled entry outcome orders s m q)
      ]

  settle_read-IsSettled :
      (entry : Entry) (outcome : KnockOutcome) (orders : Result Exc (List PlacedOrder))
      (s : Session)
      → Matches entry outcome.accepted orders
      → IsSettled entry outcome s (settle_read client wording entry outcome orders s)
  settle_read-IsSettled entry outcome (ok orders) s m =
      settle_accepted-IsSettled entry outcome orders s m
  settle_read-IsSettled entry outcome (err e) s m = (ground (arith, m), λ r h. absurd (grind arith))

  -- The end of an entry's knock. The error of an ambiguous placement is raised exactly when no order
  -- was accepted and some send came back without a verdict. A result that is returned has one order
  -- for each accepted one, with its id and with the entry's price and size; it is complete exactly
  -- when as many orders were accepted as the entry has legs, its orders are complete, none, or the
  -- venue has answered a cancel of all of them, and the signed orders are forgotten.
  pub settle_entry-IsSettled :
      (entry : Entry) (outcome : KnockOutcome) (s : Session)
      → IsSettled entry outcome s (settle_entry client wording entry outcome s)
  unfolding settle_entry
  settle_entry-IsSettled entry outcome s =
      settle_read-IsSettled entry outcome (accepted_orders client wording entry outcome.accepted) s
        (accepted_orders-Matches entry outcome.accepted)
