-- ===== src/Fleet/Settlement.antt =====
-- What the settlement of a fleet leaves.
use polymarket_event_quant.Base.{
  String, ◌≡◌, refl, Bool, true, false, not, Option, List, [], ◌∷◌, ◌++◌, map, arith, Bool-cases,
  inl, inr, Result, ok, err, str_eq, if◌then◌else◌, ◌⊎◌, any, ◌&&◌, all, ◌∙◌,
}
use polymarket_event_quant.Fleet.{
  MemberPlacement, settle, orders_of, registered, ids_of, Settled, settle_laggard, cancelled_order,
  cancel_outcome, no_result, is_laggard, stamped, is_clean_failure, retryable, gather, Clock,
  choose,
}
use polymarket_event_quant.Exchange.{Exc}
use polymarket_event_quant.Exchange.Client.{CancelReply}
use polymarket_event_quant.Models.{Status, PlacedOrder}

-- the ids of all the orders that the members' results hold
abbrev pub all_ids : List MemberPlacement → List String
all_ids [] = []
all_ids (p ∷ ps) = ids_of (orders_of p) ++ all_ids ps

-- a state that is asked for or confirmed when an order is taken back
abbrev pub is_taken_back : Status → Bool
is_taken_back Status.cancelled = true
is_taken_back Status.terminal_unknown = true
is_taken_back Status.cancel_requested = true
is_taken_back _ = false

ids-map :
    (f : PlacedOrder → PlacedOrder)
    → ((o : PlacedOrder) → (f o).order_id ≡ o.order_id)
    → (os : List PlacedOrder) (rest : List PlacedOrder) (more : List String) → ids_of rest ≡ more
    → ids_of (map f os ++ rest) ≡ ids_of os ++ more
ids-map f keeps [] rest more h = h
ids-map f keeps (o ∷ os) rest more h = ground (arith, keeps o, ids-map f keeps os rest more h)

module _ (cancel : String → List String → Result Exc (Option CancelReply)) (keep_best : Bool)
    (kept : Option String) where
  laggard-ids :
      (p : MemberPlacement) (r : Result Exc (Option CancelReply)) (rest : Settled)
      (more : List String)
      → ids_of rest.orders ≡ more
      → ids_of (settle_laggard p r rest).orders ≡ ids_of (orders_of p) ++ more
  laggard-ids p (err e) rest more h =
      ids-map (cancelled_order p.member [] []) (λ o. refl) (orders_of p) rest.orders more h
  laggard-ids p (ok x) rest more h =
      ids-map (cancelled_order p.member (cancel_outcome x).0 (cancel_outcome x).1) (λ o. refl)
        (orders_of p) rest.orders more h

  empty-ids : (p : MemberPlacement) → no_result p ≡ true → ids_of (orders_of p) ≡ []
  empty-ids p h = go (orders_of p) h
    where
      go : (os : List PlacedOrder) → (elim os [ [] ↦ true | _ ∷ _ ↦ false ]) ≡ true → ids_of os ≡ []
      go [] h' = refl
      go (o ∷ os) h' = ground arith

  -- one member, on the settlement of the rest
  abbrev settle_one : MemberPlacement → Settled → Settled
  settle_one p rest =
      if no_result p
      then rest
      else if not (is_laggard keep_best kept p)
      then record rest { orders = map (stamped p.member) (orders_of p) ++ rest.orders }
      else settle_laggard p (cancel p.member (ids_of (orders_of p))) rest

  settled-ids :
      (p : MemberPlacement) (rest : Settled) (more : List String)
      → ids_of rest.orders ≡ more
      → ids_of (settle_one p rest).orders ≡ ids_of (orders_of p) ++ more
  settled-ids p rest more h = elim (Bool-cases (no_result p)) [
    | inl e ↦ rw e (rw (empty-ids p e) h)
    | inr e ↦ rw e (elim (Bool-cases (is_laggard keep_best kept p)) [
      | inr q ↦ rw q (ids-map (stamped p.member) (λ o. refl) (orders_of p) rest.orders more h)
      | inl q ↦ rw q (laggard-ids p (cancel p.member (ids_of (orders_of p))) rest more h)
    ])
  ]

  -- Whatever the venue answers to the cancels, each order of each member is recorded once, in order.
  pub settle_loses_none :
      (ps : List MemberPlacement) → ids_of (settle cancel keep_best kept ps).orders ≡ all_ids ps
  unfolding settle
  settle_loses_none [] = refl
  settle_loses_none (p ∷ ps) =
      settled-ids p (settle cancel keep_best kept ps) (all_ids ps) (settle_loses_none ps)

-- an order of the kept member, or of a member whose placement was not complete, or one that is being
-- taken back
abbrev pub IsSettled : String → List MemberPlacement → PlacedOrder → Type 0
IsSettled k ps o =
    (is_taken_back o.status ≡ true)
    ⊎ (str_eq k o.account ≡ true)
    ⊎ (any (λ p. str_eq p.member o.account && not (registered p)) ps ≡ true)

clean-empty : (p : MemberPlacement) → is_clean_failure p ≡ true → ids_of (orders_of p) ≡ []
clean-empty p h = ground arith

all_ids-clean : (ps : List MemberPlacement) → all is_clean_failure ps ≡ true → all_ids ps ≡ []
all_ids-clean [] h = refl
all_ids-clean (p ∷ ps) h = rw (clean-empty p (ground arith)) (all_ids-clean ps (ground arith))

ids-nil : (os : List PlacedOrder) → ids_of os ≡ [] → os ≡ []
ids-nil [] h = refl
ids-nil (o ∷ os) h = ground arith

-- A placement of the fleet that is tried again has left no order at any member, so a retry never
-- adds to orders that rest already.
pub retryable_rests_none :
    (cancel : String → List String → Result Exc (Option CancelReply)) (keep_best : Bool)
    (clocks : List Clock) (ps : List MemberPlacement)
    → retryable (gather cancel keep_best clocks ps) ≡ true
    → (gather cancel keep_best clocks ps).settled.orders ≡ []
unfolding retryable gather
retryable_rests_none cancel keep_best clocks ps h = ids-nil _ (
    settle_loses_none cancel keep_best (choose clocks ps).kept ps ∙ all_ids-clean ps (ground arith))
