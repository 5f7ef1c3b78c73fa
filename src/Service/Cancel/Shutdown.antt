-- ===== src/Service/Cancel/Shutdown.antt =====
-- After the cancels of a stop, what is still open has been asked of the venue and not answered.
use polymarket_event_quant.Base.{
  ℕ, String, ◌≡◌, refl, ◌∙◌, Bool, true, false, map, ◌&&◌, Option, List, [], ◌∷◌, arith, any, All,
  filter, str_eq, Bool-cases, inl, inr, Result, ok, err, any-sort_by, suc, is_some,
}
use polymarket_event_quant.Database.{Db, OrderRow, market_row, mark_orders, mark_row, event}
use polymarket_event_quant.Service.{Bot, Settings}
use polymarket_event_quant.Service.Cancel.{
  cancel_tracked_orders, classify_cancel_result, order_ids_of, shutdown_listed, after_shutdown,
  cancel_orders,
}
use polymarket_event_quant.Service.Cancel.Due.{any-map_ids, any_self}
use polymarket_event_quant.Database.Queries.{tracked_open_orders, join}
use polymarket_event_quant.Models.Statuses.{is_tracked}
use polymarket_event_quant.Models.{Status}
use polymarket_event_quant.Exchange.Client.{Client, CancelReply}
use polymarket_event_quant.Exchange.{Exc}

-- a tracked order whose market is known
abbrev pub is_kept : Db → OrderRow → Bool
is_kept db o = is_tracked o.status && is_some (market_row o.slug db)

tracked_rows-any :
    (q : OrderRow → Bool) (db : Db) (os : List OrderRow)
    → any (λ j. q j.row) (join db (filter (λ o. is_tracked o.status) os))
      ≡ any (λ o. is_kept db o && q o) os
tracked_rows-any q db [] = refl
tracked_rows-any q db (o ∷ os) = ground (arith, tracked_rows-any q db os)

tracked_ids :
    (db : Db) (o : OrderRow)
    → any (λ i. str_eq i o.order_id) (order_ids_of (tracked_open_orders db))
      ≡ any (λ y. is_kept db y && str_eq y.order_id o.order_id) db.orders
unfolding tracked_open_orders
tracked_ids db o =
    any-map_ids o.order_id (tracked_open_orders db)
    ∙ any-sort_by (λ j. str_eq j.row.order_id o.order_id) (λ j. j.row.created_ts) _
    ∙ tracked_rows-any (λ y. str_eq y.order_id o.order_id) db db.orders

-- the ids that an answer names as cancelled, and those that had ended
abbrev pub done_ids : Result Exc (Option CancelReply) → List String × List String
done_ids (err e) = ([], [])
done_ids (ok reply) = classify_cancel_result reply

abbrev pub is_named : String → List String → Bool
is_named i is = any (λ k. str_eq k i) is

-- an order that is still open is one whose cancel was asked for, and that no answer names
abbrev pub IsLeft : List String → List String × List String → Db → OrderRow → Type 0
IsLeft is done db o =
    is_kept db o ≡ true
    → (o.status ≡ Status.cancel_requested)
      × (is_named o.order_id is ≡ true)
      × (is_named o.order_id done.0 ≡ false)
      × (is_named o.order_id done.1 ≡ false)

-- what is open has been asked for in one request of the client, whose answer does not settle it
abbrev pub IsAsked : Client → Db → Type 0
IsAsked client db =
    (call : ℕ) × (is : List String) × All (IsLeft is (done_ids (cancel_orders client call is)) db)
      db.orders

abbrev Named : Db → List String → List OrderRow → Type 0
Named db is os = All (λ o. is_kept db o ≡ true → is_named o.order_id is ≡ true) os

Named-tracked :
    (db : Db) (os : List OrderRow)
    → All
        (λ o.
          is_kept db o ≡ true
          → any (λ y. is_kept db y && str_eq y.order_id o.order_id) db.orders ≡ true)
        os
    → Named db (order_ids_of (tracked_open_orders db)) os
Named-tracked db [] h = tt
Named-tracked db (o ∷ os) h = ((λ e. tracked_ids db o ∙ h.0 e), Named-tracked db os h.1)

Named-nil :
    (db : Db) (done : List String × List String) (os : List OrderRow)
    → Named db [] os
    → All (IsLeft [] done db) os
Named-nil db done [] h = tt
Named-nil db done (o ∷ os) h = ((λ e. absurd (ground (arith, h.0 e))), Named-nil db done os h.1)

module _ (now : ℕ) (db : Db) (is : List String) where
  closed-IsLeft :
      (done : List String × List String) (os : List OrderRow)
      → Named db is os
      → All (IsLeft is done db) (map (mark_row now is Status.simulated_closed) os)
  unfolding is_tracked
  closed-IsLeft done [] h = tt
  closed-IsLeft done (o ∷ os) h = (
    (λ e. elim (Bool-cases (is_named o.order_id is)) [
      | inl q ↦ absurd (ground (arith, e, q))
      | inr q ↦ absurd (ground (arith, e, q, h.0))
    ]),
    closed-IsLeft done os h.1,
  )

  requested-IsLeft :
      (os : List OrderRow)
      → Named db is os
      → All (IsLeft is ([], []) db) (map (mark_row now is Status.cancel_requested) os)
  unfolding is_tracked
  requested-IsLeft [] h = tt
  requested-IsLeft (o ∷ os) h = (
    (λ e. elim (Bool-cases (is_named o.order_id is)) [
      | inl q ↦ ground (arith, e, q)
      | inr q ↦ absurd (ground (arith, e, q, h.0))
    ]),
    requested-IsLeft os h.1,
  )

  cancelled-IsLeft :
      (c : List String) (os : List OrderRow)
      → All (IsLeft is ([], []) db) os
      → All (IsLeft is (c, []) db) (map (mark_row now c Status.cancelled) os)
  unfolding is_tracked
  cancelled-IsLeft c [] h = tt
  cancelled-IsLeft c (o ∷ os) h = (
    (λ e. elim (Bool-cases (is_named o.order_id c)) [
      | inl q ↦ absurd (ground (arith, e, q))
      | inr q ↦ ground (arith, e, q, h.0)
    ]),
    cancelled-IsLeft c os h.1,
  )

  ended-IsLeft :
      (c t : List String) (os : List OrderRow)
      → All (IsLeft is (c, []) db) os
      → All (IsLeft is (c, t) db) (map (mark_row now t Status.terminal_unknown) os)
  unfolding is_tracked
  ended-IsLeft c t [] h = tt
  ended-IsLeft c t (o ∷ os) h = (
    (λ e. elim (Bool-cases (is_named o.order_id t)) [
      | inl q ↦ absurd (ground (arith, e, q))
      | inr q ↦ ground (arith, e, q, h.0)
    ]),
    ended-IsLeft c t os h.1,
  )

-- the marks of an answer, on the tables
answered-IsLeft :
    (now : ℕ) (db : Db) (is c t : List String)
    → All (IsLeft is ([], []) db) db.orders
    → let db' = mark_orders now t Status.terminal_unknown (mark_orders now c Status.cancelled db) in
      All (IsLeft is (c, t) db') db'.orders
unfolding mark_orders
answered-IsLeft now db is [] [] h = h
answered-IsLeft now db is (i ∷ c) [] h = cancelled-IsLeft now db is (i ∷ c) db.orders h
answered-IsLeft now db is [] (i ∷ t) h = ended-IsLeft now db is [] (i ∷ t) db.orders h
answered-IsLeft now db is (i ∷ c) (k ∷ t) h =
    ended-IsLeft now db is (i ∷ c) (k ∷ t) _ (cancelled-IsLeft now db is (i ∷ c) db.orders h)

module _ (client : Client) (settings : Settings) (now : ℕ) where
  after_shutdown-IsLeft :
      (is : List String) (r : Result Exc (Option CancelReply)) (b : Bot)
      → All (IsLeft is ([], []) b.db) b.db.orders
      → let b' = (after_shutdown client settings now r b).1 in
        All (IsLeft is (done_ids r) b'.db) b'.db.orders
  unfolding event
  after_shutdown-IsLeft is (err e) b h = h
  after_shutdown-IsLeft is (ok reply) b h =
      let (c, t) = classify_cancel_result reply in answered-IsLeft now b.db is c t h

  shutdown_listed-IsAsked :
      (is : List String) (b : Bot)
      → Named b.db is b.db.orders
      → IsAsked client (shutdown_listed client settings now is b).1.db
  unfolding mark_orders
  shutdown_listed-IsAsked [] b h = (b.calls, [], Named-nil b.db _ b.db.orders h)
  shutdown_listed-IsAsked (i ∷ is) b h = elim (Bool-cases settings.live) [
    | inr e ↦ rw e (
      b.calls,
      i ∷ is,
      closed-IsLeft now b.db (i ∷ is) (done_ids (cancel_orders client b.calls (i ∷ is))) b.db.orders
          h,
    )
    | inl e ↦ rw e (
      b.calls,
      i ∷ is,
      after_shutdown-IsLeft (i ∷ is) (cancel_orders client b.calls (i ∷ is))
          (record b {
            db = mark_orders now (i ∷ is) Status.cancel_requested b.db;
            calls = suc b.calls;
          })
          (requested-IsLeft now b.db (i ∷ is) b.db.orders h),
    )
  ]

-- After the cancels of a stop, what is open has been asked for.
pub cancel_tracked_orders-IsAsked :
    (client : Client) (settings : Settings) (now : ℕ) (b : Bot)
    → IsAsked client (cancel_tracked_orders client settings now b).1.db
unfolding cancel_tracked_orders
cancel_tracked_orders-IsAsked client settings now b =
    shutdown_listed-IsAsked client settings now _ b
      (Named-tracked b.db b.db.orders (any_self (is_kept b.db) b.db.orders))
