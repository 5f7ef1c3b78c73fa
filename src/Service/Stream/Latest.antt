-- ===== src/Service/Stream/Latest.antt =====
-- What the stream leaves in an order's row.
use polymarket_event_quant.Base.{
  ℕ, String, ◌≡◌, refl, Bool, true, Option, none, some, List, [], ◌∷◌, arith, eq_iff, str_eq,
  if◌then◌else◌, Result, ok, err, inl, inr, Bool-cases, ◌∙◌, ap, sym,
}
use polymarket_event_quant.Service.Stream.{
  Drained, StreamFlags, apply_stream, apply_update, apply_trade, apply_order, apply_health,
  is_mined,
}
use polymarket_event_quant.Service.{Bot, Settings}
use mathlib.Core.Option
use polymarket_event_quant.UserStream.{
  StreamUpdate, UserTradeUpdate, UserOrderUpdate, UserStreamState, is_placement,
}
use polymarket_event_quant.Models.{Status}
use polymarket_event_quant.Database.{Db, event, update_order, OrderRow, update_row}
use polymarket_event_quant.Base.Decimal.{Decimal}
use polymarket_event_quant.Database.Queries.{order}
use polymarket_event_quant.Service.Monad.{◌>>=◌, Action}
use polymarket_event_quant.Exchange.{Exc}
use polymarket_event_quant.Database.Rows.{order-update_order, order-id}

-- what the last update of an order among those drained says, from what was known before
abbrev pub said_by : String → StreamUpdate → Status × Decimal → Status × Decimal
said_by order_id (StreamUpdate.state_update s) known = known
said_by order_id (StreamUpdate.trade_update t) known = known
said_by order_id (StreamUpdate.order_update u) known =
    if str_eq u.order_id order_id then (u.status, u.matched_size) else known

abbrev pub last_said : String → List Drained → Status × Decimal → Status × Decimal
last_said order_id [] known = known
last_said order_id (d ∷ ds) known = last_said order_id ds (said_by order_id d.update known)

abbrev pub state_of : String → Db → Option (Status × Decimal)
state_of order_id db = Option.map (λ o. (o.status, o.matched_size)) (order order_id db)

abbrev resume {ℓ κ} :
    {A : Type ℓ} {B : Type κ} → (A → Action B) → Result Exc A × Bot → Result Exc B × Bot
resume f (r, b) = elim r [ ok a ↦ f a b | err e ↦ (err e, b) ]

bind-ok {ℓ κ} :
    {A : Type ℓ} {B : Type κ} (m : Action A) (f : A → Action B) (b : Bot) (a : A) (b' : Bot)
    → m b ≡ (ok a, b')
    → (m >>= f) b ≡ f a b'
bind-ok m f b a b' e = ap (resume f) e

-- an end without an exception, with what is then known of an order
abbrev pub Says : String → Result Exc StreamFlags × Bot → Status × Decimal → Type 0
Says order_id end known =
    (f : StreamFlags) × (b : Bot) × (end ≡ (ok f, b)) × (state_of order_id b.db ≡ some known)

module _ (settings : Settings) (now : ℕ) (order_id : String) where
  unlogged :
      (level event_type : String) (slug : Option String) (db : Db)
      → state_of order_id (event now (some settings.run_id) level event_type slug db)
        ≡ state_of order_id db
  unfolding order event
  unlogged level event_type slug db = refl

  health-Says :
      (gating : Bool) (s : UserStreamState) (flags : StreamFlags) (b : Bot)
      (known : Status × Decimal)
      → state_of order_id b.db ≡ some known
      → Says order_id (apply_health settings now gating s flags b) known
  unfolding order event
  health-Says gating s flags b known h = elim (Bool-cases s.healthy) [
    | inl e ↦ rw e (_, _, refl, h)
    | inr e ↦ rw e (_, _, refl, h)
  ]

  trade-Says :
      (t : UserTradeUpdate) (flags : StreamFlags) (b : Bot) (known : Status × Decimal)
      → state_of order_id b.db ≡ some known
      → Says order_id (apply_trade settings now t flags b) known
  trade-Says t flags b known h = elim (Bool-cases (is_mined t.status)) [
    | inl e ↦ rw e (_, _, refl, h)
    | inr e ↦ rw e (_, _, refl, h)
  ]

  updated :
      (u : UserOrderUpdate) (db : Db) (known : Status × Decimal)
      → state_of order_id db ≡ some known
      → state_of order_id (update_order now u.order_id u.status u.matched_size u.raw db)
        ≡ some (said_by order_id (StreamUpdate.order_update u) known)
  updated u db known h =
      rw (order-update_order now u.order_id u.status u.matched_size u.raw order_id db)
        (go (order order_id db) refl)
    where
      go :
          (x : Option OrderRow)
          → order order_id db ≡ x
          → Option.map
              (λ o. (o.status, o.matched_size))
              (Option.map (update_row now u.order_id u.status u.matched_size u.raw) x)
            ≡ some (said_by order_id (StreamUpdate.order_update u) known)
      go none e = ground arith
      go (some o) e =
          let i : o.order_id ≡ order_id = order-id order_id db e in
          ground (arith, eq_iff o.order_id u.order_id, eq_iff u.order_id order_id)

  order-Says :
      (u : UserOrderUpdate) (flags : StreamFlags) (b : Bot) (known : Status × Decimal)
      → state_of order_id b.db ≡ some known
      → Says order_id
          (apply_order settings now u flags (order u.order_id b.db) b)
          (said_by order_id (StreamUpdate.order_update u) known)
  order-Says u flags b known h = go (order u.order_id b.db) refl
    where
      clash :
          order u.order_id b.db ≡ none
          → str_eq u.order_id order_id ≡ true
          → order order_id b.db ≡ none
      clash e q =
          let i : u.order_id ≡ order_id = ground (arith, eq_iff u.order_id order_id) in
          ap (λ k. order k b.db) (sym i) ∙ e

      go :
          (x : Option OrderRow)
          → order u.order_id b.db ≡ x
          → Says order_id
              (apply_order settings now u flags x b)
              (said_by order_id (StreamUpdate.order_update u) known)
      go none e = (
        flags,
        b,
        refl,
        elim (Bool-cases (str_eq u.order_id order_id)) [
          | inl q ↦ ground (arith, clash e q)
          | inr q ↦ rw q h
        ],
      )
      go (some row) e = elim (Bool-cases (is_placement u.event_type)) [
        | inl q ↦ rw q (_, _, refl, unlogged _ _ _ _ ∙ updated u b.db known h)
        | inr q ↦ rw q (_, _, refl, updated u b.db known h)
      ]

  applied :
      (gating : Bool) (u : StreamUpdate) (flags : StreamFlags) (b : Bot) (known : Status × Decimal)
      → state_of order_id b.db ≡ some known
      → Says order_id (apply_update settings now gating u flags b) (said_by order_id u known)
  applied gating (StreamUpdate.state_update s) flags b known h =
      health-Says gating s flags b known h
  applied gating (StreamUpdate.trade_update t) flags b known h = trade-Says t flags b known h
  applied gating (StreamUpdate.order_update u) flags b known h = order-Says u flags b known h

-- The stream never raises in its loop, and it leaves of each known order what the last update that
-- names it says, its state and its filled size, whatever they were before: a state that was
-- terminal is overwritten too.
pub latest_update_wins :
    (settings : Settings) (now : ℕ) (order_id : String) (ds : List Drained) (flags : StreamFlags)
    (b : Bot) (known : Status × Decimal)
    → state_of order_id b.db ≡ some known
    → Says order_id (apply_stream settings now ds flags b) (last_said order_id ds known)
unfolding apply_stream
latest_update_wins settings now order_id [] flags b known h = (flags, b, refl, h)
latest_update_wins settings now order_id (d ∷ ds) flags b known h =
    let (f, b', e, q) = applied settings now order_id d.gating d.update flags b known h in
    let (g, b2, e', q') = latest_update_wins settings now order_id ds f b' _ q in
    (
      g,
      b2,
      bind-ok (apply_update settings now d.gating d.update flags)
            (λ f'. apply_stream settings now ds f') b f b' e
          ∙ e',
      q',
    )
