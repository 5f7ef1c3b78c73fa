-- ===== src/Service/Loop/Gates.antt =====
-- What a block of the venue does to a tick of the loop.
use mathlib.Core.Path.{subst}
use polymarket_event_quant.Base.{
  ℕ, ◌≡◌, refl, Bool, true, false, List, [], ◌∷◌, any, Result, ok, err, arith, if◌then◌else◌,
  Bool-cases, inl, inr, ◌∙◌, sym, ap,
}
use polymarket_event_quant.Exchange.{Exc}
use polymarket_event_quant.Exchange.Client.{Client}
use polymarket_event_quant.Geoblock.{GeoblockReply, GeoblockUpdate, GeoblockWorker, run_checks}
use polymarket_event_quant.Geoblock.Blocked.{is_block, run_checks-blocked}
use polymarket_event_quant.Service.{Bot, Settings}
use polymarket_event_quant.Service.Monad.{Action, ◌>>=◌, ◌>>◌, pure}
use polymarket_event_quant.Service.Placement.Steps.{Desk}
use polymarket_event_quant.Service.Loop.{
  Inbox, Times, Polls, tick, tick_first, drain_geoblock_updates, blocked_text, note_update,
  tick_drains, tick_places, tick_rest, if_live, reconcile_step,
}
use polymarket_event_quant.Service.Monad.Ends.{bind-outcome}
use polymarket_event_quant.Service.Cancel.{cancel_due_orders}

-- an end by an exception
abbrev pub Raises {ℓ} : {A : Type ℓ} → Result Exc A → Type ℓ
Raises r = (e : Exc) × (r ≡ err e)

module _ {ℓ κ} {A : Type ℓ} {B : Type κ} (m : Action A) (f : A → Action B) (b : Bot) where
  -- a handler that raises ends the handlers after it, in the state that it leaves
  Raises-first : Raises (m b).0 → Raises ((m >>= f) b).0 × (((m >>= f) b).1 ≡ (m b).1)
  Raises-first (e, q) =
      bind-outcome (λ end. Raises end.0 × (end.1 ≡ (m b).1)) m f b
        (λ a p. absurd (grind (arith, p, q))) (λ e' p. ((e', refl), refl))

  Raises-then : ((a : A) (b' : Bot) → Raises (f a b').0) → Raises ((m >>= f) b).0
  Raises-then h = bind-outcome (λ end. Raises end.0) m f b (λ a p. h a (m b).1) (λ e p. (e, refl))

module _ {ℓ κ μ} {A : Type ℓ} {B : Type κ} {C : Type μ} where
  value-state :
      (r : Result Exc A) (f : A → Action B) (g : A → Action C) (c : Bot)
      → ((a : A) → (f a c).1 ≡ (g a c).1)
      → (◌>>=◌ (λ b. (r, b)) f c).1 ≡ (◌>>=◌ (λ b. (r, b)) g c).1
  value-state (ok a) f g c h = h a
  value-state (err e) f g c h = refl

  -- what follows a handler counts by the state that it leaves
  bind-state :
      (m : Action A) (f : A → Action B) (g : A → Action C) (b : Bot)
      → ((a : A) (c : Bot) → (f a c).1 ≡ (g a c).1)
      → ((m >>= f) b).1 ≡ ((m >>= g) b).1
  bind-state m f g b h = let (r, c) = m b in value-state r f g c (λ a. h a c)

drain_blocked :
    (settings : Settings) (now : ℕ) (us : List GeoblockUpdate) (b : Bot)
    → any (λ u. u.blocked) us ≡ true
    → Raises (drain_geoblock_updates settings now us b).0
unfolding drain_geoblock_updates
drain_blocked settings now [] b h = absurd (grind arith)
drain_blocked settings now (u ∷ us) b h = elim (Bool-cases u.blocked) [
  | inl q ↦ (blocked_text, rw q refl)
  | inr q ↦ rw q (
      Raises-then (note_update settings now u) (λ _. drain_geoblock_updates settings now us) b
        (λ _ b'. drain_blocked settings now us b' (ground (arith, h, q))))
]

if-Raises :
    (m : Action (Unit {0})) (live : Bool) (b : Bot)
    → live ≡ true
    → Raises (m b).0
    → Raises ((if live then m else pure tt) b).0
if-Raises m true b q h = h
if-Raises m false b q h = absurd (grind arith)

module _ (client : Client) (desk : Desk) (settings : Settings) (polls : Polls) (i : Inbox)
    (times : Times) (b : Bot) where
  abbrev drained : Action (Unit {0})
  drained = drain_geoblock_updates settings i.now_ts i.geoblock

  live-drained :
      settings.live ≡ true → (c : Bot) → if_live client settings polls drained c ≡ drained c
  live-drained live c = rw live refl

  -- the rest of a tick that reads a block
  rest-Raises :
      settings.live ≡ true
      → any (λ u. u.blocked) i.geoblock ≡ true
      → (recovered : Bool) (c : Bot)
      → Raises (tick_rest client settings polls i times recovered c).0
        × ((tick_rest client settings polls i times recovered c).1 ≡ (drained c).1)
  rest-Raises live h recovered c =
      let same = live-drained live c in
      let first =
        Raises-first (if_live client settings polls drained)
          (λ _. cancel_due_orders client settings i.now_ts) c
          (subst (λ end. Raises end.0) (sym same)
            (drain_blocked settings i.now_ts i.geoblock c h)) in
      let rest =
        Raises-first
          (if_live client settings polls drained >> cancel_due_orders client settings i.now_ts)
          (λ _. reconcile_step client settings polls i times recovered) c first.0 in
      (rest.0, rest.1 ∙ first.1 ∙ ap (λ end. end.1) same)

  -- A block that a check of the geoblock service found ends the tick of a live run that reads it,
  -- whatever the checks after the block say. The tick raises, in the state in which it
  -- has worked off the queues of the other workers, which may still place exits, and, if none of them
  -- raised, has taken the geoblock updates up to the block: it makes no due cancel, no
  -- reconciliation, no discovery and no placement of a queued market.
  pub block_stops_tick :
      (answers : List (Result Exc GeoblockReply)) (w : GeoblockWorker)
      → settings.live ≡ true
      → any is_block answers ≡ true
      → i.geoblock ≡ (run_checks answers w).updates
      → Raises (tick client desk settings polls i times b).0
        × ((tick client desk settings polls i times b).1
            ≡ ((tick_drains client settings polls i >>= λ _.
                  drain_geoblock_updates settings i.now_ts i.geoblock)
                b).1)
  unfolding tick tick_first
  block_stops_tick answers w live h q =
      let blocked : any (λ u. u.blocked) i.geoblock ≡ true =
        rw q (ground (arith, (run_checks-blocked answers w).0, h)) in
      let first =
        Raises-first (tick_first client settings polls i times)
          (tick_places client desk settings polls i) b
          (Raises-then (tick_drains client settings polls i)
            (tick_rest client settings polls i times) b
            (λ recovered c. (rest-Raises live blocked recovered c).0)) in
      (
        first.0,
        first.1
            ∙ bind-state (tick_drains client settings polls i)
                (tick_rest client settings polls i times) (λ _. drained) b
                (λ recovered c. (rest-Raises live blocked recovered c).1),
      )
