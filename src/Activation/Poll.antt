-- ===== src/Activation/Poll.antt =====
-- market_activation.py: the discovery of a `MarketActivationWorker`, which walks from one start to
-- the next, and the health that its two threads report.
use polymarket_event_quant.Base.{
  ℕ, ◌+◌, max, String, Bool, true, false, not, ◌&&◌, ◌||◌, Option, none, some, List, [], ◌∷◌, ◌++◌,
  Result, ok, err, if◌then◌else◌, ◌==◌,
}
use polymarket_event_quant.Models.{Market}
use polymarket_event_quant.Exchange.{Exc}
use polymarket_event_quant.UserStream.{same}
use polymarket_event_quant.Discovery.Reading.{market_seconds}
use polymarket_event_quant.Activation.{Worker, register_candidates}
use polymarket_event_quant.Activation.Slug.{market_slug}

-- the worker with the start of the market that it looks for next
pub record Finder : Type 0 where
  pub worker : Worker
  pub next_start_ts : Option ℕ

abbrev pub latest_start : ℕ → List Market → ℕ
latest_start latest [] = latest
latest_start latest (m ∷ ms) = latest_start (max latest m.start_ts) ms

abbrev pub no_market : Exc
no_market = "RuntimeError: Gamma returned no BTC five-minute market"

-- what a poll finds at a slug: the market, nothing, or an exception; and whether the worker is to
-- stop before it
pub record Look : Type 0 where
  pub is_stopped : Bool
  pub answer : String → Result Exc (Option Market)

module _ (window_minutes now discovered_ts_ms : ℕ) where
  -- the first poll: a window of 0 only sets the start
  abbrev pub seed : List Market → Finder → Result Exc Finder
  seed [] f = err no_market
  seed (m ∷ ms) f = ok (record {
    worker =
        if window_minutes == 0
        then f.worker
        else register_candidates now discovered_ts_ms (m ∷ ms) f.worker;
    next_start_ts = some (latest_start m.start_ts ms + market_seconds);
  })

  abbrev pub register_found : ℕ → Market → Finder → Finder
  register_found start m f = record {
    worker = register_candidates now discovered_ts_ms (m ∷ []) f.worker;
    next_start_ts = some (start + market_seconds);
  }

  abbrev pub after_look :
      Result Exc (Option Market)
      → Finder
      → (Market → Result Exc (Unit {0}) × Finder)
      → Result Exc (Unit {0}) × Finder
  after_look (err e) f next = (err e, f)
  after_look (ok none) f next = (ok tt, f)
  after_look (ok (some m)) f next = next m

  -- the loop over the starts, until a market is not there yet
  unfoldable pub walk : List Look → ℕ → Finder → Result Exc (Unit {0}) × Finder
  walk [] start f = (ok tt, f)
  walk (l ∷ ls) start f =
      if l.is_stopped
      then (ok tt, f)
      else after_look (l.answer (market_slug start)) f
          (λ m. walk ls (start + market_seconds) (register_found start m f))

  abbrev pub walk_on : List Look → Finder → Result Exc (Unit {0}) × Finder
  walk_on looks f = elim f.next_start_ts [ none ↦ (ok tt, f) | some start ↦ walk looks start f ]

  abbrev pub then_walk : List Look → Finder → Result Exc Finder → Result Exc (Unit {0}) × Finder
  then_walk looks f (err e) = (err e, f)
  then_walk looks f (ok f') = walk_on looks f'

  abbrev pub discovered_seed : Finder → Result Exc (List Market) → Result Exc Finder
  discovered_seed f (err e) = err e
  discovered_seed f (ok markets) = seed markets f

  unfoldable pub poll_discovery :
      Result Exc (List Market) → List Look → Finder → Result Exc (Unit {0}) × Finder
  poll_discovery discovered looks f = elim f.next_start_ts [
    | some start ↦ walk looks start f
    | none ↦ then_walk looks f (discovered_seed f discovered)
  ]

pub data Component : Type 0 where
  gamma clob : Component

-- MarketActivationState, with the component of an error beside its text
pub record ActivationState : Type 0 where
  pub healthy : Bool
  pub changed : Bool
  pub recovered : Bool
  pub error : Option (Component × Exc)

-- the health of the two components, `none` before the first report, and what was emitted
pub record Health : Type 0 where
  pub gamma_health : Option Bool
  pub clob_health : Option Bool
  pub is_healthy : Bool
  pub is_attempted : Bool
  pub states : List ActivationState

abbrev pub no_health : Health
no_health = record {
  gamma_health = none;
  clob_health = none;
  is_healthy = false;
  is_attempted = false;
  states = [];
}

-- `value is True`, and `value is not False`
abbrev pub is_up : Option Bool → Bool
is_up none = false
is_up (some b) = b

abbrev pub is_not_down : Option Bool → Bool
is_not_down none = true
is_not_down (some b) = b

abbrev pub overall : Option Bool → Option Bool → Bool
overall g c = (is_up g || is_up c) && (is_not_down g && is_not_down c)

abbrev pub set_component : Component → Bool → Health → Health
set_component gamma b h = record h { gamma_health = some b }
set_component clob b h = record h { clob_health = some b }

abbrev pub error_of : Component → Option Exc → Option (Component × Exc)
error_of component none = none
error_of component (some e) = some (component, e)

abbrev pub emit_state : Bool → Option (Component × Exc) → Health → Health
emit_state now_healthy error h =
    if not h.is_attempted || not (same h.is_healthy now_healthy)
    then record h {
      states =
          h.states
          ++ record {
            healthy = now_healthy;
            changed = true;
            recovered = now_healthy && (h.is_attempted && not h.is_healthy);
            error = error;
          }
            ∷ [];
    }
    else h

unfoldable pub set_component_health : Component → Bool → Option Exc → Health → Health
set_component_health component b error h =
    let reported = set_component component b h in
    let now_healthy = overall reported.gamma_health reported.clob_health in
    record (emit_state now_healthy (error_of component error) reported) {
      is_healthy = now_healthy;
      is_attempted = true;
    }

-- a report of a thread: its component, whether its poll went well, and the error if not
abbrev pub Report : Type 0
Report = Component × Bool × Option Exc

-- the reports of the two threads, in the order of the lock
unfoldable pub report_all : List Report → Health → Health
report_all [] h = h
report_all ((c, b, e) ∷ rs) h = report_all rs (set_component_health c b e h)
