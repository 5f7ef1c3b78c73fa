-- ===== src/Activation.antt =====
-- market_activation.py: the candidates of a `MarketActivationWorker`, and when a market is handed to
-- the service. Its two threads change the candidates under a lock; each step here is one holding of
-- the lock, so every interleaving is a sequence of steps.
pub mod Once
pub mod Healthy
pub mod Poll
pub mod Slug
mod Tests
use polymarket_event_quant.Base.{
  ℕ, String, Bool, true, false, not, ◌&&◌, ◌||◌, Option, none, some, List, [], ◌∷◌, ◌++◌, any, leb,
  str_eq, Result, ok, err, if◌then◌else◌,
}
use polymarket_event_quant.Base.Keyed.{has_key, drop_key}
use polymarket_event_quant.Models.{Market}
use polymarket_event_quant.Exchange.{Exc}
use polymarket_event_quant.Service.{ActivationUpdate}

pub record Candidate : Type 0 where
  pub market : Market
  pub market_discovered_ts_ms : ℕ

-- `emitted` is all that the queue of updates has been given
pub record Worker : Type 0 where
  pub candidates : List Candidate
  pub handled_slugs : List String
  pub emitted : List ActivationUpdate

abbrev pub new_worker : Worker
new_worker = record { candidates = []; handled_slugs = []; emitted = [] }

abbrev pub candidate_slug : Candidate → String
candidate_slug c = c.market.slug

abbrev pub update_slug : ActivationUpdate → String
update_slug u = u.market.slug

abbrev pub is_handled : String → Worker → Bool
is_handled slug w = any (λ s. str_eq s slug) w.handled_slugs

-- `_handled_slugs.add` and `_candidates.pop`
unfoldable pub retire : String → Worker → Worker
retire slug w = record w {
  candidates = drop_key candidate_slug slug w.candidates;
  handled_slugs = slug ∷ w.handled_slugs;
}

abbrev pub set_default_candidate : Candidate → Worker → Worker
set_default_candidate c w =
    if has_key candidate_slug c.market.slug w.candidates
    then w
    else record w { candidates = w.candidates ++ c ∷ [] }

abbrev pub register_one : ℕ → ℕ → Market → Worker → Worker
register_one now discovered_ts_ms m w =
    if is_handled m.slug w
    then w
    else if leb m.end_ts now
    then retire m.slug w
    else set_default_candidate (record { market = m; market_discovered_ts_ms = discovered_ts_ms }) w

-- the loop of `_register_candidates`
unfoldable pub register_candidates : ℕ → ℕ → List Market → Worker → Worker
register_candidates now discovered_ts_ms [] w = w
register_candidates now discovered_ts_ms (m ∷ ms) w =
    register_candidates now discovered_ts_ms ms (register_one now discovered_ts_ms m w)

abbrev pub expired_slugs : ℕ → List Candidate → List String
expired_slugs now [] = []
expired_slugs now (c ∷ cs) =
    if leb c.market.end_ts now then c.market.slug ∷ expired_slugs now cs else expired_slugs now cs

unfoldable pub retire_all : List String → Worker → Worker
retire_all [] w = w
retire_all (s ∷ ss) w = retire_all ss (retire s w)

-- the first holding of the lock of `_poll_market_parameters`
unfoldable pub expire : ℕ → Worker → Worker
expire now w = retire_all (expired_slugs now w.candidates) w

-- the second: a candidate that has gone meanwhile is passed over
unfoldable pub activate : ℕ → Candidate → Worker → Worker
activate detected_ts_ms c w =
    if has_key candidate_slug c.market.slug w.candidates
    then (let r = retire c.market.slug w in
        record r {
          emitted =
              r.emitted
              ++ record {
                market = c.market;
                market_discovered_ts_ms = c.market_discovered_ts_ms;
                market_parameters_detected_ts_ms = detected_ts_ms;
              }
                ∷ [];
        })
    else w

-- whether a reply lists both tokens; `none` is a 404
abbrev pub knows : Market → Option (List String) → Bool
knows m none = false
knows m (some tokens) =
    any (λ t. str_eq t m.up_token_id) tokens && any (λ t. str_eq t m.down_token_id) tokens

-- the loop over the candidates, without a change from outside; an exception ends it
unfoldable pub poll_each :
    (String → Result Exc (Option (List String)))
    → (String → ℕ)
    → List Candidate
    → Worker
    → Result Exc Bool × Worker
poll_each ask clock_ms [] w = (ok true, w)
poll_each ask clock_ms (c ∷ cs) w =
    let passed = poll_each ask clock_ms cs w in
    let taken = poll_each ask clock_ms cs (activate (clock_ms c.market.slug) c w) in
    elim (ask c.market.condition_id) [
      | err e ↦ (err e, w)
      | ok reply ↦ if knows c.market reply then taken else passed
    ]

unfoldable pub poll_market_parameters :
    ℕ
    → (String → Result Exc (Option (List String)))
    → (String → ℕ)
    → Worker
    → Result Exc Bool × Worker
poll_market_parameters now ask clock_ms w =
    let w' = expire now w in
    elim w'.candidates [ [] ↦ (ok false, w') | c ∷ cs ↦ poll_each ask clock_ms (c ∷ cs) w' ]
