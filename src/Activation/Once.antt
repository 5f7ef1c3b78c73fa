-- ===== src/Activation/Once.antt =====
-- A market is handed to the service once.
use polymarket_event_quant.Base.{
  ℕ, String, ◌≡◌, true, false, List, [], ◌∷◌, arith, eq_iff, Bool-cases, inl, inr, leb,
}
use polymarket_event_quant.Base.Keyed.{
  has_key, IsUnique, has_key-drop_key, has_key-append, append_one-IsUnique,
}
use polymarket_event_quant.Models.{Market}
use polymarket_event_quant.Activation.{
  Candidate, Worker, new_worker, activate, expire, register_candidates, retire, retire_all,
  candidate_slug, update_slug, is_handled, register_one, expired_slugs, set_default_candidate,
}
use polymarket_event_quant.Service.{ActivationUpdate}

-- no slug is emitted twice, the emitted ones are handled, and no candidate is
abbrev pub IsSound : Worker → Type 0
IsSound w =
    IsUnique update_slug w.emitted
    × ((s : String) → has_key update_slug s w.emitted ≡ true → is_handled s w ≡ true)
    × ((s : String) → has_key candidate_slug s w.candidates ≡ true → is_handled s w ≡ false)

-- one holding of the lock, by either thread
pub data Step : Type 0 where
  registered : ℕ → ℕ → List Market → Step
  expired : ℕ → Step
  activated : ℕ → Candidate → Step

abbrev pub run_step : Step → Worker → Worker
run_step (registered now ms markets) w = register_candidates now ms markets w
run_step (expired now) w = expire now w
run_step (activated ms c) w = activate ms c w

abbrev pub run_steps : List Step → Worker → Worker
run_steps [] w = w
run_steps (s ∷ ss) w = run_steps ss (run_step s w)

retire-IsSound : (slug : String) (w : Worker) → IsSound w → IsSound (retire slug w)
unfolding retire
retire-IsSound slug w h = (
  h.0,
  (λ s e. ground (arith, h.1 s e)),
  (λ s e. ground (arith, h.2 s, has_key-drop_key candidate_slug slug s w.candidates)),
)

register_one-IsSound :
    (now ms : ℕ) (m : Market) (w : Worker) → IsSound w → IsSound (register_one now ms m w)
register_one-IsSound now ms m w h = elim (Bool-cases (is_handled m.slug w)) [
  | inl e ↦ rw e h
  | inr e ↦ rw e (elim (Bool-cases (leb m.end_ts now)) [
    | inl q ↦ rw q (retire-IsSound m.slug w h)
    | inr q ↦ rw q (added e)
  ])
]
  where
    added :
        is_handled m.slug w ≡ false
        → IsSound (set_default_candidate (record { market = m; market_discovered_ts_ms = ms }) w)
    added e = elim (Bool-cases (has_key candidate_slug m.slug w.candidates)) [
      | inl q ↦ rw q h
      | inr q ↦ rw q (
        h.0,
        h.1,
        λ s k. ground (
          arith,
          h.2 s,
          eq_iff m.slug s,
          has_key-append candidate_slug s w.candidates
              (record { market = m; market_discovered_ts_ms = ms } ∷ []),
        ),
      )
    ]

register-IsSound :
    (now ms : ℕ) (markets : List Market) (w : Worker)
    → IsSound w
    → IsSound (register_candidates now ms markets w)
unfolding register_candidates
register-IsSound now ms [] w h = h
register-IsSound now ms (m ∷ markets) w h =
    register-IsSound now ms markets _ (register_one-IsSound now ms m w h)

retire_all-IsSound : (ss : List String) (w : Worker) → IsSound w → IsSound (retire_all ss w)
unfolding retire_all
retire_all-IsSound [] w h = h
retire_all-IsSound (s ∷ ss) w h = retire_all-IsSound ss _ (retire-IsSound s w h)

abbrev handed : ℕ → Candidate → ActivationUpdate
handed ms c = record {
  market = c.market;
  market_discovered_ts_ms = c.market_discovered_ts_ms;
  market_parameters_detected_ts_ms = ms;
}

activate-IsSound : (ms : ℕ) (c : Candidate) (w : Worker) → IsSound w → IsSound (activate ms c w)
unfolding activate retire
activate-IsSound ms c w h = elim (Bool-cases (has_key candidate_slug c.market.slug w.candidates)) [
  | inr e ↦ rw e h
  | inl e ↦ rw e (
    append_one-IsUnique update_slug w.emitted (handed ms c) (fresh e) h.0,
    (λ s k. ground (
      arith,
      h.1 s,
      eq_iff c.market.slug s,
      has_key-append update_slug s w.emitted (handed ms c ∷ []),
    )),
    (retire-IsSound c.market.slug w h).2,
  )
]
  where
    fresh :
        has_key candidate_slug c.market.slug w.candidates ≡ true
        → has_key update_slug c.market.slug w.emitted ≡ false
    fresh e = elim (Bool-cases (has_key update_slug c.market.slug w.emitted)) [
      | inr q ↦ q
      | inl q ↦ ground (arith, h.1 c.market.slug q, h.2 c.market.slug e)
    ]

step-IsSound : (s : Step) (w : Worker) → IsSound w → IsSound (run_step s w)
unfolding expire
step-IsSound (registered now ms markets) w h = register-IsSound now ms markets w h
step-IsSound (expired now) w h = retire_all-IsSound (expired_slugs now w.candidates) w h
step-IsSound (activated ms c) w h = activate-IsSound ms c w h

steps-IsSound : (ss : List Step) (w : Worker) → IsSound w → IsSound (run_steps ss w)
steps-IsSound [] w h = h
steps-IsSound (s ∷ ss) w h = steps-IsSound ss _ (step-IsSound s w h)

-- From a new worker, under every interleaving of its threads, with candidates that were read before
-- others changed the table too, no market is handed to the service twice.
pub activated_once : (ss : List Step) → IsUnique update_slug (run_steps ss new_worker).emitted
activated_once ss = (steps-IsSound ss new_worker (tt, (λ s e. ground arith), λ s e. ground arith)).0
