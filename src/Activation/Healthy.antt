-- ===== src/Activation/Healthy.antt =====
-- The health that a `MarketActivationWorker` tells of.
use polymarket_event_quant.Base.{
  ◌≡◌, refl, Bool, false, not, ◌&&◌, ◌||◌, Option, none, some, List, [], ◌∷◌, ◌++◌, arith,
  Bool-cases, inl, inr, ap, ◌∙◌, true,
}
use polymarket_event_quant.Exchange.{Exc}
use polymarket_event_quant.UserStream.{same}
use polymarket_event_quant.Activation.Poll.{
  Component, ActivationState, Health, no_health, overall, set_component, set_component_health,
  report_all, emit_state, error_of, Report,
}

-- the last report of a component
abbrev pub last_gamma : Option Bool → List Report → Option Bool
last_gamma last [] = last
last_gamma last ((Component.gamma, b, e) ∷ rs) = last_gamma (some b) rs
last_gamma last ((Component.clob, b, e) ∷ rs) = last_gamma last rs

abbrev pub last_clob : Option Bool → List Report → Option Bool
last_clob last [] = last
last_clob last ((Component.gamma, b, e) ∷ rs) = last_clob last rs
last_clob last ((Component.clob, b, e) ∷ rs) = last_clob (some b) rs

-- the health that the last message told, and whether there was one
abbrev pub told : Bool → List ActivationState → Bool
told last [] = last
told last (s ∷ ss) = told s.healthy ss

told-append :
    (last : Bool) (xs : List ActivationState) (s : ActivationState)
    → told last (xs ++ s ∷ []) ≡ s.healthy
told-append last [] s = refl
told-append last (x ∷ xs) s = told-append x.healthy xs s

-- what is told is what is so
abbrev IsTold : Health → Type 0
IsTold h = told false h.states ≡ h.is_healthy

emit_state-told :
    (n : Bool) (x : Option (Component × Exc)) (h : Health)
    → IsTold h
    → told false (emit_state n x h).states ≡ n
emit_state-told n x h t = elim (Bool-cases (not h.is_attempted || not (same h.is_healthy n))) [
  | inl e ↦ rw e (
      told-append false h.states (record {
        healthy = n;
        changed = true;
        recovered = n && (h.is_attempted && not h.is_healthy);
        error = x;
      }))
  | inr e ↦ rw e (ground (arith, t, e))
]

set_component_health-IsTold :
    (c : Component) (b : Bool) (e : Option Exc) (h : Health)
    → IsTold h
    → IsTold (set_component_health c b e h)
unfolding set_component_health
set_component_health-IsTold Component.gamma b e h t =
    emit_state-told (overall (some b) h.clob_health) (error_of Component.gamma e)
      (record h { gamma_health = some b }) t
set_component_health-IsTold Component.clob b e h t =
    emit_state-told (overall h.gamma_health (some b)) (error_of Component.clob e)
      (record h { clob_health = some b }) t

-- the overall health is that of the last reports
abbrev IsOverall : Health → Type 0
IsOverall h = h.is_healthy ≡ overall h.gamma_health h.clob_health

set_component_health-IsOverall :
    (c : Component) (b : Bool) (e : Option Exc) (h : Health)
    → IsOverall (set_component_health c b e h)
unfolding set_component_health
set_component_health-IsOverall Component.gamma b e h = ground arith
set_component_health-IsOverall Component.clob b e h = ground arith

set_component_health-reports :
    (c : Component) (b : Bool) (e : Option Exc) (h : Health)
    → ((set_component_health c b e h).gamma_health ≡ (set_component c b h).gamma_health)
      × ((set_component_health c b e h).clob_health ≡ (set_component c b h).clob_health)
unfolding set_component_health
set_component_health-reports Component.gamma b e h = ground arith
set_component_health-reports Component.clob b e h = ground arith

reported_from :
    (rs : List Report) (h : Health)
    → IsTold h
    → IsOverall h
    → ((report_all rs h).is_healthy
        ≡ overall (last_gamma h.gamma_health rs) (last_clob h.clob_health rs))
      × IsTold (report_all rs h)
unfolding report_all
reported_from [] h t o = (o, t)
reported_from ((Component.gamma, b, e) ∷ rs) h t o =
    let next = set_component_health Component.gamma b e h in
    let ih =
      reported_from rs next (set_component_health-IsTold Component.gamma b e h t)
        (set_component_health-IsOverall Component.gamma b e h) in
    let kept = set_component_health-reports Component.gamma b e h in
    (
      ih.0
          ∙ ap (λ g. overall (last_gamma g rs) (last_clob next.clob_health rs)) kept.0
          ∙ ap (λ c. overall (last_gamma (some b) rs) (last_clob c rs)) kept.1,
      ih.1,
    )
reported_from ((Component.clob, b, e) ∷ rs) h t o =
    let next = set_component_health Component.clob b e h in
    let ih =
      reported_from rs next (set_component_health-IsTold Component.clob b e h t)
        (set_component_health-IsOverall Component.clob b e h) in
    let kept = set_component_health-reports Component.clob b e h in
    (
      ih.0
          ∙ ap (λ g. overall (last_gamma g rs) (last_clob next.clob_health rs)) kept.0
          ∙ ap (λ c. overall (last_gamma h.gamma_health rs) (last_clob c rs)) kept.1,
      ih.1,
    )

-- After any reports of the two threads, in whatever order they come, the worker is healthy exactly
-- when the last report of one component was good and that of neither was bad; and that is what its
-- last message told, where no message stands for not healthy.
pub health_is_told :
    (rs : List Report)
    → ((report_all rs no_health).is_healthy ≡ overall (last_gamma none rs) (last_clob none rs))
      × (told false (report_all rs no_health).states ≡ (report_all rs no_health).is_healthy)
health_is_told rs = reported_from rs no_health refl refl
