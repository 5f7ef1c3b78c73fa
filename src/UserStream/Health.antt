-- ===== src/UserStream/Health.antt =====
-- The messages of a worker's health are its changes.
use polymarket_event_quant.Base.{
  inl, inr, String, ◌≡◌, refl, Bool, true, false, Option, List, [], ◌∷◌, ◌++◌, arith, if◌then◌else◌,
  ap, sym, append_nil, Bool-cases, ◌∙◌, append_one_append,
}
use polymarket_event_quant.UserStream.{
  StreamWorker, StreamUpdate, UserStreamState, set_health, same, new_worker,
}

-- the health messages of a queue
abbrev pub health_messages : List StreamUpdate → List UserStreamState
health_messages [] = []
health_messages (StreamUpdate.state_update s ∷ us) = s ∷ health_messages us
health_messages (StreamUpdate.order_update _ ∷ us) = health_messages us
health_messages (StreamUpdate.trade_update _ ∷ us) = health_messages us

-- the messages that a sequence of observations calls for, from a last observation on: one for each
-- change, a recovery where health comes back
abbrev pub changes_from : Bool → List (Bool × Option String) → List UserStreamState
changes_from last [] = []
changes_from last ((h, e) ∷ rest) =
    if same last h
    then changes_from h rest
    else record { healthy = h; recovered = h; error = e } ∷ changes_from h rest

-- the first observation always is a message, and never a recovery
abbrev pub changes : List (Bool × Option String) → List UserStreamState
changes [] = []
changes ((h, e) ∷ rest) = record { healthy = h; recovered = false; error = e } ∷ changes_from h rest

abbrev pub observe_all : List (Bool × Option String) → StreamWorker → StreamWorker
observe_all [] w = w
observe_all ((h, e) ∷ rest) w = observe_all rest (set_health h e w)

messages-append :
    (xs ys : List StreamUpdate)
    → health_messages (xs ++ ys) ≡ health_messages xs ++ health_messages ys
messages-append [] ys = refl
messages-append (StreamUpdate.state_update s ∷ xs) ys = ap (◌∷◌ s) (messages-append xs ys)
messages-append (StreamUpdate.order_update _ ∷ xs) ys = messages-append xs ys
messages-append (StreamUpdate.trade_update _ ∷ xs) ys = messages-append xs ys

abbrev said : Bool → Option String → UserStreamState
said h e = record { healthy = h; recovered = h; error = e }

set_health-messages :
    (o : Bool) (e : Option String) (w : StreamWorker)
    → w.attempted ≡ true
    → health_messages (set_health o e w).updates ≡ (
        if same w.healthy o
        then health_messages w.updates
        else health_messages w.updates ++ said o e ∷ [])
unfolding set_health
set_health-messages true e w h =
    ground (arith, messages-append w.updates (StreamUpdate.state_update (said true e) ∷ []))
set_health-messages false e w h =
    ground (arith, messages-append w.updates (StreamUpdate.state_update (said false e) ∷ []))

set_health-state :
    (o : Bool) (e : Option String) (w : StreamWorker)
    → ((set_health o e w).healthy ≡ o) × ((set_health o e w).attempted ≡ true)
unfolding set_health
set_health-state o e w = ground arith

observed_from :
    (obs : List (Bool × Option String)) (w : StreamWorker)
    → w.attempted ≡ true
    → health_messages (observe_all obs w).updates
      ≡ health_messages w.updates ++ changes_from w.healthy obs
observed_from [] w h = sym (append_nil (health_messages w.updates))
observed_from ((o, e) ∷ rest) w h =
    let st = set_health-state o e w in
    let ih = observed_from rest (set_health o e w) st.1 in
    let m = set_health-messages o e w h in
    elim (Bool-cases (same w.healthy o)) [
      | inl q ↦ ih ∙ rw st.0 (rw m (rw q refl))
      | inr q ↦
          ih
          ∙ rw st.0 (
              rw m (
                rw q
                  (append_one_append (health_messages w.updates) (changes_from o rest) (said o e))))
    ]

-- From a new worker, the health messages of any sequence of observations are its first observation
-- and then its changes, in order, and a message tells of a recovery exactly where health comes back.
pub health_messages_are_changes :
    (obs : List (Bool × Option String))
    → health_messages (observe_all obs new_worker).updates ≡ changes obs
unfolding set_health
health_messages_are_changes [] = refl
health_messages_are_changes ((true, e) ∷ rest) =
    observed_from rest (set_health true e new_worker) refl
health_messages_are_changes ((false, e) ∷ rest) =
    observed_from rest (set_health false e new_worker) refl
