-- ===== src/Exchange/Signing/Rounds.antt =====
-- The signing of an entry: how long it lasts, and what a second request for it gets.
use polymarket_event_quant.Base.{
  ℕ, suc, zero, ◌+◌, ◌*◌, ◌≤◌, ◌<◌, String, ◌≡◌, ◌≢◌, refl, Option, none, some, List, [], ◌∷◌,
  Result, ok, err, length, arith, Option-cases, Result-cases,
}
use polymarket_event_quant.Base.Decimal.{Decimal}
use polymarket_event_quant.Models.{Market, Outcome}
use polymarket_event_quant.Base.Float.{Time, float_sum, float_sum-near}
use polymarket_event_quant.Exchange.Session.{
  ApiError, Signer, Session, Submission, Raised, entry_specifications, Call, then_call,
}
use polymarket_event_quant.Exchange.Signing.{
  sign_legs, sign_rounds, sign_entries, prepare_entry, pause, Pause, resume, after_round,
  prime_tick_size, signing_poll, signing_retry, keep_signed, prepare_from,
}

-- 2^33 seconds
abbrev pub clock_end : Time
clock_end = 9_903_520_314_283_042_199_192_993_792

abbrev pub IsUptime : Signer → Type 0
IsUptime signer = (call : ℕ) → signer.monotonic call < clock_end

-- what a poll comes later at least: a tenth of a second, less four microseconds
abbrev step : Time
step = 115_287_752_414_173_600

-- a call that ends, within a number of requests
abbrev pub Ends {ℓ} : {A : Type ℓ} → ℕ → Session → Result Raised A × Session → Type ℓ
Ends n s (r, s') = (r ≢ err Raised.unfinished) × (s'.calls ≤ s.calls + n)

then_call-Ends {ℓ κ} :
    {A : Type ℓ} {B : Type κ} (n k : ℕ) (f : A → Call B) (r : Result Raised A × Session)
    (s : Session)
    → Ends n s r
    → ((a : A) (s' : Session) → Ends k s' (f a s'))
    → Ends (n + k) s (then_call f r)
then_call-Ends n k f (ok a, s') s h g = ((g a s').0, omega (arith, h.1, (g a s').1))
then_call-Ends n k f (err e, s') s h g = ((λ q. h.0 (grind arith)), omega (arith, h.1))

module _ (signer : Signer) (how : Submission) where
  legs_calls :
      (market : Market) (price size : Decimal) (legs : List (Outcome × String)) (s : Session)
      → (sign_legs signer how market price size legs s).1.calls ≤ s.calls + length legs
  unfolding sign_legs
  legs_calls market price size [] s = omega arith
  legs_calls market price size ((o, t) ∷ legs) s = ground (
    arith,
    legs_calls market price size legs (record s { calls = suc s.calls }),
    Result-cases (signer.create_order s.calls t price size market.tick_size),
  )

  -- the deadline of a clock that is below 2^33 seconds
  abbrev Soon : Time → Type 0
  Soon deadline = deadline ≤ 9_903_520_891_000_000_000_000_000_000

  -- a pause goes on to a later slot, before the deadline
  pause_later :
      (market : Market) (e : ApiError) (next_poll deadline : ℕ) (s : Session) (next : ℕ)
      → next_poll < deadline
      → Soon deadline
      → pause signer how market e next_poll deadline s ≡ Pause.again next
      → (next_poll + step ≤ next) × (next < deadline)
  pause_later market e next_poll deadline s next lt soon h =
      let near = float_sum-near next_poll signing_poll (omega (arith, lt, soon)) in
      let at : (float_sum next_poll signing_poll ≤ next) × (next < deadline) = ground arith in
      (omega (arith, near.1, at.0), at.1)

  pause_ends :
      (market : Market) (e : ApiError) (next_poll deadline : ℕ) (s : Session)
      → pause signer how market e next_poll deadline s ≢ Pause.stop Raised.unfinished
  pause_ends market e next_poll deadline s h = ground arith

  two_legs : (how' : Submission) (market : Market) → length (entry_specifications how' market) ≤ 2
  two_legs Submission.both_sides market = omega arith
  two_legs Submission.solo_up market = omega arith
  two_legs Submission.solo_down market = omega arith

  resume-Ends :
      (n : ℕ) (again_at : ℕ → Call (List String)) (p : Pause) (s : Session)
      → p ≢ Pause.stop Raised.unfinished
      → ((next : ℕ) → p ≡ Pause.again next → Ends n s (again_at next s))
      → Ends n s (resume signer how again_at p s)
  resume-Ends n again_at (Pause.stop e) s h f = (λ q. h (grind arith), omega arith)
  resume-Ends n again_at (Pause.again next) s h f = f next refl

  after_round-Ends :
      (n k : ℕ) (again_at : ℕ → Call (List String)) (market : Market) (next_poll deadline : ℕ)
      (r : Result ApiError (List String) × Session) (s : Session)
      → r.1.calls ≤ s.calls + k
      → next_poll < deadline
      → Soon deadline
      → ((next : ℕ)
          → (next_poll + step ≤ next) × (next < deadline)
          → Ends n r.1 (again_at next r.1))
      → Ends (k + n) s (after_round signer how again_at market next_poll deadline r)
  after_round-Ends n k again_at market next_poll deadline (ok signed, s') s le lt soon f =
      (λ q. grind arith, omega (arith, le))
  after_round-Ends n k again_at market next_poll deadline (err e, s') s le lt soon f =
      let rest =
        resume-Ends n again_at (pause signer how market e next_poll deadline s') s'
          (pause_ends market e next_poll deadline s')
          (λ next p. f next (pause_later market e next_poll deadline s' next lt soon p)) in
      (rest.0, omega (arith, le, rest.1))

  sign_rounds-Ends :
      (fuel : ℕ) (market : Market) (price size : Decimal) (next_poll deadline : ℕ) (s : Session)
      → next_poll < deadline
      → Soon deadline
      → deadline ≤ next_poll + fuel * step
      → Ends (fuel * 2) s (sign_rounds signer how fuel market price size next_poll deadline s)
  unfolding sign_rounds
  sign_rounds-Ends zero market price size next_poll deadline s lt soon le =
      absurd (omega (arith, lt, le))
  sign_rounds-Ends (suc fuel) market price size next_poll deadline s lt soon le =
      let legs = sign_legs signer how market price size (entry_specifications how market) s in
      let rest =
        after_round-Ends (fuel * 2) 2
          (λ next. sign_rounds signer how fuel market price size next deadline) market next_poll
          deadline legs s
          (omega (
            arith,
            legs_calls market price size (entry_specifications how market) s,
            two_legs how market,
          ))
          lt soon
          (λ next p.
            sign_rounds-Ends fuel market price size next deadline legs.1 p.1 soon
              (omega (arith, p.0, le))) in
      (rest.0, omega (arith, rest.1))

  sign_entries-Ends :
      (market : Market) (price size : Decimal) (s : Session)
      → signer.monotonic s.calls < clock_end
      → Ends 12 s (sign_entries signer how market price size s)
  sign_entries-Ends market price size s up =
      let near = float_sum-near (signer.monotonic s.calls) signing_retry (omega (arith, up)) in
      sign_rounds-Ends 6 market price size (signer.monotonic s.calls) _ s (omega (arith, near.1))
        (omega (arith, near.0, up)) (omega (arith, near.0))

  prime_tick_size-Ends :
      (market : Market) (s : Session) → Ends 1 s (prime_tick_size signer how market s)
  prime_tick_size-Ends market s = ground (
    arith,
    Option-cases s.tick_sizes,
    Option-cases s.cached_version,
    Option-cases signer.get_version,
  )

  keep_signed-Ends :
      (n : ℕ) (market : Market) (price size : Decimal) (r : Result Raised (List String) × Session)
      (s : Session)
      → Ends n s r
      → Ends n s (keep_signed signer how market price size r)
  keep_signed-Ends n market price size (ok signed, s') s h = (λ q. grind arith, omega (arith, h.1))
  keep_signed-Ends n market price size (err (Raised.signing_not_ready t), s') s h =
      (λ q. grind arith, omega (arith, h.1))
  keep_signed-Ends n market price size (err (Raised.raised t), s') s h =
      (λ q. grind arith, omega (arith, h.1))
  keep_signed-Ends n market price size (err (Raised.ambiguous t b k), s') s h =
      (λ q. grind arith, omega (arith, h.1))
  keep_signed-Ends n market price size (err Raised.unfinished, s') s h = absurd (h.0 refl)

  prepare_from-Ends :
      (market : Market) (price size : Decimal) (found : Option (List String)) (s : Session)
      → IsUptime signer
      → Ends 13 s (prepare_from signer how market price size found s)
  prepare_from-Ends market price size (some signed) s uptime = ((λ q. grind arith), omega arith)
  prepare_from-Ends market price size none s uptime =
      then_call-Ends 1 12
        (λ _ s'.
          keep_signed signer how market price size (sign_entries signer how market price size s'))
        (prime_tick_size signer how market s) s (prime_tick_size-Ends market s)
        (λ _ s'.
          keep_signed-Ends 12 market price size (sign_entries signer how market price size s') s'
            (sign_entries-Ends market price size s' (uptime s'.calls)))

  -- Signing an entry ends at the latest with the sixth round: the fuel of the loop never runs out,
  -- whatever the venue says and however the float sums of the clock are rounded, and the client is
  -- called at most thirteen times. The clock is taken to stay below 2^33 seconds.
  pub prepare_entry-Ends :
      (market : Market) (price size : Decimal) (s : Session)
      → IsUptime signer
      → Ends 13 s (prepare_entry signer how market price size s)
  unfolding prepare_entry
  prepare_entry-Ends market price size s uptime = prepare_from-Ends market price size _ s uptime
