-- ===== src/Exchange/Signing.antt =====
-- exchange.py: `prepare_entry` with the signing of the legs, and the bodies that a knock sends.
pub mod Reuse
pub mod Tests
pub mod Rounds
use polymarket_event_quant.Base.{
  ℕ, suc, zero, ◌+◌, max, String, Bool, true, false, not, ◌&&◌, ◌||◌, Option, none, some, List, [],
  ◌∷◌, Result, ok, err, if◌then◌else◌, leb, ltb, ◌==◌, or_else, str_eq, any, map,
}
use polymarket_event_quant.Base.Concat
use polymarket_event_quant.Base.Text.{Text, codes, lower, eq_text}
use polymarket_event_quant.Base.Decimal.{Decimal}
use polymarket_event_quant.Models.{Market, Outcome, PlacementResult}
use polymarket_event_quant.Base.Float.{Time, float_sum}
use polymarket_event_quant.Exchange.{Exc}
use polymarket_event_quant.Exchange.Session.{
  ApiError, Signer, SubmissionKey, Session, Submission, Raised, Call, ◌>>=◌, ◌>>◌, pure, raise,
  submission_key, submission_of, set_submission, entry_specifications,
}

-- a signed entry, ready to knock: its legs are outcomes and request bodies
pub record Entry : Type 0 where
  pub market : Market
  pub price : Decimal
  pub size : Decimal
  pub specifications : List (Outcome × String)
  pub legs : List (Outcome × String)
  pub key : SubmissionKey

-- what `prepare_entry` returns
pub data Prepared : Type 0 where
  ready : Entry → Prepared
  refused : PlacementResult → Prepared

abbrev pub transient_submission_error : ApiError → Bool
transient_submission_error e = elim e.status_code [
  | none ↦ true
  | some status ↦ status == 429 || (leb 500 status && ltb status 600)
]

abbrev pub market_not_found : Text
market_not_found = codes "market not found"

abbrev pub is_status : ℕ → Option ℕ → Bool
is_status code none = false
is_status code (some status) = status == code

abbrev pub signing_retryable : ApiError → Bool
signing_retryable e =
    if is_status 404 e.status_code && eq_text (lower (or_else e.error [])) market_not_found
    then true
    else transient_submission_error e

-- SIGNING_NOT_READY_RETRY_SECONDS and SIGNING_NOT_READY_POLL_SECONDS, the floats 0.5 and 0.1
abbrev pub signing_retry : Time
signing_retry = 576_460_752_303_423_488

abbrev pub signing_poll : Time
signing_poll = 115_292_150_460_684_704

abbrev pub no_tick_sizes : Exc
no_tick_sizes =
    "RuntimeError: py_clob_client_v2 no longer keeps tick sizes in _ClobClient__tick_sizes; signing would quietly go back to asking the venue for them"

-- `cache.setdefault(token_id, tick_size)`
abbrev pub set_default_tick : String → Decimal → List (String × Decimal) → List (String × Decimal)
set_default_tick token tick sizes =
    if any (λ p. str_eq p.0 token) sizes then sizes else (token, tick) ∷ sizes

-- what follows a refused round: the exception, or the time of the next one
pub data Pause : Type 0 where
  stop : Raised → Pause
  again : Time → Pause

module _ (signer : Signer) (how : Submission) where
  abbrev pub keep_version : Session → Result Exc ℕ → Session
  keep_version s (ok version) = record s { cached_version = some version }
  keep_version s (err e) = s

  -- any failure leaves the version unknown
  abbrev pub warm_protocol_version : Call (Unit {0})
  warm_protocol_version s = (
    ok tt,
    elim s.cached_version [
      | some _ ↦ s
      | none ↦ elim signer.get_version [
        | none ↦ s
        | some getter ↦ keep_version (record s { calls = suc s.calls }) (getter s.calls)
      ]
    ],
  )

  abbrev pub prime_tick_size : Market → Call (Unit {0})
  prime_tick_size market s = elim s.tick_sizes [
    | none ↦ if signer.is_clob_client then (err (Raised.raised no_tick_sizes), s) else (ok tt, s)
    | some sizes ↦ warm_protocol_version (record s {
      tick_sizes = some (
          set_default_tick market.down_token_id market.tick_size
            (set_default_tick market.up_token_id market.tick_size sizes));
    })
  ]

  abbrev pub then_sign :
      Result ApiError String → Result ApiError (List String) → Result ApiError (List String)
  then_sign (err e) rest = err e
  then_sign (ok order) (err e) = err e
  then_sign (ok order) (ok orders) = ok (order ∷ orders)

  -- one order for each leg; the first that is refused ends the round
  unfoldable pub sign_legs :
      Market
      → Decimal
      → Decimal
      → List (Outcome × String)
      → Session
      → Result ApiError (List String) × Session
  sign_legs market price size [] s = (ok [], s)
  sign_legs market price size ((outcome, token) ∷ legs) s =
      let first = signer.create_order s.calls token price size market.tick_size in
      let s' = record s { calls = suc s.calls } in
      let (rest, s'') = sign_legs market price size legs s' in
      elim first [ err e ↦ (err e, s') | ok order ↦ (then_sign (ok order) rest, s'') ]

  abbrev pub not_ready_text : String → String
  not_ready_text text = Concat.◌++◌ "signing not ready after 0.5s: " text

  abbrev pub pause : Market → ApiError → ℕ → ℕ → Session → Pause
  pause market e next_poll deadline s =
      let now = signer.monotonic s.calls in
      let next = max (float_sum next_poll signing_poll) now in
      if not (signing_retryable e)
      then stop (Raised.raised e.text)
      else if leb market.end_ts (signer.time_s s.calls)
      then stop (Raised.raised e.text)
      else if leb deadline now || leb deadline next
      then stop (Raised.signing_not_ready (not_ready_text e.text))
      else again next

  -- the next round at its time, or the exception
  abbrev pub resume : (ℕ → Call (List String)) → Pause → Call (List String)
  resume again_at (stop e) s = (err e, s)
  resume again_at (again next) s = again_at next s

  abbrev pub after_round :
      (ℕ → Call (List String))
      → Market
      → ℕ
      → ℕ
      → Result ApiError (List String) × Session
      → Result Raised (List String) × Session
  after_round again_at market next_poll deadline (ok signed, s) = (ok signed, s)
  after_round again_at market next_poll deadline (err e, s) =
      resume again_at (pause market e next_poll deadline s) s

  -- the loop of `_sign_entries`, on fuel: a round, and a pause before the next
  unfoldable pub sign_rounds : ℕ → Market → Decimal → Decimal → ℕ → ℕ → Call (List String)
  sign_rounds zero market price size next_poll deadline s = (err Raised.unfinished, s)
  sign_rounds (suc fuel) market price size next_poll deadline s =
      after_round (λ next. sign_rounds fuel market price size next deadline) market next_poll
        deadline (sign_legs market price size (entry_specifications how market) s)

  -- a round each tenth of a second, for half a second: the rounding of the sums can bring a sixth
  abbrev pub sign_fuel : ℕ
  sign_fuel = 6

  abbrev pub sign_entries : Market → Decimal → Decimal → Call (List String)
  sign_entries market price size s =
      let start = signer.monotonic s.calls in
      sign_rounds sign_fuel market price size start (float_sum start signing_retry) s

  -- `_order_body` for each leg
  abbrev pub bodies : List (Outcome × String) → List String → List (Outcome × String)
  bodies ((outcome, _) ∷ legs) (order ∷ orders) =
      (outcome, signer.order_body order) ∷ bodies legs orders
  bodies _ _ = []

  abbrev pub entry_of : Market → Decimal → Decimal → List String → Entry
  entry_of market price size signed = record {
    market = market;
    price = price;
    size = size;
    specifications = entry_specifications how market;
    legs = bodies (entry_specifications how market) signed;
    key = submission_key market price size;
  }

  abbrev pub refusal : String → PlacementResult
  refusal text = record {
    orders = [];
    error = some text;
    retryable = true;
    attempts = 1;
    expected = 2;
    registered_ts_ms = none;
    held_back = 0;
    gave_up = false;
  }

  -- `_SigningNotReady` comes back as a result; every other exception goes on
  abbrev pub keep_signed :
      Market
      → Decimal
      → Decimal
      → Result Raised (List String) × Session
      → Result Raised Prepared × Session
  keep_signed market price size (ok signed, s) =
      (set_submission (submission_key market price size) signed
          >> pure (ready (entry_of market price size signed)))
        s
  keep_signed market price size (err (Raised.signing_not_ready text), s) =
      (ok (refused (refusal text)), s)
  keep_signed market price size (err e, s) = (err e, s)

  abbrev pub sign_new : Market → Decimal → Decimal → Call Prepared
  sign_new market price size = prime_tick_size market >>= λ _ s.
      keep_signed market price size (sign_entries market price size s)

  -- the orders that are signed already, or new ones
  abbrev pub prepare_from : Market → Decimal → Decimal → Option (List String) → Call Prepared
  prepare_from market price size (some signed) = pure (ready (entry_of market price size signed))
  prepare_from market price size none = sign_new market price size

  unfoldable pub prepare_entry : Market → Decimal → Decimal → Call Prepared
  prepare_entry market price size s =
      prepare_from market price size
        (submission_of (submission_key market price size) s.submissions) s
