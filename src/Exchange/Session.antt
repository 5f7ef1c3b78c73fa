-- ===== src/Exchange/Session.antt =====
-- exchange.py: what one `Exchange` keeps between its calls, and how they end. The official client's
-- signing and its clocks are parameters; a clock is read by the number of calls made before.
use polymarket_event_quant.Base.{
  ℕ, suc, String, Bool, ◌&&◌, Option, none, some, List, [], ◌∷◌, Result, ok, err, str_eq, ◌==◌,
  if◌then◌else◌, filter, not,
}
use polymarket_event_quant.Base.Text.{Text}
use polymarket_event_quant.Base.Decimal.{Decimal}
use polymarket_event_quant.Models.{Market, Outcome}
use polymarket_event_quant.Base.Float.{Time}
use polymarket_event_quant.Exchange.{Exc}

-- `PolyApiException`: its status code, the `error` of a payload that is a dict, and its text
pub record ApiError : Type 0 where
  pub status_code : Option ℕ
  pub error : Option Text
  pub text : String

-- `create_order` of a buy with `PartialCreateOrderOptions`, the clocks in milliseconds and in
-- seconds, the request for the protocol version, and whether the client is the official one
pub record Signer : Type 0 where
  pub create_order : ℕ → String → Decimal → Decimal → Decimal → Result ApiError String
  -- `json.dumps` of `order_to_json` for an order that is signed
  pub order_body : String → String
  pub monotonic : ℕ → Time
  pub time_s : ℕ → ℕ
  pub get_version : Option (ℕ → Result Exc ℕ)
  pub is_clob_client : Bool

-- `_dual_submission_key`
pub record SubmissionKey : Type 0 where
  pub condition_id : String
  pub up_token_id : String
  pub down_token_id : String
  pub price : Decimal
  pub size : Decimal

pub record SignedEntry : Type 0 where
  pub key : SubmissionKey
  pub signed : List String

-- `_dual_submissions`, the client's own tick sizes (`none` when the attribute is gone) and version
pub record Session : Type 0 where
  pub submissions : List SignedEntry
  pub tick_sizes : Option (List (String × Decimal))
  pub cached_version : Option ℕ
  pub calls : ℕ

-- `EntrySubmission`, a class attribute of `Exchange`
pub data Submission : Type 0 where
  both_sides solo_up solo_down : Submission

pub data Raised : Type 0 where
  -- AmbiguousPlacementError: its message, `retryable`, `attempts`
  ambiguous : String → Bool → ℕ → Raised
  signing_not_ready : String → Raised
  raised : Exc → Raised
  -- the fuel of the model ran out
  unfinished : Raised

-- a call changes the session, and returns or raises
abbrev pub Call {ℓ} : Type ℓ → Type ℓ
Call A = Session → Result Raised A × Session

abbrev pub then_call {ℓ κ} :
    {A : Type ℓ} {B : Type κ} → (A → Call B) → Result Raised A × Session → Result Raised B × Session
then_call f (ok a, s) = f a s
then_call f (err e, s) = (err e, s)

infixl 5 ◌>>=◌ ◌>>◌
abbrev pub ◌>>=◌ {ℓ κ} : {A : Type ℓ} {B : Type κ} → Call A → (A → Call B) → Call B
◌>>=◌ m f s = then_call f (m s)

abbrev pub ◌>>◌ {ℓ κ} : {A : Type ℓ} {B : Type κ} → Call A → Call B → Call B
m >> k = m >>= λ _. k

abbrev pub pure {ℓ} : {A : Type ℓ} → A → Call A
pure a s = (ok a, s)

abbrev pub raise {ℓ} : {A : Type ℓ} → Raised → Call A
raise e s = (err e, s)

abbrev pub lift {ℓ} : {A : Type ℓ} → Result Exc A → Result Raised A
lift (ok a) = ok a
lift (err e) = err (raised e)

-- one request to the venue, whose exception goes on
abbrev pub ask {ℓ} : {A : Type ℓ} → (ℕ → Result Exc A) → Call A
ask f s = (lift (f s.calls), record s { calls = suc s.calls })

abbrev pub submission_key : Market → Decimal → Decimal → SubmissionKey
submission_key market price size = record {
  condition_id = market.condition_id;
  up_token_id = market.up_token_id;
  down_token_id = market.down_token_id;
  price = price;
  size = size;
}

-- `==` of two tuples
abbrev pub same_key : SubmissionKey → SubmissionKey → Bool
same_key j k =
    str_eq j.condition_id k.condition_id
    && (str_eq j.up_token_id k.up_token_id
        && (str_eq j.down_token_id k.down_token_id && (j.price == k.price && j.size == k.size)))

-- the cache: get, pop and set
abbrev pub submission_of : SubmissionKey → List SignedEntry → Option (List String)
submission_of k [] = none
submission_of k (e ∷ es) = if same_key e.key k then some e.signed else submission_of k es

abbrev pub drop_submission : SubmissionKey → List SignedEntry → List SignedEntry
drop_submission k es = filter (λ e. not (same_key e.key k)) es

abbrev pub pop_submission : SubmissionKey → Call (Unit {0})
pop_submission k s = (ok tt, record s { submissions = drop_submission k s.submissions })

abbrev pub set_submission : SubmissionKey → List String → Call (Unit {0})
set_submission k signed s = (
  ok tt,
  record s { submissions = record { key = k; signed = signed } ∷ drop_submission k s.submissions },
)

-- the outcomes and the tokens of the legs
abbrev pub entry_specifications : Submission → Market → List (Outcome × String)
entry_specifications solo_up m = (Outcome.up, m.up_token_id) ∷ []
entry_specifications solo_down m = (Outcome.down, m.down_token_id) ∷ []
entry_specifications both_sides m =
    (Outcome.up, m.up_token_id) ∷ (Outcome.down, m.down_token_id) ∷ []
