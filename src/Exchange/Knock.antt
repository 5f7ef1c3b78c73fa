-- ===== src/Exchange/Knock.antt =====
-- knocker.py and exchange.py: what a knock is given, and the wording of the replies it reports. The
-- library's answer is read as a record; the JSON parser, and the texts that Python makes of a number
-- and of a reply, are parameters.
use polymarket_event_quant.Base.{
  ℕ, ◌*◌, String, Bool, not, Option, none, some, List, [], ◌∷◌, any, str_eq, ◌==◌, if◌then◌else◌,
  or_else,
}
use polymarket_event_quant.Base.Concat
use polymarket_event_quant.Base.Text.{Text}
use polymarket_event_quant.Base.Decimal.{Decimal}
use polymarket_event_quant.Models.{Market, Outcome}
use polymarket_event_quant.Exchange.Signing.{Entry}

-- what `json.loads` makes of a body, or the body itself: a dict with its `status` and `error`, or
-- another value. `text` is its `str`; `none` is a falsy value.
pub data Value : Type 0 where
  dict : Option Text → Option String → String → Value
  plain : Option String → String → Value

pub record Wording : Type 0 where
  pub parsed : String → Value
  pub show_number : ℕ → String
  -- `str({"errorMsg": message, "success": False})`
  pub show_failure : String → String

pub record Accepted : Type 0 where
  pub order_id : String
  pub outcome : Outcome
  pub status : ℕ
  pub body : String

-- one way that a send ended without an order
pub data Ended : Type 0 where
  text : String → Ended
  reply : ℕ → String → Ended

-- one member's part of what `knock` returns
pub record KnockOutcome : Type 0 where
  pub attempts : ℕ
  pub held_back : ℕ
  pub registered_ms : Option ℕ
  pub accepted : List Accepted
  pub ambiguous : List Ended
  pub errors : List Ended
  pub gave_up : Bool

abbrev pub value_text : Value → String
value_text (dict status error t) = t
value_text (plain truthy t) = t

-- `value or ...`, on a value whose text is not empty
abbrev pub truthy_text : Value → Option String
truthy_text (dict status error t) = some t
truthy_text (plain truthy t) = truthy

abbrev pub payload_error : Value → Option String
payload_error (dict status error t) = error
payload_error (plain truthy t) = none

abbrev pub reply_status : Value → Option Text
reply_status (dict status error t) = status
reply_status (plain truthy t) = none

module _ (wording : Wording) where
  abbrev pub exception_text : ℕ → Value → String
  exception_text status error_msg = Concat.◌++◌ "PolyApiException[status_code=" (
      Concat.◌++◌ (wording.show_number status)
        (Concat.◌++◌ ", error_message=" (Concat.◌++◌ (value_text error_msg) "]")))

  -- the message of a reply whose status is not 200
  abbrev pub failure_message : ℕ → Value → String
  failure_message status error_msg = elim (payload_error error_msg) [
    | some t ↦ t
    | none ↦ or_else (truthy_text error_msg) (exception_text status error_msg)
  ]

  abbrev pub reply_value : ℕ → String → Value
  reply_value status body =
      if status == 200
      then wording.parsed body
      else dict none none (wording.show_failure (failure_message status (wording.parsed body)))

  abbrev pub or_partial : String → String
  or_partial t = if str_eq t "" then "partial placement" else t

  abbrev pub error_text : Ended → String
  error_text (text t) = t
  error_text (reply status body) = or_partial (value_text (reply_value status body))

  abbrev pub ambiguous_text : Ended → String
  ambiguous_text (text t) = t
  ambiguous_text (reply status body) =
      if status == 0
      then "PolyApiException: PolyApiException[status_code=None, error_message=Request exception!]"
      else Concat.◌++◌ "PolyApiException: " (exception_text status (wording.parsed body))

-- `dict.fromkeys(texts)`, without the texts in `seen`
unfoldable pub first_of_each : List String → List String → List String
first_of_each seen [] = []
first_of_each seen (t ∷ ts) =
    let fresh = first_of_each (t ∷ seen) ts in
    let rest = first_of_each seen ts in if any (str_eq t) seen then rest else t ∷ fresh

-- `"; ".join(texts)`
abbrev pub joined : List String → String
joined [] = ""
joined (t ∷ []) = t
joined (t ∷ u ∷ ts) = Concat.◌++◌ t (Concat.◌++◌ "; " (joined (u ∷ ts)))

abbrev pub is_text : String → Bool
is_text t = not (str_eq t "")

-- one account's part of a plan; the credentials that it carries are left out
pub record KnockMember : Type 0 where
  pub account : String
  pub phase_ms : Decimal
  pub legs : List (Outcome × String)

-- the preview of a plan: the record that is asked for, and the bursts from its start
pub record Burst : Type 0 where
  pub from_ms : ℕ
  pub until_ms : ℕ
  pub interval_ms : ℕ

pub record Preview : Type 0 where
  pub url : String
  pub poll_ms : ℕ
  pub bursts : List Burst
  pub give_up_ms : ℕ

pub record KnockPlan : Type 0 where
  pub market : String
  pub interval_ms : Decimal
  pub knock_until_ms : ℕ
  pub market_end_ms : ℕ
  pub members : List KnockMember
  pub preview : Option Preview

abbrev pub knock_plan : Market → List KnockMember → Decimal → ℕ → Option Preview → KnockPlan
knock_plan market members interval_ms knock_until_ms preview = record {
  market = market.slug;
  interval_ms = interval_ms;
  knock_until_ms = knock_until_ms;
  market_end_ms = market.end_ts * 1000;
  members = members;
  preview = preview;
}

abbrev pub knock_member : Entry → String → Decimal → KnockMember
knock_member entry name phase_offset_ms = record {
  account = name;
  phase_ms = phase_offset_ms;
  legs = entry.legs;
}

abbrev pub preview_poll_ms : ℕ
preview_poll_ms = 40

abbrev pub burst : ℕ → ℕ → ℕ → Burst
burst start end every = record { from_ms = start; until_ms = end; interval_ms = every }

abbrev pub preview_bursts : List Burst
preview_bursts = burst 262 330 3 ∷ burst 330 450 8 ∷ burst 450 650 16 ∷ []

abbrev pub preview_give_up_ms : ℕ
preview_give_up_ms = 60_000

-- GAMMA_MARKETS_BY_SLUG of discovery.py, and the slug
abbrev pub gamma_url : String → String
gamma_url slug = Concat.◌++◌ "https://gamma-api.polymarket.com/markets/slug/" slug

abbrev pub preview_plan : Market → Preview
preview_plan market = record {
  url = gamma_url market.slug;
  poll_ms = preview_poll_ms;
  bursts = preview_bursts;
  give_up_ms = preview_give_up_ms;
}
