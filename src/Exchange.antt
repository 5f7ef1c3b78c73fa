-- ===== src/Exchange.antt =====
-- exchange.py: what the bot reads from the venue's payloads. A payload is a record of the keys that
-- the code asks for; `none` is a key that is missing or falsy, and the texts are code points.
pub mod Client
pub mod Orders
pub mod Entry
pub mod Knock
pub mod Lost
pub mod Session
pub mod Signing
pub mod Statuses
mod Tests
use polymarket_event_quant.Base.{
  ℕ, String, Bool, true, false, Option, none, some, List, [], ◌∷◌, Result, ok, err, is_some,
  or_else, if◌then◌else◌, ◌||◌, ◌>>=◌,
}
use polymarket_event_quant.Base.Text.{
  Text, codes, lower, upper, eq_text, starts_with, remove_prefix,
}
use polymarket_event_quant.Base.Decimal.{Decimal}
use polymarket_event_quant.Models.{Status}

-- an exception, by the text `f"{type(exc).__name__}: {exc}"` that the handlers record
abbrev pub Exc : Type 0
Exc = String

-- what `Decimal(str(value))` makes of a value that is there
pub data Number : Type 0 where
  value : Decimal → Number
  malformed : Number

pub record RawOrder : Type 0 where
  pub id : Option String
  pub order_id_upper : Option String
  pub order_id_camel : Option String
  pub asset_id : Option String
  pub asset_id_camel : Option String
  pub market : Option String
  pub price : Option Number
  pub original_size : Option Number
  pub original_size_camel : Option Number
  pub size : Option Number
  pub size_matched : Option Number
  pub size_matched_camel : Option Number
  pub matched_size : Option Number
  pub side : Option Text
  pub status : Option Text
  pub type_name : Option Text
  pub account : Option String
  pub json : String

-- `a or b`, on optional values
infixr 30 ◌or◌
abbrev pub ◌or◌ {ℓ} : {A : Type ℓ} → Option A → Option A → Option A
none or b = b
some a or b = some a

abbrev pub invalid_operation : Exc
invalid_operation = "InvalidOperation: [<class 'decimal.ConversionSyntax'>]"

-- `Decimal(str(found or default))`
abbrev pub read_number : Option Number → Decimal → Result Exc Decimal
read_number none d = ok d
read_number (some (value n)) d = ok n
read_number (some malformed) d = err invalid_operation

-- `raw.get("id") or raw.get("orderID") or raw.get("orderId")`
abbrev pub raw_order_id : RawOrder → Option String
raw_order_id raw = raw.id or raw.order_id_upper or raw.order_id_camel

-- The states that the code names, by their texts.
unfoldable pub read_status : Text → Status
read_status t =
    if eq_text t (codes "open")
    then Status.resting
    else if eq_text t (codes "live")
    then Status.live
    else if eq_text t (codes "delayed")
    then Status.delayed
    else if eq_text t (codes "unmatched")
    then Status.unmatched
    else if eq_text t (codes "simulated")
    then Status.simulated
    else if eq_text t (codes "cancel_requested")
    then Status.cancel_requested
    else if eq_text t (codes "cancelled")
    then Status.cancelled
    else if eq_text t (codes "canceled")
    then Status.canceled
    else if eq_text t (codes "closed")
    then Status.closed
    else if eq_text t (codes "filled")
    then Status.filled
    else if eq_text t (codes "matched")
    then Status.matched
    else if eq_text t (codes "expired")
    then Status.expired
    else if eq_text t (codes "rejected")
    then Status.rejected
    else if eq_text t (codes "failed")
    then Status.failed
    else if eq_text t (codes "terminal_unknown")
    then Status.terminal_unknown
    else if eq_text t (codes "simulated_closed")
    then Status.simulated_closed
    else Status.other t

abbrev pub order_status_prefix : Text
order_status_prefix = codes "order_status_"

-- the tail of `normalize_order`, on a text without the prefix
unfoldable pub resolved_status : Text → Status
resolved_status t =
    if eq_text t (codes "cancelled_market_resolved") || eq_text t (codes "canceled_market_resolved")
    then Status.cancelled
    else read_status t

unfoldable pub normalize_status : Text → Status
normalize_status text =
    let t = lower text in
    if starts_with order_status_prefix t
    then resolved_status (remove_prefix order_status_prefix t)
    else resolved_status t

unfoldable pub normalize_order : RawOrder → Result Exc (Status × Decimal)
normalize_order raw =
    read_number (raw.size_matched or raw.size_matched_camel or raw.matched_size) 0 >>= λ matched.
    ok (normalize_status (or_else (raw.status or raw.type_name) (codes "unknown")), matched)
