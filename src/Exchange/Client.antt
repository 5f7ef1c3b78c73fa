-- ===== src/Exchange/Client.antt =====
-- The official client (py_clob_client_v2) and the knock library's judgement of a reply, as the bot
-- uses them: parameters. Each answer may depend on the number of calls made before, so the venue
-- may change between two calls.
use polymarket_event_quant.Base.{ℕ, String, Bool, Option, List, Result}
use polymarket_event_quant.Base.Text.{Text}
use polymarket_event_quant.Base.Decimal.{Decimal}
use polymarket_event_quant.Models.{Market}
use polymarket_event_quant.Exchange.{Exc, RawOrder}

-- a reply to a posted order: the library's verdict, and the reply's own status
pub record Reply : Type 0 where
  pub accepted : Bool
  pub order_id : Option String
  pub status : Option Text
  pub json : String

-- the payload of a cancel: the ids done, and the ids refused with their reasons
pub record CancelReply : Type 0 where
  pub canceled : List String
  pub not_canceled : Option (List (String × Text))

pub record Client : Type 0 where
  -- create_order and post_order for one exit
  pub post_exit : ℕ → Market → String → Decimal → Decimal → Result Exc Reply
  pub get_open_orders : ℕ → Option String → Result Exc (List RawOrder)
  pub get_order : ℕ → String → Result Exc (Option RawOrder)
  -- the balance of a token, in its own units of 10^-6
  pub get_balance_allowance : ℕ → String → Result Exc ℕ
  -- `none` is a payload that is no dict
  pub cancel_orders : ℕ → List String → Result Exc (Option CancelReply)
  -- get_order_book: whether the book is there
  pub order_book_exists : ℕ → String → Result Exc Bool
  -- the id that the library reads in an open order's payload
  pub classified_id : RawOrder → Option String
