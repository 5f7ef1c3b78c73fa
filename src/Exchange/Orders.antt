-- ===== src/Exchange/Orders.antt =====
-- exchange.py: exits, and the search for an exit whose reply was lost.
use polymarket_event_quant.Base.{
  ℕ, suc, ◌*◌, String, Bool, true, false, ◌&&◌, Option, none, some, List, [], ◌∷◌, str_eq, ◌==◌,
  Result, ok, err, ◌>>=◌, or_else, if◌then◌else◌,
}
use polymarket_event_quant.Base.Text.{Text, codes, lower, upper, eq_text}
use polymarket_event_quant.Base.Decimal.{Decimal}
use polymarket_event_quant.Models.{Market, Outcome, Side, Role, PlacedOrder}
use polymarket_event_quant.Exchange.{Exc, RawOrder, ◌or◌, read_number, read_status}
use polymarket_event_quant.Exchange.Client.{Client, CancelReply}

abbrev pub rejected : Exc
rejected = "RuntimeError: sell order rejected"

abbrev pub status_or_open : Option Text → Text
status_or_open t = lower (or_else t (codes "open"))

module _ (client : Client) where
  unfoldable pub place_exit :
      ℕ → Market → Outcome → String → Decimal → Decimal → Result Exc PlacedOrder
  place_exit call market outcome token_id price size =
      client.post_exit call market token_id price size >>= λ response.
      if response.accepted
      then ok (record {
        order_id = or_else response.order_id "None";
        outcome = outcome;
        token_id = token_id;
        price = price;
        size = size;
        status = read_status (status_or_open response.status);
        raw = response.json;
        side = Side.sell;
        role = Role.exit_role;
        account = "";
      })
      else err rejected

  -- one open order against the lost one: token, side, price and size
  abbrev pub is_same_order : Text → String → Decimal → Decimal → RawOrder → Result Exc Bool
  is_same_order side token_id price size raw = read_number raw.price 0 >>= λ raw_price.
      read_number (raw.original_size or raw.original_size_camel or raw.size) 0 >>= λ raw_size. ok (
        str_eq (or_else (raw.asset_id or raw.asset_id_camel) "") token_id
        && (eq_text (upper (or_else raw.side [])) side && (raw_price == price && raw_size == size)))

  abbrev pub keep_if : RawOrder → List RawOrder → Bool → List RawOrder
  keep_if raw rest true = raw ∷ rest
  keep_if raw rest false = rest

  unfoldable pub matching_orders :
      Text → String → Decimal → Decimal → List RawOrder → Result Exc (List RawOrder)
  matching_orders side token_id price size [] = ok []
  matching_orders side token_id price size (raw ∷ raws) =
      let rest = matching_orders side token_id price size raws in
      is_same_order side token_id price size raw >>= λ same.
      rest >>= λ found. ok (keep_if raw found same)

  abbrev pub placed_from :
      Side → Role → Outcome → String → Decimal → Decimal → String → RawOrder → PlacedOrder
  placed_from side role outcome token_id price size order_id raw = record {
    order_id = order_id;
    outcome = outcome;
    token_id = token_id;
    price = price;
    size = size;
    status = read_status (status_or_open raw.status);
    raw = raw.json;
    side = side;
    role = role;
    account = "";
  }

  -- exactly one match with an id is the lost order
  abbrev pub sole_match : Outcome → String → Decimal → Decimal → List RawOrder → Option PlacedOrder
  sole_match outcome token_id price size [] = none
  sole_match outcome token_id price size (raw ∷ []) = elim (client.classified_id raw or raw.id) [
    | none ↦ none
    | some i ↦ some (placed_from Side.sell Role.exit_role outcome token_id price size i raw)
  ]
  sole_match outcome token_id price size (_ ∷ _ ∷ _) = none

  unfoldable pub reconcile_ambiguous_exit :
      ℕ → Market → Outcome → String → Decimal → Decimal → Result Exc (Option PlacedOrder)
  reconcile_ambiguous_exit call market outcome token_id price size =
      client.get_open_orders call (some market.condition_id) >>= λ raws.
      matching_orders (codes "SELL") token_id price size raws >>= λ found.
      ok (sole_match outcome token_id price size found)

  -- / TOKEN_SCALE
  unfoldable pub conditional_balance : ℕ → String → Result Exc Decimal
  conditional_balance call token_id =
      client.get_balance_allowance call token_id >>= λ balance. ok (balance * 1_000_000)

  -- no request is made for an empty list
  unfoldable pub cancel_orders : ℕ → List String → Result Exc (Option CancelReply)
  cancel_orders call [] = ok none
  cancel_orders call (i ∷ is) = client.cancel_orders call (i ∷ is)

  -- both books are asked for, the second only if the first is there
  unfoldable pub order_books_ready : ℕ → Market → Result Exc Bool
  order_books_ready call market = client.order_book_exists call market.up_token_id >>= λ up_ready.
      if up_ready then client.order_book_exists (suc call) market.down_token_id else ok false
