-- ===== src/Discovery/Reading.antt =====
-- discovery.py: what is read from a market of the Gamma service. `int` is read on ASCII: a plus, spaces
-- around and single underscores between the digits are allowed, as Python allows them.
use polymarket_event_quant.Base.{
  ℕ, ◌+◌, ◌-◌, ◌*◌, String, Bool, true, false, not, ◌&&◌, ◌||◌, Option, none, some, List, [], ◌∷◌,
  all, length, leb, ◌==◌, str_eq, Result, ok, if◌then◌else◌, ◌>>=◌,
}
use polymarket_event_quant.Base.Text.{Text, codes, starts_with}
use polymarket_event_quant.Base.Decimal.{Decimal}
use polymarket_event_quant.Models.{Market}
use polymarket_event_quant.Exchange.{Exc, Number, read_number}

-- a market row; `none` is a key that is missing, a text that is no JSON, or a falsy number, so that a
-- size of 0 is the text "0"
pub record GammaMarket : Type 0 where
  pub enable_order_book : Bool
  pub clob_token_ids : Option (List String)
  pub outcomes : Option (List String)
  pub condition_id : Option String
  pub order_min_size : Option Number
  pub order_price_min_tick_size : Option Number

pub record GammaEvent : Type 0 where
  pub slug : String
  pub markets : List GammaMarket

abbrev pub is_digit : ℕ → Bool
is_digit c = leb 48 c && leb c 57

abbrev pub is_space : ℕ → Bool
is_space c = c == 32 || ((leb 9 c && leb c 13) || (leb 28 c && leb c 31))

-- the digits that are left, where a digit has to come first when `bare` is set
unfoldable pub read_digits : ℕ → Bool → Text → Option ℕ
read_digits acc bare [] = if bare then none else some acc
read_digits acc bare (c ∷ t) =
    let next = read_digits (acc * 10 + (c - 48)) false t in
    let skipped = read_digits acc true t in
    if is_digit c
    then next
    else if bare
    then none
    else if c == 95
    then skipped
    else if is_space c && all is_space t
    then some acc
    else none

unfoldable pub skip_spaces : Text → Text
skip_spaces [] = []
skip_spaces (c ∷ t) = let rest = skip_spaces t in if is_space c then rest else c ∷ t

abbrev pub drop_plus : Text → Text
drop_plus [] = []
drop_plus (c ∷ t) = if c == 43 then t else c ∷ t

-- `int(t)`, where t has no minus
abbrev pub read_int : Text → Option ℕ
read_int t = read_digits 0 true (drop_plus (skip_spaces t))

-- `t.rsplit("-", 1)[1]`, where t has a minus
unfoldable pub last_segment : Text → Text → Text
last_segment seen [] = seen
last_segment seen (c ∷ t) =
    let cut = last_segment t t in let rest = last_segment seen t in if c == 45 then cut else rest

abbrev pub slug_prefix : Text
slug_prefix = codes "btc-updown-5m-"

abbrev pub market_seconds : ℕ
market_seconds = 300

-- `dict(zip(outcomes, token_ids, strict=True))[outcome]`: the last one counts
unfoldable pub token_of : String → List String → List String → Option String
token_of outcome [] [] = none
token_of outcome [] (_ ∷ _) = none
token_of outcome (_ ∷ _) [] = none
token_of outcome (o ∷ os) (t ∷ ts) = elim (token_of outcome os ts) [
  | some later ↦ some later
  | none ↦ if str_eq o outcome then some t else none
]

-- the fields that a market needs; without one of them it is left out
pub record Fields : Type 0 where
  pub start_ts : ℕ
  pub condition_id : String
  pub up_token_id : String
  pub down_token_id : String

abbrev pub tokens_of : ℕ → String → List String → List String → Option Fields
tokens_of start condition os ts =
    if not (length os == length ts) then none else elim (token_of "Up" os ts) [
      | none ↦ none
      | some u ↦ elim (token_of "Down" os ts) [
        | none ↦ none
        | some d ↦ some (record {
          start_ts = start;
          condition_id = condition;
          up_token_id = u;
          down_token_id = d;
        })
      ]
    ]

abbrev pub read_fields :
    Option ℕ → Option (List String) → Option (List String) → Option String → Option Fields
read_fields (some start) (some ts) (some os) (some condition) = tokens_of start condition os ts
read_fields none _ _ _ = none
read_fields (some _) none _ _ = none
read_fields (some _) (some _) none _ = none
read_fields (some _) (some _) (some _) none = none

abbrev pub fields_of : String → GammaMarket → Option Fields
fields_of slug m =
    read_fields (read_int (last_segment (codes slug) (codes slug))) m.clob_token_ids m.outcomes
      m.condition_id

abbrev pub default_min_size : Decimal
default_min_size = 5_000_000_000_000

abbrev pub default_tick_size : Decimal
default_tick_size = 10_000_000_000

-- a number that cannot be read raises `InvalidOperation`, which is not caught
abbrev pub market_of : String → GammaMarket → Option Fields → Result Exc (Option Market)
market_of slug m none = ok none
market_of slug m (some f) = read_number m.order_min_size default_min_size >>= λ min_size.
    read_number m.order_price_min_tick_size default_tick_size >>= λ tick_size. ok (
      some (record {
        slug = slug;
        condition_id = f.condition_id;
        start_ts = f.start_ts;
        end_ts = f.start_ts + market_seconds;
        up_token_id = f.up_token_id;
        down_token_id = f.down_token_id;
        min_size = min_size;
        tick_size = tick_size;
      }))

unfoldable pub parse_market : GammaMarket → String → Result Exc (Option Market)
parse_market m slug =
    if not (starts_with slug_prefix (codes slug))
    then ok none
    else if not m.enable_order_book
    then ok none
    else market_of slug m (fields_of slug m)
