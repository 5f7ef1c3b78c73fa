-- ===== src/Discovery.antt =====
-- discovery.py: the pages of a discovery, its events and the order of its markets. The requests are
-- parameters.
pub mod Reading
pub mod Pages
mod Tests
use polymarket_event_quant.Base.{
  ℕ, zero, suc, ◌+◌, ◌-◌, ◌*◌, ◌/◌, ◌%◌, min, String, Bool, true, false, not, ◌&&◌, ◌||◌, Option,
  none, some, List, [], ◌∷◌, ◌++◌, map, filter, all, any, length, sort_by, leb, ltb, ◌==◌, str_eq,
  Result, ok, err, if◌then◌else◌, ◌>>=◌,
}
use polymarket_event_quant.Base.Text.{Text, codes, starts_with}
use polymarket_event_quant.Base.Decimal.{Decimal}
use polymarket_event_quant.Models.{Market}
use polymarket_event_quant.Exchange.{Exc, Number, read_number}
use polymarket_event_quant.Discovery.Reading.{
  GammaMarket, GammaEvent, is_digit, is_space, read_digits, skip_spaces, drop_plus, read_int,
  last_segment, slug_prefix, market_seconds, token_of, Fields, tokens_of, read_fields, fields_of,
  default_min_size, default_tick_size, market_of, parse_market,
}

unfoldable pub parse : GammaEvent → Result Exc (Option Market)
parse e = elim e.markets [
  | [] ↦ ok none
  | m ∷ rest ↦ elim rest [ [] ↦ parse_market m e.slug | _ ∷ _ ↦ ok none ]
]

abbrev pub keep_market :
    Result Exc (Option Market) → Result Exc (List Market) → Result Exc (List Market)
keep_market (err e) rest = err e
keep_market (ok none) rest = rest
keep_market (ok (some m)) (err e) = err e
keep_market (ok (some m)) (ok ms) = ok (m ∷ ms)

unfoldable pub parse_all : List GammaEvent → Result Exc (List Market)
parse_all [] = ok []
parse_all (e ∷ es) = keep_market (parse e) (parse_all es)

abbrev pub gamma_page_size : ℕ
gamma_page_size = 100

-- `math.ceil(window_minutes / 5) if farthest_first else 100`
abbrev pub requested_events : ℕ → Bool → ℕ
requested_events window_minutes farthest_first =
    if farthest_first then (window_minutes + 4) / 5 else 100

-- the end of the loop over the pages, `unfinished` when its fuel has run out
pub data Collected : Type 0 where
  collected : List GammaEvent → Collected
  broken : Exc → Collected
  unfinished : Collected

module _ (get_page : ℕ → ℕ → Result Exc (List GammaEvent)) where
  abbrev pub page_size : ℕ → List GammaEvent → ℕ
  page_size requested events = min gamma_page_size (requested - length events)

  -- a page that is not full is the last
  abbrev pub after_page :
      (List GammaEvent → Collected) → ℕ → List GammaEvent → Result Exc (List GammaEvent) → Collected
  after_page next requested events (err e) = broken e
  after_page next requested events (ok page) =
      if ltb (length page) (page_size requested events)
      then collected (events ++ page)
      else next (events ++ page)

  -- the loop, on fuel; a page is asked for at its limit and offset
  unfoldable pub collect : ℕ → ℕ → List GammaEvent → Collected
  collect zero requested events =
      if ltb (length events) requested then unfinished else collected events
  collect (suc fuel) requested events =
      if ltb (length events) requested
      then after_page (collect fuel requested) requested events
          (get_page (page_size requested events) (length events))
      else collected events

unfoldable pub reversed {ℓ} : {A : Type ℓ} → List A → List A
reversed [] = []
reversed (x ∷ xs) = reversed xs ++ x ∷ []

-- a stable sort by the start, the latest first on demand
abbrev pub sorted_markets : Bool → List Market → List Market
sorted_markets farthest_first ms =
    if farthest_first
    then reversed (sort_by (λ m. m.start_ts) (reversed ms))
    else sort_by (λ m. m.start_ts) ms

abbrev pub discovered : Bool → Collected → Result Exc (List Market)
discovered farthest_first (broken e) = err e
discovered farthest_first unfinished = err "unfinished"
discovered farthest_first (collected events) =
    parse_all events >>= λ ms. ok (sorted_markets farthest_first ms)

unfoldable pub discover :
    (ℕ → ℕ → Result Exc (List GammaEvent)) → ℕ → Bool → Result Exc (List Market)
discover get_page window_minutes farthest_first =
    let requested = requested_events window_minutes farthest_first in
    discovered farthest_first (collect get_page requested requested [])

-- `find_by_slug`; `none` is the status 404
abbrev pub found_by_slug : String → Result Exc (Option GammaMarket) → Result Exc (Option Market)
found_by_slug slug (err e) = err e
found_by_slug slug (ok none) = ok none
found_by_slug slug (ok (some m)) = parse_market m slug
