-- ===== src/Activation/Slug.antt =====
-- market_activation.py: the slug of the market that starts at a time, `f"btc-updown-5m-{start_ts}"`,
-- and what discovery.py reads in it.
use Prim.Native.Char.{Char, code}
use polymarket_event_quant.Base.{
  ℕ, zero, suc, ◌+◌, ◌*◌, ◌/◌, ◌%◌, ◌<◌, ◌≤◌, String, ◌≡◌, ◌≢◌, refl, true, false, some, List, [],
  ◌∷◌, ◌++◌, map, ltb, ltb→lt, lt→ltb, ◌==◌, if◌then◌else◌, arith, All, All-append, Bool-cases, inl,
  inr, ap, ◌∙◌, ok,
}
use polymarket_event_quant.Base.Text.{Text, codes, starts_with}
use polymarket_event_quant.Base.Decimal.{Decimal}
use polymarket_event_quant.Exchange.{Number}
use polymarket_event_quant.Discovery.Reading.{
  read_digits, skip_spaces, last_segment, read_int, parse_market, token_of, slug_prefix,
}

-- the decimal digits of a number, on fuel that it bounds
unfoldable pub digits_from : ℕ → ℕ → List ℕ
digits_from zero n = n % 10 ∷ []
digits_from (suc fuel) n =
    let more = digits_from fuel (n / 10) ++ n % 10 ∷ [] in if ltb n 10 then n ∷ [] else more

abbrev pub digits : ℕ → List ℕ
digits n = digits_from n n

abbrev pub digit_char : ℕ → Char
digit_char d =
    if d == 0
    then "0"
    else if d == 1
    then "1"
    else if d == 2
    then "2"
    else if d == 3
    then "3"
    else if d == 4
    then "4"
    else if d == 5
    then "5"
    else if d == 6
    then "6"
    else if d == 7
    then "7"
    else if d == 8
    then "8"
    else "9"

abbrev pub digit_text : List ℕ → String
digit_text [] = String.[]
digit_text (d ∷ ds) = String.◌∷◌ (digit_char d) (digit_text ds)

-- one text behind another
abbrev pub join : String → String → String
join String.[] t = t
join (String.◌∷◌ c s) t = String.◌∷◌ c (join s t)

unfoldable pub market_slug : ℕ → String
market_slug start_ts = join "btc-updown-5m-" (digit_text (digits start_ts))

abbrev AreDigits : List ℕ → Type 0
AreDigits ds = All (λ d. d < 10) ds

abbrev shown : List ℕ → Text
shown ds = map (λ d. 48 + d) ds

digit_code : (d : ℕ) → d < 10 → code (digit_char d) ≡ 48 + d
digit_code zero h = refl
digit_code (suc zero) h = refl
digit_code (suc (suc zero)) h = refl
digit_code (suc (suc (suc zero))) h = refl
digit_code (suc (suc (suc (suc zero)))) h = refl
digit_code (suc (suc (suc (suc (suc zero))))) h = refl
digit_code (suc (suc (suc (suc (suc (suc zero)))))) h = refl
digit_code (suc (suc (suc (suc (suc (suc (suc zero))))))) h = refl
digit_code (suc (suc (suc (suc (suc (suc (suc (suc zero)))))))) h = refl
digit_code (suc (suc (suc (suc (suc (suc (suc (suc (suc zero))))))))) h = refl
digit_code (suc (suc (suc (suc (suc (suc (suc (suc (suc (suc d)))))))))) h =
    absurd (omega (arith, h))

codes-digit_text : (ds : List ℕ) → AreDigits ds → codes (digit_text ds) ≡ shown ds
codes-digit_text [] h = refl
codes-digit_text (d ∷ ds) h =
    rw (digit_code d h.0) (ap (λ t. (48 + d) ∷ t) (codes-digit_text ds h.1))

codes-join : (s t : String) → codes (join s t) ≡ codes s ++ codes t
codes-join String.[] t = refl
codes-join (String.◌∷◌ c s) t = ap (λ u. code c ∷ u) (codes-join s t)

digits_from-AreDigits : (fuel n : ℕ) → AreDigits (digits_from fuel n)
unfolding digits_from
digits_from-AreDigits zero n = (grind arith, tt)
digits_from-AreDigits (suc fuel) n = elim (Bool-cases (ltb n 10)) [
  | inl e ↦ rw e (ground (arith, e), tt)
  | inr e ↦ rw e (
      All-append (λ d. d < 10) (digits_from fuel (n / 10)) (n % 10 ∷ [])
        (digits_from-AreDigits fuel (n / 10)) (grind arith, tt))
]

-- the number that digits stand for, behind those read before
abbrev value_from : ℕ → List ℕ → ℕ
value_from acc [] = acc
value_from acc (d ∷ ds) = value_from (acc * 10 + d) ds

value_from-append :
    (acc d : ℕ) (ds : List ℕ) → value_from acc (ds ++ d ∷ []) ≡ value_from acc ds * 10 + d
value_from-append acc d [] = refl
value_from-append acc d (e ∷ ds) = value_from-append (acc * 10 + e) d ds

tenth_below : (fuel n : ℕ) → n ≤ suc fuel → ltb n 10 ≡ false → n / 10 ≤ fuel
tenth_below fuel n h e = grind (arith, ltb→lt, lt→ltb)

digits_from-value : (fuel n : ℕ) → n ≤ fuel → value_from 0 (digits_from fuel n) ≡ n
unfolding digits_from
digits_from-value zero n h = grind (arith, h)
digits_from-value (suc fuel) n h = elim (Bool-cases (ltb n 10)) [
  | inl e ↦ rw e (omega arith)
  | inr e ↦ rw e (
      value_from-append 0 (n % 10) (digits_from fuel (n / 10))
      ∙ rw (digits_from-value fuel (n / 10) (tenth_below fuel n h e)) (grind arith))
]

read_digits-shown :
    (acc : ℕ) (ds : List ℕ)
    → AreDigits ds
    → read_digits acc false (shown ds) ≡ some (value_from acc ds)
unfolding read_digits
read_digits-shown acc [] h = refl
read_digits-shown acc (d ∷ ds) h = ground (arith, h.0, read_digits-shown (acc * 10 + d) ds h.1)

last_segment-shown :
    (seen : Text) (ds : List ℕ) → AreDigits ds → last_segment seen (shown ds) ≡ seen
unfolding last_segment
last_segment-shown seen [] h = refl
last_segment-shown seen (d ∷ ds) h = ground (arith, h.0, last_segment-shown seen ds h.1)

-- what reads a number in a text that begins with its digits
read_shown :
    (d : ℕ) (ds : List ℕ)
    → AreDigits (d ∷ ds)
    → read_int (shown (d ∷ ds)) ≡ some (value_from 0 (d ∷ ds))
unfolding read_digits skip_spaces
read_shown d ds h = ground (arith, h.0, read_digits-shown (0 * 10 + d) ds h.1)

read_digits_of :
    (ds : List ℕ) → AreDigits ds → ds ≢ [] → read_int (shown ds) ≡ some (value_from 0 ds)
read_digits_of [] h ne = absurd (ne refl)
read_digits_of (d ∷ ds) h ne = read_shown d ds h

append_some : (ds : List ℕ) (d : ℕ) → ds ++ d ∷ [] ≢ []
append_some [] d q = grind arith
append_some (e ∷ ds) d q = grind arith

digits_from-some : (fuel n : ℕ) → digits_from fuel n ≢ []
unfolding digits_from
digits_from-some zero n = λ q. grind arith
digits_from-some (suc fuel) n = elim (Bool-cases (ltb n 10)) [
  | inl e ↦ rw e (λ q. grind arith)
  | inr e ↦ rw e (append_some (digits_from fuel (n / 10)) (n % 10))
]

slug_codes : (n : ℕ) → codes (market_slug n) ≡ slug_prefix ++ shown (digits n)
unfolding market_slug
slug_codes n =
    codes-join "btc-updown-5m-" (digit_text (digits n))
    ∙ ap (λ t. slug_prefix ++ t) (codes-digit_text (digits n) (digits_from-AreDigits n n))

read_slug :
    (n : ℕ) → read_int (last_segment (codes (market_slug n)) (codes (market_slug n))) ≡ some n
unfolding last_segment
read_slug n = rw (slug_codes n) (
    rw (last_segment-shown (shown (digits n)) (digits n) (digits_from-AreDigits n n)) (
      read_digits_of (digits n) (digits_from-AreDigits n n) (digits_from-some n n)
      ∙ ap some (digits_from-value n n (omega arith))))

slug_starts : (n : ℕ) → starts_with slug_prefix (codes (market_slug n)) ≡ true
slug_starts n = rw (slug_codes n) refl

-- What the activation worker asks for is what the discovery reads back: the slug that is made of a
-- start parses as a market with that start and with the end five minutes later, for every start, and
-- with the condition, tokens, sizes and slug of the row, where the row names both outcomes.
pub parse_market-market_slug :
    (start : ℕ) (condition up_token down_token : String) (min_size tick_size : Decimal)
    → parse_market
        (record {
          enable_order_book = true;
          clob_token_ids = some (up_token ∷ down_token ∷ []);
          outcomes = some ("Up" ∷ "Down" ∷ []);
          condition_id = some condition;
          order_min_size = some (Number.value min_size);
          order_price_min_tick_size = some (Number.value tick_size);
        })
        (market_slug start)
      ≡ ok (
          some (record {
            slug = market_slug start;
            condition_id = condition;
            start_ts = start;
            end_ts = start + 300;
            up_token_id = up_token;
            down_token_id = down_token;
            min_size = min_size;
            tick_size = tick_size;
          }))
unfolding parse_market token_of
parse_market-market_slug start condition up_token down_token min_size tick_size =
    rw (slug_starts start) (rw (read_slug start) refl)
