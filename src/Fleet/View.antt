-- ===== src/Fleet/View.antt =====
-- fleet.py: `FleetOrderView`, the orders of every member as one venue.
use polymarket_event_quant.Base.{
  String, Bool, Option, none, some, List, [], ◌∷◌, ◌++◌, map, Result, ok, err, if◌then◌else◌,
  str_eq, or_else,
}
use polymarket_event_quant.Exchange.{Exc, RawOrder, raw_order_id}
use polymarket_event_quant.Fleet.Place.{Member}

-- `FleetOrderView`: each row bears the account that shows it
abbrev pub rows_of_account : String → List RawOrder → List RawOrder
rows_of_account name raws =
    map {A = RawOrder} {B = RawOrder} (λ raw. record raw { account = some name }) raws

abbrev pub with_rows : List RawOrder → Result Exc (List RawOrder) → Result Exc (List RawOrder)
with_rows rows (err e) = err e
with_rows rows (ok rest) = ok (rows ++ rest)

abbrev pub open_orders_of :
    Member → Result Exc (List RawOrder) → Result Exc (List RawOrder) → Result Exc (List RawOrder)
open_orders_of m (err e) rest = err e
open_orders_of m (ok raws) rest = with_rows (rows_of_account m.name raws) rest

unfoldable pub open_orders : List Member → Option String → Result Exc (List RawOrder)
open_orders [] condition_id = ok []
open_orders (m ∷ ms) condition_id =
    open_orders_of m (m.client.get_open_orders m.session.calls condition_id)
      (open_orders ms condition_id)

abbrev pub is_raw_order : String → RawOrder → Bool
is_raw_order i raw = str_eq (or_else (raw_order_id raw) "") i

abbrev pub no_mapping : Exc
no_mapping = "TypeError: 'NoneType' object is not a mapping"

-- a member that answers with another order, or with none, does not own it
abbrev pub answer_of :
    String
    → Member
    → Result Exc (Option RawOrder)
    → Option Exc
    → (Option Exc → Result Exc (Option RawOrder))
    → Result Exc (Option RawOrder)
answer_of i m (err e) last next = next (some e)
answer_of i m (ok none) last next = if str_eq i "" then err no_mapping else next last
answer_of i m (ok (some raw)) last next =
    if is_raw_order i raw then ok (some (record raw { account = some m.name })) else next last

-- the last error is raised when no member owned the order
unfoldable pub get_order_from : String → Option Exc → List Member → Result Exc (Option RawOrder)
get_order_from i none [] = ok none
get_order_from i (some e) [] = err e
get_order_from i last (m ∷ ms) =
    answer_of i m (m.client.get_order m.session.calls i) last (λ l. get_order_from i l ms)

abbrev pub get_order : String → List Member → Result Exc (Option RawOrder)
get_order i members = get_order_from i none members
