-- ===== src/Database/Statements.antt =====
-- Any sequence of the writes of database.py, from the empty tables.
use polymarket_event_quant.Base.{ℕ, String, Option, List, [], ◌∷◌}
use polymarket_event_quant.Base.Decimal.{Decimal}
use polymarket_event_quant.Models.{Market, PlacedOrder, Status}
use polymarket_event_quant.Database.{
  Db, MarketState, empty, add_market, prepare_market, set_market_state, add_order, update_order,
  mark_orders,
}
use polymarket_event_quant.Database.Invariant.{
  IsValid, after, empty-IsValid, add_market-IsValid, prepare_market-IsValid,
  set_market_state-IsValid, add_order-IsValid, update_order-IsValid, mark_orders-IsValid,
}

-- one write, with the second at which it is made
pub data Statement : Type 0 where
  adds_market prepares_market : ℕ → ℕ → Market → MarketState → Statement
  sets_market_state : ℕ → String → MarketState → Option String → Statement
  adds_order : ℕ → ℕ → String → PlacedOrder → Statement
  updates_order : ℕ → String → Status → Decimal → String → Statement
  marks_orders : ℕ → List String → Status → Statement

pub execute : Statement → Db → Db
execute (adds_market now run_id m state) db = after db (add_market now run_id m state db)
execute (prepares_market now run_id m state) db = after db (prepare_market now run_id m state db)
execute (sets_market_state now slug state message) db = set_market_state now slug state message db
execute (adds_order now run_id slug o) db = after db (add_order now run_id slug o db)
execute (updates_order now i status matched raw) db = update_order now i status matched raw db
execute (marks_orders now is status) db = mark_orders now is status db

pub execute_all : List Statement → Db → Db
execute_all [] db = db
execute_all (s ∷ ss) db = execute_all ss (execute s db)

execute-IsValid : (s : Statement) (db : Db) → IsValid db → IsValid (execute s db)
unfolding execute
execute-IsValid (adds_market now run_id m state) db v = add_market-IsValid now run_id m state db v
execute-IsValid (prepares_market now run_id m state) db v =
    prepare_market-IsValid now run_id m state db v
execute-IsValid (sets_market_state now slug state message) db v =
    set_market_state-IsValid now slug state message db v
execute-IsValid (adds_order now run_id slug o) db v = add_order-IsValid now run_id slug o db v
execute-IsValid (updates_order now i status matched raw) db v =
    update_order-IsValid now i status matched raw db v
execute-IsValid (marks_orders now is status) db v = mark_orders-IsValid now is status db v

pub execute_all-IsValid : (ss : List Statement) (db : Db) → IsValid db → IsValid (execute_all ss db)
unfolding execute_all
execute_all-IsValid [] db v = v
execute_all-IsValid (s ∷ ss) db v = execute_all-IsValid ss (execute s db) (execute-IsValid s db v)

-- From the empty tables, after any sequence of inserts, updates and refused inserts, no slug and no
-- order id stands twice, and the market of every order is there.
pub reachable-IsValid : (ss : List Statement) → IsValid (execute_all ss empty)
reachable-IsValid ss = execute_all-IsValid ss empty empty-IsValid
