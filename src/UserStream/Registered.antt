-- ===== src/UserStream/Registered.antt =====
-- The stamps that the fleet reads: the first placement of an order counts.
use polymarket_event_quant.Base.{
  ℕ, String, ◌≡◌, Option, none, some, List, [], ◌∷◌, arith, eq_iff, str_eq, if◌then◌else◌,
}
use polymarket_event_quant.UserStream.{
  StreamWorker, UserOrderUpdate, accept_order, registered_ts_ms, stamp_of, set_default,
  register_stamp, new_worker,
}

abbrev pub accept_all : List UserOrderUpdate → StreamWorker → StreamWorker
accept_all [] w = w
accept_all (u ∷ us) w = accept_all us (accept_order u w)

-- the stamp of the first placement of the order among the updates
abbrev pub first_stamp : String → List UserOrderUpdate → Option ℕ
first_stamp order_id [] = none
first_stamp order_id (u ∷ us) =
    if str_eq u.order_id order_id
    then elim (stamp_of u) [ some ts ↦ some ts | none ↦ first_stamp order_id us ]
    else first_stamp order_id us

abbrev pub kept_or : Option ℕ → Option ℕ → Option ℕ
kept_or (some ts) later = some ts
kept_or none later = later

registered-set_default :
    (i j : String) (ts : ℕ) (stamps : List (String × ℕ))
    → registered_ts_ms j (set_default i ts stamps)
      ≡ kept_or (registered_ts_ms j stamps) (if str_eq i j then some ts else none)
unfolding registered_ts_ms set_default
registered-set_default i j ts [] = ground arith
registered-set_default i j ts ((k, t) ∷ rest) =
    ground (arith, registered-set_default i j ts rest, eq_iff k i, eq_iff k j, eq_iff i j)

registered-register_stamp :
    (i j : String) (stamp : Option ℕ) (stamps : List (String × ℕ))
    → registered_ts_ms j (register_stamp i stamp stamps)
      ≡ kept_or (registered_ts_ms j stamps) (if str_eq i j then stamp else none)
registered-register_stamp i j none stamps = ground arith
registered-register_stamp i j (some ts) stamps = registered-set_default i j ts stamps

registered-accept_all :
    (j : String) (us : List UserOrderUpdate) (w : StreamWorker)
    → registered_ts_ms j (accept_all us w).registered_at
      ≡ kept_or (registered_ts_ms j w.registered_at) (first_stamp j us)
unfolding accept_order
registered-accept_all j [] w = ground arith
registered-accept_all j (u ∷ us) w = ground (
  arith,
  registered-accept_all j us (accept_order u w),
  registered-register_stamp u.order_id j (stamp_of u) w.registered_at,
)

-- A worker that has seen a sequence of order updates knows of each order the stamp of its first
-- placement that has one, and no other: a repeated push never moves it.
pub registered_is_first :
    (order_id : String) (us : List UserOrderUpdate)
    → registered_ts_ms order_id (accept_all us new_worker).registered_at ≡ first_stamp order_id us
unfolding registered_ts_ms
registered_is_first order_id us = registered-accept_all order_id us new_worker
