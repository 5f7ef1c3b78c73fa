-- ===== src/Geoblock/Blocked.antt =====
-- No block is lost between a check of the geoblock service and the service's loop.
use polymarket_event_quant.Base.{
  ◌≡◌, refl, Bool, false, ◌||◌, List, [], ◌∷◌, any, any-append, Result, ok, err, arith,
}
use polymarket_event_quant.Exchange.{Exc}
use polymarket_event_quant.Geoblock.{
  GeoblockReply, GeoblockWorker, is_api_trading_blocked, run_once, run_checks, geoblock_update,
  check_healthy,
}

-- an answer that says that trading is blocked
abbrev pub is_block : Result Exc GeoblockReply → Bool
is_block (err e) = false
is_block (ok r) = is_api_trading_blocked r

abbrev pub last_from : Bool → List (Result Exc GeoblockReply) → Bool
last_from h [] = h
last_from h (a ∷ as') = last_from (check_healthy a) as'

run_once-blocked :
    (a : Result Exc GeoblockReply) (w : GeoblockWorker)
    → any (λ u. u.blocked) (run_once a w).1.updates ≡ (any (λ u. u.blocked) w.updates || is_block a)
unfolding run_once
run_once-blocked (err e) w =
    ground (arith, any-append (λ u. u.blocked) w.updates (geoblock_update w (err e) ∷ []))
run_once-blocked (ok r) w =
    ground (arith, any-append (λ u. u.blocked) w.updates (geoblock_update w (ok r) ∷ []))

-- After any checks, the worker's queue tells of a block exactly when it did before or some check
-- found one, and the worker is healthy exactly when its last check found the service available
-- and trading not blocked.
pub run_checks-blocked :
    (answers : List (Result Exc GeoblockReply)) (w : GeoblockWorker)
    → (any (λ u. u.blocked) (run_checks answers w).updates
        ≡ (any (λ u. u.blocked) w.updates || any is_block answers))
      × ((run_checks answers w).healthy ≡ last_from w.healthy answers)
unfolding run_checks run_once
run_checks-blocked [] w = (ground arith, refl)
run_checks-blocked (a ∷ answers) w =
    let rest = run_checks-blocked answers (run_once a w).1 in
    (ground (arith, rest.0, run_once-blocked a w), rest.1)
