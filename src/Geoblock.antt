-- ===== src/Geoblock.antt =====
-- geoblock.py: the verdict on a reply of the geoblock service, and the worker that asks for it. What
-- the service answers is a parameter; a worker's thread is a sequence of checks.
pub mod Blocked
use polymarket_event_quant.Base.{
  String, Bool, true, false, not, ◌&&◌, ◌||◌, Option, none, some, List, [], ◌∷◌, ◌++◌, any, Result,
  ok, err, or_else, if◌then◌else◌,
}
use polymarket_event_quant.Base.Text.{Text, codes, upper, eq_text}
use polymarket_event_quant.Exchange.{Exc}
use polymarket_event_quant.UserStream.{same}

-- a reply: `blocked` is `True` and nothing else, and the country where it is given
pub record GeoblockReply : Type 0 where
  pub blocked : Bool
  pub country : Option Text

abbrev pub api_unrestricted_frontend_only_countries : List Text
api_unrestricted_frontend_only_countries = codes "IE" ∷ codes "JP" ∷ codes "MT" ∷ codes "NL" ∷ []

unfoldable pub is_api_trading_blocked : GeoblockReply → Bool
is_api_trading_blocked r =
    if not r.blocked
    then false
    else not (
        any (λ c. eq_text c (upper (or_else r.country [])))
          api_unrestricted_frontend_only_countries)

pub record GeoblockUpdate : Type 0 where
  pub available : Bool
  pub blocked : Bool
  pub changed : Bool
  pub recovered : Bool
  pub result : Option GeoblockReply
  pub error : Option Exc

-- the two flags and the queue
pub record GeoblockWorker : Type 0 where
  pub healthy : Bool
  pub attempted : Bool
  pub updates : List GeoblockUpdate

abbrev pub new_geoblock_worker : GeoblockWorker
new_geoblock_worker = record { healthy = false; attempted = false; updates = [] }

abbrev pub geoblock_update : GeoblockWorker → Result Exc GeoblockReply → GeoblockUpdate
geoblock_update w (err e) = record {
  available = false;
  blocked = false;
  changed = not w.attempted || w.healthy;
  recovered = false;
  result = none;
  error = some e;
}
geoblock_update w (ok r) =
    let blocked = is_api_trading_blocked r in
    record {
      available = true;
      blocked = blocked;
      changed = not w.attempted || same w.healthy blocked;
      recovered = w.attempted && (not w.healthy && not blocked);
      result = some r;
      error = none;
    }

-- whether a check leaves the worker healthy
abbrev pub check_healthy : Result Exc GeoblockReply → Bool
check_healthy (err e) = false
check_healthy (ok r) = not (is_api_trading_blocked r)

unfoldable pub run_once :
    Result Exc GeoblockReply → GeoblockWorker → GeoblockUpdate × GeoblockWorker
run_once answer w =
    let update = geoblock_update w answer in
    (
      update,
      record {
        healthy = check_healthy answer;
        attempted = true;
        updates = if update.changed || update.blocked then w.updates ++ update ∷ [] else w.updates;
      },
    )

-- the checks of a thread, one after the other
unfoldable pub run_checks : List (Result Exc GeoblockReply) → GeoblockWorker → GeoblockWorker
run_checks [] w = w
run_checks (answer ∷ answers) w = run_checks answers (run_once answer w).1

-- `drain()`: the queue is emptied
abbrev pub drain : GeoblockWorker → List GeoblockUpdate × GeoblockWorker
drain w = (w.updates, record w { updates = [] })
