-- ===== src/Service/Cancel/Accounts.antt =====
-- service.py: `_cancel_rows` with a fleet, which sends each order's cancel to its own account.
use polymarket_event_quant.Base.{
  String, Option, List, [], ◌∷◌, ◌++◌, filter, str_eq, Result, ok, err, if◌then◌else◌,
}
use polymarket_event_quant.Exchange.{Exc}
use polymarket_event_quant.Exchange.Client.{CancelReply}
use polymarket_event_quant.Database.Queries.{Joined}
use polymarket_event_quant.Service.Cancel.{classify_cancel_result}

-- the ids of one account
pub record Group : Type 0 where
  pub account : String
  pub order_ids : List String

-- `row["account"] or self.fleet.primary.name`
abbrev pub account_of : String → Joined → String
account_of primary j = if str_eq j.row.account "" then primary else j.row.account

-- `grouped.setdefault(account, []).append(order_id)`
unfoldable pub add_to_group : String → String → List Group → List Group
add_to_group account i [] = record { account = account; order_ids = i ∷ [] } ∷ []
add_to_group account i (g ∷ gs) =
    if str_eq g.account account
    then record g { order_ids = g.order_ids ++ i ∷ [] } ∷ gs
    else g ∷ add_to_group account i gs

unfoldable pub group_rows : String → List Group → List Joined → List Group
group_rows primary gs [] = gs
group_rows primary gs (j ∷ js) =
    group_rows primary (add_to_group (account_of primary j) j.row.order_id gs) js

-- the ids done and the ids that had ended, of all the accounts; the first that raises ends the loop.
-- The cancel of an account is a parameter, which also raises for a name that no member bears.
abbrev pub with_reply :
    Option CancelReply
    → Result Exc (List String × List String)
    → Result Exc (List String × List String)
with_reply reply (err e) = err e
with_reply reply (ok (canceled, terminal)) =
    let (c, t) = classify_cancel_result reply in ok (c ++ canceled, t ++ terminal)

abbrev pub then_groups :
    Result Exc (Option CancelReply)
    → Result Exc (List String × List String)
    → Result Exc (List String × List String)
then_groups (err e) rest = err e
then_groups (ok reply) rest = with_reply reply rest

unfoldable pub cancel_groups :
    (String → List String → Result Exc (Option CancelReply))
    → List Group
    → Result Exc (List String × List String)
cancel_groups cancel [] = ok ([], [])
cancel_groups cancel (g ∷ gs) = then_groups (cancel g.account g.order_ids) (cancel_groups cancel gs)

abbrev pub cancel_fleet_rows :
    (String → List String → Result Exc (Option CancelReply))
    → String
    → List Joined
    → Result Exc (List String × List String)
cancel_fleet_rows cancel primary rows = cancel_groups cancel (group_rows primary [] rows)

-- the ids that are sent to an account
abbrev pub ids_for : String → List Group → List String
ids_for account [] = []
ids_for account (g ∷ gs) =
    if str_eq g.account account then g.order_ids ++ ids_for account gs else ids_for account gs

abbrev pub group_key : Group → String
group_key g = g.account

abbrev pub rows_of_account : String → String → List Joined → List Joined
rows_of_account primary a rows = filter (λ j. str_eq (account_of primary j) a) rows
