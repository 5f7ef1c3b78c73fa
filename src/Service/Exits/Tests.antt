-- ===== src/Service/Exits/Tests.antt =====
-- Tests of the exits: the theorems at one filled entry.
use polymarket_event_quant.Base.{◌≤◌, ◌≡◌, refl, ok, max, sum_by, All, arith, true}
use polymarket_event_quant.Base.Decimal.{mul}
use polymarket_event_quant.Models.{validate, validate_target, validate_targets, ascending}
use polymarket_event_quant.Database.Queries.{active_exit_reserved_size, exit_handled_size}
use polymarket_event_quant.Exchange.Orders.{conditional_balance}
use polymarket_event_quant.Service.Exits.{place_exits_of}
use polymarket_event_quant.Service.Exits.Oversell.{no_oversell}
use polymarket_event_quant.Service.Exits.Ladder.{
  Shares, handled_in, desired, ladder_share, ladder_within_matched,
}
use polymarket_event_quant.Fixtures.{client, settings, joined, bot, cents}
use polymarket_event_quant.Base.Decimal.Context.{last_digit}

balance : conditional_balance client 0 "u1" ≡ ok (cents 6000)
unfolding conditional_balance
balance = refl

no_oversell_example :
    active_exit_reserved_size "btc-updown-5m-300" joined.row.outcome
      (place_exits_of client settings 400 joined bot).1.db
    ≤ max (cents 6000) (active_exit_reserved_size "btc-updown-5m-300" joined.row.outcome bot.db)
no_oversell_example = no_oversell client settings 400 joined bot balance

plan-ascending : ascending settings.plan.exit_targets ≡ true
unfolding ascending
plan-ascending = refl

ladder_share_example :
    Shares bot.db
      (place_exits_of client settings 400 joined bot).1.db
      joined
      settings.plan.exit_targets
ladder_share_example = ladder_share client settings 400 joined bot plan-ascending

plan-valid : validate settings.plan ≡ ok tt
unfolding validate validate_targets validate_target ascending last_digit
plan-valid = refl

nothing_handled :
    All (λ t. handled_in bot.db joined t ≤ desired joined t) settings.plan.exit_targets
unfolding exit_handled_size mul
nothing_handled = omega arith

ladder_within_matched_example :
    sum_by
      (handled_in (place_exits_of client settings 400 joined bot).1.db joined)
      settings.plan.exit_targets
    ≤ cents 10000
ladder_within_matched_example =
    ladder_within_matched client settings 400 joined bot plan-valid nothing_handled
