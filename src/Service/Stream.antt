-- ===== src/Service/Stream.antt =====
-- service.py: `_drain_user_stream_updates`.
pub mod Latest
mod Tests
use polymarket_event_quant.Base.{
  ℕ, String, Bool, true, false, not, ◌&&◌, ◌||◌, Option, none, some, List, [], ◌∷◌, ltb, is_some,
  if◌then◌else◌, any,
}
use polymarket_event_quant.Models.{Status, buy_only}
use polymarket_event_quant.Database.{update_order, OrderRow, Db}
use polymarket_event_quant.Database.Queries.{order}
use polymarket_event_quant.UserStream.{
  StreamUpdate, UserOrderUpdate, UserTradeUpdate, UserStreamState, TradeStatus, is_placement,
}
use polymarket_event_quant.Service.{Bot, Settings}
use polymarket_event_quant.Service.Monad.{Action, ◌>>=◌, ◌>>◌, pure, gets, modify, log}
use polymarket_event_quant.Exchange.Client.{Client}
use polymarket_event_quant.Models.Statuses.{is_entry}
use polymarket_event_quant.Service.Exits.{place_missing_exits}

-- a drained update, and whether it comes from the primary account's worker
pub record Drained : Type 0 where
  pub gating : Bool
  pub update : StreamUpdate

-- the three flags of the loop
pub record StreamFlags : Type 0 where
  pub recovered : Bool
  pub order_changed : Bool
  pub settlement_changed : Bool

abbrev pub no_stream_flags : StreamFlags
no_stream_flags = record { recovered = false; order_changed = false; settlement_changed = false }

-- the chain's states of a trade that has settled
abbrev pub is_mined : TradeStatus → Bool
is_mined TradeStatus.mined = true
is_mined TradeStatus.confirmed = true
is_mined TradeStatus.other_trade_status = false

abbrev pub is_entry_row : Option OrderRow → Bool
is_entry_row none = false
is_entry_row (some row) = is_entry row.role

abbrev pub any_entry : List String → Db → Bool
any_entry is db = any (λ i. is_entry_row (order i db)) is

module _ (settings : Settings) (now : ℕ) where
  abbrev pub apply_health : Bool → UserStreamState → StreamFlags → Action StreamFlags
  apply_health gating s flags =
      if s.healthy
      then log now settings.run_id "INFO" "user_stream_connected" none
        >> pure (if s.recovered && gating then record flags { recovered = true } else flags)
      else log now settings.run_id (if gating then "ERROR" else "WARNING")
          "user_stream_disconnected" none
        >> pure flags

  abbrev pub apply_trade : UserTradeUpdate → StreamFlags → Action StreamFlags
  apply_trade t flags =
      if not (is_mined t.status)
      then pure flags
      else gets (any_entry t.order_ids) >>= λ entry.
          pure (if entry then record flags { settlement_changed = true } else flags)

  abbrev pub observed : UserOrderUpdate → OrderRow → Action (Unit {0})
  observed u row =
      if is_placement u.event_type
      then log now settings.run_id "INFO" "order_placement_observed" (some row.slug)
      else pure tt

  -- the state and the filled size are written as the venue says them
  abbrev pub apply_order : UserOrderUpdate → StreamFlags → Option OrderRow → Action StreamFlags
  apply_order u flags none = pure flags
  apply_order u flags (some row) =
      modify (update_order now u.order_id u.status u.matched_size u.raw)
      >> observed u row
      >> pure (
          if is_entry row.role && ltb row.matched_size u.matched_size
          then record flags { order_changed = true }
          else flags)

  abbrev pub apply_update : Bool → StreamUpdate → StreamFlags → Action StreamFlags
  apply_update gating (StreamUpdate.state_update s) flags = apply_health gating s flags
  apply_update gating (StreamUpdate.trade_update t) flags = apply_trade t flags
  apply_update gating (StreamUpdate.order_update u) flags =
      gets (order u.order_id) >>= apply_order u flags

  -- the loop over the drained updates
  unfoldable pub apply_stream : List Drained → StreamFlags → Action StreamFlags
  apply_stream [] flags = pure flags
  apply_stream (d ∷ ds) flags = apply_update d.gating d.update flags >>= λ f. apply_stream ds f

  abbrev exits_after : Client → StreamFlags → Action (Unit {0})
  exits_after client flags =
      if (flags.order_changed || flags.settlement_changed)
        && (settings.live && not (buy_only settings.plan))
      then place_missing_exits client settings now
      else pure tt

  -- whether the primary's socket has recovered
  unfoldable pub drain_user_stream_updates : Client → List Drained → Action Bool
  drain_user_stream_updates client ds =
      apply_stream ds no_stream_flags >>= λ flags. exits_after client flags >> pure flags.recovered
