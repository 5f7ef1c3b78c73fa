-- ===== src/Service/Stream/Tests.antt =====
-- Runs of the drain of the user stream.
use polymarket_event_quant.Base.{refl, none, [], ◌∷◌, true}
use polymarket_event_quant.Models.{Status}
use polymarket_event_quant.UserStream.{EventType, StreamUpdate}
use polymarket_event_quant.Service.Stream.{Drained, no_stream_flags, apply_stream}
use polymarket_event_quant.Service.Stream.Latest.{latest_update_wins, Says}
use polymarket_event_quant.Fixtures.{settings, bot, open_entry}
use polymarket_event_quant.Database.Queries.{order}

abbrev push : Status → Drained
push status = record {
  gating = true;
  update = StreamUpdate.order_update (record {
    order_id = open_entry.order_id;
    status = status;
    matched_size = 0;
    raw = "{}";
    event_type = EventType.update;
    exchange_event_ts_ms = none;
    exchange_created_ts_ms = none;
    received_ts_ms = 9;
  });
}

-- the order is cancelled, then said to be live again
latest_update_wins_example :
    Says open_entry.order_id
      (apply_stream settings 1_100
        (push Status.cancelled ∷ push Status.live ∷ [])
        no_stream_flags
        bot)
      (Status.live, 0)
unfolding order
latest_update_wins_example =
    latest_update_wins settings 1_100 open_entry.order_id
      (push Status.cancelled ∷ push Status.live ∷ []) no_stream_flags bot (Status.live, 0) refl
