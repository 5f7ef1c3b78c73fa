-- ===== src/Exchange/Statuses.antt =====
-- What `normalize_order` makes of the venue's two spellings of a state.
use polymarket_event_quant.Base.{◌≡◌, refl, false, ◌++◌, ◌∙◌, ap, if◌then◌else◌, sym}
use polymarket_event_quant.Base.Text.{
  Text, lower, starts_with, remove_prefix, starts_with-append, remove_prefix-append, lower_idem,
  to_lower,
}
use polymarket_event_quant.Exchange.{normalize_status, order_status_prefix, resolved_status}
use polymarket_event_quant.Models.{Status}

-- `normalize_status` on a lower-case text, for any prefix
abbrev without : Text → Text → Status
without p u = if starts_with p u then resolved_status (remove_prefix p u) else resolved_status u

without-append : (p t : Text) → starts_with p t ≡ false → without p (p ++ t) ≡ without p t
without-append p t h = rw (starts_with-append p t) (rw (remove_prefix-append p t) (rw h refl))

lower-prefix : (t : Text) → lower (order_status_prefix ++ t) ≡ order_status_prefix ++ lower t
unfolding to_lower
lower-prefix t = refl

status-without : (t : Text) → normalize_status t ≡ without order_status_prefix (lower t)
unfolding normalize_status
status-without t = refl

-- A state means the same in either case, and with or without the prefix `ORDER_STATUS_`, where it
-- does not start with that prefix itself.
pub normalize_status-prefix :
    (t : Text)
    → starts_with order_status_prefix (lower t) ≡ false
    → (normalize_status (order_status_prefix ++ t) ≡ normalize_status t)
      × (normalize_status (lower t) ≡ normalize_status t)
normalize_status-prefix t h = (
  status-without (order_status_prefix ++ t)
      ∙ ap (without order_status_prefix) (lower-prefix t)
      ∙ without-append order_status_prefix (lower t) h
      ∙ sym (status-without t),
  status-without (lower t)
      ∙ ap (without order_status_prefix) (lower_idem t)
      ∙ sym (status-without t),
)
