-- ===== src/Operations/Notifications.antt =====
-- `queue_notification` of apps/operations/notifications.py. The key, the event type, the subject and
-- the body of the two kinds of notification are made of constants and UUIDs, so only the recipient
-- can fail its test; they are equal if and only if the key and the order's public id are.
use mathlib.Core.Bool.{decide}
use visio_backend.Prelude.{
  ℕ, Bool, not, ◌&&◌, ◌||◌, Option, none, some, ◌==◌, Text, text_eq, strip, is_empty, has_code,
  first, create, Action, pure, gets, modify, raise_if, ◌>>=◌, ◌>>◌, value_error,
  notification_conflict,
}
use visio_backend.Database.{Db}
use visio_backend.Database.Operations.{DedupeKey, DedupeKey-discrete, Notification}

-- `_validate_header_value`
unfoldable pub validate_header_value : Text → Action Db Text
validate_header_value value = do
  let cleaned = strip value
  raise_if (is_empty cleaned) value_error
  raise_if (has_code 13 cleaned || has_code 10 cleaned) value_error
  pure cleaned

-- the test of `if not created`
abbrev same_content : Notification → Notification → Bool
same_content a b = text_eq a.recipient b.recipient && a.order_public_id == b.order_public_id

-- `get_or_create`, and what follows it, by whether the key was there
unfoldable pub store_notification : Option Notification → Notification → Action Db Notification
store_notification none row = do
  modify (λ db. record db { outbox = create row db.outbox })
  pure row
store_notification (some found) row = do
  raise_if (not (same_content found row)) notification_conflict
  pure found

unfoldable pub queue_notification : DedupeKey → Text → ℕ → Action Db Notification
queue_notification key recipient order_public_id = do
  email ← validate_header_value recipient
  found ← gets (λ db. first (λ n. decide (DedupeKey-discrete n.dedupe_key key)) db.outbox)
  store_notification found
      (record { dedupe_key = key; recipient = email; order_public_id = order_public_id })
