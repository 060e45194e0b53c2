-- ===== src/Database/Operations.antt =====
-- `NotificationOutbox` of apps/operations/models.py, as the order and payment services fill it. The
-- dedupe key, the event type, the subject and the body are texts made of the parts listed here.
use native.Mathlib.Decide.{ℕ_discrete}
use visio_backend.Prelude.{ℕ, Text}
use visio_backend.Database.Orders.{OrderStatus, OrderStatus-discrete}

-- `order:{id}:status:{status}` and `payment:{id}:verified`
pub data DedupeKey : Type 0 where
  order_status : ℕ → OrderStatus → DedupeKey
  payment_verified : ℕ → DedupeKey

pub DedupeKey-discrete : Discrete DedupeKey
DedupeKey-discrete = hlevel (OrderStatus-discrete, ℕ_discrete)

pub record Notification : Type 0 where
  pub dedupe_key : DedupeKey
  pub recipient : Text
  pub order_public_id : ℕ
