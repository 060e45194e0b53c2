-- ===== src/Operations/Dispatch.antt =====
-- `dispatch_notification` of apps/operations/notifications.py, over the columns of
-- `NotificationOutbox` that it reads and writes and `NotificationDeliveryAttempt`. It is two
-- transactions with the call of the sender between; the sender is a parameter that answers with the
-- text of its exception, if it raises one.
use visio_backend.Prelude.{
  ℕ, ◌+◌, Bool, true, false, not, ◌&&◌, Option, none, some, List, [], ◌==◌, ltb, Text, take, first,
  create, save, Action, pure, gets, or_raise, modify, raise_if, atomic, ◌>>=◌, ◌>>◌, does_not_exist,
  integrity_error, notification_conflict,
}
use visio_backend.Database.Operations.{Notification}
use visio_backend.Checkout.Sessions.{is_there}

pub data NotificationStatus : Type 0 where
  pending sending sent failed : NotificationStatus

pub record OutboxEntry : Type 0 where
  pub id : ℕ
  pub content : Notification
  pub status : NotificationStatus
  pub attempt_count : ℕ
  pub available_at : ℕ
  pub sent_at : Option ℕ
  pub last_error : Text
  pub updated_at : ℕ

-- the error of a failed attempt; a successful one has none
pub record DeliveryAttempt : Type 0 where
  pub notification_id : ℕ
  pub attempt_no : ℕ
  pub is_success : Bool
  pub error : Text
  pub created_at : ℕ

pub record Mail : Type 0 where
  pub entries : List OutboxEntry
  pub attempts : List DeliveryAttempt

abbrev pub is_sent : NotificationStatus → Bool
is_sent sent = true
is_sent _ = false

abbrev pub is_sending : NotificationStatus → Bool
is_sending sending = true
is_sending _ = false

abbrev pub find_entry : ℕ → Mail → Option OutboxEntry
find_entry i mail = first (λ n. n.id == i) mail.entries

-- `notification.save(...)`
abbrev pub save_entry : OutboxEntry → Mail → Mail
save_entry row mail = record mail { entries = save (λ n. n.id) row mail.entries }

abbrev pub claimed : OutboxEntry → ℕ → OutboxEntry
claimed n now = record n {
  status = sending;
  attempt_count = n.attempt_count + 1;
  last_error = [];
  updated_at = now;
}

-- the first transaction, by whether the notification was sent already: the row that is to be sent
unfoldable pub claim_entry : Bool → OutboxEntry → ℕ → Action Mail (Option OutboxEntry)
claim_entry true notification now = pure none
claim_entry false notification now = do
  raise_if (is_sending notification.status) notification_conflict
  raise_if (ltb now notification.available_at) notification_conflict
  modify (save_entry (claimed notification now))
  pure (some (claimed notification now))

-- The value is the row as it is found, and the row to send unless it was sent already.
unfoldable pub claim : ℕ → ℕ → Action Mail (OutboxEntry × Option OutboxEntry)
claim notification_id now = atomic do
  notification ← or_raise (← gets (find_entry notification_id)) does_not_exist
  to_send ← claim_entry (is_sent notification.status) notification now
  pure (notification, to_send)

-- `NotificationDeliveryAttempt.objects.create(...)`, with the constraints of the table
unfoldable pub create_attempt : DeliveryAttempt → Action Mail (Unit {0})
create_attempt row = do
  raise_if
      (is_there
        (← gets (λ mail.
          first (λ a. a.notification_id == row.notification_id && a.attempt_no == row.attempt_no)
            mail.attempts)))
      integrity_error
  raise_if (not (ltb 0 row.attempt_no)) integrity_error
  modify (λ mail. record mail { attempts = create row mail.attempts })

abbrev pub failed_entry : OutboxEntry → Text → ℕ → OutboxEntry
failed_entry n error failed_at = record n {
  status = failed;
  last_error = take 500 error;
  updated_at = failed_at;
}

abbrev pub sent_entry : OutboxEntry → ℕ → OutboxEntry
sent_entry n at = record n { status = sent; sent_at = some at; last_error = []; updated_at = at }

abbrev pub outcome_entry : Option Text → OutboxEntry → ℕ → OutboxEntry
outcome_entry none n at = sent_entry n at
outcome_entry (some error) n at = failed_entry n error at

abbrev pub outcome_attempt : Option Text → ℕ → ℕ → ℕ → DeliveryAttempt
outcome_attempt none i attempt_no at = record {
  notification_id = i;
  attempt_no = attempt_no;
  is_success = true;
  error = [];
  created_at = at;
}
outcome_attempt (some error) i attempt_no at = record {
  notification_id = i;
  attempt_no = attempt_no;
  is_success = false;
  error = take 500 error;
  created_at = at;
}

-- the second transaction, by what the sender answered
unfoldable pub settle_delivery : Option Text → ℕ → ℕ → ℕ → Action Mail OutboxEntry
settle_delivery answer notification_id attempt_no at = atomic do
  notification ← or_raise (← gets (find_entry notification_id)) does_not_exist
  modify (save_entry (outcome_entry answer notification at))
  create_attempt (outcome_attempt answer notification.id attempt_no at)
  pure (outcome_entry answer notification at)

unfoldable pub send_claimed :
    (OutboxEntry → Option Text) → OutboxEntry → Option OutboxEntry → ℕ → Action Mail OutboxEntry
send_claimed sender found none at = pure found
send_claimed sender found (some notification) at =
    settle_delivery (sender notification) notification.id notification.attempt_count at

-- `at` is the clock after the sender has answered.
unfoldable pub dispatch_notification :
    (OutboxEntry → Option Text) → ℕ → ℕ → ℕ → Action Mail OutboxEntry
dispatch_notification sender notification_id now at = do
  found ← claim notification_id now
  send_claimed sender found.0 found.1 at
