-- ===== src/Operations/Answers.antt =====
-- What `dispatch_notification` hands to the sender, and how it stores the sender's answer.
use mathlib.Core.Option.{some-injective}
use visio_backend.Prelude.{[], take, ℕ, ◌+◌, ◌≡◌, refl, ap, true, false, Option, none, some, Text}
use visio_backend.Operations.Dispatch.{
  NotificationStatus, OutboxEntry, DeliveryAttempt, claimed, outcome_entry, outcome_attempt,
}

-- The row that the sender is called with: the entry, marked as being sent, with one attempt more.
pub record IsClaimed (old : OutboxEntry) (now : ℕ) (asked : OutboxEntry) : Type 0 where
  pub id : asked.id ≡ old.id
  pub content : asked.content ≡ old.content
  pub marked : asked.status ≡ NotificationStatus.sending
  pub counted : asked.attempt_count ≡ old.attempt_count + 1
  pub cleared : asked.last_error ≡ []
  pub dated : asked.updated_at ≡ now

-- The row that is stored: sent now and without an error, or failed with the first 500 characters of
-- the error; the attempt is counted and the rest is kept.
pub record IsAnswered (answer : Option Text) (i at : ℕ) (old n : OutboxEntry) : Type 0 where
  pub id : n.id ≡ i
  pub content : n.content ≡ old.content
  pub counted : n.attempt_count ≡ old.attempt_count + 1
  pub available : n.available_at ≡ old.available_at
  pub dated : n.updated_at ≡ at
  pub on_success :
      answer ≡ none
      → (n.status ≡ NotificationStatus.sent) × (n.sent_at ≡ some at) × (n.last_error ≡ [])
  pub on_failure :
      (error : Text)
      → answer ≡ some error
      → (n.status ≡ NotificationStatus.failed)
        × (n.sent_at ≡ old.sent_at)
        × (n.last_error ≡ take 500 error)

-- The attempt that is stored, with the same outcome.
pub record IsRecorded (answer : Option Text) (i at : ℕ) (old : OutboxEntry) (a : DeliveryAttempt)
    : Type 0 where
  pub of_entry : a.notification_id ≡ i
  pub numbered : a.attempt_no ≡ old.attempt_count + 1
  pub dated : a.created_at ≡ at
  pub on_success : answer ≡ none → (a.is_success ≡ true) × (a.error ≡ [])
  pub on_failure :
      (error : Text) → answer ≡ some error → (a.is_success ≡ false) × (a.error ≡ take 500 error)

pub claimed-IsClaimed : (old : OutboxEntry) (now : ℕ) → IsClaimed old now (claimed old now)
claimed-IsClaimed old now = record {
  id = refl;
  content = refl;
  marked = refl;
  counted = refl;
  cleared = refl;
  dated = refl;
}

pub outcome_entry-IsAnswered :
    (answer : Option Text) (old : OutboxEntry) (i now at : ℕ)
    → old.id ≡ i
    → IsAnswered answer i at old (outcome_entry answer (claimed old now) at)
outcome_entry-IsAnswered none old i now at key = record {
  id = key;
  content = refl;
  counted = refl;
  available = refl;
  dated = refl;
  on_success = λ h. (refl, refl, refl);
  on_failure = λ error h. absurd (cc);
}
outcome_entry-IsAnswered (some x) old i now at key = record {
  id = key;
  content = refl;
  counted = refl;
  available = refl;
  dated = refl;
  on_success = λ h. absurd (cc);
  on_failure = λ error h. (refl, refl, ap (λ t. take 500 t) (some-injective _ _ h));
}

pub outcome_attempt-IsRecorded :
    (answer : Option Text) (old : OutboxEntry) (i at : ℕ)
    → IsRecorded answer i at old (outcome_attempt answer i (old.attempt_count + 1) at)
outcome_attempt-IsRecorded none old i at = record {
  of_entry = refl;
  numbered = refl;
  dated = refl;
  on_success = λ h. (refl, refl);
  on_failure = λ error h. absurd (cc);
}
outcome_attempt-IsRecorded (some x) old i at = record {
  of_entry = refl;
  numbered = refl;
  dated = refl;
  on_success = λ h. absurd (cc);
  on_failure = λ error h. (refl, ap (λ t. take 500 t) (some-injective _ _ h));
}
