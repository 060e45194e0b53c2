-- ===== src/Operations/Tests.antt =====
-- The theorems on the audit chain at a log of one entry, with an encoding that prints a payload field
-- by field, and those on the outbox at one entry that is due.
use visio_backend.Prelude.{
  ◌-◌, ◌∙◌, ◌==◌, if◌then◌else◌, Bool, false, sym, ℕ, ◌+◌, ◌≡◌, refl, ap, true, false, ◌||◌, Option,
  none, some, [], ◌∷◌, arith, Text, text_eq, strip, is_empty, value_error, Ends, ◌⊎◌, ◌>>=◌,
}
use visio_backend.Database.Orders.{OrderStatus}
use visio_backend.Orders.Tests.{customer, shop}
use visio_backend.Operations.Audit.{
  Payload, Encoding, AuditEvent, AuditLog, draft, sealed, append_audit_event, in_order,
  verify_audit_chain, forget_actor,
}
use visio_backend.Operations.AuditTrail.{IsCollisionFree, Appended, append_audit_event-verifies}
use visio_backend.Operations.AuditEvidence.{verify_audit_chain-binds, forget_actor-breaks}
use visio_backend.Database.Operations.{DedupeKey}
use visio_backend.Operations.Dispatch.{
  NotificationStatus, OutboxEntry, Mail, dispatch_notification, claim, claim_entry,
}
use visio_backend.Operations.Workers.{IsSound}
use visio_backend.Operations.Delivery.{World, Steps, stop, step, claims, Steps-IsSound}
use visio_backend.Operations.Dispatching.{
  SentBefore, Tried, DispatchRefused, dispatch_notification-Tried,
}
use visio_backend.Operations.Staff.{
  Staff, Change, order_moved, stock_set, price_set, Terms, Office, advance_order_as_staff,
}
use visio_backend.Operations.StaffTrail.{Advanced, advance_order_as_staff-Advanced}

-- a text before others
abbrev printed : Text → Text → Text
printed [] rest = 0 ∷ rest
printed (c ∷ s) rest = (c + 1) ∷ printed s rest

abbrev printed_key : Option ℕ → ℕ
printed_key none = 0
printed_key (some i) = i + 1

abbrev head : Text → ℕ
head [] = 0
head (c ∷ s) = c

abbrev tail : Text → Text
tail [] = []
tail (c ∷ s) = s

printed-injective : (s t a b : Text) → printed s a ≡ printed t b → (s ≡ t) × (a ≡ b)
printed-injective [] [] a b h = (refl, ap tail h)
printed-injective [] (d ∷ t) a b h = absurd (omega (arith, ap head h))
printed-injective (c ∷ s) [] a b h = absurd (omega (arith, ap head h))
printed-injective (c ∷ s) (d ∷ t) a b h =
    let rest = printed-injective s t a b (ap tail h) in
    let same : c ≡ d = omega (arith, ap head h) in (rw (same, rest.0) refl, rest.1)

printed_key-injective : (a b : Option ℕ) → printed_key a ≡ printed_key b → a ≡ b
printed_key-injective none none h = refl
printed_key-injective none (some j) h = absurd (omega (arith, h))
printed_key-injective (some i) none h = absurd (omega (arith, h))
printed_key-injective (some i) (some j) h = (let same : i ≡ j = omega (arith, h) in rw same refl)

-- An encoding that prints a payload field by field, the metadata by a key of their own.
module _ {M : Type 0} (key : M → Text) where
  abbrev plain_print : Payload M → Text
  plain_print p =
      p.sequence
      ∷ printed_key p.actor_id
      ∷ printed p.actor_email (
          printed p.action (
            printed p.object_type (
              printed p.object_id (
                printed p.summary
                  (printed p.previous_hash (printed p.created_at_iso (key p.metadata)))))))

  abbrev printing : Encoding M
  printing = record { dumps = plain_print; sha256 = λ t. t; isoformat = λ n. n ∷ [] }

  plain_print-injective :
      ((a b : M) → key a ≡ key b → a ≡ b)
      → (p q : Payload M) → plain_print p ≡ plain_print q
      → p ≡ q
  plain_print-injective distinct p q h =
      let sequence : p.sequence ≡ q.sequence = ap head h in
      let actor : p.actor_id ≡ q.actor_id =
        printed_key-injective p.actor_id q.actor_id (ap (λ t. head (tail t)) h) in
      let email = printed-injective p.actor_email q.actor_email _ _ (ap (λ t. tail (tail t)) h) in
      let action = printed-injective p.action q.action _ _ email.1 in
      let type = printed-injective p.object_type q.object_type _ _ action.1 in
      let object = printed-injective p.object_id q.object_id _ _ type.1 in
      let summary = printed-injective p.summary q.summary _ _ object.1 in
      let previous = printed-injective p.previous_hash q.previous_hash _ _ summary.1 in
      let created = printed-injective p.created_at_iso q.created_at_iso _ _ previous.1 in
      let metadata = distinct p.metadata q.metadata created.1 in
      cc (
        sequence, actor, metadata, email.0, action.0, type.0, object.0, summary.0, previous.0,
        created.0,
      )

  printing-IsCollisionFree : ((a b : M) → key a ≡ key b → a ≡ b) → IsCollisionFree printing
  printing-IsCollisionFree distinct = record {
    distinct = plain_print-injective distinct;
    filled = λ p. refl;
  }

abbrev plainly : Encoding ℕ
plainly = printing (λ n. n ∷ [])

plainly-IsCollisionFree : IsCollisionFree plainly
plainly-IsCollisionFree = printing-IsCollisionFree (λ n. n ∷ []) λ a b h. ap head h

abbrev first_event : AuditEvent ℕ
first_event = sealed plainly (
    draft (some customer) (b'a' ∷ []) (b't' ∷ []) (b'1' ∷ []) (b's' ∷ []) 5
      (record { last_sequence = 0; last_hash = [] }) 100)

abbrev one_entry : AuditLog ℕ
one_entry = record {
  chain = some (record { last_sequence = 1; last_hash = first_event.event_hash });
  events = first_event ∷ [];
}

one_entry-verifies : (verify_audit_chain plainly one_entry).0 ≡ true
unfolding text_eq
one_entry-verifies = refl

append_audit_event-verifies_example :
    Ends
      (λ event t.
        (event.actor_id ≡ some 7)
        × (event.action ≡ strip (b'b' ∷ []))
        × (event.metadata ≡ 6)
        × Appended plainly one_entry event t)
      (λ x t.
        (t ≡ one_entry)
        × (x ≡ value_error)
        × ((is_empty (strip (b'b' ∷ []))
              || is_empty (strip (b't' ∷ []))
              || is_empty (strip (b'2' ∷ []))
              || is_empty (strip (b's' ∷ [])))
            ≡ true))
      (append_audit_event plainly
        (some customer)
        (b'b' ∷ [])
        (b't' ∷ [])
        (b'2' ∷ [])
        (b's' ∷ [])
        6
        200
        one_entry)
append_audit_event-verifies_example =
    append_audit_event-verifies plainly plainly-IsCollisionFree (some customer) (b'b' ∷ [])
      (b't' ∷ []) (b'2' ∷ []) (b's' ∷ []) 6 200 one_entry one_entry-verifies

verify_audit_chain-binds_example : in_order one_entry ≡ in_order one_entry
verify_audit_chain-binds_example =
    verify_audit_chain-binds plainly plainly-IsCollisionFree (λ m n h. ap head h) one_entry
      one_entry one_entry-verifies one_entry-verifies refl refl

forget_actor-breaks_example : (verify_audit_chain plainly (forget_actor 7 one_entry)).0 ≡ false
forget_actor-breaks_example =
    forget_actor-breaks plainly plainly-IsCollisionFree 7 one_entry first_event one_entry-verifies
      refl

abbrev waiting : OutboxEntry
waiting = record {
  id = 8;
  content = record {
    dedupe_key = DedupeKey.payment_verified 1;
    recipient = b'a' ∷ [];
    order_public_id = 101;
  };
  status = NotificationStatus.failed;
  attempt_count = 0;
  available_at = 50;
  sent_at = none;
  last_error = [];
  updated_at = 50;
}

abbrev outbox : Mail
outbox = record { entries = waiting ∷ []; attempts = [] }

outbox-IsSound : IsSound outbox []
outbox-IsSound = record {
  single = λ i. omega arith;
  once = λ i. ground arith;
  numbered = tt;
  current = tt;
}

dispatch_notification-Tried_example :
    Ends
      (λ n t. SentBefore 8 outbox n t ⊎ Tried (λ n. none) 8 100 101 outbox n t)
      (DispatchRefused 8 100 outbox)
      (dispatch_notification (λ n. none) 8 100 101 outbox)
dispatch_notification-Tried_example =
    dispatch_notification-Tried (λ n. none) 8 100 101 outbox [] outbox-IsSound

abbrev taken : OutboxEntry
taken = record waiting { status = NotificationStatus.sending; attempt_count = 1; updated_at = 100 }

abbrev idle : World
idle = record { mail = outbox; workers = [] }

abbrev busy : World
busy = record { mail = record { entries = taken ∷ []; attempts = [] }; workers = (8, 1) ∷ [] }

idle-busy : Steps idle busy
unfolding claim claim_entry ◌>>=◌
idle-busy = step (claims 8 100 waiting refl) stop

Steps-IsSound_example : IsSound (record { entries = taken ∷ []; attempts = [] }) ((8, 1) ∷ [])
Steps-IsSound_example = Steps-IsSound idle busy idle-busy outbox-IsSound

abbrev status_key : OrderStatus → ℕ
status_key OrderStatus.pending_payment = 0
status_key OrderStatus.confirmed = 1
status_key OrderStatus.processing = 2
status_key OrderStatus.shipped = 3
status_key OrderStatus.delivered = 4
status_key OrderStatus.cancelled = 5
status_key OrderStatus.expired = 6

abbrev status_at : ℕ → OrderStatus
status_at n =
    if n == 0
    then OrderStatus.pending_payment
    else (if n == 1
        then OrderStatus.confirmed
        else (if n == 2
            then OrderStatus.processing
            else (if n == 3
                then OrderStatus.shipped
                else (if n == 4
                    then OrderStatus.delivered
                    else (if n == 5 then OrderStatus.cancelled else OrderStatus.expired)))))

status_at-status_key : (a : OrderStatus) → status_at (status_key a) ≡ a
status_at-status_key OrderStatus.pending_payment = refl
status_at-status_key OrderStatus.confirmed = refl
status_at-status_key OrderStatus.processing = refl
status_at-status_key OrderStatus.shipped = refl
status_at-status_key OrderStatus.delivered = refl
status_at-status_key OrderStatus.cancelled = refl
status_at-status_key OrderStatus.expired = refl

abbrev bit : Bool → ℕ
bit false = 0
bit true = 1

bit-one : (b : Bool) → (bit b == 1) ≡ b
bit-one false = refl
bit-one true = refl

abbrev terms_key : Terms → Text
terms_key t = t.amount_toman ∷ printed_key t.compare_at_toman ∷ bit t.is_active ∷ []

abbrev option_at : ℕ → Option ℕ
option_at n = if n == 0 then none else some (n - 1)

abbrev terms_at : Text → Terms
terms_at t = record {
  amount_toman = head t;
  compare_at_toman = option_at (head (tail t));
  is_active = head (tail (tail t)) == 1;
}

option_at-printed_key : (o : Option ℕ) → option_at (printed_key o) ≡ o
option_at-printed_key none = refl
option_at-printed_key (some n) =
    let later : (n + 1 == 0) ≡ false = ground arith in
    let back : n + 1 - 1 ≡ n = omega arith in rw (later, back) refl

abbrev change_key : Change → Text
change_key (order_moved i a b) = 0 ∷ i ∷ status_key a ∷ status_key b ∷ []
change_key (stock_set i (n, x) (k, y)) = 1 ∷ i ∷ n ∷ bit x ∷ k ∷ bit y ∷ []
change_key (price_set i none t) = 2 ∷ i ∷ terms_key t
change_key (price_set i (some o) t) =
    3 ∷ i ∷ o.amount_toman ∷ printed_key o.compare_at_toman ∷ bit o.is_active ∷ terms_key t

abbrev change_at : Text → Change
change_at t =
    let u = tail t in
    let v = tail u in
    let w = tail v in
    if head t == 0
    then order_moved (head u) (status_at (head v)) (status_at (head w))
    else (if head t == 1
        then stock_set (head u) (head v, head w == 1) (head (tail w), head (tail (tail w)) == 1)
        else (if head t == 2
            then price_set (head u) none (terms_at v)
            else price_set (head u) (some (terms_at v)) (terms_at (tail (tail w)))))

change_at-change_key : (c : Change) → change_at (change_key c) ≡ c
change_at-change_key (order_moved i a b) = rw (status_at-status_key a, status_at-status_key b) refl
change_at-change_key (stock_set i (n, x) (k, y)) = rw (bit-one x, bit-one y) refl
change_at-change_key (price_set i none t) =
    rw (option_at-printed_key t.compare_at_toman, bit-one t.is_active) refl
change_at-change_key (price_set i (some o) t) =
    rw
      (
        option_at-printed_key o.compare_at_toman,
        bit-one o.is_active,
        option_at-printed_key t.compare_at_toman,
        bit-one t.is_active,
      )
      refl

abbrev changes : Encoding Change
changes = printing change_key

changes-IsCollisionFree : IsCollisionFree changes
changes-IsCollisionFree =
    printing-IsCollisionFree change_key
      λ a b h. sym (change_at-change_key a) ∙ ap change_at h ∙ change_at-change_key b

abbrev clerk : Staff
clerk = record { user = customer; is_active = true; is_staff = true; has_perm = λ t. true }

abbrev office : Office
office = record { db = shop OrderStatus.confirmed; log = record { chain = none; events = [] } }

advance_order_as_staff-Advanced_example :
    Ends
      (Advanced changes clerk 1 OrderStatus.processing 200 office)
      (λ _ t. t ≡ office)
      (advance_order_as_staff changes (λ n. b'1' ∷ []) clerk 1 OrderStatus.processing 200 office)
advance_order_as_staff-Advanced_example =
    advance_order_as_staff-Advanced changes changes-IsCollisionFree (λ n. b'1' ∷ []) clerk 200 1
      OrderStatus.processing office refl
