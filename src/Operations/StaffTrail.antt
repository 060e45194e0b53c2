-- ===== src/Operations/StaffTrail.antt =====
-- What the staff's calls (apps/operations/staff_services.py) do to the database and to the audit log.
use mathlib.Core.Bool.{decide}
use mathlib.Core.Option.{some-injective}
use visio_backend.Prelude.{
  ℕ, ◌≡◌, ◌≢◌, ◌⊎◌, inl, inr, refl, sym, ◌∙◌, subst, Bool, true, false, not, ◌||◌, some, Text,
  codes, Error, Action, Result, ok, err, Ends, Ends-mono, Ends-pure, Ends-bind, Ends-branch,
  Ends-atomic, then_gets, then_or_raise, then_raise_if,
}
use visio_backend.Database.{Db}
use visio_backend.Database.Orders.{OrderStatus, OrderStatus-discrete, Order}
use visio_backend.Orders.Lifecycle.{find_order, same_status}
use visio_backend.Orders.Lifecycle.Transitions.{
  KeptOrMoved, same_status→≡, advance_fulfillment-Moved,
}
use visio_backend.Operations.Audit.{Encoding, AuditEvent, AuditLog, verify_audit_chain}
use visio_backend.Operations.AuditTrail.{IsCollisionFree, Appended, append_audit_event-verifies}
use visio_backend.Operations.Staff.{
  Staff, Change, order_moved, Office, with_db, with_log, on_db, on_log, require_staff_permission,
  record_advance, advance_order_as_staff,
}

module _ {A : Type 0} {Q : A → Office → Type 0} {E : Error → Office → Type 0} where
  Ends-with_db :
      (o : Office) (r : Result A × Db)
      → Ends (λ a d. Q a (record o { db = d })) (λ x d. E x (record o { db = d })) r
      → Ends Q E (with_db o r)
  Ends-with_db o (ok a, d) h = record { at = h.at }
  Ends-with_db o (err x, d) h = record { at = h.at }

  pub Ends-on_db :
      (m : Action Db A) (o : Office)
      → Ends (λ a d. Q a (record o { db = d })) (λ x d. E x (record o { db = d })) (m o.db)
      → Ends Q E (on_db m o)
  unfolding on_db
  Ends-on_db m o h = Ends-with_db o (m o.db) h

  Ends-with_log :
      (o : Office) (r : Result A × AuditLog Change)
      → Ends (λ a l. Q a (record o { log = l })) (λ x l. E x (record o { log = l })) r
      → Ends Q E (with_log o r)
  Ends-with_log o (ok a, l) h = record { at = h.at }
  Ends-with_log o (err x, l) h = record { at = h.at }

  pub Ends-on_log :
      (m : Action (AuditLog Change) A) (o : Office)
      → Ends (λ a l. Q a (record o { log = l })) (λ x l. E x (record o { log = l })) (m o.log)
      → Ends Q E (on_log m o)
  unfolding on_log
  Ends-on_log m o h = Ends-with_log o (m o.log) h

-- The log has one entry more, of this actor and with this change, and verifies.
pub record Logged (e : Encoding Change) (actor : Staff) (change : Change) (s t : AuditLog Change)
    : Type 0 where
  pub event : AuditEvent Change
  pub of_actor : event.actor_id ≡ some actor.user.id
  pub of_change : event.metadata ≡ change
  pub appended : Appended e s event t

-- What the log tells of an order whose status was `previous_status`.
abbrev pub AdvanceLogged :
    Encoding Change → Staff → OrderStatus → Order → AuditLog Change → AuditLog Change → Type 0
AdvanceLogged e actor previous_status order s t =
    ((order.status ≡ previous_status) × (t ≡ s))
    ⊎ ((order.status ≢ previous_status)
        × Logged e actor (order_moved order.public_id previous_status order.status) s t)

pub record Advanced (e : Encoding Change) (actor : Staff) (order_id : ℕ)
    (target_status : OrderStatus) (now : ℕ) (s : Office) (order : Order) (t : Office) : Type 0 where
  pub permitted :
      (actor.is_active ≡ true)
      × (actor.is_staff ≡ true)
      × (actor.has_perm (codes "orders.change_order") ≡ true)
  pub old : Order
  pub found : find_order order_id s.db ≡ some old
  pub moved : KeptOrMoved now s.db old order t.db
  pub reached : order.status ≡ target_status
  pub logged : AdvanceLogged e actor old.status order s.log t.log

same_status_refl : (a : OrderStatus) → same_status a a ≡ true
unfolding decide
same_status_refl a = of_decision (OrderStatus-discrete a a)
  where
    of_decision : (d : Dec (a ≡ a)) → decide d ≡ true
    of_decision (yes e) = refl
    of_decision (no n) = absurd (n refl)

differ : (a b : OrderStatus) → same_status a b ≡ false → a ≢ b
differ a b other equal =
    absurd (cc (subst (λ x. same_status x b ≡ false) equal other, same_status_refl b))

all_permitted :
    (a b c : Bool) → not a || not b || not c ≡ false → (a ≡ true) × (b ≡ true) × (c ≡ true)
all_permitted true true true h = (refl, refl, refl)
all_permitted true true false h = absurd (cc)
all_permitted true false c h = absurd (cc)
all_permitted false b c h = absurd (cc)

module _ (e : Encoding Change) (free : IsCollisionFree e) (str : ℕ → Text) (actor : Staff)
    (now : ℕ) where
  -- What the database has come to, before the entry is written.
  record AdvancedDb (order_id : ℕ) (target_status : OrderStatus) (s : Office) (order : Order)
      (o : Office) : Type 0 where
    log : o.log ≡ s.log
    old : Order
    found : find_order order_id s.db ≡ some old
    moved : KeptOrMoved now s.db old order o.db
    reached : order.status ≡ target_status

  record_advance-Logged :
      (previous_status : OrderStatus) (order : Order) (s : Office)
      → (verify_audit_chain e s.log).0 ≡ true
      → Ends
          (λ _ t. (t.db ≡ s.db) × AdvanceLogged e actor previous_status order s.log t.log)
          (λ _ _. Unit {0})
          (record_advance e str actor previous_status order now s)
  unfolding record_advance
  record_advance-Logged previous_status order s h =
      Ends-branch _ _ _ s (λ same. Ends-pure tt s (refl, inl (same_status→≡ _ _ same, refl)))
        λ other.
          Ends-bind
            (λ _ t.
              (t.db ≡ s.db)
              × Logged e actor (order_moved order.public_id previous_status order.status) s.log
                  t.log)
            _ _ s
            (Ends-on_log _ s (
              Ends-mono _ _ _ _ _
                (λ event l (who, what, change, kept). (
                  refl,
                  record { event = event; of_actor = who; of_change = change; appended = kept },
                ))
                (λ _ _ _. tt)
                (append_audit_event-verifies e free (some actor.user) _ _ _ _ _ now s.log h)))
            λ _ t (same, k). Ends-pure tt t (same, inr (differ _ _ other, k))

  -- Where no two payloads have the same digest and none an empty one, and the audit log verifies, a
  -- staff member's advance of an order that returns was permitted, has the order in the status
  -- asked for, as it was or moved there along one edge of the lifecycle, and has logged exactly
  -- that: if the status has changed, one entry of this member with the order's public id and both
  -- statuses is appended, and the log verifies again; if not, the log is as it was. One that raises
  -- leaves the database and the log as they were.
  pub advance_order_as_staff-Advanced :
      (order_id : ℕ) (target_status : OrderStatus) (s : Office)
      → (verify_audit_chain e s.log).0 ≡ true
      → Ends
          (Advanced e actor order_id target_status now s)
          (λ _ t. t ≡ s)
          (advance_order_as_staff e str actor order_id target_status now s)
  unfolding advance_order_as_staff require_staff_permission
  advance_order_as_staff-Advanced order_id target_status s h =
      then_raise_if _ _ _ s (λ _. refl)
        λ allowed. Ends-atomic _ s (
          then_gets _ _ s (
            then_or_raise _ _ _ s (λ _. refl)
              λ before found.
                Ends-bind (AdvancedDb order_id target_status s) _ _ s
                  (Ends-on_db _ s (
                    Ends-mono _ _ _ _ _
                      (λ order d (old, was, moved, reached, _). record {
                        log = refl;
                        old = old;
                        found = was;
                        moved = moved;
                        reached = reached;
                      })
                      (λ _ _ _. refl) (advance_fulfillment-Moved order_id target_status now s.db)))
                  λ order o k.
                    Ends-bind _ _ _ o
                      (Ends-mono _ _ _ _ _ (λ _ _ q. q) (λ _ _ _. refl)
                        (record_advance-Logged before.status order o (rw k.log h)))
                      λ _ t (db, logged). Ends-pure order t (record {
                        permitted = all_permitted _ _ _ allowed;
                        old = before;
                        found = found;
                        moved =
                            subst (λ d. KeptOrMoved now s.db before order d) (sym db)
                              (subst (λ x. KeptOrMoved now s.db x order o.db)
                                (some-injective _ _ (sym k.found ∙ found)) k.moved);
                        reached = k.reached;
                        logged =
                            subst (λ l. AdvanceLogged e actor before.status order l t.log) k.log
                              logged;
                      })))
