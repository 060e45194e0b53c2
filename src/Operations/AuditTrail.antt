-- ===== src/Operations/AuditTrail.antt =====
-- What `append_audit_event` of apps/operations/audit.py leaves of a log that verifies.
use visio_backend.Prelude.{
  ℕ, ◌+◌, ◌<◌, ◌≡◌, refl, sym, ◌∙◌, ap, subst, true, false, not, ◌||◌, Option, none, some, [], ◌==◌,
  arith, ltb, Text, text_eq, text_eq→≡, strip, is_empty, first, create, All, All-mono, Bool-cases,
  inl, inr, value_error, Ends, Ends-mono, Ends-pure, Ends-bind, Ends-atomic, Ends-modify,
  then_modify, then_gets, then_raise_if, then_allowed, All-first, All-both,
}
use visio_backend.Database.Accounts.{User}
use visio_backend.Operations.Audit.{
  Payload, Encoding, AuditEvent, AuditLog, chain_of, hash_payload, payload_of, draft, actor_key,
  sealed, create_event, advanced, append_audit_event, in_order, verify_audit_chain,
}
use visio_backend.Operations.AuditChain.{
  IsChained-create, last_hash_of-create, next_of-create, IsChained-below, All-order_by,
  order_by-create, IsWhole, verify-IsWhole, IsWhole-verify, IsChained-sealed,
}

-- What is left of an entry: it is the last one stored, with the next sequence, the state has moved
-- on to it, and the log verifies.
pub record Appended {M : Type 0} (e : Encoding M) (s : AuditLog M) (event : AuditEvent M)
    (t : AuditLog M) : Type 0 where
  pub stored : t.events ≡ create event s.events
  pub numbered : event.sequence ≡ (chain_of s.chain).last_sequence + 1
  pub moved :
      t.chain ≡ some (record { last_sequence = event.sequence; last_hash = event.event_hash })
  pub verified : (verify_audit_chain e t).0 ≡ true

-- No two payloads have the same digest, and no digest is empty.
pub record IsCollisionFree {M : Type 0} (e : Encoding M) : Type 0 where
  pub distinct : (p q : Payload M) → hash_payload e p ≡ hash_payload e q → p ≡ q
  pub filled : (p : Payload M) → is_empty (hash_payload e p) ≡ false

module _ {M : Type 0} (e : Encoding M) (free : IsCollisionFree e) where
  -- The event that comes next in a whole log is created.
  create_event-Created :
      (event : AuditEvent M) (s : AuditLog M)
      → IsWhole e s
      → event.sequence ≡ (chain_of s.chain).last_sequence + 1
      → event.event_hash ≡ hash_payload e (payload_of e event)
      → Ends
          (λ _ t. t ≡ record s { events = create event s.events })
          (λ _ _. ⊥)
          (create_event event s)
  unfolding create_event
  create_event-Created event s (chained, hash, next) here own = then_gets _ _ s (
      then_allowed _ _ _ s (rw no_sequence refl) (
        then_gets _ _ s (
          then_allowed _ _ _ s (rw no_hash refl)
            (then_allowed _ _ _ s positive (Ends-modify _ s refl)))))
    where
      below : All (λ x. x.sequence < event.sequence) s.events
      below =
          All-order_by (λ x. x.sequence < event.sequence) s.events
            (All-mono _ _ _ (λ x k. omega (arith, k, next, here))
              (IsChained-below e (in_order s) [] 1 chained).0)

      no_sequence : first (λ x. x.sequence == event.sequence) s.events ≡ none
      no_sequence = All-first _ s.events (All-mono _ _ _ (λ x k. ground (arith, k)) below)

      own_hashes : All (λ x. x.event_hash ≡ hash_payload e (payload_of e x)) s.events
      own_hashes =
          All-order_by (λ x. x.event_hash ≡ hash_payload e (payload_of e x)) s.events
            (IsChained-sealed e (in_order s) [] 1 chained)

      apart :
          (x : AuditEvent M)
          → x.sequence < event.sequence
          → x.event_hash ≡ hash_payload e (payload_of e x)
          → text_eq x.event_hash event.event_hash ≡ false
      apart x low seal = elim (Bool-cases (text_eq x.event_hash event.event_hash)) [
        | inr f ↦ f
        | inl t ↦
            let same =
              free.distinct (payload_of e x) (payload_of e event)
                (sym seal ∙ text_eq→≡ _ _ t ∙ own) in
            absurd (omega (arith, low, ap (λ (p : Payload M). p.sequence) same))
      ]

      no_hash : first (λ x. text_eq x.event_hash event.event_hash) s.events ≡ none
      no_hash = All-first _ s.events (All-both s.events apart below own_hashes)

      positive : (not (ltb 0 event.sequence) || is_empty event.event_hash) ≡ false
      positive = rw (own, free.filled (payload_of e event)) (ground (arith, here))

  -- A log with the next event, and the state moved on, is whole.
  create-IsWhole :
      (event : AuditEvent M) (s : AuditLog M)
      → IsWhole e s
      → event.sequence ≡ (chain_of s.chain).last_sequence + 1
      → event.previous_hash ≡ (chain_of s.chain).last_hash
      → event.event_hash ≡ hash_payload e (payload_of e event)
      → IsWhole e (advanced event (record s { events = create event s.events }))
  create-IsWhole event s (chained, hash, next) here before own =
      rw (order_by-create event s.events below) (
        IsChained-create e event (in_order s) [] 1 chained (here ∙ sym next) (before ∙ sym hash)
            own,
        last_hash_of-create e event (in_order s) [],
        next_of-create e event (in_order s) 1 ∙ omega (arith, next, here),
      )
    where
      below : All (λ x. x.sequence < event.sequence) s.events
      below =
          All-order_by (λ x. x.sequence < event.sequence) s.events
            (All-mono _ _ _ (λ x k. omega (arith, k, next, here))
              (IsChained-below e (in_order s) [] 1 chained).0)

  -- Where no two payloads have the same digest and none an empty one, an entry appended to a log
  -- that verifies has the key of the actor, the stripped action and the metadata, and is stored
  -- after the others with the next sequence, the state is moved on to it, and the log verifies
  -- again; or nothing is changed, which is a ValueError for an action, type, id or summary that is
  -- blank.
  pub append_audit_event-verifies :
      (actor : Option User) (action object_type object_id summary : Text) (metadata : M) (now : ℕ)
      (s : AuditLog M)
      → (verify_audit_chain e s).0 ≡ true
      → Ends
          (λ event t.
            (event.actor_id ≡ actor_key actor)
            × (event.action ≡ strip action)
            × (event.metadata ≡ metadata)
            × Appended e s event t)
          (λ x t.
            (t ≡ s)
            × (x ≡ value_error)
            × ((is_empty (strip action)
                  || is_empty (strip object_type)
                  || is_empty (strip object_id)
                  || is_empty (strip summary))
                ≡ true))
          (append_audit_event e actor action object_type object_id summary metadata now s)
  unfolding append_audit_event
  append_audit_event-verifies actor action object_type object_id summary metadata now s h =
      let event : AuditEvent M = sealed e (
        draft actor (strip action) (strip object_type) (strip object_id) (strip summary) metadata
          (chain_of s.chain) now) in
      let begun : AuditLog M = record s { chain = some (chain_of s.chain) } in
      let whole = verify-IsWhole e s h in
      let left : AuditLog M = advanced event (record begun { events = create event s.events }) in
      then_raise_if _ _ _ s (λ blank. (refl, refl, blank))
        λ _. Ends-atomic _ s (
          then_modify _ _ s (
            then_gets _ _ begun (
              Ends-bind _ _ _ begun
                (Ends-mono _ _ _ _ _ (λ _ _ k. k) (λ _ _ k. absurd k)
                  (create_event-Created event begun whole refl refl))
                λ _ t made. then_modify _ _ t (
                  Ends-pure event (advanced event t) (
                    refl,
                    refl,
                    refl,
                    subst (λ (w : AuditLog M). Appended e s event (advanced event w)) (sym made)
                        (record {
                          stored = refl;
                          numbered = refl;
                          moved = refl;
                          verified =
                              IsWhole-verify e left _ refl
                                (create-IsWhole event begun whole refl refl refl);
                        }),
                  )))))
