-- ===== src/Operations/AuditEvidence.antt =====
-- What a log that verifies (apps/operations/audit.py) is evidence of.
use visio_backend.Prelude.{
  ℕ, ◌+◌, ◌≡◌, refl, sym, ◌∙◌, ap, true, false, none, some, List, [], ◌∷◌, arith, Text, first,
  update, All, Bool-cases, inl, inr,
}
use visio_backend.Operations.Audit.{
  Payload, Encoding, AuditEvent, AuditLog, chain_of, hash_payload, payload_of, in_order,
  verify_audit_chain, is_actor, forget_actor,
}
use visio_backend.Operations.AuditChain.{
  IsChained, last_hash_of, next_of, IsChained-below, All-order_by, verify-IsWhole, IsChained-sealed,
}
use visio_backend.Operations.AuditTrail.{IsCollisionFree}

module _ {M : Type 0} (e : Encoding M) (free : IsCollisionFree e)
    (is_dated : (m n : ℕ) → e.isoformat m ≡ e.isoformat n → m ≡ n) where
  -- Entries of one payload and one hash are the same.
  payload_tells :
      (x y : AuditEvent M) → payload_of e x ≡ payload_of e y → x.event_hash ≡ y.event_hash → x ≡ y
  payload_tells x y h hash =
      let Read = Payload M in
      let sequence : x.sequence ≡ y.sequence = ap (λ (r : Read). r.sequence) h in
      let actor : x.actor_id ≡ y.actor_id = ap (λ (r : Read). r.actor_id) h in
      let mail : x.actor_email_snapshot ≡ y.actor_email_snapshot =
        ap (λ (r : Read). r.actor_email) h in
      let action : x.action ≡ y.action = ap (λ (r : Read). r.action) h in
      let kind : x.object_type ≡ y.object_type = ap (λ (r : Read). r.object_type) h in
      let object : x.object_id ≡ y.object_id = ap (λ (r : Read). r.object_id) h in
      let summary : x.summary ≡ y.summary = ap (λ (r : Read). r.summary) h in
      let metadata : x.metadata ≡ y.metadata = ap (λ (r : Read). r.metadata) h in
      let previous : x.previous_hash ≡ y.previous_hash = ap (λ (r : Read). r.previous_hash) h in
      let created : x.created_at ≡ y.created_at =
        is_dated _ _ (ap (λ (r : Read). r.created_at_iso) h) in
      λ i. record {
        sequence = sequence i;
        actor_id = actor i;
        actor_email_snapshot = mail i;
        action = action i;
        object_type = kind i;
        object_id = object i;
        summary = summary i;
        metadata = metadata i;
        previous_hash = previous i;
        event_hash = hash i;
        created_at = created i;
      }

  -- Two chains that end alike are the same.
  chains_agree :
      (xs ys : List (AuditEvent M)) (p q : Text) (n : ℕ)
      → IsChained e xs p n
      → IsChained e ys q n
      → next_of e xs n ≡ next_of e ys n
      → last_hash_of e xs p ≡ last_hash_of e ys q
      → (p ≡ q) × (xs ≡ ys)
  chains_agree [] [] p q n c d same ends = (ends, refl)
  chains_agree [] (y ∷ ys) p q n c d same ends =
      absurd (omega (arith, same, (IsChained-below e ys y.event_hash (n + 1) d.3).1))
  chains_agree (x ∷ xs) [] p q n c d same ends =
      absurd (omega (arith, same, (IsChained-below e xs x.event_hash (n + 1) c.3).1))
  chains_agree (x ∷ xs) (y ∷ ys) p q n c d same ends =
      let (hash, rest) = chains_agree xs ys x.event_hash y.event_hash (n + 1) c.3 d.3 same ends in
      let equal = free.distinct (payload_of e x) (payload_of e y) (sym c.2 ∙ hash ∙ d.2) in
      let entry = payload_tells x y equal hash in
      (sym c.1 ∙ ap (λ (r : Payload M). r.previous_hash) equal ∙ d.1, λ i. entry i ∷ rest i)

  -- Where no two payloads have the same digest and none an empty one, and no two times the same
  -- text, two logs that verify and whose states have the same sequence and hash (a missing state
  -- counts as sequence 0 and an empty hash) have the same entries in the order of their sequences,
  -- in each column but the random primary key: no entry of a log can be altered, dropped, added or moved with the state
  -- kept and the verification passed.
  pub verify_audit_chain-binds :
      (a b : AuditLog M)
      → (verify_audit_chain e a).0 ≡ true
      → (verify_audit_chain e b).0 ≡ true
      → (chain_of a.chain).last_sequence ≡ (chain_of b.chain).last_sequence
      → (chain_of a.chain).last_hash ≡ (chain_of b.chain).last_hash
      → in_order a ≡ in_order b
  verify_audit_chain-binds a b h k sequence hash =
      let v = verify-IsWhole e a h in
      let w = verify-IsWhole e b k in
      (chains_agree (in_order a) (in_order b) [] [] 1 v.0 w.0 (omega (arith, v.2, w.2, sequence))
        (v.1 ∙ hash ∙ sym w.1)).1

module _ {M : Type 0} (e : Encoding M) (free : IsCollisionFree e) where
  verify-sealed :
      (log : AuditLog M)
      → (verify_audit_chain e log).0 ≡ true
      → All (λ x. x.event_hash ≡ hash_payload e (payload_of e x)) log.events
  verify-sealed log h =
      All-order_by (λ x. x.event_hash ≡ hash_payload e (payload_of e x)) log.events
        (IsChained-sealed e (in_order log) [] 1 (verify-IsWhole e log h).0)

  -- An event whose actor is forgotten does not have the hash of its payload.
  forgotten_unsealed :
      (user_id : ℕ) (xs : List (AuditEvent M)) (x : AuditEvent M)
      → first (λ y. is_actor user_id y.actor_id) xs ≡ some x
      → All (λ y. y.event_hash ≡ hash_payload e (payload_of e y)) xs
      → All
          (λ y. y.event_hash ≡ hash_payload e (payload_of e y))
          (update (λ y. is_actor user_id y.actor_id) (λ y. record y { actor_id = none }) xs)
      → ⊥
  forgotten_unsealed user_id [] x found h k = absurd (cc)
  forgotten_unsealed user_id (y ∷ ys) x found h k =
      elim (Bool-cases (is_actor user_id y.actor_id)) [
        | inr f ↦ forgotten_unsealed user_id ys x (rw f at found) h.1 k.1
        | inl t ↦
            let same =
              free.distinct (payload_of e y) (payload_of e (record y { actor_id = none }))
                (sym h.0 ∙ (rw t at k.0)) in
            let no_actor : y.actor_id ≡ none = ap (λ (p : Payload M). p.actor_id) same in
            absurd (cc (rw no_actor at t))
      ]

  -- Where no two payloads have the same digest and none an empty one, a log that verifies and has
  -- an entry of a user no longer verifies once that user is deleted, which sets the actor of the
  -- entry to null.
  pub forget_actor-breaks :
      (user_id : ℕ) (log : AuditLog M) (event : AuditEvent M)
      → (verify_audit_chain e log).0 ≡ true
      → first (λ x. is_actor user_id x.actor_id) log.events ≡ some event
      → (verify_audit_chain e (forget_actor user_id log)).0 ≡ false
  forget_actor-breaks user_id log event h found =
      elim (Bool-cases (verify_audit_chain e (forget_actor user_id log)).0) [
        | inr f ↦ f
        | inl t ↦ absurd (
            forgotten_unsealed user_id log.events event found (verify-sealed log h)
              (verify-sealed (forget_actor user_id log) t))
      ]
