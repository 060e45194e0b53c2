-- ===== src/Operations/AuditChain.antt =====
-- What `verify_audit_chain` of apps/operations/audit.py accepts: whole logs, each event linked to
-- the one before it.
use visio_backend.Prelude.{
  ℕ, ◌+◌, ◌≤◌, ◌<◌, ◌≡◌, refl, sym, ap, subst, Bool, true, false, not, Option, none, some, List, [],
  ◌∷◌, ◌==◌, ==→≡, ==-refl, if◌then◌else◌, arith, leb, Text, text_eq, text_eq_refl, text_eq→≡,
  create, insert_by, order_by, All, Bool-cases, inl, inr,
}
use visio_backend.Operations.Audit.{
  Encoding, AuditEvent, AuditChainState, AuditLog, Verdict, chain_of, hash_payload, payload_of,
  verify_state, verify_events, in_order, verify_audit_chain,
}

same_text : {s t : Text} → s ≡ t → text_eq s t ≡ true
same_text {s} {t} h = subst (λ u. text_eq s u ≡ true) h (text_eq_refl s)

-- The three tests of an event, and the rest of the loop.
passed :
    (a b d : Bool) (u v w : Verdict) (rest : Bool × Verdict)
    → (if not a
        then (false, u)
        else (if not b then (false, v) else (if not d then (false, w) else rest))).0
      ≡ true
    → (a ≡ true) × (b ≡ true) × (d ≡ true) × (rest.0 ≡ true)
passed false b d u v w rest h = absurd (cc)
passed true false d u v w rest h = absurd (cc)
passed true true false u v w rest h = absurd (cc)
passed true true true u v w rest h = (refl, refl, refl, h)

module _ {M : Type 0} (e : Encoding M) where
  -- Each event has the next sequence, the hash of the one before it and the hash of its own payload.
  abbrev pub IsChained : List (AuditEvent M) → Text → ℕ → Type 0
  IsChained [] previous n = Unit {0}
  IsChained (x ∷ xs) previous n =
      (x.sequence ≡ n)
      × (x.previous_hash ≡ previous)
      × (x.event_hash ≡ hash_payload e (payload_of e x))
      × IsChained xs x.event_hash (n + 1)

  -- the hash that comes after some events, and the sequence
  abbrev pub last_hash_of : List (AuditEvent M) → Text → Text
  last_hash_of [] previous = previous
  last_hash_of (x ∷ xs) previous = last_hash_of xs x.event_hash

  abbrev pub next_of : List (AuditEvent M) → ℕ → ℕ
  next_of [] n = n
  next_of (x ∷ xs) n = next_of xs (n + 1)

  pub verify_events-IsChained :
      (xs : List (AuditEvent M)) (chain : Option AuditChainState) (previous : Text) (n : ℕ)
      → (verify_events e xs chain previous n).0 ≡ true
      → IsChained xs previous n
        × ((verify_state chain (last_hash_of xs previous) (next_of xs n)).0 ≡ true)
  verify_events-IsChained [] chain previous n h = (tt, h)
  verify_events-IsChained (x ∷ xs) chain previous n h =
      let tests =
        passed (x.sequence == n) (text_eq x.previous_hash previous)
          (text_eq x.event_hash (hash_payload e (payload_of e x))) _ _ _
          (verify_events e xs chain x.event_hash (n + 1)) h in
      let rest = verify_events-IsChained xs chain x.event_hash (n + 1) tests.3 in
      ((==→≡ _ _ tests.0, text_eq→≡ _ _ tests.1, text_eq→≡ _ _ tests.2, rest.0), rest.1)

  pub IsChained-verify_events :
      (xs : List (AuditEvent M)) (chain : Option AuditChainState) (previous : Text) (n : ℕ)
      → IsChained xs previous n
      → (verify_state chain (last_hash_of xs previous) (next_of xs n)).0 ≡ true
      → (verify_events e xs chain previous n).0 ≡ true
  IsChained-verify_events [] chain previous n h k = k
  IsChained-verify_events (x ∷ xs) chain previous n (here, before, hash, rest) k =
      let first_test : (x.sequence == n) ≡ true =
        subst (λ m. (x.sequence == m) ≡ true) here (==-refl x.sequence) in
      rw (first_test, same_text before, same_text hash)
        (IsChained-verify_events xs chain x.event_hash (n + 1) rest k)

  pub IsChained-create :
      (row : AuditEvent M) (xs : List (AuditEvent M)) (previous : Text) (n : ℕ)
      → IsChained xs previous n
      → row.sequence ≡ next_of xs n
      → row.previous_hash ≡ last_hash_of xs previous
      → row.event_hash ≡ hash_payload e (payload_of e row)
      → IsChained (create row xs) previous n
  IsChained-create row [] previous n h a b d = (a, b, d, tt)
  IsChained-create row (x ∷ xs) previous n h a b d =
      (h.0, h.1, h.2, IsChained-create row xs x.event_hash (n + 1) h.3 a b d)

  pub last_hash_of-create :
      (row : AuditEvent M) (xs : List (AuditEvent M)) (previous : Text)
      → last_hash_of (create row xs) previous ≡ row.event_hash
  last_hash_of-create row [] previous = refl
  last_hash_of-create row (x ∷ xs) previous = last_hash_of-create row xs x.event_hash

  pub next_of-create :
      (row : AuditEvent M) (xs : List (AuditEvent M)) (n : ℕ)
      → next_of (create row xs) n ≡ next_of xs n + 1
  next_of-create row [] n = refl
  next_of-create row (x ∷ xs) n = next_of-create row xs (n + 1)

  -- The sequences are below the next one.
  pub IsChained-below :
      (xs : List (AuditEvent M)) (previous : Text) (n : ℕ)
      → IsChained xs previous n
      → All (λ x. x.sequence < next_of xs n) xs × (n ≤ next_of xs n)
  IsChained-below [] previous n h = (tt, omega arith)
  IsChained-below (x ∷ xs) previous n h =
      let rest = IsChained-below xs x.event_hash (n + 1) h.3 in
      ((omega (arith, h.0, rest.1), rest.0), omega (arith, rest.1))

abbrev by_sequence : {M : Type 0} → AuditEvent M → AuditEvent M → Bool
by_sequence x y = leb x.sequence y.sequence

-- Sorting keeps what holds of all.
module _ {M : Type 0} (P : AuditEvent M → Type 0) where
  All-insert_by :
      (x : AuditEvent M) (ys : List (AuditEvent M))
      → All P (insert_by by_sequence x ys)
      → P x × All P ys
  All-insert_by x [] h = h
  All-insert_by x (y ∷ ys) h = elim (Bool-cases (by_sequence x y)) [
    | inl t ↦ rw t at h
    | inr f ↦ let k = rw f at h in let rest = All-insert_by x ys k.1 in (rest.0, (k.0, rest.1))
  ]

  pub All-order_by : (xs : List (AuditEvent M)) → All P (order_by by_sequence xs) → All P xs
  All-order_by [] h = tt
  All-order_by (x ∷ xs) h =
      let k = All-insert_by x (order_by by_sequence xs) h in (k.0, All-order_by xs k.1)

-- A row above all others comes last.
insert_by-create :
    {M : Type 0} (x row : AuditEvent M) (ys : List (AuditEvent M))
    → x.sequence < row.sequence
    → insert_by by_sequence x (create row ys) ≡ create row (insert_by by_sequence x ys)
insert_by-create x row [] below = (let t : by_sequence x row ≡ true = ground arith in rw t refl)
insert_by-create x row (y ∷ ys) below = elim (Bool-cases (by_sequence x y)) [
  | inl t ↦ rw t refl
  | inr f ↦ rw (f, insert_by-create x row ys below) refl
]

pub order_by-create :
    {M : Type 0} (row : AuditEvent M) (xs : List (AuditEvent M))
    → All (λ x. x.sequence < row.sequence) xs
    → order_by by_sequence (create row xs) ≡ create row (order_by by_sequence xs)
order_by-create row [] h = refl
order_by-create row (x ∷ xs) h =
    rw (order_by-create row xs h.1) (insert_by-create x row (order_by by_sequence xs) h.0)

module _ {M : Type 0} (e : Encoding M) where
  -- A log that verifies is a chain that ends where its state says.
  abbrev pub IsWhole : AuditLog M → Type 0
  IsWhole log =
      IsChained e (in_order log) [] 1
      × (last_hash_of e (in_order log) [] ≡ (chain_of log.chain).last_hash)
      × (next_of e (in_order log) 1 ≡ (chain_of log.chain).last_sequence + 1)

  pub verify-IsWhole : (log : AuditLog M) → (verify_audit_chain e log).0 ≡ true → IsWhole log
  verify-IsWhole log h =
      let k = verify_events-IsChained e (in_order log) log.chain [] 1 h in
      let ends = of_state log.chain (in_order log) k.0 k.1 in (k.0, ends.0, ends.1)
    where
      of_state :
          (chain : Option AuditChainState) (xs : List (AuditEvent M))
          → IsChained e xs [] 1
          → (verify_state chain (last_hash_of e xs []) (next_of e xs 1)).0 ≡ true
          → (last_hash_of e xs [] ≡ (chain_of chain).last_hash)
            × (next_of e xs 1 ≡ (chain_of chain).last_sequence + 1)
      of_state none [] c h = (refl, refl)
      of_state none (x ∷ xs) c h =
          let low = (IsChained-below e xs x.event_hash 2 c.3).1 in
          let other : (next_of e xs 2 == 1) ≡ false = ground arith in absurd (cc (rw other at h))
      of_state (some state) xs c h = elim (Bool-cases (state.last_sequence + 1 == next_of e xs 1)) [
        | inr f ↦ absurd (cc (rw f at h))
        | inl t ↦ elim (Bool-cases (text_eq state.last_hash (last_hash_of e xs []))) [
          | inr g ↦ absurd (cc (rw (t, g) at h))
          | inl u ↦ (sym (text_eq→≡ _ _ u), sym (==→≡ _ _ t))
        ]
      ]

  pub IsWhole-verify :
      (log : AuditLog M) (state : AuditChainState)
      → log.chain ≡ some state
      → IsWhole log
      → (verify_audit_chain e log).0 ≡ true
  IsWhole-verify log state there (chained, hash, next) =
      IsChained-verify_events e (in_order log) log.chain [] 1 chained
        (rw (there, next, hash, ap (λ o. chain_of o) there, ==-refl, text_eq_refl) refl)

  pub IsChained-sealed :
      (xs : List (AuditEvent M)) (previous : Text) (n : ℕ)
      → IsChained e xs previous n
      → All (λ x. x.event_hash ≡ hash_payload e (payload_of e x)) xs
  IsChained-sealed [] previous n h = tt
  IsChained-sealed (x ∷ xs) previous n h = (h.2, IsChained-sealed xs x.event_hash (n + 1) h.3)
