-- ===== src/Operations/Dispatching.antt =====
-- What one call of `dispatch_notification` (apps/operations/notifications.py) does, on each of its
-- branches.
use visio_backend.Prelude.{
  ℕ, ◌+◌, ◌≤◌, ◌<◌, ◌≡◌, ◌⊎◌, inl, inr, refl, sym, ◌∙◌, ap, subst, Bool, true, false, Option, none,
  some, List, ◌∷◌, ◌==◌, ==→≡, ==-refl, arith, ltb, Text, Error, create, first-test, Ends,
  Ends-mono, Ends-pure, Ends-bind, Ends-atomic, then_modify, then_gets, then_or_raise, then_found,
  then_raise_if, does_not_exist, notification_conflict,
}
use visio_backend.Operations.Dispatch.{
  OutboxEntry, DeliveryAttempt, Mail, is_sent, is_sending, find_entry, save_entry, claimed,
  claim_entry, claim, outcome_entry, outcome_attempt, settle_delivery, send_claimed,
  dispatch_notification,
}
use visio_backend.Operations.Workers.{Worker, here, IsSound, found_after}
use visio_backend.Operations.Soundness.{
  claimed-IsSound, no_attempt, outcome_columns, create_attempt-Created,
}
use visio_backend.Operations.Answers.{
  IsClaimed, IsAnswered, IsRecorded, claimed-IsClaimed, outcome_entry-IsAnswered,
  outcome_attempt-IsRecorded,
}

-- The entry was sent before, and everything is as it was.
pub record SentBefore (i : ℕ) (s : Mail) (n : OutboxEntry) (t : Mail) : Type 0 where
  pub found : find_entry i s ≡ some n
  pub marked : is_sent n.status ≡ true
  pub same : t ≡ s

-- The sender was called once with the claimed entry, and its answer is stored in the entry and in a
-- new attempt.
pub record Tried (sender : OutboxEntry → Option Text) (i now at : ℕ) (s : Mail) (n : OutboxEntry)
    (t : Mail) : Type 0 where
  pub old : OutboxEntry
  pub found : find_entry i s ≡ some old
  pub unsent : is_sent old.status ≡ false
  pub idle : is_sending old.status ≡ false
  pub due : old.available_at ≤ now
  pub asked : OutboxEntry
  pub taken : IsClaimed old now asked
  pub answered : IsAnswered (sender asked) i at old n
  pub stored : find_entry i t ≡ some n
  pub others : (j : ℕ) → (i == j) ≡ false → find_entry j t ≡ find_entry j s
  pub attempt : DeliveryAttempt
  pub outcome : IsRecorded (sender asked) i at old attempt
  pub recorded : t.attempts ≡ create attempt s.attempts

-- Why a dispatch is refused.
abbrev pub DispatchRefused : ℕ → ℕ → Mail → Error → Mail → Type 0
DispatchRefused i now s e t =
    (t ≡ s)
    × (((e ≡ does_not_exist) × (find_entry i s ≡ none))
        ⊎ ((e ≡ notification_conflict)
            × ((old : OutboxEntry) × (find_entry i s ≡ some old)
                × ((is_sending old.status ≡ true) ⊎ (now < old.available_at)))))

-- The row and the store that settling leaves.
abbrev Settled : OutboxEntry → Option Text → ℕ → Mail → OutboxEntry → Mail → Type 0
Settled n answer at mail r t =
    (r ≡ outcome_entry answer n at)
    × (t ≡ record (save_entry (outcome_entry answer n at) mail) {
      attempts = create (outcome_attempt answer n.id n.attempt_count at) mail.attempts;
    })

-- What settling the newest worker's entry stores.
settle-stores :
    (mail : Mail) (ws : List Worker) (n : OutboxEntry) (answer : Option Text) (at : ℕ)
    → IsSound mail ((n.id, n.attempt_count) ∷ ws)
    → find_entry n.id mail ≡ some n
    → 1 ≤ n.attempt_count
    → Ends
        (Settled n answer at mail)
        (λ _ _. ⊥)
        (settle_delivery answer n.id n.attempt_count at mail)
unfolding settle_delivery
settle-stores mail ws n answer at h found low =
    let a = outcome_attempt answer n.id n.attempt_count at in
    let columns = outcome_columns answer n n.id n.attempt_count at in
    Ends-atomic _ mail (
      then_gets _ _ mail (
        then_found _ _ _ mail n found (
          then_modify _ _ mail (
            Ends-bind
              (λ _ t. t ≡ record (save_entry (outcome_entry answer n at) mail) {
                attempts = create a mail.attempts;
              })
              _ _ _
              (create_attempt-Created a _
                (no_attempt mail _ h (n.id, n.attempt_count) ws here a columns.4 columns.5)
                (omega (arith, low, columns.5)))
              λ _ t made. Ends-pure _ t (refl, made)))))

module _ (sender : OutboxEntry → Option Text) (i now at : ℕ) (s : Mail) (ws : List Worker)
    (h : IsSound s ws) where
  -- The entry is claimed, the sender is called, and its answer is stored.
  try_claimed :
      (e : OutboxEntry)
      → find_entry i s ≡ some e
      → is_sent e.status ≡ false
      → is_sending e.status ≡ false
      → ltb now e.available_at ≡ false
      → Ends
          (Tried sender i now at s)
          (λ _ _. ⊥)
          (send_claimed sender e (some (claimed e now)) at (save_entry (claimed e now) s))
  unfolding send_claimed
  try_claimed e found unsent idle due =
      let key : e.id ≡ i =
        ==→≡ _ _ (first-test (λ (n : OutboxEntry). n.id == i) s.entries e found) in
      let own : find_entry e.id s ≡ some e = subst (λ j. find_entry j s ≡ some e) (sym key) found in
      let n = claimed e now in
      let mail = save_entry n s in
      let answer = sender n in
      let row = outcome_entry answer n at in
      let columns = outcome_columns answer n e.id n.attempt_count at in
      let there : find_entry e.id mail ≡ some n =
        found_after n e e.id s own ∙ rw (==-refl e.id) refl in
      let stored = λ (j : ℕ).
        found_after row n j mail (subst (λ k. find_entry k mail ≡ some n) (sym columns.0) there) in
      let same : row.id ≡ i = columns.0 ∙ key in
      let hit : (row.id == i) ≡ true = subst (λ k. (row.id == k) ≡ true) same (==-refl row.id) in
      let missed : (j : ℕ)
          → (i == j) ≡ false
          → find_entry j (save_entry row mail) ≡ find_entry j s =
        λ j apart.
          let row_apart : (row.id == j) ≡ false = subst (λ k. (k == j) ≡ false) (sym same) apart in
          let old_apart : (e.id == j) ≡ false = subst (λ k. (k == j) ≡ false) (sym key) apart in
          stored j ∙ rw row_apart (found_after n e j s own ∙ rw old_apart refl) in
      Ends-mono (Settled n answer at mail) (Tried sender i now at s) _ _ _
        (λ r t k. record {
          old = e;
          found = found;
          unsent = unsent;
          idle = idle;
          due = ground (arith, due);
          asked = n;
          taken = claimed-IsClaimed e now;
          answered =
              subst (IsAnswered answer i at e) (sym k.0)
                (outcome_entry-IsAnswered answer e i now at key);
          attempt = outcome_attempt answer i (e.attempt_count + 1) at;
          outcome = outcome_attempt-IsRecorded answer e i at;
          stored =
              ap (λ (d : Mail). find_entry i d) k.1
              ∙ stored i
              ∙ rw hit (ap (λ x. some x) (sym k.0));
          others = λ j apart. ap (λ (d : Mail). find_entry j d) k.1 ∙ missed j apart;
          recorded =
              ap (λ (d : Mail). d.attempts) k.1
              ∙ ap (λ j. create (outcome_attempt answer j (e.attempt_count + 1) at) s.attempts) key;
        })
        (λ _ _ k. k)
        (settle-stores mail ws n answer at (claimed-IsSound s ws h e now own unsent idle) there
          (omega arith))

  dispatch_found :
      (e : OutboxEntry) (b : Bool)
      → find_entry i s ≡ some e
      → is_sent e.status ≡ b
      → Ends
          (λ o t.
            Ends
              (λ n u. SentBefore i s n u ⊎ Tried sender i now at s n u)
              (DispatchRefused i now s)
              (send_claimed sender e o at t))
          (λ x _. DispatchRefused i now s x s)
          (claim_entry b e now s)
  unfolding claim_entry send_claimed
  dispatch_found e true found is =
      Ends-pure none s (Ends-pure e s (inl (record { found = found; marked = is; same = refl })))
  dispatch_found e false found unsent =
      then_raise_if _ _ _ s (λ busy. (refl, inr (refl, (e, found, inl busy))))
        λ idle.
          then_raise_if _ _ _ s
            (λ early. (refl, inr (refl, (e, found, inr (ground (arith, early))))))
            λ due. then_modify _ _ s (
              Ends-pure (some (claimed e now)) _ (
                Ends-mono _ _ _ _ _ (λ _ _ k. inr k) (λ _ _ k. absurd k)
                  (try_claimed e found unsent idle due)))

  -- From a sound outbox, whatever other workers are under way, a dispatch returns an entry that was
  -- sent before, with nothing changed; or it calls the sender with the entry, which was neither
  -- sent nor being sent and was due, marked as being sent and with one attempt more, and stores the
  -- answer: the entry is sent at that time without an error, or failed with the first 500 characters
  -- of the error, with one attempt more and its content and due time kept, an attempt of that number
  -- is stored with the same outcome, and the other entries are as they were. Or it raises and
  -- changes nothing, because there is no such entry, or it is being sent or not yet due (a conflict).
  pub dispatch_notification-Tried :
      Ends
        (λ n t. SentBefore i s n t ⊎ Tried sender i now at s n t)
        (DispatchRefused i now s)
        (dispatch_notification sender i now at s)
  unfolding dispatch_notification claim
  dispatch_notification-Tried =
      Ends-bind
        (λ r t.
          Ends (λ n u. SentBefore i s n u ⊎ Tried sender i now at s n u) (DispatchRefused i now s)
            (send_claimed sender r.0 r.1 at t))
        _ _ s
        (Ends-atomic _ s (
          then_gets _ _ s (
            then_or_raise _ _ _ s (λ gone. (refl, inl (refl, gone)))
              λ e found.
                Ends-bind _ _ _ s (dispatch_found e (is_sent e.status) found refl)
                  λ o t k. Ends-pure (e, o) t k)))
        λ r t k. k
