-- ===== src/Operations/Soundness.antt =====
-- How the writes of `dispatch_notification` (apps/operations/notifications.py) keep the outbox sound.
use visio_backend.Prelude.{
  ℕ, ◌+◌, ◌≤◌, ◌≡◌, refl, sym, ◌∙◌, ap, subst, true, false, ◌&&◌, Option, none, some, List, ◌∷◌,
  ◌==◌, ==→≡, ==-refl, if◌then◌else◌, arith, Text, Bool-cases, inl, inr, first, create,
  aggregate-create, All-mono, All-both, All-create, All-first, Ends, Ends-modify, then_gets,
  then_allowed,
}
use visio_backend.Operations.Dispatch.{
  NotificationStatus, OutboxEntry, DeliveryAttempt, Mail, is_sent, is_sending, find_entry,
  save_entry, claimed, create_attempt, outcome_entry, outcome_attempt,
}
use visio_backend.Operations.Workers.{
  Worker, Taken, senders, count_of, sending_of, sent_of, IsSound, found_after, senders-Taken,
  All-Taken, senders-zero,
}

module _ (mail : Mail) (ws : List Worker) (h : IsSound mail ws) where
  -- What the store says of an entry, for an entry of the same key.
  at_key :
      {A : Type 0} (f : Option OutboxEntry → A) (e : OutboxEntry) (j : ℕ)
      → find_entry e.id mail ≡ some e
      → (e.id == j) ≡ true
      → f (find_entry j mail) ≡ f (some e)
  at_key f e j found t = ap f (subst (λ k. find_entry k mail ≡ some e) (==→≡ _ _ t) found)

  pub claimed-IsSound :
      (e : OutboxEntry) (now : ℕ)
      → find_entry e.id mail ≡ some e
      → is_sent e.status ≡ false
      → is_sending e.status ≡ false
      → IsSound (save_entry (claimed e now) mail) ((e.id, e.attempt_count + 1) ∷ ws)
  claimed-IsSound e now found unsent idle = record {
    single = λ j. rw (after j) (elim (Bool-cases (e.id == j)) [
      | inl t ↦ rw t (omega (arith, h.single j, none_sending j t))
      | inr f ↦ rw f (omega (arith, h.single j))
    ]);
    once = λ j. rw (after j) (elim (Bool-cases (e.id == j)) [
      | inl t ↦ rw t (h.once j ∙ at_key sent_of e j found t ∙ rw unsent refl)
      | inr f ↦ rw f (h.once j)
    ]);
    numbered =
        All-mono _ _ mail.attempts
          (λ a k. rw (after a.notification_id) (elim (Bool-cases (e.id == a.notification_id)) [
            | inl t ↦ rw t (omega (arith, k, at_key count_of e a.notification_id found t))
            | inr f ↦ rw f (omega (arith, k))
          ]))
          h.numbered;
    current = (
      (rw (after e.id, ==-refl e.id) refl, omega arith),
      All-both ws (λ w k free. others w k free) h.current (senders-zero e.id ws no_sender),
    );
  }
    where
      row : OutboxEntry
      row = claimed e now

      after :
          (j : ℕ)
          → find_entry j (save_entry row mail) ≡ (if e.id == j then some row else find_entry j mail)
      after j = found_after row e j mail found

      none_sending : (j : ℕ) → (e.id == j) ≡ true → sending_of (find_entry j mail) ≡ 0
      none_sending j t = at_key sending_of e j found t ∙ rw idle refl

      no_sender : senders e.id ws ≡ 0
      no_sender = omega (arith, h.single e.id, none_sending e.id (==-refl e.id))

      others :
          (w : Worker)
          → (w.1 ≡ count_of (find_entry w.0 mail)) × (1 ≤ w.1)
          → (w.0 == e.id) ≡ false
          → (w.1 ≡ count_of (find_entry w.0 (save_entry row mail))) × (1 ≤ w.1)
      others w k free =
          (let apart : (e.id == w.0) ≡ false = ground arith in (rw (after w.0, apart) k.0, k.1))

  -- Without a worker the rest is as sound.
  pub dead-IsSound : (w : Worker) (vs : List Worker) → Taken w ws vs → IsSound mail vs
  dead-IsSound w vs t = record {
    single = λ j. omega (arith, h.single j, senders-Taken j t);
    once = h.once;
    numbered =
        All-mono _ _ mail.attempts (λ a k. omega (arith, k, senders-Taken a.notification_id t))
          h.numbered;
    current = (All-Taken _ t h.current).1;
  }

  -- A worker finds its entry as it left it.
  pub worker-found :
      (w : Worker) (vs : List Worker)
      → Taken w ws vs
      → (e : OutboxEntry) × (find_entry w.0 mail ≡ some e)
        × (e.attempt_count ≡ w.1)
        × (is_sending e.status ≡ true)
        × (senders w.0 vs ≡ 0)
  worker-found w vs t = of_found (find_entry w.0 mail) refl
    where
      mine : (w.1 ≡ count_of (find_entry w.0 mail)) × (1 ≤ w.1)
      mine = (All-Taken _ t h.current).0

      alone : 1 + senders w.0 vs ≤ sending_of (find_entry w.0 mail)
      alone = omega (arith, h.single w.0, rw (==-refl w.0) at (senders-Taken w.0 t))

      of_found :
          (o : Option OutboxEntry)
          → find_entry w.0 mail ≡ o
          → (e : OutboxEntry) × (o ≡ some e)
            × (e.attempt_count ≡ w.1)
            × (is_sending e.status ≡ true)
            × (senders w.0 vs ≡ 0)
      of_found none f = absurd (omega (arith, mine.1, mine.0, ap count_of f))
      of_found (some e) f = elim (Bool-cases (is_sending e.status)) [
        | inl t ↦
            let one : sending_of (find_entry w.0 mail) ≡ 1 = ap sending_of f ∙ rw t refl in
            (e, refl, sym (mine.0 ∙ ap count_of f), t, omega (arith, alone, one))
        | inr g ↦
            (let zero_ : sending_of (find_entry w.0 mail) ≡ 0 = ap sending_of f ∙ rw g refl in
              absurd (omega (arith, alone, zero_)))
      ]

  pub settled-IsSound :
      (w : Worker) (vs : List Worker) (row : OutboxEntry) (a : DeliveryAttempt)
      → Taken w ws vs
      → row.id ≡ w.0
      → row.attempt_count ≡ w.1
      → is_sending row.status ≡ false
      → is_sent row.status ≡ a.is_success
      → a.notification_id ≡ w.0
      → a.attempt_no ≡ w.1
      → IsSound (record (save_entry row mail) { attempts = create a mail.attempts }) vs
  settled-IsSound w vs row a t key count idle outcome of_key of_count =
      let (e, found, counted, busy, alone) = worker-found w vs t in
      let found_row : find_entry row.id mail ≡ some e =
        subst (λ i. find_entry i mail ≡ some e) (sym key) found in
      of_entry e found_row counted busy alone
    where
      unsent : (n : OutboxEntry) → is_sending n.status ≡ true → is_sent n.status ≡ false
      unsent n h = of_status n.status h
        where
          of_status : (k : NotificationStatus) → is_sending k ≡ true → is_sent k ≡ false
          of_status NotificationStatus.pending h = refl
          of_status NotificationStatus.sending h = refl
          of_status NotificationStatus.sent h = absurd (cc)
          of_status NotificationStatus.failed h = refl

      of_entry :
          (e : OutboxEntry)
          → find_entry row.id mail ≡ some e
          → e.attempt_count ≡ w.1
          → is_sending e.status ≡ true
          → senders w.0 vs ≡ 0
          → IsSound (record (save_entry row mail) { attempts = create a mail.attempts }) vs
      of_entry e found counted busy alone = record {
        single = λ j. rw (after j) (elim (Bool-cases (row.id == j)) [
          | inl same ↦ rw (same, idle) (omega (arith, none_left j same))
          | inr other ↦ rw other (omega (arith, h.single j, senders-Taken j t))
        ]);
        once = λ j.
            aggregate-create (λ x. x.notification_id == j && x.is_success) (λ _. 1) a mail.attempts
            ∙ rw (after j, of_key, ← key)
                (elim (Bool-cases (row.id == j)) [
                  | inl same ↦ rw (same, outcome) (omega (arith, h.once j, unsent_before j same))
                  | inr other ↦ rw other (omega (arith, h.once j))
                ]);
        numbered =
            All-create _ a mail.attempts
              (All-mono _ _ mail.attempts
                (λ b k.
                  rw (after b.notification_id) (elim (Bool-cases (row.id == b.notification_id)) [
                    | inl same ↦ rw same (
                        omega (
                          arith,
                          k,
                          count,
                          counted,
                          none_left b.notification_id same,
                          at_row count_of b.notification_id same,
                        ))
                    | inr other ↦ rw other (omega (arith, k, senders-Taken b.notification_id t))
                  ]))
                h.numbered)
              (rw (of_key, of_count, own) (omega (arith, count, alone)));
        current =
            All-both vs (λ u k free. others u k free) (All-Taken _ t h.current).1
              (senders-zero w.0 vs alone);
      }
        where
          after :
              (j : ℕ)
              → find_entry j (save_entry row mail)
                ≡ (if row.id == j then some row else find_entry j mail)
          after j = found_after row e j mail found

          at_row :
              {A : Type 0} (f : Option OutboxEntry → A) (j : ℕ)
              → (row.id == j) ≡ true
              → f (find_entry j mail) ≡ f (some e)
          at_row f j same = ap f (subst (λ k. find_entry k mail ≡ some e) (==→≡ _ _ same) found)

          none_left : (j : ℕ) → (row.id == j) ≡ true → senders j vs ≡ 0
          none_left j same = subst (λ k. senders k vs ≡ 0) (sym key ∙ ==→≡ _ _ same) alone

          unsent_before : (j : ℕ) → (row.id == j) ≡ true → sent_of (find_entry j mail) ≡ 0
          unsent_before j same = at_row sent_of j same ∙ rw (unsent e busy) refl

          own : find_entry w.0 (save_entry row mail) ≡ some row
          own =
              after w.0
              ∙ (let here : (row.id == w.0) ≡ true =
                    subst (λ k. (row.id == k) ≡ true) key (==-refl row.id) in
                  rw here refl)

          others :
              (u : Worker)
              → (u.1 ≡ count_of (find_entry u.0 mail)) × (1 ≤ u.1)
              → (u.0 == w.0) ≡ false
              → (u.1 ≡ count_of (find_entry u.0 (save_entry row mail))) × (1 ≤ u.1)
          others u k free =
              (let apart : (row.id == u.0) ≡ false = ground (arith, key) in
                (rw (after u.0, apart) k.0, k.1))

  -- A worker's attempt has a number that no other attempt on its entry has.
  pub no_attempt :
      (w : Worker) (vs : List Worker)
      → Taken w ws vs
      → (a : DeliveryAttempt) → a.notification_id ≡ w.0
      → a.attempt_no ≡ w.1
      → first
          (λ b. b.notification_id == a.notification_id && b.attempt_no == a.attempt_no)
          mail.attempts
        ≡ none
  no_attempt w vs t a of_key of_count =
      let (e, found, counted, busy, alone) = worker-found w vs t in
      All-first _ mail.attempts (
        All-mono _ _ mail.attempts
          (λ b k. elim (Bool-cases (b.notification_id == a.notification_id)) [
            | inr other ↦ rw other refl
            | inl same ↦
                let here : b.notification_id ≡ w.0 = ==→≡ _ _ same ∙ of_key in
                let below : b.attempt_no + senders w.0 ws ≤ count_of (find_entry w.0 mail) =
                  subst (λ j. b.attempt_no + senders j ws ≤ count_of (find_entry j mail)) here k in
                let one : senders w.0 ws ≡ 1 + senders w.0 vs =
                  senders-Taken w.0 t ∙ rw ==-refl refl in
                let count : count_of (find_entry w.0 mail) ≡ w.1 = ap count_of found ∙ counted in
                let less : (b.attempt_no == a.attempt_no) ≡ false =
                  ground (arith, below, one, count, of_count) in
                rw (same, less) refl
          ])
          h.numbered)

-- What an answer writes, as the proofs read it.
pub outcome_columns :
    (answer : Option Text) (e : OutboxEntry) (i k at : ℕ)
    → ((outcome_entry answer e at).id ≡ e.id)
      × ((outcome_entry answer e at).attempt_count ≡ e.attempt_count)
      × (is_sending (outcome_entry answer e at).status ≡ false)
      × (is_sent (outcome_entry answer e at).status ≡ (outcome_attempt answer i k at).is_success)
      × ((outcome_attempt answer i k at).notification_id ≡ i)
      × ((outcome_attempt answer i k at).attempt_no ≡ k)
outcome_columns none e i k at = (refl, refl, refl, refl, refl, refl)
outcome_columns (some error) e i k at = (refl, refl, refl, refl, refl, refl)

pub create_attempt-Created :
    (a : DeliveryAttempt) (s : Mail)
    → first (λ b. b.notification_id == a.notification_id && b.attempt_no == a.attempt_no) s.attempts
      ≡ none
    → 1 ≤ a.attempt_no
    → Ends (λ _ t. t ≡ record s { attempts = create a s.attempts }) (λ _ _. ⊥) (create_attempt a s)
unfolding create_attempt
create_attempt-Created a s free low = then_gets _ _ s (
    then_allowed _ _ _ s (rw free refl)
      (then_allowed _ _ _ s (ground (arith, low)) (Ends-modify _ s refl)))
