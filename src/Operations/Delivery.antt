-- ===== src/Operations/Delivery.antt =====
-- Many workers that dispatch the notifications of one outbox (apps/operations/notifications.py): each
-- claims an entry, calls the sender, and settles it, in any interleaving; a worker may also die.
use visio_backend.Prelude.{
  ℕ, ◌≡◌, refl, sym, ◌∙◌, subst, Bool, true, false, Option, none, some, List, ◌∷◌, ◌==◌, ==→≡,
  arith, Text, create, first-test, Error, Result, ok, err, Ends, Ends-ok, Ends-mono, Ends-pure,
  Ends-bind, Ends-atomic, then_modify, then_gets, then_or_raise, then_found, then_raise_if,
}
use visio_backend.Operations.Dispatch.{
  OutboxEntry, Mail, is_sent, find_entry, save_entry, claimed, claim_entry, claim, outcome_entry,
  outcome_attempt, settle_delivery,
}
use visio_backend.Operations.Workers.{Worker, Taken, IsSound, All-Taken}
use visio_backend.Operations.Soundness.{
  claimed-IsSound, dead-IsSound, worker-found, settled-IsSound, no_attempt, outcome_columns,
  create_attempt-Created,
}

pub record World : Type 0 where
  pub mail : Mail
  pub workers : List Worker

pub data Step : World → World → Type 0 where
  claims :
      {mail left : Mail} {ws : List Worker} {n : OutboxEntry} (i now : ℕ) (found : OutboxEntry)
      → claim i now mail ≡ (ok (found, some n), left)
      → Step
          (record { mail = mail; workers = ws })
          (record { mail = left; workers = (n.id, n.attempt_count) ∷ ws })
  finds_sent :
      {mail left : Mail} {ws : List Worker} (i now : ℕ) (found : OutboxEntry)
      → claim i now mail ≡ (ok (found, none), left)
      → Step (record { mail = mail; workers = ws }) (record { mail = left; workers = ws })
  is_refused :
      {mail left : Mail} {ws : List Worker} (i now : ℕ) (e : Error)
      → claim i now mail ≡ (err e, left)
      → Step (record { mail = mail; workers = ws }) (record { mail = left; workers = ws })
  settles :
      {mail left : Mail} {ws vs : List Worker} (w : Worker) (answer : Option Text) (at : ℕ)
      (r : Result OutboxEntry)
      → Taken w ws vs
      → settle_delivery answer w.0 w.1 at mail ≡ (r, left)
      → Step (record { mail = mail; workers = ws }) (record { mail = left; workers = vs })
  dies :
      {mail : Mail} {ws vs : List Worker} (w : Worker)
      → Taken w ws vs
      → Step (record { mail = mail; workers = ws }) (record { mail = mail; workers = vs })

pub data Steps : World → World → Type 0 where
  stop : {w : World} → Steps w w
  step : {u v w : World} → Step u v → Steps v w → Steps u w

-- From a sound store, a worker that settles its entry never fails, whatever the sender answered,
-- and leaves it sound.
pub settle_delivery-IsSound :
    (mail : Mail) (ws : List Worker)
    → IsSound mail ws
    → (w : Worker) (vs : List Worker) (answer : Option Text) (at : ℕ) → Taken w ws vs
    → Ends (λ _ left. IsSound left vs) (λ _ _. ⊥) (settle_delivery answer w.0 w.1 at mail)
unfolding settle_delivery
settle_delivery-IsSound mail ws h w vs answer at t =
    let (e, found, counted, busy, alone) = worker-found mail ws h w vs t in
    let named : e.id ≡ w.0 =
      ==→≡ _ _ (first-test (λ (n : OutboxEntry). n.id == w.0) mail.entries e found) in
    let a = outcome_attempt answer e.id w.1 at in
    let row = outcome_entry answer e at in
    let columns = outcome_columns answer e e.id w.1 at in
    let low = (All-Taken _ t h.current).0.1 in
    Ends-atomic _ mail (
      then_gets _ _ mail (
        then_found _ _ _ mail e found (
          then_modify _ _ mail (
            Ends-bind
              (λ _ left. left ≡ record (save_entry row mail) { attempts = create a mail.attempts })
              _ _ _
              (create_attempt-Created a (save_entry row mail)
                (no_attempt mail ws h w vs t a (columns.4 ∙ named) columns.5)
                (omega (arith, low, columns.5)))
              λ _ left made. Ends-pure row left (
                subst (λ m. IsSound m vs) (sym made)
                  (settled-IsSound mail ws h w vs row a t (columns.0 ∙ named) (columns.1 ∙ counted)
                    columns.2 columns.3 (columns.4 ∙ named) columns.5))))))

-- What a claim leaves: a sound store with one more worker, or the store as it was.
abbrev Claimed : List Worker → Mail → OutboxEntry × Option OutboxEntry → Mail → Type 0
Claimed ws mail (found, none) left = left ≡ mail
Claimed ws mail (found, some n) left = IsSound left ((n.id, n.attempt_count) ∷ ws)

claim_entry-IsSound :
    (mail : Mail) (ws : List Worker) (e : OutboxEntry) (b : Bool) (now : ℕ)
    → IsSound mail ws
    → find_entry e.id mail ≡ some e
    → is_sent e.status ≡ b
    → Ends
        (λ o left. Claimed ws mail (e, o) left)
        (λ _ left. left ≡ mail)
        (claim_entry b e now mail)
unfolding claim_entry
claim_entry-IsSound mail ws e true now h found is = Ends-pure none mail refl
claim_entry-IsSound mail ws e false now h found unsent =
    then_raise_if _ _ _ mail (λ _. refl)
      λ idle.
        then_raise_if _ _ _ mail (λ _. refl)
          λ _.
            then_modify _ _ mail (
              Ends-pure (some (claimed e now)) _
                (claimed-IsSound mail ws h e now found unsent idle))

claim-IsSound :
    (mail : Mail) (ws : List Worker) (i now : ℕ)
    → IsSound mail ws
    → Ends (Claimed ws mail) (λ _ left. left ≡ mail) (claim i now mail)
unfolding claim
claim-IsSound mail ws i now h = Ends-atomic _ mail (
    then_gets _ _ mail (
      then_or_raise _ _ _ mail (λ _. refl)
        λ e found.
          let named : e.id ≡ i =
            ==→≡ _ _ (first-test (λ (n : OutboxEntry). n.id == i) mail.entries e found) in
          Ends-bind (λ o. Claimed ws mail (e, o)) _ _ mail
            (Ends-mono _ _ _ _ _ (λ _ _ k. k) (λ _ _ _. refl)
              (claim_entry-IsSound mail ws e (is_sent e.status) now h
                (subst (λ j. find_entry j mail ≡ some e) (sym named) found) refl))
            λ o left k. Ends-pure (e, o) left k))

Ends-err :
    {S A : Type 0} {Q : A → S → Type 0} {E : Error → S → Type 0} {r : Result A × S}
    → Ends Q E r
    → (x : Error) (s : S) → r ≡ (err x, s)
    → E x s
Ends-err h x s e = (rw e at h).at

Step-IsSound : (u v : World) → Step u v → IsSound u.mail u.workers → IsSound v.mail v.workers
Step-IsSound u v (claims i now found e) h = Ends-ok (claim-IsSound _ _ i now h) _ _ e
Step-IsSound u v (finds_sent i now found e) h =
    subst (λ m. IsSound m v.workers) (sym (Ends-ok (claim-IsSound _ _ i now h) _ _ e)) h
Step-IsSound u v (is_refused i now x e) h =
    subst (λ m. IsSound m v.workers) (sym (Ends-err (claim-IsSound _ _ i now h) _ _ e)) h
Step-IsSound u v (settles w answer at (ok r) t e) h =
    Ends-ok (settle_delivery-IsSound _ _ h w _ answer at t) _ _ e
Step-IsSound u v (settles w answer at (err x) t e) h =
    absurd (Ends-err (settle_delivery-IsSound _ _ h w _ answer at t) _ _ e)
Step-IsSound u v (dies w t) h = dead-IsSound _ _ h w _ t

-- From a sound world, whatever workers do in any order (claim an entry, find it sent, be refused,
-- settle the entry they have claimed by any answer of the sender, or die with it), the world stays
-- sound: an entry has at most one worker that sends it, and only while it is marked as being sent;
-- it is marked as sent if and only if an attempt on it has succeeded, and at most one ever does;
-- and the numbers of the attempts follow its count.
pub Steps-IsSound : (u v : World) → Steps u v → IsSound u.mail u.workers → IsSound v.mail v.workers
Steps-IsSound u v stop h = h
Steps-IsSound u v (step s rest) h = Steps-IsSound _ v rest (Step-IsSound u _ s h)
