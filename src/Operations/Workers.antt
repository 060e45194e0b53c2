-- ===== src/Operations/Workers.antt =====
-- The workers that dispatch from the outbox of apps/operations/notifications.py, and the
-- well-formedness of the outbox beside them.
use visio_backend.Prelude.{
  ℕ, ◌+◌, ◌≤◌, ◌≡◌, refl, ◌∙◌, subst, false, ◌&&◌, Option, none, some, List, [], ◌∷◌, ◌==◌, ==→≡,
  if◌then◌else◌, arith, Bool-cases, inl, inr, aggregate, first-save, All,
}
use visio_backend.Operations.Dispatch.{
  OutboxEntry, Mail, is_sent, is_sending, find_entry, save_entry,
}

-- A worker between its two transactions: the entry and the number of its attempt.
abbrev pub Worker : Type 0
Worker = ℕ × ℕ

-- One worker is taken out.
pub data Taken (x : Worker) : List Worker → List Worker → Type 0 where
  here : {xs : List Worker} → Taken x (x ∷ xs) xs
  there : {y : Worker} {xs ys : List Worker} → Taken x xs ys → Taken x (y ∷ xs) (y ∷ ys)

-- how many workers send an entry
abbrev pub senders : ℕ → List Worker → ℕ
senders i [] = 0
senders i (w ∷ ws) = (if w.0 == i then 1 else 0) + senders i ws

-- how many attempts on an entry have succeeded
abbrev pub successes : ℕ → Mail → ℕ
successes i mail = aggregate (λ a. a.notification_id == i && a.is_success) (λ _. 1) mail.attempts

abbrev pub count_of : Option OutboxEntry → ℕ
count_of none = 0
count_of (some n) = n.attempt_count

abbrev pub sending_of : Option OutboxEntry → ℕ
sending_of none = 0
sending_of (some n) = if is_sending n.status then 1 else 0

abbrev pub sent_of : Option OutboxEntry → ℕ
sent_of none = 0
sent_of (some n) = if is_sent n.status then 1 else 0

-- An entry has a worker only while it is being sent, and at most one; it is sent if and only if one
-- attempt on it has succeeded, and no more than one ever does; the numbers of its attempts are at
-- most its count, and below it while a worker is about to write the last; and a worker has the
-- number that the count gave it.
pub record IsSound (mail : Mail) (ws : List Worker) : Type 0 where
  pub single : (i : ℕ) → senders i ws ≤ sending_of (find_entry i mail)
  pub once : (i : ℕ) → successes i mail ≡ sent_of (find_entry i mail)
  pub numbered :
      All
        (λ a.
          a.attempt_no + senders a.notification_id ws
          ≤ count_of (find_entry a.notification_id mail))
        mail.attempts
  pub current : All (λ w. (w.1 ≡ count_of (find_entry w.0 mail)) × (1 ≤ w.1)) ws

-- A saved row is found by its key, if it was there; others are found as before.
pub found_after :
    (row old : OutboxEntry) (i : ℕ) (mail : Mail)
    → find_entry row.id mail ≡ some old
    → find_entry i (save_entry row mail) ≡ (if row.id == i then some row else find_entry i mail)
found_after row old i mail found =
    first-save (λ (n : OutboxEntry). n.id) i row mail.entries ∙ elim (Bool-cases (row.id == i)) [
      | inl t ↦ rw t (
          of_found (find_entry i mail)
            (subst (λ j. find_entry j mail ≡ some old) (==→≡ _ _ t) found))
      | inr f ↦ rw f refl
    ]
  where
    of_found :
        (o : Option OutboxEntry)
        → o ≡ some old
        → elim o [ none ↦ none | some _ ↦ some row ] ≡ some row
    of_found none h = absurd (cc)
    of_found (some n) h = refl

pub senders-Taken :
    (i : ℕ) {w : Worker} {ws vs : List Worker}
    → Taken w ws vs
    → senders i ws ≡ (if w.0 == i then 1 else 0) + senders i vs
senders-Taken i here = refl
senders-Taken i (there t) = omega (arith, senders-Taken i t)

pub All-Taken :
    (P : Worker → Type 0) {w : Worker} {ws vs : List Worker}
    → Taken w ws vs
    → All P ws
    → P w × All P vs
All-Taken P here h = h
All-Taken P (there t) h = let rest = All-Taken P t h.1 in (rest.0, (h.0, rest.1))

-- With no sender of an entry, no worker has it.
pub senders-zero : (i : ℕ) (ws : List Worker) → senders i ws ≡ 0 → All (λ w. (w.0 == i) ≡ false) ws
senders-zero i [] h = tt
senders-zero i (w ∷ ws) h = (ground (arith, h), senders-zero i ws (omega (arith, h)))
