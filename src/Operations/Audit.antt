-- ===== src/Operations/Audit.antt =====
-- apps/operations/audit.py, over `AuditChainState` and `AuditEvent` of apps/operations/models.py.
-- What `json.dumps`, SHA-256 and `isoformat` make of their arguments is a parameter, as is the type
-- of the metadata, where `None` stands for the empty dictionary.
use visio_backend.Prelude.{
  ℕ, ◌+◌, Bool, true, false, not, ◌||◌, Option, none, some, List, [], ◌∷◌, ◌==◌, if◌then◌else◌, ltb,
  leb, Text, text_eq, strip, is_empty, first, create, update, order_by, Action, pure, gets, modify,
  raise_if, atomic, ◌>>=◌, ◌>>◌, value_error, integrity_error,
}
use visio_backend.Database.Accounts.{User}
use visio_backend.Checkout.Sessions.{is_there}

-- the dictionary that `_canonical_payload` prints
pub record Payload (M : Type 0) : Type 0 where
  pub sequence : ℕ
  pub actor_id : Option ℕ
  pub actor_email : Text
  pub action : Text
  pub object_type : Text
  pub object_id : Text
  pub summary : Text
  pub metadata : M
  pub previous_hash : Text
  pub created_at_iso : Text

-- `json.dumps(..., sort_keys=True, ...)`, `hashlib.sha256(...).hexdigest()` and `isoformat()`
pub record Encoding (M : Type 0) : Type 0 where
  pub dumps : Payload M → Text
  pub sha256 : Text → Text
  pub isoformat : ℕ → Text

pub record AuditEvent (M : Type 0) : Type 0 where
  pub sequence : ℕ
  pub actor_id : Option ℕ
  pub actor_email_snapshot : Text
  pub action : Text
  pub object_type : Text
  pub object_id : Text
  pub summary : Text
  pub metadata : M
  pub previous_hash : Text
  pub event_hash : Text
  pub created_at : ℕ

pub record AuditChainState : Type 0 where
  pub last_sequence : ℕ
  pub last_hash : Text

-- the two tables: the row of `AuditChainState` with key 1, and the events
pub record AuditLog (M : Type 0) : Type 0 where
  pub chain : Option AuditChainState
  pub events : List (AuditEvent M)

pub data Verdict : Type 0 where
  fine no_events state_missing state_sequence_mismatch state_hash_mismatch : Verdict
  sequence_gap previous_hash_mismatch event_hash_mismatch : ℕ → Verdict

abbrev pub new_chain : AuditChainState
new_chain = record { last_sequence = 0; last_hash = [] }

-- what `get_or_create(pk=1)` leaves
abbrev pub chain_of : Option AuditChainState → AuditChainState
chain_of none = new_chain
chain_of (some state) = state

abbrev pub actor_key : Option User → Option ℕ
actor_key none = none
actor_key (some actor) = some actor.id

abbrev pub actor_mail : Option User → Text
actor_mail none = []
actor_mail (some actor) = actor.email

-- the end of `verify_audit_chain`, after its loop
abbrev pub verify_state : Option AuditChainState → Text → ℕ → Bool × Verdict
verify_state none previous_hash expected_sequence =
    if expected_sequence == 1 then (true, no_events) else (false, state_missing)
verify_state (some state) previous_hash expected_sequence =
    if not (state.last_sequence + 1 == expected_sequence)
    then (false, state_sequence_mismatch)
    else (if not (text_eq state.last_hash previous_hash)
        then (false, state_hash_mismatch)
        else (true, fine))

module _ {M : Type 0} where
  -- the event that `append_audit_event` makes, before its hash is known
  abbrev pub draft :
      Option User → Text → Text → Text → Text → M → AuditChainState → ℕ → AuditEvent M
  draft actor action object_type object_id summary metadata state now = record {
    sequence = state.last_sequence + 1;
    actor_id = actor_key actor;
    actor_email_snapshot = actor_mail actor;
    action = action;
    object_type = object_type;
    object_id = object_id;
    summary = summary;
    metadata = metadata;
    previous_hash = state.last_hash;
    event_hash = [];
    created_at = now;
  }

  -- `AuditEvent.objects.create(...)`, with the unique columns and the constraints of the table
  unfoldable pub create_event : AuditEvent M → Action (AuditLog M) (Unit {0})
  create_event event = do
    raise_if (is_there (← gets (λ log. first (λ x. x.sequence == event.sequence) log.events)))
        integrity_error
    raise_if
        (is_there (← gets (λ log. first (λ x. text_eq x.event_hash event.event_hash) log.events)))
        integrity_error
    raise_if (not (ltb 0 event.sequence) || is_empty event.event_hash) integrity_error
    modify (λ log. record log { events = create event log.events })

  -- `state.save(...)` after the event is created
  abbrev pub advanced : AuditEvent M → AuditLog M → AuditLog M
  advanced event log = record log {
    chain = some (record { last_sequence = event.sequence; last_hash = event.event_hash });
  }

  -- `AuditEvent.objects.order_by("sequence")`
  abbrev pub in_order : AuditLog M → List (AuditEvent M)
  in_order log = order_by (λ x y. leb x.sequence y.sequence) log.events

module _ {M : Type 0} (e : Encoding M) where
  -- `_hash_payload(_canonical_payload(...))`
  abbrev pub hash_payload : Payload M → Text
  hash_payload p = e.sha256 (e.dumps p)

  -- the payload of a stored event, as `verify_audit_chain` makes it
  abbrev pub payload_of : AuditEvent M → Payload M
  payload_of event = record {
    sequence = event.sequence;
    actor_id = event.actor_id;
    actor_email = event.actor_email_snapshot;
    action = event.action;
    object_type = event.object_type;
    object_id = event.object_id;
    summary = event.summary;
    metadata = event.metadata;
    previous_hash = event.previous_hash;
    created_at_iso = e.isoformat event.created_at;
  }

  abbrev pub sealed : AuditEvent M → AuditEvent M
  sealed event = record event { event_hash = hash_payload (payload_of event) }

  unfoldable pub append_audit_event :
      Option User → Text → Text → Text → Text → M → ℕ → Action (AuditLog M) (AuditEvent M)
  append_audit_event actor action object_type object_id summary metadata now = do
    raise_if
        (is_empty (strip action)
          || is_empty (strip object_type)
          || is_empty (strip object_id)
          || is_empty (strip summary))
        value_error
    atomic do
      modify (λ log. record log { chain = some (chain_of log.chain) })
      state ← gets (λ log. chain_of log.chain)
      let event = sealed (
          draft actor (strip action) (strip object_type) (strip object_id) (strip summary) metadata
            state now)
      create_event event
      modify (advanced event)
      pure event

  abbrev pub verify_events :
      List (AuditEvent M) → Option AuditChainState → Text → ℕ → Bool × Verdict
  verify_events [] chain previous_hash expected_sequence =
      verify_state chain previous_hash expected_sequence
  verify_events (event ∷ events) chain previous_hash expected_sequence =
      let rest = verify_events events chain event.event_hash (expected_sequence + 1) in
      if not (event.sequence == expected_sequence)
      then (false, sequence_gap expected_sequence)
      else (if not (text_eq event.previous_hash previous_hash)
          then (false, previous_hash_mismatch event.sequence)
          else (if not (text_eq event.event_hash (hash_payload (payload_of event)))
              then (false, event_hash_mismatch event.sequence)
              else rest))

  abbrev pub verify_audit_chain : AuditLog M → Bool × Verdict
  verify_audit_chain log = verify_events (in_order log) log.chain [] 1

abbrev pub is_actor : ℕ → Option ℕ → Bool
is_actor user_id none = false
is_actor user_id (some i) = i == user_id

-- `on_delete=models.SET_NULL` of `AuditEvent.actor`, when the user is deleted
abbrev pub forget_actor : {M : Type 0} → ℕ → AuditLog M → AuditLog M
forget_actor user_id log = record log {
  events = update (λ x. is_actor user_id x.actor_id) (λ x. record x { actor_id = none }) log.events;
}
