-- ===== src/State/Context.antt =====
-- What a mutation of the store works on, and `appendEvent`.
-- A mutation that throws leaves the loaded state unsaved; what it handed to the audit sink and the
-- random ids that it drew are not taken back, so the context comes back beside the error.
use kintunnel.Base.{
  ℕ, ◌+◌, Bool, Option, some, List, [], ◌∷◌, ◌++◌, or_default, last_n, Text, lit, text_eq,
}
use kintunnel.Base.Failure.{Failure, Result, validation}
use kintunnel.Types.{EngineState, PeerRecord, PersonRecord, AuditEvent, AuditAction, Metadata}
use kintunnel.Platform.{Platform}

pub record Context : Type 0 where
  pub state : EngineState
  pub sink : List AuditEvent
  pub drawn : ℕ

abbrev pub max_audit_events : ℕ
max_audit_events = 250

pub record EventInput : Type 0 where
  pub action : AuditAction
  pub actor : Option Text
  pub target_id : Option Text
  pub target_name : Option Text
  pub created_at : Text
  pub metadata : Option Metadata

-- The record that `appendEvent` builds.
unfoldable pub event_record : Platform → EventInput → Context → AuditEvent
event_record p e c = record {
  id = p.uuid c.drawn;
  action = e.action;
  actor = or_default e.actor (lit "engine");
  target_id = e.target_id;
  target_name = e.target_name;
  revision = c.state.revision;
  created_at = e.created_at;
  metadata = e.metadata;
}

-- The event log keeps the last `max_audit_events` entries; the sink gets every one.
unfoldable pub append_event : Platform → EventInput → Context → Context
unfolding event_record
append_event p e c = record {
  state = record c.state {
    events =
        some (last_n max_audit_events (or_default c.state.events [] ++ event_record p e c ∷ []));
  };
  sink = c.sink ++ event_record p e c ∷ [];
  drawn = c.drawn + 1;
}

abbrev pub bump : EngineState → EngineState
bump s = record s { revision = s.revision + 1 }

abbrev pub Outcome : Type 0 → Type 0
Outcome A = Result A × Context

-- `throw new ValidationError("Request validation failed.", { [field]: [complaint] })`
unfoldable pub invalid : Text → Text → Failure
invalid field complaint =
    validation (lit "Request validation failed.") ((field, complaint ∷ []) ∷ [])

unfoldable pub peer_not_found : Failure
peer_not_found = validation (lit "Peer not found.") ((lit "id", lit "not found" ∷ []) ∷ [])

unfoldable pub person_not_found : Failure
person_not_found = validation (lit "Person not found.") ((lit "id", lit "not found" ∷ []) ∷ [])

abbrev pub is_peer : Text → PeerRecord → Bool
is_peer id peer = text_eq peer.id id

abbrev pub is_person : Text → PersonRecord → Bool
is_person id person = text_eq person.id id
