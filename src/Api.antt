-- ===== src/Api.antt =====
-- packages/engine/src/app.ts: what the API shows of the state, and the request to delete a person.
pub mod Views
use Prim.Native.Nat.{min, max}
use kintunnel.Base.{
  ℕ, Bool, true, false, not, ◌&&◌, Option, none, some, List, [], ◌∷◌, ◌++◌, map, find, keep, take,
  or_default, if◌then◌else◌, Text, lit, text_eq, ℤ, pos, negsuc, parse_int,
}
use kintunnel.Base.Failure.{Failure, Result, ok, err, ◌>>=◌}
use kintunnel.Types.{
  EngineState, EngineConfig, PeerRecord, PersonRecord, AuditEvent, AuditAction, Metadata,
  ApiPeerStatus, stored, PersonStatus,
}
use kintunnel.Platform.{Platform}
use kintunnel.Ip.{is_empty}
use kintunnel.Peers.{peer_api_status, is_deleted_status}
use kintunnel.State.Context.{is_peer, is_person, peer_not_found, person_not_found}
use kintunnel.State.Persons.{is_revocable, belongs_to, delete_person}
use kintunnel.Store.{World, load, update}
use kintunnel.Store.Calls.{Call, perform, status_text}

pub record PeerView : Type 0 where
  pub id : Text
  pub name : Text
  pub public_key : Text
  pub address_v4 : Text
  pub allowed_ips : List Text
  pub dns_servers : List Text
  pub persistent_keepalive : ℕ
  pub status : ApiPeerStatus
  pub expires_at : Option Text
  pub created_at : Text
  pub updated_at : Text
  pub revoked_at : Option Text
  pub deleted_at : Option Text
  pub person_id : Option Text
  pub device_label : Option Text

unfoldable pub sanitize_peer : Platform → ℕ → PeerRecord → PeerView
sanitize_peer p now peer = record {
  id = peer.id;
  name = peer.name;
  public_key = peer.public_key;
  address_v4 = peer.address_v4;
  allowed_ips = peer.allowed_ips;
  dns_servers = peer.dns_servers;
  persistent_keepalive = peer.persistent_keepalive;
  status = peer_api_status p now peer;
  expires_at = peer.expires_at;
  created_at = peer.created_at;
  updated_at = peer.updated_at;
  revoked_at = peer.revoked_at;
  deleted_at = peer.deleted_at;
  person_id = peer.person_id;
  device_label = peer.device_label;
}

pub record PersonView : Type 0 where
  pub id : Text
  pub display_name : Text
  pub notes : Option Text
  pub status : PersonStatus
  pub created_at : Text
  pub updated_at : Text

unfoldable pub sanitize_person : PersonRecord → PersonView
sanitize_person person = record {
  id = person.id;
  display_name = person.display_name;
  notes = person.notes;
  status = person.status;
  created_at = person.created_at;
  updated_at = person.updated_at;
}

pub record EventView : Type 0 where
  pub id : Text
  pub action : AuditAction
  pub actor : Text
  pub target_id : Option Text
  pub target_name : Option Text
  pub revision : ℕ
  pub created_at : Text
  pub metadata : Option Metadata

unfoldable pub sanitize_event : AuditEvent → EventView
sanitize_event event = record {
  id = event.id;
  action = event.action;
  actor = event.actor;
  target_id = event.target_id;
  target_name = event.target_name;
  revision = event.revision;
  created_at = event.created_at;
  metadata = event.metadata;
}

with_status : Option Text → List PeerRecord → List PeerRecord
with_status none peers = peers
with_status (some status) peers =
    if is_empty status
    then peers
    else keep (λ q. text_eq (status_text (stored q.status)) status) peers

-- `GET /peers`
unfoldable pub list_peers : Platform → ℕ → Option Text → EngineState → List PeerView
unfolding with_status
list_peers p now status s = map (sanitize_peer p now) (with_status status s.peers)

-- `GET /peers/:id`
unfoldable pub show_peer : Platform → ℕ → Text → EngineState → Result PeerView
show_peer p now id s = elim (find (is_peer id) s.peers) [
  | none ↦ err peer_not_found
  | some peer ↦
      if is_deleted_status peer.status then err peer_not_found else ok (sanitize_peer p now peer)
]

-- `GET /persons/:id/devices`
unfoldable pub list_devices : Platform → ℕ → Text → EngineState → Result (List PeerView)
list_devices p now id s = elim (find (is_person id) s.persons) [
  | none ↦ err person_not_found
  | some person ↦ ok (
      map (sanitize_peer p now)
        (keep (λ q. belongs_to person.id q && not (is_deleted_status q.status)) s.peers))
]

backwards : List AuditEvent → List AuditEvent
backwards [] = []
backwards (e ∷ es) = backwards es ++ e ∷ []

-- `Math.min(Math.max(limitRaw, 1), 100)`, 50 without a number
clamp : Option ℤ → ℕ
clamp none = 50
clamp (some (pos n)) = min (max n 1) 100
clamp (some (negsuc n)) = 1

abbrev limit_of : Option Text → Option ℤ
limit_of none = some (pos 50)
limit_of (some text) = parse_int text

-- `GET /events`
unfoldable pub list_events : Option Text → EngineState → List EventView
unfolding backwards clamp
list_events limit s =
    map sanitize_event (take (clamp (limit_of limit)) (backwards (or_default s.events [])))

pub data Deletion : Type 0 where
  deleted : PersonView → Deletion
  in_use : Deletion

abbrev answered : Result PersonRecord × World → Result Deletion × World
answered (err e, w) = (err e, w)
answered (ok person, w) = (ok (deleted (sanitize_person person)), w)

-- What other requests put into the write queue, each at its time.
unfoldable pub perform_each : Platform → EngineConfig → List (ℕ × Call) → World → World
perform_each p cfg [] w = w
perform_each p cfg ((now, call) ∷ calls) w = perform_each p cfg calls (perform p cfg now call w).1

unless_in_use :
    Platform
    → EngineConfig
    → Text
    → List (ℕ × Call)
    → ℕ
    → Result EngineState × World
    → Result Deletion × World
unfolding perform_each
unless_in_use p cfg id between later (err e, w) = (err e, w)
unless_in_use p cfg id between later (ok s, w) = elim (keep (is_revocable id) s.peers) [
  | [] ↦
      answered (update p cfg later (delete_person p id false later) (perform_each p cfg between w))
  | q ∷ qs ↦ (ok in_use, w)
]

-- `DELETE /persons/:id`: without `force`, a person with devices in use is refused. The devices are
-- those of a load outside the write queue; other calls may come between it and the deletion.
unfoldable pub delete_person_request :
    Platform
    → EngineConfig
    → Text
    → Bool
    → ℕ
    → List (ℕ × Call)
    → ℕ
    → World
    → Result Deletion × World
unfolding unless_in_use
delete_person_request p cfg id true now between later w =
    answered (update p cfg later (delete_person p id true later) (perform_each p cfg between w))
delete_person_request p cfg id false now between later w =
    unless_in_use p cfg id between later (load p cfg now w)
