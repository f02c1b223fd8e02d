-- ===== src/Store/Calls.antt =====
-- The calls that go through `StateStore.update`: the methods of `StateStore`, the two mutations of
-- packages/engine/src/app.ts, the export of a client's configuration and the record of a reconcile,
-- and the events that packages/engine/src/backup.ts records. A restore is none of them: it replaces
-- the file itself, and stands in Backup/Restore.
use kintunnel.Base.{ℕ, Bool, Option, none, some, List, [], ◌∷◌, if◌then◌else◌, Text, lit, find}
use kintunnel.Base.Failure.{Failure, Result, ok, err, ◌>>=◌}
use kintunnel.Types.{
  PeerRecord, PersonRecord, PersonStatus, AuditAction, MetaValue, EngineConfig, PeerStatus,
  ApiPeerStatus, stored, expired,
}
use kintunnel.Types.Results.{ReconcileResult}
use kintunnel.Platform.{Platform}
use kintunnel.Json.{Json}
use kintunnel.Peers.{is_peer_active, peer_api_status}
use kintunnel.Render.{render_client_config}
use kintunnel.State.Context.{Context, EventInput, append_event, bump, Outcome, is_peer}
use kintunnel.Host.Events.{append_events}
use kintunnel.State.Requests.{parse_peer_create, parse_person_create}
use kintunnel.State.Peers.{create_peer, delete_peer, revoke_peer}
use kintunnel.State.Persons.{
  PersonPatch, RevokedDevices, create_person, update_person, list_persons, delete_person,
  revoke_person_devices,
}
use kintunnel.State.Sweep.{SweepOptions, SweepResult, sweep_expired}
use kintunnel.Store.{World, update}

not_active : Failure
not_active =
    Failure.validation (lit "Peer not found.") ((lit "id", lit "not found or not active" ∷ []) ∷ [])

unfoldable pub status_text : ApiPeerStatus → Text
status_text (stored PeerStatus.active) = lit "active"
status_text (stored PeerStatus.disabled) = lit "disabled"
status_text (stored PeerStatus.revoked) = lit "revoked"
status_text (stored PeerStatus.deleted) = lit "deleted"
status_text expired = lit "expired"

exported_event : Platform → ℕ → PeerRecord → EventInput
unfolding status_text
exported_event p now peer = record {
  action = AuditAction.peer_config_exported;
  actor = none;
  target_id = some peer.id;
  target_name = some peer.name;
  created_at = p.iso now;
  metadata = some (
      (lit "format", MetaValue.text (lit "wireguard"))
      ∷ (lit "status", MetaValue.text (status_text (peer_api_status p now peer)))
      ∷ []);
}

-- The handler of `GET /peers/:id/config`: the event is there even when the rendering throws.
unfoldable pub export_config : Platform → Text → ℕ → Context → Outcome Text
unfolding exported_event not_active
export_config p id now c = elim (find (is_peer id) c.state.peers) [
  | none ↦ (err not_active, c)
  | some peer ↦
      if is_peer_active p now peer
      then (render_client_config peer c.state.server, append_event p (exported_event p now peer) c)
      else (err not_active, c)
]

pub reconciled_event : Platform → ℕ → ReconcileResult → EventInput
reconciled_event p now r = record {
  action = AuditAction.reconcile_completed;
  actor = none;
  target_id = none;
  target_name = none;
  created_at = p.iso now;
  metadata = some (
      (lit "ok", MetaValue.flag r.ok)
      ∷ (lit "dry_run", MetaValue.flag r.dry_run)
      ∷ (lit "applied", MetaValue.flag r.applied)
      ∷ (lit "active_peer_count", MetaValue.number r.active_peer_count)
      ∷ []);
}

-- The handler of `POST /reconcile`, after `reconcile` appended its events and returned or threw.
unfoldable pub record_reconcile :
    Platform → List EventInput → Result ReconcileResult → ℕ → Context → Outcome ReconcileResult
unfolding reconciled_event
record_reconcile p events (err e) now c = (err e, append_events p events c)
record_reconcile p events (ok r) now c =
    let after = append_events p events c in
    let s = bump (record after.state { last_reconcile = some r }) in
    (ok r, append_event p (reconciled_event p now r) (record after { state = s }))

pub data Call : Type 0 where
  peer_create : Option Json → Call
  peer_delete : Text → Call
  peer_revoke : Text → Call
  peer_export : Text → Call
  expiry_sweep : SweepOptions → Call
  person_create : Option Json → Call
  person_update : Text → PersonPatch → Call
  person_list : Option PersonStatus → Call
  person_delete : Text → Bool → Call
  person_revoke : Text → Option Text → Call
  reconciled : List EventInput → Result ReconcileResult → Call
  backup_recorded : List EventInput → Call

pub data Reply : Type 0 where
  peer : PeerRecord → Reply
  person : PersonRecord → Reply
  persons : List PersonRecord → Reply
  devices : RevokedDevices → Reply
  swept : SweepResult → Reply
  config : Text → Reply
  report : ReconcileResult → Reply
  recorded : Reply

abbrev pub replies : {A : Type 0} → (A → Reply) → Outcome A → Outcome Reply
replies f (ok a, c) = (ok (f a), c)
replies f (err e, c) = (err e, c)

-- The mutation of `backupCreate`, `backupDelete` and `backupImport`, which append their events.
unfoldable pub record_backup : Platform → List EventInput → Context → Outcome Unit
record_backup p events c = (ok tt, append_events p events c)

-- The mutation that a call hands to `update`, once its body is parsed.
unfoldable pub mutation : Platform → EngineConfig → ℕ → Call → Result (Context → Outcome Reply)
mutation p cfg now (peer_create input) = do
  body ← parse_peer_create p now input
  ok (λ c. replies peer (create_peer p cfg body now c))
mutation p cfg now (peer_delete id) = ok (λ c. replies peer (delete_peer p id now c))
mutation p cfg now (peer_revoke id) = ok (λ c. replies peer (revoke_peer p id now c))
mutation p cfg now (peer_export id) = ok (λ c. replies config (export_config p id now c))
mutation p cfg now (expiry_sweep opts) = ok (λ c. replies swept (sweep_expired p opts now c))
mutation p cfg now (person_create input) = do
  body ← parse_person_create input
  ok (λ c. replies person (create_person p body now c))
mutation p cfg now (person_update id patch) =
    ok (λ c. replies person (update_person p id patch now c))
mutation p cfg now (person_list status) = ok (λ c. replies persons (list_persons status c))
mutation p cfg now (person_delete id force) =
    ok (λ c. replies person (delete_person p id force now c))
mutation p cfg now (person_revoke id actor) =
    ok (λ c. replies devices (revoke_person_devices p id actor now c))
mutation p cfg now (reconciled events r) =
    ok (λ c. replies report (record_reconcile p events r now c))
mutation p cfg now (backup_recorded events) =
    ok (λ c. replies (λ _. recorded) (record_backup p events c))

unfoldable pub run_mutation :
    Platform → EngineConfig → ℕ → World → Result (Context → Outcome Reply) → Result Reply × World
run_mutation p cfg now w (err e) = (err e, w)
run_mutation p cfg now w (ok m) = update p cfg now m w

-- A body that does not parse is refused before the state is loaded.
unfoldable pub perform : Platform → EngineConfig → ℕ → Call → World → Result Reply × World
unfolding run_mutation
perform p cfg now call w = run_mutation p cfg now w (mutation p cfg now call)

-- The worlds that calls lead to, each at its own time.
pub data History (p : Platform) (cfg : EngineConfig) (start : World) : World → Type 0 where
  begin : History p cfg start start
  then_call :
      {w : World}
      → History p cfg start w
      → (now : ℕ) (call : Call) → History p cfg start (perform p cfg now call w).1
