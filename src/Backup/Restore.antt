-- ===== src/Backup/Restore.antt =====
-- packages/engine/src/backup.ts: the restore with its recovery.
-- The clock reads `now` during a call.
pub mod Recovery
use kintunnel.Base.{
  ℕ, ◌+◌, Bool, true, false, not, ◌&&◌, ◌||◌, Option, none, some, List, [], ◌∷◌, ◌++◌, find, length,
  if◌then◌else◌, Text, lit, text_eq, join,
}
use kintunnel.Base.Failure.{Failure, Result, err, ok}
use kintunnel.Types.{EngineConfig, EngineState, AuditAction, MetaValue}
use kintunnel.Types.Results.{ReconcileResult}
use kintunnel.Platform.{Platform}
use kintunnel.State.Context.{Context, EventInput, append_event, Outcome}
use kintunnel.Host.{Host, message_of}
use kintunnel.Host.Events.{Live}
use kintunnel.Host.Acts.{Attempt, threw, gave, thrown_message}
use kintunnel.Reconcile.{reconcile}
use kintunnel.Store.{World, File, StoredState, holds, unreadable, load, save}
use kintunnel.Backup.{
  BackupErrorCode, Stop, backup_error, other, Trigger, SnapshotFile, BackupManifest, ManifestFile,
  no_manifest, bad_manifest, manifest, Snapshot, Codec,
}
use kintunnel.Backup.Snapshots.{
  Site, Answer, stopped, done, read_snapshot_state_bytes, verified_bytes, snapshot_internal,
}

pub record RestoreResult : Type 0 where
  pub ok : Bool
  pub safety_snapshot_id : Option Text
  pub from_revision : Option ℕ
  pub applied : Bool
  pub reconciled : Bool
  pub error : Option Text

-- The state file with the bytes that were parsed.
abbrev pub file_of : Result StoredState → File
file_of (err e) = unreadable e
file_of (ok s) = holds s

abbrev id_or_null : Option Text → MetaValue
id_or_null none = MetaValue.null
id_or_null (some s) = MetaValue.text s

module _ {H : Type 0} (h : Host H) (k : Codec) (p : Platform) (config : EngineConfig)
    (now finished : ℕ) (id actor : Text) where
  restored_event : ℕ → Option Text → EventInput
  restored_event from safety = record {
    action = AuditAction.backup_restored;
    actor = some actor;
    target_id = some id;
    target_name = none;
    created_at = p.iso now;
    metadata = some (
        (lit "snapshot_id", MetaValue.text id)
        ∷ (lit "from_revision", MetaValue.number from)
        ∷ (lit "safety_snapshot_id", id_or_null safety)
        ∷ (lit "applied", MetaValue.flag true)
        ∷ []);
  }

  failed_event : Text → Text → EventInput
  failed_event safety message = record {
    action = AuditAction.backup_restore_failed;
    actor = some actor;
    target_id = some id;
    target_name = none;
    created_at = p.iso now;
    metadata = some (
        (lit "snapshot_id", MetaValue.text id)
        ∷ (lit "error_code", MetaValue.text (lit "restore_failed"))
        ∷ (lit "error_message", MetaValue.text message)
        ∷ (lit "safety_snapshot_id", MetaValue.text safety)
        ∷ []);
  }

  -- The event is appended to the state that was loaded, and the state is saved.
  unfoldable pub save_with : EventInput → EngineState → World → Context × World
  save_with e s w =
      let c = append_event p e (record { state = s; sink = w.sink; drawn = w.drawn }) in
      (c, save c.state (record w { sink = c.sink; drawn = c.drawn }))

  -- The reconcile works on the state in memory; its events reach the sink and not the file.
  unfoldable pub reconcile_after : Context → World → H → Attempt ReconcileResult × World × H
  reconcile_after c w x =
      let (r, l) = reconcile h p now finished config (record { context = c; host = x }) in
      (r, record w { sink = l.context.sink; drawn = l.context.drawn }, l.host)

  -- `atomicWriteFile(config.statePath, bytes)`
  unfoldable pub write_state : Text → World → World
  write_state bytes w = record w { file = file_of (k.parse_state bytes) }

  recovered : Text → Text → Site H → Result EngineState × World → Site H
  unfolding failed_event
  recovered safety message site (err e, w) = record site { world = w }
  recovered safety message site (ok s, w) =
      let (c, w1) = save_with (failed_event safety message) s w in
      let (r, w2, x) = reconcile_after c w1 site.host in record site { world = w2; host = x }

  recover_bytes : Text → Text → Site H → Answer Text → Site H
  unfolding recovered
  recover_bytes safety message site (stopped e) = site
  recover_bytes safety message site (done bytes) =
      let w = write_state bytes site.world in
      recovered safety message (record site { world = w }) (load p config now w)

  -- The catch block: the state of the safety snapshot is put back.
  unfoldable pub recover : Option Text → Text → Site H → Site H
  unfolding recover_bytes
  recover none message site = site
  recover (some safety) message site =
      recover_bytes safety message site (read_snapshot_state_bytes safety site.snapshots)

  abbrev fail_with : Option Text → Failure → Site H → Answer RestoreResult × Site H
  fail_with safety e site = (stopped (other e), recover safety (message_of e) site)

  abbrev is_good : Attempt ReconcileResult → Bool
  is_good (threw e) = false
  is_good (gave r) = r.ok && r.applied

  abbrev complaint : Attempt ReconcileResult → Option Text
  complaint (threw e) =
      some (lit "Restored state, but post-restore reconcile failed: " ++ thrown_message e)
  complaint (gave r) =
      if r.ok
      then none
      else some (
          lit "Restored state, but post-restore reconcile reported errors: "
          ++ join (lit "; ") r.errors)

  after_write :
      Option Text → ℕ → Site H → Result EngineState × World → Answer RestoreResult × Site H
  unfolding restored_event
  after_write safety from site (err e, w) = fail_with safety e (record site { world = w })
  after_write safety from site (ok s, w) =
      let (c, w1) = save_with (restored_event from safety) s w in
      let (r, w2, x) = reconcile_after c w1 site.host in
      (
        done (record {
          ok = true;
          safety_snapshot_id = safety;
          from_revision = some from;
          applied = true;
          reconciled = is_good r;
          error = complaint r;
        }),
        record site { world = w2; host = x },
      )

  swap : Option Text → Text → Site H → Result EngineState × World → Answer RestoreResult × Site H
  unfolding after_write
  swap safety bytes site (err e, w) = fail_with safety e (record site { world = w })
  swap safety bytes site (ok current, w) =
      let (ran, x) = h.run (lit "wg-quick") (lit "down" ∷ config.interface_name ∷ []) site.host in
      let w1 = write_state bytes w in
      after_write safety current.revision (record site { world = w1; host = x })
        (load p config now w1)

  with_safety : Text → Answer Text × Site H → Answer RestoreResult × Site H
  unfolding swap
  with_safety bytes (stopped e, site) = (stopped e, site)
  with_safety bytes (done safety, site) =
      swap (some safety) bytes site (load p config now site.world)

  restore_bytes : Bool → Bool → Site H → Answer Text → Answer RestoreResult × Site H
  unfolding with_safety
  restore_bytes apply force site (stopped e) = (stopped e, site)
  restore_bytes false force site (done bytes) = (
    done (record {
      ok = true;
      safety_snapshot_id = none;
      from_revision = none;
      applied = false;
      reconciled = false;
      error = none;
    }),
    site,
  )
  restore_bytes true true site (done bytes) = swap none bytes site (load p config now site.world)
  restore_bytes true false site (done bytes) =
      with_safety bytes (snapshot_internal k p config now Trigger.pre_rotate site)

  unfoldable pub backup_restore : Bool → Bool → Site H → Answer RestoreResult × Site H
  unfolding restore_bytes
  backup_restore apply force site =
      restore_bytes apply force site (verified_bytes k id site.snapshots)
