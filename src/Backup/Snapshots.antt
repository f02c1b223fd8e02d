-- ===== src/Backup/Snapshots.antt =====
-- packages/engine/src/backup.ts: what is read of a snapshot, and the creation of one.
-- The clock reads `now` during a call.
pub mod Readings
use kintunnel.Base.{
  ℕ, ◌+◌, Bool, true, false, not, ◌&&◌, ◌||◌, Option, none, some, List, [], ◌∷◌, ◌++◌, find, length,
  if◌then◌else◌, Text, lit, text_eq, join,
}
use kintunnel.Base.Failure.{Failure, Result, err, ok}
use kintunnel.Types.{EngineConfig, EngineState, AuditAction, MetaValue}
use kintunnel.Types.Results.{ReconcileResult}
use kintunnel.Platform.{Platform}
use kintunnel.State.Context.{Context, EventInput, append_event, Outcome}
use kintunnel.Host.{Host, message_of}
use kintunnel.Host.Events.{Live}
use kintunnel.Host.Acts.{Attempt, threw, gave, thrown_message}
use kintunnel.Reconcile.{reconcile}
use kintunnel.Store.{World, File, StoredState, holds, unreadable, load, save}
use kintunnel.Backup.{
  BackupErrorCode, Stop, backup_error, other, Trigger, SnapshotFile, BackupManifest, ManifestFile,
  no_manifest, bad_manifest, manifest, Snapshot, Codec,
}

pub record Site (H : Type 0) : Type 0 where
  pub world : World
  pub host : H
  pub snapshots : List Snapshot

pub data Answer (A : Type 0) : Type 0 where
  stopped : Stop → Answer A
  done : A → Answer A

not_found : Text → Text → Stop
not_found what id = backup_error BackupErrorCode.snapshot_not_found (what ++ id)

unfoldable pub snapshot_with : Text → List Snapshot → Option Snapshot
snapshot_with id snaps = find (λ s. text_eq s.id id) snaps

manifest_of : Text → ManifestFile → Answer BackupManifest
unfolding not_found
manifest_of id no_manifest = stopped (not_found (lit "Snapshot not found: ") id)
manifest_of id (bad_manifest text complaint) =
    stopped
      (backup_error BackupErrorCode.io_error (lit "Manifest is not valid JSON: " ++ complaint))
manifest_of id (manifest m) = done m

-- There is no such file in a directory that is missing.
abbrev manifest_file_of : Option Snapshot → ManifestFile
manifest_file_of none = no_manifest
manifest_file_of (some s) = s.manifest_file

unfoldable pub read_snapshot_manifest : Text → List Snapshot → Answer BackupManifest
unfolding manifest_of
read_snapshot_manifest id snaps = manifest_of id (manifest_file_of (snapshot_with id snaps))

abbrev pub state_of : Option Snapshot → Option Text
state_of none = none
state_of (some s) = s.state_bytes

unfoldable pub bytes_of : Text → Option Text → Answer Text
unfolding not_found
bytes_of id none = stopped (not_found (lit "Snapshot state missing: ") id)
bytes_of id (some bytes) = done bytes

unfoldable pub read_snapshot_state_bytes : Text → List Snapshot → Answer Text
unfolding bytes_of
read_snapshot_state_bytes id snaps = bytes_of id (state_of (snapshot_with id snaps))

-- `manifest.files[0]?.sha256`
abbrev pub expected_sha : BackupManifest → Option Text
expected_sha m = by m.files
  where
    by : List SnapshotFile → Option Text
    by [] = none
    by (f ∷ fs) = some f.sha256

-- `!expectedSha || expectedSha !== actualSha`
unfoldable pub mismatches : Option Text → Text → Bool
mismatches none actual = true
mismatches (some []) actual = true
mismatches (some (c ∷ s)) actual = not (text_eq (c ∷ s) actual)

abbrev pub shown_sha : Option Text → Text
shown_sha none = lit "<unset>"
shown_sha (some s) = s

module _ (k : Codec) where
  mismatch : Text → Option Text → Text → Stop
  mismatch id expected actual = backup_error BackupErrorCode.checksum_mismatch (
      lit "Snapshot "
      ++ (id
          ++ (lit " failed checksum verification (expected "
              ++ (shown_sha expected ++ (lit ", got " ++ (actual ++ lit ")"))))))

  checked_bytes : Text → Answer BackupManifest → Answer Text → Answer Text
  unfolding mismatch
  checked_bytes id (stopped e) bytes = stopped e
  checked_bytes id (done m) (stopped e) = stopped e
  checked_bytes id (done m) (done bytes) =
      if mismatches (expected_sha m) (k.sha256_hex bytes)
      then stopped (mismatch id (expected_sha m) (k.sha256_hex bytes))
      else done bytes

  -- The bytes of a snapshot's state, if the manifest has their checksum.
  unfoldable pub verified_bytes : Text → List Snapshot → Answer Text
  unfolding checked_bytes
  verified_bytes id snaps =
      checked_bytes id (read_snapshot_manifest id snaps) (read_snapshot_state_bytes id snaps)

  new_manifest : Platform → ℕ → Text → Trigger → EngineState → BackupManifest
  new_manifest p now id trigger s = record {
    snapshot_id = id;
    engine_revision = s.revision;
    created_at = p.iso now;
    trigger = trigger;
    files =
        record {
          path = lit "state.json";
          size_bytes = k.size_of (k.print_state s);
          sha256 = k.sha256_hex (k.print_state s);
        }
        ∷ [];
    min_engine_version = k.version;
    max_engine_version = none;
  }

  unfoldable pub new_snapshot : Platform → ℕ → Text → Trigger → EngineState → Snapshot
  unfolding new_manifest
  new_snapshot p now id trigger s = record {
    id = id;
    mtime = now;
    manifest_file = manifest (new_manifest p now id trigger s);
    state_bytes = some (k.print_state s);
  }

  module _ {H : Type 0} where
    unfoldable pub took_snapshot :
        Platform
        → ℕ
        → Trigger
        → List Snapshot
        → H
        → Result EngineState × World
        → Answer Text × Site H
    unfolding new_snapshot
    took_snapshot p now trigger snaps x (err e, w) =
        (stopped (other e), record { world = w; host = x; snapshots = snaps })
    took_snapshot p now trigger snaps x (ok s, w) = (
      done (p.uuid w.drawn),
      record {
        world = record w { drawn = w.drawn + 1 };
        host = x;
        snapshots = snaps ++ new_snapshot p now (p.uuid w.drawn) trigger s ∷ [];
      },
    )

    -- `snapshotInternal`; the answer is the id of the new snapshot.
    unfoldable pub snapshot_internal :
        Platform → EngineConfig → ℕ → Trigger → Site H → Answer Text × Site H
    unfolding took_snapshot
    snapshot_internal p config now trigger site =
        took_snapshot p now trigger site.snapshots site.host (load p config now site.world)
