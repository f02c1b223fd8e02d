-- ===== src/Backup.antt =====
-- packages/engine/src/backup.ts: snapshots of the state, their retention, and the restore.
-- The lock of the backup directory is taken to be free. A directory holds its snapshots in the order
-- in which it lists them; a file in it is there or missing, and writes and removals succeed.
pub mod Diff
pub mod Changes
pub mod Retention
pub mod Snapshots
pub mod Restore
pub mod Plan
pub mod Manage
use kintunnel.Base.{
  ℕ, Bool, true, false, Option, none, some, List, [], ◌∷◌, map, keep, any, not, take, drop, leb,
  length, if◌then◌else◌, Text, text_eq,
}
use kintunnel.Base.Failure.{Failure, Result}
use kintunnel.Newest.{newest_first}
use kintunnel.Types.{EngineState, PeerRecord}
use kintunnel.Store.{StoredState}

pub data BackupErrorCode : Type 0 where
  checksum_mismatch snapshot_not_found refused_recent lock_timeout io_error : BackupErrorCode
  import_invalid : BackupErrorCode

-- A `BackupError`, or another error that is thrown.
pub data Stop : Type 0 where
  backup_error : BackupErrorCode → Text → Stop
  other : Failure → Stop

pub data Trigger : Type 0 where
  manual post_restore scheduled pre_rotate : Trigger

pub record SnapshotFile : Type 0 where
  pub path : Text
  pub size_bytes : ℕ
  pub sha256 : Text

-- The parts of a manifest that the program reads.
pub record BackupManifest : Type 0 where
  pub snapshot_id : Text
  pub engine_revision : ℕ
  pub created_at : Text
  pub trigger : Trigger
  pub files : List SnapshotFile
  pub min_engine_version : Text
  pub max_engine_version : Option Text

pub data ManifestFile : Type 0 where
  no_manifest : ManifestFile
  -- the text, and what the parser says of it
  bad_manifest : Text → Text → ManifestFile
  manifest : BackupManifest → ManifestFile

-- A directory `snap-<id>`; instants are milliseconds.
pub record Snapshot : Type 0 where
  pub id : Text
  pub mtime : ℕ
  pub manifest_file : ManifestFile
  pub state_bytes : Option Text

-- JSON, hashing and the version of package.json. A text that is no state is an error.
pub record Codec : Type 0 where
  pub version : Text
  pub print_state : EngineState → Text
  pub parse_state : Text → Result StoredState
  pub sha256_hex : Text → Text
  -- the bytes of a text in UTF-8, and of a printed manifest
  pub size_of : Text → ℕ
  pub manifest_size : BackupManifest → ℕ

unfoldable pub kept : ℕ → List Snapshot → List Snapshot
kept retention snaps = take retention (newest_first (λ s. s.mtime) snaps)

unfoldable pub dropped : ℕ → List Snapshot → List Snapshot
dropped retention snaps = drop retention (newest_first (λ s. s.mtime) snaps)

pub record PruneResult : Type 0 where
  pub kept_count : ℕ
  pub deleted : List Text

-- The directory after the removal of the snapshots that are not kept.
unfoldable pub prune_old_snapshots : ℕ → List Snapshot → PruneResult × List Snapshot
unfolding kept dropped
prune_old_snapshots retention snaps =
    let gone = map (λ s. s.id) (dropped retention snaps) in
    (
      record { kept_count = length (kept retention snaps); deleted = gone },
      keep (λ s. not (any (text_eq s.id) gone)) snaps,
    )
