-- ===== src/Backup/Manage.antt =====
-- packages/engine/src/backup.ts: the creation, the list and the deletion of snapshots.
-- Of snapshots made at the same time, the list has the one that the directory lists later first.
pub mod Deletion
pub mod Transfer
use kintunnel.Base.{
  ℕ, ◌+◌, Bool, true, false, not, ◌&&◌, ◌||◌, Option, none, some, List, [], ◌∷◌, ◌++◌, keep, map,
  length, if◌then◌else◌, or_default, Text, lit, text_eq,
}
use kintunnel.Base.Failure.{Failure, Result, err, ok}
use kintunnel.Types.{EngineConfig, EngineState, AuditAction, MetaValue, Metadata}
use kintunnel.Platform.{Platform}
use kintunnel.Apply.Maps.{text_leb}
use kintunnel.State.Context.{Context, EventInput, append_event, Outcome}
use kintunnel.Host.Events.{append_events}
use kintunnel.Runtime.Dump.{epoch_ms}
use kintunnel.Store.Calls.{record_backup}
use kintunnel.Store.{World, update}
use kintunnel.Backup.{
  BackupErrorCode, Stop, backup_error, other, Trigger, SnapshotFile, BackupManifest, ManifestFile,
  no_manifest, bad_manifest, manifest, Snapshot, Codec, PruneResult, prune_old_snapshots,
}
use kintunnel.Backup.Snapshots.{
  Site, Answer, stopped, done, snapshot_with, read_snapshot_manifest, expected_sha, mismatches,
  snapshot_internal,
}

pub record BackupSummary : Type 0 where
  pub snapshot_id : Text
  pub created_at : Text
  pub engine_revision : ℕ
  pub trigger : Trigger
  pub size_bytes : ℕ
  pub file_count : ℕ
  pub corrupt : Bool

-- A directory without one of its two files has no summary. A manifest that does not parse counts as
-- made at the epoch; its size is that of its text.
summary_of : Platform → Codec → Text → Text → ManifestFile → Option BackupSummary
summary_of p k id bytes no_manifest = none
summary_of p k id bytes (bad_manifest text complaint) = some (record {
  snapshot_id = id;
  created_at = p.iso epoch_ms;
  engine_revision = 0;
  trigger = Trigger.manual;
  size_bytes = k.size_of text + k.size_of bytes;
  file_count = 0;
  corrupt = true;
})
summary_of p k id bytes (manifest m) = some (record {
  snapshot_id = id;
  created_at = m.created_at;
  engine_revision = m.engine_revision;
  trigger = m.trigger;
  size_bytes = k.manifest_size m + k.size_of bytes;
  file_count = length m.files;
  corrupt = mismatches (expected_sha m) (k.sha256_hex bytes);
})

unfoldable pub build_snapshot_summary : Platform → Codec → Snapshot → Option BackupSummary
unfolding summary_of
build_snapshot_summary p k s = by s.state_bytes
  where
    by : Option Text → Option BackupSummary
    by none = none
    by (some bytes) = summary_of p k s.id bytes s.manifest_file

insert_summary : BackupSummary → List BackupSummary → List BackupSummary
insert_summary s [] = s ∷ []
insert_summary s (t ∷ ts) =
    let rest = insert_summary s ts in
    if text_leb t.created_at s.created_at then s ∷ t ∷ ts else t ∷ rest

list_from : Platform → Codec → List BackupSummary → List Snapshot → List BackupSummary
unfolding insert_summary
list_from p k found [] = found
list_from p k found (s ∷ ss) = list_from p k (with (build_snapshot_summary p k s)) ss
  where
    with : Option BackupSummary → List BackupSummary
    with none = found
    with (some b) = insert_summary b found

unfoldable pub backup_list : Platform → Codec → List Snapshot → List BackupSummary
unfolding list_from
backup_list p k snaps = list_from p k [] snaps

trigger_text : Trigger → Text
trigger_text Trigger.manual = lit "manual"
trigger_text Trigger.post_restore = lit "post-restore"
trigger_text Trigger.scheduled = lit "scheduled"
trigger_text Trigger.pre_rotate = lit "pre-rotate"

pub backup_event : Platform → ℕ → AuditAction → Option Text → Text → Metadata → EventInput
backup_event p now action actor id metadata = record {
  action = action;
  actor = actor;
  target_id = some id;
  target_name = none;
  created_at = p.iso now;
  metadata = some metadata;
}

created_events : Platform → ℕ → Text → BackupSummary → PruneResult → List EventInput
unfolding backup_event trigger_text
created_events p now actor b pruned =
    backup_event p now AuditAction.backup_created (some actor) b.snapshot_id (
      (lit "snapshot_id", MetaValue.text b.snapshot_id)
      ∷ (lit "revision", MetaValue.number b.engine_revision)
      ∷ (lit "size_bytes", MetaValue.number b.size_bytes)
      ∷ (lit "file_count", MetaValue.number b.file_count)
      ∷ (lit "trigger", MetaValue.text (trigger_text b.trigger))
      ∷ [])
    ∷ map
        (λ id. backup_event p now AuditAction.backup_pruned none id (
          (lit "snapshot_id", MetaValue.text id)
          ∷ (lit "kept", MetaValue.number pruned.kept_count)
          ∷ []))
        pruned.deleted

-- `store.update` with a mutation that appends events.
pub record_events : Platform → EngineConfig → ℕ → List EventInput → World → Result {0} Unit × World
record_events p config now events w = update p config now (record_backup p events) w

abbrev summary_with : Platform → Codec → Option Snapshot → Option BackupSummary
summary_with p k none = none
summary_with p k (some s) = build_snapshot_summary p k s

manifest_size_of : Codec → ManifestFile → ℕ
manifest_size_of k no_manifest = 0
manifest_size_of k (bad_manifest text complaint) = k.size_of text
manifest_size_of k (manifest m) = k.manifest_size m

size_with : Codec → Option Snapshot → ℕ
unfolding manifest_size_of
size_with k none = 0
size_with k (some s) = manifest_size_of k s.manifest_file + k.size_of (or_default s.state_bytes [])

unfoldable pub without_snapshot : Text → List Snapshot → List Snapshot
without_snapshot id snaps = keep (λ s. not (text_eq s.id id)) snaps

deleted_event : Platform → ℕ → Text → ℕ → EventInput
unfolding backup_event
deleted_event p now id size =
    backup_event p now AuditAction.backup_deleted none id
      ((lit "snapshot_id", MetaValue.text id) ∷ (lit "size_bytes", MetaValue.number size) ∷ [])

unfoldable pub is_first : Text → List BackupSummary → Bool
is_first id [] = false
is_first id (b ∷ bs) = text_eq b.snapshot_id id

module _ {H : Type 0} (k : Codec) (p : Platform) (config : EngineConfig) (now : ℕ) where
  pub answer_after : {A : Type 0} → A → Site H → Result {0} Unit × World → Answer A × Site H
  answer_after a site (err e, w) = (stopped (other e), record site { world = w })
  answer_after a site (ok u, w) = (done a, record site { world = w })

  created : Text → Text → Site H → Option BackupSummary → Answer BackupSummary × Site H
  unfolding answer_after created_events record_events
  created actor id site none = (
    stopped (backup_error BackupErrorCode.snapshot_not_found (lit "Snapshot incomplete: " ++ id)),
    site,
  )
  created actor id site (some b) =
      let (pruned, snaps) = prune_old_snapshots config.backup_retention_count site.snapshots in
      answer_after b (record site { snapshots = snaps })
        (record_events p config now (created_events p now actor b pruned) site.world)

  after_snapshot : Text → Answer Text × Site H → Answer BackupSummary × Site H
  unfolding created
  after_snapshot actor (stopped e, site) = (stopped e, site)
  after_snapshot actor (done id, site) =
      created actor id site (summary_with p k (snapshot_with id site.snapshots))

  unfoldable pub backup_create : Trigger → Text → Site H → Answer BackupSummary × Site H
  unfolding after_snapshot
  backup_create trigger actor site =
      after_snapshot actor (snapshot_internal k p config now trigger site)

  remove_snapshot : Text → Site H → Answer ℕ × Site H
  unfolding answer_after deleted_event record_events size_with
  remove_snapshot id site =
      let size = size_with k (snapshot_with id site.snapshots) in
      answer_after size (record site { snapshots = without_snapshot id site.snapshots })
        (record_events p config now (deleted_event p now id size ∷ []) site.world)

  delete_known : Text → Site H → Answer BackupManifest → Answer ℕ × Site H
  unfolding remove_snapshot
  delete_known id site (stopped e) = (
    stopped (backup_error BackupErrorCode.snapshot_not_found (lit "Snapshot not found: " ++ id)),
    site,
  )
  delete_known id site (done m) =
      if is_first id (backup_list p k site.snapshots)
      then (
        stopped (
            backup_error BackupErrorCode.refused_recent (
              lit "Refusing to delete most recent snapshot "
              ++ (id ++ lit "; create a newer one first"))),
        site,
      )
      else remove_snapshot id site

  -- The answer is the size of the snapshot that was deleted.
  unfoldable pub backup_delete : Text → Site H → Answer ℕ × Site H
  unfolding delete_known
  backup_delete id site = delete_known id site (read_snapshot_manifest id site.snapshots)
