-- ===== src/Backup/Manage/Transfer.antt =====
-- packages/engine/src/backup.ts: the export and the import of a snapshot.
pub mod RoundTrip
use kintunnel.Base.{
  ℕ, ◌+◌, ◌≡◌, refl, sym, ap, ◌∙◌, Bool, true, false, not, ◌&&◌, ◌||◌, Option, none, some, List, [],
  ◌∷◌, ◌++◌, any, if◌then◌else◌, Text, lit, text_eq,
}
use kintunnel.Base.Failure.{Failure, Result, err, ok}
use kintunnel.Types.{EngineConfig, EngineState, AuditAction, MetaValue}
use kintunnel.Platform.{Platform}
use kintunnel.Host.{message_of}
use kintunnel.State.Context.{EventInput}
use kintunnel.Store.{World, StoredState}
use kintunnel.Backup.{
  BackupErrorCode, Stop, backup_error, other, BackupManifest, SnapshotFile, manifest, Snapshot,
  Codec,
}
use kintunnel.Backup.Snapshots.{
  Site, Answer, stopped, done, expected_sha, mismatches, shown_sha, snapshot_with,
}
use kintunnel.Backup.Plan.{intact}
use kintunnel.Backup.Manage.{BackupSummary, backup_event, record_events, answer_after, summary_with}

-- The value of an import after JSON.parse; a part that is missing, null or false is none.
pub record Payload : Type 0 where
  pub wrapper_format : Option Text
  pub manifest_part : Option BackupManifest
  pub state_part : Option StoredState

abbrev wrapper_name : Text
wrapper_name = lit "kintunnel-backup-v1"

payload_of : BackupManifest → Result StoredState → Answer Payload
payload_of m (err e) = stopped (other e)
payload_of m (ok s) =
    done
      (record { wrapper_format = some wrapper_name; manifest_part = some m; state_part = some s })

wrapped : Codec → Answer (BackupManifest × Text) → Answer Payload
unfolding payload_of
wrapped k (stopped e) = stopped e
wrapped k (done (m, bytes)) = payload_of m (k.parse_state bytes)

-- The value that is printed for the export.
unfoldable pub backup_export : Codec → Text → List Snapshot → Answer Payload
unfolding wrapped
backup_export k id snaps = wrapped k (intact k id snaps)

missing_parts : Stop
missing_parts =
    backup_error BackupErrorCode.import_invalid
      (lit "Import payload is missing wrapper_format/manifest/state fields")

abbrev has_wrapper : Option Text → Bool
has_wrapper none = false
has_wrapper (some t) = text_eq t wrapper_name

both_parts :
    Option BackupManifest → Option StoredState → Bool → Answer (BackupManifest × StoredState)
unfolding missing_parts
both_parts (some m) (some s) true = done (m, s)
both_parts _ _ _ = stopped missing_parts

-- The parts of a payload that has both.
unfoldable pub parts_of : Payload → Answer (BackupManifest × StoredState)
unfolding both_parts
parts_of x = both_parts x.manifest_part x.state_part (has_wrapper x.wrapper_format)

import_mismatch : Option Text → Text → Stop
import_mismatch expected actual = backup_error BackupErrorCode.checksum_mismatch (
    lit "Imported snapshot failed checksum verification (expected "
    ++ (shown_sha expected ++ (lit ", got " ++ (actual ++ lit ")"))))

pub imported_manifest : Codec → Text → BackupManifest → Text → BackupManifest
imported_manifest k id m bytes = record m {
  snapshot_id = id;
  files =
      record { path = lit "state.json"; size_bytes = k.size_of bytes; sha256 = k.sha256_hex bytes }
      ∷ [];
}

imported_snapshot : Codec → ℕ → Text → BackupManifest → Text → Snapshot
unfolding imported_manifest
imported_snapshot k now id m bytes = record {
  id = id;
  mtime = now;
  manifest_file = manifest (imported_manifest k id m bytes);
  state_bytes = some bytes;
}

imported_event : Platform → ℕ → Text → Text → EventInput
imported_event p now id source =
    backup_event p now AuditAction.backup_imported none id
      ((lit "snapshot_id", MetaValue.text id) ∷ (lit "source", MetaValue.text source) ∷ [])

-- The printer gives the text of JSON.stringify for a value that was parsed, with its line feed.
module _ {H : Type 0} (print : StoredState → Text) (k : Codec) (p : Platform)
    (config : EngineConfig) (now : ℕ) (source : Text) where
  summarized : Text → Site H → Option BackupSummary → Answer BackupSummary × Site H
  unfolding imported_event
  summarized id site none = (
    stopped (backup_error BackupErrorCode.snapshot_not_found (lit "Snapshot incomplete: " ++ id)),
    site,
  )
  summarized id site (some b) =
      answer_after k p config now b site
        (record_events p config now (imported_event p now id source ∷ []) site.world)

  store_import : Site H → BackupManifest → Text → Answer BackupSummary × Site H
  unfolding summarized imported_snapshot
  store_import site m bytes =
      let id = p.uuid site.world.drawn in
      let snaps = site.snapshots ++ imported_snapshot k now id m bytes ∷ [] in
      let w = record site.world { drawn = site.world.drawn + 1 } in
      summarized id (record site { world = w; snapshots = snaps })
        (summary_with p k (snapshot_with id snaps))

  import_parts : Site H → Answer (BackupManifest × StoredState) → Answer BackupSummary × Site H
  unfolding store_import import_mismatch
  import_parts site (stopped e) = (stopped e, site)
  import_parts site (done (m, s)) =
      let sha = k.sha256_hex (print s) in
      if mismatches (expected_sha m) sha
      then (stopped (import_mismatch (expected_sha m) sha), site)
      else store_import site m (print s)

  unfoldable pub backup_import : Site H → Result Payload → Answer BackupSummary × Site H
  unfolding import_parts
  backup_import site (err e) = (
    stopped (
        backup_error BackupErrorCode.import_invalid
          (lit "Import payload is not valid JSON: " ++ message_of e)),
    site,
  )
  backup_import site (ok x) = import_parts site (parts_of x)
