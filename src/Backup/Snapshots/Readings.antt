-- ===== src/Backup/Snapshots/Readings.antt =====
-- What is read of a snapshot that is there.
use kintunnel.Base.{◌≡◌, ap, ◌∙◌, some, List, Text}
use kintunnel.Backup.{BackupManifest, manifest, Snapshot}
use kintunnel.Backup.Snapshots.{
  done, snapshot_with, read_snapshot_manifest, read_snapshot_state_bytes, manifest_of,
  manifest_file_of, bytes_of, state_of,
}

pub read_snapshot_manifest-there :
    (id : Text) (snaps : List Snapshot) (s : Snapshot) (m : BackupManifest)
    → snapshot_with id snaps ≡ some s
    → s.manifest_file ≡ manifest m
    → read_snapshot_manifest id snaps ≡ done m
unfolding read_snapshot_manifest manifest_of
read_snapshot_manifest-there id snaps s m here has =
    ap (λ o. manifest_of id (manifest_file_of o)) here ∙ ap (manifest_of id) has

pub read_snapshot_state_bytes-there :
    (id : Text) (snaps : List Snapshot) (s : Snapshot) (bytes : Text)
    → snapshot_with id snaps ≡ some s
    → s.state_bytes ≡ some bytes
    → read_snapshot_state_bytes id snaps ≡ done bytes
unfolding read_snapshot_state_bytes bytes_of
read_snapshot_state_bytes-there id snaps s bytes here has =
    ap (λ o. bytes_of id (state_of o)) here ∙ ap (bytes_of id) has
