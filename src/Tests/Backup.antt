-- ===== src/Tests/Backup.antt =====
-- Snapshots and restores at concrete inputs.
use kintunnel.Base.{
  ℕ, ◌≤◌, ◌<◌, ◌≡◌, refl, Bool, true, false, ◌||◌, none, some, List, [], ◌∷◌, any, length,
  if◌then◌else◌, ◌⊎◌, Text, lit, text_eq, keep, ltb, arith, text_eq_iff, Bool-cases, inl, inr, refl,
}
use mathlib.Core.Path.{subst}
use kintunnel.Base.Failure.{ok, err, error}
use kintunnel.Types.{EngineState, PeerStatus}
use kintunnel.Store.{StoredState, stored_form, migrate}
use kintunnel.Apply.Plans.{lists}
use kintunnel.Backup.{prune_old_snapshots, Snapshot, Codec, Stop, Trigger, BackupManifest, manifest}
use kintunnel.Backup.Diff.{compute_peer_diff}
use kintunnel.Backup.Changes.{compute_peer_diff-lists}
use kintunnel.Backup.Retention.{DistinctIds, prune_old_snapshots-newest}
use kintunnel.Backup.Snapshots.{
  Site, stopped, done, verified_bytes, snapshot_with, read_snapshot_manifest,
  read_snapshot_state_bytes, mismatches,
}
use kintunnel.Backup.Restore.{RestoreResult, backup_restore}
use kintunnel.Backup.Restore.Recovery.{Restored, backup_restore-AllOrNothing}
use kintunnel.Backup.Manage.{backup_delete, backup_list, is_first, build_snapshot_summary}
use kintunnel.Apply.Maps.{text_leb}
use kintunnel.Backup.Manage.Deletion.{OnlyGone, Deletable, backup_delete-cases}
use kintunnel.Backup.Plan.{
  RestorePlan, Plans, backup_restore_plan, backup_restore_plan-Plans, intact,
}
use kintunnel.Backup.Manage.Transfer.{Payload, backup_export, backup_import}
use kintunnel.Backup.Manage.Transfer.RoundTrip.{Imported, backup_import-export}
use kintunnel.Tests.Samples.{platform, engine, state, laptop, phone, disk}
use kintunnel.Tests.Hosts.{table_host}
use kintunnel.Networking.Tables.{Rule}

abbrev codec : Codec
codec = record {
  version = lit "1.0.0";
  print_state = λ s. lit "saved";
  parse_state = λ bytes.
      if text_eq bytes (lit "saved")
      then ok (stored_form state)
      else err (error (lit "Unexpected token"));
  sha256_hex = λ bytes. lit "#";
  size_of = λ bytes. length bytes;
  manifest_size = λ m. 100;
}

abbrev snapshot : Text → ℕ → Snapshot
snapshot id mtime = record {
  id = id;
  mtime = mtime;
  manifest_file = manifest (record {
    snapshot_id = id;
    engine_revision = 2;
    created_at = mtime ∷ [];
    trigger = Trigger.manual;
    files = record { path = lit "state.json"; size_bytes = 4; sha256 = lit "#" } ∷ [];
    min_engine_version = lit "1.0.0";
    max_engine_version = none;
  });
  state_bytes = some (lit "junk");
}

abbrev three : List Snapshot
three = snapshot (lit "x") 4 ∷ snapshot (lit "y") 9 ∷ snapshot (lit "z") 6 ∷ []

distinct_ids : DistinctIds three
unfolding lit text_eq
distinct_ids id = elim (Bool-cases (text_eq (lit "x") id)) [
  | inl same ↦
      subst (λ i. length (keep (λ s. text_eq s.id i) three) ≤ 1) ((text_eq_iff (lit "x") id).0 same)
        (omega arith)
  | inr other_than_x ↦ elim (Bool-cases (text_eq (lit "y") id)) [
    | inl same ↦
        subst (λ i. length (keep (λ s. text_eq s.id i) three) ≤ 1)
          ((text_eq_iff (lit "y") id).0 same) (omega arith)
    | inr other_than_y ↦ ground (arith, other_than_x, other_than_y)
  ]
]

prune_old_snapshots-newest_example :
    let (result, after) = prune_old_snapshots 2 three in
    let removed = keep (λ s. any (text_eq s.id) result.deleted) three in
    (result.kept_count ≡ length after)
    × (length after ≤ 2)
    × (length result.deleted ≡ length removed)
    × (length after < 2 → removed ≡ [])
    × ((f : Snapshot → Bool) → any f three ≡ (any f after || any f removed))
    × (any (λ t. any (λ d. ltb t.mtime d.mtime) removed) after ≡ false)
prune_old_snapshots-newest_example = prune_old_snapshots-newest 2 three distinct_ids

-- The laptop was deleted since.
abbrev later_state : EngineState
later_state = record state { peers = record laptop { status = PeerStatus.deleted } ∷ phone ∷ [] }

compute_peer_diff-lists_example :
    let diff = compute_peer_diff state later_state in
    (lists diff.added (lit "A") ≡ true)
    × (lists diff.removed (lit "A") ≡ false)
    × (lists diff.affected (lit "A") ≡ true)
    × (lists diff.modified (lit "A") ≡ true → false ≡ true)
unfolding lit text_eq
compute_peer_diff-lists_example = compute_peer_diff-lists state later_state (lit "A")

-- The snapshot has the right checksum, and is no state.
abbrev site : Site (List Rule)
site = record { world = disk; host = []; snapshots = three }

backup_restore-AllOrNothing_example :
    let m =
      backup_restore table_host codec platform engine 3 4 (lit "y") (lit "admin") true false site in
    ((e : Stop) × (m.0 ≡ stopped e) × Restored (stored_form state) m.1.world.file)
    ⊎ ((bytes : Text) × (b : StoredState) × (z : RestoreResult) × (m.0 ≡ done z)
        × (verified_bytes codec (lit "y") three ≡ done bytes)
        × (codec.parse_state bytes ≡ ok b)
        × Restored b m.1.world.file)
unfolding lit text_eq stored_form migrate snapshot_with
backup_restore-AllOrNothing_example =
    backup_restore-AllOrNothing table_host codec platform engine 3 4 (lit "y") (lit "admin") site
      (stored_form state) refl refl refl

-- The newest of the three is y, so that z may be deleted.
deletes_older : is_first (lit "z") (backup_list platform codec three) ≡ false
unfolding lit text_eq backup_list is_first build_snapshot_summary text_leb
deletes_older = refl

refuses_newest : is_first (lit "y") (backup_list platform codec three) ≡ true
unfolding lit text_eq backup_list is_first build_snapshot_summary text_leb
refuses_newest = refl

backup_delete-cases_example :
    let (a, after) = backup_delete codec platform engine 3 (lit "z") site in
    ((¬ Deletable codec platform (lit "z") three) × ((e : Stop) × (a ≡ stopped e)) × (after ≡ site))
    ⊎ (Deletable codec platform (lit "z") three × OnlyGone (lit "z") three after.snapshots)
backup_delete-cases_example = backup_delete-cases codec platform engine 3 (lit "z") site

-- A snapshot of the state.
abbrev good : List Snapshot
good = record (snapshot (lit "g") 5) { state_bytes = some (lit "saved") } ∷ []

abbrev good_manifest : BackupManifest
good_manifest = record {
  snapshot_id = lit "g";
  engine_revision = 2;
  created_at = 5 ∷ [];
  trigger = Trigger.manual;
  files = record { path = lit "state.json"; size_bytes = 4; sha256 = lit "#" } ∷ [];
  min_engine_version = lit "1.0.0";
  max_engine_version = none;
}

backup_restore_plan-Plans_example :
    let (a, after) = backup_restore_plan codec platform engine 3 (lit "g") good disk in
    (d : RestorePlan) × (a ≡ done d)
    × (after ≡ disk)
    × Plans (migrate (stored_form state)) (migrate (stored_form state)) d
unfolding lit text_eq stored_form intact snapshot_with read_snapshot_manifest
    read_snapshot_state_bytes mismatches
backup_restore_plan-Plans_example =
    backup_restore_plan-Plans codec platform engine 3 (lit "g") good disk good_manifest
      (lit "saved") (stored_form state) (stored_form state) refl refl refl

abbrev good_site : Site (List Rule)
good_site = record { world = disk; host = []; snapshots = good }

backup_import-export_example :
    (x : Payload) × (backup_export codec (lit "g") good ≡ done x)
    × Imported codec
        (platform.uuid disk.drawn)
        good_manifest
        (lit "saved")
        (backup_import
          (λ s. lit "saved")
          codec
          platform
          engine
          3
          (lit "upload")
          good_site
          (ok x)).1.snapshots
unfolding lit text_eq stored_form intact snapshot_with read_snapshot_manifest
    read_snapshot_state_bytes mismatches
backup_import-export_example =
    backup_import-export (λ s. lit "saved") codec platform engine 3 (lit "upload") (lit "g")
      good_site good_manifest (lit "saved") (stored_form state) refl refl refl refl
