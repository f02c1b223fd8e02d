-- ===== src/Backup/Plan.antt =====
-- packages/engine/src/backup.ts: what a restore would change (`backupRestorePlan`).
use kintunnel.Base.{
  ℕ, ◌≡◌, refl, sym, ap, ◌∙◌, Bool, true, false, not, ◌&&◌, Option, none, some, List, [], ◌∷◌, ◌++◌,
  any, if◌then◌else◌, Text, lit, text_eq,
}
use kintunnel.Base.Failure.{Result, err, ok}
use kintunnel.Types.{EngineConfig, EngineState}
use kintunnel.Platform.{Platform}
use kintunnel.Apply.Maps.{text_leb}
use kintunnel.Apply.Plans.{lists}
use kintunnel.State.Peers.{live_peers}
use kintunnel.Store.{World, StoredState, holds, load, migrate}
use kintunnel.Store.Histories.{load-holds}
use kintunnel.Backup.{
  BackupErrorCode, Stop, backup_error, other, BackupManifest, manifest, Snapshot, Codec,
}
use kintunnel.Backup.Snapshots.Readings.{
  read_snapshot_manifest-there, read_snapshot_state_bytes-there,
}
use kintunnel.Backup.Diff.{PeerDiff, compute_peer_diff}
use kintunnel.Backup.Changes.{compute_peer_diff-lists}
use kintunnel.Backup.Snapshots.{
  Answer, stopped, done, snapshot_with, read_snapshot_manifest, read_snapshot_state_bytes,
  expected_sha, mismatches,
}

pub record RestorePlan : Type 0 where
  pub snapshot_id : Text
  pub from_revision : ℕ
  pub to_revision : ℕ
  pub peer_changes : PeerDiff
  pub warnings : List Text
  pub apply_blocked_reasons : List Text

-- The manifest and the bytes of a snapshot with the right checksum.
both_intact : Codec → Text → Answer BackupManifest → Answer Text → Answer (BackupManifest × Text)
both_intact k id (stopped e) bytes = stopped e
both_intact k id (done m) (stopped e) = stopped e
both_intact k id (done m) (done bytes) =
    if mismatches (expected_sha m) (k.sha256_hex bytes)
    then stopped (
        backup_error BackupErrorCode.checksum_mismatch
          (lit "Snapshot " ++ (id ++ lit " is corrupt")))
    else done (m, bytes)

unfoldable pub intact : Codec → Text → List Snapshot → Answer (BackupManifest × Text)
unfolding both_intact
intact k id snaps =
    both_intact k id (read_snapshot_manifest id snaps) (read_snapshot_state_bytes id snaps)

pub otherwise : {A : Type 0} (test : Bool) (x y : A) → test ≡ false → (if test then x else y) ≡ y
otherwise true x y h = absurd cc
otherwise false x y h = refl

if_done :
    {A : Type 0} (test : Bool) (e : Stop) (x y : A)
    → (if test then stopped e else done x) ≡ done y
    → (test ≡ false) × (x ≡ y)
if_done true e x y h = absurd cc
if_done false e x y h = (refl, cc)

-- What is intact has the right checksum.
both_intact-matches :
    (k : Codec) (id : Text) (a : Answer BackupManifest) (b : Answer Text) (m : BackupManifest)
    (bytes : Text)
    → both_intact k id a b ≡ done (m, bytes)
    → mismatches (expected_sha m) (k.sha256_hex bytes) ≡ false
unfolding both_intact
both_intact-matches k id (stopped e) b m bytes h = absurd cc
both_intact-matches k id (done n) (stopped e) m bytes h = absurd cc
both_intact-matches k id (done n) (done raw) m bytes h =
    let (right, same) =
      if_done (mismatches (expected_sha n) (k.sha256_hex raw)) _ (n, raw) (m, bytes) h in
    ap (λ x. mismatches (expected_sha x.0) (k.sha256_hex x.1)) (sym same) ∙ right

pub intact-matches :
    (k : Codec) (id : Text) (snaps : List Snapshot) (m : BackupManifest) (bytes : Text)
    → intact k id snaps ≡ done (m, bytes)
    → mismatches (expected_sha m) (k.sha256_hex bytes) ≡ false
unfolding intact
intact-matches k id snaps m bytes h =
    both_intact-matches k id (read_snapshot_manifest id snaps) (read_snapshot_state_bytes id snaps)
      m bytes h

-- A snapshot that is there with the right checksum is intact.
pub intact-there :
    (k : Codec) (id : Text) (snaps : List Snapshot) (s : Snapshot) (m : BackupManifest)
    (bytes : Text)
    → snapshot_with id snaps ≡ some s
    → s.manifest_file ≡ manifest m
    → s.state_bytes ≡ some bytes
    → mismatches (expected_sha m) (k.sha256_hex bytes) ≡ false
    → intact k id snaps ≡ done (m, bytes)
unfolding intact both_intact
intact-there k id snaps s m bytes here has_manifest has_bytes right =
    ap (λ a. both_intact k id a (read_snapshot_state_bytes id snaps))
      (read_snapshot_manifest-there id snaps s m here has_manifest)
    ∙ ap (both_intact k id (done m))
        (read_snapshot_state_bytes-there id snaps s bytes here has_bytes)
    ∙ otherwise _ _ (done (m, bytes)) right

-- A note if the test holds.
abbrev noted : Bool → Text → List Text
noted test note = if test then note ∷ [] else []

is_set : Text → Bool
is_set [] = false
is_set (c ∷ cs) = true

plan_warnings : Codec → BackupManifest → List Text
unfolding is_set
plan_warnings k m =
    noted (is_set m.min_engine_version && not (text_eq m.min_engine_version k.version)) (
      lit "Snapshot was created with engine "
      ++ (m.min_engine_version ++ (lit "; current is " ++ k.version)))

plan_blocks : Codec → Option Text → List Text
unfolding is_set
plan_blocks k none = []
plan_blocks k (some highest) =
    noted (is_set highest && not (text_leb k.version highest))
      (lit "Snapshot requires engine <= " ++ (highest ++ (lit "; current is " ++ k.version)))

plan_of : Codec → Text → BackupManifest → EngineState → EngineState → RestorePlan
unfolding plan_warnings plan_blocks
plan_of k id m snapshot current = record {
  snapshot_id = id;
  from_revision = m.engine_revision;
  to_revision = current.revision;
  peer_changes = compute_peer_diff snapshot current;
  warnings = plan_warnings k m;
  apply_blocked_reasons = plan_blocks k m.max_engine_version;
}

plan_current :
    Codec
    → Text
    → BackupManifest
    → StoredState
    → Result EngineState × World
    → Answer RestorePlan × World
unfolding plan_of
plan_current k id m s (err e, w) = (stopped (other e), w)
plan_current k id m s (ok current, w) = (done (plan_of k id m (migrate s) current), w)

plan_parsed :
    Codec
    → Platform
    → EngineConfig
    → ℕ
    → Text
    → World
    → BackupManifest
    → Result StoredState
    → Answer RestorePlan × World
unfolding plan_current
plan_parsed k p config now id w m (err e) = (stopped (other e), w)
plan_parsed k p config now id w m (ok s) = plan_current k id m s (load p config now w)

plan_intact :
    Codec
    → Platform
    → EngineConfig
    → ℕ
    → Text
    → World
    → Answer (BackupManifest × Text)
    → Answer RestorePlan × World
unfolding plan_parsed
plan_intact k p config now id w (stopped e) = (stopped e, w)
plan_intact k p config now id w (done (m, bytes)) =
    plan_parsed k p config now id w m (k.parse_state bytes)

unfoldable pub backup_restore_plan :
    Codec → Platform → EngineConfig → ℕ → Text → List Snapshot → World → Answer RestorePlan × World
unfolding plan_intact
backup_restore_plan k p config now id snaps w = plan_intact k p config now id w (intact k id snaps)

-- A plan lists the keys of the peers that are live in one of two states only.
pub record Plans (snapshot current : EngineState) (d : RestorePlan) : Type 0 where
  pub to : d.to_revision ≡ current.revision
  pub added :
      (j : Text)
      → lists d.peer_changes.added j ≡ (
          any (λ q. text_eq q.public_key j) (live_peers snapshot)
          && not (any (λ q. text_eq q.public_key j) (live_peers current)))
  pub removed :
      (j : Text)
      → lists d.peer_changes.removed j ≡ (
          any (λ q. text_eq q.public_key j) (live_peers current)
          && not (any (λ q. text_eq q.public_key j) (live_peers snapshot)))

-- For an intact snapshot whose bytes parse, over a state file that holds a state, the plan of a
-- restore is given without a change of the world, has the current revision, and lists a key as
-- added exactly if a peer that is not deleted has it in the snapshot and none in the current
-- state, and as removed in the opposite case.
pub backup_restore_plan-Plans :
    (k : Codec) (p : Platform) (config : EngineConfig) (now : ℕ) (id : Text) (snaps : List Snapshot)
    (w : World) (m : BackupManifest) (bytes : Text) (s now_stored : StoredState)
    → intact k id snaps ≡ done (m, bytes)
    → k.parse_state bytes ≡ ok s
    → w.file ≡ holds now_stored
    → let (a, after) = backup_restore_plan k p config now id snaps w in
      (d : RestorePlan) × (a ≡ done d) × (after ≡ w) × Plans (migrate s) (migrate now_stored) d
unfolding backup_restore_plan plan_intact plan_parsed plan_current plan_of
backup_restore_plan-Plans k p config now id snaps w m bytes s now_stored whole parses file =
    let planned =
      ap (plan_intact k p config now id w) whole
      ∙ ap (plan_parsed k p config now id w m) parses
      ∙ ap (plan_current k id m s) (load-holds p config now w now_stored file) in
    let diff = compute_peer_diff-lists (migrate s) (migrate now_stored) in
    let exact : Plans (migrate s) (migrate now_stored) _ = record {
      to = refl;
      added = λ j. (diff j).0;
      removed = λ j. (diff j).1;
    } in
    (
      plan_of k id m (migrate s) (migrate now_stored),
      ap (λ x. x.0) planned,
      ap (λ x. x.1) planned,
      exact,
    )
