-- ===== src/Backup/Manage/Transfer/RoundTrip.antt =====
-- The import of an export.
use kintunnel.Base.{
  ℕ, ◌≡◌, refl, sym, ap, ◌∙◌, false, not, Option, none, some, List, [], ◌∷◌, ◌++◌, Text, text_eq,
  text_eq_refl,
}
use mathlib.Core.Path.{subst}
use kintunnel.Base.Failure.{Result, err, ok}
use kintunnel.Types.{EngineConfig}
use kintunnel.Platform.{Platform}
use kintunnel.Store.{World, StoredState}
use kintunnel.Backup.{BackupManifest, Snapshot, Codec}
use kintunnel.Backup.Snapshots.{Site, done, expected_sha, mismatches, snapshot_with}
use kintunnel.Backup.Restore.Recovery.{find-append}
use kintunnel.Backup.Plan.{intact, intact-matches, intact-there, otherwise}
use kintunnel.Backup.Manage.{BackupSummary, answer_after}
use kintunnel.Backup.Manage.Transfer.{
  Payload, payload_of, wrapper_name, both_parts, backup_export, backup_import, wrapped,
  import_parts, store_import, summarized, imported_snapshot, imported_manifest, parts_of,
}

-- A checksum that was right once is right for itself.
mismatches_self :
    (expected : Option Text) (sha : Text)
    → mismatches expected sha ≡ false
    → mismatches (some sha) sha ≡ false
unfolding mismatches text_eq
mismatches_self none sha h = absurd cc
mismatches_self (some []) sha h = absurd cc
mismatches_self (some (c ∷ s)) [] h = absurd cc
mismatches_self (some (c ∷ s)) (d ∷ t) h = ap not (text_eq_refl (d ∷ t))

parts_of-payload :
    (m : BackupManifest) (s : StoredState)
    → parts_of
        (record { wrapper_format = some wrapper_name; manifest_part = some m; state_part = some s })
      ≡ done (m, s)
unfolding parts_of
parts_of-payload m s = ap (both_parts (some m) (some s)) (text_eq_refl wrapper_name)

-- The import under an id keeps the bytes and what the manifest says of their making.
pub record Imported (k : Codec) (id : Text) (m : BackupManifest) (bytes : Text)
    (snaps : List Snapshot) : Type 0 where
  pub found : BackupManifest
  pub whole : intact k id snaps ≡ done (found, bytes)
  pub named : found.snapshot_id ≡ id
  pub revision : found.engine_revision ≡ m.engine_revision
  pub made : found.created_at ≡ m.created_at
  pub reason : found.trigger ≡ m.trigger

Imported-stored :
    (k : Codec) (now : ℕ) (id : Text) (m : BackupManifest) (bytes : Text) (snaps : List Snapshot)
    → mismatches (expected_sha m) (k.sha256_hex bytes) ≡ false
    → snapshot_with id snaps ≡ none
    → Imported k id m bytes (snaps ++ imported_snapshot k now id m bytes ∷ [])
unfolding imported_snapshot imported_manifest snapshot_with
Imported-stored k now id m bytes snaps right fresh = record {
  found = imported_manifest k id m bytes;
  whole =
      intact-there k id (snaps ++ imported_snapshot k now id m bytes ∷ [])
        (imported_snapshot k now id m bytes) (imported_manifest k id m bytes) bytes
        (find-append _ snaps (imported_snapshot k now id m bytes) fresh (text_eq_refl id)) refl refl
        (mismatches_self (expected_sha m) (k.sha256_hex bytes) right);
  named = refl;
  revision = refl;
  made = refl;
  reason = refl;
}

module _ {H : Type 0} (print : StoredState → Text) (k : Codec) (p : Platform)
    (config : EngineConfig) (now : ℕ) (source : Text) where
  answer_after-snapshots :
      {A : Type 0} (a : A) (site : Site H) (r : Result {0} Unit × World)
      → (answer_after k p config now a site r).1.snapshots ≡ site.snapshots
  unfolding answer_after
  answer_after-snapshots a site (err e, w) = refl
  answer_after-snapshots a site (ok u, w) = refl

  summarized-snapshots :
      (id : Text) (site : Site H) (o : Option BackupSummary)
      → (summarized print k p config now source id site o).1.snapshots ≡ site.snapshots
  unfolding summarized
  summarized-snapshots id site none = refl
  summarized-snapshots id site (some b) = answer_after-snapshots b site _

  Imported-store :
      (site : Site H) (m : BackupManifest) (bytes : Text)
      → mismatches (expected_sha m) (k.sha256_hex bytes) ≡ false
      → snapshot_with (p.uuid site.world.drawn) site.snapshots ≡ none
      → Imported k
          (p.uuid site.world.drawn)
          m
          bytes
          (store_import print k p config now source site m bytes).1.snapshots
  unfolding store_import
  Imported-store site m bytes right fresh =
      subst (Imported k (p.uuid site.world.drawn) m bytes) (sym (summarized-snapshots _ _ _))
        (Imported-stored k now (p.uuid site.world.drawn) m bytes site.snapshots right fresh)

  -- A snapshot that is intact, whose bytes parse to a state that prints as these bytes, can be
  -- exported, and the import of the export under an id that belongs to no snapshot adds an intact
  -- snapshot with the same bytes, revision, time and trigger under that id.
  pub backup_import-export :
      (id : Text) (site : Site H) (m : BackupManifest) (bytes : Text) (s : StoredState)
      → intact k id site.snapshots ≡ done (m, bytes)
      → k.parse_state bytes ≡ ok s
      → print s ≡ bytes
      → snapshot_with (p.uuid site.world.drawn) site.snapshots ≡ none
      → (x : Payload) × (backup_export k id site.snapshots ≡ done x)
        × Imported k
            (p.uuid site.world.drawn)
            m
            bytes
            (backup_import print k p config now source site (ok x)).1.snapshots
  unfolding backup_export backup_import wrapped payload_of import_parts
  backup_import-export id site m bytes s whole parses prints fresh =
      let right = intact-matches k id site.snapshots m bytes whole in
      let stored =
        ap (import_parts print k p config now source site) (parts_of-payload m s)
        ∙ otherwise _ _ (store_import print k p config now source site m (print s))
            (ap (λ b. mismatches (expected_sha m) (k.sha256_hex b)) prints ∙ right)
        ∙ ap (store_import print k p config now source site m) prints in
      (
        _,
        ap (wrapped k) whole ∙ ap (payload_of m) parses,
        subst (λ r. Imported k (p.uuid site.world.drawn) m bytes r.1.snapshots) (sym stored)
            (Imported-store site m bytes right fresh),
      )
