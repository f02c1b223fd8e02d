-- ===== src/Backup/Manage/Deletion.antt =====
-- The deletion of a snapshot.
use kintunnel.Base.{
  ℕ, ◌≡◌, refl, sym, ap, ◌∙◌, Bool, true, false, not, none, List, [], ◌∷◌, find, keep, arith, Text,
  text_eq, text_eq_iff, Bool-cases, ◌⊎◌, inl, inr, if◌then◌else◌,
}
use kintunnel.Base.Failure.{Result, err, ok}
use kintunnel.Types.{EngineConfig}
use kintunnel.Platform.{Platform}
use kintunnel.Store.{World}
use kintunnel.Backup.{Codec, Snapshot, BackupManifest, Stop}
use kintunnel.Backup.Snapshots.{Site, Answer, stopped, done, snapshot_with, read_snapshot_manifest}
use kintunnel.Backup.Manage.{
  backup_list, backup_delete, delete_known, remove_snapshot, without_snapshot, answer_after,
  is_first,
}

find-keep-gone :
    (id : Text) (ss : List Snapshot)
    → find (λ s. text_eq s.id id) (keep (λ s. not (text_eq s.id id)) ss) ≡ none
find-keep-gone id [] = refl
find-keep-gone id (s ∷ ss) = ground (arith, find-keep-gone id ss)

other_id : (i id j : Text) → text_eq j id ≡ false → text_eq i j ≡ true → text_eq i id ≡ false
other_id i id j apart same = sym (ap (λ t. text_eq t id) (sym ((text_eq_iff i j).0 same))) ∙ apart

find-keep-other :
    (id j : Text) (ss : List Snapshot)
    → text_eq j id ≡ false
    → find (λ s. text_eq s.id j) (keep (λ s. not (text_eq s.id id)) ss)
      ≡ find (λ s. text_eq s.id j) ss
find-keep-other id j [] apart = refl
find-keep-other id j (s ∷ ss) apart =
    let rest = find-keep-other id j ss apart in
    elim (Bool-cases (text_eq s.id j)) [
      | inl same ↦ let stays = other_id s.id id j apart same in ground (arith, stays, rest)
      | inr miss ↦ ground (arith, rest)
    ]

-- Only the snapshot with the id is gone from a directory.
pub record OnlyGone (id : Text) (before after : List Snapshot) : Type 0 where
  pub gone : snapshot_with id after ≡ none
  pub others : (j : Text) → text_eq j id ≡ false → snapshot_with j after ≡ snapshot_with j before

OnlyGone-without : (id : Text) (ss : List Snapshot) → OnlyGone id ss (without_snapshot id ss)
unfolding snapshot_with without_snapshot
OnlyGone-without id ss = record {
  gone = find-keep-gone id ss;
  others = λ j apart. find-keep-other id j ss apart;
}

-- Whether a deletion goes on to the directory.
abbrev pub Deletable : Codec → Platform → Text → List Snapshot → Type 0
Deletable k p id before =
    ((m : BackupManifest) × (read_snapshot_manifest id before ≡ done m))
    × (is_first id (backup_list p k before) ≡ false)

module _ {H : Type 0} (k : Codec) (p : Platform) (config : EngineConfig) (now : ℕ) (id : Text) where
  answer_after-OnlyGone :
      {A : Type 0} (a : A) (before : List Snapshot) (site : Site H) (r : Result {0} Unit × World)
      → OnlyGone id before site.snapshots
      → OnlyGone id before (answer_after k p config now a site r).1.snapshots
  unfolding answer_after
  answer_after-OnlyGone a before site (err e, w) gone = gone
  answer_after-OnlyGone a before site (ok u, w) gone = gone

  remove_snapshot-OnlyGone :
      (site : Site H)
      → OnlyGone id site.snapshots (remove_snapshot k p config now id site).1.snapshots
  unfolding remove_snapshot
  remove_snapshot-OnlyGone site =
      answer_after-OnlyGone _ site.snapshots (record site { snapshots = _ }) _
        (OnlyGone-without id site.snapshots)

  DeletesOrStops : Site H → Answer ℕ × Site H → Type 0
  DeletesOrStops site (a, after) =
      ((¬ Deletable k p id site.snapshots) × ((e : Stop) × (a ≡ stopped e)) × (after ≡ site))
      ⊎ (Deletable k p id site.snapshots × OnlyGone id site.snapshots after.snapshots)

  guarded :
      (site : Site H) (e : Stop) (newest : Bool)
      → ((m : BackupManifest) × (read_snapshot_manifest id site.snapshots ≡ done m))
      → is_first id (backup_list p k site.snapshots) ≡ newest
      → DeletesOrStops site
          (if newest then (stopped e, site) else remove_snapshot k p config now id site)
  unfolding DeletesOrStops
  guarded site e true known h = inl ((λ (known, older). absurd cc), (_, refl), refl)
  guarded site e false known h = inr ((known, h), remove_snapshot-OnlyGone site)

  delete_known-cases :
      (site : Site H) (m : Answer BackupManifest)
      → read_snapshot_manifest id site.snapshots ≡ m
      → DeletesOrStops site (delete_known k p config now id site m)
  unfolding delete_known DeletesOrStops
  delete_known-cases site (stopped e) here =
      inl ((λ ((m, there), older). absurd cc), (_, refl), refl)
  delete_known-cases site (done m) here =
      guarded site _ (is_first id (backup_list p k site.snapshots)) (m, here) refl

  -- A deletion stops and leaves the directory and the world as they were if the snapshot has no
  -- readable manifest or is the first of the list, and otherwise it removes the snapshot with the
  -- id and leaves every other one.
  pub backup_delete-cases :
      (site : Site H)
      → let (a, after) = backup_delete k p config now id site in
        ((¬ Deletable k p id site.snapshots) × ((e : Stop) × (a ≡ stopped e)) × (after ≡ site))
        ⊎ (Deletable k p id site.snapshots × OnlyGone id site.snapshots after.snapshots)
  unfolding backup_delete DeletesOrStops
  backup_delete-cases site = delete_known-cases site (read_snapshot_manifest id site.snapshots) refl
