-- ===== src/Backup/Retention.antt =====
-- The pruning of snapshots leaves the newest ones.
use kintunnel.Base.{
  ℕ, ◌+◌, ◌≤◌, ◌<◌, ◌≡◌, refl, sym, ap, ◌∙◌, Bool, true, false, not, ◌&&◌, ◌||◌, List, [], ◌∷◌, map,
  keep, any, length, arith, ltb, Text, text_eq, text_eq_iff, text_eq_refl, Bool-cases, inl, inr,
}
use kintunnel.Base.Filters.{any-keep, any_weaken, length-keep-not, any-keep-not, no_length}
use kintunnel.Newest.{newest_split, length-keep_split, newest_before}
use kintunnel.Backup.{Snapshot, kept, dropped, prune_old_snapshots}

abbrev has_id : Text → Snapshot → Bool
has_id id s = text_eq s.id id

-- No two directories have the same name.
abbrev pub DistinctIds : List Snapshot → Type 0
DistinctIds snaps = (id : Text) → length (keep (has_id id) snaps) ≤ 1

abbrev gone : List Snapshot → Snapshot → Bool
gone es s = any (text_eq s.id) (map (λ e. e.id) es)

text_eq_sym : (s t : Text) → text_eq s t ≡ true → text_eq t s ≡ true
text_eq_sym s t h = (text_eq_iff t s).1 (sym ((text_eq_iff s t).0 h))

one_has_id :
    (id : Text) (es : List Snapshot)
    → any (text_eq id) (map (λ e. e.id) es) ≡ true
    → 1 ≤ length (keep (has_id id) es)
one_has_id id [] h = absurd cc
one_has_id id (e ∷ es) h = ground (arith, one_has_id id es, text_eq_sym id e.id)

-- Snapshots of other ids are not gone.
keep-gone-apart :
    (es ks : List Snapshot)
    → ((id : Text) → length (keep (has_id id) ks) + length (keep (has_id id) es) ≤ 1)
    → length (keep (gone es) ks) ≡ 0
keep-gone-apart es [] apart = refl
keep-gone-apart es (k ∷ ks) apart =
    let rest = keep-gone-apart es ks λ id. ground (arith, apart id) in
    elim (Bool-cases (gone es k)) [
      | inl there ↦ absurd (ground (arith, one_has_id k.id es there, apart k.id, text_eq_refl k.id))
      | inr clear ↦ ground (arith, rest)
    ]

-- What is in the list is gone.
keep-gone-all :
    (es ds : List Snapshot)
    → ((id : Text)
        → any (text_eq id) (map (λ e. e.id) ds) ≡ true
        → any (text_eq id) (map (λ e. e.id) es) ≡ true)
    → length (keep (gone es) ds) ≡ length ds
keep-gone-all es [] within = refl
keep-gone-all es (d ∷ ds) within =
    let here = within d.id (ground (arith, text_eq_refl d.id)) in
    let rest = keep-gone-all es ds λ id h. within id (ground arith) in ground (arith, here, rest)

module _ (retention : ℕ) (snaps : List Snapshot) (distinct : DistinctIds snaps) where
  abbrev ks : List Snapshot
  ks = kept retention snaps

  abbrev ds : List Snapshot
  ds = dropped retention snaps

  abbrev after : List Snapshot
  after = keep (λ s. not (gone ds s)) snaps

  abbrev removed : List Snapshot
  removed = keep (gone ds) snaps

  split_count :
      (q : Snapshot → Bool) → length (keep q ks) + length (keep q ds) ≡ length (keep q snaps)
  unfolding kept dropped
  split_count q = length-keep_split (λ s. s.mtime) q retention snaps

  kept-clear : length (keep (gone ds) ks) ≡ 0
  kept-clear = keep-gone-apart ds ks λ id. omega (arith, split_count (has_id id), distinct id)

  dropped-gone : length (keep (gone ds) ds) ≡ length ds
  dropped-gone = keep-gone-all ds ds λ id h. h

  split_any : (f : Snapshot → Bool) → any f snaps ≡ (any f ks || any f ds)
  unfolding kept dropped
  split_any = (newest_split (λ s. s.mtime) retention snaps).2

  any-removed : (f : Snapshot → Bool) → any f removed ≡ true → any f ds ≡ true
  any-removed f h =
      let both : Snapshot → Bool = λ s. gone ds s && f s in
      let in_all = any-keep (gone ds) f snaps in
      let in_kept = any-keep (gone ds) f ks in
      let none_kept = ap (any f) (no_length (keep (gone ds) ks) kept-clear) in
      let found : any both ds ≡ true = ground (arith, in_all, in_kept, none_kept, split_any both) in
      any_weaken both f ds (λ s k. ground arith) found

  any-after : (f : Snapshot → Bool) → any f after ≡ true → any f ks ≡ true
  any-after f h =
      let stays : Snapshot → Bool = λ s. not (gone ds s) in
      let both : Snapshot → Bool = λ s. stays s && f s in
      let in_all = any-keep stays f snaps in
      let in_dropped = any-keep stays f ds in
      let none_dropped =
        ap (any f)
          (no_length (keep stays ds) (omega (arith, length-keep-not (gone ds) ds, dropped-gone))) in
      let found : any both ks ≡ true =
        ground (arith, in_all, in_dropped, none_dropped, split_any both) in
      any_weaken both f ks (λ s k. ground arith) found

  kept-dropped_length : length ks + length ds ≡ length snaps
  unfolding kept dropped
  kept-dropped_length = (newest_split (λ s. s.mtime) retention snaps).1

  after-kept : length after ≡ length ks
  after-kept = omega (
    arith,
    length-keep-not (gone ds) snaps,
    split_count (gone ds),
    kept-clear,
    dropped-gone,
    kept-dropped_length,
  )

  removed-dropped : length removed ≡ length ds
  removed-dropped = omega (arith, split_count (gone ds), kept-clear, dropped-gone)

  kept_order : any (λ t. any (λ d. ltb t.mtime d.mtime) ds) ks ≡ false
  unfolding kept dropped
  kept_order = newest_before (λ s. s.mtime) ks ds (newest_split (λ s. s.mtime) retention snaps).4

  none_newer_removed : any (λ t. any (λ d. ltb t.mtime d.mtime) removed) after ≡ false
  none_newer_removed = elim (Bool-cases (any (λ t. any (λ d. ltb t.mtime d.mtime) removed) after)) [
    | inl newer ↦
        let among_kept = any-after _ newer in
        let among_both =
          any_weaken _ (λ t. any (λ d. ltb t.mtime d.mtime) ds) ks
            (λ t h. any-removed (λ d. ltb t.mtime d.mtime) h) among_kept in
        absurd (cc (among_both, kept_order))
    | inr fine ↦ fine
  ]

  room_left : length after < retention → removed ≡ []
  unfolding kept dropped
  room_left h =
      let all_kept =
        (newest_split (λ s. s.mtime) retention snaps).3 (omega (arith, after-kept, h)) in
      no_length removed (omega (arith, removed-dropped, ap length all_kept))

  few : length after ≤ retention
  unfolding kept dropped
  few = omega (arith, after-kept, (newest_split (λ s. s.mtime) retention snaps).0)

length-map : (es : List Snapshot) → length (map (λ e. e.id) es) ≡ length es
length-map [] = refl
length-map (e ∷ es) = omega (arith, length-map es)

-- In a directory whose snapshots have distinct ids, pruning leaves at most the retention count of
-- snapshots and reports their number, reports as many deleted ids as it removes snapshots, removes
-- none while there is room, leaves or removes each snapshot, and removes none that was modified
-- later than one that it leaves.
pub prune_old_snapshots-newest :
    (retention : ℕ) (snaps : List Snapshot)
    → DistinctIds snaps
    → let (result, after) = prune_old_snapshots retention snaps in
      let removed = keep (λ s. any (text_eq s.id) result.deleted) snaps in
      (result.kept_count ≡ length after)
      × (length after ≤ retention)
      × (length result.deleted ≡ length removed)
      × (length after < retention → removed ≡ [])
      × ((f : Snapshot → Bool) → any f snaps ≡ (any f after || any f removed))
      × (any (λ t. any (λ d. ltb t.mtime d.mtime) removed) after ≡ false)
unfolding prune_old_snapshots
prune_old_snapshots-newest retention snaps distinct = (
  sym (after-kept retention snaps distinct),
  few retention snaps distinct,
  length-map (dropped retention snaps) ∙ sym (removed-dropped retention snaps distinct),
  room_left retention snaps distinct,
  (λ f. any-keep-not (gone (dropped retention snaps)) f snaps),
  none_newer_removed retention snaps distinct,
)
