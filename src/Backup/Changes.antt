-- ===== src/Backup/Changes.antt =====
-- What the diff of a restore plan lists.
use kintunnel.Base.{
  ◌≡◌, refl, ap, Bool, true, false, not, ◌&&◌, ◌||◌, Option, none, some, List, [], ◌∷◌, ◌++◌, map,
  keep, any, arith, Text, text_eq, text_eq_iff, Bool-cases, inl, inr,
}
use kintunnel.Types.{EngineState, PeerRecord}
use kintunnel.Apply.{by_key, is_missing}
use kintunnel.Apply.Maps.{Entries, get_entry, has_key}
use kintunnel.Apply.Plans.{lists, has_key-by_key, lists-keep, is_missing-get_entry}
use kintunnel.State.Peers.{live_peers}
use kintunnel.Backup.Diff.{compute_peer_diff, differs}

lists-append : (s t : List Text) (k : Text) → lists (s ++ t) k ≡ (lists s k || lists t k)
lists-append [] t k = refl
lists-append (x ∷ s) t k = ground (arith, lists-append s t k)

lists-keys : {A : Type 0} (k : Text) (m : Entries A) → lists (map (λ e. e.0) m) k ≡ has_key k m
lists-keys k [] = refl
lists-keys k ((j, v) ∷ m) = ap (λ b. text_eq j k || b) (lists-keys k m)

-- What is kept of a map has a key only if the map has it with a value that passes the test.
lists-keep-only :
    (test : Text → PeerRecord → Bool) (k : Text) (m : Entries PeerRecord)
    → lists (map (λ e. e.0) (keep (λ e. test e.0 e.1) m)) k ≡ true
    → any (λ e. text_eq e.0 k && test e.0 e.1) m ≡ true
lists-keep-only test k [] h = h
lists-keep-only test k ((j, v) ∷ m) h = ground (arith, lists-keep-only test k m)

differs-there :
    (peer : PeerRecord) (o : Option PeerRecord) → differs peer o ≡ true → is_missing o ≡ false
differs-there peer none h = absurd cc
differs-there peer (some q) h = refl

modified-both :
    (new : Entries PeerRecord) (k : Text) (m : Entries PeerRecord)
    → any (λ e. text_eq e.0 k && differs e.1 (get_entry e.0 new)) m ≡ true
    → (has_key k m && has_key k new) ≡ true
modified-both new k [] h = absurd cc
modified-both new k ((j, v) ∷ m) h =
    elim (Bool-cases (text_eq j k && differs v (get_entry j new))) [
      | inl hit ↦
          let same : text_eq j k ≡ true = ground arith in
          let changed : differs v (get_entry j new) ≡ true = ground arith in
          let there = differs-there v (get_entry j new) changed in
          let kept = is_missing-get_entry j new in
          let moved = ap (λ i. has_key i new) ((text_eq_iff j k).0 same) in
          ground (arith, there, kept, moved)
      | inr miss ↦ ground (arith, modified-both new k m)
    ]

-- x
pub compute_peer_diff-lists :
    (snapshot current : EngineState) (k : Text)
    → let before = any (λ q. text_eq q.public_key k) (live_peers snapshot) in
      let now = any (λ q. text_eq q.public_key k) (live_peers current) in
      let diff = compute_peer_diff snapshot current in
      (lists diff.added k ≡ (before && not now))
      × (lists diff.removed k ≡ (now && not before))
      × (lists diff.affected k ≡ (before || now))
      × (lists diff.modified k ≡ true → (before && now) ≡ true)
unfolding compute_peer_diff
compute_peer_diff-lists snapshot current k =
    let old : Entries PeerRecord = by_key (live_peers snapshot) in
    let new : Entries PeerRecord = by_key (live_peers current) in
    let in_old = has_key-by_key k (live_peers snapshot) in
    let in_new = has_key-by_key k (live_peers current) in
    let added = lists-keep (λ j. is_missing (get_entry j new)) k old in
    let removed = lists-keep (λ j. is_missing (get_entry j old)) k new in
    let old_missing = is_missing-get_entry k old in
    let new_missing = is_missing-get_entry k new in
    let all_keys =
      lists-append (map (λ e. e.0) old)
        (map (λ e. e.0) (keep (λ e. is_missing (get_entry e.0 old)) new)) k in
    let old_keys = lists-keys k old in
    (
      ground (arith, in_old, in_new, added, new_missing),
      ground (arith, in_old, in_new, removed, old_missing),
      ground (arith, in_old, in_new, removed, old_missing, all_keys, old_keys),
      λ h.
          let both =
            modified-both new k old
              (lists-keep-only (λ j v. differs v (get_entry j new)) k old h) in
          ground (arith, in_old, in_new, both),
    )
