-- ===== src/Apply/DryRuns.antt =====
-- The dry run of an apply on a valid state: it validates, and changes nothing.
use kintunnel.Base.{
  ℕ, ◌≡◌, refl, ap, ◌∙◌, true, false, ◌&&◌, ◌||◌, none, some, List, [], ◌∷◌, map, keep, any, All,
  arith, Text, text_eq, text_eq_iff, text_eq_refl, join, lit, Bool-cases, inl, inr,
}
use kintunnel.Types.{PeerRecord, EngineState}
use kintunnel.Types.Results.{PeerChanges, ApplyResult}
use kintunnel.Platform.{Platform}
use kintunnel.Peers.{is_peer_active, peer_api_status}
use kintunnel.State.Peers.{is_live}
use kintunnel.State.Validity.{IsValid, DistinctBy}
use kintunnel.Apply.{
  RuntimePeer, active_peers, by_key, by_runtime_key, diff_peers, plan_apply, first_duplicate,
  intended_peer, snapshot_dry_run, dry_run_apply, planned, returned, is_modified,
  peer_config_changed,
}
use kintunnel.Apply.Maps.{Entries, set_entry, from_entries, get_entry, has_key, sort}
use kintunnel.Apply.Plans.{lists, diff_peers-lists}

-- No two peers have the same `f`.
abbrev Apart : (PeerRecord → Text) → List PeerRecord → Type 0
Apart f [] = Unit
Apart f (q ∷ qs) = (any (λ r. text_eq (f r) (f q)) qs ≡ false) × Apart f qs

is_peer_active-live :
    (p : Platform) (now : ℕ) (q : PeerRecord) → is_peer_active p now q ≡ true → is_live q ≡ true
unfolding is_peer_active peer_api_status
is_peer_active-live p now q h = ground arith

module _ (p : Platform) (now : ℕ) (f : PeerRecord → Text) where
  any-keep :
      (v : Text) (qs : List PeerRecord)
      → any (λ r. is_live r && text_eq (f r) v) qs ≡ false
      → any (λ r. text_eq (f r) v) (keep (is_peer_active p now) qs) ≡ false
  any-keep v [] h = refl
  any-keep v (q ∷ qs) h = ground (arith, any-keep v qs, is_peer_active-live p now q)

  Apart-keep : (qs : List PeerRecord) → DistinctBy f qs → Apart f (keep (is_peer_active p now) qs)
  Apart-keep [] d = tt
  Apart-keep (q ∷ qs) d = elim (Bool-cases (is_peer_active p now q)) [
    | inl up ↦ rw up (any-keep (f q) qs (d.0 (is_peer_active-live p now q up)), Apart-keep qs d.1)
    | inr down ↦ rw down (Apart-keep qs d.1)
  ]

module _ (f : PeerRecord → Text) where
  abbrev Unseen : List Text → List PeerRecord → Type 0
  Unseen seen = All (λ r. any (text_eq (f r)) seen ≡ false)

  Unseen-none : (qs : List PeerRecord) → Unseen [] qs
  Unseen-none [] = tt
  Unseen-none (q ∷ qs) = (refl, Unseen-none qs)

  Unseen-more :
      (v : Text) (seen : List Text) (qs : List PeerRecord)
      → Unseen seen qs
      → any (λ r. text_eq (f r) v) qs ≡ false
      → Unseen (v ∷ seen) qs
  Unseen-more v seen [] u h = tt
  Unseen-more v seen (q ∷ qs) u h = (ground (arith, u.0), Unseen-more v seen qs u.1 (ground arith))

first_duplicate-none :
    (ks vs : List Text) (qs : List PeerRecord)
    → Unseen (λ q. q.public_key) ks qs
    → Unseen (λ q. q.address_v4) vs qs
    → Apart (λ q. q.public_key) qs
    → Apart (λ q. q.address_v4) qs
    → first_duplicate ks vs qs ≡ none
unfolding first_duplicate
first_duplicate-none ks vs [] uk uv ak av = refl
first_duplicate-none ks vs (q ∷ qs) uk uv ak av = rw uk.0 (
    rw uv.0 (
      first_duplicate-none (q.public_key ∷ ks) (q.address_v4 ∷ vs) qs
        (Unseen-more (λ r. r.public_key) q.public_key ks qs uk.1 ak.0)
        (Unseen-more (λ r. r.address_v4) q.address_v4 vs qs uv.1 av.0) ak.1 av.1))

-- The check for duplicates passes on a valid state.
pub first_duplicate-IsValid :
    (p : Platform) (now : ℕ) (s : EngineState)
    → IsValid s
    → first_duplicate [] [] (active_peers p now s) ≡ none
first_duplicate-IsValid p now s v =
    let qs = active_peers p now s in
    first_duplicate-none [] [] qs (Unseen-none (λ q. q.public_key) qs)
      (Unseen-none (λ q. q.address_v4) qs)
      (Apart-keep p now (λ q. q.public_key) s.peers v.distinct.keys)
      (Apart-keep p now (λ q. q.address_v4) s.peers v.distinct.addresses)

any-intended :
    (k : Text) (qs : List PeerRecord)
    → any (λ r. text_eq r.public_key k) (map intended_peer qs)
      ≡ any (λ q. text_eq q.public_key k) qs
unfolding intended_peer
any-intended k [] = refl
any-intended k (q ∷ qs) = ap (λ b. text_eq q.public_key k || b) (any-intended k qs)

lists-none : (ts : List Text) → ((k : Text) → lists ts k ≡ false) → ts ≡ []
lists-none [] h = refl
lists-none (t ∷ ts) h = ground (arith, h t, text_eq_refl t)

module _ {ℓ κ} {A : Type ℓ} {B : Type κ} (g : A → B) where
  abbrev on_values : Entries A → Entries B
  on_values [] = []
  on_values ((k, v) ∷ m) = (k, g v) ∷ on_values m

  set_entry-on_values :
      (k : Text) (v : A) (m : Entries A)
      → set_entry k (g v) (on_values m) ≡ on_values (set_entry k v m)
  unfolding set_entry
  set_entry-on_values k v [] = refl
  set_entry-on_values k v ((j, w) ∷ m) = ground (arith, set_entry-on_values k v m)

  from_entries-on_values :
      (m l : Entries A) → from_entries (on_values m) (on_values l) ≡ on_values (from_entries m l)
  unfolding from_entries
  from_entries-on_values m [] = refl
  from_entries-on_values m ((k, v) ∷ l) =
      ap (λ x. from_entries x (on_values l)) (set_entry-on_values k v m)
      ∙ from_entries-on_values (set_entry k v m) l

  get_entry-on_values :
      (k : Text) (v : A) (m : Entries A)
      → get_entry k m ≡ some v
      → get_entry k (on_values m) ≡ some (g v)
  unfolding get_entry
  get_entry-on_values k v [] h = cc
  get_entry-on_values k v ((j, w) ∷ m) h = ground (arith, get_entry-on_values k v m)

-- Each key stands once.
module _ {ℓ} {A : Type ℓ} where
  abbrev Once : Entries A → Type 0
  Once [] = Unit
  Once ((k, v) ∷ m) = (has_key k m ≡ false) × Once m

  has_key-set :
      (k j : Text) (v : A) (m : Entries A)
      → has_key k m ≡ false
      → text_eq j k ≡ false
      → has_key k (set_entry j v m) ≡ false
  unfolding set_entry
  has_key-set k j v [] h e = ground arith
  has_key-set k j v ((i, w) ∷ m) h e = ground (arith, has_key-set k j v m)

  Once-set : (k : Text) (v : A) (m : Entries A) → Once m → Once (set_entry k v m)
  unfolding set_entry
  Once-set k v [] o = (refl, tt)
  Once-set k v ((j, w) ∷ m) o = elim (Bool-cases (text_eq j k)) [
    | inl same ↦ rw same (o.0, o.1)
    | inr other ↦ rw other (
      has_key-set j k v m o.0 (ground (arith, text_eq_iff j k, text_eq_iff k j)),
      Once-set k v m o.1,
    )
  ]

  Once-from_entries : (m l : Entries A) → Once m → Once (from_entries m l)
  unfolding from_entries
  Once-from_entries m [] o = o
  Once-from_entries m ((k, v) ∷ l) o = Once-from_entries (set_entry k v m) l (Once-set k v m o)

  abbrev Finds : Entries A → Entries A → Type ℓ
  Finds m = All (λ e. get_entry e.0 m ≡ some e.1)

  Finds-more :
      (k : Text) (v : A) (m l : Entries A) → has_key k l ≡ false → Finds m l → Finds ((k, v) ∷ m) l
  unfolding get_entry
  Finds-more k v m [] h f = tt
  Finds-more k v m ((j, w) ∷ l) h f =
      (ground (arith, f.0, text_eq_iff j k, text_eq_iff k j), Finds-more k v m l (ground arith) f.1)

  Finds-Once : (m : Entries A) → Once m → Finds m m
  unfolding get_entry
  Finds-Once [] o = tt
  Finds-Once ((k, v) ∷ m) o = (rw (text_eq_refl k), Finds-more k v m m o.0 (Finds-Once m o.1))

sorted_one : (a : Text) → text_eq (join (lit ",") (sort (a ∷ []))) a ≡ true
unfolding sort join
sorted_one a = text_eq_refl a

unmodified : (q : PeerRecord) → is_modified q (some (intended_peer q)) ≡ false
unfolding intended_peer peer_config_changed
unmodified q = rw (sorted_one q.address_v4) (ground arith)

keep-unmodified :
    (m l : Entries PeerRecord)
    → Finds m l
    → keep (λ e. is_modified e.1 (get_entry e.0 (on_values intended_peer m))) l ≡ []
keep-unmodified m [] f = refl
keep-unmodified m ((k, q) ∷ l) f =
    rw (get_entry-on_values intended_peer k q m f.0) (rw (unmodified q) (keep-unmodified m l f.1))

by_key-intended :
    (qs : List PeerRecord)
    → by_runtime_key (map intended_peer qs) ≡ on_values intended_peer (by_key qs)
unfolding by_key by_runtime_key intended_peer
by_key-intended qs =
    ap (from_entries []) (mapped qs)
    ∙ from_entries-on_values intended_peer [] (map (λ q. (q.public_key, q)) qs)
  where
    mapped :
        (qs : List PeerRecord)
        → map (λ (q : RuntimePeer). (q.public_key, q)) (map intended_peer qs)
          ≡ on_values intended_peer (map (λ q. (q.public_key, q)) qs)
    mapped [] = refl
    mapped (q ∷ qs) = ap (λ m. (q.public_key, intended_peer q) ∷ m) (mapped qs)

-- No peer is added, removed or modified.
pub record Empty (changes : PeerChanges) : Type 0 where
  pub added : changes.added ≡ []
  pub removed : changes.removed ≡ []
  pub modified : changes.modified ≡ []

-- Against the peers that it intends, a set of peers has no change.
pub diff_peers-intended : (qs : List PeerRecord) → Empty (diff_peers qs (map intended_peer qs))
diff_peers-intended qs = record {
  added =
      lists-none _
        (λ k. (diff_peers-lists qs (map intended_peer qs) k).0 ∙ ground (arith, any-intended k qs));
  removed =
      lists-none _
        (λ k. (diff_peers-lists qs (map intended_peer qs) k).1 ∙ ground (arith, any-intended k qs));
  modified =
      unfold diff_peers in
      ap (λ m. map (λ e. e.0) (keep (λ e. is_modified e.1 (get_entry e.0 m)) (by_key qs)))
        (by_key-intended qs)
      ∙ ap (map (λ e. e.0)) (
          keep-unmodified (by_key qs) (by_key qs) (
            Finds-Once (by_key qs)
              (unfold by_key in Once-from_entries [] (map (λ q. (q.public_key, q)) qs) tt)));
}

-- The dry run of an apply accepts every valid state: it throws for no duplicate, and returns a
-- result that is ok, is not applied, plans no bootstrap, has the state's revision, and adds,
-- removes and modifies no peer.
pub dry_run_apply-IsValid :
    (p : Platform) (now finished : ℕ) (s : EngineState)
    → IsValid s
    → (r : ApplyResult) × (dry_run_apply p now finished s ≡ returned r)
      × (r.ok ≡ true)
      × (r.applied ≡ false)
      × (r.bootstrap ≡ false)
      × (r.revision ≡ s.revision)
      × Empty r.peer_changes
unfolding dry_run_apply planned plan_apply snapshot_dry_run
dry_run_apply-IsValid p now finished s v = (
  _,
  ap (planned p now finished s) (first_duplicate-IsValid p now s v),
  refl,
  refl,
  refl,
  refl,
  diff_peers-intended (active_peers p now s),
)
