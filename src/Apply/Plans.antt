-- ===== src/Apply/Plans.antt =====
-- The plan of an apply: exactly the missing peers are added, exactly the unwanted ones removed.
use kintunnel.Base.{
  ℕ, ◌≡◌, refl, ap, ◌∙◌, Bool, not, ◌&&◌, ◌||◌, List, [], ◌∷◌, map, keep, any, arith, Text, text_eq,
  text_eq_iff, Bool-cases, inl, inr,
}
use kintunnel.Types.{PeerRecord, EngineState}
use kintunnel.Platform.{Platform}
use kintunnel.Apply.{
  RuntimePeer, RuntimeState, active_peers, by_key, by_runtime_key, diff_peers, plan_apply,
  is_missing,
}
use kintunnel.Apply.Maps.{Entries, set_entry, from_entries, get_entry, has_key}

-- A list of texts has one.
abbrev pub lists : List Text → Text → Bool
lists ts k = any (λ t. text_eq t k) ts

module _ {ℓ} {A : Type ℓ} where
  has_key-set_entry :
      (k j : Text) (v : A) (m : Entries A)
      → has_key k (set_entry j v m) ≡ (text_eq j k || has_key k m)
  unfolding set_entry
  has_key-set_entry k j v [] = refl
  has_key-set_entry k j v ((i, w) ∷ m) = ground (arith, has_key-set_entry k j v m, text_eq_iff i j)

  has_key-from_entries :
      (k : Text) (l m : Entries A) → has_key k (from_entries m l) ≡ (has_key k m || has_key k l)
  unfolding from_entries
  has_key-from_entries k [] m = ground arith
  has_key-from_entries k ((j, v) ∷ l) m =
      ground (arith, has_key-from_entries k l (set_entry j v m), has_key-set_entry k j v m)

  pub is_missing-get_entry :
      (k : Text) (m : Entries A) → is_missing (get_entry k m) ≡ not (has_key k m)
  unfolding get_entry
  is_missing-get_entry k [] = refl
  is_missing-get_entry k ((j, v) ∷ m) = ground (arith, is_missing-get_entry k m)

  -- The keys of the entries whose key passes a test.
  pub lists-keep :
      (test : Text → Bool) (k : Text) (m : Entries A)
      → lists (map (λ e. e.0) (keep (λ e. test e.0) m)) k ≡ (has_key k m && test k)
  lists-keep test k [] = refl
  lists-keep test k ((j, v) ∷ m) = elim (Bool-cases (text_eq j k)) [
    | inl same ↦
        let e : test j ≡ test k = ap test ((text_eq_iff j k).0 same) in
        ground (arith, lists-keep test k m)
    | inr other ↦ ground (arith, lists-keep test k m)
  ]

pub has_key-by_key :
    (k : Text) (qs : List PeerRecord) → has_key k (by_key qs) ≡ any (λ q. text_eq q.public_key k) qs
unfolding by_key
has_key-by_key k qs = has_key-from_entries k (map (λ q. (q.public_key, q)) qs) [] ∙ mapped qs
  where
    mapped :
        (qs : List PeerRecord)
        → has_key k (map (λ q. (q.public_key, q)) qs) ≡ any (λ q. text_eq q.public_key k) qs
    mapped [] = refl
    mapped (q ∷ qs) = ap (λ b. text_eq q.public_key k || b) (mapped qs)

has_key-by_runtime_key :
    (k : Text) (qs : List RuntimePeer)
    → has_key k (by_runtime_key qs) ≡ any (λ q. text_eq q.public_key k) qs
unfolding by_runtime_key
has_key-by_runtime_key k qs =
    has_key-from_entries k (map (λ q. (q.public_key, q)) qs) [] ∙ mapped qs
  where
    mapped :
        (qs : List RuntimePeer)
        → has_key k (map (λ q. (q.public_key, q)) qs) ≡ any (λ q. text_eq q.public_key k) qs
    mapped [] = refl
    mapped (q ∷ qs) = ap (λ b. text_eq q.public_key k || b) (mapped qs)

-- The peers to add are those that are wanted and not there, the peers to remove are those that are
-- there and not wanted.
pub diff_peers-lists :
    (intended : List PeerRecord) (current : List RuntimePeer) (k : Text)
    → let wanted = any (λ q. text_eq q.public_key k) intended in
      let there = any (λ q. text_eq q.public_key k) current in
      let changes = diff_peers intended current in
      (lists changes.added k ≡ (wanted && not there))
      × (lists changes.removed k ≡ (there && not wanted))
unfolding diff_peers
diff_peers-lists intended current k = (
  lists-keep (λ j. is_missing (get_entry j (by_runtime_key current))) k (by_key intended)
      ∙ ground (
        arith,
        has_key-by_key k intended,
        has_key-by_runtime_key k current,
        is_missing-get_entry k (by_runtime_key current),
      ),
  lists-keep (λ j. is_missing (get_entry j (by_key intended))) k (by_runtime_key current)
      ∙ ground (
        arith,
        has_key-by_key k intended,
        has_key-by_runtime_key k current,
        is_missing-get_entry k (by_key intended),
      ),
)

-- For every key, the plan of an apply lists it for addition exactly if an active peer has it and
-- the runtime does not, and for removal exactly if the runtime has it and no active peer does; it
-- plans a bootstrap exactly if the interface does not exist.
pub plan_apply-lists :
    (p : Platform) (now : ℕ) (s : EngineState) (r : RuntimeState) (k : Text)
    → let wanted = any (λ q. text_eq q.public_key k) (active_peers p now s) in
      let there = any (λ q. text_eq q.public_key k) r.peers in
      let plan = plan_apply p now s r in
      (lists plan.add_peers k ≡ (wanted && not there))
      × (lists plan.remove_peers k ≡ (there && not wanted))
      × (plan.bootstrap ≡ not r.exists)
unfolding plan_apply
plan_apply-lists p now s r k =
    let (a, b) = diff_peers-lists (active_peers p now s) r.peers k in (a, b, refl)
