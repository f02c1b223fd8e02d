-- ===== src/State/Validity.antt =====
-- The invariant of the engine's state.
use kintunnel.Base.{
  ◌≤◌, ◌≡◌, refl, Bool, true, false, ◌&&◌, List, [], ◌∷◌, ◌++◌, any, or_default, length, arith,
  Text, text_eq, text_eq_iff, All,
}
use kintunnel.Types.{EngineState, PeerRecord}
use kintunnel.Ip.Allocation.{InSubnet}
use kintunnel.State.Peers.{is_live}
use kintunnel.State.Evolution.{Evolves, AllEvolve, live-Evolves}

-- No two live peers have the same `f`.
abbrev pub DistinctBy : (PeerRecord → Text) → List PeerRecord → Type 0
DistinctBy f [] = Unit
DistinctBy f (q ∷ qs) =
    (is_live q ≡ true → any (λ r. is_live r && text_eq (f r) (f q)) qs ≡ false) × DistinctBy f qs

pub record PeersDistinct (peers : List PeerRecord) : Type 0 where
  pub names : DistinctBy (λ q. q.name) peers
  pub keys : DistinctBy (λ q. q.public_key) peers
  pub addresses : DistinctBy (λ q. q.address_v4) peers

pub record IsValid (s : EngineState) : Type 0 where
  pub distinct : PeersDistinct s.peers
  pub bounded : length (or_default s.events []) ≤ 250
  pub inside : All (λ q. InSubnet s.server.tunnel_cidr_v4 q.address_v4) s.peers

pub inside-AllEvolve :
    (cidr : Text) (qs rs : List PeerRecord)
    → AllEvolve qs rs
    → All (λ q. InSubnet cidr q.address_v4) qs
    → All (λ q. InSubnet cidr q.address_v4) rs
inside-AllEvolve cidr [] [] e h = tt
inside-AllEvolve cidr [] (r ∷ rs) e h = absurd e
inside-AllEvolve cidr (q ∷ qs) [] e h = absurd e
inside-AllEvolve cidr (q ∷ qs) (r ∷ rs) e h =
    (rw (Evolves.address e.0) h.0, inside-AllEvolve cidr qs rs e.1 h.1)

module _ (f : PeerRecord → Text) (same : (q r : PeerRecord) → Evolves q r → f r ≡ f q) where
  any-AllEvolve :
      (v : Text) (qs rs : List PeerRecord)
      → AllEvolve qs rs
      → any (λ r. is_live r && text_eq (f r) v) qs ≡ false
      → any (λ r. is_live r && text_eq (f r) v) rs ≡ false
  any-AllEvolve v [] [] e h = refl
  any-AllEvolve v [] (r ∷ rs) e h = absurd e
  any-AllEvolve v (q ∷ qs) [] e h = absurd e
  any-AllEvolve v (q ∷ qs) (r ∷ rs) e h =
      ground (arith, any-AllEvolve v qs rs e.1, same q r e.0, live-Evolves q r e.0)

  DistinctBy-AllEvolve :
      (qs rs : List PeerRecord) → AllEvolve qs rs → DistinctBy f qs → DistinctBy f rs
  DistinctBy-AllEvolve [] [] e h = tt
  DistinctBy-AllEvolve [] (r ∷ rs) e h = absurd e
  DistinctBy-AllEvolve (q ∷ qs) [] e h = absurd e
  DistinctBy-AllEvolve (q ∷ qs) (r ∷ rs) e h = (
    (λ live. rw (same q r e.0) (any-AllEvolve (f q) qs rs e.1 (h.0 (live-Evolves q r e.0 live)))),
    DistinctBy-AllEvolve qs rs e.1 h.1,
  )

any_append :
    (f : PeerRecord → Text) (v : Text) (qs : List PeerRecord) (x : PeerRecord)
    → any (λ r. is_live r && text_eq (f r) v) qs ≡ false
    → text_eq (f x) v ≡ false
    → any (λ r. is_live r && text_eq (f r) v) (qs ++ x ∷ []) ≡ false
any_append f v [] x h k = ground arith
any_append f v (q ∷ qs) x h k = ground (arith, any_append f v qs x)

-- A new entry at the end, that no live peer clashes with.
DistinctBy-append :
    (f : PeerRecord → Text) (qs : List PeerRecord) (x : PeerRecord)
    → DistinctBy f qs
    → any (λ r. is_live r && text_eq (f r) (f x)) qs ≡ false
    → DistinctBy f (qs ++ x ∷ [])
DistinctBy-append f [] x h k = ((λ _. refl), tt)
DistinctBy-append f (q ∷ qs) x h k = (
  (λ live.
      any_append f (f q) qs x (h.0 live)
        (ground (arith, text_eq_iff (f x) (f q), text_eq_iff (f q) (f x)))),
  DistinctBy-append f qs x h.1 (ground arith),
)

-- What evolves from distinct peers is distinct.
pub PeersDistinct-AllEvolve :
    (qs rs : List PeerRecord) → AllEvolve qs rs → PeersDistinct qs → PeersDistinct rs
PeersDistinct-AllEvolve qs rs e d = record {
  names = DistinctBy-AllEvolve (λ q. q.name) (λ q r h. h.name) qs rs e d.names;
  keys = DistinctBy-AllEvolve (λ q. q.public_key) (λ q r h. h.public_key) qs rs e d.keys;
  addresses = DistinctBy-AllEvolve (λ q. q.address_v4) (λ q r h. h.address) qs rs e d.addresses;
}

-- A live peer has the value.
abbrev pub taken : (PeerRecord → Text) → Text → List PeerRecord → Bool
taken f v = any (λ r. is_live r && text_eq (f r) v)

pub PeersDistinct-append :
    (qs : List PeerRecord) (x : PeerRecord)
    → PeersDistinct qs
    → taken (λ q. q.name) x.name qs ≡ false
    → taken (λ q. q.public_key) x.public_key qs ≡ false
    → taken (λ q. q.address_v4) x.address_v4 qs ≡ false
    → PeersDistinct (qs ++ x ∷ [])
PeersDistinct-append qs x d n k a = record {
  names = DistinctBy-append (λ q. q.name) qs x d.names n;
  keys = DistinctBy-append (λ q. q.public_key) qs x d.keys k;
  addresses = DistinctBy-append (λ q. q.address_v4) qs x d.addresses a;
}
