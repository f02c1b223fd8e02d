-- ===== src/State/Evolution.antt =====
-- How the operations may change the peers that are there.
use kintunnel.Base.{
  ℕ, ◌≤◌, ◌≡◌, refl, Bool, true, not, some, List, [], ◌∷◌, map, change_first, find, Bool-cases, inl,
  inr, arith,
}
use kintunnel.Types.{PeerRecord, PeerStatus}
use kintunnel.Peers.{is_deleted_status}
use kintunnel.State.Peers.{is_live}

-- The statuses in the order in which a peer passes through them.
abbrev pub rank : PeerStatus → ℕ
rank PeerStatus.active = 0
rank PeerStatus.disabled = 0
rank PeerStatus.revoked = 1
rank PeerStatus.deleted = 2

-- What identifies and configures a peer stays, and its status does not go back.
pub record Evolves (before after : PeerRecord) : Type 0 where
  pub id : after.id ≡ before.id
  pub name : after.name ≡ before.name
  pub public_key : after.public_key ≡ before.public_key
  pub private_key : after.private_key ≡ before.private_key
  pub address : after.address_v4 ≡ before.address_v4
  pub person : after.person_id ≡ before.person_id
  pub status : rank before.status ≤ rank after.status

pub Evolves-refl : (q : PeerRecord) → Evolves q q
Evolves-refl q = ground arith

pub Evolves-trans : (a b c : PeerRecord) → Evolves a b → Evolves b c → Evolves a c
Evolves-trans a b c f g = ground arith

-- Peer for peer, in the same order.
abbrev pub AllEvolve : List PeerRecord → List PeerRecord → Type 0
AllEvolve [] [] = Unit
AllEvolve (q ∷ qs) (r ∷ rs) = Evolves q r × AllEvolve qs rs
AllEvolve _ _ = ⊥

pub AllEvolve-refl : (qs : List PeerRecord) → AllEvolve qs qs
AllEvolve-refl [] = tt
AllEvolve-refl (q ∷ qs) = (Evolves-refl q, AllEvolve-refl qs)

pub AllEvolve-map :
    (f : PeerRecord → PeerRecord)
    → ((q : PeerRecord) → Evolves q (f q))
    → (qs : List PeerRecord) → AllEvolve qs (map f qs)
AllEvolve-map f h [] = tt
AllEvolve-map f h (q ∷ qs) = (h q, AllEvolve-map f h qs)

live-rank :
    (a b : PeerStatus)
    → rank a ≤ rank b
    → not (is_deleted_status b) ≡ true
    → not (is_deleted_status a) ≡ true
live-rank PeerStatus.deleted PeerStatus.deleted h k = k
live-rank PeerStatus.deleted PeerStatus.revoked h k = absurd (omega arith)
live-rank PeerStatus.deleted PeerStatus.active h k = absurd (omega arith)
live-rank PeerStatus.deleted PeerStatus.disabled h k = absurd (omega arith)
live-rank _ b h k = refl

pub live-Evolves : (q r : PeerRecord) → Evolves q r → is_live r ≡ true → is_live q ≡ true
live-Evolves q r e h = live-rank q.status r.status e.status h

pub AllEvolve-change_first :
    (test : PeerRecord → Bool) (f : PeerRecord → PeerRecord)
    → (qs : List PeerRecord) → ((q : PeerRecord) → find test qs ≡ some q → Evolves q (f q))
    → AllEvolve qs (change_first test f qs)
AllEvolve-change_first test f [] h = tt
AllEvolve-change_first test f (q ∷ qs) h = elim (Bool-cases (test q)) [
  | inl hit ↦ rw hit (h q (rw hit), AllEvolve-refl qs)
  | inr miss ↦ rw miss (Evolves-refl q, AllEvolve-change_first test f qs (λ r e. h r (rw miss e)))
]

pub AllEvolve-trans :
    (qs rs ss : List PeerRecord) → AllEvolve qs rs → AllEvolve rs ss → AllEvolve qs ss
AllEvolve-trans [] [] [] f g = tt
AllEvolve-trans [] [] (s ∷ ss) f g = absurd g
AllEvolve-trans [] (r ∷ rs) ss f g = absurd f
AllEvolve-trans (q ∷ qs) [] ss f g = absurd f
AllEvolve-trans (q ∷ qs) (r ∷ rs) [] f g = absurd g
AllEvolve-trans (q ∷ qs) (r ∷ rs) (s ∷ ss) f g =
    (Evolves-trans q r s f.0 g.0, AllEvolve-trans qs rs ss f.1 g.1)
