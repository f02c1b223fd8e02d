-- ===== src/State/Progress.antt =====
-- What any operation may do to the state: peers may be added after those that are there.
use kintunnel.Base.{◌≤◌, ◌≡◌, refl, ◌∙◌, List, [], ◌∷◌, ◌++◌, arith}
use kintunnel.Types.{PeerRecord}
use kintunnel.State.Context.{Context}
use kintunnel.State.Evolution.{Evolves, Evolves-refl, Evolves-trans, AllEvolve}
use kintunnel.State.Effect.{Effect, Extends, Extends-none, Extends-trans}

-- The first peers of the second list are those of the first, evolved.
abbrev pub Continues : List PeerRecord → List PeerRecord → Type 0
Continues [] rs = Unit
Continues (q ∷ qs) [] = ⊥
Continues (q ∷ qs) (r ∷ rs) = Evolves q r × Continues qs rs

pub Continues-refl : (qs : List PeerRecord) → Continues qs qs
Continues-refl [] = tt
Continues-refl (q ∷ qs) = (Evolves-refl q, Continues-refl qs)

pub Continues-append : (qs rs : List PeerRecord) → Continues qs (qs ++ rs)
Continues-append [] rs = tt
Continues-append (q ∷ qs) rs = (Evolves-refl q, Continues-append qs rs)

Continues-AllEvolve : (qs rs : List PeerRecord) → AllEvolve qs rs → Continues qs rs
Continues-AllEvolve [] rs e = tt
Continues-AllEvolve (q ∷ qs) [] e = absurd e
Continues-AllEvolve (q ∷ qs) (r ∷ rs) e = (e.0, Continues-AllEvolve qs rs e.1)

pub Continues-trans :
    (qs rs ss : List PeerRecord) → Continues qs rs → Continues rs ss → Continues qs ss
Continues-trans [] rs ss f g = tt
Continues-trans (q ∷ qs) [] ss f g = absurd f
Continues-trans (q ∷ qs) (r ∷ rs) [] f g = absurd g
Continues-trans (q ∷ qs) (r ∷ rs) (s ∷ ss) f g =
    (Evolves-trans q r s f.0 g.0, Continues-trans qs rs ss f.1 g.1)

-- The peers continue, the server's settings stay, the revision does not fall, and the log grows.
pub record Progress (c c' : Context) : Type 0 where
  pub peers : Continues c.state.peers c'.state.peers
  pub server : c'.state.server ≡ c.state.server
  pub revision : c.state.revision ≤ c'.state.revision
  pub log : Extends c c'

pub Progress-Effect : {c c' : Context} → Effect c c' → Progress c c'
Progress-Effect {c} {c'} e = record {
  peers = Continues-AllEvolve c.state.peers c'.state.peers e.peers;
  server = e.server;
  revision = e.revision;
  log = e.log;
}

pub Progress-refl : (c : Context) → Progress c c
Progress-refl c = record {
  peers = Continues-refl c.state.peers;
  server = refl;
  revision = omega arith;
  log = Extends-none c c refl refl;
}

pub Progress-trans : {a b c : Context} → Progress a b → Progress b c → Progress a c
Progress-trans {a} {b} {c} f g = record {
  peers = Continues-trans a.state.peers b.state.peers c.state.peers f.peers g.peers;
  server = g.server ∙ f.server;
  revision = omega (arith, f.revision, g.revision);
  log = Extends-trans f.log g.log;
}
