-- ===== src/State/Sweep/Effects.antt =====
-- The sweep as an effect on the state, and what it leaves alone.
use kintunnel.Base.{
  ℕ, ◌≤◌, ◌⊎◌, ◌≡◌, refl, false, List, [], ◌∷◌, arith, Text, Bool-cases, inl, inr, ◌∙◌,
}
use kintunnel.Types.{PeerRecord}
use kintunnel.Platform.{Platform}
use kintunnel.State.Context.{Context}
use kintunnel.State.Sweep.{
  SweepOptions, Tally, Expiry, unaffected, overdue, due_soon, expiry_of, sweep_expired, sweep_peers,
  sweep_as, sweep_overdue, sweep_due_soon, last_warned_before, lookup,
}
use kintunnel.State.Evolution.{Evolves, Evolves-refl, AllEvolve, rank}
use kintunnel.State.Effect.{
  Effect, Effect-refl, Effect-trans, Effect-append_event, revision-append_event, Extends-none,
  Extends-trans,
}

-- One peer of the loop: the peer evolves, and the context gets events only.
record Swept (q : PeerRecord) (t : Tally) (r : PeerRecord) (t' : Tally) : Type 0 where
  peer : Evolves q r
  effect : Effect t.context t'.context
  revision : t'.context.state.revision ≡ t.context.state.revision

sweep_overdue-Swept :
    (p : Platform) (opts : SweepOptions) (now : Text) (q : PeerRecord) (text : Text) (ms : ℕ)
    (t : Tally)
    → rank q.status ≤ 1
    → let r = sweep_overdue p opts now q text ms t in Swept q t r.0 r.1
unfolding sweep_overdue
sweep_overdue-Swept p opts now q text ms t h = elim (Bool-cases opts.auto_revoke) [
  | inl auto ↦ rw auto (record {
    peer = ground arith;
    effect = Effect-trans (Effect-append_event p _ _) (Effect-append_event p _ _);
    revision = revision-append_event p _ _ ∙ revision-append_event p _ _;
  })
  | inr warn ↦ rw warn (record {
    peer = Evolves-refl q;
    effect = Effect-append_event p _ _;
    revision = revision-append_event p _ _;
  })
]

sweep_due_soon-Swept :
    (p : Platform) (opts : SweepOptions) (now : ℕ) (warned : List (Text × Text)) (q : PeerRecord)
    → (text : Text) (ms : ℕ) (t : Tally)
    → let r = sweep_due_soon p opts now warned q text ms t in Swept q t r.0 r.1
unfolding sweep_due_soon
sweep_due_soon-Swept p opts now warned q text ms t =
    elim (Bool-cases (last_warned_before p now (lookup q.id warned))) [
      | inl old ↦ rw old (record {
        peer = Evolves-refl q;
        effect = Effect-append_event p _ _;
        revision = revision-append_event p _ _;
      })
      | inr recent ↦
          rw recent
            (record { peer = Evolves-refl q; effect = Effect-refl t.context; revision = refl })
    ]

-- What needs no change in the source needs a live, active peer here.
expiry_active :
    (p : Platform) (opts : SweepOptions) (now : ℕ) (q : PeerRecord) (e : Expiry)
    → expiry_of p opts now q ≡ e
    → (e ≡ unaffected) ⊎ (rank q.status ≤ 1)
unfolding expiry_of
expiry_active p opts now q e h = ground arith

sweep_as-Swept :
    (p : Platform) (opts : SweepOptions) (now : ℕ) (warned : List (Text × Text)) (q : PeerRecord)
    → (t : Tally) (e : Expiry) → expiry_of p opts now q ≡ e
    → let r = sweep_as p opts now warned q t e in Swept q t r.0 r.1
unfolding sweep_as
sweep_as-Swept p opts now warned q t unaffected h = record {
  peer = Evolves-refl q;
  effect = Effect-refl t.context;
  revision = refl;
}
sweep_as-Swept p opts now warned q t (overdue text ms) h = elim (expiry_active p opts now q _ h) [
  | inl none_due ↦ cc
  | inr low ↦ sweep_overdue-Swept p opts (p.iso now) q text ms t low
]
sweep_as-Swept p opts now warned q t (due_soon text ms) h =
    sweep_due_soon-Swept p opts now warned q text ms t

record SweptAll (qs : List PeerRecord) (t : Tally) (rs : List PeerRecord) (t' : Tally)
    : Type 0 where
  peers : AllEvolve qs rs
  effect : Effect t.context t'.context
  revision : t'.context.state.revision ≡ t.context.state.revision

sweep_peers-SweptAll :
    (p : Platform) (opts : SweepOptions) (now : ℕ) (warned : List (Text × Text))
    → (qs : List PeerRecord) (t : Tally)
    → let r = sweep_peers p opts now warned qs t in SweptAll qs t r.0 r.1
unfolding sweep_peers
sweep_peers-SweptAll p opts now warned [] t = record {
  peers = tt;
  effect = Effect-refl t.context;
  revision = refl;
}
sweep_peers-SweptAll p opts now warned (q ∷ qs) t =
    let e = expiry_of p opts now q in
    let first = sweep_as-Swept p opts now warned q t e refl in
    let rest = sweep_peers-SweptAll p opts now warned qs (sweep_as p opts now warned q t e).1 in
    record {
      peers = (first.peer, rest.peers);
      effect = Effect-trans first.effect rest.effect;
      revision = rest.revision ∙ first.revision;
    }

start_tally : Context → Tally
start_tally c = record {
  context = c;
  warned_next = c.state.expiry_warned;
  result = record { expired = []; auto_revoked = []; expiring_soon = [] };
  mutated = false;
}

pub sweep_expired-Effect :
    (p : Platform) (opts : SweepOptions) (now : ℕ) (c : Context)
    → Effect c (sweep_expired p opts now c).1
unfolding sweep_expired start_tally
sweep_expired-Effect p opts now c =
    let all = sweep_peers-SweptAll p opts now c.state.expiry_warned c.state.peers (start_tally c) in
    record {
      peers = all.peers;
      server = all.effect.server;
      revision = all.effect.revision;
      log = Extends-trans all.effect.log (Extends-none _ _ refl refl);
    }

-- A sweep leaves the revision as it is, even when it revokes peers.
pub revision-sweep_expired :
    (p : Platform) (opts : SweepOptions) (now : ℕ) (c : Context)
    → (sweep_expired p opts now c).1.state.revision ≡ c.state.revision
unfolding sweep_expired start_tally
revision-sweep_expired p opts now c =
    let all = sweep_peers-SweptAll p opts now c.state.expiry_warned c.state.peers (start_tally c) in
    all.revision
