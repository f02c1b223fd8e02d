-- ===== src/State/Effect.antt =====
-- What an operation other than the creation of a peer may do to the state and to the audit log.
use kintunnel.Base.{
  ◌≤◌, ◌≡◌, refl, sym, ap, ◌∙◌, Option, List, [], ◌∷◌, ◌++◌, or_default, length, last_n,
  length-last_n, last_n-append, last_n_all, arith, All,
}
use mathlib.Core.List.{append-nil, append_assoc}
use kintunnel.Types.{AuditEvent, ServerSettings}
use kintunnel.Platform.{Platform}
use kintunnel.State.Context.{Context, EventInput, event_record, append_event, max_audit_events}
use kintunnel.State.Evolution.{AllEvolve, AllEvolve-refl, AllEvolve-trans}
use kintunnel.State.Validity.{IsValid, PeersDistinct-AllEvolve, inside-AllEvolve}
use kintunnel.Ip.Allocation.{InSubnet}
use mathlib.Core.Path.{subst}

abbrev pub event_log : Context → List AuditEvent
event_log c = or_default c.state.events []

-- The sink got some events, and the state's log holds the last ones of what it held and of them.
pub record Extends (c c' : Context) : Type 0 where
  pub added : List AuditEvent
  pub sink : c'.sink ≡ c.sink ++ added
  pub log :
      length (event_log c) ≤ max_audit_events
      → event_log c' ≡ last_n max_audit_events (event_log c ++ added)

pub Extends-bounded :
    {c c' : Context}
    → Extends c c'
    → length (event_log c) ≤ max_audit_events
    → length (event_log c') ≤ max_audit_events
Extends-bounded {c} {c'} e h =
    omega (arith, ap length (e.log h), length-last_n max_audit_events (event_log c ++ e.added))

-- A change that touches neither the log nor the sink.
pub Extends-none : (c c' : Context) → c'.sink ≡ c.sink → event_log c' ≡ event_log c → Extends c c'
Extends-none c c' s l = record {
  added = [];
  sink = s ∙ sym (append-nil c.sink);
  log = λ h.
      l
      ∙ sym
          (ap (last_n max_audit_events) (append-nil (event_log c)) ∙ last_n_all _ (event_log c) h);
}

pub Extends-append_event :
    (p : Platform) (e : EventInput) (c : Context) → Extends c (append_event p e c)
unfolding append_event
Extends-append_event p e c = record {
  added = event_record p e c ∷ [];
  sink = refl;
  log = λ h. refl;
}

pub Extends-trans : {a b c : Context} → Extends a b → Extends b c → Extends a c
Extends-trans {a} {b} {c} f g = record {
  added = f.added ++ g.added;
  sink = g.sink ∙ ap (λ s. s ++ g.added) f.sink ∙ append_assoc a.sink f.added g.added;
  log = λ h.
      g.log (Extends-bounded f h)
      ∙ ap (λ l. last_n max_audit_events (l ++ g.added)) (f.log h)
      ∙ last_n-append max_audit_events (event_log a ++ f.added) g.added
      ∙ ap (last_n max_audit_events) (append_assoc (event_log a) f.added g.added);
}

-- The peers evolve, the server's settings stay, the revision does not fall, and the log grows.
pub record Effect (c c' : Context) : Type 0 where
  pub peers : AllEvolve c.state.peers c'.state.peers
  pub server : c'.state.server ≡ c.state.server
  pub revision : c.state.revision ≤ c'.state.revision
  pub log : Extends c c'

pub Effect-refl : (c : Context) → Effect c c
Effect-refl c = record {
  peers = AllEvolve-refl c.state.peers;
  server = refl;
  revision = omega arith;
  log = Extends-none c c refl refl;
}

pub Effect-trans : {a b c : Context} → Effect a b → Effect b c → Effect a c
Effect-trans {a} {b} {c} f g = record {
  peers = AllEvolve-trans a.state.peers b.state.peers c.state.peers f.peers g.peers;
  server = g.server ∙ f.server;
  revision = omega (arith, f.revision, g.revision);
  log = Extends-trans f.log g.log;
}

pub Effect-append_event :
    (p : Platform) (e : EventInput) (c : Context) → Effect c (append_event p e c)
unfolding append_event
Effect-append_event p e c = record {
  peers = AllEvolve-refl c.state.peers;
  server = refl;
  revision = omega arith;
  log = Extends-append_event p e c;
}

-- Only persons, the warnings or the draws differ.
pub Effect-peers :
    (c c' : Context)
    → AllEvolve c.state.peers c'.state.peers
    → c'.state.server ≡ c.state.server
    → c.state.revision ≤ c'.state.revision
    → c'.sink ≡ c.sink
    → c'.state.events ≡ c.state.events
    → Effect c c'
Effect-peers c c' peers server revision sink events = record {
  peers = peers;
  server = server;
  revision = revision;
  log = Extends-none c c' sink (ap (λ (o : Option (List AuditEvent)). or_default o []) events);
}

pub Effect-IsValid : {c c' : Context} → Effect c c' → IsValid c.state → IsValid c'.state
Effect-IsValid {c} {c'} e v = record {
  distinct = PeersDistinct-AllEvolve c.state.peers c'.state.peers e.peers v.distinct;
  bounded = Extends-bounded e.log v.bounded;
  inside =
      subst
        (λ (r : ServerSettings). All (λ q. InSubnet r.tunnel_cidr_v4 q.address_v4) c'.state.peers)
        (sym e.server)
        (inside-AllEvolve c.state.server.tunnel_cidr_v4 c.state.peers c'.state.peers e.peers
          v.inside);
}

pub revision-append_event :
    (p : Platform) (e : EventInput) (c : Context)
    → (append_event p e c).state.revision ≡ c.state.revision
unfolding append_event
revision-append_event p e c = refl
