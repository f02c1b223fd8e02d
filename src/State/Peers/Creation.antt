-- ===== src/State/Peers/Creation.antt =====
-- The creation of a peer: what a new peer is, and that it clashes with no live peer.
use kintunnel.Base.{
  ℕ, ◌≡◌, ◌≢◌, refl, sym, ap, ◌∙◌, Bool, true, false, not, ◌&&◌, Option, none, some, List, [], ◌∷◌,
  ◌++◌, map, any, keep, arith, Text, text_eq, text_eq_iff, Bool-cases, inl, inr, All, All-append,
  trim,
}
use kintunnel.Base.Failure.{Failure, ok-injective, Result-cases, Result, ok, err, ◌>>=◌, >>=-eq-ok}
use kintunnel.Types.{EngineState, EngineConfig, PeerRecord, PeerStatus, KeyPair}
use kintunnel.Platform.{Platform}
use kintunnel.Ip.{is_empty, allocate_peer_address}
use kintunnel.Ip.Allocation.{allocate_fresh, allocate_peer_address-InSubnet}
use kintunnel.State.Context.{Context, bump}
use kintunnel.State.Requests.{PeerCreate}
use kintunnel.State.Peers.{
  is_live, live_peers, new_peer, add_peer, create_peer, create_peer_in_state, store_peer,
  announce_device, require, linked_person, chosen_key, private_part, present_key,
}
use kintunnel.State.Validity.{IsValid, PeersDistinct-append, taken}
use kintunnel.State.Effect.{
  Effect, Effect-refl, Effect-trans, Effect-IsValid, Effect-append_event, Extends-none,
}
use kintunnel.State.Progress.{
  Progress, Progress-refl, Progress-trans, Progress-Effect, Continues-append,
}

-- The new peer's key, link and address, as its request and the state have them.
pub record IsNew (body : PeerCreate) (name id now : Text) (pair : Option KeyPair) (s : EngineState)
    (x : PeerRecord) : Type 0 where
  pub id_of : x.id ≡ id
  pub name_of : x.name ≡ name
  pub key_of : chosen_key body.public_key pair ≡ some x.public_key
  pub private_of : x.private_key ≡ private_part pair
  pub key_free : taken (λ q. q.public_key) x.public_key s.peers ≡ false
  pub person_of : linked_person body.person_id s ≡ ok x.person_id
  pub address_of :
      allocate_peer_address s.server.tunnel_cidr_v4 (map (λ q. q.address_v4) (live_peers s))
      ≡ ok x.address_v4
  pub status_of : x.status ≡ PeerStatus.active

present_key-eq-ok : (o : Option Text) (k : Text) → present_key o ≡ ok k → o ≡ some k
unfolding present_key
present_key-eq-ok none k h = cc
present_key-eq-ok (some j) k h = ground arith

require-eq-ok : (b : Bool) (e : Failure) {u : Unit {0}} → require b e ≡ ok u → b ≡ true
require-eq-ok true e h = refl
require-eq-ok false e h = cc

pub new_peer-IsNew :
    (body : PeerCreate) (name id now : Text) (pair : Option KeyPair) (s : EngineState)
    (x : PeerRecord)
    → new_peer body name id now pair s ≡ ok x
    → IsNew body name id now pair s x
unfolding new_peer
new_peer-IsNew body name id now pair s x h =
    let (key, hk, h1) = >>=-eq-ok (present_key (chosen_key body.public_key pair)) _ h in
    let (u, hu, h2) = >>=-eq-ok (require (not (taken (λ q. q.public_key) key s.peers)) _) _ h1 in
    let (person, hp, h3) = >>=-eq-ok (linked_person body.person_id s) _ h2 in
    let (address, ha, h4) =
      >>=-eq-ok
        (allocate_peer_address s.server.tunnel_cidr_v4 (map (λ q. q.address_v4) (live_peers s))) _
        h3 in
    let free = require-eq-ok _ _ hu in
    let e = sym (ok-injective _ x h4) in
    let key' : x.public_key ≡ key = ap (λ (r : PeerRecord). r.public_key) e in
    record {
      id_of = ap (λ (r : PeerRecord). r.id) e;
      name_of = ap (λ (r : PeerRecord). r.name) e;
      key_of = present_key-eq-ok _ key hk ∙ ap some (sym key');
      private_of = ap (λ (r : PeerRecord). r.private_key) e;
      key_free = ap (λ (k : Text). taken (λ q. q.public_key) k s.peers) key' ∙ ground arith;
      person_of = hp ∙ ap ok (sym (ap (λ (r : PeerRecord). r.person_id) e));
      address_of = ha ∙ ap ok (sym (ap (λ (r : PeerRecord). r.address_v4) e));
      status_of = ap (λ (r : PeerRecord). r.status) e;
    }

-- An address that differs from those of the live peers is not taken.
taken-eq-false :
    (v : Text) (qs : List PeerRecord)
    → All (λ a. v ≢ a) (map (λ q. q.address_v4) (keep is_live qs))
    → taken (λ q. q.address_v4) v qs ≡ false
taken-eq-false v [] h = refl
taken-eq-false v (q ∷ qs) h = elim (Bool-cases (is_live q)) [
  | inl live ↦
      let h' = rw live at h in
      ground (arith, text_eq_iff q.address_v4 v, h'.0, taken-eq-false v qs h'.1)
  | inr gone ↦ rw gone (taken-eq-false v qs (rw gone at h))
]

announce_device-Effect :
    (p : Platform) (x : PeerRecord) (now : Text) (o : Option Text) (c : Context)
    → Effect c (announce_device p x now o c)
unfolding announce_device
announce_device-Effect p x now none c = Effect-refl c
announce_device-Effect p x now (some id) c = elim (Bool-cases (is_empty id)) [
  | inl blank ↦ rw blank (Effect-refl c)
  | inr named ↦ rw named (Effect-append_event p _ c)
]

-- After the new peer is in the list, what follows is events.
add_peer-Effect :
    (p : Platform) (generated : Bool) (x : PeerRecord) (now : Text) (c : Context)
    → Effect
        (record c { state = bump (record c.state { peers = c.state.peers ++ x ∷ [] }) })
        (add_peer p generated x now c)
unfolding add_peer
add_peer-Effect p generated x now c =
    Effect-trans (Effect-append_event p _ _) (announce_device-Effect p x now x.person_id _)

-- What storing a new peer does: nothing after a failure, else the peer is last in the list.
store_peer-IsValid :
    (p : Platform) (generated : Bool) (body : PeerCreate) (name id now : Text)
    → (c : Context) (pair : Result (Option KeyPair)) → IsValid c.state
    → taken (λ q. q.name) name c.state.peers ≡ false
    → IsValid
        (store_peer p generated now c (do o ← pair; new_peer body name id now o c.state)).1.state
unfolding store_peer
store_peer-IsValid p generated body name id now c (err e) v free = v
store_peer-IsValid p generated body name id now c (ok o) v free =
    elim (Result-cases (new_peer body name id now o c.state)) [
      | inl (x, made) ↦
          let new = new_peer-IsNew body name id now o c.state x made in
          rw made (
            Effect-IsValid (add_peer-Effect p generated x now c) record {
              distinct =
                  PeersDistinct-append c.state.peers x v.distinct (rw new.name_of free) new.key_free
                    (taken-eq-false x.address_v4 c.state.peers
                      (allocate_fresh _ _ _ new.address_of));
              bounded = v.bounded;
              inside =
                  All-append _ c.state.peers (x ∷ []) v.inside
                    (allocate_peer_address-InSubnet _ _ _ new.address_of, tt);
            })
      | inr (e, failed) ↦ rw failed v
    ]

-- The creation of a peer, whether it succeeds or fails, keeps a valid state valid.
pub create_peer-IsValid :
    (p : Platform) (config : EngineConfig) (body : PeerCreate) (now : ℕ) (c : Context)
    → IsValid c.state
    → IsValid (create_peer p config body now c).1.state
unfolding create_peer create_peer_in_state
create_peer-IsValid p config body now c v =
    elim (Bool-cases (any (λ q. is_live q && text_eq q.name (trim body.name)) c.state.peers)) [
      | inl clash ↦ rw clash v
      | inr free ↦ rw free (store_peer-IsValid p _ body (trim body.name) _ _ _ _ v free)
    ]

store_peer-Progress :
    (p : Platform) (generated : Bool) (now : Text) (c : Context) (r : Result PeerRecord)
    → Progress c (store_peer p generated now c r).1
unfolding store_peer
store_peer-Progress p generated now c (err e) = Progress-refl c
store_peer-Progress p generated now c (ok x) =
    let stored : Context = record c {
      state = bump (record c.state { peers = c.state.peers ++ x ∷ [] });
    } in
    Progress-trans {a = c} {b = stored}
      record {
        peers = Continues-append c.state.peers (x ∷ []);
        server = refl;
        revision = omega arith;
        log = Extends-none c stored refl refl;
      }
      (Progress-Effect (add_peer-Effect p generated x now c))

drawn-Progress :
    (c : Context) (n : ℕ) {c' : Context} → Progress (record c { drawn = n }) c' → Progress c c'
drawn-Progress c n h = record {
  peers = h.peers;
  server = h.server;
  revision = h.revision;
  log = record { added = h.log.added; sink = h.log.sink; log = h.log.log };
}

-- The creation of a peer keeps what is there.
pub create_peer-Progress :
    (p : Platform) (config : EngineConfig) (body : PeerCreate) (now : ℕ) (c : Context)
    → Progress c (create_peer p config body now c).1
unfolding create_peer create_peer_in_state
create_peer-Progress p config body now c =
    elim (Bool-cases (any (λ q. is_live q && text_eq q.name (trim body.name)) c.state.peers)) [
      | inl clash ↦ rw clash (Progress-refl c)
      | inr free ↦ rw free (drawn-Progress c _ (store_peer-Progress p _ _ _ _))
    ]
