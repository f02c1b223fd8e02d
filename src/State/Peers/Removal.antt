-- ===== src/State/Peers/Removal.antt =====
-- The end of a peer: what a deletion or a revocation returns, frees and leaves alone.
use kintunnel.Base.{
  ℕ, ◌+◌, ◌≡◌, ◌≢◌, refl, sym, ap, ◌∙◌, Bool, true, false, ◌&&◌, some, List, [], ◌∷◌, find,
  change_first, arith, Text, text_eq, text_eq_iff, Option-cases, Bool-cases, inl, inr,
  find-change_first, find-change_first-other, find-any, find-holds,
}
use mathlib.Core.Path.{subst}
use kintunnel.Base.Failure.{ok, err, ok-injective}
use kintunnel.Types.{PeerRecord, AuditAction}
use kintunnel.Platform.{Platform}
use kintunnel.Peers.{is_deleted_status}
use kintunnel.State.Context.{Context, append_event, peer_not_found, is_peer}
use kintunnel.State.Peers.{is_live, change_peer, delete_peer, revoke_peer, mark_deleted}
use kintunnel.State.Validity.{IsValid, DistinctBy, taken}

-- A change of the live peer with an id, as `change_peer` made it.
pub record Changed (change : PeerRecord → PeerRecord) (id : Text) (c c' : Context) (x : PeerRecord)
    : Type 0 where
  pub before : PeerRecord
  pub found : find (is_peer id) c.state.peers ≡ some before
  pub was_live : is_live before ≡ true
  pub result : x ≡ change before
  pub peers : c'.state.peers ≡ change_first (is_peer id) change c.state.peers
  pub revision : c'.state.revision ≡ c.state.revision + 1

change_peer-Changed :
    (p : Platform) (action : AuditAction) (change : PeerRecord → PeerRecord) (id now : Text)
    → (c : Context) (x : PeerRecord) → (change_peer p action change id now c).0 ≡ ok x
    → Changed change id c (change_peer p action change id now c).1 x
unfolding change_peer append_event
change_peer-Changed p action change id now c x h =
    elim (Option-cases (find (is_peer id) c.state.peers)) [
      | inl missing ↦ let absent = rw (missing, change_peer) at h in cc
      | inr (q, found) ↦
          let h' = rw (found, change_peer) at h in
          elim (Bool-cases (is_deleted_status q.status)) [
            | inl gone ↦ let refused = rw gone at h' in cc
            | inr live ↦
                let h'' = rw live at h' in
                rw (found, change_peer)
                  (rw live (record {
                    before = q;
                    found = found;
                    was_live = rw live;
                    result = sym (ok-injective _ x h'');
                    peers = refl;
                    revision = refl;
                  }))
          ]
    ]

-- Without a live peer of the id nothing happens.
change_peer-refused :
    (p : Platform) (action : AuditAction) (change : PeerRecord → PeerRecord) (id now : Text)
    → (c : Context) (q : PeerRecord) → find (is_peer id) c.state.peers ≡ some q
    → is_live q ≡ false
    → change_peer p action change id now c ≡ (err peer_not_found, c)
unfolding change_peer
change_peer-refused p action change id now c q found dead =
    let gone : is_deleted_status q.status ≡ true = ground arith in
    rw (found, change_peer) (rw gone refl)

-- The first match of a test is turned into a peer that is not live: its value is free.
taken-change_first :
    (f : PeerRecord → Text) (test : PeerRecord → Bool) (change : PeerRecord → PeerRecord)
    → ((q : PeerRecord) → is_live (change q) ≡ false)
    → (qs : List PeerRecord) (q : PeerRecord) → find test qs ≡ some q
    → is_live q ≡ true
    → DistinctBy f qs
    → taken f (f q) (change_first test change qs) ≡ false
taken-change_first f test change dead [] q found live d = refl
taken-change_first f test change dead (r ∷ qs) q found live d = elim (Bool-cases (test r)) [
  | inl hit ↦
      let e : r ≡ q = ground arith in
      let rest : taken f (f q) qs ≡ false =
        subst (λ s. taken f (f s) qs ≡ false) e (d.0 (ap is_live e ∙ live)) in
      ground (arith, dead r)
  | inr miss ↦
      let found' : find test qs ≡ some q = ground arith in
      let clear : (is_live r && text_eq (f r) (f q)) ≡ false = elim (Bool-cases (is_live r)) [
        | inl up ↦
            let apart =
              find-any test (λ s. is_live s && text_eq (f s) (f r)) qs q found' (d.0 up) in
            ground (arith, text_eq_iff (f r) (f q), text_eq_iff (f q) (f r))
        | inr down ↦ ground arith
      ] in
      ground (arith, taken-change_first f test change dead qs q found' live d.1)
]

-- After a deletion the peer's name, key and address are free for a new peer.
pub record Frees (x : PeerRecord) (peers : List PeerRecord) : Type 0 where
  pub name : taken (λ q. q.name) x.name peers ≡ false
  pub key : taken (λ q. q.public_key) x.public_key peers ≡ false
  pub address : taken (λ q. q.address_v4) x.address_v4 peers ≡ false

mark_deleted-id : (now : Text) (q : PeerRecord) → (mark_deleted now q).id ≡ q.id
unfolding mark_deleted
mark_deleted-id now q = refl

mark_deleted-dead : (now : Text) (q : PeerRecord) → is_live (mark_deleted now q) ≡ false
unfolding mark_deleted
mark_deleted-dead now q = refl

module _ (p : Platform) (id : Text) (now : ℕ) (c : Context) (x : PeerRecord) where
  delete_peer-Changed :
      (delete_peer p id now c).0 ≡ ok x
      → Changed (mark_deleted (p.iso now)) id c (delete_peer p id now c).1 x
  unfolding delete_peer
  delete_peer-Changed h = change_peer-Changed p _ _ id _ c x h

  -- After a successful deletion in a valid state, no live peer has the deleted peer's name, key or
  -- address, so that a new peer can take them.
  pub delete_peer-Frees :
      IsValid c.state
      → (delete_peer p id now c).0 ≡ ok x
      → Frees x (delete_peer p id now c).1.state.peers
  unfolding mark_deleted
  delete_peer-Frees v h =
      let d = delete_peer-Changed h in
      let m = mark_deleted (p.iso now) in
      rw (Changed.result d) (
        rw (Changed.peers d) (record {
          name =
              taken-change_first (λ q. q.name) (is_peer id) m (mark_deleted-dead (p.iso now)) _
                d.before d.found d.was_live v.distinct.names;
          key =
              taken-change_first (λ q. q.public_key) (is_peer id) m (mark_deleted-dead (p.iso now))
                _ d.before d.found d.was_live v.distinct.keys;
          address =
              taken-change_first (λ q. q.address_v4) (is_peer id) m (mark_deleted-dead (p.iso now))
                _ d.before d.found d.was_live v.distinct.addresses;
        }))

  -- After a successful deletion, another deletion or a revocation with the same id, at any time,
  -- fails as not found and changes nothing.
  pub delete_peer-again :
      (delete_peer p id now c).0 ≡ ok x
      → (later : ℕ)
      → let c' = (delete_peer p id now c).1 in
        (delete_peer p id later c' ≡ (err peer_not_found, c'))
        × (revoke_peer p id later c' ≡ (err peer_not_found, c'))
  unfolding delete_peer revoke_peer
  delete_peer-again h later =
      let d = delete_peer-Changed h in
      let m = mark_deleted (p.iso now) in
      let c' = (delete_peer p id now c).1 in
      let found : find (is_peer id) c'.state.peers ≡ some (m d.before) =
        ap (find (is_peer id)) d.peers
        ∙ find-change_first (is_peer id) m _ d.before d.found (
            ap (λ k. text_eq k id) (mark_deleted-id (p.iso now) d.before)
            ∙ find-holds (is_peer id) _ d.before d.found) in
      (
        change_peer-refused p _ _ id (p.iso later) c' (m d.before) found
            (mark_deleted-dead (p.iso now) d.before),
        change_peer-refused p _ _ id (p.iso later) c' (m d.before) found
            (mark_deleted-dead (p.iso now) d.before),
      )

  -- A successful deletion leaves the peer that is found under any other id as it was.
  pub delete_peer-other :
      (delete_peer p id now c).0 ≡ ok x
      → (other : Text) → other ≢ id
      → find (is_peer other) (delete_peer p id now c).1.state.peers
        ≡ find (is_peer other) c.state.peers
  unfolding mark_deleted
  delete_peer-other h other apart =
      let d = delete_peer-Changed h in
      rw (Changed.peers d) (
        find-change_first-other (is_peer id) (is_peer other) _ _
          (λ q hit. ground (arith, text_eq_iff q.id id, text_eq_iff q.id other, apart)))
