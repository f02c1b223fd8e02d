-- ===== src/State/Peers/Effects.antt =====
-- The deletion and the revocation of a peer as effects.
use kintunnel.Base.{
  ℕ, ◌≤◌, ◌≡◌, refl, false, find, arith, Text, Option-cases, Bool-cases, inl, inr, change_first,
}
use kintunnel.Types.{PeerRecord, PeerStatus, AuditAction}
use kintunnel.Platform.{Platform}
use kintunnel.Peers.{is_deleted_status}
use kintunnel.State.Context.{Context, is_peer, bump}
use kintunnel.State.Peers.{
  change_peer, delete_peer, revoke_peer, mark_deleted, mark_revoked, peer_event,
}
use kintunnel.State.Evolution.{Evolves, AllEvolve-change_first, rank}
use kintunnel.State.Effect.{Effect, Effect-refl, Effect-trans, Effect-append_event, Effect-peers}

-- A change that sends every peer which is not deleted forward.
module _ (p : Platform) (action : AuditAction) (change : PeerRecord → PeerRecord)
    (forward : (q : PeerRecord) → is_deleted_status q.status ≡ false → Evolves q (change q)) where
  change_peer-Effect :
      (id now : Text) (c : Context) → Effect c (change_peer p action change id now c).1
  unfolding change_peer
  change_peer-Effect id now c = elim (Option-cases (find (is_peer id) c.state.peers)) [
    | inl missing ↦ rw (missing, change_peer) (Effect-refl c)
    | inr (q, found) ↦ elim (Bool-cases (is_deleted_status q.status)) [
      | inl gone ↦ rw (found, change_peer) (rw gone (Effect-refl c))
      | inr there ↦
          rw (found, change_peer)
            (rw there (
              Effect-trans
                (Effect-peers c
                  (record c {
                    state =
                        bump (record c.state {
                          peers = change_first (is_peer id) change c.state.peers;
                        });
                  })
                  (AllEvolve-change_first (is_peer id) change c.state.peers
                    (λ r e. forward r (ground arith)))
                  refl (omega arith) refl refl)
                (Effect-append_event p (peer_event action (change q) now) _)))
    ]
  ]

rank-le-two : (s : PeerStatus) → rank s ≤ 2
rank-le-two s = ground arith

rank-le-one : (s : PeerStatus) → is_deleted_status s ≡ false → rank s ≤ 1
rank-le-one s h = ground arith

Evolves-mark_deleted : (now : Text) (q : PeerRecord) → Evolves q (mark_deleted now q)
unfolding mark_deleted
Evolves-mark_deleted now q = ground (arith, rank-le-two q.status)

Evolves-mark_revoked :
    (now : Text) (q : PeerRecord)
    → is_deleted_status q.status ≡ false
    → Evolves q (mark_revoked now q)
unfolding mark_revoked
Evolves-mark_revoked now q h = ground (arith, rank-le-one q.status)

pub delete_peer-Effect :
    (p : Platform) (id : Text) (now : ℕ) (c : Context) → Effect c (delete_peer p id now c).1
unfolding delete_peer
delete_peer-Effect p id now c =
    change_peer-Effect p _ _ (λ q h. Evolves-mark_deleted (p.iso now) q) id (p.iso now) c

pub revoke_peer-Effect :
    (p : Platform) (id : Text) (now : ℕ) (c : Context) → Effect c (revoke_peer p id now c).1
unfolding revoke_peer
revoke_peer-Effect p id now c =
    change_peer-Effect p _ _ (Evolves-mark_revoked (p.iso now)) id (p.iso now) c
