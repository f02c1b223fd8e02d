-- ===== src/Backup/Diff.antt =====
-- packages/engine/src/backup.ts: how the peers of a snapshot differ from the current ones.
use kintunnel.Base.{
  Bool, true, false, not, ◌&&◌, Option, none, some, List, [], ◌++◌, map, keep, ◌==◌, or_default,
  Text, lit, text_eq, join,
}
use kintunnel.Types.{EngineState, PeerRecord, PeerStatus}
use kintunnel.Apply.{by_key, is_missing}
use kintunnel.Apply.Maps.{get_entry}
use kintunnel.State.Peers.{live_peers}

pub record PeerDiff : Type 0 where
  pub added : List Text
  pub removed : List Text
  pub modified : List Text
  pub affected : List Text

same_peer_status : PeerStatus → PeerStatus → Bool
same_peer_status PeerStatus.active PeerStatus.active = true
same_peer_status PeerStatus.disabled PeerStatus.disabled = true
same_peer_status PeerStatus.revoked PeerStatus.revoked = true
same_peer_status PeerStatus.deleted PeerStatus.deleted = true
same_peer_status _ _ = false

unfoldable pub peers_equal : PeerRecord → PeerRecord → Bool
unfolding same_peer_status
peers_equal a b =
    text_eq (join (lit ",") a.allowed_ips) (join (lit ",") b.allowed_ips)
    && text_eq (join (lit ",") a.dns_servers) (join (lit ",") b.dns_servers)
    && a.persistent_keepalive == b.persistent_keepalive
    && same_peer_status a.status b.status
    && text_eq (or_default a.expires_at []) (or_default b.expires_at [])
    && text_eq a.name b.name
    && text_eq a.address_v4 b.address_v4

abbrev pub differs : PeerRecord → Option PeerRecord → Bool
differs peer none = false
differs peer (some current) = not (peers_equal peer current)

-- Keys are in the order of the snapshot's peers, and then of the current ones.
unfoldable pub compute_peer_diff : EngineState → EngineState → PeerDiff
compute_peer_diff snapshot current =
    let old = by_key (live_peers snapshot) in
    let new = by_key (live_peers current) in
    let removed = map (λ e. e.0) (keep (λ e. is_missing (get_entry e.0 old)) new) in
    record {
      added = map (λ e. e.0) (keep (λ e. is_missing (get_entry e.0 new)) old);
      removed = removed;
      modified = map (λ e. e.0) (keep (λ e. differs e.1 (get_entry e.0 new)) old);
      affected = map (λ e. e.0) old ++ removed;
    }
