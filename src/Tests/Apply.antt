-- ===== src/Tests/Apply.antt =====
-- The plan of an apply: the theorems at a state with two peers.
use kintunnel.Base.{◌≡◌, true, false, not, ◌&&◌, none, some, [], ◌∷◌, any, lit, text_eq}
use kintunnel.Types.Results.{ApplyResult}
use kintunnel.Apply.{RuntimeState, RuntimePeer, active_peers, plan_apply, dry_run_apply, returned}
use kintunnel.Apply.DryRuns.{Empty, dry_run_apply-IsValid}
use kintunnel.Apply.Plans.{lists, plan_apply-lists}
use kintunnel.Tests.Samples.{platform, state, state-IsValid}

dry_run_apply-IsValid_example :
    (r : ApplyResult) × (dry_run_apply platform 3 4 state ≡ returned r)
    × (r.ok ≡ true)
    × (r.applied ≡ false)
    × (r.bootstrap ≡ false)
    × (r.revision ≡ 3)
    × Empty r.peer_changes
dry_run_apply-IsValid_example = dry_run_apply-IsValid platform 3 4 state state-IsValid

abbrev unknown_peer : RuntimePeer
unknown_peer = record {
  public_key = lit "C";
  endpoint = none;
  allowed_ips = [];
  latest_handshake_at = none;
  transfer_rx_bytes = none;
  transfer_tx_bytes = none;
  persistent_keepalive = none;
}

abbrev runtime : RuntimeState
runtime = record {
  interface_name = lit "wg0";
  exists = true;
  listen_port = some 51820;
  peers = unknown_peer ∷ [];
  raw_available = true;
}

plan_apply-lists_example :
    let wanted = any (λ q. text_eq q.public_key (lit "C")) (active_peers platform 3 state) in
    let there = any (λ q. text_eq q.public_key (lit "C")) runtime.peers in
    let plan = plan_apply platform 3 state runtime in
    (lists plan.add_peers (lit "C") ≡ (wanted && not there))
    × (lists plan.remove_peers (lit "C") ≡ (there && not wanted))
    × (plan.bootstrap ≡ not true)
plan_apply-lists_example = plan_apply-lists platform 3 state runtime (lit "C")
