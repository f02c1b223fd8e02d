-- ===== src/Apply.antt =====
-- packages/engine/src/apply.ts: the plan of an apply, the text for `wg`, and the dry run. The
-- commands of the live path run on the host and are not modelled.
pub mod Maps
pub mod Plans
pub mod DryRuns
use kintunnel.Base.{
  ℕ, ◌+◌, Bool, true, false, not, ◌&&◌, ◌||◌, Option, none, some, List, [], ◌∷◌, ◌++◌, map, keep,
  any, if◌then◌else◌, ltb, ◌==◌, length, or_default, Text, lit, text_eq, decimal, join,
}
use kintunnel.Types.{PeerRecord, EngineState, ServerSettings, Metadata, MetaValue}
use kintunnel.Types.Results.{ApplyPlan, PeerChanges, ApplyResult}
use kintunnel.Platform.{Platform}
use kintunnel.Peers.{is_peer_active}
use kintunnel.Render.{newline, line_if}
use Maps.{Entries, from_entries, get_entry, sort}

pub data ApplyErrorCode : Type 0 where
  capability_missing interface_exists interface_missing : ApplyErrorCode
  duplicate_address duplicate_pubkey key_format_invalid : ApplyErrorCode
  bootstrap_timeout syncconf_failed peer_remove_failed : ApplyErrorCode
  drift_unrecoverable dry_run_only : ApplyErrorCode

pub record ApplyError : Type 0 where
  pub code : ApplyErrorCode
  pub message : Text
  pub detail : Metadata

-- What `wg show` reports of a peer and of the interface.
pub record RuntimePeer : Type 0 where
  pub public_key : Text
  pub endpoint : Option Text
  pub allowed_ips : List Text
  pub latest_handshake_at : Option Text
  pub transfer_rx_bytes : Option ℕ
  pub transfer_tx_bytes : Option ℕ
  pub persistent_keepalive : Option ℕ

pub record RuntimeState : Type 0 where
  pub interface_name : Text
  pub exists : Bool
  pub listen_port : Option ℕ
  pub peers : List RuntimePeer
  pub raw_available : Bool

abbrev pub active_peers : Platform → ℕ → EngineState → List PeerRecord
active_peers p now state = keep (is_peer_active p now) state.peers

-- `new Map(peers.map((peer) => [peer.publicKey, peer]))`
unfoldable pub by_key : List PeerRecord → Entries PeerRecord
by_key peers = from_entries [] (map (λ q. (q.public_key, q)) peers)

unfoldable pub by_runtime_key : List RuntimePeer → Entries RuntimePeer
by_runtime_key peers = from_entries [] (map (λ q. (q.public_key, q)) peers)

unfoldable pub peer_config_changed : PeerRecord → RuntimePeer → Bool
peer_config_changed intended runtime =
    not (text_eq (join (lit ",") (sort runtime.allowed_ips)) intended.address_v4)
    || not (or_default runtime.persistent_keepalive 0 == intended.persistent_keepalive)

abbrev pub is_missing {ℓ} : {A : Type ℓ} → Option A → Bool
is_missing none = true
is_missing (some a) = false

abbrev pub is_modified : PeerRecord → Option RuntimePeer → Bool
is_modified intended none = false
is_modified intended (some runtime) = peer_config_changed intended runtime

-- The keys to add and to modify are in the order of the intended peers, those to remove in the
-- order of the current ones.
unfoldable pub diff_peers : List PeerRecord → List RuntimePeer → PeerChanges
unfolding by_key by_runtime_key
diff_peers intended current =
    let wanted = by_key intended in
    let there = by_runtime_key current in
    record {
      added = map (λ e. e.0) (keep (λ e. is_missing (get_entry e.0 there)) wanted);
      removed = map (λ e. e.0) (keep (λ e. is_missing (get_entry e.0 wanted)) there);
      modified = map (λ e. e.0) (keep (λ e. is_modified e.1 (get_entry e.0 there)) wanted);
    }

-- `(runtime.listenPort ?? -1) !== state.server.listenPort`
abbrev port_differs : Option ℕ → ℕ → Bool
port_differs none port = true
port_differs (some n) port = not (n == port)

unfoldable pub plan_apply : Platform → ℕ → EngineState → RuntimeState → ApplyPlan
plan_apply p now state runtime =
    let changes = diff_peers (active_peers p now state) runtime.peers in
    let bootstrap = not runtime.exists in
    record {
      bootstrap = bootstrap;
      reconfigure_interface =
          not bootstrap
          && runtime.exists
          && port_differs runtime.listen_port state.server.listen_port;
      add_peers = changes.added;
      remove_peers = changes.removed;
      modify_peers = changes.modified;
    }

peer_lines : List PeerRecord → List Text
peer_lines [] = []
peer_lines (peer ∷ peers) =
    []
    ∷ lit "[Peer]"
    ∷ (lit "PublicKey = " ++ peer.public_key)
    ∷ (lit "AllowedIPs = " ++ peer.address_v4)
    ∷ (line_if (ltb 0 peer.persistent_keepalive)
          (lit "PersistentKeepalive = " ++ decimal peer.persistent_keepalive)
        ++ peer_lines peers)

unfoldable pub render_wg_ini : Platform → ℕ → EngineState → Bool → Text
unfolding peer_lines
render_wg_ini p now state active_only =
    let peers = if active_only then active_peers p now state else state.peers in
    join newline (
      lit "[Interface]"
      ∷ (lit "PrivateKey = " ++ state.server.server_private_key)
      ∷ (lit "ListenPort = " ++ decimal state.server.listen_port)
      ∷ peer_lines peers)
    ++ newline

key_error : PeerRecord → ApplyError
key_error peer = record {
  code = ApplyErrorCode.duplicate_pubkey;
  message = lit "Duplicate peer public key: " ++ peer.name;
  detail =
      (lit "public_key", MetaValue.text peer.public_key)
      ∷ (lit "peer_name", MetaValue.text peer.name)
      ∷ [];
}

address_error : PeerRecord → ApplyError
address_error peer = record {
  code = ApplyErrorCode.duplicate_address;
  message = lit "Duplicate peer address: " ++ peer.address_v4;
  detail =
      (lit "address_v4", MetaValue.text peer.address_v4)
      ∷ (lit "peer_name", MetaValue.text peer.name)
      ∷ [];
}

-- The loop over the active peers that throws at the first duplicate.
unfoldable pub first_duplicate : List Text → List Text → List PeerRecord → Option ApplyError
unfolding key_error address_error
first_duplicate seen_keys seen_addresses [] = none
first_duplicate seen_keys seen_addresses (peer ∷ peers) =
    let rest =
      first_duplicate (peer.public_key ∷ seen_keys) (peer.address_v4 ∷ seen_addresses) peers in
    if any (text_eq peer.public_key) seen_keys
    then some (key_error peer)
    else if any (text_eq peer.address_v4) seen_addresses
    then some (address_error peer)
    else rest

unfoldable pub intended_peer : PeerRecord → RuntimePeer
intended_peer peer = record {
  public_key = peer.public_key;
  endpoint = none;
  allowed_ips = peer.address_v4 ∷ [];
  latest_handshake_at = none;
  transfer_rx_bytes = none;
  transfer_tx_bytes = none;
  persistent_keepalive = some peer.persistent_keepalive;
}

unfoldable pub snapshot_dry_run : Platform → ℕ → EngineState → RuntimeState
unfolding intended_peer
snapshot_dry_run p now state = record {
  interface_name = state.server.interface_name;
  exists = true;
  listen_port = some state.server.listen_port;
  peers = map intended_peer (active_peers p now state);
  raw_available = false;
}

flag_text : Bool → Text
flag_text true = lit "true"
flag_text false = lit "false"

count_lines : Text → ℕ
count_lines [] = 0
count_lines (c ∷ cs) = let n = count_lines cs in if c == 10 then n + 1 else n

plan_line : ApplyPlan → PeerChanges → Text
unfolding flag_text
plan_line plan diff =
    lit "Plan: bootstrap="
    ++ (flag_text plan.bootstrap
        ++ (lit " reconfigure="
            ++ (flag_text plan.reconfigure_interface
                ++ (lit " add="
                    ++ (decimal (length diff.added)
                        ++ (lit " remove=" ++ (decimal (length diff.removed) ++ lit ".")))))))

rendered_line : Text → List PeerRecord → Text
unfolding count_lines
rendered_line ini peers =
    lit "Rendered "
    ++ (decimal (count_lines ini)
        ++ (lit " INI lines for " ++ (decimal (length peers) ++ lit " active peer(s).")))

-- What `executeApply` throws or returns.
pub data Applied : Type 0 where
  thrown : ApplyError → Applied
  returned : ApplyResult → Applied

planned : Platform → ℕ → ℕ → EngineState → Option ApplyError → Applied
unfolding plan_line rendered_line
planned p now finished state (some e) = thrown e
planned p now finished state none =
    let peers = active_peers p now state in
    let runtime = snapshot_dry_run p now state in
    let diff = diff_peers peers runtime.peers in
    let plan = plan_apply p now state runtime in
    returned (record {
      ok = true;
      dry_run = true;
      bootstrap = plan.bootstrap;
      applied = false;
      revision = state.revision;
      interface_name = state.server.interface_name;
      actions_executed = [];
      peer_changes = diff;
      drift = none;
      started_at = p.iso now;
      finished_at = p.iso finished;
      messages =
          lit "Dry-run: validated intended state without touching host networking."
          ∷ plan_line plan diff
          ∷ rendered_line (render_wg_ini p now state true) peers
          ∷ [];
      errors = [];
    })

-- `executeApply` with `dryRun: true`; the clock reads `now` until the last line.
unfoldable pub dry_run_apply : Platform → ℕ → ℕ → EngineState → Applied
unfolding planned
dry_run_apply p now finished state =
    planned p now finished state (first_duplicate [] [] (active_peers p now state))
