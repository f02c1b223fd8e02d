-- ===== src/Runtime.antt =====
-- packages/engine/src/runtime.ts: what the host can do, and what `wg` reports of the interface.
-- `wg` writes numbers that are whole and not negative; where it wrote another one, the model reads
-- no number.
pub mod Dump
use kintunnel.Base.{
  ℕ, Bool, true, false, not, ◌&&◌, Option, none, some, List, [], ◌∷◌, ◌++◌, map, if◌then◌else◌,
  Text, lit, text_eq, trim,
}
use kintunnel.Base.Failure.{Result, err, ok}
use kintunnel.Types.{EngineConfig, EngineState, PeerRecord}
use kintunnel.Platform.{Platform}
use kintunnel.Render.{line_if}
use kintunnel.Host.{Host, Ran, succeeded, failed, has_succeeded}
use kintunnel.Apply.{RuntimeState, RuntimePeer, active_peers}
use Dump.{read_dump}

pub record Capabilities : Type 0 where
  pub platform : Text
  pub dry_run : Bool
  pub has_wg : Bool
  pub has_wg_quick : Bool
  pub has_iptables : Bool
  pub has_ipset : Bool
  pub has_tun : Bool
  pub can_inspect_interface : Bool
  pub interface_name : Text
  pub ip_forward : Option Bool
  pub messages : List Text

dry_peer : PeerRecord → RuntimePeer
dry_peer peer = record {
  public_key = peer.public_key;
  endpoint = none;
  allowed_ips = peer.address_v4 ∷ [];
  latest_handshake_at = none;
  transfer_rx_bytes = none;
  transfer_tx_bytes = none;
  persistent_keepalive = none;
}

abbrev absent : EngineState → RuntimeState
absent state = record {
  interface_name = state.server.interface_name;
  exists = false;
  listen_port = none;
  peers = [];
  raw_available = false;
}

-- What the report of `wg show dump` says; a handshake time that is no date counts as no report.
seen_state : Platform → EngineState → Ran → RuntimeState
seen_state p state (failed e) = absent state
seen_state p state (succeeded out errors) = by (read_dump p state.server.interface_name (trim out))
  where
    by : Option RuntimeState → RuntimeState
    by none = absent state
    by (some seen) = seen

module _ {H : Type 0} (h : Host H) where
  unfoldable pub can_run : Text → List Text → H → Bool × H
  can_run command args x = let (ran, y) = h.run command args x in (has_succeeded ran, y)

  -- A command is looked for on the host unless the engine runs dry.
  unfoldable pub has_command : Bool → Text → H → Bool × H
  has_command dry command x =
      let live = can_run command (lit "--version" ∷ []) x in if dry then (true, x) else live

  abbrev forwards : Result Text → Option Bool
  forwards (err e) = none
  forwards (ok raw) = some (text_eq (trim raw) (lit "1"))

  read_ip_forward : H → Option Bool
  read_ip_forward x = forwards (h.read_file (lit "/proc/sys/net/ipv4/ip_forward") x)

  is_linux : Bool
  is_linux = text_eq h.platform (lit "linux")

  has_tun_device : Bool → H → Bool
  unfolding is_linux
  has_tun_device dry x =
      if dry then true else if is_linux then h.path_exists (lit "/dev/net/tun") x else false

  -- Whether the interface can be shown; asked only where `wg` is there.
  inspects : EngineConfig → Bool → H → Bool × H
  inspects config has_wg x =
      let live = can_run (lit "wg") (lit "show" ∷ config.interface_name ∷ []) x in
      if config.dry_run then (true, x) else if has_wg then live else (false, x)

  nat_messages : Bool → Bool → H → List Text × H
  nat_messages dry has_iptables x =
      let (fine, y) =
        can_run (lit "iptables") (lit "-t" ∷ lit "nat" ∷ lit "-L" ∷ lit "-n" ∷ []) x in
      if dry
      then ([], x)
      else if has_iptables
      then (
        line_if (not fine)
            (lit "iptables nat table is not inspectable; networking policy will be skipped."),
        y,
      )
      else (lit "iptables is not available; networking policy will be skipped." ∷ [], x)

  unfoldable pub get_capabilities : EngineConfig → H → Capabilities × H
  unfolding inspects nat_messages has_tun_device read_ip_forward is_linux
  get_capabilities config x0 =
      let dry = config.dry_run in
      let (has_wg, x1) = has_command dry (lit "wg") x0 in
      let (has_wg_quick, x2) = has_command dry (lit "wg-quick") x1 in
      let has_tun = has_tun_device dry x2 in
      let (has_iptables, x3) = has_command dry (lit "iptables") x2 in
      let (can_inspect, x4) = inspects config has_wg x3 in
      let (nat, x5) = nat_messages dry has_iptables x4 in
      (
        record {
          platform = h.platform;
          dry_run = dry;
          has_wg = has_wg;
          has_wg_quick = has_wg_quick;
          has_iptables = has_iptables;
          has_ipset = false;
          has_tun = has_tun;
          can_inspect_interface = can_inspect;
          interface_name = config.interface_name;
          ip_forward = if dry then none else read_ip_forward x4;
          messages =
              nat
              ++ (line_if (not dry && not is_linux)
                    (lit "Non-dry-run WireGuard runtime management is intended for Linux hosts.")
                  ++ (line_if (not has_wg) (lit "wg command is not available.")
                      ++ (line_if (not has_wg_quick) (lit "wg-quick command is not available.")
                          ++ line_if (not has_tun) (lit "/dev/net/tun is not available."))));
        },
        x5,
      )

  unfoldable pub get_runtime_state : Platform → ℕ → Bool → EngineState → H → RuntimeState × H
  unfolding dry_peer seen_state
  get_runtime_state p now dry state x =
      let (ran, y) =
        h.run (lit "wg") (lit "show" ∷ state.server.interface_name ∷ lit "dump" ∷ []) x in
      let dry_state : RuntimeState = record {
        interface_name = state.server.interface_name;
        exists = true;
        listen_port = some state.server.listen_port;
        peers = map dry_peer (active_peers p now state);
        raw_available = false;
      } in
      if dry then (dry_state, x) else (seen_state p state ran, y)
