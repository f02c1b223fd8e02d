-- ===== src/Health/Probes.antt =====
-- packages/engine/src/health.ts: the probes.
pub mod Shapes
use kintunnel.Base.{
  ℕ, Bool, true, false, not, ◌&&◌, ◌||◌, Option, none, some, List, [], ◌∷◌, ◌++◌, find,
  if◌then◌else◌, ◌==◌, or_default, Text, lit, text_eq, decimal, split, parse_int, ℤ, pos, negsuc,
}
use kintunnel.Types.{EngineConfig, EngineState}
use kintunnel.Platform.{Platform}
use kintunnel.Ip.{is_empty}
use kintunnel.Host.{Host, Ran, succeeded, failed, RunError, ExitCode, Access, granted, denied, Mode}
use kintunnel.Host.Lines.{split_lines, column}
use kintunnel.Networking.Rules.{
  Executed, check_forwarding_enabled, check_nat_rule_present, detect_egress_interface,
}

pub data CheckName : Type 0 where
  tun forwarding interface nat iptables port state_io : CheckName

pub data CheckStatus : Type 0 where
  pass fail warn skip : CheckStatus

unfoldable pub is_pass : CheckStatus → Bool
is_pass CheckStatus.pass = true
is_pass _ = false

unfoldable pub is_fail : CheckStatus → Bool
is_fail CheckStatus.fail = true
is_fail _ = false

pub record HealthCheck : Type 0 where
  pub name : CheckName
  pub status : CheckStatus
  pub detail : Text
  pub observed_at : Text
  pub required : Bool

unfoldable pub make_check : Platform → ℕ → CheckName → CheckStatus → Bool → Text → HealthCheck
make_check p now name status required detail = record {
  name = name;
  status = status;
  detail = detail;
  observed_at = p.iso now;
  required = required;
}

-- A failed command without an exit status counts as timed out if its code is a name.
exit_number : ExitCode → ℕ
exit_number (ExitCode.status n) = n
exit_number (ExitCode.named name) = 124
exit_number ExitCode.unknown = 1

unfoldable pub outcome : Ran → Executed
unfolding exit_number
outcome (succeeded out errors) = record { exit = 0; stdout = out; stderr = errors }
outcome (failed e) = record {
  exit = exit_number e.code;
  stdout = or_default e.stdout [];
  stderr = or_default e.stderr e.message;
}

or_else : Text → Text → Text
or_else [] other = other
or_else (c ∷ s) other = c ∷ s

is_port : ℕ → Option ℤ → Bool
is_port wanted none = false
is_port wanted (some (pos n)) = n == wanted
is_port wanted (some (negsuc n)) = false

module _ {H : Type 0} (h : Host H) (p : Platform) (now : ℕ) where
  pub probe : Text → List Text → H → Executed × H
  unfolding outcome
  probe command args x = let (ran, y) = h.run command args x in (outcome ran, y)

  reachable : Text → Mode → H → Bool
  reachable path mode x = by (h.access path mode x)
    where
      by : Access → Bool
      by granted = true
      by (denied code message) = false

  unfoldable pub check_tun : H → HealthCheck
  unfolding reachable
  check_tun x =
      if reachable (lit "/dev/net/tun") Mode.readable x
      then make_check p now CheckName.tun CheckStatus.pass false (lit "/dev/net/tun is readable")
      else make_check p now CheckName.tun CheckStatus.fail false
          (lit "/dev/net/tun is not readable")

  unfoldable pub check_forwarding : H → HealthCheck
  check_forwarding x =
      if check_forwarding_enabled h x
      then make_check p now CheckName.forwarding CheckStatus.pass false
          (lit "/proc/sys/net/ipv4/ip_forward=1")
      else make_check p now CheckName.forwarding CheckStatus.fail false
          (lit "/proc/sys/net/ipv4/ip_forward!=1 (forwarding disabled)")

  interface_fail : Text → HealthCheck
  interface_fail detail = make_check p now CheckName.interface CheckStatus.fail false detail

  -- The port that the first row shows.
  port_check : EngineState → Option Text → HealthCheck
  unfolding is_port interface_fail
  port_check s raw =
      if is_port s.server.listen_port (parse_int (or_default raw []))
      then make_check p now CheckName.interface CheckStatus.pass false
          (s.server.interface_name ++ (lit " listen_port=" ++ decimal s.server.listen_port))
      else interface_fail (
          lit "listen_port mismatch: observed="
          ++ (or_default raw (lit "<empty>")
              ++ (lit ", expected=" ++ decimal s.server.listen_port)))

  row_check : EngineState → Option Text → HealthCheck
  unfolding port_check interface_fail
  row_check s none =
      interface_fail (lit "wg show " ++ (s.server.interface_name ++ lit " dump returned no rows"))
  row_check s (some row) = port_check s (column 2 (split 9 row))

  dump_check : EngineState → Executed → HealthCheck
  unfolding row_check interface_fail or_else
  dump_check s r =
      if r.exit == 0
      then row_check s (find (λ line. not (is_empty line)) (split_lines r.stdout))
      else interface_fail (
          lit "wg show "
          ++ (s.server.interface_name
              ++ (lit " dump exited "
                  ++ (decimal r.exit
                      ++ (lit ": " ++ or_else r.stderr (lit "interface not present"))))))

  unfoldable pub check_interface : EngineState → H → HealthCheck × H
  unfolding dump_check
  check_interface s x =
      let (r, y) = probe (lit "wg") (lit "show" ∷ s.server.interface_name ∷ lit "dump" ∷ []) x in
      (dump_check s r, y)

  nat_detail : Text → EngineState → Text → Text
  nat_detail state s egress =
      lit "MASQUERADE rule "
      ++ (state ++ (lit " for " ++ (s.server.tunnel_cidr_v4 ++ (lit " via " ++ egress))))

  unfoldable pub nat_check : EngineState → Option Text → H → HealthCheck × H
  unfolding nat_detail
  nat_check s none x =
      (make_check p now CheckName.nat CheckStatus.fail false (lit "no default route detected"), x)
  nat_check s (some egress) x =
      let (present, y) = check_nat_rule_present h s.server.tunnel_cidr_v4 egress x in
      (
        if present
            then make_check p now CheckName.nat CheckStatus.pass false
                (nat_detail (lit "present") s egress)
            else make_check p now CheckName.nat CheckStatus.fail false
                (nat_detail (lit "missing") s egress),
        y,
      )

  -- The interface of the default route; the configured one is not asked.
  unfoldable pub check_nat_rule : EngineState → H → HealthCheck × H
  unfolding nat_check
  check_nat_rule s x = nat_check s (detect_egress_interface h x) x

  unfoldable pub check_iptables : H → HealthCheck × H
  unfolding or_else
  check_iptables x =
      let (r, y) = probe (lit "iptables") (lit "-t" ∷ lit "nat" ∷ lit "-L" ∷ lit "-n" ∷ []) x in
      (
        if r.exit == 0
            then make_check p now CheckName.iptables CheckStatus.pass false
                (lit "iptables -t nat -L -n exits 0")
            else make_check p now CheckName.iptables CheckStatus.fail false (
                lit "iptables -t nat -L -n exited "
                ++ (decimal r.exit
                    ++ (lit ": " ++ or_else r.stderr (lit "table not inspectable")))),
        y,
      )

  port_verdict : ℕ → Executed → HealthCheck
  port_verdict number r =
      if r.exit == 0
      then make_check p now CheckName.port CheckStatus.pass false
          (lit "udp " ++ (decimal number ++ lit " reachable on 127.0.0.1"))
      else if is_empty r.stderr && is_empty r.stdout
      then make_check p now CheckName.port CheckStatus.skip false
          (lit "udp probe unavailable (nc did not respond)")
      else make_check p now CheckName.port CheckStatus.fail false (
          lit "udp "
          ++ (decimal number
              ++ (lit " not reachable on 127.0.0.1 (nc exit " ++ (decimal r.exit ++ lit ")"))))

  unfoldable pub check_port_reachability : EngineConfig → H → HealthCheck × H
  unfolding port_verdict
  check_port_reachability config x =
      let (found, y) = probe (lit "nc") (lit "--version" ∷ []) x in
      let (r, z) =
        probe (lit "nc")
          (lit "-z"
            ∷ lit "-u"
            ∷ lit "-w"
            ∷ lit "1"
            ∷ lit "127.0.0.1"
            ∷ decimal config.listen_port
            ∷ [])
          y in
      if found.exit == 0
      then (port_verdict config.listen_port r, z)
      else (make_check p now CheckName.port CheckStatus.skip false (lit "udp probe unavailable"), y)

  code_or : ExitCode → Text → Text
  code_or (ExitCode.status n) message = decimal n
  code_or (ExitCode.named name) message = name
  code_or ExitCode.unknown message = message

  is_absent : ExitCode → Bool
  is_absent (ExitCode.named name) = text_eq name (lit "ENOENT")
  is_absent _ = false

  state_check : EngineConfig → Access → HealthCheck
  unfolding code_or is_absent
  state_check config granted =
      make_check p now CheckName.state_io CheckStatus.pass true
        (config.state_path ++ lit " is readable+writable")
  state_check config (denied code message) =
      if is_absent code
      then make_check p now CheckName.state_io CheckStatus.pass true
          (config.state_path ++ lit " does not exist (engine will create on first save)")
      else make_check p now CheckName.state_io CheckStatus.fail true
          (config.state_path ++ (lit " not accessible: " ++ code_or code message))

  unfoldable pub check_state_io : EngineConfig → H → HealthCheck
  unfolding state_check
  check_state_io config x = state_check config (h.access config.state_path Mode.writable x)
