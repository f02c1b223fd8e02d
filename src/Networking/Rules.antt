-- ===== src/Networking/Rules.antt =====
-- packages/engine/src/networking.ts: the rules, and the commands and files that they are set with.
use kintunnel.Base.{
  ℕ, Bool, false, Option, none, some, List, [], ◌∷◌, ◌++◌, drop, if◌then◌else◌, ◌==◌, Text, lit,
  text_eq, split, trim,
}
use kintunnel.Base.Failure.{Result, err, ok}
use kintunnel.Types.{EngineConfig, AuditAction, Metadata, MetaValue}
use kintunnel.Host.{Host, Ran, succeeded, ExitCode, has_succeeded}
use kintunnel.Host.Lines.{split_lines}

pub record RuleSpec : Type 0 where
  pub marker : Text
  pub base_args : List Text
  pub target : Text
  pub audit_action : Option AuditAction
  pub audit_metadata : Metadata

pub data InsertOutcome : Type 0 where
  inserted exists failed : InsertOutcome

pub record Executed : Type 0 where
  pub exit : ℕ
  pub stdout : Text
  pub stderr : Text

unfoldable pub masquerade_marker : Text
masquerade_marker = lit "kintunnel:nat:masquerade"

state_args : Text → List Text
state_args states = lit "-m" ∷ lit "conntrack" ∷ lit "--ctstate" ∷ states ∷ []

-- The rules, in the order in which they are inserted.
unfoldable pub build_rule_specs : EngineConfig → Text → List RuleSpec
unfolding masquerade_marker state_args
build_rule_specs config egress_iface =
    record {
      marker = lit "kintunnel:fwd:allow-estab-related";
      base_args = lit "FORWARD" ∷ state_args (lit "ESTABLISHED,RELATED");
      target = lit "ACCEPT";
      audit_action = none;
      audit_metadata = [];
    }
    ∷ record {
      marker = lit "kintunnel:fwd:allow-tunnel-new";
      base_args = lit "FORWARD" ∷ lit "-i" ∷ config.interface_name ∷ state_args (lit "NEW");
      target = lit "ACCEPT";
      audit_action = none;
      audit_metadata = [];
    }
    ∷ record {
      marker = lit "kintunnel:fwd:drop-invalid";
      base_args = lit "FORWARD" ∷ state_args (lit "INVALID");
      target = lit "DROP";
      audit_action = none;
      audit_metadata = [];
    }
    ∷ record {
      marker = masquerade_marker;
      base_args =
          lit "POSTROUTING"
          ∷ lit "-t"
          ∷ lit "nat"
          ∷ lit "-s"
          ∷ config.tunnel_cidr_v4
          ∷ lit "-o"
          ∷ egress_iface
          ∷ [];
      target = lit "MASQUERADE";
      audit_action = some AuditAction.networking_masquerade_applied;
      audit_metadata =
          (lit "egress_iface", MetaValue.text egress_iface)
          ∷ (lit "rule_comment", MetaValue.text masquerade_marker)
          ∷ [];
    }
    ∷ []

unfoldable pub rule_args : RuleSpec → List Text
rule_args spec =
    spec.base_args
    ++ lit "-m" ∷ lit "comment" ∷ lit "--comment" ∷ spec.marker ∷ lit "-j" ∷ spec.target ∷ []

abbrev text_of : Option Text → Text → Text
text_of none other = other
text_of (some s) other = s

-- An error without an exit status counts as 1.
exit_of : ExitCode → ℕ
exit_of (ExitCode.status n) = n
exit_of (ExitCode.named name) = 1
exit_of ExitCode.unknown = 1

unfoldable pub executed : Ran → Executed
unfolding exit_of
executed (succeeded out errors) = record { exit = 0; stdout = out; stderr = errors }
executed (Ran.failed e) = record {
  exit = exit_of e.code;
  stdout = text_of e.stdout [];
  stderr = text_of e.stderr e.message;
}

abbrev non_empty : Text → Option Text
non_empty [] = none
non_empty (c ∷ s) = some (c ∷ s)

-- The columns of a route, and what the routes after it give.
route_of : List Text → Option Text → Option Text
route_of (iface ∷ dest ∷ columns) rest =
    if text_eq (trim dest) (lit "00000000") then non_empty (trim iface) else rest
route_of columns rest = rest

-- The interface of the first default route, among the lines after the header.
default_route : List Text → Option Text
unfolding route_of
default_route [] = none
default_route (line ∷ lines) = route_of (split 9 line) (default_route lines)

egress_of : Result Text → Option Text
unfolding default_route
egress_of (err e) = none
egress_of (ok content) = default_route (drop 1 (split_lines content))

module _ {H : Type 0} (h : Host H) where
  unfoldable pub exec_iptables : List Text → H → Executed × H
  unfolding executed
  exec_iptables args x = let (ran, y) = h.run (lit "iptables") args x in (executed ran, y)

  unfoldable pub read_proc : Text → H → Result Text
  read_proc path x = by (h.read_file path x)
    where
      by : Result Text → Result Text
      by (err e) = err e
      by (ok content) = ok (trim content)

  unfoldable pub command_exists : Text → H → Bool × H
  command_exists command x =
      let (ran, y) = h.run command (lit "--version" ∷ []) x in (has_succeeded ran, y)

  unfoldable pub detect_egress_interface : H → Option Text
  unfolding egress_of
  detect_egress_interface x = egress_of (read_proc (lit "/proc/net/route") x)

  -- `-C` asks for the rule, and `-A` appends it where it is missing.
  unfoldable pub insert_idempotent_rule : RuleSpec → H → InsertOutcome × H
  insert_idempotent_rule spec x =
      let (check, y) = exec_iptables (lit "-C" ∷ rule_args spec) x in
      let (insert, z) = exec_iptables (lit "-A" ∷ rule_args spec) y in
      if check.exit == 0
      then (exists, y)
      else if insert.exit == 0
      then (inserted, z)
      else (failed, z)

  is_one : Result Text → Bool
  is_one (err e) = false
  is_one (ok raw) = text_eq raw (lit "1")

  unfoldable pub check_forwarding_enabled : H → Bool
  unfolding is_one
  check_forwarding_enabled x = is_one (read_proc (lit "/proc/sys/net/ipv4/ip_forward") x)

  unfoldable pub check_nat_rule_present : Text → Text → H → Bool × H
  unfolding masquerade_marker
  check_nat_rule_present tunnel_cidr_v4 egress_iface x =
      let (result, y) =
        exec_iptables
          (lit "-t"
            ∷ lit "nat"
            ∷ lit "-C"
            ∷ lit "POSTROUTING"
            ∷ lit "-s"
            ∷ tunnel_cidr_v4
            ∷ lit "-o"
            ∷ egress_iface
            ∷ lit "-m"
            ∷ lit "comment"
            ∷ lit "--comment"
            ∷ masquerade_marker
            ∷ lit "-j"
            ∷ lit "MASQUERADE"
            ∷ [])
          x in
      (result.exit == 0, y)
