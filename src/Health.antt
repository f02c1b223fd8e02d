-- ===== src/Health.antt =====
-- packages/engine/src/health.ts: the probes of the host and their report. The clock reads `now`
-- during a call, and the probes, which the source starts together, run one after the other.
pub mod Probes
pub mod Verdicts
pub mod Policy
use kintunnel.Base.{
  ℕ, Bool, true, false, not, ◌&&◌, ◌||◌, Option, none, some, List, [], ◌∷◌, ◌++◌, map, keep,
  if◌then◌else◌, ◌==◌, length, Text, lit,
}
use kintunnel.Types.{EngineConfig, EngineState}
use kintunnel.Platform.{Platform}
use kintunnel.Host.{Host}
use Probes.{
  CheckName, CheckStatus, HealthCheck, is_pass, is_fail, make_check, check_tun, check_forwarding,
  check_interface, check_nat_rule, check_iptables, check_port_reachability, check_state_io,
}

pub record HealthReport : Type 0 where
  pub ok : Bool
  pub dry_run : Bool
  pub env : Text
  pub checks : List HealthCheck
  pub messages : List Text
  pub checked_at : Text
  pub required_failing : List CheckName
  pub warnings : List CheckName

unfoldable pub required_for : EngineConfig → CheckName → Bool
required_for config CheckName.tun = not config.dry_run && config.forwarding_required
required_for config CheckName.forwarding =
    not config.dry_run && config.nat_enabled && config.forwarding_required
required_for config CheckName.interface = not config.dry_run
required_for config CheckName.nat = not config.dry_run && config.nat_enabled && config.nat_apply
required_for config CheckName.iptables =
    not config.dry_run && (config.nat_enabled || config.nat_apply)
required_for config CheckName.port = false
required_for config CheckName.state_io = true

unfoldable pub require_by : EngineConfig → HealthCheck → HealthCheck
require_by config check = record check { required = required_for config check.name }

unfoldable pub aggregate : Platform → EngineConfig → List HealthCheck → ℕ → HealthReport
aggregate p config raw_checks now =
    let checks = map (require_by config) raw_checks in
    record {
      ok = length (keep (λ c. c.required && not (is_pass c.status)) checks) == 0;
      dry_run = config.dry_run;
      env = config.env;
      checks = checks;
      messages = [];
      checked_at = p.iso now;
      required_failing = map (λ c. c.name) (keep (λ c. c.required && is_fail c.status) checks);
      warnings = map (λ c. c.name) (keep (λ c. not c.required && is_fail c.status) checks);
    }

module _ {H : Type 0} (h : Host H) (p : Platform) (now : ℕ) (config : EngineConfig) where
  skipped : CheckName → HealthCheck
  skipped name =
      make_check p now name CheckStatus.skip (required_for config name) (lit "dry-run mode")

  unfoldable pub dry_checks : H → List HealthCheck
  unfolding skipped
  dry_checks x =
      skipped CheckName.tun
      ∷ skipped CheckName.forwarding
      ∷ skipped CheckName.interface
      ∷ skipped CheckName.nat
      ∷ skipped CheckName.iptables
      ∷ skipped CheckName.port
      ∷ check_state_io h p now config x
      ∷ []

  unfoldable pub live_checks : EngineState → H → List HealthCheck × H
  live_checks s x0 =
      let tun = check_tun h p now x0 in
      let forwarding = check_forwarding h p now x0 in
      let (interface, x1) = check_interface h p now s x0 in
      let (nat, x2) = check_nat_rule h p now s x1 in
      let (iptables, x3) = check_iptables h p now x2 in
      let (port, x4) = check_port_reachability h p now config x3 in
      (
        tun
            ∷ forwarding
            ∷ interface
            ∷ nat
            ∷ iptables
            ∷ port
            ∷ check_state_io h p now config x4
            ∷ [],
        x4,
      )

  unfoldable pub run_health_checks : EngineState → H → HealthReport × H
  run_health_checks s x =
      let (checks, y) = live_checks s x in
      if config.dry_run
      then (aggregate p config (dry_checks x) now, x)
      else (aggregate p config checks now, y)
