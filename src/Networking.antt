-- ===== src/Networking.antt =====
-- packages/engine/src/networking.ts: forwarding and the iptables rules of the tunnel.
-- The clock reads `now` during a call. The undeclared property `skipped` of the result is left out.
pub mod Rules
pub mod Tables
pub mod Insertions
pub mod Ensured
pub mod Safety
use kintunnel.Base.{
  ℕ, Bool, true, false, not, ◌&&◌, ◌||◌, Option, none, some, List, [], ◌∷◌, ◌++◌, any, keep,
  if◌then◌else◌, ◌==◌, Text, lit, text_eq, join, trim,
}
use kintunnel.Base.Failure.{Result, err, ok}
use kintunnel.Types.{EngineConfig, AuditAction, Metadata, MetaValue}
use kintunnel.Types.Results.{NetworkingResult}
use kintunnel.Platform.{Platform}
use kintunnel.Ip.{is_empty}
use kintunnel.Host.{Host, message_of}
use kintunnel.Host.Events.{Live, emit_audit}
use Rules.{
  RuleSpec, InsertOutcome, inserted, exists, failed, build_rule_specs, insert_idempotent_rule,
  exec_iptables, rule_args, read_proc, detect_egress_interface, command_exists,
}

pub record ForwardRules : Type 0 where
  pub allow_tunnel_new : Bool
  pub allow_established_related : Bool
  pub drop_invalid : Bool

pub record NetworkingPlan : Type 0 where
  pub enable_forwarding : Bool
  pub masquerade_rule : Bool
  pub forward_rules : ForwardRules

-- The plan does not depend on the configuration and the state.
pub plan_networking : EngineConfig → NetworkingPlan
plan_networking config = record {
  enable_forwarding = true;
  masquerade_rule = true;
  forward_rules = record {
    allow_tunnel_new = true;
    allow_established_related = true;
    drop_invalid = true;
  };
}

unfoldable pub skip_warning : EngineConfig → Text
skip_warning config =
    if not config.nat_enabled
    then lit "networking skipped: natEnabled=false"
    else lit "networking skipped: natApply=false"

unfoldable pub skipped_result : EngineConfig → NetworkingResult
unfolding skip_warning
skipped_result config = record {
  ok = true;
  applied = false;
  rules_inserted = [];
  rules_rolled_back = [];
  forwarding_enabled = false;
  warnings = skip_warning config ∷ [];
  errors = [];
}

unfoldable pub refused : Text → NetworkingResult
refused complaint = record {
  ok = false;
  applied = false;
  rules_inserted = [];
  rules_rolled_back = [];
  forwarding_enabled = false;
  warnings = [];
  errors = complaint ∷ [];
}

unfoldable pub rolled_back : List Text → Text → NetworkingResult
rolled_back markers failing = record {
  ok = false;
  applied = false;
  rules_inserted = [];
  rules_rolled_back = markers;
  forwarding_enabled = true;
  warnings = [];
  errors = (lit "rule_insert_failed: " ++ failing) ∷ [];
}

unfoldable pub applied_result : List Text → NetworkingResult
applied_result markers = record {
  ok = true;
  applied = true;
  rules_inserted = markers;
  rules_rolled_back = [];
  forwarding_enabled = true;
  warnings = [];
  errors = [];
}

abbrev or_text : Text → Text → Text
or_text [] other = other
or_text (c ∷ s) other = c ∷ s

-- `marker.startsWith(prefix)`
starts_with : Text → Text → Bool
starts_with [] marker = true
starts_with (c ∷ prefix) [] = false
starts_with (c ∷ prefix) (d ∷ marker) = c == d && starts_with prefix marker

pub forward_markers : List Text → List Text
unfolding starts_with
forward_markers markers = keep (starts_with (lit "kintunnel:fwd:")) markers

abbrev pub present_or : Option Text → Option Text → Option Text
present_or none other = other
present_or (some s) other = if is_empty s then other else some s

module _ {H : Type 0} (h : Host H) where
  unfoldable pub resolve_egress : EngineConfig → H → Option Text
  resolve_egress config x =
      present_or config.wg_egress_interface (
        if config.dry_run then some (lit "eth0") else present_or (detect_egress_interface h x) none)

  -- `config.wgEgressInterface ?? await detectEgressInterface() ?? "unknown"`
  rollback_egress : EngineConfig → H → Text
  rollback_egress config x = by config.wg_egress_interface (detect_egress_interface h x)
    where
      by : Option Text → Option Text → Text
      by (some s) detected = s
      by none (some s) = s
      by none none = lit "unknown"

  -- A failed `-D` is ignored.
  unfoldable pub remove_rules : List RuleSpec → H → H
  remove_rules [] x = x
  remove_rules (spec ∷ specs) x =
      remove_rules specs (exec_iptables h (lit "-D" ∷ rule_args spec) x).1

  unfoldable pub rollback_networking : EngineConfig → List Text → H → H
  unfolding rollback_egress
  rollback_networking config markers x =
      remove_rules
        (keep (λ spec. any (text_eq spec.marker) markers)
          (build_rule_specs config (rollback_egress config x)))
        x

module _ {H : Type 0} (h : Host H) (p : Platform) (now : ℕ) (config : EngineConfig) where
  -- Step 4, the write of `ip_forward` unless it is on.
  unfoldable pub after_write : Text → Live H → Result Text × H → Result Text × Live H
  after_write before l (err e, x) = (err e, record l { host = x })
  after_write before l (ok written, x) = (
    ok written,
    emit_audit p now AuditAction.networking_forwarding_enabled
        ((lit "previous_value", MetaValue.text (or_text before (lit "unknown")))
          ∷ (lit "new_value", MetaValue.text (lit "1"))
          ∷ [])
        (record l { host = x }),
  )

  unfoldable pub after_read : Live H → Result Text → Result Text × Live H
  unfolding after_write
  after_read l (err e) = (err e, l)
  after_read l (ok before) =
      if text_eq before (lit "1")
      then (ok before, l)
      else after_write before l
          (h.write_file (lit "/proc/sys/net/ipv4/ip_forward") (lit "1\n") l.host)

  unfoldable pub enable_forwarding : Live H → Result Text × Live H
  enable_forwarding l =
      if config.dry_run
      then (ok (lit "0"), l)
      else after_read l (read_proc h (lit "/proc/sys/net/ipv4/ip_forward") l.host)

  abbrev pub note : Bool → Option AuditAction → Metadata → Live H → Live H
  note false (some action) metadata l = emit_audit p now action metadata l
  note _ _ metadata l = l

  unfoldable pub note_rule : RuleSpec → Live H → Live H
  note_rule spec l = note config.dry_run spec.audit_action spec.audit_metadata l

  give_up : RuleSpec → List Text → Live H → NetworkingResult × Live H
  give_up spec markers l =
      let noted =
        emit_audit p now AuditAction.networking_rolledback
          ((lit "reason", MetaValue.text (lit "rule_insert_failed"))
            ∷ (
              lit "rules_removed",
              MetaValue.text (or_text (join (lit ",") markers) (lit "<none>")),
            )
            ∷ [])
          l in
      let back =
        if config.dry_run
        then l
        else record noted { host = rollback_networking h config markers noted.host } in
      (rolled_back markers spec.marker, back)

  abbrev forward_action : List Text → Option AuditAction
  forward_action [] = none
  forward_action (m ∷ ms) = some AuditAction.networking_forward_policy_applied

  -- Step 6, one event for all FORWARD rules.
  finish : List Text → Live H → NetworkingResult × Live H
  finish markers l = (
    applied_result markers,
    note config.dry_run (forward_action (forward_markers markers))
        ((lit "rules", MetaValue.text (join (lit ",") (forward_markers markers))) ∷ []) l,
  )

  insert_one : RuleSpec → H → InsertOutcome × H
  insert_one spec x = if config.dry_run then (inserted, x) else insert_idempotent_rule h spec x

  -- What follows the attempt to insert a rule.
  abbrev proceed :
      RuleSpec
      → List Text
      → Live H
      → (Live H → NetworkingResult × Live H)
      → InsertOutcome × H
      → NetworkingResult × Live H
  proceed spec markers l next (failed, x) = give_up spec markers (record l { host = x })
  proceed spec markers l next (inserted, x) = next (note_rule spec (record l { host = x }))
  proceed spec markers l next (exists, x) = next (note_rule spec (record l { host = x }))

  -- Step 5. The markers are those of the rules that this call has found or inserted.
  unfoldable pub insert_rules : List RuleSpec → List Text → Live H → NetworkingResult × Live H
  unfolding insert_one give_up finish
  insert_rules [] markers l = finish markers l
  insert_rules (spec ∷ specs) markers l =
      proceed spec markers l (insert_rules specs (markers ++ spec.marker ∷ []))
        (insert_one spec l.host)

  with_forwarding : Text → Result Text × Live H → NetworkingResult × Live H
  with_forwarding egress (err e, l) = (refused (lit "forwarding_write_failed: " ++ message_of e), l)
  with_forwarding egress (ok before, l) = insert_rules (build_rule_specs config egress) [] l

  with_egress : Option Text → Live H → NetworkingResult × Live H
  unfolding with_forwarding
  with_egress none l =
      (refused (lit "egress_unresolvable: no default route found in /proc/net/route"), l)
  with_egress (some egress) l = with_forwarding egress (enable_forwarding l)

  abbrev find_iptables : H → Bool × H
  find_iptables x = if config.dry_run then (true, x) else command_exists h (lit "iptables") x

  with_iptables : Live H → Bool × H → NetworkingResult × Live H
  unfolding with_egress
  with_iptables l (false, x) = (refused (lit "iptables_unavailable"), record l { host = x })
  with_iptables l (true, x) = with_egress (resolve_egress h config x) (record l { host = x })

  unfoldable pub apply_networking : Live H → NetworkingResult × Live H
  unfolding with_iptables
  apply_networking l =
      if not config.nat_enabled || not config.nat_apply
      then (skipped_result config, l)
      else with_iptables l (find_iptables l.host)
