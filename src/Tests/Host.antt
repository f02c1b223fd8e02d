-- ===== src/Tests/Host.antt =====
-- The networking policy and the reconcile on the hosts of the tests.
use kintunnel.Base.{
  ℕ, ◌≡◌, refl, ap, ◌∙◌, Bool, true, false, not, ◌&&◌, ◌||◌, Option, none, some, List, [], ◌∷◌,
  ◌++◌, any, all, arith, map, ◌==◌, if◌then◌else◌, ◌↔◌, Text, lit, text_eq, text_eq_iff, Bool-cases,
  inl, inr,
}
use kintunnel.Types.Results.{ReconcileResult}
use kintunnel.Host.{Host}
use kintunnel.Host.Events.{Live, Emits}
use kintunnel.Networking.{apply_networking, resolve_egress}
use kintunnel.Networking.Rules
use kintunnel.Networking.Tables.{Rule, same_rule}
use kintunnel.Networking.Ensured.{
  EnsuresSome, probed_host, apply_networking-ensures, apply_networking-again,
}
use kintunnel.Networking.Safety.{apply_networking-dry}
use kintunnel.Reconcile.{reconcile}
use kintunnel.Reconcile.Outcomes.{reconcile-dry, reconcile-Emits}
use kintunnel.Reconcile.Handler.{post_reconcile, result_of, post_reconcile-record_reconcile}
use kintunnel.Store.Calls.{record_reconcile}
use kintunnel.State.Context.{EventInput}
use kintunnel.Base.Failure.{Result}
use kintunnel.Live.{execute_apply}
use kintunnel.Live.Outcomes.{settled_key, no_interface, execute_apply-Emits, execute_apply-spares}
use kintunnel.Live.Rollbacks.{Allowed}
use kintunnel.Health.{run_health_checks}
use kintunnel.Health.Verdicts.{run_health_checks-ok}
use kintunnel.Health.Probes.{CheckStatus, check_nat_rule}
use kintunnel.Health.Policy.{Reordered, check_nat_rule-after_apply}
use kintunnel.Host.Acts.{gave}
use kintunnel.Tests.Samples.{platform, engine, state, context, state-IsValid}
use kintunnel.Tests.Hosts.{table_host, table, applying, fresh, recording_host, recorder}

applied_ok : (apply_networking table_host platform 3 applying fresh).0.ok ≡ true
unfolding apply_networking resolve_egress lit text_eq Rules.command_exists
    Rules.detect_egress_interface Rules.read_proc kintunnel.Host.Lines.split_lines
    kintunnel.Base.split kintunnel.Base.trim kintunnel.Networking.enable_forwarding
    kintunnel.Networking.after_read kintunnel.Networking.insert_rules Rules.build_rule_specs
    Rules.insert_idempotent_rule Rules.exec_iptables kintunnel.Networking.note_rule same_rule
    Rules.rule_args kintunnel.Networking.applied_result
applied_ok = refl

abbrev ensured : Live (List Rule)
ensured = (apply_networking table_host platform 3 applying fresh).1

same_route :
    Rules.detect_egress_interface table_host ensured.host
    ≡ Rules.detect_egress_interface table_host
        (probed_host table_host table platform 3 applying refl fresh.host)
unfolding Rules.detect_egress_interface Rules.read_proc
same_route = refl

apply_networking-ensures_example :
    EnsuresSome table_host table platform 3 applying refl
      (resolve_egress table_host applying
        (probed_host table_host table platform 3 applying refl fresh.host))
      fresh
      (apply_networking table_host platform 3 applying fresh)
apply_networking-ensures_example =
    apply_networking-ensures table_host table platform 3 applying refl fresh refl refl applied_ok

same_egress :
    resolve_egress table_host applying
      (probed_host table_host table platform 3 applying refl ensured.host)
    ≡ resolve_egress table_host applying
        (probed_host table_host table platform 3 applying refl fresh.host)
unfolding resolve_egress lit text_eq Rules.detect_egress_interface Rules.read_proc
same_egress = refl

apply_networking-again_example :
    table.rules (apply_networking table_host platform 3 applying ensured).1.host
    ≡ table.rules ensured.host
apply_networking-again_example =
    apply_networking-again table_host table platform 3 applying refl fresh ensured refl refl
      applied_ok refl same_egress

apply_networking-dry_example :
    let (result, l') = apply_networking table_host platform 3 engine fresh in
    (l' ≡ fresh) × (result.ok ≡ true) × (result.applied ≡ false) × (result.errors ≡ [])
apply_networking-dry_example = apply_networking-dry table_host platform 3 engine fresh refl

reconcile-dry_example :
    (r : ReconcileResult) × (reconcile table_host platform 3 4 engine fresh ≡ (gave r, fresh))
    × (r.ok ≡ true)
    × (r.applied ≡ true)
    × (r.errors ≡ [])
    × (r.dry_run ≡ true)
reconcile-dry_example = reconcile-dry table_host platform 3 4 engine fresh refl state-IsValid

reconcile-Emits_example :
    Emits platform context (reconcile recording_host platform 3 4 applying recorder).1.context
reconcile-Emits_example = reconcile-Emits recording_host platform 3 4 applying recorder

execute_apply-Emits_example :
    Emits platform context (execute_apply recording_host platform 3 state 4 recorder).1.context
execute_apply-Emits_example = execute_apply-Emits recording_host platform 3 4 state recorder

post_reconcile-record_reconcile_example :
    let (r, l') = post_reconcile recording_host platform 3 4 applying recorder in
    (events : List EventInput) × (result : Result ReconcileResult) × (record_reconcile platform
        events result 3 context
      ≡ (result_of r, l'.context))
post_reconcile-record_reconcile_example =
    post_reconcile-record_reconcile recording_host platform 3 4 applying recorder

-- The command that removes the laptop from the interface.
abbrev removal : Rule
removal = lit "set" ∷ lit "wg0" ∷ lit "peer" ∷ lit "A" ∷ lit "remove" ∷ []

-- The laptop is wanted at the instant 3, and the interface has it.
laptop_settled : settled_key recording_host platform 3 4 state [] (lit "A") ≡ true
unfolding lit text_eq kintunnel.Peers.is_peer_active kintunnel.Runtime.get_runtime_state
    kintunnel.Runtime.Dump.read_dump kintunnel.Host.Lines.filled_lines kintunnel.Base.split
    kintunnel.Base.trim kintunnel.Runtime.Dump.peer_row kintunnel.Base.parse_int
laptop_settled = refl

other_key :
    (key : Text)
    → not (settled_key recording_host platform 3 4 state [] key) ≡ true
    → text_eq (lit "A") key ≡ false
other_key key r = elim (Bool-cases (text_eq (lit "A") key)) [
  | inl same ↦
      let e =
        ap (λ k. not (settled_key recording_host platform 3 4 state [] k))
          ((text_eq_iff (lit "A") key).0 same) in
      absurd (cc (r, e, laptop_settled))
  | inr different ↦ different
]

-- The command that deletes the link, with everything on it.
abbrev deletion : Rule
deletion = lit "link" ∷ lit "del" ∷ lit "wg0" ∷ []

interface_there : no_interface recording_host platform 3 4 state [] ≡ false
unfolding lit text_eq kintunnel.Peers.is_peer_active kintunnel.Runtime.get_runtime_state
    kintunnel.Runtime.Dump.read_dump kintunnel.Host.Lines.filled_lines kintunnel.Base.split
    kintunnel.Base.trim kintunnel.Runtime.Dump.peer_row kintunnel.Base.parse_int
interface_there = refl

abbrev absent : Bool
absent = no_interface recording_host platform 3 4 state []

abbrev loose : Text → Bool
loose k = not (settled_key recording_host platform 3 4 state [] k)

harmless : Rule → Bool
harmless args = not (same_rule removal args || same_rule deletion args)

other_command :
    (cmd : Text) (args : List Text)
    → Allowed recording_host platform 3 state loose absent cmd args
    → harmless args ≡ true
unfolding harmless same_rule lit text_eq
other_command cmd args Allowed.show = refl
other_command cmd args (Allowed.sync path file) = refl
other_command cmd args (Allowed.remove key r) = ground (arith, other_key key r)
other_command cmd args (Allowed.add_link new) = refl
other_command cmd args (Allowed.set_conf path new file) = refl
other_command cmd args (Allowed.delete_link new) = absurd (cc (new, interface_there))
other_command cmd args (Allowed.raise_link mtu new) = refl
other_command cmd args (Allowed.set_address new) = refl

-- No command removed the laptop, and none deleted the link.
execute_apply-spares_example :
    all harmless (execute_apply recording_host platform 3 state 4 recorder).1.host ≡ true
execute_apply-spares_example =
    execute_apply-spares recording_host platform 3 4 state (λ seen. all harmless seen ≡ true)
      recorder (λ cmd args seen allowed clean. ground (arith, other_command cmd args allowed))
      (λ content seen made clean. clean) (λ path seen clean. clean) refl

run_health_checks-ok_example :
    let report = (run_health_checks table_host platform 3 applying state []).0 in
    (report.ok ≡ true) ↔ (report.required_failing ≡ [])
run_health_checks-ok_example = run_health_checks-ok table_host platform 3 applying state []

reordered : Reordered table_host table platform 3
unfolding Rules.exec_iptables lit text_eq
reordered a rules = refl

check_nat_rule-after_apply_example :
    (check_nat_rule table_host platform 3 state ensured.host).0.status ≡ CheckStatus.pass
check_nat_rule-after_apply_example =
    check_nat_rule-after_apply table_host table platform 3 applying fresh state reordered refl refl
      refl refl refl applied_ok same_route
