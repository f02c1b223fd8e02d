-- ===== src/Health/Verdicts.antt =====
-- When a health report is ok.
use kintunnel.Base.{
  ℕ, ◌≡◌, refl, sym, ap, ◌∙◌, Bool, true, false, not, ◌&&◌, List, [], ◌∷◌, map, keep, length, ◌==◌,
  arith, All, if◌then◌else◌, ◌↔◌, Bool-cases, inl, inr,
}
use mathlib.Core.Path.{subst}
use kintunnel.Types.{EngineConfig, EngineState}
use kintunnel.Platform.{Platform}
use kintunnel.Host.{Host}
use kintunnel.Health.{
  HealthReport, required_for, is_pass, is_fail, require_by, aggregate, dry_checks, live_checks,
  run_health_checks,
}
use kintunnel.Health.Probes.{
  CheckName, CheckStatus, HealthCheck, is_pass, is_fail, make_check, check_interface,
  check_nat_rule, check_iptables, check_port_reachability,
}
use kintunnel.Health.Probes.Shapes.{
  Shape, check_tun-Shape, check_forwarding-Shape, check_interface-Shape, check_nat_rule-Shape,
  check_iptables-Shape, check_port_reachability-name, check_state_io-Shape,
}

-- A check that is required ends as passed or as failed.
abbrev Decided : EngineConfig → HealthCheck → Type 0
Decided config c =
    (required_for config c.name && (not (is_pass c.status) && not (is_fail c.status))) ≡ false

same_verdict :
    (b : Bool) (s : CheckStatus)
    → (b && (not (is_pass s) && not (is_fail s))) ≡ false
    → (b && not (is_pass s)) ≡ (b && is_fail s)
unfolding is_pass is_fail
same_verdict b CheckStatus.pass h = refl
same_verdict b CheckStatus.fail h = refl
same_verdict b CheckStatus.warn h = ground arith
same_verdict b CheckStatus.skip h = ground arith

-- As many checks are required and not passed as are required and failed.
open_checks :
    (config : EngineConfig) (cs : List HealthCheck)
    → All (Decided config) cs
    → length (
        keep
          (λ (c : HealthCheck). c.required && not (is_pass c.status))
          (map (require_by config) cs))
      ≡ length (
          map
            (λ (c : HealthCheck). c.name)
            (keep
              (λ (c : HealthCheck). c.required && is_fail c.status)
              (map (require_by config) cs)))
unfolding require_by
open_checks config [] d = refl
open_checks config (c ∷ cs) d =
    ground
      (arith, open_checks config cs d.1, same_verdict (required_for config c.name) c.status d.0)

Decided-Shape :
    (config : EngineConfig) {n : CheckName} {c : HealthCheck} → Shape n c → Decided config c
Decided-Shape config {n} {c} h = ground (arith, h.decided)

Decided-unrequired :
    (config : EngineConfig) (n : CheckName) (c : HealthCheck)
    → c.name ≡ n
    → required_for config n ≡ false
    → Decided config c
Decided-unrequired config n c e r = let q = ap (required_for config) e in ground (arith, q)

length-zero : {A : Type 0} (xs : List A) → (length xs == 0) ≡ true → xs ≡ []
length-zero [] h = refl
length-zero (x ∷ xs) h = ground arith

aggregate-ok :
    (p : Platform) (config : EngineConfig) (cs : List HealthCheck) (now : ℕ)
    → All (Decided config) cs
    → ((aggregate p config cs now).ok ≡ true) ↔ ((aggregate p config cs now).required_failing ≡ [])
unfolding aggregate
aggregate-ok p config cs now d =
    let e = open_checks config cs d in
    (
      (λ ok. length-zero _ (ap (λ n. n == 0) (sym e) ∙ ok)),
      λ none_left. ap (λ n. n == 0) (e ∙ ap length none_left),
    )

module _ {H : Type 0} (h : Host H) (p : Platform) (now : ℕ) (config : EngineConfig) where
  dry_checks-Decided :
      (x : H) → config.dry_run ≡ true → All (Decided config) (dry_checks h p now config x)
  unfolding dry_checks make_check required_for is_pass is_fail
  dry_checks-Decided x dry = (
    ground (arith, dry),
    (
      ground (arith, dry),
      (
        ground (arith, dry),
        (
          ground (arith, dry),
          (
            ground (arith, dry),
            (refl, (Decided-Shape config (check_state_io-Shape h p now config x), tt)),
          ),
        ),
      ),
    ),
  )

  live_checks-Decided :
      (s : EngineState) (x : H) → All (Decided config) (live_checks h p now config s x).0
  unfolding live_checks required_for
  live_checks-Decided s x0 =
      let x1 : H = (check_interface h p now s x0).1 in
      let x2 : H = (check_nat_rule h p now s x1).1 in
      let x3 : H = (check_iptables h p now x2).1 in
      let x4 : H = (check_port_reachability h p now config x3).1 in
      (
        Decided-Shape config (check_tun-Shape h p now x0),
        (
          Decided-Shape config (check_forwarding-Shape h p now x0),
          (
            Decided-Shape config (check_interface-Shape h p now s x0),
            (
              Decided-Shape config (check_nat_rule-Shape h p now s x1),
              (
                Decided-Shape config (check_iptables-Shape h p now x2),
                (
                  Decided-unrequired config CheckName.port
                      (check_port_reachability h p now config x3).0
                      (check_port_reachability-name h p now config x3) refl,
                  (Decided-Shape config (check_state_io-Shape h p now config x4), tt),
                ),
              ),
            ),
          ),
        ),
      )

  -- On any host, dry or live, a health report is ok exactly if it lists no required check as
  -- failing; no required check is left open by a skip.
  pub run_health_checks-ok :
      (s : EngineState) (x : H)
      → let report = (run_health_checks h p now config s x).0 in
        (report.ok ≡ true) ↔ (report.required_failing ≡ [])
  unfolding run_health_checks
  run_health_checks-ok s x = elim (Bool-cases config.dry_run) [
    | inl dry ↦
        subst (λ (r : HealthReport). (r.ok ≡ true) ↔ (r.required_failing ≡ []))
          (sym (ap report_if dry))
          (aggregate-ok p config (dry_checks h p now config x) now (dry_checks-Decided x dry))
    | inr live ↦
        subst (λ (r : HealthReport). (r.ok ≡ true) ↔ (r.required_failing ≡ []))
          (sym (ap report_if live))
          (aggregate-ok p config (live_checks h p now config s x).0 now (live_checks-Decided s x))
  ]
    where
      report_if : Bool → HealthReport
      report_if d =
          let (checks, y) = live_checks h p now config s x in
          let r : HealthReport × H =
            if d
            then (aggregate p config (dry_checks h p now config x) now, x)
            else (aggregate p config checks now, y) in
          r.0
