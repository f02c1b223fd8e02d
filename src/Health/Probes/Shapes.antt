-- ===== src/Health/Probes/Shapes.antt =====
-- The names and the statuses that the probes report: all but the probe of the port decide.
use kintunnel.Base.{
  ℕ, ◌≡◌, refl, Bool, true, false, not, ◌&&◌, Option, none, some, [], ◌∷◌, ◌==◌, arith,
  if◌then◌else◌, Text, lit, find, split, decimal, Bool-cases, inl, inr,
}
use kintunnel.Types.{EngineConfig, EngineState}
use kintunnel.Platform.{Platform}
use kintunnel.Ip.{is_empty}
use kintunnel.Host.{Host, Access, granted, denied}
use kintunnel.Host.Lines.{split_lines, column}
use kintunnel.Networking.Rules.{Executed}
use kintunnel.Health.Probes.{
  CheckName, CheckStatus, HealthCheck, is_pass, is_fail, make_check, check_tun, check_forwarding,
  check_interface, check_nat_rule, check_iptables, check_port_reachability, check_state_io,
  dump_check, row_check, port_check, interface_fail, nat_check, port_verdict, state_check, probe,
}

-- A check with a name that passed or failed.
pub record Shape (n : CheckName) (c : HealthCheck) : Type 0 where
  pub named : c.name ≡ n
  pub decided : (not (is_pass c.status) && not (is_fail c.status)) ≡ false

module _ {H : Type 0} (h : Host H) (p : Platform) (now : ℕ) where
  passed_or_failed :
      (n : CheckName) (b r q : Bool) (good bad : Text)
      → Shape n (
          if b
          then make_check p now n CheckStatus.pass r good
          else make_check p now n CheckStatus.fail q bad)
  unfolding make_check is_pass is_fail
  passed_or_failed n true r q good bad = record { named = refl; decided = refl }
  passed_or_failed n false r q good bad = record { named = refl; decided = refl }

  failed-Shape :
      (n : CheckName) (r : Bool) (d : Text) → Shape n (make_check p now n CheckStatus.fail r d)
  unfolding make_check is_pass is_fail
  failed-Shape n r d = record { named = refl; decided = refl }

  pub check_tun-Shape : (x : H) → Shape CheckName.tun (check_tun h p now x)
  unfolding check_tun
  check_tun-Shape x = passed_or_failed CheckName.tun _ _ _ _ _

  pub check_forwarding-Shape : (x : H) → Shape CheckName.forwarding (check_forwarding h p now x)
  unfolding check_forwarding
  check_forwarding-Shape x = passed_or_failed CheckName.forwarding _ _ _ _ _

  port_check-Shape :
      (s : EngineState) (raw : Option Text) → Shape CheckName.interface (port_check h p now s raw)
  unfolding port_check interface_fail
  port_check-Shape s raw = passed_or_failed CheckName.interface _ _ _ _ _

  row_check-Shape :
      (s : EngineState) (row : Option Text) → Shape CheckName.interface (row_check h p now s row)
  unfolding row_check interface_fail
  row_check-Shape s none = failed-Shape CheckName.interface _ _
  row_check-Shape s (some row) = port_check-Shape s (column 2 (split 9 row))

  dump_check-Shape :
      (s : EngineState) (r : Executed) → Shape CheckName.interface (dump_check h p now s r)
  unfolding dump_check interface_fail
  dump_check-Shape s r = elim (Bool-cases (r.exit == 0)) [
    | inl shown ↦
        rw shown (row_check-Shape s (find (λ line. not (is_empty line)) (split_lines r.stdout)))
    | inr hidden ↦ rw hidden (failed-Shape CheckName.interface _ _)
  ]

  pub check_interface-Shape :
      (s : EngineState) (x : H) → Shape CheckName.interface (check_interface h p now s x).0
  unfolding check_interface
  check_interface-Shape s x = dump_check-Shape s _

  nat_check-Shape :
      (s : EngineState) (egress : Option Text) (x : H)
      → Shape CheckName.nat (nat_check h p now s egress x).0
  unfolding nat_check
  nat_check-Shape s none x = failed-Shape CheckName.nat _ _
  nat_check-Shape s (some egress) x = passed_or_failed CheckName.nat _ _ _ _ _

  pub check_nat_rule-Shape :
      (s : EngineState) (x : H) → Shape CheckName.nat (check_nat_rule h p now s x).0
  unfolding check_nat_rule
  check_nat_rule-Shape s x = nat_check-Shape s _ x

  pub check_iptables-Shape : (x : H) → Shape CheckName.iptables (check_iptables h p now x).0
  unfolding check_iptables
  check_iptables-Shape x = passed_or_failed CheckName.iptables _ _ _ _ _

  port_verdict-name :
      (number : ℕ) (r : Executed) → (port_verdict h p now number r).name ≡ CheckName.port
  unfolding port_verdict make_check
  port_verdict-name number r = ground arith

  pub check_port_reachability-name :
      (config : EngineConfig) (x : H)
      → (check_port_reachability h p now config x).0.name ≡ CheckName.port
  unfolding check_port_reachability make_check
  check_port_reachability-name config x =
      let (found, y) = probe h p now (lit "nc") (lit "--version" ∷ []) x in
      let (r, z) =
        probe h p now (lit "nc")
          (lit "-z"
            ∷ lit "-u"
            ∷ lit "-w"
            ∷ lit "1"
            ∷ lit "127.0.0.1"
            ∷ decimal config.listen_port
            ∷ [])
          y in
      ground (arith, port_verdict-name config.listen_port r)

  state_check-Shape :
      (config : EngineConfig) (a : Access) → Shape CheckName.state_io (state_check h p now config a)
  unfolding state_check make_check is_pass is_fail
  state_check-Shape config granted = record { named = refl; decided = refl }
  state_check-Shape config (denied code message) = passed_or_failed CheckName.state_io _ _ _ _ _

  pub check_state_io-Shape :
      (config : EngineConfig) (x : H) → Shape CheckName.state_io (check_state_io h p now config x)
  unfolding check_state_io
  check_state_io-Shape config x = state_check-Shape config _
