-- ===== src/Health/Policy.antt =====
-- The probe of the masquerade rule, after the networking policy was applied.
use kintunnel.Base.{
  ℕ, ◌≡◌, refl, sym, ap, ◌∙◌, true, false, Option, none, some, List, [], ◌∷◌, map, ◌==◌, arith,
  if◌then◌else◌, Text, lit,
}
use kintunnel.Types.{EngineConfig, EngineState}
use kintunnel.Platform.{Platform}
use kintunnel.Host.{Host}
use kintunnel.Host.Events.{Live}
use kintunnel.Networking.{apply_networking, resolve_egress, present_or}
use kintunnel.Networking.Rules.{
  exec_iptables, check_nat_rule_present, detect_egress_interface, build_rule_specs, rule_args,
  masquerade_marker,
}
use kintunnel.Networking.Tables.{Rule, RuleTable, has_rule, has_all, has_all-ensure_all}
use kintunnel.Networking.Ensured.{probed_host, apply_networking-ensures}
use kintunnel.Health.Probes.{CheckStatus, make_check, check_nat_rule, nat_check}

module _ {H : Type 0} (h : Host H) (t : RuleTable h) (p : Platform) (now : ℕ) where
  -- `iptables` reads the name of the table before and after the command alike.
  abbrev pub Reordered : Type 0
  Reordered =
      (a : List Text) (x : H)
      → (exec_iptables h (lit "-t" ∷ lit "nat" ∷ lit "-C" ∷ lit "POSTROUTING" ∷ a) x).0.exit
        ≡ (exec_iptables h (lit "-C" ∷ lit "POSTROUTING" ∷ lit "-t" ∷ lit "nat" ∷ a) x).0.exit

  masquerade_present :
      (config : EngineConfig) (egress : Text) (x : H)
      → Reordered
      → has_all (map rule_args (build_rule_specs config egress)) (t.rules x) ≡ true
      → (check_nat_rule_present h config.tunnel_cidr_v4 egress x).0 ≡ true
  unfolding build_rule_specs rule_args check_nat_rule_present masquerade_marker
  masquerade_present config egress x swap there =
      let rest : List Text =
        lit "-s"
        ∷ config.tunnel_cidr_v4
        ∷ lit "-o"
        ∷ egress
        ∷ lit "-m"
        ∷ lit "comment"
        ∷ lit "--comment"
        ∷ lit "kintunnel:nat:masquerade"
        ∷ lit "-j"
        ∷ lit "MASQUERADE"
        ∷ [] in
      let rule : Rule = lit "POSTROUTING" ∷ lit "-t" ∷ lit "nat" ∷ rest in
      let present : has_rule rule (t.rules x) ≡ true = ground arith in
      ap (λ n. n == 0) (swap rest x) ∙ (t.checked rule x).0 ∙ present

  nat_check-pass :
      (s : EngineState) (found : Option Text) (egress : Text) (x : H)
      → found ≡ some egress
      → (check_nat_rule_present h s.server.tunnel_cidr_v4 egress x).0 ≡ true
      → (nat_check h p now s found x).0.status ≡ CheckStatus.pass
  unfolding nat_check make_check
  nat_check-pass s none egress x e present = absurd cc
  nat_check-pass s (some other) egress x e present =
      let same : other ≡ egress = cc in
      let present' =
        ap (λ g. (check_nat_rule_present h s.server.tunnel_cidr_v4 g x).0) same ∙ present in
      rw present' refl

  detected :
      (found : Option Text) (egress : Text)
      → present_or found none ≡ some egress
      → found ≡ some egress
  detected none egress e = e
  detected (some []) egress e = absurd cc
  detected (some (c ∷ g)) egress e = e

  -- After a successful live apply of an enabled networking policy without a configured egress
  -- interface, on a host whose iptables keeps a table of rules and reads the table's name before
  -- and after the command alike, the health probe of the masquerade rule passes, provided that the
  -- state has the configuration's tunnel network and the default route is still the one that the
  -- apply resolved.
  pub check_nat_rule-after_apply :
      (config : EngineConfig) (l : Live H) (s : EngineState)
      → Reordered
      → (live : config.dry_run ≡ false) → config.nat_enabled ≡ true
      → config.nat_apply ≡ true
      → config.wg_egress_interface ≡ none
      → s.server.tunnel_cidr_v4 ≡ config.tunnel_cidr_v4
      → (apply_networking h p now config l).0.ok ≡ true
      → let after = (apply_networking h p now config l).1.host in
        detect_egress_interface h after
          ≡ detect_egress_interface h (probed_host h t p now config live l.host)
        → (check_nat_rule h p now s after).0.status ≡ CheckStatus.pass
  unfolding check_nat_rule resolve_egress
  check_nat_rule-after_apply config l s swap live on apply free cidr done route =
      let x : H = (apply_networking h p now config l).1.host in
      let before : H = probed_host h t p now config live l.host in
      let (egress, resolved, ensured) =
        apply_networking-ensures h t p now config live l on apply done in
      let rules : List Rule = map rule_args (build_rule_specs config egress) in
      let there = ap (has_all rules) ensured.0 ∙ has_all-ensure_all rules (t.rules l.host) in
      let present = masquerade_present config egress x swap there in
      let fallback =
        ap
          (λ d.
            present_or none
              (if d then some (lit "eth0") else present_or (detect_egress_interface h before) none))
          live in
      let chosen =
        ap
          (λ o. present_or o (
            if config.dry_run
            then some (lit "eth0")
            else present_or (detect_egress_interface h before) none))
          free in
      let found =
        detected (detect_egress_interface h before) egress (sym (chosen ∙ fallback) ∙ resolved) in
      nat_check-pass s (detect_egress_interface h x) egress x (route ∙ found)
        (ap (λ c. (check_nat_rule_present h c egress x).0) cidr ∙ present)
