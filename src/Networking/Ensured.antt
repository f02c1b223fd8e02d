-- ===== src/Networking/Ensured.antt =====
-- What an apply of the networking policy makes of the table of rules.
use kintunnel.Base.{
  ℕ, ◌≡◌, refl, sym, ap, ◌∙◌, Bool, true, false, Option, none, some, List, [], map, arith, Text,
  lit, text_eq, Bool-cases, inl, inr, if◌then◌else◌,
}
use mathlib.Core.Path.{subst}
use kintunnel.Base.Failure.{Result, err, ok}
use kintunnel.Types.{EngineConfig}
use kintunnel.Types.Results.{NetworkingResult}
use kintunnel.Platform.{Platform}
use kintunnel.Host.{Host}
use kintunnel.Host.Events.{Live, emit_audit}
use kintunnel.Networking.{
  resolve_egress, apply_networking, enable_forwarding, after_read, after_write, refused,
  with_forwarding, with_egress, with_iptables,
}
use kintunnel.Networking.Rules.{RuleSpec, rule_args, build_rule_specs, read_proc, command_exists}
use kintunnel.Networking.Tables.{
  Rule, RuleTable, ensure_all, has_all, ensure_all-there, has_all-ensure_all,
}
use kintunnel.Networking.Insertions.{Ensures, insert_rules-ok, insert_rules-there}

module _ {H : Type 0} (h : Host H) (t : RuleTable h) (p : Platform) (now : ℕ)
    (config : EngineConfig) (live : config.dry_run ≡ false) where
  after_write-rules :
      (before : Text) (l : Live H) (m : Result Text × H)
      → t.rules m.1 ≡ t.rules l.host
      → t.rules (after_write h p now config before l m).1.host ≡ t.rules l.host
  unfolding after_write emit_audit
  after_write-rules before l (err e, x) same = same
  after_write-rules before l (ok w, x) same = same

  after_read-rules :
      (l : Live H) (r : Result Text)
      → t.rules (after_read h p now config l r).1.host ≡ t.rules l.host
  unfolding after_read
  after_read-rules l (err e) = refl
  after_read-rules l (ok before) = elim (Bool-cases (text_eq before (lit "1"))) [
    | inl on ↦ rw on refl
    | inr off ↦ rw off (after_write-rules before l _ (t.written _ _ l.host))
  ]

  enable_forwarding-rules :
      (l : Live H) → t.rules (enable_forwarding h p now config l).1.host ≡ t.rules l.host
  unfolding enable_forwarding
  enable_forwarding-rules l =
      let r : Result Text = read_proc h (lit "/proc/sys/net/ipv4/ip_forward") l.host in
      ap (λ dry. t.rules (if dry then (ok (lit "0"), l) else after_read h p now config l r).1.host)
        live
      ∙ after_read-rules l r

  abbrev specs_of : Text → List RuleSpec
  specs_of egress = build_rule_specs config egress

  with_forwarding-ok :
      (egress : Text) (l : Live H) (m : Result Text × Live H)
      → t.rules m.1.host ≡ t.rules l.host
      → (with_forwarding h p now config egress m).0.ok ≡ true
      → Ensures h t p now config live
          (map rule_args (specs_of egress))
          (map (λ s. s.marker) (specs_of egress))
          l
          (with_forwarding h p now config egress m)
  unfolding with_forwarding refused
  with_forwarding-ok egress l (err e, l') same k = absurd cc
  with_forwarding-ok egress l (ok before, l') same k =
      let (rules, found, applied) =
        insert_rules-ok h t p now config live (specs_of egress) [] l' k in
      (rules ∙ ap (ensure_all (map rule_args (specs_of egress))) same, found, applied)

  -- The interface that was resolved, and the rules that were ensured for it.
  abbrev pub EnsuresSome : Option Text → Live H → NetworkingResult × Live H → Type 0
  EnsuresSome resolved l r =
      (egress : Text) × (resolved ≡ some egress)
      × Ensures h t p now config live (map rule_args (specs_of egress))
          (map (λ s. s.marker) (specs_of egress)) l r

  with_egress-ok :
      (resolved : Option Text) (l : Live H)
      → (with_egress h p now config resolved l).0.ok ≡ true
      → EnsuresSome resolved l (with_egress h p now config resolved l)
  unfolding with_egress refused
  with_egress-ok none l k = absurd cc
  with_egress-ok (some egress) l k = (
    egress,
    refl,
    with_forwarding-ok egress l (enable_forwarding h p now config l) (enable_forwarding-rules l) k,
  )

  with_iptables-ok :
      (l : Live H) (m : Bool × H)
      → t.rules m.1 ≡ t.rules l.host
      → (with_iptables h p now config l m).0.ok ≡ true
      → EnsuresSome (resolve_egress h config m.1) l (with_iptables h p now config l m)
  unfolding with_iptables refused
  with_iptables-ok l (false, x) same k = absurd cc
  with_iptables-ok l (true, x) same k =
      let (egress, resolved, ensured) =
        with_egress-ok (resolve_egress h config x) (record l { host = x }) k in
      (
        egress,
        resolved,
        (ensured.0 ∙ ap (ensure_all (map rule_args (specs_of egress))) same, ensured.1, ensured.2),
      )

  -- The host after the probe for the iptables command.
  abbrev pub probed_host : H → H
  probed_host x = (command_exists h (lit "iptables") x).1

  apply_networking-enabled :
      (l : Live H)
      → config.nat_enabled ≡ true
      → config.nat_apply ≡ true
      → apply_networking h p now config l
        ≡ with_iptables h p now config l (command_exists h (lit "iptables") l.host)
  unfolding apply_networking
  apply_networking-enabled l on apply = ground (arith, live)

  -- When the policy is enabled and to be applied and an apply outside a dry run succeeds, on a
  -- host whose iptables keeps a table of rules, the egress interface was resolved, the table
  -- afterwards is the one before with each missing rule of the policy appended in order, the
  -- result lists the markers of all the policy's rules, and it counts as applied.
  pub apply_networking-ensures :
      (l : Live H)
      → config.nat_enabled ≡ true
      → config.nat_apply ≡ true
      → (apply_networking h p now config l).0.ok ≡ true
      → EnsuresSome
          (resolve_egress h config (probed_host l.host))
          l
          (apply_networking h p now config l)
  apply_networking-ensures l on apply k =
      let e = apply_networking-enabled l on apply in
      subst (EnsuresSome (resolve_egress h config (probed_host l.host)) l) (sym e) (
        with_iptables-ok l (command_exists h (lit "iptables") l.host) (t.probed l.host)
          (sym (ap (λ (r : NetworkingResult × Live H). r.0.ok) e) ∙ k))

  abbrev HasAll : Text → Live H → Type 0
  HasAll egress l = has_all (map rule_args (specs_of egress)) (t.rules l.host) ≡ true

  with_forwarding-there :
      (egress : Text) (l : Live H) (m : Result Text × Live H)
      → t.rules m.1.host ≡ t.rules l.host
      → HasAll egress l
      → t.rules (with_forwarding h p now config egress m).1.host ≡ t.rules l.host
  unfolding with_forwarding
  with_forwarding-there egress l (err e, l') same there = same
  with_forwarding-there egress l (ok before, l') same there =
      let rules : List Rule = map rule_args (specs_of egress) in
      let there' = ap (has_all rules) same ∙ there in
      let done = insert_rules-there h t p now config live (specs_of egress) [] l' there' in
      (insert_rules-ok h t p now config live (specs_of egress) [] l' done).0
      ∙ ensure_all-there rules (t.rules l'.host) there'
      ∙ same

  with_egress-there :
      (resolved : Option Text) (egress : Text) (l : Live H)
      → resolved ≡ some egress
      → HasAll egress l
      → t.rules (with_egress h p now config resolved l).1.host ≡ t.rules l.host
  unfolding with_egress
  with_egress-there none egress l e there = refl
  with_egress-there (some found) egress l e there =
      let same : found ≡ egress = cc in
      with_forwarding-there found l (enable_forwarding h p now config l) (enable_forwarding-rules l)
        (ap (λ s. has_all (map rule_args (specs_of s)) (t.rules l.host)) same ∙ there)

  with_iptables-there :
      (egress : Text) (l : Live H) (m : Bool × H)
      → t.rules m.1 ≡ t.rules l.host
      → resolve_egress h config m.1 ≡ some egress
      → HasAll egress l
      → t.rules (with_iptables h p now config l m).1.host ≡ t.rules l.host
  unfolding with_iptables
  with_iptables-there egress l (false, x) same e there = same
  with_iptables-there egress l (true, x) same e there =
      with_egress-there (resolve_egress h config x) egress (record l { host = x }) e
        (ap (has_all (map rule_args (specs_of egress))) same ∙ there)
      ∙ same

  -- After a successful apply outside a dry run, on a host whose iptables keeps a table of rules,
  -- another apply on the host it left, from any engine state, leaves the table of rules as it is,
  -- provided that it resolves the same egress interface.
  pub apply_networking-again :
      (l l' : Live H)
      → config.nat_enabled ≡ true
      → config.nat_apply ≡ true
      → (apply_networking h p now config l).0.ok ≡ true
      → l'.host ≡ (apply_networking h p now config l).1.host
      → resolve_egress h config (probed_host l'.host) ≡ resolve_egress h config (probed_host l.host)
      → t.rules (apply_networking h p now config l').1.host ≡ t.rules l'.host
  apply_networking-again l l' on apply k after egress =
      let (found, resolved, ensured) = apply_networking-ensures l on apply k in
      let rules : List Rule = map rule_args (specs_of found) in
      let there : HasAll found l' =
        ap (λ x. has_all rules (t.rules x)) after
        ∙ ap (has_all rules) ensured.0
        ∙ has_all-ensure_all rules (t.rules l.host) in
      ap (λ (r : NetworkingResult × Live H). t.rules r.1.host)
        (apply_networking-enabled l' on apply)
      ∙ with_iptables-there found l' (command_exists h (lit "iptables") l'.host) (t.probed l'.host)
          (egress ∙ resolved) there
