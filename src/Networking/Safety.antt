-- ===== src/Networking/Safety.antt =====
-- What an apply of the networking policy leaves alone: a skipped one and a dry run change nothing,
-- and every apply only appends events to the engine's state.
use kintunnel.Base.{
  ℕ, ◌≡◌, refl, sym, ap, ◌∙◌, Bool, true, false, not, ◌&&◌, ◌||◌, Option, none, some, List, [], ◌∷◌,
  ◌++◌, arith, Text, lit, text_eq, Bool-cases, inl, inr, if◌then◌else◌,
}
use mathlib.Core.Path.{subst}
use kintunnel.Base.Failure.{Result, err, ok}
use kintunnel.Types.{EngineConfig, AuditAction, Metadata}
use kintunnel.Types.Results.{NetworkingResult}
use kintunnel.Platform.{Platform}
use kintunnel.Host.{Host}
use kintunnel.Host.Events.{Live, Emits, Emits-refl, Emits-trans, Emits-emit_audit}
use kintunnel.Networking.{
  resolve_egress, note, note_rule, insert_rules, apply_networking, enable_forwarding, after_read,
  after_write, applied_result, skipped_result, insert_one, proceed, give_up, finish,
  with_forwarding, with_egress, with_iptables, find_iptables, present_or,
}
use kintunnel.Networking.Rules.{
  RuleSpec, InsertOutcome, inserted, exists, failed, build_rule_specs, read_proc,
  insert_idempotent_rule, detect_egress_interface, command_exists,
}

module _ {H : Type 0} (h : Host H) (p : Platform) (now : ℕ) (config : EngineConfig) where
  abbrev EmitsTo : Live H → Live H → Type 0
  EmitsTo l l' = Emits p l.context l'.context

  Emits-note :
      (dry : Bool) (action : Option AuditAction) (metadata : Metadata) (l : Live H)
      → EmitsTo l (note h p now config dry action metadata l)
  Emits-note true action metadata l = Emits-refl p l.context
  Emits-note false none metadata l = Emits-refl p l.context
  Emits-note false (some action) metadata l = Emits-emit_audit p now action metadata l

  Emits-give_up :
      (spec : RuleSpec) (markers : List Text) (l : Live H)
      → EmitsTo l (give_up h p now config spec markers l).1
  unfolding give_up
  Emits-give_up spec markers l = elim (Bool-cases config.dry_run) [
    | inl dry ↦ rw dry (Emits-refl p l.context)
    | inr wet ↦ rw wet (Emits-emit_audit p now _ _ l)
  ]

  Emits-proceed :
      (spec : RuleSpec) (markers : List Text) (l : Live H)
      (next : Live H → NetworkingResult × Live H) (m : InsertOutcome × H)
      → ((l' : Live H) → EmitsTo l' (next l').1)
      → EmitsTo l (proceed h p now config spec markers l next m).1
  unfolding note_rule
  Emits-proceed spec markers l next (failed, x) more =
      Emits-give_up spec markers (record l { host = x })
  Emits-proceed spec markers l next (inserted, x) more =
      Emits-trans
        (Emits-note config.dry_run spec.audit_action spec.audit_metadata (record l { host = x }))
        (more (note_rule h p now config spec (record l { host = x })))
  Emits-proceed spec markers l next (exists, x) more =
      Emits-trans
        (Emits-note config.dry_run spec.audit_action spec.audit_metadata (record l { host = x }))
        (more (note_rule h p now config spec (record l { host = x })))

  Emits-insert_rules :
      (specs : List RuleSpec) (markers : List Text) (l : Live H)
      → EmitsTo l (insert_rules h p now config specs markers l).1
  unfolding insert_rules finish
  Emits-insert_rules [] markers l = Emits-note config.dry_run _ _ l
  Emits-insert_rules (spec ∷ specs) markers l =
      Emits-proceed spec markers l (insert_rules h p now config specs (markers ++ spec.marker ∷ []))
        (insert_one h p now config spec l.host)
        (Emits-insert_rules specs (markers ++ spec.marker ∷ []))

  Emits-after_write :
      (before : Text) (l : Live H) (m : Result Text × H)
      → EmitsTo l (after_write h p now config before l m).1
  unfolding after_write
  Emits-after_write before l (err e, x) = Emits-refl p l.context
  Emits-after_write before l (ok w, x) = Emits-emit_audit p now _ _ (record l { host = x })

  Emits-after_read : (l : Live H) (r : Result Text) → EmitsTo l (after_read h p now config l r).1
  unfolding after_read
  Emits-after_read l (err e) = Emits-refl p l.context
  Emits-after_read l (ok before) = elim (Bool-cases (text_eq before (lit "1"))) [
    | inl on ↦ rw on (Emits-refl p l.context)
    | inr off ↦ rw off (Emits-after_write before l _)
  ]

  Emits-enable_forwarding : (l : Live H) → EmitsTo l (enable_forwarding h p now config l).1
  unfolding enable_forwarding
  Emits-enable_forwarding l = by config.dry_run
    where
      by :
          (dry : Bool)
          → EmitsTo l
              (if dry
                then (ok (lit "0"), l)
                else after_read h p now config l
                    (read_proc h (lit "/proc/sys/net/ipv4/ip_forward") l.host)).1
      by true = Emits-refl p l.context
      by false = Emits-after_read l (read_proc h (lit "/proc/sys/net/ipv4/ip_forward") l.host)

  Emits-with_forwarding :
      (egress : Text) (m : Result Text × Live H)
      → EmitsTo m.1 (with_forwarding h p now config egress m).1
  unfolding with_forwarding
  Emits-with_forwarding egress (err e, l) = Emits-refl p l.context
  Emits-with_forwarding egress (ok before, l) =
      Emits-insert_rules (build_rule_specs config egress) [] l

  Emits-with_egress :
      (resolved : Option Text) (l : Live H) → EmitsTo l (with_egress h p now config resolved l).1
  unfolding with_egress
  Emits-with_egress none l = Emits-refl p l.context
  Emits-with_egress (some egress) l =
      Emits-trans (Emits-enable_forwarding l)
        (Emits-with_forwarding egress (enable_forwarding h p now config l))

  Emits-with_iptables : (l : Live H) (m : Bool × H) → EmitsTo l (with_iptables h p now config l m).1
  unfolding with_iptables
  Emits-with_iptables l (false, x) = Emits-refl p l.context
  Emits-with_iptables l (true, x) =
      Emits-with_egress (resolve_egress h config x) (record l { host = x })

  -- Whatever the host does, an apply only appends events to the engine's state.
  pub apply_networking-Emits : (l : Live H) → EmitsTo l (apply_networking h p now config l).1
  unfolding apply_networking
  apply_networking-Emits l = by (not config.nat_enabled || not config.nat_apply)
    where
      by :
          (skip : Bool)
          → EmitsTo l
              (if skip
                then (skipped_result config, l)
                else with_iptables h p now config l (find_iptables h p now config l.host)).1
      by true = Emits-refl p l.context
      by false = Emits-with_iptables l (find_iptables h p now config l.host)

  abbrev Untouched : Live H → NetworkingResult × Live H → Type 0
  Untouched l r = (r.1 ≡ l) × (r.0.ok ≡ true) × (r.0.applied ≡ true) × (r.0.errors ≡ [])

  module _ (dry : config.dry_run ≡ true) where
    note-dry :
        (action : Option AuditAction) (metadata : Metadata) (l : Live H)
        → note h p now config config.dry_run action metadata l ≡ l
    note-dry action metadata l = ap (λ d. note h p now config d action metadata l) dry

    insert_rules-dry :
        (specs : List RuleSpec) (markers : List Text) (l : Live H)
        → Untouched l (insert_rules h p now config specs markers l)
    unfolding insert_rules finish insert_one note_rule applied_result
    insert_rules-dry [] markers l = (note-dry _ _ l, refl, refl, refl)
    insert_rules-dry (spec ∷ specs) markers l =
        let next : Live H → NetworkingResult × Live H =
          insert_rules h p now config specs (markers ++ spec.marker ∷ []) in
        subst (Untouched l)
          (sym (
            ap
              (λ d.
                proceed h p now config spec markers l next
                  (if d then (inserted, l.host) else insert_idempotent_rule h spec l.host))
              dry
            ∙ ap next (note-dry spec.audit_action spec.audit_metadata l)))
          (insert_rules-dry specs (markers ++ spec.marker ∷ []) l)

    with_egress-dry :
        (egress : Text) (l : Live H) → Untouched l (with_egress h p now config (some egress) l)
    unfolding with_egress enable_forwarding with_forwarding
    with_egress-dry egress l =
        subst (Untouched l)
          (sym (
            ap
              (λ d. with_forwarding h p now config egress (
                if d
                then (ok (lit "0"), l)
                else after_read h p now config l
                    (read_proc h (lit "/proc/sys/net/ipv4/ip_forward") l.host)))
              dry))
          (insert_rules-dry (build_rule_specs config egress) [] l)

    resolve_egress-dry : (x : H) → (egress : Text) × (resolve_egress h config x ≡ some egress)
    unfolding resolve_egress
    resolve_egress-dry x = by config.wg_egress_interface config.dry_run dry
      where
        by :
            (override : Option Text) (d : Bool)
            → d ≡ true
            → (egress : Text) × (present_or override
                  (if d then some (lit "eth0") else present_or (detect_egress_interface h x) none)
                ≡ some egress)
        by none true e = (lit "eth0", refl)
        by (some []) true e = (lit "eth0", refl)
        by (some (c ∷ s)) true e = (c ∷ s, refl)
        by override false e = absurd cc

    apply_networking-attempted :
        (l : Live H)
        → config.nat_enabled ≡ true
        → config.nat_apply ≡ true
        → Untouched l (apply_networking h p now config l)
    unfolding apply_networking with_iptables
    apply_networking-attempted l on apply =
        let (egress, e) = resolve_egress-dry l.host in
        subst (Untouched l)
          (sym (
            ap
              (λ b.
                if not b || not config.nat_apply
                then (skipped_result config, l)
                else with_iptables h p now config l (find_iptables h p now config l.host))
              on
            ∙ ap
                (λ b.
                  if not b
                  then (skipped_result config, l)
                  else with_iptables h p now config l (find_iptables h p now config l.host))
                apply
            ∙ ap
                (λ d.
                  with_iptables h p now config l
                    (if d then (true, l.host) else command_exists h (lit "iptables") l.host))
                dry
            ∙ ap (λ o. with_egress h p now config o l) e))
          (with_egress-dry egress l)

  apply_networking-skipped :
      (l : Live H)
      → (not config.nat_enabled || not config.nat_apply) ≡ true
      → apply_networking h p now config l ≡ (skipped_result config, l)
  unfolding apply_networking
  apply_networking-skipped l skip = rw skip refl

  -- An apply of the networking policy in a dry run, or with the policy disabled or not to be
  -- applied, changes neither the engine's state nor the host, is ok and without errors, and counts
  -- as applied exactly if the policy is enabled and to be applied.
  pub apply_networking-dry :
      (l : Live H)
      → (config.dry_run || not config.nat_enabled || not config.nat_apply) ≡ true
      → let (result, l') = apply_networking h p now config l in
        (l' ≡ l)
        × (result.ok ≡ true)
        × (result.applied ≡ (config.nat_enabled && config.nat_apply))
        × (result.errors ≡ [])
  unfolding skipped_result
  apply_networking-dry l gate = elim (Bool-cases (not config.nat_enabled || not config.nat_apply)) [
    | inl skip ↦
        let e = apply_networking-skipped l skip in
        (
          ap (λ (r : NetworkingResult × Live H). r.1) e,
          ap (λ (r : NetworkingResult × Live H). r.0.ok) e,
          ap (λ (r : NetworkingResult × Live H). r.0.applied) e ∙ ground arith,
          ap (λ (r : NetworkingResult × Live H). r.0.errors) e,
        )
    | inr attempt ↦
        let (same, fine, applied, errors) =
          apply_networking-attempted (ground arith) l (ground arith) (ground arith) in
        (same, fine, applied ∙ ground arith, errors)
  ]
