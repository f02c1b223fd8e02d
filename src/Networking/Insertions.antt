-- ===== src/Networking/Insertions.antt =====
-- The loop that inserts the rules: it ensures them one after the other.
use kintunnel.Base.{
  ℕ, ◌≡◌, refl, sym, ap, ◌∙◌, Bool, true, false, Option, none, some, List, [], ◌∷◌, ◌++◌, map,
  arith, Text, if◌then◌else◌,
}
use mathlib.Core.List.{append_assoc, append-nil}
use mathlib.Core.Path.{subst}
use kintunnel.Types.{EngineConfig, AuditAction, Metadata}
use kintunnel.Types.Results.{NetworkingResult}
use kintunnel.Platform.{Platform}
use kintunnel.Host.{Host}
use kintunnel.Host.Events.{Live, emit_audit}
use kintunnel.Networking.{
  note, note_rule, insert_rules, rolled_back, applied_result, insert_one, proceed, give_up, finish,
}
use kintunnel.Networking.Rules.{
  RuleSpec, InsertOutcome, inserted, exists, failed, insert_idempotent_rule, rule_args,
}
use kintunnel.Networking.Tables.{
  Rule, RuleTable, ensure, ensure_all, has_all, has_rule, settled, insert_idempotent_rule-settled,
  insert_idempotent_rule-exists, ensure_all-there,
}

module _ {H : Type 0} (h : Host H) (p : Platform) (now : ℕ) (config : EngineConfig) where
  note-host :
      (dry : Bool) (action : Option AuditAction) (metadata : Metadata) (l : Live H)
      → (note h p now config dry action metadata l).host ≡ l.host
  unfolding emit_audit
  note-host true action metadata l = refl
  note-host false none metadata l = refl
  note-host false (some action) metadata l = refl

  proceed-ok :
      (spec : RuleSpec) (markers : List Text) (l : Live H)
      (next : Live H → NetworkingResult × Live H) (o : InsertOutcome) (x : H) (rules : List Rule)
      → (proceed h p now config spec markers l next (o, x)).0.ok ≡ true
      → (settled o (rule_args spec) rules ≡ ensure (rule_args spec) rules)
        × (proceed h p now config spec markers l next (o, x)
            ≡ next (note_rule h p now config spec (record l { host = x })))
  unfolding give_up rolled_back settled
  proceed-ok spec markers l next inserted x rules e = (refl, refl)
  proceed-ok spec markers l next exists x rules e = (refl, refl)
  proceed-ok spec markers l next failed x rules e = absurd cc

module _ {H : Type 0} (h : Host H) (t : RuleTable h) (p : Platform) (now : ℕ)
    (config : EngineConfig) (live : config.dry_run ≡ false) where
  -- Rules are ensured one after the other, as long as none fails.
  abbrev pub Ensures : List Rule → List Text → Live H → NetworkingResult × Live H → Type 0
  Ensures rules markers l r =
      (t.rules r.1.host ≡ ensure_all rules (t.rules l.host))
      × (r.0.rules_inserted ≡ markers)
      × (r.0.applied ≡ true)

  insert_rules-cons :
      (spec : RuleSpec) (specs : List RuleSpec) (markers : List Text) (l : Live H)
      → insert_rules h p now config (spec ∷ specs) markers l
        ≡ proceed h p now config spec markers l
            (insert_rules h p now config specs (markers ++ spec.marker ∷ []))
            (insert_idempotent_rule h spec l.host)
  unfolding insert_rules insert_one
  insert_rules-cons spec specs markers l =
      ap
        (λ dry.
          proceed h p now config spec markers l
            (insert_rules h p now config specs (markers ++ spec.marker ∷ []))
            (if dry then (inserted, l.host) else insert_idempotent_rule h spec l.host))
        live

  pub insert_rules-ok :
      (specs : List RuleSpec) (markers : List Text) (l : Live H)
      → (insert_rules h p now config specs markers l).0.ok ≡ true
      → Ensures
          (map rule_args specs)
          (markers ++ map (λ s. s.marker) specs)
          l
          (insert_rules h p now config specs markers l)
  unfolding insert_rules finish ensure_all applied_result note_rule
  insert_rules-ok [] markers l e =
      (ap t.rules (note-host h p now config config.dry_run _ _ l), sym (append-nil markers), refl)
  insert_rules-ok (spec ∷ specs) markers l e =
      let m : InsertOutcome × H = insert_idempotent_rule h spec l.host in
      let next : Live H → NetworkingResult × Live H =
        insert_rules h p now config specs (markers ++ spec.marker ∷ []) in
      let start : Live H = record l { host = m.1 } in
      let l' : Live H = note_rule h p now config spec start in
      let cons = insert_rules-cons spec specs markers l in
      let (s, same) =
        proceed-ok h p now config spec markers l next m.0 m.1 (t.rules l.host)
          (sym (ap (λ (r : NetworkingResult × Live H). r.0.ok) cons) ∙ e) in
      let (rules, found, applied) =
        insert_rules-ok specs (markers ++ spec.marker ∷ []) l'
          (sym (ap (λ (r : NetworkingResult × Live H). r.0.ok) (cons ∙ same)) ∙ e) in
      subst
        (Ensures (map rule_args (spec ∷ specs)) (markers ++ map (λ s. s.marker) (spec ∷ specs)) l)
        (sym (cons ∙ same))
        (
          rules
              ∙ ap (λ r. ensure_all (map rule_args specs) (t.rules r))
                  (note-host h p now config config.dry_run spec.audit_action spec.audit_metadata
                    start)
              ∙ ap (ensure_all (map rule_args specs))
                  (insert_idempotent_rule-settled h t spec l.host ∙ s),
          found ∙ append_assoc markers (spec.marker ∷ []) (map (λ s. s.marker) specs),
          applied,
        )

  -- Where every rule is there, every rule is found and none is inserted.
  pub insert_rules-there :
      (specs : List RuleSpec) (markers : List Text) (l : Live H)
      → has_all (map rule_args specs) (t.rules l.host) ≡ true
      → (insert_rules h p now config specs markers l).0.ok ≡ true
  unfolding insert_rules finish applied_result note_rule settled ensure_all
  insert_rules-there [] markers l there = refl
  insert_rules-there (spec ∷ specs) markers l there =
      let m : InsertOutcome × H = insert_idempotent_rule h spec l.host in
      let next : Live H → NetworkingResult × Live H =
        insert_rules h p now config specs (markers ++ spec.marker ∷ []) in
      let start : Live H = record l { host = m.1 } in
      let l' : Live H = note_rule h p now config spec start in
      let first : has_rule (rule_args spec) (t.rules l.host) ≡ true = ground arith in
      let found : m.0 ≡ exists = insert_idempotent_rule-exists h t spec l.host first in
      let same : t.rules l'.host ≡ t.rules l.host =
        ap t.rules
          (note-host h p now config config.dry_run spec.audit_action spec.audit_metadata start)
        ∙ insert_idempotent_rule-settled h t spec l.host
        ∙ ap (λ o. settled o (rule_args spec) (t.rules l.host)) found
        ∙ ensure_all-there (rule_args spec ∷ []) (t.rules l.host) (ground arith) in
      ap (λ (r : NetworkingResult × Live H). r.0.ok)
        (insert_rules-cons spec specs markers l
          ∙ ap (λ o. proceed h p now config spec markers l next (o, m.1)) found)
      ∙ insert_rules-there specs (markers ++ spec.marker ∷ []) l'
          (ap (has_all (map rule_args specs)) same ∙ ground arith)
