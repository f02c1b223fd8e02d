-- ===== src/Networking/Tables.antt =====
-- What networking.ts relies on of iptables: the rules of the host form a table that `-C` asks,
-- `-A` appends to and `-D` deletes from. This is iptables' documented behaviour.
use kintunnel.Base.{
  ◌≡◌, refl, Bool, true, false, ◌&&◌, ◌||◌, List, [], ◌∷◌, ◌++◌, any, ◌==◌, if◌then◌else◌, ◌↔◌,
  arith, Text, lit, text_eq, text_eq_iff,
}
use kintunnel.Host.{Host}
use kintunnel.Networking.Rules.{
  RuleSpec, InsertOutcome, inserted, exists, failed, exec_iptables, insert_idempotent_rule,
  rule_args, command_exists,
}

abbrev pub Rule : Type 0
Rule = List Text

unfoldable pub same_rule : Rule → Rule → Bool
same_rule [] [] = true
same_rule (s ∷ a) (t ∷ b) = text_eq s t && same_rule a b
same_rule _ _ = false

pub same_rule_iff : (a b : Rule) → (same_rule a b ≡ true) ↔ (a ≡ b)
unfolding same_rule
same_rule_iff [] [] = ((λ _. refl), λ _. refl)
same_rule_iff [] (t ∷ b) = ((λ h. cc), λ h. cc)
same_rule_iff (s ∷ a) [] = ((λ h. cc), λ h. cc)
same_rule_iff (s ∷ a) (t ∷ b) = (
  (λ h. ground (arith, same_rule_iff a b, text_eq_iff s t)),
  λ h. ground (arith, same_rule_iff a b, text_eq_iff s t),
)

abbrev pub has_rule : Rule → List Rule → Bool
has_rule a rules = any (same_rule a) rules

-- The table with a rule appended unless it is there.
unfoldable pub ensure : Rule → List Rule → List Rule
ensure a rules = if has_rule a rules then rules else rules ++ a ∷ []

unfoldable pub ensure_all : List Rule → List Rule → List Rule
unfolding ensure
ensure_all [] rules = rules
ensure_all (a ∷ bs) rules = ensure_all bs (ensure a rules)

-- The table without the first occurrence of a rule.
unfoldable pub delete_rule : Rule → List Rule → List Rule
delete_rule a [] = []
delete_rule a (b ∷ rules) =
    let rest = delete_rule a rules in if same_rule a b then rules else b ∷ rest

pub record RuleTable {H : Type 0} (h : Host H) : Type 0 where
  pub rules : H → List Rule
  -- `-C` ends with 0 exactly if the rule is there, and changes nothing
  pub checked :
      (a : Rule) (x : H)
      → let (r, y) = exec_iptables h (lit "-C" ∷ a) x in
        ((r.exit == 0) ≡ has_rule a (rules x)) × (rules y ≡ rules x)
  -- `-A` appends the rule if it ends with 0, and changes nothing otherwise
  pub appended :
      (a : Rule) (x : H)
      → let (r, y) = exec_iptables h (lit "-A" ∷ a) x in
        rules y ≡ (if r.exit == 0 then rules x ++ a ∷ [] else rules x)
  -- `-D` deletes the first occurrence of the rule, if there is one
  pub deleted :
      (a : Rule) (x : H) → rules (exec_iptables h (lit "-D" ∷ a) x).1 ≡ delete_rule a (rules x)
  pub probed : (x : H) → rules (command_exists h (lit "iptables") x).1 ≡ rules x
  pub written : (path content : Text) (x : H) → rules (h.write_file path content x).1 ≡ rules x

same_rule_refl : (a : Rule) → same_rule a a ≡ true
same_rule_refl a = (same_rule_iff a a).1 refl

has_rule-append :
    (a b : Rule) (rules : List Rule)
    → has_rule a (rules ++ b ∷ []) ≡ (has_rule a rules || same_rule a b)
has_rule-append a b [] = ground arith
has_rule-append a b (r ∷ rules) = ground (arith, has_rule-append a b rules)

has_rule-ensure-kept :
    (a b : Rule) (rules : List Rule) → has_rule a rules ≡ true → has_rule a (ensure b rules) ≡ true
unfolding ensure
has_rule-ensure-kept a b rules h = ground (arith, has_rule-append a b rules)

pub has_rule-ensure : (a : Rule) (rules : List Rule) → has_rule a (ensure a rules) ≡ true
unfolding ensure
has_rule-ensure a rules = ground (arith, has_rule-append a a rules, same_rule_refl a)

pub has_rule-ensure_all :
    (a : Rule) (bs : List Rule) (rules : List Rule)
    → has_rule a rules ≡ true
    → has_rule a (ensure_all bs rules) ≡ true
unfolding ensure_all
has_rule-ensure_all a [] rules h = h
has_rule-ensure_all a (b ∷ bs) rules h =
    has_rule-ensure_all a bs (ensure b rules) (has_rule-ensure-kept a b rules h)

-- Rules that are all there.
abbrev pub has_all : List Rule → List Rule → Bool
has_all [] rules = true
has_all (a ∷ bs) rules = has_rule a rules && has_all bs rules

pub has_all-ensure_all :
    (bs : List Rule) (rules : List Rule) → has_all bs (ensure_all bs rules) ≡ true
unfolding ensure_all
has_all-ensure_all [] rules = refl
has_all-ensure_all (a ∷ bs) rules = ground (
  arith,
  has_rule-ensure_all a bs (ensure a rules) (has_rule-ensure a rules),
  has_all-ensure_all bs (ensure a rules),
)

-- The table after an attempt to insert a rule.
unfoldable pub settled : InsertOutcome → Rule → List Rule → List Rule
unfolding ensure
settled failed a rules = rules
settled inserted a rules = ensure a rules
settled exists a rules = ensure a rules

module _ {H : Type 0} (h : Host H) (t : RuleTable h) where
  pub insert_idempotent_rule-settled :
      (spec : RuleSpec) (x : H)
      → let (o, y) = insert_idempotent_rule h spec x in
        t.rules y ≡ settled o (rule_args spec) (t.rules x)
  unfolding insert_idempotent_rule settled ensure
  insert_idempotent_rule-settled spec x =
      let a : Rule = rule_args spec in
      let y : H = (exec_iptables h (lit "-C" ∷ a) x).1 in
      let c = t.checked a x in let d = t.appended a y in ground (arith, c.0, c.1, d)

  -- A rule that is there is found, and the table stays.
  pub insert_idempotent_rule-exists :
      (spec : RuleSpec) (x : H)
      → has_rule (rule_args spec) (t.rules x) ≡ true
      → (insert_idempotent_rule h spec x).0 ≡ exists
  unfolding insert_idempotent_rule
  insert_idempotent_rule-exists spec x there =
      let c = t.checked (rule_args spec) x in ground (arith, c.0)

pub ensure_all-there :
    (bs : List Rule) (rules : List Rule) → has_all bs rules ≡ true → ensure_all bs rules ≡ rules
unfolding ensure_all ensure
ensure_all-there [] rules h = refl
ensure_all-there (a ∷ bs) rules h = ground (arith, ensure_all-there bs rules)
