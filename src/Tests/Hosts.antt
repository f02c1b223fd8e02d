-- ===== src/Tests/Hosts.antt =====
-- Hosts that the tests run on: one with a table of rules, one that records the commands it gets.
use kintunnel.Base.{
  refl, true, false, none, some, List, [], ◌∷◌, ◌++◌, if◌then◌else◌, Text, lit, text_eq, Bool-cases,
  inl, inr,
}
use kintunnel.Base.Failure.{ok}
use kintunnel.Host.{Host, Ran, succeeded, failed, ExitCode, granted}
use kintunnel.Host.Events.{Live}
use kintunnel.Networking.Rules.{exec_iptables, executed, command_exists}
use kintunnel.Networking.Tables.{Rule, RuleTable, has_rule, delete_rule}
use kintunnel.Types.{EngineConfig}
use kintunnel.Tests.Samples.{context, engine}

abbrev failure : Ran
failure = failed (record {
  code = ExitCode.status 1;
  stdout = some [];
  stderr = some (lit "Bad rule");
  message = lit "Command failed";
})

abbrev by_flag : List Text → List Rule → Ran × List Rule
by_flag [] rules = (failure, rules)
by_flag (flag ∷ a) rules =
    if text_eq flag (lit "-C")
    then (if has_rule a rules then succeeded [] [] else failure, rules)
    else if text_eq flag (lit "-A")
    then (succeeded [] [], rules ++ a ∷ [])
    else if text_eq flag (lit "-D")
    then (if has_rule a rules then succeeded [] [] else failure, delete_rule a rules)
    else (succeeded [] [], rules)

-- The name of the table may stand before the command.
abbrev flag_first : List Text → List Text
flag_first (name ∷ flag ∷ chain ∷ a) = flag ∷ chain ∷ lit "-t" ∷ name ∷ a
flag_first args = args

abbrev iptables : List Text → List Rule → Ran × List Rule
iptables [] rules = (failure, rules)
iptables (flag ∷ a) rules =
    by_flag (if text_eq flag (lit "-t") then flag_first a else flag ∷ a) rules

abbrev file : Text → Text
file path =
    if text_eq path (lit "/proc/net/route")
    then lit "Iface\tDestination\neth0\t00000000\n"
    else lit "1\n"

abbrev pub table_host : Host (List Rule)
table_host = record {
  run = λ cmd args rules. iptables args rules;
  read_file = λ path rules. ok (file path);
  write_file = λ path content rules. (ok content, rules);
  write_temp = λ content rules. (ok (lit "/var/run/kintunnel/wg.ini"), rules);
  remove_file = λ path rules. (ok path, rules);
  path_exists = λ path rules. true;
  access = λ path mode rules. granted;
  platform = lit "linux";
  env = λ name. none;
}

pub table : RuleTable table_host
unfolding exec_iptables executed command_exists lit text_eq
table = record {
  rules = λ rules. rules;
  checked = λ a rules. elim (Bool-cases (has_rule a rules)) [
    | inl there ↦ rw there (refl, refl)
    | inr gone ↦ rw gone (refl, refl)
  ];
  appended = λ a rules. refl;
  deleted = λ a rules. refl;
  probed = λ rules. refl;
  written = λ path content rules. refl;
}

-- An engine that applies the networking policy.
abbrev pub applying : EngineConfig
applying = record engine { dry_run = false; nat_enabled = true; nat_apply = true }

abbrev pub fresh : Live (List Rule)
fresh = record { context = context; host = [] }

-- The dump shows the laptop's key.
abbrev answer : List Text → Text
answer (a ∷ rest) =
    if text_eq a (lit "show") then lit "s\tS\t51820\toff\nA\t\t\t10.8.0.2/32\t0\t0\t0\t25" else []
answer [] = []

-- A host that succeeds at every command and records it.
abbrev pub recording_host : Host (List Rule)
recording_host = record {
  run = λ cmd args seen. (succeeded (answer args) [], args ∷ seen);
  read_file = λ path seen. ok (lit "1\n");
  write_file = λ path content seen. (ok content, seen);
  write_temp = λ content seen. (ok (lit "/var/run/kintunnel/wg.ini"), seen);
  remove_file = λ path seen. (ok path, seen);
  path_exists = λ path seen. true;
  access = λ path mode seen. granted;
  platform = lit "linux";
  env = λ name. some (lit "TRUE");
}

abbrev pub recorder : Live (List Rule)
recorder = record { context = context; host = [] }
