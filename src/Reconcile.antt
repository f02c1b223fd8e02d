-- ===== src/Reconcile.antt =====
-- packages/engine/src/runtime.ts: `reconcile`, which applies the peers and then the networking
-- policy. The clock reads `now` until the result is made.
pub mod Outcomes
pub mod Handler
use kintunnel.Base.{
  ℕ, Bool, true, false, not, ◌&&◌, ◌||◌, Option, none, some, List, [], ◌∷◌, ◌++◌, any,
  if◌then◌else◌, ltb, ◌==◌, length, Text, lit, text_eq,
}
use kintunnel.Types.{EngineConfig, EngineState, PeerRecord}
use kintunnel.Types.Results.{ApplyResult, NetworkingResult, ReconcileResult}
use kintunnel.Platform.{Platform}
use kintunnel.Render.{line_if}
use kintunnel.Apply.{ApplyErrorCode, active_peers}
use kintunnel.Runtime.{Capabilities, get_capabilities}
use kintunnel.Networking.{apply_networking}
use kintunnel.Host.{Host}
use kintunnel.Host.Events.{Live}
use kintunnel.Host.Acts.{Act, Attempt, threw, gave, Thrown, apply_error, other}
use kintunnel.Live.{execute_apply}

unfoldable pub duplicate_errors : List Text → List Text → List PeerRecord → List Text
duplicate_errors seen_keys seen_addresses [] = []
duplicate_errors seen_keys seen_addresses (peer ∷ peers) =
    line_if (any (text_eq peer.public_key) seen_keys)
      (lit "Duplicate peer public key: " ++ peer.name)
    ++ (line_if (any (text_eq peer.address_v4) seen_addresses)
          (lit "Duplicate peer address: " ++ peer.address_v4)
        ++ duplicate_errors (peer.public_key ∷ seen_keys) (peer.address_v4 ∷ seen_addresses) peers)

-- The variables of the function after the apply.
pub record Phase : Type 0 where
  pub applied : Bool
  pub messages : List Text
  pub errors : List Text
  pub apply : Option ApplyResult
  pub networking : Option NetworkingResult

code_name : ApplyErrorCode → Text
code_name ApplyErrorCode.capability_missing = lit "capability_missing"
code_name ApplyErrorCode.interface_exists = lit "interface_exists"
code_name ApplyErrorCode.interface_missing = lit "interface_missing"
code_name ApplyErrorCode.duplicate_address = lit "duplicate_address"
code_name ApplyErrorCode.duplicate_pubkey = lit "duplicate_pubkey"
code_name ApplyErrorCode.key_format_invalid = lit "key_format_invalid"
code_name ApplyErrorCode.bootstrap_timeout = lit "bootstrap_timeout"
code_name ApplyErrorCode.syncconf_failed = lit "syncconf_failed"
code_name ApplyErrorCode.peer_remove_failed = lit "peer_remove_failed"
code_name ApplyErrorCode.drift_unrecoverable = lit "drift_unrecoverable"
code_name ApplyErrorCode.dry_run_only = lit "dry_run_only"

stopped : List Text → Phase
stopped errors = record {
  applied = false;
  messages = [];
  errors = errors;
  apply = none;
  networking = none;
}

rehearsed : Phase
rehearsed = record {
  applied = true;
  messages =
      lit "Dry-run reconcile validated intended state without touching host networking." ∷ [];
  errors = [];
  apply = none;
  networking = none;
}

-- An `ApplyError` becomes an error of the result, any other error is thrown on.
after_apply : {H : Type 0} → Attempt ApplyResult × Live H → Attempt Phase × Live H
unfolding code_name stopped
after_apply (threw (apply_error e), l) =
    (gave (stopped ((code_name e.code ++ (lit ": " ++ e.message)) ∷ [])), l)
after_apply (threw (other message), l) = (threw (other message), l)
after_apply (gave r, l) = (
  gave (record {
    applied = r.applied;
    messages = r.messages;
    errors = r.errors;
    apply = some r;
    networking = none;
  }),
  l,
)

abbrev can_apply : Capabilities → Bool
can_apply c = c.has_wg && c.has_wg_quick && c.has_tun

abbrev actions_of : Option ApplyResult → Option (List Text)
actions_of none = none
actions_of (some r) = some r.actions_executed

module _ {H : Type 0} (h : Host H) (p : Platform) (now finished : ℕ) (config : EngineConfig) where
  live_phase : EngineState → Live H → Attempt Phase × Live H
  unfolding stopped after_apply
  live_phase s l =
      let (capabilities, x) = get_capabilities h config l.host in
      if can_apply capabilities
      then after_apply (execute_apply h p now s finished (record l { host = x }))
      else (gave (stopped capabilities.messages), record l { host = x })

  apply_phase : EngineState → List Text → Live H → Attempt Phase × Live H
  unfolding live_phase stopped rehearsed
  apply_phase s (e ∷ errors) l = (gave (stopped (e ∷ errors)), l)
  apply_phase s [] l = if config.dry_run then (gave rehearsed, l) else live_phase s l

  networked : Phase → Live H → Phase × Live H
  networked phase l =
      let (r, l') = apply_networking h p now config l in
      if phase.applied
      then (
        record phase {
          messages = phase.messages ++ r.warnings;
          errors = phase.errors ++ r.errors;
          networking = some r;
        },
        l',
      )
      else (phase, l)

  report_of : EngineState → Phase → ReconcileResult
  report_of s phase = record {
    ok = length phase.errors == 0;
    dry_run = config.dry_run;
    applied = phase.applied;
    revision = s.revision;
    interface_name = s.server.interface_name;
    active_peer_count = length (active_peers p now s);
    started_at = p.iso now;
    finished_at = p.iso finished;
    messages = phase.messages;
    errors = phase.errors;
    apply = phase.apply;
    networking = phase.networking;
    actions_executed = actions_of phase.apply;
  }

  reported : EngineState → Attempt Phase × Live H → Attempt ReconcileResult × Live H
  unfolding networked report_of
  reported s (threw e, l) = (threw e, l)
  reported s (gave phase, l) = let (done, l') = networked phase l in (gave (report_of s done), l')

  unfoldable pub reconcile : Act H ReconcileResult
  unfolding apply_phase reported
  reconcile l =
      let s = l.context.state in
      reported s (apply_phase s (duplicate_errors [] [] (active_peers p now s)) l)
