-- ===== src/Live.antt =====
-- packages/engine/src/apply.ts: the live path of `executeApply` and the rollback of a plan.
-- The clock reads `now` until the result is made. The lock of the call is taken to be free. The
-- server's settings and the peers are those that the call began with: it changes the events only.
pub mod Texts
pub mod Drifts
pub mod Guarantees
pub mod Rollbacks
pub mod Conduct
pub mod Outcomes
use kintunnel.Base.{
  ℕ, ◌-◌, Bool, true, false, not, ◌&&◌, ◌||◌, Option, none, some, List, [], ◌∷◌, ◌++◌, find, any,
  all, if◌then◌else◌, ltb, length, or_default, Text, lit, text_eq, decimal, join,
}
use kintunnel.Types.{PeerRecord, EngineState, AuditAction, MetaValue}
use kintunnel.Types.Results.{ApplyPlan, ApplyResult, PeerChanges, DriftReport}
use kintunnel.Platform.{Platform}
use kintunnel.Render.{newline}
use kintunnel.Apply.{
  ApplyError, ApplyErrorCode, RuntimeState, active_peers, diff_peers, plan_apply, render_wg_ini,
  first_duplicate,
}
use kintunnel.Runtime.{get_runtime_state}
use kintunnel.Host.{Host}
use kintunnel.Host.Events.{Live, emit_audit}
use kintunnel.Host.Acts.{
  Act, Attempt, Thrown, apply_error, other, thrown_message, pure, throw, try, ◌>>=◌, ◌>>◌,
  exec_host, write_temp_ini, finally_remove, emit,
}
use Texts.{contains, enables, port_key_json}
use Drifts.{Drift, detect_drift}

module _ {H : Type 0} (h : Host H) (p : Platform) (now : ℕ) (s : EngineState) where
  iface : Text
  iface = s.server.interface_name

  unfoldable pub exec_wg : List Text → Act H Text
  exec_wg args = exec_host h (lit "wg") args

  unfoldable pub exec_ip_link : List Text → Act H Text
  exec_ip_link args = exec_host h (lit "ip") (lit "link" ∷ args)

  unfoldable pub exec_ip_addr : List Text → Act H Text
  exec_ip_addr args = exec_host h (lit "ip") (lit "addr" ∷ args)

  -- One retry.
  unfoldable pub remove_peer : Text → Act H Text
  unfolding iface
  remove_peer key =
      let once = exec_wg (lit "set" ∷ iface ∷ lit "peer" ∷ key ∷ lit "remove" ∷ []) in
      try once λ _. once

  -- The steps that a rollback takes back, one for each peer that the plan adds.
  unfoldable pub remove_added : List Text → Act H (List Text)
  remove_added [] = pure []
  remove_added (key ∷ keys) = do
    step ←
        try (remove_peer key >> pure (lit "peer.remove:" ++ key))
          λ _. pure (lit "peer.remove:failed:" ++ key)
    steps ← remove_added keys
    pure (step ∷ steps)

  unfoldable pub remove_link : Bool → Act H (List Text)
  unfolding iface
  remove_link false = pure []
  remove_link true =
      try (exec_ip_link (lit "del" ∷ iface ∷ []) >> pure (lit "interface.del" ∷ []))
        λ _. pure (lit "interface.del:failed" ∷ [])

  unfoldable pub rollback_plan : ApplyPlan → Act H Unit
  rollback_plan plan = do
    steps ← remove_added plan.add_peers
    more ← remove_link (plan.bootstrap && all (λ step. not (contains (lit "failed") step)) steps)
    emit p now AuditAction.apply_rollback_executed (
        (lit "reason", MetaValue.text (lit "drift_unrecoverable"))
        ∷ (lit "steps_reversed", MetaValue.text (join (lit ",") (steps ++ more)))
        ∷ [])

  unfoldable pub interface_ini : Text
  interface_ini = join newline (
      lit "[Interface]"
      ∷ (lit "PrivateKey = " ++ s.server.server_private_key)
      ∷ (lit "ListenPort = " ++ decimal s.server.listen_port)
      ∷ []
      ∷ [])

  -- `state.server.mtu ?? DEFAULT_MTU`
  mtu_text : Text
  mtu_text = decimal (or_default s.server.mtu 1420)

  configure_link : Text → Act H Text
  unfolding iface mtu_text
  configure_link path =
      exec_wg (lit "setconf" ∷ iface ∷ path ∷ [])
      >> exec_ip_addr (lit "replace" ∷ s.server.server_address_v4 ∷ lit "dev" ∷ iface ∷ [])
      >> exec_ip_link (lit "set" ∷ lit "dev" ∷ iface ∷ lit "mtu" ∷ mtu_text ∷ lit "up" ∷ [])

  unfoldable pub bootstrap_interface : Act H Text
  unfolding iface interface_ini configure_link
  bootstrap_interface = do
    path ← write_temp_ini h interface_ini
    finally_remove h path do
      added ← exec_ip_link (lit "add" ∷ iface ∷ lit "type" ∷ lit "wireguard" ∷ [])
      try (configure_link path)
          λ e. try (exec_ip_link (lit "del" ∷ iface ∷ [])) (λ _. pure []) >> throw e

  unfoldable pub sync_conf : Text → Act H Text
  unfolding iface
  sync_conf path = exec_wg (lit "syncconf" ∷ iface ∷ path ∷ [])

  unfoldable pub reconfig_interface : Act H Text
  reconfig_interface = do
    path ← write_temp_ini h (render_wg_ini p now s true)
    finally_remove h path (sync_conf path)

  unfoldable pub bring_up : ApplyPlan → Act H (List Text)
  unfolding iface
  bring_up plan =
      if plan.bootstrap
      then (do
        done ← bootstrap_interface
        noted ← emit p now AuditAction.apply_interface_created (
            (lit "interface", MetaValue.text iface)
            ∷ (lit "listen_port", MetaValue.number s.server.listen_port)
            ∷ (lit "public_key", MetaValue.text s.server.server_public_key)
            ∷ [])
        pure (lit "apply.interface.created" ∷ []))
      else if plan.reconfigure_interface
      then (do
        done ← reconfig_interface
        noted ← emit p now AuditAction.apply_interface_reconfigured (
            (lit "interface", MetaValue.text iface)
            ∷ (lit "fields_changed", MetaValue.text (lit "listen_port"))
            ∷ [])
        pure (lit "apply.interface.reconfigured" ∷ []))
      else pure []

  -- `rollbackPlan(…).catch(() => undefined)`, and then the throw.
  give_up : ApplyPlan → ApplyError → Act H (List Text)
  give_up plan e = try (rollback_plan plan) (λ _. pure tt) >> throw (apply_error e)

  sync_error : Thrown → ApplyError
  unfolding iface
  sync_error e = record {
    code = ApplyErrorCode.syncconf_failed;
    message = lit "wg syncconf failed: " ++ thrown_message e;
    detail = (lit "interface", MetaValue.text iface) ∷ [];
  }

  unfoldable pub sync_peers : ApplyPlan → PeerChanges → Act H (List Text)
  unfolding give_up sync_error
  sync_peers plan changes =
      let wanted = active_peers p now s in
      if ltb 0 (length wanted) || ltb 0 (length changes.removed)
      then (do
        path ← write_temp_ini h (render_wg_ini p now s true)
        finally_remove h path (
            try
              (do
                synced ← sync_conf path
                noted ← emit p now AuditAction.apply_peer_synced (
                    (lit "count_added", MetaValue.number (length changes.added))
                    ∷ (lit "count_modified", MetaValue.number (length changes.modified))
                    ∷ (
                      lit "count_unchanged",
                      MetaValue.number
                          (length wanted - length changes.added - length changes.modified),
                    )
                    ∷ [])
                pure (lit "apply.peer.synced" ∷ []))
              λ e. give_up plan (sync_error e)))
      else pure []

  removal_error : Text → Thrown → ApplyError
  removal_error key e = record {
    code = ApplyErrorCode.peer_remove_failed;
    message = lit "Failed to remove peer " ++ (key ++ (lit ": " ++ thrown_message e));
    detail = (lit "public_key", MetaValue.text key) ∷ [];
  }

  removal_failed : ApplyPlan → Text → Thrown → Act H (List Text)
  unfolding give_up removal_error
  removal_failed plan key (apply_error e) = throw (apply_error e)
  removal_failed plan key (other message) = give_up plan (removal_error key (other message))

  unfoldable pub remove_peers : ApplyPlan → List Text → Act H (List Text)
  unfolding removal_failed
  remove_peers plan [] = pure []
  remove_peers plan (key ∷ keys) = do
    step ←
        try
          (do
            removed ← remove_peer key
            noted ←
                emit p now AuditAction.apply_peer_removed
                  ((lit "public_key", MetaValue.text key) ∷ [])
            pure (lit "apply.peer.removed" ∷ []))
          (removal_failed plan key)
    steps ← remove_peers plan keys
    pure (step ++ steps)

  announce : Text → Option PeerRecord → Act H (List Text)
  announce key none = pure []
  announce key (some peer) = do
    noted ← emit p now AuditAction.apply_peer_added (
        (lit "public_key", MetaValue.text key)
        ∷ (lit "peer_name", MetaValue.text peer.name)
        ∷ (lit "address_v4", MetaValue.text peer.address_v4)
        ∷ [])
    pure (lit "apply.peer.added" ∷ [])

  unfoldable pub announce_added : List Text → Act H (List Text)
  unfolding announce
  announce_added [] = pure []
  announce_added (key ∷ keys) = do
    step ← announce key (find (λ q. text_eq q.public_key key) (active_peers p now s))
    steps ← announce_added keys
    pure (step ++ steps)

  report_drift : Drift → Act H Unit
  report_drift drift = emit p now AuditAction.apply_drift_detected (
      (lit "fields", MetaValue.text (join (lit ",") drift.fields))
      ∷ (
        lit "expected",
        MetaValue.text (
            port_key_json p (lit "serverPublicKey") (some s.server.listen_port)
              s.server.server_public_key),
      )
      ∷ (lit "actual", MetaValue.text drift.actual)
      ∷ [])

  unfoldable pub settle_drift : ApplyPlan → Drift → Act H (List Text)
  unfolding report_drift
  settle_drift plan drift =
      let rolled = rollback_plan plan >> pure (lit "apply.rollback.executed" ∷ []) in
      if drift.detected
      then report_drift drift
        >> (if any (text_eq (lit "listenPort")) drift.fields then rolled else pure [])
      else pure []

  -- What the call works with: the runtime that it saw, the plan and the changes.
  unfoldable pub drive : ℕ → RuntimeState → Act H ApplyResult
  unfolding iface
  drive finished runtime = do
    let plan = plan_apply p now s runtime
    let changes = diff_peers (active_peers p now s) runtime.peers
    started ← bring_up plan
    synced ← sync_peers plan changes
    removed ← remove_peers plan changes.removed
    added ← announce_added changes.added
    drift ← detect_drift h p s
    rolled ← settle_drift plan drift
    let errors = if drift.detected then drift.messages else []
    let fine = if drift.detected then not (ltb 0 (length drift.messages)) else true
    pure (record {
      ok = fine;
      dry_run = false;
      bootstrap = plan.bootstrap;
      applied = fine;
      revision = s.revision;
      interface_name = iface;
      actions_executed = started ++ (synced ++ (removed ++ (added ++ rolled)));
      peer_changes = changes;
      drift = some (record { detected = drift.detected; fields = drift.fields });
      started_at = p.iso now;
      finished_at = p.iso finished;
      messages = [];
      errors = errors;
    })

  look : Act H RuntimeState
  look l =
      let (runtime, x) = get_runtime_state h p now false s l.host in
      (Attempt.gave runtime, record l { host = x })

  disabled_error : ApplyError
  disabled_error = record {
    code = ApplyErrorCode.dry_run_only;
    message = lit "executeApply({dryRun:false}) requires KINTUNNEL_ENABLE_HOST_NETWORKING=true";
    detail = (lit "env_var", MetaValue.text (lit "KINTUNNEL_ENABLE_HOST_NETWORKING")) ∷ [];
  }

  guarded : ℕ → Option ApplyError → Act H ApplyResult
  unfolding look disabled_error
  guarded finished (some duplicate) = throw (apply_error duplicate)
  guarded finished none =
      if enables (h.env (lit "KINTUNNEL_ENABLE_HOST_NETWORKING"))
      then look >>= drive finished
      else throw (apply_error disabled_error)

  -- `executeApply` with `dryRun: false`
  unfoldable pub execute_apply : ℕ → Act H ApplyResult
  unfolding guarded
  execute_apply finished = guarded finished (first_duplicate [] [] (active_peers p now s))
