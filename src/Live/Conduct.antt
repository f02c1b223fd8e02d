-- ===== src/Live/Conduct.antt =====
-- The live path runs allowed commands only: those of its interface, and removals of peers that the
-- plan takes out or has just put in.
use kintunnel.Base.{ℕ, Bool, Option, none, some, List, [], ◌∷◌, ◌≡◌, true, Text, lit}
use kintunnel.Types.{AuditAction, Metadata, EngineState, PeerRecord}
use kintunnel.Types.Results.{ApplyPlan, PeerChanges}
use kintunnel.Platform.{Platform}
use kintunnel.Apply.{ApplyError, RuntimeState, active_peers, plan_apply, diff_peers, render_wg_ini}
use kintunnel.Host.{Host}
use kintunnel.Host.Acts.{Act, Thrown, apply_error, other, pure, ◌>>=◌, emit}
use kintunnel.Live.{
  exec_wg, exec_ip_link, exec_ip_addr, configure_link, bootstrap_interface, sync_conf,
  reconfig_interface, bring_up, give_up, sync_peers, removal_failed, remove_peers, announce,
  announce_added, report_drift, settle_drift, drive, iface, interface_ini,
}
use kintunnel.Live.Drifts.{Drift, detect_drift}
use kintunnel.Live.Guarantees.{
  Guarantee, Written, Keeps-pure, Keeps-throw, Keeps-then, Keeps-try, Keeps-if, Keeps-emit,
  Keeps-exec_host, Keeps-with_file, Keeps-when, Keeps-finally_remove,
}
use kintunnel.Live.Rollbacks.{
  Allowed, Contents, alone, with_peers, set_conf, set_address, raise_link, add_link, sync, show,
  Sound, Removable, Removable-head, Removable-tail, remove_peer-Sound, delete_link-Sound,
  rollback_plan-Sound,
}

module _ {H : Type 0} (h : Host H) (p : Platform) (now : ℕ) (s : EngineState)
    (removable : Text → Bool) (absent : Bool)
    (g : Guarantee h p (Allowed h p now s removable absent) (Contents h p now s)) where
  module _ (new : absent ≡ true) where
    configure_link-Sound :
        (path : Text)
        → Written h (interface_ini h p now s) path
        → Sound h p now s removable absent g (configure_link h p now s path)
    unfolding configure_link iface exec_wg exec_ip_addr exec_ip_link
    configure_link-Sound path file =
        Keeps-then h p g
          (Keeps-then h p g (Keeps-exec_host h p g (lit "wg") _ (set_conf path new file))
            λ _. Keeps-exec_host h p g (lit "ip") _ (set_address new))
          λ _. Keeps-exec_host h p g (lit "ip") _ (raise_link _ new)

    add_link-Sound : Sound h p now s removable absent g (
        exec_ip_link h p now s
          (lit "add" ∷ s.server.interface_name ∷ lit "type" ∷ lit "wireguard" ∷ []))
    unfolding exec_ip_link
    add_link-Sound = Keeps-exec_host h p g (lit "ip") _ (add_link new)

    bootstrap_interface-Sound : Sound h p now s removable absent g (bootstrap_interface h p now s)
    unfolding bootstrap_interface iface
    bootstrap_interface-Sound = Keeps-with_file h p g _ alone λ path file.
        Keeps-finally_remove h p g path (
          Keeps-then h p g add_link-Sound λ _. Keeps-try h p g (configure_link-Sound path file) λ e.
            Keeps-then h p g
              (Keeps-try h p g (delete_link-Sound h p now s removable absent g new)
                λ _. Keeps-pure h p g _)
              λ _. Keeps-throw h p g e)

  sync_conf-Sound :
      (path : Text)
      → Written h (render_wg_ini p now s true) path
      → Sound h p now s removable absent g (sync_conf h p now s path)
  unfolding sync_conf exec_wg iface
  sync_conf-Sound path file = Keeps-exec_host h p g (lit "wg") _ (sync path file)

  reconfig_interface-Sound : Sound h p now s removable absent g (reconfig_interface h p now s)
  unfolding reconfig_interface
  reconfig_interface-Sound =
      Keeps-with_file h p g _ with_peers
        λ path file. Keeps-finally_remove h p g path (sync_conf-Sound path file)

  noted-Sound :
      {A : Type 0} {B : Type 0} {m : Act H A} (action : AuditAction) (metadata : Metadata) (b : B)
      → Sound h p now s removable absent g m
      → Sound h p now s removable absent g (m >>= λ _. emit p now action metadata >>= λ _. pure b)
  noted-Sound action metadata b k =
      Keeps-then h p g k
        λ _. Keeps-then h p g (Keeps-emit h p g now action metadata) λ _. Keeps-pure h p g b

  bring_up-Sound :
      (plan : ApplyPlan)
      → (plan.bootstrap ≡ true → absent ≡ true)
      → Sound h p now s removable absent g (bring_up h p now s plan)
  unfolding bring_up
  bring_up-Sound plan new =
      Keeps-when h p g plan.bootstrap (λ b. noted-Sound _ _ _ (bootstrap_interface-Sound (new b)))
        (Keeps-if h p g plan.reconfigure_interface (noted-Sound _ _ _ reconfig_interface-Sound)
          (Keeps-pure h p g _))

  module _ (plan : ApplyPlan) (added : Removable h p now s removable absent g plan.add_peers)
      (new : plan.bootstrap ≡ true → absent ≡ true) where
    give_up-Sound : (e : ApplyError) → Sound h p now s removable absent g (give_up h p now s plan e)
    unfolding give_up
    give_up-Sound e =
        Keeps-then h p g
          (Keeps-try h p g (rollback_plan-Sound h p now s removable absent g plan added new)
            λ _. Keeps-pure h p g _)
          λ _. Keeps-throw h p g _

    sync_peers-Sound :
        (changes : PeerChanges)
        → Sound h p now s removable absent g (sync_peers h p now s plan changes)
    unfolding sync_peers
    sync_peers-Sound changes =
        Keeps-if h p g _
          (Keeps-with_file h p g _ with_peers λ path file.
            Keeps-finally_remove h p g path (
              Keeps-try h p g (noted-Sound _ _ _ (sync_conf-Sound path file)) λ e. give_up-Sound _))
          (Keeps-pure h p g _)

    removal_failed-Sound :
        (key : Text) (e : Thrown)
        → Sound h p now s removable absent g (removal_failed h p now s plan key e)
    unfolding removal_failed
    removal_failed-Sound key (apply_error e) = Keeps-throw h p g _
    removal_failed-Sound key (other message) = give_up-Sound _

    remove_peers-Sound :
        (keys : List Text)
        → Removable h p now s removable absent g keys
        → Sound h p now s removable absent g (remove_peers h p now s plan keys)
    unfolding remove_peers
    remove_peers-Sound [] r = Keeps-pure h p g _
    remove_peers-Sound (key ∷ keys) r =
        let first =
          remove_peer-Sound h p now s removable absent g key
            (Removable-head h p now s removable absent g key keys r) in
        let rest =
          remove_peers-Sound keys (Removable-tail h p now s removable absent g key keys r) in
        Keeps-then h p g (Keeps-try h p g (noted-Sound _ _ _ first) (removal_failed-Sound key))
          λ _. Keeps-then h p g rest λ _. Keeps-pure h p g _

    settle_drift-Sound :
        (drift : Drift) → Sound h p now s removable absent g (settle_drift h p now s plan drift)
    unfolding settle_drift report_drift
    settle_drift-Sound drift =
        Keeps-if h p g drift.detected
          (Keeps-then h p g (Keeps-emit h p g now _ _) λ _.
            Keeps-if h p g _
              (Keeps-then h p g (rollback_plan-Sound h p now s removable absent g plan added new)
                λ _. Keeps-pure h p g _)
              (Keeps-pure h p g _))
          (Keeps-pure h p g _)

  announce-Sound :
      (key : Text) (peer : Option PeerRecord)
      → Sound h p now s removable absent g (announce h p now s key peer)
  unfolding announce
  announce-Sound key none = Keeps-pure h p g _
  announce-Sound key (some peer) =
      Keeps-then h p g (Keeps-emit h p g now _ _) λ _. Keeps-pure h p g _

  announce_added-Sound :
      (keys : List Text) → Sound h p now s removable absent g (announce_added h p now s keys)
  unfolding announce_added
  announce_added-Sound [] = Keeps-pure h p g _
  announce_added-Sound (key ∷ keys) =
      Keeps-then h p g (announce-Sound key _)
        λ _. Keeps-then h p g (announce_added-Sound keys) λ _. Keeps-pure h p g _

  detect_drift-Sound : Sound h p now s removable absent g (detect_drift h p s)
  unfolding detect_drift
  detect_drift-Sound =
      Keeps-try h p g
        (Keeps-then h p g (Keeps-exec_host h p g (lit "wg") _ show) λ _. Keeps-pure h p g _)
        λ _. Keeps-pure h p g _

  -- The steps after the look at the runtime, where the plan's keys may be removed.
  pub drive-Sound :
      (finished : ℕ) (runtime : RuntimeState)
      → Removable h p now s removable absent g (plan_apply p now s runtime).add_peers
      → Removable h p now s removable absent g
          (diff_peers (active_peers p now s) runtime.peers).removed
      → ((plan_apply p now s runtime).bootstrap ≡ true → absent ≡ true)
      → Sound h p now s removable absent g (drive h p now s finished runtime)
  unfolding drive
  drive-Sound finished runtime added removed new =
      let plan : ApplyPlan = plan_apply p now s runtime in
      Keeps-then h p g (bring_up-Sound plan new) λ _.
        Keeps-then h p g (sync_peers-Sound plan added new _) λ _.
          Keeps-then h p g (remove_peers-Sound plan added new _ removed) λ _.
            Keeps-then h p g (announce_added-Sound _) λ _.
              Keeps-then h p g detect_drift-Sound λ drift.
                Keeps-then h p g (settle_drift-Sound plan added new drift) λ _. Keeps-pure h p g _
