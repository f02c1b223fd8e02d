-- ===== src/Live/Rollbacks.antt =====
-- The commands that the live path may run, and its rollback, which runs no others.
use kintunnel.Base.{ℕ, ◌≡◌, refl, Bool, true, false, List, [], ◌∷◌, arith, Text, lit, text_eq_refl}
use kintunnel.Types.{EngineState}
use kintunnel.Types.Results.{ApplyPlan}
use kintunnel.Platform.{Platform}
use kintunnel.Apply.{render_wg_ini}
use kintunnel.Apply.Plans.{lists}
use kintunnel.Host.{Host}
use kintunnel.Host.Acts.{Act}
use kintunnel.Live.{
  exec_wg, exec_ip_link, remove_peer, remove_added, remove_link, rollback_plan, iface,
  interface_ini,
}
use kintunnel.Live.Guarantees.{
  Guarantee, Written, Keeps, Keeps-pure, Keeps-then, Keeps-try, Keeps-emit, Keeps-exec_host,
}

-- What a temporary file may hold: the configuration of the interface alone, or with every active
-- peer.
pub data Contents {H : Type 0} (h : Host H) (p : Platform) (now : ℕ) (s : EngineState)
    : Text → Type 0 where
  alone : Contents h p now s (interface_ini h p now s)
  with_peers : Contents h p now s (render_wg_ini p now s true)

-- The commands for an interface. Peers may be removed whose key passes a test, the configuration is
-- synced from a file with every active peer, and the link is made, set up and deleted only if it was
-- absent at the start.
pub data Allowed {H : Type 0} (h : Host H) (p : Platform) (now : ℕ) (s : EngineState)
    (removable : Text → Bool) (absent : Bool) : Text → List Text → Type 0 where
  show :
      Allowed h p now s removable absent
        (lit "wg")
        (lit "show" ∷ s.server.interface_name ∷ lit "dump" ∷ [])
  sync :
      (path : Text)
      → Written h (render_wg_ini p now s true) path
      → Allowed h p now s removable absent
          (lit "wg")
          (lit "syncconf" ∷ s.server.interface_name ∷ path ∷ [])
  remove :
      (key : Text)
      → removable key ≡ true
      → Allowed h p now s removable absent
          (lit "wg")
          (lit "set" ∷ s.server.interface_name ∷ lit "peer" ∷ key ∷ lit "remove" ∷ [])
  add_link :
      absent ≡ true
      → Allowed h p now s removable absent
          (lit "ip")
          (lit "link" ∷ lit "add" ∷ s.server.interface_name ∷ lit "type" ∷ lit "wireguard" ∷ [])
  set_conf :
      (path : Text)
      → absent ≡ true
      → Written h (interface_ini h p now s) path
      → Allowed h p now s removable absent
          (lit "wg")
          (lit "setconf" ∷ s.server.interface_name ∷ path ∷ [])
  delete_link :
      absent ≡ true
      → Allowed h p now s removable absent
          (lit "ip")
          (lit "link" ∷ lit "del" ∷ s.server.interface_name ∷ [])
  raise_link :
      (mtu : Text)
      → absent ≡ true
      → Allowed h p now s removable absent (lit "ip") (
          lit "link"
          ∷ lit "set"
          ∷ lit "dev"
          ∷ s.server.interface_name
          ∷ lit "mtu"
          ∷ mtu
          ∷ lit "up"
          ∷ [])
  set_address :
      absent ≡ true
      → Allowed h p now s removable absent (lit "ip") (
          lit "addr"
          ∷ lit "replace"
          ∷ s.server.server_address_v4
          ∷ lit "dev"
          ∷ s.server.interface_name
          ∷ [])

module _ {H : Type 0} (h : Host H) (p : Platform) (now : ℕ) (s : EngineState)
    (removable : Text → Bool) (absent : Bool)
    (g : Guarantee h p (Allowed h p now s removable absent) (Contents h p now s)) where
  abbrev pub Sound : {A : Type 0} → Act H A → Type 0
  Sound m = Keeps h p g m

  abbrev pub Removable : List Text → Type 0
  Removable keys = (k : Text) → lists keys k ≡ true → removable k ≡ true

  pub Removable-head : (k : Text) (ks : List Text) → Removable (k ∷ ks) → removable k ≡ true
  Removable-head k ks r = r k (ground (arith, text_eq_refl k))

  pub Removable-tail : (k : Text) (ks : List Text) → Removable (k ∷ ks) → Removable ks
  Removable-tail k ks r j e = r j (ground arith)

  pub remove_peer-Sound : (key : Text) → removable key ≡ true → Sound (remove_peer h p now s key)
  unfolding remove_peer exec_wg iface
  remove_peer-Sound key r =
      let once = Keeps-exec_host h p g (lit "wg") _ (remove key r) in Keeps-try h p g once λ _. once

  remove_added-Sound : (keys : List Text) → Removable keys → Sound (remove_added h p now s keys)
  unfolding remove_added
  remove_added-Sound [] r = Keeps-pure h p g []
  remove_added-Sound (key ∷ keys) r =
      let first = remove_peer-Sound key (Removable-head key keys r) in
      let rest = remove_added-Sound keys (Removable-tail key keys r) in
      Keeps-then h p g
        (Keeps-try h p g (Keeps-then h p g first λ _. Keeps-pure h p g _) λ _. Keeps-pure h p g _)
        λ _. Keeps-then h p g rest λ _. Keeps-pure h p g _

  pub delete_link-Sound :
      absent ≡ true → Sound (exec_ip_link h p now s (lit "del" ∷ s.server.interface_name ∷ []))
  unfolding exec_ip_link
  delete_link-Sound new = Keeps-exec_host h p g (lit "ip") _ (delete_link new)

  remove_link-Sound : (b : Bool) → (b ≡ true → absent ≡ true) → Sound (remove_link h p now s b)
  unfolding remove_link iface
  remove_link-Sound false new = Keeps-pure h p g []
  remove_link-Sound true new =
      Keeps-try h p g (Keeps-then h p g (delete_link-Sound (new refl)) λ _. Keeps-pure h p g _)
        λ _. Keeps-pure h p g _

  pub rollback_plan-Sound :
      (plan : ApplyPlan)
      → Removable plan.add_peers
      → (plan.bootstrap ≡ true → absent ≡ true)
      → Sound (rollback_plan h p now s plan)
  unfolding rollback_plan
  rollback_plan-Sound plan r new = Keeps-then h p g (remove_added-Sound plan.add_peers r) λ steps.
      Keeps-then h p g (remove_link-Sound _ (λ e. new (ground arith)))
        λ more. Keeps-emit h p g now _ _
