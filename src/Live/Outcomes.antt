-- ===== src/Live/Outcomes.antt =====
-- What `executeApply` leaves alone: the engine's state but for its events, and the peers that are
-- wanted and there.
use kintunnel.Base.{
  ℕ, ◌≡◌, refl, sym, ◌∙◌, Bool, true, false, not, ◌&&◌, Option, none, some, List, [], ◌∷◌, any,
  arith, Text, lit, text_eq, Bool-cases, inl, inr,
}
use kintunnel.Types.{EngineState}
use kintunnel.Platform.{Platform}
use kintunnel.Apply.{ApplyError, RuntimeState, active_peers, first_duplicate}
use kintunnel.Apply.Plans.{diff_peers-lists, plan_apply-lists}
use kintunnel.Runtime.{get_runtime_state}
use kintunnel.Host.{Host}
use kintunnel.Host.Events.{Live, emit_audit, Emits, Emits-refl, Emits-trans, Emits-emit_audit}
use kintunnel.Host.Acts.{◌>>=◌, throw}
use kintunnel.Live.{execute_apply, guarded, look, drive}
use kintunnel.Live.Texts.{enables}
use kintunnel.Live.Guarantees.{Guarantee}
use kintunnel.Live.Rollbacks.{Allowed, Contents, show}
use kintunnel.Live.Conduct.{drive-Sound}

module _ {H : Type 0} (h : Host H) (p : Platform) (now finished : ℕ) (s : EngineState) where
  -- What `wg` reports at the start of the call.
  abbrev pub seen : H → RuntimeState
  seen x = (get_runtime_state h p now false s x).0

  -- A key of an active peer that the interface has.
  abbrev pub settled_key : H → Text → Bool
  settled_key x k =
      any (λ q. text_eq q.public_key k) (active_peers p now s)
      && any (λ q. text_eq q.public_key k) (seen x).peers

  -- The host has no interface of the engine's.
  abbrev pub no_interface : H → Bool
  no_interface x = not (seen x).exists

  module _ (removable : Text → Bool) (absent : Bool)
      (g : Guarantee h p (Allowed h p now s removable absent) (Contents h p now s)) (l : Live H)
      (loose : (k : Text) → settled_key l.host k ≡ false → removable k ≡ true)
      (new : no_interface l.host ≡ true → absent ≡ true) where
    look-Kept : g.Kept l (look h p now s l).1
    unfolding look get_runtime_state
    look-Kept = g.ran (lit "wg") (lit "show" ∷ s.server.interface_name ∷ lit "dump" ∷ []) l show

    drive-Kept : g.Kept l (drive h p now s finished (seen l.host) (look h p now s l).1).1
    drive-Kept =
        let runtime : RuntimeState = seen l.host in
        let sound =
          drive-Sound h p now s removable absent g finished runtime
            (λ k e.
              let (added, removed, boot) = plan_apply-lists p now s runtime k in
              loose k (ground arith))
            (λ k e.
              let (added, removed) = diff_peers-lists (active_peers p now s) runtime.peers k in
              loose k (ground arith))
            λ e. new (sym (plan_apply-lists p now s runtime []).2 ∙ e) in
        g.chained l (look h p now s l).1 _ look-Kept (sound.kept (look h p now s l).1)

    guarded-Kept : (d : Option ApplyError) → g.Kept l (guarded h p now s finished d l).1
    unfolding guarded throw ◌>>=◌ look
    guarded-Kept (some duplicate) = g.stays l
    guarded-Kept none =
        elim (Bool-cases (enables (h.env (lit "KINTUNNEL_ENABLE_HOST_NETWORKING")))) [
          | inl on ↦ rw on drive-Kept
          | inr off ↦ rw off (g.stays l)
        ]

    execute_apply-Kept : g.Kept l (execute_apply h p now s finished l).1
    unfolding execute_apply
    execute_apply-Kept = guarded-Kept (first_duplicate [] [] (active_peers p now s))

  events_only : Guarantee h p (Allowed h p now s (λ _. true) true) (Contents h p now s)
  events_only = record {
    Kept = λ l l'. Emits p l.context l'.context;
    stays = λ l. Emits-refl p l.context;
    chained = λ a b c f k. Emits-trans f k;
    emitted = λ at action metadata l. Emits-emit_audit p at action metadata l;
    ran = λ cmd args l a. Emits-refl p l.context;
    wrote = λ content l c. Emits-refl p l.context;
    removed = λ path l. Emits-refl p l.context;
  }

  -- On any host, a live apply, whether it returns or throws, changes the engine's state only by
  -- appending events.
  pub execute_apply-Emits :
      (l : Live H) → Emits p l.context (execute_apply h p now s finished l).1.context
  unfolding events_only
  execute_apply-Emits l = execute_apply-Kept (λ _. true) true events_only l (λ _ _. refl) λ _. refl

  -- A live apply, its rollbacks included, neither removes from the interface an active peer that
  -- the interface has at the start, nor makes, sets up or deletes the link of an interface that is
  -- there at the start, and syncs it only from a path that the host gave for a file with the
  -- configuration of every active peer: whatever property of the host is kept by the remaining
  -- commands for the engine's own interface, and by temporary files with its configuration, is
  -- kept by the whole apply.
  pub execute_apply-spares :
      (P : H → Type 0) (l : Live H)
      → ((cmd : Text) (args : List Text) (x : H)
          → Allowed h p now s (λ k. not (settled_key l.host k)) (no_interface l.host) cmd args
          → P x
          → P (h.run cmd args x).1)
      → ((content : Text) (x : H) → Contents h p now s content → P x → P (h.write_temp content x).1)
      → ((path : Text) (x : H) → P x → P (h.remove_file path x).1)
      → P l.host
      → P (execute_apply h p now s finished l).1.host
  unfolding emit_audit
  execute_apply-spares P l command write clean start =
      let removable : Text → Bool = λ k. not (settled_key l.host k) in
      let absent : Bool = no_interface l.host in
      let g : Guarantee h p (Allowed h p now s removable absent) (Contents h p now s) = record {
        Kept = λ a b. P a.host → P b.host;
        stays = λ a x. x;
        chained = λ a b c f k x. k (f x);
        emitted = λ at action metadata a x. x;
        ran = λ cmd args a ok x. command cmd args a.host ok x;
        wrote = λ content a c x. write content a.host c x;
        removed = λ path a x. clean path a.host x;
      } in
      execute_apply-Kept removable absent g l (λ k e. ground arith) (λ e. e) start
