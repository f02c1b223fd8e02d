-- ===== src/Host/Events.antt =====
-- What the engine works on while it drives the host: its own context beside the host's state.
-- `emitAudit` of apply.ts and networking.ts is the store's `appendEvent` with the engine as actor.
use kintunnel.Base.{ℕ, ◌≡◌, refl, ap, ◌∙◌, sym, none, some, List, [], ◌∷◌, ◌++◌}
use kintunnel.Types.{AuditAction, Metadata}
use kintunnel.Platform.{Platform}
use kintunnel.State.Context.{Context, EventInput, append_event}
use kintunnel.State.Effect.{Effect, Effect-refl, Effect-trans, Effect-append_event}
use mathlib.Core.Path.{subst}

pub record Live (H : Type 0) : Type 0 where
  pub context : Context
  pub host : H

unfoldable pub engine_event : Platform → ℕ → AuditAction → Metadata → EventInput
engine_event p now action metadata = record {
  action = action;
  actor = none;
  target_id = none;
  target_name = none;
  created_at = p.iso now;
  metadata = some metadata;
}

-- Events are appended one after the other.
unfoldable pub append_events : Platform → List EventInput → Context → Context
append_events p [] c = c
append_events p (e ∷ es) c = append_events p es (append_event p e c)

append_events-append :
    (p : Platform) (es fs : List EventInput) (c : Context)
    → append_events p (es ++ fs) c ≡ append_events p fs (append_events p es c)
unfolding append_events
append_events-append p [] fs c = refl
append_events-append p (e ∷ es) fs c = append_events-append p es fs (append_event p e c)

pub Effect-append_events :
    (p : Platform) (es : List EventInput) (c : Context) → Effect c (append_events p es c)
unfolding append_events
Effect-append_events p [] c = Effect-refl c
Effect-append_events p (e ∷ es) c =
    Effect-trans (Effect-append_event p e c) (Effect-append_events p es (append_event p e c))

-- The second context is the first with some events appended.
pub record Emits (p : Platform) (c c' : Context) : Type 0 where
  pub events : List EventInput
  pub appended : c' ≡ append_events p events c

pub Emits-refl : (p : Platform) (c : Context) → Emits p c c
unfolding append_events
Emits-refl p c = record { events = []; appended = refl }

pub Emits-trans : {p : Platform} {a b c : Context} → Emits p a b → Emits p b c → Emits p a c
Emits-trans {p} {a} f g = record {
  events = f.events ++ g.events;
  appended =
      g.appended
      ∙ ap (append_events p g.events) f.appended
      ∙ sym (append_events-append p f.events g.events a);
}

pub Effect-Emits : {p : Platform} {c c' : Context} → Emits p c c' → Effect c c'
Effect-Emits {p} {c} {c'} m =
    subst (λ (d : Context). Effect c d) (sym m.appended) (Effect-append_events p m.events c)

module _ {H : Type 0} (p : Platform) (now : ℕ) where
  unfoldable pub emit_audit : AuditAction → Metadata → Live H → Live H
  unfolding engine_event
  emit_audit action metadata l = record l {
    context = append_event p (engine_event p now action metadata) l.context;
  }

  pub Emits-emit_audit :
      (action : AuditAction) (metadata : Metadata) (l : Live H)
      → Emits p l.context (emit_audit action metadata l).context
  unfolding emit_audit append_events
  Emits-emit_audit action metadata l = record {
    events = engine_event p now action metadata ∷ [];
    appended = refl;
  }
