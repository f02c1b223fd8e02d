-- ===== src/Store/Durability.antt =====
-- What one call leaves on disk: a failure nothing, a success the state that it returned with.
use mathlib.Core.Path.{subst}
use kintunnel.Base.{ℕ, ◌≡◌, refl, sym, ap, ◌∙◌}
use kintunnel.Base.Failure.{Failure, Result, ok, err}
use kintunnel.Types.{EngineConfig}
use kintunnel.Platform.{Platform}
use kintunnel.State.Context.{Context, Outcome}
use kintunnel.Store.{
  World, holds, StoredState, migrate, stored_form, save, load, settle, update, run_loaded,
}
use kintunnel.Store.Calls.{Call, Reply, mutation, perform, run_mutation}
use kintunnel.Store.Histories.{loaded_context, load-holds}

-- On a file that holds a state, `update` runs the mutation on it.
pub update-holds :
    {A : Type 0} (p : Platform) (cfg : EngineConfig) (now : ℕ) (m : Context → Outcome A) (w : World)
    → (t : StoredState) → w.file ≡ holds t
    → update p cfg now m w ≡ settle w (m (loaded_context (migrate t) w))
unfolding update run_loaded
update-holds p cfg now m w t h = ap (run_loaded m) (load-holds p cfg now w t h)

settle-err :
    {A : Type 0} (w : World) (o : Outcome A) (e : Failure)
    → (settle w o).0 ≡ err e
    → (settle w o).1.file ≡ w.file
unfolding settle
settle-err w (ok a, c) e h = cc
settle-err w (err x, c) e h = refl

-- When the state file holds a state, a call that goes through StateStore.update, a restore being
-- none of them, and that fails leaves the file as it was.
pub perform-err :
    (p : Platform) (cfg : EngineConfig) (now : ℕ) (call : Call) (w : World) (t : StoredState)
    → (e : Failure) → w.file ≡ holds t
    → (perform p cfg now call w).0 ≡ err e
    → (perform p cfg now call w).1.file ≡ holds t
unfolding perform
perform-err p cfg now call w t e f h = by_mutation (mutation p cfg now call) h
  where
    by_mutation :
        (r : Result (Context → Outcome Reply))
        → (run_mutation p cfg now w r).0 ≡ err e
        → (run_mutation p cfg now w r).1.file ≡ holds t
    by_mutation (err x) h = unfold run_mutation in f
    by_mutation (ok m) h =
        unfold run_mutation in
        let same = update-holds p cfg now m w t f in
        ap (λ (q : Result Reply × World). q.1.file) same
        ∙ settle-err w _ e (ap (λ (q : Result Reply × World). q.0) (sym same) ∙ h)
        ∙ f

settle-load :
    {A : Type 0} (p : Platform) (cfg : EngineConfig) (later : ℕ) (w : World) (o : Outcome A) (a : A)
    → (settle w o).0 ≡ ok a
    → (o.0 ≡ ok a) × (load p cfg later (settle w o).1 ≡ (ok o.1.state, (settle w o).1))
unfolding settle migrate stored_form
settle-load p cfg later w (ok b, c) a h = (
  h,
  unfold save in
      load-holds p cfg later (save c.state (record w { sink = c.sink; drawn = c.drawn }))
        (stored_form c.state) refl,
)
settle-load p cfg later w (err x, c) a h = cc

settle-sink : {A : Type 0} (w : World) (o : Outcome A) → (settle w o).1.sink ≡ o.1.sink
unfolding settle save
settle-sink w (ok a, c) = refl
settle-sink w (err x, c) = refl

-- When a mutation on a state file succeeds, the caller gets the mutation's result, any later load
-- finds exactly the state that the mutation made, and the audit sink holds what the mutation
-- handed to it.
pub update-load :
    {A : Type 0} (p : Platform) (cfg : EngineConfig) (now later : ℕ) (m : Context → Outcome A)
    → (w : World) (t : StoredState) (a : A) → w.file ≡ holds t
    → (update p cfg now m w).0 ≡ ok a
    → let o = m (loaded_context (migrate t) w) in
      let w' = (update p cfg now m w).1 in
      (o.0 ≡ ok a) × (load p cfg later w' ≡ (ok o.1.state, w')) × (w'.sink ≡ o.1.sink)
update-load p cfg now later m w t a f h =
    let o = m (loaded_context (migrate t) w) in
    let same = update-holds p cfg now m w t f in
    subst
      (λ r.
        r.0 ≡ ok a
        → (o.0 ≡ ok a) × (load p cfg later r.1 ≡ (ok o.1.state, r.1)) × (r.1.sink ≡ o.1.sink))
      (sym same) (λ k. let (x, y) = settle-load p cfg later w o a k in (x, y, settle-sink w o)) h
