-- ===== src/Reconcile/Handler.antt =====
-- packages/engine/src/app.ts: the mutation of `POST /reconcile`, with the reconcile on the host.
use kintunnel.Base.{ℕ, ◌≡◌, sym, ap, some, List}
use kintunnel.Base.Failure.{Result, err, ok, error}
use kintunnel.Types.{EngineConfig}
use kintunnel.Types.Results.{ReconcileResult}
use kintunnel.Platform.{Platform}
use kintunnel.State.Context.{Context, EventInput, bump, append_event}
use kintunnel.Host.{Host}
use kintunnel.Host.Events.{Live, append_events}
use kintunnel.Host.Acts.{Act, Attempt, threw, gave, thrown_message}
use kintunnel.Store.Calls.{record_reconcile, reconciled_event}
use kintunnel.Reconcile.{reconcile}
use kintunnel.Reconcile.Outcomes.{reconcile-Emits}

recorded :
    {H : Type 0}
    → Platform
    → ℕ
    → Attempt ReconcileResult × Live H
    → Attempt ReconcileResult × Live H
recorded p now (threw e, l) = (threw e, l)
recorded p now (gave r, l) =
    let s = bump (record l.context.state { last_reconcile = some r }) in
    (
      gave r,
      record l {
        context = append_event p (reconciled_event p now r) (record l.context { state = s });
      },
    )

-- The mutation that the handler hands to `update`: a throw leaves out the record of the reconcile.
unfoldable pub post_reconcile :
    {H : Type 0} → Host H → Platform → ℕ → ℕ → EngineConfig → Act H ReconcileResult
unfolding recorded
post_reconcile h p now finished config l = recorded p now (reconcile h p now finished config l)

abbrev pub result_of : {A : Type 0} → Attempt A → Result A
result_of (threw e) = err (error (thrown_message e))
result_of (gave a) = ok a

recorded-lem :
    {H : Type 0} (p : Platform) (now : ℕ) (c : Context) (m : Attempt ReconcileResult × Live H)
    (events : List EventInput)
    → m.1.context ≡ append_events p events c
    → let (r, l) = recorded p now m in
      record_reconcile p events (result_of m.0) now c ≡ (result_of r, l.context)
unfolding recorded record_reconcile
recorded-lem p now c (threw e, l) events h = ap (λ k. (err (error (thrown_message e)), k)) (sym h)
recorded-lem p now c (gave r, l) events h =
    ap
      (λ (k : Context). (
        ok r,
        append_event p (reconciled_event p now r)
            (record k { state = bump (record k.state { last_reconcile = some r }) }),
      ))
      (sym h)

-- On any host, the mutation of the reconcile request leaves the state and the answer that the
-- recorded reconcile leaves for some events and some result.
pub post_reconcile-record_reconcile :
    {H : Type 0} (h : Host H) (p : Platform) (now finished : ℕ) (config : EngineConfig) (l : Live H)
    → let (r, l') = post_reconcile h p now finished config l in
      (events : List EventInput) × (result : Result ReconcileResult) × (record_reconcile p events
          result now l.context
        ≡ (result_of r, l'.context))
unfolding post_reconcile
post_reconcile-record_reconcile h p now finished config l =
    let m : Attempt ReconcileResult × Live _ = reconcile h p now finished config l in
    let emitted = reconcile-Emits h p now finished config l in
    (emitted.events, result_of m.0, recorded-lem p now l.context m emitted.events emitted.appended)
