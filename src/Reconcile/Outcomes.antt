-- ===== src/Reconcile/Outcomes.antt =====
-- What a reconcile does to the engine's state, and what it reports of a dry run.
use kintunnel.Base.{
  ℕ, ◌≡◌, refl, ap, ◌∙◌, Bool, true, false, none, List, [], ◌∷◌, arith, length, ◌==◌, Text,
  Bool-cases, inl, inr, if◌then◌else◌,
}
use kintunnel.Types.{EngineConfig, EngineState, PeerRecord}
use kintunnel.Types.Results.{ApplyResult, ReconcileResult}
use kintunnel.Platform.{Platform}
use kintunnel.Apply.{active_peers, first_duplicate}
use kintunnel.Apply.DryRuns.{first_duplicate-IsValid}
use kintunnel.State.Validity.{IsValid}
use kintunnel.Runtime.{get_capabilities}
use kintunnel.Networking.Safety.{apply_networking-Emits, apply_networking-dry}
use kintunnel.Host.{Host}
use kintunnel.Host.Events.{Live, Emits, Emits-refl, Emits-trans}
use kintunnel.Host.Acts.{Attempt, threw, gave, apply_error, other}
use kintunnel.Live.{execute_apply}
use kintunnel.Live.Outcomes.{execute_apply-Emits}
use kintunnel.Reconcile.{
  Phase, duplicate_errors, after_apply, live_phase, apply_phase, networked, report_of, reported,
  reconcile, stopped, can_apply, rehearsed,
}

module _ {H : Type 0} (h : Host H) (p : Platform) (now finished : ℕ) (config : EngineConfig) where
  after_apply-Emits :
      (l : Live H) (m : Attempt ApplyResult × Live H)
      → Emits p l.context m.1.context
      → Emits p l.context (after_apply m).1.context
  unfolding after_apply
  after_apply-Emits l (threw (apply_error e), l') k = k
  after_apply-Emits l (threw (other message), l') k = k
  after_apply-Emits l (gave r, l') k = k

  live_phase-Emits :
      (s : EngineState) (l : Live H)
      → Emits p l.context (live_phase h p now finished config s l).1.context
  unfolding live_phase
  live_phase-Emits s l = let (c, x) = get_capabilities h config l.host in by (can_apply c) x
    where
      by :
          (b : Bool) (x : H)
          → Emits p l.context
              (if b
                then after_apply (execute_apply h p now s finished (record l { host = x }))
                else (
                  gave (stopped (get_capabilities h config l.host).0.messages),
                  record l { host = x },
                )).1.context
      by true x =
          after_apply-Emits l _ (execute_apply-Emits h p now finished s (record l { host = x }))
      by false x = Emits-refl p l.context

  apply_phase-Emits :
      (s : EngineState) (errors : List Text) (l : Live H)
      → Emits p l.context (apply_phase h p now finished config s errors l).1.context
  unfolding apply_phase
  apply_phase-Emits s (e ∷ errors) l = Emits-refl p l.context
  apply_phase-Emits s [] l = by config.dry_run
    where
      by :
          (b : Bool)
          → Emits p l.context
              (if b then (gave rehearsed, l) else live_phase h p now finished config s l).1.context
      by true = Emits-refl p l.context
      by false = live_phase-Emits s l

  networked-Emits :
      (phase : Phase) (l : Live H)
      → Emits p l.context (networked h p now finished config phase l).1.context
  unfolding networked
  networked-Emits phase l = elim (Bool-cases phase.applied) [
    | inl up ↦ rw up (apply_networking-Emits h p now config l)
    | inr down ↦ rw down (Emits-refl p l.context)
  ]

  reported-Emits :
      (s : EngineState) (m : Attempt Phase × Live H)
      → Emits p m.1.context (reported h p now finished config s m).1.context
  unfolding reported
  reported-Emits s (threw e, l) = Emits-refl p l.context
  reported-Emits s (gave phase, l) = networked-Emits phase l

  -- x
  pub reconcile-Emits :
      (l : Live H) → Emits p l.context (reconcile h p now finished config l).1.context
  unfolding reconcile
  reconcile-Emits l =
      let s : EngineState = l.context.state in
      Emits-trans (apply_phase-Emits s _ l) (reported-Emits s _)

duplicate_errors-none :
    (ks vs : List Text) (peers : List PeerRecord)
    → first_duplicate ks vs peers ≡ none
    → duplicate_errors ks vs peers ≡ []
unfolding first_duplicate duplicate_errors
duplicate_errors-none ks vs [] e = refl
duplicate_errors-none ks vs (q ∷ qs) e =
    ground (arith, duplicate_errors-none (q.public_key ∷ ks) (q.address_v4 ∷ vs) qs)

module _ {H : Type 0} (h : Host H) (p : Platform) (now finished : ℕ) (config : EngineConfig) where
  apply_phase-dry :
      (s : EngineState) (l : Live H)
      → config.dry_run ≡ true
      → IsValid s
      → apply_phase h p now finished config s (duplicate_errors [] [] (active_peers p now s)) l
        ≡ (gave rehearsed, l)
  unfolding apply_phase
  apply_phase-dry s l dry v =
      let none_twice =
        duplicate_errors-none [] [] (active_peers p now s) (first_duplicate-IsValid p now s v) in
      ap (λ es. apply_phase h p now finished config s es l) none_twice
      ∙ ap (λ d. if d then (gave rehearsed, l) else live_phase h p now finished config s l) dry

  reported-rehearsed :
      (s : EngineState) (l : Live H)
      → config.dry_run ≡ true
      → (r : ReconcileResult) × (reported h p now finished config s (gave rehearsed, l)
          ≡ (gave r, l))
        × (r.ok ≡ true)
        × (r.applied ≡ true)
        × (r.errors ≡ [])
        × (r.dry_run ≡ true)
  unfolding reported networked rehearsed report_of
  reported-rehearsed s l dry =
      let (same, fine, applied, errors) = apply_networking-dry h p now config l (ground arith) in
      let done : Phase = (networked h p now finished config rehearsed l).0 in
      (
        report_of h p now finished config s done,
        ap (λ k. (gave (report_of h p now finished config s done), k)) same,
        ap (λ (es : List Text). length es == 0) errors,
        refl,
        errors,
        dry,
      )

  -- In a dry run, the reconcile of a valid state returns a result that is ok, applied and without
  -- errors, and changes neither the state nor the host.
  pub reconcile-dry :
      (l : Live H)
      → config.dry_run ≡ true
      → IsValid l.context.state
      → (r : ReconcileResult) × (reconcile h p now finished config l ≡ (gave r, l))
        × (r.ok ≡ true)
        × (r.applied ≡ true)
        × (r.errors ≡ [])
        × (r.dry_run ≡ true)
  unfolding reconcile
  reconcile-dry l dry v =
      let s : EngineState = l.context.state in
      let (r, e, fine, applied, errors, dr) = reported-rehearsed s l dry in
      (
        r,
        ap (reported h p now finished config s) (apply_phase-dry s l dry v) ∙ e,
        fine,
        applied,
        errors,
        dr,
      )
