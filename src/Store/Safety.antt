-- ===== src/Store/Safety.antt =====
-- What every call, and every history of calls, keeps of the state on disk.
use kintunnel.Base.{
  ℕ, ◌≡◌, refl, sym, ap, ◌∙◌, find, Option-cases, Bool-cases, inl, inr, arith, Text, lit, List,
}
use mathlib.Core.Path.{subst}
use kintunnel.Base.Failure.{Result, ok, err, ok-injective, >>=-eq-ok}
use kintunnel.Types.{EngineState, EngineConfig}
use kintunnel.Types.Results.{ReconcileResult}
use kintunnel.Platform.{Platform}
use kintunnel.Peers.{is_peer_active}
use kintunnel.State.Context.{Context, EventInput, Outcome, is_peer}
use kintunnel.Host.Events.{append_events, Effect-append_events}
use kintunnel.State.Requests.{parse_peer_create, parse_person_create}
use kintunnel.State.Effect.{
  Effect, Effect-refl, Effect-trans, Effect-append_event, Effect-IsValid, Effect-peers,
}
use kintunnel.State.Evolution.{AllEvolve-refl}
use kintunnel.State.Progress.{Progress, Progress-Effect}
use kintunnel.State.Validity.{IsValid}
use kintunnel.State.Peers.{create_peer}
use kintunnel.State.Peers.Effects.{delete_peer-Effect, revoke_peer-Effect}
use kintunnel.State.Peers.Creation.{create_peer-IsValid, create_peer-Progress}
use kintunnel.State.Persons.Effects.{
  create_person-Effect, update_person-Effect, list_persons-Effect, delete_person-Effect,
  revoke_person_devices-Effect,
}
use kintunnel.State.Sweep.Effects.{sweep_expired-Effect}
use kintunnel.Keys.{generate_key_pair}
use kintunnel.Ip.{parse_ipv4_cidr}
use kintunnel.Store.{
  counted, create_file, World, File, missing, holds, unreadable, StoredState, migrate, stored_form,
  save, load, initial_state, fresh_state, load_file,
}
use kintunnel.Store.Calls

-- What a mutation keeps.
pub record IsSound (c c' : Context) : Type 0 where
  pub progress : Progress c c'
  pub valid : IsValid c.state → IsValid c'.state

IsSound-Effect : {c c' : Context} → Effect c c' → IsSound c c'
IsSound-Effect e = record { progress = Progress-Effect e; valid = Effect-IsValid e }

IsSound-create_peer :
    (p : Platform) (cfg : EngineConfig) (body : _) (now : ℕ) (c : Context)
    → IsSound c (create_peer p cfg body now c).1
IsSound-create_peer p cfg body now c = record {
  progress = create_peer-Progress p cfg body now c;
  valid = create_peer-IsValid p cfg body now c;
}

export_config-Effect :
    (p : Platform) (id : Text) (now : ℕ) (c : Context) → Effect c (Calls.export_config p id now c).1
unfolding Calls.export_config
export_config-Effect p id now c = elim (Option-cases (find (is_peer id) c.state.peers)) [
  | inl absent ↦ rw (absent, Calls.export_config) (Effect-refl c)
  | inr (q, found) ↦
      rw (found, Calls.export_config)
        (elim (Bool-cases (is_peer_active p now q)) [
          | inl live ↦ rw live (Effect-append_event p _ c)
          | inr gone ↦ rw gone (Effect-refl c)
        ])
]

record_reconcile-Effect :
    (p : Platform) (events : List EventInput) (r : Result ReconcileResult) (now : ℕ) (c : Context)
    → Effect c (Calls.record_reconcile p events r now c).1
unfolding Calls.record_reconcile
record_reconcile-Effect p events (err e) now c = Effect-append_events p events c
record_reconcile-Effect p events (ok r) now c =
    let after : Context = append_events p events c in
    Effect-trans (Effect-append_events p events c) (
      Effect-trans
        (Effect-peers after _ (AllEvolve-refl after.state.peers) refl (omega arith) refl refl)
        (Effect-append_event p _ _))

record_backup-Effect :
    (p : Platform) (events : List EventInput) (c : Context)
    → Effect c (Calls.record_backup p events c).1
unfolding Calls.record_backup
record_backup-Effect p events c = Effect-append_events p events c

replies-context : {A : Type 0} (f : A → Calls.Reply) (o : Outcome A) → (Calls.replies f o).1 ≡ o.1
replies-context f (ok a, c) = refl
replies-context f (err e, c) = refl

replied :
    {A : Type 0} (f : A → Calls.Reply) (o : Outcome A) {c : Context}
    → IsSound c o.1
    → IsSound c (Calls.replies f o).1
replied f o h = rw (replies-context f o) h

-- What runs as a call is its own mutation.
same_mutation :
    {m n : Context → Outcome Calls.Reply} {c : Context}
    → Result.ok n ≡ ok m
    → IsSound c (n c).1
    → IsSound c (m c).1
same_mutation {m} {n} {c} h s =
    subst (λ (f : Context → Outcome Calls.Reply). IsSound c (f c).1) (ok-injective n m h) s

-- Whatever a call hands to `update` is sound.
pub mutation-IsSound :
    (p : Platform) (cfg : EngineConfig) (now : ℕ) (call : Calls.Call)
    → (m : Context → Outcome Calls.Reply) → Calls.mutation p cfg now call ≡ ok m
    → (c : Context) → IsSound c (m c).1
unfolding Calls.mutation
mutation-IsSound p cfg now (Calls.peer_create input) m h c =
    let (body, _, h1) = >>=-eq-ok (parse_peer_create p now input) _ h in
    same_mutation h1 (replied Calls.peer _ (IsSound-create_peer p cfg body now c))
mutation-IsSound p cfg now (Calls.peer_delete id) m h c =
    same_mutation h (replied Calls.peer _ (IsSound-Effect (delete_peer-Effect p id now c)))
mutation-IsSound p cfg now (Calls.peer_revoke id) m h c =
    same_mutation h (replied Calls.peer _ (IsSound-Effect (revoke_peer-Effect p id now c)))
mutation-IsSound p cfg now (Calls.peer_export id) m h c =
    same_mutation h (replied Calls.config _ (IsSound-Effect (export_config-Effect p id now c)))
mutation-IsSound p cfg now (Calls.expiry_sweep opts) m h c =
    same_mutation h (replied Calls.swept _ (IsSound-Effect (sweep_expired-Effect p opts now c)))
mutation-IsSound p cfg now (Calls.person_create input) m h c =
    let (body, _, h1) = >>=-eq-ok (parse_person_create input) _ h in
    same_mutation h1 (replied Calls.person _ (IsSound-Effect (create_person-Effect p body now c)))
mutation-IsSound p cfg now (Calls.person_update id patch) m h c =
    same_mutation h
      (replied Calls.person _ (IsSound-Effect (update_person-Effect p id patch now c)))
mutation-IsSound p cfg now (Calls.person_list status) m h c =
    same_mutation h (replied Calls.persons _ (IsSound-Effect (list_persons-Effect status c)))
mutation-IsSound p cfg now (Calls.person_delete id force) m h c =
    same_mutation h
      (replied Calls.person _ (IsSound-Effect (delete_person-Effect p id force now c)))
mutation-IsSound p cfg now (Calls.person_revoke id actor) m h c =
    same_mutation h
      (replied Calls.devices _ (IsSound-Effect (revoke_person_devices-Effect p id actor now c)))
mutation-IsSound p cfg now (Calls.reconciled events r) m h c =
    same_mutation h
      (replied Calls.report _ (IsSound-Effect (record_reconcile-Effect p events r now c)))
mutation-IsSound p cfg now (Calls.backup_recorded events) m h c =
    same_mutation h
      (replied (λ _. Calls.recorded) _ (IsSound-Effect (record_backup-Effect p events c)))

-- What is on disk, if anything is, is valid.
unfoldable pub ValidFile : File → Type 0
ValidFile missing = Unit
ValidFile (holds s) = IsValid (migrate s)
ValidFile (unreadable e) = Unit

pub migrate-stored_form : (s : EngineState) → migrate (stored_form s) ≡ s
unfolding migrate stored_form
migrate-stored_form s = refl

counted-result : (n : ℕ) (r : Result EngineState) → (counted n r).0 ≡ r
counted-result n (ok s) = refl
counted-result n (err e) = refl

fresh_state-IsValid :
    (p : Platform) (cfg : EngineConfig) (now drawn : ℕ) (s : EngineState)
    → (initial_state p cfg now drawn).0 ≡ ok s
    → IsValid s
unfolding initial_state fresh_state
fresh_state-IsValid p cfg now drawn s h =
    let (pair, _, h1) =
      >>=-eq-ok (generate_key_pair p cfg.dry_run (lit "server:default") drawn).0 _
        (sym (counted-result _ _) ∙ h) in
    let (parsed, _, h2) = >>=-eq-ok (parse_ipv4_cidr cfg.tunnel_cidr_v4) _ h1 in
    subst IsValid (ok-injective _ s h2) (record {
      distinct = record { names = tt; keys = tt; addresses = tt };
      bounded = omega arith;
      inside = tt;
    })

-- A loaded state is valid if the file's is, and the file holds it then.
pub record Loaded (s : EngineState) (w : World) : Type 0 where
  pub valid : IsValid s
  pub on_disk : (t : StoredState) × (w.file ≡ holds t) × (migrate t ≡ s)

create_file-Loaded :
    (w w' : World) (r : Result EngineState × ℕ) (s : EngineState)
    → ((t : EngineState) → r.0 ≡ ok t → IsValid t)
    → create_file w r ≡ (ok s, w')
    → Loaded s w'
unfolding save
create_file-Loaded w w' (err e, n) s v h = cc
create_file-Loaded w w' (ok t, n) s v h =
    let e : t ≡ s = ok-injective t s (ap (λ (q : Result EngineState × World). q.0) h) in
    record {
      valid = v s (ap ok e);
      on_disk = (
        stored_form t,
        sym (ap (λ (q : Result EngineState × World). q.1.file) h),
        migrate-stored_form t ∙ e,
      );
    }

load_file-Loaded :
    (p : Platform) (cfg : EngineConfig) (now : ℕ) (w w' : World) (s : EngineState) (f : File)
    → w.file ≡ f
    → ValidFile f
    → load_file p cfg now w f ≡ (ok s, w')
    → Loaded s w'
unfolding load_file ValidFile
load_file-Loaded p cfg now w w' s missing e v h =
    create_file-Loaded w w' _ s (fresh_state-IsValid p cfg now w.drawn) h
load_file-Loaded p cfg now w w' s (holds t) e v h =
    let same = ok-injective (migrate t) s (ap (λ (q : Result EngineState × World). q.0) h) in
    record {
      valid = subst IsValid same v;
      on_disk = (t, ap (λ (q : Result EngineState × World). q.1.file) (sym h) ∙ e, same);
    }
load_file-Loaded p cfg now w w' s (unreadable x) e v h = cc

pub load-Loaded :
    (p : Platform) (cfg : EngineConfig) (now : ℕ) (w w' : World) (s : EngineState)
    → ValidFile w.file
    → load p cfg now w ≡ (ok s, w')
    → Loaded s w'
unfolding load
load-Loaded p cfg now w w' s v h = load_file-Loaded p cfg now w w' s w.file refl v h
