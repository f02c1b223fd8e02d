-- ===== src/Store/Histories.antt =====
-- The calls that go through `update` as steps on the file: what one call and what any history of
-- calls does to it.
use mathlib.Core.Path.{subst}
use mathlib.Core.List.{append-nil, append_assoc}
use kintunnel.Base.{ℕ, ◌≤◌, ◌≡◌, refl, sym, ap, ◌∙◌, List, [], ◌++◌, inl, inr, arith}
use kintunnel.Base.Failure.{Failure, Result, ok, err, Result-cases}
use kintunnel.Types.{EngineState, EngineConfig, AuditEvent}
use kintunnel.Platform.{Platform}
use kintunnel.State.Context.{Context, Outcome}
use kintunnel.State.Progress.{Continues, Continues-refl, Continues-trans}
use kintunnel.State.Validity.{IsValid}
use kintunnel.Store.{
  World, File, missing, holds, unreadable, StoredState, migrate, stored_form, save, load, load_file,
  create_file, settle, update, run_loaded,
}
use kintunnel.Store.Calls.{Call, History, begin, then_call, mutation, perform, run_mutation}
use kintunnel.Store.Safety.{
  IsSound, mutation-IsSound, ValidFile, Loaded, load-Loaded, migrate-stored_form,
}

-- A load that fails leaves the file as it is.
load-err :
    (p : Platform) (cfg : EngineConfig) (now : ℕ) (w w' : World) (e : Failure)
    → load p cfg now w ≡ (err e, w')
    → w'.file ≡ w.file
unfolding load
load-err p cfg now w w' e h = failed w.file h
  where
    create : (r : Result EngineState × ℕ) → create_file w r ≡ (err e, w') → w'.file ≡ w.file
    create (err x, n) h = ap (λ (q : Result EngineState × World). q.1.file) (sym h)
    create (ok s, n) h = cc

    failed : (f : File) → load_file p cfg now w f ≡ (err e, w') → w'.file ≡ w.file
    failed missing h = unfold load_file in create _ h
    failed (holds t) h = unfold load_file in cc
    failed (unreadable x) h =
        unfold load_file in ap (λ (q : Result EngineState × World). q.1.file) (sym h)

-- What `update` runs the mutation on.
abbrev pub loaded_context : EngineState → World → Context
loaded_context s w = record { state = s; sink = w.sink; drawn = w.drawn }

settle-ValidFile :
    {A : Type 0} (w : World) (o : Outcome A)
    → ValidFile w.file
    → IsValid o.1.state
    → ValidFile (settle w o).1.file
unfolding settle save ValidFile
settle-ValidFile w (ok a, c) v h = subst IsValid (sym (migrate-stored_form c.state)) h
settle-ValidFile w (err e, c) v h = v

Loaded-ValidFile : (s : EngineState) (w : World) → Loaded s w → ValidFile w.file
unfolding ValidFile
Loaded-ValidFile s w l =
    let (t, e, same) = l.on_disk in
    let v : ValidFile (holds t) = subst IsValid (sym same) l.valid in subst ValidFile (sym e) v

run_loaded-ValidFile :
    {A : Type 0} (p : Platform) (cfg : EngineConfig) (now : ℕ) (m : Context → Outcome A) (w : World)
    → (l : Result EngineState × World) → ((c : Context) → IsSound c (m c).1)
    → ValidFile w.file
    → load p cfg now w ≡ l
    → ValidFile (run_loaded m l).1.file
unfolding run_loaded
run_loaded-ValidFile p cfg now m w (err e, w') sound v h =
    subst ValidFile (sym (load-err p cfg now w w' e h)) v
run_loaded-ValidFile p cfg now m w (ok s, w') sound v h =
    let l = load-Loaded p cfg now w w' s v h in
    let c = loaded_context s w' in
    settle-ValidFile w' (m c) (Loaded-ValidFile s w' l) (IsSound.valid (sound c) l.valid)

-- Every such call keeps what is on disk valid.
pub perform-ValidFile :
    (p : Platform) (cfg : EngineConfig) (now : ℕ) (call : Call) (w : World)
    → ValidFile w.file
    → ValidFile (perform p cfg now call w).1.file
unfolding perform run_mutation update
perform-ValidFile p cfg now call w v = elim (Result-cases (mutation p cfg now call)) [
  | inl (m, e) ↦
      rw e (run_loaded-ValidFile p cfg now m w _ (mutation-IsSound p cfg now call m e) v refl)
  | inr (x, e) ↦ rw e v
]

-- Whatever sequence of calls that go through StateStore.update runs, a restore being none of them,
-- starting from a data directory without a state file or with a valid one, a state file that can
-- be read at the end is valid: no two live peers share a name, key or address, every peer's
-- address is a host of the tunnel's subnet other than the first, and the event log has at most 250
-- entries.
pub History-ValidFile :
    (p : Platform) (cfg : EngineConfig) (start w : World)
    → ValidFile start.file
    → History p cfg start w
    → ValidFile w.file
History-ValidFile p cfg start _ v begin = v
History-ValidFile p cfg start _ v (then_call {w} h now call) =
    perform-ValidFile p cfg now call w (History-ValidFile p cfg start w v h)

-- How the world moves on: the audit sink grows, and the state on disk keeps its peers in their
-- order, with what identifies them, its server's settings, and a revision no lower.
pub record Advances (before after : World) : Type 0 where
  pub sink : (added : List AuditEvent) × (after.sink ≡ before.sink ++ added)
  pub disk :
      (t : StoredState)
      → before.file ≡ holds t
      → (u : StoredState) × (after.file ≡ holds u)
        × Continues (migrate t).peers (migrate u).peers
        × ((migrate u).server ≡ (migrate t).server)
        × ((migrate t).revision ≤ (migrate u).revision)

Advances-refl : (w w' : World) → w'.file ≡ w.file → w'.sink ≡ w.sink → Advances w w'
Advances-refl w w' f s = record {
  sink = ([], s ∙ sym (append-nil w.sink));
  disk = λ t e. (t, f ∙ e, Continues-refl _, refl, omega arith);
}

Advances-trans : {a b c : World} → Advances a b → Advances b c → Advances a c
Advances-trans {a} {b} {c} f g = record {
  sink =
      let (x, ex) = f.sink in
      let (y, ey) = g.sink in (x ++ y, ey ∙ ap (λ s. s ++ y) ex ∙ append_assoc a.sink x y);
  disk = λ t e.
      let (u, eu, cu, su, ru) = f.disk t e in
      let (v, ev, cv, sv, rv) = g.disk u eu in
      (v, ev, Continues-trans _ _ _ cu cv, sv ∙ su, omega arith);
}

load-sink :
    (p : Platform) (cfg : EngineConfig) (now : ℕ) (w : World) → (load p cfg now w).1.sink ≡ w.sink
unfolding load
load-sink p cfg now w = by_file w.file
  where
    create : (r : Result EngineState × ℕ) → (create_file w r).1.sink ≡ w.sink
    create (err x, n) = refl
    create (ok s, n) = unfold save in refl

    by_file : (f : File) → (load_file p cfg now w f).1.sink ≡ w.sink
    by_file missing = unfold load_file in create _
    by_file (holds t) = unfold load_file in refl
    by_file (unreadable x) = unfold load_file in refl

pub load-holds :
    (p : Platform) (cfg : EngineConfig) (now : ℕ) (w : World) (t : StoredState)
    → w.file ≡ holds t
    → load p cfg now w ≡ (ok (migrate t), w)
unfolding load load_file
load-holds p cfg now w t h = ap (load_file p cfg now w) h

pub load-unreadable :
    (p : Platform) (cfg : EngineConfig) (now : ℕ) (w : World) (e : Failure)
    → w.file ≡ unreadable e
    → load p cfg now w ≡ (err e, w)
unfolding load load_file
load-unreadable p cfg now w e h = ap (load_file p cfg now w) h

settle-Advances :
    {A : Type 0} (w : World) (s : EngineState) (o : Outcome A)
    → IsSound (loaded_context s w) o.1
    → ((t : StoredState) → w.file ≡ holds t → migrate t ≡ s)
    → Advances w (settle w o).1
unfolding settle save migrate stored_form
settle-Advances w s (ok a, c) h same = record {
  sink = (h.progress.log.added, h.progress.log.sink);
  disk = λ t e. (
    stored_form c.state,
    refl,
    subst (λ x. Continues (EngineState.peers x) c.state.peers) (sym (same t e)) h.progress.peers,
    h.progress.server ∙ ap (λ (x : EngineState). x.server) (sym (same t e)),
    subst (λ x. EngineState.revision x ≤ c.state.revision) (sym (same t e)) h.progress.revision,
  );
}
settle-Advances w s (err e, c) h same = record {
  sink = (h.progress.log.added, h.progress.log.sink);
  disk = λ t k. (t, k, Continues-refl _, refl, omega arith);
}

-- A load keeps what is there, and hands over the state that the file holds.
load-Advances :
    (p : Platform) (cfg : EngineConfig) (now : ℕ) (w : World) → Advances w (load p cfg now w).1
load-Advances p cfg now w = record {
  sink = ([], load-sink p cfg now w ∙ sym (append-nil w.sink));
  disk = λ t e.
      let same = load-holds p cfg now w t e in
      (
        t,
        ap (λ (q : Result EngineState × World). q.1.file) same ∙ e,
        Continues-refl _,
        refl,
        omega arith,
      );
}

holds-injective : (t u : StoredState) → holds t ≡ holds u → t ≡ u
holds-injective t u h = cc

run_loaded-Advances :
    {A : Type 0} (p : Platform) (cfg : EngineConfig) (now : ℕ) (m : Context → Outcome A) (w : World)
    → (l : Result EngineState × World) → ((c : Context) → IsSound c (m c).1)
    → ValidFile w.file
    → load p cfg now w ≡ l
    → Advances w (run_loaded m l).1
unfolding run_loaded
run_loaded-Advances p cfg now m w (err e, w') sound v h =
    subst (λ (r : Result EngineState × World). Advances w r.1) h (load-Advances p cfg now w)
run_loaded-Advances p cfg now m w (ok s, w') sound v h =
    let (u, eu, same) = Loaded.on_disk (load-Loaded p cfg now w w' s v h) in
    Advances-trans
      (subst (λ (r : Result EngineState × World). Advances w r.1) h (load-Advances p cfg now w))
      (settle-Advances w' s (m (loaded_context s w')) (sound _)
        (λ t e. ap migrate (holds-injective t u (sym e ∙ eu)) ∙ same))

pub perform-Advances :
    (p : Platform) (cfg : EngineConfig) (now : ℕ) (call : Call) (w : World)
    → ValidFile w.file
    → Advances w (perform p cfg now call w).1
unfolding perform run_mutation update
perform-Advances p cfg now call w v = elim (Result-cases (mutation p cfg now call)) [
  | inl (m, e) ↦
      rw e (run_loaded-Advances p cfg now m w _ (mutation-IsSound p cfg now call m e) v refl)
  | inr (x, e) ↦ rw e (Advances-refl w w refl refl)
]

pub History-Advances :
    (p : Platform) (cfg : EngineConfig) (start w : World)
    → ValidFile start.file
    → History p cfg start w
    → Advances start w
History-Advances p cfg start _ v begin = Advances-refl start start refl refl
History-Advances p cfg start _ v (then_call {w} h now call) =
    Advances-trans (History-Advances p cfg start w v h)
      (perform-Advances p cfg now call w (History-ValidFile p cfg start w v h))

-- Over any sequence of calls that go through StateStore.update, a restore being none of them, from
-- a valid state on disk, no stored peer is lost, reordered, or changed in id, name, keys, address
-- or person, its status never goes back, new peers come after the old ones, the server settings
-- stay, the revision does not fall, and the audit sink only gets events appended.
pub History-Continues :
    (p : Platform) (cfg : EngineConfig) (start w : World) (t : StoredState)
    → start.file ≡ holds t
    → IsValid (migrate t)
    → History p cfg start w
    → (u : StoredState) × (added : List AuditEvent) × (w.file ≡ holds u)
      × (w.sink ≡ start.sink ++ added)
      × Continues (migrate t).peers (migrate u).peers
      × ((migrate u).server ≡ (migrate t).server)
      × ((migrate t).revision ≤ (migrate u).revision)
unfolding ValidFile
History-Continues p cfg start w t e v h =
    let valid : ValidFile (holds t) = v in
    let a = History-Advances p cfg start w (subst ValidFile (sym e) valid) h in
    let (added, sink) = a.sink in
    let (u, f, peers, server, revision) = a.disk t e in (u, added, f, sink, peers, server, revision)
