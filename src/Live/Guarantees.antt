-- ===== src/Live/Guarantees.antt =====
-- What the live path guarantees on any host, in the form of a relation that each of its steps keeps.
use kintunnel.Base.{ℕ, ◌≡◌, refl, sym, ap, Bool, true, false, List, Text, if◌then◌else◌}
use mathlib.Core.Path.{subst}
use kintunnel.Base.Failure.{Result, err, ok}
use kintunnel.Types.{AuditAction, Metadata}
use kintunnel.Platform.{Platform}
use kintunnel.Host.{Host, Ran, succeeded, failed}
use kintunnel.Host.Events.{Live, emit_audit}
use kintunnel.Host.Acts.{
  Act, Attempt, Thrown, threw, gave, pure, throw, try, ◌>>=◌, exec_host, write_temp_ini,
  finally_remove, emit, caught, continued, ended, written_file, remove_temp,
}

-- A path that the host gives for a temporary file with the content.
abbrev pub Written : {H : Type 0} → Host H → Text → Text → Type 0
Written {H} h content path = (x : H) × ((h.write_temp content x).0 ≡ ok path)

-- A relation between what is before and after a step. Commands keep it if they are allowed, and
-- temporary files if they have one of the contents.
pub record Guarantee {H : Type 0} (h : Host H) (p : Platform) (Allowed : Text → List Text → Type 0)
    (Contents : Text → Type 0) : Type 1 where
  pub Kept : Live H → Live H → Type 0
  pub stays : (l : Live H) → Kept l l
  pub chained : (a b c : Live H) → Kept a b → Kept b c → Kept a c
  pub emitted :
      (now : ℕ) (action : AuditAction) (metadata : Metadata) (l : Live H)
      → Kept l (emit_audit p now action metadata l)
  pub ran :
      (cmd : Text) (args : List Text) (l : Live H)
      → Allowed cmd args
      → Kept l (record l { host = (h.run cmd args l.host).1 })
  pub wrote :
      (content : Text) (l : Live H)
      → Contents content
      → Kept l (record l { host = (h.write_temp content l.host).1 })
  pub removed :
      (path : Text) (l : Live H) → Kept l (record l { host = (h.remove_file path l.host).1 })

module _ {H : Type 0} (h : Host H) (p : Platform) {Allowed : Text → List Text → Type 0}
    {Contents : Text → Type 0} (g : Guarantee h p Allowed Contents) where
  -- A step that keeps the relation, wherever it starts and however it ends.
  pub record Keeps {A : Type 0} (m : Act H A) : Type 0 where
    pub kept : (l : Live H) → g.Kept l (m l).1

  pub Keeps-pure : {A : Type 0} (a : A) → Keeps (pure a)
  unfolding pure
  Keeps-pure a = record { kept = g.stays }

  pub Keeps-throw : {A : Type 0} (e : Thrown) → Keeps (throw {A = A} e)
  unfolding throw
  Keeps-throw e = record { kept = g.stays }

  continued-Kept :
      {A B : Type 0} (next : A → Act H B) (l : Live H) (m : Attempt A × Live H)
      → g.Kept l m.1
      → ((a : A) → Keeps (next a))
      → g.Kept l (continued next m).1
  continued-Kept next l (threw e, l') k more = k
  continued-Kept next l (gave a, l') k more = g.chained l l' (next a l').1 k ((more a).kept l')

  pub Keeps-then :
      {A B : Type 0} {m : Act H A} {next : A → Act H B}
      → Keeps m
      → ((a : A) → Keeps (next a))
      → Keeps (m >>= next)
  unfolding ◌>>=◌
  Keeps-then {m} {next} k more = record { kept = λ l. continued-Kept next l (m l) (k.kept l) more }

  caught-Kept :
      {A : Type 0} (handler : Thrown → Act H A) (l : Live H) (m : Attempt A × Live H)
      → g.Kept l m.1
      → ((e : Thrown) → Keeps (handler e))
      → g.Kept l (caught handler m).1
  caught-Kept handler l (threw e, l') k more = g.chained l l' (handler e l').1 k ((more e).kept l')
  caught-Kept handler l (gave a, l') k more = k

  pub Keeps-try :
      {A : Type 0} {m : Act H A} {handler : Thrown → Act H A}
      → Keeps m
      → ((e : Thrown) → Keeps (handler e))
      → Keeps (try m handler)
  unfolding try
  Keeps-try {m} {handler} k more = record {
    kept = λ l. caught-Kept handler l (m l) (k.kept l) more;
  }

  pub Keeps-when :
      {A : Type 0} (b : Bool) {m n : Act H A}
      → (b ≡ true → Keeps m)
      → Keeps n
      → Keeps (if b then m else n)
  Keeps-when true k j = k refl
  Keeps-when false k j = j

  pub Keeps-if :
      {A : Type 0} (b : Bool) {m n : Act H A} → Keeps m → Keeps n → Keeps (if b then m else n)
  Keeps-if b k j = Keeps-when b (λ _. k) j

  pub Keeps-emit :
      (now : ℕ) (action : AuditAction) (metadata : Metadata) → Keeps (emit p now action metadata)
  unfolding emit
  Keeps-emit now action metadata = record { kept = g.emitted now action metadata }

  ended-host :
      (cmd : Text) (args : List Text) (l : Live H) (m : Ran × H)
      → (ended h cmd args l m).1 ≡ record l { host = m.1 }
  ended-host cmd args l (succeeded out errors, x) = refl
  ended-host cmd args l (failed e, x) = refl

  written_file-host :
      (l : Live H) (m : Result Text × H) → (written_file h l m).1 ≡ record l { host = m.1 }
  written_file-host l (err e, x) = refl
  written_file-host l (ok path, x) = refl

  pub Keeps-exec_host :
      (cmd : Text) (args : List Text) → Allowed cmd args → Keeps (exec_host h cmd args)
  unfolding exec_host
  Keeps-exec_host cmd args a = record {
    kept = λ l.
        subst (g.Kept l) (sym (ended-host cmd args l (h.run cmd args l.host))) (g.ran cmd args l a);
  }

  with_file-Kept :
      {B : Type 0} (content : Text) (next : Text → Act H B) (l : Live H) (m : Result Text × H)
      → h.write_temp content l.host ≡ m
      → g.Kept l (record l { host = m.1 })
      → ((path : Text) → Written h content path → Keeps (next path))
      → g.Kept l (continued next (written_file h l m)).1
  with_file-Kept content next l (err e, x) same k more = k
  with_file-Kept content next l (ok path, x) same k more =
      let file : Written h content path = (l.host, ap (λ q. q.0) same) in
      g.chained l (record l { host = x }) _ k ((more path file).kept (record l { host = x }))

  -- What follows the write has a path that the host gave for the content.
  pub Keeps-with_file :
      {B : Type 0} (content : Text) {next : Text → Act H B}
      → Contents content
      → ((path : Text) → Written h content path → Keeps (next path))
      → Keeps (write_temp_ini h content >>= next)
  unfolding write_temp_ini ◌>>=◌
  Keeps-with_file content {next} c more = record {
    kept = λ l.
        with_file-Kept content next l (h.write_temp content l.host) refl (g.wrote content l c) more;
  }

  Keeps-remove_temp : (path : Text) → Keeps (remove_temp h path)
  unfolding remove_temp
  Keeps-remove_temp path = record {
    kept = λ l.
        subst (g.Kept l) (sym (written_file-host l (h.remove_file path l.host))) (g.removed path l);
  }

  pub Keeps-finally_remove :
      {A : Type 0} (path : Text) {m : Act H A} → Keeps m → Keeps (finally_remove h path m)
  unfolding finally_remove ◌>>=◌
  Keeps-finally_remove path {m} k = record {
    kept = λ l.
        let (r, l') = m l in
        g.chained l l' _ (k.kept l) (
          continued-Kept (λ _ k'. (r, k')) l' (remove_temp h path l')
            ((Keeps-remove_temp path).kept l') λ _. record { kept = g.stays });
  }
