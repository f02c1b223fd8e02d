-- ===== src/Host/Acts.antt =====
-- Steps that drive the host and may throw: what was done before a throw stays done.
use kintunnel.Base.{ℕ, List, [], ◌∷◌, ◌++◌, Text, lit, join, decimal, trim, Option, none, some}
use kintunnel.Base.Failure.{Result, err, ok}
use kintunnel.Types.{AuditAction, Metadata}
use kintunnel.Platform.{Platform}
use kintunnel.Apply.{ApplyError}
use kintunnel.Host.{Host, Ran, succeeded, failed, RunError, ExitCode, message_of}
use kintunnel.Host.Events.{Live, emit_audit}

-- `throw new ApplyError(…)`, or another error with its message.
pub data Thrown : Type 0 where
  apply_error : ApplyError → Thrown
  other : Text → Thrown

pub data Attempt (A : Type 0) : Type 0 where
  threw : Thrown → Attempt A
  gave : A → Attempt A

abbrev pub Act : Type 0 → Type 0 → Type 0
Act H A = Live H → Attempt A × Live H

-- `(error as Error).message`
abbrev pub thrown_message : Thrown → Text
thrown_message (apply_error e) = e.message
thrown_message (other message) = message

code_text : ExitCode → Text
code_text (ExitCode.status n) = decimal n
code_text (ExitCode.named name) = name
code_text ExitCode.unknown = lit "?"

or_message : Text → Text → Text
or_message [] message = message
or_message (c ∷ s) message = c ∷ s

abbrev error_text : Option Text → Text
error_text none = []
error_text (some s) = trim s

pub exec_message : Text → List Text → RunError → Text
unfolding code_text or_message
exec_message cmd args e =
    cmd
    ++ (lit " "
        ++ (join (lit " ") args
            ++ (lit " failed (code="
                ++ (code_text e.code
                    ++ (lit "): " ++ or_message (error_text e.stderr) e.message)))))

module _ {H : Type 0} where
  module _ {A : Type 0} where
    unfoldable pub pure : A → Act H A
    pure a l = (gave a, l)

    unfoldable pub throw : Thrown → Act H A
    throw e l = (threw e, l)

    abbrev pub caught : (Thrown → Act H A) → Attempt A × Live H → Attempt A × Live H
    caught handler (threw e, l) = handler e l
    caught handler (gave a, l) = (gave a, l)

    -- `try { … } catch (error) { … }`
    unfoldable pub try : Act H A → (Thrown → Act H A) → Act H A
    try m handler l = caught handler (m l)

  module _ {A B : Type 0} where
    infixl 5 ◌>>=◌ ◌>>◌
    abbrev pub continued : (A → Act H B) → Attempt A × Live H → Attempt B × Live H
    continued next (threw e, l) = (threw e, l)
    continued next (gave a, l) = next a l

    unfoldable pub ◌>>=◌ : Act H A → (A → Act H B) → Act H B
    ◌>>=◌ m next l = continued next (m l)

    abbrev pub ◌>>◌ : Act H A → Act H B → Act H B
    m >> next = m >>= λ _. next

module _ {H : Type 0} (h : Host H) where
  abbrev pub ended : Text → List Text → Live H → Ran × H → Attempt Text × Live H
  ended cmd args l (succeeded out errors, x) = (gave out, record l { host = x })
  ended cmd args l (failed e, x) = (threw (other (exec_message cmd args e)), record l { host = x })

  -- `execHost`; what the command writes to its second output is not read.
  unfoldable pub exec_host : Text → List Text → Act H Text
  unfolding exec_message
  exec_host cmd args l = ended cmd args l (h.run cmd args l.host)

  abbrev pub written_file : Live H → Result Text × H → Attempt Text × Live H
  written_file l (err e, x) = (threw (other (message_of e)), record l { host = x })
  written_file l (ok path, x) = (gave path, record l { host = x })

  unfoldable pub write_temp_ini : Text → Act H Text
  write_temp_ini content l = written_file l (h.write_temp content l.host)

  unfoldable pub remove_temp : Text → Act H Text
  remove_temp path l = written_file l (h.remove_file path l.host)

  -- `try { … } finally { await rm(path, { force: true }) }`
  unfoldable pub finally_remove : {A : Type 0} → Text → Act H A → Act H A
  unfolding ◌>>=◌
  finally_remove path m l = let (r, k) = m l in (remove_temp path >>= λ _ k'. (r, k')) k

module _ {H : Type 0} (p : Platform) (now : ℕ) where
  unfoldable pub emit : AuditAction → Metadata → Act H Unit
  emit action metadata l = (gave tt, emit_audit p now action metadata l)
