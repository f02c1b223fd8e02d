-- ===== src/Host.antt =====
-- The host under the engine: the commands it runs and the files it reads and writes. They are
-- parameters of the model (`execFile` and `fs` of Node.js), on a host state of any type.
pub mod Events
pub mod Lines
pub mod Acts
use kintunnel.Base.{ℕ, Bool, true, false, Option, List, Text}
use kintunnel.Base.Failure.{Failure, Result, error, validation}

-- The `code` of a failed `execFile`: an exit status, the name of a system error, or nothing when a
-- signal ended the command.
pub data ExitCode : Type 0 where
  status : ℕ → ExitCode
  named : Text → ExitCode
  unknown : ExitCode

pub record RunError : Type 0 where
  pub code : ExitCode
  pub stdout : Option Text
  pub stderr : Option Text
  pub message : Text

-- What a command wrote to its two outputs, or the error it ended with.
pub data Ran : Type 0 where
  succeeded : Text → Text → Ran
  failed : RunError → Ran

-- What `access` asks for, and its answer.
pub data Mode : Type 0 where
  readable writable : Mode

pub data Access : Type 0 where
  granted : Access
  denied : ExitCode → Text → Access

pub record Host (H : Type 0) : Type 0 where
  pub run : Text → List Text → H → Ran × H
  pub read_file : Text → H → Result Text
  pub write_file : Text → Text → H → Result Text × H
  -- `mkdir(TEMP_INI_DIR)` and the write of a file of a fresh name in it; returns its path
  pub write_temp : Text → H → Result Text × H
  -- `rm(path, { force: true })`
  pub remove_file : Text → H → Result Text × H
  pub path_exists : Text → H → Bool
  -- `access` with R_OK, or with R_OK | W_OK
  pub access : Text → Mode → H → Access
  -- `process.platform` and `process.env`
  pub platform : Text
  pub env : Text → Option Text

-- `(error as Error).message`
abbrev pub message_of : Failure → Text
message_of (error message) = message
message_of (validation message fields) = message

-- Whether a command ends without an error, whatever it writes.
abbrev pub has_succeeded : Ran → Bool
has_succeeded (succeeded out errors) = true
has_succeeded (failed e) = false
