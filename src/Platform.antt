-- ===== src/Platform.antt =====
-- What the engine takes from Node.js and the host: random ids, the clock's text forms, hashing,
-- number formatting and the `wg` key commands. They are parameters of the model.
-- Instants are milliseconds from the earliest date that JavaScript represents.
use kintunnel.Base.{ℕ, Option, List, Text}
use kintunnel.Base.Failure.{Result}
use kintunnel.Types.{KeyPair}

pub record Platform : Type 0 where
  -- `randomUUID()`, the n-th call
  pub uuid : ℕ → Text
  -- `Date.parse`; `none` is NaN
  pub parse_date : Text → Option ℕ
  -- `toISOString`
  pub iso : ℕ → Text
  -- `createHash("sha256").update(seed).digest("base64")`
  pub sha256_base64 : Text → Text
  -- `wg genkey` and `wg pubkey`, the n-th draw
  pub wg_key_pair : ℕ → Result KeyPair
  -- `Number((ms / 86400000).toFixed(2))`, in decimal notation
  pub days_fixed : ℕ → Text
  -- `JSON.stringify` of an array of strings and nulls
  pub json_labels : List (Option Text) → Text
  -- `JSON.stringify` of a string
  pub json_text : Text → Text
