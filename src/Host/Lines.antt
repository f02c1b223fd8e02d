-- ===== src/Host/Lines.antt =====
-- Text files and the output of commands as lines.
use kintunnel.Base.{
  ℕ, zero, suc, not, Option, none, some, List, [], ◌∷◌, keep, if◌then◌else◌, ◌==◌, split, Text,
}
use kintunnel.Ip.{is_empty}

drop_return : Text → Text
drop_return [] = []
drop_return (c ∷ []) = if c == 13 then [] else c ∷ []
drop_return (c ∷ d ∷ s) = c ∷ drop_return (d ∷ s)

drop_returns : List Text → List Text
unfolding drop_return
drop_returns [] = []
drop_returns (line ∷ []) = line ∷ []
drop_returns (line ∷ next ∷ lines) = drop_return line ∷ drop_returns (next ∷ lines)

-- `text.split(/\r?\n/)`: a carriage return that no newline follows stays.
unfoldable pub split_lines : Text → List Text
unfolding drop_returns
split_lines text = drop_returns (split 10 text)

-- `text.split(/\r?\n/).filter(Boolean)`
unfoldable pub filled_lines : Text → List Text
unfolding split_lines
filled_lines text = keep (λ line. not (is_empty line)) (split_lines text)

-- `columns[i]`
abbrev pub column : ℕ → List Text → Option Text
column i [] = none
column zero (c ∷ cs) = some c
column (suc i) (c ∷ cs) = column i cs
