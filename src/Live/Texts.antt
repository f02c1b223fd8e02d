-- ===== src/Live/Texts.antt =====
-- packages/engine/src/apply.ts: tests on texts, and the texts of JSON objects.
use kintunnel.Base.{
  ℕ, ◌+◌, Bool, true, false, ◌&&◌, ◌||◌, Option, none, some, [], ◌∷◌, ◌++◌, map, any, leb, ◌==◌,
  if◌then◌else◌, Text, lit, text_eq, decimal,
}
use kintunnel.Platform.{Platform}

starts_with : Text → Text → Bool
starts_with [] text = true
starts_with (c ∷ prefix) [] = false
starts_with (c ∷ prefix) (d ∷ text) = c == d && starts_with prefix text

-- `text.includes(part)`
unfoldable pub contains : Text → Text → Bool
unfolding starts_with
contains part [] = starts_with part []
contains part (c ∷ text) = starts_with part (c ∷ text) || contains part text

-- `toLowerCase` of the letters A to Z; no other character becomes a letter of the words below.
abbrev lower : ℕ → ℕ
lower c = if leb 65 c && leb c 90 then c + 32 else c

unfoldable pub enables : Option Text → Bool
enables none = false
enables (some raw) =
    any (text_eq (map lower raw)) (lit "1" ∷ lit "true" ∷ lit "yes" ∷ lit "on" ∷ [])

abbrev number_json : Option ℕ → Text
number_json none = lit "null"
number_json (some n) = decimal n

-- `JSON.stringify({ listenPort, [name]: key })`
unfoldable pub port_key_json : Platform → Text → Option ℕ → Text → Text
port_key_json p name port key =
    lit "{\"listenPort\":"
    ++ (number_json port ++ (lit ",\"" ++ (name ++ (lit "\":" ++ (p.json_text key ++ lit "}")))))
