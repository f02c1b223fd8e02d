-- ===== src/Peers/Patterns.antt =====
-- The regular expressions of packages/engine/src/peers.ts, as tests on the units of a text.
use kintunnel.Base.{
  ℕ, ◌+◌, Bool, false, ◌&&◌, ◌||◌, List, [], ◌∷◌, leb, ◌==◌, length, all, Text, split, is_digit,
}

abbrev pub is_letter : ℕ → Bool
is_letter c = leb b'A' c && leb c b'Z' || leb b'a' c && leb c b'z'

abbrev pub is_alnum : ℕ → Bool
is_alnum c = is_letter c || is_digit c

abbrev pub is_hex : ℕ → Bool
is_hex c = is_digit c || leb b'A' c && leb c b'F' || leb b'a' c && leb c b'f'

-- Inner units up to the last, which is an edge unit.
abbrev closed : (ℕ → Bool) → (ℕ → Bool) → ℕ → Text → Bool
closed edge inner d [] = edge d
closed edge inner d (e ∷ s) = inner d && closed edge inner e s

-- `X(?:Y*X)?` to the end: an edge unit first and last, inner units between.
abbrev edged : (ℕ → Bool) → (ℕ → Bool) → Text → Bool
edged edge inner [] = false
edged edge inner (c ∷ []) = edge c
edged edge inner (c ∷ d ∷ s) = edge c && closed edge inner d s

-- `[A-Za-z0-9._ -]`
abbrev is_label_unit : ℕ → Bool
is_label_unit c = is_alnum c || c == b'.' || c == b'_' || c == b' ' || c == b'-'

abbrev label_of : ℕ → Text → Bool
label_of longest s = leb (length s) longest && edged is_alnum is_label_unit s

-- `/^(?=.{1,120}$)[A-Za-z0-9](?:[A-Za-z0-9._ -]*[A-Za-z0-9])?$/`
unfoldable pub name_pattern : Text → Bool
name_pattern = label_of 120

-- the same with `{1,40}`
unfoldable pub device_label_pattern : Text → Bool
device_label_pattern = label_of 40

-- `[A-Za-z0-9+/]`
abbrev is_base64 : ℕ → Bool
is_base64 c = is_alnum c || c == b'+' || c == b'/'

abbrev key_units : ℕ → Text → Bool
key_units n [] = false
key_units n (c ∷ []) = n == 43 && c == b'='
key_units n (c ∷ d ∷ s) = is_base64 c && key_units (n + 1) (d ∷ s)

-- `/^[A-Za-z0-9+/]{43}=$/`
unfoldable pub wireguard_key_pattern : Text → Bool
wireguard_key_pattern = key_units 0

-- `[A-Za-z0-9](?:[A-Za-z0-9-]{0,61}[A-Za-z0-9])?`
abbrev domain_label : Text → Bool
domain_label s = leb (length s) 63 && edged is_alnum (λ c. is_alnum c || c == b'-') s

-- `/^(?=.{1,253}$)(label\.)*label$/`; no label holds a dot, so these are the parts between dots.
unfoldable pub domain_pattern : Text → Bool
domain_pattern s = leb 1 (length s) && leb (length s) 253 && all domain_label (split b'.' s)

abbrev hex_group : ℕ → Text → Bool
hex_group n s = (length s == n) && all is_hex s

abbrev uuid_groups : List Text → Bool
uuid_groups (a ∷ b ∷ c ∷ d ∷ e ∷ []) =
    hex_group 8 a && hex_group 4 b && hex_group 4 c && hex_group 4 d && hex_group 12 e
uuid_groups _ = false

-- `/^[0-9A-Fa-f]{8}-…{4}-…{4}-…{4}-…{12}$/`; no group holds a hyphen.
unfoldable pub uuid_pattern : Text → Bool
uuid_pattern s = uuid_groups (split b'-' s)
