-- ===== src/Json.antt =====
-- Parsed JSON, as the request handlers meet it.
use kintunnel.Base.{Bool, Option, none, some, List, [], ◌∷◌, if◌then◌else◌, Text, text_eq, ℤ}

-- `whole` is a number with no fraction, `fraction` any other.
mutual
  pub data Json : Type 0 where
    null : Json
    bool : Bool → Json
    whole : ℤ → Json
    fraction : Text → Json
    text : Text → Json
    array : Items → Json
    object : Fields → Json

  pub data Items : Type 0 where
    nil : Items
    cons : Json → Items → Items

  pub data Fields : Type 0 where
    end : Fields
    field : Text → Json → Fields → Fields

-- `Object.keys(body)`
unfoldable pub keys : Fields → List Text
keys end = []
keys (field k v rest) = k ∷ keys rest

-- `body.key`; `none` is undefined.
unfoldable pub get : Text → Fields → Option Json
get key end = none
get key (field k v rest) = if text_eq k key then some v else get key rest

-- `a ?? b`
abbrev pub or_else : Option Json → Option Json → Option Json
or_else none b = b
or_else (some null) b = b
or_else (some v) b = some v
