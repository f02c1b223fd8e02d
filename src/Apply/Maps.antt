-- ===== src/Apply/Maps.antt =====
-- The parts of JavaScript's `Map` and `sort` that the plan is made with.
use kintunnel.Base.{
  Bool, true, false, ◌&&◌, ◌||◌, Option, none, some, List, [], ◌∷◌, any, if◌then◌else◌, ltb, ◌==◌,
  Text, text_eq,
}

-- The entries of a `Map`, in the order in which their keys were first set.
abbrev pub Entries {ℓ} : Type ℓ → Type ℓ
Entries A = List (Text × A)

module _ {ℓ} {A : Type ℓ} where
  -- `map.set(key, value)`: an entry that is there keeps its place.
  unfoldable pub set_entry : Text → A → Entries A → Entries A
  set_entry k v [] = (k, v) ∷ []
  set_entry k v ((j, w) ∷ m) =
      let rest = set_entry k v m in if text_eq j k then (j, v) ∷ m else (j, w) ∷ rest

  -- `new Map(entries)`
  unfoldable pub from_entries : Entries A → Entries A → Entries A
  unfolding set_entry
  from_entries m [] = m
  from_entries m ((k, v) ∷ rest) = from_entries (set_entry k v m) rest

  unfoldable pub get_entry : Text → Entries A → Option A
  get_entry k [] = none
  get_entry k ((j, v) ∷ m) = if text_eq j k then some v else get_entry k m

  abbrev pub has_key : Text → Entries A → Bool
  has_key k m = any (λ e. text_eq e.0 k) m

-- The order of texts by their code units.
unfoldable pub text_leb : Text → Text → Bool
text_leb [] t = true
text_leb (a ∷ s) [] = false
text_leb (a ∷ s) (b ∷ t) = ltb a b || (a == b && text_leb s t)

insert : Text → List Text → List Text
insert s [] = s ∷ []
insert s (t ∷ ts) = let rest = insert s ts in if text_leb s t then s ∷ t ∷ ts else t ∷ rest

-- `[...texts].sort()`
unfoldable pub sort : List Text → List Text
unfolding insert text_leb
sort [] = []
sort (s ∷ ts) = insert s (sort ts)
