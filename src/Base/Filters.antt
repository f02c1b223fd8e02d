-- ===== src/Base/Filters.antt =====
-- Members of filtered lists.
use Prim.Native.Nat.{◌+◌}
use mathlib.Core.Path.{◌≡◌, refl}
use mathlib.Core.Bool.{Bool, true, not, ◌&&◌, ◌||◌}
use mathlib.Core.List.{List, [], ◌∷◌}
use native.Mathlib.Omega.{arith}
use kintunnel.Base.Lists.{any, keep, length}

module _ {A : Type 0} where
  pub any-keep : (q f : A → Bool) (xs : List A) → any f (keep q xs) ≡ any (λ x. q x && f x) xs
  any-keep q f [] = refl
  any-keep q f (x ∷ xs) = ground (arith, any-keep q f xs)

  -- A test that is weaker on every member.
  pub any_weaken :
      (f g : A → Bool) (xs : List A)
      → ((x : A) → f x ≡ true → g x ≡ true)
      → any f xs ≡ true
      → any g xs ≡ true
  any_weaken f g [] w h = h
  any_weaken f g (x ∷ xs) w h = ground (arith, w x, any_weaken f g xs w)

  pub length-keep-not :
      (q : A → Bool) (xs : List A)
      → length (keep q xs) + length (keep (λ x. not (q x)) xs) ≡ length xs
  length-keep-not q [] = refl
  length-keep-not q (x ∷ xs) = ground (arith, length-keep-not q xs)

  -- Every member is kept or left out.
  pub any-keep-not :
      (q f : A → Bool) (xs : List A)
      → any f xs ≡ (any f (keep (λ x. not (q x)) xs) || any f (keep q xs))
  any-keep-not q f [] = refl
  any-keep-not q f (x ∷ xs) = ground (arith, any-keep-not q f xs)

  pub no_length : (xs : List A) → length xs ≡ 0 → xs ≡ []
  no_length [] h = refl
  no_length (x ∷ xs) h = absurd (omega arith)
