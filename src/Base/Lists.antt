-- ===== src/Base/Lists.antt =====
-- Lists measured by native numbers, and the array methods of the source that take a Boolean test.
use Prim.Native.Nat.{ℕ, zero, suc, ◌+◌, ◌-◌, ◌≤◌}
use mathlib.Core.Path.{◌≡◌, refl, ap, ◌∙◌}
use mathlib.Core.Bool.{Bool, true, false, ◌&&◌, ◌||◌}
use mathlib.Core.List.{List, [], ◌∷◌, ◌++◌}
use mathlib.Core.Option.{Option, none, some}
use native.Mathlib.Omega.{arith}
use kintunnel.Base.Tests.{if◌then◌else◌}

add-suc-left : (n m : ℕ) → suc n + m ≡ suc (n + m)
add-suc-left n m = omega arith

module _ {ℓ} {A : Type ℓ} where
  abbrev pub length : List A → ℕ
  length [] = 0
  length (x ∷ xs) = suc (length xs)

  abbrev pub drop : ℕ → List A → List A
  drop zero xs = xs
  drop (suc n) [] = []
  drop (suc n) (x ∷ xs) = drop n xs

  abbrev pub take : ℕ → List A → List A
  take zero xs = []
  take (suc n) [] = []
  take (suc n) (x ∷ xs) = x ∷ take n xs

  pub length-append : (xs ys : List A) → length (xs ++ ys) ≡ length xs + length ys
  length-append [] ys = omega arith
  length-append (x ∷ xs) ys = omega (arith, length-append xs ys)

  pub length-drop : (n : ℕ) (xs : List A) → length (drop n xs) ≡ length xs - n
  length-drop zero xs = omega arith
  length-drop (suc n) [] = omega arith
  length-drop (suc n) (x ∷ xs) = omega (arith, length-drop n xs)

  -- `slice(-n)`: the last n entries.
  abbrev pub last_n : ℕ → List A → List A
  last_n n xs = drop (length xs - n) xs

  pub length-last_n : (n : ℕ) (xs : List A) → length (last_n n xs) ≤ n
  length-last_n n xs = omega (arith, length-drop (length xs - n) xs)

  drop-append : (n : ℕ) (xs ys : List A) → n ≤ length xs → drop n xs ++ ys ≡ drop n (xs ++ ys)
  drop-append zero xs ys h = refl
  drop-append (suc n) [] ys h = absurd (omega arith)
  drop-append (suc n) (x ∷ xs) ys h = drop-append n xs ys (omega arith)

  drop-drop : (m n : ℕ) (xs : List A) → drop m (drop n xs) ≡ drop (n + m) xs
  drop-drop m zero xs = ap (λ (k : ℕ). drop k xs) (omega arith)
  drop-drop zero (suc n) [] = rw (add-suc-left n 0)
  drop-drop (suc m) (suc n) [] = rw (add-suc-left n (suc m))
  drop-drop m (suc n) (x ∷ xs) = rw (add-suc-left n m) (drop-drop m n xs)

  -- Cutting to the last entries before more are added changes nothing.
  pub last_n-append : (k : ℕ) (xs ys : List A) → last_n k (last_n k xs ++ ys) ≡ last_n k (xs ++ ys)
  last_n-append k xs ys =
      let n : ℕ = length xs - k in
      ap (last_n k) (drop-append n xs ys (omega arith))
      ∙ drop-drop (length (drop n (xs ++ ys)) - k) n (xs ++ ys)
      ∙ ap (λ (m : ℕ). drop m (xs ++ ys))
          (omega (arith, length-drop n (xs ++ ys), length-append xs ys))

  pub last_n_all : (k : ℕ) (xs : List A) → length xs ≤ k → last_n k xs ≡ xs
  last_n_all k xs h = let e : length xs - k ≡ 0 = omega arith in ap (λ (m : ℕ). drop m xs) e

  -- `some`, `every`, `find`, `filter`.
  abbrev pub any : (A → Bool) → List A → Bool
  any p [] = false
  any p (x ∷ xs) = p x || any p xs

  abbrev pub all : (A → Bool) → List A → Bool
  all p [] = true
  all p (x ∷ xs) = p x && all p xs

  abbrev pub find : (A → Bool) → List A → Option A
  find p [] = none
  find p (x ∷ xs) = if p x then some x else find p xs

  abbrev pub keep : (A → Bool) → List A → List A
  keep p [] = []
  keep p (x ∷ xs) = let rest = keep p xs in if p x then x ∷ rest else rest

  -- The first entry that passes the test is changed in place.
  abbrev pub change_first : (A → Bool) → (A → A) → List A → List A
  change_first p f [] = []
  change_first p f (x ∷ xs) = let rest = change_first p f xs in if p x then f x ∷ xs else x ∷ rest

module _ {ℓ κ} {A : Type ℓ} (P : A → Type κ) where
  abbrev pub All : List A → Type κ
  All [] = Unit
  All (x ∷ xs) = P x × All xs

  pub All-append : (xs ys : List A) → All xs → All ys → All (xs ++ ys)
  All-append [] ys hx hy = hy
  All-append (x ∷ xs) ys hx hy = (hx.0, All-append xs ys hx.1 hy)

module _ {ℓ} {A : Type ℓ} (t : A → Bool) where
  -- What is found after the first match is changed.
  pub find-change_first :
      (f : A → A) (xs : List A) (x : A)
      → find t xs ≡ some x
      → t (f x) ≡ true
      → find t (change_first t f xs) ≡ some (f x)
  find-change_first f [] x h k = cc
  find-change_first f (y ∷ xs) x h k = ground (arith, find-change_first f xs x)

  pub find-change_first-other :
      (u : A → Bool) (f : A → A) (xs : List A)
      → ((x : A) → t x ≡ true → (u x ≡ false) × (u (f x) ≡ false))
      → find u (change_first t f xs) ≡ find u xs
  find-change_first-other u f [] h = refl
  find-change_first-other u f (y ∷ xs) h = ground (arith, find-change_first-other u f xs h, h y)

  -- What no entry passes, the entry that is found does not pass.
  pub find-any :
      (u : A → Bool) (xs : List A) (x : A) → find t xs ≡ some x → any u xs ≡ false → u x ≡ false
  find-any u [] x h k = cc
  find-any u (y ∷ xs) x h k = ground (arith, find-any u xs x)

  pub find-holds : (xs : List A) (x : A) → find t xs ≡ some x → t x ≡ true
  find-holds [] x h = cc
  find-holds (y ∷ xs) x h = ground (arith, find-holds xs x)
