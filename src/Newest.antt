-- ===== src/Newest.antt =====
-- Lists in descending order of a number, as `sort((a, b) => key(b) - key(a))` leaves them: members with
-- equal numbers keep their order.
use kintunnel.Base.{
  ℕ, zero, suc, ◌+◌, ◌≤◌, ◌<◌, ◌≡◌, refl, sym, ◌∙◌, Bool, ◌||◌, List, [], ◌∷◌, take, drop, any,
  keep, ltb, false, leb, length, All, arith, Bool-cases, inl, inr, if◌then◌else◌,
}

module _ {A : Type 0} (key : A → ℕ) where
  unfoldable pub insert_newest : A → List A → List A
  insert_newest s [] = s ∷ []
  insert_newest s (t ∷ ts) =
      let rest = insert_newest s ts in if leb (key t) (key s) then s ∷ t ∷ ts else t ∷ rest

  unfoldable pub newest_first : List A → List A
  unfolding insert_newest
  newest_first [] = []
  newest_first (s ∷ ss) = insert_newest s (newest_first ss)

  -- No member of a list is newer than one before it.
  abbrev pub Sorted : List A → Type 0
  Sorted [] = Unit
  Sorted (s ∷ ss) = All (λ t. key t ≤ key s) ss × Sorted ss

  older :
      (s t : A) (ss : List A)
      → key t ≤ key s
      → All (λ u. key u ≤ key t) ss
      → All (λ u. key u ≤ key s) ss
  older s t [] h k = tt
  older s t (u ∷ ss) h k = (omega (arith, k.0, h), older s t ss h k.1)

  All-insert_newest :
      (P : A → Type 0) (s : A) (ss : List A) → P s → All P ss → All P (insert_newest s ss)
  unfolding insert_newest
  All-insert_newest P s [] h k = (h, tt)
  All-insert_newest P s (t ∷ ts) h k = elim (Bool-cases (leb (key t) (key s))) [
    | inl before ↦ rw before (h, k)
    | inr after ↦ rw after (k.0, All-insert_newest P s ts h k.1)
  ]

  Sorted-insert_newest : (s : A) (ss : List A) → Sorted ss → Sorted (insert_newest s ss)
  unfolding insert_newest
  Sorted-insert_newest s [] h = (tt, tt)
  Sorted-insert_newest s (t ∷ ts) h = elim (Bool-cases (leb (key t) (key s))) [
    | inl before ↦
        let le : key t ≤ key s = ground (arith, before) in rw before ((le, older s t ts le h.0), h)
    | inr after ↦
        let le : key s ≤ key t = ground (arith, after) in
        rw after (All-insert_newest (λ u. key u ≤ key t) s ts le h.0, Sorted-insert_newest s ts h.1)
  ]

  Sorted-newest_first : (ss : List A) → Sorted (newest_first ss)
  unfolding newest_first
  Sorted-newest_first [] = tt
  Sorted-newest_first (s ∷ ss) = Sorted-insert_newest s (newest_first ss) (Sorted-newest_first ss)

  length-insert_newest : (s : A) (ss : List A) → length (insert_newest s ss) ≡ length ss + 1
  unfolding insert_newest
  length-insert_newest s [] = omega arith
  length-insert_newest s (t ∷ ts) = ground (arith, length-insert_newest s ts)

  length-newest_first : (ss : List A) → length (newest_first ss) ≡ length ss
  unfolding newest_first
  length-newest_first [] = refl
  length-newest_first (s ∷ ss) =
      omega (arith, length-insert_newest s (newest_first ss), length-newest_first ss)

  any-insert_newest :
      (f : A → Bool) (s : A) (ss : List A) → any f (insert_newest s ss) ≡ (f s || any f ss)
  unfolding insert_newest
  any-insert_newest f s [] = refl
  any-insert_newest f s (t ∷ ts) = ground (arith, any-insert_newest f s ts)

  pub any-newest_first : (f : A → Bool) (ss : List A) → any f (newest_first ss) ≡ any f ss
  unfolding newest_first
  any-newest_first f [] = refl
  any-newest_first f (s ∷ ss) =
      ground (arith, any-insert_newest f s (newest_first ss), any-newest_first f ss)

  length-keep-insert_newest :
      (q : A → Bool) (s : A) (ss : List A)
      → length (keep q (insert_newest s ss)) ≡ length (keep q (s ∷ ss))
  unfolding insert_newest
  length-keep-insert_newest q s [] = refl
  length-keep-insert_newest q s (t ∷ ts) = ground (arith, length-keep-insert_newest q s ts)

  length-keep-newest_first :
      (q : A → Bool) (ss : List A) → length (keep q (newest_first ss)) ≡ length (keep q ss)
  unfolding newest_first
  length-keep-newest_first q [] = refl
  length-keep-newest_first q (s ∷ ss) =
      ground (arith, length-keep-insert_newest q s (newest_first ss), length-keep-newest_first q ss)

  length-keep-take-drop :
      (q : A → Bool) (n : ℕ) (ss : List A)
      → length (keep q (take n ss)) + length (keep q (drop n ss)) ≡ length (keep q ss)
  length-keep-take-drop q zero ss = omega arith
  length-keep-take-drop q (suc n) [] = omega arith
  length-keep-take-drop q (suc n) (s ∷ ss) = ground (arith, length-keep-take-drop q n ss)

  -- As many members pass a test in a prefix of the ordered list and the rest as in the list.
  pub length-keep_split :
      (q : A → Bool) (n : ℕ) (xs : List A)
      → length (keep q (take n (newest_first xs))) + length (keep q (drop n (newest_first xs)))
        ≡ length (keep q xs)
  length-keep_split q n xs =
      length-keep-take-drop q n (newest_first xs) ∙ length-keep-newest_first q xs

  any-take-drop :
      (f : A → Bool) (n : ℕ) (ss : List A) → any f ss ≡ (any f (take n ss) || any f (drop n ss))
  any-take-drop f zero ss = refl
  any-take-drop f (suc n) [] = refl
  any-take-drop f (suc n) (s ∷ ss) = ground (arith, any-take-drop f n ss)

  length-take-le : (n : ℕ) (ss : List A) → length (take n ss) ≤ n
  length-take-le zero ss = omega arith
  length-take-le (suc n) [] = omega arith
  length-take-le (suc n) (s ∷ ss) = omega (arith, length-take-le n ss)

  length-take-drop : (n : ℕ) (ss : List A) → length (take n ss) + length (drop n ss) ≡ length ss
  length-take-drop zero ss = omega arith
  length-take-drop (suc n) [] = omega arith
  length-take-drop (suc n) (s ∷ ss) = omega (arith, length-take-drop n ss)

  -- Nothing is dropped while there is room.
  drop_none : (n : ℕ) (ss : List A) → length (take n ss) < n → drop n ss ≡ []
  drop_none zero ss h = absurd (omega arith)
  drop_none (suc n) [] h = refl
  drop_none (suc n) (s ∷ ss) h = drop_none n ss (omega arith)

  All-drop : (P : A → Type 0) (n : ℕ) (ss : List A) → All P ss → All P (drop n ss)
  All-drop P zero ss h = h
  All-drop P (suc n) [] h = tt
  All-drop P (suc n) (s ∷ ss) h = All-drop P n ss h.1

  newer :
      (n : ℕ) (ss : List A)
      → Sorted ss
      → All (λ k. All (λ d. key d ≤ key k) (drop n ss)) (take n ss)
  newer zero ss h = tt
  newer (suc n) [] h = tt
  newer (suc n) (s ∷ ss) h = (All-drop (λ d. key d ≤ key s) n ss h.0, newer n ss h.1)

  All-take : (P : A → Type 0) (n : ℕ) (ss : List A) → All P ss → All P (take n ss)
  All-take P zero ss h = tt
  All-take P (suc n) [] h = tt
  All-take P (suc n) (s ∷ ss) h = (h.0, All-take P n ss h.1)

  Sorted-take : (n : ℕ) (ss : List A) → Sorted ss → Sorted (take n ss)
  Sorted-take zero ss h = tt
  Sorted-take (suc n) [] h = tt
  Sorted-take (suc n) (s ∷ ss) h = (All-take (λ t. key t ≤ key s) n ss h.0, Sorted-take n ss h.1)

  -- A prefix of the ordered list is at most as long as asked, has with the rest every member, is all of it
  -- while there is room, and nothing in the rest is newer.
  pub newest_split :
      (n : ℕ) (xs : List A)
      → let k = take n (newest_first xs) in
        let d = drop n (newest_first xs) in
        (length k ≤ n)
        × (length k + length d ≡ length xs)
        × ((f : A → Bool) → any f xs ≡ (any f k || any f d))
        × (length k < n → d ≡ [])
        × All (λ s. All (λ t. key t ≤ key s) d) k
  newest_split n xs =
      let sorted : List A = newest_first xs in
      (
        length-take-le n sorted,
        length-take-drop n sorted ∙ length-newest_first xs,
        (λ f. sym (any-newest_first f xs) ∙ any-take-drop f n sorted),
        drop_none n sorted,
        newer n sorted (Sorted-newest_first xs),
      )

  pub newest-Sorted : (n : ℕ) (xs : List A) → Sorted (take n (newest_first xs))
  newest-Sorted n xs = Sorted-take n (newest_first xs) (Sorted-newest_first xs)

  none_newer :
      (s : A) (ds : List A)
      → All (λ t. key t ≤ key s) ds
      → any (λ t. ltb (key s) (key t)) ds ≡ false
  none_newer s [] h = refl
  none_newer s (d ∷ ds) h = ground (arith, h.0, none_newer s ds h.1)

  -- No member of the one list is older than one of the other.
  pub newest_before :
      (ks ds : List A)
      → All (λ s. All (λ t. key t ≤ key s) ds) ks
      → any (λ s. any (λ t. ltb (key s) (key t)) ds) ks ≡ false
  newest_before [] ds h = refl
  newest_before (k ∷ ks) ds h = ground (arith, none_newer k ds h.0, newest_before ks ds h.1)
