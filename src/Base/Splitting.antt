-- ===== src/Base/Splitting.antt =====
-- Laws of `split` and `join`.
use kintunnel.Base.Tests.{◌==◌}
use kintunnel.Base.Lists.{all, All}
use kintunnel.Base.Units.{Text}
use kintunnel.Base.Strings.{split, join, is_digit, all-append}
use mathlib.Core.Path.{◌≡◌, refl, ap, ◌∙◌}
use mathlib.Core.Bool.{true, false, not}
use mathlib.Core.List.{List, [], ◌∷◌, ◌++◌}
use native.Mathlib.Omega.{arith}
use Prim.Native.Nat.{ℕ}

-- A text in which the separator does not occur.
abbrev pub Lacks : ℕ → Text → Type 0
Lacks c s = all (λ x. not (x == c)) s ≡ true

pub split_whole : (c : ℕ) (s : Text) → Lacks c s → split c s ≡ s ∷ []
unfolding split
split_whole c [] h = refl
split_whole c (x ∷ s) h = ground (arith, split_whole c s)

pub split_first : (c : ℕ) (s t : Text) → Lacks c s → split c (s ++ c ∷ t) ≡ s ∷ split c t
unfolding split
split_first c [] t h = ground arith
split_first c (x ∷ s) t h = ground (arith, split_first c s t)

-- What was joined at a separator that no part holds is split into the parts again.
pub split-join :
    (c : ℕ) (s : Text) (ss : List Text)
    → Lacks c s
    → All (Lacks c) ss
    → split c (join (c ∷ []) (s ∷ ss)) ≡ s ∷ ss
unfolding join
split-join c s [] h hs = split_whole c s h
split-join c s (t ∷ ss) h hs =
    split_first c s (join (c ∷ []) (t ∷ ss)) h ∙ ap (λ r. s ∷ r) (split-join c t ss hs.0 hs.1)

pub digits-Lacks : (c : ℕ) (s : Text) → is_digit c ≡ false → all is_digit s ≡ true → Lacks c s
digits-Lacks c [] k h = refl
digits-Lacks c (x ∷ s) k h = ground (arith, digits-Lacks c s k)

pub Lacks-join :
    (c : ℕ) (sep : Text) (ss : List Text) → Lacks c sep → All (Lacks c) ss → Lacks c (join sep ss)
unfolding join
Lacks-join c sep [] h hs = refl
Lacks-join c sep (s ∷ []) h hs = hs.0
Lacks-join c sep (s ∷ t ∷ ss) h hs =
    all-append _ s (sep ++ join sep (t ∷ ss)) hs.0
      (all-append _ sep (join sep (t ∷ ss)) h (Lacks-join c sep (t ∷ ss) h hs.1))
