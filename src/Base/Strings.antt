-- ===== src/Base/Strings.antt =====
-- The methods of JavaScript strings and numbers that the program calls.
use Prim.Native.Nat.{ℕ, zero, suc, ◌+◌, ◌-◌, ◌*◌, ◌/◌, ◌%◌, ◌≤◌}
use mathlib.Core.Path.{◌≡◌, refl}
use mathlib.Core.Logic.{◌≢◌}
use mathlib.Core.Bool.{Bool, true, false, ◌&&◌, ◌||◌}
use mathlib.Core.Option.{Option, none, some}
use mathlib.Core.List.{List, [], ◌∷◌, ◌++◌}
use native.Mathlib.Omega.{arith}
use kintunnel.Base.Tests.{◌==◌, ltb, leb, if◌then◌else◌}
use kintunnel.Base.Lists.{all}
use kintunnel.Base.Units.{Text}

abbrev pub is_digit : ℕ → Bool
is_digit c = leb 48 c && leb c 57

-- White space and line terminators, as `trim`, `parseInt` and `\s` read them.
abbrev pub is_space : ℕ → Bool
is_space c =
    leb 9 c && leb c 13
    || c == 32
    || c == 0xa0
    || c == 0x1680
    || leb 0x2000 c && leb c 0x200a
    || c == 0x2028
    || c == 0x2029
    || c == 0x202f
    || c == 0x205f
    || c == 0x3000
    || c == 0xfeff

unfoldable pub trim_start : Text → Text
trim_start [] = []
trim_start (c ∷ s) = let rest = trim_start s in if is_space c then rest else c ∷ s

-- A text of white space only is trimmed to nothing, so the last visible unit is kept.
unfoldable pub trim_end : Text → Text
trim_end [] = []
trim_end (c ∷ s) = let rest = trim_end s in if all is_space (c ∷ s) then [] else c ∷ rest

unfoldable pub trim : Text → Text
unfolding trim_start trim_end
trim s = trim_end (trim_start s)

abbrev put_first : ℕ → List Text → List Text
put_first c [] = (c ∷ []) ∷ []
put_first c (s ∷ ss) = (c ∷ s) ∷ ss

-- `s.split(c)` at one unit.
unfoldable pub split : ℕ → Text → List Text
split c [] = [] ∷ []
split c (x ∷ s) = let rest = split c s in if x == c then [] ∷ rest else put_first x rest

-- `parts.join(sep)`
unfoldable pub join : Text → List Text → Text
join sep [] = []
join sep (s ∷ []) = s
join sep (s ∷ t ∷ ss) = s ++ (sep ++ join sep (t ∷ ss))

abbrev pub value_from : ℕ → Text → ℕ
value_from n [] = n
value_from n (c ∷ s) = value_from (n * 10 + (c - 48)) s

-- The digits that a text starts with.
abbrev pub leading_digits : Text → Text
leading_digits [] = []
leading_digits (c ∷ s) = let rest = leading_digits s in if is_digit c then c ∷ rest else []

-- Whole numbers with a sign; `negsuc n` is -(n + 1).
pub data ℤ : Type 0 where
  pos : ℕ → ℤ
  negsuc : ℕ → ℤ

abbrev negate : ℕ → ℤ
negate zero = pos zero
negate (suc n) = negsuc n

abbrev unsigned : (ℕ → ℤ) → Text → Option ℤ
unsigned sign [] = none
unsigned sign (c ∷ s) = some (sign (value_from 0 (c ∷ s)))

abbrev parse_signed : Text → Option ℤ
parse_signed [] = none
parse_signed (c ∷ s) =
    if c == b'-'
    then unsigned negate (leading_digits s)
    else if c == b'+'
    then unsigned pos (leading_digits s)
    else unsigned pos (leading_digits (c ∷ s))

-- `Number.parseInt(s, 10)`; `none` is NaN. What follows the digits is ignored.
unfoldable pub parse_int : Text → Option ℤ
unfolding trim_start
parse_int s = parse_signed (trim_start s)

-- `lo <= v && v <= hi`, where NaN fails.
abbrev pub in_range : ℕ → ℕ → Option ℤ → Bool
in_range lo hi none = false
in_range lo hi (some (pos n)) = leb lo n && leb n hi
in_range lo hi (some (negsuc n)) = false

decimal_fuel : ℕ → ℕ → Text
decimal_fuel zero n = (48 + n) ∷ []
decimal_fuel (suc f) n =
    let more = decimal_fuel f (n / 10) ++ (48 + n % 10) ∷ [] in
    if ltb n 10 then (48 + n) ∷ [] else more

-- `String(n)` of a whole number.
unfoldable pub decimal : ℕ → Text
unfolding decimal_fuel
decimal n = decimal_fuel n n

value_from-append : (n : ℕ) (s t : Text) → value_from n (s ++ t) ≡ value_from (value_from n s) t
value_from-append n [] t = refl
value_from-append n (c ∷ s) t = value_from-append (n * 10 + (c - 48)) s t

value_from-decimal_fuel : (f n : ℕ) → n ≤ f → value_from 0 (decimal_fuel f n) ≡ n
unfolding decimal_fuel
value_from-decimal_fuel zero n h = omega arith
value_from-decimal_fuel (suc f) n h = ground (
  arith,
  value_from-append 0 (decimal_fuel f (n / 10)) ((48 + n % 10) ∷ []),
  value_from-decimal_fuel f (n / 10),
)

pub value_from-decimal : (n : ℕ) → value_from 0 (decimal n) ≡ n
unfolding decimal
value_from-decimal n = value_from-decimal_fuel n n (omega arith)

append_end : (s : Text) (c : ℕ) → s ++ c ∷ [] ≢ []
append_end [] c h = cc
append_end (x ∷ s) c h = cc

decimal_fuel-ne-nil : (f n : ℕ) → decimal_fuel f n ≢ []
unfolding decimal_fuel
decimal_fuel-ne-nil zero n h = cc
decimal_fuel-ne-nil (suc f) n h = ground (arith, append_end (decimal_fuel f (n / 10)) (48 + n % 10))

pub decimal-ne-nil : (n : ℕ) → decimal n ≢ []
unfolding decimal
decimal-ne-nil n = decimal_fuel-ne-nil n n

pub all-append :
    (p : ℕ → Bool) (s t : Text) → all p s ≡ true → all p t ≡ true → all p (s ++ t) ≡ true
all-append p [] t h k = k
all-append p (c ∷ s) t h k = ground (arith, all-append p s t)

all_digits-decimal_fuel : (f n : ℕ) → n ≤ f → all is_digit (decimal_fuel f n) ≡ true
unfolding decimal_fuel
all_digits-decimal_fuel zero n h = ground arith
all_digits-decimal_fuel (suc f) n h = ground (
  arith,
  all_digits-decimal_fuel f (n / 10),
  all-append is_digit (decimal_fuel f (n / 10)) ((48 + n % 10) ∷ []),
)

pub all_digits-decimal : (n : ℕ) → all is_digit (decimal n) ≡ true
unfolding decimal
all_digits-decimal n = all_digits-decimal_fuel n n (omega arith)
