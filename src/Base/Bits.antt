-- ===== src/Base/Bits.antt =====
-- The bitwise operators of the source on unsigned numbers, as arithmetic.
use Prim.Native.Nat.{
  ℕ, zero, suc, ◌+◌, ◌-◌, ◌*◌, ◌/◌, ◌%◌, ◌^◌, ◌≤◌, ◌<◌, min, max, bit_and, bit_or, digits, bitwise,
  bit_and-bitwise, bit_or-bitwise,
}
use mathlib.Core.Path.{◌≡◌, refl, ap, ◌∙◌}
use mathlib.Core.WellFounded
use native.Mathlib.Nat.{le_refl, pow-suc, one-le-pow}
use native.Mathlib.Decide.{dec_le}
use native.Mathlib.Omega.{arith}
use kintunnel.Base.Order.{lt_wf}

-- Fuel past what the first number needs changes nothing.
module _ (rest : ℕ → ℕ) (f : ℕ → ℕ → ℕ) where
  one_more : (n a b : ℕ) → a ≤ n → digits rest f (suc n) a b ≡ digits rest f n a b
  one_more zero zero b h = refl
  one_more zero (suc a) b h = absurd (omega arith)
  one_more (suc n) zero b h = refl
  one_more (suc n) (suc a) b h = rw (one_more n (suc a / 2) (b / 2) (omega arith))

  more : (n m a b : ℕ) → a ≤ m → m ≤ n → digits rest f n a b ≡ digits rest f m a b
  more zero m a b h k = ap (λ i. digits rest f i a b) {x = 0} (omega arith)
  more (suc n) m a b h k = elim (dec_le m n) [
    | yes below ↦ one_more n a b (omega arith) ∙ more n m a b h below
    | no above ↦ ap (λ i. digits rest f i a b) {x = suc n} (omega arith)
  ]

  lowest_digit :
      (a b : ℕ)
      → bitwise rest f (suc a) b ≡ f (suc a % 2) (b % 2) + 2 * bitwise rest f (suc a / 2) (b / 2)
  lowest_digit a b = omega (arith, more a (suc a / 2) (suc a / 2) (b / 2) (le_refl _) (omega arith))

bit_and_step : (a b : ℕ) → bit_and a b ≡ min (a % 2) (b % 2) + 2 * bit_and (a / 2) (b / 2)
bit_and_step zero b = simp bit_and-bitwise (omega arith)
bit_and_step (suc a) b = simp bit_and-bitwise (lowest_digit (λ y. 0) min a b)

bit_or_step : (a b : ℕ) → bit_or a b ≡ max (a % 2) (b % 2) + 2 * bit_or (a / 2) (b / 2)
bit_or_step zero b = simp bit_or-bitwise (omega arith)
bit_or_step (suc a) b = simp bit_or-bitwise (lowest_digit (λ y. y) max a b)

bit_and-zero : (a : ℕ) → bit_and a 0 ≡ 0
bit_and-zero a = WellFounded.induction lt_wf {C = λ n. bit_and n 0 ≡ 0} a go
  where
    go : (n : ℕ) → ((m : ℕ) → m < n → bit_and m 0 ≡ 0) → bit_and n 0 ≡ 0
    go zero ih = refl
    go (suc n) ih = omega (arith, bit_and_step (suc n) 0, ih (suc n / 2) (omega arith))

bit_or-zero : (a : ℕ) → bit_or a 0 ≡ a
bit_or-zero a = WellFounded.induction lt_wf {C = λ n. bit_or n 0 ≡ n} a go
  where
    go : (n : ℕ) → ((m : ℕ) → m < n → bit_or m 0 ≡ m) → bit_or n 0 ≡ n
    go zero ih = refl
    go (suc n) ih = omega (arith, bit_or_step (suc n) 0, ih (suc n / 2) (omega arith))

double_pow : (q k : ℕ) → q * 2 ^ suc k ≡ 2 * (q * 2 ^ k)
double_pow q k = omega (arith, ap (λ (t : ℕ). q * t) (pow-suc 2 k))

-- `q << k | r` is a sum where `r` fits into `k` bits.
pub bit_or_disjoint : (k q r : ℕ) → r < 2 ^ k → bit_or (q * 2 ^ k) r ≡ q * 2 ^ k + r
bit_or_disjoint zero q r h = ground (arith, bit_or-zero q)
bit_or_disjoint (suc k) q r h = ground (
  arith,
  bit_or_step (q * 2 ^ suc k) r,
  double_pow q k,
  bit_or_disjoint k q (r / 2) (omega (arith, pow-suc 2 k)),
)

-- A mask keeps the part that stands over it, whatever the bits below are.
pub bit_and_high :
    (k q r m : ℕ) → r < 2 ^ k → bit_and (q * 2 ^ k + r) (m * 2 ^ k) ≡ bit_and q m * 2 ^ k
bit_and_high zero q zero m h = ground arith
bit_and_high zero q (suc r) m h = absurd (omega arith)
bit_and_high (suc k) q r m h = ground (
  arith,
  bit_and_step (q * 2 ^ suc k + r) (m * 2 ^ suc k),
  double_pow q k,
  double_pow m k,
  double_pow (bit_and q m) k,
  pow-suc 2 k,
  bit_and_high k q (r / 2) m,
)

-- A mask of `k` ones leaves a number of `k` bits as it is, and cuts what is over it.
pub bit_and_low : (k q r : ℕ) → r < 2 ^ k → bit_and (q * 2 ^ k + r) (2 ^ k - 1) ≡ r
bit_and_low zero q zero h = rw bit_and-zero
bit_and_low zero q (suc r) h = absurd (omega arith)
bit_and_low (suc k) q r h = ground (
  arith,
  bit_and_step (q * 2 ^ suc k + r) (2 ^ suc k - 1),
  double_pow q k,
  pow-suc 2 k,
  one-le-pow k 2,
  bit_and_low k q (r / 2),
)
