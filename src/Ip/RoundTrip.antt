-- ===== src/Ip/RoundTrip.antt =====
-- Printing an address and parsing it again.
use Prim.Native.Nat.{bit_and, bit_or}
use kintunnel.Base.{
  ◌++◌, lit, ℕ, ◌+◌, ◌*◌, ◌/◌, ◌%◌, ◌^◌, ◌<◌, ◌≡◌, ◌≢◌, refl, sym, ap, ◌∙◌, true, List, [], ◌∷◌,
  arith, Text, split, decimal, is_digit, all, value_from, value_from-decimal, decimal-ne-nil,
  all_digits-decimal,
}
use native.Mathlib.Nat.{mod-eq_of_lt, div-add-mod'}
use kintunnel.Base.Bits.{bit_and_low, bit_or_disjoint}
use kintunnel.Base.Splitting.{split_first, Lacks-join, split-join, digits-Lacks, Lacks}
use kintunnel.Base.Failure.{Result, ok, ◌>>=◌}
use kintunnel.Ip.{address_of, u32, octet, add_part, reduce_parts, ipv4_to_number, number_to_ipv4}

octet_value : (n k : ℕ) → n < u32 → octet n k ≡ n / 2 ^ k % 256
unfolding octet
octet_value n k h =
    let v : ℕ = n / 2 ^ k in
    ap (λ (t : ℕ). bit_and (t / 2 ^ k) 255) (mod-eq_of_lt h)
    ∙ ap (λ (t : ℕ). bit_and t 255) (sym (div-add-mod' v 256))
    ∙ bit_and_low 8 (v / 256) (v % 256) (omega arith)

octet_bound : (n k : ℕ) → n < u32 → octet n k < 256
octet_bound n k h = omega (arith, octet_value n k h)

combine : (acc v : ℕ) → acc < 2 ^ 24 → v < 256 → bit_or (acc * 2 ^ 8 % u32) v % u32 ≡ acc * 256 + v
combine acc v h k = ground (arith, bit_or_disjoint 8 acc v)

add_part-decimal :
    (address : Text) (acc v : ℕ)
    → acc < 2 ^ 24
    → v < 256
    → add_part address acc (decimal v) ≡ ok (acc * 256 + v)
add_part-decimal address acc v h k =
    go (decimal v) (value_from-decimal v) (all_digits-decimal v) (decimal-ne-nil v)
  where
    go :
        (s : Text)
        → value_from 0 s ≡ v
        → all is_digit s ≡ true
        → s ≢ []
        → add_part address acc s ≡ ok (acc * 256 + v)
    go [] e d f = absurd (f refl)
    go (c ∷ s) e d f = unfold add_part in ground (arith, combine acc v)

add_decimal :
    (address : Text) (acc v : ℕ) (parts : List Text)
    → acc < 2 ^ 24
    → v < 256
    → reduce_parts address acc (decimal v ∷ parts) ≡ reduce_parts address (acc * 256 + v) parts
unfolding reduce_parts
add_decimal address acc v parts h k =
    ap (λ (r : Result ℕ). r >>= λ next. reduce_parts address next parts)
      (add_part-decimal address acc v h k)

reduce_decimals :
    (address : Text) (a b c d : ℕ)
    → a < 256
    → b < 256
    → c < 256
    → d < 256
    → reduce_parts address 0 (decimal a ∷ decimal b ∷ decimal c ∷ decimal d ∷ [])
      ≡ ok (((a * 256 + b) * 256 + c) * 256 + d)
reduce_decimals address a b c d ha hb hc hd =
    add_decimal address 0 a _ (omega arith) ha
    ∙ add_decimal address (0 * 256 + a) b _ (omega arith) hb
    ∙ add_decimal address ((0 * 256 + a) * 256 + b) c _ (omega arith) hc
    ∙ add_decimal address (((0 * 256 + a) * 256 + b) * 256 + c) d _ (omega arith) hd
    ∙ unfold reduce_parts in ap ok (omega arith)

octet-Lacks : (n k : ℕ) → Lacks b'.' (decimal (octet n k))
octet-Lacks n k = digits-Lacks b'.' (decimal (octet n k)) refl (all_digits-decimal (octet n k))

octets_join :
    (n : ℕ) → n < u32 → ((octet n 24 * 256 + octet n 16) * 256 + octet n 8) * 256 + octet n 0 ≡ n
octets_join n h =
    omega (arith, octet_value n 24 h, octet_value n 16 h, octet_value n 8 h, octet_value n 0 h)

split-number_to_ipv4 :
    (n : ℕ)
    → split b'.' (number_to_ipv4 n)
      ≡ decimal (octet n 24) ∷ decimal (octet n 16) ∷ decimal (octet n 8) ∷ decimal (octet n 0) ∷ []
unfolding number_to_ipv4
split-number_to_ipv4 n =
    split-join b'.' (decimal (octet n 24)) _ (octet-Lacks n 24)
      (octet-Lacks n 16, (octet-Lacks n 8, (octet-Lacks n 0, tt)))

-- The dotted form of a 32-bit number parses back to that number.
pub ipv4_to_number-number_to_ipv4 : (n : ℕ) → n < u32 → ipv4_to_number (number_to_ipv4 n) ≡ ok n
unfolding ipv4_to_number
ipv4_to_number-number_to_ipv4 n h = rw (split-number_to_ipv4 n) (
    reduce_decimals (number_to_ipv4 n) _ _ _ _ (octet_bound n 24 h) (octet_bound n 16 h)
      (octet_bound n 8 h) (octet_bound n 0 h)
    ∙ ap ok (octets_join n h))

slash-Lacks : (n k : ℕ) → Lacks b'/' (decimal (octet n k))
slash-Lacks n k = digits-Lacks b'/' (decimal (octet n k)) refl (all_digits-decimal (octet n k))

number_to_ipv4-Lacks : (n : ℕ) → Lacks b'/' (number_to_ipv4 n)
unfolding number_to_ipv4
number_to_ipv4-Lacks n =
    Lacks-join b'/' (b'.' ∷ []) _ refl
      (slash-Lacks n 24, (slash-Lacks n 16, (slash-Lacks n 8, (slash-Lacks n 0, tt))))

-- The address is read back from its CIDR form too.
pub ipv4_to_number-host_cidr :
    (n : ℕ)
    → n < u32
    → ipv4_to_number (address_of (split b'/' (number_to_ipv4 n ++ lit "/32"))) ≡ ok n
unfolding lit
ipv4_to_number-host_cidr n h =
    rw (split_first b'/' (number_to_ipv4 n) (b'3' ∷ b'2' ∷ []) (number_to_ipv4-Lacks n))
      (ipv4_to_number-number_to_ipv4 n h)
