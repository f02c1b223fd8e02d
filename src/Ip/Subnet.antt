-- ===== src/Ip/Subnet.antt =====
-- The bit operations of `parseIpv4Cidr` as arithmetic.
use Prim.Native.Nat.{bit_and, bit_or}
use native.Mathlib.Nat.{div-add-mod', mod-lt, one-le-pow, pow-suc}
use kintunnel.Base.{
  List, [], ◌∷◌, ℕ, zero, suc, ◌+◌, ◌-◌, ◌*◌, ◌/◌, ◌%◌, ◌^◌, ◌<◌, ◌≤◌, ◌≡◌, refl, sym, ap, ◌∙◌,
  Bool, true, ◌&&◌, ◌||◌, arith, ◌==◌, Text, in_range, ℤ, pos, negsuc, Option, none, some, not,
  Bool-cases, inl, inr, split, parse_int, all,
}
use kintunnel.Base.Bits.{bit_and_low, bit_and_high, bit_or_disjoint}
use kintunnel.Base.Failure.{ok, ◌>>=◌, >>=-eq-ok}
use kintunnel.Ip.{
  add_part, reduce_parts, u32, Ipv4Cidr, netmask, subnet, parse_ipv4_cidr, ipv4_to_number,
  address_of, prefix_of, prefix_or_empty, magnitude, is_empty,
}

-- The numbers under a bound.
numbers : ℕ → List ℕ
numbers zero = []
numbers (suc n) = n ∷ numbers n

-- What holds of all of them holds of each.
all-numbers : (test : ℕ → Bool) (n x : ℕ) → x < n → all test (numbers n) ≡ true → test x ≡ true
unfolding numbers
all-numbers test zero x lo h = absurd (omega arith)
all-numbers test (suc n) x lo h = ground (arith, all-numbers test n x)

mask_test : ℕ → Bool
mask_test p =
    (netmask (p + 1) == (2 ^ (p + 1) - 1) * 2 ^ (32 - (p + 1)))
    && (u32 - 1 - netmask (p + 1) == 2 ^ (32 - (p + 1)) - 1)
    && (2 ^ (p + 1) * 2 ^ (32 - (p + 1)) == u32)

mask_table : all mask_test (numbers 30) ≡ true
unfolding numbers mask_test netmask
mask_table = refl

record MaskFacts (p k : ℕ) : Type 0 where
  mask : netmask p ≡ (2 ^ p - 1) * 2 ^ k
  rest : u32 - 1 - netmask p ≡ 2 ^ k - 1
  whole : 2 ^ p * 2 ^ k ≡ u32

mask_facts : (p : ℕ) → p < 30 → MaskFacts (p + 1) (32 - (p + 1))
unfolding mask_test
mask_facts p h =
    let t : mask_test p ≡ true = all-numbers mask_test 30 p h mask_table in ground arith

four-le-size : (k : ℕ) → 2 ≤ k → 4 ≤ 2 ^ k
four-le-size (suc (suc k)) h =
    omega (arith, pow-suc 2 (suc k), pow-suc 2 k, one-le-pow k 2 (omega arith))
four-le-size _ h = absurd (omega arith)

last_block : (size count q : ℕ) → count * size ≡ u32 → q < count → q * size + size ≤ u32
last_block size count q e h = grind arith

fits : (size count q : ℕ) {raw : ℕ} → count * size ≡ u32 → q * size ≤ raw → raw < u32 → q < count
fits size count q e le h = grind arith

mask_all : (p q : ℕ) → q < 2 ^ p → bit_and q (2 ^ p - 1) ≡ q
mask_all p q h =
    let e : q ≡ 0 * 2 ^ p + q = omega arith in
    ap (λ (t : ℕ). bit_and t (2 ^ p - 1)) e ∙ bit_and_low p 0 q h

module _ (p k raw : ℕ) (f : MaskFacts p k) (h : raw < u32) where
  quotient_fits : raw / 2 ^ k < 2 ^ p
  quotient_fits =
      fits (2 ^ k) (2 ^ p) (raw / 2 ^ k) f.whole (omega (arith, div-add-mod' raw (2 ^ k))) h

  network_value : bit_and raw (netmask p) ≡ raw / 2 ^ k * 2 ^ k
  network_value =
      ap (λ (m : ℕ). bit_and raw m) f.mask
      ∙ ap (λ (t : ℕ). bit_and t ((2 ^ p - 1) * 2 ^ k)) (sym (div-add-mod' raw (2 ^ k)))
      ∙ bit_and_high k (raw / 2 ^ k) (raw % 2 ^ k) (2 ^ p - 1)
          (mod-lt raw (one-le-pow k 2 (omega arith)))
      ∙ ap (λ (t : ℕ). t * 2 ^ k) (mask_all p (raw / 2 ^ k) quotient_fits)

  network_fits : raw / 2 ^ k * 2 ^ k + 2 ^ k ≤ u32
  network_fits = last_block (2 ^ k) (2 ^ p) (raw / 2 ^ k) f.whole quotient_fits

  broadcast_value :
      bit_or (bit_and raw (netmask p)) (u32 - 1 - netmask p) ≡ raw / 2 ^ k * 2 ^ k + (2 ^ k - 1)
  broadcast_value =
      ap (λ (m : ℕ). bit_or m (u32 - 1 - netmask p)) network_value
      ∙ ap (λ (m : ℕ). bit_or (raw / 2 ^ k * 2 ^ k) m) f.rest
      ∙ bit_or_disjoint k (raw / 2 ^ k) (2 ^ k - 1) (omega (arith, one-le-pow k 2 (omega arith)))

-- For a 32-bit address and a prefix from /1 to /30, the bit operations give the network by
-- clearing the low bits, the first host one after it, the last host two before its end, and
-- nothing exceeds 32 bits.
pub subnet_bounds :
    (raw p : ℕ)
    → raw < u32
    → p < 30
    → let s = subnet raw (p + 1) in
      let size = 2 ^ (32 - (p + 1)) in
      (s.network ≡ raw / size * size)
      × (s.first_host ≡ s.network + 1)
      × (s.last_host + 2 ≡ s.network + size)
      × (s.network + size ≤ u32)
unfolding subnet
subnet_bounds raw p h hi =
    let f = mask_facts p hi in
    let k : ℕ = 32 - (p + 1) in
    let network = network_value (p + 1) k raw f h in
    let fits = network_fits (p + 1) k raw f h in
    let broadcast = broadcast_value (p + 1) k raw f h in
    let large = four-le-size k (omega arith) in (network, omega arith, omega arith, omega arith)

add_part-lt : (address part : Text) (acc n : ℕ) → add_part address acc part ≡ ok n → n < u32
unfolding add_part
add_part-lt address [] acc n h = cc
add_part-lt address (c ∷ part) acc n h = ground arith

reduce_parts-lt :
    (address : Text) (parts : List Text) (acc n : ℕ)
    → acc < u32
    → reduce_parts address acc parts ≡ ok n
    → n < u32
unfolding reduce_parts
reduce_parts-lt address [] acc n k h = ground arith
reduce_parts-lt address (part ∷ parts) acc n k h =
    let (next, e, h') = >>=-eq-ok (add_part address acc part) _ h in
    reduce_parts-lt address parts next n (add_part-lt address part acc next e) h'

-- An address that parses is a 32-bit number.
pub ipv4_to_number-lt : (address : Text) (n : ℕ) → ipv4_to_number address ≡ ok n → n < u32
unfolding ipv4_to_number
ipv4_to_number-lt address n h =
    reduce_parts-lt address (split b'.' address) 0 n (omega arith) (ground arith)

magnitude_bounds :
    (v : Option ℤ) → in_range 1 30 v ≡ true → (p : ℕ) × (magnitude v ≡ p + 1) × (p < 30)
magnitude_bounds (some (pos n)) h = (n - 1, ground arith, ground arith)
magnitude_bounds none h = cc
magnitude_bounds (some (negsuc n)) h = cc

-- What `parseIpv4Cidr` accepts is the subnet of a 32-bit address and a prefix from /1 to /30.
pub parse_ipv4_cidr-subnet :
    (cidr : Text) (s : Ipv4Cidr)
    → parse_ipv4_cidr cidr ≡ ok s
    → (raw : ℕ) × (p : ℕ) × (ipv4_to_number (address_of (split b'/' cidr)) ≡ ok raw)
      × (raw < u32)
      × (p < 30)
      × (s ≡ subnet raw (p + 1))
unfolding parse_ipv4_cidr
parse_ipv4_cidr-subnet cidr s h =
    elim (Bool-cases (
      is_empty (address_of (split b'/' cidr))
      || not (in_range 1 30 (parse_int (prefix_or_empty (prefix_of (split b'/' cidr))))))) [
        | inl bad ↦ cc (rw (bad, parse_ipv4_cidr) at h)
        | inr good ↦
            let v : Option ℤ = parse_int (prefix_or_empty (prefix_of (split b'/' cidr))) in
            let (p, e, hp) = magnitude_bounds v (ground arith) in
            let h' : (ipv4_to_number (address_of (split b'/' cidr)) >>= λ raw.
            ok (subnet raw (magnitude v)))
                ≡ ok s =
              ground arith in
            let (raw, hr, hs) = >>=-eq-ok (ipv4_to_number (address_of (split b'/' cidr))) _ h' in
            (raw, p, hr, ipv4_to_number-lt (address_of (split b'/' cidr)) raw hr, hp, cc)
      ]
