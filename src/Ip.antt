-- ===== src/Ip.antt =====
-- packages/engine/src/ip.ts: IPv4 addresses and the allocation of peer addresses.
pub mod RoundTrip
pub mod Subnet
pub mod Allocation
use Prim.Native.Nat.{bit_and, bit_or}
use kintunnel.Base.{
  ℕ, zero, suc, ◌+◌, ◌-◌, ◌*◌, ◌/◌, ◌%◌, ◌^◌, Bool, true, false, not, ◌&&◌, ◌||◌, Option, none,
  some, List, [], ◌∷◌, ◌++◌, map, ltb, leb, ◌==◌, if◌then◌else◌, length, any, all, Text, lit, split,
  join, is_digit, value_from, ℤ, pos, parse_int, in_range, decimal,
}
use kintunnel.Base.Failure.{Failure, error, Result, ok, err, ◌>>=◌}

pub record Ipv4Cidr : Type 0 where
  pub network : ℕ
  pub prefix : ℕ
  pub mask : ℕ
  pub first_host : ℕ
  pub last_host : ℕ

-- 2 ^ 32, the modulus of `>>> 0`.
abbrev pub u32 : ℕ
u32 = 4_294_967_296

invalid_address : Text → Failure
invalid_address address = error (lit "Invalid IPv4 address: " ++ address)

-- The body of the `reduce`, `((acc << 8) | value) >>> 0`.
add_part : Text → ℕ → Text → Result ℕ
add_part address acc [] = err (invalid_address address)
add_part address acc (c ∷ part) =
    let value = value_from 0 (c ∷ part) in
    if not (all is_digit (c ∷ part)) || ltb 255 value
    then err (invalid_address address)
    else ok (bit_or (acc * 2 ^ 8 % u32) value % u32)

reduce_parts : Text → ℕ → List Text → Result ℕ
reduce_parts address acc [] = ok acc
reduce_parts address acc (part ∷ parts) = do
  next ← add_part address acc part
  reduce_parts address next parts

unfoldable pub ipv4_to_number : Text → Result ℕ
unfolding reduce_parts add_part invalid_address
ipv4_to_number address =
    let parts = split b'.' address in
    if length parts == 4 then reduce_parts address 0 parts else err (invalid_address address)

-- `(value >>> shift) & 255`
octet : ℕ → ℕ → ℕ
octet value shift = bit_and (value % u32 / 2 ^ shift) 255

unfoldable pub number_to_ipv4 : ℕ → Text
unfolding octet
number_to_ipv4 value =
    join (b'.' ∷ []) (map (λ shift. decimal (octet value shift)) (24 ∷ 16 ∷ 8 ∷ 0 ∷ []))

-- The first two parts of a split at `/`; the second may be missing, and later ones are dropped.
abbrev pub address_of : List Text → Text
address_of [] = []
address_of (a ∷ rest) = a

abbrev pub prefix_of : List Text → Option Text
prefix_of [] = none
prefix_of (a ∷ []) = none
prefix_of (a ∷ p ∷ rest) = some p

abbrev pub prefix_or_empty : Option Text → Text
prefix_or_empty none = []
prefix_or_empty (some p) = p

abbrev pub is_empty : Text → Bool
is_empty [] = true
is_empty (c ∷ s) = false

cidr_error : Failure
cidr_error = error (lit "KINTUNNEL_WG_ADDRESS must be an IPv4 CIDR with prefix between /1 and /30")

-- `(0xffffffff << (32 - prefix)) >>> 0`
unfoldable pub netmask : ℕ → ℕ
netmask prefix = (u32 - 1) * 2 ^ (32 - prefix) % u32

unfoldable pub subnet : ℕ → ℕ → Ipv4Cidr
unfolding netmask
subnet raw prefix =
    let mask = netmask prefix in
    let network = bit_and raw mask in
    let broadcast = bit_or network (u32 - 1 - mask) in
    record {
      network = network;
      prefix = prefix;
      mask = mask;
      first_host = (network + 1) % u32;
      last_host = (broadcast + u32 - 1) % u32;
    }

abbrev magnitude : Option ℤ → ℕ
magnitude (some (pos n)) = n
magnitude _ = 0

unfoldable pub parse_ipv4_cidr : Text → Result Ipv4Cidr
unfolding cidr_error subnet ipv4_to_number
parse_ipv4_cidr cidr =
    let parts = split b'/' cidr in
    let prefix = parse_int (prefix_or_empty (prefix_of parts)) in
    if is_empty (address_of parts) || not (in_range 1 30 prefix)
    then err cidr_error
    else (do raw ← ipv4_to_number (address_of parts); ok (subnet raw (magnitude prefix)))

-- The addresses in use, parsed; one that does not parse stops the allocation.
unfoldable pub used_numbers : List Text → Result (List ℕ)
unfolding ipv4_to_number
used_numbers [] = ok []
used_numbers (entry ∷ rest) = do
  n ← ipv4_to_number (address_of (split b'/' entry))
  ns ← used_numbers rest
  ok (n ∷ ns)

-- The counted loop over the candidates: `rounds` of them, from `candidate` on.
unfoldable pub first_free : List ℕ → ℕ → ℕ → Option ℕ
first_free used zero candidate = none
first_free used (suc rounds) candidate =
    let rest = first_free used rounds (candidate + 1) in
    if any (λ n. n == candidate) used then rest else some candidate

pub no_free_error : Text → Failure
no_free_error cidr = error (lit "No free peer addresses remain in " ++ cidr)

or_full : Text → Option ℕ → Result Text
or_full cidr none = err (no_free_error cidr)
or_full cidr (some candidate) = ok (number_to_ipv4 candidate ++ lit "/32")

unfoldable pub allocate_peer_address : Text → List Text → Result Text
unfolding or_full parse_ipv4_cidr used_numbers first_free number_to_ipv4
allocate_peer_address cidr existing_cidrs = do
  parsed ← parse_ipv4_cidr cidr
  used ← used_numbers existing_cidrs
  or_full cidr (first_free used (parsed.last_host - parsed.first_host) (parsed.first_host + 1))
