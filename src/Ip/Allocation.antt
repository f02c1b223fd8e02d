-- ===== src/Ip/Allocation.antt =====
-- What the allocation of an address promises.
use mathlib.Core.Path.{subst}
use native.Mathlib.Decide.{dec_le}
use kintunnel.Base.{
  ◌/◌, ◌^◌, ℕ, zero, suc, ◌+◌, ◌-◌, ◌*◌, ◌<◌, ◌≤◌, ◌≡◌, ◌≢◌, ◌↔◌, refl, ap, ◌∙◌, Bool, true, false,
  Option, none, some, all, List, [], ◌∷◌, ◌++◌, arith, Text, lit, split, any, All, Bool-cases, inl,
  inr, ◌==◌,
}
use kintunnel.Base.Failure.{ok, err, >>=-eq-ok}
use kintunnel.Ip.{
  subnet, u32, Ipv4Cidr, no_free_error, parse_ipv4_cidr, ipv4_to_number, number_to_ipv4,
  used_numbers, first_free, or_full, allocate_peer_address, address_of,
}
use kintunnel.Ip.RoundTrip.{ipv4_to_number-host_cidr}
use kintunnel.Ip.Subnet.{subnet_bounds, parse_ipv4_cidr-subnet}

abbrev pub is_used : List ℕ → ℕ → Bool
is_used used m = any (λ n. n == m) used

pub record IsFirstFree (used : List ℕ) (from rounds n : ℕ) : Type 0 where
  pub above : from ≤ n
  pub below : n < from + rounds
  pub free : is_used used n ≡ false
  pub first : (m : ℕ) → from ≤ m → m < n → is_used used m ≡ true

-- The loop returns the first candidate that is free.
pub first_free-IsFirstFree :
    (used : List ℕ) (rounds from n : ℕ)
    → first_free used rounds from ≡ some n
    → IsFirstFree used from rounds n
unfolding first_free
first_free-IsFirstFree used zero from n h = cc
first_free-IsFirstFree used (suc rounds) from n h = elim (Bool-cases (is_used used from)) [
  | inl taken ↦ later taken (first_free-IsFirstFree used rounds (from + 1) n (ground arith))
  | inr vacant ↦ ground arith
]
  where
    later :
        is_used used from ≡ true
        → IsFirstFree used (from + 1) rounds n
        → IsFirstFree used from (suc rounds) n
    later taken f = record {
      above = omega (arith, f.above);
      below = omega (arith, f.below);
      free = f.free;
      first = λ m lo hi. elim (dec_le (from + 1) m) [
        | yes p ↦ f.first m p hi
        | no p ↦ subst (λ k. is_used used k ≡ true) (omega arith) taken
      ];
    }

-- It returns nothing only when every candidate is used.
pub first_free-eq-none :
    (used : List ℕ) (rounds from : ℕ)
    → first_free used rounds from ≡ none
    → (m : ℕ) → from ≤ m
    → m < from + rounds
    → is_used used m ≡ true
unfolding first_free
first_free-eq-none used zero from h m lo hi = absurd (omega arith)
first_free-eq-none used (suc rounds) from h m lo hi = elim (dec_le (from + 1) m) [
  | yes p ↦ first_free-eq-none used rounds (from + 1) (ground arith) m p (omega arith)
  | no p ↦ subst (λ k. is_used used k ≡ true) {x = from} (omega arith) (ground arith)
]

abbrev pub Candidate : Ipv4Cidr → List ℕ → ℕ → Type 0
Candidate p used n = IsFirstFree used (p.first_host + 1) (p.last_host - p.first_host) n

-- A successful allocation is the dotted form of the first candidate that no entry uses.
pub record Allocated (cidr : Text) (existing : List Text) (addr : Text) : Type 0 where
  pub parsed : Ipv4Cidr
  pub used : List ℕ
  pub number : ℕ
  pub is_parsed : parse_ipv4_cidr cidr ≡ ok parsed
  pub is_used_list : used_numbers existing ≡ ok used
  pub candidate : Candidate parsed used number
  pub text : addr ≡ number_to_ipv4 number ++ lit "/32"

or_full-eq-ok :
    (cidr : Text) (o : Option ℕ) (addr : Text)
    → or_full cidr o ≡ ok addr
    → (n : ℕ) × (o ≡ some n) × (addr ≡ number_to_ipv4 n ++ lit "/32")
unfolding or_full
or_full-eq-ok cidr none addr h = cc
or_full-eq-ok cidr (some n) addr h = (n, refl, cc)

-- An address that the allocator returns is the dotted form, with /32, of the smallest number past
-- the first host, up to the last host of the parsed CIDR, that is the number of no address in use.
pub allocate-Allocated :
    (cidr : Text) (existing : List Text) (addr : Text)
    → allocate_peer_address cidr existing ≡ ok addr
    → Allocated cidr existing addr
unfolding allocate_peer_address
allocate-Allocated cidr existing addr h =
    let (p, hp, h1) = >>=-eq-ok (parse_ipv4_cidr cidr) _ h in
    let (used, hu, h2) = >>=-eq-ok (used_numbers existing) _ h1 in
    let (n, hn, ht) = or_full-eq-ok cidr _ addr h2 in
    record {
      parsed = p;
      used = used;
      number = n;
      is_parsed = hp;
      is_used_list = hu;
      candidate = first_free-IsFirstFree used _ _ n hn;
      text = ht;
    }

not_full :
    (p : Ipv4Cidr) (used : List ℕ) (n : ℕ)
    → Candidate p used n
    → ¬ ((m : ℕ) → p.first_host < m → m ≤ p.last_host → is_used used m ≡ true)
not_full p used n c all =
    ground (arith, all n (omega (arith, c.above)) (omega (arith, c.below, c.above)), c.free)

full_iff :
    (cidr : Text) (o : Option ℕ) (P : Type 0)
    → (o ≡ none → P)
    → ((n : ℕ) → o ≡ some n → ¬ P)
    → (or_full cidr o ≡ err (no_free_error cidr)) ↔ P
unfolding or_full
full_iff cidr none P f g = ((λ _. f refl), λ _. refl)
full_iff cidr (some n) P f g = ((λ h. cc), λ p. absurd (g n refl p))

-- For a CIDR and addresses in use that parse, the allocator throws that no address is free exactly
-- if every number past the first host, up to the last, is in use.
pub allocate_full :
    (cidr : Text) (existing : List Text) (p : Ipv4Cidr) (used : List ℕ)
    → parse_ipv4_cidr cidr ≡ ok p
    → used_numbers existing ≡ ok used
    → (allocate_peer_address cidr existing ≡ err (no_free_error cidr))
      ↔ ((m : ℕ) → p.first_host < m → m ≤ p.last_host → is_used used m ≡ true)
unfolding allocate_peer_address
allocate_full cidr existing p used hp hu =
    rw (hp, hu)
      (full_iff cidr (first_free used (p.last_host - p.first_host) (p.first_host + 1)) _
        (λ e m lo hi. first_free-eq-none used _ _ e m (omega arith) (omega arith))
        (λ n e all. not_full p used n (first_free-IsFirstFree used _ _ n e) all))

clash : (m : ℕ) (ms : List ℕ) (n : ℕ) → is_used (m ∷ ms) n ≡ false → m ≡ n → ⊥
clash m ms n h e = ground arith

-- The number of a used entry is in the set.
used_numbers-is_used :
    (existing : List Text) (used : List ℕ) (n : ℕ) (addr : Text)
    → used_numbers existing ≡ ok used
    → ipv4_to_number (address_of (split b'/' addr)) ≡ ok n
    → is_used used n ≡ false
    → All (λ e. addr ≢ e) existing
unfolding used_numbers
used_numbers-is_used [] used n addr h k f = tt
used_numbers-is_used (e ∷ existing) used n addr h k f =
    let (m, hm, h1) = >>=-eq-ok (ipv4_to_number (address_of (split b'/' e))) _ h in
    let (ms, hs, h2) = >>=-eq-ok (used_numbers existing) _ h1 in
    let other : is_used (m ∷ ms) n ≡ false = ground arith in
    (
      (λ same. clash m ms n other (ground arith)),
      used_numbers-is_used existing ms n addr hs k (ground arith),
    )

-- The address of one host of the CIDR's subnet, neither its network address nor its first host, nor
-- its broadcast address.
unfoldable pub InSubnet : Text → Text → Type 0
InSubnet cidr addr =
    (n : ℕ) × (raw : ℕ) × (p : ℕ) × (addr ≡ number_to_ipv4 n ++ lit "/32")
    × (ipv4_to_number (address_of (split b'/' cidr)) ≡ ok raw)
    × (p < 30)
    × (n < u32)
    × (raw / 2 ^ (32 - (p + 1)) * 2 ^ (32 - (p + 1)) + 1 < n)
    × (n + 1 < raw / 2 ^ (32 - (p + 1)) * 2 ^ (32 - (p + 1)) + 2 ^ (32 - (p + 1)))

-- An address that the allocator returns is a host of the CIDR's subnet, past the network address
-- and the first host and before the broadcast address.
pub allocate_peer_address-InSubnet :
    (cidr : Text) (existing : List Text) (addr : Text)
    → allocate_peer_address cidr existing ≡ ok addr
    → InSubnet cidr addr
unfolding InSubnet
allocate_peer_address-InSubnet cidr existing addr h =
    let a = allocate-Allocated cidr existing addr h in
    let c = a.candidate in
    let (raw, p, parsed, hr, hp, hs) = parse_ipv4_cidr-subnet cidr a.parsed a.is_parsed in
    let (network, first, last, whole) = subnet_bounds raw p hr hp in
    let first' : a.parsed.first_host ≡ (subnet raw (p + 1)).first_host =
      ap (λ (r : Ipv4Cidr). r.first_host) hs in
    let last' : a.parsed.last_host ≡ (subnet raw (p + 1)).last_host =
      ap (λ (r : Ipv4Cidr). r.last_host) hs in
    (
      a.number,
      raw,
      p,
      a.text,
      parsed,
      hp,
      omega (arith, c.below),
      omega (arith, c.above),
      omega (arith, c.below),
    )

Allocated-lt :
    {cidr : Text} {existing : List Text} {addr : Text} (a : Allocated cidr existing addr)
    → a.number < u32
Allocated-lt {cidr} a =
    let (raw, p, parsed, hr, hp, hs) = parse_ipv4_cidr-subnet cidr a.parsed a.is_parsed in
    let (network, first, last, whole) = subnet_bounds raw p hr hp in
    let last' : a.parsed.last_host ≡ (subnet raw (p + 1)).last_host =
      ap (λ (r : Ipv4Cidr). r.last_host) hs in
    let c = a.candidate in omega (arith, c.below, c.above)

-- An address that the allocator returns differs, as a text, from every address in use.
pub allocate_fresh :
    (cidr : Text) (existing : List Text) (addr : Text)
    → allocate_peer_address cidr existing ≡ ok addr
    → All (λ e. addr ≢ e) existing
allocate_fresh cidr existing addr h =
    let a = allocate-Allocated cidr existing addr h in
    used_numbers-is_used existing a.used a.number addr a.is_used_list
      (ap (λ (t : Text). ipv4_to_number (address_of (split b'/' t))) a.text
        ∙ ipv4_to_number-host_cidr a.number (Allocated-lt a))
      a.candidate.free
