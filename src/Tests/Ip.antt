-- ===== src/Tests/Ip.antt =====
-- Addresses: runs of the definitions, and the theorems at concrete inputs.
use kintunnel.Base.{
  ℕ, ◌+◌, ◌-◌, ◌*◌, ◌/◌, ◌^◌, ◌≡◌, ◌≢◌, ◌<◌, ◌≤◌, ◌↔◌, refl, true, [], ◌∷◌, lit, All, arith,
}
use kintunnel.Base.Failure.{ok, err}
use kintunnel.Ip.{
  u32, Ipv4Cidr, ipv4_to_number, number_to_ipv4, allocate_peer_address, subnet, parse_ipv4_cidr,
  used_numbers, no_free_error,
}
use kintunnel.Ip.Allocation.{Allocated, is_used, allocate-Allocated, allocate_fresh, allocate_full}
use kintunnel.Ip.RoundTrip.{ipv4_to_number-number_to_ipv4}
use kintunnel.Ip.Subnet.{subnet_bounds}

parse_run : ipv4_to_number (lit "10.8.0.2") ≡ ok 168296450
unfolding ipv4_to_number lit kintunnel.Base.Strings.split
parse_run = refl

allocate_run :
    allocate_peer_address (lit "10.8.0.77/24") (lit "10.8.0.2/32" ∷ lit "10.8.0.4/32" ∷ [])
    ≡ ok (lit "10.8.0.3/32")
unfolding allocate_peer_address lit kintunnel.Base.Strings.split kintunnel.Base.Strings.join
    kintunnel.Base.Strings.decimal kintunnel.Base.Strings.parse_int
allocate_run = refl

allocate-Allocated_example :
    Allocated (lit "10.8.0.0/24") (lit "10.8.0.2/32" ∷ []) (lit "10.8.0.3/32")
unfolding allocate_peer_address lit kintunnel.Base.Strings.split kintunnel.Base.Strings.join
    kintunnel.Base.Strings.decimal kintunnel.Base.Strings.parse_int
allocate-Allocated_example =
    allocate-Allocated (lit "10.8.0.0/24") (lit "10.8.0.2/32" ∷ []) (lit "10.8.0.3/32") refl

allocate_fresh_example : All (λ e. lit "10.8.0.3/32" ≢ e) (lit "10.8.0.2/32" ∷ [])
unfolding allocate_peer_address lit kintunnel.Base.Strings.split kintunnel.Base.Strings.join
    kintunnel.Base.Strings.decimal kintunnel.Base.Strings.parse_int
allocate_fresh_example =
    allocate_fresh (lit "10.8.0.0/24") (lit "10.8.0.2/32" ∷ []) (lit "10.8.0.3/32") refl

-- A subnet with one free host.
abbrev small : Ipv4Cidr
small = subnet 168296448 30

allocate_full_example :
    (allocate_peer_address (lit "10.8.0.0/30") (lit "10.8.0.2/32" ∷ [])
      ≡ err (no_free_error (lit "10.8.0.0/30")))
    ↔ ((m : ℕ) → small.first_host < m → m ≤ small.last_host → is_used (168296450 ∷ []) m ≡ true)
unfolding parse_ipv4_cidr used_numbers ipv4_to_number subnet lit kintunnel.Base.Strings.split
    kintunnel.Base.Strings.parse_int
allocate_full_example =
    allocate_full (lit "10.8.0.0/30") (lit "10.8.0.2/32" ∷ []) small (168296450 ∷ []) refl refl

subnet_bounds_example :
    let s = subnet 168296525 24 in
    let size = 2 ^ 8 in
    (s.network ≡ 168296525 / size * size)
    × (s.first_host ≡ s.network + 1)
    × (s.last_host + 2 ≡ s.network + size)
    × (s.network + size ≤ u32)
subnet_bounds_example = subnet_bounds 168296525 23 (omega arith) (omega arith)

ipv4_to_number-number_to_ipv4_example : ipv4_to_number (number_to_ipv4 168296450) ≡ ok 168296450
ipv4_to_number-number_to_ipv4_example = ipv4_to_number-number_to_ipv4 168296450 (omega arith)
