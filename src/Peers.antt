-- ===== src/Peers.antt =====
-- packages/engine/src/peers.ts: the status that a peer shows, and the validators.
-- A validator returns the complaint, or `none` for a valid value.
pub mod Patterns
use kintunnel.Base.{
  ℕ, ◌≡◌, Bool, true, false, not, ◌&&◌, ◌||◌, Option, none, some, List, [], ◌∷◌, leb, ltb, ◌==◌,
  if◌then◌else◌, length, any, all, Text, lit, split, in_range, parse_int,
}
use kintunnel.Base.Failure.{Result, ok, err}
use kintunnel.Types.{PeerStatus, ApiPeerStatus, stored, expired, PeerRecord}
use kintunnel.Platform.{Platform}
use kintunnel.Ip.{ipv4_to_number, address_of, prefix_of, is_empty}
use Patterns.{
  wireguard_key_pattern, name_pattern, domain_pattern, device_label_pattern, uuid_pattern, is_hex,
}

abbrev pub unassigned_person_id : Text
unfolding lit
unassigned_person_id = lit "00000000-0000-0000-0000-000000000000"

abbrev pub is_active_status : PeerStatus → Bool
is_active_status PeerStatus.active = true
is_active_status _ = false

abbrev pub is_deleted_status : PeerStatus → Bool
is_deleted_status PeerStatus.deleted = true
is_deleted_status _ = false

-- `Date.parse(text) <= now`, false for a text that is no date.
abbrev pub is_past : Platform → Text → ℕ → Bool
is_past p s now = elim (p.parse_date s) [ none ↦ false | some t ↦ leb t now ]

-- A property that is present and not the empty text.
abbrev pub present : Option Text → Bool
present none = false
present (some s) = not (is_empty s)

abbrev text_or_empty : Option Text → Text
text_or_empty none = []
text_or_empty (some s) = s

unfoldable pub peer_api_status : Platform → ℕ → PeerRecord → ApiPeerStatus
peer_api_status p now peer =
    if is_active_status peer.status
      && present peer.expires_at
      && is_past p (text_or_empty peer.expires_at) now
    then expired
    else stored peer.status

abbrev pub shows_active : ApiPeerStatus → Bool
shows_active (stored PeerStatus.active) = true
shows_active _ = false

unfoldable pub is_peer_active : Platform → ℕ → PeerRecord → Bool
unfolding peer_api_status
is_peer_active p now peer = shows_active (peer_api_status p now peer)

-- `/[\u0000-\u001f\u007f]/`
unfoldable pub has_control_chars : Text → Bool
has_control_chars = any (λ c. leb c 0x1f || c == 0x7f)

unfoldable pub is_ipv4_address : Text → Bool
is_ipv4_address value = elim (ipv4_to_number value) [ ok n ↦ true | err e ↦ false ]

-- `/^[0-9A-Fa-f:.]+$/`, with a colon and at least three parts between colons
unfoldable pub is_ipv6_address : Text → Bool
is_ipv6_address value =
    any (λ c. c == b':') value
    && all (λ c. is_hex c || c == b':' || c == b'.') value
    && leb 3 (length (split b':' value))

-- `const [address, prefixRaw] = value.split("/")` and the tests on both
cidr_with : (Text → Bool) → ℕ → List Text → Bool
cidr_with is_address top parts = elim (prefix_of parts) [
  | none ↦ false
  | some prefix ↦
      not (is_empty (address_of parts))
      && in_range 0 top (parse_int prefix)
      && is_address (address_of parts)
]

unfoldable pub is_ipv4_cidr : Text → Bool
unfolding cidr_with is_ipv4_address
is_ipv4_cidr value = cidr_with is_ipv4_address 32 (split b'/' value)

unfoldable pub is_ipv6_cidr : Text → Bool
unfolding cidr_with is_ipv6_address
is_ipv6_cidr value = cidr_with is_ipv6_address 128 (split b'/' value)

-- The checks of a validator, in order, each with its complaint.
abbrev check : Bool → Text → Option Text → Option Text
check valid complaint later = if valid then later else some complaint

unfoldable pub control_complaint : Text
control_complaint = lit "must not contain control characters"

abbrev name_complaint : Text
name_complaint =
    lit "must be 1-120 characters using letters, numbers, spaces, dot, underscore, or hyphen"

unfoldable pub validate_peer_name : Text → Option Text
validate_peer_name name =
    check (not (has_control_chars name)) control_complaint
      (check (name_pattern name) name_complaint none)

unfoldable pub validate_wireguard_key : Text → Option Text
validate_wireguard_key key =
    check (not (has_control_chars key)) control_complaint
      (check (wireguard_key_pattern key) (lit "must be a WireGuard base64 public key") none)

unfoldable pub validate_allowed_ip : Text → Option Text
unfolding is_ipv4_cidr is_ipv6_cidr
validate_allowed_ip value =
    check (not (has_control_chars value)) control_complaint
      (check (is_ipv4_cidr value || is_ipv6_cidr value) (lit "must be an IPv4 or IPv6 CIDR") none)

unfoldable pub validate_dns_server : Text → Option Text
unfolding is_ipv4_address is_ipv6_address
validate_dns_server value = check (not (has_control_chars value)) control_complaint (
    check (is_ipv4_address value || is_ipv6_address value || domain_pattern value)
      (lit "must be an IP address or DNS hostname") none)

unfoldable pub validate_expires_at : Platform → ℕ → Text → Option Text
validate_expires_at p now value = elim (p.parse_date value) [
  | none ↦ some (lit "must be a valid date")
  | some time ↦ check (ltb now time) (lit "must be in the future") none
]

unfoldable pub validate_person_name : Text → Option Text
validate_person_name name =
    check (not (has_control_chars name)) control_complaint
      (check (name_pattern name) name_complaint none)

unfoldable pub validate_person_notes : Text → Option Text
validate_person_notes notes =
    check (not (has_control_chars notes)) control_complaint
      (check (leb (length notes) 2000) (lit "must be at most 2000 characters") none)

unfoldable pub validate_device_label : Text → Option Text
validate_device_label label = check (not (has_control_chars label)) control_complaint (
    check (device_label_pattern label)
      (lit "must be 1-40 characters using letters, numbers, spaces, dot, underscore, or hyphen")
      none)

unfoldable pub validate_person_id : Text → Option Text
validate_person_id id = check (uuid_pattern id) (lit "must be a valid UUID") none
