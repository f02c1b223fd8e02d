-- ===== src/State/Peers.antt =====
-- The mutations of peers: `createPeer`, `createPeerInState`, `deletePeer` and `revokePeer`.
pub mod Effects
pub mod Creation
pub mod Removal
pub mod Success
use kintunnel.Base.{
  ℕ, ◌+◌, Bool, true, false, not, ◌&&◌, ◌||◌, Option, none, some, List, [], ◌∷◌, ◌++◌, map, any,
  find, keep, change_first, if◌then◌else◌, is_some, or_default, Text, lit, text_eq, trim,
}
use kintunnel.Base.Failure.{Failure, Result, ok, err, ◌>>=◌, ◌>>◌}
use kintunnel.Types.{
  EngineState, EngineConfig, PeerRecord, PersonRecord, PeerStatus, PersonStatus, AuditAction,
  MetaValue, KeyPair,
}
use kintunnel.Platform.{Platform}
use kintunnel.Ip.{allocate_peer_address, is_empty}
use kintunnel.Keys.{generate_key_pair}
use kintunnel.Peers.{is_deleted_status}
use kintunnel.State.Context.{
  Context, EventInput, append_event, bump, Outcome, invalid, peer_not_found, is_peer, is_person,
}
use kintunnel.State.Requests.{PeerCreate, nothing}

-- `peer.status !== "deleted"`
abbrev pub is_live : PeerRecord → Bool
is_live peer = not (is_deleted_status peer.status)

abbrev pub live_peers : EngineState → List PeerRecord
live_peers s = keep is_live s.peers

abbrev text_or_null : Option Text → MetaValue
text_or_null none = MetaValue.null
text_or_null (some s) = MetaValue.text s

abbrev require : Bool → Failure → Result (Unit {0})
require true e = ok nothing
require false e = err e

-- `if (!publicKey) throw …`: missing, or the empty text
present_key : Option Text → Result Text
present_key none = err (invalid (lit "public_key") (lit "is required when generate_keys is false"))
present_key (some k) =
    if is_empty k
    then err (invalid (lit "public_key") (lit "is required when generate_keys is false"))
    else ok k

is_active_person : PersonStatus → Bool
is_active_person PersonStatus.active = true
is_active_person PersonStatus.archived = false

-- The person that a request names has to exist and to be active.
unfoldable pub linked_person : Option Text → EngineState → Result (Option Text)
unfolding is_active_person
linked_person none s = ok none
linked_person (some id) s = elim (find (is_person id) s.persons) [
  | none ↦ err (invalid (lit "person_id") (lit "person not found"))
  | some person ↦
      if is_active_person person.status
      then ok (some person.id)
      else err (invalid (lit "person_id") (lit "person is archived"))
]

-- `body.publicKey ?? keyPair?.publicKey` and `keyPair?.privateKey`
unfoldable pub chosen_key : Option Text → Option KeyPair → Option Text
chosen_key (some k) pair = some k
chosen_key none none = none
chosen_key none (some pair) = some pair.public_key

unfoldable pub private_part : Option KeyPair → Option Text
private_part none = none
private_part (some pair) = some pair.private_key

-- The checks of `createPeerInState` and the record that it builds.
unfoldable pub new_peer :
    PeerCreate → Text → Text → Text → Option KeyPair → EngineState → Result PeerRecord
unfolding present_key linked_person chosen_key private_part is_active_person
new_peer body name id now pair s = do
  key ← present_key (chosen_key body.public_key pair)
  require (not (any (λ q. is_live q && text_eq q.public_key key) s.peers))
      (invalid (lit "public_key") (lit "must be unique"))
  person ← linked_person body.person_id s
  address ← allocate_peer_address s.server.tunnel_cidr_v4 (map (λ q. q.address_v4) (live_peers s))
  ok (record {
    id = id;
    name = name;
    public_key = key;
    private_key = private_part pair;
    address_v4 = address;
    allowed_ips = or_default body.allowed_ips s.server.default_allowed_ips;
    dns_servers = or_default body.dns_servers s.server.default_dns_servers;
    persistent_keepalive = or_default body.persistent_keepalive s.server.persistent_keepalive;
    status = PeerStatus.active;
    expires_at = body.expires_at;
    created_at = now;
    updated_at = now;
    revoked_at = none;
    deleted_at = none;
    person_id = person;
    device_label = body.device_label;
  })

created_event : Bool → PeerRecord → Text → EventInput
created_event generated peer now = record {
  action = AuditAction.peer_created;
  actor = none;
  target_id = some peer.id;
  target_name = some peer.name;
  created_at = now;
  metadata = some (
      (lit "address_v4", MetaValue.text peer.address_v4)
      ∷ (lit "generated_keys", MetaValue.flag generated)
      ∷ (lit "person_id", text_or_null peer.person_id)
      ∷ (lit "device_label", text_or_null peer.device_label)
      ∷ []);
}

device_event : Option PersonRecord → PeerRecord → Text → EventInput
device_event person peer now = record {
  action = AuditAction.person_device_added;
  actor = none;
  target_id = elim person [ none ↦ none | some q ↦ some q.id ];
  target_name = elim person [ none ↦ none | some q ↦ some q.display_name ];
  created_at = now;
  metadata = some (
      (lit "peer_id", MetaValue.text peer.id)
      ∷ (lit "peer_name", MetaValue.text peer.name)
      ∷ (lit "device_label", text_or_null peer.device_label)
      ∷ []);
}

-- The second event, for a peer that belongs to a person.
announce_device : Platform → PeerRecord → Text → Option Text → Context → Context
unfolding device_event
announce_device p peer now none c = c
announce_device p peer now (some id) c =
    if is_empty id
    then c
    else append_event p (device_event (find (is_person id) c.state.persons) peer now) c

pub add_peer : Platform → Bool → PeerRecord → Text → Context → Context
unfolding created_event announce_device
add_peer p generated peer now c =
    let s = bump (record c.state { peers = c.state.peers ++ peer ∷ [] }) in
    announce_device p peer now peer.person_id
      (append_event p (created_event generated peer now) (record c { state = s }))

-- The key pair, where one is generated.
pub draw_keys : Platform → Bool → Bool → Text → ℕ → Result (Option KeyPair) × ℕ
draw_keys p dry_run false seed drawn = (ok none, drawn)
draw_keys p dry_run true seed drawn =
    let (r, drawn') = generate_key_pair p dry_run seed drawn in
    ((do pair ← r; ok (some pair)), drawn')

store_peer : Platform → Bool → Text → Context → Result PeerRecord → Outcome PeerRecord
store_peer p generated now c (err e) = (err e, c)
store_peer p generated now c (ok peer) = (ok peer, add_peer p generated peer now c)

pub create_peer_in_state :
    Platform → EngineConfig → PeerCreate → Text → Text → Context → Outcome PeerRecord
unfolding draw_keys store_peer
create_peer_in_state p config body name now c =
    let id = p.uuid c.drawn in
    let generated = body.generate_keys || not (is_some body.public_key) in
    let seed = lit "peer:" ++ (id ++ (lit ":" ++ name)) in
    let (drawn_pair, drawn) = draw_keys p config.dry_run generated seed (c.drawn + 1) in
    store_peer p generated now (record c { drawn = drawn })
      (do pair ← drawn_pair; new_peer body name id now pair c.state)

-- The body of `createPeer`, after the request was parsed.
unfoldable pub create_peer : Platform → EngineConfig → PeerCreate → ℕ → Context → Outcome PeerRecord
unfolding create_peer_in_state
create_peer p config body now c =
    let name = trim body.name in
    if any (λ q. is_live q && text_eq q.name name) c.state.peers
    then (err (invalid (lit "name") (lit "must be unique")), c)
    else create_peer_in_state p config body name (p.iso now) c

-- `peer.revokedAt ??= now`
unfoldable pub mark_deleted : Text → PeerRecord → PeerRecord
mark_deleted now peer = record peer {
  status = PeerStatus.deleted;
  revoked_at = some (or_default peer.revoked_at now);
  deleted_at = some now;
  updated_at = now;
}

unfoldable pub mark_revoked : Text → PeerRecord → PeerRecord
mark_revoked now peer = record peer {
  status = PeerStatus.revoked;
  revoked_at = some now;
  updated_at = now;
}

abbrev pub peer_event : AuditAction → PeerRecord → Text → EventInput
peer_event action peer now = record {
  action = action;
  actor = none;
  target_id = some peer.id;
  target_name = some peer.name;
  created_at = now;
  metadata = none;
}

-- The first peer with the id is changed in place, unless it is missing or deleted.
change_peer :
    Platform → AuditAction → (PeerRecord → PeerRecord) → Text → Text → Context → Outcome PeerRecord
change_peer p action change id now c = elim (find (is_peer id) c.state.peers) [
  | none ↦ (err peer_not_found, c)
  | some peer ↦
      if is_deleted_status peer.status
      then (err peer_not_found, c)
      else let s =
          bump (record c.state { peers = change_first (is_peer id) change c.state.peers }) in
        (
          ok (change peer),
          append_event p (peer_event action (change peer) now) (record c { state = s }),
        )
]

unfoldable pub delete_peer : Platform → Text → ℕ → Context → Outcome PeerRecord
unfolding change_peer mark_deleted
delete_peer p id now =
    change_peer p AuditAction.peer_deleted (mark_deleted (p.iso now)) id (p.iso now)

unfoldable pub revoke_peer : Platform → Text → ℕ → Context → Outcome PeerRecord
unfolding change_peer mark_revoked
revoke_peer p id now =
    change_peer p AuditAction.peer_revoked (mark_revoked (p.iso now)) id (p.iso now)
