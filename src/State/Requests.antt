-- ===== src/State/Requests.antt =====
-- `parsePeerCreate` and `parsePersonCreate`: the validation of request bodies.
use kintunnel.Base.{
  String, ℕ, Bool, true, false, not, Option, none, some, List, [], ◌∷◌, ◌++◌, map, any, find, keep,
  if◌then◌else◌, is_some, or_default, Text, lit, text_eq, trim, pos, leb,
}
use kintunnel.Base.Failure.{Failure, validation, Result, ok, err, ◌>>=◌, ◌>>◌}
use kintunnel.Ip.{is_empty}
use kintunnel.Json.{
  Json, null, bool, whole, text, array, object, Items, nil, cons, Fields, keys, get, or_else,
}
use kintunnel.Peers.{
  unassigned_person_id, validate_peer_name, validate_wireguard_key, validate_allowed_ip,
  validate_dns_server, validate_expires_at, validate_person_id, validate_device_label,
  validate_person_notes,
}
use kintunnel.Platform.{Platform}
use kintunnel.State.Context.{invalid}

pub record PeerCreate : Type 0 where
  pub name : Text
  pub public_key : Option Text
  pub generate_keys : Bool
  pub allowed_ips : Option (List Text)
  pub dns_servers : Option (List Text)
  pub persistent_keepalive : Option ℕ
  pub expires_at : Option Text
  pub person_id : Option Text
  pub device_label : Option Text

pub record PersonCreate : Type 0 where
  pub display_name : Text
  pub notes : Option Text

unfoldable pub blank : Text → Bool
blank s = is_empty (trim s)

unfoldable pub optional_string : Option Json → Text → Result (Option Text)
optional_string none field = ok none
optional_string (some (text s)) field =
    if blank s then err (invalid field (lit "must be a non-empty string")) else ok (some (trim s))
optional_string (some _) field = err (invalid field (lit "must be a non-empty string"))

unfoldable pub optional_bool : Option Json → Text → Result (Option Bool)
optional_bool none field = ok none
optional_bool (some (bool b)) field = ok (some b)
optional_bool (some _) field = err (invalid field (lit "must be a boolean"))

unfoldable pub optional_number : Option Json → Text → Result (Option ℕ)
optional_number none field = ok none
optional_number (some (whole (pos n))) field =
    if leb n 65535
    then ok (some n)
    else err (invalid field (lit "must be an integer from 0 to 65535"))
optional_number (some _) field = err (invalid field (lit "must be an integer from 0 to 65535"))

-- The items, trimmed, where every one is a text that is not blank.
unfoldable pub text_items : Items → Option (List Text)
text_items nil = some []
text_items (cons (text s) rest) =
    if blank s then none else elim (text_items rest) [ none ↦ none | some ss ↦ some (trim s ∷ ss) ]
text_items (cons _ rest) = none

abbrev or_list_error : Text → Option (List Text) → Result (Option (List Text))
or_list_error field none = err (invalid field (lit "must be a list of non-empty strings"))
or_list_error field (some ss) = ok (some ss)

unfoldable pub optional_string_list : Option Json → Text → Result (Option (List Text))
unfolding text_items
optional_string_list none field = ok none
optional_string_list (some (array items)) field = or_list_error field (text_items items)
optional_string_list (some _) field =
    err (invalid field (lit "must be a list of non-empty strings"))

unfoldable pub body_fields : Option Json → Result Fields
body_fields (some (object fields)) = ok fields
body_fields _ = err (invalid (lit "body") (lit "must be a JSON object"))

abbrev pub nothing : Unit {0}
nothing = tt

abbrev require : Bool → Failure → Result (Unit {0})
require true e = ok nothing
require false e = err e

unfoldable pub reject_unknown : List Text → Fields → Result (Unit {0})
reject_unknown allowed fields =
    let unknown = keep (λ k. not (any (text_eq k) allowed)) (keys fields) in
    elim unknown [
      | [] ↦ ok nothing
      | k ∷ ks ↦ err (
          validation (lit "Request validation failed.")
            ((lit "unknown_fields", map (λ key. key ++ lit " is not allowed") (k ∷ ks)) ∷ []))
    ]

unfoldable pub allowed_peer_create_fields : List Text
allowed_peer_create_fields = map lit (
    "name" ∷ "public_key" ∷ "publicKey" ∷ "generate_keys" ∷ "generateKeys" ∷ "allowed_ips"
    ∷ "allowedIps" ∷ "dns_servers" ∷ "dnsServers" ∷ "persistent_keepalive" ∷ "persistentKeepalive"
    ∷ "expires_at" ∷ "expiresAt" ∷ "person_id" ∷ "personId" ∷ "device_label" ∷ "deviceLabel" ∷ [])

-- `if (value) { const complaint = validate(value); if (complaint) throw … }`
unfoldable pub check_text : Text → (Text → Option Text) → Option Text → Result (Unit {0})
check_text field validate none = ok nothing
check_text field validate (some s) = elim (validate s) [
  | none ↦ ok nothing
  | some complaint ↦ err (invalid field complaint)
]

-- The first item with a complaint stops the request.
unfoldable pub check_items : Text → (Text → Option Text) → Option (List Text) → Result (Unit {0})
check_items field validate none = ok nothing
check_items field validate (some items) = elim (find (λ item. is_some (validate item)) items) [
  | none ↦ ok nothing
  | some bad ↦
      err (invalid field (bad ++ (lit ": " ++ or_default (validate bad) (lit "undefined"))))
]

required_name : Option Json → Text → Result Text
required_name (some (text s)) field =
    if blank s then err (invalid field (lit "is required")) else ok (trim s)
required_name _ field = err (invalid field (lit "is required"))

reserved_complaint : Text
reserved_complaint = lit "is a reserved identifier; omit the field to leave a peer unassigned"

check_reserved : Option Text → Result (Unit {0})
check_reserved none = ok nothing
check_reserved (some id) =
    require (not (text_eq id unassigned_person_id)) (invalid (lit "person_id") reserved_complaint)

-- The raw name is returned, as in the source; `createPeer` trims it.
raw_text : Option Json → Text
raw_text (some (text s)) = s
raw_text _ = []

-- `body.snake ?? body.camel`
abbrev either_field : String → String → Fields → Option Json
either_field snake camel fields = or_else (get (lit snake) fields) (get (lit camel) fields)

unfoldable pub parse_peer_create : Platform → ℕ → Option Json → Result PeerCreate
unfolding required_name check_reserved raw_text reserved_complaint allowed_peer_create_fields
parse_peer_create p now input = do
  fields ← body_fields input
  reject_unknown allowed_peer_create_fields fields
  name ← required_name (get (lit "name") fields) (lit "name")
  check_text (lit "name") validate_peer_name (some name)
  public_key ← optional_string (either_field "public_key" "publicKey" fields) (lit "public_key")
  check_text (lit "public_key") validate_wireguard_key public_key
  allowed_ips ←
      optional_string_list (either_field "allowed_ips" "allowedIps" fields) (lit "allowed_ips")
  check_items (lit "allowed_ips") validate_allowed_ip allowed_ips
  dns_servers ←
      optional_string_list (either_field "dns_servers" "dnsServers" fields) (lit "dns_servers")
  check_items (lit "dns_servers") validate_dns_server dns_servers
  expires_at ← optional_string (either_field "expires_at" "expiresAt" fields) (lit "expires_at")
  check_text (lit "expires_at") (validate_expires_at p now) expires_at
  person_id ← optional_string (either_field "person_id" "personId" fields) (lit "person_id")
  check_text (lit "person_id") validate_person_id person_id
  check_reserved person_id
  device_label ←
      optional_string (either_field "device_label" "deviceLabel" fields) (lit "device_label")
  check_text (lit "device_label") validate_device_label device_label
  generate_keys ←
      optional_bool (either_field "generate_keys" "generateKeys" fields) (lit "generate_keys")
  persistent_keepalive ←
      optional_number (either_field "persistent_keepalive" "persistentKeepalive" fields)
        (lit "persistent_keepalive")
  ok (record {
    name = raw_text (get (lit "name") fields);
    public_key = public_key;
    generate_keys = or_default generate_keys (not (is_some public_key));
    allowed_ips = allowed_ips;
    dns_servers = dns_servers;
    persistent_keepalive = persistent_keepalive;
    expires_at = expires_at;
    person_id = person_id;
    device_label = device_label;
  })

notes_text : Option Json → Result (Option Text)
notes_text none = ok none
notes_text (some null) = ok none
notes_text (some (text s)) = ok (some s)
notes_text (some _) = err (invalid (lit "notes") (lit "must be a string"))

unfoldable pub parse_person_create : Option Json → Result PersonCreate
unfolding required_name notes_text
parse_person_create input = do
  fields ← body_fields input
  reject_unknown (map lit ("display_name" ∷ "displayName" ∷ "notes" ∷ [])) fields
  display_name ←
      required_name (either_field "display_name" "displayName" fields) (lit "display_name")
  notes ← notes_text (get (lit "notes") fields)
  check_text (lit "notes") validate_person_notes notes
  ok (record { display_name = display_name; notes = notes })
