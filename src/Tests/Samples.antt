-- ===== src/Tests/Samples.antt =====
-- The values that the tests run on.
use kintunnel.Base.{
  ℕ, ◌≡◌, refl, Bool, true, false, Option, none, some, List, [], ◌∷◌, Text, lit, decimal, arith,
}
use kintunnel.Base.Failure.{ok}
use kintunnel.Types.{
  EngineState, EngineConfig, ServerSettings, PeerRecord, PersonRecord, PeerStatus, PersonStatus,
}
use kintunnel.Platform.{Platform}
use kintunnel.Ip.{allocate_peer_address}
use kintunnel.Ip.Allocation.{InSubnet, allocate_peer_address-InSubnet}
use kintunnel.State.Context.{Context}
use kintunnel.State.Validity.{IsValid}
use kintunnel.Store.{World, missing, holds, stored_form}

-- Dates are written as a single character of their own value.
abbrev parse : Text → Option ℕ
parse (n ∷ []) = some n
parse _ = none

abbrev pub platform : Platform
platform = record {
  uuid = λ n. (n ∷ []);
  parse_date = parse;
  iso = λ n. (n ∷ []);
  sha256_base64 = λ seed. seed;
  wg_key_pair = λ n. ok (record { private_key = n ∷ []; public_key = n ∷ n ∷ [] });
  days_fixed = λ ms. (ms ∷ []);
  json_labels = λ labels. [];
  json_text = λ s. s;
}

abbrev pub engine : EngineConfig
engine = record {
  env = lit "development";
  port = 4000;
  data_dir = lit "/data";
  state_path = lit "/data/state.json";
  api_token = lit "token";
  backup_dir = lit "/backups";
  backup_lock_timeout_ms = 30000;
  apply_bootstrap_timeout_ms = 15000;
  dry_run = true;
  interface_name = lit "wg0";
  listen_port = 51820;
  endpoint_host = lit "vpn.example.com";
  endpoint_port = 51820;
  tunnel_cidr_v4 = lit "10.8.0.0/24";
  default_allowed_ips = lit "0.0.0.0/0" ∷ [];
  default_dns_servers = lit "1.1.1.1" ∷ [];
  persistent_keepalive = 25;
  nat_enabled = true;
  forwarding_required = true;
  nat_apply = false;
  backup_retention_count = 10;
  wg_egress_interface = none;
}

abbrev pub server : ServerSettings
server = record {
  interface_name = lit "wg0";
  listen_port = 51820;
  endpoint_host = lit "vpn.example.com";
  endpoint_port = 51820;
  tunnel_cidr_v4 = lit "10.8.0.0/24";
  server_address_v4 = lit "10.8.0.1/32";
  server_public_key = lit "S";
  server_private_key = lit "s";
  default_allowed_ips = lit "0.0.0.0/0" ∷ [];
  default_dns_servers = lit "1.1.1.1" ∷ [];
  persistent_keepalive = 25;
  mtu = none;
  nat_enabled = true;
  forwarding_required = true;
  updated_at = 1 ∷ [];
}

-- The laptop expires at the instant 5, and belongs to the person.
abbrev pub laptop : PeerRecord
laptop = record {
  id = lit "a";
  name = lit "laptop";
  public_key = lit "A";
  private_key = none;
  address_v4 = lit "10.8.0.2/32";
  allowed_ips = lit "0.0.0.0/0" ∷ [];
  dns_servers = lit "1.1.1.1" ∷ [];
  persistent_keepalive = 25;
  status = PeerStatus.active;
  expires_at = some (5 ∷ []);
  created_at = 1 ∷ [];
  updated_at = 1 ∷ [];
  revoked_at = none;
  deleted_at = none;
  person_id = some (lit "u");
  device_label = none;
}

abbrev pub phone : PeerRecord
phone = record laptop {
  id = lit "b";
  name = lit "phone";
  public_key = lit "B";
  address_v4 = lit "10.8.0.3/32";
  expires_at = none;
  person_id = none;
}

abbrev pub user : PersonRecord
user = record {
  id = lit "u";
  display_name = lit "User";
  notes = none;
  status = PersonStatus.active;
  created_at = 1 ∷ [];
  updated_at = 1 ∷ [];
}

abbrev pub state : EngineState
state = record {
  version = 1;
  revision = 3;
  server = server;
  peers = laptop ∷ phone ∷ [];
  persons = user ∷ [];
  events = none;
  last_reconcile = none;
  expiry_warned = [];
}

abbrev pub context : Context
context = record { state = state; sink = []; drawn = 7 }

abbrev pub empty_disk : World
empty_disk = record { file = missing; sink = []; drawn = 0 }

abbrev pub disk : World
disk = record { file = holds (stored_form state); sink = []; drawn = 7 }

laptop_address : InSubnet (lit "10.8.0.0/24") (lit "10.8.0.2/32")
unfolding allocate_peer_address lit kintunnel.Base.Strings.split kintunnel.Base.Strings.join
    kintunnel.Base.Strings.decimal kintunnel.Base.Strings.parse_int
laptop_address = allocate_peer_address-InSubnet (lit "10.8.0.0/24") [] (lit "10.8.0.2/32") refl

phone_address : InSubnet (lit "10.8.0.0/24") (lit "10.8.0.3/32")
unfolding allocate_peer_address lit kintunnel.Base.Strings.split kintunnel.Base.Strings.join
    kintunnel.Base.Strings.decimal kintunnel.Base.Strings.parse_int
phone_address =
    allocate_peer_address-InSubnet (lit "10.8.0.0/24") (lit "10.8.0.2/32" ∷ []) (lit "10.8.0.3/32")
      refl

pub state-IsValid : IsValid state
unfolding lit kintunnel.Base.Units.text_eq
state-IsValid = record {
  distinct = record {
    names = ((λ _. refl), ((λ _. refl), tt));
    keys = ((λ _. refl), ((λ _. refl), tt));
    addresses = ((λ _. refl), ((λ _. refl), tt));
  };
  bounded = omega arith;
  inside = (laptop_address, (phone_address, tt));
}
