-- ===== src/Store.antt =====
-- packages/engine/src/state.ts: `load`, `save` and `update` of the class `StateStore`.
pub mod Calls
pub mod Safety
pub mod Histories
pub mod Durability
use kintunnel.Base.{ℕ, ◌+◌, Bool, Option, none, some, List, [], ◌∷◌, ◌++◌, or_default, Text, lit}
use kintunnel.Base.Failure.{Failure, Result, ok, err, ◌>>=◌}
use kintunnel.Types.{
  EngineState, EngineConfig, ServerSettings, PeerRecord, PersonRecord, AuditEvent, AuditAction,
  MetaValue, KeyPair,
}
use kintunnel.Types.Results.{ReconcileResult}
use kintunnel.Platform.{Platform}
use kintunnel.Ip.{Ipv4Cidr, parse_ipv4_cidr, number_to_ipv4}
use kintunnel.Keys.{generate_key_pair}
use kintunnel.State.Context.{Context, Outcome}

-- The content of `state.json`. Files of older engines have no persons, or no warnings.
pub record StoredState : Type 0 where
  pub version : ℕ
  pub revision : ℕ
  pub server : ServerSettings
  pub peers : List PeerRecord
  pub persons : Option (List PersonRecord)
  pub events : Option (List AuditEvent)
  pub last_reconcile : Option ReconcileResult
  pub expiry_warned : Option (List (Text × Text))

pub data File : Type 0 where
  missing : File
  holds : StoredState → File
  unreadable : Failure → File

-- The file, the events handed to the audit sink and the number of random ids drawn so far.
pub record World : Type 0 where
  pub file : File
  pub sink : List AuditEvent
  pub drawn : ℕ

-- The forward migration of `load`.
unfoldable pub migrate : StoredState → EngineState
migrate s = record {
  version = s.version;
  revision = s.revision;
  server = s.server;
  peers = s.peers;
  persons = or_default s.persons [];
  events = s.events;
  last_reconcile = s.last_reconcile;
  expiry_warned = or_default s.expiry_warned [];
}

unfoldable pub stored_form : EngineState → StoredState
stored_form s = record {
  version = s.version;
  revision = s.revision;
  server = s.server;
  peers = s.peers;
  persons = some s.persons;
  events = s.events;
  last_reconcile = s.last_reconcile;
  expiry_warned = some s.expiry_warned;
}

-- `save`: the temporary file replaces the target.
unfoldable pub save : EngineState → World → World
save s w = record w { file = holds (stored_form s) }

first_event : Platform → EngineConfig → ℕ → Text → AuditEvent
first_event p config drawn now = record {
  id = p.uuid drawn;
  action = AuditAction.state_initialized;
  actor = lit "engine";
  target_id = none;
  target_name = none;
  revision = 1;
  created_at = now;
  metadata = some (
      (lit "interface", MetaValue.text config.interface_name)
      ∷ (lit "tunnel_cidr_v4", MetaValue.text config.tunnel_cidr_v4)
      ∷ (lit "dry_run", MetaValue.flag config.dry_run)
      ∷ []);
}

fresh_state : Platform → EngineConfig → Text → KeyPair → Ipv4Cidr → ℕ → EngineState
unfolding first_event
fresh_state p config now pair parsed drawn = record {
  version = 1;
  revision = 1;
  server = record {
    interface_name = config.interface_name;
    listen_port = config.listen_port;
    endpoint_host = config.endpoint_host;
    endpoint_port = config.endpoint_port;
    tunnel_cidr_v4 = config.tunnel_cidr_v4;
    server_address_v4 = number_to_ipv4 parsed.first_host ++ lit "/32";
    server_public_key = pair.public_key;
    server_private_key = pair.private_key;
    default_allowed_ips = config.default_allowed_ips;
    default_dns_servers = config.default_dns_servers;
    persistent_keepalive = config.persistent_keepalive;
    mtu = none;
    nat_enabled = config.nat_enabled;
    forwarding_required = config.forwarding_required;
    updated_at = now;
  };
  peers = [];
  persons = [];
  events = some (first_event p config drawn now ∷ []);
  last_reconcile = none;
  expiry_warned = [];
}

abbrev counted : ℕ → Result EngineState → Result EngineState × ℕ
counted drawn (err e) = (err e, drawn)
counted drawn (ok s) = (ok s, drawn + 1)

-- `initialState`, with the number of draws after it.
unfoldable pub initial_state : Platform → EngineConfig → ℕ → ℕ → Result EngineState × ℕ
unfolding fresh_state
initial_state p config now drawn =
    let (keys, drawn') = generate_key_pair p config.dry_run (lit "server:default") drawn in
    counted drawn' (do
      pair ← keys
      parsed ← parse_ipv4_cidr config.tunnel_cidr_v4
      ok (fresh_state p config (p.iso now) pair parsed drawn'))

-- The new state goes to disk at once; no second process creates the file in between.
abbrev create_file : World → Result EngineState × ℕ → Result EngineState × World
create_file w (err e, drawn) = (err e, record w { drawn = drawn })
create_file w (ok s, drawn) = (ok s, save s (record w { drawn = drawn }))

load_file : Platform → EngineConfig → ℕ → World → File → Result EngineState × World
load_file p config now w missing = create_file w (initial_state p config now w.drawn)
load_file p config now w (holds s) = (ok (migrate s), w)
load_file p config now w (unreadable e) = (err e, w)

unfoldable pub load : Platform → EngineConfig → ℕ → World → Result EngineState × World
unfolding load_file
load p config now w = load_file p config now w w.file

-- After the mutation: a result is saved, a throw leaves the file alone.
unfoldable pub settle {ℓ} : {A : Type ℓ} → World → Result A × Context → Result A × World
settle w (err e, c) = (err e, record w { sink = c.sink; drawn = c.drawn })
settle w (ok a, c) = (ok a, save c.state (record w { sink = c.sink; drawn = c.drawn }))

run_loaded : {A : Type 0} → (Context → Outcome A) → Result EngineState × World → Result A × World
run_loaded mutate (err e, w) = (err e, w)
run_loaded mutate (ok s, w) =
    settle w (mutate (record { state = s; sink = w.sink; drawn = w.drawn }))

-- `update`: load, mutate, save. The write queue runs one call at a time, in the order of the calls.
unfoldable pub update :
    {A : Type 0} → Platform → EngineConfig → ℕ → (Context → Outcome A) → World → Result A × World
unfolding run_loaded
update p config now mutate w = run_loaded mutate (load p config now w)
