-- ===== src/Types.antt =====
-- packages/engine/src/types.ts: the records of the engine's state.
-- Optional properties are `Option`s, numbers that are whole and not negative are ℕ.
pub mod Results
use kintunnel.Base.{ℕ, Bool, Option, List, Text}
use Results.{ApplyResult, NetworkingResult, ReconcileResult}

pub data PeerStatus : Type 0 where
  active disabled revoked deleted : PeerStatus

pub data ApiPeerStatus : Type 0 where
  stored : PeerStatus → ApiPeerStatus
  expired : ApiPeerStatus

pub data PersonStatus : Type 0 where
  active archived : PersonStatus

pub data AuditAction : Type 0 where
  state_initialized peer_created peer_config_exported peer_revoked peer_deleted : AuditAction
  reconcile_completed : AuditAction
  peer_expired_auto_revoked peer_expired_warned peer_expiring_warned : AuditAction
  apply_interface_created apply_interface_reconfigured apply_peer_added : AuditAction
  apply_peer_removed apply_peer_synced apply_drift_detected apply_rollback_executed : AuditAction
  networking_forwarding_enabled networking_masquerade_applied : AuditAction
  networking_forward_policy_applied networking_rolledback : AuditAction
  backup_created backup_create_failed backup_pruned backup_restored : AuditAction
  backup_restore_failed backup_exported backup_imported backup_deleted : AuditAction
  person_created person_updated person_archived person_deleted : AuditAction
  person_device_added person_device_removed person_devices_revoked : AuditAction

-- `string | number | boolean | null`; a number that is not whole is kept as its notation.
pub data MetaValue : Type 0 where
  text : Text → MetaValue
  number : ℕ → MetaValue
  fraction : Text → MetaValue
  flag : Bool → MetaValue
  null : MetaValue

abbrev pub Metadata : Type 0
Metadata = List (Text × MetaValue)

pub record ServerSettings : Type 0 where
  pub interface_name : Text
  pub listen_port : ℕ
  pub endpoint_host : Text
  pub endpoint_port : ℕ
  pub tunnel_cidr_v4 : Text
  pub server_address_v4 : Text
  pub server_public_key : Text
  pub server_private_key : Text
  pub default_allowed_ips : List Text
  pub default_dns_servers : List Text
  pub persistent_keepalive : ℕ
  pub mtu : Option ℕ
  pub nat_enabled : Bool
  pub forwarding_required : Bool
  pub updated_at : Text

pub record PeerRecord : Type 0 where
  pub id : Text
  pub name : Text
  pub public_key : Text
  pub private_key : Option Text
  pub address_v4 : Text
  pub allowed_ips : List Text
  pub dns_servers : List Text
  pub persistent_keepalive : ℕ
  pub status : PeerStatus
  pub expires_at : Option Text
  pub created_at : Text
  pub updated_at : Text
  pub revoked_at : Option Text
  pub deleted_at : Option Text
  pub person_id : Option Text
  pub device_label : Option Text

pub record PersonRecord : Type 0 where
  pub id : Text
  pub display_name : Text
  pub notes : Option Text
  pub status : PersonStatus
  pub created_at : Text
  pub updated_at : Text

pub record AuditEvent : Type 0 where
  pub id : Text
  pub action : AuditAction
  pub actor : Text
  pub target_id : Option Text
  pub target_name : Option Text
  pub revision : ℕ
  pub created_at : Text
  pub metadata : Option Metadata

-- `expiry_warned` is the map that the expiry sweep keeps beside the declared properties: the time
-- of the last warning for each peer id, at most one entry for an id.
pub record EngineState : Type 0 where
  pub version : ℕ
  pub revision : ℕ
  pub server : ServerSettings
  pub peers : List PeerRecord
  pub persons : List PersonRecord
  pub events : Option (List AuditEvent)
  pub last_reconcile : Option ReconcileResult
  pub expiry_warned : List (Text × Text)

pub record EngineConfig : Type 0 where
  pub env : Text
  pub port : ℕ
  pub data_dir : Text
  pub state_path : Text
  pub dry_run : Bool
  pub api_token : Text
  pub interface_name : Text
  pub listen_port : ℕ
  pub endpoint_host : Text
  pub endpoint_port : ℕ
  pub tunnel_cidr_v4 : Text
  pub default_allowed_ips : List Text
  pub default_dns_servers : List Text
  pub persistent_keepalive : ℕ
  pub nat_enabled : Bool
  pub forwarding_required : Bool
  pub nat_apply : Bool
  pub backup_dir : Text
  pub backup_retention_count : ℕ
  pub backup_lock_timeout_ms : ℕ
  pub apply_bootstrap_timeout_ms : ℕ
  pub wg_egress_interface : Option Text

pub record KeyPair : Type 0 where
  pub private_key : Text
  pub public_key : Text
