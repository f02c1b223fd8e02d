-- ===== src/Types/Results.antt =====
-- packages/engine/src/types.ts: what a reconcile and its two halves report.
use kintunnel.Base.{ℕ, Bool, Option, List, Text}

pub record ApplyPlan : Type 0 where
  pub bootstrap : Bool
  pub reconfigure_interface : Bool
  pub add_peers : List Text
  pub remove_peers : List Text
  pub modify_peers : List Text

pub record PeerChanges : Type 0 where
  pub added : List Text
  pub removed : List Text
  pub modified : List Text

pub record DriftReport : Type 0 where
  pub detected : Bool
  pub fields : List Text

pub record ApplyResult : Type 0 where
  pub ok : Bool
  pub dry_run : Bool
  pub bootstrap : Bool
  pub applied : Bool
  pub revision : ℕ
  pub interface_name : Text
  pub actions_executed : List Text
  pub peer_changes : PeerChanges
  pub drift : Option DriftReport
  pub started_at : Text
  pub finished_at : Text
  pub messages : List Text
  pub errors : List Text

pub record NetworkingResult : Type 0 where
  pub ok : Bool
  pub applied : Bool
  pub rules_inserted : List Text
  pub rules_rolled_back : List Text
  pub forwarding_enabled : Bool
  pub warnings : List Text
  pub errors : List Text

pub record ReconcileResult : Type 0 where
  pub ok : Bool
  pub dry_run : Bool
  pub applied : Bool
  pub revision : ℕ
  pub interface_name : Text
  pub active_peer_count : ℕ
  pub started_at : Text
  pub finished_at : Text
  pub messages : List Text
  pub errors : List Text
  pub apply : Option ApplyResult
  pub networking : Option NetworkingResult
  pub actions_executed : Option (List Text)
