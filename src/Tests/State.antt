-- ===== src/Tests/State.antt =====
-- The mutations of the state: the theorems at a state with two peers and a person.
use kintunnel.Base.{
  ◌++◌, ℕ, ◌≡◌, ◌≢◌, refl, Bool, true, false, Option, none, some, List, [], ◌∷◌, Text, lit, find,
  keep, map, arith, text_eq_iff,
}
use kintunnel.Base.Failure.{ok}
use kintunnel.Types.{KeyPair, PeerRecord, PeerStatus}
use kintunnel.Ip.{allocate_peer_address}
use kintunnel.Keys.{dry_run_key_pair, generate_key_pair}
use kintunnel.State.Context.{append_event, is_peer, is_person}
use kintunnel.State.Requests.{PeerCreate}
use kintunnel.State.Validity.{IsValid}
use kintunnel.State.Peers.{
  create_peer, delete_peer, revoke_peer, mark_deleted, linked_person, new_peer,
}
use kintunnel.State.Peers.Creation.{create_peer-IsValid}
use kintunnel.State.Peers.Success.{drawn_keys, create_peer-mixed_keys, Created, create_peer-Created}
use kintunnel.State.Peers.Removal.{Frees, delete_peer-Frees, delete_peer-other}
use kintunnel.State.Persons.{RevokedDevices, revoke_person_devices, delete_person, is_revocable}
use kintunnel.State.Persons.Devices.{revoke_person_devices-Report, delete_person-hard}
use kintunnel.State.Sweep.{SweepResult, SweepOptions, sweep_expired}
use kintunnel.State.Sweep.Effects.{revision-sweep_expired}
use kintunnel.State.Sweep.Report.{sweep_expired-again, is_expired, swept_peer, sweep_expired-Report}
use kintunnel.Tests.Samples.{platform, engine, laptop, state, context, user, state-IsValid}

delete_peer-Frees_example :
    Frees (mark_deleted (9 ∷ []) laptop) (delete_peer platform (lit "a") 9 context).1.state.peers
unfolding delete_peer mark_deleted lit kintunnel.Base.Units.text_eq
delete_peer-Frees_example =
    delete_peer-Frees platform (lit "a") 9 context (mark_deleted (9 ∷ []) laptop) state-IsValid refl

other_id : lit "b" ≢ lit "a"
unfolding lit kintunnel.Base.Units.text_eq
other_id h = let same = (text_eq_iff (lit "b") (lit "a")).1 h in absurd (ground arith)

delete_peer-other_example :
    find (is_peer (lit "b")) (delete_peer platform (lit "a") 9 context).1.state.peers
    ≡ find (is_peer (lit "b")) state.peers
unfolding delete_peer mark_deleted lit kintunnel.Base.Units.text_eq
delete_peer-other_example =
    delete_peer-other platform (lit "a") 9 context (mark_deleted (9 ∷ []) laptop) refl (lit "b")
      other_id

abbrev tablet : PeerCreate
tablet = record {
  name = lit " tablet ";
  public_key = some (lit "T");
  generate_keys = false;
  allowed_ips = none;
  dns_servers = none;
  persistent_keepalive = none;
  expires_at = none;
  person_id = some (lit "u");
  device_label = none;
}

abbrev stored_tablet : PeerRecord
stored_tablet = record {
  id = 7 ∷ [];
  name = lit "tablet";
  public_key = lit "T";
  private_key = none;
  address_v4 = lit "10.8.0.4/32";
  allowed_ips = lit "0.0.0.0/0" ∷ [];
  dns_servers = lit "1.1.1.1" ∷ [];
  persistent_keepalive = 25;
  status = PeerStatus.active;
  expires_at = none;
  created_at = 9 ∷ [];
  updated_at = 9 ∷ [];
  revoked_at = none;
  deleted_at = none;
  person_id = some (lit "u");
  device_label = none;
}

create_peer-Created_example :
    Created platform engine tablet 9 context
      (create_peer platform engine tablet 9 context).1
      stored_tablet
unfolding create_peer lit kintunnel.Base.Units.text_eq kintunnel.Base.Strings.trim
    kintunnel.Base.Strings.split kintunnel.Base.Strings.join kintunnel.Base.Strings.decimal
    kintunnel.Base.Strings.parse_int allocate_peer_address generate_key_pair linked_person new_peer
    kintunnel.State.Peers.chosen_key kintunnel.State.Peers.private_part
create_peer-Created_example =
    create_peer-Created platform engine tablet 9 context stored_tablet refl

create_peer-IsValid_example : IsValid (create_peer platform engine tablet 9 context).1.state
create_peer-IsValid_example = create_peer-IsValid platform engine tablet 9 context state-IsValid

abbrev options : SweepOptions
options = record { auto_revoke = true; warn_within_days = 7; actor = none }

sweep_expired-Report_example :
    ((lit "a" ∷ []) ≡ map (λ q. q.id) (keep (is_expired platform 9) state.peers))
    × ((lit "a" ∷ []) ≡ (lit "a" ∷ []))
    × ((sweep_expired platform options 9 context).1.state.peers
        ≡ map (swept_peer platform options 9) state.peers)
unfolding sweep_expired lit kintunnel.Base.Units.text_eq kintunnel.State.Sweep.expiry_of
sweep_expired-Report_example =
    sweep_expired-Report platform options 9 context
      (record { expired = lit "a" ∷ []; auto_revoked = lit "a" ∷ []; expiring_soon = [] }) refl

revision-sweep_expired_example : (sweep_expired platform options 9 context).1.state.revision ≡ 3
revision-sweep_expired_example = revision-sweep_expired platform options 9 context

abbrev devices : RevokedDevices
devices = record { person_id = lit "u"; revoked_peer_ids = lit "a" ∷ []; already_revoked = 0 }

abbrev no_devices : RevokedDevices
no_devices = record { person_id = lit "u"; revoked_peer_ids = []; already_revoked = 1 }

revoke_person_devices-Report_example :
    let c' = (revoke_person_devices platform (lit "u") none 9 context).1 in
    ((lit "a" ∷ []) ≡ map (λ q. q.id) (keep (is_revocable (lit "u")) state.peers))
    × (keep (is_revocable (lit "u")) c'.state.peers ≡ [])
    × (c'.state.revision ≡ 4)
unfolding revoke_person_devices lit kintunnel.Base.Units.text_eq
revoke_person_devices-Report_example =
    revoke_person_devices-Report platform (lit "u") none 9 context devices refl

delete_person-hard_example :
    let c' = (delete_person platform (lit "u") true 9 context).1 in
    (lit "u" ≡ lit "u")
    × (find (is_person (lit "u")) c'.state.persons ≡ none)
    × (keep (is_revocable (lit "u")) c'.state.peers ≡ [])
    × (c'.state.revision ≡ 4)
unfolding delete_person lit kintunnel.Base.Units.text_eq
delete_person-hard_example = delete_person-hard platform (lit "u") 9 context user refl

abbrev both : PeerCreate
both = record tablet { generate_keys = true }

abbrev stored_both : PeerRecord
stored_both = record stored_tablet {
  private_key = some (lit "kintunnel:dry-run:private:peer:" ++ (7 ∷ lit ":tablet"));
}

create_peer-mixed_keys_example :
    (pair : KeyPair) × (drawn_keys platform engine both context ≡ ok (some pair))
    × (stored_both.public_key ≡ lit "T")
    × (stored_both.private_key ≡ some pair.private_key)
unfolding create_peer lit kintunnel.Base.Units.text_eq kintunnel.Base.Strings.trim
    kintunnel.Base.Strings.split kintunnel.Base.Strings.join kintunnel.Base.Strings.decimal
    kintunnel.Base.Strings.parse_int allocate_peer_address generate_key_pair dry_run_key_pair
    linked_person new_peer kintunnel.State.Peers.chosen_key kintunnel.State.Peers.private_part
create_peer-mixed_keys_example =
    create_peer-mixed_keys platform engine both 9 context stored_both (lit "T") refl refl refl

abbrev nothing_due : SweepResult
nothing_due = record { expired = []; auto_revoked = []; expiring_soon = [] }

sweep_expired-again_example : nothing_due.expired ≡ []
unfolding sweep_expired lit kintunnel.Base.Units.text_eq kintunnel.State.Sweep.expiry_of
    append_event
sweep_expired-again_example =
    sweep_expired-again platform options options 9 context
      (record { expired = lit "a" ∷ []; auto_revoked = lit "a" ∷ []; expiring_soon = [] })
      nothing_due refl refl refl
