-- ===== src/State/Persons.antt =====
-- The mutations of persons: `createPerson`, `updatePerson`, `listPersons`, `deletePerson` and
-- `revokePersonDevices`. A person object that is changed before a throw is not saved.
pub mod Effects
pub mod Devices
use kintunnel.Base.{
  ℕ, ◌+◌, Bool, true, false, not, ◌&&◌, Option, none, some, List, [], ◌∷◌, ◌++◌, map, any, find,
  keep, change_first, if◌then◌else◌, is_some, length, join, Text, lit, text_eq, trim,
}
use kintunnel.Base.Failure.{Failure, Result, ok, err, ◌>>=◌}
use kintunnel.Types.{
  PeerRecord, PersonRecord, PeerStatus, PersonStatus, AuditAction, MetaValue, Metadata,
}
use kintunnel.Platform.{Platform}
use kintunnel.Peers.{validate_person_name, validate_person_notes}
use kintunnel.State.Context.{
  Context, EventInput, append_event, bump, Outcome, invalid, person_not_found, is_person,
}
use kintunnel.State.Requests.{PersonCreate}

abbrev person_event : AuditAction → PersonRecord → Text → Option Metadata → EventInput
person_event action person now metadata = record {
  action = action;
  actor = none;
  target_id = some person.id;
  target_name = some person.display_name;
  created_at = now;
  metadata = metadata;
}

add_person : Platform → PersonCreate → Text → Context → Outcome PersonRecord
add_person p body now c =
    let person : PersonRecord = record {
      id = p.uuid c.drawn;
      display_name = body.display_name;
      notes = body.notes;
      status = PersonStatus.active;
      created_at = now;
      updated_at = now;
    } in
    let s = bump (record c.state { persons = c.state.persons ++ person ∷ [] }) in
    (
      ok person,
      append_event p
          (person_event AuditAction.person_created person now
            (some ((lit "has_notes", MetaValue.flag (is_some body.notes)) ∷ [])))
          (record c { state = s; drawn = c.drawn + 1 }),
    )

unfoldable pub create_person : Platform → PersonCreate → ℕ → Context → Outcome PersonRecord
unfolding add_person
create_person p body now c = elim (validate_person_name body.display_name) [
  | none ↦ add_person p body (p.iso now) c
  | some complaint ↦ (err (invalid (lit "display_name") complaint), c)
]

-- `notes` tells an absent property from `null`; `status` is the text as it was sent.
pub record PersonPatch : Type 0 where
  pub display_name : Option Text
  pub notes : Option (Option Text)
  pub status : Option Text

patch_name : Option Text → PersonRecord → Result PersonRecord
patch_name none person = ok person
patch_name (some name) person = elim (validate_person_name (trim name)) [
  | none ↦ ok (record person { display_name = trim name })
  | some complaint ↦ err (invalid (lit "display_name") complaint)
]

patch_notes : Option (Option Text) → PersonRecord → Result PersonRecord
patch_notes none person = ok person
patch_notes (some none) person = ok (record person { notes = none })
patch_notes (some (some notes)) person = elim (validate_person_notes notes) [
  | none ↦ ok (record person { notes = some notes })
  | some complaint ↦ err (invalid (lit "notes") complaint)
]

patch_status : Option Text → PersonRecord → Result PersonRecord
patch_status none person = ok person
patch_status (some status) person =
    if text_eq status (lit "active")
    then ok (record person { status = PersonStatus.active })
    else if text_eq status (lit "archived")
    then ok (record person { status = PersonStatus.archived })
    else err (invalid (lit "status") (lit "must be 'active' or 'archived'"))

is_archived : PersonStatus → Bool
is_archived PersonStatus.active = false
is_archived PersonStatus.archived = true

flag_text : Bool → Text → List Text
flag_text false name = []
flag_text true name = (lit "\"" ++ (name ++ lit "\":true")) ∷ []

-- `JSON.stringify(changedFields)`
changed_fields : PersonPatch → Text
unfolding flag_text
changed_fields patch =
    lit "{"
    ++ (join (lit ",") (
          flag_text (is_some patch.display_name) (lit "display_name")
          ++ (flag_text (is_some patch.notes) (lit "notes")
              ++ flag_text (is_some patch.status) (lit "status")))
        ++ lit "}")

announce_archived : Platform → Bool → PersonRecord → Text → Context → Context
announce_archived p false person now c = c
announce_archived p true person now c =
    append_event p (person_event AuditAction.person_archived person now none) c

patched : PersonPatch → Text → PersonRecord → Result PersonRecord
unfolding patch_name patch_notes patch_status
patched patch now person = do
  named ← patch_name patch.display_name person
  noted ← patch_notes patch.notes named
  done ← patch_status patch.status noted
  ok (record done { updated_at = now })

is_empty_patch : PersonPatch → Bool
is_empty_patch patch =
    not (is_some patch.display_name) && not (is_some patch.notes) && not (is_some patch.status)

empty_patch : Failure
empty_patch = invalid (lit "body") (lit "at least one of display_name, notes, status is required")

-- `archived` is reported beside `updated` when the patch turns an active person into one.
store_person :
    Platform
    → PersonPatch
    → PersonRecord
    → Text
    → Context
    → Result PersonRecord
    → Outcome PersonRecord
unfolding announce_archived is_archived changed_fields
store_person p patch before now c (err e) = (err e, c)
store_person p patch before now c (ok person) =
    let s = bump (record c.state {
      persons = change_first (is_person before.id) (λ _. person) c.state.persons;
    }) in
    (
      ok person,
      announce_archived p
          (is_some patch.status && is_archived person.status && not (is_archived before.status))
          person now
          (append_event p
            (person_event AuditAction.person_updated person now
              (some ((lit "changed_fields", MetaValue.text (changed_fields patch)) ∷ [])))
            (record c { state = s })),
    )

unfoldable pub update_person : Platform → Text → PersonPatch → ℕ → Context → Outcome PersonRecord
unfolding patched store_person is_empty_patch empty_patch
update_person p id patch now c = elim (find (is_person id) c.state.persons) [
  | none ↦ (err person_not_found, c)
  | some person ↦
      if is_empty_patch patch
      then (err empty_patch, c)
      else store_person p patch person (p.iso now) c (patched patch (p.iso now) person)
]

same_status : PersonStatus → PersonStatus → Bool
same_status PersonStatus.active PersonStatus.active = true
same_status PersonStatus.archived PersonStatus.archived = true
same_status _ _ = false

unfoldable pub list_persons : Option PersonStatus → Context → Outcome (List PersonRecord)
unfolding same_status
list_persons none c = (ok c.state.persons, c)
list_persons (some status) c =
    (ok (keep (λ person. same_status person.status status) c.state.persons), c)

archive_person : Platform → PersonRecord → Text → Context → Outcome PersonRecord
unfolding announce_archived is_archived
archive_person p before now c =
    let person = record before { status = PersonStatus.archived; updated_at = now } in
    let s = bump (record c.state {
      persons = change_first (is_person before.id) (λ _. person) c.state.persons;
    }) in
    (
      ok person,
      announce_archived p (not (is_archived before.status)) person now (record c { state = s }),
    )

abbrev pub is_settled : PeerStatus → Bool
is_settled PeerStatus.revoked = true
is_settled PeerStatus.deleted = true
is_settled _ = false

abbrev pub belongs_to : Text → PeerRecord → Bool
belongs_to id peer = elim peer.person_id [ none ↦ false | some owner ↦ text_eq owner id ]

label_or_null : Option Text → MetaValue
label_or_null none = MetaValue.null
label_or_null (some s) = MetaValue.text s

removed_event : PersonRecord → PeerRecord → Text → EventInput
unfolding label_or_null
removed_event person peer now = person_event AuditAction.person_device_removed person now (
    some (
      (lit "peer_id", MetaValue.text peer.id)
      ∷ (lit "peer_name", MetaValue.text peer.name)
      ∷ (lit "device_label", label_or_null peer.device_label)
      ∷ []))

-- `revokedAt ??= now`
retire : Text → PeerRecord → PeerRecord
retire now peer = record peer {
  status = PeerStatus.revoked;
  revoked_at = elim peer.revoked_at [ none ↦ some now | some t ↦ some t ];
  updated_at = now;
}

-- A peer that a cascade for this person revokes.
unfoldable pub is_revocable : Text → PeerRecord → Bool
is_revocable id peer = belongs_to id peer && not (is_settled peer.status)

retire_owned : Text → Text → PeerRecord → PeerRecord
unfolding retire
retire_owned id now peer = if is_revocable id peer then retire now peer else peer

-- One event for each revoked peer, in the order of the peers.
announce_removed : Platform → PersonRecord → Text → List PeerRecord → Context → Context
unfolding removed_event
announce_removed p person now [] c = c
announce_removed p person now (peer ∷ peers) c =
    announce_removed p person now peers (append_event p (removed_event person peer now) c)

-- The hard delete: the peers are revoked and reported first, then the person goes.
remove_person : Platform → PersonRecord → Text → Context → Outcome PersonRecord
unfolding retire_owned announce_removed is_revocable
remove_person p person now c =
    let gone = keep (is_revocable person.id) c.state.peers in
    let retired = record c.state { peers = map (retire_owned person.id now) c.state.peers } in
    let c' = announce_removed p person now gone (record c { state = retired }) in
    let s =
      bump
        (record c'.state { persons = keep (λ q. not (is_person person.id q)) c'.state.persons }) in
    (
      ok person,
      append_event p
          (person_event AuditAction.person_deleted person now (
            some (
              (lit "force", MetaValue.flag true)
              ∷ (lit "revoked_peer_count", MetaValue.number (length gone))
              ∷ [])))
          (record c' { state = s }),
    )

unfoldable pub delete_person : Platform → Text → Bool → ℕ → Context → Outcome PersonRecord
unfolding archive_person remove_person
delete_person p id force now c = elim (find (is_person id) c.state.persons) [
  | none ↦ (err person_not_found, c)
  | some person ↦
      if force then remove_person p person (p.iso now) c else archive_person p person (p.iso now) c
]

pub record RevokedDevices : Type 0 where
  pub person_id : Text
  pub revoked_peer_ids : List Text
  pub already_revoked : ℕ

revoke_owned : Text → Text → PeerRecord → PeerRecord
revoke_owned id now peer =
    if is_revocable id peer
    then record peer { status = PeerStatus.revoked; revoked_at = some now; updated_at = now }
    else peer

summary_event :
    Platform → PersonRecord → Text → Option Text → List Text → ℕ → List PeerRecord → EventInput
summary_event p person now actor ids already peers = record {
  action = AuditAction.person_devices_revoked;
  actor = actor;
  target_id = some person.id;
  target_name = some person.display_name;
  created_at = now;
  metadata = some (
      (lit "revoked_count", MetaValue.number (length ids))
      ∷ (lit "already_revoked", MetaValue.number already)
      ∷ (
        lit "device_labels",
        MetaValue.text
            (p.json_labels (map (λ q. q.device_label) (keep (λ q. any (text_eq q.id) ids) peers))),
      )
      ∷ []);
}

unfoldable pub revoke_person_devices :
    Platform → Text → Option Text → ℕ → Context → Outcome RevokedDevices
unfolding revoke_owned summary_event is_revocable
revoke_person_devices p id actor now c = elim (find (is_person id) c.state.persons) [
  | none ↦ (err person_not_found, c)
  | some person ↦
      let ids = map (λ q. q.id) (keep (is_revocable id) c.state.peers) in
      let already = length (keep (λ q. belongs_to id q && is_settled q.status) c.state.peers) in
      let peers = map (revoke_owned id (p.iso now)) c.state.peers in
      (
        ok (record { person_id = person.id; revoked_peer_ids = ids; already_revoked = already }),
        append_event p (summary_event p person (p.iso now) actor ids already peers)
            (record c { state = bump (record c.state { peers = peers }) }),
      )
]
