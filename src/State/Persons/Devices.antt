-- ===== src/State/Persons/Devices.antt =====
-- The devices of a person, after they are revoked and after the person is deleted.
use mathlib.Core.Path.{subst}
use kintunnel.Base.{
  ℕ, ◌+◌, ◌≡◌, refl, sym, ap, ◌∙◌, true, not, Option, none, List, [], ◌∷◌, map, keep, find, arith,
  Text, text_eq_iff, Option-cases, inl, inr, find-holds,
}
use kintunnel.Base.Failure.{ok, ok-injective}
use kintunnel.Types.{PeerRecord, PersonRecord}
use kintunnel.Platform.{Platform}
use kintunnel.State.Context.{Context, append_event, is_person}
use kintunnel.State.Persons.{
  is_revocable, revoke_owned, retire_owned, retire, revoke_person_devices, delete_person,
  remove_person, announce_removed, removed_event, RevokedDevices,
}

revoked_owned-none :
    (id now : Text) (qs : List PeerRecord)
    → keep (is_revocable id) (map (revoke_owned id now) qs) ≡ []
unfolding is_revocable revoke_owned
revoked_owned-none id now [] = refl
revoked_owned-none id now (q ∷ qs) = ground (arith, revoked_owned-none id now qs)

retire_owned-none :
    (id now : Text) (qs : List PeerRecord)
    → keep (is_revocable id) (map (retire_owned id now) qs) ≡ []
unfolding is_revocable retire_owned retire
retire_owned-none id now [] = refl
retire_owned-none id now (q ∷ qs) = ground (arith, retire_owned-none id now qs)

-- The revocation of a person's devices reports exactly the ids of its peers that were neither
-- revoked nor deleted, in their order, leaves none of them, and raises the revision by one.
pub revoke_person_devices-Report :
    (p : Platform) (id : Text) (actor : Option Text) (now : ℕ) (c : Context) (r : RevokedDevices)
    → (revoke_person_devices p id actor now c).0 ≡ ok r
    → let c' = (revoke_person_devices p id actor now c).1 in
      (r.revoked_peer_ids ≡ map (λ q. q.id) (keep (is_revocable id) c.state.peers))
      × (keep (is_revocable id) c'.state.peers ≡ [])
      × (c'.state.revision ≡ c.state.revision + 1)
unfolding revoke_person_devices append_event
revoke_person_devices-Report p id actor now c r h =
    elim (Option-cases (find (is_person id) c.state.persons)) [
      | inl missing ↦ let absent = rw (missing, revoke_person_devices) at h in cc
      | inr (q, found) ↦
          let h' = rw (found, revoke_person_devices) at h in
          rw (found, revoke_person_devices)
            (
              ap (λ (x : RevokedDevices). x.revoked_peer_ids) (sym (ok-injective _ r h')),
              revoked_owned-none id (p.iso now) c.state.peers,
              refl,
            )
    ]

-- A revocation of a person's devices that succeeds right after another reports no device.
pub revoke_person_devices-again :
    (p : Platform) (id : Text) (actor again : Option Text) (now later : ℕ) (c : Context)
    → (r s : RevokedDevices) → (revoke_person_devices p id actor now c).0 ≡ ok r
    → (revoke_person_devices p id again later (revoke_person_devices p id actor now c).1).0 ≡ ok s
    → s.revoked_peer_ids ≡ []
revoke_person_devices-again p id actor again now later c r s h k =
    let (ids, left, revision) = revoke_person_devices-Report p id actor now c r h in
    let (ids', left', revision') = revoke_person_devices-Report p id again later _ s k in
    ids' ∙ ap (map (λ q. q.id)) left

-- The events of a hard delete change neither peers nor persons nor the revision.
announce_removed-state :
    (p : Platform) (person : PersonRecord) (now : Text) (qs : List PeerRecord) (c : Context)
    → let s = (announce_removed p person now qs c).state in
      (s.peers ≡ c.state.peers) × (s.persons ≡ c.state.persons) × (s.revision ≡ c.state.revision)
unfolding announce_removed append_event
announce_removed-state p person now [] c = (refl, refl, refl)
announce_removed-state p person now (q ∷ qs) c =
    announce_removed-state p person now qs (append_event p (removed_event person q now) c)

find-keep :
    (id : Text) (qs : List PersonRecord)
    → find (is_person id) (keep (λ q. not (is_person id q)) qs) ≡ none
find-keep id [] = refl
find-keep id (q ∷ qs) = ground (arith, find-keep id qs)

-- A successful hard delete returns the person with the id that was asked for, leaves no person
-- with that id and no peer of it that is neither revoked nor deleted, and raises the revision by
-- one.
pub delete_person-hard :
    (p : Platform) (id : Text) (now : ℕ) (c : Context) (q : PersonRecord)
    → (delete_person p id true now c).0 ≡ ok q
    → let c' = (delete_person p id true now c).1 in
      (q.id ≡ id)
      × (find (is_person id) c'.state.persons ≡ none)
      × (keep (is_revocable id) c'.state.peers ≡ [])
      × (c'.state.revision ≡ c.state.revision + 1)
unfolding delete_person remove_person append_event
delete_person-hard p id now c q h = elim (Option-cases (find (is_person id) c.state.persons)) [
  | inl missing ↦ let absent = rw (missing, delete_person) at h in cc
  | inr (x, found) ↦
      let same : x.id ≡ id = (text_eq_iff x.id id).0 (find-holds (is_person id) _ x found) in
      let (peers, persons, revision) =
        announce_removed-state p x (p.iso now) (keep (is_revocable x.id) c.state.peers) (record c {
          state = record c.state { peers = map (retire_owned x.id (p.iso now)) c.state.peers };
        }) in
      rw (found, delete_person)
        (
          ap (λ (y : PersonRecord). y.id) (sym (ok-injective _ q (rw (found, delete_person) at h)))
              ∙ same,
          rw persons (
              subst
                (λ i.
                  find (is_person i) (keep (λ y. not (is_person x.id y)) c.state.persons) ≡ none)
                same (find-keep x.id c.state.persons)),
          rw peers (
              subst
                (λ i.
                  keep (is_revocable i) (map (retire_owned x.id (p.iso now)) c.state.peers) ≡ [])
                same (retire_owned-none x.id (p.iso now) c.state.peers)),
          ap (λ n. n + 1) revision,
        )
]
