-- ===== src/State/Persons/Effects.antt =====
-- The mutations of persons as effects on the state.
use kintunnel.Base.{
  ℕ, ◌+◌, ◌≤◌, ◌≡◌, refl, Bool, true, false, Option, none, some, List, [], ◌∷◌, map, find, arith,
  Text, Option-cases, Bool-cases, inl, inr, keep,
}
use kintunnel.Base.Failure.{Result, ok, err}
use kintunnel.Types.{PeerRecord, PersonRecord, PersonStatus}
use kintunnel.Platform.{Platform}
use kintunnel.Peers.{validate_person_name}
use kintunnel.State.Context.{Context, is_person, bump}
use kintunnel.State.Requests.{PersonCreate}
use kintunnel.State.Persons.{
  create_person, update_person, list_persons, delete_person, revoke_person_devices, archive_person,
  remove_person, retire_owned, revoke_owned, is_revocable, PersonPatch, store_person,
  announce_archived, announce_removed, is_empty_patch,
}
use kintunnel.State.Evolution.{Evolves, Evolves-refl, AllEvolve-refl, AllEvolve-map, rank}
use kintunnel.State.Effect.{Effect, Effect-refl, Effect-trans, Effect-append_event, Effect-peers}

-- A change of the persons, with a new revision and some draws.
persons_change :
    (c : Context) (persons : List PersonRecord) (drawn : ℕ)
    → Effect c (record {
      state = bump (record c.state { persons = persons });
      sink = c.sink;
      drawn = drawn;
    })
persons_change c persons drawn =
    Effect-peers c _ (AllEvolve-refl c.state.peers) refl (omega arith) refl refl

announce_archived-Effect :
    (p : Platform) (b : Bool) (q : PersonRecord) (now : Text) (c : Context)
    → Effect c (announce_archived p b q now c)
unfolding announce_archived
announce_archived-Effect p false q now c = Effect-refl c
announce_archived-Effect p true q now c = Effect-append_event p _ c

pub create_person-Effect :
    (p : Platform) (body : PersonCreate) (now : ℕ) (c : Context)
    → Effect c (create_person p body now c).1
unfolding create_person
create_person-Effect p body now c = elim (Option-cases (validate_person_name body.display_name)) [
  | inl valid ↦
      rw (valid, create_person)
        (Effect-trans (persons_change c _ (c.drawn + 1)) (Effect-append_event p _ _))
  | inr (m, bad) ↦ rw (bad, create_person) (Effect-refl c)
]

store_person-Effect :
    (p : Platform) (patch : PersonPatch) (q : PersonRecord) (now : Text) (c : Context)
    (r : Result PersonRecord)
    → Effect c (store_person p patch q now c r).1
unfolding store_person
store_person-Effect p patch q now c (err e) = Effect-refl c
store_person-Effect p patch q now c (ok x) =
    Effect-trans (Effect-trans (persons_change c _ c.drawn) (Effect-append_event p _ _))
      (announce_archived-Effect p _ x now _)

pub update_person-Effect :
    (p : Platform) (id : Text) (patch : PersonPatch) (now : ℕ) (c : Context)
    → Effect c (update_person p id patch now c).1
unfolding update_person
update_person-Effect p id patch now c = elim (Option-cases (find (is_person id) c.state.persons)) [
  | inl missing ↦ rw (missing, update_person) (Effect-refl c)
  | inr (q, found) ↦ elim (Bool-cases (is_empty_patch patch)) [
    | inl nothing ↦ rw (found, update_person) (rw nothing (Effect-refl c))
    | inr some_field ↦
        rw (found, update_person) (rw some_field (store_person-Effect p patch q (p.iso now) c _))
  ]
]

pub list_persons-Effect : (o : Option PersonStatus) (c : Context) → Effect c (list_persons o c).1
unfolding list_persons
list_persons-Effect none c = Effect-refl c
list_persons-Effect (some s) c = Effect-refl c

archive_person-Effect :
    (p : Platform) (q : PersonRecord) (now : Text) (c : Context)
    → Effect c (archive_person p q now c).1
unfolding archive_person
archive_person-Effect p q now c =
    Effect-trans (persons_change c _ c.drawn) (announce_archived-Effect p _ _ now _)

announce_removed-Effect :
    (p : Platform) (q : PersonRecord) (now : Text) (peers : List PeerRecord) (c : Context)
    → Effect c (announce_removed p q now peers c)
unfolding announce_removed
announce_removed-Effect p q now [] c = Effect-refl c
announce_removed-Effect p q now (r ∷ rs) c =
    Effect-trans (Effect-append_event p _ c) (announce_removed-Effect p q now rs _)

revocable_rank : (id : Text) (q : PeerRecord) → is_revocable id q ≡ true → rank q.status ≤ 1
unfolding is_revocable
revocable_rank id q h = ground arith

Evolves-retire_owned : (id now : Text) (q : PeerRecord) → Evolves q (retire_owned id now q)
unfolding retire_owned
Evolves-retire_owned id now q = elim (Bool-cases (is_revocable id q)) [
  | inl hit ↦ rw hit (ground (arith, revocable_rank id q hit))
  | inr miss ↦ rw miss (Evolves-refl q)
]

Evolves-revoke_owned : (id now : Text) (q : PeerRecord) → Evolves q (revoke_owned id now q)
unfolding revoke_owned
Evolves-revoke_owned id now q = elim (Bool-cases (is_revocable id q)) [
  | inl hit ↦ rw hit (ground (arith, revocable_rank id q hit))
  | inr miss ↦ rw miss (Evolves-refl q)
]

peers_change :
    (c : Context) (f : PeerRecord → PeerRecord)
    → ((q : PeerRecord) → Evolves q (f q))
    → Effect c (record c { state = record c.state { peers = map f c.state.peers } })
peers_change c f h = Effect-peers c _ (AllEvolve-map f h c.state.peers) refl (omega arith) refl refl

remove_person-Effect :
    (p : Platform) (q : PersonRecord) (now : Text) (c : Context)
    → Effect c (remove_person p q now c).1
unfolding remove_person
remove_person-Effect p q now c =
    Effect-trans (peers_change c (retire_owned q.id now) (Evolves-retire_owned q.id now)) (
      Effect-trans (announce_removed-Effect p q now (keep (is_revocable q.id) c.state.peers) _)
        (Effect-trans (persons_change _ _ _) (Effect-append_event p _ _)))

pub delete_person-Effect :
    (p : Platform) (id : Text) (force : Bool) (now : ℕ) (c : Context)
    → Effect c (delete_person p id force now c).1
unfolding delete_person
delete_person-Effect p id force now c = elim (Option-cases (find (is_person id) c.state.persons)) [
  | inl missing ↦ rw (missing, delete_person) (Effect-refl c)
  | inr (q, found) ↦ elim (Bool-cases force) [
    | inl hard ↦ rw (found, delete_person) (rw hard (remove_person-Effect p q (p.iso now) c))
    | inr soft ↦ rw (found, delete_person) (rw soft (archive_person-Effect p q (p.iso now) c))
  ]
]

bumped : (c : Context) → Effect c (record c { state = bump c.state })
bumped c = Effect-peers c _ (AllEvolve-refl c.state.peers) refl (omega arith) refl refl

pub revoke_person_devices-Effect :
    (p : Platform) (id : Text) (actor : Option Text) (now : ℕ) (c : Context)
    → Effect c (revoke_person_devices p id actor now c).1
unfolding revoke_person_devices
revoke_person_devices-Effect p id actor now c =
    elim (Option-cases (find (is_person id) c.state.persons)) [
      | inl missing ↦ rw (missing, revoke_person_devices) (Effect-refl c)
      | inr (q, found) ↦
          rw (found, revoke_person_devices)
            (Effect-trans
              (peers_change c (revoke_owned id (p.iso now)) (Evolves-revoke_owned id (p.iso now)))
              (Effect-trans (bumped _) (Effect-append_event p _ _)))
    ]
