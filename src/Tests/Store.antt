-- ===== src/Tests/Store.antt =====
-- The calls that go through `update` on a disk: the theorems at an empty disk and at one with two
-- peers.
use kintunnel.Base.{ℕ, ◌≡◌, ◌≤◌, refl, true, false, none, some, List, [], ◌∷◌, ◌++◌, lit}
use kintunnel.Base.Failure.{ok}
use kintunnel.Types.{AuditEvent}
use kintunnel.State.Context.{peer_not_found}
use kintunnel.State.Peers.{revoke_peer, mark_revoked}
use kintunnel.State.Progress.{Continues}
use kintunnel.Store.{World, StoredState, holds, migrate, stored_form, load, update, settle}
use kintunnel.Store.Calls.{
  Call, peer_revoke, peer_delete, person_list, perform, mutation, History, begin, then_call,
}
use kintunnel.Store.Durability.{perform-err, update-load}
use kintunnel.Store.Histories.{History-ValidFile, History-Continues, loaded_context}
use kintunnel.Store.Safety.{ValidFile}
use kintunnel.Tests.Samples.{platform, engine, laptop, state, empty_disk, disk, state-IsValid}

History-ValidFile_example :
    ValidFile
      (perform platform engine 9
        (peer_revoke (lit "a"))
        (perform platform engine 8 (person_list none) empty_disk).1).1.file
unfolding ValidFile
History-ValidFile_example =
    History-ValidFile platform engine empty_disk _ tt
      (then_call (then_call begin 8 (person_list none)) 9 (peer_revoke (lit "a")))

History-Continues_example :
    let w = (perform platform engine 9 (peer_revoke (lit "a")) disk).1 in
    (u : StoredState) × (added : List AuditEvent) × (w.file ≡ holds u)
    × (w.sink ≡ added)
    × Continues state.peers (migrate u).peers
    × ((migrate u).server ≡ state.server)
    × (3 ≤ (migrate u).revision)
unfolding migrate stored_form
History-Continues_example =
    History-Continues platform engine disk _ (stored_form state) refl state-IsValid
      (then_call begin 9 (peer_revoke (lit "a")))

perform-err_example :
    (perform platform engine 9 (peer_delete (lit "z")) disk).1.file ≡ holds (stored_form state)
unfolding perform mutation update load settle migrate stored_form kintunnel.Store.Calls.run_mutation
    kintunnel.State.Peers.delete_peer lit kintunnel.Base.Units.text_eq
perform-err_example =
    perform-err platform engine 9 (peer_delete (lit "z")) disk (stored_form state) peer_not_found
      refl refl

update-load_example :
    let o = revoke_peer platform (lit "a") 9 (loaded_context state disk) in
    let w' = (update platform engine 9 (revoke_peer platform (lit "a") 9) disk).1 in
    (o.0 ≡ ok (mark_revoked (9 ∷ []) laptop))
    × (load platform engine 10 w' ≡ (ok o.1.state, w'))
    × (w'.sink ≡ o.1.sink)
unfolding update load settle migrate stored_form revoke_peer mark_revoked lit
    kintunnel.Base.Units.text_eq
update-load_example =
    update-load platform engine 9 10 (revoke_peer platform (lit "a") 9) disk (stored_form state)
      (mark_revoked (9 ∷ []) laptop) refl refl
