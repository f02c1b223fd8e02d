-- ===== src/Backup/Restore/Recovery.antt =====
-- A restore that takes a safety snapshot ends with the restored state or with the one before it.
use kintunnel.Base.{
  ℕ, ◌+◌, ◌≡◌, refl, sym, ap, Bool, true, false, none, some, List, [], ◌∷◌, ◌++◌, find, arith, ◌⊎◌,
  inl, inr, Text, lit, text_eq, text_eq_refl,
}
use mathlib.Core.Path.{subst}
use kintunnel.Base.Failure.{Result, err, ok}
use kintunnel.Types.{EngineConfig, EngineState}
use kintunnel.Platform.{Platform}
use kintunnel.State.Context.{EventInput, append_event}
use kintunnel.Host.{Host, message_of}
use kintunnel.Store.{World, File, StoredState, holds, load, save, migrate, stored_form}
use kintunnel.Store.Histories.{load-holds, load-unreadable}
use kintunnel.Backup.{Codec, Snapshot, Stop, Trigger, other}
use kintunnel.Backup.Snapshots.{
  Site, Answer, stopped, done, snapshot_with, read_snapshot_state_bytes, bytes_of, state_of,
  verified_bytes, snapshot_internal, took_snapshot, new_snapshot,
}
use kintunnel.Backup.Restore.{
  RestoreResult, save_with, reconcile_after, write_state, recover, recover_bytes, recovered,
  after_write, swap, with_safety, restore_bytes, backup_restore, file_of,
}

-- The file holds a state with the server, the peers, the persons and the revision of another.
pub record Restored (s : StoredState) (f : File) : Type 0 where
  pub on_disk : StoredState
  pub file : f ≡ holds on_disk
  pub server : on_disk.server ≡ s.server
  pub peers : on_disk.peers ≡ s.peers
  pub persons : (migrate on_disk).persons ≡ (migrate s).persons
  pub revision : on_disk.revision ≡ s.revision

-- The first snapshot with an id that was not there.
pub find-append :
    (f : Snapshot → Bool) (ss : List Snapshot) (s : Snapshot)
    → find f ss ≡ none
    → f s ≡ true
    → find f (ss ++ s ∷ []) ≡ some s
find-append f [] s h k = ground arith
find-append f (t ∷ ts) s h k = ground (arith, find-append f ts s)

Restored-migrate :
    (s : StoredState) (f : File) → Restored (stored_form (migrate s)) f → Restored s f
unfolding migrate stored_form
Restored-migrate s f r = record {
  on_disk = r.on_disk;
  file = r.file;
  server = r.server;
  peers = r.peers;
  persons = r.persons;
  revision = r.revision;
}

-- A state that is printed is read again, in the form in which it is stored.
abbrev pub RoundTrips : Codec → EngineState → Type 0
RoundTrips k s = k.parse_state (k.print_state s) ≡ ok (stored_form s)

module _ {H : Type 0} (h : Host H) (k : Codec) (p : Platform) (config : EngineConfig)
    (now finished : ℕ) (id actor : Text) where
  -- The save of a state with one more event, and the reconcile after it.
  Restored-save :
      (s : StoredState) (e : EventInput) (w : World) (x : H)
      → let (c, w1) = save_with h k p config now finished id actor e (migrate s) w in
        Restored s (reconcile_after h k p config now finished id actor c w1 x).1.file
  unfolding save_with reconcile_after save append_event migrate stored_form
  Restored-save s e w x = record {
    on_disk = _;
    file = refl;
    server = refl;
    peers = refl;
    persons = refl;
    revision = refl;
  }

  recovered-Restored :
      (safety message : Text) (site : Site H) (s : StoredState)
      → site.world.file ≡ holds s
      → Restored s
          (recovered h k p config now finished id actor safety message site
            (load p config now site.world)).world.file
  unfolding recovered
  recovered-Restored safety message site s e =
      subst
        (λ r.
          Restored s
            (recovered h k p config now finished id actor safety message site r).world.file)
        (sym (load-holds p config now site.world s e)) (Restored-save s _ site.world site.host)

  recover-Restored :
      (safety message : Text) (site : Site H) (s : StoredState)
      → RoundTrips k (migrate s)
      → read_snapshot_state_bytes safety site.snapshots ≡ done (k.print_state (migrate s))
      → Restored s
          (recover h k p config now finished id actor (some safety) message site).world.file
  unfolding recover recover_bytes write_state
  recover-Restored safety message site s trips bytes =
      subst
        (λ a.
          Restored s
            (recover_bytes h k p config now finished id actor safety message site a).world.file)
        (sym bytes)
        (Restored-migrate s _ (
          recovered-Restored safety message
            (record site {
              world =
                  write_state h k p config now finished id actor (k.print_state (migrate s))
                    site.world;
            })
            (stored_form (migrate s)) (ap file_of trips)))

  -- Either the restore stops, and the file has the state `s`, or it is done, and the file has the
  -- state that the bytes hold.
  abbrev pub AllOrNothing : StoredState → Text → Answer RestoreResult × Site H → Type 0
  AllOrNothing s bytes m =
      ((e : Stop) × (m.0 ≡ stopped e) × Restored s m.1.world.file)
      ⊎ ((b : StoredState) × (z : RestoreResult) × (m.0 ≡ done z)
          × (k.parse_state bytes ≡ ok b)
          × Restored b m.1.world.file)

  after_write-AllOrNothing :
      (safety : Text) (from : ℕ) (bytes : Text) (site : Site H) (s : StoredState)
      (parsed : Result StoredState)
      → RoundTrips k (migrate s)
      → read_snapshot_state_bytes safety site.snapshots ≡ done (k.print_state (migrate s))
      → k.parse_state bytes ≡ parsed
      → site.world.file ≡ file_of parsed
      → AllOrNothing s bytes (
          after_write h k p config now finished id actor
            (some safety)
            from
            site
            (load p config now site.world))
  unfolding after_write
  after_write-AllOrNothing safety from bytes site s (ok b) trips saved e f =
      subst
        (λ r.
          AllOrNothing s bytes
            (after_write h k p config now finished id actor (some safety) from site r))
        (sym (load-holds p config now site.world b f))
        (inr (b, _, refl, e, Restored-save b _ site.world site.host))
  after_write-AllOrNothing safety from bytes site s (err x) trips saved e f =
      subst
        (λ r.
          AllOrNothing s bytes
            (after_write h k p config now finished id actor (some safety) from site r))
        (sym (load-unreadable p config now site.world x f))
        (inl (other x, refl, recover-Restored safety (message_of x) site s trips saved))

  swap-AllOrNothing :
      (safety bytes : Text) (site : Site H) (s : StoredState)
      → RoundTrips k (migrate s)
      → read_snapshot_state_bytes safety site.snapshots ≡ done (k.print_state (migrate s))
      → site.world.file ≡ holds s
      → AllOrNothing s bytes (
          swap h k p config now finished id actor
            (some safety)
            bytes
            site
            (load p config now site.world))
  unfolding swap write_state
  swap-AllOrNothing safety bytes site s trips saved e =
      let w1 : World = write_state h k p config now finished id actor bytes site.world in
      let x : H = (h.run (lit "wg-quick") (lit "down" ∷ config.interface_name ∷ []) site.host).1 in
      subst
        (λ r.
          AllOrNothing s bytes (swap h k p config now finished id actor (some safety) bytes site r))
        (sym (load-holds p config now site.world s e))
        (after_write-AllOrNothing safety (migrate s).revision bytes
          (record site { world = w1; host = x }) s (k.parse_state bytes) trips saved refl refl)

  saved_snapshot :
      (snaps : List Snapshot) (fresh_id : Text) (t : EngineState)
      → snapshot_with fresh_id snaps ≡ none
      → read_snapshot_state_bytes fresh_id
          (snaps ++ new_snapshot k p now fresh_id Trigger.pre_rotate t ∷ [])
        ≡ done (k.print_state t)
  unfolding read_snapshot_state_bytes snapshot_with bytes_of new_snapshot
  saved_snapshot snaps fresh_id t none_yet =
      ap (λ o. bytes_of fresh_id (state_of o))
        (find-append (λ s. text_eq s.id fresh_id) snaps
          (new_snapshot k p now fresh_id Trigger.pre_rotate t) none_yet (text_eq_refl fresh_id))

  with_safety-AllOrNothing :
      (bytes : Text) (site : Site H) (s : StoredState)
      → RoundTrips k (migrate s)
      → site.world.file ≡ holds s
      → snapshot_with (p.uuid site.world.drawn) site.snapshots ≡ none
      → AllOrNothing s bytes (
          with_safety h k p config now finished id actor bytes
            (snapshot_internal k p config now Trigger.pre_rotate site))
  unfolding with_safety snapshot_internal took_snapshot
  with_safety-AllOrNothing bytes site s trips e fresh =
      let fresh_id : Text = p.uuid site.world.drawn in
      let snap : Snapshot = new_snapshot k p now fresh_id Trigger.pre_rotate (migrate s) in
      let w : World = record site.world { drawn = site.world.drawn + 1 } in
      let snaps : List Snapshot = site.snapshots ++ snap ∷ [] in
      subst
        (λ r. AllOrNothing s bytes (
          with_safety h k p config now finished id actor bytes
            (took_snapshot k p now Trigger.pre_rotate site.snapshots site.host r)))
        (sym (load-holds p config now site.world s e))
        (swap-AllOrNothing fresh_id bytes
          (record { world = w; host = site.host; snapshots = snaps }) s trips
          (saved_snapshot site.snapshots fresh_id (migrate s) fresh) e)

  -- On any host, a restore with a safety snapshot, over a state file that holds a state, where
  -- that state is read back from its print and the id that is drawn belongs to no snapshot, either
  -- stops and leaves a file with the server, the peers, the persons and the revision of before, or
  -- is done and leaves those of the snapshot's verified bytes.
  pub backup_restore-AllOrNothing :
      (site : Site H) (s : StoredState)
      → RoundTrips k (migrate s)
      → site.world.file ≡ holds s
      → snapshot_with (p.uuid site.world.drawn) site.snapshots ≡ none
      → let m = backup_restore h k p config now finished id actor true false site in
        ((e : Stop) × (m.0 ≡ stopped e) × Restored s m.1.world.file)
        ⊎ ((bytes : Text) × (b : StoredState) × (z : RestoreResult) × (m.0 ≡ done z)
            × (verified_bytes k id site.snapshots ≡ done bytes)
            × (k.parse_state bytes ≡ ok b)
            × Restored b m.1.world.file)
  unfolding backup_restore restore_bytes
  backup_restore-AllOrNothing site s trips e fresh = by (verified_bytes k id site.snapshots) refl
    where
      by :
          (v : Answer Text)
          → verified_bytes k id site.snapshots ≡ v
          → let m = restore_bytes h k p config now finished id actor true false site v in
            ((x : Stop) × (m.0 ≡ stopped x) × Restored s m.1.world.file)
            ⊎ ((bytes : Text) × (b : StoredState) × (z : RestoreResult) × (m.0 ≡ done z)
                × (verified_bytes k id site.snapshots ≡ done bytes)
                × (k.parse_state bytes ≡ ok b)
                × Restored b m.1.world.file)
      by (stopped x) v = inl (
        x,
        refl,
        record {
          on_disk = s;
          file = e;
          server = refl;
          peers = refl;
          persons = refl;
          revision = refl;
        },
      )
      by (done bytes) v = elim (with_safety-AllOrNothing bytes site s trips e fresh) [
        | inl nothing ↦ inl nothing
        | inr (b, z, finish, parsed, on_disk) ↦ inr (bytes, b, z, finish, v, parsed, on_disk)
      ]
