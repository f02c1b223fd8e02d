-- ===== src/Audit.antt =====
-- packages/engine/src/audit-store.ts: the append-only log of events, its rotation and its queries.
-- A file is the list of its lines, each ended by a line feed, which JSON.stringify writes in no line.
-- Reads, writes and removals succeed; the calls run one after the other, as the write queue has them.
pub mod Bounds
pub mod Appends
pub mod Queries
use kintunnel.Base.{
  ℕ, ◌+◌, Bool, true, false, not, ◌&&◌, ◌==◌, Option, none, some, List, [], ◌∷◌, ◌++◌, map, keep,
  take, ltb, leb, if◌then◌else◌, or_default, Text, lit, text_eq,
}
use kintunnel.Newest.{newest_first}
use kintunnel.Types.{AuditEvent}
use kintunnel.Platform.{Platform}
use kintunnel.Apply.Maps.{text_leb}

-- JSON, the names of the actions, and the bytes of a text in UTF-8.
pub record EventCodec : Type 0 where
  pub print_event : AuditEvent → Text
  -- none for a text that is no JSON
  pub parse_event : Text → Option AuditEvent
  pub action_text : AuditEvent → Text
  pub size_of : Text → ℕ

pub record AuditStoreConfig : Type 0 where
  pub max_bytes : ℕ
  pub retention_count : ℕ

-- The directory and the handle of audit.log. The rotated files are in descending order of their
-- names, which the source sorts whenever it reads the directory.
pub record Logs : Type 0 where
  pub handle : Bool
  pub current : Option (List Text)
  pub rotated : List (Text × List Text)

unfoldable pub size : EventCodec → List Text → ℕ
size k [] = 0
size k (l ∷ ls) = k.size_of l + 1 + size k ls

-- `toISOString().replace(/:/g, "-")`
dashed : ℕ → ℕ
dashed c = if c == 58 then 45 else c

unfoldable pub stamp : Platform → ℕ → Text
unfolding dashed
stamp p now = map dashed (p.iso now)

-- A rename to a name that is there replaces that file.
put_file : Text → List Text → List (Text × List Text) → List (Text × List Text)
put_file name lines [] = (name, lines) ∷ []
put_file name lines ((m, old) ∷ files) =
    let rest = put_file name lines files in
    if text_eq name m
    then (name, lines) ∷ files
    else if text_leb m name
    then (name, lines) ∷ (m, old) ∷ files
    else (m, old) ∷ rest

-- The files that are left: the first in the reversed order.
unfoldable pub prune_old_files :
    AuditStoreConfig → List (Text × List Text) → List (Text × List Text)
prune_old_files config files = take config.retention_count files

-- The rename of audit.log; without it there is nothing to rotate.
move_current : Platform → AuditStoreConfig → ℕ → Logs → Option (List Text) → Logs
unfolding stamp put_file
move_current p config now l none = record l { handle = false }
move_current p config now l (some lines) = record {
  handle = false;
  current = none;
  rotated = prune_old_files config (put_file (stamp p now) lines l.rotated);
}

unfoldable pub do_rotate : Platform → AuditStoreConfig → ℕ → Logs → Logs
unfolding move_current
do_rotate p config now l = move_current p config now l l.current

unfoldable pub append : Platform → EventCodec → AuditStoreConfig → ℕ → AuditEvent → Logs → Logs
append p k config now e l =
    let lines = or_default l.current [] ++ k.print_event e ∷ [] in
    let written : Logs = record l { handle = true; current = some lines } in
    let rotated = do_rotate p config now written in
    if ltb config.max_bytes (size k lines) then rotated else written

pub record Rotation : Type 0 where
  pub rotated : Bool
  pub reason : Text

-- A handle is open on audit.log.
unfoldable pub rotate : Platform → EventCodec → AuditStoreConfig → ℕ → Logs → Rotation × Logs
rotate p k config now l =
    let small = leb (size k (or_default l.current [])) config.max_bytes in
    if not l.handle
    then (record { rotated = false; reason = lit "no_active_handle" }, l)
    else if small
    then (record { rotated = false; reason = lit "below_threshold" }, l)
    else (record { rotated = true; reason = lit "size_exceeded" }, do_rotate p config now l)

pub record Filter : Type 0 where
  pub action : Option Text
  pub actor : Option Text
  pub since : Option Text
  pub limit : Option ℕ

-- The test of an optional text: one that is missing or empty asks for nothing.
abbrev pub asks : Option Text → Text → Bool
asks none t = true
asks (some []) t = true
asks (some (c ∷ s)) t = text_eq t (c ∷ s)

-- `filter.since ? Date.parse(filter.since) : NaN`
abbrev pub since_time : Platform → Option Text → Option ℕ
since_time p none = none
since_time p (some []) = none
since_time p (some (c ∷ s)) = p.parse_date (c ∷ s)

abbrev pub not_before : Option ℕ → Option ℕ → Bool
not_before none t = true
not_before (some since) none = false
not_before (some since) (some t) = leb since t

unfoldable pub matches : Platform → EventCodec → Filter → AuditEvent → Bool
matches p k f e =
    asks f.action (k.action_text e)
    && asks f.actor e.actor
    && not_before (since_time p f.since) (p.parse_date e.created_at)

add_event : Option AuditEvent → List AuditEvent → List AuditEvent
add_event none rest = rest
add_event (some e) rest = e ∷ rest

-- The events of a file; lines that are empty or no JSON are left out.
unfoldable pub read_lines : EventCodec → List Text → List AuditEvent
unfolding add_event
read_lines k [] = []
read_lines k ([] ∷ ls) = read_lines k ls
read_lines k ((c ∷ s) ∷ ls) = add_event (k.parse_event (c ∷ s)) (read_lines k ls)

-- The rotated files in ascending order of their names.
rotated_events : EventCodec → List (Text × List Text) → List AuditEvent
rotated_events k [] = []
rotated_events k ((name, lines) ∷ files) = rotated_events k files ++ read_lines k lines

-- The name audit.log comes before the names of the rotated files.
unfoldable pub logged : EventCodec → Logs → List AuditEvent
unfolding rotated_events
logged k l = read_lines k (or_default l.current []) ++ rotated_events k l.rotated

-- `Math.min(Math.max(requested, 1), 5000)`
unfoldable pub clamp : Option ℕ → ℕ
clamp none = 1000
clamp (some n) = if ltb n 1 then 1 else if ltb 5000 n then 5000 else n

-- The result of `bTime - aTime` is above 0; NaN is not.
abbrev pub is_later : Option ℕ → Option ℕ → Bool
is_later none s = false
is_later (some t) none = false
is_later (some t) (some s) = ltb s t

-- Events whose dates do not parse count as equal to any other. What `sort` does then is left to
-- JavaScript's implementation; this is an insertion from the right.
unfoldable pub insert_by_time : Platform → AuditEvent → List AuditEvent → List AuditEvent
insert_by_time p e [] = e ∷ []
insert_by_time p e (t ∷ ts) =
    let rest = insert_by_time p e ts in
    if is_later (p.parse_date t.created_at) (p.parse_date e.created_at)
    then t ∷ rest
    else e ∷ t ∷ ts

unfoldable pub by_time : Platform → List AuditEvent → List AuditEvent
by_time p [] = []
by_time p (e ∷ es) = insert_by_time p e (by_time p es)

unfoldable pub query : Platform → EventCodec → Filter → Logs → List AuditEvent
query p k f l = take (clamp f.limit) (by_time p (keep (matches p k f) (logged k l)))
