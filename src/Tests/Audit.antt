-- ===== src/Tests/Audit.antt =====
-- The audit log at concrete inputs.
use kintunnel.Base.{
  ℕ, ◌≤◌, ◌<◌, ◌≡◌, refl, Bool, true, ◌&&◌, ◌||◌, none, some, List, [], ◌∷◌, any, length, arith,
  ltb, leb, Text, lit, text_eq,
}
use kintunnel.Newest.{Sorted}
use kintunnel.Types.{AuditEvent, AuditAction}
use kintunnel.Audit.{
  EventCodec, AuditStoreConfig, Logs, Filter, size, stamp, append, logged, matches, clamp, query,
  read_lines,
}
use kintunnel.Audit.Appends.{append-logged}
use kintunnel.Audit.Bounds.{Call, append_at, rotate_at, Bounded, perform_all, perform_all-Bounded}
use kintunnel.Audit.Queries.{query-Answer, time_of}
use kintunnel.Tests.Samples.{platform}

abbrev event : Text → AuditEvent
event id = record {
  id = id;
  action = AuditAction.peer_created;
  actor = lit "admin";
  target_id = none;
  target_name = none;
  revision = 1;
  created_at = id;
  metadata = none;
}

abbrev codec : EventCodec
codec = record {
  print_event = λ e. e.id;
  parse_event = λ t. some (event t);
  action_text = λ e. lit "peer.created";
  size_of = λ t. length t;
}

abbrev config : AuditStoreConfig
config = record { max_bytes = 5; retention_count = 2 }

abbrev logs : Logs
logs = record {
  handle = true;
  current = some (lit "b" ∷ lit "c" ∷ []);
  rotated = (lit "old", lit "a" ∷ []) ∷ [];
}

abbrev calls : List Call
calls = append_at 7 (event (lit "d")) ∷ rotate_at 8 ∷ append_at 9 (event (lit "e")) ∷ []

-- The third line exceeds the threshold.
append-logged_example :
    any
      (λ e. text_eq e.id (lit "d"))
      (logged codec (append platform codec config 7 (event (lit "d")) logs))
    ≡ (any (λ e. text_eq e.id (lit "d")) (logged codec logs) || text_eq (lit "d") (lit "d"))
unfolding lit text_eq stamp
append-logged_example =
    append-logged platform codec config 7 (event (lit "d")) logs 100 []
      (λ e. text_eq e.id (lit "d")) refl refl (omega arith) refl

perform_all-Bounded_example : Bounded codec config (perform_all platform codec config calls logs)
unfolding lit size
perform_all-Bounded_example =
    perform_all-Bounded platform codec config calls logs
      (record { few = omega arith; small = omega arith })

abbrev filter : Filter
filter = record { action = none; actor = some (lit "admin"); since = none; limit = some 2 }

query-Answer_example :
    let found = query platform codec filter logs in
    let accepts = matches platform codec filter in
    (length found ≤ 5000)
    × (length found ≤ clamp filter.limit)
    × Sorted (time_of platform) found
    × ((g : AuditEvent → Bool)
        → any g found ≡ true
        → any (λ e. accepts e && g e) (logged codec logs) ≡ true)
    × (length found < clamp filter.limit
        → (g : AuditEvent → Bool) → any g found ≡ any (λ e. accepts e && g e) (logged codec logs))
    × ((m : ℕ)
        → any (λ t. ltb (time_of platform t) m) found ≡ true
        → (g : AuditEvent → Bool)
        → any (λ e. leb m (time_of platform e) && g e) found
          ≡ any (λ e. accepts e && (leb m (time_of platform e) && g e)) (logged codec logs))
unfolding lit text_eq logged read_lines matches
query-Answer_example = query-Answer platform codec filter logs refl
