-- ===== src/Audit/Queries.antt =====
-- What a query of the log answers.
use kintunnel.Base.{
  ℕ, ◌≤◌, ◌<◌, ◌≡◌, refl, ap, ◌∙◌, Bool, true, false, not, ◌&&◌, Option, none, some, List, [], ◌∷◌,
  any, keep, take, drop, length, arith, ltb, leb, or_default, is_some, All, Bool-cases, inl, inr,
}
use kintunnel.Base.Filters.{any-keep, any_weaken}
use kintunnel.Newest.{
  newest_first, insert_newest, any-newest_first, newest_split, newest-Sorted, Sorted,
}
use kintunnel.Types.{AuditEvent}
use kintunnel.Platform.{Platform}
use kintunnel.Audit.{
  EventCodec, Logs, Filter, matches, logged, clamp, is_later, insert_by_time, by_time, query,
}

clamp_bounds : (o : Option ℕ) → (1 ≤ clamp o) × (clamp o ≤ 5000)
unfolding clamp
clamp_bounds none = (omega arith, omega arith)
clamp_bounds (some n) = (ground arith, ground arith)

-- The time of an event whose date parses.
abbrev pub time_of : Platform → AuditEvent → ℕ
time_of p e = or_default (p.parse_date e.created_at) 0

abbrev pub is_undated : Platform → AuditEvent → Bool
is_undated p e = not (is_some (p.parse_date e.created_at))

later_dated :
    (t s : Option ℕ)
    → is_some t ≡ true
    → is_some s ≡ true
    → is_later t s ≡ not (leb (or_default t 0) (or_default s 0))
later_dated none s h k = absurd cc
later_dated (some t) none h k = absurd cc
later_dated (some t) (some s) h k = ground arith

insert_by_time-newest :
    (p : Platform) (e : AuditEvent) (ts : List AuditEvent)
    → is_undated p e ≡ false
    → any (is_undated p) ts ≡ false
    → insert_by_time p e ts ≡ insert_newest (time_of p) e ts
unfolding insert_by_time insert_newest
insert_by_time-newest p e [] h k = refl
insert_by_time-newest p e (t ∷ ts) h k =
    let later =
      later_dated (p.parse_date t.created_at) (p.parse_date e.created_at) (ground arith)
        (ground arith) in
    let rest = insert_by_time-newest p e ts h (ground arith) in ground (arith, later, rest)

by_time-newest_first :
    (p : Platform) (es : List AuditEvent)
    → any (is_undated p) es ≡ false
    → by_time p es ≡ newest_first (time_of p) es
unfolding by_time newest_first
by_time-newest_first p [] h = refl
by_time-newest_first p (e ∷ es) h =
    let same = by_time-newest_first p es (ground arith) in
    let dated = any-newest_first (time_of p) (is_undated p) es in
    ap (insert_by_time p e) same
    ∙ insert_by_time-newest p e (newest_first (time_of p) es) (ground arith) (ground (arith, dated))

-- While an event of a list is older than a time, what no event of the list precedes is older too.
older_left :
    (p : Platform) (m : ℕ) (ks ds : List AuditEvent)
    → All (λ s. All (λ t. time_of p t ≤ time_of p s) ds) ks
    → any (λ t. ltb (time_of p t) m) ks ≡ true
    → any (λ d. leb m (time_of p d)) ds ≡ false
older_left p m [] ds h k = absurd cc
older_left p m (s ∷ ks) ds h k = elim (Bool-cases (ltb (time_of p s) m)) [
  | inl old ↦ bounded ds h.0 old
  | inr recent ↦ older_left p m ks ds h.1 (ground arith)
]
  where
    bounded :
        (ds : List AuditEvent)
        → All (λ t. time_of p t ≤ time_of p s) ds
        → ltb (time_of p s) m ≡ true
        → any (λ d. leb m (time_of p d)) ds ≡ false
    bounded [] b old = refl
    bounded (d ∷ ds) b old = ground (arith, b.0, bounded ds b.1 old)

-- When every event that the filter accepts has a date that parses, a query of the log answers at
-- most 5000 events and at most the limit, in descending order of their times, each of which the
-- log has and the filter accepts; if it answers fewer than the limit, every event that the filter
-- accepts is among them, and if it has an event older than some time, every event from that time
-- on that the filter accepts is.
pub query-Answer :
    (p : Platform) (k : EventCodec) (f : Filter) (l : Logs)
    → any (λ e. matches p k f e && is_undated p e) (logged k l) ≡ false
    → let found = query p k f l in
      (length found ≤ 5000)
      × (length found ≤ clamp f.limit)
      × Sorted (time_of p) found
      × ((g : AuditEvent → Bool)
          → any g found ≡ true
          → any (λ e. matches p k f e && g e) (logged k l) ≡ true)
      × (length found < clamp f.limit
          → (g : AuditEvent → Bool) → any g found ≡ any (λ e. matches p k f e && g e) (logged k l))
      × ((m : ℕ)
          → any (λ t. ltb (time_of p t) m) found ≡ true
          → (g : AuditEvent → Bool)
          → any (λ e. leb m (time_of p e) && g e) found
            ≡ any (λ e. matches p k f e && (leb m (time_of p e) && g e)) (logged k l))
unfolding query
query-Answer p k f l dated =
    let accepted : List AuditEvent = keep (matches p k f) (logged k l) in
    let all_dated : any (is_undated p) accepted ≡ false =
      any-keep (matches p k f) (is_undated p) (logged k l) ∙ dated in
    let sorted : List AuditEvent = newest_first (time_of p) accepted in
    let (short, total, same, full, order) = newest_split (time_of p) (clamp f.limit) accepted in
    let bound = clamp_bounds f.limit in
    rw (by_time-newest_first p accepted all_dated) (
      omega (arith, short, bound.1),
      short,
      newest-Sorted (time_of p) (clamp f.limit) accepted,
      (λ g h. ground (arith, same g, any-keep (matches p k f) g (logged k l))),
      (λ room g.
          ground (arith, same g, any-keep (matches p k f) g (logged k l), ap (any g) (full room))),
      λ m old g.
          let late : AuditEvent → Bool = λ e. leb m (time_of p e) && g e in
          let left =
            older_left p m (take (clamp f.limit) sorted) (drop (clamp f.limit) sorted) order old in
          let weaker =
            any_weaken late (λ e. leb m (time_of p e)) (drop (clamp f.limit) sorted)
              λ e h. ground arith in
          ground (arith, same late, any-keep (matches p k f) late (logged k l), left, weaker),
    )
