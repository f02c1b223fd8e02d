-- ===== src/Audit/Bounds.antt =====
-- The bounds of the log, and what an append keeps.
use kintunnel.Base.{
  ℕ, zero, suc, ◌≤◌, ◌≡◌, refl, sym, true, not, Option, none, some, List, [], ◌∷◌, ◌++◌, take,
  length, arith, ltb, leb, or_default, Text, Bool-cases, inl, inr,
}
use mathlib.Core.Path.{subst}
use kintunnel.Types.{AuditEvent}
use kintunnel.Platform.{Platform}
use kintunnel.Audit.{
  EventCodec, AuditStoreConfig, Logs, size, stamp, put_file, prune_old_files, do_rotate,
  move_current, append, rotate,
}

-- A call of the log, with its time.
pub data Call : Type 0 where
  append_at : ℕ → AuditEvent → Call
  rotate_at : ℕ → Call

length-take-le : {A : Type 0} (n : ℕ) (xs : List A) → length (take n xs) ≤ n
length-take-le zero xs = omega arith
length-take-le (suc n) [] = omega arith
length-take-le (suc n) (x ∷ xs) = omega (arith, length-take-le n xs)

-- At most so many rotated files, and no current file beyond the threshold.
pub record Bounded (k : EventCodec) (config : AuditStoreConfig) (l : Logs) : Type 0 where
  pub few : length l.rotated ≤ config.retention_count
  pub small : size k (or_default l.current []) ≤ config.max_bytes

module _ (p : Platform) (k : EventCodec) (config : AuditStoreConfig) where
  unfoldable pub perform : Call → Logs → Logs
  perform (append_at now e) l = append p k config now e l
  perform (rotate_at now) l = (rotate p k config now l).1

  unfoldable pub perform_all : List Call → Logs → Logs
  perform_all [] l = l
  perform_all (c ∷ cs) l = perform_all cs (perform c l)

  move_current-Bounded :
      (now : ℕ) (l : Logs) (o : Option (List Text))
      → l.current ≡ o
      → length l.rotated ≤ config.retention_count
      → Bounded k config (move_current p config now l o)
  unfolding move_current prune_old_files size
  move_current-Bounded now l none there h = record {
    few = h;
    small = subst (λ o. size k (or_default o []) ≤ config.max_bytes) (sym there) (omega arith);
  }
  move_current-Bounded now l (some lines) there h = record {
    few = length-take-le config.retention_count (put_file (stamp p now) lines l.rotated);
    small = omega arith;
  }

  do_rotate-Bounded :
      (now : ℕ) (l : Logs)
      → length l.rotated ≤ config.retention_count
      → Bounded k config (do_rotate p config now l)
  unfolding do_rotate
  do_rotate-Bounded now l h = move_current-Bounded now l l.current refl h

  append-Bounded :
      (now : ℕ) (e : AuditEvent) (l : Logs)
      → Bounded k config l
      → Bounded k config (append p k config now e l)
  unfolding append
  append-Bounded now e l b =
      let lines = or_default l.current [] ++ k.print_event e ∷ [] in
      let written : Logs = record l { handle = true; current = some lines } in
      elim (Bool-cases (ltb config.max_bytes (size k lines))) [
        | inl big ↦ rw big (do_rotate-Bounded now written b.few)
        | inr fits ↦ rw fits (record { few = b.few; small = ground (arith, fits) })
      ]

  rotate-Bounded :
      (now : ℕ) (l : Logs) → Bounded k config l → Bounded k config (rotate p k config now l).1
  unfolding rotate
  rotate-Bounded now l b = elim (Bool-cases (not l.handle)) [
    | inl closed ↦ rw closed b
    | inr held ↦
        rw held (elim (Bool-cases (leb (size k (or_default l.current [])) config.max_bytes)) [
          | inl fits ↦ rw fits b
          | inr big ↦ rw big (do_rotate-Bounded now l b.few)
        ])
  ]

  -- Any sequence of appends and rotations keeps the number of rotated files within the retention
  -- count and the current file within the size threshold.
  pub perform_all-Bounded :
      (cs : List Call) (l : Logs) → Bounded k config l → Bounded k config (perform_all cs l)
  unfolding perform_all perform
  perform_all-Bounded [] l b = b
  perform_all-Bounded (append_at now e ∷ cs) l b =
      perform_all-Bounded cs (append p k config now e l) (append-Bounded now e l b)
  perform_all-Bounded (rotate_at now ∷ cs) l b =
      perform_all-Bounded cs (rotate p k config now l).1 (rotate-Bounded now l b)
