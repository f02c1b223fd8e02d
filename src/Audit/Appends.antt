-- ===== src/Audit/Appends.antt =====
-- An append loses no event.
use kintunnel.Base.{
  ℕ, zero, suc, ◌+◌, ◌≤◌, ◌<◌, ◌≡◌, refl, ap, ◌∙◌, Bool, true, false, ◌||◌, Option, none, some,
  List, [], ◌∷◌, ◌++◌, any, take, length, arith, ltb, or_default, Text, text_eq, Bool-cases, inl,
  inr,
}
use kintunnel.Types.{AuditEvent}
use kintunnel.Platform.{Platform}
use kintunnel.Apply.Maps.{text_leb}
use kintunnel.Audit.{
  EventCodec, AuditStoreConfig, Logs, size, stamp, put_file, prune_old_files, do_rotate,
  move_current, append, read_lines, add_event, rotated_events, logged,
}

any_append :
    (g : AuditEvent → Bool) (xs ys : List AuditEvent) → any g (xs ++ ys) ≡ (any g xs || any g ys)
any_append g [] ys = refl
any_append g (x ∷ xs) ys = ground (arith, any_append g xs ys)

any-add_event :
    (g : AuditEvent → Bool) (o : Option AuditEvent) (xs ys zs : List AuditEvent)
    → any g xs ≡ (any g ys || any g zs)
    → any g (add_event o xs) ≡ (any g (add_event o ys) || any g zs)
unfolding add_event
any-add_event g none xs ys zs h = h
any-add_event g (some e) xs ys zs h = ground (arith, h)

any-read_lines :
    (k : EventCodec) (g : AuditEvent → Bool) (xs ys : List Text)
    → any g (read_lines k (xs ++ ys)) ≡ (any g (read_lines k xs) || any g (read_lines k ys))
unfolding read_lines
any-read_lines k g [] ys = refl
any-read_lines k g ([] ∷ xs) ys = any-read_lines k g xs ys
any-read_lines k g ((c ∷ s) ∷ xs) ys =
    any-add_event g (k.parse_event (c ∷ s)) (read_lines k (xs ++ ys)) (read_lines k xs)
      (read_lines k ys) (any-read_lines k g xs ys)

-- A file under a new name adds its events.
any-put_file :
    (k : EventCodec) (g : AuditEvent → Bool) (name : Text) (lines : List Text)
    (files : List (Text × List Text))
    → any (λ f. text_eq name f.0) files ≡ false
    → any g (rotated_events k (put_file name lines files))
      ≡ (any g (read_lines k lines) || any g (rotated_events k files))
unfolding put_file rotated_events
any-put_file k g name lines [] h = ground arith
any-put_file k g name lines ((m, old) ∷ files) h =
    let fresh : text_eq name m ≡ false = ground arith in
    let new = read_lines k lines in
    let here = read_lines k old in
    let rest = rotated_events k files in
    rw fresh (elim (Bool-cases (text_leb m name)) [
      | inl first ↦ rw first (ground (arith, any_append g (rest ++ here) new))
      | inr later ↦ rw later (
          ground (
            arith,
            any_append g (rotated_events k (put_file name lines files)) here,
            any_append g rest here,
            any-put_file k g name lines files (ground arith),
          ))
    ])

length-put_file :
    (name : Text) (lines : List Text) (files : List (Text × List Text))
    → length (put_file name lines files) ≤ length files + 1
unfolding put_file
length-put_file name lines [] = omega arith
length-put_file name lines ((m, old) ∷ files) = ground (arith, length-put_file name lines files)

take_all : {A : Type 0} (n : ℕ) (xs : List A) → length xs ≤ n → take n xs ≡ xs
take_all zero [] h = refl
take_all zero (x ∷ xs) h = absurd (omega arith)
take_all (suc n) [] h = refl
take_all (suc n) (x ∷ xs) h = ap (λ ys. x ∷ ys) (take_all n xs (omega arith))

or_false : (b : Bool) → (b || false) ≡ b
or_false true = refl
or_false false = refl

module _ (p : Platform) (k : EventCodec) (config : AuditStoreConfig) where
  any-last :
      (e : AuditEvent) (c : ℕ) (s : Text) (g : AuditEvent → Bool)
      → k.print_event e ≡ c ∷ s
      → k.parse_event (c ∷ s) ≡ some e
      → any g (read_lines k (k.print_event e ∷ [])) ≡ g e
  unfolding read_lines add_event
  any-last e c s g prints parses =
      ap (λ line. any g (read_lines k (line ∷ []))) prints
      ∙ ap (λ o. any g (add_event o [])) parses
      ∙ or_false (g e)

  any-logged :
      (g : AuditEvent → Bool) (l : Logs)
      → any g (logged k l)
        ≡ (any g (read_lines k (or_default l.current [])) || any g (rotated_events k l.rotated))
  unfolding logged
  any-logged g l =
      any_append g (read_lines k (or_default l.current [])) (rotated_events k l.rotated)

  any-do_rotate :
      (now : ℕ) (l : Logs) (lines : List Text) (g : AuditEvent → Bool)
      → length l.rotated < config.retention_count
      → any (λ f. text_eq (stamp p now) f.0) l.rotated ≡ false
      → any g (logged k (do_rotate p config now (record l { handle = true; current = some lines })))
        ≡ (any g (read_lines k lines) || any g (rotated_events k l.rotated))
  unfolding do_rotate move_current prune_old_files logged read_lines
  any-do_rotate now l lines g room fresh =
      ap (λ files. any g (rotated_events k files))
        (take_all config.retention_count (put_file (stamp p now) lines l.rotated)
          (omega (arith, length-put_file (stamp p now) lines l.rotated, room)))
      ∙ any-put_file k g (stamp p now) lines l.rotated fresh

  -- An append of an event whose printed line is not empty and parses to it, to a log with fewer
  -- rotated files than are retained and no file under the name of the time, whether it rotates or
  -- not, leaves a log whose events are those of before and the new one.
  pub append-logged :
      (now : ℕ) (e : AuditEvent) (l : Logs) (c : ℕ) (s : Text) (g : AuditEvent → Bool)
      → k.print_event e ≡ c ∷ s
      → k.parse_event (c ∷ s) ≡ some e
      → length l.rotated < config.retention_count
      → any (λ f. text_eq (stamp p now) f.0) l.rotated ≡ false
      → any g (logged k (append p k config now e l)) ≡ (any g (logged k l) || g e)
  unfolding append
  append-logged now e l c s g prints parses room fresh =
      let old = or_default l.current [] in
      let lines = old ++ k.print_event e ∷ [] in
      let added = any-last e c s g prints parses in
      let before = any-logged g l in
      let whole = any-read_lines k g old (k.print_event e ∷ []) in
      elim (Bool-cases (ltb config.max_bytes (size k lines))) [
        | inl big ↦
            rw big (ground (arith, added, whole, before, any-do_rotate now l lines g room fresh))
        | inr fits ↦ rw fits (
            ground (
              arith,
              added,
              whole,
              before,
              any-logged g (record l { handle = true; current = some lines }),
            ))
      ]
