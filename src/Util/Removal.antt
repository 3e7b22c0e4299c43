-- ===== src/Util/Removal.antt =====
-- recursive_rmdir: what it removes, in which order, and what it holds on every path.
use power_pack.Prelude.{
  ℕ, suc, ◌-◌, ◌≡◌, refl, ap, sym, ◌∙◌, ◌⊎◌, inl, inr, Bool, true, false, some, List, [], ◌∷◌, ◌++◌,
  append_assoc, Bytes, if◌then◌else◌, not, arith, Bool-cases,
}
use power_pack.Util.{
  Call, opendir, closedir, rmdir, lstat, unlink, release, alloc, Entries, end, file, folder,
  is_dots, name_size, path, opened, named, after, unlinked, remove_entries, recursive_rmdir,
}

-- The removals among the calls.
unfoldable pub removed : List Call → List Call
removed [] = []
removed (unlink p ∷ log) = unlink p ∷ removed log
removed (rmdir p ∷ log) = rmdir p ∷ removed log
removed (c ∷ log) = removed log

-- The removals that a folder needs, the last first: what is in it, entry by entry, and then the folder.
unfoldable pub removals : Bytes → Entries → List Call
removals directory end = rmdir directory ∷ []
removals directory (file name rest) =
    let r = removals directory rest in
    if is_dots name then r else r ++ unlink (path directory name) ∷ []
removals directory (folder name inside rest) =
    let r = removals directory rest in
    let i = removals (path directory name) inside in if is_dots name then r else r ++ i

one_less : {a n : ℕ} → a ≡ suc n → a - 1 ≡ n
one_less h = omega arith

module _ (ok : List Call → Bool) where
  -- The folders that were opened and not yet closed, and the names not yet released.
  unfoldable pub held_folders : List Call → ℕ
  held_folders [] = 0
  held_folders (opendir p ∷ log) =
      let n = held_folders log in if ok (opendir p ∷ log) then suc n else n
  held_folders (closedir p ∷ log) = held_folders log - 1
  held_folders (c ∷ log) = held_folders log

  unfoldable pub held_names : List Call → ℕ
  held_names [] = 0
  held_names (alloc s ∷ log) = let n = held_names log in if ok (alloc s ∷ log) then suc n else n
  held_names (release p ∷ log) = held_names log - 1
  held_names (c ∷ log) = held_names log

  -- How many of the calls whose result is looked at failed, and whether the latest call but those that clean up is
  -- one of them.
  unfoldable pub failures : List Call → ℕ
  failures [] = 0
  failures (opendir p ∷ log) = let n = failures log in if ok (opendir p ∷ log) then n else suc n
  failures (alloc s ∷ log) = let n = failures log in if ok (alloc s ∷ log) then n else suc n
  failures (lstat p ∷ log) = let n = failures log in if ok (lstat p ∷ log) then n else suc n
  failures (unlink p ∷ log) = let n = failures log in if ok (unlink p ∷ log) then n else suc n
  failures (c ∷ log) = failures log

  unfoldable pub halted : List Call → Bool
  halted [] = false
  halted (closedir p ∷ log) = halted log
  halted (release p ∷ log) = halted log
  halted (rmdir p ∷ log) = false
  halted (c ∷ log) = not (ok (c ∷ log))

  -- The run returns 0 and none of those calls has failed, or it does not, and one has: the last.
  abbrev pub EndsAt : List Call → Bool × List Call → Type 0
  EndsAt log r =
      ((r.0 ≡ true) × (failures r.1 ≡ failures log))
      ⊎ ((r.0 ≡ false) × (failures r.1 ≡ suc (failures log)) × (halted r.1 ≡ true))

  -- After a run from `log`: so many folders and names are held, and the removals tried are the first of `plan`,
  -- all of them if it returns 0.
  pub record Ran (folders names : ℕ) (plan log : List Call) (r : Bool × List Call) : Type 0 where
    folders_held : held_folders r.1 ≡ folders
    names_held : held_names r.1 ≡ names
    left : List Call
    tried : left ++ removed r.1 ≡ plan ++ removed log
    complete : (r.0 ≡ false) ⊎ (left ≡ [])
    ends : EndsAt log r

  unlinked-Ran :
      (n m : ℕ) (p : Bytes) (log : List Call)
      → held_folders log ≡ n
      → held_names log ≡ m
      → Ran n m (unlink p ∷ []) log (unlinked ok p log)
  unfolding unlinked held_folders held_names removed failures halted
  unlinked-Ran n m p log h k = record {
    folders_held = h;
    names_held = k;
    left = [];
    tried = refl;
    complete = inr refl;
    ends = elim (Bool-cases (ok (unlink p ∷ log))) [
      | inl e ↦ inl (e, rw (failures, e) refl)
      | inr e ↦ inr (e, rw (failures, e) refl, rw (halted, e) refl)
    ];
  }

  -- Calls before the run that remove nothing.
  Ran-from :
      (n m : ℕ) (plan l log : List Call) (r : Bool × List Call)
      → removed l ≡ removed log
      → failures l ≡ failures log
      → Ran n m plan l r
      → Ran n m plan log r
  Ran-from n m plan l log r e f ran = record {
    folders_held = ran.folders_held;
    names_held = ran.names_held;
    left = ran.left;
    tried = ran.tried ∙ ap (λ v. plan ++ v) e;
    complete = ran.complete;
    ends = elim ran.ends [ inl (t, q) ↦ inl (t, q ∙ f) | inr (t, q, z) ↦ inr (t, q ∙ ap suc f, z) ];
  }

  opened-Ran :
      (directory : Bytes) (next : List Call → Bool × List Call) (n m : ℕ) (plan log : List Call)
      → ((l : List Call) → held_folders l ≡ suc n → held_names l ≡ m → Ran n m plan l (next l))
      → held_folders log ≡ n
      → held_names log ≡ m
      → Ran n m plan log (opened ok directory next log)
  unfolding opened held_folders held_names removed failures halted
  opened-Ran directory next n m plan log run h k =
      elim (Bool-cases (ok (opendir directory ∷ log))) [
        | inl e ↦
            rw (opened, e)
              (Ran-from n m plan (opendir directory ∷ log) log (next (opendir directory ∷ log)) refl
                (rw (failures, e) refl) (run (opendir directory ∷ log) (rw (e, h) refl) k))
        | inr e ↦
            rw (opened, e)
              record {
                folders_held = rw (held_folders, e) h;
                names_held = k;
                left = plan;
                tried = refl;
                complete = inl refl;
                ends = inr (refl, rw (failures, e) refl, rw (halted, e) refl);
              }
      ]

  named-Ran :
      (directory name : Bytes) (next : List Call → Bool × List Call) (n m : ℕ)
      (plan log : List Call)
      → ((l : List Call) → held_folders l ≡ suc n → held_names l ≡ suc m → Ran n m plan l (next l))
      → held_folders log ≡ suc n
      → held_names log ≡ m
      → Ran n m plan log (named ok directory name next log)
  unfolding named held_folders held_names removed failures halted
  named-Ran directory name next n m plan log run h k =
      let log1 : List Call = alloc (name_size directory name) ∷ log in
      let log2 : List Call = lstat (path directory name) ∷ log1 in
      elim (Bool-cases (ok log1)) [
        | inl e ↦ elim (Bool-cases (ok log2)) [
          | inl e2 ↦
              rw (named, e, e2)
                (Ran-from n m plan log2 log (next log2) refl (rw (failures, e, e2) refl)
                  (run log2 h (rw (e, k) refl)))
          | inr e2 ↦
              rw (named, e, e2)
                record {
                  folders_held = one_less h;
                  names_held = rw e (one_less (ap suc k));
                  left = plan;
                  tried = refl;
                  complete = inl refl;
                  ends = inr (refl, rw (failures, e, e2) refl, rw (halted, e2) refl);
                }
        ]
        | inr e ↦
            rw (named, e)
              record {
                folders_held = one_less h;
                names_held = rw (e, k) refl;
                left = plan;
                tried = refl;
                complete = inl refl;
                ends = inr (refl, rw (failures, e) refl, rw (halted, e) refl);
              }
      ]

  after-Ran :
      (directory name : Bytes) (next : List Call → Bool × List Call) (n m : ℕ)
      (plan1 plan2 log : List Call) (r : Bool × List Call)
      → ((l : List Call) → held_folders l ≡ suc n → held_names l ≡ m → Ran n m plan2 l (next l))
      → Ran (suc n) (suc m) plan1 log r
      → Ran n m (plan2 ++ plan1) log (after ok directory name next r)
  unfolding after held_folders held_names removed failures halted
  after-Ran directory name next n m plan1 plan2 log (true, l) run r =
      let p = path directory name in
      let next_ran = run (release p ∷ l) r.folders_held (one_less r.names_held) in
      let all : removed l ≡ plan1 ++ removed log = elim r.complete [
        | inl f ↦ absurd (ground (arith, f))
        | inr z ↦ ap (λ v. v ++ removed l) (sym z) ∙ r.tried
      ] in
      record {
        folders_held = next_ran.folders_held;
        names_held = next_ran.names_held;
        left = next_ran.left;
        tried =
            next_ran.tried
            ∙ ap (λ v. plan2 ++ v) all
            ∙ sym (append_assoc plan2 plan1 (removed log));
        complete = next_ran.complete;
        ends = elim r.ends [
          | inr (f, q, z) ↦ absurd (ground (arith, f))
          | inl (t, q) ↦ elim next_ran.ends [
            | inl (t', q') ↦ inl (t', q' ∙ q)
            | inr (t', q', z) ↦ inr (t', q' ∙ ap suc q, z)
          ]
        ];
      }
  after-Ran directory name next n m plan1 plan2 log (false, l) run r = record {
    folders_held = one_less r.folders_held;
    names_held = one_less r.names_held;
    left = plan2 ++ r.left;
    tried =
        append_assoc plan2 r.left (removed l)
        ∙ ap (λ v. plan2 ++ v) r.tried
        ∙ sym (append_assoc plan2 plan1 (removed log));
    complete = inl refl;
    ends = elim r.ends [
      | inl (t, q) ↦ absurd (ground (arith, t))
      | inr (t, q, z) ↦ inr (refl, q, z)
    ];
  }

  remove_entries-Ran :
      (directory : Bytes) (es : Entries) (n m : ℕ) (log : List Call)
      → held_folders log ≡ suc n
      → held_names log ≡ m
      → Ran n m (removals directory es) log (remove_entries ok directory es log)
  unfolding remove_entries removals held_folders held_names removed failures
  remove_entries-Ran directory end n m log h k = record {
    folders_held = one_less h;
    names_held = k;
    left = [];
    tried = refl;
    complete = inr refl;
    ends = inl (refl, refl);
  }
  remove_entries-Ran directory (file name rest) n m log h k = elim (Bool-cases (is_dots name)) [
    | inl d ↦ rw (remove_entries, removals, d) (remove_entries-Ran directory rest n m log h k)
    | inr d ↦
        let p = path directory name in
        rw (remove_entries, removals, d)
          (named-Ran directory name
            (λ l. after ok directory name (remove_entries ok directory rest) (unlinked ok p l)) n m
            (removals directory rest ++ unlink p ∷ []) log
            (λ l f g.
              after-Ran directory name (remove_entries ok directory rest) n m (unlink p ∷ [])
                (removals directory rest) l (unlinked ok p l)
                (remove_entries-Ran directory rest n m) (unlinked-Ran (suc n) (suc m) p l f g))
            h k)
  ]
  remove_entries-Ran directory (folder name inside rest) n m log h k =
      elim (Bool-cases (is_dots name)) [
        | inl d ↦ rw (remove_entries, removals, d) (remove_entries-Ran directory rest n m log h k)
        | inr d ↦
            let p = path directory name in
            rw (remove_entries, removals, d)
              (named-Ran directory name
                (λ l.
                  after ok directory name (remove_entries ok directory rest)
                    (opened ok p (remove_entries ok p inside) l))
                n m (removals directory rest ++ removals p inside) log
                (λ l f g.
                  after-Ran directory name (remove_entries ok directory rest) n m
                    (removals p inside) (removals directory rest) l
                    (opened ok p (remove_entries ok p inside) l)
                    (remove_entries-Ran directory rest n m)
                    (opened-Ran p (remove_entries ok p inside) (suc n) (suc m) (removals p inside) l
                      (remove_entries-Ran p inside (suc n) (suc m)) f g))
                h k)
      ]

  -- Whichever calls fail, recursive_rmdir holds no more folders and names at its end than before; the removals it
  -- tries are those that the folder needs, in the order of its entries with what is in a folder before it.
  -- It returns 0 exactly if none of opendir, malloc, lstat and unlink fails, and has tried all of them then. It
  -- stops at the first of these calls that fails: no other fails before it, and only names are released and folders
  -- closed behind it. A rmdir that fails changes nothing of this: the loop goes on.
  pub recursive_rmdir-Ran :
      (directory : Bytes) (es : Entries) (log : List Call)
      → Ran
          (held_folders log)
          (held_names log)
          (removals directory es)
          log
          (recursive_rmdir ok (some directory) es log)
  unfolding recursive_rmdir
  recursive_rmdir-Ran directory es log =
      opened-Ran directory (remove_entries ok directory es) (held_folders log) (held_names log)
        (removals directory es) log
        (remove_entries-Ran directory es (held_folders log) (held_names log)) refl refl
