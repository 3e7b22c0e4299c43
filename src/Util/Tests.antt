-- ===== src/Util/Tests.antt =====
-- A folder with a file, a folder in it, and another file.
use power_pack.Prelude.{
  arith, ◌≡◌, refl, true, false, Bool, some, List, [], ◌∷◌, codes, done, fault,
}
use power_pack.Util.Removal.{Ran, held_folders, held_names, removals, removed, recursive_rmdir-Ran}
use power_pack.Util.Strings.{Holds, varg_tostring-Holds}
use power_pack.Util.{
  NameAnswer, fits, too_long, other_error, null, freed, held, name_loop, get_hostname, Call, rmdir,
  unlink, Entries, end, file, folder, recursive_rmdir, opened, named, after, unlinked,
  remove_entries, varg_tostring, trim, skip_blanks, skip_back,
}

abbrev logs : Entries
logs =
    file (codes ".")
      (file (codes "a") (folder (codes "old") (file (codes "b") end) (file (codes "c") end)))

-- Only the second call from the end of the paths, the removal of the file in the folder, fails.
abbrev locked : List Call → Bool
locked (unlink (x ∷ y ∷ r ∷ s ∷ u ∷ p) ∷ log) = false
locked log = true

abbrev no_rmdir : List Call → Bool
no_rmdir (rmdir p ∷ log) = false
no_rmdir log = true

recursive_rmdir-Ran_example :
    Ran locked 0 0
      (removals (codes "d") logs)
      []
      (recursive_rmdir locked (some (codes "d")) logs [])
unfolding held_folders held_names
recursive_rmdir-Ran_example = recursive_rmdir-Ran locked (codes "d") logs []

locked_run :
    removed (recursive_rmdir locked (some (codes "d")) logs []).1
    ≡ unlink (codes "d/old/b") ∷ unlink (codes "d/a") ∷ []
unfolding removed recursive_rmdir opened named after unlinked remove_entries
locked_run = refl

-- No folder is removed, and 0 is returned.
no_rmdir_run : (recursive_rmdir no_rmdir (some (codes "d")) logs []).0 ≡ true
unfolding recursive_rmdir opened named after unlinked remove_entries
no_rmdir_run = refl

varg_tostring-Holds_example :
    Holds (codes "text") 72 (varg_tostring 5 (λ n. true) true (codes "text"))
varg_tostring-Holds_example =
    varg_tostring-Holds (λ n. true) true (codes "text") (λ n h. refl) (omega arith)

-- The blanks in front stay, and a string of blanks alone is left at its front.
trim_run : trim (codes " a b \t") ≡ done (codes " a b")
unfolding trim skip_blanks skip_back
trim_run = refl

blank_run : trim (codes "  ") ≡ fault
unfolding trim skip_blanks
blank_run = refl

-- A name of 100 bytes; and an error after which the freed pointer is returned by every later call.
hostname_run :
    get_hostname null true ((too_long, true) ∷ (too_long, true) ∷ (fits, true) ∷ [])
    ≡ done (some (held 128))
unfolding get_hostname name_loop
hostname_run = refl

freed_run : get_hostname null true ((other_error, true) ∷ []) ≡ done (some freed)
unfolding get_hostname name_loop
freed_run = refl

freed_later :
    (can_allocate : Bool) (answers : List (NameAnswer × Bool))
    → get_hostname freed can_allocate answers ≡ done (some freed)
unfolding get_hostname
freed_later can_allocate answers = refl
