-- ===== src/Util.antt =====
-- old/metertools/src/support/util.c: the removal of a folder, and strings.
-- What a system call reports is an argument, a function of all the calls up to it, the latest first.
pub mod Removal
pub mod Strings
mod Tests
use mathlib.Core.List.{reverse}
use power_pack.Prelude.Int.{ℤ, pos, negsuc}
use power_pack.Prelude.{
  ℕ, zero, suc, ◌+◌, ◌-◌, ◌*◌, ◌^◌, Bool, true, false, ◌||◌, Option, none, some, List, [], ◌∷◌,
  ◌++◌, ltb, leb, ◌==◌, if◌then◌else◌, length, take, Bytes, bytes_eq, codes, Outcome, done, fault,
}

-- The calls of `recursive_rmdir` that matter: of folders, of the memory for a name, and of files.
pub data Call : Type 0 where
  opendir closedir rmdir lstat unlink release : Bytes → Call
  alloc : ℕ → Call

-- What readdir gives for a folder, in order; for a folder in it, with its own entries.
pub data Entries : Type 0 where
  end : Entries
  file : Bytes → Entries → Entries
  folder : Bytes → Entries → Entries → Entries

-- "." and ".."
abbrev pub is_dots : Bytes → Bool
is_dots name = bytes_eq name (codes ".") || bytes_eq name (codes "..")

abbrev pub name_size : Bytes → Bytes → ℕ
name_size directory name = length directory + length name + 2

-- snprintf(name, size, "%s%c%s", directory, '/', d_name)
abbrev pub path : Bytes → Bytes → Bytes
path directory name = take (name_size directory name - 1) (directory ++ b'/' ∷ name)

module _ (ok : List Call → Bool) where
  -- `opendir`, and what follows if it succeeds.
  unfoldable pub opened : Bytes → (List Call → Bool × List Call) → List Call → Bool × List Call
  opened directory next log =
      let log1 : List Call = opendir directory ∷ log in
      elim (ok log1) [ true ↦ next log1 | false ↦ (false, log1) ]

  -- The name of an entry is built, and its status read.
  unfoldable pub named :
      Bytes → Bytes → (List Call → Bool × List Call) → List Call → Bool × List Call
  named directory name next log =
      let log1 : List Call = alloc (name_size directory name) ∷ log in
      let log2 : List Call = lstat (path directory name) ∷ log1 in
      elim (ok log1) [
        | false ↦ (false, closedir directory ∷ log1)
        | true ↦ elim (ok log2) [
          | true ↦ next log2
          | false ↦ (false, release (path directory name) ∷ closedir directory ∷ log2)
        ]
      ]

  -- The name is released; the loop goes on unless the removal failed.
  unfoldable pub after :
      Bytes → Bytes → (List Call → Bool × List Call) → Bool × List Call → Bool × List Call
  after directory name next (true, log) = next (release (path directory name) ∷ log)
  after directory name next (false, log) =
      (false, closedir directory ∷ release (path directory name) ∷ log)

  -- unlink
  unfoldable pub unlinked : Bytes → List Call → Bool × List Call
  unlinked p log = (ok (unlink p ∷ log), unlink p ∷ log)

  -- The loop over the entries of an open folder, and what follows it. The result of rmdir is not looked at.
  unfoldable pub remove_entries : Bytes → Entries → List Call → Bool × List Call
  remove_entries directory end log = (true, rmdir directory ∷ closedir directory ∷ log)
  remove_entries directory (file name rest) log = elim (is_dots name) [
    | true ↦ remove_entries directory rest log
    | false ↦
        named directory name
          (λ l.
            after directory name (remove_entries directory rest) (unlinked (path directory name) l))
          log
  ]
  remove_entries directory (folder name inside rest) log = elim (is_dots name) [
    | true ↦ remove_entries directory rest log
    | false ↦
        named directory name
          (λ l.
            after directory name (remove_entries directory rest)
              (opened (path directory name) (remove_entries (path directory name) inside) l))
          log
  ]

  -- `recursive_rmdir`: whether it returns 0, and the calls made.
  unfoldable pub recursive_rmdir : Option Bytes → Entries → List Call → Bool × List Call
  recursive_rmdir none es log = (false, log)
  recursive_rmdir (some directory) es log = opened directory (remove_entries directory es) log

-- What vsnprintf reports for a text, of a length that an int can hold, in `size` bytes: its length, or in old C libraries -1 if it does not fit.
unfoldable pub vsnprintf : Bool → Bytes → ℕ → ℤ
vsnprintf old text size =
    if old
    then (if ltb (length text) size then pos (length text) else negsuc 0)
    else pos (length text)

-- `varg_tostring`: the loop from a block of `size` bytes. `enough n` is whether there is memory for `n` bytes. `none`
-- is out of fuel; the text is what the block holds in the end. The sizes are of type int, and a size of 2^31 and more
-- is a fault.
unfoldable pub varg_loop : ℕ → (ℕ → Bool) → Bool → Bytes → ℕ → Option (Outcome (Option (Bytes × ℕ)))
varg_loop zero enough old text size = none
varg_loop (suc f) enough old text size = elim (vsnprintf old text size) [
  | pos n ↦
      let rest = varg_loop f enough old text (n + 1) in
      if ltb n size
      then some (done (some (take (size - 1) text, size)))
      else if ltb (n + 1) (2 ^ 31)
      then (if enough (n + 1) then rest else some (done none))
      else some fault
  | negsuc n ↦
      let rest = varg_loop f enough old text (size * 2) in
      if ltb (size * 2) (2 ^ 31)
      then (if enough (size * 2) then rest else some (done none))
      else some fault
]

unfoldable pub varg_tostring : ℕ → (ℕ → Bool) → Bool → Bytes → Option (Outcome (Option (Bytes × ℕ)))
varg_tostring fuel enough old text =
    if enough 64 then varg_loop fuel enough old text 64 else some (done none)

abbrev pub is_blank : ℕ → Bool
is_blank c = c == b' ' || c == b'\t'

-- while (is_blank(*p)) p--, from the last byte of a list whose last byte stands first; at the start of the memory it
-- reads before it.
unfoldable pub skip_back : Bytes → Outcome Bytes
skip_back [] = fault
skip_back (x ∷ b) = let rest = skip_back b in if is_blank x then rest else done (x ∷ b)

-- The leading blanks, and the rest.
unfoldable pub skip_blanks : Bytes → Bytes
skip_blanks [] = []
skip_blanks (x ∷ b) = let rest = skip_blanks b in if is_blank x then rest else x ∷ b

-- `trim`: the string in the memory of the caller, whose pointer the function cannot move. `len - 1` of an empty
-- rest wraps around, far behind the string.
unfoldable pub trim : Bytes → Outcome Bytes
trim s = elim (skip_blanks s) [
  | [] ↦ fault
  | x ∷ r ↦ elim (skip_back (reverse s)) [ fault ↦ fault | done b ↦ done (reverse b) ]
]

-- What gethostname does with a block: the name fits, it does not, or there is another error.
pub data NameAnswer : Type 0 where
  fits too_long other_error : NameAnswer

-- The static pointer `hn`: null, a block of so many bytes with the name, or a block that has been freed.
pub data HostName : Type 0 where
  null freed : HostName
  held : ℕ → HostName

-- The loop of `get_hostname` with a block of `size` bytes; each answer comes with whether realloc succeeds after
-- it. `done none` is a loop that goes on, and `fault` a call with the null pointer that realloc gave.
unfoldable pub name_loop : ℕ → List (NameAnswer × Bool) → Outcome (Option HostName)
name_loop size [] = done none
name_loop size ((fits, r) ∷ answers) = done (some (held size))
name_loop size ((other_error, r) ∷ answers) = done (some freed)
name_loop size ((too_long, false) ∷ answers) = fault
name_loop size ((too_long, true) ∷ answers) = name_loop (size * 2) answers

-- `get_hostname`: the pointer afterwards, which is what is returned.
unfoldable pub get_hostname : HostName → Bool → List (NameAnswer × Bool) → Outcome (Option HostName)
get_hostname null false answers = done (some null)
get_hostname null true answers = name_loop 32 answers
get_hostname h can_allocate answers = done (some h)
