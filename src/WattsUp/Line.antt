-- ===== src/WattsUp/Line.antt =====
-- watts_up.c: `watts_up_read`, which collects a record that ends in a semicolon.
pub mod Chunked
use power_pack.Prelude.{
  ℕ, zero, suc, ◌+◌, ◌-◌, ◌≤◌, ◌<◌, ◌≡◌, refl, ap, sym, subst, ap₂, ◌⊎◌, ◌∙◌, inl, inr, Bool, true,
  false, ◌||◌, Option, none, some, List, [], ◌∷◌, ◌++◌, map, append-nil, append_assoc, leb, ltb,
  ◌==◌, if◌then◌else◌, length, length-append, length-replicate, take, take_all, take-append_self,
  drop, drop-append_add, set, set-append, replicate, Bytes, strchr, strlen, Plain, strchr-end,
  strchr-zero, strlen-append, Outcome, done, fault, ReadResult, received, failed, arith, Bool-cases,
}

-- The loop: it goes on, a read fails, or after `c` bytes the array has a semicolon at this index.
pub data Search : Type 0 where
  going_on read_error : Search
  found : Bytes → ℕ → ℕ → Search

-- `read` into `buf_tmp + c`
unfoldable pub put : ℕ → Bytes → Bytes → Bytes
put c tmp got = take c tmp ++ (got ++ drop (c + length got) tmp)

-- if (strchr(buf_tmp, ';')) break
unfoldable pub check_end : Bytes → ℕ → Outcome Search → Outcome Search
check_end tmp c rest = elim (strchr b';' tmp) [
  | fault ↦ fault
  | done none ↦ rest
  | done (some i) ↦ done (found tmp c i)
]

unfoldable pub read_record : ℕ → Bytes → List ReadResult → Outcome Search
read_record c tmp [] = done going_on
read_record c tmp (failed ∷ rs) = done read_error
read_record c tmp (received b ∷ rs) =
    let got = take (length tmp - c) b in
    check_end (put c tmp got) (c + length got) (read_record (c + length got) (put c tmp got) rs)

-- while (*p != '#' && *p != 0 && ++i < c) p++: `i`, and the array from `p`; `none` is a read out of range.
unfoldable pub skip_to_hash : ℕ → ℕ → Bytes → Option (ℕ × Bytes)
skip_to_hash c i [] = none
skip_to_hash c i (x ∷ b) =
    let rest = skip_to_hash c (suc i) b in
    if x == b'#' || x == 0
    then some (i, x ∷ b)
    else if ltb (suc i) c
    then rest
    else some (suc i, x ∷ b)

-- memcpy(buf, p, c) and buf[c] = 0, for the string at `p`: its length and the buffer.
unfoldable pub copy_string : Bytes → Bytes → Outcome (ℕ × Bytes)
copy_string p buf = elim (strlen p) [
  | fault ↦ fault
  | done c ↦ if ltb c (length buf) then done (c, take c p ++ 0 ∷ drop (suc c) buf) else fault
]

-- `watts_up_read` into a buffer for `len` bytes. `none` is a loop that goes on; `some none` is -1.
unfoldable pub read_line :
    ℕ → Bytes → Bytes → List ReadResult → Outcome (Option (Option (ℕ × Bytes)))
read_line len junk buf rs = elim (read_record 0 junk rs) [
  | fault ↦ fault
  | done going_on ↦ done none
  | done read_error ↦ done (some none)
  | done (found tmp c n) ↦ elim (skip_to_hash c 0 (set tmp n 0)) [
    | none ↦ fault
    | some (i, p) ↦
        if leb c i || leb len i
        then done (some none)
        else elim (copy_string p buf) [ fault ↦ fault | done r ↦ done (some (some r)) ]
  ]
]
