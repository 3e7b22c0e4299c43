-- ===== src/Protek.antt =====
-- old/metertools/src/mapi/protek_506.c: the driver of the Protek 506.
-- What `write` and `read` report is an argument; so is what a local variable holds before it is set. The
-- conversion `%f` of sscanf is a parameter.
pub mod Bytewise
mod Tests
use power_pack.Measure.{Mm, Parsed, invalid, parsed, store}
use power_pack.Prelude.Int.{ℤ, pos, negsuc}
use power_pack.Prelude.{
  ℕ, suc, ◌+◌, Bool, true, false, ◌||◌, Option, none, some, List, [], ◌∷◌, ◌++◌, ltb, leb, ◌==◌,
  if◌then◌else◌, length, set, take, drop, Bytes, skip_spaces, strchr, strlen, Outcome, done, fault,
  ReadResult, received, failed,
}

-- `protek_506_send`: a write that does not report one byte ends the program, which is `none`.
unfoldable pub send : Bytes → Option ℕ → Option Bytes
send cmd none = none
send cmd (some n) = if n == 1 then some cmd else none

unfoldable pub query : Option ℕ → Option Bytes
query wrote = send (b'\r' ∷ []) wrote

-- `read` of one byte to `buf_tmp + c`: the array and the count.
unfoldable pub read_byte : ℕ → Bytes → Bytes → Outcome (Bytes × ℕ)
read_byte c tmp [] = done (tmp, 0)
read_byte c tmp (x ∷ b) = if ltb c (length tmp) then done (set tmp c x, 1) else fault

-- The loop that reads a line: it goes on, a read fails, or `buf_tmp` has a CR at this index, after a read of
-- so many bytes.
pub data Progress : Type 0 where
  waiting read_failed : Progress
  ended : Bytes → ℕ → ℕ → Progress

unfoldable pub read_line : ℕ → Bytes → List ReadResult → Outcome Progress
read_line c tmp [] = done waiting
read_line c tmp (failed ∷ rs) = done read_failed
read_line c tmp (received b ∷ rs) = elim (read_byte c tmp b) [
  | fault ↦ fault
  | done (tmp', r) ↦
      let rest = read_line (c + r) tmp' rs in
      elim (strchr b'\r' tmp') [
        | fault ↦ fault
        | done none ↦ rest
        | done (some i) ↦ done (ended tmp' i r)
      ]
]

-- *strchr(buf_tmp, '\r') = 0 and memcpy(buf, buf_tmp, strlen(buf_tmp))
unfoldable pub copy_line : Bytes → ℕ → Bytes → Outcome Bytes
copy_line tmp i buf =
    let cut = set tmp i 0 in
    elim (strlen cut) [
      | fault ↦ fault
      | done n ↦ if leb n (length buf) then done (take n cut ++ drop n buf) else fault
    ]

-- `protek_506_read`: the return value and the buffer; the status is 0 always. `junk` is what `buf_tmp` holds
-- at first. `none` is a loop that goes on.
unfoldable pub read : Bytes → Bytes → List ReadResult → Outcome (Option (ℤ × Bytes))
read junk buf rs = elim (read_line 0 junk rs) [
  | fault ↦ fault
  | done waiting ↦ done none
  | done read_failed ↦ done (some (negsuc 0, buf))
  | done (ended tmp i r) ↦ elim (copy_line tmp i buf) [
    | fault ↦ fault
    | done buf' ↦ done (some (pos r, buf'))
  ]
]

module _ {F : Type 0} (scan_float : Bytes → Option (F × Bytes)) where
  -- What the conversions of sscanf store in `value`: two characters, blanks, and a float.
  unfoldable pub convert_text : Bytes → Option F
  convert_text (a ∷ b ∷ r) = elim (scan_float (skip_spaces r)) [ none ↦ none | some p ↦ some p.0 ]
  convert_text r = none

  -- sscanf takes the string up to its NUL, and reads behind a buffer that has none.
  unfoldable pub scan_value : Bytes → Outcome (Option F)
  scan_value buf = elim (strlen buf) [ fault ↦ fault | done n ↦ done (convert_text (take n buf)) ]

  -- `protek_506_parse`; `unset` is what `value` holds before sscanf. sscanf never returns 0 for its first
  -- conversion, `%c`, so that the message is not reached, and it is not an error if it were.
  unfoldable pub parse : F → Option Bytes → Option (List (Mm F)) → Outcome (Parsed F)
  parse unset none mm = done invalid
  parse unset (some buf) none = done invalid
  parse unset (some buf) (some mm) = elim (scan_value buf) [
    | fault ↦ fault
    | done scanned ↦
        let value : F = elim scanned [ none ↦ unset | some v ↦ v ] in
        done (parsed (store mm (λ m. record m { value = value })))
  ]
