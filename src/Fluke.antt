-- ===== src/Fluke.antt =====
-- old/metertools/src/mapi/fluke_189.c: the driver of the Fluke 189.
-- What `write` and `read` report is an argument; so is what a local array holds before it is set. The
-- conversion `%f` of sscanf is a parameter.
pub mod Reply
pub mod Reading
mod Tests
use power_pack.Measure.{Mm, Parsed, invalid, parsed, store}
use power_pack.Prelude.Decimal.{atoi}
use power_pack.Prelude.Int.{ℤ, pos, negsuc, eqb_ℤ, sub_ℕ}
use power_pack.Prelude.{
  ℕ, zero, suc, ◌+◌, ◌-◌, Bool, true, false, ◌||◌, Option, none, some, List, [], ◌∷◌, ◌++◌, ltb,
  leb, ◌==◌, if◌then◌else◌, length, get_elem?, set, take, drop, Bytes, is_space, bytes_eq_upto,
  codes, Outcome, done, fault, ReadResult, received, failed,
}

-- CMD_QM to CMD_SF, and -1.
pub data Command : Type 0 where
  cmd_qm cmd_id cmd_ds cmd_ri cmd_sf unknown : Command

unfoldable pub get_command : Bytes → Command
get_command cmd =
    if bytes_eq_upto 2 cmd (codes "QM")
    then cmd_qm
    else if bytes_eq_upto 2 cmd (codes "ID")
    then cmd_id
    else if bytes_eq_upto 2 cmd (codes "DS")
    then cmd_ds
    else if bytes_eq_upto 2 cmd (codes "SF")
    then cmd_sf
    else if bytes_eq_upto 2 cmd (codes "RI")
    then cmd_ri
    else unknown

-- `fluke_189_send`: the command is built in 16 bytes with its CR and NUL; a write that is not complete ends
-- the program, which is `none`. The static `command` and the bytes sent are the result.
unfoldable pub send : Bytes → Option ℕ → Outcome (Option (Command × Bytes))
send cmd wrote = if ltb 16 (length cmd + 2) then fault else elim wrote [
  | none ↦ done none
  | some n ↦
      if n == length cmd + 1 then done (some (get_command cmd, cmd ++ b'\r' ∷ [])) else done none
]

unfoldable pub query : Option ℕ → Outcome (Option (Command × Bytes))
query wrote = send (codes "QM") wrote

unfoldable pub max_lines : Command → ℕ
max_lines cmd_qm = 2
max_lines cmd_id = 2
max_lines c = 1

unfoldable pub count_cr : Bytes → ℕ
count_cr [] = 0
count_cr (x ∷ b) = let rest = count_cr b in if x == b'\r' then suc rest else rest

-- The loop that reads the lines: it goes on, a read fails, or these bytes are there.
pub data Collected : Type 0 where
  waiting read_failed : Collected
  collected : Bytes → Collected

unfoldable pub read_lines : ℕ → ℕ → Bytes → List ReadResult → Collected
read_lines len lines acc [] = waiting
read_lines len lines acc (failed ∷ rs) = read_failed
read_lines len lines acc (received b ∷ rs) =
    let got = take (len - length acc) b in
    let rest = read_lines len lines (acc ++ got) rs in
    if count_cr (acc ++ got) == lines || length got == 0 then collected (acc ++ got) else rest

-- The loop that replaces the last CR, from the index `i` down: the array, and where `i` stands then.
unfoldable pub strip_last : ℕ → Bytes → Bytes × ℕ
strip_last zero b = (b, 0)
strip_last (suc i) b =
    let rest = strip_last i b in
    elim (get_elem? b (suc i)) [
      | none ↦ rest
      | some x ↦ if x == b'\r' then (set b (suc i) 0, suc i) else rest
    ]

-- while (buf_tmp[i] != '\r' && i < c) buf_tmp[i++] = 0, with `n` rounds left until `c`.
unfoldable pub zero_out : ℕ → ℕ → Bytes → Outcome Bytes
zero_out zero i b = elim (get_elem? b i) [ none ↦ fault | some x ↦ done b ]
zero_out (suc n) i b =
    let rest = zero_out n (suc i) (set b i 0) in
    elim (get_elem? b i) [ none ↦ fault | some x ↦ if x == b'\r' then done b else rest ]

-- memcpy(buf, buf_tmp + 2, c)
unfoldable pub copy_data : ℕ → Bytes → Bytes → Outcome Bytes
copy_data c tmp buf =
    if leb (2 + c) (length tmp)
    then (if leb c (length buf) then done (take c (drop 2 tmp) ++ drop c buf) else fault)
    else fault

-- What is left of `fluke_189_read` once `c` bytes stand in `buf_tmp`: the return value, the buffer and the
-- status. With no byte at all the index of the last CR is -1.
unfoldable pub take_lines : ℕ → Bytes → Bytes → Outcome (ℤ × Bytes × ℤ)
take_lines c tmp buf =
    let (stripped, i) = strip_last (c - 1) tmp in
    let status = atoi stripped in
    if eqb_ℤ status (pos 0)
    then (if c == 0 then fault else elim (zero_out (c - i) i stripped) [
      | fault ↦ fault
      | done out ↦ elim (copy_data c out buf) [
        | fault ↦ fault
        | done buf' ↦ done (sub_ℕ c 2, buf', status)
      ]
    ])
    else done (pos c, buf, status)

-- `fluke_189_read` into a buffer of `len` bytes; `junk` is what `buf_tmp` holds behind the bytes read.
-- `none` is a loop that goes on.
unfoldable pub read :
    Command → ℕ → Bytes → Bytes → List ReadResult → Outcome (Option (ℤ × Bytes × ℤ))
read cmd len junk buf rs = elim (read_lines len (max_lines cmd) [] rs) [
  | waiting ↦ done none
  | read_failed ↦ done (some (negsuc 0, buf, pos 0))
  | collected b ↦ elim (take_lines (length b) (b ++ drop (length b) junk) buf) [
    | fault ↦ fault
    | done r ↦ done (some r)
  ]
]

-- The index of the first byte with the property, below `n`, else `n`; `none` is a read out of range. The
-- loop reads the byte before it tests the bound if `read_first`.
unfoldable pub find_index : (ℕ → Bool) → Bool → ℕ → ℕ → Bytes → Option ℕ
find_index p read_first zero i b =
    if read_first then (elim b [ [] ↦ none | x ∷ r ↦ some i ]) else some i
find_index p read_first (suc n) i [] = none
find_index p read_first (suc n) i (x ∷ b) =
    let rest = find_index p read_first n (suc i) b in if p x then some i else rest

-- `if (buf[i] == 'm') { units |= …; i++; }`
unfoldable pub prefix_flag : ℕ → ℕ → ℕ × Bytes → ℕ × Bytes
prefix_flag c flag (u, []) = (u, [])
prefix_flag c flag (u, x ∷ b) = if x == c then (u + flag, b) else (u, x ∷ b)

-- The units from `buf + i`; `done none` is EINVAL.
unfoldable pub measure_flag : ℕ × Bytes → Outcome (Option ℕ)
measure_flag (u, []) = fault
measure_flag (u, x ∷ b) =
    if x == b'A'
    then done (some (u + 0x000004))
    else if x == b'V'
    then done (some (u + 0x000008))
    else done none

unfoldable pub units_at : Bytes → Outcome (Option ℕ)
units_at b = measure_flag (prefix_flag b'u' 0x020000 (prefix_flag b'm' 0x040000 (0, b)))

abbrev pub is_comma : ℕ → Bool
is_comma c = c == b','

module _ {F : Type 0} (scan_float : Bytes → Option (F × Bytes)) where
  -- sscanf(b, "+%f", &value) == 1
  unfoldable pub scan_signed : Bytes → Option F
  scan_signed [] = none
  scan_signed (x ∷ b) =
      if x == b'+' then (elim (scan_float b) [ none ↦ none | some r ↦ some r.0 ]) else none

  -- The rest of `fluke_189_parse` for a value that was read, from the index `i`.
  unfoldable pub store_reading : F → Bytes → ℕ → ℕ → List (Mm F) → Outcome (Parsed F)
  store_reading v buf len i mm = elim (find_index is_space true (len - i) i (drop i buf)) [
    | none ↦ fault
    | some j ↦ if leb len (suc j) then done invalid else elim (units_at (drop (suc j) buf)) [
      | fault ↦ fault
      | done none ↦ done invalid
      | done (some u) ↦ done (parsed (store mm (λ m. record m { value = v; units = u })))
    ]
  ]

  -- `fluke_189_parse`: a value that cannot be read leaves the measurement and returns 0.
  unfoldable pub parse : Option Bytes → ℕ → Option (List (Mm F)) → Outcome (Parsed F)
  parse none len mm = done invalid
  parse (some buf) len none = done invalid
  parse (some buf) len (some mm) = elim (find_index is_comma false len 0 buf) [
    | none ↦ fault
    | some k ↦ if leb len (suc k) then done invalid else elim (scan_signed (drop (suc k) buf)) [
      | none ↦ done (parsed mm)
      | some v ↦ store_reading v buf len (suc k) mm
    ]
  ]
