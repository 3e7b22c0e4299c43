-- ===== src/RadioShack/Driver.antt =====
-- old/metertools/src/mapi/rs_22812.c: the driver's entries `rs_22812_read` and `rs_22812_parse`.
-- The conversion `%f` of `sscanf` is a parameter: the value read and the bytes that are left.
use power_pack.Prelude.{
  ℕ, ◌+◌, ◌-◌, Bool, true, false, Option, none, some, List, [], ◌∷◌, ◌++◌, ltb, if◌then◌else◌,
  length, replicate, Bytes, is_space, skip_spaces, bytes_eq_upto, codes, Outcome, done, fault,
  ReadResult, received, failed,
}
use power_pack.Measure.{Mm, Parsed, invalid, unreadable, parsed, store}
use power_pack.RadioShack.{packet_new, packet_read, packet_cook, packet_sprint}

-- The bytes that `%s` takes: up to the next space.
unfoldable pub first_word : Bytes → Bytes
first_word [] = []
first_word (c ∷ cs) = if is_space c then [] else c ∷ first_word cs

-- `units |= MUNITS_AMPS` when strncmp(tmp, "A", 2) == 0
abbrev pub amps_units : Bytes → ℕ
amps_units tmp = if bytes_eq_upto 2 tmp (codes "A") then 4 else 0

module _ {F : Type 0} (scan_float : Bytes → Option (F × Bytes)) where
  -- sscanf(buf, "%f %s", &value, tmp), as both conversions or a failure
  unfoldable pub scan_reading : Bytes → Option (F × Bytes)
  scan_reading buf = elim (scan_float buf) [
    | none ↦ none
    | some (v, rest) ↦ elim (first_word (skip_spaces rest)) [
      | [] ↦ none
      | c ∷ cs ↦ some (v, c ∷ cs)
    ]
  ]

  -- `rs_22812_parse`
  unfoldable pub parse : Option Bytes → Option (List (Mm F)) → Parsed F
  parse none mm = invalid
  parse (some buf) none = invalid
  parse (some buf) (some mm) = elim (scan_reading buf) [
    | none ↦ unreadable
    | some (v, tmp) ↦ parsed (store mm (λ m. record m { value = v; units = amps_units tmp }))
  ]

-- What `rs_22812_read` returns: a byte count, -1, or a variable that was never set.
pub data Count : Type 0 where
  bytes : ℕ → Count
  minus_one indeterminate : Count

module _ {F : Type 0} (atof : Bytes → F) (zero_float : F) where
  -- The packet in the first nine of the `n + 1` bytes of `rbuf`, printed into the caller's buffer.
  unfoldable pub print_packet : Bytes → ℕ → Outcome Bytes
  print_packet got n =
      if ltb (n + 1) 9
      then fault
      else done (
          packet_sprint
            (packet_cook atof
              (packet_read (packet_new zero_float) (got ++ replicate (n + 1 - length got) 0)))
            256)

  -- `rs_22812_read`, given the byte count of `meter_nbytes` (`none` if negative), whether `malloc`
  -- succeeds (if not, the code goes on to test a count that was never set), and what `read` reports. The result is the return value and the string in `buf`.
  unfoldable pub read : Option ℕ → Bool → ReadResult → Bytes → Outcome (Count × Bytes)
  unfolding print_packet
  read none ok result buf = done (indeterminate, buf)
  read (some n) false result buf = fault
  read (some n) true failed buf = done (minus_one, buf)
  read (some n) true (received []) buf = done (bytes 0, buf)
  read (some n) true (received (c ∷ cs)) buf = elim (print_packet (c ∷ cs) n) [
    | fault ↦ fault
    | done out ↦ done (bytes (length (c ∷ cs)), out)
  ]
