-- ===== src/NetMeter.antt =====
-- old/metertools/src/mapi/netmeter.c: the client's side of the meter protocol. What `write` and `read`
-- report is an argument of a request.
pub mod Wire
pub mod Encoded
pub mod Replies
pub mod Convert
mod Tests
use power_pack.Measure.{Mm, FloatOps}
use power_pack.NetMeter.Wire.{Layout, Request, decode, words}
use power_pack.Prelude.Int.{ℤ, pos, negsuc}
use power_pack.Prelude.{
  ℕ, zero, suc, ◌+◌, ◌-◌, ◌*◌, ◌/◌, ◌%◌, ◌^◌, Bool, true, false, Option, none, some, List, [], ◌∷◌,
  ◌++◌, ltb, leb, ◌==◌, if◌then◌else◌, length, drop, Bytes, Outcome, done, fault, ReadResult,
  received, failed, Errno, einval,
}

-- NETMETER_CMD_ENERGY and its fellows.
abbrev pub cmd_energy : ℕ
cmd_energy = 1

abbrev pub cmd_power : ℕ
cmd_power = 2

abbrev pub cmd_read : ℕ
cmd_read = 3

abbrev pub cmd_reset : ℕ
cmd_reset = 4

abbrev pub cmd_quit : ℕ
cmd_quit = 99

-- sizeof(unsigned int) * num_chs: an int is sign-extended to size_t, and the product wraps.
unfoldable pub payload_size : Layout → ℕ → ℕ
payload_size l n =
    4 * (if ltb n (2 ^ 31) then n else n + (2 ^ l.word_bits - 2 ^ 32)) % 2 ^ l.word_bits

-- What `netmeter_request` gives back: its return value, the message and the readings.
abbrev pub Reply : Type 0
Reply = ℤ × Request × List ℕ

-- Behind the test for a short reply: the struct is copied out of `buf`, then the byte count `r`, as
-- a size_t, is compared with the size that the struct asks for.
unfoldable pub take_reply : Layout → Bytes → ℕ → List ℕ → Outcome Reply
take_reply l buf r pwr =
    let msg = decode l buf in
    let size = payload_size l msg.num_chs in
    if r == (l.size + size) % 2 ^ l.word_bits
    then (if leb (size / 4) (length pwr)
        then done (pos r, msg, words (size / 4) (drop l.size buf) ++ drop (size / 4) pwr)
        else fault)
    else done (negsuc 4, msg, pwr)

-- `netmeter_request`. `wrote` is what `write` returns (`none` for -1), and `junk` what the local buffer
-- holds before the read.
unfoldable pub request : Layout → Bytes → Request → List ℕ → Option ℕ → ReadResult → Outcome Reply
request l junk msg pwr none result = done (negsuc 1, msg, pwr)
request l junk msg pwr (some wrote) result =
    if wrote == l.size
    then (if msg.cmd == cmd_reset then done (pos l.size, msg, pwr) else elim result [
      | failed ↦ take_reply l junk (2 ^ l.word_bits - 1) pwr
      | received got ↦
          if ltb (length got) l.size
          then done (negsuc 3, msg, pwr)
          else take_reply l got (length got) pwr
    ])
    else done (negsuc 1, msg, pwr)

module _ (fl : FloatOps) where
  open fl use {Float, of_int, div, narrow}

  -- The value of one reading, by the command that asked for it.
  unfoldable pub reading_value : ℕ → ℕ → Float
  reading_value cmd w =
      if cmd == cmd_read
      then narrow (div (of_int (pos w)) (of_int (pos 100_000)))
      else narrow (of_int (pos w))

  -- The loop of `netmeter_convert` over the channels that are left; `none` is an access out of range.
  unfoldable pub convert_loop : ℕ → Request → List (Mm Float) → List ℕ → Option (List (Mm Float))
  convert_loop zero msg mms ws = some mms
  convert_loop (suc n) msg [] ws = none
  convert_loop (suc n) msg (m ∷ mms) [] = none
  convert_loop (suc n) msg (m ∷ mms) (w ∷ ws) = elim (convert_loop n msg mms ws) [
    | none ↦ none
    | some out ↦ some (record m { value = reading_value msg.cmd w; units = msg.units } ∷ out)
  ]

  -- `netmeter_convert`: -1 with EINVAL is `none`; a negative channel count runs no round.
  unfoldable pub convert :
      Option Request → Option (List (Mm Float)) → List ℕ → Outcome (Option (List (Mm Float)))
  convert none mms ws = done none
  convert (some msg) none ws = done none
  convert (some msg) (some mms) ws =
      elim (convert_loop (if ltb msg.num_chs (2 ^ 31) then msg.num_chs else 0) msg mms ws) [
        | none ↦ fault
        | some out ↦ done (some out)
      ]
