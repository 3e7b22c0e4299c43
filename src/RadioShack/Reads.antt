-- ===== src/RadioShack/Reads.antt =====
-- `rs_22812_read`: which byte counts are safe, and what reaches the caller's buffer.
use power_pack.Measure.{Mm, parsed}
use power_pack.Prelude.{
  ◌≢◌, ◌∙◌, Option, List, [], if◌then◌else◌, ℕ, ◌+◌, ◌-◌, ◌≤◌, ◌<◌, ◌≡◌, ap, true, some, ◌∷◌, ◌++◌,
  length, replicate, Bytes, arith, done, fault, received, take-append_of_le,
}
use power_pack.RadioShack.Driver.{bytes, read, parse, print_packet}
use power_pack.RadioShack.RoundTrip.{cooked, plain_amps, value_is, parse-packet_sprint}
use power_pack.RadioShack.{
  digit_str, multiplier, unit_name, Packet, packet_new, packet_read, packet_cook, packet_sprint,
}

module _ {F : Type 0} (atof : Bytes → F) (zero_float : F) where
  packet_read-append :
      (new : Packet F) (got rest : Bytes)
      → 9 ≤ length got
      → packet_read new (got ++ rest) ≡ packet_read new got
  unfolding packet_read
  packet_read-append new got rest h =
      ap (λ r. record new { raw = r }) (take-append_of_le 9 got rest h)

  -- When the port holds `n` bytes and the read delivers at least one of them, copying the nine bytes of
  -- a packet out of the `n + 1` that were allocated is a fault exactly below eight. A whole packet is
  -- decoded and printed into the buffer, and the byte count is returned.
  pub read_lem :
      (n c : ℕ) (cs buf : Bytes)
      → length (c ∷ cs) ≤ n
      → (n < 8 → read atof zero_float (some n) true (received (c ∷ cs)) buf ≡ fault)
        × (8 ≤ n
            → (out : Bytes) × (read atof zero_float (some n) true (received (c ∷ cs)) buf
                ≡ done (bytes (length (c ∷ cs)), out)))
        × (9 ≤ length (c ∷ cs)
            → read atof zero_float (some n) true (received (c ∷ cs)) buf
              ≡ done (
                bytes (length (c ∷ cs)),
                packet_sprint (packet_cook atof (packet_read (packet_new zero_float) (c ∷ cs))) 256,
              ))
  unfolding read print_packet
  read_lem n c cs buf h = (
    λ k. ground arith,
    λ k. (
      packet_sprint
          (packet_cook atof (
            packet_read (packet_new zero_float)
              ((c ∷ cs) ++ replicate (n + 1 - length (c ∷ cs)) 0)))
          256,
      ground arith,
    ),
    λ k. ground (
      arith,
      packet_read-append (packet_new zero_float) (c ∷ cs) (replicate (n + 1 - length (c ∷ cs)) 0) k,
    ),
  )

-- The display that a packet of these bytes stands for.
abbrev pub decoded : {F : Type 0} → (Bytes → F) → F → Bytes → Packet F
decoded atof zero_float got = cooked atof (packet_read (packet_new zero_float) got)

-- A packet of nine bytes, or more, that a port with room for them delivers is decoded, printed and parsed to the value of
-- its display: rs_22812_read returns the count of bytes, and rs_22812_parse stores in the first measurement the
-- number that the decoded digits spell, in amperes exactly when the display shows "A" with no multiplier, and
-- with no unit otherwise. The display must show a unit, and `%f` read digits followed by a blank as `atof`
-- does.
pub parse-read_packet :
    {F : Type 0} (atof : Bytes → F) (zero_float : F) (scan_float : Bytes → Option (F × Bytes))
    (n c : ℕ) (cs buf : Bytes) (m : Mm F) (mms : List (Mm F))
    → length (c ∷ cs) ≤ n
    → 9 ≤ length (c ∷ cs)
    → multiplier (decoded atof zero_float (c ∷ cs)) ++ unit_name (decoded atof zero_float (c ∷ cs))
      ≢ []
    → ((rest : Bytes)
        → scan_float (digit_str (decoded atof zero_float (c ∷ cs)) ++ (b' ' ∷ rest))
          ≡ some (atof (digit_str (decoded atof zero_float (c ∷ cs))), b' ' ∷ rest))
    → (out : Bytes) × (read atof zero_float (some n) true (received (c ∷ cs)) buf
        ≡ done (bytes (length (c ∷ cs)), out))
      × (parse scan_float (some out) (some (m ∷ mms))
          ≡ parsed (
              record m {
                value = atof (digit_str (decoded atof zero_float (c ∷ cs)));
                units = if plain_amps (decoded atof zero_float (c ∷ cs)) then 4 else 0;
              }
              ∷ mms))
parse-read_packet atof zero_float scan_float n c cs buf m mms fits whole ne scans =
    let p = packet_read (packet_new zero_float) (c ∷ cs) in
    (
      packet_sprint (cooked atof p) 256,
      (read_lem atof zero_float n c cs buf fits).2 whole,
      parse-packet_sprint atof scan_float p m mms ne scans
          ∙ ap
              (λ v.
                parsed (
                  record m { value = v; units = if plain_amps (cooked atof p) then 4 else 0 }
                  ∷ mms))
              (value_is atof p),
    )
