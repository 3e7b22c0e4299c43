-- ===== src/RadioShack/Tests.antt =====
-- Runs of the decoder on packets, and the theorems at such packets.
use power_pack.Prelude.{
  ◌+◌, ◌==◌, ◌<◌, ◌≡◌, ◌≢◌, refl, Option, some, true, [], ◌∷◌, ◌++◌, Bytes, codes, arith, length,
  drop, done, fault, received, ◌↔◌, ◌≤◌, if◌then◌else◌,
}
use power_pack.Measure.{Mm, parsed}
use power_pack.RadioShack.Digit.{find_segments, segments_of, cook_digit, digit_of_byte}
use power_pack.RadioShack.Driver.{bytes, read, parse}
use power_pack.RadioShack.Output.{packet_cook_unchecked, packet_cook_fits}
use power_pack.RadioShack.Reads.{read_lem, decoded, parse-read_packet}
use power_pack.RadioShack.RoundTrip.{parse-packet_sprint, cooked, plain_amps}
use power_pack.RadioShack.Segments.{shown, shown_iff, without_point}
use power_pack.RadioShack.{
  Packet, packet_new, packet_read, packet_cook, packet_sprint, unpack, cook_digits, cook_value,
  cook_output, digit_str, multiplier, unit_name, indicators,
}

-- The bytes of the text stand for the float that they spell.
abbrev text_of : Bytes → Bytes
text_of b = b

abbrev blank : Packet Bytes
blank = unfold packet_new in packet_new []

-- "-12.34 A": the point belongs to the third digit, and bit 3 of byte 8 is the sign.
abbrev amps_bytes : Bytes
amps_bytes = 4 ∷ 0x04 ∷ 0 ∷ 0x72 ∷ 0xf9 ∷ 0xb5 ∷ 0x50 ∷ 0x08 ∷ 0 ∷ []

abbrev amps_packet : Packet Bytes
amps_packet = record blank { raw = amps_bytes }

-- The same display in a packet of another mode and another checksum.
abbrev spoiled_packet : Packet Bytes
spoiled_packet = record blank { raw = 9 ∷ 0x04 ∷ 0 ∷ 0x72 ∷ 0xf9 ∷ 0xb5 ∷ 0x50 ∷ 0x08 ∷ 77 ∷ [] }

cook_amps : (packet_cook text_of amps_packet).output ≡ codes "-12.34 A\n"
unfolding packet_cook cook_output cook_value cook_digits unpack digit_str multiplier unit_name
    indicators cook_digit digit_of_byte segments_of find_segments
cook_amps = refl

packet_cook_unchecked_run :
    ((packet_cook text_of amps_packet).output ≡ (packet_cook text_of spoiled_packet).output)
    × ((packet_cook text_of amps_packet).value ≡ (packet_cook text_of spoiled_packet).value)
packet_cook_unchecked_run = packet_cook_unchecked text_of amps_packet spoiled_packet (record {
  byte_2 = refl;
  byte_3 = refl;
  byte_4 = refl;
  byte_5 = refl;
  byte_6 = refl;
  byte_7 = refl;
  byte_8 = refl;
})

-- 0xe7 shows a '6', and so does 0xef, which is 0xe7 with the point.
shown_six : shown 0xe7 ≢ b'?'
unfolding cook_digit digit_of_byte segments_of find_segments
shown_six e = omega arith

shown_iff_example : (shown 0xe7 ≡ shown 0xef) ↔ (without_point 0xe7 ≡ without_point 0xef)
shown_iff_example = shown_iff 0xe7 0xef (omega arith) (omega arith) shown_six

read_lem_run :
    (9 < 8 → read text_of [] (some 9) true (received amps_bytes) [] ≡ fault)
    × (8 ≤ 9
        → (out : Bytes) × (read text_of [] (some 9) true (received amps_bytes) []
            ≡ done (bytes 9, out)))
    × (9 ≤ 9
        → read text_of [] (some 9) true (received amps_bytes) []
          ≡ done (
            bytes 9,
            packet_sprint (packet_cook text_of (packet_read (packet_new []) amps_bytes)) 256,
          ))
read_lem_run = read_lem text_of [] 9 4 (drop 1 amps_bytes) [] (omega arith)

-- `%f` on a text whose number ends at a blank.
abbrev until_blank : Bytes → Bytes × Bytes
until_blank [] = ([], [])
until_blank (c ∷ cs) = let (w, r) = until_blank cs in if c == b' ' then ([], c ∷ cs) else (c ∷ w, r)

abbrev scan_number : Bytes → Option (Bytes × Bytes)
scan_number b = some (until_blank b)

has_unit : multiplier (cooked text_of amps_packet) ++ unit_name (cooked text_of amps_packet) ≢ []
unfolding packet_cook cook_output cook_value cook_digits unpack multiplier unit_name
has_unit e = cc

scans_digits :
    (rest : Bytes)
    → scan_number (digit_str (cooked text_of amps_packet) ++ (b' ' ∷ rest))
      ≡ some (text_of (digit_str (cooked text_of amps_packet)), b' ' ∷ rest)
unfolding packet_cook cook_output cook_value cook_digits unpack digit_str cook_digit digit_of_byte
    segments_of find_segments
scans_digits rest = refl

has_unit_read :
    multiplier (decoded text_of [] amps_bytes) ++ unit_name (decoded text_of [] amps_bytes) ≢ []
unfolding packet_read packet_new packet_cook cook_output cook_value cook_digits unpack multiplier
    unit_name
has_unit_read e = cc

scans_read :
    (rest : Bytes)
    → scan_number (digit_str (decoded text_of [] amps_bytes) ++ (b' ' ∷ rest))
      ≡ some (text_of (digit_str (decoded text_of [] amps_bytes)), b' ' ∷ rest)
unfolding packet_read packet_new packet_cook cook_output cook_value cook_digits unpack digit_str
    cook_digit digit_of_byte segments_of find_segments
scans_read rest = refl

abbrev idle : Mm Bytes
idle = record { value = []; units = 0; to_sec = 5 }

parse-packet_sprint_example :
    parse scan_number (some (packet_sprint (cooked text_of amps_packet) 256)) (some (idle ∷ []))
    ≡ parsed (
        record {
          value = (cooked text_of amps_packet).value;
          units = if plain_amps (cooked text_of amps_packet) then 4 else 0;
          to_sec = 5;
        }
        ∷ [])
parse-packet_sprint_example =
    parse-packet_sprint text_of scan_number amps_packet idle [] has_unit scans_digits

parse-read_packet_example :
    (out : Bytes) × (read text_of [] (some 9) true (received amps_bytes) [] ≡ done (bytes 9, out))
    × (parse scan_number (some out) (some (idle ∷ []))
        ≡ parsed (
            record {
              value = digit_str (decoded text_of [] amps_bytes);
              units = if plain_amps (decoded text_of [] amps_bytes) then 4 else 0;
              to_sec = 5;
            }
            ∷ []))
parse-read_packet_example =
    parse-read_packet text_of [] scan_number 9 4 (drop 1 amps_bytes) [] idle [] (omega arith)
      (omega arith) has_unit_read scans_read

packet_cook_fits_example :
    (length (digit_str (packet_cook text_of amps_packet)) + 1 ≤ 10)
    × (length (packet_cook text_of amps_packet).output + 1 ≤ 66)
    × (packet_sprint (packet_cook text_of amps_packet) 256
        ≡ (packet_cook text_of amps_packet).output)
packet_cook_fits_example = packet_cook_fits text_of amps_packet
