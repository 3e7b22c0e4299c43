-- ===== src/Fluke/Tests.antt =====
-- A reply of 12 mA in three chunks; numbers are read as whole numbers.
use power_pack.Measure.{Mm, parsed}
use power_pack.Prelude.{ℕ, ◌≡◌, refl, some, Option, List, [], ◌∷◌, Bytes, codes, done, received}
use power_pack.Prelude.Decimal.{digits_value}
use power_pack.Fluke.{
  cmd_qm, cmd_ds, get_command, send, count_cr, read_lines, max_lines, find_index, scan_signed,
  parse, waiting,
}

unfoldable scan_whole : Bytes → Option (ℕ × Bytes)
scan_whole b = some (digits_value 0 b, [])

abbrev twelve : Bytes
twelve = codes "12"

abbrev chunks : List Bytes
chunks = codes "0\rQ" ∷ codes "M,+12 " ∷ codes "mA\r" ∷ []

abbrev unset : List (Mm ℕ)
unset = record { value = 0; units = 0; to_sec = 5 } ∷ []

-- A minus is no error, and stores nothing.
minus_run : parse scan_whole (some (codes "QM,-12 mA")) 9 (some unset) ≡ done (parsed unset)
unfolding parse find_index scan_signed
minus_run = refl

-- Two CRs at once, where one is waited for, are passed by.
passed_run :
    read_lines 20 (max_lines cmd_ds) [] (received (codes "0\r\r") ∷ received (codes "0\r") ∷ [])
    ≡ waiting
unfolding read_lines max_lines count_cr
passed_run = refl

send_run : send (codes "QM") (some 3) ≡ done (some (cmd_qm, codes "QM\r"))
unfolding send get_command
send_run = refl
