-- ===== src/Protek/Tests.antt =====
-- A line of the meter; numbers are read as whole numbers.
use power_pack.Measure.{Mm, parsed}
use power_pack.Prelude.{
  Plain, strchr, ℕ, ◌≡◌, refl, none, some, Option, List, [], ◌∷◌, ◌++◌, map, replicate, Bytes,
  skip_spaces, codes, done, fault, received, failed, arith,
}
use power_pack.Prelude.Decimal.{digits_value}
use power_pack.Prelude.Int.{pos}
use power_pack.Protek.Bytewise.{byte_read, parse-read_line}
use power_pack.Protek.{read, read_line, read_byte, parse, query, send}

unfoldable scan_whole : Bytes → Option (ℕ × Bytes)
scan_whole b = some (digits_value 0 b, [])

abbrev unset : List (Mm ℕ)
unset = record { value = 0; units = 4; to_sec = 5 } ∷ []

-- The digit 9 of the line before stands behind this line, so that 12 becomes 129.
parse-read_line_example :
    (out : Bytes) × (out' : Bytes) × (read
        (replicate 256 0)
        (codes "DC  139 V" ++ 0 ∷ 7 ∷ [])
        (map byte_read (codes "DC  12\r") ++ failed ∷ [])
      ≡ done (some (pos 1, out)))
    × (parse scan_whole 7 (some out) (some unset)
        ≡ done (parsed (record { value = 129; units = 4; to_sec = 5 } ∷ [])))
    × (read (replicate 256 0) (codes "abcdefgh") (map byte_read (codes "DC  12\r") ++ failed ∷ [])
        ≡ done (some (pos 1, out')))
    × (parse scan_whole 7 (some out') (some unset) ≡ fault)
    × (read (3 ∷ b'\r' ∷ []) (codes "abcdefgh") (byte_read b'D' ∷ failed ∷ [])
        ≡ done (some (pos 1, codes "Dbcdefgh")))
unfolding skip_spaces scan_whole digits_value Plain
parse-read_line_example =
    parse-read_line scan_whole b'D' b'C' (codes "  12") (codes "DC  139 V") (7 ∷ [])
      (codes "abcdefgh") 256 (failed ∷ []) 7 unset 3 []
      (refl, refl, (refl, refl, (refl, refl, (refl, refl, (refl, refl, (refl, refl, tt))))))
      (omega arith) (ground arith) (omega arith) (ground arith) (omega arith)

-- At the end of the input the loop goes on, and an array with neither CR nor NUL is left.
ended_run : read (replicate 4 0) (codes "abcd") (received [] ∷ received [] ∷ []) ≡ done none
unfolding read read_line read_byte strchr
ended_run = refl

left_run : read (replicate 4 1) (codes "abcd") (byte_read b'D' ∷ []) ≡ fault
unfolding read read_line read_byte strchr
left_run = refl

query_run : query (some 1) ≡ some (codes "\r")
unfolding query send
query_run = refl
