-- ===== src/WattsUp/Tests.antt =====
-- A data record with all its fields, over whole numbers in the place of floats.
use power_pack.Measure.{Mm, FloatOps}
use power_pack.Prelude.Decimal.{atoi, digits_value}
use power_pack.Prelude.Int.{ℤ, pos, ◌+ℤ◌, ◌*ℤ◌, ltb_ℤ}
use power_pack.Prelude.{
  strchr, strlen, ◌≤◌, ◌≡◌, refl, ◌⊎◌, true, false, none, some, List, [], ◌∷◌, ◌++◌, replicate,
  Bytes, codes, length, done, fault, ReadResult, received, failed, arith,
}
use power_pack.WattsUp.Parse.{parse_in_range, parse-overlay, readings, overlay}
use power_pack.WattsUp.Port.{queries, AllGive, IsLine, queries_lem, read_term_lem}
use power_pack.WattsUp.Line.{read_line, read_record, check_end, put, skip_to_hash, copy_string}
use power_pack.WattsUp.Setup.{listen, run_step, on_read, read_port}
use power_pack.WattsUp.Records.{take_record-publish_all}
use power_pack.WattsUp.{
  from_hash, tokens, tokens_from, field, store_at, token_value, store_units, store_value,
  parse_loop, parse, publish_all, take_record, query, read_term,
}

-- Division is left out.
abbrev whole : FloatOps
whole = record {
  Float = ℤ;
  Double = ℤ;
  of_int = λ n. n;
  widen = λ n. n;
  narrow = λ n. n;
  add = ◌+ℤ◌;
  mul = ◌*ℤ◌;
  div = λ a b. a;
  lt = ltb_ℤ;
}

abbrev line : Bytes
line = codes "#d,-,16,11,22,33,4,5,6,7,8,9,10,11,12,13,95,0,0"

abbrev unset : Mm ℤ
unset = record { value = pos 0; units = 0; to_sec = 5 }

abbrev four : List (Mm ℤ)
four = replicate 4 unset

abbrev stored : List (Mm ℤ)
stored =
    record { value = pos 11; units = 0x000400; to_sec = 5 }
    ∷ record { value = pos 22; units = 0x000008; to_sec = 5 }
    ∷ record { value = pos 33; units = 0x000004; to_sec = 5 }
    ∷ record { value = pos 95; units = 0x000800; to_sec = 5 }
    ∷ []

line_parsed : parse whole (some (codes "ab" ++ line)) (some four) ≡ done (some stored)
unfolding parse from_hash tokens tokens_from parse_loop store_units store_value token_value field
    store_at atoi digits_value
line_parsed = refl

-- An empty field is no token for strtok: the fields behind it are taken for those before them.
fields_shift :
    parse whole (some (codes "#d,-,16,,22,33")) (some four)
    ≡ done (
        some (
          record { value = pos 22; units = 0x000400; to_sec = 5 }
          ∷ record { value = pos 33; units = 0x000008; to_sec = 5 }
          ∷ unset
          ∷ unset
          ∷ []))
unfolding parse from_hash tokens tokens_from parse_loop store_units store_value token_value field
    store_at atoi digits_value
fields_shift = refl

parse_in_range_run :
    (parse whole (some line) (some four) ≡ done none)
    ⊎ ((out : List (Mm ℤ)) × (parse whole (some line) (some four) ≡ done (some out))
        × (length out ≡ 4))
parse_in_range_run = parse_in_range whole refl line four (omega arith)

abbrev short_line : Bytes
short_line = codes "#d,-,16,11,22"

found : from_hash short_line ≡ some short_line
unfolding from_hash
found = refl

parse-overlay_run :
    parse whole (some short_line) (some four)
    ≡ done (some (overlay whole refl 0 (readings whole refl 0 (tokens short_line)) four))
unfolding tokens tokens_from field token_value atoi digits_value
parse-overlay_run =
    parse-overlay whole refl short_line short_line four found refl (omega arith) (refl, (refl, _))

take_record-publish_all_example :
    (let full = publish_all ([] ++ line ∷ []) (record { buffer = []; valid = 3 }) in
      (full.valid ≤ 100_000)
      × (take_record true false [] [] full ≡ (some line, record { buffer = line; valid = 0 }))
      × (take_record true true [] line (record { buffer = line; valid = 0 })
          ≡ (none, record { buffer = line; valid = 0 })))
take_record-publish_all_example =
    take_record-publish_all [] [] line [] (record { buffer = []; valid = 3 }) false (omega arith)

queries_lem_run :
    (queries 3 false [] ≡ some (true, codes "#R,W,0;" ∷ replicate 3 (codes "#L,W,3,E,1,1;")))
    × (query false true false [] ≡ none)
    × (query true false true [] ≡ none)
queries_lem_run = queries_lem 2 true

abbrev two_reads : List ReadResult
two_reads = received (codes "ab") ∷ received (codes "c") ∷ []

read_term_lem_example :
    (AllGive two_reads
      → 1 ≤ 2
      → 2 ≤ length two_reads
      → (out : Bytes) × (read_term 10 2 [] two_reads ≡ done (some out)) × IsLine 10 2 out)
    × (read_term 10 2 [] (received [] ∷ two_reads) ≡ fault)
    × (read_term 10 2 [] (failed ∷ two_reads) ≡ fault)
read_term_lem_example = read_term_lem 10 2 two_reads

-- A record in two chunks, behind what is left of the one before.
record_run :
    read_line 16
      (replicate 24 0)
      (replicate 16 9)
      (received (codes "0\r\n#d,-") ∷ received (codes ",1;#d") ∷ [])
    ≡ done (some (some (6, codes "#d,-,1" ++ 0 ∷ replicate 9 9)))
unfolding read_line read_record check_end put skip_to_hash copy_string strchr strlen
record_run = refl

-- Without a hash an empty text is copied.
no_hash_run :
    read_line 16 (replicate 24 0) (replicate 4 9) (received (codes "d,-;") ∷ [])
    ≡ done (some (some (0, 0 ∷ replicate 3 9)))
unfolding read_line read_record check_end put skip_to_hash copy_string strchr strlen
no_hash_run = refl

-- The log format is read into an array of 128 bytes, with room for 200.
long_format_run :
    run_step listen
      (record { wrote = true; reply = received (replicate 130 b'x') })
      (record { sent = []; is_open = true; thread_state = false })
    ≡ fault
unfolding run_step on_read read_port
long_format_run = refl
