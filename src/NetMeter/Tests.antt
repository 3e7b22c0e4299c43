-- ===== src/NetMeter/Tests.antt =====
-- A reply with one reading, from a server on x86-64, and a list of two measurements.
use power_pack.Measure.Tests.{whole, megawatts}
use power_pack.Measure.{Mm}
use power_pack.NetMeter.Convert.{IsConverted, convert-IsConverted}
use power_pack.NetMeter.Replies.{request-received, request-failed}
use power_pack.NetMeter.Wire.{
  lp64, Request, Fits, encode_lp64, decode, decode-encode_lp64, words, word_at, first_word,
}
use power_pack.NetMeter.{request, convert, take_reply, payload_size}
use power_pack.Prelude.Int.{ℤ, pos, negsuc}
use power_pack.Prelude.{
  ℕ, ◌+◌, ◌*◌, ◌≡◌, refl, some, List, [], ◌∷◌, ◌++◌, ◌==◌, leb, if◌then◌else◌, length, drop,
  replicate, Bytes, done, fault, received, failed, arith,
}

-- the units are MUNITS_MILLI | MUNITS_WATTS
abbrev one_reading : Request
one_reading = record { cmd = 2; last_read = replicate 8 7; num_chs = 1; units = 0x040400; rc = 0 }

abbrev one_reading-Fits : Fits (replicate 4 0) (replicate 4 9) one_reading
one_reading-Fits = record {
  pad_is = refl;
  pad'_is = refl;
  last_read_is = refl;
  cmd_fits = omega arith;
  num_chs_fits = omega arith;
  units_fits = omega arith;
  rc_fits = omega arith;
}

abbrev reply : Bytes
reply =
    2 ∷ 0 ∷ 0 ∷ 0 ∷ 0 ∷ 0 ∷ 0 ∷ 0 ∷ 7 ∷ 7 ∷ 7 ∷ 7 ∷ 7 ∷ 7 ∷ 7 ∷ 7 ∷ 1 ∷ 0 ∷ 0 ∷ 0 ∷ 0 ∷ 4 ∷ 4 ∷ 0
    ∷ 0 ∷ 0 ∷ 0 ∷ 0 ∷ 9 ∷ 9 ∷ 9 ∷ 9 ∷ 232 ∷ 3 ∷ 0 ∷ 0 ∷ []

abbrev room : List ℕ
room = 5 ∷ 6 ∷ []

reply_taken : take_reply lp64 reply 36 (5 ∷ 6 ∷ []) ≡ done (pos 36, one_reading, 1000 ∷ 6 ∷ [])
unfolding take_reply decode word_at first_word words payload_size
reply_taken = refl

decode-encode_lp64_run :
    decode lp64 (encode_lp64 (replicate 4 0) (replicate 4 9) one_reading ++ (1 ∷ [])) ≡ one_reading
decode-encode_lp64_run =
    decode-encode_lp64 (replicate 4 0) (replicate 4 9) one_reading (1 ∷ []) one_reading-Fits

reply_num_chs : (decode lp64 reply).num_chs ≡ 1
unfolding decode word_at first_word
reply_num_chs = refl

request-received_example : request lp64 [] one_reading room (some 32) (received reply) ≡ (
    let new = decode lp64 reply in
    if length reply == 32 + 4 * new.num_chs
    then (if leb new.num_chs (length room)
        then done
            (pos (length reply), new, words new.num_chs (drop 32 reply) ++ drop new.num_chs room)
        else fault)
    else done (negsuc 4, new, room))
request-received_example =
    request-received [] reply one_reading room (omega arith) (omega arith) (omega arith)
      (omega (arith, reply_num_chs))

request-failed_run :
    request lp64 reply one_reading [] (some 32) failed ≡ done (negsuc 4, decode lp64 reply, [])
request-failed_run = request-failed reply one_reading [] (omega arith)

convert-IsConverted_example :
    (out : List (Mm ℤ)) × (convert whole
        (some one_reading)
        (some (megawatts ∷ megawatts ∷ []))
        (8 ∷ [])
      ≡ done (some out))
    × IsConverted whole one_reading 1 (megawatts ∷ megawatts ∷ []) (8 ∷ []) out
convert-IsConverted_example =
    convert-IsConverted whole one_reading (megawatts ∷ megawatts ∷ []) (8 ∷ []) (omega arith)
      (omega arith) (omega arith)
