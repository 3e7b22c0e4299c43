-- ===== src/NiServer/Tests.antt =====
-- Two samples for each channel, over whole numbers in the place of floats.
use power_pack.Measure.Tests.{whole}
use power_pack.NetMeter.Wire.{lp64, Request, encode_lp64}
use power_pack.NetMeter.{cmd_power, request}
use power_pack.NiServer.Acquire.{mean_of}
use power_pack.NiServer.Pipeline.{Asks, every_n_callback-monitored}
use power_pack.NiServer.{
  NiServer, Visit, active_channels, read_samples, chan_volts, milli_power, every_n_callback,
  power_packet, answer_message, visit_round,
}
use power_pack.Prelude.Int.{ℤ, pos, ◌-ℤ◌, pos_part}
use power_pack.Prelude.{
  ℕ, ◌%◌, ◌^◌, ◌<◌, ◌≡◌, refl, true, some, List, [], ◌∷◌, ◌++◌, get_elem?, get_or, drop, replicate,
  Bytes, done, fault, received, arith,
}
use power_pack.Server.Monitor.Rounds.{after_channels}
use power_pack.Server.Monitor.{Samples, the_channels, take_powers}
use power_pack.Server.Tests.{blank, blank-Fits, joined, room, watched, watched-Sized}
use power_pack.Server.{coalesce, reply, text_end}

abbrev decimal : ℕ → ℕ → ℤ
decimal m k = pos m

abbrev to_unsigned : ℤ → ℕ
to_unsigned z = pos_part z % 2 ^ 32

abbrev serving : NiServer
serving = record { cumulative_energy = 0; nidaq_milli_powers = replicate 16 0; acquiring = true }

abbrev array : List ℤ
array = replicate 32 (pos 1)

abbrev visit : Bytes → Visit
visit got = record {
  running = true;
  select_ok = true;
  result = received got;
  still_running = true;
  writable = true;
  junk = blank;
  pad = replicate 4 1;
  pad' = replicate 4 2;
}

abbrev asked : Request
asked = record blank { cmd = cmd_power }

abbrev asking : Visit
asking = visit (encode_lp64 (replicate 4 1) (replicate 4 2) asked)

-- A message of 63 bytes whose second byte is 62.
long_text_fault : visit_round (visit (20 ∷ 62 ∷ replicate 61 65)) serving joined ≡ fault
unfolding visit_round answer_message coalesce text_end
long_text_fault = refl

asking-Asks : Asks asking blank
asking-Asks = record {
  ready = refl;
  going = refl;
  can_write = refl;
  fits = blank-Fits;
  asked_pad = replicate 4 1;
  asked_pad' = replicate 4 2;
  asked_fits = record {
    pad_is = refl;
    pad'_is = refl;
    last_read_is = refl;
    cmd_fits = omega arith;
    num_chs_fits = omega arith;
    units_fits = omega arith;
    rc_fits = omega arith;
  };
  arrived = refl;
}

every_n_callback-monitored_example :
    (ws : List ℕ) × (st : Samples) × (every_n_callback whole ◌-ℤ◌ decimal to_unsigned
        (read_samples 2 array)
        serving
      ≡ done record serving { nidaq_milli_powers = ws })
    × (visit_round asking (record serving { nidaq_milli_powers = ws }) joined
        ≡ done (
          record serving { nidaq_milli_powers = ws },
          reply (power_packet asking (record serving { nidaq_milli_powers = ws })) joined,
        ))
    × (request lp64 [] asked room
          (some 32)
          (received (power_packet asking (record serving { nidaq_milli_powers = ws })))
        ≡ done (
          pos 96,
          record blank { cmd = cmd_power; num_chs = active_channels; units = 0x040400 },
          ws ++ drop 16 room,
        ))
    × (take_powers 1 the_channels 16 (ws ++ drop 16 room) watched
        ≡ done
            record watched { nidaq = after_channels 16 (ws ++ drop 16 room) watched; stats = st })
    × ((i : ℕ)
        → i < 16
        → get_elem? (after_channels 16 (ws ++ drop 16 room) watched).nidaq_powers i
          ≡ some (
              let v = mean_of whole ◌-ℤ◌ decimal to_unsigned 2 array i in
              milli_power whole ◌-ℤ◌ decimal to_unsigned v
                (get_or (chan_volts whole ◌-ℤ◌ decimal to_unsigned) i v)))
every_n_callback-monitored_example =
    every_n_callback-monitored whole ◌-ℤ◌ decimal to_unsigned (λ x. omega arith) 1 array serving
      asking blank joined [] room watched 1 (omega arith) refl asking-Asks refl watched-Sized
