-- ===== src/MeterServer/Tests.antt =====
-- A log message, two reads of the counters and a reading of 3 watts, over whole numbers in the place of floats.
use power_pack.Logger.{take_reading, keep_last}
use power_pack.Measure.Tests.{whole}
use power_pack.Measure.{Mm, FloatOps, prefix_of, measure_of, units_prefix, units_measure}
use power_pack.MeterServer.Monitor.Steps.{LogValid, Step, Reaches, Reaches-LogValid}
use power_pack.MeterServer.Monitor.{
  Locals, Reading, append_log, measures_text, monitor_round, name_text, monitor_line, show_reading,
}
use power_pack.MeterServer.Power.Answers.{Asks, rapl_reads-request, meter_packet-take_system}
use power_pack.MeterServer.Power.{
  sensor_header, sensor_packet, Metered, meter_header, milli_value, meter_packet,
}
use power_pack.MeterServer.Rapl.Reads.{time_of, milli, seconds, spent}
use power_pack.MeterServer.Rapl.{
  timestamp, signed, joules, watts_to_milli, new_powers, Counters, Rapl, rapl_read, rapl_reads,
}
use power_pack.MeterServer.Same.{as_server, BothAgree, serve_loop-api_loop}
use power_pack.MeterServer.{
  MeterServer, Log, serve_control, serve_message, serve_round, serve_loop, carry_out, open_log,
  shut_log,
}
use power_pack.NetMeter.Wire.{lp64, encode_lp64}
use power_pack.NetMeter.{cmd_power, request}
use power_pack.Prelude.Int.{ℤ, pos, negsuc, ◌-ℤ◌, ◌+ℤ◌, ◌*ℤ◌, pos_part, ltb_ℤ}
use power_pack.Prelude.{
  ℕ, ◌<◌, ltb, if◌then◌else◌, Option, ◌%◌, ◌^◌, ◌≡◌, refl, true, false, none, some, List, [], ◌∷◌,
  ◌++◌, replicate, drop, Bytes, codes, done, fault, received, arith,
}
use power_pack.Server.Monitor.System.{after_system, SystemSized}
use power_pack.Server.Monitor.{Monitor, the_system, take_powers}
use power_pack.Server.Tests.{arrival, blank, blank-Fits, joined, new_log_message, room, watched}
use power_pack.Server.{Event, api_loop, reply, hang_up, text_end, until_nul}

-- With an order, for the time that has gone by.
abbrev ordered : FloatOps
ordered = record whole { lt = ltb_ℤ }

abbrev decimal : ℕ → ℕ → ℤ
decimal m k = pos m

abbrev half_to : ℕ → ℤ
half_to n = pos 1

abbrev to_unsigned : ℤ → ℕ
to_unsigned z = pos_part z % 2 ^ 32

-- Where the conversion is defined.
abbrev milli_of : ℤ → Option ℕ
milli_of (pos n) = if ltb n (2 ^ 32) then some n else none
milli_of (negsuc n) = none

abbrev bytes_of : ℤ → Bytes
bytes_of z = replicate 8 0

abbrev no_log : Log
no_log = record { logging = false; fplog = none; closed = []; entered = [] }

abbrev sensors : MeterServer (List ℕ)
sensors = record {
  cumulative_energy = 0;
  last_units = 0x000400;
  log = no_log;
  measured = replicate 3 0;
}

serve_loop-api_loop_example :
    BothAgree 0 []
      (serve_loop sensor_packet (arrival new_log_message ∷ []) sensors joined)
      (api_loop lp64 (arrival new_log_message ∷ []) (as_server 0 [] sensors) joined)
serve_loop-api_loop_example =
    serve_loop-api_loop 0 [] sensor_packet (arrival new_log_message ∷ []) sensors joined joined
      (refl, refl)

abbrev counters : ℤ → ℕ → Counters
counters sec n = record { tv_sec = sec; tv_usec = pos 0; pkg = n; pp0 = n; dram = n }

abbrev rapl : Rapl ordered ◌-ℤ◌ decimal half_to milli_of
rapl = record {
  power_units = pos 1;
  energy_units = pos 1;
  time_units = pos 1;
  last_package = pos 0;
  last_pp0 = pos 0;
  last_dram = pos 0;
  last_ts = pos 0;
  milli_powers = replicate 3 0;
}

abbrev blank_mm : Mm ℤ
blank_mm = record { value = pos 0; units = 0; to_sec = 0 }

-- A meter of one measurement has an array of one.
one_measurement_fault :
    rapl_read ordered ◌-ℤ◌ decimal half_to milli_of (counters (pos 1) 5) rapl (blank_mm ∷ [])
    ≡ fault
unfolding rapl_read
one_measurement_fault = refl

abbrev asking : Event
asking = arrival (encode_lp64 (replicate 4 1) (replicate 4 2) (record blank { cmd = cmd_power }))

asking-Asks : Asks asking blank
asking-Asks = record {
  going = refl;
  junk_fits = blank-Fits;
  asked_pad = replicate 4 1;
  asked_pad' = replicate 4 2;
  asked_fits = record {
    pad_is = refl;
    pad'_is = refl;
    last_read_is = refl;
    cmd_fits = omega arith;
    num_chs_fits = omega arith;
    units_fits = omega arith;
    rc_fits = omega arith;
  };
  arrived = refl;
}

later :
    ordered.lt (pos 0) (
      time_of ordered ◌-ℤ◌ decimal half_to milli_of (counters (pos 2) 9)
      -ℤ time_of ordered ◌-ℤ◌ decimal half_to milli_of (counters (pos 1) 5))
    ≡ true
unfolding timestamp ◌-ℤ◌ ◌+ℤ◌ ◌*ℤ◌
later = refl

-- After the first read, from nothing to 5 joules in a second.
abbrev first_read : Rapl ordered ◌-ℤ◌ decimal half_to milli_of
first_read = record rapl {
  last_package = pos 5;
  last_pp0 = pos 5;
  last_dram = pos 5;
  last_ts = pos 1;
  milli_powers = replicate 3 5000;
}

first_read_run :
    rapl_reads ordered ◌-ℤ◌ decimal half_to milli_of
      (counters (pos 1) 5 ∷ [])
      rapl
      (replicate 4 blank_mm)
    ≡ done (first_read, replicate 3 (record blank_mm { value = pos 5 }) ++ blank_mm ∷ [])
unfolding rapl_reads rapl_read new_powers watts_to_milli joules signed timestamp ◌-ℤ◌ ◌+ℤ◌ ◌*ℤ◌
first_read_run = refl

-- Four more joules in the next second.
four_more :
    milli ordered ◌-ℤ◌ decimal half_to milli_of
      (spent ordered ◌-ℤ◌ decimal half_to milli_of (pos 1) 5 9)
      (seconds ordered ◌-ℤ◌ decimal half_to milli_of (counters (pos 1) 5) (counters (pos 2) 9))
    ≡ some 4000
unfolding watts_to_milli joules signed timestamp ◌-ℤ◌ ◌+ℤ◌ ◌*ℤ◌
four_more = refl

milli_of-bounded : (x : ℤ) (w : ℕ) → milli_of x ≡ some w → w < 2 ^ 32
milli_of-bounded (pos n) w h = ground arith
milli_of-bounded (negsuc n) w h = absurd (ground arith)

rapl_reads-request_example :
    (r' : Rapl ordered ◌-ℤ◌ decimal half_to milli_of) × (out : List (Mm ℤ)) × (rapl_reads ordered
        ◌-ℤ◌ decimal half_to milli_of
        (counters (pos 1) 5 ∷ counters (pos 2) 9 ∷ [])
        rapl
        (replicate 4 blank_mm)
      ≡ done (r', out))
    × (serve_round sensor_packet asking (record sensors { measured = r'.milli_powers }) joined
        ≡ done (
          record sensors { measured = r'.milli_powers },
          reply (sensor_packet asking r'.milli_powers) joined,
        ))
    × (request lp64 []
          (record blank { cmd = cmd_power })
          room
          (some 32)
          (received (sensor_packet asking r'.milli_powers))
        ≡ done (pos 44, sensor_header asking, 4000 ∷ 4000 ∷ 4000 ∷ drop 3 room))
rapl_reads-request_example =
    rapl_reads-request ordered ◌-ℤ◌ decimal half_to milli_of milli_of-bounded []
      (counters (pos 1) 5) (counters (pos 2) 9) rapl first_read (replicate 4 blank_mm)
      (replicate 3 (record blank_mm { value = pos 5 }) ++ blank_mm ∷ []) asking blank sensors joined
      [] room 4000 4000 4000 first_read_run later four_more four_more four_more asking-Asks
      (omega arith)

abbrev metered : Metered ordered decimal bytes_of to_unsigned
metered = record { power = pos 3; tv_last_reading = record { tv_sec = pos 7; tv_usec = pos 0 } }

abbrev meter_server : MeterServer (Metered ordered decimal bytes_of to_unsigned)
meter_server = record {
  cumulative_energy = 0;
  last_units = 0x000400;
  log = no_log;
  measured = metered;
}

abbrev unsampled : Monitor
unsampled = record watched { stats = record { pwr = replicate 64 0; samples = 0 } }

unsampled-SystemSized : SystemSized unsampled
unsampled-SystemSized = record {
  chs_fit = omega arith;
  nidaq_chs_fit = omega arith;
  powers_are = refl;
  pre_powers_are = refl;
  nidaq_powers_are = refl;
}

meter_packet-take_system_example :
    (serve_round (meter_packet ordered decimal bytes_of to_unsigned) asking meter_server joined
      ≡ done (
        meter_server,
        reply (meter_packet ordered decimal bytes_of to_unsigned asking metered) joined,
      ))
    × (request lp64 []
          (record blank { cmd = cmd_power })
          room
          (some 32)
          (received (meter_packet ordered decimal bytes_of to_unsigned asking metered))
        ≡ done (
          pos 36,
          meter_header ordered decimal bytes_of to_unsigned asking metered,
          milli_value ordered decimal bytes_of to_unsigned metered ∷ replicate 31 0,
        ))
    × (take_powers 1 the_system 1
          (milli_value ordered decimal bytes_of to_unsigned metered ∷ replicate 31 0)
          unsampled
        ≡ done record unsampled {
          wattsup =
              after_system (milli_value ordered decimal bytes_of to_unsigned metered) unsampled;
        })
meter_packet-take_system_example =
    meter_packet-take_system ordered decimal bytes_of to_unsigned (λ x. refl) (λ x. omega arith)
      metered asking blank meter_server joined [] 0 (replicate 31 0) 1 unsampled refl asking-Asks
      unsampled-SystemSized refl

-- A client opens a log; then the monitor prints a reading to it.
abbrev print_float : ℤ → Bytes
print_float z = codes "3.000000"

abbrev print_time : ℤ → Bytes
print_time z = codes "7.00"

abbrev log_of : Bytes → Log
log_of text = record {
  logging = true;
  fplog = some record { name = codes "a"; text = text };
  closed = [];
  entered = [];
}

abbrev log_opened : MeterServer (Metered ordered decimal bytes_of to_unsigned)
log_opened = record meter_server { log = log_of (codes "[BEGIN_LOG: 7.000 a ::1 ]\n") }

abbrev printed : MeterServer (Metered ordered decimal bytes_of to_unsigned)
printed = record meter_server {
  log = log_of (codes "[BEGIN_LOG: 7.000 a ::1 ]\n7.00 3.000000 watts \n");
}

abbrev three_watts : Reading ordered decimal bytes_of to_unsigned print_float print_time
three_watts = record {
  running = true;
  rc = pos 0;
  first = record { value = pos 3; units = 0x000400; to_sec = 0 };
  others = [];
  ts = pos 7;
  time = none;
}

abbrev locals : ℤ → ℤ → Locals ordered decimal bytes_of to_unsigned print_float print_time
locals loops last = record {
  loops = loops;
  last_value = last;
  last_tv = record { tv_sec = pos 7; tv_usec = pos 0 };
  output = none;
}

client_opens :
    serve_round
      (meter_packet ordered decimal bytes_of to_unsigned)
      (arrival new_log_message)
      meter_server
      joined
    ≡ done (log_opened, hang_up joined)
unfolding serve_round serve_message serve_control carry_out open_log shut_log text_end until_nul
client_opens = refl

monitor_prints :
    monitor_round ordered decimal bytes_of to_unsigned print_float print_time
      (pos 0)
      (pos 1)
      false
      three_watts
      log_opened
      (locals (pos 0) (pos 0))
    ≡ done (printed, locals (negsuc 0) (pos 3))
unfolding monitor_round show_reading monitor_line measures_text name_text units_prefix prefix_of
    units_measure measure_of append_log take_reading keep_last
monitor_prints = refl

meter_server-LogValid : LogValid meter_server
meter_server-LogValid = record {
  open_if_logging = λ h. ground arith;
  open_begun = _;
  closed_begun = _;
}

Reaches-LogValid_example : LogValid printed
Reaches-LogValid_example =
    Reaches-LogValid ordered decimal bytes_of to_unsigned print_float print_time (pos 0) (pos 1)
      false (meter_server, locals (pos 0) (pos 0)) (printed, locals (negsuc 0) (pos 3))
      meter_server-LogValid
      (Reaches.next
        (Reaches.next Reaches.here (
          Step.serves (arrival new_log_message) meter_server log_opened (locals (pos 0) (pos 0))
            joined (hang_up joined) client_opens))
        (Step.reads three_watts log_opened printed (locals (pos 0) (pos 0))
          (locals (negsuc 0) (pos 3)) monitor_prints))
