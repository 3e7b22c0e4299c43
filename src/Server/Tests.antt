-- ===== src/Server/Tests.antt =====
-- A log session by control messages of 64 bytes, a reply with all readings, and small runs of the monitors.
use power_pack.NetMeter.Wire.{lp64, ilp32, Request, Fits, AllWords}
use power_pack.NetMeter.{cmd_power, request}
use power_pack.Prelude.Int.{pos}
use power_pack.Prelude.{
  ℕ, zero, suc, ◌+◌, ◌*◌, ◌/◌, ◌%◌, ◌^◌, ◌≤◌, ◌<◌, ◌≡◌, ◌≢◌, refl, ◌⊎◌, true, false, ◌&&◌, none,
  some, List, [], ◌∷◌, ◌++◌, ltb, if◌then◌else◌, length, get_or, get_elem?, set, take, drop,
  replicate, Bytes, codes, Outcome, done, fault, received, arith,
}
use power_pack.Server.Dispatch.{client_round-lp64, api_round-client_round, handle_control_lem}
use power_pack.Server.Logs.{LogsValid, LogsValidAfter, KeepsLogs, client_loop-LogsValid}
use power_pack.Server.Monitor.Average.{add_samples, channel_sum, fresh, averages-add_samples}
use power_pack.Server.Monitor.Rounds.{Sized, take_system_fault}
use power_pack.Server.Monitor.{
  Timely, unlocked, Samples, Monitor, averages, the_system, take_system,
}
use power_pack.Server.Power.{request-send_power}
use power_pack.Server.Runs.{AllBounded}
use power_pack.Server.Slots.{find_slot, IsFirstFree, find_slot_lem, service_time, service_time_lem}
use power_pack.Server.{
  Server, Client, Event, hang_up, handle_control, control, new_log, log_line, end_log, close_log,
  until_nul, text_end, handle_message, client_round, api_round, client_loop, api_loop, send_power,
}

-- A control message: command, length, text and NULs.
abbrev control_message : ℕ → Bytes → Bytes
control_message cmd text = cmd ∷ length text ∷ take 62 (text ++ replicate 62 0)

abbrev pub blank : Request
blank = record { cmd = 0; last_read = replicate 8 0; num_chs = 0; units = 0; rc = 0 }

abbrev pub arrival : Bytes → Event
arrival got = record {
  running = true;
  select_ok = true;
  is_set = true;
  result = received got;
  still_running = true;
  can_open = true;
  can_enter = false;
  start = codes "7.000";
  addr = codes "::1";
  junk = blank;
  pad = replicate 4 1;
  pad' = replicate 4 2;
}

abbrev pub idle : Server
idle = record {
  cumulative_energy = 9;
  sys_power = 500;
  nidaq_powers = replicate 32 20;
  last_units = 0x000400;
  logging = false;
  fplog = none;
  closed = [];
  entered = [];
}

abbrev pub joined : Client
joined = record { connected = true; commands = 0; sent = [] }

abbrev pub new_log_message : Bytes
new_log_message = control_message 20 (codes "a")

-- Four connections to the second port: a log is opened, a session begins and ends, and the log is closed.
abbrev next : Outcome (Server × Client) → Bytes → Outcome (Server × Client)
next fault got = fault
next (done r) got = api_loop lp64 (arrival got ∷ []) r.0 joined

session_log :
    next
      (next
        (next (next (done (idle, joined)) new_log_message) (control_message 21 (codes "s")))
        (control_message 23 (codes "s")))
      (control_message 22 [])
    ≡ done (
      record idle {
        closed =
            record {
              name = codes "a";
              text =
                  codes
                    "[BEGIN_LOG: 7.000 a ::1 ]\n[BEGIN_SESSION: s 7.000]\n[END_SESSION: s 7.000]\n";
            }
            ∷ [];
      },
      hang_up joined,
    )
unfolding api_loop api_round handle_message handle_control control new_log log_line end_log
    close_log until_nul text_end
session_log = refl

client_round-lp64_example :
    client_round lp64 (arrival new_log_message) idle joined ≡ done (idle, hang_up joined)
client_round-lp64_example =
    client_round-lp64 (arrival new_log_message) idle 20 (drop 1 new_log_message) refl joined
      (omega arith) (omega arith) refl refl refl

api_round-client_round_run :
    (client_round ilp32 (arrival new_log_message) idle joined
      ≡ api_round lp64 (arrival new_log_message) idle joined)
    × (api_round ilp32 (arrival new_log_message) idle joined
        ≡ api_round lp64 (arrival new_log_message) idle joined)
    × (api_round lp64 (arrival new_log_message) idle joined
        ≡ (elim (handle_control (arrival new_log_message) new_log_message idle) [
          | fault ↦ fault
          | done s' ↦ done (s', hang_up joined)
        ]))
api_round-client_round_run =
    api_round-client_round (arrival new_log_message) idle 20 (drop 1 new_log_message) refl joined
      refl refl refl

-- A length of 100 in the message.
handle_control_lem_example : handle_control (arrival []) (20 ∷ 100 ∷ replicate 62 65) idle ≡ (
    let len : ℕ = 100 in
    if ltb 61 len && ltb len 128
    then fault
    else done (control (arrival []) 20 (until_nul (set (replicate 62 65) 61 0)) idle))
handle_control_lem_example = handle_control_lem (arrival []) idle 20 (100 ∷ replicate 62 65) refl

idle-LogsValid : LogsValid idle
idle-LogsValid = record { open_if_logging = λ h. ground arith; open_begun = _; closed_begun = _ }

client_loop-LogsValid_example :
    LogsValidAfter (client_loop ilp32 (arrival new_log_message ∷ []) idle joined)
    × LogsValidAfter (api_loop ilp32 (arrival new_log_message ∷ []) idle joined)
    × (AllBounded (arrival new_log_message ∷ [])
        → KeepsLogs (client_loop ilp32 (arrival new_log_message ∷ []) idle joined)
          × KeepsLogs (api_loop ilp32 (arrival new_log_message ∷ []) idle joined))
client_loop-LogsValid_example =
    client_loop-LogsValid ilp32 (arrival new_log_message ∷ []) idle joined idle-LogsValid

abbrev pub blank-Fits : Fits (replicate 4 1) (replicate 4 2) blank
blank-Fits = record {
  pad_is = refl;
  pad'_is = refl;
  last_read_is = refl;
  cmd_fits = omega arith;
  num_chs_fits = omega arith;
  units_fits = omega arith;
  rc_fits = omega arith;
}

twenties : (n : ℕ) → AllWords (replicate n 20)
twenties zero = _
twenties (suc n) = (omega arith, twenties n)

abbrev asked : Request
asked = record blank { cmd = 2 }

abbrev pub room : List ℕ
room = replicate 32 0

request-send_power_example :
    request lp64 [] asked room (some 32) (received (send_power (arrival []) idle))
    ≡ done (
      pos 136,
      record blank { cmd = cmd_power; num_chs = 26; units = 0x040400 },
      (500 ∷ replicate 25 20) ++ replicate 6 0,
    )
request-send_power_example =
    request-send_power (arrival []) idle blank-Fits refl (omega arith, twenties 25) [] asked room
      (omega arith) (omega arith)

abbrev sockets : List ℕ
sockets = 4 ∷ 5 ∷ replicate 98 0

find_slot_lem_example :
    ((j : ℕ) × (find_slot 101 0 sockets ≡ done (some j)) × IsFirstFree sockets 0 j)
    ⊎ (((m : ℕ) → 0 ≤ m → get_elem? sockets m ≢ some 0) × (find_slot 101 0 sockets ≡ fault))
find_slot_lem_example = find_slot_lem sockets refl

service_time_lem_run :
    (3600 * (service_time 3725).hours
        + 60 * (service_time 3725).minutes
        + (service_time 3725).seconds
      ≡ 3725)
    × ((service_time 3725).minutes < 60)
    × ((service_time 3725).seconds < 60)
service_time_lem_run = service_time_lem 3725

abbrev two_samples : List (List ℕ)
two_samples = (6 ∷ replicate 31 0) ∷ (9 ∷ replicate 31 0) ∷ []

averages-add_samples_example :
    (st : Samples) × (out : List ℕ) × (sums : List ℕ) × (add_samples 2 two_samples fresh ≡ done st)
    × (averages 32 room st ≡ some (out, record { pwr = sums; samples = 0 }))
    × ((i : ℕ) → i < 2 → get_or out i 0 ≡ channel_sum i two_samples % 2 ^ 32 / 2)
    × ((i : ℕ) → 2 ≤ i → i < 32 → get_or out i 0 ≡ 0)
    × ((i : ℕ) → get_or sums i 0 ≡ 0)
averages-add_samples_example =
    averages-add_samples 2 two_samples room (omega arith) (omega arith, (omega arith, _))
      (omega arith) (omega arith) (omega arith)

abbrev times : Timely
times = record {
  sys_power = 3;
  pre_sys_power = 2;
  num_nidaq_chs = 25;
  nidaq_powers = replicate 32 1;
  pre_nidaq_powers = replicate 32 0;
}

abbrev pub watched : Monitor
watched = record {
  wattsup = times;
  nidaq = times;
  stats = record { pwr = replicate 64 0; samples = 1 };
  mutex = unlocked;
}

abbrev pub watched-Sized : Sized watched
watched-Sized = record {
  num_chs_fit = omega arith;
  powers_are = refl;
  pre_powers_are = refl;
  sums_are = refl;
}

take_system_fault_run : take_system 1 the_system (7 ∷ []) watched ≡ fault
take_system_fault_run =
    take_system_fault 1 the_system (7 ∷ []) watched (λ h. ground arith) (omega arith)
