-- ===== src/FunctionApi/Tests.antt =====
-- A log named "run" with a session "a".
use power_pack.FunctionApi.Fortran.{fortran_lem}
use power_pack.FunctionApi.Limits.{begun, ended, sending, powerpack_fp_lem}
use power_pack.FunctionApi.Sent.{run_session, Reaches, messages, final}
use power_pack.FunctionApi.Session.{serve, logged, run_session-serve}
use power_pack.FunctionApi.{
  Api, Network, built, announce, tell, powerpack_fp_init, powerpack_fp_end,
  powerpack_fp_session_start, powerpack_fp_session_end, fortran_init, fortran_session_start,
  fortran_session_end, netmeter_close, send_control_msg,
}
use power_pack.LogControl.Handled.{Plain, filled}
use power_pack.LogControl.Tests.{g_msg}
use power_pack.LogControl.{ControlMsg, fill, format_from, packet}
use power_pack.Prelude.{
  ℕ, ◌+◌, ◌≡◌, refl, true, some, none, [], ◌∷◌, ◌++◌, map, replicate, ltb, if◌then◌else◌, length,
  Bytes, codes, done, fault, arith,
}
use power_pack.Server.Tests.{arrival, idle}
use power_pack.Server.{Event}

abbrev fd : ℕ → ℕ
fd n = 7000 + n

abbrev net : Network
net = record { connects = λ n. some (fd n); pad = replicate 4 0; pad' = replicate 4 0 }

abbrev fresh : Api
fresh = record { lfile = none; attempts = 0; sockets = []; sent = []; commands = [] }

abbrev name : Bytes
name = codes "run"

abbrev session : Bytes
session = codes "a"

name-Plain : Plain name
name-Plain = ground arith

session-Plain : Plain session
session-Plain = ground arith

-- A name of 58 bytes fills the message with its ".pwr".
long_name_fault : powerpack_fp_init net (replicate 58 b'a') g_msg fresh ≡ fault
unfolding powerpack_fp_init built announce tell fill format_from send_control_msg netmeter_close
long_name_fault = refl

powerpack_fp_lem_example :
    (powerpack_fp_init net name g_msg fresh
      ≡ (if ltb 3 58 then done (begun net (name ++ codes ".pwr") g_msg fresh) else fault))
    × (powerpack_fp_session_start net name g_msg fresh
        ≡ (if ltb 3 62 then done (sending net (filled 21 name g_msg) fresh) else fault))
    × (powerpack_fp_session_end net name g_msg fresh ≡ (
        if ltb 3 54
        then done (sending net (filled 23 (codes "session_" ++ name) g_msg) fresh)
        else fault))
    × ((file : Bytes)
        → fresh.lfile ≡ some file
        → powerpack_fp_end net g_msg fresh
          ≡ (if ltb (length file) 31 then done (ended net file g_msg fresh) else fault))
powerpack_fp_lem_example = powerpack_fp_lem net g_msg fresh name name-Plain

fortran_lem_example :
    (fortran_init net (name ++ 32 ∷ []) 3 g_msg fresh ≡ powerpack_fp_init net name g_msg fresh)
    × (fortran_session_start net (name ++ 32 ∷ []) 3 g_msg fresh
        ≡ powerpack_fp_session_start net name g_msg fresh)
    × (fortran_session_end net (name ++ 32 ∷ []) 3 g_msg fresh
        ≡ powerpack_fp_session_end net name g_msg fresh)
    × (fortran_init net name 3 g_msg fresh ≡ fault)
    × (fortran_session_start net name 3 g_msg fresh ≡ fault)
    × (fortran_session_end net name 3 g_msg fresh ≡ fault)
fortran_lem_example = fortran_lem net g_msg fresh name name-Plain 32 [] name 3 (omega arith)

abbrev visits : ℕ → Event
visits n = record (arrival []) { can_enter = true }

abbrev every : ℕ → ControlMsg
every n = g_msg

net-Reaches : Reaches net fd
net-Reaches = record { made = λ n. refl; not_port = λ n. omega arith }

run_session-serve_example :
    (run_session net name session every fresh ≡ done (final fd every name session fresh))
    × (length (final fd every name session fresh).sockets ≡ 0 + 5)
    × (serve visits 0 (map packet (messages every name session)) idle
        ≡ done (logged visits (codes "run.pwr") session idle))
run_session-serve_example =
    run_session-serve visits refl refl every (λ n. refl) net fd net-Reaches name session fresh
      name-Plain session-Plain (omega arith) (omega arith) refl idle
