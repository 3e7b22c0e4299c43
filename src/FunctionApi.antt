-- ===== src/FunctionApi.antt =====
-- old/functionAPIs/fcontrol.c: the calls with which a program starts and ends logs and sessions on the server,
-- for C and for Fortran, and netmeter_close of old/functionAPIs/netmeter.c. What the local message holds
-- before it is filled is an argument.
pub mod Fortran
pub mod Limits
pub mod Sent
pub mod Session
mod Tests
use power_pack.LogControl.{ControlMsg, fill, packet}
use power_pack.NetMeter.Wire.{encode_lp64}
use power_pack.NetMeter.{cmd_quit}
use power_pack.Prelude.Int.{ℤ, pos, negsuc}
use power_pack.Prelude.{
  ℕ, suc, ◌+◌, ◌*◌, Bool, true, false, ◌||◌, not, Option, none, some, List, [], ◌∷◌, ◌++◌, ltb, leb,
  ◌==◌, if◌then◌else◌, length, set, replicate, Bytes, codes, Outcome, done, fault, ◌>>=◌, ◌>>◌,
  require,
}
use power_pack.Server.{until_nul}

-- `lfile`, and what the calls do outside the program: the connections tried so far, the descriptors of those
-- that are open, the bytes written to each, and the commands handed to the shell.
pub record Api : Type 0 where
  pub lfile : Option Bytes
  pub attempts : ℕ
  pub sockets : List ℕ
  pub sent : List (ℕ × Bytes)
  pub commands : List Bytes

-- What `netmeter_connect` gives for the n-th connection, and the padding of a request.
pub record Network : Type 0 where
  pub connects : ℕ → Option ℕ
  pub pad : Bytes
  pub pad' : Bytes

-- `port`, which is DEFAULT_METER_PORT.
abbrev pub meter_port : ℕ
meter_port = 6713

abbrev pub is_open : ℕ → List ℕ → Bool
is_open fd [] = false
is_open fd (s ∷ ss) = fd == s || is_open fd ss

abbrev pub without : ℕ → List ℕ → List ℕ
without fd [] = []
without fd (s ∷ ss) = if fd == s then without fd ss else s ∷ without fd ss

-- The request that `netmeter_close` sends.
abbrev pub quit : Network → Bytes
quit net =
    encode_lp64 net.pad net.pad'
      record { cmd = cmd_quit; last_read = replicate 8 0; num_chs = 0; units = 0; rc = 0 }

-- With a descriptor that is no open connection, both calls in it fail.
unfoldable pub netmeter_close : Network → ℕ → Api → Api
netmeter_close net fd s =
    if is_open fd s.sockets
    then record s { sent = s.sent ++ (fd, quit net) ∷ []; sockets = without fd s.sockets }
    else s

-- `send_control_msg`: what is closed at its end is the number of the port.
unfoldable pub send_control_msg : Network → ℕ → ControlMsg → Api → Api × ℤ
send_control_msg net port g s = elim (net.connects s.attempts) [
  | none ↦ (record s { attempts = suc s.attempts }, negsuc 0)
  | some sock ↦ (
    netmeter_close net port record s {
      attempts = suc s.attempts;
      sockets = sock ∷ s.sockets;
      sent = s.sent ++ (sock, packet g) ∷ [];
    },
    pos 0,
  )
]

-- The message is filled in and sent.
unfoldable pub tell : Network → ℕ → Bytes → ControlMsg → Api → Outcome (ControlMsg × Api)
tell net cmd text g s = do g1 ← fill cmd text g; done (g1, (send_control_msg net meter_port g1 s).0)

-- A C string built by strcpy and strcat in an array of `n` bytes.
unfoldable pub built : ℕ → Bytes → Outcome Bytes
built n text = do require (ltb (length text) n); done text

abbrev pub directory : Bytes
directory = codes "/var/log/powerpack"

-- Both calls of `powerpack_fp_init`, once the name of the log file is made. The directory is a literal, so
-- cutting it would write to a constant.
unfoldable pub announce : Network → Bytes → ControlMsg → Api → Outcome Api
announce net file g s = do
  require (not (leb 62 (length directory)))
  r ← tell net 24 directory g (record s { lfile = some file })
  r2 ← tell net 20 file r.0 r.1
  done r2.1

unfoldable pub powerpack_fp_init : Network → Bytes → ControlMsg → Api → Outcome Api
powerpack_fp_init net logfile g s = do
  copied ← built 100 logfile
  file ← built 100 (copied ++ codes ".pwr")
  announce net file g s

-- The command that fetches the log file.
unfoldable pub scp : Bytes → Bytes
scp file = codes "scp 172.16.0.240:/var/log/powerpack/" ++ (file ++ (codes " ./" ++ file))

-- The command is built twice, first in an array of 100 bytes that is not used, and run.
unfoldable pub fetch_file : Bytes → Api → Outcome Api
fetch_file file s = do
  a ← built 100 (scp file)
  b ← built (39 + 3 + 2 * length file) (scp file)
  done record s { commands = s.commands ++ b ∷ [] }

unfoldable pub fetch : Option Bytes → Api → Outcome Api
fetch none s = fault
fetch (some file) s = fetch_file file s

unfoldable pub powerpack_fp_end : Network → ControlMsg → Api → Outcome Api
powerpack_fp_end net g s = do r ← tell net 22 (codes "log") g s; fetch r.1.lfile r.1

unfoldable pub powerpack_fp_session_start : Network → Bytes → ControlMsg → Api → Outcome Api
powerpack_fp_session_start net session_name g s = do r ← tell net 21 session_name g s; done r.1

unfoldable pub powerpack_fp_session_end : Network → Bytes → ControlMsg → Api → Outcome Api
powerpack_fp_session_end net session_name g s = do
  name ← built 100 (codes "session_" ++ session_name)
  r ← tell net 23 name g s
  done r.1

-- logfile[strLen] = 0, in the memory that Fortran passes, and the C string there.
unfoldable pub terminated : Bytes → ℕ → Outcome Bytes
terminated memory len = do require (ltb len (length memory)); done (until_nul (set memory len 0))

-- The calls for Fortran. `strLen` is decremented before it gives the size of the block, strLen + 1 + 5; the
-- count of the bytes that are no blanks is not used.
unfoldable pub fortran_init : Network → Bytes → ℕ → ControlMsg → Api → Outcome Api
fortran_init net memory len g s = do
  logfile ← terminated memory len
  copied ← built (len + 5) logfile
  file ← built (len + 5) (copied ++ codes ".pwr")
  announce net file g s

unfoldable pub fortran_session_start : Network → Bytes → ℕ → ControlMsg → Api → Outcome Api
fortran_session_start net memory len g s = do
  session_name ← terminated memory len
  r ← tell net 21 session_name g s
  done r.1

unfoldable pub fortran_session_end : Network → Bytes → ℕ → ControlMsg → Api → Outcome Api
fortran_session_end net memory len g s = do
  session_name ← terminated memory len
  name ← built 100 (codes "session_" ++ session_name)
  r ← tell net 23 name g s
  done r.1
