-- ===== src/Server.antt =====
-- old/metertools/src/tools/mcontrol/multiserver.c: the server that answers requests for power readings and
-- takes control messages for its log. What `select`, `read`, `fopen` and `chdir` report, the printed start
-- time and address, and the bytes that a local variable holds before it is set are fields of an event.
pub mod Dispatch
pub mod Logs
pub mod Runs
pub mod Power
pub mod Slots
pub mod Monitor
pub mod Tests
use power_pack.NetMeter.Wire.{Layout, Request, encode_lp64, le32_all, first_word}
use power_pack.NetMeter.{cmd_energy, cmd_power, cmd_read, cmd_reset, cmd_quit}
use power_pack.Prelude.{
  ℕ, zero, suc, ◌+◌, ◌%◌, Bool, true, false, ◌&&◌, not, Option, none, some, List, [], ◌∷◌, ◌++◌,
  ltb, leb, ◌==◌, if◌then◌else◌, length, get_or, set, take, drop, replicate, Bytes, codes, Outcome,
  done, fault, ReadResult, received, failed,
}

-- A log file: its name, and what has been printed to it since it was opened for writing.
pub record LogFile : Type 0 where
  pub name : Bytes
  pub text : Bytes

-- The variables that the threads share, the log files closed so far and the directories entered, the latest
-- first.
pub record Server : Type 0 where
  pub cumulative_energy : ℕ
  pub sys_power : ℕ
  pub nidaq_powers : List ℕ
  pub last_units : ℕ
  pub logging : Bool
  pub fplog : Option LogFile
  pub closed : List LogFile
  pub entered : List Bytes

-- The variables of one connection's thread, and the packets handed to `write`.
pub record Client : Type 0 where
  pub connected : Bool
  pub commands : ℕ
  pub sent : List Bytes

-- What one round of the loop meets.
pub record Event : Type 0 where
  pub running : Bool
  pub select_ok : Bool
  pub is_set : Bool
  pub result : ReadResult
  pub still_running : Bool
  pub can_open : Bool
  pub can_enter : Bool
  pub start : Bytes
  pub addr : Bytes
  pub junk : Request
  pub pad : Bytes
  pub pad' : Bytes

-- NUM_ACTIVE_NIDQ_CHANNELS
abbrev pub num_channels : ℕ
num_channels = 25

-- `send_reading`, `send_energy` and `send_power`, as the bytes that are written.
unfoldable pub send_reading : Event → Server → Bytes
send_reading e s = encode_lp64 e.pad e.pad' (record e.junk { cmd = cmd_read; units = s.last_units })

unfoldable pub send_energy : Event → Bytes
send_energy e = encode_lp64 e.pad e.pad' (record e.junk { cmd = cmd_energy; units = 0x000200 })

unfoldable pub send_power : Event → Server → Bytes
send_power e s =
    encode_lp64 e.pad e.pad'
      (record e.junk { cmd = cmd_power; num_chs = num_channels + 1; units = 0x040400 })
    ++ le32_all (s.sys_power ∷ take num_channels s.nidaq_powers)

abbrev pub reply : Bytes → Client → Client
reply b c = record c { commands = suc c.commands; sent = c.sent ++ b ∷ [] }

abbrev pub hang_up : Client → Client
hang_up c = record c { connected = false }

-- The switch of `client_req` on a request's command.
unfoldable pub handle_request : Event → ℕ → Server → Client → Server × Client
handle_request e cmd s c =
    if cmd == cmd_energy
    then (s, reply (send_energy e) c)
    else if cmd == cmd_power
    then (s, reply (send_power e s) c)
    else if cmd == cmd_read
    then (s, reply (send_reading e s) c)
    else if cmd == cmd_reset
    then (record s { cumulative_energy = 0 }, record c { commands = suc c.commands })
    else (s, hang_up c)

-- strncpy(dst, src, n): the bytes up to a NUL, and NULs from there on.
unfoldable pub strncpy : ℕ → Bytes → Bytes
strncpy zero b = []
strncpy (suc n) [] = replicate (suc n) 0
strncpy (suc n) (x ∷ b) = let rest = strncpy n b in if x == 0 then replicate (suc n) 0 else x ∷ rest

-- The C string at the start of `b`.
unfoldable pub until_nul : Bytes → Bytes
until_nul [] = []
until_nul (x ∷ b) = let rest = until_nul b in if x == 0 then [] else x ∷ rest

-- The lines that are printed to the log.
abbrev pub begin_log : Event → Bytes → Bytes
begin_log e name =
    codes "[BEGIN_LOG: "
    ++ (e.start ++ (codes " " ++ (name ++ (codes " " ++ (e.addr ++ codes " ]\n")))))

abbrev pub begin_session : Event → Bytes → Bytes
begin_session e name = codes "[BEGIN_SESSION: " ++ (name ++ (codes " " ++ (e.start ++ codes "]\n")))

abbrev pub end_session : Event → Bytes → Bytes
end_session e name = codes "[END_SESSION: " ++ (name ++ (codes " " ++ (e.start ++ codes "]\n")))

-- fclose, if a log is open.
unfoldable pub close_log : Server → Server
close_log s = elim s.fplog [
  | none ↦ s
  | some f ↦ record s { logging = false; fplog = none; closed = f ∷ s.closed }
]

-- The cases NEW_LOG_FILE, END_LOG_FILE, NEW_SESSION and END_SESSION.
unfoldable pub new_log : Event → Bytes → Server → Server
new_log e name s =
    if e.can_open
    then record (close_log s) {
      logging = true;
      fplog = some record { name = name; text = begin_log e name };
    }
    else record (close_log s) { logging = false; fplog = none }

unfoldable pub end_log : Server → Server
end_log s = record (close_log s) { logging = false; fplog = none }

unfoldable pub log_line : Bytes → Server → Server
log_line line s = elim s.fplog [
  | none ↦ record s { logging = false }
  | some f ↦ record s { fplog = some record f { text = f.text ++ line } }
]

-- The switch on a control message's command.
unfoldable pub control : Event → ℕ → Bytes → Server → Server
control e cmd msg s =
    if cmd == 20
    then new_log e msg s
    else if cmd == 22
    then end_log s
    else if cmd == 21
    then log_line (begin_session e msg) s
    else if cmd == 23
    then log_line (end_session e msg) s
    else if cmd == 24
    then (if e.can_enter then record s { entered = msg ∷ s.entered } else s)
    else s

-- `cmsg->len` is a signed char.
unfoldable pub text_end : ℕ → ℕ
text_end len = if ltb len 128 && ltb 61 len then len else 61

-- A control message: `msg[len] = 0`, then the switch. The message has 62 bytes of text and stands at the
-- start of a buffer of 64 bytes.
unfoldable pub handle_control : Event → Bytes → Server → Outcome Server
handle_control e buf s =
    let len = text_end (get_or buf 1 0) in
    if ltb len 62
    then done (control e (get_or buf 0 0) (until_nul (set (drop 2 buf) len 0)) s)
    else fault

abbrev pub msgbuf : Bytes → Bytes
msgbuf got = take 64 (got ++ replicate 64 0)

-- Behind the read: `size` decides between a request, a control message and an error. client_req_fAPI repeats this
-- text, but for the name of its table of connections, what it prints and a lock around the control messages.
unfoldable pub handle_message :
    Layout → Event → ℕ → Bytes → Server → Client → Outcome (Server × Client)
handle_message l e size buf s c =
    if size == l.size
    then done (handle_request e (first_word (strncpy l.size buf)) s c)
    else if ltb 2 size
    then elim (handle_control e buf s) [ fault ↦ fault | done s' ↦ done (s', hang_up c) ]
    else done (s, hang_up c)

-- Several packages in one read count as one.
unfoldable pub coalesce : Layout → ℕ → ℕ
coalesce l size = if not (size == 0) && (size % l.size == 0) then l.size else size

-- One round of the loop of `client_req`.
unfoldable pub client_round : Layout → Event → Server → Client → Outcome (Server × Client)
client_round l e s c =
    let c1 = if e.select_ok then c else hang_up c in
    if e.is_set
    then elim e.result [
      | failed ↦ done (s, hang_up c1)
      | received got ↦
          if e.still_running
          then handle_message l e (coalesce l (length got)) (msgbuf got) s c1
          else done (s, hang_up c1)
    ]
    else done (s, c1)

-- One round of the loop of `client_req_fAPI`.
unfoldable pub api_round : Layout → Event → Server → Client → Outcome (Server × Client)
api_round l e s c = elim e.result [
  | failed ↦ done (s, hang_up c)
  | received got ↦
      if e.still_running
      then handle_message l e (length got) (msgbuf got) s c
      else done (s, hang_up c)
]

-- The loops, over what their rounds meet.
unfoldable pub client_loop : Layout → List Event → Server → Client → Outcome (Server × Client)
client_loop l [] s c = done (s, c)
client_loop l (e ∷ es) s c =
    if e.running && c.connected
    then elim (client_round l e s c) [ fault ↦ fault | done r ↦ client_loop l es r.0 r.1 ]
    else done (s, c)

unfoldable pub api_loop : Layout → List Event → Server → Client → Outcome (Server × Client)
api_loop l [] s c = done (s, c)
api_loop l (e ∷ es) s c =
    if e.running && c.connected
    then elim (api_round l e s c) [ fault ↦ fault | done r ↦ api_loop l es r.0 r.1 ]
    else done (s, c)
