-- ===== src/MeterServer.antt =====
-- old/metertools/src/tools/mcontrol/mserver.c and sensor_server.c: the servers of one meter and of a processor's
-- energy counters. Their client_req is the same; it is given what `send_power` writes, which differs. What a
-- round of its loop meets is an event, as for multiserver.c.
pub mod Same
pub mod Rapl
pub mod Power
pub mod Monitor
mod Tests
use power_pack.NetMeter.Wire.{lp64, encode_lp64, first_word}
use power_pack.NetMeter.{cmd_energy, cmd_power, cmd_read, cmd_reset}
use power_pack.Prelude.{
  ℕ, suc, Bool, true, false, ◌&&◌, Option, none, some, List, [], ◌∷◌, ◌++◌, ltb, ◌==◌,
  if◌then◌else◌, length, get_or, set, drop, Bytes, Outcome, done, fault, ReadResult, received,
  failed,
}
use power_pack.Server.{
  LogFile, Client, Event, reply, hang_up, strncpy, until_nul, msgbuf, text_end, begin_log,
  begin_session, end_session,
}

-- `logging` and `fplog`, the log files closed so far and the directories entered, the latest first.
pub record Log : Type 0 where
  pub logging : Bool
  pub fplog : Option LogFile
  pub closed : List LogFile
  pub entered : List Bytes

-- The variables that the threads share; `measured` stands for those that `send_power` reads.
pub record MeterServer (M : Type 0) : Type 0 where
  pub cumulative_energy : ℕ
  pub last_units : ℕ
  pub log : Log
  pub measured : M

-- fclose, if a log is open.
unfoldable pub shut_log : Log → Log
shut_log g = elim g.fplog [
  | none ↦ g
  | some f ↦ record g { logging = false; fplog = none; closed = f ∷ g.closed }
]

-- The cases NEW_LOG_FILE, END_LOG_FILE, NEW_SESSION and END_SESSION.
unfoldable pub open_log : Event → Bytes → Log → Log
open_log e name g =
    if e.can_open
    then record (shut_log g) {
      logging = true;
      fplog = some record { name = name; text = begin_log e name };
    }
    else record (shut_log g) { logging = false; fplog = none }

unfoldable pub finish_log : Log → Log
finish_log g = record (shut_log g) { logging = false; fplog = none }

unfoldable pub print_log : Bytes → Log → Log
print_log line g = elim g.fplog [
  | none ↦ record g { logging = false }
  | some f ↦ record g { fplog = some record f { text = f.text ++ line } }
]

-- The switch on a control message's command.
unfoldable pub carry_out : Event → ℕ → Bytes → Log → Log
carry_out e cmd msg g =
    if cmd == 20
    then open_log e msg g
    else if cmd == 22
    then finish_log g
    else if cmd == 21
    then print_log (begin_session e msg) g
    else if cmd == 23
    then print_log (end_session e msg) g
    else if cmd == 24
    then (if e.can_enter then record g { entered = msg ∷ g.entered } else g)
    else g

module _ {M : Type 0} (packet : Event → M → Bytes) where
  -- What `send_reading` and `send_energy` write.
  unfoldable pub reading_packet : Event → MeterServer M → Bytes
  reading_packet e s =
      encode_lp64 e.pad e.pad' (record e.junk { cmd = cmd_read; units = s.last_units })

  unfoldable pub energy_packet : Event → Bytes
  energy_packet e = encode_lp64 e.pad e.pad' (record e.junk { cmd = cmd_energy; units = 0x000200 })

  -- The switch of `client_req` on a request's command.
  unfoldable pub serve_request : Event → ℕ → MeterServer M → Client → MeterServer M × Client
  serve_request e cmd s c =
      if cmd == cmd_energy
      then (s, reply (energy_packet e) c)
      else if cmd == cmd_power
      then (s, reply (packet e s.measured) c)
      else if cmd == cmd_read
      then (s, reply (reading_packet e s) c)
      else if cmd == cmd_reset
      then (record s { cumulative_energy = 0 }, record c { commands = suc c.commands })
      else (s, hang_up c)

  -- A control message: `msg[len] = 0`, then the switch.
  unfoldable pub serve_control :
      Event → Bytes → MeterServer M → Client → Outcome (MeterServer M × Client)
  serve_control e buf s c =
      let len = text_end (get_or buf 1 0) in
      if ltb len 62
      then done (
        record s { log = carry_out e (get_or buf 0 0) (until_nul (set (drop 2 buf) len 0)) s.log },
        hang_up c,
      )
      else fault

  -- Behind the read, on x86-64.
  unfoldable pub serve_message :
      Event → ℕ → Bytes → MeterServer M → Client → Outcome (MeterServer M × Client)
  serve_message e size buf s c =
      if size == lp64.size
      then done (serve_request e (first_word (strncpy lp64.size buf)) s c)
      else if ltb 2 size
      then serve_control e buf s c
      else done (s, hang_up c)

  -- One round of the loop of `client_req`, and the loop.
  unfoldable pub serve_round : Event → MeterServer M → Client → Outcome (MeterServer M × Client)
  serve_round e s c = elim e.result [
    | failed ↦ done (s, hang_up c)
    | received got ↦
        if e.still_running
        then serve_message e (length got) (msgbuf got) s c
        else done (s, hang_up c)
  ]

  unfoldable pub serve_loop : List Event → MeterServer M → Client → Outcome (MeterServer M × Client)
  serve_loop [] s c = done (s, c)
  serve_loop (e ∷ es) s c =
      if e.running && c.connected
      then elim (serve_round e s c) [ fault ↦ fault | done r ↦ serve_loop es r.0 r.1 ]
      else done (s, c)
