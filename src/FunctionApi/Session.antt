-- ===== src/FunctionApi/Session.antt =====
-- A program that begins a log, begins and ends a session, and ends the log, and the server that receives its
-- messages.
use power_pack.FunctionApi.Limits.{directory-Plain, pwr-Plain, session-Plain}
use power_pack.FunctionApi.{Api, Network, meter_port, is_open, directory}
use power_pack.LogControl.Handled.{Plain, filled, filled_handled}
use power_pack.LogControl.{ControlMsg, packet}
use power_pack.NetMeter.Wire.{lp64}
use power_pack.Prelude.{
  ℕ, suc, ◌+◌, ◌<◌, ◌≡◌, refl, ◌∙◌, true, false, none, List, [], ◌∷◌, ◌++◌, map, length,
  length-append, length-drop, drop, Bytes, codes, Outcome, done, fault, received, arith,
}
use power_pack.Server.{
  Server, Client, Event, begin_log, begin_session, end_session, close_log, control, new_log,
  log_line, end_log, api_loop,
}
use power_pack.FunctionApi.Sent.{run_session, Reaches, log_name, messages, final, run_done}

-- The server takes each packet on a connection of its own; `at` says what it meets on the n-th.
abbrev pub arrives : Event → Bytes → Event
arrives e got = record e {
  running = true;
  is_set = true;
  still_running = true;
  result = received got;
}

abbrev pub accepted : Client
accepted = record { connected = true; commands = 0; sent = [] }

abbrev pub serve : (ℕ → Event) → ℕ → List Bytes → Server → Outcome Server
serve at n [] s = done s
serve at n (b ∷ bs) s = elim (api_loop lp64 (arrives (at n) b ∷ []) s accepted) [
  | fault ↦ fault
  | done r ↦ serve at (suc n) bs r.0
]

filled_whole :
    (cmd : ℕ) (b : Bytes) (g : ControlMsg)
    → length g.msg ≡ 62
    → length b < 62
    → length (filled cmd b g).msg ≡ 62
filled_whole cmd b g whole lt =
    omega
      (arith, length-append b (0 ∷ drop (suc (length b)) g.msg), length-drop (suc (length b)) g.msg)

-- One packet carries out its command.
serve-filled :
    (at : ℕ → Event) (n cmd : ℕ) (b : Bytes) (g : ControlMsg) (bs : List Bytes) (s : Server)
    → length g.msg ≡ 62
    → Plain b
    → length b < 62
    → serve at n (packet (filled cmd b g) ∷ bs) s
      ≡ serve at (suc n) bs (control (arrives (at n) (packet (filled cmd b g))) cmd b s)
unfolding api_loop
serve-filled at n cmd b g bs s whole h lt =
    rw
      (
        serve,
        filled_handled g whole (arrives (at n) (packet (filled cmd b g))) s accepted cmd b h lt refl
            refl refl,
      )
      refl

-- The server's state once the log of the program is closed.
abbrev pub logged : (ℕ → Event) → Bytes → Bytes → Server → Server
logged at file session s =
    let s1 : Server = record s { entered = directory ∷ s.entered } in
    record (close_log s1) {
      logging = false;
      fplog = none;
      closed =
          record {
            name = file;
            text =
                (begin_log (at 1) file ++ begin_session (at 2) session)
                ++ end_session (at 3) (codes "session_" ++ session);
          }
          ∷ (close_log s1).closed;
    }

module _ (at : ℕ → Event) (enters : (at 0).can_enter ≡ true) (opens : (at 1).can_open ≡ true)
    (g : ℕ → ControlMsg) (whole : (n : ℕ) → length (g n).msg ≡ 62) (net : Network) (fd : ℕ → ℕ)
    (reaches : Reaches net fd) (name session : Bytes) (s : Api) (plain : Plain name)
    (plain' : Plain session) (short : length name < 27) (short' : length session < 54)
    (shut : is_open meter_port s.sockets ≡ false) where
  serve-messages :
      (srv : Server)
      → serve at 0 (map packet (messages g name session)) srv
        ≡ done (logged at (log_name name) session srv)
  unfolding control new_log log_line end_log close_log
  serve-messages srv =
      let l : length (log_name name) < 62 = omega (arith, length-append name (codes ".pwr")) in
      let m = filled 24 directory (g 0) in
      let m2 = filled 20 (log_name name) m in
      let m3 = filled 21 session (g 1) in
      let label = codes "session_" ++ session in
      let m4 = filled 23 label (g 2) in
      let m5 = filled 22 (codes "log") (g 3) in
      let w = filled_whole 24 directory (g 0) (whole 0) (omega arith) in
      let srv1 = control (arrives (at 0) (packet m)) 24 directory srv in
      let srv2 = control (arrives (at 1) (packet m2)) 20 (log_name name) srv1 in
      let srv3 = control (arrives (at 2) (packet m3)) 21 session srv2 in
      let srv4 = control (arrives (at 3) (packet m4)) 23 label srv3 in
      serve-filled at 0 24 directory (g 0) (packet m2 ∷ packet m3 ∷ packet m4 ∷ packet m5 ∷ []) srv
        (whole 0) directory-Plain (omega arith)
      ∙ (serve-filled at 1 20 (log_name name) m (packet m3 ∷ packet m4 ∷ packet m5 ∷ []) srv1 w
            (pwr-Plain name plain) l
          ∙ (serve-filled at 2 21 session (g 1) (packet m4 ∷ packet m5 ∷ []) srv2 (whole 1) plain'
                (omega arith)
              ∙ (serve-filled at 3 23 label (g 2) (packet m5 ∷ []) srv3 (whole 2)
                    (session-Plain session plain') (omega arith)
                  ∙ (serve-filled at 4 22 (codes "log") (g 3) [] srv4 (whole 3) (ground arith)
                        (omega arith)
                      ∙ rw (enters, opens) refl))))

  -- When every connection is made and the port's number is not itself an open descriptor, a program with a log name
  -- of fewer than 27 bytes and a session name of fewer than 54, neither with a NUL or a percent sign in it (the
  -- names are handed to sprintf as its format), sends five messages,
  -- each on a connection that stays open; the server that takes them in turn on its second port, and can enter the
  -- directory and open the log, ends with that log closed, and in it the lines that begin the log, begin
  -- the session, and end the session under its name behind "session_".
  pub run_session-serve :
      (srv : Server)
      → (run_session net name session g s ≡ done (final fd g name session s))
        × (length (final fd g name session s).sockets ≡ length s.sockets + 5)
        × (serve at 0 (map packet (messages g name session)) srv
            ≡ done (logged at (log_name name) session srv))
  run_session-serve srv = (
    run_done net fd reaches g name session s plain plain' short short' shut,
    omega arith,
    serve-messages srv,
  )
