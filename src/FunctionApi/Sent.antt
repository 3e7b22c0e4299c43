-- ===== src/FunctionApi/Sent.antt =====
-- What a program sends that begins a log, begins and ends a session, and ends the log.
use power_pack.FunctionApi.Limits.{sending, init_lem, start_lem, stop_lem, end_lem}
use power_pack.FunctionApi.{
  Api, Network, meter_port, is_open, netmeter_close, send_control_msg, directory, scp,
  powerpack_fp_init, powerpack_fp_end, powerpack_fp_session_start, powerpack_fp_session_end,
}
use power_pack.LogControl.Handled.{Plain, filled}
use power_pack.LogControl.{ControlMsg, packet}
use power_pack.Prelude.{
  ℕ, suc, ◌<◌, ◌≡◌, ◌≢◌, refl, ap, ◌∙◌, true, false, some, List, [], ◌∷◌, ◌++◌, ltb, ◌==◌, length,
  length-append, Bytes, codes, Outcome, done, ◌>>=◌, arith,
}

-- The calls, one after another, each with what its local message holds.
abbrev pub run_session : Network → Bytes → Bytes → (ℕ → ControlMsg) → Api → Outcome Api
run_session net name session g s = do
  s1 ← powerpack_fp_init net name (g 0) s
  s2 ← powerpack_fp_session_start net session (g 1) s1
  s3 ← powerpack_fp_session_end net session (g 2) s2
  powerpack_fp_end net (g 3) s3

-- Every connection is made, on a descriptor that is not the number of the port.
pub record Reaches (net : Network) (fd : ℕ → ℕ) : Type 0 where
  pub made : (n : ℕ) → net.connects n ≡ some (fd n)
  pub not_port : (n : ℕ) → fd n ≢ meter_port

-- What is sent on a connection, which stays open.
abbrev pub sent_on : (ℕ → ℕ) → ControlMsg → Api → Api
sent_on fd g s = record s {
  attempts = suc s.attempts;
  sockets = fd s.attempts ∷ s.sockets;
  sent = s.sent ++ (fd s.attempts, packet g) ∷ [];
}

abbrev pub sent_all : (ℕ → ℕ) → List ControlMsg → Api → Api
sent_all fd [] s = s
sent_all fd (g ∷ gs) s = sent_all fd gs (sent_on fd g s)

-- The messages that are sent, in their order.
abbrev pub log_name : Bytes → Bytes
log_name name = name ++ codes ".pwr"

abbrev pub first_two : (ℕ → ControlMsg) → Bytes → List ControlMsg
first_two g name = let m = filled 24 directory (g 0) in m ∷ filled 20 (log_name name) m ∷ []

abbrev begin_message : (ℕ → ControlMsg) → Bytes → ControlMsg
begin_message g session = filled 21 session (g 1)

abbrev end_message : (ℕ → ControlMsg) → Bytes → ControlMsg
end_message g session = filled 23 (codes "session_" ++ session) (g 2)

abbrev last_message : (ℕ → ControlMsg) → ControlMsg
last_message g = filled 22 (codes "log") (g 3)

abbrev pub messages : (ℕ → ControlMsg) → Bytes → Bytes → List ControlMsg
messages g name session =
    first_two g name ++ begin_message g session ∷ end_message g session ∷ last_message g ∷ []

-- The program's state at the end.
abbrev pub final : (ℕ → ℕ) → (ℕ → ControlMsg) → Bytes → Bytes → Api → Api
final fd g name session s =
    record (sent_all fd (messages g name session) (record s { lfile = some (log_name name) })) {
      commands = s.commands ++ scp (log_name name) ∷ [];
    }

module _ (net : Network) (fd : ℕ → ℕ) (reaches : Reaches net fd) where
  sending_open :
      (g : ControlMsg) (s : Api)
      → is_open meter_port s.sockets ≡ false
      → sending net g s ≡ sent_on fd g s
  unfolding send_control_msg netmeter_close
  sending_open g s shut =
      let ne : (meter_port == fd s.attempts) ≡ false =
        ground (arith, reaches.not_port s.attempts) in
      rw (sending, send_control_msg, reaches.made s.attempts)
        (rw (netmeter_close, ne) (rw shut refl))

  still_shut :
      (g : ControlMsg) (s : Api)
      → is_open meter_port s.sockets ≡ false
      → is_open meter_port (sent_on fd g s).sockets ≡ false
  still_shut g s shut =
      let ne : (meter_port == fd s.attempts) ≡ false =
        ground (arith, reaches.not_port s.attempts) in
      rw (ne, shut) refl

  module _ (g : ℕ → ControlMsg) (name session : Bytes) (s : Api) (plain : Plain name)
      (plain' : Plain session) (short : length name < 27) (short' : length session < 54)
      (shut : is_open meter_port s.sockets ≡ false) where
    abbrev initial : Api
    initial = sent_all fd (first_two g name) (record s { lfile = some (log_name name) })

    init_done : powerpack_fp_init net name (g 0) s ≡ done initial
    init_done =
        let file = log_name name in
        let t : ltb (length name) 58 ≡ true = ground arith in
        let m = filled 24 directory (g 0) in
        let s0 = record s { lfile = some file } in
        init_lem net (g 0) s name plain
        ∙ rw t (
            ap done (
              ap (sending net (filled 20 file m)) (sending_open m s0 shut)
              ∙ sending_open (filled 20 file m) (sent_on fd m s0) (still_shut m s0 shut)))

    initial_shut : is_open meter_port initial.sockets ≡ false
    initial_shut =
        let file = log_name name in
        let m = filled 24 directory (g 0) in
        let s0 = record s { lfile = some file } in
        still_shut (filled 20 file m) (sent_on fd m s0) (still_shut m s0 shut)

    start_done :
        powerpack_fp_session_start net session (g 1) initial
        ≡ done (sent_on fd (begin_message g session) initial)
    start_done =
        let t : ltb (length session) 62 ≡ true = ground arith in
        start_lem net (g 1) initial session plain'
        ∙ rw t (ap done (sending_open (begin_message g session) initial initial_shut))

    stop_done :
        powerpack_fp_session_end net session (g 2) (sent_on fd (begin_message g session) initial)
        ≡ done (sent_on fd (end_message g session) (sent_on fd (begin_message g session) initial))
    stop_done =
        let t : ltb (length session) 54 ≡ true = ground arith in
        let s2 = sent_on fd (begin_message g session) initial in
        stop_lem net (g 2) s2 session plain'
        ∙ rw t (
            ap done (
              sending_open (end_message g session) s2
                (still_shut (begin_message g session) initial initial_shut)))

    end_done :
        powerpack_fp_end net
          (g 3)
          (sent_on fd (end_message g session) (sent_on fd (begin_message g session) initial))
        ≡ done (final fd g name session s)
    end_done =
        let file = log_name name in
        let t : ltb (length file) 31 ≡ true = ground (arith, length-append name (codes ".pwr")) in
        let s2 = sent_on fd (begin_message g session) initial in
        let s3 = sent_on fd (end_message g session) s2 in
        end_lem net (g 3) s3 file refl
        ∙ rw t (
            ap {A = Api} (λ q. done record q { commands = q.commands ++ scp file ∷ [] })
              (sending_open (last_message g) s3 (
                still_shut (end_message g session) s2
                  (still_shut (begin_message g session) initial initial_shut))))

    pub run_done : run_session net name session g s ≡ done (final fd g name session s)
    run_done = rw (run_session, init_done) (rw start_done (rw stop_done end_done))
