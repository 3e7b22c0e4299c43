-- ===== src/WattsUp/Setup.antt =====
-- watts_up.c: the dialogue that sets the USB meter up, and the one that closes it. What the port, the mutex, the
-- thread and the mailbox report is an argument.
pub mod Commands
use power_pack.Prelude.{
  ℕ, ◌≡◌, refl, ap, sym, subst, ◌⊎◌, ◌∙◌, inl, inr, Bool, true, false, ◌&&◌, Option, none, some,
  List, [], ◌∷◌, ◌++◌, append-nil, append_assoc, leb, ltb, not, if◌then◌else◌, length, take, Bytes,
  codes, Outcome, done, fault, ReadResult, received, failed, arith, Bool-cases,
}

-- WriteSetupString, WriteAndReadSetup, and the read of the log format.
pub data Step : Type 0 where
  write ask : Bytes → Step
  listen : Step

-- What the port reports in one step.
pub record Answer : Type 0 where
  pub wrote : Bool
  pub reply : ReadResult

-- What has been written, whether the port is open, and whether the thread that reads it is to run.
pub record Device : Type 0 where
  pub sent : List Bytes
  pub is_open : Bool
  pub thread_state : Bool

abbrev pub add_sent : Bytes → Device → Device
add_sent cmd d = record d { sent = d.sent ++ cmd ∷ [] }

-- ReadRS232 into the 128 bytes of `sBuffer`, with a NUL behind: how many bytes it has read.
unfoldable pub read_port : ℕ → ReadResult → Outcome (Option ℕ)
read_port n failed = done none
read_port n (received b) =
    let got = length (take n b) in if ltb got 128 then done (some got) else fault

-- What follows a read: the set-up goes on if it has not failed and gave enough bytes.
unfoldable pub on_read : ℕ → Device → Outcome (Option ℕ) → Outcome (Bool × Device)
on_read least d fault = fault
on_read least d (done none) = done (false, d)
on_read least d (done (some n)) = done (not (ltb n least), d)

-- Whether the set-up goes on behind a step.
unfoldable pub run_step : Step → Answer → Device → Outcome (Bool × Device)
run_step (write cmd) a d = done (if a.wrote then (true, add_sent cmd d) else (false, d))
run_step (ask cmd) a d =
    if a.wrote then on_read 1 (add_sent cmd d) (read_port 120 a.reply) else done (false, d)
run_step listen a d = on_read 40 d (read_port 200 a.reply)

unfoldable pub next_steps :
    (Device → Outcome (Bool × Device)) → Outcome (Bool × Device) → Outcome (Bool × Device)
next_steps go fault = fault
next_steps go (done (false, d)) = done (false, d)
next_steps go (done (true, d)) = go d

-- The steps in turn, up to the first that fails. A step with no answer left is one that fails.
unfoldable pub run_steps : List Step → List Answer → Device → Outcome (Bool × Device)
run_steps [] answers_left d = done (true, d)
run_steps (s ∷ steps) [] d = done (false, d)
run_steps (s ∷ steps) (a ∷ answers_left) d =
    next_steps (run_steps steps answers_left) (run_step s a d)

abbrev pub setup_steps : List Step
setup_steps =
    ask (codes "#V,R,0;\n")
    ∷ write (codes "#R,W,0;")
    ∷ write (codes "#H,R,0;")
    ∷ listen
    ∷ ask (codes "#C,W,18,1,1,1,1,0,0,0,0,0,0,0,0,0,1,0,0,1,0;")
    ∷ write (codes "#L,W,3,E,0,1;")
    ∷ []

-- `watts_up_usb_meter_read_close`: each command is tried whether or not the one before was written.
unfoldable pub close_meter : Bool → Bool → Bool → Device → Device
close_meter w1 w2 w3 d =
    let d1 : Device = if w1 then add_sent (codes "#L,R,0;") d else d in
    let d2 : Device = if w2 then add_sent (codes "#L,W,3,I,0,1;") d1 else d1 in
    let d3 : Device = if w3 then add_sent (codes "#L,W,3,I,-,1;") d2 else d2 in
    record d3 { is_open = false; thread_state = false }

-- What the set-up meets: the mutex, the port, the answers, the thread, and whether records have arrived after the
-- first wait and the second, which follows another command.
pub record Start : Type 0 where
  pub mutex_ok : Bool
  pub open_ok : Bool
  pub answers : List Answer
  pub thread_ok : Bool
  pub closing : Bool × Bool × Bool
  pub valid : Bool
  pub alternate_ok : Bool
  pub valid_later : Bool

-- The thread is created, and the records that it brings are waited for.
unfoldable pub start_thread : Start → Device → Outcome (Bool × Device)
start_thread e d =
    let d1 : Device = record d { thread_state = true } in
    if not e.thread_ok
    then done (false, close_meter e.closing.0 e.closing.1 e.closing.2 d1)
    else if e.valid
    then done (true, d1)
    else if e.alternate_ok
    then done (e.valid_later, add_sent (codes "#L,W,3,E,-,1;") d1)
    else done (false, d1)

-- `wattsup_usb_meter_init` from a device that is closed: whether it returns the port, or -1.
unfoldable pub init_meter : Start → Device → Outcome (Bool × Device)
init_meter e d =
    if e.mutex_ok && e.open_ok
    then next_steps (start_thread e) (run_steps setup_steps e.answers (record d { is_open = true }))
    else done (false, d)
