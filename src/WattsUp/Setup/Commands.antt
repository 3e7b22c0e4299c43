-- ===== src/WattsUp/Setup/Commands.antt =====
-- The set-up of the USB meter: which commands have been written when it ends.
use power_pack.Prelude.{
  ℕ, ◌≡◌, refl, ap, sym, subst, ◌⊎◌, ◌∙◌, inl, inr, Bool, true, false, ◌&&◌, Option, none, some,
  List, [], ◌∷◌, ◌++◌, append-nil, append_assoc, Bytes, codes, Outcome, done, fault, arith,
  Bool-cases,
}
use power_pack.WattsUp.Setup.{
  Step, write, ask, listen, Answer, Device, add_sent, read_port, on_read, run_step, next_steps,
  run_steps, setup_steps, Start, start_thread, init_meter,
}

-- The commands of some steps.
unfoldable pub commands : List Step → List Bytes
commands [] = []
commands (write cmd ∷ steps) = cmd ∷ commands steps
commands (ask cmd ∷ steps) = cmd ∷ commands steps
commands (listen ∷ steps) = commands steps

-- The commands written are the first of a list, all of them if it goes on.
abbrev pub Sent : List Bytes → List Bytes → Outcome (Bool × Device) → Type 0
Sent before cmds fault = Unit {0}
Sent before cmds (done (b, d)) =
    (left : List Bytes) × (d.sent ++ left ≡ before ++ cmds) × ((b ≡ false) ⊎ (left ≡ []))

Sent-of_eq :
    (a b c e : List Bytes) (o : Outcome (Bool × Device)) → a ++ b ≡ c ++ e → Sent a b o → Sent c e o
Sent-of_eq a b c e fault h s = tt
Sent-of_eq a b c e (done (x, d)) h (left, q, r) = (left, q ∙ h, r)

on_read-Sent :
    (least : ℕ) (d : Device) (before cmds : List Bytes) (o : Outcome (Option ℕ))
    → d.sent ≡ before ++ cmds
    → Sent before cmds (on_read least d o)
unfolding on_read
on_read-Sent least d before cmds fault h = tt
on_read-Sent least d before cmds (done none) h = ([], append-nil d.sent ∙ h, inr refl)
on_read-Sent least d before cmds (done (some n)) h = ([], append-nil d.sent ∙ h, inr refl)

commands_cons :
    (s : Step) (steps : List Step) → commands (s ∷ []) ++ commands steps ≡ commands (s ∷ steps)
unfolding commands
commands_cons (write cmd) steps = refl
commands_cons (ask cmd) steps = refl
commands_cons listen steps = refl

run_step-Sent :
    (s : Step) (a : Answer) (d : Device) → Sent d.sent (commands (s ∷ [])) (run_step s a d)
unfolding run_step commands
run_step-Sent (write cmd) a d = elim (Bool-cases a.wrote) [
  | inl e ↦ rw (run_step, e) ([], append-nil (d.sent ++ cmd ∷ []), inr refl)
  | inr e ↦ rw (run_step, e) (cmd ∷ [], refl, inl refl)
]
run_step-Sent (ask cmd) a d = elim (Bool-cases a.wrote) [
  | inl e ↦
      rw (run_step, e)
        (on_read-Sent 1 (add_sent cmd d) d.sent (cmd ∷ []) (read_port 120 a.reply) refl)
  | inr e ↦ rw (run_step, e) (cmd ∷ [], refl, inl refl)
]
run_step-Sent listen a d =
    on_read-Sent 40 d d.sent [] (read_port 200 a.reply) (sym (append-nil d.sent))

-- A step, and those behind it.
next_steps-Sent :
    (steps : List Step) (answers_left : List Answer) (before cmds : List Bytes)
    (o : Outcome (Bool × Device))
    → Sent before cmds o
    → ((d : Device) → Sent d.sent (commands steps) (run_steps steps answers_left d))
    → Sent before (cmds ++ commands steps) (next_steps (run_steps steps answers_left) o)
unfolding next_steps
next_steps-Sent steps answers_left before cmds fault s rest = tt
next_steps-Sent steps answers_left before cmds (done (false, d)) (left, q, r) rest = (
  left ++ commands steps,
  sym (append_assoc d.sent left (commands steps))
      ∙ ap (λ v. v ++ commands steps) q
      ∙ append_assoc before cmds (commands steps),
  inl refl,
)
next_steps-Sent steps answers_left before cmds (done (true, d)) (left, q, inl f) rest =
    absurd (ground (arith, f))
next_steps-Sent steps answers_left before cmds (done (true, d)) (left, q, inr z) rest =
    let sent : d.sent ≡ before ++ cmds =
      sym (append-nil d.sent) ∙ sym (ap (λ v. d.sent ++ v) z) ∙ q in
    Sent-of_eq d.sent (commands steps) before (cmds ++ commands steps)
      (run_steps steps answers_left d)
      (ap (λ v. v ++ commands steps) sent ∙ append_assoc before cmds (commands steps)) (rest d)

-- Whatever the port answers, the commands that the steps write are the first of theirs in order, and all of them if
-- every step succeeds.
pub run_steps-Sent :
    (steps : List Step) (answers_left : List Answer) (d : Device)
    → Sent d.sent (commands steps) (run_steps steps answers_left d)
unfolding run_steps commands
run_steps-Sent [] answers_left d = ([], refl, inr refl)
run_steps-Sent (s ∷ steps) [] d = (commands (s ∷ steps), refl, inl refl)
run_steps-Sent (s ∷ steps) (a ∷ answers_left) d =
    subst (λ c. Sent d.sent c (next_steps (run_steps steps answers_left) (run_step s a d)))
      (commands_cons s steps)
      (next_steps-Sent steps answers_left d.sent (commands (s ∷ [])) (run_step s a d)
        (run_step-Sent s a d) (run_steps-Sent steps answers_left))

-- A set-up that succeeded: all commands have been written, and then at most the one that is tried when no records come.
abbrev pub Ready : List Bytes → Outcome (Bool × Device) → Type 0
Ready before fault = Unit {0}
Ready before (done (false, d)) = Unit {0}
Ready before (done (true, d)) =
    (d.thread_state ≡ true)
    × ((d.sent ≡ before ++ commands setup_steps)
        ⊎ (d.sent ≡ (before ++ commands setup_steps) ++ codes "#L,W,3,E,-,1;" ∷ []))

start_thread-Ready :
    (e : Start) (before : List Bytes) (d : Device)
    → d.sent ≡ before ++ commands setup_steps
    → Ready before (start_thread e d)
unfolding start_thread
start_thread-Ready e before d h = elim (Bool-cases e.thread_ok) [
  | inr t ↦ rw (start_thread, t) tt
  | inl t ↦ elim (Bool-cases e.valid) [
    | inl v ↦ rw (start_thread, t, v) (refl, inl h)
    | inr v ↦ elim (Bool-cases e.alternate_ok) [
      | inr w ↦ rw (start_thread, t, v, w) tt
      | inl w ↦ elim (Bool-cases e.valid_later) [
        | inl l ↦
            rw (start_thread, t, v, w, l) (refl, inr (ap (λ c. c ++ codes "#L,W,3,E,-,1;" ∷ []) h))
        | inr l ↦ rw (start_thread, t, v, w, l) tt
      ]
    ]
  ]
]

next_steps-Ready :
    (e : Start) (before : List Bytes) (o : Outcome (Bool × Device))
    → Sent before (commands setup_steps) o
    → Ready before (next_steps (start_thread e) o)
unfolding next_steps
next_steps-Ready e before fault s = tt
next_steps-Ready e before (done (false, d)) s = tt
next_steps-Ready e before (done (true, d)) (left, q, inl f) = absurd (ground (arith, f))
next_steps-Ready e before (done (true, d)) (left, q, inr z) =
    start_thread-Ready e before d (sym (append-nil d.sent) ∙ sym (ap (λ v. d.sent ++ v) z) ∙ q)

-- The set-up returns the port only with the thread running and once all its commands have been written in order, and
-- behind them at most the other form of the last.
pub init_meter-Ready : (e : Start) (d : Device) → Ready d.sent (init_meter e d)
unfolding init_meter
init_meter-Ready e d = elim (Bool-cases (e.mutex_ok && e.open_ok)) [
  | inl h ↦
      let d1 : Device = record d { is_open = true } in
      rw (init_meter, h)
        (next_steps-Ready e d.sent (run_steps setup_steps e.answers d1)
          (run_steps-Sent setup_steps e.answers d1))
  | inr h ↦ rw (init_meter, h) tt
]
