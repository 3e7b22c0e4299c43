-- ===== src/LogControl.antt =====
-- old/metertools/src/tools/mcontrol/mcontrol.c: the program that sends control messages for the server's log.
-- What is sent is the 64 bytes handed to `write`.
pub mod Handled
pub mod Tests
use power_pack.Prelude.{
  ℕ, suc, ◌+◌, Bool, true, false, ◌&&◌, not, Option, none, some, List, [], ◌∷◌, ◌++◌, ltb, leb,
  ◌==◌, if◌then◌else◌, length, take, drop, Bytes, Outcome, done, fault,
}

-- `control_msg_t`, with its 62 bytes of text; `g_msg` keeps its bytes from one option to the next.
pub record ControlMsg : Type 0 where
  pub cmd : ℕ
  pub len : ℕ
  pub msg : Bytes

-- The options of the command line with their arguments.
pub data CommandOption : Type 0 where
  option_l option_s option_e option_d : Bytes → CommandOption

-- An argument of 62 bytes and more is cut to 61.
unfoldable pub clip : Bytes → Bytes
clip text = if leb 62 (length text) then take 61 text else text

-- What sprintf prints for a format with no arguments: `%%` is a percent sign, and any other conversion, for
-- which an argument is missing, is `none`. The flag says that a `%` stands before.
abbrev pub cons_some : ℕ → Option Bytes → Option Bytes
cons_some x none = none
cons_some x (some b) = some (x ∷ b)

unfoldable pub format_from : Bool → Bytes → Option Bytes
format_from false [] = some []
format_from true [] = none
format_from after (x ∷ b) =
    let rest = format_from (x == b'%' && not after) b in
    if after
    then (if x == b'%' then cons_some x rest else none)
    else if x == b'%'
    then rest
    else cons_some x rest

-- sprintf(g_msg.msg, text), and the length that is stored after it.
unfoldable pub fill : ℕ → Bytes → ControlMsg → Outcome ControlMsg
fill cmd text g = elim (format_from false text) [
  | none ↦ fault
  | some out ↦
      if ltb (length out) 62
      then done
          record { cmd = cmd; len = length out; msg = out ++ 0 ∷ drop (suc (length out)) g.msg }
      else fault
]

-- sizeof(control_msg_t) bytes from the message.
abbrev pub packet : ControlMsg → Bytes
packet g = g.cmd ∷ g.len ∷ g.msg

abbrev pub first_is : ℕ → Bytes → Bool
first_is x [] = false
first_is x (y ∷ b) = y == x

-- One option of the loop in `main`: `g_msg` afterwards and what is sent, if anything.
unfoldable pub handle_option : CommandOption → ControlMsg → Outcome (ControlMsg × Option Bytes)
handle_option o g =
    let send : Outcome ControlMsg → Outcome (ControlMsg × Option Bytes) =
      λ r. elim r [ fault ↦ fault | done g' ↦ done (g', some (packet g')) ] in
    elim o [
      | option_l text ↦ send (fill 20 (clip text) g)
      | option_s text ↦ send (fill 21 (clip text) g)
      | option_d text ↦ send (fill 24 (clip text) g)
      | option_e text ↦
          if first_is b'l' text
          then send (fill 22 text g)
          else if first_is b's' text
          then send (fill 23 text g)
          else done (g, none)
    ]
