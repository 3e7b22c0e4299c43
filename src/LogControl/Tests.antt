-- ===== src/LogControl/Tests.antt =====
-- A session label sent to an idle server.
use power_pack.LogControl.Handled.{Plain, filled, api_round-handle_option}
use power_pack.LogControl.{
  ControlMsg, option_l, option_s, option_e, option_d, clip, fill, format_from, packet,
  handle_option,
}
use power_pack.NetMeter.Wire.{lp64}
use power_pack.Prelude.{◌≡◌, refl, some, replicate, Bytes, codes, done, fault, arith}
use power_pack.Server.Tests.{arrival, idle, joined}
use power_pack.Server.{hang_up, control, api_round}

abbrev pub g_msg : ControlMsg
g_msg = record { cmd = 0; len = 0; msg = replicate 62 0 }

abbrev label : Bytes
label = codes "s"

label-Plain : Plain label
label-Plain = (omega arith, omega arith, _)

-- An argument of `-e` is not cut: with 62 bytes and more it is printed past the message.
option_e_fault : handle_option (option_e (replicate 62 b'l')) g_msg ≡ fault
unfolding handle_option fill format_from
option_e_fault = refl

-- A percent sign in a label is taken for a conversion.
percent_fault : handle_option (option_s (codes "50%s")) g_msg ≡ fault
unfolding handle_option fill format_from clip
percent_fault = refl

api_round-handle_option_example :
    (handle_option (option_l label) g_msg
      ≡ done (filled 20 (clip label) g_msg, some (packet (filled 20 (clip label) g_msg))))
    × (handle_option (option_s label) g_msg
        ≡ done (filled 21 (clip label) g_msg, some (packet (filled 21 (clip label) g_msg))))
    × (handle_option (option_d label) g_msg
        ≡ done (filled 24 (clip label) g_msg, some (packet (filled 24 (clip label) g_msg))))
    × (api_round lp64 (arrival (packet (filled 21 (clip label) g_msg))) idle joined
        ≡ done (
          control (arrival (packet (filled 21 (clip label) g_msg))) 21 (clip label) idle,
          hang_up joined,
        ))
api_round-handle_option_example =
    api_round-handle_option g_msg refl (arrival (packet (filled 21 (clip label) g_msg))) idle joined
      21 label label-Plain refl refl refl
