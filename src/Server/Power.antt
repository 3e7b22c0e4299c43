-- ===== src/Server/Power.antt =====
-- `send_power` of the server against `netmeter_request` of its clients.
use power_pack.NetMeter.Encoded.{request-encoded}
use power_pack.NetMeter.Wire.{lp64, Request, Fits, AllWords}
use power_pack.NetMeter.{cmd_power, cmd_reset, request}
use power_pack.Prelude.Int.{pos}
use power_pack.Prelude.{
  ℕ, ◌≤◌, ◌≡◌, ◌≢◌, some, List, ◌∷◌, ◌++◌, length, length-take, take, drop, Bytes, done, received,
  arith,
}
use power_pack.Server.{Server, Event, send_power}

module _ (e : Event) (s : Server) (fits : Fits e.pad e.pad' e.junk)
    (channels : length s.nidaq_powers ≡ 32)
    (powers : AllWords (s.sys_power ∷ take 25 s.nidaq_powers)) where
  abbrev pub readings : List ℕ
  readings = s.sys_power ∷ take 25 s.nidaq_powers

  abbrev pub header : Request
  header = record e.junk { cmd = cmd_power; num_chs = 26; units = 0x040400 }

  header-Fits : Fits e.pad e.pad' header
  header-Fits = record {
    pad_is = fits.pad_is;
    pad'_is = fits.pad'_is;
    last_read_is = fits.last_read_is;
    cmd_fits = omega arith;
    num_chs_fits = omega arith;
    units_fits = omega arith;
    rc_fits = fits.rc_fits;
  }

  length-readings : length readings ≡ 26
  length-readings = omega (arith, length-take 25 s.nidaq_powers)

  -- On x86-64 a client that has room for 26 readings accepts what `send_power` writes: the request returns
  -- its length of 136 bytes and the message that the server filled in, and the readings are the system's
  -- power and those of the 25 channels, in this order, at the start of the client's array.
  pub request-send_power :
      (junk : Bytes) (msg : Request) (pwr : List ℕ)
      → msg.cmd ≢ cmd_reset
      → 26 ≤ length pwr
      → request lp64 junk msg pwr (some 32) (received (send_power e s))
        ≡ done (pos 136, header, readings ++ drop 26 pwr)
  unfolding send_power
  request-send_power junk msg pwr c room =
      request-encoded e.pad e.pad' header readings header-Fits powers length-readings junk msg pwr c
        (omega arith) room
