-- ===== src/MeterServer/Power.antt =====
-- What `send_power` writes: in sensor_server.c the three powers of the processor, in mserver.c the power of the meter
-- with the time of its last reading. The bytes of a double and the conversion to unsigned int are parameters.
pub mod Answers
use power_pack.Logger.{Timeval}
use power_pack.Measure.{FloatOps, to_milli}
use power_pack.NetMeter.Wire.{Request, encode_lp64, le32_all}
use power_pack.NetMeter.{cmd_power}
use power_pack.Prelude.{ℕ, some, List, [], ◌∷◌, ◌++◌, take, Bytes}
use power_pack.Server.{Event}

-- NUM_RAPL_PWRS
abbrev pub rapl_powers : ℕ
rapl_powers = 3

abbrev pub sensor_header : Event → Request
sensor_header e = record e.junk { cmd = cmd_power; num_chs = rapl_powers; units = 0x040400 }

unfoldable pub sensor_packet : Event → List ℕ → Bytes
sensor_packet e powers =
    encode_lp64 e.pad e.pad' (sensor_header e) ++ le32_all (take rapl_powers powers)

module _ (fl : FloatOps) (decimal : ℕ → ℕ → fl.Double) (bytes_of : fl.Double → Bytes)
    (to_unsigned : fl.Float → ℕ) where
  open fl use {Float, of_int, add, mul}

  -- `power` and `tv_last_reading`
  pub record Metered : Type 0 where
    pub power : Float
    pub tv_last_reading : Timeval

  abbrev pub meter_header : Event → Metered → Request
  meter_header e m = record e.junk {
    cmd = cmd_power;
    last_read = bytes_of (
        add (of_int m.tv_last_reading.tv_sec)
          (mul (of_int m.tv_last_reading.tv_usec) (decimal 1 6)));
    num_chs = 1;
    units = 0x040400;
  }

  -- meter_to_milli of a power in watts, truncated
  abbrev pub milli_value : Metered → ℕ
  milli_value m =
      to_unsigned (to_milli fl (some record { value = m.power; units = 0x000400; to_sec = 0 }))

  unfoldable pub meter_packet : Event → Metered → Bytes
  meter_packet e m = encode_lp64 e.pad e.pad' (meter_header e m) ++ le32_all (milli_value m ∷ [])
