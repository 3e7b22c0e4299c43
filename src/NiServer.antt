-- ===== src/NiServer.antt =====
-- old/niserver/niserver/nidaqmx_server.c and ContAcq-IntClk.c: the Windows server of the channels that a NI-DAQ device
-- measures. The device's library is a parameter: what DAQmxReadAnalogF64 reports is an argument, as are
-- floats. What select, recv and send report, and what a local variable holds before it is set, are
-- fields of a visit.
pub mod Acquire
pub mod Visits
pub mod Pipeline
mod Tests
use power_pack.Measure.{FloatOps}
use power_pack.NetMeter.Wire.{lp64, Request, encode_lp64, le32_all, first_word}
use power_pack.NetMeter.{cmd_energy, cmd_power, cmd_read, cmd_reset}
use power_pack.Prelude.Int.{pos}
use power_pack.Prelude.{
  ℕ, zero, suc, ◌+◌, ◌*◌, ◌%◌, Bool, true, false, ◌&&◌, ◌||◌, not, Option, none, some, List, [],
  ◌∷◌, ◌++◌, ltb, ◌==◌, if◌then◌else◌, length, get_elem?, get_or, take, drop, replicate, Bytes,
  Outcome, done, fault, ◌>>=◌, ◌>>◌, require, ReadResult, received, failed,
}
use power_pack.Server.{Client, reply, hang_up, strncpy, msgbuf, text_end, coalesce}

-- The variables that the threads share, and whether the task of the device runs.
pub record NiServer : Type 0 where
  pub cumulative_energy : ℕ
  pub nidaq_milli_powers : List ℕ
  pub acquiring : Bool

-- NUM_ACTIVE_NIDQ_CHANNELS
abbrev pub active_channels : ℕ
active_channels = 16

-- What DAQmxReadAnalogF64 reports: an error, or the number of samples for each channel and the array.
pub data DaqRead (F : Type 0) : Type 0 where
  read_failed : DaqRead F
  read_samples : ℕ → List F → DaqRead F

-- `decimal m k` is the constant m / 10^k.
module _ (fl : FloatOps) (sub : fl.Double → fl.Double → fl.Double) (decimal : ℕ → ℕ → fl.Double)
    (to_unsigned : fl.Double → ℕ) where
  open fl use {Double, of_int, add, mul, div, lt}

  -- ChanBuff[i] += data[j + i * read], for the `n` indices from `at` on; `none` is an access out of range.
  unfoldable pub add_readings : ℕ → ℕ → List Double → Double → Option Double
  add_readings zero at array sum = some sum
  add_readings (suc n) at array sum = elim (get_elem? array at) [
    | none ↦ none
    | some x ↦ add_readings n (suc at) array (add sum x)
  ]

  -- The mean of a channel, or 0 if it is negative.
  unfoldable pub channel_mean : ℕ → Double → Double
  channel_mean read sum =
      let mean = div sum (of_int (pos read)) in if lt mean (decimal 0 0) then decimal 0 0 else mean

  -- The loop over the channels that are left, from the channel `i` on.
  unfoldable pub channel_means : ℕ → ℕ → ℕ → List Double → Option (List Double)
  channel_means zero i read array = some []
  channel_means (suc n) i read array = elim (add_readings read (i * read) array (decimal 0 0)) [
    | none ↦ none
    | some sum ↦ elim (channel_means n (suc i) read array) [
      | none ↦ none
      | some means ↦ some (channel_mean read sum ∷ means)
    ]
  ]

  -- `nidaq_chan_volts` and `nidaq_chan_resistor`
  unfoldable pub chan_volts : List Double
  chan_volts =
      replicate 5 (decimal 1200 2) ++ (replicate 4 (decimal 33 1) ++ replicate 7 (decimal 1199 2))

  unfoldable pub milli_power : Double → Double → ℕ
  milli_power volt supply =
      to_unsigned (mul (mul (div volt (decimal 3 3)) (sub supply volt)) (of_int (pos 1000)))

  -- The loop of `nidaq_diff_volt_to_power`
  unfoldable pub milli_powers : List Double → List Double → Option (List ℕ)
  milli_powers [] supplies = some []
  milli_powers (v ∷ vs) [] = none
  milli_powers (v ∷ vs) (p ∷ ps) = elim (milli_powers vs ps) [
    | none ↦ none
    | some ws ↦ some (milli_power v p ∷ ws)
  ]

  -- `nidaq_diff_volt_to_power`: both its arrays and the shared one have room for the channels.
  unfoldable pub nidaq_diff_volt_to_power : List Double → NiServer → Outcome NiServer
  nidaq_diff_volt_to_power readings s = elim (milli_powers readings chan_volts) [
    | none ↦ fault
    | some ws ↦ do
      require (not (ltb (length s.nidaq_milli_powers) (length ws)))
      done record s { nidaq_milli_powers = ws ++ drop (length ws) s.nidaq_milli_powers }
  ]

  -- `EveryNCallback`
  unfoldable pub every_n_callback : DaqRead Double → NiServer → Outcome NiServer
  every_n_callback read_failed s = done record s { acquiring = false }
  every_n_callback (read_samples zero array) s = done s
  every_n_callback (read_samples (suc n) array) s =
      elim (channel_means active_channels 0 (suc n) array) [
        | none ↦ fault
        | some means ↦ nidaq_diff_volt_to_power means s
      ]

-- What one round of the loop of `client_req` meets.
pub record Visit : Type 0 where
  pub running : Bool
  pub select_ok : Bool
  pub result : ReadResult
  pub still_running : Bool
  pub writable : Bool
  pub junk : Request
  pub pad : Bytes
  pub pad' : Bytes

-- `send_power`; `send_reading` and `send_energy` are empty.
unfoldable pub power_packet : Visit → NiServer → Bytes
power_packet e s =
    encode_lp64 e.pad e.pad'
      (record e.junk { cmd = cmd_power; num_chs = active_channels; units = 0x040400 })
    ++ le32_all (take active_channels s.nidaq_milli_powers)

abbrev pub counted : Client → Client
counted c = record c { commands = suc c.commands }

unfoldable pub send_channels : Visit → NiServer → Client → Client
send_channels e s c = if e.writable then reply (power_packet e s) c else counted c

-- The switch of `client_req`
unfoldable pub answer_request : Visit → ℕ → NiServer → Client → NiServer × Client
answer_request e cmd s c =
    if cmd == cmd_energy || cmd == cmd_read
    then (s, counted c)
    else if cmd == cmd_power
    then (s, send_channels e s c)
    else if cmd == cmd_reset
    then (record s { cumulative_energy = 0 }, counted c)
    else (s, hang_up c)

-- Behind the read: a control message is printed, and the connection goes on. A request has 32 bytes, since
-- Windows aligns a double to eight bytes on either platform.
unfoldable pub answer_message : Visit → ℕ → Bytes → NiServer → Client → Outcome (NiServer × Client)
answer_message e size buf s c =
    if size == 32
    then done (answer_request e (first_word (strncpy 32 buf)) s c)
    else if ltb 2 size
    then (do require (ltb (text_end (get_or buf 1 0)) 62); done (s, c))
    else done (s, hang_up c)

-- One round of the loop, and the loop.
unfoldable pub visit_round : Visit → NiServer → Client → Outcome (NiServer × Client)
visit_round e s c =
    let c1 = if e.select_ok then c else hang_up c in
    elim e.result [
      | failed ↦ done (s, hang_up c1)
      | received got ↦
          if e.still_running
          then answer_message e (coalesce lp64 (length got)) (msgbuf got) s c1
          else done (s, hang_up c1)
    ]

unfoldable pub visit_loop : List Visit → NiServer → Client → Outcome (NiServer × Client)
visit_loop [] s c = done (s, c)
visit_loop (e ∷ es) s c =
    if e.running && c.connected
    then elim (visit_round e s c) [ fault ↦ fault | done r ↦ visit_loop es r.0 r.1 ]
    else done (s, c)
