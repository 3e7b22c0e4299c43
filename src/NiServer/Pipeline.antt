-- ===== src/NiServer/Pipeline.antt =====
-- The way of a measurement from the device's samples to the powers that multiserver.c keeps.
use mathlib.Core.Option.{some-injective}
use power_pack.Measure.{FloatOps}
use power_pack.NetMeter.Encoded.{request-encoded}
use power_pack.NetMeter.Wire.{lp64, Request, Fits, AllWords, encode_lp64}
use power_pack.NetMeter.{cmd_power, cmd_reset, request}
use power_pack.NiServer.Acquire.{mean_of, every_n_callback_lem}
use power_pack.NiServer.Visits.{power_answered}
use power_pack.NiServer.{
  NiServer, Visit, active_channels, read_samples, chan_volts, milli_power, every_n_callback,
  power_packet, visit_round,
}
use power_pack.Prelude.Int.{pos}
use power_pack.Prelude.{
  ◌^◌, ℕ, suc, ◌*◌, ◌≤◌, ◌<◌, ◌≡◌, ◌≢◌, refl, sym, subst, ◌∙◌, true, some, List, [], ◌∷◌, ◌++◌,
  length, length-append, length-drop, get_elem?, get_elem?-append_left, get_elem?-some_lt, get_or,
  take, take_all, take-append_self, drop, Bytes, done, received, arith,
}
use power_pack.Server.Monitor.Rounds.{Sized, after_channels, take_channels_lem}
use power_pack.Server.Monitor.{Monitor, Samples, the_channels, take_powers}
use power_pack.Server.{Client, reply}

AllWords-of : (ws : List ℕ) → ((i x : ℕ) → get_elem? ws i ≡ some x → x < 2 ^ 32) → AllWords ws
AllWords-of [] h = _
AllWords-of (w ∷ ws) h = (h 0 w refl, AllWords-of ws (λ i x e. h (suc i) x e))

-- A reply with the powers of all 16 channels, in a client's array of 32.
module _ (e : Visit) (s : NiServer) (fits : Fits e.pad e.pad' e.junk)
    (full : length s.nidaq_milli_powers ≡ 16) (words : AllWords s.nidaq_milli_powers) where
  abbrev pub power_header : Request
  power_header = record e.junk { cmd = cmd_power; num_chs = active_channels; units = 0x040400 }

  power_header-Fits : Fits e.pad e.pad' power_header
  power_header-Fits = record {
    pad_is = fits.pad_is;
    pad'_is = fits.pad'_is;
    last_read_is = fits.last_read_is;
    cmd_fits = omega arith;
    num_chs_fits = omega arith;
    units_fits = omega arith;
    rc_fits = fits.rc_fits;
  }

  pub request-power_packet :
      (junk : Bytes) (msg : Request) (pwr : List ℕ)
      → msg.cmd ≢ cmd_reset
      → 16 ≤ length pwr
      → request lp64 junk msg pwr (some 32) (received (power_packet e s))
        ≡ done (pos 96, power_header, s.nidaq_milli_powers ++ drop 16 pwr)
  unfolding power_packet
  request-power_packet junk msg pwr c room =
      let all : take 16 s.nidaq_milli_powers ≡ s.nidaq_milli_powers =
        take_all 16 s.nidaq_milli_powers (omega arith) in
      rw all (
        request-encoded e.pad e.pad' power_header s.nidaq_milli_powers power_header-Fits words full
          junk msg pwr c (omega arith) room)

-- What a visit must be for its request for power to be answered.
pub record Asks (e : Visit) (asked : Request) : Type 0 where
  pub ready : e.select_ok ≡ true
  pub going : e.still_running ≡ true
  pub can_write : e.writable ≡ true
  pub fits : Fits e.pad e.pad' e.junk
  pub asked_pad : Bytes
  pub asked_pad' : Bytes
  pub asked_fits : Fits asked_pad asked_pad' (record asked { cmd = cmd_power })
  pub arrived :
      e.result ≡ received (encode_lp64 asked_pad asked_pad' (record asked { cmd = cmd_power }))

-- A reply of 16 readings becomes the first 16 powers of the monitor.
monitored :
    (ws pwr : List ℕ) (mon : Monitor) (me : ℕ)
    → length ws ≡ 16
    → length pwr ≡ 32
    → Sized mon
    → (st : Samples) × (take_powers me the_channels 16 (ws ++ drop 16 pwr) mon
        ≡ done record mon { nidaq = after_channels 16 (ws ++ drop 16 pwr) mon; stats = st })
      × ((i : ℕ)
          → i < 16
          → get_elem? (after_channels 16 (ws ++ drop 16 pwr) mon).nidaq_powers i ≡ get_elem? ws i)
monitored ws pwr mon me l p sized =
    let size : length (ws ++ drop 16 pwr) ≡ 32 =
      omega (arith, length-append ws (drop 16 pwr), length-drop 16 pwr) in
    let (st, e, c, u) =
      (take_channels_lem 16 (ws ++ drop 16 pwr) mon sized size me).0 (omega arith) (omega arith) in
    (
      st,
      e,
      λ i lt.
          rw (take-append_self 16 ws (drop 16 pwr) (sym l))
            (get_elem?-append_left ws (drop 16 mon.nidaq.nidaq_powers) i (omega arith)),
    )

module _ (fl : FloatOps) (sub : fl.Double → fl.Double → fl.Double) (decimal : ℕ → ℕ → fl.Double)
    (to_unsigned : fl.Double → ℕ) (bounded : (x : fl.Double) → to_unsigned x < 2 ^ 32) where
  -- Once the device has given samples for each of the 16 channels, a request for power on x86-64 is
  -- answered with 16 readings, `netmeter_request` accepts them into its array of 32, and the monitor of
  -- multiserver.c then holds for each channel the power of the mean of that channel's own samples.
  pub every_n_callback-monitored :
      (n : ℕ) (array : List fl.Double) (s : NiServer) (e : Visit) (asked : Request) (c : Client)
      (junk : Bytes) (pwr : List ℕ) (mon : Monitor) (me : ℕ)
      → 16 * suc n ≤ length array
      → length s.nidaq_milli_powers ≡ 16
      → Asks e asked
      → length pwr ≡ 32
      → Sized mon
      → (ws : List ℕ) × (st : Samples) × (every_n_callback fl sub decimal to_unsigned
            (read_samples (suc n) array)
            s
          ≡ done record s { nidaq_milli_powers = ws })
        × (visit_round e (record s { nidaq_milli_powers = ws }) c
            ≡ done (
              record s { nidaq_milli_powers = ws },
              reply (power_packet e (record s { nidaq_milli_powers = ws })) c,
            ))
        × (request lp64 junk
              (record asked { cmd = cmd_power })
              pwr
              (some 32)
              (received (power_packet e (record s { nidaq_milli_powers = ws })))
            ≡ done (
              pos 96,
              record e.junk { cmd = cmd_power; num_chs = active_channels; units = 0x040400 },
              ws ++ drop 16 pwr,
            ))
        × (take_powers me the_channels 16 (ws ++ drop 16 pwr) mon
            ≡ done record mon { nidaq = after_channels 16 (ws ++ drop 16 pwr) mon; stats = st })
        × ((i : ℕ)
            → i < 16
            → get_elem? (after_channels 16 (ws ++ drop 16 pwr) mon).nidaq_powers i
              ≡ some (
                  let v = mean_of fl sub decimal to_unsigned (suc n) array i in
                  milli_power fl sub decimal to_unsigned v
                    (get_or (chan_volts fl sub decimal to_unsigned) i v)))
  unfolding milli_power
  every_n_callback-monitored n array s e asked c junk pwr mon me room full asks p sized =
      let (ws, set, l, each) =
        every_n_callback_lem fl sub decimal to_unsigned n array s room full in
      let s' : NiServer = record s { nidaq_milli_powers = ws } in
      let words : AllWords ws = AllWords-of ws λ i x q.
        let lt : i < 16 = omega (arith, get_elem?-some_lt ws i x q) in
        subst (λ y. y < 2 ^ 32) (some-injective _ _ (sym (each i lt) ∙ q)) (bounded _) in
      let (st, taken, same) = monitored ws pwr mon me l p sized in
      (
        ws,
        st,
        set,
        power_answered e s' c asks.ready asks.going asks.asked_pad asks.asked_pad' asked
            asks.asked_fits asks.can_write asks.arrived,
        request-power_packet e s' asks.fits l words junk (record asked { cmd = cmd_power }) pwr
            (omega arith) (omega arith),
        taken,
        λ i lt. same i lt ∙ each i lt,
      )
