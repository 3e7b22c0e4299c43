-- ===== src/MeterServer/Power/Answers.antt =====
-- From a reading to the client that asks for it, through `send_power` and netmeter_request.
use power_pack.Measure.{Mm, FloatOps}
use power_pack.MeterServer.Power.{
  sensor_header, sensor_packet, Metered, meter_header, milli_value, meter_packet,
}
use power_pack.MeterServer.Rapl.Reads.{seconds, milli, spent, powers_between, rapl_reads_lem}
use power_pack.MeterServer.Rapl.{Counters, Rapl, new_powers, rapl_reads, watts_to_milli}
use power_pack.MeterServer.{MeterServer, serve_request, serve_message, serve_round}
use power_pack.NetMeter.Encoded.{request-encoded}
use power_pack.NetMeter.Wire.{lp64, Request, Fits, AllWords, encode_lp64, length-encode_lp64}
use power_pack.NetMeter.{cmd_power, request}
use power_pack.Prelude.Int.{pos}
use power_pack.Prelude.{
  ◌^◌, ℕ, ◌≤◌, ◌<◌, ◌≡◌, refl, ap, ◌∙◌, true, Option, some, List, [], ◌∷◌, ◌++◌, length, take, drop,
  Bytes, done, received, arith,
}
use power_pack.Server.Dispatch.{first_word-power}
use power_pack.Server.Monitor.System.{after_system, SystemSized, take_system_lem}
use power_pack.Server.Monitor.{Monitor, the_system, take_powers}
use power_pack.Server.{Client, Event, reply, msgbuf}

-- A round in which a request for power arrives.
pub record Asks (e : Event) (asked : Request) : Type 0 where
  pub going : e.still_running ≡ true
  pub junk_fits : Fits e.pad e.pad' e.junk
  pub asked_pad : Bytes
  pub asked_pad' : Bytes
  pub asked_fits : Fits asked_pad asked_pad' (record asked { cmd = cmd_power })
  pub arrived :
      e.result ≡ received (encode_lp64 asked_pad asked_pad' (record asked { cmd = cmd_power }))

module _ {M : Type 0} (packet : Event → M → Bytes) (e : Event) (s : MeterServer M)
    (c : Client) where
  serve_power : (w : ℕ) → w ≡ 2 → serve_request packet e w s c ≡ (s, reply (packet e s.measured) c)
  unfolding serve_request
  serve_power w h = rw h refl

  message_served :
      (got : Bytes)
      → e.result ≡ received got
      → e.still_running ≡ true
      → serve_round packet e s c ≡ serve_message packet e (length got) (msgbuf got) s c
  unfolding serve_round
  message_served got r k = simp (serve_round, r, k)

  pub power_served :
      (asked : Request)
      → Asks e asked
      → serve_round packet e s c ≡ done (s, reply (packet e s.measured) c)
  unfolding serve_message
  power_served asked asks =
      let q : Request = record asked { cmd = cmd_power } in
      message_served (encode_lp64 asks.asked_pad asks.asked_pad' q) asks.arrived asks.going
      ∙ rw (length-encode_lp64 asks.asked_pad asks.asked_pad' q asks.asked_fits)
          (ap done (serve_power _ (first_word-power asks.asked_pad asks.asked_pad' asked)))

sensor_header-Fits : (e : Event) → Fits e.pad e.pad' e.junk → Fits e.pad e.pad' (sensor_header e)
sensor_header-Fits e f = record {
  pad_is = f.pad_is;
  pad'_is = f.pad'_is;
  last_read_is = f.last_read_is;
  cmd_fits = omega arith;
  num_chs_fits = omega arith;
  units_fits = omega arith;
  rc_fits = f.rc_fits;
}

-- Where a double can be converted to unsigned int, the result has 32 bits.
module _ (fl : FloatOps) (sub : fl.Double → fl.Double → fl.Double) (decimal : ℕ → ℕ → fl.Double)
    (half_to : ℕ → fl.Double) (to_unsigned : fl.Double → Option ℕ)
    (bounded : (x : fl.Double) (w : ℕ) → to_unsigned x ≡ some w → w < 2 ^ 32) where
  open fl use {Float, Double, of_int, lt}

  abbrev State : Type 0
  State = Rapl fl sub decimal half_to to_unsigned

  abbrev elapsed : Counters → Counters → Double
  elapsed = seconds fl sub decimal half_to to_unsigned

  -- The power in milliwatts of the energy that a counter gained between two reads, if it can be converted.
  abbrev mean_power : Double → Double → ℕ → ℕ → Option ℕ
  mean_power units time before now =
      milli fl sub decimal half_to to_unsigned
        (spent fl sub decimal half_to to_unsigned units before now) time

  converted :
      (units : Double) (a b : Counters) (old : List ℕ) (pkg pp0 dram : ℕ)
      → lt (of_int (pos 0)) (elapsed a b) ≡ true
      → mean_power units (elapsed a b) a.pkg b.pkg ≡ some pkg
      → mean_power units (elapsed a b) a.pp0 b.pp0 ≡ some pp0
      → mean_power units (elapsed a b) a.dram b.dram ≡ some dram
      → powers_between fl sub decimal half_to to_unsigned units a b old
        ≡ some (pkg ∷ pp0 ∷ dram ∷ drop 3 old)
  unfolding new_powers
  converted units a b old pkg pp0 dram later e0 e1 e2 =
      rw (new_powers, later) (rw e0 (rw e1 (rw e2 refl)))

  -- When the reads of the counters up to `a` are defined, the read `b` behind it is later, and the powers of the three
  -- energies spent between the two can be converted to unsigned int (none of them is negative, as behind a
  -- counter that has wrapped around, or too large), then a request for power is answered by sensor_server.c,
  -- and `netmeter_request` on x86-64 gives its caller these three powers. For the reads to be defined the
  -- array must have room for three measurements, and every earlier power its conversion.
  pub rapl_reads-request :
      (cs : List Counters) (a b : Counters) (r r1 : State) (mms out1 : List (Mm Float)) (e : Event)
      (asked : Request) (s : MeterServer (List ℕ)) (c : Client) (junk : Bytes) (pwr : List ℕ)
      (pkg pp0 dram : ℕ)
      → rapl_reads fl sub decimal half_to to_unsigned (cs ++ a ∷ []) r mms ≡ done (r1, out1)
      → lt (of_int (pos 0)) (elapsed a b) ≡ true
      → mean_power r.energy_units (elapsed a b) a.pkg b.pkg ≡ some pkg
      → mean_power r.energy_units (elapsed a b) a.pp0 b.pp0 ≡ some pp0
      → mean_power r.energy_units (elapsed a b) a.dram b.dram ≡ some dram
      → Asks e asked
      → 3 ≤ length pwr
      → (r' : State) × (out : List (Mm Float)) × (rapl_reads fl sub decimal half_to to_unsigned
            (cs ++ a ∷ b ∷ [])
            r
            mms
          ≡ done (r', out))
        × (serve_round sensor_packet e (record s { measured = r'.milli_powers }) c
            ≡ done (
              record s { measured = r'.milli_powers },
              reply (sensor_packet e r'.milli_powers) c,
            ))
        × (request lp64 junk
              (record asked { cmd = cmd_power })
              pwr
              (some 32)
              (received (sensor_packet e r'.milli_powers))
            ≡ done (pos 44, sensor_header e, pkg ∷ pp0 ∷ dram ∷ drop 3 pwr))
  unfolding sensor_packet watts_to_milli
  rapl_reads-request cs a b r r1 mms out1 e asked s c junk pwr pkg pp0 dram ran later e0 e1 e2 asks
        room =
      let next = rapl_reads_lem fl sub decimal half_to to_unsigned cs a b r r1 mms out1 ran in
      let (r2, o2, q, v, p) =
        next.0 (pkg ∷ pp0 ∷ dram ∷ drop 3 r1.milli_powers)
          (converted r.energy_units a b r1.milli_powers pkg pp0 dram later e0 e1 e2) in
      let words : AllWords (pkg ∷ pp0 ∷ dram ∷ []) =
        (bounded _ pkg e0, (bounded _ pp0 e1, (bounded _ dram e2, _))) in
      let three : take 3 r2.milli_powers ≡ pkg ∷ pp0 ∷ dram ∷ [] = rw p refl in
      (
        r2,
        o2,
        q,
        power_served sensor_packet e (record s { measured = r2.milli_powers }) c asked asks,
        rw three (
            request-encoded e.pad e.pad' (sensor_header e) (pkg ∷ pp0 ∷ dram ∷ [])
              (sensor_header-Fits e asks.junk_fits) words refl junk
              (record asked { cmd = cmd_power }) pwr (omega arith) (omega arith) room),
      )

module _ (fl : FloatOps) (decimal : ℕ → ℕ → fl.Double) (bytes_of : fl.Double → Bytes)
    (to_unsigned : fl.Float → ℕ) (eight : (x : fl.Double) → length (bytes_of x) ≡ 8)
    (bounded : (x : fl.Float) → to_unsigned x < 2 ^ 32) where
  meter_header-Fits :
      (e : Event) (m : Metered fl decimal bytes_of to_unsigned)
      → Fits e.pad e.pad' e.junk
      → Fits e.pad e.pad' (meter_header fl decimal bytes_of to_unsigned e m)
  meter_header-Fits e m f = record {
    pad_is = f.pad_is;
    pad'_is = f.pad'_is;
    last_read_is = eight _;
    cmd_fits = omega arith;
    num_chs_fits = omega arith;
    units_fits = omega arith;
    rc_fits = f.rc_fits;
  }

  -- A request for power is answered by mserver.c with the time of the last reading and one value, the power in
  -- milliwatts; `netmeter_request` on x86-64 accepts it, and multiserver.c, if it has no sample of the
  -- channels since the last reading of the system, takes it for the power of the system.
  pub meter_packet-take_system :
      (m : Metered fl decimal bytes_of to_unsigned) (e : Event) (asked : Request)
      (s : MeterServer (Metered fl decimal bytes_of to_unsigned)) (c : Client) (junk : Bytes)
      (first : ℕ) (pwr : List ℕ) (me : ℕ) (mon : Monitor)
      → s.measured ≡ m
      → Asks e asked
      → SystemSized mon
      → mon.stats.samples ≡ 0
      → (serve_round (meter_packet fl decimal bytes_of to_unsigned) e s c
          ≡ done (s, reply (meter_packet fl decimal bytes_of to_unsigned e m) c))
        × (request lp64 junk
              (record asked { cmd = cmd_power })
              (first ∷ pwr)
              (some 32)
              (received (meter_packet fl decimal bytes_of to_unsigned e m))
            ≡ done (
              pos 36,
              meter_header fl decimal bytes_of to_unsigned e m,
              milli_value fl decimal bytes_of to_unsigned m ∷ pwr,
            ))
        × (take_powers me the_system 1 (milli_value fl decimal bytes_of to_unsigned m ∷ pwr) mon
            ≡ done record mon {
              wattsup = after_system (milli_value fl decimal bytes_of to_unsigned m) mon;
            })
  unfolding meter_packet
  meter_packet-take_system m e asked s c junk first pwr me mon same asks sized none_yet = (
    power_served (meter_packet fl decimal bytes_of to_unsigned) e s c asked asks
        ∙ ap (λ q. done (s, reply (meter_packet fl decimal bytes_of to_unsigned e q) c)) same,
    request-encoded e.pad e.pad' (meter_header fl decimal bytes_of to_unsigned e m)
        (milli_value fl decimal bytes_of to_unsigned m ∷ []) (meter_header-Fits e m asks.junk_fits)
        (bounded _, _) refl junk (record asked { cmd = cmd_power }) (first ∷ pwr) (omega arith)
        (omega arith) (omega arith),
    take_system_lem me (milli_value fl decimal bytes_of to_unsigned m) pwr mon sized none_yet,
  )
