-- ===== src/MeterServer/Rapl.antt =====
-- sensor_server.c: the processor's energy counters. What gettimeofday reports and the values that read_msr returns, as bit
-- patterns of 64 bits, are arguments; floats and pow(0.5, n) are parameters.
pub mod Reads
use power_pack.Measure.{Mm, FloatOps}
use power_pack.Prelude.Int.{ℤ, pos, negsuc}
use power_pack.Prelude.{
  ℕ, zero, suc, ◌+◌, ◌-◌, ◌*◌, ◌/◌, ◌%◌, ◌^◌, Bool, true, false, Option, none, some, List, [], ◌∷◌,
  ◌++◌, ltb, if◌then◌else◌, drop, Outcome, done, fault, ◌>>=◌,
}

-- A long long from its bit pattern.
unfoldable pub signed : ℕ → ℤ
signed w = if ltb w (2 ^ 63) then pos w else negsuc (2 ^ 64 - 1 - w)

-- The values of one read: the time, MSR_PKG_ENERGY_STATUS, MSR_PP0_ENERGY_STATUS and MSR_DRAM_ENERGY_STATUS.
pub record Counters : Type 0 where
  pub tv_sec : ℤ
  pub tv_usec : ℤ
  pub pkg : ℕ
  pub pp0 : ℕ
  pub dram : ℕ

-- `decimal m k` is the constant m / 10^k, and `half_to n` is pow(0.5, n).
module _ (fl : FloatOps) (sub : fl.Double → fl.Double → fl.Double) (decimal : ℕ → ℕ → fl.Double)
    (half_to : ℕ → fl.Double) (to_unsigned : fl.Double → Option ℕ) where
  open fl use {Float, Double, of_int, widen, narrow, add, mul, div, lt}

  -- The units, the static variables of `rapl_read`, and `rapl_milli_powers`.
  pub record Rapl : Type 0 where
    pub power_units : Double
    pub energy_units : Double
    pub time_units : Double
    pub last_package : Double
    pub last_pp0 : Double
    pub last_dram : Double
    pub last_ts : Double
    pub milli_powers : List ℕ

  -- `rapl_init`, with what it reads from MSR_RAPL_POWER_UNIT
  unfoldable pub rapl_init : ℕ → Rapl → Rapl
  rapl_init result s = record s {
    power_units = half_to (result % 16);
    energy_units = half_to (result / 256 % 32);
    time_units = half_to (result / 65536 % 16);
  }

  unfoldable pub timestamp : Counters → Double
  timestamp c = add (of_int c.tv_sec) (mul (of_int c.tv_usec) (decimal 1 6))

  unfoldable pub joules : ℕ → Double → Double
  joules result units = mul (of_int (signed result)) units

  -- The conversion to unsigned int is `none` where it is undefined, as for a negative power.
  unfoldable pub watts_to_milli : Float → Double → Option ℕ
  watts_to_milli value seconds = to_unsigned (mul (div (widen value) seconds) (of_int (pos 1000)))

  -- `rapl_milli_powers` after a read, from the energies spent and the seconds since the last one.
  unfoldable pub new_powers : Float → Float → Float → Double → List ℕ → Option (List ℕ)
  new_powers v0 v1 v2 elapsed old =
      let stored : Option (List ℕ) = elim (watts_to_milli v0 elapsed) [
        | none ↦ none
        | some p0 ↦ elim (watts_to_milli v1 elapsed) [
          | none ↦ none
          | some p1 ↦ elim (watts_to_milli v2 elapsed) [
            | none ↦ none
            | some p2 ↦ some (p0 ∷ p1 ∷ p2 ∷ drop 3 old)
          ]
        ]
      ] in
      if lt (of_int (pos 0)) elapsed then stored else some old

  -- `rapl_read`: it stores into the first three measurements of the array.
  unfoldable pub rapl_read : Counters → Rapl → List (Mm Float) → Outcome (Rapl × List (Mm Float))
  rapl_read c s (m0 ∷ m1 ∷ m2 ∷ mms) =
      let ts = timestamp c in
      let v0 = narrow (sub (joules c.pkg s.energy_units) s.last_package) in
      let v1 = narrow (sub (joules c.pp0 s.energy_units) s.last_pp0) in
      let v2 = narrow (sub (joules c.dram s.energy_units) s.last_dram) in
      elim (new_powers v0 v1 v2 (sub ts s.last_ts) s.milli_powers) [
        | none ↦ fault
        | some powers ↦ done (
          record s {
            last_package = joules c.pkg s.energy_units;
            last_pp0 = joules c.pp0 s.energy_units;
            last_dram = joules c.dram s.energy_units;
            last_ts = ts;
            milli_powers = powers;
          },
          record m0 { value = v0 } ∷ record m1 { value = v1 } ∷ record m2 { value = v2 } ∷ mms,
        )
      ]
  rapl_read c s (m0 ∷ m1 ∷ []) = fault
  rapl_read c s (m0 ∷ []) = fault
  rapl_read c s [] = fault

  -- The reads of the loop of `monitor`, one after another.
  unfoldable pub rapl_reads :
      List Counters → Rapl → List (Mm Float) → Outcome (Rapl × List (Mm Float))
  rapl_reads [] s mms = done (s, mms)
  rapl_reads (c ∷ cs) s mms = do r ← rapl_read c s mms; rapl_reads cs r.0 r.1
