-- ===== src/Logger.antt =====
-- old/metertools/src/tools/mlogger.c: the program that reads a meter, logs its readings and adds up the energy.
-- What meter_read and gettimeofday report is an argument; floats are a parameter, as is the conversion of
-- a float to unsigned int.
pub mod Samples
pub mod Monitor
mod Tests
use power_pack.Measure.{Mm, FloatOps, flag, watts_bit}
use power_pack.Prelude.Int.{ℤ, pos, negsuc, ◌-ℤ◌, eqb_ℤ, ltb_ℤ}
use power_pack.Prelude.{
  ℕ, ◌+◌, Bool, true, false, ◌||◌, not, Option, none, some, List, [], ◌∷◌, ◌++◌, if◌then◌else◌,
}

-- `struct timeval`
pub record Timeval : Type 0 where
  pub tv_sec : ℤ
  pub tv_usec : ℤ

module _ (fl : FloatOps) (to_unsigned : fl.Float → ℕ) where
  open fl use {Float, Double, of_int, widen, narrow, add, mul, div, lt}

  -- What is printed to the log for a reading: the time, the value, the power, the interval and the energy.
  pub record Line : Type 0 where
    pub tv : Timeval
    pub value : Float
    pub line_power : Float
    pub interval : Float
    pub energy : Float

  -- The variables of the program that the loop changes. `output` is the log, if there is one.
  pub record Logger : Type 0 where
    pub power : Float
    pub cumulative_energy : ℕ
    pub last_value : Float
    pub last_units : ℕ
    pub last_tv : Timeval
    pub output : Option (List Line)

  -- What one round of the loop meets: `running`, the result of meter_read, the first measurement after it, and
  -- the time.
  pub record Round : Type 0 where
    pub running : Bool
    pub rc : ℤ
    pub mm : Mm Float
    pub time : Option Timeval

  -- a * b in float
  unfoldable pub mul_float : Float → Float → Float
  mul_float a b = narrow (mul (widen a) (widen b))

  -- cumulative_energy += *energy
  unfoldable pub accumulate : ℕ → Float → ℕ
  accumulate total energy =
      to_unsigned (narrow (add (widen (narrow (of_int (pos total)))) (widen energy)))

  unfoldable pub interval_of : Timeval → Timeval → Float
  interval_of begin now = narrow (
      add (of_int (now.tv_sec -ℤ begin.tv_sec))
        (div (of_int (now.tv_usec -ℤ begin.tv_usec)) (of_int (pos 1_000_000))))

  -- `integrate`: the power, the cumulative energy, the interval and the energy; with a null pointer nothing is set.
  unfoldable pub integrate :
      Timeval → Timeval → Option (Mm Float) → Option Float → ℕ → Option (Float × ℕ × Float × Float)
  integrate begin now none volts total = none
  integrate begin now (some mm) none total = none
  integrate begin now (some mm) (some volts) total =
      let power = if not (flag watts_bit mm.units) then mul_float mm.value volts else mm.value in
      let interval = interval_of begin now in
      let energy = mul_float power interval in
      some (power, accumulate total energy, interval, energy)

  -- The reading is integrated, and printed if there is a log.
  unfoldable pub add_sample : Float → Mm Float → Timeval → Logger → Logger
  add_sample volts mm now s =
      elim (integrate s.last_tv now (some mm) (some volts) s.cumulative_energy) [
        | none ↦ s
        | some (p, total, i, e) ↦
            let line : Line = record {
              tv = now;
              value = mm.value;
              line_power = p;
              interval = i;
              energy = e;
            } in
            record s {
              power = p;
              cumulative_energy = total;
              last_tv = now;
              output = elim s.output [ none ↦ none | some lines ↦ some (lines ++ line ∷ []) ];
            }
      ]

  unfoldable pub keep_last : Mm Float → Logger → Logger
  keep_last mm s = record s { last_value = mm.value; last_units = mm.units }

  -- mm[0].value > 0.0
  abbrev pub is_positive : Mm Float → Bool
  is_positive mm = lt (of_int (pos 0)) (widen mm.value)

  -- What a round does once meter_read has not failed.
  unfoldable pub take_reading : ℤ → Float → Round → ℤ → Logger → ℤ × Logger
  take_reading count volts r loops s =
      let s1 = keep_last r.mm s in
      let next : ℤ → ℤ = λ l. if eqb_ℤ count (pos 0) then l else l -ℤ pos 1 in
      if is_positive r.mm
      then elim r.time [
        | none ↦ (next (negsuc 0), s1)
        | some now ↦ (next loops, add_sample volts r.mm now s1)
      ]
      else (loops, s1)

  -- The loop of `monitor`: the return value, the variables and the rounds that are left; `none` is a loop that
  -- goes on.
  unfoldable pub monitor_loop :
      ℤ → Float → List Round → ℤ → ℤ → Logger → Option (ℤ × Logger × List Round)
  monitor_loop count volts [] loops rc s = if ltb_ℤ loops (pos 0) then some (rc, s, []) else none
  monitor_loop count volts (r ∷ rounds) loops rc s =
      let next = take_reading count volts r loops s in
      let rest = monitor_loop count volts rounds next.0 r.rc next.1 in
      if not r.running || ltb_ℤ loops (pos 0)
      then some (rc, s, r ∷ rounds)
      else if eqb_ℤ r.rc (negsuc 0)
      then some (r.rc, s, rounds)
      else rest

  -- `monitor` once the meter is open, from the time `begin`.
  unfoldable pub monitor :
      ℤ → Float → Timeval → List Round → Logger → Option (ℤ × Logger × List Round)
  monitor count volts begin rounds s =
      let loops = if eqb_ℤ count (pos 0) then pos 0 else count -ℤ pos 1 in
      monitor_loop count volts rounds loops (pos 0)
        (record s { cumulative_energy = 0; last_tv = begin })
