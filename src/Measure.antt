-- ===== src/Measure.antt =====
-- old/metertools/src/mapi/meter.h: measurements, their unit flags, and the conversions between
-- prefixes. Floats are a parameter: `FloatOps` names the constants and operations that the code uses.
pub mod Base
pub mod Tests
use power_pack.Prelude.{
  ℕ, ◌+◌, ◌-◌, ◌*◌, ◌/◌, ◌%◌, ◌^◌, Bool, true, false, Option, none, some, List, [], ◌∷◌, ◌==◌,
  if◌then◌else◌, Bytes, codes,
}
use power_pack.Prelude.Int.{ℤ, pos}

-- `mm_t`
pub record Mm (F : Type 0) : Type 0 where
  pub value : F
  pub units : ℕ
  pub to_sec : ℕ

-- What a parser does: -1 with EINVAL, -1 alone, or 0 and the measurements afterwards.
pub data Parsed (F : Type 0) : Type 0 where
  invalid unreadable : Parsed F
  parsed : List (Mm F) → Parsed F

abbrev pub store {ℓ} : {A : Type ℓ} → List A → (A → A) → List A
store xs f = elim xs [ [] ↦ [] | x ∷ r ↦ f x ∷ r ]

-- The bit numbers of the MUNITS flags.
abbrev pub amps_bit : ℕ
amps_bit = 2

abbrev pub volts_bit : ℕ
volts_bit = 3

abbrev pub celcius_bit : ℕ
celcius_bit = 4

abbrev pub fahrenheit_bit : ℕ
fahrenheit_bit = 5

abbrev pub decibels_bit : ℕ
decibels_bit = 6

abbrev pub ohms_bit : ℕ
ohms_bit = 7

abbrev pub hz_bit : ℕ
hz_bit = 8

abbrev pub joules_bit : ℕ
joules_bit = 9

abbrev pub watts_bit : ℕ
watts_bit = 10

abbrev pub power_factor_bit : ℕ
power_factor_bit = 11

abbrev pub nano_bit : ℕ
nano_bit = 16

abbrev pub micro_bit : ℕ
micro_bit = 17

abbrev pub milli_bit : ℕ
milli_bit = 18

abbrev pub mega_bit : ℕ
mega_bit = 19

abbrev pub giga_bit : ℕ
giga_bit = 20

-- units & (1 << k)
abbrev pub flag : ℕ → ℕ → Bool
flag k units = (units / 2 ^ k) % 2 == 1

-- units ^ (1 << k), at a bit that is set
abbrev pub clear_flag : ℕ → ℕ → ℕ
clear_flag k units = units - 2 ^ k

-- A `char *` that a function returns: it may be null, or a variable that was never set.
pub data Name : Type 0 where
  null unset : Name
  name : Bytes → Name

-- The prefix that the flags name, by the order of the code's tests.
unfoldable pub prefix_of : ℕ → Bytes
prefix_of units =
    if flag nano_bit units
    then codes "nano"
    else if flag micro_bit units
    then codes "micro"
    else if flag milli_bit units
    then codes "milli"
    else if flag mega_bit units
    then codes "mega"
    else if flag giga_bit units
    then codes "giga"
    else []

-- The quantity that the flags name; with none of these flags `name` is never assigned.
unfoldable pub measure_of : ℕ → Name
measure_of units =
    if flag amps_bit units
    then name (codes "amps")
    else if flag volts_bit units
    then name (codes "volts")
    else if flag watts_bit units
    then name (codes "watts")
    else if flag joules_bit units
    then name (codes "joules")
    else if flag celcius_bit units
    then name (codes "celcius")
    else if flag fahrenheit_bit units
    then name (codes "fahrenheit")
    else if flag decibels_bit units
    then name (codes "decibels")
    else if flag ohms_bit units
    then name (codes "ohms")
    else if flag hz_bit units
    then name (codes "hertz")
    else if flag power_factor_bit units
    then name (codes "pf")
    else unset

-- `meter_units_prefix` and `meter_units_measure`
unfoldable pub units_prefix : {F : Type 0} → Option (Mm F) → Name
units_prefix none = null
units_prefix (some mm) = name (prefix_of mm.units)

unfoldable pub units_measure : {F : Type 0} → Option (Mm F) → Name
units_measure none = null
units_measure (some mm) = measure_of mm.units

-- The float operations of the code. `value / 1000.0` widens to double, and an assignment to a float
-- narrows.
pub record FloatOps : Type 1 where
  pub Float : Type 0
  pub Double : Type 0
  pub of_int : ℤ → Double
  pub widen : Float → Double
  pub narrow : Double → Float
  pub add : Double → Double → Double
  pub mul : Double → Double → Double
  pub div : Double → Double → Double
  pub lt : Double → Double → Bool

module _ (fl : FloatOps) where
  open fl use {Float, of_int, widen, narrow, mul, div}

  unfoldable pub scale_up : Float → ℕ → Float
  scale_up v k = narrow (mul (widen v) (of_int (pos k)))

  unfoldable pub scale_down : Float → ℕ → Float
  scale_down v k = narrow (div (widen v) (of_int (pos k)))

  -- The value and the units that `meter_to_base` computes.
  unfoldable pub base_of : Mm Float → Float × ℕ
  base_of mm =
      if flag milli_bit mm.units
      then (scale_down mm.value 1_000, clear_flag milli_bit mm.units)
      else if flag micro_bit mm.units
      then (scale_down mm.value 1_000_000, clear_flag micro_bit mm.units)
      else if flag nano_bit mm.units
      then (scale_down mm.value 1_000_000_000, clear_flag nano_bit mm.units)
      else if flag mega_bit mm.units
      then (scale_up mm.value 1_000_000, clear_flag mega_bit mm.units)
      else if flag giga_bit mm.units
      then (scale_up mm.value 1_000_000_000, clear_flag giga_bit mm.units)
      else (mm.value, mm.units)

  -- `meter_to_base`: what it returns, and `*mmnew` afterwards.
  unfoldable pub to_base : Option (Mm Float) → Option (Mm Float) → Float × Option (Mm Float)
  to_base none none = (narrow (of_int (pos 0)), none)
  to_base none (some new) =
      (narrow (of_int (pos 0)), some (record new { value = narrow (of_int (pos 0)); units = 0 }))
  to_base (some mm) none = ((base_of mm).0, none)
  to_base (some mm) (some new) =
      ((base_of mm).0, some (record new { value = (base_of mm).0; units = (base_of mm).1 }))

  -- `meter_to_milli`
  unfoldable pub to_milli : Option (Mm Float) → Float
  to_milli none = narrow (of_int (pos 0))
  to_milli (some mm) =
      if flag milli_bit mm.units then mm.value else scale_up (to_base (some mm) none).0 1_000

  -- `meter_to_micro`
  unfoldable pub to_micro : Option (Mm Float) → Float
  to_micro none = narrow (of_int (pos 0))
  to_micro (some mm) =
      if flag micro_bit mm.units then mm.value else scale_up (to_base (some mm) none).0 1_000_000

  -- `meter_to_nano`
  unfoldable pub to_nano : Option (Mm Float) → Float
  to_nano none = narrow (of_int (pos 0))
  to_nano (some mm) =
      if flag nano_bit mm.units then mm.value else scale_up (to_base (some mm) none).0 1_000_000_000

  -- `meter_to_mega`
  unfoldable pub to_mega : Option (Mm Float) → Float
  to_mega none = narrow (of_int (pos 0))
  to_mega (some mm) =
      if flag mega_bit mm.units then mm.value else scale_down (to_base (some mm) none).0 1_000_000

  -- `meter_to_giga`
  unfoldable pub to_giga : Option (Mm Float) → Float
  to_giga none = narrow (of_int (pos 0))
  to_giga (some mm) =
      if flag giga_bit mm.units
      then mm.value
      else scale_down (to_base (some mm) none).0 1_000_000_000
