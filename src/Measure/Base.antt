-- ===== src/Measure/Base.antt =====
-- Converting to the base unit: the prefix goes, the quantity stays.
use power_pack.Prelude.Int.{pos}
use power_pack.Prelude.{
  ℕ, ◌+◌, ◌-◌, ◌/◌, ◌%◌, ◌^◌, ◌≤◌, ◌≡◌, ◌∙◌, sym, ap, refl, true, false, some, [], arith,
}
use power_pack.Measure.{
  Mm, flag, clear_flag, prefix_of, measure_of, base_of, scale_up, scale_down, to_base, FloatOps,
  milli_bit, micro_bit, nano_bit, mega_bit, giga_bit, name, units_measure, units_prefix,
}

-- The flags of a quantity stand in the low half of the word.
module _ (u : ℕ) where
  low_2 : u % 65536 / 2 ^ 2 % 2 ≡ u / 2 ^ 2 % 2
  low_2 = omega arith

  low_3 : u % 65536 / 2 ^ 3 % 2 ≡ u / 2 ^ 3 % 2
  low_3 = omega arith

  low_4 : u % 65536 / 2 ^ 4 % 2 ≡ u / 2 ^ 4 % 2
  low_4 = omega arith

  low_5 : u % 65536 / 2 ^ 5 % 2 ≡ u / 2 ^ 5 % 2
  low_5 = omega arith

  low_6 : u % 65536 / 2 ^ 6 % 2 ≡ u / 2 ^ 6 % 2
  low_6 = omega arith

  low_7 : u % 65536 / 2 ^ 7 % 2 ≡ u / 2 ^ 7 % 2
  low_7 = omega arith

  low_8 : u % 65536 / 2 ^ 8 % 2 ≡ u / 2 ^ 8 % 2
  low_8 = omega arith

  low_9 : u % 65536 / 2 ^ 9 % 2 ≡ u / 2 ^ 9 % 2
  low_9 = omega arith

  low_10 : u % 65536 / 2 ^ 10 % 2 ≡ u / 2 ^ 10 % 2
  low_10 = omega arith

  low_11 : u % 65536 / 2 ^ 11 % 2 ≡ u / 2 ^ 11 % 2
  low_11 = omega arith

  pub measure_of-low : measure_of (u % 65536) ≡ measure_of u
  unfolding measure_of
  measure_of-low = rw (low_2, low_3, low_4, low_5, low_6, low_7, low_8, low_9, low_10, low_11) refl

-- How many prefix flags are set.
abbrev count_flag : ℕ → ℕ → ℕ
count_flag k u = (u / 2 ^ k) % 2

pub prefixes : ℕ → ℕ
prefixes u =
    count_flag nano_bit u
    + count_flag micro_bit u
    + count_flag milli_bit u
    + count_flag mega_bit u
    + count_flag giga_bit u

module _ (u : ℕ) where
  prefixes-clear_nano : flag nano_bit u ≡ true → prefixes (clear_flag nano_bit u) ≡ prefixes u - 1
  unfolding prefixes
  prefixes-clear_nano h = ground arith

  prefixes-clear_micro :
      flag micro_bit u ≡ true → prefixes (clear_flag micro_bit u) ≡ prefixes u - 1
  unfolding prefixes
  prefixes-clear_micro h = ground arith

  prefixes-clear_milli :
      flag milli_bit u ≡ true → prefixes (clear_flag milli_bit u) ≡ prefixes u - 1
  unfolding prefixes
  prefixes-clear_milli h = ground arith

  prefixes-clear_mega : flag mega_bit u ≡ true → prefixes (clear_flag mega_bit u) ≡ prefixes u - 1
  unfolding prefixes
  prefixes-clear_mega h = ground arith

  prefixes-clear_giga : flag giga_bit u ≡ true → prefixes (clear_flag giga_bit u) ≡ prefixes u - 1
  unfolding prefixes
  prefixes-clear_giga h = ground arith

prefixes-none :
    (u : ℕ)
    → flag milli_bit u ≡ false
    → flag micro_bit u ≡ false
    → flag nano_bit u ≡ false
    → flag mega_bit u ≡ false
    → flag giga_bit u ≡ false
    → prefixes u ≡ prefixes u - 1
unfolding prefixes
prefixes-none u a b c d e = ground arith

-- A word without prefix flags has the empty prefix.
prefix_of-none : (u : ℕ) → prefixes u ≡ 0 → prefix_of u ≡ []
unfolding prefixes prefix_of
prefix_of-none u h = ground arith

-- What a value in prefixed units is in base units, for each prefix by its power of ten.
module _ (fl : FloatOps) where
  open fl use {Float, of_int, widen, narrow, mul, div}

  abbrev divided : ℕ → Float → Float
  divided e v = narrow (div (widen v) (of_int (pos (10 ^ e))))

  abbrev multiplied : ℕ → Float → Float
  multiplied e v = narrow (mul (widen v) (of_int (pos (10 ^ e))))

  pub record IsScaled (u : ℕ) (v v' : Float) : Type 0 where
    pub milli : flag milli_bit u ≡ true → v' ≡ divided 3 v
    pub micro : flag micro_bit u ≡ true → v' ≡ divided 6 v
    pub nano : flag nano_bit u ≡ true → v' ≡ divided 9 v
    pub mega : flag mega_bit u ≡ true → v' ≡ multiplied 6 v
    pub giga : flag giga_bit u ≡ true → v' ≡ multiplied 9 v
    pub plain : prefixes u ≡ 0 → v' ≡ v

module _ (fl : FloatOps) where
  open fl use {Float}

  base_of-IsScaled :
      (mm : Mm Float) → prefixes mm.units ≤ 1 → IsScaled fl mm.units mm.value (base_of fl mm).0
  unfolding base_of scale_up scale_down prefixes
  base_of-IsScaled mm one = record {
    milli = λ h. ground arith;
    micro = λ h. ground arith;
    nano = λ h. ground arith;
    mega = λ h. ground arith;
    giga = λ h. ground arith;
    plain = λ h. ground arith;
  }

  base_of-low : (mm : Mm Float) → (base_of fl mm).1 % 65536 ≡ mm.units % 65536
  unfolding base_of
  base_of-low mm = ground arith

  base_of-prefixes : (mm : Mm Float) → prefixes (base_of fl mm).1 ≡ prefixes mm.units - 1
  unfolding base_of
  base_of-prefixes mm = ground (
    arith,
    prefixes-clear_nano mm.units,
    prefixes-clear_micro mm.units,
    prefixes-clear_milli mm.units,
    prefixes-clear_mega mm.units,
    prefixes-clear_giga mm.units,
    prefixes-none mm.units,
  )

  -- Converting a measurement to its base unit takes exactly one prefix flag away, if there is one, and
  -- keeps the quantity that the flags name; the value stored is the value returned. A measurement with
  -- at most one prefix flag ends up with the empty prefix and with its value divided by 10^3 for milli, 10^6 for
  -- micro and 10^9 for nano, multiplied by 10^6 for mega and 10^9 for giga, and as it was with no prefix.
  pub to_base_lem :
      (mm new : Mm Float)
      → (c : Mm Float) × (to_base fl (some mm) (some new) ≡ (c.value, some c))
        × (units_measure (some c) ≡ units_measure (some mm))
        × (prefixes c.units ≡ prefixes mm.units - 1)
        × (prefixes mm.units ≤ 1
            → (units_prefix (some c) ≡ name []) × IsScaled fl mm.units mm.value c.value)
  unfolding to_base units_measure units_prefix
  to_base_lem mm new = (
    record new { value = (base_of fl mm).0; units = (base_of fl mm).1 },
    refl,
    sym (measure_of-low (base_of fl mm).1)
        ∙ (ap measure_of (base_of-low mm) ∙ measure_of-low mm.units),
    base_of-prefixes mm,
    λ h. (
      ap name (prefix_of-none (base_of fl mm).1 (omega (arith, base_of-prefixes mm))),
      base_of-IsScaled mm h,
    ),
  )
