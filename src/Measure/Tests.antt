-- ===== src/Measure/Tests.antt =====
-- Unit conversions over whole numbers in the place of floats.
use power_pack.Prelude.{◌-◌, ◌≤◌, ◌≡◌, refl, false, none, some, []}
use power_pack.Prelude.Int.{ℤ, pos, ◌+ℤ◌, ◌*ℤ◌}
use power_pack.Measure.Base.{prefixes, IsScaled, to_base_lem}
use power_pack.Measure.{Mm, FloatOps, name, base_of, to_base, scale_up, units_prefix, units_measure}

-- Division is not exact over whole numbers: it is left out.
abbrev pub whole : FloatOps
whole = record {
  Float = ℤ;
  Double = ℤ;
  of_int = λ n. n;
  widen = λ n. n;
  narrow = λ n. n;
  add = ◌+ℤ◌;
  mul = ◌*ℤ◌;
  div = λ a b. a;
  lt = λ a b. false;
}

-- 3 mega-watts
abbrev pub megawatts : Mm ℤ
megawatts = record { value = pos 3; units = 0x080400; to_sec = 5 }

base_megawatts : to_base whole (some megawatts) none ≡ (pos 3_000_000, none)
unfolding to_base base_of scale_up ◌*ℤ◌
base_megawatts = refl

to_base_lem_example :
    (c : Mm ℤ) × (to_base whole (some megawatts) (some megawatts) ≡ (c.value, some c))
    × (units_measure (some c) ≡ units_measure (some megawatts))
    × (prefixes c.units ≡ prefixes 0x080400 - 1)
    × (prefixes 0x080400 ≤ 1
        → (units_prefix (some c) ≡ name []) × IsScaled whole 0x080400 megawatts.value c.value)
to_base_lem_example = to_base_lem whole megawatts megawatts
