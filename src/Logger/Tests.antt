-- ===== src/Logger/Tests.antt =====
-- Three rounds over whole numbers in the place of floats; division is left out, as no interval has a fraction.
use power_pack.Measure.{FloatOps}
use power_pack.Prelude.Int.{ℤ, pos, ◌+ℤ◌, ◌*ℤ◌, ◌-ℤ◌, ltb_ℤ, pos_part}
use power_pack.Prelude.{ℕ, ◌≡◌, refl, true, none, some, List, [], ◌∷◌, ◌++◌, map, length}
use power_pack.Logger.Samples.{AllFine, count_positive, samples, key, add_energies}
use power_pack.Logger.Monitor.{monitor-Logged}
use power_pack.Logger.{
  Timeval, Line, Logger, Round, monitor, monitor_loop, take_reading, keep_last, add_sample,
  integrate, accumulate, interval_of, mul_float,
}

abbrev whole : FloatOps
whole = record {
  Float = ℤ;
  Double = ℤ;
  of_int = λ n. n;
  widen = λ n. n;
  narrow = λ n. n;
  add = ◌+ℤ◌;
  mul = ◌*ℤ◌;
  div = λ a b. a;
  lt = ltb_ℤ;
}

abbrev at : ℕ → Timeval
at t = record { tv_sec = pos t; tv_usec = pos 0 }

-- So many watts, read at a time.
abbrev reading : ℤ → ℕ → Round whole pos_part
reading w t = record {
  running = true;
  rc = pos 0;
  mm = record { value = w; units = 0x000400; to_sec = 5 };
  time = some (at t);
}

abbrev start : Logger whole pos_part
start = record {
  power = pos 0;
  cumulative_energy = 7;
  last_value = pos 0;
  last_units = 0;
  last_tv = at 0;
  output = some [];
}

abbrev two_rounds : List (Round whole pos_part)
two_rounds = reading (pos 5) 101 ∷ reading (pos 0) 103 ∷ []

monitor-Logged_example :
    (s' : Logger whole pos_part) × (lines : List (Line whole pos_part)) × (monitor whole pos_part
        (pos 2)
        (pos 115)
        (at 100)
        (two_rounds ++ reading (pos 3) 104 ∷ two_rounds)
        start
      ≡ some (pos 0, s', two_rounds))
    × (s'.output ≡ some lines)
    × (map (key whole pos_part) lines ≡ (pos 5, at 101) ∷ (pos 3, at 104) ∷ [])
    × (length lines ≡ 2)
    × (s'.cumulative_energy ≡ add_energies whole pos_part 0 lines)
    × (monitor whole pos_part (pos 0) (pos 115) (at 100) two_rounds start ≡ none)
unfolding AllFine count_positive samples
monitor-Logged_example =
    monitor-Logged whole pos_part (pos 115) (at 100) two_rounds (reading (pos 3) 104) two_rounds
      start ((refl, refl, at 101, refl), ((refl, refl, at 103, refl), tt))
      (refl, refl, at 104, refl) refl refl

-- 5 W for a second; then 3 W for the three seconds since, though nothing was used in two of them.
energy_run :
    (r : ℤ × Logger whole pos_part × List (Round whole pos_part)) × (monitor whole pos_part
        (pos 2)
        (pos 115)
        (at 100)
        (two_rounds ++ reading (pos 3) 104 ∷ [])
        start
      ≡ some r)
    × (r.1.cumulative_energy ≡ 14)
unfolding monitor monitor_loop take_reading keep_last add_sample integrate accumulate interval_of
    mul_float ◌+ℤ◌ ◌-ℤ◌ ◌*ℤ◌
energy_run = (_, refl, refl)

-- A clock that fails ends the loop with the result of a read that succeeded.
clock_run :
    (r : ℤ × Logger whole pos_part × List (Round whole pos_part)) × (monitor whole pos_part
        (pos 9)
        (pos 115)
        (at 100)
        (record (reading (pos 5) 101) { time = none } ∷ two_rounds)
        start
      ≡ some r)
    × (r.0 ≡ pos 0)
unfolding monitor monitor_loop take_reading keep_last add_sample integrate accumulate interval_of
    mul_float ◌+ℤ◌ ◌-ℤ◌ ◌*ℤ◌
clock_run = (_, refl, refl)
