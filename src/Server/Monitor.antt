-- ===== src/Server/Monitor.antt =====
-- multiserver.c: the threads of `monitor_netmeter`, which keep the last powers of the whole system and of
-- the measured channels, and the averages of the channels between two readings of the whole system.
pub mod Average
pub mod Rounds
pub mod System
use power_pack.Prelude.{
  ℕ, zero, suc, ◌+◌, ◌*◌, ◌/◌, ◌%◌, ◌^◌, Bool, true, false, Option, none, some, List, [], ◌∷◌, ltb,
  leb, ◌==◌, if◌then◌else◌, length, take, drop, Outcome, done, fault,
}

-- `timely_energy`, less the times and the fields that are never used
pub record Timely : Type 0 where
  pub sys_power : ℕ
  pub pre_sys_power : ℕ
  pub num_nidaq_chs : ℕ
  pub nidaq_powers : List ℕ
  pub pre_nidaq_powers : List ℕ

-- A mutex, and the thread that has locked it.
pub data Mutex : Type 0 where
  unlocked : Mutex
  locked_by : ℕ → Mutex

-- Unlocking a mutex that the thread has not locked is undefined.
unfoldable pub unlock : ℕ → Mutex → Outcome Mutex
unlock me unlocked = fault
unlock me (locked_by t) = if t == me then done unlocked else fault

-- The static variables of `statistic_nidaq_power`
pub record Samples : Type 0 where
  pub pwr : List ℕ
  pub samples : ℕ

-- The loops over `n` channels; `none` is an access out of range.
unfoldable pub add_powers : ℕ → List ℕ → List ℕ → Option (List ℕ)
add_powers zero pwr xs = some pwr
add_powers (suc n) [] xs = none
add_powers (suc n) (p ∷ pwr) [] = none
add_powers (suc n) (p ∷ pwr) (x ∷ xs) = elim (add_powers n pwr xs) [
  | none ↦ none
  | some r ↦ some ((p + x) % 2 ^ 32 ∷ r)
]

unfoldable pub average_powers : ℕ → ℕ → List ℕ → List ℕ → Option (List ℕ)
average_powers samples zero pwr xs = some xs
average_powers samples (suc n) [] xs = none
average_powers samples (suc n) (p ∷ pwr) [] = none
average_powers samples (suc n) (p ∷ pwr) (x ∷ xs) = elim (average_powers samples n pwr xs) [
  | none ↦ none
  | some r ↦ some (p / samples ∷ r)
]

unfoldable pub clear_powers : ℕ → List ℕ → Option (List ℕ)
clear_powers zero pwr = some pwr
clear_powers (suc n) [] = none
clear_powers (suc n) (p ∷ pwr) = elim (clear_powers n pwr) [ none ↦ none | some r ↦ some (0 ∷ r) ]

unfoldable pub copy_powers : ℕ → List ℕ → List ℕ → Option (List ℕ)
copy_powers zero dst src = some dst
copy_powers (suc n) [] src = none
copy_powers (suc n) (d ∷ dst) [] = none
copy_powers (suc n) (d ∷ dst) (x ∷ src) = elim (copy_powers n dst src) [
  | none ↦ none
  | some r ↦ some (x ∷ r)
]

-- `statistic_nidaq_power` without `reset`
unfoldable pub add_sample : ℕ → List ℕ → Samples → Outcome Samples
add_sample n nidaq_pwr st = elim (add_powers n st.pwr nidaq_pwr) [
  | none ↦ fault
  | some p ↦ done record { pwr = p; samples = (st.samples + 1) % 2 ^ 32 }
]

-- The two loops of `statistic_nidaq_power` with `reset`: the averages, and the statics cleared
unfoldable pub averages : ℕ → List ℕ → Samples → Option (List ℕ × Samples)
averages n nidaq_pwr st = elim (average_powers st.samples n st.pwr nidaq_pwr) [
  | none ↦ none
  | some out ↦ elim (clear_powers n st.pwr) [
    | none ↦ none
    | some p ↦ some (out, record { pwr = p; samples = 0 })
  ]
]

-- `statistic_nidaq_power` with `reset`, called by the thread `me`
unfoldable pub reset_samples : ℕ → ℕ → List ℕ → Samples → Mutex → Outcome (List ℕ × Samples × Mutex)
reset_samples me n nidaq_pwr st m =
    if st.samples == 0 then done (nidaq_pwr, st, m) else elim (averages n nidaq_pwr st) [
      | none ↦ fault
      | some r ↦ elim (unlock me m) [ fault ↦ fault | done m' ↦ done (r.0, r.1, m') ]
    ]

-- What the two threads share.
pub record Monitor : Type 0 where
  pub wattsup : Timely
  pub nidaq : Timely
  pub stats : Samples
  pub mutex : Mutex

-- `store_last_reading`
unfoldable pub store_last_reading : Timely → Outcome Timely
store_last_reading t = elim (copy_powers t.num_nidaq_chs t.pre_nidaq_powers t.nidaq_powers) [
  | none ↦ fault
  | some p ↦ done record t { pre_sys_power = t.sys_power; pre_nidaq_powers = p }
]

-- `merge_wattsup_nidaq_pwr` for a reading of the channels and for one of the system; it locks the mutex
-- and unlocks it again.
unfoldable pub merge_nidaq : Monitor → Monitor
merge_nidaq s = record s { nidaq = record s.nidaq { sys_power = s.wattsup.sys_power } }

unfoldable pub merge_wattsup : Monitor → Outcome Monitor
merge_wattsup s =
    elim (copy_powers s.nidaq.num_nidaq_chs s.wattsup.nidaq_powers s.nidaq.nidaq_powers) [
      | none ↦ fault
      | some p ↦ done record s { wattsup = record s.wattsup { nidaq_powers = p } }
    ]

-- The struct that a thread of `monitor_netmeter` is given, `timely_netmeter`: timely_nidaq or timely_wattsup.
pub data Watched : Type 0 where
  the_channels the_system : Watched

abbrev pub own_struct : Watched → Monitor → Timely
own_struct the_channels s = s.nidaq
own_struct the_system s = s.wattsup

abbrev pub set_struct : Watched → Timely → Monitor → Monitor
set_struct the_channels t s = record s { nidaq = t }
set_struct the_system t s = record s { wattsup = t }

-- What `monitor_netmeter` does with a reply of more than one reading.
unfoldable pub take_channels : Watched → ℕ → List ℕ → Monitor → Outcome Monitor
take_channels w n readings s = elim (store_last_reading (own_struct w s)) [
  | fault ↦ fault
  | done t ↦ elim (copy_powers n t.nidaq_powers readings) [
    | none ↦ fault
    | some p ↦
        let s1 = merge_nidaq (set_struct w (record t { nidaq_powers = p }) s) in
        elim (add_sample n (own_struct w s1).nidaq_powers s1.stats) [
          | fault ↦ fault
          | done st ↦ done record s1 { stats = st }
        ]
  ]
]

-- And with any other, in the thread `me`.
unfoldable pub take_system : ℕ → Watched → List ℕ → Monitor → Outcome Monitor
take_system me w [] s = fault
take_system me w (reading ∷ readings) s = elim (store_last_reading (own_struct w s)) [
  | fault ↦ fault
  | done t ↦ elim (merge_wattsup (set_struct w (record t { sys_power = reading }) s)) [
    | fault ↦ fault
    | done s1 ↦ elim (reset_samples me 32 (own_struct w s1).nidaq_powers s1.stats s1.mutex) [
      | fault ↦ fault
      | done r ↦ done (
          set_struct w (record (own_struct w s1) { nidaq_powers = r.0 })
            (record s1 { stats = r.1; mutex = r.2 }))
    ]
  ]
]

-- A reply with `n` for `msg.num_chs`.
unfoldable pub take_powers : ℕ → Watched → ℕ → List ℕ → Monitor → Outcome Monitor
take_powers me w n readings s =
    if ltb 1 n then take_channels w n readings s else take_system me w readings s
