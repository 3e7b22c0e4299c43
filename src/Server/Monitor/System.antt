-- ===== src/Server/Monitor/System.antt =====
-- A reading of the whole system, before any sample of the channels.
use power_pack.Prelude.{
  ℕ, ◌≤◌, ◌≡◌, refl, true, List, ◌∷◌, ◌++◌, ◌==◌, length, take, drop, done, arith,
}
use power_pack.Server.Monitor.Rounds.{copy_powers_lem}
use power_pack.Server.Monitor.{
  Timely, Monitor, reset_samples, store_last_reading, merge_wattsup, the_system, take_system,
  take_powers,
}

-- `wattsup` after a reading.
abbrev pub after_system : ℕ → Monitor → Timely
after_system reading s = record s.wattsup {
  sys_power = reading;
  pre_sys_power = s.wattsup.sys_power;
  nidaq_powers =
      take s.nidaq.num_nidaq_chs s.nidaq.nidaq_powers
      ++ drop s.nidaq.num_nidaq_chs s.wattsup.nidaq_powers;
  pre_nidaq_powers =
      take s.wattsup.num_nidaq_chs s.wattsup.nidaq_powers
      ++ drop s.wattsup.num_nidaq_chs s.wattsup.pre_nidaq_powers;
}

-- The arrays have the lengths that the source declares.
pub record SystemSized (s : Monitor) : Type 0 where
  pub chs_fit : s.wattsup.num_nidaq_chs ≤ 32
  pub nidaq_chs_fit : s.nidaq.num_nidaq_chs ≤ 32
  pub powers_are : length s.wattsup.nidaq_powers ≡ 32
  pub pre_powers_are : length s.wattsup.pre_nidaq_powers ≡ 32
  pub nidaq_powers_are : length s.nidaq.nidaq_powers ≡ 32

module _ (me reading : ℕ) (readings : List ℕ) (s : Monitor) (sized : SystemSized s)
    (none_yet : s.stats.samples ≡ 0) where
  abbrev stored : Timely
  stored = record s.wattsup {
    pre_sys_power = s.wattsup.sys_power;
    pre_nidaq_powers =
        take s.wattsup.num_nidaq_chs s.wattsup.nidaq_powers
        ++ drop s.wattsup.num_nidaq_chs s.wattsup.pre_nidaq_powers;
  }

  store_stored : store_last_reading s.wattsup ≡ done stored
  unfolding store_last_reading
  store_stored =
      let e =
        copy_powers_lem s.wattsup.num_nidaq_chs s.wattsup.pre_nidaq_powers s.wattsup.nidaq_powers
          (omega (arith, sized.chs_fit, sized.pre_powers_are))
          (omega (arith, sized.chs_fit, sized.powers_are)) in
      rw (store_last_reading, e) refl

  merged :
      merge_wattsup (record s { wattsup = record stored { sys_power = reading } })
      ≡ done record s { wattsup = after_system reading s }
  unfolding merge_wattsup
  merged =
      let e =
        copy_powers_lem s.nidaq.num_nidaq_chs s.wattsup.nidaq_powers s.nidaq.nidaq_powers
          (omega (arith, sized.nidaq_chs_fit, sized.powers_are))
          (omega (arith, sized.nidaq_chs_fit, sized.nidaq_powers_are)) in
      rw (merge_wattsup, e) refl

  pub take_system_lem :
      take_powers me the_system 1 (reading ∷ readings) s
      ≡ done record s { wattsup = after_system reading s }
  unfolding take_powers take_system reset_samples
  take_system_lem =
      let z : (s.stats.samples == 0) ≡ true = rw none_yet refl in
      rw (take_powers, take_system, store_stored) (rw merged (rw z refl))
