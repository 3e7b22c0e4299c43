-- ===== src/Server/Monitor/Rounds.antt =====
-- What a reply from each of the two servers does to the shared powers.
use power_pack.Prelude.{
  ℕ, zero, suc, ◌+◌, ◌%◌, ◌^◌, ◌≤◌, ◌<◌, ◌≡◌, ◌≢◌, refl, sym, ap, ◌∙◌, ◌⊎◌, inl, inr, true, false,
  ltb, get_or, none, some, List, [], ◌∷◌, ◌==◌, length, length-append, length-take, ◌++◌, take,
  drop, Outcome, done, fault, arith, Option-cases,
}
use power_pack.Server.Monitor.Average.{IsUpdated, add_powers_lem}
use power_pack.Server.Monitor.{
  Timely, Mutex, unlocked, locked_by, unlock, Samples, Monitor, copy_powers, add_sample, averages,
  reset_samples, store_last_reading, merge_nidaq, merge_wattsup, Watched, the_channels, the_system,
  own_struct, set_struct, take_channels, take_system, take_powers,
}

unlock_fault : (me : ℕ) (m : Mutex) → m ≢ locked_by me → unlock me m ≡ fault
unfolding unlock
unlock_fault me unlocked h = refl
unlock_fault me (locked_by t) h = let e : (t == me) ≡ false = ground (arith, h) in rw e refl

reset_samples_fault :
    (me n : ℕ) (powers : List ℕ) (st : Samples) (m : Mutex)
    → m ≢ locked_by me
    → st.samples ≢ 0
    → reset_samples me n powers st m ≡ fault
unfolding reset_samples
reset_samples_fault me n powers st m h ne =
    let z : (st.samples == 0) ≡ false = ground arith in
    elim (Option-cases (averages n powers st)) [
      | inl e ↦ rw (z, reset_samples, e) refl
      | inr (r, e) ↦ rw (z, reset_samples, e) (rw (unlock_fault me m h) refl)
    ]

merge_cases :
    (s : Monitor)
    → (merge_wattsup s ≡ fault)
      ⊎ ((s1 : Monitor) × (merge_wattsup s ≡ done s1) × (s1.stats ≡ s.stats) × (s1.mutex ≡ s.mutex))
unfolding merge_wattsup
merge_cases s =
    elim (Option-cases
      (copy_powers s.nidaq.num_nidaq_chs s.wattsup.nidaq_powers s.nidaq.nidaq_powers)) [
        | inl e ↦ inl (rw (merge_wattsup, e) refl)
        | inr (p, e) ↦ inr (
          record s { wattsup = record s.wattsup { nidaq_powers = p } },
          rw (merge_wattsup, e) refl,
          refl,
          refl,
        )
      ]

set_struct_keeps :
    (w : Watched) (t : Timely) (s : Monitor)
    → ((set_struct w t s).stats ≡ s.stats) × ((set_struct w t s).mutex ≡ s.mutex)
set_struct_keeps the_channels t s = (refl, refl)
set_struct_keeps the_system t s = (refl, refl)

Outcome-cases : {A : Type 0} (o : Outcome A) → (o ≡ fault) ⊎ ((a : A) × (o ≡ done a))
Outcome-cases fault = inl refl
Outcome-cases (done a) = inr (a, refl)

-- Every reply of one reading, or none, that comes after a sample of the channels ends in undefined behaviour:
-- `statistic_nidaq_power` unlocks the mutex, which its thread has not locked.
pub take_system_fault :
    (me : ℕ) (w : Watched) (readings : List ℕ) (s : Monitor)
    → s.mutex ≢ locked_by me
    → s.stats.samples ≢ 0
    → take_system me w readings s ≡ fault
unfolding take_system
take_system_fault me w [] s h ne = refl
take_system_fault me w (x ∷ readings) s h ne =
    elim (Outcome-cases (store_last_reading (own_struct w s))) [
      | inl e ↦ rw (take_system, e) refl
      | inr (t, e) ↦
          let s0 : Monitor = set_struct w (record t { sys_power = x }) s in
          let (st0, mu0) = set_struct_keeps w (record t { sys_power = x }) s in
          elim (merge_cases s0) [
            | inl e1 ↦ rw (take_system, e) (rw e1 refl)
            | inr (s1, e1, st, mu) ↦
                let f : reset_samples me 32 (own_struct w s1).nidaq_powers s1.stats s1.mutex
                    ≡ fault =
                  reset_samples_fault me 32 (own_struct w s1).nidaq_powers s1.stats s1.mutex
                    (λ z. h (sym mu0 ∙ sym mu ∙ z))
                    (λ z. ne (ap (λ q. q.samples) (sym st0 ∙ sym st) ∙ z)) in
                rw (take_system, e) (rw e1 (rw f refl))
          ]
    ]

pub copy_powers_lem :
    (n : ℕ) (dst src : List ℕ)
    → n ≤ length dst
    → n ≤ length src
    → copy_powers n dst src ≡ some (take n src ++ drop n dst)
unfolding copy_powers
copy_powers_lem zero dst src a b = refl
copy_powers_lem (suc n) [] src a b = absurd (omega arith)
copy_powers_lem (suc n) (d ∷ dst) [] a b = absurd (omega arith)
copy_powers_lem (suc n) (d ∷ dst) (x ∷ src) a b =
    rw (copy_powers_lem n dst src (omega arith) (omega arith)) refl

copy_powers-none : (n : ℕ) (dst src : List ℕ) → length dst < n → copy_powers n dst src ≡ none
unfolding copy_powers
copy_powers-none zero dst src a = absurd (omega arith)
copy_powers-none (suc n) [] src a = refl
copy_powers-none (suc n) (d ∷ dst) [] a = refl
copy_powers-none (suc n) (d ∷ dst) (x ∷ src) a = rw (copy_powers-none n dst src (omega arith)) refl

-- The arrays have the lengths that the source declares.
pub record Sized (s : Monitor) : Type 0 where
  pub num_chs_fit : s.nidaq.num_nidaq_chs ≤ 32
  pub powers_are : length s.nidaq.nidaq_powers ≡ 32
  pub pre_powers_are : length s.nidaq.pre_nidaq_powers ≡ 32
  pub sums_are : length s.stats.pwr ≡ 64

-- The sums of the first `n` channels are those before and the powers; the others stay.
abbrev pub SumsAdded : ℕ → List ℕ → List ℕ → List ℕ → Type 0
SumsAdded n powers old new =
    IsUpdated n old new (λ i. (get_or old i 0 + get_or powers i 0) % 2 ^ 32)

-- `nidaq` after a reply with `n` readings.
abbrev pub after_channels : ℕ → List ℕ → Monitor → Timely
after_channels n readings s = record s.nidaq {
  sys_power = s.wattsup.sys_power;
  pre_sys_power = s.nidaq.sys_power;
  nidaq_powers = take n readings ++ drop n s.nidaq.nidaq_powers;
  pre_nidaq_powers =
      take s.nidaq.num_nidaq_chs s.nidaq.nidaq_powers
      ++ drop s.nidaq.num_nidaq_chs s.nidaq.pre_nidaq_powers;
}

module _ (n : ℕ) (readings : List ℕ) (s : Monitor) (sized : Sized s)
    (full : length readings ≡ 32) where
  abbrev stored : Timely
  stored = record s.nidaq {
    pre_sys_power = s.nidaq.sys_power;
    pre_nidaq_powers =
        take s.nidaq.num_nidaq_chs s.nidaq.nidaq_powers
        ++ drop s.nidaq.num_nidaq_chs s.nidaq.pre_nidaq_powers;
  }

  store_stored : store_last_reading s.nidaq ≡ done stored
  unfolding store_last_reading
  store_stored =
      let e =
        copy_powers_lem s.nidaq.num_nidaq_chs s.nidaq.pre_nidaq_powers s.nidaq.nidaq_powers
          (omega (arith, sized.num_chs_fit, sized.pre_powers_are))
          (omega (arith, sized.num_chs_fit, sized.powers_are)) in
      rw (store_last_reading, e) refl

  sample_added :
      n ≤ 32
      → (st : Samples) × (add_sample n (take n readings ++ drop n s.nidaq.nidaq_powers) s.stats
          ≡ done st)
        × (st.samples ≡ (s.stats.samples + 1) % 2 ^ 32)
        × SumsAdded n (take n readings ++ drop n s.nidaq.nidaq_powers) s.stats.pwr st.pwr
  unfolding add_sample
  sample_added h =
      let enough : n ≤ length (take n readings ++ drop n s.nidaq.nidaq_powers) = omega (
        arith,
        length-append (take n readings) (drop n s.nidaq.nidaq_powers),
        length-take n readings,
      ) in
      let (r, e, u) =
        add_powers_lem n s.stats.pwr (take n readings ++ drop n s.nidaq.nidaq_powers)
          (omega (arith, sized.sums_are)) enough in
      (
        record { pwr = r; samples = (s.stats.samples + 1) % 2 ^ 32 },
        rw (add_sample, e) refl,
        refl,
        u,
      )

  pub take_channels_lem :
      (me : ℕ)
      → (1 < n
          → n ≤ 32
          → (st : Samples) × (take_powers me the_channels n readings s
              ≡ done record s { nidaq = after_channels n readings s; stats = st })
            × (st.samples ≡ (s.stats.samples + 1) % 2 ^ 32)
            × SumsAdded n (after_channels n readings s).nidaq_powers s.stats.pwr st.pwr)
        × (32 < n → take_powers me the_channels n readings s ≡ fault)
        × (n ≤ 1
            → s.mutex ≢ locked_by me
            → s.stats.samples ≢ 0
            → take_powers me the_channels n readings s ≡ fault)
  unfolding take_powers take_channels merge_nidaq
  take_channels_lem me = (
    (λ several h.
        let (st, e, c, u) = sample_added h in
        let many : ltb 1 n ≡ true = ground arith in
        (
          st,
          rw (take_powers, many)
              (rw (take_channels, store_stored)
                (rw
                  (copy_powers_lem n s.nidaq.nidaq_powers readings (omega (arith, sized.powers_are))
                    (omega arith))
                  (rw e refl))),
          c,
          u,
        )),
    (λ h.
        let many : ltb 1 n ≡ true = ground arith in
        rw (take_powers, many)
          (rw (take_channels, store_stored)
            (rw (copy_powers-none n s.nidaq.nidaq_powers readings (omega (arith, sized.powers_are)))
              refl))),
    (λ h free sampled.
        let few : ltb 1 n ≡ false = ground arith in
        rw (take_powers, few) (take_system_fault me the_channels readings s free sampled)),
  )
