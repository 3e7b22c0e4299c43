-- ===== src/MeterServer/Rapl/Reads.antt =====
-- What the measurements and the powers are after any number of reads.
use power_pack.Measure.{Mm, FloatOps}
use power_pack.MeterServer.Rapl.{
  Counters, Rapl, timestamp, joules, watts_to_milli, new_powers, rapl_read, rapl_reads,
}
use power_pack.Prelude.{
  ℕ, ◌≤◌, ◌≡◌, refl, subst, ap, List, [], ◌∷◌, ◌++◌, map, length, take, Option, none, some,
  Option-cases, inl, inr, ◌∙◌, sym, Outcome, ◌>>=◌, done, fault, arith,
}

bind-done :
    {A B : Type 0} (o : Outcome A) (f : A → Outcome B) (y : B)
    → (o >>= f) ≡ done y
    → (x : A) × (o ≡ done x) × (f x ≡ done y)
bind-done fault f y e = absurd (ground (arith, e))
bind-done (done x) f y e = (x, refl, e)

bind_pure : {A B : Type 0} (o : Outcome (A × B)) → (o >>= λ r. done (r.0, r.1)) ≡ o
bind_pure fault = refl
bind_pure (done r) = refl

module _ (fl : FloatOps) (sub : fl.Double → fl.Double → fl.Double) (decimal : ℕ → ℕ → fl.Double)
    (half_to : ℕ → fl.Double) (to_unsigned : fl.Double → Option ℕ) where
  open fl use {Float, Double, of_int, narrow, lt}

  abbrev State : Type 0
  State = Rapl fl sub decimal half_to to_unsigned

  abbrev pub energy : ℕ → Double → Double
  energy = joules fl sub decimal half_to to_unsigned

  abbrev pub time_of : Counters → Double
  time_of = timestamp fl sub decimal half_to to_unsigned

  abbrev pub milli : Float → Double → Option ℕ
  milli = watts_to_milli fl sub decimal half_to to_unsigned

  -- The static variables hold what the read `c` saw.
  pub record HasRead (c : Counters) (units : Double) (s : State) : Type 0 where
    pub units_are : s.energy_units ≡ units
    pub package_is : s.last_package ≡ energy c.pkg units
    pub pp0_is : s.last_pp0 ≡ energy c.pp0 units
    pub dram_is : s.last_dram ≡ energy c.dram units
    pub ts_is : s.last_ts ≡ time_of c

  -- A difference between two reads, as it is stored.
  abbrev pub spent : Double → ℕ → ℕ → Float
  spent units before now = narrow (sub (energy now units) (energy before units))

  abbrev pub values : List (Mm Float) → List Float
  values mms = map (λ m. m.value) (take 3 mms)

  abbrev pub seconds : Counters → Counters → Double
  seconds a b = sub (time_of b) (time_of a)

  -- The powers after the read `b` behind the read `a`.
  abbrev pub powers_between : Double → Counters → Counters → List ℕ → Option (List ℕ)
  powers_between units a b old =
      new_powers fl sub decimal half_to to_unsigned (spent units a.pkg b.pkg)
        (spent units a.pp0 b.pp0) (spent units a.dram b.dram) (seconds a b) old

  abbrev read_one : Counters → State → List (Mm Float) → Outcome (State × List (Mm Float))
  read_one = rapl_read fl sub decimal half_to to_unsigned

  abbrev pub read_all : List Counters → State → List (Mm Float) → Outcome (State × List (Mm Float))
  read_all = rapl_reads fl sub decimal half_to to_unsigned

  abbrev ReadSo : Counters → Double → Outcome (State × List (Mm Float)) → Type 0
  ReadSo c units fault = Unit {0}
  ReadSo c units (done r) = (3 ≤ length r.1) × HasRead c units r.0

  module _ (c : Counters) (s : State) (m0 m1 m2 : Mm Float) (mms : List (Mm Float)) where
    abbrev change : ℕ → Double → Float
    change now last = narrow (sub (energy now s.energy_units) last)

    -- The powers after this read, the state and the measurements.
    abbrev powers_now : Option (List ℕ)
    powers_now =
        new_powers fl sub decimal half_to to_unsigned (change c.pkg s.last_package)
          (change c.pp0 s.last_pp0) (change c.dram s.last_dram) (sub (time_of c) s.last_ts)
          s.milli_powers

    abbrev state_now : List ℕ → State
    state_now powers = record s {
      last_package = energy c.pkg s.energy_units;
      last_pp0 = energy c.pp0 s.energy_units;
      last_dram = energy c.dram s.energy_units;
      last_ts = time_of c;
      milli_powers = powers;
    }

    abbrev measured_now : List (Mm Float)
    measured_now =
        record m0 { value = change c.pkg s.last_package }
        ∷ record m1 { value = change c.pp0 s.last_pp0 }
        ∷ record m2 { value = change c.dram s.last_dram }
        ∷ mms

    read_none : powers_now ≡ none → read_one c s (m0 ∷ m1 ∷ m2 ∷ mms) ≡ fault
    unfolding rapl_read
    read_none e = rw (rapl_read, e) refl

    read_some :
        (powers : List ℕ)
        → powers_now ≡ some powers
        → read_one c s (m0 ∷ m1 ∷ m2 ∷ mms) ≡ done (state_now powers, measured_now)
    unfolding rapl_read
    read_some powers e = rw (rapl_read, e) refl

    now-HasRead : (powers : List ℕ) → HasRead c s.energy_units (state_now powers)
    now-HasRead powers = record {
      units_are = refl;
      package_is = refl;
      pp0_is = refl;
      dram_is = refl;
      ts_is = refl;
    }

    read_so : ReadSo c s.energy_units (read_one c s (m0 ∷ m1 ∷ m2 ∷ mms))
    read_so = elim (Option-cases powers_now) [
      | inl e ↦ subst (ReadSo c s.energy_units) (sym (read_none e)) _
      | inr (ps, e) ↦
          subst (ReadSo c s.energy_units) (sym (read_some ps e)) (omega arith, now-HasRead ps)
    ]

  read_one-ReadSo :
      (c : Counters) (s : State) (mms : List (Mm Float))
      → ReadSo c s.energy_units (read_one c s mms)
  unfolding rapl_read
  read_one-ReadSo c s [] = _
  read_one-ReadSo c s (m0 ∷ []) = _
  read_one-ReadSo c s (m0 ∷ m1 ∷ []) = _
  read_one-ReadSo c s (m0 ∷ m1 ∷ m2 ∷ mms) = read_so c s m0 m1 m2 mms

  -- What the read `b` does behind the read `a`.
  abbrev pub ReadsNext :
      Double → Counters → Counters → State → Outcome (State × List (Mm Float)) → Type 0
  ReadsNext units a b s next =
      ((powers : List ℕ)
        → powers_between units a b s.milli_powers ≡ some powers
        → (s' : State) × (out : List (Mm Float)) × (next ≡ done (s', out))
          × (values out
              ≡ spent units a.pkg b.pkg ∷ spent units a.pp0 b.pp0 ∷ spent units a.dram b.dram ∷ [])
          × (s'.milli_powers ≡ powers))
      × (powers_between units a b s.milli_powers ≡ none → next ≡ fault)

  read_between :
      (a b : Counters) (units : Double) (s : State) (mms : List (Mm Float))
      → HasRead a units s
      → 3 ≤ length mms
      → ReadsNext units a b s (read_one b s mms)
  unfolding rapl_read
  read_between a b units s [] h l = absurd (omega arith)
  read_between a b units s (m0 ∷ []) h l = absurd (omega arith)
  read_between a b units s (m0 ∷ m1 ∷ []) h l = absurd (omega arith)
  read_between a b units s (m0 ∷ m1 ∷ m2 ∷ mms) h l =
      let same : powers_now b s m0 m1 m2 mms ≡ powers_between units a b s.milli_powers = λ i.
        new_powers fl sub decimal half_to to_unsigned
          (narrow (sub (energy b.pkg (h.units_are i)) (h.package_is i)))
          (narrow (sub (energy b.pp0 (h.units_are i)) (h.pp0_is i)))
          (narrow (sub (energy b.dram (h.units_are i)) (h.dram_is i))) (sub (time_of b) (h.ts_is i))
          s.milli_powers in
      (
        λ powers e. (
          state_now b s m0 m1 m2 mms powers,
          measured_now b s m0 m1 m2 mms,
          read_some b s m0 m1 m2 mms powers (same ∙ e),
          (λ i.
              narrow (sub (energy b.pkg (h.units_are i)) (h.package_is i))
              ∷ narrow (sub (energy b.pp0 (h.units_are i)) (h.pp0_is i))
              ∷ narrow (sub (energy b.dram (h.units_are i)) (h.dram_is i))
              ∷ []),
          refl,
        ),
        λ e. read_none b s m0 m1 m2 mms (same ∙ e),
      )

  -- The last of the reads, and the one behind it.
  read_all-last :
      (cs : List Counters) (a b : Counters) (s s' : State) (mms out : List (Mm Float))
      → read_all (cs ++ a ∷ []) s mms ≡ done (s', out)
      → HasRead a s.energy_units s'
        × (3 ≤ length out)
        × (read_all (cs ++ a ∷ b ∷ []) s mms ≡ read_one b s' out)
  unfolding rapl_reads
  read_all-last [] a b s s' mms out e =
      let (r, f, q) = bind-done (read_one a s mms) (λ r. done (r.0, r.1)) (s', out) e in
      let so : (3 ≤ length out) × HasRead a s.energy_units s' =
        subst (ReadSo a s.energy_units) (f ∙ q) (read_one-ReadSo a s mms) in
      (
        so.1,
        so.0,
        ap (λ o. o >>= λ r. (read_one b r.0 r.1 >>= λ q. done (q.0, q.1))) (f ∙ q)
            ∙ bind_pure (read_one b s' out),
      )
  read_all-last (c ∷ cs) a b s s' mms out e =
      let (r, f, q) =
        bind-done (read_one c s mms) (λ r. read_all (cs ++ a ∷ []) r.0 r.1) (s', out) e in
      let so : (3 ≤ length r.1) × HasRead c s.energy_units r.0 =
        subst (ReadSo c s.energy_units) f (read_one-ReadSo c s mms) in
      let (h, l, n) = read_all-last cs a b r.0 s' r.1 out q in
      (
        subst (λ u. HasRead a u s') so.1.units_are h,
        l,
        ap (λ o. o >>= λ r. read_all (cs ++ a ∷ b ∷ []) r.0 r.1) f ∙ n,
      )

  -- Behind any number of reads, each with room for its three measurements and with powers that an unsigned int can
  -- hold, the next one stores the energy spent since the read before it, and, if the clock has gone on, the powers
  -- over that time; otherwise the powers stay. A power that has no conversion is undefined.
  pub rapl_reads_lem :
      (cs : List Counters) (a b : Counters) (s s' : State) (mms out : List (Mm Float))
      → read_all (cs ++ a ∷ []) s mms ≡ done (s', out)
      → ReadsNext s.energy_units a b s' (read_all (cs ++ a ∷ b ∷ []) s mms)
  rapl_reads_lem cs a b s s' mms out e =
      let (h, l, n) = read_all-last cs a b s s' mms out e in
      subst (ReadsNext s.energy_units a b s') (sym n) (read_between a b s.energy_units s' out h l)
