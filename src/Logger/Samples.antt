-- ===== src/Logger/Samples.antt =====
-- mlogger.c: what the rounds of the loop of `monitor` add to the log and to the cumulative energy.
use power_pack.Measure.{Mm, FloatOps}
use power_pack.Prelude.Int.{ℤ, negsuc, eqb_ℤ}
use power_pack.Prelude.{
  ℕ, suc, ◌≡◌, refl, ap, sym, ◌∙◌, inl, inr, Bool, true, false, none, some, List, [], ◌∷◌, ◌++◌,
  if◌then◌else◌, map-append, Bool-cases, Option-cases, map, append_assoc, append-nil, ap₂,
}
use power_pack.Logger.{
  Timeval, Line, Logger, Round, integrate, add_sample, keep_last, is_positive, take_reading,
  accumulate,
}

module _ (fl : FloatOps) (to_unsigned : fl.Float → ℕ) where
  open fl use {Float}

  -- The program runs on, the meter is read, and the time is known.
  abbrev pub IsFine : Round fl to_unsigned → Type 0
  IsFine r =
      (r.running ≡ true) × (eqb_ℤ r.rc (negsuc 0) ≡ false) × (t : Timeval) × (r.time ≡ some t)

  unfoldable pub AllFine : List (Round fl to_unsigned) → Type 0
  AllFine [] = Unit {0}
  AllFine (r ∷ rs) = IsFine r × AllFine rs

  abbrev pub positive : Round fl to_unsigned → Bool
  positive r = is_positive fl to_unsigned r.mm

  -- The number of rounds with a value above 0.
  unfoldable pub count_positive : List (Round fl to_unsigned) → ℕ
  count_positive [] = 0
  count_positive (r ∷ rs) = let n = count_positive rs in if positive r then suc n else n

  -- The values that are to be logged, each with its time.
  unfoldable pub samples : List (Round fl to_unsigned) → List (Float × Timeval)
  samples [] = []
  samples (r ∷ rs) =
      let rest = samples rs in
      if positive r then elim r.time [ none ↦ rest | some t ↦ (r.mm.value, t) ∷ rest ] else rest

  abbrev pub key : Line fl to_unsigned → Float × Timeval
  key l = (l.value, l.tv)

  -- The energies of the lines, added one by one.
  unfoldable pub add_energies : ℕ → List (Line fl to_unsigned) → ℕ
  add_energies total [] = total
  add_energies total (l ∷ ls) = add_energies (accumulate fl to_unsigned total l.energy) ls

  -- Some rounds have logged their samples behind `lines`, and the energy they have added is that of the new lines.
  pub record Logged (lines : List (Line fl to_unsigned)) (rs : List (Round fl to_unsigned))
      (s s' : Logger fl to_unsigned) : Type 0 where
    pub more : List (Line fl to_unsigned)
    pub output_is : s'.output ≡ some (lines ++ more)
    pub keys : map key more ≡ samples rs
    pub energy_is : s'.cumulative_energy ≡ add_energies s.cumulative_energy more

  pub samples-append :
      (a b : List (Round fl to_unsigned)) → samples (a ++ b) ≡ samples a ++ samples b
  unfolding samples
  samples-append [] b = refl
  samples-append (r ∷ a) b = elim (Bool-cases (positive r)) [
    | inl e ↦ elim (Option-cases r.time) [
      | inl t ↦ rw (samples, e, t) (samples-append a b)
      | inr (v, t) ↦ rw (samples, e, t) (ap (◌∷◌ (r.mm.value, v)) (samples-append a b))
    ]
    | inr e ↦ rw (samples, e) (samples-append a b)
  ]

  add_energies-append :
      (total : ℕ) (a b : List (Line fl to_unsigned))
      → add_energies total (a ++ b) ≡ add_energies (add_energies total a) b
  unfolding add_energies
  add_energies-append total [] b = refl
  add_energies-append total (l ∷ a) b =
      add_energies-append (accumulate fl to_unsigned total l.energy) a b

  pub Logged-append :
      (lines : List (Line fl to_unsigned)) (a b : List (Round fl to_unsigned))
      (s s1 s2 : Logger fl to_unsigned) (h : Logged lines a s s1)
      → Logged (lines ++ h.more) b s1 s2
      → Logged lines (a ++ b) s s2
  Logged-append lines a b s s1 s2 h k = record {
    more = h.more ++ k.more;
    output_is = k.output_is ∙ ap some (append_assoc lines h.more k.more);
    keys =
        map-append key h.more k.more ∙ ap₂ (λ x y. x ++ y) h.keys k.keys ∙ sym (samples-append a b);
    energy_is =
        k.energy_is
        ∙ ap (λ t. add_energies t k.more) h.energy_is
        ∙ sym (add_energies-append s.cumulative_energy h.more k.more);
  }

  pub samples_one :
      (r : Round fl to_unsigned) (t : Timeval)
      → positive r ≡ true
      → r.time ≡ some t
      → samples (r ∷ []) ≡ (r.mm.value, t) ∷ []
  unfolding samples
  samples_one r t e c = rw (samples, e, c) refl

  add_sample_lem :
      (volts : Float) (mm : Mm Float) (now : Timeval) (s : Logger fl to_unsigned)
      (lines : List (Line fl to_unsigned))
      → s.output ≡ some lines
      → (l : Line fl to_unsigned) × ((add_sample fl to_unsigned volts mm now s).output
          ≡ some (lines ++ l ∷ []))
        × (key l ≡ (mm.value, now))
        × ((add_sample fl to_unsigned volts mm now s).cumulative_energy
            ≡ accumulate fl to_unsigned s.cumulative_energy l.energy)
  unfolding add_sample integrate
  add_sample_lem volts mm now s lines o = rw (add_sample, o) (_, refl, refl, refl)

  pub take_reading-Logged :
      (count : ℤ) (volts : Float) (r : Round fl to_unsigned) (loops : ℤ) (s : Logger fl to_unsigned)
      (lines : List (Line fl to_unsigned))
      → IsFine r
      → s.output ≡ some lines
      → Logged lines (r ∷ []) s (take_reading fl to_unsigned count volts r loops s).1
  unfolding take_reading keep_last samples add_energies
  take_reading-Logged count volts r loops s lines (a, b, t, c) o = elim (Bool-cases (positive r)) [
    | inl e ↦
        let s1 = keep_last fl to_unsigned r.mm s in
        let (l, out, k, energy) = add_sample_lem volts r.mm t s1 lines o in
        let q : (take_reading fl to_unsigned count volts r loops s).1
            ≡ add_sample fl to_unsigned volts r.mm t s1 =
          rw (take_reading, e, c) refl in
        record {
          more = l ∷ [];
          output_is = ap (λ v. v.output) q ∙ out;
          keys = ap (λ v. v ∷ []) k ∙ sym (samples_one r t e c);
          energy_is = ap (λ v. v.cumulative_energy) q ∙ energy;
        }
    | inr e ↦
        let q : (take_reading fl to_unsigned count volts r loops s).1
            ≡ keep_last fl to_unsigned r.mm s =
          rw (take_reading, e) refl in
        record {
          more = [];
          output_is = ap (λ v. v.output) q ∙ o ∙ ap some (sym (append-nil lines));
          keys = rw (samples, e) refl;
          energy_is = ap (λ v. v.cumulative_energy) q;
        }
  ]
