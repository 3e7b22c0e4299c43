-- ===== src/Logger/Monitor.antt =====
-- mlogger.c: when the loop of `monitor` ends, and what it has logged then.
use power_pack.Measure.{FloatOps}
use power_pack.Prelude.Int.{ℤ, pos, ◌-ℤ◌, eqb_ℤ}
use power_pack.Prelude.{
  ℕ, suc, ◌+◌, ◌-◌, ◌≤◌, ◌⊎◌, ◌≡◌, refl, ap, sym, ◌∙◌, inl, inr, true, false, none, some, List, [],
  ◌∷◌, ◌++◌, if◌then◌else◌, length, length-append, length-map, arith, Bool-cases, map, append-nil,
  ap₂, ltb,
}
use power_pack.Logger.{Timeval, Line, Logger, Round, take_reading, monitor_loop, monitor}
use power_pack.Logger.Samples.{
  AllFine, IsFine, positive, count_positive, samples, key, add_energies, Logged, Logged-append,
  take_reading-Logged, samples-append, samples_one,
}

one_down : (n : ℕ) → 1 ≤ n → pos n -ℤ pos 1 ≡ pos (n - 1)
unfolding ◌-ℤ◌
one_down n h = ground arith

module _ (fl : FloatOps) (to_unsigned : fl.Float → ℕ) where
  open fl use {Float}

  fine_round :
      (count : ℤ) (volts : Float) (r : Round fl to_unsigned) (rounds : List (Round fl to_unsigned))
      (loops : ℕ) (rc : ℤ) (s : Logger fl to_unsigned)
      → IsFine fl to_unsigned r
      → monitor_loop fl to_unsigned count volts (r ∷ rounds) (pos loops) rc s ≡ (
          let next = take_reading fl to_unsigned count volts r (pos loops) s in
          monitor_loop fl to_unsigned count volts rounds next.0 r.rc next.1)
  unfolding monitor_loop
  fine_round count volts r rounds loops rc s (a, b, t, c) =
      let z : ltb (loops + 0) (0 + 0) ≡ false = ground arith in rw (monitor_loop, a) rw (z, b) refl

  loops_positive :
      (count : ℤ) (volts : Float) (r : Round fl to_unsigned) (loops : ℤ) (s : Logger fl to_unsigned)
      → IsFine fl to_unsigned r
      → positive fl to_unsigned r ≡ true
      → eqb_ℤ count (pos 0) ≡ false
      → (take_reading fl to_unsigned count volts r loops s).0 ≡ loops -ℤ pos 1
  unfolding take_reading
  loops_positive count volts r loops s (a, b, t, c) e z = rw (take_reading, e, c) rw z refl

  loops_other :
      (count : ℤ) (volts : Float) (r : Round fl to_unsigned) (loops : ℤ) (s : Logger fl to_unsigned)
      → IsFine fl to_unsigned r
      → (positive fl to_unsigned r ≡ false) ⊎ (eqb_ℤ count (pos 0) ≡ true)
      → (take_reading fl to_unsigned count volts r loops s).0 ≡ loops
  unfolding take_reading
  loops_other count volts r loops s fine (inl e) = rw (take_reading, e) refl
  loops_other count volts r loops s (a, b, t, c) (inr z) =
      elim (Bool-cases (positive fl to_unsigned r)) [
        | inl e ↦ rw (take_reading, e, c) rw z refl
        | inr e ↦ rw (take_reading, e) refl
      ]

  -- Some rounds with no more values above 0 than the loop still counts down.
  rounds-Logged :
      (count : ℤ) (volts : Float) (rs later : List (Round fl to_unsigned)) (n : ℕ) (rc : ℤ)
      (s : Logger fl to_unsigned) (lines : List (Line fl to_unsigned))
      → AllFine fl to_unsigned rs
      → eqb_ℤ count (pos 0) ≡ false
      → count_positive fl to_unsigned rs ≤ n
      → s.output ≡ some lines
      → (rc' : ℤ) × (s' : Logger fl to_unsigned) × (monitor_loop fl to_unsigned count volts
            (rs ++ later)
            (pos n)
            rc
            s
          ≡ monitor_loop fl to_unsigned count volts later
              (pos (n - count_positive fl to_unsigned rs))
              rc'
              s')
        × Logged fl to_unsigned lines rs s s'
  unfolding AllFine count_positive samples add_energies
  rounds-Logged count volts [] later n rc s lines fine z k o = (
    rc,
    s,
    ap (λ m. monitor_loop fl to_unsigned count volts later (pos m) rc s) (omega arith),
    record {
      more = [];
      output_is = o ∙ ap some (sym (append-nil lines));
      keys = refl;
      energy_is = refl;
    },
  )
  rounds-Logged count volts (r ∷ rs) later n rc s lines (fine, all) z k o =
      let next = take_reading fl to_unsigned count volts r (pos n) s in
      let h = take_reading-Logged fl to_unsigned count volts r (pos n) s lines fine o in
      let step = fine_round count volts r (rs ++ later) n rc s fine in
      elim (Bool-cases (positive fl to_unsigned r)) [
        | inl e ↦
            let k1 : suc (count_positive fl to_unsigned rs) ≤ n = rw e at k in
            let (rc1, s1, q, g) =
              rounds-Logged count volts rs later (n - 1) r.rc next.1 (lines ++ h.more) all z
                (omega arith) h.output_is in
            let l : next.0 ≡ pos (n - 1) =
              loops_positive count volts r (pos n) s fine e z ∙ one_down n (omega arith) in
            (
              rc1,
              s1,
              step
                  ∙ ap (λ l. monitor_loop fl to_unsigned count volts (rs ++ later) l r.rc next.1) l
                  ∙ q
                  ∙ ap (λ m. monitor_loop fl to_unsigned count volts later (pos m) rc1 s1)
                      {y = n
                        - (if positive fl to_unsigned r
                            then suc (count_positive fl to_unsigned rs)
                            else count_positive fl to_unsigned rs)}
                      (rw e (omega arith)),
              Logged-append fl to_unsigned lines (r ∷ []) rs s next.1 s1 h g,
            )
        | inr e ↦
            let (rc1, s1, q, g) =
              rounds-Logged count volts rs later n r.rc next.1 (lines ++ h.more) all z (rw e at k)
                h.output_is in
            (
              rc1,
              s1,
              step
                  ∙ ap (λ l. monitor_loop fl to_unsigned count volts (rs ++ later) l r.rc next.1)
                      (loops_other count volts r (pos n) s fine (inl e))
                  ∙ q
                  ∙ ap (λ m. monitor_loop fl to_unsigned count volts later (pos (n - m)) rc1 s1)
                      (rw e refl),
              Logged-append fl to_unsigned lines (r ∷ []) rs s next.1 s1 h g,
            )
      ]

  -- Without a count.
  unlimited :
      (volts : Float) (rs : List (Round fl to_unsigned)) (rc : ℤ) (s : Logger fl to_unsigned)
      → AllFine fl to_unsigned rs
      → monitor_loop fl to_unsigned (pos 0) volts rs (pos 0) rc s ≡ none
  unfolding AllFine monitor_loop
  unlimited volts [] rc s h = refl
  unlimited volts (r ∷ rs) rc s (fine, all) =
      let next = take_reading fl to_unsigned (pos 0) volts r (pos 0) s in
      fine_round (pos 0) volts r rs 0 rc s fine
      ∙ ap (λ l. monitor_loop fl to_unsigned (pos 0) volts rs l r.rc next.1)
          (loops_other (pos 0) volts r (pos 0) s fine (inr refl))
      ∙ unlimited volts rs r.rc next.1 all

  length-samples :
      (rs : List (Round fl to_unsigned))
      → AllFine fl to_unsigned rs
      → length (samples fl to_unsigned rs) ≡ count_positive fl to_unsigned rs
  unfolding AllFine samples count_positive
  length-samples [] h = refl
  length-samples (r ∷ rs) ((a, b, t, c), all) = elim (Bool-cases (positive fl to_unsigned r)) [
    | inl e ↦ rw (samples, count_positive, e, c) (ap suc (length-samples rs all))
    | inr e ↦ rw (samples, count_positive, e) (length-samples rs all)
  ]

  length_lines :
      (rs : List (Round fl to_unsigned)) (r : Round fl to_unsigned)
      (lines : List (Line fl to_unsigned))
      → AllFine fl to_unsigned rs
      → IsFine fl to_unsigned r
      → positive fl to_unsigned r ≡ true
      → map (key fl to_unsigned) lines ≡ samples fl to_unsigned (rs ++ r ∷ [])
      → length lines ≡ count_positive fl to_unsigned rs + 1
  length_lines rs r lines all (a, b, t, c) e k =
      sym (length-map lines (key fl to_unsigned))
      ∙ ap length (k ∙ samples-append fl to_unsigned rs (r ∷ []))
      ∙ length-append (samples fl to_unsigned rs) (samples fl to_unsigned (r ∷ []))
      ∙ ap₂ (λ x y. x + y) (length-samples rs all) (ap length (samples_one fl to_unsigned r t e c))

  ends :
      (count : ℤ) (volts : Float) (rs : List (Round fl to_unsigned)) (rc : ℤ)
      (s : Logger fl to_unsigned)
      → monitor_loop fl to_unsigned count volts rs (pos 0 -ℤ pos 1) rc s ≡ some (rc, s, rs)
  unfolding monitor_loop ◌-ℤ◌
  ends count volts [] rc s = refl
  ends count volts (r ∷ rs) rc s = elim (Bool-cases r.running) [
    | inl e ↦ rw (monitor_loop, e) refl
    | inr e ↦ rw (monitor_loop, e) refl
  ]

  -- While the program runs, the meter is read and the time is known, and with an empty log at first, `monitor`
  -- with a count ends right after as many values above 0 as the count says, with the result of the last read;
  -- other values are not counted. The log has one line for each of these values, with its time, and the
  -- cumulative energy is that of the lines. Without a count it goes on.
  pub monitor-Logged :
      (volts : Float) (begin : Timeval) (front : List (Round fl to_unsigned))
      (r : Round fl to_unsigned) (later : List (Round fl to_unsigned)) (s : Logger fl to_unsigned)
      → AllFine fl to_unsigned front
      → IsFine fl to_unsigned r
      → positive fl to_unsigned r ≡ true
      → s.output ≡ some []
      → (s' : Logger fl to_unsigned) × (lines : List (Line fl to_unsigned)) × (monitor fl
            to_unsigned
            (pos (count_positive fl to_unsigned front + 1))
            volts
            begin
            (front ++ r ∷ later)
            s
          ≡ some (r.rc, s', later))
        × (s'.output ≡ some lines)
        × (map (key fl to_unsigned) lines ≡ samples fl to_unsigned (front ++ r ∷ []))
        × (length lines ≡ count_positive fl to_unsigned front + 1)
        × (s'.cumulative_energy ≡ add_energies fl to_unsigned 0 lines)
        × (monitor fl to_unsigned (pos 0) volts begin front s ≡ none)
  unfolding monitor
  monitor-Logged volts begin front r later s all fine e o =
      let n = count_positive fl to_unsigned front in
      let count = pos (n + 1) in
      let s0 : Logger fl to_unsigned = record s { cumulative_energy = 0; last_tv = begin } in
      let z : eqb_ℤ count (pos 0) ≡ false = ground arith in
      let l : count -ℤ pos 1 ≡ pos n = one_down (n + 1) (omega arith) ∙ ap pos (omega arith) in
      let (rc1, s1, q, h) =
        rounds-Logged count volts front (r ∷ later) n (pos 0) s0 [] all z (omega arith) o in
      let next = take_reading fl to_unsigned count volts r (pos 0) s1 in
      let g = take_reading-Logged fl to_unsigned count volts r (pos 0) s1 h.more fine h.output_is in
      let done_with = Logged-append fl to_unsigned [] front (r ∷ []) s0 s1 next.1 h g in
      let m : monitor_loop fl to_unsigned count volts (r ∷ later) (pos (n - n)) rc1 s1
          ≡ some (r.rc, next.1, later) =
        ap (λ k. monitor_loop fl to_unsigned count volts (r ∷ later) (pos k) rc1 s1) {x = n - n}
          {y = 0} (omega arith)
        ∙ fine_round count volts r later 0 rc1 s1 fine
        ∙ ap (λ k. monitor_loop fl to_unsigned count volts later k r.rc next.1)
            (loops_positive count volts r (pos 0) s1 fine e z)
        ∙ ends count volts later r.rc next.1 in
      (
        next.1,
        done_with.more,
        rw (monitor, z, l) (q ∙ m),
        done_with.output_is,
        done_with.keys,
        length_lines front r done_with.more all fine e done_with.keys,
        done_with.energy_is,
        unlimited volts front (pos 0) s0 all,
      )
