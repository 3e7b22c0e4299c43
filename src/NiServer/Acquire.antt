-- ===== src/NiServer/Acquire.antt =====
-- What a read of the device becomes in the array of powers.
use mathlib.Core.Option.{some-injective}
use power_pack.Measure.{FloatOps}
use power_pack.NiServer.{
  NiServer, read_samples, add_readings, channel_mean, channel_means, chan_volts, milli_power,
  milli_powers, nidaq_diff_volt_to_power, every_n_callback,
}
use power_pack.Prelude.{
  ℕ, zero, suc, ◌+◌, ◌*◌, ◌≤◌, ◌<◌, ◌≡◌, refl, subst, ap, ◌∙◌, false, some, List, [], ◌∷◌, ◌++◌,
  ltb, length, get_elem?, get_or, take, drop, drop_all, append-nil, done, arith,
}

module _ {A : Type 0} where
  drop-next :
      (xs : List A) (i : ℕ)
      → i < length xs
      → (x : A) × (get_elem? xs i ≡ some x) × (drop i xs ≡ x ∷ drop (suc i) xs)
  drop-next [] i h = absurd (omega arith)
  drop-next (x ∷ xs) zero h = (x, refl, refl)
  drop-next (x ∷ xs) (suc i) h = drop-next xs i (omega arith)

module _ (fl : FloatOps) (sub : fl.Double → fl.Double → fl.Double) (decimal : ℕ → ℕ → fl.Double)
    (to_unsigned : fl.Double → ℕ) where
  open fl use {Double, add}

  -- The sum of a list, from the left.
  abbrev pub sum_from : Double → List Double → Double
  sum_from s [] = s
  sum_from s (x ∷ xs) = sum_from (add s x) xs

  add_readings_lem :
      (n at : ℕ) (array : List Double) (s : Double)
      → at + n ≤ length array
      → add_readings fl sub decimal to_unsigned n at array s
        ≡ some (sum_from s (take n (drop at array)))
  unfolding add_readings
  add_readings_lem zero at array s h = refl
  add_readings_lem (suc n) at array s h =
      let (x, e, d) = drop-next array at (omega arith) in
      rw (add_readings, e, d) (add_readings_lem n (suc at) array (add s x) (omega arith))

  -- The mean of the samples of the channel `i`, when each channel has `read` of them.
  abbrev pub mean_of : ℕ → List Double → ℕ → Double
  mean_of read array i =
      channel_mean fl sub decimal to_unsigned read
        (sum_from (decimal 0 0) (take read (drop (i * read) array)))

  channel_means_lem :
      (n i read : ℕ) (array : List Double)
      → (i + n) * read ≤ length array
      → (means : List Double) × (channel_means fl sub decimal to_unsigned n i read array
          ≡ some means)
        × (length means ≡ n)
        × ((k : ℕ) → k < n → get_elem? means k ≡ some (mean_of read array (i + k)))
  unfolding channel_means
  channel_means_lem zero i read array h = ([], refl, refl, λ k lt. absurd (omega arith))
  channel_means_lem (suc n) i read array h =
      let next : (suc i + n) * read ≤ length array =
        subst (λ m. m * read ≤ length array) {x = i + suc n} (omega arith) h in
      let room : i * read + read ≤ length array = omega arith in
      let e = add_readings_lem read (i * read) array (decimal 0 0) room in
      let (means, f, l, each) = channel_means_lem n (suc i) read array next in
      (
        mean_of read array i ∷ means,
        rw (channel_means, e) (rw f refl),
        ap suc l,
        λ k.
            elim k
              as (λ k.
                k < suc n
                → get_elem? (mean_of read array i ∷ means) k ≡ some (mean_of read array (i + k))) [
                  | zero ↦
                      λ lt. ap (λ m. some (mean_of read array m)) {x = i} {y = i + 0} (omega arith)
                  | suc k' ↦ λ lt.
                      each k' (omega arith)
                      ∙ ap (λ m. some (mean_of read array m)) {x = suc i + k'} {y = i + suc k'}
                          (omega arith)
                ],
      )

  milli_powers_lem :
      (vs ps : List Double)
      → length vs ≤ length ps
      → (ws : List ℕ) × (milli_powers fl sub decimal to_unsigned vs ps ≡ some ws)
        × (length ws ≡ length vs)
        × ((k : ℕ) (v : Double)
            → get_elem? vs k ≡ some v
            → get_elem? ws k ≡ some (milli_power fl sub decimal to_unsigned v (get_or ps k v)))
  unfolding milli_powers
  milli_powers_lem [] ps h = ([], refl, refl, λ k v e. absurd (ground arith))
  milli_powers_lem (v ∷ vs) [] h = absurd (omega arith)
  milli_powers_lem (v ∷ vs) (p ∷ ps) h =
      let (ws, e, l, each) = milli_powers_lem vs ps (omega arith) in
      let w = milli_power fl sub decimal to_unsigned v p in
      (
        w ∷ ws,
        rw (milli_powers, e) refl,
        ap suc l,
        λ k.
            elim k
              as (λ k.
                (x : Double)
                → get_elem? (v ∷ vs) k ≡ some x
                → get_elem? (w ∷ ws) k
                  ≡ some (milli_power fl sub decimal to_unsigned x (get_or (p ∷ ps) k x))) [
                    | zero ↦ λ x q.
                        ap (λ y. some (milli_power fl sub decimal to_unsigned y p))
                          (some-injective _ _ q)
                    | suc k' ↦ each k'
                  ],
      )

  -- The powers of the means take the place of all 16.
  powers_set :
      (means : List Double) (s : NiServer)
      → length means ≡ 16
      → length s.nidaq_milli_powers ≡ 16
      → (ws : List ℕ) × (nidaq_diff_volt_to_power fl sub decimal to_unsigned means s
          ≡ done record s { nidaq_milli_powers = ws })
        × (length ws ≡ 16)
        × ((k : ℕ) (v : Double)
            → get_elem? means k ≡ some v
            → get_elem? ws k
              ≡ some (
                  milli_power fl sub decimal to_unsigned v
                    (get_or (chan_volts fl sub decimal to_unsigned) k v)))
  unfolding nidaq_diff_volt_to_power chan_volts
  powers_set means s l full =
      let (ws, f, m, each) =
        milli_powers_lem means (chan_volts fl sub decimal to_unsigned) (omega arith) in
      let t : ltb (length s.nidaq_milli_powers) (length ws) ≡ false = ground arith in
      let z : ws ++ drop (length ws) s.nidaq_milli_powers ≡ ws =
        rw (drop_all (length ws) s.nidaq_milli_powers (omega arith)) (append-nil ws) in
      (
        ws,
        rw (nidaq_diff_volt_to_power, f)
            (rw t (ap {A = List ℕ} (λ p. done record s { nidaq_milli_powers = p }) z)),
        omega arith,
        each,
      )

  -- A read of the device that gives each of the 16 channels the same number of samples, in an array that holds
  -- them, sets the power of each channel: that of the mean of its own samples, or of 0 where the mean is
  -- negative, at the channel's supply voltage.
  pub every_n_callback_lem :
      (n : ℕ) (array : List Double) (s : NiServer)
      → 16 * suc n ≤ length array
      → length s.nidaq_milli_powers ≡ 16
      → (ws : List ℕ) × (every_n_callback fl sub decimal to_unsigned (read_samples (suc n) array) s
          ≡ done record s { nidaq_milli_powers = ws })
        × (length ws ≡ 16)
        × ((i : ℕ)
            → i < 16
            → get_elem? ws i
              ≡ some (
                  let v = mean_of (suc n) array i in
                  milli_power fl sub decimal to_unsigned v
                    (get_or (chan_volts fl sub decimal to_unsigned) i v)))
  unfolding every_n_callback
  every_n_callback_lem n array s room full =
      let (means, e, l, each) = channel_means_lem 16 0 (suc n) array (omega arith) in
      let (ws, f, m, powers) = powers_set means s l full in
      (
        ws,
        rw (every_n_callback, e) f,
        m,
        λ i lt. powers i (mean_of (suc n) array i) (
            each i lt ∙ ap (λ k. some (mean_of (suc n) array k)) {x = 0 + i} {y = i} (omega arith)),
      )
