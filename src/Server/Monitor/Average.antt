-- ===== src/Server/Monitor/Average.antt =====
-- The averages of `statistic_nidaq_power`, and the mutex that it unlocks.
use native.Mathlib.Decide.{dec_lt}
use power_pack.Prelude.{
  ℕ, zero, suc, ◌+◌, ◌/◌, ◌%◌, ◌^◌, ◌≤◌, ◌<◌, ◌≡◌, refl, ap, ap₂, ◌∙◌, some, List, [], ◌∷◌, length,
  replicate, get_or, Outcome, done, fault, arith,
}
use power_pack.Server.Monitor.{
  Samples, add_powers, average_powers, clear_powers, add_sample, averages,
}

-- The samples in turn.
unfoldable pub add_samples : ℕ → List (List ℕ) → Samples → Outcome Samples
add_samples n [] st = done st
add_samples n (xs ∷ xss) st = elim (add_sample n xs st) [
  | fault ↦ fault
  | done st' ↦ add_samples n xss st'
]

-- The power of one channel, summed over the samples.
abbrev pub channel_sum : ℕ → List (List ℕ) → ℕ
channel_sum i [] = 0
channel_sum i (xs ∷ xss) = get_or xs i 0 + channel_sum i xss

abbrev pub AllLong : ℕ → List (List ℕ) → Type 0
AllLong n [] = Unit {0}
AllLong n (xs ∷ xss) = (n ≤ length xs) × AllLong n xss

-- What each loop does: the entries below `n` get a new value, and the others stay.
pub record IsUpdated (n : ℕ) (old new : List ℕ) (f : ℕ → ℕ) : Type 0 where
  pub length_is : length new ≡ length old
  pub below : (i : ℕ) → i < n → get_or new i 0 ≡ f i
  pub above : (i : ℕ) → n ≤ i → get_or new i 0 ≡ get_or old i 0

unchanged : (old : List ℕ) (f : ℕ → ℕ) → IsUpdated 0 old old f
unchanged old f = record {
  length_is = refl;
  below = λ i h. absurd (omega arith);
  above = λ i h. refl;
}

IsUpdated-cons :
    (n : ℕ) (y v : ℕ) (old new : List ℕ) (f : ℕ → ℕ)
    → v ≡ f 0
    → IsUpdated n old new (λ i. f (suc i))
    → IsUpdated (suc n) (y ∷ old) (v ∷ new) f
IsUpdated-cons n y v old new f e u = record {
  length_is = ap suc u.length_is;
  below = below_cons;
  above = above_cons;
}
  where
    below_cons : (i : ℕ) → i < suc n → get_or (v ∷ new) i 0 ≡ f i
    below_cons zero h = e
    below_cons (suc i) h = u.below i (omega arith)

    above_cons : (i : ℕ) → suc n ≤ i → get_or (v ∷ new) i 0 ≡ get_or (y ∷ old) i 0
    above_cons zero h = absurd (omega arith)
    above_cons (suc i) h = u.above i (omega arith)

pub add_powers_lem :
    (n : ℕ) (pwr xs : List ℕ)
    → n ≤ length pwr
    → n ≤ length xs
    → (r : List ℕ) × (add_powers n pwr xs ≡ some r)
      × IsUpdated n pwr r (λ i. (get_or pwr i 0 + get_or xs i 0) % 2 ^ 32)
unfolding add_powers
add_powers_lem zero pwr xs a b = (pwr, refl, unchanged pwr _)
add_powers_lem (suc n) [] xs a b = absurd (omega arith)
add_powers_lem (suc n) (p ∷ pwr) [] a b = absurd (omega arith)
add_powers_lem (suc n) (p ∷ pwr) (x ∷ xs) a b =
    let (r, e, u) = add_powers_lem n pwr xs (omega arith) (omega arith) in
    ((p + x) % 2 ^ 32 ∷ r, rw e refl, IsUpdated-cons n p _ pwr r _ refl u)

average_powers_lem :
    (s n : ℕ) (pwr xs : List ℕ)
    → n ≤ length pwr
    → n ≤ length xs
    → (r : List ℕ) × (average_powers s n pwr xs ≡ some r)
      × IsUpdated n xs r (λ i. get_or pwr i 0 / s)
unfolding average_powers
average_powers_lem s zero pwr xs a b = (xs, refl, unchanged xs _)
average_powers_lem s (suc n) [] xs a b = absurd (omega arith)
average_powers_lem s (suc n) (p ∷ pwr) [] a b = absurd (omega arith)
average_powers_lem s (suc n) (p ∷ pwr) (x ∷ xs) a b =
    let (r, e, u) = average_powers_lem s n pwr xs (omega arith) (omega arith) in
    (p / s ∷ r, rw e refl, IsUpdated-cons n x _ xs r _ refl u)

clear_powers_lem :
    (n : ℕ) (pwr : List ℕ)
    → n ≤ length pwr
    → (r : List ℕ) × (clear_powers n pwr ≡ some r) × IsUpdated n pwr r (λ i. 0)
unfolding clear_powers
clear_powers_lem zero pwr a = (pwr, refl, unchanged pwr _)
clear_powers_lem (suc n) [] a = absurd (omega arith)
clear_powers_lem (suc n) (p ∷ pwr) a =
    let (r, e, u) = clear_powers_lem n pwr (omega arith) in
    (0 ∷ r, rw e refl, IsUpdated-cons n p _ pwr r _ refl u)

-- What the statics hold after the samples.
pub record IsSummed (n : ℕ) (xss : List (List ℕ)) (st st' : Samples) : Type 0 where
  pub counted : st'.samples ≡ (st.samples + length xss) % 2 ^ 32
  pub length_is : length st'.pwr ≡ length st.pwr
  pub summed :
      (i : ℕ) → i < n → get_or st'.pwr i 0 ≡ (get_or st.pwr i 0 + channel_sum i xss) % 2 ^ 32
  pub others : (i : ℕ) → n ≤ i → get_or st'.pwr i 0 ≡ get_or st.pwr i 0

add_samples_lem :
    (n : ℕ) (xss : List (List ℕ)) (st : Samples)
    → n ≤ length st.pwr
    → AllLong n xss
    → st.samples < 2 ^ 32
    → ((i : ℕ) → get_or st.pwr i 0 < 2 ^ 32)
    → (st' : Samples) × (add_samples n xss st ≡ done st') × IsSummed n xss st st'
unfolding add_samples add_sample
add_samples_lem n [] st a l c w = (
  st,
  refl,
  record {
    counted = omega arith;
    length_is = refl;
    summed = λ i h. omega (arith, w i);
    others = λ i h. refl;
  },
)
add_samples_lem n (xs ∷ xss) st a l c w =
    let (r, e, u) = add_powers_lem n st.pwr xs a l.0 in
    let st1 : Samples = record { pwr = r; samples = (st.samples + 1) % 2 ^ 32 } in
    let step : add_samples n (xs ∷ xss) st ≡ add_samples n xss st1 = rw (add_samples, e) refl in
    let w1 : (i : ℕ) → get_or r i 0 < 2 ^ 32 = λ i. elim (dec_lt i n) [
      | yes h ↦ omega (arith, u.below i h)
      | no h ↦ omega (arith, u.above i (omega arith), w i)
    ] in
    let (st', e', q) =
      add_samples_lem n xss st1 (omega (arith, u.length_is)) l.1 (omega arith) w1 in
    (
      st',
      step ∙ e',
      record {
        counted = q.counted ∙ omega arith;
        length_is = q.length_is ∙ u.length_is;
        summed = λ i h. q.summed i h ∙ omega (arith, u.below i h);
        others = λ i h. q.others i h ∙ u.above i h;
      },
    )

-- The statics before the first sample.
abbrev pub fresh : Samples
fresh = record { pwr = replicate 64 0; samples = 0 }

get_or-replicate : (n i : ℕ) → get_or {A = ℕ} (replicate n 0) i 0 ≡ 0
get_or-replicate zero i = refl
get_or-replicate (suc n) zero = refl
get_or-replicate (suc n) (suc i) = get_or-replicate n i

averages_eq :
    (n : ℕ) (powers out sums : List ℕ) (st : Samples)
    → average_powers st.samples n st.pwr powers ≡ some out
    → clear_powers n st.pwr ≡ some sums
    → averages n powers st ≡ some (out, record { pwr = sums; samples = 0 })
unfolding averages
averages_eq n powers out sums st e1 e2 = rw (averages, e1) (rw e2 refl)

-- After at least one sample of at most 32 channels, the averages that `statistic_nidaq_power` computes for 32
-- channels are, for each channel sampled, the sum of its samples modulo 2 ^ 32 over their number, and 0 for
-- the channels that are not sampled; the static sums are all 0 again, and so is the count.
pub averages-add_samples :
    (n : ℕ) (xss : List (List ℕ)) (powers : List ℕ)
    → n ≤ 32
    → AllLong n xss
    → 1 ≤ length xss
    → length xss < 2 ^ 32
    → 32 ≤ length powers
    → (st : Samples) × (out : List ℕ) × (sums : List ℕ) × (add_samples n xss fresh ≡ done st)
      × (averages 32 powers st ≡ some (out, record { pwr = sums; samples = 0 }))
      × ((i : ℕ) → i < n → get_or out i 0 ≡ channel_sum i xss % 2 ^ 32 / length xss)
      × ((i : ℕ) → n ≤ i → i < 32 → get_or out i 0 ≡ 0)
      × ((i : ℕ) → get_or sums i 0 ≡ 0)
averages-add_samples n xss powers small long one many room =
    let zeros : (i : ℕ) → get_or fresh.pwr i 0 ≡ 0 = get_or-replicate 64 in
    let (st, e, q) =
      add_samples_lem n xss fresh (omega arith) long (omega arith) (λ i. omega (arith, zeros i)) in
    let enough : 32 ≤ length st.pwr = omega (arith, q.length_is) in
    let (out, e1, u) = average_powers_lem st.samples 32 st.pwr powers enough room in
    let (sums, e2, v) = clear_powers_lem 32 st.pwr enough in
    let count : st.samples ≡ length xss = omega (arith, q.counted) in
    let sum : (i : ℕ) → i < n → get_or st.pwr i 0 ≡ channel_sum i xss % 2 ^ 32 =
      λ i h. omega (arith, q.summed i h, zeros i) in
    let rest : (i : ℕ) → n ≤ i → get_or st.pwr i 0 ≡ 0 = λ i h. q.others i h ∙ zeros i in
    (
      st,
      out,
      sums,
      e,
      averages_eq 32 powers out sums st e1 e2,
      (λ i h. u.below i (omega arith) ∙ ap₂ ◌/◌ (sum i h) count),
      (λ i h k. u.below i k ∙ (ap (λ p. p / st.samples) (rest i h) ∙ ground (arith, count))),
      (λ i. elim (dec_lt i 32) [
        | yes h ↦ v.below i h
        | no h ↦ v.above i (omega arith) ∙ rest i (omega arith)
      ]),
    )
