-- ===== src/Server/Slots.antt =====
-- multiserver.c: the search of `request_handler` for a free entry of `connection`, and the times that a
-- connection reports when it ends.
use mathlib.Core.Option.{some-injective}
use native.Mathlib.Decide.{dec_lt}
use power_pack.Prelude.{
  ℕ, zero, suc, ◌+◌, ◌-◌, ◌*◌, ◌/◌, ◌≤◌, ◌<◌, ◌≡◌, ◌≢◌, refl, sym, ◌∙◌, ◌⊎◌, inl, inr, false,
  Option, none, some, List, [], ◌∷◌, ltb, leb, ◌==◌, if◌then◌else◌, length, get_elem?,
  get_elem?-some_lt, Outcome, done, fault, arith, Option-cases,
}

-- MAXCONNS
abbrev pub max_conns : ℕ
max_conns = 100

-- Ends the search at a free entry, and goes on to `rest` otherwise.
unfoldable pub test_slot : List ℕ → ℕ → Outcome (Option ℕ) → Outcome (Option ℕ)
test_slot socks i rest = elim (get_elem? socks i) [
  | none ↦ fault
  | some sock ↦ if sock == 0 then done (some i) else rest
]

-- The search from the entry `i`, on fuel; `socks` holds the sockets, as they stand during the search. The wait for a second sets `i` to 0,
-- and the loop's `i++` makes it 1.
unfoldable pub find_slot : ℕ → ℕ → List ℕ → Outcome (Option ℕ)
find_slot zero i socks = done none
find_slot (suc k) i socks =
    let rest = find_slot k (if ltb max_conns i then 1 else suc i) socks in
    if ltb max_conns i then rest else test_slot socks i rest

get_elem?-none_mono :
    (xs : List ℕ) (i m : ℕ) → get_elem? xs i ≡ none → i ≤ m → get_elem? xs m ≡ none
get_elem?-none_mono [] i m h le = refl
get_elem?-none_mono (x ∷ xs) zero m h le = absurd (ground arith)
get_elem?-none_mono (x ∷ xs) (suc i) zero h le = absurd (omega arith)
get_elem?-none_mono (x ∷ xs) (suc i) (suc m) h le = get_elem?-none_mono xs i m h (omega arith)

-- The entry found is free and none before it, back to `i`, is.
pub record IsFirstFree (socks : List ℕ) (i j : ℕ) : Type 0 where
  pub from_i : i ≤ j
  pub in_range : j < max_conns
  pub free : get_elem? socks j ≡ some 0
  pub first : (m : ℕ) → i ≤ m → m < j → get_elem? socks m ≢ some 0

module _ (socks : List ℕ) (full : length socks ≡ max_conns) where
  abbrev Found : ℕ → ℕ → Type 0
  Found k i =
      ((j : ℕ) × (find_slot k i socks ≡ done (some j)) × IsFirstFree socks i j)
      ⊎ (((m : ℕ) → i ≤ m → get_elem? socks m ≢ some 0) × (find_slot k i socks ≡ fault))

  find_slot_step :
      (k i : ℕ)
      → i ≤ max_conns
      → find_slot (suc k) i socks ≡ test_slot socks i (find_slot k (suc i) socks)
  unfolding find_slot
  find_slot_step k i le = let t : ltb max_conns i ≡ false = ground arith in rw t refl

  later :
      (i m x : ℕ)
      → get_elem? socks i ≡ some x
      → x ≢ 0
      → i ≤ m
      → get_elem? socks m ≡ some 0
      → suc i ≤ m
  later i m x e ne le z = elim (dec_lt i m) [
    | yes h ↦ omega arith
    | no h ↦ let same : i ≡ m = omega arith in absurd (ne (some-injective _ _ (sym e ∙ rw same z)))
  ]

  taken :
      (k i x : ℕ)
      → i ≤ max_conns
      → get_elem? socks i ≡ some x
      → x ≢ 0
      → Found k (suc i)
      → Found (suc k) i
  unfolding test_slot
  taken k i x le e ne f =
      let t : (x == 0) ≡ false = ground arith in
      let step : find_slot (suc k) i socks ≡ find_slot k (suc i) socks =
        find_slot_step k i le ∙ rw (test_slot, e, t) refl in
      elim f [
        | inl (j, p, q) ↦ inl (
          j,
          step ∙ p,
          record {
            from_i = omega (arith, q.from_i);
            in_range = q.in_range;
            free = q.free;
            first = λ m a b z. q.first m (later i m x e ne a z) b z;
          },
        )
        | inr (p, q) ↦ inr (λ m a z. p m (later i m x e ne a z) z, step ∙ q)
      ]

  find_slot_from : (k i : ℕ) → i ≤ max_conns → max_conns < k + i → Found k i
  unfolding test_slot
  find_slot_from zero i le fuel = absurd (omega arith)
  find_slot_from (suc k) i le fuel = elim (Option-cases (get_elem? socks i)) [
    | inl e ↦ inr (
      (λ m a z. ground (arith, get_elem?-none_mono socks i m e a)),
      find_slot_step k i le ∙ rw (test_slot, e) refl,
    )
    | inr (zero, e) ↦ inl (
      i,
      find_slot_step k i le ∙ rw (test_slot, e) refl,
      record {
        from_i = omega arith;
        in_range = omega (arith, full, get_elem?-some_lt socks i 0 e);
        free = e;
        first = λ m a b. absurd (omega arith);
      },
    )
    | inr (suc x, e) ↦
        let lt = get_elem?-some_lt socks i (suc x) e in
        taken k i (suc x) le e (omega arith)
          (find_slot_from k (suc i) (omega (arith, full)) (omega arith))
  ]

  -- With 101 rounds the search of the full array ends: it finds the first entry that is free, or, when
  -- none is, reads the entry behind the last, so that the wait for a free entry is never reached.
  pub find_slot_lem :
      ((j : ℕ) × (find_slot 101 0 socks ≡ done (some j)) × IsFirstFree socks 0 j)
      ⊎ (((m : ℕ) → 0 ≤ m → get_elem? socks m ≢ some 0) × (find_slot 101 0 socks ≡ fault))
  find_slot_lem = find_slot_from 101 0 (omega arith) (omega arith)

-- hr, min and sec
pub record ServiceTime : Type 0 where
  pub hours : ℕ
  pub minutes : ℕ
  pub seconds : ℕ

unfoldable pub service_time : ℕ → ServiceTime
service_time sec =
    let hr = if leb 3600 sec then sec / 3600 else 0 in
    let sec1 = if leb 3600 sec then sec - hr * 3600 else sec in
    let min = if leb 60 sec1 then sec1 / 60 else 0 in
    record { hours = hr; minutes = min; seconds = if leb 60 sec1 then sec1 - min * 60 else sec1 }

-- The hours, minutes and seconds add up to the time in seconds, with fewer than 60 minutes and seconds.
pub service_time_lem :
    (sec : ℕ)
    → (3600 * (service_time sec).hours
          + 60 * (service_time sec).minutes
          + (service_time sec).seconds
        ≡ sec)
      × ((service_time sec).minutes < 60)
      × ((service_time sec).seconds < 60)
unfolding service_time
service_time_lem sec = ground arith
