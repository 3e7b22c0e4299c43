-- ===== src/Util/Strings.antt =====
-- varg_tostring: the loop ends, with the whole text.
use power_pack.Prelude.{
  ℕ, zero, suc, ◌+◌, ◌-◌, ◌*◌, ◌≤◌, ◌<◌, ◌≡◌, refl, ◌∙◌, inl, inr, Bool, true, false, Option, some,
  Bytes, length, take, take_all, ltb, Outcome, done, ◌^◌, arith, Bool-cases,
}
use power_pack.Util.{vsnprintf, varg_loop, varg_tostring}

-- A block that holds the text and its NUL, of at most `most` bytes.
abbrev pub Holds : Bytes → ℕ → Option (Outcome (Option (Bytes × ℕ))) → Type 0
Holds text most r =
    (size : ℕ) × (r ≡ some (done (some (text, size)))) × (length text < size) × (size ≤ most)

varg_loop_fits :
    (f : ℕ) (enough : ℕ → Bool) (old : Bool) (text : Bytes) (size : ℕ)
    → ltb (length text) size ≡ true
    → varg_loop (suc f) enough old text size ≡ some (done (some (text, size)))
unfolding varg_loop vsnprintf
varg_loop_fits f enough old text size e =
    let t : take (size - 1) text ≡ text = take_all (size - 1) text (ground arith) in
    elim old as (λ o. varg_loop (suc f) enough o text size ≡ some (done (some (text, size)))) [
      | true ↦ rw (varg_loop, vsnprintf, e) rw (e, t) refl
      | false ↦ rw (varg_loop, vsnprintf, e, t) refl
    ]

varg_loop_old :
    (f : ℕ) (enough : ℕ → Bool) (text : Bytes) (size : ℕ)
    → ltb (length text) size ≡ false
    → size * 2 < 2 ^ 31
    → enough (size * 2) ≡ true
    → varg_loop (suc f) enough true text size ≡ varg_loop f enough true text (size * 2)
unfolding varg_loop vsnprintf
varg_loop_old f enough text size e small m =
    let t : ltb (size * 2) (2 ^ 31) ≡ true = ground arith in
    rw (varg_loop, vsnprintf, e) (rw t (rw m refl))

varg_loop_new :
    (f : ℕ) (enough : ℕ → Bool) (text : Bytes) (size : ℕ)
    → ltb (length text) size ≡ false
    → length text + 1 < 2 ^ 31
    → enough (length text + 1) ≡ true
    → varg_loop (suc f) enough false text size ≡ varg_loop f enough false text (length text + 1)
unfolding varg_loop vsnprintf
varg_loop_new f enough text size e small m =
    let t : ltb (length text + 1) (2 ^ 31) ≡ true = ground arith in
    rw (varg_loop, vsnprintf, e) (rw t (rw m refl))

varg_loop-Holds :
    (f : ℕ) (enough : ℕ → Bool) (old : Bool) (text : Bytes) (size : ℕ)
    → ((n : ℕ) → n ≤ 64 + 2 * length text → enough n ≡ true)
    → 64 + 2 * length text < 2 ^ 31
    → 1 ≤ size
    → size ≤ 64 + 2 * length text
    → length text < size + f
    → Holds text (64 + 2 * length text) (varg_loop (suc f) enough old text size)
varg_loop-Holds zero enough old text size more small h k l =
    (size, varg_loop_fits 0 enough old text size (ground arith), omega arith, k)
varg_loop-Holds (suc f) enough true text size more small h k l =
    elim (Bool-cases (ltb (length text) size)) [
      | inl e ↦ (size, varg_loop_fits (suc f) enough true text size e, ground arith, k)
      | inr e ↦
          let b : size ≤ length text = ground arith in
          let (s, q, r1, r2) =
            varg_loop-Holds f enough true text (size * 2) more small (omega arith) (omega arith)
              (omega arith) in
          (
            s,
            varg_loop_old (suc f) enough text size e (omega arith) (more (size * 2) (omega arith))
                ∙ q,
            r1,
            r2,
          )
    ]
varg_loop-Holds (suc f) enough false text size more small h k l =
    elim (Bool-cases (ltb (length text) size)) [
      | inl e ↦ (size, varg_loop_fits (suc f) enough false text size e, ground arith, k)
      | inr e ↦
          let l1 = length text + 1 in
          (
            l1,
            varg_loop_new (suc f) enough text size e (omega arith) (more l1 (omega arith))
                ∙ varg_loop_fits f enough false text l1 (ground arith),
            omega arith,
            omega arith,
          )
    ]

-- For a text whose length, doubled and 64 added, is below 2^31, and with memory for blocks of up to that size, varg_tostring ends within as many rounds as the text
-- has bytes, and one: it returns the whole text in a block that has room for its NUL and no more bytes than
-- that. This holds for both conventions of vsnprintf.
pub varg_tostring-Holds :
    (enough : ℕ → Bool) (old : Bool) (text : Bytes)
    → ((n : ℕ) → n ≤ 64 + 2 * length text → enough n ≡ true)
    → 64 + 2 * length text < 2 ^ 31
    → Holds text (64 + 2 * length text) (varg_tostring (length text + 1) enough old text)
unfolding varg_tostring
varg_tostring-Holds enough old text more small =
    let (s, q, r1, r2) =
      varg_loop-Holds (length text) enough old text 64 more small (omega arith) (omega arith)
        (omega arith) in
    let n : length text + 1 ≡ suc (length text) = omega arith in
    (s, rw (more 64 (omega arith), n) q, r1, r2)
