-- ===== src/WattsUp/Parse.antt =====
-- `watts_up_parse`: it stays in range, and what it stores.
use power_pack.Measure.{Mm, FloatOps}
use power_pack.Prelude.Int.{negsuc}
use power_pack.Prelude.{
  ℕ, zero, suc, ◌+◌, ◌≤◌, ◌<◌, ◌≡◌, refl, ap, subst, sym, ◌∙◌, ◌⊎◌, inl, inr, true, false, none,
  some, List, [], ◌∷◌, ltb, if◌then◌else◌, length, Bytes, bytes_eq_upto, codes, done, arith,
  Bool-cases, Option-cases,
}
use power_pack.WattsUp.{
  from_hash, tokens, field, store_at, token_value, store_units, is_value, store_value, parse_loop,
  parse,
}

-- How many of the used fields stand before the field `i`.
abbrev used_below : ℕ → ℕ
used_below i =
    (if ltb 3 i then 1 else 0)
    + (if ltb 4 i then 1 else 0)
    + (if ltb 5 i then 1 else 0)
    + (if ltb 16 i then 1 else 0)

field_cases :
    (i : ℕ)
    → ((field i ≡ none) × (used_below i ≤ used_below (suc i)))
      ⊎ ((f : ℕ × ℕ) × (field i ≡ some f)
          × (used_below i < 4)
          × (suc (used_below i) ≤ used_below (suc i)))
unfolding field
field_cases i = elim (Option-cases (field i)) [
  | inl e ↦ inl (e, ground arith)
  | inr (f, e) ↦ inr (f, e, ground arith, ground arith)
]

abbrev put_at : {A : Type 0} → List A → ℕ → (A → A) → List A
put_at [] i f = []
put_at (m ∷ ms) zero f = f m ∷ ms
put_at (m ∷ ms) (suc i) f = m ∷ put_at ms i f

length-put_at : {A : Type 0} (ms : List A) (i : ℕ) (f : A → A) → length (put_at ms i f) ≡ length ms
length-put_at [] i f = refl
length-put_at (m ∷ ms) zero f = refl
length-put_at (m ∷ ms) (suc i) f = ap suc (length-put_at ms i f)

store_at-put_at :
    {A : Type 0} (ms : List A) (i : ℕ) (f : A → A)
    → i < length ms
    → store_at ms i f ≡ some (put_at ms i f)
unfolding store_at
store_at-put_at [] i f h = absurd (omega arith)
store_at-put_at (m ∷ ms) zero f h = refl
store_at-put_at (m ∷ ms) (suc i) f h = rw (store_at-put_at ms i f (omega arith)) refl

module _ (fl : FloatOps) (flag_skipped : is_value fl (fl.of_int (negsuc 1)) ≡ false) where
  abbrev pub with_units : ℕ → Mm fl.Float → Mm fl.Float
  with_units u m = record m { units = u }

  abbrev pub with_value : fl.Double → Mm fl.Float → Mm fl.Float
  with_value v m = record m { value = fl.narrow v }

  -- One round of the loop: on a field that is not used, on a value that is stored, and on one that is not.
  round_skip :
      (i p : ℕ) (t : Bytes) (ts : List Bytes) (mm : List (Mm fl.Float))
      → field i ≡ none
      → parse_loop fl i p (t ∷ ts) mm ≡ parse_loop fl (suc i) p ts mm
  unfolding parse_loop store_units store_value token_value
  round_skip i p t ts mm e =
      let v : token_value fl i t ≡ fl.of_int (negsuc 1) = rw (token_value, e) refl in
      let u : store_units fl i p mm ≡ some mm = rw (store_units, e) refl in
      let w : store_value fl (token_value fl i t) p mm ≡ some mm =
        rw (v, store_value, flag_skipped) refl in
      rw (parse_loop, u) (rw w (rw (v, flag_skipped) refl))

  round_low :
      (i p : ℕ) (t : Bytes) (ts : List Bytes) (mm : List (Mm fl.Float)) (f : ℕ × ℕ)
      → field i ≡ some f
      → p < length mm
      → is_value fl (token_value fl i t) ≡ false
      → parse_loop fl i p (t ∷ ts) mm ≡ parse_loop fl (suc i) p ts (put_at mm p (with_units f.0))
  unfolding parse_loop store_units store_value token_value
  round_low i p t ts mm f e h low =
      let mm1 = put_at mm p (with_units f.0) in
      let u : store_units fl i p mm ≡ some mm1 =
        rw (store_units, e) (store_at-put_at mm p (with_units f.0) h) in
      let w : store_value fl (token_value fl i t) p mm1 ≡ some mm1 = rw (store_value, low) refl in
      rw (parse_loop, u) (rw w (rw low refl))

  round_store :
      (i p : ℕ) (t : Bytes) (ts : List Bytes) (mm : List (Mm fl.Float)) (f : ℕ × ℕ)
      → field i ≡ some f
      → p < length mm
      → is_value fl (token_value fl i t) ≡ true
      → parse_loop fl i p (t ∷ ts) mm
        ≡ parse_loop fl
            (suc i)
            (suc p)
            ts
            (put_at (put_at mm p (with_units f.0)) p (with_value (token_value fl i t)))
  unfolding parse_loop store_units store_value token_value
  round_store i p t ts mm f e h high =
      let mm1 = put_at mm p (with_units f.0) in
      let v = token_value fl i t in
      let u : store_units fl i p mm ≡ some mm1 =
        rw (store_units, e) (store_at-put_at mm p (with_units f.0) h) in
      let l : p < length mm1 = omega (arith, length-put_at mm p (with_units f.0)) in
      let w : store_value fl v p mm1 ≡ some (put_at mm1 p (with_value v)) =
        rw (store_value, high) (store_at-put_at mm1 p (with_value v) l) in
      rw (parse_loop, u) (rw w (rw high refl))

  abbrev StaysInside : ℕ → ℕ → List Bytes → List (Mm fl.Float) → Type 0
  StaysInside i p ts mm =
      (out : List (Mm fl.Float)) × (parse_loop fl i p ts mm ≡ some out) × (length out ≡ length mm)

  parse_loop_in_range :
      (i p : ℕ) (ts : List Bytes) (mm : List (Mm fl.Float))
      → p ≤ used_below i
      → 4 ≤ length mm
      → StaysInside i p ts mm
  unfolding parse_loop
  parse_loop_in_range i p [] mm h room = (mm, refl, refl)
  parse_loop_in_range i p (t ∷ ts) mm h room = elim (field_cases i) [
    | inl (e, k) ↦
        let (out, q, l) = parse_loop_in_range (suc i) p ts mm (omega arith) room in
        (out, round_skip i p t ts mm e ∙ q, l)
    | inr (f, e, k, n) ↦
        let mm1 = put_at mm p (with_units f.0) in
        let l1 = length-put_at mm p (with_units f.0) in
        elim (Bool-cases (is_value fl (token_value fl i t))) [
          | inl b ↦
              let l2 = length-put_at mm1 p (with_value (token_value fl i t)) in
              let (out, q, l) =
                parse_loop_in_range (suc i) (suc p) ts
                  (put_at mm1 p (with_value (token_value fl i t))) (omega arith) (omega arith) in
              (out, round_store i p t ts mm f e (omega arith) b ∙ q, omega arith)
          | inr b ↦
              let (out, q, l) = parse_loop_in_range (suc i) p ts mm1 (omega arith) (omega arith) in
              (out, round_low i p t ts mm f e (omega arith) b ∙ q, omega arith)
        ]
  ]

  -- The values of the fields that are used, in order, from the field `i` on.
  abbrev pub readings : ℕ → List Bytes → List (ℕ × fl.Double)
  readings i [] = []
  readings i (t ∷ ts) = elim (field i) [
    | none ↦ readings (suc i) ts
    | some f ↦ (f.0, token_value fl i t) ∷ readings (suc i) ts
  ]

  abbrev pub AllValues : List (ℕ × fl.Double) → Type 0
  AllValues [] = Unit {0}
  AllValues (r ∷ rs) = (is_value fl r.1 ≡ true) × AllValues rs

  -- Those values and units over the entries from `p` on.
  abbrev pub overlay : ℕ → List (ℕ × fl.Double) → List (Mm fl.Float) → List (Mm fl.Float)
  overlay p rs [] = []
  overlay zero [] (m ∷ ms) = m ∷ ms
  overlay zero (r ∷ rs) (m ∷ ms) =
      record m { value = fl.narrow r.1; units = r.0 } ∷ overlay zero rs ms
  overlay (suc p) rs (m ∷ ms) = m ∷ overlay p rs ms

  pub overlay_none : (p : ℕ) (mm : List (Mm fl.Float)) → overlay p [] mm ≡ mm
  overlay_none zero [] = refl
  overlay_none (suc p) [] = refl
  overlay_none zero (m ∷ ms) = refl
  overlay_none (suc p) (m ∷ ms) = ap (◌∷◌ m) (overlay_none p ms)

  overlay-put_at :
      (p u : ℕ) (v : fl.Double) (rs : List (ℕ × fl.Double)) (mm : List (Mm fl.Float))
      → overlay (suc p) rs (put_at (put_at mm p (with_units u)) p (with_value v))
        ≡ overlay p ((u, v) ∷ rs) mm
  overlay-put_at zero u v rs [] = refl
  overlay-put_at (suc p) u v rs [] = refl
  overlay-put_at zero u v rs (m ∷ ms) = refl
  overlay-put_at (suc p) u v rs (m ∷ ms) = ap (◌∷◌ m) (overlay-put_at p u v rs ms)

  parse_loop-overlay :
      (i p : ℕ) (ts : List Bytes) (mm : List (Mm fl.Float))
      → p ≤ used_below i
      → 4 ≤ length mm
      → AllValues (readings i ts)
      → parse_loop fl i p ts mm ≡ some (overlay p (readings i ts) mm)
  unfolding parse_loop
  parse_loop-overlay i p [] mm h room all = ap some (sym (overlay_none p mm))
  parse_loop-overlay i p (t ∷ ts) mm h room all = elim (field_cases i) [
    | inl (e, k) ↦
        let there : p ≤ used_below (suc i) = omega arith in
        let r : readings i (t ∷ ts) ≡ readings (suc i) ts = rw (readings, e) refl in
        round_skip i p t ts mm e
        ∙ (parse_loop-overlay (suc i) p ts mm there room (subst AllValues r all)
            ∙ ap (λ q. some (overlay p q mm)) (sym r))
    | inr (f, e, k, n) ↦
        let v = token_value fl i t in
        let here : p < length mm = omega arith in
        let there : suc p ≤ used_below (suc i) = omega arith in
        let still : 4 ≤ length (put_at (put_at mm p (with_units f.0)) p (with_value v)) = omega (
          arith,
          length-put_at mm p (with_units f.0),
          length-put_at (put_at mm p (with_units f.0)) p (with_value v),
        ) in
        let r : readings i (t ∷ ts) ≡ (f.0, v) ∷ readings (suc i) ts = rw (readings, e) refl in
        let b = subst AllValues r all in
        let mm2 = put_at (put_at mm p (with_units f.0)) p (with_value v) in
        round_store i p t ts mm f e here b.0
        ∙ (parse_loop-overlay (suc i) (suc p) ts mm2 there still b.1
            ∙ (ap some (overlay-put_at p f.0 v (readings (suc i) ts) mm)
                ∙ ap (λ q. some (overlay p q mm)) (sym r)))
  ]

  -- When there are four measurements and every field of a data record that is used has a value above -1, they become those values
  -- with their units, in order from the first entry; other entries and all timeouts stay.
  pub parse-overlay :
      (buf p : Bytes) (mm : List (Mm fl.Float))
      → from_hash buf ≡ some p
      → bytes_eq_upto 3 p (codes "#d,") ≡ true
      → 4 ≤ length mm
      → AllValues (readings 0 (tokens p))
      → parse fl (some buf) (some mm) ≡ done (some (overlay 0 (readings 0 (tokens p)) mm))
  unfolding parse
  parse-overlay buf p mm e b room all =
      let q = parse_loop-overlay 0 0 (tokens p) mm (omega arith) room all in
      rw (parse, e) (rw b (rw q refl))

  -- With room for four measurements `watts_up_parse` stays in range for every buffer, and keeps their number.
  pub parse_in_range :
      (buf : Bytes) (mm : List (Mm fl.Float))
      → 4 ≤ length mm
      → (parse fl (some buf) (some mm) ≡ done none)
        ⊎ ((out : List (Mm fl.Float)) × (parse fl (some buf) (some mm) ≡ done (some out))
            × (length out ≡ length mm))
  unfolding parse
  parse_in_range buf mm room = elim (Option-cases (from_hash buf)) [
    | inl e ↦ inl (rw (parse, e) refl)
    | inr (p, e) ↦ elim (Bool-cases (bytes_eq_upto 3 p (codes "#d,"))) [
      | inr b ↦ inl (rw (parse, e) (rw b refl))
      | inl b ↦
          let (out, q, l) = parse_loop_in_range 0 0 (tokens p) mm (omega arith) room in
          inr (out, rw (parse, e) (rw b (rw q refl)), l)
    ]
  ]
