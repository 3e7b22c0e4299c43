-- ===== src/Meters/Read.antt =====
-- `meter_read`: what can change in the measurements, and what a failed read leads to.
use power_pack.Measure.{Mm, Parsed, invalid, unreadable, parsed}
use power_pack.Meters.{
  Driver, Meter, Select, select_error, timed_out, ready, Rc, rc_ok, rc_errno, meter_lookup, receive,
  conclude, meter_read, timeout_of,
}
use power_pack.Prelude.Int.{ℤ, pos, eqb_ℤ}
use power_pack.Prelude.{
  ℕ, ◌≡◌, ◌≢◌, refl, ◌⊎◌, inl, inr, true, false, Option, none, some, List, ◌∷◌, Bytes, arith,
  einval, Option-cases, Bool-cases,
}

abbrev pub cleared : {F : Type 0} → F → Mm F → Mm F
cleared zero_float m = record m { value = zero_float }

module _ {W F : Type 0} where
  -- A successful parse of the bytes and the count that the driver's read gives in the world `w` after `select` found
  -- data, where the read is not empty.
  pub record IsParsed (d : Driver W F) (junk : Bytes) (s : Select) (w : W) (mms : List (Mm F))
      (rc : Rc) (out : List (Mm F)) : Type 0 where
    pub found : s ≡ ready true
    pub nonempty : (d.read junk w).count ≢ pos 0
    pub parses : d.parse (some (d.read junk w).buf) (d.read junk w).count (some mms) ≡ parsed out
    pub rc_is : rc ≡ rc_ok

  -- What `select` reports, and the world then: behind the driver's query, if it has one.
  abbrev pub selected : (Option ℕ → W → W × Select) → Driver W F → ℕ → W → W × Select
  selected select d to_sec w = select (timeout_of to_sec) (elim d.query [ none ↦ w | some f ↦ f w ])

  conclude_cases :
      (w : W) (mms : List (Mm F)) (q : Parsed F)
      → ((conclude w mms q).2 ≡ mms)
        ⊎ ((q ≡ parsed (conclude w mms q).2) × ((conclude w mms q).1 ≡ rc_ok))
  unfolding conclude
  conclude_cases w mms invalid = inl refl
  conclude_cases w mms unreadable = inl refl
  conclude_cases w mms (parsed out) = inr (refl, refl)

  receive_cases :
      (m : Meter W F) (junk : Bytes) (mms : List (Mm F)) (s : Select) (w : W)
      → ((receive m junk mms s w).2 ≡ mms)
        ⊎ IsParsed m.driver junk s w mms (receive m junk mms s w).1 (receive m junk mms s w).2
  unfolding receive
  receive_cases m junk mms select_error w = inl refl
  receive_cases m junk mms timed_out w = inl refl
  receive_cases m junk mms (ready false) w = inl refl
  receive_cases m junk mms (ready true) w =
      let r = m.driver.read junk w in
      elim (Bool-cases (eqb_ℤ r.count (pos 0))) [
        | inl e ↦ inl (rw e refl)
        | inr e ↦
            elim (conclude_cases r.world mms (m.driver.parse (some r.buf) r.count (some mms))) [
              | inl k ↦ inl (rw e k)
              | inr (q, k) ↦ inr (record {
                found = refl;
                nonempty = λ z. ground arith;
                parses = rw e q;
                rc_is = rw e k;
              })
            ]
      ]

module _ {W F : Type 0} where
  receive_accepts :
      (m : Meter W F) (junk : Bytes) (mms : List (Mm F)) (s : Select) (w : W) (o : List (Mm F))
      → s ≡ ready true
      → (m.driver.read junk w).count ≢ pos 0
      → m.driver.parse (some (m.driver.read junk w).buf) (m.driver.read junk w).count (some mms)
        ≡ parsed o
      → ((receive m junk mms s w).1 ≡ rc_ok) × ((receive m junk mms s w).2 ≡ o)
  unfolding receive conclude
  receive_accepts m junk mms s w o e ne p =
      let filled : eqb_ℤ (m.driver.read junk w).count (pos 0) ≡ false = ground arith in
      rw e (rw filled (rw p (refl, refl)))

module _ {W F : Type 0} (zero_float : F) (select : Option ℕ → W → W × Select)
    (wattsup fluke189 protek506 rs22812 : Driver W F) where
  abbrev read_meter : ℤ → Bytes → Option (List (Mm F)) → W → W × Rc × Option (List (Mm F))
  read_meter = meter_read zero_float select wattsup fluke189 protek506 rs22812

  -- For a type that is not listed `meter_read` fails with EINVAL and touches nothing. For any other it
  -- sets the first value to zero, and changes nothing more unless, in the world behind the query and
  -- `select`, data is there, the driver's read of the buffer is not empty, and the driver's parser accepts the
  -- buffer and the count of that very read; then, and only then, it stores
  -- what the parser did, and succeeds. A parser that
  -- fails stores nothing, as is so for the parsers of all four drivers.
  pub meter_read_cases :
      (t : ℤ) (junk : Bytes) (m : Mm F) (ms : List (Mm F)) (w : W)
      → ((meter_lookup wattsup fluke189 protek506 rs22812 t ≡ none)
          × (meter_read zero_float select wattsup fluke189 protek506 rs22812 t junk
                (some (m ∷ ms))
                w
              ≡ (w, rc_errno einval, some (m ∷ ms))))
        ⊎ ((d : Meter W F) × (out : List (Mm F)) × (meter_lookup wattsup fluke189 protek506 rs22812
                t
              ≡ some d)
            × ((meter_read zero_float select wattsup fluke189 protek506 rs22812 t junk
                  (some (m ∷ ms))
                  w).2
                ≡ some out)
            × ((out ≡ cleared zero_float m ∷ ms)
                ⊎ IsParsed d.driver junk
                    (selected select d.driver m.to_sec w).1
                    (selected select d.driver m.to_sec w).0
                    (cleared zero_float m ∷ ms)
                    (meter_read zero_float select wattsup fluke189 protek506 rs22812 t junk
                      (some (m ∷ ms))
                      w).1
                    out)
            × ((o : List (Mm F))
                → (selected select d.driver m.to_sec w).1 ≡ ready true
                → (d.driver.read junk (selected select d.driver m.to_sec w).0).count ≢ pos 0
                → d.driver.parse
                    (some (d.driver.read junk (selected select d.driver m.to_sec w).0).buf)
                    (d.driver.read junk (selected select d.driver m.to_sec w).0).count
                    (some (cleared zero_float m ∷ ms))
                  ≡ parsed o
                → ((meter_read zero_float select wattsup fluke189 protek506 rs22812 t junk
                      (some (m ∷ ms))
                      w).1
                    ≡ rc_ok)
                  × (out ≡ o)))
  unfolding meter_read
  meter_read_cases t junk m ms w =
      elim (Option-cases (meter_lookup wattsup fluke189 protek506 rs22812 t)) [
        | inl e ↦ inl (e, rw (e, meter_read) refl)
        | inr (d, e) ↦
            let w1 : W = elim d.driver.query [ none ↦ w | some f ↦ f w ] in
            let event = select (timeout_of m.to_sec) w1 in
            inr (
              d,
              (receive d junk (cleared zero_float m ∷ ms) event.1 event.0).2,
              e,
              rw (e, meter_read) refl,
              rw (e, meter_read) (receive_cases d junk (cleared zero_float m ∷ ms) event.1 event.0),
              rw (e, meter_read)
                  (receive_accepts d junk (cleared zero_float m ∷ ms) event.1 event.0),
            )
      ]
