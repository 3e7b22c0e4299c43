-- ===== src/NetMeter/Convert.antt =====
-- `netmeter_convert`: which measurements are written, and with what.
use power_pack.Measure.{Mm, FloatOps}
use power_pack.NetMeter.Wire.{Request}
use power_pack.NetMeter.{reading_value, convert_loop, convert}
use power_pack.Prelude.{
  ℕ, zero, suc, ◌^◌, ◌≤◌, ◌<◌, ◌≡◌, refl, ap, ◌∙◌, true, none, some, List, [], ◌∷◌, ltb, length,
  drop, get_elem?, done, arith,
}

module _ (fl : FloatOps) (msg : Request) where
  abbrev pub converted : Mm fl.Float → ℕ → Mm fl.Float
  converted m w = record m { value = reading_value fl msg.cmd w; units = msg.units }

  -- What the loop leaves: the first `n` entries converted, the others as they were.
  pub record IsConverted (n : ℕ) (mms : List (Mm fl.Float)) (ws : List ℕ) (out : List (Mm fl.Float))
      : Type 0 where
    pub length_is : length out ≡ length mms
    pub written :
        (i : ℕ) (m : Mm fl.Float) (w : ℕ)
        → i < n
        → get_elem? mms i ≡ some m
        → get_elem? ws i ≡ some w
        → get_elem? out i ≡ some (converted m w)
    pub kept : drop n out ≡ drop n mms

  some_inj : {A : Type 0} (a b : A) → some a ≡ some b → a ≡ b
  some_inj a b h = ap (λ o. elim o [ none ↦ a | some x ↦ x ]) h

  written_cons :
      (n : ℕ) (m : Mm fl.Float) (w : ℕ) (mms : List (Mm fl.Float)) (ws : List ℕ)
      (out : List (Mm fl.Float))
      → IsConverted n mms ws out
      → (i : ℕ) (x : Mm fl.Float) (y : ℕ) → i < suc n
      → get_elem? (m ∷ mms) i ≡ some x
      → get_elem? (w ∷ ws) i ≡ some y
      → get_elem? (converted m w ∷ out) i ≡ some (converted x y)
  written_cons n m w mms ws out c zero x y h p q =
      ap some (ap (λ z. converted z w) (some_inj m x p) ∙ ap (converted x) (some_inj w y q))
  written_cons n m w mms ws out c (suc i) x y h p q = c.written i x y (omega arith) p q

  convert_loop_lem :
      (n : ℕ) (mms : List (Mm fl.Float)) (ws : List ℕ)
      → n ≤ length mms
      → n ≤ length ws
      → (out : List (Mm fl.Float)) × (convert_loop fl n msg mms ws ≡ some out)
        × IsConverted n mms ws out
  unfolding convert_loop
  convert_loop_lem zero mms ws a b = (
    mms,
    refl,
    record { length_is = refl; written = λ i m w h. absurd (omega arith); kept = refl },
  )
  convert_loop_lem (suc n) [] ws a b = absurd (omega arith)
  convert_loop_lem (suc n) (m ∷ mms) [] a b = absurd (omega arith)
  convert_loop_lem (suc n) (m ∷ mms) (w ∷ ws) a b =
      let (out, e, c) = convert_loop_lem n mms ws (omega arith) (omega arith) in
      (
        converted m w ∷ out,
        rw e refl,
        record {
          length_is = ap suc c.length_is;
          written = written_cons n m w mms ws out c;
          kept = c.kept;
        },
      )

  -- With at least as many measurements and readings as the message has channels, a channel count that is
  -- no negative int, `netmeter_convert` stays in range: it gives each of the first entries the value of
  -- its reading and the message's units, and leaves the others alone.
  pub convert-IsConverted :
      (mms : List (Mm fl.Float)) (ws : List ℕ)
      → msg.num_chs < 2 ^ 31
      → msg.num_chs ≤ length mms
      → msg.num_chs ≤ length ws
      → (out : List (Mm fl.Float)) × (convert fl (some msg) (some mms) ws ≡ done (some out))
        × IsConverted msg.num_chs mms ws out
  unfolding convert
  convert-IsConverted mms ws h a b =
      let (out, e, c) = convert_loop_lem msg.num_chs mms ws a b in
      let t : ltb msg.num_chs (2 ^ 31) ≡ true = ground arith in (out, rw (convert, t, e) refl, c)
