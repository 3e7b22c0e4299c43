-- ===== src/RadioShack/RoundTrip.antt =====
-- Parsing the text that the driver prints for a packet.
use power_pack.Prelude.{
  ◌≡◌, ◌≢◌, refl, sym, ap, ◌∙◌, Bool, true, false, not, ◌&&◌, Option, some, List, [], ◌∷◌, ◌++◌,
  if◌then◌else◌, Bytes, is_space, skip_spaces, codes, arith, append_assoc, append-nil,
}
use power_pack.Measure.{Mm, parsed}
use power_pack.RadioShack.Driver.{first_word, amps_units, scan_reading, parse}
use power_pack.RadioShack.Output.{packet_cook_fits}
use power_pack.RadioShack.{
  Packet, when, digit_str, multiplier, unit_name, indicators, cook_output, cook_value, cook_digits,
  unpack, packet_cook, packet_sprint,
}

abbrev no_space : Bytes → Bool
no_space [] = true
no_space (c ∷ cs) = not (is_space c) && no_space cs

no_space-append : (u w : Bytes) → no_space u ≡ true → no_space w ≡ true → no_space (u ++ w) ≡ true
no_space-append [] w hu hw = hw
no_space-append (c ∷ u) w hu hw = ground (arith, no_space-append u w)

first_word-append : (w r : Bytes) → no_space w ≡ true → first_word (w ++ r) ≡ w ++ first_word r
unfolding first_word
first_word-append [] r h = refl
first_word-append (c ∷ w) r h = ground (arith, first_word-append w r)

skip_spaces-append : (w r : Bytes) → no_space w ≡ true → w ≢ [] → skip_spaces (w ++ r) ≡ w ++ r
unfolding skip_spaces
skip_spaces-append [] r h ne = absurd (ne refl)
skip_spaces-append (c ∷ w) r h ne = ground arith

abbrev starts_space : Bytes → Bool
starts_space [] = true
starts_space (c ∷ cs) = is_space c

starts_space-when :
    (b : Bool) (t r : Bytes) → starts_space r ≡ true → starts_space (when b (b' ' ∷ t) ++ r) ≡ true
starts_space-when true t r h = refl
starts_space-when false t r h = h

starts_space-when_last : (b : Bool) (t : Bytes) → starts_space (when b (b' ' ∷ t)) ≡ true
starts_space-when_last b t = ground arith

starts_space-min_max :
    (b c : Bool) (r : Bytes)
    → starts_space r ≡ true
    → starts_space ((if b then codes " Min" else if c then codes " Max" else []) ++ r) ≡ true
starts_space-min_max b c r h = ground arith

first_word_line_end : (r : Bytes) → starts_space r ≡ true → first_word (r ++ (b'\n' ∷ [])) ≡ []
unfolding first_word
first_word_line_end [] h = refl
first_word_line_end (c ∷ cs) h = ground arith

module _ {F : Type 0} (p : Packet F) where
  starts_space-indicators : starts_space (indicators p) ≡ true
  unfolding indicators
  starts_space-indicators = starts_space-when p.ac _ _ (
      starts_space-when p.rel _ _ (
        starts_space-min_max p.min p.max _ (
          starts_space-when p.beep _ _ (
            starts_space-when p.auto _ _ (
              starts_space-when p.hold _ _
                (starts_space-when p.diode _ _ (starts_space-when_last p.rs232 _)))))))

  no_space-multiplier : no_space (multiplier p) ≡ true
  unfolding multiplier
  no_space-multiplier = ground arith

  no_space-unit_name : no_space (unit_name p) ≡ true
  unfolding unit_name
  no_space-unit_name = ground arith

  -- The flags with which the unit reads "A" alone.
  pub plain_amps : Bool
  plain_amps =
      not p.mega && not p.kilo && not p.milli && not p.micro && not p.nano && not p.farads && p.amps

  amps_units_word : amps_units (multiplier p ++ unit_name p) ≡ (if plain_amps then 4 else 0)
  unfolding multiplier unit_name plain_amps
  amps_units_word = ground arith

  abbrev word : Bytes
  word = multiplier p ++ unit_name p

  no_space-word : no_space word ≡ true
  no_space-word =
      no_space-append (multiplier p) (unit_name p) no_space-multiplier no_space-unit_name

  abbrev ending : Bytes
  ending = indicators p ++ (b'\n' ∷ [])

  -- `%s` takes the multiplier and the unit.
  scanned_word : word ≢ [] → first_word (skip_spaces (b' ' ∷ (word ++ ending))) ≡ word
  unfolding skip_spaces
  scanned_word ne =
      ap first_word (skip_spaces-append word ending no_space-word ne)
      ∙ (first_word-append word ending no_space-word
          ∙ (ap (λ r. word ++ r) (first_word_line_end (indicators p) starts_space-indicators)
              ∙ append-nil word))

  output_split : (cook_output p).output ≡ digit_str p ++ (b' ' ∷ (word ++ ending))
  unfolding cook_output
  output_split =
      ap (λ r. digit_str p ++ (b' ' ∷ r)) (sym (append_assoc (multiplier p) (unit_name p) ending))

scan_reading-some :
    {F : Type 0} (scan_float : Bytes → Option (F × Bytes)) (buf rest w : Bytes) (v : F)
    → scan_float buf ≡ some (v, rest)
    → first_word (skip_spaces rest) ≡ w
    → w ≢ []
    → scan_reading scan_float buf ≡ some (v, w)
unfolding scan_reading
scan_reading-some scan_float buf rest [] v e f ne = absurd (ne refl)
scan_reading-some scan_float buf rest (c ∷ w) v e f ne = ground (arith, e, f)

module _ {F : Type 0} (atof : Bytes → F) (p : Packet F) where
  -- The packet that `rs_22812_read` prints.
  abbrev pub cooked : Packet F
  cooked = packet_cook atof p

  printed : packet_sprint cooked 256 ≡ digit_str cooked ++ (b' ' ∷ (word cooked ++ ending cooked))
  printed = (packet_cook_fits atof p).2 ∙ split
    where
      split : cooked.output ≡ digit_str cooked ++ (b' ' ∷ (word cooked ++ ending cooked))
      split =
          unfold packet_cook cook_output digit_str multiplier unit_name indicators in
          output_split (cook_value atof (cook_digits (unpack p)))

  pub value_is : cooked.value ≡ atof (digit_str cooked)
  unfolding packet_cook cook_output cook_value digit_str
  value_is = refl

-- Reading back what is printed for a packet gives the packet's value. It is labelled as amperes
-- exactly when the unit is "A" with no multiplier: a reading in mA or in any other unit has no unit
-- flag at all. The hypotheses: the display shows a unit, and `%f` reads the digits that are followed
-- by a blank as `atof` does.
pub parse-packet_sprint :
    {F : Type 0} (atof : Bytes → F) (scan_float : Bytes → Option (F × Bytes)) (p : Packet F)
    (m : Mm F) (mms : List (Mm F))
    → multiplier (cooked atof p) ++ unit_name (cooked atof p) ≢ []
    → ((rest : Bytes)
        → scan_float (digit_str (cooked atof p) ++ (b' ' ∷ rest))
          ≡ some (atof (digit_str (cooked atof p)), b' ' ∷ rest))
    → parse scan_float (some (packet_sprint (cooked atof p) 256)) (some (m ∷ mms))
      ≡ parsed (
          record m {
            value = (cooked atof p).value;
            units = if plain_amps (cooked atof p) then 4 else 0;
          }
          ∷ mms)
unfolding parse
parse-packet_sprint atof scan_float p m mms ne scans =
    let q = cooked atof p in
    let s : scan_reading scan_float (packet_sprint q 256) ≡ some (atof (digit_str q), word q) =
      rw (printed atof p) (
        scan_reading-some scan_float _ (b' ' ∷ (word q ++ ending q)) (word q) (atof (digit_str q))
          (scans (word q ++ ending q)) (scanned_word q ne) ne) in
    rw (parse, s, amps_units_word q, ← value_is atof p) refl
