-- ===== src/RadioShack/Output.antt =====
-- What a cooked packet prints: its size, and the bytes of the packet that it depends on.
use power_pack.Prelude.{
  ℕ, ◌+◌, ◌≤◌, ◌≡◌, refl, Bool, true, false, [], ◌∷◌, ◌++◌, length, length-append, Bytes, arith,
  codes, if◌then◌else◌, take_all,
}
use power_pack.RadioShack.{
  Packet, raw_byte, when, digit_str, multiplier, unit_name, indicators, cook_output, cook_value,
  unpack, cook_digits, packet_cook, packet_sprint,
}

length-when :
    (b : Bool) (t r : Bytes) (n : ℕ) → length r ≤ n → length (when b t ++ r) ≤ length t + n
length-when true t r n h = omega (arith, length-append t r)
length-when false t r n h = omega arith

length-when_last : (b : Bool) (t : Bytes) → length (when b t) ≤ length t
length-when_last b t = ground arith

length-min_max :
    (b c : Bool) (r : Bytes) (n : ℕ)
    → length r ≤ n
    → length ((if b then codes " Min" else if c then codes " Max" else []) ++ r) ≤ 4 + n
length-min_max b c r n h = ground arith

module _ {F : Type 0} (p : Packet F) where
  length-digit_str : length (digit_str p) ≤ 8
  unfolding digit_str
  length-digit_str = ground arith

  length-multiplier : length (multiplier p) ≤ 1
  unfolding multiplier
  length-multiplier = ground arith

  length-unit_name : length (unit_name p) ≤ 4
  unfolding unit_name
  length-unit_name = ground arith

  pub length-indicators : length (indicators p) ≤ 50
  unfolding indicators
  length-indicators = length-when p.ac _ _ 47 (
      length-when p.rel _ _ 43 (
        length-min_max p.min p.max _ 39 (
          length-when p.beep _ _ 28 (
            length-when p.auto _ _ 17 (
              length-when p.hold _ _ 12
                (length-when p.diode _ _ 6 (length-when_last p.rs232 (codes " RS232"))))))))

  length-cook_output : length (cook_output p).output ≤ 65
  unfolding cook_output
  length-cook_output =
      let r3 : Bytes = indicators p ++ (b'\n' ∷ []) in
      let r2 : Bytes = unit_name p ++ r3 in
      let r1 : Bytes = multiplier p ++ r2 in
      omega (
        arith,
        length-append (digit_str p) (b' ' ∷ r1),
        length-append (multiplier p) r2,
        length-append (unit_name p) r3,
        length-append (indicators p) (b'\n' ∷ []),
        length-digit_str,
        length-multiplier,
        length-unit_name,
        length-indicators,
      )

-- Whatever the nine bytes, the digits and their NUL fit the ten bytes of `digit_str`, and the text and
-- its NUL take at most 66 of the 256 bytes of `output`, so `packet_sprint` into a buffer of 256 bytes
-- cuts nothing.
pub packet_cook_fits :
    {F : Type 0} (atof : Bytes → F) (p : Packet F)
    → (length (digit_str (packet_cook atof p)) + 1 ≤ 10)
      × (length (packet_cook atof p).output + 1 ≤ 66)
      × (packet_sprint (packet_cook atof p) 256 ≡ (packet_cook atof p).output)
unfolding packet_cook packet_sprint
packet_cook_fits atof p =
    let q = cook_value atof (cook_digits (unpack p)) in
    let n = length-cook_output q in
    (omega (arith, length-digit_str (cook_output q)), omega arith, take_all 255 _ (omega arith))

-- The flag bytes, the digits and the point: bytes 2 to 8 of the packet.
pub record SameDisplay {F : Type 0} (p q : Packet F) : Type 0 where
  pub byte_2 : raw_byte p.raw 1 ≡ raw_byte q.raw 1
  pub byte_3 : raw_byte p.raw 2 ≡ raw_byte q.raw 2
  pub byte_4 : raw_byte p.raw 3 ≡ raw_byte q.raw 3
  pub byte_5 : raw_byte p.raw 4 ≡ raw_byte q.raw 4
  pub byte_6 : raw_byte p.raw 5 ≡ raw_byte q.raw 5
  pub byte_7 : raw_byte p.raw 6 ≡ raw_byte q.raw 6
  pub byte_8 : raw_byte p.raw 7 ≡ raw_byte q.raw 7

-- The text and the value depend on bytes 2 to 8 alone: a wrong mode or a wrong checksum goes
-- unnoticed.
pub packet_cook_unchecked :
    {F : Type 0} (atof : Bytes → F) (p q : Packet F)
    → SameDisplay p q
    → ((packet_cook atof p).output ≡ (packet_cook atof q).output)
      × ((packet_cook atof p).value ≡ (packet_cook atof q).value)
unfolding packet_cook cook_output cook_value cook_digits unpack digit_str multiplier unit_name
    indicators
packet_cook_unchecked atof p q s = (
  rw (s.byte_2, s.byte_3, s.byte_4, s.byte_5, s.byte_6, s.byte_7, s.byte_8) refl,
  rw (s.byte_4, s.byte_5, s.byte_6, s.byte_7, s.byte_8) refl,
)
