-- ===== src/RadioShack/Digit.antt =====
-- old/metertools/src/mapi/rs_22812.c and rs_22812.h: one digit of the display, as a seven-segment
-- pattern with a point. A bit of a bit field is a Bool: the code only ever tests one for zero.
use power_pack.Prelude.{ℕ, ◌+◌, ◌/◌, ◌%◌, ◌^◌, Bool, false, List, [], ◌∷◌, ◌==◌, if◌then◌else◌}

-- BIT0 to BIT7
abbrev pub bit : ℕ → ℕ → Bool
bit k x = (x / 2 ^ k) % 2 == 1

-- `LCD_DIGIT`
pub record LcdDigit : Type 0 where
  pub seg_d : Bool
  pub seg_c : Bool
  pub seg_g : Bool
  pub seg_b : Bool
  pub seg_pt : Bool
  pub seg_e : Bool
  pub seg_f : Bool
  pub seg_a : Bool
  pub digit : ℕ

-- `segtab`
abbrev pub segtab : List (ℕ × ℕ)
segtab =
    (0x00, b' ')
    ∷ (0x20, b'-')
    ∷ (0xd7, b'0')
    ∷ (0x50, b'1')
    ∷ (0xb5, b'2')
    ∷ (0xf1, b'3')
    ∷ (0x72, b'4')
    ∷ (0xe3, b'5')
    ∷ (0xe7, b'6')
    ∷ (0x51, b'7')
    ∷ (0xf7, b'8')
    ∷ (0xf3, b'9')
    ∷ (0x87, b'C')
    ∷ (0xa7, b'E')
    ∷ (0x27, b'F')
    ∷ (0x66, b'h')
    ∷ (0x64, b'n')
    ∷ (0x37, b'P')
    ∷ (0x24, b'r')
    ∷ (0xa6, b't')
    ∷ []

-- The search of `cook_digit`: the first entry with these segments, or the default character.
unfoldable pub find_segments : ℕ → List (ℕ × ℕ) → ℕ
find_segments segments [] = b'?'
find_segments segments ((seg, chr) ∷ rest) =
    if segments == seg then chr else find_segments segments rest

abbrev weight : Bool → ℕ → ℕ
weight b w = if b then w else 0

-- The `|=` of `cook_digit`: the weights are distinct bits, so the union is the sum.
unfoldable pub segments_of : LcdDigit → ℕ
segments_of d =
    weight d.seg_d 0x80
    + weight d.seg_c 0x40
    + weight d.seg_g 0x20
    + weight d.seg_b 0x10
    + weight d.seg_e 0x04
    + weight d.seg_f 0x02
    + weight d.seg_a 0x01

unfoldable pub cook_digit : LcdDigit → LcdDigit
cook_digit d = record d { digit = find_segments (segments_of d) segtab }

-- One of the bytes 4 to 7 of `rs_22812_packet_cook`, before its digit is looked up.
unfoldable pub digit_of_byte : ℕ → LcdDigit
digit_of_byte x = record {
  seg_d = bit 7 x;
  seg_c = bit 6 x;
  seg_g = bit 5 x;
  seg_b = bit 4 x;
  seg_pt = bit 3 x;
  seg_e = bit 2 x;
  seg_f = bit 1 x;
  seg_a = bit 0 x;
  digit = 0;
}

-- A digit of a packet that has been cleared.
unfoldable pub dark_digit : LcdDigit
dark_digit = record {
  seg_d = false;
  seg_c = false;
  seg_g = false;
  seg_b = false;
  seg_pt = false;
  seg_e = false;
  seg_f = false;
  seg_a = false;
  digit = 0;
}
