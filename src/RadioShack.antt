-- ===== src/RadioShack.antt =====
-- old/metertools/src/mapi/rs_22812.c and rs_22812.h: the Radio Shack 22-812 multimeter, which sends
-- the segments of its display in packets of nine bytes. `packet_cook` decodes a packet and prints it.
-- The type of floats and `atof` are parameters.
pub mod Digit
pub mod Segments
pub mod Output
pub mod Driver
pub mod RoundTrip
pub mod Reads
mod Tests
use power_pack.Prelude.{
  ℕ, ◌+◌, ◌-◌, ◌%◌, Bool, false, List, [], ◌∷◌, ◌++◌, if◌then◌else◌, get_or, take, Bytes, codes,
}
use power_pack.RadioShack.Digit.{LcdDigit, bit, digit_of_byte, dark_digit, cook_digit}

-- `RS22812_PACKET`
pub record Packet (F : Type 0) : Type 0 where
  pub raw : Bytes
  pub mode : ℕ
  pub hz : Bool
  pub ohms : Bool
  pub kilo : Bool
  pub mega : Bool
  pub farads : Bool
  pub amps : Bool
  pub volts : Bool
  pub milli : Bool
  pub micro : Bool
  pub nano : Bool
  pub dbm : Bool
  pub s : Bool
  pub percent : Bool
  pub hfe : Bool
  pub rel : Bool
  pub min : Bool
  pub digit_4 : LcdDigit
  pub digit_3 : LcdDigit
  pub digit_2 : LcdDigit
  pub digit_1 : LcdDigit
  pub max : Bool
  pub beep : Bool
  pub diode : Bool
  pub bat : Bool
  pub hold : Bool
  pub neg : Bool
  pub ac : Bool
  pub rs232 : Bool
  pub auto : Bool
  pub checksum : ℕ
  pub value : F
  pub output : Bytes

-- `rs_22812_packet_new`: all bytes zero. The float is zero.
unfoldable pub packet_new : {F : Type 0} → F → Packet F
unfolding dark_digit
packet_new zero_float = record {
  raw = 0 ∷ 0 ∷ 0 ∷ 0 ∷ 0 ∷ 0 ∷ 0 ∷ 0 ∷ 0 ∷ [];
  mode = 0;
  hz = false;
  ohms = false;
  kilo = false;
  mega = false;
  farads = false;
  amps = false;
  volts = false;
  milli = false;
  micro = false;
  nano = false;
  dbm = false;
  s = false;
  percent = false;
  hfe = false;
  rel = false;
  min = false;
  digit_4 = dark_digit;
  digit_3 = dark_digit;
  digit_2 = dark_digit;
  digit_1 = dark_digit;
  max = false;
  beep = false;
  diode = false;
  bat = false;
  hold = false;
  neg = false;
  ac = false;
  rs232 = false;
  auto = false;
  checksum = 0;
  value = zero_float;
  output = [];
}

-- A byte of the raw packet; a packet is nine bytes.
abbrev pub raw_byte : Bytes → ℕ → ℕ
raw_byte raw i = get_or raw i 0

abbrev pub when : Bool → Bytes → Bytes
when b t = if b then t else []

sum_bytes : Bytes → ℕ
sum_bytes [] = 0
sum_bytes (x ∷ xs) = x + sum_bytes xs

module _ {F : Type 0} where
  -- The sign, the digits and the points, as `cook_value` and `cook_output` write them.
  unfoldable pub digit_str : Packet F → Bytes
  digit_str p =
      when p.neg (b'-' ∷ [])
      ++ (p.digit_1.digit
          ∷ (when p.digit_2.seg_pt (b'.' ∷ [])
              ++ (p.digit_2.digit
                  ∷ (when p.digit_3.seg_pt (b'.' ∷ [])
                      ++ (p.digit_3.digit
                          ∷ (when p.digit_4.seg_pt (b'.' ∷ []) ++ (p.digit_4.digit ∷ [])))))))

  -- multiplier
  unfoldable pub multiplier : Packet F → Bytes
  multiplier p =
      if p.mega
      then b'M' ∷ []
      else if p.kilo
      then b'K' ∷ []
      else if p.milli
      then b'm' ∷ []
      else if p.micro
      then b'u' ∷ []
      else if p.nano
      then b'n' ∷ []
      else []

  -- unit
  unfoldable pub unit_name : Packet F → Bytes
  unit_name p =
      if p.farads
      then b'F' ∷ []
      else if p.amps
      then b'A' ∷ []
      else if p.volts
      then b'V' ∷ []
      else if p.s
      then b'S' ∷ []
      else if p.percent
      then b'%' ∷ []
      else if p.hz
      then codes "Hz"
      else if p.dbm
      then codes "dbm"
      else if p.hfe
      then codes "hFE"
      else if p.ohms
      then codes "Ohms"
      else []

  -- other indicators
  unfoldable pub indicators : Packet F → Bytes
  indicators p =
      when p.ac (codes " AC")
      ++ (when p.rel (codes " Rel")
          ++ ((if p.min then codes " Min" else if p.max then codes " Max" else [])
              ++ (when p.beep (codes " Continuity")
                  ++ (when p.auto (codes " Auto Range")
                      ++ (when p.hold (codes " Hold")
                          ++ (when p.diode (codes " Diode") ++ when p.rs232 (codes " RS232")))))))

  -- `cook_output`. No byte written is NUL, so each `strcat` continues where `i` stopped.
  unfoldable pub cook_output : Packet F → Packet F
  cook_output p = record p {
    output =
        digit_str p ++ (b' ' ∷ (multiplier p ++ (unit_name p ++ (indicators p ++ (b'\n' ∷ [])))));
  }

  -- `cook_value`
  unfoldable pub cook_value : (Bytes → F) → Packet F → Packet F
  cook_value atof p = record p { value = atof (digit_str p) }

  -- `rs_22812_packet_cook`: bytes 1 to 9
  unfoldable pub unpack : Packet F → Packet F
  unpack p = record {
    raw = p.raw;
    mode = raw_byte p.raw 0;
    hz = bit 7 (raw_byte p.raw 1);
    ohms = bit 6 (raw_byte p.raw 1);
    kilo = bit 5 (raw_byte p.raw 1);
    mega = bit 4 (raw_byte p.raw 1);
    farads = bit 3 (raw_byte p.raw 1);
    amps = bit 2 (raw_byte p.raw 1);
    volts = bit 1 (raw_byte p.raw 1);
    milli = bit 0 (raw_byte p.raw 1);
    micro = bit 7 (raw_byte p.raw 2);
    nano = bit 6 (raw_byte p.raw 2);
    dbm = bit 5 (raw_byte p.raw 2);
    s = bit 4 (raw_byte p.raw 2);
    percent = bit 3 (raw_byte p.raw 2);
    hfe = bit 2 (raw_byte p.raw 2);
    rel = bit 1 (raw_byte p.raw 2);
    min = bit 0 (raw_byte p.raw 2);
    digit_4 = digit_of_byte (raw_byte p.raw 3);
    digit_3 = digit_of_byte (raw_byte p.raw 4);
    digit_2 = digit_of_byte (raw_byte p.raw 5);
    digit_1 = digit_of_byte (raw_byte p.raw 6);
    max = bit 3 (raw_byte p.raw 6);
    beep = bit 7 (raw_byte p.raw 7);
    diode = bit 6 (raw_byte p.raw 7);
    bat = bit 5 (raw_byte p.raw 7);
    hold = bit 4 (raw_byte p.raw 7);
    neg = bit 3 (raw_byte p.raw 7);
    ac = bit 2 (raw_byte p.raw 7);
    rs232 = bit 1 (raw_byte p.raw 7);
    auto = bit 0 (raw_byte p.raw 7);
    checksum = raw_byte p.raw 8;
    value = p.value;
    output = p.output;
  }

  unfoldable pub cook_digits : Packet F → Packet F
  cook_digits p = record p {
    digit_1 = cook_digit p.digit_1;
    digit_2 = cook_digit p.digit_2;
    digit_3 = cook_digit p.digit_3;
    digit_4 = cook_digit p.digit_4;
  }

  -- `rs_22812_packet_cook`
  unfoldable pub packet_cook : (Bytes → F) → Packet F → Packet F
  packet_cook atof p = cook_output (cook_value atof (cook_digits (unpack p)))

  -- `rs_22812_packet_read`
  unfoldable pub packet_read : Packet F → Bytes → Packet F
  packet_read p buf = record p { raw = take 9 buf }

  -- `rs_22812_packet_sprint`: the string in `buf` afterwards.
  unfoldable pub packet_sprint : Packet F → ℕ → Bytes
  packet_sprint p bufsize = take (bufsize - 1) p.output

  -- `compute_checksum`, over the eight bytes before the last
  unfoldable pub compute_checksum : Packet F → ℕ
  unfolding sum_bytes
  compute_checksum p = (sum_bytes (take 8 p.raw) + 0x57) % 0x100
