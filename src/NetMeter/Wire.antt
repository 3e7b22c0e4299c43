-- ===== src/NetMeter/Wire.antt =====
-- old/metertools/src/mapi/netmeter.h: `netmeter_req_t` as bytes in memory, little endian. The offsets and
-- the size of the struct depend on the platform, since `double` is aligned to eight or to four bytes.
use power_pack.Prelude.{
  ℕ, zero, suc, ◌+◌, ◌*◌, ◌/◌, ◌%◌, ◌^◌, ◌<◌, ◌≡◌, refl, ap, ap₂, ◌∙◌, append_assoc, sym,
  drop-append_add, take-append_self, length-append, List, [], ◌∷◌, ◌++◌, get_or, length, take, drop,
  Bytes, arith,
}

pub record Layout : Type 0 where
  pub size : ℕ
  pub last_read_at : ℕ
  pub num_chs_at : ℕ
  pub units_at : ℕ
  pub rc_at : ℕ
  pub word_bits : ℕ

-- x86-64: four bytes of padding behind `cmd` and behind `rc`.
abbrev pub lp64 : Layout
lp64 = record {
  size = 32;
  last_read_at = 8;
  num_chs_at = 16;
  units_at = 20;
  rc_at = 24;
  word_bits = 64;
}

-- i386: no padding.
abbrev pub ilp32 : Layout
ilp32 = record {
  size = 24;
  last_read_at = 4;
  num_chs_at = 12;
  units_at = 16;
  rc_at = 20;
  word_bits = 32;
}

-- `netmeter_req_t`, with the double as its eight bytes and an int as its bit pattern
pub record Request : Type 0 where
  pub cmd : ℕ
  pub last_read : Bytes
  pub num_chs : ℕ
  pub units : ℕ
  pub rc : ℕ

unfoldable pub le32 : ℕ → Bytes
le32 w = (w % 256) ∷ (w / 256 % 256) ∷ (w / 65536 % 256) ∷ (w / 16777216 % 256) ∷ []

-- The word at the start of `b`, and the word at the offset `i`.
unfoldable pub first_word : Bytes → ℕ
first_word b = get_or b 0 0 + 256 * get_or b 1 0 + 65536 * get_or b 2 0 + 16777216 * get_or b 3 0

unfoldable pub word_at : Bytes → ℕ → ℕ
word_at b i = first_word (drop i b)

unfoldable pub le32_all : List ℕ → Bytes
le32_all [] = []
le32_all (w ∷ ws) = le32 w ++ le32_all ws

-- The `n` words from the start of `b`.
unfoldable pub words : ℕ → Bytes → List ℕ
words zero b = []
words (suc n) b = first_word b ∷ words n (drop 4 b)

-- The struct's bytes on x86-64; `pad` and `pad'` are what the padding happens to hold.
unfoldable pub encode_lp64 : Bytes → Bytes → Request → Bytes
encode_lp64 pad pad' r =
    le32 r.cmd
    ++ (pad ++ (r.last_read ++ (le32 r.num_chs ++ (le32 r.units ++ (le32 r.rc ++ pad')))))

unfoldable pub decode : Layout → Bytes → Request
decode l b = record {
  cmd = word_at b 0;
  last_read = take 8 (drop l.last_read_at b);
  num_chs = word_at b l.num_chs_at;
  units = word_at b l.units_at;
  rc = word_at b l.rc_at;
}

pub first_word-le32 : (w : ℕ) (rest : Bytes) → w < 2 ^ 32 → first_word (le32 w ++ rest) ≡ w
unfolding first_word le32
first_word-le32 w rest h = omega arith

drop-le32 : (w : ℕ) (rest : Bytes) → drop 4 (le32 w ++ rest) ≡ rest
unfolding le32
drop-le32 w rest = refl

length-le32 : (w : ℕ) → length (le32 w) ≡ 4
unfolding le32
length-le32 w = refl

abbrev pub AllWords : List ℕ → Type 0
AllWords [] = Unit {0}
AllWords (w ∷ ws) = (w < 2 ^ 32) × AllWords ws

pub words-le32_all :
    (ws : List ℕ) (rest : Bytes) → AllWords ws → words (length ws) (le32_all ws ++ rest) ≡ ws
unfolding words le32_all
words-le32_all [] rest h = refl
words-le32_all (w ∷ ws) rest h = rw (append_assoc (le32 w) (le32_all ws) rest) (
    ap₂ ◌∷◌ (first_word-le32 w (le32_all ws ++ rest) h.0)
      (ap (words (length ws)) (drop-le32 w (le32_all ws ++ rest)) ∙ words-le32_all ws rest h.1))

pub length-le32_all : (ws : List ℕ) → length (le32_all ws) ≡ 4 * length ws
unfolding le32_all le32
length-le32_all [] = refl
length-le32_all (w ∷ ws) = omega (arith, length-le32_all ws)

-- What a struct on the wire must satisfy for its bytes to be those of `netmeter_req_t`.
pub record Fits (pad pad' : Bytes) (r : Request) : Type 0 where
  pub pad_is : length pad ≡ 4
  pub pad'_is : length pad' ≡ 4
  pub last_read_is : length r.last_read ≡ 8
  pub cmd_fits : r.cmd < 2 ^ 32
  pub num_chs_fits : r.num_chs < 2 ^ 32
  pub units_fits : r.units < 2 ^ 32
  pub rc_fits : r.rc < 2 ^ 32

module _ (pad pad' : Bytes) (r : Request) (rest : Bytes) (f : Fits pad pad' r) where
  abbrev from_rc : Bytes
  from_rc = le32 r.rc ++ (pad' ++ rest)

  abbrev from_units : Bytes
  from_units = le32 r.units ++ from_rc

  abbrev from_num_chs : Bytes
  from_num_chs = le32 r.num_chs ++ from_units

  abbrev from_last_read : Bytes
  from_last_read = r.last_read ++ from_num_chs

  abbrev all_fields : Bytes
  all_fields = le32 r.cmd ++ (pad ++ from_last_read)

  encode_split : encode_lp64 pad pad' r ++ rest ≡ all_fields
  unfolding encode_lp64
  encode_split = simp append_assoc

  drop_8 : (k : ℕ) → drop (8 + k) all_fields ≡ drop k from_last_read
  drop_8 k =
      ap (λ n. drop n all_fields) (omega arith)
      ∙ (drop-append_add 4 (4 + k) (le32 r.cmd) (pad ++ from_last_read) (sym (length-le32 r.cmd))
          ∙ drop-append_add 4 k pad from_last_read (sym f.pad_is))

  drop_16 : (k : ℕ) → drop (16 + k) all_fields ≡ drop k from_num_chs
  drop_16 k =
      ap (λ n. drop n all_fields) (omega arith)
      ∙ (drop_8 (8 + k) ∙ drop-append_add 8 k r.last_read from_num_chs (sym f.last_read_is))

  drop_20 : (k : ℕ) → drop (20 + k) all_fields ≡ drop k from_units
  drop_20 k =
      ap (λ n. drop n all_fields) (omega arith)
      ∙ (drop_16 (4 + k)
          ∙ drop-append_add 4 k (le32 r.num_chs) from_units (sym (length-le32 r.num_chs)))

  -- Decoding the bytes of a struct, whatever follows them, gives its fields back.
  pub decode-encode_lp64 : decode lp64 (encode_lp64 pad pad' r ++ rest) ≡ r
  unfolding decode word_at
  decode-encode_lp64 = rw encode_split λ i. record {
    cmd = first_word-le32 r.cmd (pad ++ from_last_read) f.cmd_fits i;
    last_read =
        (ap (take 8) (drop_8 0) ∙ take-append_self 8 r.last_read from_num_chs (sym f.last_read_is))
          i;
    num_chs = (ap first_word (drop_16 0) ∙ first_word-le32 r.num_chs from_units f.num_chs_fits) i;
    units = (ap first_word (drop_20 0) ∙ first_word-le32 r.units from_rc f.units_fits) i;
    rc =
        (ap first_word (drop_20 4)
            ∙ (ap first_word
                  (drop-append_add 4 0 (le32 r.units) from_rc (sym (length-le32 r.units)))
                ∙ first_word-le32 r.rc (pad' ++ rest) f.rc_fits))
          i;
  }

  pub drop-encode_lp64 : drop 32 (encode_lp64 pad pad' r ++ rest) ≡ rest
  drop-encode_lp64 = rw encode_split (
      drop_20 12
      ∙ (drop-append_add 4 8 (le32 r.units) from_rc (sym (length-le32 r.units))
          ∙ (drop-append_add 4 4 (le32 r.rc) (pad' ++ rest) (sym (length-le32 r.rc))
              ∙ drop-append_add 4 0 pad' rest (sym f.pad'_is))))

pub length-encode_lp64 :
    (pad pad' : Bytes) (r : Request) → Fits pad pad' r → length (encode_lp64 pad pad' r) ≡ 32
unfolding encode_lp64 le32
length-encode_lp64 pad pad' r f = simp (length-append, f.pad_is, f.pad'_is, f.last_read_is)
