-- ===== src/RadioShack/Segments.antt =====
-- The seven-segment decoder: which bytes of a packet show which character.
use power_pack.Prelude.{
  ℕ, ◌+◌, ◌*◌, ◌/◌, ◌%◌, ◌<◌, ◌≡◌, ◌≢◌, refl, sym, ap, ◌∙◌, Bool, true, ◌||◌, List, [], ◌∷◌, ◌==◌,
  if◌then◌else◌, arith, all_below, all_below_sound, ◌↔◌,
}
use power_pack.RadioShack.Digit.{segtab, find_segments, segments_of, cook_digit, digit_of_byte}

-- The byte without its bit 3, which is the point and no segment.
abbrev pub without_point : ℕ → ℕ
without_point x = x / 16 * 16 + x % 8

-- The segments that the bit fields collect are the byte that was received, less the point.
pub segments_of-digit_of_byte : (x : ℕ) → x < 256 → segments_of (digit_of_byte x) ≡ without_point x
unfolding segments_of digit_of_byte
segments_of-digit_of_byte x h = ground arith

-- The character of a received byte.
abbrev pub shown : ℕ → ℕ
shown x = (cook_digit (digit_of_byte x)).digit

-- The segments that show a character: the inverse of `segtab`.
abbrev find_char : ℕ → List (ℕ × ℕ) → ℕ
find_char c [] = 0
find_char c ((seg, chr) ∷ rest) = if c == chr then seg else find_char c rest

abbrev decodes_back : ℕ → Bool
decodes_back x = find_segments x segtab == b'?' || find_char (find_segments x segtab) segtab == x

segtab_table : all_below 256 decodes_back ≡ true
unfolding find_segments
segtab_table = refl

find_char-find_segments :
    (x : ℕ)
    → x < 256
    → find_segments x segtab ≢ b'?'
    → find_char (find_segments x segtab) segtab ≡ x
find_char-find_segments x h ne = ground (arith, all_below_sound 256 decodes_back x segtab_table h)

shown-find : (x : ℕ) → x < 256 → shown x ≡ find_segments (without_point x) segtab
unfolding cook_digit
shown-find x h = ap (λ s. find_segments s segtab) (segments_of-digit_of_byte x h)

-- Two received bytes show the same character, where it is not the default '?', exactly when they have
-- the same segments, whatever their points.
pub shown_iff :
    (a b : ℕ)
    → a < 256
    → b < 256
    → shown a ≢ b'?'
    → (shown a ≡ shown b) ↔ (without_point a ≡ without_point b)
shown_iff a b ha hb ne =
    let fa = shown-find a ha in
    let fb = shown-find b hb in
    (
      λ e.
          sym (find_char-find_segments (without_point a) (omega arith) (λ q. ne (fa ∙ q)))
          ∙ (ap (λ c. find_char c segtab) (sym fa ∙ (e ∙ fb))
              ∙ find_char-find_segments (without_point b) (omega arith) (λ q. ne (e ∙ (fb ∙ q)))),
      λ e. fa ∙ (ap (λ s. find_segments s segtab) e ∙ sym fb),
    )
