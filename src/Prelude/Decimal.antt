-- ===== src/Prelude/Decimal.antt =====
-- Numbers in decimal as the C library prints and reads them: `%d`, `%u` and their long forms, and atoi.
use power_pack.Prelude.Int.{ℤ, pos, negsuc, ◌-ℤ◌}
use power_pack.Prelude.{
  ℕ, zero, suc, ◌+◌, ◌-◌, ◌*◌, ◌/◌, ◌%◌, ◌^◌, ◌≤◌, ◌<◌, ◌≡◌, refl, ap, subst, ◌∙◌, ◌&&◌, ◌||◌, inl,
  inr, true, false, [], ◌∷◌, ◌++◌, append_assoc, append-nil, ltb, leb, ◌==◌, if◌then◌else◌, length,
  length-append, Bytes, arith, Bool-cases,
}

-- atoi: spaces, a sign, and the digits that follow.
unfoldable pub digits_value : ℕ → Bytes → ℕ
digits_value acc [] = acc
digits_value acc (x ∷ b) =
    let rest = digits_value (acc * 10 + (x - b'0')) b in
    if leb b'0' x && leb x b'9' then rest else acc

unfoldable pub atoi : Bytes → ℤ
atoi [] = pos 0
atoi (x ∷ b) =
    let rest = atoi b in
    if x == b' ' || (leb 9 x && leb x 13)
    then rest
    else if x == b'-'
    then pos 0 -ℤ pos (digits_value 0 b)
    else if x == b'+'
    then pos (digits_value 0 b)
    else pos (digits_value 0 (x ∷ b))

-- At most `f` digits of a number.
unfoldable pub digits : ℕ → ℕ → Bytes
digits zero n = []
digits (suc f) n =
    let rest = digits f (n / 10) in
    if ltb n 10 then (b'0' + n) ∷ [] else rest ++ (b'0' + n % 10) ∷ []

-- Twenty digits are enough for 64 bits.
unfoldable pub print_nat : ℕ → Bytes
print_nat n = digits 20 n

unfoldable pub print_int : ℤ → Bytes
print_int (pos n) = print_nat n
print_int (negsuc n) = b'-' ∷ print_nat (suc n)

digits_value_digit :
    (acc d : ℕ) (r : Bytes)
    → d < 10
    → digits_value acc ((b'0' + d) ∷ r) ≡ digits_value (acc * 10 + d) r
unfolding digits_value
digits_value_digit acc d r h =
    let e : (leb b'0' (b'0' + d) && leb (b'0' + d) b'9') ≡ true = ground arith in
    let v : acc * 10 + (b'0' + d - b'0') ≡ acc * 10 + d = omega arith in rw (e, v) refl

digits_value-digits :
    (f n : ℕ) (r : Bytes) → n < 10 ^ f → digits_value 0 (digits f n ++ r) ≡ digits_value n r
unfolding digits
digits_value-digits zero n r h = ap (λ m. digits_value m r) {x = 0} (omega arith)
digits_value-digits (suc f) n r h = elim (Bool-cases (ltb n 10)) [
  | inl e ↦
      rw e
        (digits_value_digit 0 n r (ground arith) ∙ ap (λ m. digits_value m r) {y = n} (omega arith))
  | inr e ↦
      let fewer : n / 10 < 10 ^ f = omega (arith, h) in
      let last : n / 10 * 10 + n % 10 ≡ n = omega arith in
      rw (e, append_assoc (digits f (n / 10)) ((b'0' + n % 10) ∷ []) r)
        (digits_value-digits f (n / 10) ((b'0' + n % 10) ∷ r) fewer
          ∙ (digits_value_digit (n / 10) (n % 10) r (omega arith)
              ∙ ap (λ m. digits_value m r) last))
]

-- A number that is printed starts with a digit.
digits_first :
    (f n : ℕ) → (x : ℕ) × (b : Bytes) × (digits (suc f) n ≡ x ∷ b) × (b'0' ≤ x) × (x ≤ b'9')
unfolding digits
digits_first zero n = elim (Bool-cases (ltb n 10)) [
  | inl e ↦ (b'0' + n, [], rw e refl, omega arith, ground arith)
  | inr e ↦ (b'0' + n % 10, [], rw e refl, omega arith, omega arith)
]
digits_first (suc k) n = elim (Bool-cases (ltb n 10)) [
  | inl e ↦ (b'0' + n, [], rw e refl, omega arith, ground arith)
  | inr e ↦
      let (x, b, q, lo, hi) = digits_first k (n / 10) in
      (x, b ++ (b'0' + n % 10) ∷ [], rw e (ap (λ s. s ++ (b'0' + n % 10) ∷ []) q), lo, hi)
]

atoi_digit : (x : ℕ) (b : Bytes) → b'0' ≤ x → x ≤ b'9' → atoi (x ∷ b) ≡ pos (digits_value 0 (x ∷ b))
unfolding atoi
atoi_digit x b lo hi =
    let a : (x == b' ' || (leb 9 x && leb x 13)) ≡ false = ground arith in
    let m : (x == b'-') ≡ false = ground arith in
    let p : (x == b'+') ≡ false = ground arith in rw (a, m, p) refl

-- What is printed for a number of 64 bits is read back.
pub atoi-print_nat :
    (n : ℕ) (r : Bytes) → n < 10 ^ 20 → atoi (print_nat n ++ r) ≡ pos (digits_value n r)
unfolding print_nat
atoi-print_nat n r h =
    let (x, b, q, lo, hi) = digits_first 19 n in
    let v : digits_value 0 (x ∷ (b ++ r)) ≡ digits_value n r =
      subst (λ s. digits_value 0 (s ++ r) ≡ digits_value n r) q (digits_value-digits 20 n r h) in
    ap (λ s. atoi (s ++ r)) q ∙ (atoi_digit x (b ++ r) lo hi ∙ ap pos v)

pub length-digits : (f n : ℕ) → length (digits f n) ≤ f
unfolding digits
length-digits zero n = omega arith
length-digits (suc f) n =
    ground
      (arith, length-digits f (n / 10), length-append (digits f (n / 10)) ((b'0' + n % 10) ∷ []))

pub length-print_nat : (n : ℕ) → length (print_nat n) ≤ 20
unfolding print_nat
length-print_nat n = length-digits 20 n

pub length-print_int : (z : ℤ) → length (print_int z) ≤ 21
unfolding print_int
length-print_int (pos n) = omega (arith, length-print_nat n)
length-print_int (negsuc n) = omega (arith, length-print_nat (suc n))

-- atoi reads back what `%d` prints, for a number of at most twenty digits.
pub atoi-print_int :
    (n : ℕ)
    → suc n < 10 ^ 20
    → (atoi (print_int (pos n)) ≡ pos n) × (atoi (print_int (negsuc n)) ≡ negsuc n)
unfolding print_int atoi print_nat digits_value ◌-ℤ◌
atoi-print_int n h =
    let v : digits_value 0 (digits 20 (suc n)) ≡ suc n =
      subst (λ s. digits_value 0 s ≡ suc n) (append-nil (digits 20 (suc n)))
        (digits_value-digits 20 (suc n) [] h) in
    (
      subst (λ s. atoi s ≡ pos n) (append-nil (print_nat n)) (atoi-print_nat n [] (omega arith)),
      rw v (ground arith),
    )
