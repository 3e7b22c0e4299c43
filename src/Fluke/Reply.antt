-- ===== src/Fluke/Reply.antt =====
-- fluke_189_read: how the two lines of a reply to QM are collected and cut.
use power_pack.Prelude.{
  ℕ, suc, ◌+◌, ◌-◌, ◌≤◌, ◌≡◌, refl, ap, sym, subst, ◌∙◌, ◌⊎◌, inl, inr, true, false, none, some,
  List, [], ◌∷◌, ◌++◌, map, append-nil, append_assoc, leb, ◌==◌, if◌then◌else◌, length,
  length-append, length-drop, get_elem?, get_elem?-append_self, get_elem?-append_add,
  take-append_add, set, set-append, take, take_all, drop, Bytes, done, fault, ReadResult, received,
  arith, Bool-cases,
}
use power_pack.Prelude.Decimal.{atoi, digits_value}
use power_pack.Prelude.Int.{pos, ◌-ℤ◌}
use power_pack.Fluke.{
  cmd_qm, max_lines, count_cr, collected, read_lines, strip_last, zero_out, copy_data, take_lines,
  read,
}

pub count_cr-append : (a b : Bytes) → count_cr (a ++ b) ≡ count_cr a + count_cr b
unfolding count_cr
count_cr-append [] b = omega arith
count_cr-append (x ∷ a) b = elim (Bool-cases (x == b'\r')) [
  | inl e ↦ rw (e, count_cr-append a b) (omega arith)
  | inr e ↦ rw (e, count_cr-append a b) refl
]

-- The chunks in which bytes arrive, none of them empty.
unfoldable pub Chunks : List Bytes → Bytes → Type 0
Chunks [] b = b ≡ []
Chunks (c ∷ cs) b = (rest : Bytes) × (1 ≤ length c) × (b ≡ c ++ rest) × Chunks cs rest

-- A number of lines: the last byte is a CR.
unfoldable pub HasLines : ℕ → Bytes → Type 0
HasLines n b = (front : Bytes) × (b ≡ front ++ b'\r' ∷ []) × (suc (count_cr front) ≡ n)

-- While bytes are missing, there are fewer lines.
count_cr-front :
    (acc rest front : Bytes)
    → acc ++ rest ≡ front ++ b'\r' ∷ []
    → 1 ≤ length rest
    → count_cr acc ≤ count_cr front
unfolding count_cr
count_cr-front acc [] front e h = absurd (omega arith)
count_cr-front [] (y ∷ rest) front e h = omega arith
count_cr-front (x ∷ acc) (y ∷ rest) [] e h =
    let n : length (acc ++ y ∷ rest) ≡ 0 = ap (λ l. length (drop 1 l)) e in
    absurd (omega (arith, n, length-append acc (y ∷ rest)))
count_cr-front (x ∷ acc) (y ∷ rest) (z ∷ front) e h =
    let t : acc ++ y ∷ rest ≡ front ++ b'\r' ∷ [] = ap (drop 1) e in
    let x1 : x ≡ z = cc e in
    let ih = count_cr-front acc (y ∷ rest) front t h in
    elim (Bool-cases (x == b'\r')) [ inl q ↦ ground arith | inr q ↦ ground arith ]

count_cr-lines : (n : ℕ) (b : Bytes) → HasLines n b → count_cr b ≡ n
unfolding HasLines count_cr
count_cr-lines n b (front, e, k) = ap count_cr e ∙ count_cr-append front (b'\r' ∷ []) ∙ omega arith

count_is : (n : ℕ) (b : Bytes) → count_cr b ≡ n → (count_cr b == n) ≡ true
count_is n b h = ground arith

count_cr-missing :
    (n : ℕ) (acc rest : Bytes)
    → HasLines n (acc ++ rest)
    → 1 ≤ length rest
    → (count_cr acc == n) ≡ false
unfolding HasLines
count_cr-missing n acc rest (front, e, k) h =
    let m = count_cr-front acc rest front e h in ground arith

pub zero_or_pos : (b : Bytes) → (b ≡ []) ⊎ (1 ≤ length b)
zero_or_pos [] = inl refl
zero_or_pos (x ∷ b) = inr (omega arith)

-- However a reply is cut into chunks, the loop ends with all of it and reads nothing behind it.
pub read_lines-Chunks :
    (len n : ℕ) (acc b : Bytes) (cs : List Bytes) (later : List ReadResult)
    → Chunks cs b
    → 1 ≤ length b
    → HasLines n (acc ++ b)
    → length (acc ++ b) ≤ len
    → read_lines len n acc (map received cs ++ later) ≡ collected (acc ++ b)
unfolding Chunks read_lines
read_lines-Chunks len n acc b [] later e h l k = absurd (omega (arith, ap length e))
read_lines-Chunks len n acc b (c ∷ cs) later (rest, g, e, next) h l k =
    let e1 : acc ++ b ≡ (acc ++ c) ++ rest = ap (λ v. acc ++ v) e ∙ sym (append_assoc acc c rest) in
    let k1 : length acc + (length c + length rest) ≤ len =
      omega (arith, ap length e1, length-append (acc ++ c) rest, length-append acc c, k) in
    let t : take (len - length acc) c ≡ c = take_all (len - length acc) c (omega arith) in
    rw t (elim (zero_or_pos rest) [
      | inl z ↦
          let q : acc ++ b ≡ acc ++ c = e1 ∙ ap (λ v. (acc ++ c) ++ v) z ∙ append-nil (acc ++ c) in
          let m : count_cr (acc ++ c) ≡ n = ap count_cr (sym q) ∙ count_cr-lines n (acc ++ b) l in
          rw (count_is n (acc ++ c) m, q) refl
      | inr z ↦
          let m = count_cr-missing n (acc ++ c) rest (subst (HasLines n) e1 l) z in
          let v : (length c == 0) ≡ false = ground arith in
          rw (m, v)
            (read_lines-Chunks len n (acc ++ c) rest cs later next z (subst (HasLines n) e1 l)
                (omega (arith, ap length e1))
              ∙ ap collected (sym e1))
    ])

strip_last-append :
    (i : ℕ) (a b : Bytes)
    → suc i ≡ length a
    → strip_last (suc i) (a ++ b'\r' ∷ b) ≡ (a ++ 0 ∷ b, suc i)
unfolding strip_last
strip_last-append i a b h =
    rw (strip_last, get_elem?-append_self (suc i) a b'\r' b h, set-append (suc i) a b'\r' 0 b h)
      refl

-- The byte behind the last CR is read, though not as part of the reply.
some_byte :
    (b out r : Bytes)
    → r ≡ out
    → elim (get_elem? b 0) [ none ↦ fault | some x ↦ done r ]
      ≡ (if leb 1 (length b) then done out else fault)
some_byte [] out r h = refl
some_byte (y ∷ b) out r h = ground arith

zero_out-append :
    (n : ℕ) (a b : Bytes)
    → n ≡ length a
    → zero_out 1 n (a ++ 0 ∷ b) ≡ (if leb 1 (length b) then done (a ++ 0 ∷ b) else fault)
unfolding zero_out
zero_out-append n a b h =
    let e : get_elem? (a ++ 0 ∷ b) (suc n) ≡ get_elem? b 0 =
      ap (get_elem? (a ++ 0 ∷ b)) {x = suc n} {y = n + 1} (omega arith)
      ∙ get_elem?-append_add n 1 a (0 ∷ b) h in
    let v = set-append n a 0 0 b h in
    rw (zero_out, get_elem?-append_self n a 0 b h, v, e)
      (some_byte b (a ++ 0 ∷ b) (set (a ++ 0 ∷ b) n 0) v)

-- The two lines of a reply to QM.
abbrev pub reply : Bytes → Bytes
reply line = b'0' ∷ b'\r' ∷ (line ++ b'\r' ∷ [])

copy_data-reply :
    (line junk buf : Bytes)
    → length line + 3 ≤ length buf
    → copy_data (length line + 3) (b'0' ∷ b'\r' ∷ (line ++ 0 ∷ junk)) buf ≡ (
        if leb 2 (length junk)
        then done (line ++ 0 ∷ (take 2 junk ++ drop (length line + 3) buf))
        else fault)
unfolding copy_data
copy_data-reply line junk buf h =
    let e : take (length line + 3) (line ++ 0 ∷ junk) ++ drop (length line + 3) buf
        ≡ line ++ 0 ∷ (take 2 junk ++ drop (length line + 3) buf) =
      ap (λ v. v ++ drop (length line + 3) buf)
        (take-append_add (length line) 3 line (0 ∷ junk) refl)
      ∙ append_assoc line (0 ∷ take 2 junk) (drop (length line + 3) buf) in
    let t1 : leb (2 + (length line + 3)) (length (b'0' ∷ b'\r' ∷ (line ++ 0 ∷ junk)))
        ≡ leb 2 (length junk) =
      ap (λ n. leb (2 + (length line + 3)) (suc (suc n))) (length-append line (0 ∷ junk))
      ∙ ground arith in
    let t2 : leb (length line + 3) (length buf) ≡ true = ground arith in rw (t1, t2, e) refl

take_lines-reply :
    (line junk buf : Bytes)
    → length line + 3 ≤ length buf
    → take_lines (length line + 3) (b'0' ∷ b'\r' ∷ (line ++ b'\r' ∷ junk)) buf ≡ (
        if leb 2 (length junk)
        then done
            (pos (length line + 1), line ++ 0 ∷ (take 2 junk ++ drop (length line + 3) buf), pos 0)
        else fault)
unfolding take_lines atoi digits_value ◌-ℤ◌
take_lines-reply line junk buf h =
    let a = b'0' ∷ b'\r' ∷ line in
    let e1 : strip_last (length line + 3 - 1) (a ++ b'\r' ∷ junk)
        ≡ (a ++ 0 ∷ junk, length line + 2) =
      ap (λ n. strip_last n (a ++ b'\r' ∷ junk)) {y = suc (suc (length line))} (omega arith)
      ∙ strip_last-append (suc (length line)) a junk refl
      ∙ ap (λ n. (a ++ 0 ∷ junk, n)) {x = suc (suc (length line))} (omega arith) in
    let e2 : (length line + 3) - (length line + 2) ≡ 1 = omega arith in
    let e3 = zero_out-append (length line + 2) a junk (omega arith) in
    let e4 = copy_data-reply line junk buf h in
    let e5 : (length line + 3 == 0) ≡ false = ground arith in
    let e6 : length line + 3 - 2 ≡ length line + 1 = omega arith in
    let e7 : leb 2 (length line + 3) ≡ true = ground arith in
    rw (e1, e2, e3) rw (e5)
      (elim (Bool-cases (leb 1 (length junk))) [
        | inl p ↦ rw p rw (e4) (elim (Bool-cases (leb 2 (length junk))) [
          | inl q ↦ rw q rw (e1, e7, e6) refl
          | inr q ↦ rw q refl
        ])
        | inr p ↦ let q : leb 2 (length junk) ≡ false = ground arith in rw (p, q) refl
      ])

-- A reply to QM, however it is cut into chunks and whatever follows it, is collected whole: the caller gets the
-- line between the two CRs with a NUL and two bytes of an array that was never set, set-append, its length plus one is
-- returned, and the status is 0. If the reply leaves fewer than two bytes of the array of the size that the
-- caller gave, an array is read out of range instead.
pub read-reply :
    (len : ℕ) (line junk buf : Bytes) (cs : List Bytes) (later : List ReadResult)
    → Chunks cs (reply line)
    → count_cr line ≡ 0
    → length junk ≡ len
    → length line + 3 ≤ len
    → len ≤ length buf
    → read cmd_qm len junk buf (map received cs ++ later) ≡ (
        if leb (length line + 5) len
        then done (
            some (
              pos (length line + 1),
              line ++ 0 ∷ (take 2 (drop (length line + 3) junk) ++ drop (length line + 3) buf),
              pos 0,
            ))
        else fault)
unfolding read max_lines HasLines count_cr
read-reply len line junk buf cs later h k j l m =
    let c : length (reply line) ≡ length line + 3 =
      omega (arith, length-append line (b'\r' ∷ [])) in
    let lines : HasLines 2 (reply line) = (b'0' ∷ b'\r' ∷ line, refl, ap (λ n. suc (suc n)) k) in
    let e1 = read_lines-Chunks len 2 [] (reply line) cs later h (omega arith) lines (omega arith) in
    let rest = drop (length line + 3) junk in
    let e3 : reply line ++ rest ≡ b'0' ∷ b'\r' ∷ (line ++ b'\r' ∷ rest) =
      ap (λ v. b'0' ∷ b'\r' ∷ v) (append_assoc line (b'\r' ∷ []) rest) in
    let e4 = take_lines-reply line rest buf (omega arith) in
    let e5 : leb 2 (length rest) ≡ leb (length line + 5) len =
      ap (leb 2) (length-drop (length line + 3) junk) ∙ ground (arith, j) in
    let e6 =
      ap (λ n. take_lines n (reply line ++ drop n junk) buf) c
      ∙ ap (λ v. take_lines (length line + 3) v buf) e3
      ∙ e4 in
    rw (read, e1, e6, e5)
      (elim (Bool-cases (leb (length line + 5) len)) [ inl q ↦ rw q refl | inr q ↦ rw q refl ])
