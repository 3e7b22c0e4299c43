-- ===== src/WattsUp/Line/Chunked.antt =====
-- watts_up_read: a record that arrives in chunks.
use power_pack.Fluke.Reply.{Chunks, zero_or_pos}
use power_pack.Prelude.{
  ℕ, zero, suc, ◌+◌, ◌-◌, ◌≤◌, ◌<◌, ◌≡◌, refl, ap, sym, subst, ap₂, ◌∙◌, inl, inr, true, false,
  some, List, [], ◌∷◌, ◌++◌, map, append-nil, append_assoc, leb, ltb, length, length-append,
  length-replicate, take, take_all, take-append_self, drop, drop-append_add, set, set-append,
  replicate, Bytes, strchr, Plain, strchr-end, strchr-zero, strlen-append, Outcome, done,
  ReadResult, received, arith,
}
use power_pack.WattsUp.Line.{
  Search, found, put, check_end, read_record, skip_to_hash, copy_string, read_line,
}

zeros : {a b : ℕ} → a ≡ b → replicate {A = ℕ} a 0 ≡ replicate b 0
zeros h = ap (λ m. replicate m 0) h

drop-replicate : (n k : ℕ) → drop {A = ℕ} n (replicate k 0) ≡ replicate (k - n) 0
drop-replicate zero k = zeros (omega arith)
drop-replicate (suc n) zero = zeros {a = 0} (omega arith)
drop-replicate (suc n) (suc k) = drop-replicate n k ∙ zeros (omega arith)

put-zeros :
    (acc b : Bytes) (k : ℕ)
    → put (length acc) (acc ++ replicate k 0) b ≡ (acc ++ b) ++ replicate (k - length b) 0
unfolding put
put-zeros acc b k =
    ap₂ (λ x y. x ++ (b ++ y)) (take-append_self (length acc) acc (replicate k 0) refl)
      (drop-append_add (length acc) (length b) acc (replicate k 0) refl
        ∙ drop-replicate (length b) k)
    ∙ sym (append_assoc acc b (replicate (k - length b) 0))

split_last :
    (c rest b : Bytes) (y : ℕ)
    → c ++ rest ≡ b ++ y ∷ []
    → 1 ≤ length rest
    → (r : Bytes) × (rest ≡ r ++ y ∷ []) × (b ≡ c ++ r)
split_last [] rest b y e h = (b, e, refl)
split_last (x ∷ c) rest [] y e h =
    let n : length (c ++ rest) ≡ 0 = ap (λ l. length (drop 1 l)) e in
    absurd (omega (arith, n, length-append c rest))
split_last (x ∷ c) rest (z ∷ b) y e h =
    let x1 : x ≡ z = cc e in
    let (r, e1, e2) = split_last c rest b y (ap (drop 1) e) h in (r, e1, ap₂ ◌∷◌ (sym x1) e2)

Plain-front : (t : ℕ) (a b : Bytes) → Plain t (a ++ b) → Plain t a
unfolding Plain
Plain-front t [] b h = tt
Plain-front t (x ∷ a) b (p, q, h) = (p, q, Plain-front t a b h)

-- One read that fits.
read_record-received :
    (acc c : Bytes) (k : ℕ) (rs : List ReadResult)
    → length c ≤ k
    → (let tmp = (acc ++ c) ++ replicate (k - length c) 0 in
        read_record (length acc) (acc ++ replicate k 0) (received c ∷ rs)
        ≡ check_end tmp (length (acc ++ c)) (read_record (length (acc ++ c)) tmp rs))
unfolding read_record
read_record-received acc c k rs h =
    let tmp : Bytes = acc ++ replicate k 0 in
    let n : length tmp ≡ length acc + k =
      length-append acc (replicate k 0) ∙ ap (λ m. length acc + m) (length-replicate k 0) in
    let t : take (length tmp - length acc) c ≡ c =
      take_all (length tmp - length acc) c (omega arith) in
    ap
      (λ got.
        check_end (put (length acc) tmp got) (length acc + length got)
          (read_record (length acc + length got) (put (length acc) tmp got) rs))
      t
    ∙ ap₂ (λ m w. check_end w m (read_record m w rs)) (sym (length-append acc c))
        (put-zeros acc c k)

check_end-found :
    (acc b c zs tmp : Bytes) (n : ℕ) (r : Outcome Search)
    → tmp ≡ (acc ++ b) ++ b';' ∷ zs
    → Plain b';' (acc ++ b)
    → check_end tmp n r ≡ done (found tmp n (length acc + length b))
unfolding check_end
check_end-found acc b c zs tmp n r w p =
    let s : strchr b';' tmp ≡ done (some (length acc + length b)) =
      ap (strchr b';') w
      ∙ strchr-end b';' (acc ++ b) zs p
      ∙ ap (λ m. done (some m)) (length-append acc b) in
    rw (check_end, s) refl

check_end_other :
    (a : Bytes) (k n : ℕ) (r : Outcome Search)
    → 1 ≤ k
    → Plain b';' a
    → check_end (a ++ replicate k 0) n r ≡ r
unfolding check_end
check_end_other a zero n r l p = absurd (omega arith)
check_end_other a (suc k) n r l p =
    rw (check_end, strchr-zero b';' a (replicate k 0) (omega arith) p) refl

-- However a record that ends in a semicolon is cut into chunks, it is collected in an array of zeros that is longer.
read_record-Chunks :
    (acc b : Bytes) (cs : List Bytes) (k : ℕ) (later : List ReadResult)
    → Chunks cs (b ++ b';' ∷ [])
    → Plain b';' (acc ++ b)
    → length b + 1 < k
    → read_record (length acc) (acc ++ replicate k 0) (map received cs ++ later)
      ≡ done (
          found
            ((acc ++ b) ++ b';' ∷ replicate (k - length b - 1) 0)
            (length acc + length b + 1)
            (length acc + length b))
unfolding Chunks
read_record-Chunks acc b [] k later h p l =
    absurd (omega (arith, ap length h, length-append b (b';' ∷ [])))
read_record-Chunks acc b (c ∷ cs) k later (rest, g, e, next) p l = elim (zero_or_pos rest) [
  | inl z ↦
      let e1 : c ≡ b ++ b';' ∷ [] = sym (append-nil c) ∙ sym (ap (λ v. c ++ v) z) ∙ sym e in
      let n : length c ≡ length b + 1 = ap length e1 ∙ length-append b (b';' ∷ []) in
      let w : (acc ++ c) ++ replicate (k - length c) 0
          ≡ (acc ++ b) ++ b';' ∷ replicate (k - length b - 1) 0 =
        ap₂ (λ u v. (acc ++ u) ++ v) e1
          (zeros {a = k - length c} {b = k - length b - 1} (omega arith))
        ∙ ap (λ u. u ++ replicate (k - length b - 1) 0) (sym (append_assoc acc b (b';' ∷ [])))
        ∙ append_assoc (acc ++ b) (b';' ∷ []) (replicate (k - length b - 1) 0) in
      let m : length (acc ++ c) ≡ length acc + length b + 1 = length-append acc c ∙ omega arith in
      read_record-received acc c k (map received cs ++ later) (omega arith)
      ∙ check_end-found acc b c (replicate (k - length b - 1) 0)
          ((acc ++ c) ++ replicate (k - length c) 0) (length (acc ++ c))
          (read_record (length (acc ++ c)) ((acc ++ c) ++ replicate (k - length c) 0)
            (map received cs ++ later))
          w p
      ∙ ap₂ (λ u v. done (found u v (length acc + length b))) w m
  | inr z ↦
      let (r, e1, e2) = split_last c rest b b';' (sym e) z in
      let n : length b ≡ length c + length r = ap length e2 ∙ length-append c r in
      let q : acc ++ b ≡ (acc ++ c) ++ r = ap (λ v. acc ++ v) e2 ∙ sym (append_assoc acc c r) in
      let p1 = subst (Plain b';') q p in
      let m : length (acc ++ c) + length r ≡ length acc + length b =
        ap (λ v. v + length r) (length-append acc c) ∙ omega arith in
      let i : k - length c - length r - 1 ≡ k - length b - 1 = omega arith in
      read_record-received acc c k (map received cs ++ later) (omega arith)
      ∙ check_end_other (acc ++ c) (k - length c) (length (acc ++ c))
          (read_record (length (acc ++ c)) ((acc ++ c) ++ replicate (k - length c) 0)
            (map received cs ++ later))
          (omega arith) (Plain-front b';' (acc ++ c) r p1)
      ∙ read_record-Chunks (acc ++ c) r cs (k - length c) later (subst (Chunks cs) e1 next) p1
          (omega arith)
      ∙ ap₂
          (λ u v. done (
            found (u ++ b';' ∷ replicate v 0) (length (acc ++ c) + length r + 1)
              (length (acc ++ c) + length r)))
          (sym q) i
      ∙ ap (λ v. done (found ((acc ++ b) ++ b';' ∷ replicate (k - length b - 1) 0) (v + 1) v)) m
]

skip_to_hash-noise :
    (c i : ℕ) (noise r : Bytes)
    → Plain b'#' noise
    → i + length noise + 1 < c
    → skip_to_hash c i (noise ++ b'#' ∷ r) ≡ some (i + length noise, b'#' ∷ r)
unfolding skip_to_hash Plain
skip_to_hash-noise c i [] r h l = ap (λ m. some (m, b'#' ∷ r)) (omega arith)
skip_to_hash-noise c i (x ∷ noise) r (p, q, h) l =
    let t : ltb (suc i) c ≡ true = ground arith in
    rw (skip_to_hash, p, q, t)
      (skip_to_hash-noise c (suc i) noise r h (omega arith)
        ∙ ap (λ m. some (m, b'#' ∷ r)) (omega arith))

Plain-back : (t : ℕ) (a b : Bytes) → Plain t (a ++ b) → Plain t b
unfolding Plain
Plain-back t [] b h = h
Plain-back t (x ∷ a) b (p, q, h) = Plain-back t a b h

copy_string-append :
    (s zs buf : Bytes)
    → Plain b';' s
    → length s < length buf
    → copy_string (s ++ 0 ∷ zs) buf ≡ done (length s, s ++ 0 ∷ drop (suc (length s)) buf)
unfolding copy_string
copy_string-append s zs buf p l =
    let t : ltb (length s) (length buf) ≡ true = ground arith in
    rw (copy_string, strlen-append b';' s zs p) rw t rw
      (take-append_self (length s) s (0 ∷ zs) refl) refl

-- A record that starts with a hash and ends in a semicolon, behind bytes that are neither, is read however it is cut
-- into chunks: the caller gets its text from the hash on with a NUL, and its length. The array of the driver has
-- to be zero and longer, and the buffer has to be longer than the text.
pub read_line-Chunks :
    (noise text buf : Bytes) (cs : List Bytes) (len k : ℕ) (later : List ReadResult)
    → Chunks cs ((noise ++ b'#' ∷ text) ++ b';' ∷ [])
    → Plain b'#' noise
    → Plain b';' (noise ++ b'#' ∷ text)
    → length (noise ++ b'#' ∷ text) + 1 < k
    → length noise < len
    → length text + 1 < length buf
    → read_line len (replicate k 0) buf (map received cs ++ later)
      ≡ done
          (some (some (suc (length text), b'#' ∷ (text ++ 0 ∷ drop (suc (suc (length text))) buf))))
unfolding read_line
read_line-Chunks noise text buf cs len k later h p q l n m =
    let b : Bytes = noise ++ b'#' ∷ text in
    let zs : Bytes = replicate (k - length b - 1) 0 in
    let e : read_record 0 (replicate k 0) (map received cs ++ later)
        ≡ done (found (b ++ b';' ∷ zs) (length b + 1) (length b)) =
      read_record-Chunks [] b cs k later h q l
      ∙ ap (λ z. done (found (b ++ b';' ∷ zs) (z + 1) z)) {x = 0 + length b} (omega arith) in
    let w : set (b ++ b';' ∷ zs) (length b) 0 ≡ noise ++ b'#' ∷ (text ++ 0 ∷ zs) =
      set-append (length b) b b';' 0 zs refl ∙ append_assoc noise (b'#' ∷ text) (0 ∷ zs) in
    let c : length b ≡ length noise + suc (length text) = length-append noise (b'#' ∷ text) in
    let v : skip_to_hash (length b + 1) 0 (noise ++ b'#' ∷ (text ++ 0 ∷ zs))
        ≡ some (length noise, b'#' ∷ (text ++ 0 ∷ zs)) =
      skip_to_hash-noise (length b + 1) 0 noise (text ++ 0 ∷ zs) p (omega arith)
      ∙ ap (λ z. some (z, b'#' ∷ (text ++ 0 ∷ zs))) {x = 0 + length noise} (omega arith) in
    let x1 : leb (length b + 1) (length noise) ≡ false = ground arith in
    let x2 : leb len (length noise) ≡ false = ground arith in
    let y =
      copy_string-append (b'#' ∷ text) zs buf (Plain-back b';' noise (b'#' ∷ text) q)
        (omega arith) in
    rw (read_line, e) rw (w, v) rw (x1, x2) rw y refl
