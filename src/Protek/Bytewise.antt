-- ===== src/Protek/Bytewise.antt =====
-- protek_506_read and protek_506_parse: a line that arrives byte by byte.
use power_pack.Measure.{Mm, parsed, store}
use power_pack.Prelude.{
  ℕ, zero, suc, ◌+◌, ◌-◌, ◌≤◌, ◌<◌, ◌≡◌, refl, ap, sym, ◌∙◌, inl, inr, true, Option, none, some,
  List, [], ◌∷◌, ◌++◌, map, append_assoc, leb, ltb, length, length-append, take, drop, set,
  set-append, replicate, take-append_self, Bytes, skip_spaces, strchr, strlen, Plain, Plain-append,
  strchr-end, strchr-zero, strlen-append, done, fault, ReadResult, received, arith, Option-cases,
}
use power_pack.Prelude.Int.{pos}
use power_pack.Protek.{
  read_byte, ended, read_line, copy_line, read, convert_text, scan_value, parse,
}

abbrev pub byte_read : ℕ → ReadResult
byte_read x = received (x ∷ [])

-- With the bytes so far in an array that is zero behind them.
read_line-rest :
    (acc b : Bytes) (k : ℕ) (later : List ReadResult)
    → Plain b'\r' acc
    → Plain b'\r' b
    → length b < k
    → read_line (length acc) (acc ++ replicate k 0) (map byte_read (b ++ b'\r' ∷ []) ++ later)
      ≡ done
          (ended (acc ++ (b ++ b'\r' ∷ replicate (k - length b - 1) 0)) (length acc + length b) 1)
unfolding read_line read_byte Plain
read_line-rest acc b zero later h p l = absurd (omega arith)
read_line-rest acc [] (suc k) later h p l =
    let e = set-append (length acc) acc 0 b'\r' (replicate k 0) refl in
    let t : ltb (length acc) (length (acc ++ 0 ∷ replicate k 0)) ≡ true =
      ap (ltb (length acc)) (length-append acc (0 ∷ replicate k 0)) ∙ ground arith in
    let z : length acc + 0 ≡ length acc = omega arith in
    let v : suc k - 0 - 1 ≡ k = omega arith in
    rw (read_line, read_byte, t) rw e rw (strchr-end b'\r' acc (replicate k 0) h) rw (e, z, v) refl
read_line-rest acc (x ∷ b) (suc zero) later h p l = absurd (omega arith)
read_line-rest acc (x ∷ b) (suc (suc k)) later h (p, q, r) l =
    let acc1 : Bytes = acc ++ x ∷ [] in
    let zeros : Bytes = replicate (suc k) 0 in
    let tmp : Bytes = set (acc ++ 0 ∷ zeros) (length acc) x in
    let g : Plain b'\r' acc1 = Plain-append b'\r' acc x h (p, q, tt) in
    let e : tmp ≡ acc1 ++ zeros =
      set-append (length acc) acc 0 x zeros refl ∙ sym (append_assoc acc (x ∷ []) zeros) in
    let t : ltb (length acc) (length (acc ++ 0 ∷ zeros)) ≡ true =
      ap (ltb (length acc)) (length-append acc (0 ∷ zeros)) ∙ ground arith in
    let s : strchr b'\r' tmp ≡ done none =
      ap (strchr b'\r') e ∙ strchr-zero b'\r' acc1 (replicate k 0) (omega arith) g in
    let n : length acc + 1 ≡ length acc1 = sym (length-append acc (x ∷ [])) in
    let m : length acc1 + length b ≡ length acc + suc (length b) = omega arith in
    let v : suc k - length b - 1 ≡ suc (suc k) - suc (length b) - 1 = omega arith in
    let end : ℕ → Bytes = λ j. b ++ b'\r' ∷ replicate j 0 in
    rw (read_line, read_byte, t, s)
      (ap (λ w. read_line w tmp (map byte_read (b ++ b'\r' ∷ []) ++ later)) n
        ∙ ap (λ w. read_line (length acc1) w (map byte_read (b ++ b'\r' ∷ []) ++ later)) e
        ∙ read_line-rest acc1 b (suc k) later g r (omega arith)
        ∙ ap (λ w. done (ended w (length acc1 + length b) 1))
            (append_assoc acc (x ∷ []) (end (suc k - length b - 1)) ∙ ap (λ j. acc ++ x ∷ end j) v)
        ∙ ap (λ w. done (ended (acc ++ x ∷ end (suc (suc k) - suc (length b) - 1)) w 1)) m)

copy_line-append :
    (line behind buf : Bytes)
    → Plain b'\r' line
    → length line ≤ length buf
    → copy_line (line ++ b'\r' ∷ behind) (length line) buf ≡ done (line ++ drop (length line) buf)
unfolding copy_line
copy_line-append line behind buf h m =
    let s = set-append (length line) line b'\r' 0 behind refl in
    let n : strlen (set (line ++ b'\r' ∷ behind) (length line) 0) ≡ done (length line) =
      ap strlen s ∙ strlen-append b'\r' line behind h in
    let t : leb (length line) (length buf) ≡ true = ground arith in
    let c : take (length line) (set (line ++ b'\r' ∷ behind) (length line) 0) ≡ line =
      ap (take (length line)) s ∙ take-append_self (length line) line (0 ∷ behind) refl in
    rw (copy_line, n, t, c) refl

read-zeros :
    (line buf : Bytes) (k : ℕ) (later : List ReadResult)
    → Plain b'\r' line
    → length line < k
    → length line ≤ length buf
    → read (replicate k 0) buf (map byte_read (line ++ b'\r' ∷ []) ++ later)
      ≡ done (some (pos 1, line ++ drop (length line) buf))
unfolding read Plain
read-zeros line buf k later h l m =
    let behind : Bytes = replicate (k - length line - 1) 0 in
    let e : read_line 0 (replicate k 0) (map byte_read (line ++ b'\r' ∷ []) ++ later)
        ≡ done (ended (line ++ b'\r' ∷ behind) (length line) 1) =
      read_line-rest [] line k later tt h l
      ∙ ap (λ w. done (ended (line ++ b'\r' ∷ behind) w 1)) (omega arith) in
    rw (read, e, copy_line-append line behind buf h m) refl

-- The first byte, with a CR behind it in the array from before.
read-junk :
    (j a : ℕ) (junk buf : Bytes) (later : List ReadResult)
    → Plain b'\r' (a ∷ [])
    → 1 ≤ length buf
    → read (j ∷ b'\r' ∷ junk) buf (byte_read a ∷ later) ≡ done (some (pos 1, a ∷ drop 1 buf))
unfolding read read_line read_byte
read-junk j a junk buf later h l =
    let t : ltb 0 (suc (suc (length junk))) ≡ true = ground arith in
    rw (read, read_line, read_byte, t) rw (strchr-end b'\r' (a ∷ []) junk h) rw
      (copy_line-append (a ∷ []) junk buf h l) refl

-- Strings with no NUL in them.
Plain-zero : (t : ℕ) (a : Bytes) → Plain t a → Plain 0 a
unfolding Plain
Plain-zero t [] h = tt
Plain-zero t (x ∷ a) h = (h.1, h.1, Plain-zero t a h.2)

Plain-join : (a b : Bytes) → Plain 0 a → Plain 0 b → Plain 0 (a ++ b)
unfolding Plain
Plain-join [] b h k = k
Plain-join (x ∷ a) b h k = (h.0, h.1, Plain-join a b h.2 k)

Plain-drop : (n : ℕ) (a : Bytes) → Plain 0 a → Plain 0 (drop n a)
unfolding Plain
Plain-drop zero a h = h
Plain-drop (suc n) [] h = tt
Plain-drop (suc n) (x ∷ a) h = Plain-drop n a h.2

strlen-Plain : (a : Bytes) → Plain 0 a → strlen a ≡ fault
unfolding strlen Plain
strlen-Plain [] h = refl
strlen-Plain (x ∷ a) h = rw (strlen, h.1, strlen-Plain a h.2) refl

drop-append_left : (n : ℕ) (a b : Bytes) → n ≤ length a → drop n (a ++ b) ≡ drop n a ++ b
drop-append_left zero a b h = refl
drop-append_left (suc n) [] b h = absurd (omega arith)
drop-append_left (suc n) (x ∷ a) b h = drop-append_left n a b (omega arith)

-- What parsing makes of a value: the one read, or else what the variable held.
abbrev pub stored : {F : Type 0} → F → Option (F × Bytes) → List (Mm F) → List (Mm F)
stored unset scanned mm =
    store mm (λ m. record m { value = elim scanned [ none ↦ unset | some p ↦ p.0 ] })

module _ {F : Type 0} (scan_float : Bytes → Option (F × Bytes)) where
  scan_value-text :
      (text behind : Bytes)
      → Plain 0 text
      → scan_value scan_float (text ++ 0 ∷ behind) ≡ done (convert_text scan_float text)
  unfolding scan_value
  scan_value-text text behind h =
      let t = take-append_self (length text) text (0 ∷ behind) refl in
      rw (scan_value, strlen-append 0 text behind h) (rw t refl)

  parse-text :
      (a b : ℕ) (text behind : Bytes) (unset : F) (mm : List (Mm F))
      → Plain 0 (a ∷ b ∷ text)
      → parse scan_float unset (some (a ∷ b ∷ (text ++ 0 ∷ behind))) (some mm)
        ≡ done (parsed (stored unset (scan_float (skip_spaces text)) mm))
  unfolding parse convert_text
  parse-text a b text behind unset mm h =
      let scanned = scan_value-text (a ∷ b ∷ text) behind h in
      elim (Option-cases (scan_float (skip_spaces text))) [
        | inl e ↦ rw (parse, scanned) (rw e refl)
        | inr (v, e) ↦ rw (parse, scanned) (rw e refl)
      ]

  parse-unterminated :
      (text : Bytes) (unset : F) (mm : List (Mm F))
      → Plain 0 text
      → parse scan_float unset (some text) (some mm) ≡ fault
  unfolding parse scan_value
  parse-unterminated text unset mm h =
      let f : scan_value scan_float text ≡ fault = rw (scan_value, strlen-Plain text h) refl in
      rw (parse, f) refl

  -- A line of at least two characters, with no CR and no NUL in it, that arrives byte by byte in an array of
  -- zeros longer than it, is copied without its end to the start of a buffer whose string is no shorter, so that
  -- what the string had behind it goes on the line; 1 is returned whatever its length. Parsing then sets the
  -- value alone: to the number behind the two characters, or to what the variable held before if there is
  -- none. No NUL is copied: into a buffer with room for the line but with no NUL in it the line is read with the same
  -- result, and parsing reads behind that buffer. In an array that holds a CR already, here as its second
  -- byte, the line ends there.
  pub parse-read_line :
      (a b : ℕ) (text old behind full : Bytes) (k : ℕ) (later : List ReadResult) (unset : F)
      (mm : List (Mm F)) (j : ℕ) (junk : Bytes)
      → Plain b'\r' (a ∷ b ∷ text)
      → length text + 2 < k
      → Plain 0 old
      → length text + 2 ≤ length old
      → Plain 0 full
      → length text + 2 ≤ length full
      → (out : Bytes) × (out' : Bytes) × (read
            (replicate k 0)
            (old ++ 0 ∷ behind)
            (map byte_read (a ∷ b ∷ (text ++ b'\r' ∷ [])) ++ later)
          ≡ done (some (pos 1, out)))
        × (parse scan_float unset (some out) (some mm)
            ≡ done (
                parsed (
                  stored unset (scan_float (skip_spaces (text ++ drop (length text + 2) old))) mm)))
        × (read (replicate k 0) full (map byte_read (a ∷ b ∷ (text ++ b'\r' ∷ [])) ++ later)
            ≡ done (some (pos 1, out')))
        × (parse scan_float unset (some out') (some mm) ≡ fault)
        × (read (j ∷ b'\r' ∷ junk) full (byte_read a ∷ later)
            ≡ done (some (pos 1, a ∷ drop 1 full)))
  unfolding Plain
  parse-read_line a b text old behind full k later unset mm j junk h l p m q n =
      let line : Bytes = a ∷ b ∷ text in
      let same : length line ≡ length text + 2 = omega arith in
      let keep : Bytes = drop (length text + 2) old in
      let grows : length old ≤ length (old ++ 0 ∷ behind) =
        omega (arith, length-append old (0 ∷ behind)) in
      let whole : line ++ drop (length line) (old ++ 0 ∷ behind)
          ≡ a ∷ b ∷ ((text ++ keep) ++ 0 ∷ behind) =
        ap (λ w. line ++ w)
          (ap (λ w. drop w (old ++ 0 ∷ behind)) same
            ∙ drop-append_left (length text + 2) old (0 ∷ behind) m)
        ∙ sym (append_assoc line keep (0 ∷ behind)) in
      let clean : Plain 0 line = Plain-zero b'\r' line h in
      let cut : Plain 0 keep = Plain-drop (length text + 2) old p in
      let cut' : Plain 0 (drop (length line) full) = Plain-drop (length line) full q in
      (
        a ∷ b ∷ ((text ++ keep) ++ 0 ∷ behind),
        line ++ drop (length line) full,
        read-zeros line (old ++ 0 ∷ behind) k later h (omega arith) (omega arith)
            ∙ ap (λ w. done (some (pos 1, w))) whole,
        parse-text a b (text ++ keep) behind unset mm (Plain-join line keep clean cut),
        read-zeros line full k later h (omega arith) (omega arith),
        parse-unterminated (line ++ drop (length line) full) unset mm
            (Plain-join line (drop (length line) full) clean cut'),
        read-junk j a junk full later (h.0, h.1, tt) (omega arith),
      )
