-- ===== src/Prelude/CStrings.antt =====
-- C strings and buffers as lists of bytes. A string is written without its terminating NUL.
use Prim.Native.Char.{code}
use Prim.Native.String.{String}
use Prim.Native.Nat.{ℕ, suc, ◌≤◌}
use mathlib.Core.Path.{◌≡◌, refl}
use mathlib.Core.Logic.{◌↔◌}
use mathlib.Core.Bool.{Bool, true, false, ◌&&◌, ◌||◌}
use mathlib.Core.List.{List, [], ◌∷◌, ◌++◌}
use mathlib.Core.Option.{Option, none, some}
use native.Mathlib.Omega.{arith}
use power_pack.Prelude.Tests.{◌==◌, if◌then◌else◌}
use power_pack.Prelude.Lists.{take, length}
use power_pack.Prelude.Memory.{Outcome, done, fault}

abbrev pub Bytes : Type 0
Bytes = List ℕ

-- The code points of a text: its bytes, if it is ASCII.
abbrev pub codes : String → Bytes
codes String.[] = []
codes (String.◌∷◌ c s) = code c ∷ codes s

-- strcmp(a, b) == 0
abbrev pub bytes_eq : Bytes → Bytes → Bool
bytes_eq [] [] = true
bytes_eq [] (y ∷ ys) = false
bytes_eq (x ∷ xs) [] = false
bytes_eq (x ∷ xs) (y ∷ ys) = x == y && bytes_eq xs ys

-- strncmp(a, b, n) == 0
abbrev pub bytes_eq_upto : ℕ → Bytes → Bytes → Bool
bytes_eq_upto n a b = bytes_eq (take n a) (take n b)

pub bytes_eq_refl : (a : Bytes) → bytes_eq a a ≡ true
bytes_eq_refl [] = refl
bytes_eq_refl (x ∷ xs) = ground (arith, bytes_eq_refl xs)

pub bytes_eq→eq : (a b : Bytes) → bytes_eq a b ≡ true → a ≡ b
bytes_eq→eq [] [] h = refl
bytes_eq→eq [] (y ∷ ys) h = ground arith
bytes_eq→eq (x ∷ xs) [] h = ground arith
bytes_eq→eq (x ∷ xs) (y ∷ ys) h = ground (arith, bytes_eq→eq xs ys)

pub bytes_eq_iff : (a b : Bytes) → (bytes_eq a b ≡ true) ↔ (a ≡ b)
bytes_eq_iff a b = (bytes_eq→eq a b, λ e. rw e (bytes_eq_refl b))

-- isspace
abbrev pub is_space : ℕ → Bool
is_space c = c == b' ' || c == b'\t' || c == b'\n' || c == 0x0b || c == 0x0c || c == 0x0d

unfoldable pub skip_spaces : Bytes → Bytes
skip_spaces [] = []
skip_spaces (c ∷ cs) = if is_space c then skip_spaces cs else c ∷ cs

-- strchr(b, c): the index, if it stands before the NUL. An array with neither is read out of range.
unfoldable pub strchr : ℕ → Bytes → Outcome (Option ℕ)
strchr c [] = fault
strchr c (x ∷ b) =
    let rest = strchr c b in
    if x == c
    then done (some 0)
    else if x == 0
    then done none
    else elim rest [ fault ↦ fault | done none ↦ done none | done (some i) ↦ done (some (suc i)) ]

unfoldable pub strlen : Bytes → Outcome ℕ
strlen [] = fault
strlen (x ∷ b) =
    let rest = strlen b in
    if x == 0 then done 0 else elim rest [ fault ↦ fault | done n ↦ done (suc n) ]

-- Neither the byte nor a NUL occurs.
unfoldable pub Plain : ℕ → Bytes → Type 0
Plain t [] = Unit {0}
Plain t (x ∷ b) = ((x == t) ≡ false) × ((x == 0) ≡ false) × Plain t b

pub strchr-end : (t : ℕ) (a b : Bytes) → Plain t a → strchr t (a ++ t ∷ b) ≡ done (some (length a))
unfolding strchr Plain
strchr-end t [] b h = let e : (t == t) ≡ true = ground arith in rw (strchr, e) refl
strchr-end t (x ∷ a) b (p, q, h) = rw (strchr, p, q, strchr-end t a b h) refl

pub strchr-zero : (t : ℕ) (a b : Bytes) → 1 ≤ t → Plain t a → strchr t (a ++ 0 ∷ b) ≡ done none
unfolding strchr Plain
strchr-zero t [] b l h = let e : (0 == t) ≡ false = ground arith in rw (strchr, e) refl
strchr-zero t (x ∷ a) b l (p, q, h) = rw (strchr, p, q, strchr-zero t a b l h) refl

pub strlen-append : (t : ℕ) (a b : Bytes) → Plain t a → strlen (a ++ 0 ∷ b) ≡ done (length a)
unfolding strlen Plain
strlen-append t [] b h = refl
strlen-append t (x ∷ a) b (p, q, h) = rw (strlen, q, strlen-append t a b h) refl

pub Plain-append :
    (t : ℕ) (a : Bytes) (x : ℕ) → Plain t a → Plain t (x ∷ []) → Plain t (a ++ x ∷ [])
unfolding Plain
Plain-append t [] x h k = k
Plain-append t (y ∷ a) x (p, q, h) k = (p, q, Plain-append t a x h k)
