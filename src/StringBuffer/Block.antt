-- ===== src/StringBuffer/Block.antt =====
-- Writes into a block and reallocation: which bytes are there afterwards.
use power_pack.Prelude.{
  ℕ, ◌+◌, ◌≤◌, ◌<◌, ◌≡◌, refl, ◌∙◌, Option, none, some, [], ◌∷◌, ◌++◌, length, take, drop,
  length-append, length-take, length-drop, get_elem?, Bytes, arith, append_assoc, take-append_of_le,
  take-append_self, take-take, get_elem?-append_self,
}
use power_pack.StringBuffer.{Allocator, write_at, realloc}

-- What a write of `s` at `i` leaves in the block.
pub record Written (b : Bytes) (i : ℕ) (s : Bytes) : Type 0 where
  pub block : Bytes
  pub runs : write_at b i s ≡ some block
  pub length_kept : length block ≡ length b
  pub before : (j : ℕ) → j ≤ i → take j block ≡ take j b
  pub through : take (i + length s) block ≡ take i b ++ s

module _ (b : Bytes) (i : ℕ) (s : Bytes) (h : i + length s ≤ length b) where
  abbrev rest : Bytes
  rest = drop (i + length s) b

  length-prefix : length (take i b) ≡ i
  length-prefix = omega (arith, length-take i b)

  pub write_at-Written : Written b i s
  unfolding write_at
  write_at-Written = record {
    block = take i b ++ (s ++ rest);
    runs = ground arith;
    length_kept = omega (
      arith,
      length-prefix,
      length-append (take i b) (s ++ rest),
      length-append s rest,
      length-drop (i + length s) b,
    );
    before = λ j hj.
        take-append_of_le j (take i b) (s ++ rest) (omega (arith, length-prefix))
        ∙ take-take j i b hj;
    through = rw (← append_assoc) (
        take-append_self (i + length s) (take i b ++ s) rest
          (omega (arith, length-prefix, length-append (take i b) s)));
  }

-- A write past the end of the block is a fault.
pub write_at-none :
    (b : Bytes) (i : ℕ) (s : Bytes) → length b < i + length s → write_at b i s ≡ none
unfolding write_at
write_at-none b i s h = ground arith

pub get_elem?-write_at :
    (b c : Bytes) (i x : ℕ) → i < length b → write_at b i (x ∷ []) ≡ some c → get_elem? c i ≡ some x
unfolding write_at
get_elem?-write_at b c i x h e =
    ground (arith, get_elem?-append_self i (take i b) x (drop (i + 1) b), length-take i b)

-- A block grown to `n` bytes keeps what it held.
pub record Grown (heap : Allocator) (b : Bytes) (n : ℕ) (fresh : Bytes) : Type 0 where
  pub block : Bytes
  pub runs : realloc heap (some b) n ≡ some block
  pub length_is : length block ≡ n
  pub kept : (j : ℕ) → j ≤ length b → j ≤ n → take j block ≡ take j b

pub realloc-Grown :
    (heap : Allocator) (b : Bytes) (n : ℕ) (fresh : Bytes)
    → heap.malloc n ≡ some fresh
    → Grown heap b n fresh
unfolding realloc
realloc-Grown heap b n fresh e = record {
  block = take n b ++ drop (length b) fresh;
  runs = rw (e, realloc) refl;
  length_is = omega (
    arith,
    length-append (take n b) (drop (length b) fresh),
    length-take n b,
    length-drop (length b) fresh,
    heap.length-malloc n e,
  );
  kept = λ j hj hn.
      take-append_of_le j (take n b) (drop (length b) fresh) (omega (arith, length-take n b))
      ∙ take-take j n b hn;
}

pub realloc-none :
    (heap : Allocator) (o : Option Bytes) (n : ℕ) → heap.malloc n ≡ none → realloc heap o n ≡ none
unfolding realloc
realloc-none heap none n e = e
realloc-none heap (some b) n e = ground arith
