-- ===== src/StringBuffer/Tests.antt =====
-- Runs of stringbuffer.c on small buffers, and the theorems at such buffers.
use power_pack.Prelude.{
  ℕ, ◌+◌, ◌*◌, ◌≤◌, ◌<◌, ◌≡◌, ◌⊎◌, refl, none, some, [], ◌∷◌, ◌++◌, length, length-replicate,
  replicate, List, Bytes, codes, arith, done, fault, enomem,
}
use power_pack.StringBuffer.Append.{IsValid, text, Appended, cat_str-Appended}
use power_pack.StringBuffer.Faults.{reset_fault, cat_str-clear, Copied, create-Copied}
use power_pack.Prelude.Decimal.{print_int, print_nat, digits}
use power_pack.Prelude.Int.{negsuc}
use power_pack.StringBuffer.Numbers.{Append, str, int, calls, call, cat_int, Ran, calls-Ran}
use power_pack.StringBuffer.{
  Sb, Pointer, live, success, failure, Allocator, write_at, realloc, append_bytes, grow_and_append,
  cat_str, cat_all, clear, reset, create,
}

length-zeros : (n : ℕ) {b : Bytes} → some (replicate n 0) ≡ some b → length b ≡ n
length-zeros n {b} e = ground (arith, length-replicate n (◌+◌ 0 0))

-- An allocator that never refuses and clears its blocks.
abbrev generous : Allocator
generous = record { malloc = λ n. some (replicate n 0); length-malloc = length-zeros }

-- "ab" in a buffer of four bytes.
abbrev ab_block : Bytes
ab_block = b'a' ∷ b'b' ∷ 0 ∷ 0 ∷ []

abbrev ab : Sb
ab = record { block = some ab_block; size = 4; used = 2 }

ab-IsValid : IsValid ab ab_block
ab-IsValid = record { block_is = refl; allocated = omega arith; room = omega arith }

-- msend.c joins its words in a buffer of ten bytes.
join_words :
    cat_all generous
      (live (record { block = some (replicate 10 0); size = 10; used = 0 }))
      (codes "#L,W,3" ∷ codes ",E,1,1;" ∷ [])
    ≡ done (
      success,
      live
          (record { block = some (codes "#L,W,3,E,1,1;" ++ replicate 14 0); size = 27; used = 13 }),
    )
unfolding cat_all cat_str grow_and_append append_bytes realloc write_at
join_words = refl

cat_str-Appended_example :
    ((generous.malloc (4 * 2 + 3) ≡ none)
      × (4 ≤ 2 + 3)
      × (cat_str generous (live ab) (some (codes "cde")) ≡ done (failure enomem, live ab)))
    ⊎ Appended (cat_str generous (live ab) (some (codes "cde"))) (text ab ab_block) (codes "cde")
cat_str-Appended_example =
    cat_str-Appended generous ab ab_block (codes "cde") ab-IsValid (omega arith)

reset_fault_run : reset (live ab) ≡ fault
reset_fault_run = reset_fault ab

cat_str-clear_run :
    (p : Pointer) × (clear (live ab) ≡ done p) × (cat_str generous p (some (codes "cde")) ≡ fault)
cat_str-clear_run = cat_str-clear generous ab (codes "cde") (replicate 3 0) (omega arith) refl

create-Copied_example :
    (3 ≤ 2 + 1 → create generous (live ab) 3 ≡ fault)
    × (2 + 1 < 3 → Copied (create generous (live ab) 3) (text ab ab_block))
create-Copied_example =
    create-Copied generous ab ab_block (replicate 3 0) 3 ab-IsValid (omega arith) (omega arith) refl

abbrev other : Sb
other = record { block = some (codes "xyz"); size = 3; used = 2 }

abbrev two_appends : List Append
two_appends = str (codes "c=") ∷ int (negsuc 41) ∷ []

numbers_run :
    calls generous two_appends (live ab)
    ≡ done (
      success ∷ success ∷ [],
      live (record { block = some (codes "abc=-42" ++ replicate 3 0); size = 10; used = 7 }),
    )
unfolding calls call cat_int cat_str grow_and_append append_bytes realloc write_at print_int
    print_nat digits
numbers_run = refl

calls-Ran_example : Ran generous two_appends (live ab) (text ab ab_block)
unfolding print_int print_nat digits
calls-Ran_example =
    calls-Ran generous 1000 (omega arith) two_appends ab ab_block ab-IsValid (omega arith)
      (omega arith)
