-- ===== src/StringBuffer.antt =====
-- old/metertools/src/support/stringbuffer.c: a growing byte buffer over malloc and realloc.
-- A block is the list of its bytes, so its length is the allocated size. A write that leaves its
-- block, or goes through a freed or a null pointer, is a `fault`.
mod Block
pub mod Append
pub mod Faults
pub mod Numbers
mod Tests
use power_pack.Prelude.{
  ℕ, ◌+◌, ◌*◌, ◌%◌, ◌^◌, ◌≡◌, Bool, Option, none, some, List, [], ◌∷◌, ◌++◌, leb, ◌==◌,
  if◌then◌else◌, length, take, drop, max, Bytes, Outcome, done, fault, Errno, einval, enomem,
}

-- What a call returns: 0, or -1 with `errno`.
pub data Status : Type 0 where
  success : Status
  failure : Errno → Status

-- `sb_t`
pub record Sb : Type 0 where
  pub block : Option Bytes
  pub size : ℕ
  pub used : ℕ

-- `sb_t *`
pub data Pointer : Type 0 where
  null freed : Pointer
  live : Sb → Pointer

-- The C library's allocator: `none` is a refusal, and a block has the size asked for.
pub record Allocator : Type 0 where
  pub malloc : ℕ → Option Bytes
  pub length-malloc : (n : ℕ) {b : Bytes} → malloc n ≡ some b → length b ≡ n

-- memcpy(b + i, s, strlen(s))
unfoldable pub write_at : Bytes → ℕ → Bytes → Option Bytes
write_at b i s =
    if leb (i + length s) (length b) then some (take i b ++ (s ++ drop (i + length s) b)) else none

abbrev pub u32 : ℕ → ℕ
u32 n = n % 2 ^ 32

unfoldable pub clear : Pointer → Outcome Pointer
clear null = done null
clear freed = fault
clear (live sb) = done (live (record sb { block = none; size = 0 }))

unfoldable pub free : Pointer → Outcome Pointer
free null = done null
free freed = fault
free (live sb) = done freed

-- The three stores of `sb_reset` behind its call of `sb_free`.
unfoldable pub store_empty : Pointer → Outcome (Status × Pointer)
store_empty null = fault
store_empty freed = fault
store_empty (live sb) = done (success, live (record { block = none; size = 0; used = 0 }))

unfoldable pub reset : Pointer → Outcome (Status × Pointer)
unfolding free store_empty
reset null = done (failure einval, null)
reset freed = fault
reset (live sb) = elim (free (live sb)) [ done p ↦ store_empty p | fault ↦ fault ]

-- memcpy of the source's bytes into the new block, and the store at index `size`.
unfoldable pub fill_copy : Sb → Bytes → Bytes → Outcome (Option Sb)
fill_copy sb b src = elim (write_at b 0 (take sb.used src)) [
  | none ↦ fault
  | some c ↦ elim (write_at c (u32 (sb.used + 1)) (0 ∷ [])) [
    | none ↦ fault
    | some d ↦ done (some (record { block = some d; size = u32 (sb.used + 1); used = sb.used }))
  ]
]

-- memcpy(sb->data + sb->used, s, l); sb->used = used; sb->data[sb->used] = 0
unfoldable pub append_bytes : Sb → Bytes → ℕ → Outcome (Status × Pointer)
append_bytes sb s used = elim sb.block [
  | none ↦ fault
  | some b ↦ elim (write_at b sb.used s) [
    | none ↦ fault
    | some c ↦ elim (write_at c (u32 used) (0 ∷ [])) [
      | none ↦ fault
      | some d ↦ done (success, live (record sb { block = some d; used = u32 used }))
    ]
  ]
]

-- The stores of `sb_copy` once both pointers and the new block are there.
unfoldable pub copy_into : Sb → Sb → Bytes → Outcome (Status × Pointer)
copy_into dst src b = elim src.block [
  | none ↦ fault
  | some old ↦ elim (write_at b 0 (take src.used old)) [
    | none ↦ fault
    | some c ↦ done (success, live (record { block = some c; size = src.size; used = src.used }))
  ]
]

module _ (heap : Allocator) where
  -- realloc(NULL, n) is malloc(n); otherwise the old bytes stay, up to the smaller size.
  unfoldable pub realloc : Option Bytes → ℕ → Option Bytes
  realloc none n = heap.malloc n
  realloc (some b) n = elim (heap.malloc n) [
    | none ↦ none
    | some fresh ↦ some (take n b ++ drop (length b) fresh)
  ]

  -- An empty buffer of `size` bytes.
  unfoldable pub create_empty : ℕ → Option Sb
  create_empty size = elim (heap.malloc size) [
    | none ↦ none
    | some b ↦ some (record { block = some b; size = u32 size; used = 0 })
  ]

  unfoldable pub create_copy : Sb → ℕ → Outcome (Option Sb)
  create_copy sb size = elim (heap.malloc (max sb.used size)) [
    | none ↦ done none
    | some b ↦ elim sb.block [ none ↦ fault | some src ↦ fill_copy sb b src ]
  ]

  unfoldable pub create : Pointer → ℕ → Outcome (Option Sb)
  create null size = done (create_empty size)
  create freed size = fault
  create (live sb) size = if sb.used == 0 then done (create_empty size) else create_copy sb size

  -- The buffer grows to twice its size and the length of `s` when the text would fill it.
  unfoldable pub grow_and_append : Sb → Bytes → Outcome (Status × Pointer)
  grow_and_append sb s =
      let used = sb.used + length s in
      let size = sb.size * 2 + length s in
      if leb sb.size used
      then elim (realloc sb.block size) [
        | none ↦ done (failure enomem, live sb)
        | some b ↦ append_bytes (record sb { block = some b; size = u32 size }) s used
      ]
      else append_bytes sb s used

  -- `sb_cat_str`; the string is `none` for a null pointer.
  unfoldable pub cat_str : Pointer → Option Bytes → Outcome (Status × Pointer)
  unfolding grow_and_append
  cat_str null s = done (failure einval, null)
  cat_str freed none = done (failure einval, freed)
  cat_str freed (some s) = fault
  cat_str (live sb) none = done (failure einval, live sb)
  cat_str (live sb) (some s) = grow_and_append sb s

  -- `sb_copy(dst, src)` of two different buffers that share no block; the outcome is the destination's.
  unfoldable pub copy : Pointer → Pointer → Outcome (Status × Pointer)
  copy dst null = done (failure einval, dst)
  copy null src = done (failure einval, null)
  copy freed src = fault
  copy (live dst) freed = fault
  copy (live dst) (live src) = elim (heap.malloc (u32 (src.size + 1))) [
    | none ↦ done (failure enomem, live dst)
    | some b ↦ copy_into dst src b
  ]

  -- `sb_copy(p, p)`: the block is freed and memcpy copies the new block to itself.
  unfoldable pub copy_self : Pointer → Outcome (Status × Pointer)
  copy_self null = done (failure einval, null)
  copy_self freed = fault
  copy_self (live sb) = elim (heap.malloc (u32 (sb.size + 1))) [
    | none ↦ done (failure enomem, live sb)
    | some b ↦
        if leb sb.used (length b)
        then done (success, live (record sb { block = some b }))
        else fault
  ]

  -- The loop of msend.c that joins the words of a command.
  unfoldable pub cat_all : Pointer → List Bytes → Outcome (Status × Pointer)
  cat_all p [] = done (success, p)
  cat_all p (w ∷ ws) = elim (cat_str p (some w)) [ fault ↦ fault | done (st, q) ↦ cat_all q ws ]
