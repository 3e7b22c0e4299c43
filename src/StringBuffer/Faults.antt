-- ===== src/StringBuffer/Faults.antt =====
-- The calls of stringbuffer.c that leave their block or use a freed pointer.
use power_pack.Prelude.{
  ℕ, ◌+◌, ◌^◌, ◌≤◌, ◌<◌, ◌≡◌, refl, sym, ap, subst, ◌∙◌, inl, inr, Option, none, some, [], ◌∷◌,
  length, take, Bytes, Outcome, done, fault, arith, leb, max, length-take, Bool-cases,
}
use power_pack.StringBuffer.{
  Sb, Pointer, live, Allocator, u32, realloc, append_bytes, grow_and_append, cat_str, clear, reset,
  fill_copy, create_copy, create,
}
use power_pack.StringBuffer.Append.{IsValid, text}
use power_pack.StringBuffer.Block.{write_at-Written, write_at-none}

-- `sb_reset` stores through the pointer that it has just freed, whatever buffer it is given.
pub reset_fault : (sb : Sb) → reset (live sb) ≡ fault
unfolding reset
reset_fault sb = refl

module _ (sb : Sb) (b : Bytes) (s : Bytes) where
  append_bytes_overflow :
      sb.block ≡ some b
      → length b ≤ sb.used + length s
      → sb.used + length s < 2 ^ 32
      → append_bytes sb s (sb.used + length s) ≡ fault
  unfolding append_bytes
  append_bytes_overflow e h small = elim (Bool-cases (leb (sb.used + length s) (length b))) [
    | inr over ↦ ground (arith, e, write_at-none b sb.used s (ground arith))
    | inl fits ↦
        let w = write_at-Written b sb.used s (ground arith) in
        let n : u32 (sb.used + length s) ≡ sb.used + length s = omega arith in
        ground (
          arith,
          e,
          w.runs,
          n,
          write_at-none w.block (sb.used + length s) (0 ∷ []) (omega (arith, w.length_kept)),
        )
  ]

module _ (heap : Allocator) where
  -- A buffer that `sb_clear` emptied cannot be appended to: unless the allocator refuses, the
  -- first `sb_cat_str` writes past the end of the block that it allocates.
  pub cat_str-clear :
      (sb : Sb) (s fresh : Bytes)
      → sb.used + length s < 2 ^ 32
      → heap.malloc (length s) ≡ some fresh
      → (p : Pointer) × (clear (live sb) ≡ done p) × (cat_str heap p (some s) ≡ fault)
  unfolding clear cat_str grow_and_append realloc
  cat_str-clear sb s fresh small e = (
    live (record sb { block = none; size = 0 }),
    refl,
    ground (
      arith,
      append_bytes_overflow (record sb { block = some fresh; size = length s }) fresh s refl
          (omega (arith, heap.length-malloc (length s) e)) small,
    ),
  )

-- The buffer that a copying `sb_create` returns: valid, with the text of its source.
pub record Copied (out : Outcome (Option Sb)) (t : Bytes) : Type 0 where
  pub sb : Sb
  pub block : Bytes
  pub runs : out ≡ done (some sb)
  pub valid : IsValid sb block
  pub text_is : text sb block ≡ t

module _ (sb : Sb) (b src : Bytes) (held : sb.used ≤ length src) where
  length-text : length (take sb.used src) ≡ sb.used
  length-text = omega (arith, length-take sb.used src)

  fill_copy_fault :
      length b ≤ sb.used + 1
      → sb.used + 1 < 2 ^ 32
      → sb.used ≤ length b
      → fill_copy sb b src ≡ fault
  unfolding fill_copy
  fill_copy_fault h small fits =
      let w = write_at-Written b 0 (take sb.used src) (omega (arith, length-text)) in
      let n : u32 (sb.used + 1) ≡ sb.used + 1 = omega arith in
      ground (
        arith,
        w.runs,
        n,
        write_at-none w.block (sb.used + 1) (0 ∷ []) (omega (arith, w.length_kept)),
      )

  fill_copy-Copied :
      sb.used + 1 < length b → sb.used + 1 < 2 ^ 32 → Copied (fill_copy sb b src) (text sb src)
  unfolding fill_copy
  fill_copy-Copied h small =
      let w = write_at-Written b 0 (take sb.used src) (omega (arith, length-text)) in
      let n : u32 (sb.used + 1) ≡ sb.used + 1 = omega arith in
      let z = write_at-Written w.block (sb.used + 1) (0 ∷ []) (omega (arith, w.length_kept)) in
      record {
        sb = record { block = some z.block; size = sb.used + 1; used = sb.used };
        block = z.block;
        runs = ground (arith, w.runs, n, z.runs);
        valid = record {
          block_is = refl;
          allocated = omega (arith, z.length_kept, w.length_kept);
          room = omega arith;
        };
        text_is =
            z.before sb.used (omega arith)
            ∙ (ap (λ k. take k w.block) (omega (arith, length-text)) ∙ w.through);
      }

module _ (heap : Allocator) where
  -- `sb_create` from a buffer that holds text stores a NUL at index `used + 1` of a block of
  -- `MAX(used, size)` bytes. Where the allocator does not refuse, that is a fault if the size asked for
  -- is at most `used + 1`; otherwise the new buffer is valid and has the text of the source.
  pub create-Copied :
      (sb : Sb) (src fresh : Bytes) (n : ℕ)
      → IsValid sb src
      → 0 < sb.used
      → sb.used + 1 < 2 ^ 32
      → heap.malloc (max sb.used n) ≡ some fresh
      → (n ≤ sb.used + 1 → create heap (live sb) n ≡ fault)
        × (sb.used + 1 < n → Copied (create heap (live sb) n) (text sb src))
  unfolding create create_copy
  create-Copied sb src fresh n v pos small e =
      let len : length fresh ≡ max sb.used n = heap.length-malloc (max sb.used n) e in
      let runs : create heap (live sb) n ≡ fill_copy sb fresh src = ground (arith, e, v.block_is) in
      (
        λ h. runs ∙ fill_copy_fault sb fresh src (omega arith) (omega arith) small (omega arith),
        λ h.
            subst (λ o. Copied o (text sb src)) (sym runs)
              (fill_copy-Copied sb fresh src (omega arith) (omega arith) small),
      )
