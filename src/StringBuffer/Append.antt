-- ===== src/StringBuffer/Append.antt =====
-- Appending to a valid buffer: memory safety, and the text that results.
use power_pack.Prelude.{
  ◌+◌, ◌*◌, ◌^◌, ◌≤◌, ◌<◌, ◌≡◌, refl, ap, ◌∙◌, ◌⊎◌, inl, inr, none, some, true, [], ◌∷◌, ◌++◌,
  length, take, get_elem?, Bytes, Outcome, done, enomem, arith, Option-cases, leb, Bool-cases,
}
use power_pack.StringBuffer.{
  Sb, Pointer, live, Status, success, failure, Allocator, u32, append_bytes, grow_and_append,
  cat_str,
}
use power_pack.StringBuffer.Block.{
  write_at-Written, get_elem?-write_at, realloc-Grown, realloc-none,
}

-- The block holds `size` bytes, and there is room for the terminating NUL.
pub record IsValid (sb : Sb) (b : Bytes) : Type 0 where
  pub block_is : sb.block ≡ some b
  pub allocated : sb.size ≤ length b
  pub room : sb.used < sb.size

abbrev pub text : Sb → Bytes → Bytes
text sb b = take sb.used b

-- The buffer after a call that appended `s` to `before`.
pub record Appended (out : Outcome (Status × Pointer)) (before s : Bytes) : Type 0 where
  pub sb : Sb
  pub block : Bytes
  pub runs : out ≡ done (success, live sb)
  pub valid : IsValid sb block
  pub text_is : text sb block ≡ before ++ s
  pub terminated : get_elem? block sb.used ≡ some 0

module _ (sb : Sb) (b s : Bytes) where
  append_bytes-Appended :
      sb.block ≡ some b
      → sb.used + length s < sb.size
      → sb.size ≤ length b
      → sb.size < 2 ^ 32
      → Appended (append_bytes sb s (sb.used + length s)) (text sb b) s
  unfolding append_bytes
  append_bytes-Appended e room h small =
      let w = write_at-Written b sb.used s (omega arith) in
      let z =
        write_at-Written w.block (sb.used + length s) (0 ∷ []) (omega (arith, w.length_kept)) in
      let n : u32 (sb.used + length s) ≡ sb.used + length s = omega arith in
      record {
        sb = record sb { block = some z.block; used = sb.used + length s };
        block = z.block;
        runs = ground (arith, e, w.runs, n, z.runs);
        valid = record {
          block_is = refl;
          allocated = omega (arith, z.length_kept, w.length_kept);
          room = room;
        };
        text_is = z.before (sb.used + length s) (omega arith) ∙ w.through;
        terminated =
            get_elem?-write_at w.block z.block (sb.used + length s) 0 (omega (arith, w.length_kept))
              z.runs;
      }

module _ (heap : Allocator) (sb : Sb) (b s : Bytes) where
  refused_run :
      heap.malloc (sb.size * 2 + length s) ≡ none
      → leb sb.size (sb.used + length s) ≡ true
      → grow_and_append heap sb s ≡ done (failure enomem, live sb)
  unfolding grow_and_append
  refused_run e full = ground (arith, realloc-none heap sb.block (sb.size * 2 + length s) e)

  grown :
      IsValid sb b
      → sb.size * 2 + length s < 2 ^ 32
      → (fresh : Bytes) → heap.malloc (sb.size * 2 + length s) ≡ some fresh
      → leb sb.size (sb.used + length s) ≡ true
      → Appended (grow_and_append heap sb s) (text sb b) s
  unfolding grow_and_append
  grown v small fresh e full =
      let g = realloc-Grown heap b (sb.size * 2 + length s) fresh e in
      let n : u32 (sb.size * 2 + length s) ≡ sb.size * 2 + length s = omega arith in
      let bigger : Sb = record {
        block = some g.block;
        size = u32 (sb.size * 2 + length s);
        used = sb.used;
      } in
      let a =
        append_bytes-Appended bigger g.block s refl (omega arith) (omega (arith, g.length_is))
          (omega arith) in
      record {
        sb = a.sb;
        block = a.block;
        runs = rw (full, v.block_is, g.runs) a.runs;
        valid = a.valid;
        text_is = a.text_is ∙ ap (λ t. t ++ s) (g.kept sb.used (omega arith) (omega arith));
        terminated = a.terminated;
      }

  -- Where twice the size of the block and the length of `s` are below 2^32, appending to a valid buffer does not
  -- leave its block: it either appends exactly `s` and keeps the
  -- buffer valid and NUL-terminated, or the allocator refused to grow it and nothing has changed.
  pub cat_str-Appended :
      IsValid sb b
      → sb.size * 2 + length s < 2 ^ 32
      → ((heap.malloc (sb.size * 2 + length s) ≡ none)
          × (sb.size ≤ sb.used + length s)
          × (cat_str heap (live sb) (some s) ≡ done (failure enomem, live sb)))
        ⊎ Appended (cat_str heap (live sb) (some s)) (text sb b) s
  unfolding cat_str
  cat_str-Appended v small = elim (Bool-cases (leb sb.size (sb.used + length s))) [
    | inr fits ↦ inr (
        rw (grow_and_append, fits)
          (append_bytes-Appended sb b s v.block_is (ground arith) v.allocated (omega arith)))
    | inl full ↦ elim (Option-cases (heap.malloc (sb.size * 2 + length s))) [
      | inl refused ↦ inl (refused, ground arith, refused_run refused full)
      | inr (fresh, e) ↦ inr (grown v small fresh e full)
    ]
  ]
