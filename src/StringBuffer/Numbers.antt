-- ===== src/StringBuffer/Numbers.antt =====
-- sb_cat_int, sb_cat_uint, sb_cat_long and sb_cat_ulong, and what any sequence of appends does to the text.
use power_pack.Prelude.Decimal.{print_nat, print_int, length-print_nat, length-print_int}
use power_pack.Prelude.Int.{ℤ}
use power_pack.Prelude.{
  ℕ, suc, ◌+◌, ◌-◌, ◌*◌, ◌^◌, ◌≤◌, ◌<◌, ◌≡◌, refl, ap, sym, ◌∙◌, ◌⊎◌, inl, inr, none, some, List,
  [], ◌∷◌, ◌++◌, append-nil, append_assoc, length, take, take_all, Bytes, Outcome, done, fault,
  enomem, arith, Bool-cases, Option-cases, leb,
}
use power_pack.StringBuffer.{
  Sb, Pointer, live, Status, success, failure, Allocator, u32, append_bytes, grow_and_append,
  cat_str, realloc,
}
use power_pack.StringBuffer.Append.{IsValid, text, cat_str-Appended}

-- One call of an appender on a buffer.
pub data Append : Type 0 where
  str : Bytes → Append
  int long : ℤ → Append
  uint ulong : ℕ → Append

-- snprintf into a local array of `n` bytes: the text and its NUL, or what fits of it.
abbrev pub snprintf : ℕ → Bytes → Bytes
snprintf n out = take (n - 1) out

module _ (heap : Allocator) where
  unfoldable pub cat_int : Pointer → ℤ → Outcome (Status × Pointer)
  cat_int p i = cat_str heap p (some (snprintf 32 (print_int i)))

  unfoldable pub cat_uint : Pointer → ℕ → Outcome (Status × Pointer)
  cat_uint p ui = cat_str heap p (some (snprintf 32 (print_nat ui)))

  unfoldable pub cat_long : Pointer → ℤ → Outcome (Status × Pointer)
  cat_long p l = cat_str heap p (some (snprintf 64 (print_int l)))

  unfoldable pub cat_ulong : Pointer → ℕ → Outcome (Status × Pointer)
  cat_ulong p ul = cat_str heap p (some (snprintf 64 (print_nat ul)))

  unfoldable pub call : Append → Pointer → Outcome (Status × Pointer)
  call (str s) p = cat_str heap p (some s)
  call (int i) p = cat_int p i
  call (uint ui) p = cat_uint p ui
  call (long l) p = cat_long p l
  call (ulong ul) p = cat_ulong p ul

  -- Calls in turn, with what each returned.
  unfoldable pub calls : List Append → Pointer → Outcome (List Status × Pointer)
  calls [] p = done ([], p)
  calls (a ∷ cs) p = elim (call a p) [
    | fault ↦ fault
    | done r ↦ elim (calls cs r.1) [ fault ↦ fault | done q ↦ done (r.0 ∷ q.0, q.1) ]
  ]

-- The abstract buffer is its text: a call adds its argument, written out in full.
abbrev pub shown : Append → Bytes
shown (str s) = s
shown (int i) = print_int i
shown (uint ui) = print_nat ui
shown (long l) = print_int l
shown (ulong ul) = print_nat ul

abbrev pub accepted : List Append → List Status → Bytes
accepted (a ∷ cs) (success ∷ ss) = shown a ++ accepted cs ss
accepted (a ∷ cs) (failure e ∷ ss) = accepted cs ss
accepted cs ss = []

abbrev pub total : List Append → ℕ
total [] = 0
total (a ∷ cs) = length (shown a) + total cs

-- The buffers for the numbers are large enough, so that each call appends its argument in full.
call-shown :
    (heap : Allocator) (a : Append) (p : Pointer) → call heap a p ≡ cat_str heap p (some (shown a))
unfolding call cat_int cat_uint cat_long cat_ulong
call-shown heap (str s) p = refl
call-shown heap (int i) p =
    ap (λ s. cat_str heap p (some s))
      (take_all 31 (print_int i) (omega (arith, length-print_int i)))
call-shown heap (uint ui) p =
    ap (λ s. cat_str heap p (some s))
      (take_all 31 (print_nat ui) (omega (arith, length-print_nat ui)))
call-shown heap (long l) p =
    ap (λ s. cat_str heap p (some s))
      (take_all 63 (print_int l) (omega (arith, length-print_int l)))
call-shown heap (ulong ul) p =
    ap (λ s. cat_str heap p (some s))
      (take_all 63 (print_nat ul) (omega (arith, length-print_nat ul)))

append_bytes_size :
    (sb sb' : Sb) (s : Bytes) (n : ℕ)
    → append_bytes sb s n ≡ done (success, live sb')
    → (sb'.size ≡ sb.size) × (sb'.used ≡ u32 n)
unfolding append_bytes
append_bytes_size sb sb' s n h = ground arith

-- How large a buffer is after a call that succeeded.
cat_str_size :
    (heap : Allocator) (sb sb' : Sb) (s : Bytes)
    → sb.size * 2 + length s < 2 ^ 32
    → sb.used < sb.size
    → cat_str heap (live sb) (some s) ≡ done (success, live sb')
    → (sb'.used ≡ sb.used + length s)
      × ((sb'.size ≡ sb.size) ⊎ (sb'.size ≤ 3 * (sb.used + length s)))
unfolding cat_str grow_and_append
cat_str_size heap sb sb' s small room h = elim (Bool-cases (leb sb.size (sb.used + length s))) [
  | inr e ↦
      let q : append_bytes sb s (sb.used + length s) ≡ done (success, live sb') = rw e at h in
      let r = append_bytes_size sb sb' s (sb.used + length s) q in (ground (arith, r.1), inl r.0)
  | inl e ↦ elim (Option-cases (realloc heap sb.block (sb.size * 2 + length s))) [
    | inl gone ↦ absurd (ground arith)
    | inr (b, got) ↦
        let big : Sb = record {
          block = some b;
          size = u32 (sb.size * 2 + length s);
          used = sb.used;
        } in
        let q : append_bytes big s (sb.used + length s) ≡ done (success, live sb') =
          rw (e, got) at h in
        let r = append_bytes_size big sb' s (sb.used + length s) q in
        (omega (arith, r.1), inr (ground (arith, r.0)))
  ]
]

-- Every call that failed did so for a block that the allocator refused.
abbrev pub AllRefused : Allocator → List Status → Type 0
AllRefused heap [] = Unit {0}
AllRefused heap (success ∷ ss) = AllRefused heap ss
AllRefused heap (failure e ∷ ss) = (n : ℕ) × (heap.malloc n ≡ none) × AllRefused heap ss

-- The state after the calls: each was carried out in full or refused by the allocator.
pub record Ran (heap : Allocator) (cs : List Append) (p : Pointer) (before : Bytes) : Type 0 where
  pub statuses : List Status
  pub sb : Sb
  pub block : Bytes
  pub runs : calls heap cs p ≡ done (statuses, live sb)
  pub counted : length statuses ≡ length cs
  pub valid : IsValid sb block
  pub text_is : text sb block ≡ before ++ accepted cs statuses
  pub refused : AllRefused heap statuses

module _ (heap : Allocator) (limit : ℕ) (small : limit < 2 ^ 29) where
  -- A buffer refines its text. From a valid buffer, any sequence of the five appenders whose text, with that
  -- before, has at most `limit` bytes, for a limit below 2 ^ 29 and a buffer that is at first no larger than
  -- three times the limit, stays inside the buffer's blocks and leaves a valid buffer; its text is the text
  -- before and, in order, the full text or number of each call that returned 0. A call fails only if the
  -- allocator refuses a block.
  pub calls-Ran :
      (cs : List Append) (sb : Sb) (b : Bytes)
      → IsValid sb b
      → sb.used + total cs ≤ limit
      → sb.size ≤ 3 * limit
      → Ran heap cs (live sb) (text sb b)
  unfolding calls
  calls-Ran [] sb b v fits size = record {
    statuses = [];
    sb = sb;
    block = b;
    runs = refl;
    counted = refl;
    valid = v;
    text_is = sym (append-nil (text sb b));
    refused = tt;
  }
  calls-Ran (a ∷ cs) sb b v fits size =
      elim (cat_str-Appended heap sb b (shown a) v (omega arith)) [
        | inl (gone, full, e) ↦
            let step : call heap a (live sb) ≡ done (failure enomem, live sb) =
              call-shown heap a (live sb) ∙ e in
            let r = calls-Ran cs sb b v (omega arith) size in
            record {
              statuses = failure enomem ∷ r.statuses;
              sb = r.sb;
              block = r.block;
              runs = rw (calls, step) (rw r.runs refl);
              counted = ap suc r.counted;
              valid = r.valid;
              text_is = r.text_is;
              refused = (sb.size * 2 + length (shown a), gone, r.refused);
            }
        | inr ap1 ↦
            let step : call heap a (live sb) ≡ done (success, live ap1.sb) =
              call-shown heap a (live sb) ∙ ap1.runs in
            let grown = cat_str_size heap sb ap1.sb (shown a) (omega arith) v.room ap1.runs in
            let r =
              calls-Ran cs ap1.sb ap1.block ap1.valid (omega (arith, grown.0))
                (omega (arith, grown.1)) in
            record {
              statuses = success ∷ r.statuses;
              sb = r.sb;
              block = r.block;
              runs = rw (calls, step) (rw r.runs refl);
              counted = ap suc r.counted;
              valid = r.valid;
              text_is =
                  r.text_is
                  ∙ (ap (λ t. t ++ accepted cs r.statuses) ap1.text_is
                      ∙ append_assoc (text sb b) (shown a) (accepted cs r.statuses));
              refused = r.refused;
            }
      ]
