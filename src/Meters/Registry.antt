-- ===== src/Meters/Registry.antt =====
-- The list of meters: names, types and counts.
use power_pack.Meters.{
  Driver, Meter, rc_ok, rc_errno, find_type, find_name, find_type_by_name, meters, meter_lookup,
  meter_name, meter_type, meter_alloc_mms,
}
use power_pack.Prelude.Int.{ℤ, pos, negsuc}
use mathlib.Core.Option.{some-injective}
use power_pack.Prelude.{
  ℕ, zero, suc, ◌≤◌, ◌≡◌, ◌≢◌, refl, sym, ap, subst, ◌∙◌, ◌↔◌, ◌⊎◌, Bool, true, Option, none, some,
  Bytes, bytes_eq, bytes_eq→eq, codes, arith, if◌then◌else◌, einval, enomem, inl, inr, Bool-cases,
}

module _ {W F : Type 0} (wattsup fluke189 protek506 rs22812 : Driver W F) where
  abbrev type_of : Bytes → ℕ
  type_of = meter_type wattsup fluke189 protek506 rs22812

  abbrev name_of : ℕ → Option Bytes
  name_of t = meter_name wattsup fluke189 protek506 rs22812 (pos t)

  name→type : (n : Bytes) (t : ℕ) → name_of t ≡ some n → (type_of n ≡ t) × (t ≢ 0)
  unfolding meter_name meter_type meters find_name find_type_by_name
  name→type n zero h = absurd (ground arith)
  name→type n (suc zero) h = (ap type_of (sym (some-injective _ _ h)), omega arith)
  name→type n (suc (suc zero)) h = (ap type_of (sym (some-injective _ _ h)), omega arith)
  name→type n (suc (suc (suc zero))) h = (ap type_of (sym (some-injective _ _ h)), omega arith)
  name→type n (suc (suc (suc (suc zero)))) h =
      (ap type_of (sym (some-injective _ _ h)), omega arith)
  name→type n (suc (suc (suc (suc (suc t))))) h = absurd (ground arith)

  -- A name of the list is found again from its type.
  listed :
      (l n : Bytes)
      → bytes_eq l n ≡ true
      → name_of (type_of l) ≡ some l
      → (type_of n ≡ 0) ⊎ (name_of (type_of n) ≡ some n)
  listed l n e h = inr (subst (λ x. name_of (type_of x) ≡ some x) (bytes_eq→eq l n e) h)

  type_cases : (n : Bytes) → (type_of n ≡ 0) ⊎ (name_of (type_of n) ≡ some n)
  unfolding meter_name meter_type meters find_name find_type_by_name
  type_cases n = elim (Bool-cases (bytes_eq (codes "wattsup") n)) [
    | inl e ↦ listed (codes "wattsup") n e refl
    | inr a ↦ elim (Bool-cases (bytes_eq (codes "fluke189") n)) [
      | inl e ↦ listed (codes "fluke189") n e refl
      | inr b ↦ elim (Bool-cases (bytes_eq (codes "protek506") n)) [
        | inl e ↦ listed (codes "protek506") n e refl
        | inr c ↦ elim (Bool-cases (bytes_eq (codes "rs22812") n)) [
          | inl e ↦ listed (codes "rs22812") n e refl
          | inr d ↦ inl (rw (a, b, c, d, find_type_by_name) refl)
        ]
      ]
    ]
  ]

  type→name : (n : Bytes) (t : ℕ) → type_of n ≡ t → t ≢ 0 → name_of t ≡ some n
  type→name n t h ne = elim (type_cases n) [ inl z ↦ absurd (ne (sym h ∙ z)) | inr e ↦ rw (← h) e ]

  -- A name has the type `t` exactly when the type `t` has that name: every meter of the list is found
  -- again by its name, and a type that is not listed has no name.
  pub meter_type-meter_name :
      (n : Bytes) (t : ℕ)
      → (meter_name wattsup fluke189 protek506 rs22812 (pos t) ≡ some n)
        ↔ ((meter_type wattsup fluke189 protek506 rs22812 n ≡ t) × (t ≢ 0))
  meter_type-meter_name n t = (name→type n t, λ h. type→name n t h.0 h.1)

  -- Exactly the types 1 to 4 are found; the entry found has the type asked for, and one to four
  -- measurements are allocated for it unless `malloc` fails.
  pub meter_lookup_lem :
      (t : ℤ) (ok : Bool)
      → ((m : Meter W F) × (meter_lookup wattsup fluke189 protek506 rs22812 t ≡ some m)
          × (t ≡ pos m.type)
          × (1 ≤ m.type)
          × (m.type ≤ 4)
          × (1 ≤ m.count)
          × (m.count ≤ 4)
          × (meter_alloc_mms wattsup fluke189 protek506 rs22812 t ok
              ≡ (if ok then (some m.count, rc_ok) else (none, rc_errno enomem))))
        ⊎ ((meter_lookup wattsup fluke189 protek506 rs22812 t ≡ none)
            × ((k : ℕ) → 1 ≤ k → k ≤ 4 → t ≢ pos k)
            × (meter_alloc_mms wattsup fluke189 protek506 rs22812 t ok ≡ (none, rc_errno einval)))
  unfolding meter_lookup meters find_type meter_alloc_mms
  meter_lookup_lem (pos (suc zero)) ok =
      inl (_, refl, refl, omega arith, omega arith, omega arith, omega arith, refl)
  meter_lookup_lem (pos (suc (suc zero))) ok =
      inl (_, refl, refl, omega arith, omega arith, omega arith, omega arith, refl)
  meter_lookup_lem (pos (suc (suc (suc zero)))) ok =
      inl (_, refl, refl, omega arith, omega arith, omega arith, omega arith, refl)
  meter_lookup_lem (pos (suc (suc (suc (suc zero))))) ok =
      inl (_, refl, refl, omega arith, omega arith, omega arith, omega arith, refl)
  meter_lookup_lem (pos zero) ok = inr (refl, λ k a b e. ground arith, refl)
  meter_lookup_lem (pos (suc (suc (suc (suc (suc t)))))) ok =
      inr (ground arith, λ k a b e. ground arith, ground arith)
  meter_lookup_lem (negsuc t) ok = inr (refl, λ k a b e. ground arith, refl)
