-- ===== src/WattsUp/Port.antt =====
-- What is written to the port, and how the bytes of a line are collected.
use power_pack.Prelude.{
  ℕ, zero, suc, ◌+◌, ◌-◌, ◌≤◌, ◌<◌, ◌≡◌, refl, ap, sym, ◌∙◌, ◌⊎◌, inl, inr, Bool, true, false, ◌||◌,
  min, Option, none, some, List, [], ◌∷◌, ◌++◌, append_assoc, append-nil, leb, if◌then◌else◌,
  length, length-append, length-take, take, take_all, replicate, Bytes, codes, Outcome, done, fault,
  ReadResult, received, failed, arith, Bool-cases,
}
use power_pack.WattsUp.{query, last_is, end_test, read_term}

-- `n` queries in turn, all of whose writes succeed.
unfoldable pub queries : ℕ → Bool → List Bytes → Option (Bool × List Bytes)
queries zero preamble sent = some (preamble, sent)
queries (suc n) preamble sent = elim (query true true preamble sent) [
  | none ↦ none
  | some r ↦ queries n r.0 r.1
]

later_queries :
    (n : ℕ) (sent : List Bytes)
    → queries n true sent ≡ some (true, sent ++ replicate n (codes "#L,W,3,E,1,1;"))
unfolding queries query
later_queries zero sent = ap (λ s. some (true, s)) (sym (append-nil sent))
later_queries (suc n) sent =
    later_queries n (sent ++ codes "#L,W,3,E,1,1;" ∷ [])
    ∙ ap (λ s. some (true, s))
        (append_assoc sent (codes "#L,W,3,E,1,1;" ∷ []) (replicate n (codes "#L,W,3,E,1,1;")))

-- From the start, a number of queries whose writes succeed sends the command that clears the meter once, before
-- all else, and then one query command for each; when a write fails the program ends, so that the branch of
-- the code for a failed preamble is never taken.
pub queries_lem :
    (n : ℕ) (ok : Bool)
    → (queries (suc n) false []
        ≡ some (true, codes "#R,W,0;" ∷ replicate (suc n) (codes "#L,W,3,E,1,1;")))
      × (query false ok false [] ≡ none)
      × (query ok false true [] ≡ none)
unfolding queries query
queries_lem n ok = (later_queries n (codes "#R,W,0;" ∷ codes "#L,W,3,E,1,1;" ∷ []), refl, refl)

-- Every read gives at least one byte.
abbrev pub AllGive : List ReadResult → Type 0
AllGive [] = Unit {0}
AllGive (failed ∷ rs) = ⊥
AllGive (received [] ∷ rs) = ⊥
AllGive (received (x ∷ b) ∷ rs) = AllGive rs

end_test_nonempty :
    (t space : ℕ) (acc : Bytes) (rest : Outcome (Option Bytes))
    → 1 ≤ length acc
    → end_test t space acc rest
      ≡ (if last_is t acc || leb space (length acc) then done (some acc) else rest)
unfolding end_test
end_test_nonempty t space [] rest h = absurd (omega arith)
end_test_nonempty t space (x ∷ b) rest h = refl

-- A line that has been read: it ends in the terminator, or the space is used up.
abbrev pub IsLine : ℕ → ℕ → Bytes → Type 0
IsLine t space out = (length out ≤ space) × ((last_is t out ≡ true) ⊎ (length out ≡ space))

read_term_from :
    (t space : ℕ) (acc : Bytes) (rs : List ReadResult)
    → AllGive rs
    → length acc < space
    → space ≤ length acc + length rs
    → (out : Bytes) × (read_term t space acc rs ≡ done (some out)) × IsLine t space out
unfolding read_term
read_term_from t space acc [] g h k = absurd (omega arith)
read_term_from t space acc (failed ∷ rs) g h k = elim g [ ]
read_term_from t space acc (received [] ∷ rs) g h k = elim g [ ]
read_term_from t space acc (received (x ∷ b) ∷ rs) g h k =
    let acc1 = acc ++ take (space - length acc) (x ∷ b) in
    let l1 : length acc1 ≡ length acc + min (space - length acc) (suc (length b)) =
      length-append acc (take (space - length acc) (x ∷ b))
      ∙ ap (λ n. length acc + n) (length-take (space - length acc) (x ∷ b)) in
    let rest = read_term t space acc1 rs in
    let e = end_test_nonempty t space acc1 rest (omega arith) in
    elim (Bool-cases (last_is t acc1 || leb space (length acc1))) [
      | inl y ↦ (acc1, e ∙ rw y refl, (omega arith, ground arith))
      | inr y ↦
          let (out, q, line) = read_term_from t space acc1 rs g (ground arith) (omega arith) in
          (out, e ∙ rw y q, line)
    ]

-- When every read gives at least one byte, as many reads as there is space end the loop, with a line that
-- ends in the terminator or fills the space. When the first read gives none, or fails, the test at the
-- end of the loop reads the byte before the buffer.
pub read_term_lem :
    (t space : ℕ) (rs : List ReadResult)
    → (AllGive rs
        → 1 ≤ space
        → space ≤ length rs
        → (out : Bytes) × (read_term t space [] rs ≡ done (some out)) × IsLine t space out)
      × (read_term t space [] (received [] ∷ rs) ≡ fault)
      × (read_term t space [] (failed ∷ rs) ≡ fault)
unfolding read_term end_test
read_term_lem t space rs = (
  (λ g h k. read_term_from t space [] rs g (omega arith) (omega arith)),
  rw (take_all {A = ℕ} (space - 0) [] (omega arith)) refl,
  refl,
)
