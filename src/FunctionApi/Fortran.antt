-- ===== src/FunctionApi/Fortran.antt =====
-- The calls for Fortran against those for C.
use power_pack.FunctionApi.Limits.{announce-Plain, init_lem, pwr-Plain, begun}
use power_pack.FunctionApi.{
  Api, Network, built, announce, powerpack_fp_init, powerpack_fp_session_start,
  powerpack_fp_session_end, terminated, fortran_init, fortran_session_start, fortran_session_end,
}
use power_pack.LogControl.Handled.{Plain}
use power_pack.LogControl.{ControlMsg}
use power_pack.Prelude.{
  ℕ, ◌+◌, ◌≤◌, ◌≡◌, refl, sym, ap, ◌∙◌, true, false, [], ◌∷◌, ◌++◌, ltb, ◌==◌, if◌then◌else◌,
  length, length-append, set-append, Bytes, codes, Outcome, done, fault, arith,
}
use power_pack.Server.{until_nul}

until_nul-append : (b rest : Bytes) → Plain b → until_nul (b ++ 0 ∷ rest) ≡ b
unfolding until_nul
until_nul-append [] rest h = refl
until_nul-append (x ∷ b) rest h =
    let e : (x == 0) ≡ false = ground (arith, h.0) in
    rw e (ap (◌∷◌ x) (until_nul-append b rest h.2))

terminated-Plain :
    (name rest : Bytes) (x : ℕ)
    → Plain name
    → terminated (name ++ x ∷ rest) (length name) ≡ done name
unfolding terminated
terminated-Plain name rest x h =
    let t : ltb (length name) (length (name ++ x ∷ rest)) ≡ true =
      ground (arith, length-append name (x ∷ rest)) in
    rw t (
      ap done
        (ap until_nul (set-append (length name) name x 0 rest refl) ∙ until_nul-append name rest h))

terminated-fault : (memory : Bytes) (len : ℕ) → length memory ≤ len → terminated memory len ≡ fault
unfolding terminated
terminated-fault memory len h = let t : ltb len (length memory) ≡ false = ground arith in rw t refl

module _ (net : Network) (g : ControlMsg) (s : Api) (name : Bytes) (h : Plain name) where
  file_made :
      (x : ℕ) (rest : Bytes)
      → fortran_init net (name ++ x ∷ rest) (length name) g s
        ≡ announce net (name ++ codes ".pwr") g s
  unfolding fortran_init built
  file_made x rest =
      let a : ltb (length name) (length name + 5) ≡ true = ground arith in
      let b : ltb (length (name ++ codes ".pwr")) (length name + 5) ≡ true =
        ground (arith, length-append name (codes ".pwr")) in
      rw (terminated-Plain name rest x h) (rw (a, b) refl)

  init_same :
      (x : ℕ) (rest : Bytes)
      → fortran_init net (name ++ x ∷ rest) (length name) g s ≡ powerpack_fp_init net name g s
  init_same x rest =
      let file = name ++ codes ".pwr" in
      let same : ltb (length file) 62 ≡ ltb (length name) 58 =
        ground (arith, length-append name (codes ".pwr")) in
      let out : ltb (length file) 62 ≡ ltb (length name) 58
          → (let o : Outcome Api =
                if ltb (length file) 62 then done (begun net file g s) else fault in
              o)
            ≡ (if ltb (length name) 58 then done (begun net file g s) else fault) =
        λ e. ap (λ b. if b then done (begun net file g s) else fault) e in
      file_made x rest
      ∙ (announce-Plain net g s file (pwr-Plain name h)
          ∙ (out same ∙ sym (init_lem net g s name h)))

  -- Where the byte behind the name belongs to the program, each call for Fortran does what the call for C does
  -- with that name, if the name has neither NUL nor percent sign. Where the name fills its memory, as a Fortran
  -- string does, each call writes the terminating NUL outside.
  pub fortran_lem :
      (x : ℕ) (rest memory : Bytes) (len : ℕ)
      → length memory ≤ len
      → (fortran_init net (name ++ x ∷ rest) (length name) g s ≡ powerpack_fp_init net name g s)
        × (fortran_session_start net (name ++ x ∷ rest) (length name) g s
            ≡ powerpack_fp_session_start net name g s)
        × (fortran_session_end net (name ++ x ∷ rest) (length name) g s
            ≡ powerpack_fp_session_end net name g s)
        × (fortran_init net memory len g s ≡ fault)
        × (fortran_session_start net memory len g s ≡ fault)
        × (fortran_session_end net memory len g s ≡ fault)
  unfolding fortran_init fortran_session_start fortran_session_end powerpack_fp_session_start
      powerpack_fp_session_end
  fortran_lem x rest memory len full =
      let t = terminated-Plain name rest x h in
      let f = terminated-fault memory len full in
      (init_same x rest, rw t refl, rw t refl, rw f refl, rw f refl, rw f refl)
