-- ===== src/FunctionApi/Limits.antt =====
-- Which names the calls of fcontrol.c can take.
use power_pack.FunctionApi.{
  Api, Network, meter_port, netmeter_close, send_control_msg, tell, built, directory, announce,
  powerpack_fp_init, scp, fetch_file, fetch, powerpack_fp_end, powerpack_fp_session_start,
  powerpack_fp_session_end,
}
use power_pack.LogControl.Handled.{Plain, filled, fill-Plain, format-Plain}
use power_pack.LogControl.{ControlMsg, fill}
use power_pack.Prelude.{
  ℕ, ◌+◌, ◌*◌, ◌≤◌, ◌<◌, ◌≡◌, refl, ap, ◌∙◌, inl, inr, true, false, some, [], ◌∷◌, ◌++◌, ltb,
  if◌then◌else◌, length, length-append, Bytes, codes, done, fault, arith, Bool-cases,
}

pub Plain-append : (a b : Bytes) → Plain a → Plain b → Plain (a ++ b)
Plain-append [] b h k = k
Plain-append (x ∷ a) b h k = (h.0, h.1, Plain-append a b h.2 k)

pub directory-Plain : Plain directory
directory-Plain = ground arith

pub pwr-Plain : (name : Bytes) → Plain name → Plain (name ++ codes ".pwr")
pwr-Plain name h = Plain-append name (codes ".pwr") h (ground arith)

pub session-Plain : (name : Bytes) → Plain name → Plain (codes "session_" ++ name)
session-Plain name h = Plain-append (codes "session_") name (ground arith) h

-- The state once a message is sent.
abbrev pub sending : Network → ControlMsg → Api → Api
sending net g s = (send_control_msg net meter_port g s).0

pub sending-lfile :
    (net : Network) (g : ControlMsg) (s : Api)
    → ((sending net g s).lfile ≡ s.lfile) × ((sending net g s).commands ≡ s.commands)
unfolding send_control_msg netmeter_close
sending-lfile net g s = ground arith

fill-fault :
    (cmd : ℕ) (text : Bytes) (g : ControlMsg)
    → Plain text
    → 62 ≤ length text
    → fill cmd text g ≡ fault
unfolding fill
fill-fault cmd text g h le =
    let e : ltb (length text) 62 ≡ false = ground arith in
    rw (fill, format-Plain text h) (rw e refl)

module _ (net : Network) (cmd : ℕ) (text : Bytes) (g : ControlMsg) (s : Api) (h : Plain text) where
  pub tell-Plain :
      length text < 62
      → tell net cmd text g s ≡ done (filled cmd text g, sending net (filled cmd text g) s)
  unfolding tell
  tell-Plain lt = rw (fill-Plain cmd text g h lt) refl

  pub tell-fault : 62 ≤ length text → tell net cmd text g s ≡ fault
  unfolding tell
  tell-fault le = rw (fill-fault cmd text g h le) refl

-- What the calls leave when every array has room.
abbrev pub begun : Network → Bytes → ControlMsg → Api → Api
begun net file g s =
    let g1 = filled 24 directory g in
    sending net (filled 20 file g1) (sending net g1 (record s { lfile = some file }))

abbrev pub ended : Network → Bytes → ControlMsg → Api → Api
ended net file g s =
    let s1 = sending net (filled 22 (codes "log") g) s in
    record s1 { commands = s1.commands ++ scp file ∷ [] }

pub length-scp : (file : Bytes) → length (scp file) ≡ 39 + 2 * length file
unfolding scp
length-scp file = omega (arith, length-append file (codes " ./" ++ file))

module _ (net : Network) (g : ControlMsg) (s : Api) where
  pub announce-Plain :
      (file : Bytes)
      → Plain file
      → announce net file g s ≡ (if ltb (length file) 62 then done (begun net file g s) else fault)
  unfolding announce
  announce-Plain file h =
      let g1 = filled 24 directory g in
      let s1 = sending net g1 (record s { lfile = some file }) in
      let d =
        tell-Plain net 24 directory g (record s { lfile = some file }) directory-Plain
          (omega arith) in
      elim (Bool-cases (ltb (length file) 62)) [
        | inl t ↦ rw (d, t) (rw (tell-Plain net 20 file g1 s1 h (ground arith)) refl)
        | inr t ↦ rw (d, t) (rw (tell-fault net 20 file g1 s1 h (ground arith)) refl)
      ]

  pub init_lem :
      (name : Bytes)
      → Plain name
      → powerpack_fp_init net name g s
        ≡ (if ltb (length name) 58 then done (begun net (name ++ codes ".pwr") g s) else fault)
  unfolding powerpack_fp_init built
  init_lem name h =
      let file = name ++ codes ".pwr" in
      let l : length file ≡ length name + 4 = length-append name (codes ".pwr") in
      let a = announce-Plain file (pwr-Plain name h) in
      elim (Bool-cases (ltb (length name) 100)) [
        | inl t ↦ elim (Bool-cases (ltb (length file) 100)) [
          | inl u ↦
              let same : ltb (length file) 62 ≡ ltb (length name) 58 = ground (arith, l) in
              rw (t, u) (rw (a, same) refl)
          | inr u ↦ let no : ltb (length name) 58 ≡ false = ground (arith, l) in rw (t, u, no) refl
        ]
        | inr t ↦ let no : ltb (length name) 58 ≡ false = ground (arith, l) in rw (t, no) refl
      ]

  pub start_lem :
      (name : Bytes)
      → Plain name
      → powerpack_fp_session_start net name g s
        ≡ (if ltb (length name) 62 then done (sending net (filled 21 name g) s) else fault)
  unfolding powerpack_fp_session_start
  start_lem name h = elim (Bool-cases (ltb (length name) 62)) [
    | inl t ↦ rw (t) (rw (tell-Plain net 21 name g s h (ground arith)) refl)
    | inr t ↦ rw (t) (rw (tell-fault net 21 name g s h (ground arith)) refl)
  ]

  pub stop_lem :
      (name : Bytes)
      → Plain name
      → powerpack_fp_session_end net name g s ≡ (
          if ltb (length name) 54
          then done (sending net (filled 23 (codes "session_" ++ name) g) s)
          else fault)
  unfolding powerpack_fp_session_end built
  stop_lem name h =
      let label = codes "session_" ++ name in
      elim (Bool-cases (ltb (length name) 54)) [
        | inl t ↦
            let u : ltb (length label) 100 ≡ true = ground arith in
            rw (u, t) (rw (tell-Plain net 23 label g s (session-Plain name h) (ground arith)) refl)
        | inr t ↦ elim (Bool-cases (ltb (length label) 100)) [
          | inl u ↦
              rw (u, t)
                (rw (tell-fault net 23 label g s (session-Plain name h) (ground arith)) refl)
          | inr u ↦ rw (u, t) refl
        ]
      ]

  fetch_lem :
      (file : Bytes)
      → fetch_file file s ≡ (
          if ltb (length file) 31
          then done record s { commands = s.commands ++ scp file ∷ [] }
          else fault)
  unfolding fetch_file built
  fetch_lem file =
      let l = length-scp file in
      elim (Bool-cases (ltb (length file) 31)) [
        | inl t ↦
            let u : ltb (length (scp file)) 100 ≡ true = ground (arith, l) in
            let v : ltb (length (scp file)) (39 + 3 + 2 * length file) ≡ true = ground (arith, l) in
            rw (u, v, t) refl
        | inr t ↦ let u : ltb (length (scp file)) 100 ≡ false = ground (arith, l) in rw (u, t) refl
      ]

pub end_lem :
    (net : Network) (g : ControlMsg) (s : Api) (file : Bytes)
    → s.lfile ≡ some file
    → powerpack_fp_end net g s ≡ (if ltb (length file) 31 then done (ended net file g s) else fault)
unfolding powerpack_fp_end fetch
end_lem net g s file e =
    let g1 = filled 22 (codes "log") g in
    rw (tell-Plain net 22 (codes "log") g s (ground arith) (omega arith)) (
      ap (λ o. fetch o (sending net g1 s)) ((sending-lfile net g1 s).0 ∙ e)
      ∙ fetch_lem net g1 (sending net g1 s) file)

-- For names without NUL and percent sign: a log is begun exactly when its name has fewer than 58 bytes, and
-- fetched at the end exactly when its file's name, with ".pwr", has fewer than 31; a session is begun when its name has
-- fewer than 62 bytes, and ended when it has fewer than 54. Any other name is written past an array.
pub powerpack_fp_lem :
    (net : Network) (g : ControlMsg) (s : Api) (name : Bytes)
    → Plain name
    → (powerpack_fp_init net name g s
        ≡ (if ltb (length name) 58 then done (begun net (name ++ codes ".pwr") g s) else fault))
      × (powerpack_fp_session_start net name g s
          ≡ (if ltb (length name) 62 then done (sending net (filled 21 name g) s) else fault))
      × (powerpack_fp_session_end net name g s ≡ (
          if ltb (length name) 54
          then done (sending net (filled 23 (codes "session_" ++ name) g) s)
          else fault))
      × ((file : Bytes)
          → s.lfile ≡ some file
          → powerpack_fp_end net g s
            ≡ (if ltb (length file) 31 then done (ended net file g s) else fault))
powerpack_fp_lem net g s name h =
    (init_lem net g s name h, start_lem net g s name h, stop_lem net g s name h, end_lem net g s)
