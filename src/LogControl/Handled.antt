-- ===== src/LogControl/Handled.antt =====
-- What the program sends is handled by the server of multiserver.c as it was meant.
use power_pack.LogControl.{
  ControlMsg, option_l, option_s, option_d, clip, format_from, fill, packet, handle_option,
}
use power_pack.NetMeter.Wire.{lp64}
use power_pack.Prelude.{
  ℕ, zero, suc, ◌≤◌, ◌<◌, ◌≡◌, ◌≢◌, refl, ap, ◌∙◌, inl, inr, true, false, ◌&&◌, some, [], ◌∷◌, ◌++◌,
  ltb, leb, ◌==◌, length, length-take, length-append, length-drop, take, drop, set, Bytes, done,
  received, arith, Bool-cases,
}
use power_pack.Server.Dispatch.{api_round-client_round, handle_control_lem}
use power_pack.Server.{
  Server, Client, Event, hang_up, until_nul, handle_control, control, api_round,
}

-- Bytes of a C string that is no conversion: neither NUL nor a percent sign.
abbrev pub Plain : Bytes → Type 0
Plain [] = Unit {0}
Plain (x ∷ b) = (x ≢ 0) × (x ≢ b'%') × Plain b

pub format-Plain : (b : Bytes) → Plain b → format_from false b ≡ some b
unfolding format_from
format-Plain [] h = refl
format-Plain (x ∷ b) h =
    let e : (x == b'%') ≡ false = ground (arith, h.1) in rw e (rw (format-Plain b h.2) refl)

take-Plain : (n : ℕ) (b : Bytes) → Plain b → Plain (take n b)
take-Plain zero b h = _
take-Plain (suc n) [] h = _
take-Plain (suc n) (x ∷ b) h = (h.0, h.1, take-Plain n b h.2)

-- The text ends at its NUL, also after a NUL has been stored behind it.
until_nul-set :
    (b rest : Bytes) (k : ℕ) → Plain b → length b ≤ k → until_nul (set (b ++ 0 ∷ rest) k 0) ≡ b
unfolding until_nul
until_nul-set [] rest zero h le = refl
until_nul-set [] rest (suc k) h le = refl
until_nul-set (x ∷ b) rest zero h le = absurd (omega arith)
until_nul-set (x ∷ b) rest (suc k) h le =
    let e : (x == 0) ≡ false = ground (arith, h.0) in
    rw e (ap (◌∷◌ x) (until_nul-set b rest k h.2 (omega arith)))

-- What `fill` leaves for a plain text that fits.
abbrev pub filled : ℕ → Bytes → ControlMsg → ControlMsg
filled cmd b g = record { cmd = cmd; len = length b; msg = b ++ 0 ∷ drop (suc (length b)) g.msg }

pub fill-Plain :
    (cmd : ℕ) (b : Bytes) (g : ControlMsg)
    → Plain b
    → length b < 62
    → fill cmd b g ≡ done (filled cmd b g)
unfolding fill
fill-Plain cmd b g h lt =
    let e : ltb (length b) 62 ≡ true = ground arith in rw (fill, format-Plain b h) (rw e refl)

module _ (g : ControlMsg) (whole : length g.msg ≡ 62) (e : Event) (s : Server) (c : Client) where
  pub filled_handled :
      (cmd : ℕ) (b : Bytes)
      → Plain b
      → length b < 62
      → e.is_set ≡ true
      → e.result ≡ received (packet (filled cmd b g))
      → e.still_running ≡ true
      → api_round lp64 e s c ≡ done (control e cmd b s, hang_up c)
  filled_handled cmd b h lt a r k =
      let text = b ++ 0 ∷ drop (suc (length b)) g.msg in
      let sz : length (length b ∷ text) ≡ 63 = omega (
        arith,
        length-append b (0 ∷ drop (suc (length b)) g.msg),
        length-drop (suc (length b)) g.msg,
      ) in
      let three = api_round-client_round e s cmd (length b ∷ text) sz c a r k in
      let short : (ltb 61 (length b) && ltb (length b) 128) ≡ false = ground arith in
      let u = until_nul-set b (drop (suc (length b)) g.msg) 61 h (omega arith) in
      let v : handle_control e (cmd ∷ length b ∷ text) s ≡ done (control e cmd b s) =
        handle_control_lem e s cmd (length b ∷ text) sz ∙ rw (short, u) refl in
      three.2 ∙ rw v refl

  clip-Plain : (text : Bytes) → Plain text → Plain (clip text) × (length (clip text) < 62)
  unfolding clip
  clip-Plain text h = elim (Bool-cases (leb 62 (length text))) [
    | inl t ↦ rw t (take-Plain 61 text h, omega (arith, length-take 61 text))
    | inr t ↦ rw t (h, ground arith)
  ]

  -- For an argument without NUL and percent sign, the options for a new log, a new session and a change of
  -- directory send their command with the argument, cut to 61 bytes; when the second port of the server
  -- receives such a message, on x86-64, it carries out that command on that text and hangs up.
  pub api_round-handle_option :
      (cmd : ℕ) (text : Bytes)
      → Plain text
      → e.is_set ≡ true
      → e.result ≡ received (packet (filled cmd (clip text) g))
      → e.still_running ≡ true
      → (handle_option (option_l text) g
          ≡ done (filled 20 (clip text) g, some (packet (filled 20 (clip text) g))))
        × (handle_option (option_s text) g
            ≡ done (filled 21 (clip text) g, some (packet (filled 21 (clip text) g))))
        × (handle_option (option_d text) g
            ≡ done (filled 24 (clip text) g, some (packet (filled 24 (clip text) g))))
        × (api_round lp64 e s c ≡ done (control e cmd (clip text) s, hang_up c))
  unfolding handle_option
  api_round-handle_option cmd text h a r k =
      let p = clip-Plain text h in
      let f : (n : ℕ) → fill n (clip text) g ≡ done (filled n (clip text) g) =
        λ n. fill-Plain n (clip text) g p.0 p.1 in
      (
        rw (handle_option, f 20) refl,
        rw (handle_option, f 21) refl,
        rw (handle_option, f 24) refl,
        filled_handled cmd (clip text) p.0 p.1 a r k,
      )
