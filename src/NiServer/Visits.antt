-- ===== src/NiServer/Visits.antt =====
-- What `client_req` answers to what a connection sends.
use power_pack.NetMeter.Wire.{lp64, Request, Fits, encode_lp64, length-encode_lp64}
use power_pack.NetMeter.{cmd_power}
use power_pack.NiServer.{
  NiServer, Visit, send_channels, power_packet, answer_request, answer_message, visit_round,
}
use power_pack.Prelude.{
  ℕ, ◌+◌, ◌%◌, ◌≤◌, ◌≡◌, ◌≢◌, ap, ◌∙◌, true, ◌&&◌, ◌∷◌, ltb, if◌then◌else◌, length, Bytes, done,
  fault, received, arith,
}
use power_pack.Server.Dispatch.{first_word-power}
use power_pack.Server.{Client, reply, msgbuf, text_end, coalesce}

module _ (e : Visit) (s : NiServer) (c : Client) (ready : e.select_ok ≡ true)
    (going : e.still_running ≡ true) where
  visit_received :
      (got : Bytes)
      → e.result ≡ received got
      → visit_round e s c ≡ answer_message e (coalesce lp64 (length got)) (msgbuf got) s c
  unfolding visit_round
  visit_received got r = simp (visit_round, r, going, ready)

  answer_power :
      (w : ℕ) → w ≡ 2 → e.writable ≡ true → answer_request e w s c ≡ (s, reply (power_packet e s) c)
  unfolding answer_request send_channels
  answer_power w h t = simp (answer_request, h, t)

  -- A request for power of 32 bytes.
  pub power_answered :
      (pad pad' : Bytes) (msg : Request)
      → Fits pad pad' (record msg { cmd = cmd_power })
      → e.writable ≡ true
      → e.result ≡ received (encode_lp64 pad pad' (record msg { cmd = cmd_power }))
      → visit_round e s c ≡ done (s, reply (power_packet e s) c)
  unfolding answer_message coalesce
  power_answered pad pad' msg fits w r =
      let asked : Request = record msg { cmd = cmd_power } in
      visit_received (encode_lp64 pad pad' asked) r
      ∙ rw (length-encode_lp64 pad pad' asked fits)
          (ap done (answer_power _ (first_word-power pad pad' msg) w))

  -- A message of 3 to 64 bytes whose length is no multiple of 32 is printed and changes nothing, unless
  -- its second byte is 62 to 127: then a NUL is written past the buffer.
  pub control_answered :
      (x y : ℕ) (rest : Bytes)
      → e.result ≡ received (x ∷ y ∷ rest)
      → 1 ≤ length rest
      → (2 + length rest) % 32 ≢ 0
      → visit_round e s c ≡ (if ltb 61 y && ltb y 128 then fault else done (s, c))
  unfolding answer_message coalesce text_end
  control_answered x y rest r long odd = visit_received (x ∷ y ∷ rest) r ∙ ground arith
