-- ===== src/Server/Dispatch.antt =====
-- Which messages are taken for requests and which for control messages.
use power_pack.NetMeter.{cmd_power}
use power_pack.NetMeter.Wire.{Layout, Request, lp64, ilp32, first_word, encode_lp64, le32}
use power_pack.Prelude.{
  ℕ, suc, ◌%◌, ◌≤◌, ◌<◌, ◌≡◌, ◌≢◌, take-append_self, refl, ap, sym, subst, ◌∙◌, inl, inr, true,
  false, ◌∷◌, ltb, ◌==◌, ◌&&◌, if◌then◌else◌, length, get_or, set, drop, replicate, Bytes, Outcome,
  done, fault, received, arith, Bool-cases,
}
use power_pack.Server.{
  Server, Client, Event, hang_up, handle_request, strncpy, until_nul, control, text_end,
  handle_control, msgbuf, handle_message, coalesce, client_round, api_round,
}

-- The first byte of a buffer survives strncpy, so the word read there has it as its low byte.
first_word-strncpy :
    (n : ℕ) (x : ℕ) (b : Bytes) → x ≢ 0 → x < 256 → first_word (strncpy (suc n) (x ∷ b)) % 256 ≡ x
unfolding first_word strncpy
first_word-strncpy n x b ne lt = let e : (x == 0) ≡ false = ground arith in rw e (omega arith)

-- A request for power keeps its command through the copy into the message.
pub first_word-power :
    (pad pad' : Bytes) (msg : Request)
    → first_word (strncpy 32 (msgbuf (encode_lp64 pad pad' (record msg { cmd = cmd_power })))) ≡ 2
unfolding encode_lp64 le32 strncpy first_word
first_word-power pad pad' msg = refl

unknown_command :
    (e : Event) (w : ℕ) (s : Server) (c : Client)
    → 20 ≤ w % 256
    → handle_request e w s c ≡ (s, hang_up c)
unfolding handle_request
unknown_command e w s c h = ground arith

pub client_round_received :
    (l : Layout) (e : Event) (s : Server) (c : Client) (got : Bytes)
    → e.is_set ≡ true
    → e.result ≡ received got
    → e.still_running ≡ true
    → client_round l e s c
      ≡ handle_message l e
          (coalesce l (length got))
          (msgbuf got)
          s
          (if e.select_ok then c else hang_up c)
unfolding client_round
client_round_received l e s c got a r k = simp (a, r, k)

pub api_round_received :
    (l : Layout) (e : Event) (s : Server) (c : Client) (got : Bytes)
    → e.result ≡ received got
    → e.still_running ≡ true
    → api_round l e s c ≡ handle_message l e (length got) (msgbuf got) s c
unfolding api_round
api_round_received l e s c got r k = simp (api_round, r, k)

-- A message of 64 bytes, as control messages are sent.
module _ (e : Event) (s : Server) (x : ℕ) (b : Bytes) (sz : length b ≡ 63) where
  msgbuf_all : msgbuf (x ∷ b) ≡ x ∷ b
  msgbuf_all = ap (◌∷◌ x) (take-append_self 63 b (replicate 64 0) (sym sz))

  request_unknown :
      (c : Client)
      → 20 ≤ x
      → x < 256
      → handle_request e (first_word (strncpy 32 (x ∷ b))) s c ≡ (s, hang_up c)
  request_unknown c lo hi =
      unknown_command e (first_word (strncpy 32 (x ∷ b))) s c
        (subst (λ n. 20 ≤ n) (sym (first_word-strncpy 31 x b (omega arith) hi)) lo)

  abbrev control_only : Client → Outcome (Server × Client)
  control_only c = elim (handle_control e (x ∷ b) s) [
    | fault ↦ fault
    | done s' ↦ done (s', hang_up c)
  ]

  select_twice : (c : Client) → control_only (if e.select_ok then c else hang_up c) ≡ control_only c
  select_twice c = elim (Bool-cases e.select_ok) [ inl p ↦ simp p | inr p ↦ simp p ]

  message_lp64 :
      (c : Client)
      → 20 ≤ x
      → x < 256
      → handle_message lp64 e (coalesce lp64 64) (x ∷ b) s c ≡ done (s, hang_up c)
  unfolding handle_message coalesce
  message_lp64 c lo hi = rw (request_unknown c lo hi) refl

  message_control :
      (l : Layout) (c : Client)
      → (64 == l.size) ≡ false
      → handle_message l e 64 (x ∷ b) s c ≡ control_only c
  unfolding handle_message
  message_control l c h = rw (h, handle_message) refl

  -- A control command in a message of 64 bytes reaches no log on x86-64: `client_req` takes the message for
  -- two requests of 32 bytes, finds its command unknown, and hangs up with nothing changed.
  pub client_round-lp64 :
      (c : Client)
      → 20 ≤ x
      → x < 256
      → e.is_set ≡ true
      → e.result ≡ received (x ∷ b)
      → e.still_running ≡ true
      → client_round lp64 e s c ≡ done (s, hang_up c)
  client_round-lp64 c lo hi a r k =
      let c1 : Client = if e.select_ok then c else hang_up c in
      let p : handle_message lp64 e (coalesce lp64 (suc (length b))) (msgbuf (x ∷ b)) s c1
          ≡ done (s, hang_up c1) =
        rw (sz, msgbuf_all) (message_lp64 c1 lo hi) in
      client_round_received lp64 e s c (x ∷ b) a r k
      ∙ (p ∙ elim (Bool-cases e.select_ok) [ inl p ↦ simp p | inr p ↦ simp p ])

  -- On i386 the same message is no multiple of the 24 bytes of a request; there, and in `client_req_fAPI`
  -- on either platform, it is handled as a control message, which ends the connection.
  pub api_round-client_round :
      (c : Client)
      → e.is_set ≡ true
      → e.result ≡ received (x ∷ b)
      → e.still_running ≡ true
      → (client_round ilp32 e s c ≡ api_round lp64 e s c)
        × (api_round ilp32 e s c ≡ api_round lp64 e s c)
        × (api_round lp64 e s c ≡ (elim (handle_control e (x ∷ b) s) [
          | fault ↦ fault
          | done s' ↦ done (s', hang_up c)
        ]))
  unfolding coalesce
  api_round-client_round c a r k =
      let api : (l : Layout) → (64 == l.size) ≡ false → api_round l e s c ≡ control_only c = λ l h.
        api_round_received l e s c (x ∷ b) r k ∙ rw (sz, msgbuf_all) (message_control l c h) in
      let client : client_round ilp32 e s c ≡ control_only c =
        client_round_received ilp32 e s c (x ∷ b) a r k
        ∙ (rw (sz, msgbuf_all) (message_control ilp32 (if e.select_ok then c else hang_up c) refl)
            ∙ select_twice c) in
      (client ∙ sym (api lp64 refl), api ilp32 refl ∙ sym (api lp64 refl), api lp64 refl)

  -- The write of the terminating NUL leaves the buffer exactly when the length byte is 62 to 127; otherwise
  -- the command is carried out on the text up to the first NUL.
  pub handle_control_lem : handle_control e (x ∷ b) s ≡ (
      let len = get_or b 0 0 in
      if ltb 61 len && ltb len 128
      then fault
      else done (control e x (until_nul (set (drop 1 b) 61 0)) s))
  unfolding handle_control text_end
  handle_control_lem = ground arith
