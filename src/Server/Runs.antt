-- ===== src/Server/Runs.antt =====
-- Which messages multiserver.c takes without writing past the buffer of a message.
use power_pack.NetMeter.Wire.{Layout}
use power_pack.Prelude.{
  ℕ, ◌<◌, ◌≡◌, refl, Bool, true, false, List, [], ◌∷◌, ltb, ◌==◌, ◌&&◌, if◌then◌else◌, length,
  get_or, Outcome, done, fault, ReadResult, received, failed, arith,
}
use power_pack.Server.{
  Server, Client, Event, hang_up, handle_control, handle_message, coalesce, client_round, api_round,
  client_loop, api_loop, msgbuf, text_end,
}

-- The second byte of what is read, which is the length of a control message, is at most 61 or at least 128.
abbrev pub IsBounded : ReadResult → Type 0
IsBounded failed = Unit {0}
IsBounded (received got) = text_end (get_or (msgbuf got) 1 0) < 62

abbrev pub AllBounded : List Event → Type 0
AllBounded [] = Unit {0}
AllBounded (e ∷ es) = IsBounded e.result × AllBounded es

abbrev Ends : Outcome (Server × Client) → Type 0
Ends o = (r : Server × Client) × (o ≡ done r)

if-Ends : (b : Bool) (x y : Outcome (Server × Client)) → Ends x → Ends y → Ends (if b then x else y)
if-Ends true x y p q = p
if-Ends false x y p q = q

control-Ends :
    (b : Bool) (s : Server) (c : Client)
    → b ≡ true
    → Ends (elim (if b then done s else fault) [ fault ↦ fault | done s' ↦ done (s', hang_up c) ])
control-Ends true s c h = (_, refl)
control-Ends false s c h = absurd (ground arith)

module _ (l : Layout) where
  message-Ends :
      (e : Event) (size : ℕ) (got : List ℕ) (s : Server) (c : Client)
      → IsBounded (received got)
      → Ends (handle_message l e size (msgbuf got) s c)
  unfolding handle_message handle_control
  message-Ends e size got s c h =
      let t : ltb (text_end (get_or (msgbuf got) 1 0)) 62 ≡ true = ground arith in
      if-Ends (size == l.size) _ _ (_, refl)
        (if-Ends (ltb 2 size) _ _ (control-Ends _ _ c t) (_, refl))

  received-Ends :
      (e : Event) (size : ℕ → ℕ) (s : Server) (c : Client) (r : ReadResult)
      → IsBounded r
      → Ends (elim r [
        | failed ↦ done (s, hang_up c)
        | received got ↦
            if e.still_running
            then handle_message l e (size (length got)) (msgbuf got) s c
            else done (s, hang_up c)
      ])
  received-Ends e size s c failed h = (_, refl)
  received-Ends e size s c (received got) h =
      if-Ends e.still_running _ _ (message-Ends e (size (length got)) got s c h) (_, refl)

  next-Ends :
      (o : Outcome (Server × Client)) (f : Server → Client → Outcome (Server × Client))
      → Ends o
      → ((s : Server) (c : Client) → Ends (f s c))
      → Ends (elim o [ fault ↦ fault | done r ↦ f r.0 r.1 ])
  next-Ends fault f (r, e) k = absurd (ground arith)
  next-Ends (done r) f h k = k r.0 r.1

  pub client_loop-Ends :
      (es : List Event) (s : Server) (c : Client) → AllBounded es → Ends (client_loop l es s c)
  unfolding client_loop client_round
  client_loop-Ends [] s c h = (_, refl)
  client_loop-Ends (e ∷ es) s c h =
      if-Ends (e.running && c.connected) _ _
        (next-Ends (client_round l e s c) (client_loop l es)
          (if-Ends e.is_set _ _
            (received-Ends e (coalesce l) s (if e.select_ok then c else hang_up c) e.result h.0)
            (_, refl))
          (λ s' c'. client_loop-Ends es s' c' h.1))
        (_, refl)

  pub api_loop-Ends :
      (es : List Event) (s : Server) (c : Client) → AllBounded es → Ends (api_loop l es s c)
  unfolding api_loop api_round
  api_loop-Ends [] s c h = (_, refl)
  api_loop-Ends (e ∷ es) s c h =
      if-Ends (e.running && c.connected) _ _
        (next-Ends (api_round l e s c) (api_loop l es) (received-Ends e (λ n. n) s c e.result h.0)
          (λ s' c'. api_loop-Ends es s' c' h.1))
        (_, refl)
