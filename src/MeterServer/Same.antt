-- ===== src/MeterServer/Same.antt =====
-- client_req of mserver.c and sensor_server.c against client_req_fAPI of multiserver.c.
use power_pack.MeterServer.{
  Log, MeterServer, shut_log, open_log, finish_log, print_log, carry_out, serve_request,
  serve_control, serve_message, serve_round, serve_loop,
}
use power_pack.NetMeter.Wire.{lp64, first_word}
use power_pack.Prelude.{
  ℕ, suc, ◌≡◌, refl, sym, subst, ap, inl, inr, Bool, true, false, ◌&&◌, none, some, List, [], ◌∷◌,
  ltb, ◌==◌, if◌then◌else◌, length, get_or, set, drop, Bytes, Outcome, done, fault, received,
  failed, Bool-cases, Option-cases,
}
use power_pack.Server.{
  Server, Client, Event, hang_up, strncpy, until_nul, msgbuf, text_end, close_log, new_log, end_log,
  log_line, begin_log, begin_session, end_session, control, handle_control, handle_request,
  handle_message, api_round, api_loop,
}

-- Connections that have sent the same number of replies, and go on or not alike.
abbrev pub Alike : Client → Client → Type 0
Alike c d = (c.connected ≡ d.connected) × (c.commands ≡ d.commands)

-- A server of multiserver.c with the same logs, and the powers that only it has.
module _ {M : Type 0} (sys_power : ℕ) (nidaq_powers : List ℕ) where
  abbrev pub as_server : MeterServer M → Server
  as_server s = record {
    cumulative_energy = s.cumulative_energy;
    sys_power = sys_power;
    nidaq_powers = nidaq_powers;
    last_units = s.last_units;
    logging = s.log.logging;
    fplog = s.log.fplog;
    closed = s.log.closed;
    entered = s.log.entered;
  }

  abbrev pub Agrees : MeterServer M × Client → Server × Client → Type 0
  Agrees p q = (q.0 ≡ as_server p.0) × Alike p.1 q.1

  -- Both are undefined, or both are done and agree.
  abbrev pub BothAgree : Outcome (MeterServer M × Client) → Outcome (Server × Client) → Type 0
  BothAgree fault fault = Unit {0}
  BothAgree fault (done q) = ⊥
  BothAgree (done p) fault = ⊥
  BothAgree (done p) (done q) = Agrees p q

  if_Agrees :
      (b : Bool) (p p' : MeterServer M × Client) (q q' : Server × Client)
      → Agrees p q
      → Agrees p' q'
      → Agrees (if b then p else p') (if b then q else q')
  if_Agrees true p p' q q' h k = h
  if_Agrees false p p' q q' h k = k

  if_BothAgree :
      (b : Bool) (p p' : Outcome (MeterServer M × Client)) (q q' : Outcome (Server × Client))
      → BothAgree p q
      → BothAgree p' q'
      → BothAgree (if b then p else p') (if b then q else q')
  if_BothAgree true p p' q q' h k = h
  if_BothAgree false p p' q q' h k = k

  close_same :
      (s : MeterServer M) → close_log (as_server s) ≡ as_server (record s { log = shut_log s.log })
  unfolding close_log shut_log
  close_same s = elim (Option-cases s.log.fplog) [
    | inl e ↦ rw (close_log, shut_log, e) refl
    | inr (f, e) ↦ rw (close_log, shut_log, e) refl
  ]

  line_same :
      (line : Bytes) (s : MeterServer M)
      → log_line line (as_server s) ≡ as_server (record s { log = print_log line s.log })
  unfolding log_line print_log
  line_same line s = elim (Option-cases s.log.fplog) [
    | inl e ↦ rw (log_line, print_log, e) refl
    | inr (f, e) ↦ rw (log_line, print_log, e) refl
  ]

  open_same :
      (e : Event) (name : Bytes) (s : MeterServer M)
      → new_log e name (as_server s) ≡ as_server (record s { log = open_log e name s.log })
  unfolding new_log open_log
  open_same e name s = elim (Bool-cases e.can_open) [
    | inl b ↦
        rw (new_log, open_log, b)
          (ap {A = Server}
            (λ t. record t {
              logging = true;
              fplog = some record { name = name; text = begin_log e name };
            })
            (close_same s))
    | inr b ↦
        rw (new_log, open_log, b)
          (ap {A = Server} (λ t. record t { logging = false; fplog = none }) (close_same s))
  ]

  finish_same :
      (s : MeterServer M) → end_log (as_server s) ≡ as_server (record s { log = finish_log s.log })
  unfolding end_log finish_log
  finish_same s = ap {A = Server} (λ t. record t { logging = false; fplog = none }) (close_same s)

  -- An equation of two tests with the same condition.
  if_same :
      (b : Bool) (x y : Server) (g h : Log) (s : MeterServer M)
      → x ≡ as_server (record s { log = g })
      → y ≡ as_server (record s { log = h })
      → (if b then x else y) ≡ as_server (record s { log = (if b then g else h) })
  if_same true x y g h s p q = p
  if_same false x y g h s p q = q

  control_same :
      (e : Event) (cmd : ℕ) (msg : Bytes) (s : MeterServer M)
      → control e cmd msg (as_server s) ≡ as_server (record s { log = carry_out e cmd msg s.log })
  unfolding control carry_out
  control_same e cmd msg s = if_same (cmd == 20) _ _ _ _ s (open_same e msg s) (
      if_same (cmd == 22) _ _ _ _ s (finish_same s) (
        if_same (cmd == 21) _ _ _ _ s (line_same (begin_session e msg) s) (
          if_same (cmd == 23) _ _ _ _ s (line_same (end_session e msg) s)
            (if_same (cmd == 24) _ _ _ _ s (if_same e.can_enter _ _ _ _ s refl refl) refl))))

  if_control :
      (b : Bool) (p : MeterServer M × Client) (t : Server) (d : Client)
      → Agrees p (t, hang_up d)
      → BothAgree
          (if b then done p else fault)
          (elim (if◌then◌else◌ {A = Outcome Server} b (done t) fault) [
            | fault ↦ fault
            | done t' ↦ done (t', hang_up d)
          ])
  if_control true p t d h = h
  if_control false p t d h = _

  module _ (packet : Event → M → Bytes) where
    request_same :
        (e : Event) (cmd : ℕ) (s : MeterServer M) (c d : Client)
        → Alike c d
        → Agrees (serve_request packet e cmd s c) (handle_request e cmd (as_server s) d)
    unfolding serve_request handle_request
    request_same e cmd s c d h =
        let more : Alike c d → (suc c.commands ≡ suc d.commands) = λ k. ap suc k.1 in
        if_Agrees (cmd == 1) _ _ _ _ (refl, (h.0, more h))
          (if_Agrees (cmd == 2) _ _ _ _ (refl, (h.0, more h))
            (if_Agrees (cmd == 3) _ _ _ _ (refl, (h.0, more h))
              (if_Agrees (cmd == 4) _ _ _ _ (refl, (h.0, more h)) (refl, (refl, h.1)))))

    message_same :
        (e : Event) (size : ℕ) (buf : Bytes) (s : MeterServer M) (c d : Client)
        → Alike c d
        → BothAgree
            (serve_message packet e size buf s c)
            (handle_message lp64 e size buf (as_server s) d)
    unfolding serve_message serve_control handle_message handle_control
    message_same e size buf s c d h =
        if_BothAgree (size == 32) _ _ _ _ (request_same e (first_word (strncpy 32 buf)) s c d h) (
          if_BothAgree (ltb 2 size) _ _ _ _
            (let len = text_end (get_or buf 1 0) in
              if_control (ltb len 62) _ _ d (
                control_same e (get_or buf 0 0) (until_nul (set (drop 2 buf) len 0)) s,
                (refl, h.1),
              ))
            (refl, (refl, h.1)))

    pub round_same :
        (e : Event) (s : MeterServer M) (c d : Client)
        → Alike c d
        → BothAgree (serve_round packet e s c) (api_round lp64 e (as_server s) d)
    unfolding serve_round api_round
    round_same e s c d h =
        elim e.result
          as (λ r.
            BothAgree
              (elim r [
                | failed ↦ done (s, hang_up c)
                | received got ↦
                    if e.still_running
                    then serve_message packet e (length got) (msgbuf got) s c
                    else done (s, hang_up c)
              ])
              (elim r [
                | failed ↦ done (as_server s, hang_up d)
                | received got ↦
                    if e.still_running
                    then handle_message lp64 e (length got) (msgbuf got) (as_server s) d
                    else done (as_server s, hang_up d)
              ])) [
                | failed ↦ (refl, (refl, h.1))
                | received got ↦
                    if_BothAgree e.still_running _ _ _ _
                      (message_same e (length got) (msgbuf got) s c d h) (refl, (refl, h.1))
              ]

    after_same :
        (o : Outcome (MeterServer M × Client)) (u : Outcome (Server × Client)) (es : List Event)
        → BothAgree o u
        → ((s : MeterServer M) (c d : Client)
            → Alike c d
            → BothAgree (serve_loop packet es s c) (api_loop lp64 es (as_server s) d))
        → BothAgree
            (elim o [ fault ↦ fault | done r ↦ serve_loop packet es r.0 r.1 ])
            (elim u [ fault ↦ fault | done r ↦ api_loop lp64 es r.0 r.1 ])
    after_same fault fault es h k = _
    after_same fault (done q) es h k = absurd h
    after_same (done p) fault es h k = absurd h
    after_same (done p) (done q) es h k =
        subst (λ t. BothAgree (serve_loop packet es p.0 p.1) (api_loop lp64 es t q.1)) (sym h.0)
          (k p.0 p.1 q.1 h.1)

    -- For any sequence of events, client_req of mserver.c and sensor_server.c, on x86-64 and whatever its
    -- `send_power` writes, agrees with client_req_fAPI of multiserver.c: either both leave a buffer, or both leave
    -- the same energy, units and logs, the same number of replies, and the connection open or not alike.
    pub serve_loop-api_loop :
        (es : List Event) (s : MeterServer M) (c d : Client)
        → Alike c d
        → BothAgree (serve_loop packet es s c) (api_loop lp64 es (as_server s) d)
    unfolding serve_loop api_loop
    serve_loop-api_loop [] s c d h = (refl, h)
    serve_loop-api_loop (e ∷ es) s c d h =
        subst
          (λ b.
            BothAgree
              (if e.running && c.connected
                then elim (serve_round packet e s c) [
                  | fault ↦ fault
                  | done r ↦ serve_loop packet es r.0 r.1
                ]
                else done (s, c))
              (if e.running && b
                then elim (api_round lp64 e (as_server s) d) [
                  | fault ↦ fault
                  | done r ↦ api_loop lp64 es r.0 r.1
                ]
                else done (as_server s, d)))
          h.0
          (if_BothAgree (e.running && c.connected) _ _ _ _
            (after_same (serve_round packet e s c) (api_round lp64 e (as_server s) d) es
              (round_same e s c d h) (λ s' c' d' k. serve_loop-api_loop es s' c' d' k))
            (refl, h))
