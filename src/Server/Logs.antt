-- ===== src/Server/Logs.antt =====
-- The server's logs: what holds of them after any sequence of messages.
use power_pack.NetMeter.Wire.{Layout}
use power_pack.Prelude.{
  ℕ, ◌≡◌, ◌≢◌, ap, sym, subst, ◌∙◌, inl, inr, Bool, true, false, Option, none, some, List, [], ◌∷◌,
  ◌++◌, append-nil, append_assoc, if◌then◌else◌, Bytes, Outcome, done, fault, received, failed, ltb,
  ◌==◌, ◌&&◌, length, get_or, set, drop, ReadResult, arith, Option-cases,
}
use power_pack.Server.Runs.{AllBounded, client_loop-Ends, api_loop-Ends}
use power_pack.Server.{
  LogFile, Server, Client, Event, hang_up, handle_request, close_log, new_log, end_log, log_line,
  begin_log, begin_session, end_session, control, handle_control, handle_message, coalesce,
  client_round, api_round, client_loop, api_loop, msgbuf, text_end, until_nul,
}

-- A log file starts with the line that names it.
pub record Begun (f : LogFile) : Type 0 where
  pub opened_by : Event
  pub rest : Bytes
  pub text_is : f.text ≡ begin_log opened_by f.name ++ rest

abbrev pub AllBegun : List LogFile → Type 0
AllBegun [] = Unit {0}
AllBegun (f ∷ fs) = Begun f × AllBegun fs

abbrev pub OpenBegun : Option LogFile → Type 0
OpenBegun none = Unit {0}
OpenBegun (some f) = Begun f

-- Logging is on only while a file is open, and every file, open or closed, starts with its own line.
pub record LogsValid (s : Server) : Type 0 where
  pub open_if_logging : s.logging ≡ true → s.fplog ≢ none
  pub open_begun : OpenBegun s.fplog
  pub closed_begun : AllBegun s.closed

abbrev pub LogsValidAfter : Outcome (Server × Client) → Type 0
LogsValidAfter (done r) = LogsValid r.0
LogsValidAfter fault = Unit {0}

off : (s : Server) → AllBegun s.closed → LogsValid record s { logging = false; fplog = none }
off s c = record { open_if_logging = λ h. ground arith; open_begun = _; closed_begun = c }

pub of_if : {A : Type 0} (P : A → Type 0) (b : Bool) (x y : A) → P x → P y → P (if b then x else y)
of_if P true x y p q = p
of_if P false x y p q = q

close_log-AllBegun : (s : Server) → LogsValid s → AllBegun (close_log s).closed
unfolding close_log
close_log-AllBegun s v = elim (Option-cases s.fplog) [
  | inl e ↦ rw (close_log, e) v.closed_begun
  | inr (f, e) ↦ rw (close_log, e) (subst OpenBegun e v.open_begun, v.closed_begun)
]

new_log-LogsValid :
    (e : Event) (name : Bytes) (s : Server) → LogsValid s → LogsValid (new_log e name s)
unfolding new_log
new_log-LogsValid e name s v =
    let c = close_log-AllBegun s v in
    of_if LogsValid e.can_open _ _
      (record {
        open_if_logging = λ h k. ground arith;
        open_begun = record {
          opened_by = e;
          rest = [];
          text_is = sym (append-nil (begin_log e name));
        };
        closed_begun = c;
      })
      (off (close_log s) c)

end_log-LogsValid : (s : Server) → LogsValid s → LogsValid (end_log s)
unfolding end_log
end_log-LogsValid s v = off (close_log s) (close_log-AllBegun s v)

pub log_line-LogsValid : (line : Bytes) (s : Server) → LogsValid s → LogsValid (log_line line s)
unfolding log_line
log_line-LogsValid line s v = elim (Option-cases s.fplog) [
  | inl e ↦
      rw (log_line, e)
        (record {
          open_if_logging = λ h. ground arith;
          open_begun = v.open_begun;
          closed_begun = v.closed_begun;
        })
  | inr (f, e) ↦
      let b : Begun f = subst OpenBegun e v.open_begun in
      rw (log_line, e)
        (record {
          open_if_logging = λ h k. ground arith;
          open_begun = record {
            opened_by = b.opened_by;
            rest = b.rest ++ line;
            text_is =
                ap (λ t. t ++ line) b.text_is
                ∙ append_assoc (begin_log b.opened_by f.name) b.rest line;
          };
          closed_begun = v.closed_begun;
        })
]

enter-LogsValid : (d : List Bytes) (s : Server) → LogsValid s → LogsValid record s { entered = d }
enter-LogsValid d s v = record {
  open_if_logging = v.open_if_logging;
  open_begun = v.open_begun;
  closed_begun = v.closed_begun;
}

reset-LogsValid : (n : ℕ) (s : Server) → LogsValid s → LogsValid record s { cumulative_energy = n }
reset-LogsValid n s v = record {
  open_if_logging = v.open_if_logging;
  open_begun = v.open_begun;
  closed_begun = v.closed_begun;
}

control-LogsValid :
    (e : Event) (cmd : ℕ) (msg : Bytes) (s : Server) → LogsValid s → LogsValid (control e cmd msg s)
unfolding control
control-LogsValid e cmd msg s v = of_if LogsValid (cmd == 20) _ _ (new_log-LogsValid e msg s v) (
    of_if LogsValid (cmd == 22) _ _ (end_log-LogsValid s v) (
      of_if LogsValid (cmd == 21) _ _ (log_line-LogsValid (begin_session e msg) s v) (
        of_if LogsValid (cmd == 23) _ _ (log_line-LogsValid (end_session e msg) s v) (
          of_if LogsValid (cmd == 24) _ _
            (of_if LogsValid e.can_enter _ _ (enter-LogsValid (msg ∷ s.entered) s v) v) v))))

handle_request-LogsValid :
    (e : Event) (cmd : ℕ) (s : Server) (c : Client)
    → LogsValid s
    → LogsValid (handle_request e cmd s c).0
unfolding handle_request
handle_request-LogsValid e cmd s c v =
    let P : Server × Client → Type 0 = λ r. LogsValid r.0 in
    of_if P (cmd == 1) _ _ v (
      of_if P (cmd == 2) _ _ v
        (of_if P (cmd == 3) _ _ v (of_if P (cmd == 4) _ _ (reset-LogsValid 0 s v) v)))

handle_message-LogsValid :
    (l : Layout) (e : Event) (size : ℕ) (buf : Bytes) (s : Server) (c : Client)
    → LogsValid s
    → LogsValidAfter (handle_message l e size buf s c)
unfolding handle_message handle_control
handle_message-LogsValid l e size buf s c v =
    let P : Outcome Server → Type 0 =
      λ o. LogsValidAfter (elim o [ fault ↦ fault | done s' ↦ done (s', hang_up c) ]) in
    let len = text_end (get_or buf 1 0) in
    of_if LogsValidAfter (size == l.size) _ _ (handle_request-LogsValid e _ s c v) (
      of_if LogsValidAfter (ltb 2 size) _ _
        (of_if P (ltb len 62) _ _
          (control-LogsValid e (get_or buf 0 0) (until_nul (set (drop 2 buf) len 0)) s v) _)
        v)

received-LogsValid :
    (l : Layout) (e : Event) (size : ℕ → ℕ) (s : Server) (c : Client) (r : ReadResult)
    → LogsValid s
    → LogsValidAfter (elim r [
      | failed ↦ done (s, hang_up c)
      | received got ↦
          if e.still_running
          then handle_message l e (size (length got)) (msgbuf got) s c
          else done (s, hang_up c)
    ])
received-LogsValid l e size s c failed v = v
received-LogsValid l e size s c (received got) v =
    of_if LogsValidAfter e.still_running _ _
      (handle_message-LogsValid l e (size (length got)) (msgbuf got) s c v) v

client_round-LogsValid :
    (l : Layout) (e : Event) (s : Server) (c : Client)
    → LogsValid s
    → LogsValidAfter (client_round l e s c)
unfolding client_round
client_round-LogsValid l e s c v =
    of_if LogsValidAfter e.is_set _ _
      (received-LogsValid l e (coalesce l) s (if e.select_ok then c else hang_up c) e.result v) v

pub api_round-LogsValid :
    (l : Layout) (e : Event) (s : Server) (c : Client)
    → LogsValid s
    → LogsValidAfter (api_round l e s c)
unfolding api_round
api_round-LogsValid l e s c v = received-LogsValid l e (λ n. n) s c e.result v

after :
    (o : Outcome (Server × Client)) (f : Server → Client → Outcome (Server × Client))
    → LogsValidAfter o
    → ((s : Server) (c : Client) → LogsValid s → LogsValidAfter (f s c))
    → LogsValidAfter (elim o [ fault ↦ fault | done r ↦ f r.0 r.1 ])
after fault f h k = _
after (done r) f h k = k r.0 r.1 h

client_loop_valid :
    (l : Layout) (es : List Event) (s : Server) (c : Client)
    → LogsValid s
    → LogsValidAfter (client_loop l es s c)
unfolding client_loop
client_loop_valid l [] s c v = v
client_loop_valid l (e ∷ es) s c v =
    of_if LogsValidAfter (e.running && c.connected) _ _
      (after (client_round l e s c) (client_loop l es) (client_round-LogsValid l e s c v)
        (λ s' c'. client_loop_valid l es s' c'))
      v

api_loop_valid :
    (l : Layout) (es : List Event) (s : Server) (c : Client)
    → LogsValid s
    → LogsValidAfter (api_loop l es s c)
unfolding api_loop
api_loop_valid l [] s c v = v
api_loop_valid l (e ∷ es) s c v =
    of_if LogsValidAfter (e.running && c.connected) _ _
      (after (api_round l e s c) (api_loop l es) (api_round-LogsValid l e s c v)
        (λ s' c'. api_loop_valid l es s' c'))
      v

-- A run that does not write out of range, with valid logs at its end.
abbrev pub KeepsLogs : Outcome (Server × Client) → Type 0
KeepsLogs o = (r : Server × Client) × (o ≡ done r) × LogsValid r.0

keeps :
    (o : Outcome (Server × Client))
    → (r : Server × Client) × (o ≡ done r)
    → LogsValidAfter o
    → KeepsLogs o
keeps o (r, e) v = (r, e, subst LogsValidAfter e v)

-- On either port and platform the logs stay valid as long as no message is written past its buffer: logging is on
-- only while a log file is open, and every log file, open or closed, starts with the BEGIN_LOG line that has its
-- name. When no message has a second byte from 62 to 127, which in a control message is its length, no message is
-- written past its buffer, and the connection ends with valid logs.
pub client_loop-LogsValid :
    (l : Layout) (es : List Event) (s : Server) (c : Client)
    → LogsValid s
    → LogsValidAfter (client_loop l es s c)
      × LogsValidAfter (api_loop l es s c)
      × (AllBounded es → KeepsLogs (client_loop l es s c) × KeepsLogs (api_loop l es s c))
client_loop-LogsValid l es s c v =
    let client = client_loop_valid l es s c v in
    let api = api_loop_valid l es s c v in
    (
      client,
      api,
      λ h. (
        keeps (client_loop l es s c) (client_loop-Ends l es s c h) client,
        keeps (api_loop l es s c) (api_loop-Ends l es s c h) api,
      ),
    )
