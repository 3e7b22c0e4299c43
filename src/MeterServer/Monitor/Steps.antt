-- ===== src/MeterServer/Monitor/Steps.antt =====
-- The threads of mserver.c: connections and the monitor, in any order of their rounds.
use power_pack.Measure.{FloatOps}
use power_pack.MeterServer.Monitor.{
  Reading, Locals, append_log, has_log, monitor_line, show_reading, monitor_round,
}
use power_pack.MeterServer.Power.{Metered, meter_packet}
use power_pack.MeterServer.Same.{as_server, BothAgree, round_same}
use power_pack.MeterServer.{Log, MeterServer, serve_round}
use power_pack.NetMeter.Wire.{lp64}
use power_pack.Prelude.Int.{ℤ, pos, eqb_ℤ}
use power_pack.Prelude.{
  ℕ, ◌≡◌, refl, sym, subst, ap, inl, inr, Bool, ◌&&◌, ◌||◌, Option, none, some, [], ◌++◌, Bytes,
  Outcome, done, fault, ◌>>=◌, Option-cases, arith,
}
use power_pack.Server.Logs.{
  LogsValid, LogsValidAfter, api_round-LogsValid, log_line-LogsValid, of_if,
}
use power_pack.Server.{LogFile, Server, Client, Event, log_line, api_round}

value_or : {A : Type 0} → A → Outcome A → A
value_or a fault = a
value_or a (done b) = b

done-injective : {A : Type 0} (a b : A) → done a ≡ done b → a ≡ b
unfolding value_or
done-injective a b e = ap (value_or a) e

-- A call is undefined or leaves what satisfies `P`.
abbrev After : {A : Type 0} → (A → Type 0) → Outcome A → Type 0
After P fault = Unit {0}
After P (done a) = P a

bind_After :
    {A B : Type 0} (P : A → Type 0) (Q : B → Type 0) (o : Outcome A) (f : A → Outcome B)
    → After P o
    → ((a : A) → P a → After Q (f a))
    → After Q (o >>= f)
bind_After P Q fault f h k = _
bind_After P Q (done a) f h k = k a h

any : {A : Type 0} (o : Outcome A) → After (λ a. Unit {0}) o
any fault = _
any (done a) = _

from_After : {A : Type 0} (P : A → Type 0) (o : Outcome A) (a : A) → After P o → o ≡ done a → P a
from_After P fault a h e = absurd (ground arith)
from_After P (done b) a h e = subst P (done-injective b a e) h

-- The logs of a server, by the invariant of multiserver.c's.
abbrev pub LogValid : {M : Type 0} → MeterServer M → Type 0
LogValid s = LogsValid (as_server 0 [] s)

module _ {M : Type 0} where
  agreed-LogValid :
      (o : Outcome (MeterServer M × Client)) (u : Outcome (Server × Client)) (t : MeterServer M)
      (c : Client)
      → BothAgree 0 [] o u
      → LogsValidAfter u
      → o ≡ done (t, c)
      → LogValid t
  agreed-LogValid fault u t c h v e = absurd (ground arith)
  agreed-LogValid (done p) fault t c h v e = absurd h
  agreed-LogValid (done p) (done q) t c h v e =
      subst (λ x. LogValid x) (ap (λ r. r.0) (done-injective p (t, c) e)) (subst LogsValid h.0 v)

  serve_round-LogValid :
      (packet : Event → M → Bytes) (e : Event) (s t : MeterServer M) (c c' : Client)
      → LogValid s
      → serve_round packet e s c ≡ done (t, c')
      → LogValid t
  serve_round-LogValid packet e s t c c' v q =
      agreed-LogValid (serve_round packet e s c) (api_round lp64 e (as_server 0 [] s) c) t c'
        (round_same 0 [] packet e s c c (refl, refl))
        (api_round-LogsValid lp64 e (as_server 0 [] s) c v) q

  append_log-LogValid :
      (line : Bytes) (s : MeterServer M)
      → LogValid s
      → LogValid (record s { log = append_log line s.log })
  unfolding append_log log_line
  append_log-LogValid line s v = elim (Option-cases s.log.fplog) [
    | inl e ↦
        let q : append_log line s.log ≡ s.log =
          ap {A = Option LogFile} {B = Log}
            (λ o. elim o [
              | none ↦ s.log
              | some f ↦ record s.log { fplog = some record f { text = f.text ++ line } }
            ])
            e in
        subst (λ g. LogValid (record s { log = g })) (sym q) v
    | inr (f, e) ↦
        let q : as_server 0 [] (record s { log = append_log line s.log })
            ≡ log_line line (as_server 0 [] s) =
          rw (append_log, log_line, e) refl in
        subst LogsValid (sym q) (log_line-LogsValid line (as_server 0 [] s) v)
  ]

  -- What holds of the logs does not depend on the other variables.
  other_fields :
      (s : MeterServer M) (energy units : ℕ) (m : M)
      → LogValid s
      → LogValid
          record { cumulative_energy = energy; last_units = units; log = s.log; measured = m }
  other_fields s energy units m v = record {
    open_if_logging = v.open_if_logging;
    open_begun = v.open_begun;
    closed_begun = v.closed_begun;
  }

module _ (fl : FloatOps) (decimal : ℕ → ℕ → fl.Double) (bytes_of : fl.Double → Bytes)
    (to_unsigned : fl.Float → ℕ) (print_float : fl.Float → Bytes)
    (print_time : fl.Double → Bytes) where
  open fl use {Float}

  abbrev Shared : Type 0
  Shared = MeterServer (Metered fl decimal bytes_of to_unsigned)

  abbrev MonitorLocals : Type 0
  MonitorLocals = Locals fl decimal bytes_of to_unsigned print_float print_time

  abbrev MonitorReading : Type 0
  MonitorReading = Reading fl decimal bytes_of to_unsigned print_float print_time

  show_reading-LogValid :
      (console : Bool) (r : MonitorReading) (s : Shared)
      → LogValid s
      → After
          (λ g. LogValid (record s { log = g }))
          (show_reading fl decimal bytes_of to_unsigned print_float print_time console r s.log)
  unfolding show_reading
  show_reading-LogValid console r s v =
      let P : Log → Type 0 = λ g. LogValid (record s { log = g }) in
      let logs = s.log.logging && has_log s.log in
      of_if (After P) (eqb_ℤ r.rc (pos 1)) _ _ v (
        of_if (After P) (console || logs) _ _
          (bind_After (λ a. Unit {0}) P
            (monitor_line fl decimal bytes_of to_unsigned print_float print_time r) _
            (any (monitor_line fl decimal bytes_of to_unsigned print_float print_time r))
            (λ line h. of_if P logs _ _ (append_log-LogValid line s v) v))
          v)

  monitor_round-LogValid :
      (count : ℤ) (volts : Float) (console : Bool) (r : MonitorReading) (s : Shared)
      (l : MonitorLocals)
      → LogValid s
      → After
          (λ p. LogValid p.0)
          (monitor_round fl decimal bytes_of to_unsigned print_float print_time count volts console
            r s l)
  unfolding monitor_round
  monitor_round-LogValid count volts console r s l v =
      bind_After (λ g. LogValid (record s { log = g })) (λ p. LogValid p.0)
        (show_reading fl decimal bytes_of to_unsigned print_float print_time console r s.log) _
        (show_reading-LogValid console r s v)
        (λ g h. other_fields (record s { log = g }) _ _ s.measured h)

  -- One round of a connection, at any point of its own, or one of the monitor.
  pub data Step (count : ℤ) (volts : Float) (console : Bool)
      : Shared × MonitorLocals → Shared × MonitorLocals → Type 0 where
    serves :
        (e : Event) (s t : Shared) (l : MonitorLocals) (c c' : Client)
        → serve_round (meter_packet fl decimal bytes_of to_unsigned) e s c ≡ done (t, c')
        → Step count volts console (s, l) (t, l)
    reads :
        (r : MonitorReading) (s t : Shared) (l m : MonitorLocals)
        → monitor_round fl decimal bytes_of to_unsigned print_float print_time count volts console r
            s l
          ≡ done (t, m)
        → Step count volts console (s, l) (t, m)

  pub data Reaches (count : ℤ) (volts : Float) (console : Bool) (p : Shared × MonitorLocals)
      : Shared × MonitorLocals → Type 0 where
    here : Reaches count volts console p p
    next :
        {q r : Shared × MonitorLocals}
        → Reaches count volts console p q
        → Step count volts console q r
        → Reaches count volts console p r

  Step-LogValid :
      (count : ℤ) (volts : Float) (console : Bool) {p q : Shared × MonitorLocals}
      → Step count volts console p q
      → LogValid p.0
      → LogValid q.0
  Step-LogValid count volts console (serves e s t l c c' h) v =
      serve_round-LogValid (meter_packet fl decimal bytes_of to_unsigned) e s t c c' v h
  Step-LogValid count volts console (reads r s t l m h) v =
      from_After (λ p. LogValid p.0)
        (monitor_round fl decimal bytes_of to_unsigned print_float print_time count volts console r
          s l)
        (t, m) (monitor_round-LogValid count volts console r s l v) h

  -- In whatever order the rounds of any connections and of the monitor of mserver.c follow one another, the logs stay
  -- valid: logging is on only while a log file is open, and every log file, open or closed, starts with the
  -- BEGIN_LOG line that has its name.
  pub Reaches-LogValid :
      (count : ℤ) (volts : Float) (console : Bool) (p q : Shared × MonitorLocals)
      → LogValid p.0
      → Reaches count volts console p q
      → LogValid q.0
  Reaches-LogValid count volts console p q v here = v
  Reaches-LogValid count volts console p q v (next a b) =
      Step-LogValid count volts console b (Reaches-LogValid count volts console p _ v a)
