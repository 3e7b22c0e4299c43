-- ===== src/MeterServer/Monitor.antt =====
-- mserver.c: the loop of `monitor`, which reads the meter, prints the readings to the log of the clients, and adds up the
-- energy as mlogger.c does. What the meter and the clock report is an argument; printing a float is a parameter.
pub mod Steps
use power_pack.Logger.{Timeval, Line, Logger, Round, is_positive, take_reading}
use power_pack.Measure.{Mm, FloatOps, Name, null, unset, name, units_prefix, units_measure}
use power_pack.MeterServer.Power.{Metered}
use power_pack.MeterServer.{Log, MeterServer}
use power_pack.Prelude.Int.{ℤ, pos, negsuc, ◌-ℤ◌, eqb_ℤ, ltb_ℤ}
use power_pack.Prelude.{
  ℕ, Bool, true, false, ◌&&◌, ◌||◌, not, Option, none, some, List, [], ◌∷◌, ◌++◌, if◌then◌else◌,
  Bytes, codes, Outcome, done, fault, ◌>>=◌,
}

-- What `%s` prints; a variable that was never set is no string.
unfoldable pub name_text : Name → Outcome Bytes
name_text null = done (codes "(null)")
name_text unset = fault
name_text (name b) = done b

-- `fprintf` to the log, if there is one.
unfoldable pub append_log : Bytes → Log → Log
append_log line g = elim g.fplog [
  | none ↦ g
  | some f ↦ record g { fplog = some record f { text = f.text ++ line } }
]

abbrev pub has_log : Log → Bool
has_log g = elim g.fplog [ none ↦ false | some f ↦ true ]

module _ (fl : FloatOps) (decimal : ℕ → ℕ → fl.Double) (bytes_of : fl.Double → Bytes)
    (to_unsigned : fl.Float → ℕ) (print_float : fl.Float → Bytes)
    (print_time : fl.Double → Bytes) where
  open fl use {Float, Double}

  -- What one round meets: `running`, the result of the read, the measurements after it, the time as it is printed, and
  -- the time for the energy.
  pub record Reading : Type 0 where
    pub running : Bool
    pub rc : ℤ
    pub first : Mm Float
    pub others : List (Mm Float)
    pub ts : Double
    pub time : Option Timeval

  -- The text of the measurements; each has the prefix of the first.
  unfoldable pub measures_text : Mm Float → List (Mm Float) → Outcome Bytes
  measures_text first [] = done []
  measures_text first (m ∷ ms) = do
    prefix ← name_text (units_prefix (some first))
    measure ← name_text (units_measure (some m))
    rest ← measures_text first ms
    done (print_float m.value ++ (codes " " ++ (prefix ++ (measure ++ (codes " " ++ rest)))))

  unfoldable pub monitor_line : Reading → Outcome Bytes
  monitor_line r = do
    text ← measures_text r.first (r.first ∷ r.others)
    done (print_time r.ts ++ (codes " " ++ (text ++ codes "\n")))

  -- The reading is printed to the console and to the log, unless the read has timed out.
  unfoldable pub show_reading : Bool → Reading → Log → Outcome Log
  show_reading console r g =
      if eqb_ℤ r.rc (pos 1)
      then done g
      else if console || (g.logging && has_log g)
      then (do
        line ← monitor_line r
        done (if g.logging && has_log g then append_log line g else g))
      else done g

  -- The variables of the function that the loop changes: `loops`, `last_tv` and the file of the option -l.
  pub record Locals : Type 0 where
    pub loops : ℤ
    pub last_value : Float
    pub last_tv : Timeval
    pub output : Option (List (Line fl to_unsigned))

  abbrev Shared : Type 0
  Shared = MeterServer (Metered fl decimal bytes_of to_unsigned)

  abbrev pub logger_of : Shared → Locals → Logger fl to_unsigned
  logger_of s l = record {
    power = s.measured.power;
    cumulative_energy = s.cumulative_energy;
    last_value = l.last_value;
    last_units = s.last_units;
    last_tv = l.last_tv;
    output = l.output;
  }

  -- tv_last_reading
  abbrev pub read_at : Reading → Timeval → Timeval
  read_at r before =
      if is_positive fl to_unsigned r.first
      then elim r.time [ none ↦ before | some now ↦ now ]
      else before

  -- One round of the loop, once the read has not failed: the readings are printed and then integrated.
  unfoldable pub monitor_round :
      ℤ → Float → Bool → Reading → Shared → Locals → Outcome (Shared × Locals)
  monitor_round count volts console r s l = do
    log ← show_reading console r s.log
    let round : Round fl to_unsigned = record {
      running = r.running;
      rc = r.rc;
      mm = r.first;
      time = r.time;
    }
    let (loops, after) = take_reading fl to_unsigned count volts round l.loops (logger_of s l)
    done (
      record {
        cumulative_energy = after.cumulative_energy;
        last_units = after.last_units;
        log = log;
        measured = record {
          power = after.power;
          tv_last_reading = read_at r s.measured.tv_last_reading;
        };
      },
      record {
        loops = loops;
        last_value = after.last_value;
        last_tv = after.last_tv;
        output = after.output;
      },
    )

  -- The loop: the return value and the variables, or `none` if it goes on.
  unfoldable pub monitor_rounds :
      ℤ → Float → Bool → List Reading → ℤ → Shared → Locals → Outcome (Option ℤ × Shared × Locals)
  monitor_rounds count volts console [] rc s l =
      done ((if ltb_ℤ l.loops (pos 0) then some rc else none), s, l)
  monitor_rounds count volts console (r ∷ rs) rc s l =
      if not r.running || ltb_ℤ l.loops (pos 0)
      then done (some rc, s, l)
      else if eqb_ℤ r.rc (negsuc 0)
      then done (some r.rc, s, l)
      else elim (monitor_round count volts console r s l) [
        | fault ↦ fault
        | done p ↦ monitor_rounds count volts console rs r.rc p.0 p.1
      ]
