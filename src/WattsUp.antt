-- ===== src/WattsUp.antt =====
-- old/metertools/src/mapi/watts_up.c: the driver of the Watts Up meters.
-- What `read` and `write` report is an argument; a lock of the mailbox may fail.
pub mod Parse
pub mod Fields
pub mod Records
pub mod Port
pub mod Line
pub mod Setup
mod Tests
use power_pack.Measure.{Mm, FloatOps}
use power_pack.Prelude.Decimal.{atoi}
use power_pack.Prelude.Int.{ℤ, pos, negsuc, ◌-ℤ◌}
use power_pack.Prelude.{
  ℕ, zero, suc, ◌+◌, ◌-◌, ◌*◌, ◌/◌, ◌%◌, Bool, true, false, ◌&&◌, ◌||◌, not, Option, none, some,
  List, [], ◌∷◌, ◌++◌, ltb, leb, ◌==◌, if◌then◌else◌, length, take, Bytes, bytes_eq_upto, codes,
  Outcome, done, fault, ReadResult, received, failed,
}

-- strstr(buf, "#")
unfoldable pub from_hash : Bytes → Option Bytes
from_hash [] = none
from_hash (x ∷ b) = let rest = from_hash b in if x == b'#' then some (x ∷ b) else rest

-- The tokens that strtok finds in turn: the longest runs without a comma. `run` is the one that is open.
abbrev pub add_run : Bytes → List Bytes → List Bytes
add_run [] ts = ts
add_run (x ∷ run) ts = (x ∷ run) ∷ ts

unfoldable pub tokens_from : Bytes → Bytes → List Bytes
tokens_from run [] = add_run run []
tokens_from run (x ∷ b) =
    let rest = tokens_from (if x == b',' then [] else run ++ x ∷ []) b in
    if x == b',' then add_run run rest else rest

unfoldable pub tokens : Bytes → List Bytes
tokens b = tokens_from [] b

-- The units and the divisor of the fields that are used.
unfoldable pub field : ℕ → Option (ℕ × ℕ)
field i =
    if i == 3
    then some (0x000400, 10)
    else if i == 4
    then some (0x000008, 10)
    else if i == 5
    then some (0x000004, 1_000)
    else if i == 16
    then some (0x000800, 100)
    else none

-- A store to `mm[i]`; `none` is out of range.
unfoldable pub store_at {ℓ} : {A : Type ℓ} → List A → ℕ → (A → A) → Option (List A)
store_at [] i f = none
store_at (m ∷ ms) zero f = some (f m ∷ ms)
store_at (m ∷ ms) (suc i) f = elim (store_at ms i f) [ none ↦ none | some r ↦ some (m ∷ r) ]

module _ (fl : FloatOps) where
  open fl use {Float, Double, of_int, div, lt, narrow}

  -- `value` after the switch.
  unfoldable pub token_value : ℕ → Bytes → Double
  token_value i t = elim (field i) [
    | none ↦ of_int (negsuc 1)
    | some f ↦ div (of_int (atoi t)) (of_int (pos f.1))
  ]

  unfoldable pub store_units : ℕ → ℕ → List (Mm Float) → Option (List (Mm Float))
  store_units i p mm = elim (field i) [
    | none ↦ some mm
    | some f ↦ store_at mm p (λ m. record m { units = f.0 })
  ]

  abbrev pub is_value : Double → Bool
  is_value v = lt (of_int (negsuc 0)) v

  unfoldable pub store_value : Double → ℕ → List (Mm Float) → Option (List (Mm Float))
  store_value v p mm =
      if is_value v then store_at mm p (λ m. record m { value = narrow v }) else some mm

  -- The loop over the tokens, with `i` and `pos`.
  unfoldable pub parse_loop : ℕ → ℕ → List Bytes → List (Mm Float) → Option (List (Mm Float))
  parse_loop i p [] mm = some mm
  parse_loop i p (t ∷ ts) mm = elim (store_units i p mm) [
    | none ↦ none
    | some mm1 ↦ elim (store_value (token_value i t) p mm1) [
      | none ↦ none
      | some mm2 ↦ parse_loop (suc i) (if is_value (token_value i t) then suc p else p) ts mm2
    ]
  ]

  -- `watts_up_parse`: `done none` is the return value -1. The buffer is its C string.
  unfoldable pub parse :
      Option Bytes → Option (List (Mm Float)) → Outcome (Option (List (Mm Float)))
  parse none mm = done none
  parse (some buf) none = done none
  parse (some buf) (some mm) = elim (from_hash buf) [
    | none ↦ done none
    | some p ↦
        if bytes_eq_upto 3 p (codes "#d,")
        then elim (parse_loop 0 0 (tokens p) mm) [ none ↦ fault | some out ↦ done (some out) ]
        else done none
  ]

-- The mailbox between the threads: `asyncBuffer` and `asyncValid`.
pub record Mailbox : Type 0 where
  pub buffer : Bytes
  pub valid : ℕ

-- What AsyncReadThread does with a record, under the lock.
unfoldable pub publish : Bytes → Mailbox → Mailbox
publish b m = record { buffer = b; valid = if ltb 100_000 (m.valid + 1) then 100 else m.valid + 1 }

unfoldable pub publish_all : List Bytes → Mailbox → Mailbox
publish_all [] m = m
publish_all (b ∷ bs) m = publish_all bs (publish b m)

-- The first part of ReadWattsUpUSB under the lock: the count, `localBuffer` and the mailbox afterwards.
unfoldable pub grab : Bool → Bytes → Mailbox → ℕ × Bytes × Mailbox
grab false local m = (0, local, m)
grab true local m =
    if m.valid == 0 then (0, local, m) else (m.valid, m.buffer, record m { valid = 0 })

-- Both attempts; `between` are the records that arrive in the sleep of 100 ms. The record to parse is
-- `none` where the function returns a variable that was never set.
unfoldable pub take_record : Bool → Bool → List Bytes → Bytes → Mailbox → Option Bytes × Mailbox
take_record lock1 lock2 between local m =
    let (n, got, m1) = grab lock1 local m in
    if n == 0
    then (let (n2, got2, m2) = grab lock2 got (publish_all between m1) in
        ((if n2 == 0 then none else some got2), m2))
    else (some got, m1)

-- `watts_up_query`: a write that fails ends the program. The preamble is the static variable, and `sent`
-- what has been written.
unfoldable pub query : Bool → Bool → Bool → List Bytes → Option (Bool × List Bytes)
query ok1 ok2 true sent = if ok2 then some (true, sent ++ codes "#L,W,3,E,1,1;" ∷ []) else none
query ok1 ok2 false sent =
    if ok1
    then (if ok2
        then some (true, (sent ++ codes "#R,W,0;" ∷ []) ++ codes "#L,W,3,E,1,1;" ∷ [])
        else none)
    else none

unfoldable pub last_is : ℕ → Bytes → Bool
last_is t [] = false
last_is t (x ∷ []) = x == t
last_is t (x ∷ y ∷ b) = last_is t (y ∷ b)

-- The test at the end of the loop of ReadRS232Term, for the bytes read so far.
unfoldable pub end_test : ℕ → ℕ → Bytes → Outcome (Option Bytes) → Outcome (Option Bytes)
end_test t space [] rest = fault
end_test t space (x ∷ b) rest =
    if last_is t (x ∷ b) || leb space (length (x ∷ b)) then done (some (x ∷ b)) else rest

-- The loop of ReadRS232Term over what `read` reports: `done none` while it goes on. With no byte read so far
-- the test at its end reads the byte before the buffer.
unfoldable pub read_term : ℕ → ℕ → Bytes → List ReadResult → Outcome (Option Bytes)
read_term t space acc [] = done none
read_term t space acc (r ∷ rs) =
    let got : Bytes = (elim r [ failed ↦ [] | received b ↦ take (space - length acc) b ]) in
    let rest = read_term t space (acc ++ got) rs in end_test t space (acc ++ got) rest
