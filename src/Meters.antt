-- ===== src/Meters.antt =====
-- old/metertools/src/mapi/meter.c: the list of meters and the calls that drive any of them.
-- A driver is a record of its functions over a state `W` of the serial port and the kernel; the drivers
-- and `select` are parameters, as are floats.
pub mod Registry
pub mod Read
mod Tests
use power_pack.Measure.{Mm, Parsed, invalid, unreadable, parsed, store}
use power_pack.Prelude.Int.{ℤ, pos, negsuc, eqb_ℤ}
use power_pack.Prelude.{
  ℕ, zero, suc, Bool, true, false, Option, none, some, List, [], ◌∷◌, ltb, min, if◌then◌else◌,
  Bytes, bytes_eq, codes, Errno, einval, enomem, enodata,
}

-- The function pointers of `meter_t`. `read` gives the byte count that it returns, the buffer and the
-- status.
pub record Driver (W F : Type 0) : Type 0 where
  pub query : Option (W → W)
  pub send : Option (Bytes → W → W × ℤ)
  pub read : Bytes → W → record { world : W; count : ℤ; buf : Bytes; status : ℤ }
  pub parse : Option Bytes → ℤ → Option (List (Mm F)) → Parsed F

-- `meter_t`
pub record Meter (W F : Type 0) : Type 0 where
  pub name : Bytes
  pub count : ℕ
  pub type : ℕ
  pub driver : Driver W F

-- How `select` comes back: an error, a timeout, or data, perhaps on this descriptor.
pub data Select : Type 0 where
  select_error timed_out : Select
  ready : Bool → Select

-- What a call returns: 0, 1 for a timeout, -1 with `errno` or without.
pub data Rc : Type 0 where
  rc_ok rc_timeout rc_error : Rc
  rc_errno : Errno → Rc

-- What the loops over the list find. The list ends where the table has its terminator.
module _ {W F : Type 0} where
  unfoldable pub find_type : ℤ → List (Meter W F) → Option (Meter W F)
  find_type t [] = none
  find_type t (m ∷ ms) = if eqb_ℤ (pos m.type) t then some m else find_type t ms

  unfoldable pub find_name : ℤ → List (Meter W F) → Option Bytes
  find_name t [] = none
  find_name t (m ∷ ms) = if eqb_ℤ (pos m.type) t then some m.name else find_name t ms

  -- The loop of `meter_type` goes on while `type` is 0.
  unfoldable pub find_type_by_name : Bytes → ℕ → List (Meter W F) → ℕ
  find_type_by_name n t [] = t
  find_type_by_name n zero (m ∷ ms) =
      find_type_by_name n (if bytes_eq m.name n then m.type else 0) ms
  find_type_by_name n (suc t) (m ∷ ms) = suc t

module _ {W F : Type 0} (wattsup fluke189 protek506 rs22812 : Driver W F) where
  -- `meters`; the Radio Shack meter takes no queries and no commands.
  unfoldable pub meters : List (Meter W F)
  meters =
      record { name = codes "wattsup"; count = 4; type = 4; driver = wattsup }
      ∷ record { name = codes "fluke189"; count = 1; type = 1; driver = fluke189 }
      ∷ record { name = codes "protek506"; count = 1; type = 2; driver = protek506 }
      ∷ record {
        name = codes "rs22812";
        count = 1;
        type = 3;
        driver = record rs22812 { query = none; send = none };
      }
      ∷ []

  -- `meter_lookup`, `meter_name`, `meter_type`
  unfoldable pub meter_lookup : ℤ → Option (Meter W F)
  meter_lookup t = find_type t meters

  unfoldable pub meter_name : ℤ → Option Bytes
  meter_name t = find_name t meters

  unfoldable pub meter_type : Bytes → ℕ
  meter_type n = find_type_by_name n 0 meters

  -- `meter_alloc_mms`, given whether `malloc` succeeds: the count, or -1 with `errno`.
  unfoldable pub meter_alloc_mms : ℤ → Bool → Option ℕ × Rc
  meter_alloc_mms t ok = elim (meter_lookup t) [
    | none ↦ (none, rc_errno einval)
    | some m ↦ if ok then (some m.count, rc_ok) else (none, rc_errno enomem)
  ]

  -- `meter_command`: the state, what is returned, and the reply buffer.
  unfoldable pub meter_command : ℤ → Bytes → Bytes → W → W × ℤ × Bytes × Option Errno
  meter_command t sbuf rbuf w = elim (meter_lookup t) [
    | none ↦ (w, negsuc 0, rbuf, some einval)
    | some m ↦
        let w1 : W = elim m.driver.send [ none ↦ w | some f ↦ (f sbuf w).0 ] in
        let r = m.driver.read rbuf w1 in (r.world, r.status, r.buf, none)
  ]

-- The timeout handed to `select`: none, or at most 30 seconds.
unfoldable pub timeout_of : ℕ → Option ℕ
timeout_of to_sec = if ltb 0 to_sec then some (min to_sec 30) else none

module _ {W F : Type 0} where
  -- What the parser makes of the bytes is what the call returns.
  unfoldable pub conclude : W → List (Mm F) → Parsed F → W × Rc × List (Mm F)
  conclude w mms invalid = (w, rc_errno einval, mms)
  conclude w mms unreadable = (w, rc_error, mms)
  conclude w mms (parsed out) = (w, rc_ok, out)

  -- Behind `select`: `junk` is what the local buffer holds before the driver reads into it.
  unfoldable pub receive : Meter W F → Bytes → List (Mm F) → Select → W → W × Rc × List (Mm F)
  receive m junk mms select_error w = (w, rc_error, mms)
  receive m junk mms timed_out w = (w, rc_timeout, mms)
  receive m junk mms (ready false) w = (w, rc_ok, mms)
  receive m junk mms (ready true) w =
      let r = m.driver.read junk w in
      if eqb_ℤ r.count (pos 0)
      then (r.world, rc_errno enodata, mms)
      else conclude r.world mms (m.driver.parse (some r.buf) r.count (some mms))

-- mm->to_sec
abbrev pub first_timeout : {F : Type 0} → List (Mm F) → ℕ
first_timeout [] = 0
first_timeout (m ∷ ms) = m.to_sec

module _ {W F : Type 0} (zero_float : F) (select : Option ℕ → W → W × Select)
    (wattsup fluke189 protek506 rs22812 : Driver W F) where
  -- `meter_read`; the measurements are `none` for a null pointer.
  unfoldable pub meter_read : ℤ → Bytes → Option (List (Mm F)) → W → W × Rc × Option (List (Mm F))
  meter_read t junk none w = (w, rc_errno einval, none)
  meter_read t junk (some mms) w = elim (meter_lookup wattsup fluke189 protek506 rs22812 t) [
    | none ↦ (w, rc_errno einval, some mms)
    | some m ↦
        let cleared = store mms (λ x. record x { value = zero_float }) in
        let w1 : W = elim m.driver.query [ none ↦ w | some f ↦ f w ] in
        let (w2, event) = select (timeout_of (first_timeout mms)) w1 in
        let (w3, rc, out) = receive m junk cleared event w2 in (w3, rc, some out)
  ]
