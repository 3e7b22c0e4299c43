-- ===== src/NetMeter/Replies.antt =====
-- What a client makes of a server's reply.
use native.Mathlib.Decide.{dec_lt}
use power_pack.NetMeter.Wire.{lp64, Request, decode, words}
use power_pack.NetMeter.{cmd_reset, payload_size, take_reply, request}
use power_pack.Prelude.Int.{pos, negsuc}
use power_pack.Prelude.{
  ℕ, ◌+◌, ◌-◌, ◌*◌, ◌/◌, ◌%◌, ◌^◌, ◌≤◌, ◌<◌, ◌≡◌, ◌≢◌, refl, false, some, List, ◌++◌, ltb, leb,
  ◌==◌, if◌then◌else◌, length, drop, Bytes, done, fault, received, failed, arith,
}

small_payload : (n : ℕ) → n < 2 ^ 31 → payload_size lp64 n ≡ 4 * n
unfolding payload_size
small_payload n h = ground arith

-- A negative channel count asks for more bytes than any reply has.
large_payload :
    (n r : ℕ)
    → 2 ^ 31 ≤ n
    → n < 2 ^ 32
    → 32 ≤ r
    → r ≤ 1024
    → (r == (32 + payload_size lp64 n) % 2 ^ 64) ≡ false
unfolding payload_size
large_payload n r h k lo hi = ground arith

take_reply_lem :
    (got : Bytes) (r : ℕ) (pwr : List ℕ)
    → 32 ≤ r
    → r ≤ 1024
    → (decode lp64 got).num_chs < 2 ^ 32
    → take_reply lp64 got r pwr ≡ (
        let new = decode lp64 got in
        if r == 32 + 4 * new.num_chs
        then (if leb new.num_chs (length pwr)
            then done (pos r, new, words new.num_chs (drop 32 got) ++ drop new.num_chs pwr)
            else fault)
        else done (negsuc 4, new, pwr))
unfolding take_reply
take_reply_lem got r pwr lo hi w =
    let n = (decode lp64 got).num_chs in
    elim (dec_lt n (2 ^ 31)) [
      | yes h ↦
          let e : payload_size lp64 n / 4 ≡ n = omega (arith, small_payload n h) in
          let q : (32 + payload_size lp64 n) % 2 ^ 64 ≡ 32 + 4 * n =
            omega (arith, small_payload n h) in
          rw (q, e) refl
      | no h ↦
          let f : (r == 32 + 4 * n) ≡ false = ground arith in
          rw (large_payload n r (omega arith) w lo hi, f) refl
    ]

payload_even : (n : ℕ) → (2 ^ 64 - 1 == (32 + payload_size lp64 n) % 2 ^ 64) ≡ false
unfolding payload_size
payload_even n = ground arith

-- On x86-64 a reply of 32 to 1024 bytes is accepted exactly when it is as long as the channel count in
-- it says; the return value is then its length, and that many readings are copied, which is a fault if the
-- caller's array is shorter. Any other reply gives -5 and the new message, with the readings untouched.
pub request-received :
    (junk got : Bytes) (msg : Request) (pwr : List ℕ)
    → msg.cmd ≢ cmd_reset
    → 32 ≤ length got
    → length got ≤ 1024
    → (decode lp64 got).num_chs < 2 ^ 32
    → request lp64 junk msg pwr (some 32) (received got) ≡ (
        let new = decode lp64 got in
        if length got == 32 + 4 * new.num_chs
        then (if leb new.num_chs (length pwr)
            then done
                (pos (length got), new, words new.num_chs (drop 32 got) ++ drop new.num_chs pwr)
            else fault)
        else done (negsuc 4, new, pwr))
unfolding request
request-received junk got msg pwr c lo hi w =
    let a : (msg.cmd == cmd_reset) ≡ false = ground arith in
    let b : ltb (length got) 32 ≡ false = ground arith in
    rw (a, b) (take_reply_lem got (length got) pwr lo hi w)

-- A read that fails is reported as -5, the code of a wrong length, and the caller's message is replaced by
-- whatever the local buffer held.
pub request-failed :
    (junk : Bytes) (msg : Request) (pwr : List ℕ)
    → msg.cmd ≢ cmd_reset
    → request lp64 junk msg pwr (some 32) failed ≡ done (negsuc 4, decode lp64 junk, pwr)
unfolding request take_reply
request-failed junk msg pwr c =
    let a : (msg.cmd == cmd_reset) ≡ false = ground arith in
    rw a (ground (arith, payload_even (decode lp64 junk).num_chs))
