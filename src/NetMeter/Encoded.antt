-- ===== src/NetMeter/Encoded.antt =====
-- A reply that a server builds from a header and its readings, as `netmeter_request` takes it.
use power_pack.NetMeter.Replies.{request-received}
use power_pack.NetMeter.Wire.{
  lp64, Request, Fits, AllWords, encode_lp64, decode, le32_all, words, decode-encode_lp64,
  drop-encode_lp64, length-encode_lp64, words-le32_all, length-le32_all,
}
use power_pack.NetMeter.{cmd_reset, Reply, request}
use power_pack.Prelude.Int.{pos, negsuc}
use power_pack.Prelude.{
  ◌^◌, ℕ, ◌+◌, ◌*◌, ◌≤◌, ◌<◌, ◌≡◌, ◌≢◌, refl, ◌∙◌, some, List, [], ◌++◌, leb, ◌==◌, if◌then◌else◌,
  length, length-append, drop, append-nil, Bytes, Outcome, done, fault, subst, true, received,
  arith,
}

-- The test of a reply that is as long as its header says, for a client with room for `k` readings.
accept :
    (h : Request) (k len : ℕ) (b : Bytes) (ws pwr : List ℕ)
    → len ≡ 32 + 4 * k
    → words k b ≡ ws
    → k ≤ length pwr
    → (let out : Outcome Reply =
          if len == 32 + 4 * k
          then (if leb k (length pwr) then done (pos len, h, words k b ++ drop k pwr) else fault)
          else done (negsuc 4, h, pwr) in
        out)
      ≡ done (pos (32 + 4 * k), h, ws ++ drop k pwr)
accept h k len b ws pwr e w room =
    let t : leb k (length pwr) ≡ true = ground arith in
    let same : (32 + 4 * k == 32 + 4 * k) ≡ true = ground arith in rw (e, w, t) (rw same refl)

module _ (pad pad' : Bytes) (header : Request) (readings : List ℕ) (fits : Fits pad pad' header)
    (all : AllWords readings) (count : length readings ≡ header.num_chs) where
  abbrev encoded : Bytes
  encoded = encode_lp64 pad pad' header ++ le32_all readings

  length-encoded : length encoded ≡ 32 + 4 * header.num_chs
  length-encoded = omega (
    arith,
    length-append (encode_lp64 pad pad' header) (le32_all readings),
    length-encode_lp64 pad pad' header fits,
    length-le32_all readings,
  )

  words-encoded : words header.num_chs (drop 32 encoded) ≡ readings
  words-encoded = rw (drop-encode_lp64 pad pad' header (le32_all readings) fits) (
      subst (λ n. words n (le32_all readings) ≡ readings) count
        (subst (λ b. words (length readings) b ≡ readings) (append-nil (le32_all readings))
          (words-le32_all readings [] all)))

  -- A client with enough room accepts the header and the readings of a reply that fits its buffer.
  pub request-encoded :
      (junk : Bytes) (msg : Request) (pwr : List ℕ)
      → msg.cmd ≢ cmd_reset
      → header.num_chs ≤ 248
      → header.num_chs ≤ length pwr
      → request lp64 junk msg pwr (some 32) (received encoded)
        ≡ done (pos (32 + 4 * header.num_chs), header, readings ++ drop header.num_chs pwr)
  request-encoded junk msg pwr c size room =
      let d : decode lp64 encoded ≡ header =
        decode-encode_lp64 pad pad' header (le32_all readings) fits in
      let lo : 32 ≤ length encoded = omega (arith, length-encoded) in
      let hi : length encoded ≤ 1024 = omega (arith, length-encoded) in
      let w : (decode lp64 encoded).num_chs < 2 ^ 32 = rw d (omega arith) in
      request-received junk encoded msg pwr c lo hi w
      ∙ rw d (
          accept header header.num_chs (length encoded) (drop 32 encoded) readings pwr
            length-encoded words-encoded room)
