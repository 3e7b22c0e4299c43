-- ===== src/WattsUp/Records.antt =====
-- The mailbox of the USB meter: no record is taken twice, and the latest one is taken.
use power_pack.Prelude.{
  ◌≤◌, ◌≡◌, ◌≢◌, refl, ap, ◌∙◌, Bool, true, false, none, some, List, [], ◌∷◌, ◌++◌, ◌==◌, Bytes,
  arith,
}
use power_pack.WattsUp.{Mailbox, publish, publish_all, grab, take_record}

publish_all-bound :
    (bs : List Bytes) (m : Mailbox) → m.valid ≤ 100_000 → (publish_all bs m).valid ≤ 100_000
unfolding publish_all publish
publish_all-bound [] m h = h
publish_all-bound (b ∷ bs) m h = publish_all-bound bs (publish b m) (ground arith)

publish_all_latest :
    (bs : List Bytes) (b : Bytes) (m : Mailbox)
    → ((publish_all (bs ++ b ∷ []) m).buffer ≡ b) × ((publish_all (bs ++ b ∷ []) m).valid ≢ 0)
unfolding publish_all publish
publish_all_latest [] b m = (refl, ground arith)
publish_all_latest (x ∷ bs) b m = publish_all_latest bs b (publish x m)

take_full :
    (m : Mailbox) (lock : Bool) (between : List Bytes) (local : Bytes)
    → m.valid ≢ 0
    → take_record true lock between local m ≡ (some m.buffer, record m { valid = 0 })
unfolding take_record grab
take_full m lock between local ne = let z : (m.valid == 0) ≡ false = ground arith in simp z

-- After any records have arrived, the count of the mailbox is at most 100000; a reader that gets the lock at
-- once takes the latest of them, and one that then asks again, with no record in between, takes none.
pub take_record-publish_all :
    (bs between : List Bytes) (b local : Bytes) (m : Mailbox) (lock : Bool)
    → m.valid ≤ 100_000
    → (let full = publish_all (bs ++ b ∷ []) m in
        (full.valid ≤ 100_000)
        × (take_record true lock between local full ≡ (some b, record { buffer = b; valid = 0 }))
        × (take_record true true [] b (record { buffer = b; valid = 0 })
            ≡ (none, record { buffer = b; valid = 0 })))
unfolding take_record grab publish_all
take_record-publish_all bs between b local m lock h =
    let p = publish_all_latest bs b m in
    (
      publish_all-bound (bs ++ b ∷ []) m h,
      take_full (publish_all (bs ++ b ∷ []) m) lock between local p.1
          ∙ ap (λ x. (some x, record { buffer = x; valid = 0 })) p.0,
      refl,
    )
