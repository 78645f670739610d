-- ===== src/Page/Checksum.antt =====
-- SetChecksum and VerifyChecksum.
use ryu_db.Base.{
  ℕ, zero, suc, ◌≤◌, ◌≡◌, refl, ap, ◌∙◌, arith, true, [], ◌∷◌, Bytes, length, write, ==_iff,
}
use ryu_db.Bytes.Binary.{le_bytes, length-le_bytes}
use ryu_db.Bytes.Crc.{crc32, crc32-lt}
use ryu_db.Page.{Page, read_field, put_field, set_checksum, verify_checksum}
use ryu_db.Page.Fields.{size_put_field, read_field-put_field}

-- A second write of the same length covers the first.
write-write :
    (xs : Bytes) (off : ℕ) (a b : Bytes)
    → length a ≡ length b
    → write (write xs off a) off b ≡ write xs off b
unfolding write
write-write [] off a b h = refl
write-write (x ∷ xs) zero [] [] h = refl
write-write (x ∷ xs) zero [] (c ∷ b) h = absurd (omega arith)
write-write (x ∷ xs) zero (c ∷ a) [] h = absurd (omega arith)
write-write (x ∷ xs) zero (c ∷ a) (d ∷ b) h =
    ap (λ t. d ∷ t) (write-write xs zero a b (omega arith))
write-write (x ∷ xs) (suc off) a b h = ap (λ t. x ∷ t) (write-write xs off a b h)

pub put_field-put_field :
    (off w u v : ℕ) (p : Page) → put_field off w v (put_field off w u p) ≡ put_field off w v p
unfolding put_field
put_field-put_field off w u v p =
    ap (λ (t : Bytes). let q : Page = record { bytes = t } in q)
      (write-write p.bytes off (le_bytes w u) (le_bytes w v) (
        length-le_bytes w u
        ∙ (let e : w ≡ length (le_bytes w v) = omega (arith, length-le_bytes w v) in e)))

-- VerifyChecksum accepts every page of at least 8 bytes that SetChecksum has sealed, and leaves it
-- as it was.
pub verify-set_checksum :
    (p : Page) → 8 ≤ length p.bytes → verify_checksum (set_checksum p) ≡ (true, set_checksum p)
unfolding verify_checksum set_checksum
verify-set_checksum p h =
    let cleared = put_field 4 4 0 p in
    let sum = crc32 cleared.bytes in
    let stored : read_field (put_field 4 4 sum cleared) 4 4 ≡ sum =
      read_field-put_field 4 4 sum cleared (omega (arith, size_put_field 4 4 0 p))
        (crc32-lt cleared.bytes) in
    let again : put_field 4 4 0 (put_field 4 4 sum cleared) ≡ cleared =
      put_field-put_field 4 4 sum 0 cleared ∙ put_field-put_field 4 4 0 0 p in
    rw (stored, again, put_field-put_field 4 4 0 sum p, (==_iff sum sum).1 refl) refl
