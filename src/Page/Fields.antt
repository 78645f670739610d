-- ===== src/Page/Fields.antt =====
-- A field that was put reads back, and leaves the fields that it does not meet.
use ryu_db.Base.{ℕ, ◌+◌, ◌^◌, ◌≤◌, ◌<◌, ◌≡◌, ◌⊎◌, ap, ◌∙◌, arith, length}
use ryu_db.Base.{slice, length-write, slice-write_same, slice-write_ne}
use ryu_db.Bytes.Binary.{le_bytes, le_value, length-le_bytes, le_value-le_bytes}
use ryu_db.Page.{Page, read_field, put_field}

pub size_put_field : (off w v : ℕ) (p : Page) → length (put_field off w v p).bytes ≡ length p.bytes
unfolding put_field
size_put_field off w v p = length-write p.bytes off (le_bytes w v)

pub read_field-put_field :
    (off w v : ℕ) (p : Page)
    → off + w ≤ length p.bytes
    → v < 256 ^ w
    → read_field (put_field off w v p) off w ≡ v
unfolding read_field put_field
read_field-put_field off w v p fits small =
    let n = length-le_bytes w v in
    ap le_value (rw n at (slice-write_same p.bytes off (le_bytes w v) (omega (arith, n))))
    ∙ le_value-le_bytes w v small

pub read_field-put_field_ne :
    (off w v : ℕ) (p : Page) (o n : ℕ)
    → (o + n ≤ off) ⊎ (off + w ≤ o)
    → read_field (put_field off w v p) o n ≡ read_field p o n
unfolding read_field put_field
read_field-put_field_ne off w v p o n h =
    ap le_value (slice-write_ne p.bytes off (le_bytes w v) o n (omega (arith, length-le_bytes w v)))

pub slice-put_field_ne :
    (off w v : ℕ) (p : Page) (o n : ℕ)
    → (o + n ≤ off) ⊎ (off + w ≤ o)
    → slice (put_field off w v p).bytes o n ≡ slice p.bytes o n
unfolding put_field
slice-put_field_ne off w v p o n h =
    slice-write_ne p.bytes off (le_bytes w v) o n (omega (arith, length-le_bytes w v))
