-- ===== src/Wal/Checkpoint.antt =====
-- internal/storage/wal.go: WriteCheckpoint, and what Recover reads back of it.
use ryu_db.Base.{
  ℕ, zero, suc, ◌+◌, ◌^◌, ◌<◌, ◌≡◌, refl, ◌∙◌, arith, [], ◌∷◌, ◌++◌, Option, some, Bytes, length,
  length-append, All,
}
use ryu_db.Base.{slice?, slice?-append, u32, Result, ok, ◌>>=◌, or_panic}
use ryu_db.Base.Table.{Table, insert}
use ryu_db.Bytes.Binary.{le_bytes, le_value, length-le_bytes, le_value-le_bytes}
use ryu_db.Wal.{Wal, Io, append, log_op_checkpoint}
use mathlib.Core.List.{append_assoc, append-nil}

unfoldable pub encode_entries : Table ℕ → Bytes
encode_entries [] = []
encode_entries ((page_id, rec_lsn) ∷ rest) =
    le_bytes 4 page_id ++ (le_bytes 8 rec_lsn ++ encode_entries rest)

-- The dirty page table, in the order in which it is ranged over.
unfoldable pub encode_table : Table ℕ → Bytes
unfolding encode_entries
encode_table dpt = le_bytes 4 (u32 (length dpt)) ++ encode_entries dpt

-- WriteCheckpoint.
unfoldable pub write_checkpoint : Io → Table ℕ → Wal → Wal × Option ℕ
unfolding encode_table append
write_checkpoint io dpt w = append io 0 0 0 log_op_checkpoint [] (encode_table dpt) w

-- The loop of Recover over the entries of a checkpoint record, from `off` on.
unfoldable pub decode_entries : ℕ → Bytes → ℕ → Table ℕ → Result (Table ℕ)
decode_entries zero value off dpt = ok dpt
decode_entries (suc left) value off dpt = do
  page_id ← or_panic (slice? value off (off + 4))
  rec_lsn ← or_panic (slice? value (off + 4) (off + 12))
  decode_entries left value (off + 12) (insert (le_value page_id) (le_value rec_lsn) dpt)

unfoldable pub decode_table : Bytes → Table ℕ → Result (Table ℕ)
unfolding decode_entries
decode_table value dpt = do n ← or_panic (slice? value 0 4); decode_entries (le_value n) value 4 dpt

-- The page ids and the LSNs fit their fields.
abbrev pub FitsEntries : Table ℕ → Type 0
FitsEntries dpt = All (λ e. (e.0 < 2 ^ 32) × (e.1 < 2 ^ 64)) dpt

-- The entries of the one written into the other, in order.
abbrev pub insert_entries : Table ℕ → Table ℕ → Table ℕ
insert_entries [] dpt = dpt
insert_entries ((k, v) ∷ rest) dpt = insert_entries rest (insert k v dpt)

decode-encode_entries :
    (all front back : Bytes) (t dpt : Table ℕ) (off : ℕ)
    → FitsEntries t
    → all ≡ front ++ (encode_entries t ++ back)
    → off ≡ length front
    → decode_entries (length t) all off dpt ≡ ok (insert_entries t dpt)
unfolding decode_entries encode_entries
decode-encode_entries all front back [] dpt off fits whole start = refl
decode-encode_entries all front back ((k, v) ∷ rest) dpt off (fit, fits) whole start =
    let id_read : slice? all off (off + 4) ≡ some (le_bytes 4 k) =
      slice?-append all front (le_bytes 4 k) (le_bytes 8 v ++ (encode_entries rest ++ back)) off
        (off + 4) (whole ∙ simp (append_assoc)) start (omega (arith, length-le_bytes 4 k)) in
    let lsn_read : slice? all (off + 4) (off + 12) ≡ some (le_bytes 8 v) =
      slice?-append all (front ++ le_bytes 4 k) (le_bytes 8 v) (encode_entries rest ++ back)
        (off + 4) (off + 12) (whole ∙ simp (append_assoc))
        (omega (arith, length-append {0} front (le_bytes 4 k), length-le_bytes 4 k))
        (omega (
          arith,
          length-append {0} front (le_bytes 4 k),
          length-le_bytes 4 k,
          length-le_bytes 8 v,
        )) in
    let rest_read =
      decode-encode_entries all (front ++ (le_bytes 4 k ++ le_bytes 8 v)) back rest (insert k v dpt)
        (off + 12) fits (whole ∙ simp (append_assoc))
        (omega (
          arith,
          length-append {0} front (le_bytes 4 k ++ le_bytes 8 v),
          length-append {0} (le_bytes 4 k) (le_bytes 8 v),
          length-le_bytes 4 k,
          length-le_bytes 8 v,
        )) in
    rw (id_read, lsn_read, le_value-le_bytes 4 k fit.0, le_value-le_bytes 8 v fit.1) rest_read

-- Reading a checkpoint's table back puts each of its entries, in order, into the table at hand.
pub decode-encode_table :
    (t dpt : Table ℕ)
    → FitsEntries t
    → length t < 2 ^ 32
    → decode_table (encode_table t) dpt ≡ ok (insert_entries t dpt)
unfolding decode_table encode_table
decode-encode_table t dpt fits small =
    let n = le_bytes 4 (u32 (length t)) in
    let count_read : slice? (n ++ encode_entries t) 0 4 ≡ some n =
      slice?-append _ [] n (encode_entries t) 0 4 refl refl
        (omega (arith, length-le_bytes 4 (u32 (length t)))) in
    let count : le_value n ≡ length t =
      omega (arith, le_value-le_bytes 4 (u32 (length t)) (omega arith)) in
    rw (count_read, count)
      (decode-encode_entries (n ++ encode_entries t) n [] t dpt 4 fits (simp (append-nil))
        (omega (arith, length-le_bytes 4 (u32 (length t)))))
