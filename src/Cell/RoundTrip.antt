-- ===== src/Cell/RoundTrip.antt =====
-- `DeserializeKeyCell` and `DeserializeKVCell` read back what `Serialize` wrote.
use mathlib.Core.List.{append-nil, append_assoc}
use ryu_db.Base.{ℕ, ◌+◌, ◌≡◌, ◌<◌, refl, ◌∙◌, arith, [], ◌∷◌, ◌++◌}
use ryu_db.Base.{length, length-append, slice?, slice?-append, u16, some, ok}
use ryu_db.Bytes.Binary.{le_bytes, le_value, length-le_bytes, le_value-le_bytes}
use ryu_db.Cell.{KeyCell, KvCell, key_cell_size, kv_cell_size, KeyFits, KvFits}
use ryu_db.Cell.{serialize_key_cell, serialize_kv_cell, deserialize_key_cell, deserialize_kv_cell}

pub length-serialize_key_cell : (k : KeyCell) → length (serialize_key_cell k) ≡ key_cell_size k
unfolding serialize_key_cell
length-serialize_key_cell k = omega (
  arith,
  length-append {0} (le_bytes 4 k.child_page_id) (le_bytes 2 (u16 (length k.key)) ++ k.key),
  length-append {0} (le_bytes 2 (u16 (length k.key))) k.key,
  length-le_bytes 4 k.child_page_id,
  length-le_bytes 2 (u16 (length k.key)),
)

pub length-serialize_kv_cell : (k : KvCell) → length (serialize_kv_cell k) ≡ kv_cell_size k
unfolding serialize_kv_cell
length-serialize_kv_cell k = omega (
  arith,
  length-append {0} (le_bytes 2 (u16 (length k.key)))
      (le_bytes 2 (u16 (length k.value)) ++ (k.key ++ k.value)),
  length-append {0} (le_bytes 2 (u16 (length k.value))) (k.key ++ k.value),
  length-append {0} k.key k.value,
  length-le_bytes 2 (u16 (length k.key)),
  length-le_bytes 2 (u16 (length k.value)),
)

-- A two-byte length below 2 ^ 16 reads back.
length_field : (n : ℕ) → n < 65536 → le_value (le_bytes 2 (u16 n)) ≡ n
length_field n h = omega (arith, le_value-le_bytes 2 (u16 n) (omega arith))

-- A KeyCell whose size fits 16 bits and whose child id fits 32 bits is read back whole.
pub deserialize-serialize_key_cell :
    (k : KeyCell) → KeyFits k → deserialize_key_cell (serialize_key_cell k) ≡ ok k
unfolding deserialize_key_cell serialize_key_cell
deserialize-serialize_key_cell k h =
    let child = le_bytes 4 k.child_page_id in
    let key_len = le_bytes 2 (u16 (length k.key)) in
    let child_read : slice? (child ++ (key_len ++ k.key)) 0 4 ≡ some child =
      slice?-append _ [] child (key_len ++ k.key) 0 4 refl refl
        (omega (arith, length-le_bytes 4 k.child_page_id)) in
    let key_len_read : slice? (child ++ (key_len ++ k.key)) 4 6 ≡ some key_len =
      slice?-append _ child key_len k.key 4 6 refl
        (omega (arith, length-le_bytes 4 k.child_page_id))
        (omega
          (arith, length-le_bytes 4 k.child_page_id, length-le_bytes 2 (u16 (length k.key)))) in
    let key_read : slice? (child ++ (key_len ++ k.key)) 6 (u16 (6 + le_value key_len))
        ≡ some k.key =
      slice?-append _ (child ++ key_len) k.key [] 6 _ (simp (append-nil, append_assoc))
        (omega (
          arith,
          length-append {0} child key_len,
          length-le_bytes 4 k.child_page_id,
          length-le_bytes 2 (u16 (length k.key)),
        ))
        (omega (
          arith,
          length_field (length k.key) (omega arith),
          length-append {0} child key_len,
          length-le_bytes 4 k.child_page_id,
          length-le_bytes 2 (u16 (length k.key)),
        )) in
    simp (child_read, key_len_read, key_read, le_value-le_bytes 4 k.child_page_id h.1)

-- A KVCell whose size fits 16 bits is read back whole.
pub deserialize-serialize_kv_cell :
    (k : KvCell) → KvFits k → deserialize_kv_cell (serialize_kv_cell k) ≡ ok k
unfolding deserialize_kv_cell serialize_kv_cell
deserialize-serialize_kv_cell k h =
    let key_len = le_bytes 2 (u16 (length k.key)) in
    let val_len = le_bytes 2 (u16 (length k.value)) in
    let all = k.flag ∷ (key_len ++ (val_len ++ (k.key ++ k.value))) in
    let front = k.flag ∷ (key_len ++ val_len) in
    let two : length key_len ≡ 2 = length-le_bytes 2 (u16 (length k.key)) in
    let two' : length val_len ≡ 2 = length-le_bytes 2 (u16 (length k.value)) in
    let five : length front ≡ 5 = omega (arith, length-append {0} key_len val_len) in
    let key_field : le_value key_len ≡ length k.key = length_field (length k.key) (omega arith) in
    let val_field : le_value val_len ≡ length k.value =
      length_field (length k.value) (omega arith) in
    let key_len_read : slice? all 1 3 ≡ some key_len =
      slice?-append all (k.flag ∷ []) key_len (val_len ++ (k.key ++ k.value)) 1 3 refl refl
        (omega arith) in
    let val_len_read : slice? all 3 5 ≡ some val_len =
      slice?-append all (k.flag ∷ key_len) val_len (k.key ++ k.value) 3 5 refl (omega arith)
        (omega arith) in
    let regroup : all ≡ front ++ (k.key ++ k.value) = simp append_assoc in
    let key_end = u16 (5 + le_value key_len) in
    let key_read : slice? all 5 key_end ≡ some k.key =
      slice?-append all front k.key k.value 5 key_end regroup (omega arith) (omega arith) in
    let value_read : slice? all key_end (u16 (key_end + le_value val_len)) ≡ some k.value =
      slice?-append all (front ++ k.key) k.value [] key_end _
        (regroup ∙ simp (append-nil, append_assoc)) (omega (arith, length-append {0} front k.key))
        (omega (arith, length-append {0} front k.key)) in
    simp (key_len_read, val_len_read, key_read, value_read)
