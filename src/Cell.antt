-- ===== src/Cell.antt =====
-- internal/storage/cell.go: the cells of internal and leaf pages, and their byte layouts.
pub mod RoundTrip
pub mod Flags
use ryu_db.Base.{
  ℕ, ◌+◌, ◌≡◌, ◌<◌, ◌^◌, Bool, true, false, not, List, [], ◌∷◌, ◌++◌, bit_and, bit_or,
}
use ryu_db.Base.{Bytes, length, get_elem?, slice?, ◌==◌, u16, Result, ok, ◌>>=◌, or_panic}
use ryu_db.Bytes.Binary.{le_bytes, le_value}

pub record KeyCell : Type 0 where
  pub key : Bytes
  pub child_page_id : ℕ

pub record KvCell : Type 0 where
  pub key : Bytes
  pub value : Bytes
  pub flag : ℕ

abbrev pub key_deleted_flag : ℕ
key_deleted_flag = 2

abbrev pub key_overflow_flag : ℕ
key_overflow_flag = 4

abbrev pub new_key_cell : ℕ → Bytes → KeyCell
new_key_cell page_id key = record { key = key; child_page_id = page_id }

abbrev pub new_kv_cell : ℕ → Bytes → Bytes → KvCell
new_kv_cell flag key value = record { key = key; value = value; flag = flag }

-- `(*KeyCell).Size` and `(*KVCell).Size`.
abbrev pub key_cell_size : KeyCell → ℕ
key_cell_size k = 4 + 2 + length k.key

abbrev pub kv_cell_size : KvCell → ℕ
kv_cell_size k = 1 + 2 + 2 + length k.key + length k.value

-- The puts and copies of `Serialize` fill the new buffer from front to back.
unfoldable pub serialize_key_cell : KeyCell → Bytes
serialize_key_cell k = le_bytes 4 k.child_page_id ++ (le_bytes 2 (u16 (length k.key)) ++ k.key)

unfoldable pub serialize_kv_cell : KvCell → Bytes
serialize_kv_cell k =
    k.flag
    ∷ (le_bytes 2 (u16 (length k.key)) ++ (le_bytes 2 (u16 (length k.value)) ++ (k.key ++ k.value)))

-- The slice bounds are sums of `uint16`, so they wrap.
-- The slice ends at its length: of a malformed cell Go may take bytes behind it, up to its capacity.
unfoldable pub deserialize_key_cell : Bytes → Result KeyCell
deserialize_key_cell bytes = do
  child ← or_panic (slice? bytes 0 4)
  key_len ← or_panic (slice? bytes 4 6)
  key ← or_panic (slice? bytes 6 (u16 (6 + le_value key_len)))
  ok (new_key_cell (le_value child) key)

-- The slice ends at its length, as in deserialize_key_cell.
unfoldable pub deserialize_kv_cell : Bytes → Result KvCell
deserialize_kv_cell bytes = do
  flag ← or_panic (get_elem? bytes 0)
  key_len ← or_panic (slice? bytes 1 3)
  val_len ← or_panic (slice? bytes 3 5)
  let key_end = u16 (5 + le_value key_len)
  key ← or_panic (slice? bytes 5 key_end)
  value ← or_panic (slice? bytes key_end (u16 (key_end + le_value val_len)))
  ok (new_kv_cell flag key value)

unfoldable pub is_deleted : KvCell → Bool
is_deleted k = not (bit_and k.flag key_deleted_flag == 0)

unfoldable pub set_deleted : KvCell → KvCell
set_deleted k = record k { flag = bit_or k.flag key_deleted_flag }

unfoldable pub is_overflow : KvCell → Bool
is_overflow k = not (bit_and k.flag key_overflow_flag == 0)

unfoldable pub set_overflow : KvCell → KvCell
set_overflow k = record k { flag = bit_or k.flag key_overflow_flag }

-- A cell whose serialised size is a `uint16`, and whose child is a `uint32`.
abbrev pub KeyFits : KeyCell → Type 0
KeyFits k = (key_cell_size k < 65536) × (k.child_page_id < 256 ^ 4)

abbrev pub KvFits : KvCell → Type 0
KvFits k = kv_cell_size k < 65536
