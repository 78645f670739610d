-- ===== src/Tests/Cells.antt =====
-- Runs of internal/storage/cell.go.
use ryu_db.Base.{◌≡◌, refl, arith, [], ◌∷◌, ok}
use ryu_db.Cell.{KeyCell, KvCell, new_key_cell, new_kv_cell}
use ryu_db.Cell.{serialize_kv_cell, deserialize_kv_cell}
use ryu_db.Cell.RoundTrip.{deserialize-serialize_kv_cell}

abbrev routing : KeyCell
routing = new_key_cell 7 (107 ∷ 49 ∷ [])

abbrev plain : KvCell
plain = new_kv_cell 0 (107 ∷ 49 ∷ []) (118 ∷ [])

plain_bytes : serialize_kv_cell plain ≡ 0 ∷ 2 ∷ 0 ∷ 1 ∷ 0 ∷ 107 ∷ 49 ∷ 118 ∷ []
unfolding serialize_kv_cell ryu_db.Bytes.Binary.le_bytes
plain_bytes = refl

deserialize-serialize_kv_cell_example : deserialize_kv_cell (serialize_kv_cell plain) ≡ ok plain
deserialize-serialize_kv_cell_example = deserialize-serialize_kv_cell plain (omega arith)
