-- ===== src/Leaf/Redo.antt =====
-- internal/storage/recovery.go: `redoUpsertOnPage`.
use ryu_db.Base.{
  ℕ, Bool, true, false, List, [], ◌∷◌, ◌++◌, Bytes, ◌==◌, if◌then◌else◌, Result, ok, ◌>>=◌,
}
use ryu_db.Bytes.Order.{bytes_eq}
use ryu_db.Cell.{new_kv_cell, serialize_kv_cell, deserialize_kv_cell, key_deleted_flag}
use ryu_db.Page.{Page, get_page_type}
use ryu_db.Page.Rebuild.{page_cells, rebuild}
use ryu_db.Wal.{log_op_delete, log_op_undo_insert}

unfoldable pub redo_cell : Bytes → Bytes → ℕ → Bytes
redo_cell key value op =
    serialize_kv_cell (new_kv_cell (if op == log_op_delete then key_deleted_flag else 0) key value)

-- The loop's cells and `keyExists`.
unfoldable pub redo_loop : Bytes → Bytes → ℕ → List Bytes → Result (List Bytes × Bool)
redo_loop key cell_bytes op [] = ok ([], false)
redo_loop key cell_bytes op (c ∷ cs) = do
  kv ← deserialize_kv_cell c
  (rest, seen) ← redo_loop key cell_bytes op cs
  ok (
      if bytes_eq kv.key key
      then ((if op == log_op_undo_insert then rest else cell_bytes ∷ rest), true)
      else (c ∷ rest, seen))

unfoldable pub redo_cells : Bytes → Bytes → ℕ → List Bytes → Result (List Bytes)
unfolding redo_loop
redo_cells key value op cells = do
  (kept, key_exists) ← redo_loop key (redo_cell key value op) op cells
  ok (
      if key_exists
      then kept
      else if op == log_op_undo_insert
      then kept
      else kept ++ redo_cell key value op ∷ [])

-- The page keeps its type; unlike upsertCell the cells are not sorted.
unfoldable pub redo_upsert_on_page : Bytes → Bytes → ℕ → Page → Result Page
unfolding redo_cells
redo_upsert_on_page key value op page = do
  cells ← page_cells page
  redone ← redo_cells key value op cells
  rebuild (get_page_type page) redone page
