-- ===== src/Tests/Recoveries.antt =====
-- Runs of internal/storage/recovery.go, and of the table that a checkpoint carries.
use ryu_db.Base.{ℕ, ◌≡◌, refl, arith, inl, [], ◌∷◌, List, Option, none, some, ok, false, ◌>>=◌}
use ryu_db.Base.Table.{Table, lookup}
use ryu_db.Base.{Bytes, length, ◌≤◌, ◌∙◌, sym, ap}
use ryu_db.Page.{Page, get_lsn, set_lsn, page_type_leaf, get_page_type}
use ryu_db.Page.Rebuild.{rebuild-Holds, page_cells}
use ryu_db.Page.Fields.{size_put_field, read_field-put_field}
use ryu_db.Buffer.View.{content}
use ryu_db.Tree.Content.{content-IsPage, content-field, page_cells-content}
use ryu_db.Cell.{new_kv_cell}
use ryu_db.Cell.RoundTrip.{length-serialize_kv_cell}
use ryu_db.Leaf.Redo.{redo_cell, redo_cells, redo_upsert_on_page}
use ryu_db.Tests.Pages.{blank, size_blank}
use ryu_db.Wal.{
  Wal, LogRecord, log_op_insert, log_op_commit, log_op_clr, log_op_full_page, io_ok, append,
}
use ryu_db.Wal.Checkpoint.{encode_table, decode_table, insert_entries, decode-encode_table}
use ryu_db.Recovery.{analyse, Tables, is_applied, redo_page}
use ryu_db.Recovery.Analysis.{standing, active, analyse-active}
use ryu_db.Bytes.Binary.{le_bytes}
use ryu_db.Wal.{record_size, read_record}
use ryu_db.Buffer.{BufferManager, get_dirty_page_table}
use ryu_db.Recovery.{checkpoint_lsn}
use ryu_db.Recovery.Open.{checkpoint}
use ryu_db.Recovery.Restart.{checkpoint_record, analyse-checkpoint}
use ryu_db.Tests.Buffers.{log, holding, holding-IsPool, calm}
use ryu_db.Recovery.Dirty.{dirty_from}
use ryu_db.Recovery.Redo.{redo_page_again, redo_page_clr}

abbrev entries : Table ℕ
entries = (1, 300) ∷ (7, 4) ∷ []

decode-encode_table_example :
    decode_table (encode_table entries) ((7, 9) ∷ []) ≡ ok (insert_entries entries ((7, 9) ∷ []))
decode-encode_table_example =
    decode-encode_table entries ((7, 9) ∷ [])
      ((omega arith, omega arith), ((omega arith, omega arith), tt)) (omega arith)

-- Transaction 5 has committed, and transaction 6 has not ended.
abbrev entry : ℕ → ℕ → ℕ → LogRecord
entry lsn txn_id op_type = record {
  lsn = lsn;
  txn_id = txn_id;
  prev_lsn = 0;
  page_id = 1;
  op_type = op_type;
  key = [];
  value = [];
}

abbrev history : List LogRecord
history = entry 4 5 1 ∷ entry 60 6 1 ∷ entry 120 5 log_op_commit ∷ entry 180 6 2 ∷ []

abbrev found : Tables
found = record { dpt = (1, 4) ∷ []; att = (6, 180) ∷ [] }

analyse-active_example : lookup 6 found.att ≡ active (standing 6 history) none
unfolding analyse lookup ryu_db.Base.Table.insert ryu_db.Base.Table.remove
analyse-active_example = analyse-active history found 6 (omega arith) refl

-- A leaf without cells, and what redoing an insert makes of it.
leaf_without_cells :
    (p : Page) × (length p.bytes ≡ 4096)
    × (get_lsn p ≡ 0)
    × (page_cells p ≡ ok [])
    × (get_page_type p ≡ page_type_leaf)
leaf_without_cells =
    let (p, stored, holds, cells, kind, same) =
      rebuild-Holds page_type_leaf blank (inl refl) size_blank [] (omega arith) in
    let is_page = content-IsPage p holds.is_page in
    (
      content p,
      is_page.size,
      read_field-put_field 12 8 0 p (omega (arith, holds.is_page.size)) (omega arith),
      sym (page_cells-content p is_page) ∙ cells,
      content-field p 20 1 (omega arith) ∙ kind,
    )

abbrev leaf : Page
leaf = leaf_without_cells.0

leaf_lsn : get_lsn leaf ≡ 0
leaf_lsn = let (p, size, lsn, cells, kind) = leaf_without_cells in lsn

abbrev inserted : LogRecord
inserted = record (entry 4 6 log_op_insert) { key = 107 ∷ []; value = 0 ∷ 118 ∷ [] }

redone :
    (q : Page) × (redo_upsert_on_page inserted.key inserted.value log_op_insert leaf ≡ ok q)
    × (length q.bytes ≡ 4096)
unfolding redo_upsert_on_page redo_cells ryu_db.Leaf.Redo.redo_loop redo_cell
redone =
    let (p, size, lsn, cells, kind) = leaf_without_cells in
    let n = length-serialize_kv_cell (new_kv_cell 0 inserted.key inserted.value) in
    let (q, stored, holds, cells', kind', same) =
      rebuild-Holds page_type_leaf leaf (inl refl) size
        (redo_cell inserted.key inserted.value log_op_insert ∷ []) (omega (arith, n)) in
    (q, rw (cells, kind) stored, holds.is_page.size)

redo_page_again_example : redo_page inserted (set_lsn 4 redone.0) ≡ ok (set_lsn 4 redone.0)
unfolding redo_page
redo_page_again_example =
    redo_page_again inserted leaf (set_lsn 4 redone.0) (omega arith) (omega arith)
      (let fresh : is_applied inserted leaf ≡ false = ground (arith, leaf_lsn) in
        rw (fresh, redone.1) refl)
      (omega (arith, size_put_field 12 8 4 redone.0, redone.2))

redo_page_clr_example :
    (redo_page inserted leaf >>= redo_page (entry 60 6 log_op_clr)) ≡ ok (set_lsn 60 redone.0)
redo_page_clr_example =
    redo_page_clr inserted (entry 60 6 log_op_clr) leaf redone.0 refl refl (omega (arith, leaf_lsn))
      (omega arith) (omega arith) redone.1 (omega (arith, redone.2))

-- The page 1 is dirty, from the LSN 4 on.
abbrev dirty : BufferManager
dirty = holding 0 calm

dirty_page_table : get_dirty_page_table dirty ≡ (1, 4) ∷ []
unfolding get_dirty_page_table ryu_db.Buffer.dirty_loop ryu_db.Base.Table.insert
dirty_page_table = refl

size_table : length (encode_table (get_dirty_page_table dirty)) ≡ 16
unfolding encode_table ryu_db.Wal.Checkpoint.encode_entries le_bytes
size_table = rw dirty_page_table refl

analyse-checkpoint_example :
    (c : Bytes) × (w' : Wal) × ((checkpoint dirty).0 ≡ ok (some c))
    × ((checkpoint dirty).1.wal ≡ some w')
    × (read_record w' (checkpoint_lsn (some c))
        ≡ ok (checkpoint_record dirty log, record_size (checkpoint_record dirty log)))
    × (analyse (checkpoint_record dirty log ∷ []) (record { dpt = []; att = [] })
        ≡ ok (record { dpt = insert_entries (get_dirty_page_table dirty) []; att = [] }))
    × ((j : ℕ)
        → lookup j (insert_entries (get_dirty_page_table dirty) [])
          ≡ dirty_from (lookup j dirty.page_table) none)
analyse-checkpoint_example =
    analyse-checkpoint log dirty refl refl refl (holding-IsPool 0 [])
      (record {
        lsn = omega arith;
        txn_id = omega arith;
        prev_lsn = omega arith;
        page_id = omega arith;
        op_type = omega arith;
        key = omega arith;
        size = omega (arith, size_table);
      })
      (rw dirty_page_table ((omega arith, omega arith), tt)) (rw dirty_page_table (omega arith))
