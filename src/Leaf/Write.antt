-- ===== src/Leaf/Write.antt =====
-- internal/storage/btree.go: the scan of `upsertCell`, its conflict detection, and the sort of the
-- cells. The overflow chains that it frees are returned, in order, with a conflict too.
use ryu_db.Base.{ℕ, ◌+◌, Bool, true, false, List, [], ◌∷◌, ◌++◌, Option, none, some, Bytes, length}
use ryu_db.Base.{ltb, leb, ◌==◌, if◌then◌else◌, Result, ok, err, panic, ◌>>=◌}
use ryu_db.Bytes.Order.{bytes_eq, bytes_lt}
use ryu_db.Cell.{KvCell, serialize_kv_cell, deserialize_kv_cell, is_overflow}
use ryu_db.Page.{Page, page_size, header_size, slot_size, page_type_leaf}
use ryu_db.Page.Rebuild.{page_cells, rebuild}
use ryu_db.Txn.{TransactionManager, get_status, is_running, is_commited}
use ryu_db.Txn.Key.{extract_mvcc_key}

-- First-updater-wins: a version of the same user key by another transaction that is running, or that
-- has committed with a later id.
abbrev pub conflicts_with : Option TransactionManager → ℕ → ℕ → Bool
conflicts_with none writer version = false
conflicts_with (some m) writer version =
    if version == writer
    then false
    else if is_running (get_status m version)
    then true
    else if is_commited (get_status m version)
    then ltb writer version
    else false

unfoldable pub is_conflict : Option TransactionManager → Bytes → Bytes → Bool
is_conflict tx_mgr key kv_key =
    let (writer_user_key, writer) = extract_mvcc_key key in
    let (kv_user_key, version) = extract_mvcc_key kv_key in
    if bytes_eq kv_user_key writer_user_key then conflicts_with tx_mgr writer version else false

pub record Scan : Type 0 where
  pub cells : List Bytes
  pub key_exists : Bool
  pub total_space : ℕ
  pub freed : List Bytes

pub data ScanResult : Type 0 where
  scanned : Scan → ScanResult
  conflict : List Bytes → ScanResult
  scan_panic : ScanResult

-- One round: the cell with the key is swapped for the new one.
abbrev pub keep_cell : Bytes → Bytes → Bytes → KvCell → Scan → Scan
keep_cell key new_bytes c kv s =
    if bytes_eq kv.key key
    then record {
      cells = s.cells ++ new_bytes ∷ [];
      key_exists = true;
      total_space = s.total_space + slot_size + length new_bytes;
      freed = if is_overflow kv then s.freed ++ kv.value ∷ [] else s.freed;
    }
    else record s { cells = s.cells ++ c ∷ []; total_space = s.total_space + slot_size + length c }

-- A cell that cannot be read panics.
abbrev pub with_cell : Result KvCell → (KvCell → ScanResult) → ScanResult
with_cell (ok kv) k = k kv
with_cell (err _) k = scan_panic
with_cell panic k = scan_panic

abbrev pub with_scan : ScanResult → (Scan → ScanResult) → ScanResult
with_scan (scanned s) k = k s
with_scan (conflict freed) k = conflict freed
with_scan scan_panic k = scan_panic

unfoldable pub scan_loop :
    Option TransactionManager → Bytes → Bytes → List Bytes → Scan → ScanResult
scan_loop tx_mgr key new_bytes [] s = scanned s
scan_loop tx_mgr key new_bytes (c ∷ cs) s = with_cell (deserialize_kv_cell c) λ kv.
    let rest = scan_loop tx_mgr key new_bytes cs (keep_cell key new_bytes c kv s) in
    if is_conflict tx_mgr key kv.key then conflict s.freed else rest

-- A new key is appended.
abbrev pub finish_scan : Bytes → Scan → Scan
finish_scan new_bytes s = if s.key_exists then s else record s {
  cells = s.cells ++ new_bytes ∷ [];
  total_space = s.total_space + slot_size + length new_bytes;
}

-- The scan of upsertCell, from the serialised new cell to the space check.
unfoldable pub scan : Option TransactionManager → Bytes → Bytes → List Bytes → ScanResult
unfolding scan_loop
scan tx_mgr key new_bytes cells =
    with_scan
      (scan_loop tx_mgr key new_bytes cells
        (record { cells = []; key_exists = false; total_space = header_size; freed = [] }))
      λ s. scanned (finish_scan new_bytes s)

-- `sort.Slice` by key; the keys of a leaf differ, so the order is determined.
abbrev pub Keyed : Type 0
Keyed = Bytes × Bytes

unfoldable pub insert_keyed : Keyed → List Keyed → List Keyed
insert_keyed k [] = k ∷ []
insert_keyed k (j ∷ l) = if bytes_lt k.0 j.0 then k ∷ j ∷ l else j ∷ insert_keyed k l

unfoldable pub sort_keyed : List Keyed → List Keyed
unfolding insert_keyed
sort_keyed [] = []
sort_keyed (k ∷ l) = insert_keyed k (sort_keyed l)

unfoldable pub key_all : List Bytes → Result (List Keyed)
key_all [] = ok []
key_all (c ∷ cs) = do kv ← deserialize_kv_cell c; rest ← key_all cs; ok ((kv.key, c) ∷ rest)

abbrev pub unkey : List Keyed → List Bytes
unkey [] = []
unkey ((_, c) ∷ l) = c ∷ unkey l

unfoldable pub sort_cells : List Bytes → Result (List Bytes)
unfolding sort_keyed key_all
sort_cells cells = do keyed ← key_all cells; ok (unkey (sort_keyed keyed))

-- The leaf after the write, the sorted cells of a leaf that is to be split, or the error of a
-- write-write conflict.
pub data Written : Type 0 where
  fits : Page → Written
  must_split : List Bytes → Written
  conflicted : Written

-- The leaf is wiped and filled again if the cells fit.
unfoldable pub write_scanned : Page → ScanResult → Result (Written × List Bytes)
unfolding sort_cells
write_scanned leaf (conflict freed) = ok (conflicted, freed)
write_scanned leaf scan_panic = panic
write_scanned leaf (scanned s) = do
  sorted ← sort_cells s.cells
  (let rebuilt : Result (Written × List Bytes) = (do
    q ← rebuild page_type_leaf sorted leaf
    ok (fits q, s.freed)) in
      if leb s.total_space page_size then rebuilt else ok (must_split sorted, s.freed))

-- upsertCell behind `findLeafPage` and the overflow chain, up to the log record.
unfoldable pub write_leaf :
    Option TransactionManager → KvCell → Page → Result (Written × List Bytes)
unfolding scan write_scanned
write_leaf tx_mgr kv leaf = do
  cells ← page_cells leaf
  write_scanned leaf (scan tx_mgr kv.key (serialize_kv_cell kv) cells)
