-- ===== src/Leaf/Clean.antt =====
-- internal/storage/vacuum.go: `vacuumLeaf`. The chains that it frees are returned, in order.
use ryu_db.Base.{ℕ, ◌+◌, Bool, true, false, ◌&&◌, List, [], ◌∷◌, Bytes, ltb, if◌then◌else◌}
use ryu_db.Base.{Result, ok, ◌>>=◌}
use ryu_db.Bytes.Order.{bytes_eq}
use ryu_db.Cell.{KvCell, deserialize_kv_cell, is_deleted, is_overflow}
use ryu_db.Page.{Page, page_type_leaf}
use ryu_db.Page.Rebuild.{page_cells, rebuild}
use ryu_db.Txn.Key.{extract_mvcc_key}

pub record Vacuumed : Type 0 where
  pub cells_to_keep : List Bytes
  pub freed : List Bytes
  pub cleaned_count : ℕ

-- `isOldVersion`: the next cell is a version of the same user key, below all active transactions.
abbrev pub is_old_version : ℕ → KvCell → KvCell → Bool
is_old_version min_active kv next_kv =
    let (user_key, _) = extract_mvcc_key kv.key in
    let (next_user_key, next_tx) = extract_mvcc_key next_kv.key in
    if bytes_eq user_key next_user_key then ltb next_tx min_active else false

unfoldable pub old_version_at : ℕ → KvCell → List Bytes → Result Bool
old_version_at min_active kv [] = ok false
old_version_at min_active kv (next ∷ _) = do
  next_kv ← deserialize_kv_cell next
  ok (is_old_version min_active kv next_kv)

-- The cell is dropped as an old version, or as a tombstone below all active transactions.
abbrev pub drops : ℕ → Bool → KvCell → Bool
drops min_active old kv =
    if old then true else is_deleted kv && ltb (extract_mvcc_key kv.key).1 min_active

abbrev pub clean_cell : Bool → Bytes → KvCell → Vacuumed → Vacuumed
clean_cell dropped c kv rest =
    if dropped
    then record rest {
      freed = if is_overflow kv then kv.value ∷ rest.freed else rest.freed;
      cleaned_count = rest.cleaned_count + 1;
    }
    else record rest { cells_to_keep = c ∷ rest.cells_to_keep }

unfoldable pub vacuum_cells : ℕ → List Bytes → Result Vacuumed
unfolding old_version_at
vacuum_cells min_active [] = ok (record { cells_to_keep = []; freed = []; cleaned_count = 0 })
vacuum_cells min_active (c ∷ cs) = do
  kv ← deserialize_kv_cell c
  old ← old_version_at min_active kv cs
  rest ← vacuum_cells min_active cs
  ok (clean_cell (drops min_active old kv) c kv rest)

-- The leaf is written anew only if a cell went.
unfoldable pub vacuum_leaf : ℕ → Page → Result (Page × List Bytes)
unfolding vacuum_cells
vacuum_leaf min_active leaf = do
  cells ← page_cells leaf
  done ← vacuum_cells min_active cells
  (let cleaned : Result (Page × List Bytes) = (do
    q ← rebuild page_type_leaf done.cells_to_keep leaf
    ok (q, done.freed)) in
      if ltb 0 done.cleaned_count then cleaned else ok (leaf, done.freed))
