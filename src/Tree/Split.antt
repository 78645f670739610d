-- ===== src/Tree/Split.antt =====
-- internal/storage/btree.go: splitLeafCells, insertIntoParent and splitInternal.
use ryu_db.Base.{ℕ, ◌+◌, ◌/◌, Bool, true, false, List, [], ◌∷◌, ◌++◌, Option, none, some}
use ryu_db.Base.{
  Bytes, length, take, drop, get_elem?, ◌==◌, if◌then◌else◌, Error, Result, ok, err, panic,
  or_panic, page_full, page_not_written,
}
use ryu_db.Base
use ryu_db.Base.State.{Op, and_then, ◌>>=◌}
use ryu_db.Bytes.Order.{bytes_lt}
use ryu_db.Cell.{new_key_cell, serialize_key_cell, deserialize_key_cell, deserialize_kv_cell}
use ryu_db.Page.{
  Page, init, insert, get_page_id, page_type_leaf, page_type_internal, page_type_meta, meta_page_id,
  set_root_page_id,
}
use ryu_db.Page.Rebuild.{page_cells, insert_all, rebuild}
use ryu_db.Txn.{TransactionManager}
use ryu_db.Leaf.Write.{Keyed, unkey}
use ryu_db.Buffer.{BufferManager, fetch_page_for_write, unpin_page}
use ryu_db.Tree.Pages.{Pages, raise, store, unpin, log_full_page}
use ryu_db.Tree.FreeList.{allocate_page}

-- The tree, and the transaction manager that its callers pass; nil is `none`.
pub record BTree : Type 0 where
  pub bm : BufferManager
  pub root_page_id : ℕ
  pub tx_mgr : Option TransactionManager

abbrev pub on_pages {ℓ} : {A : Type ℓ} → Op BufferManager A → Op BTree A
on_pages m t = let (r, b) = m t.bm in (r, record t { bm = b })

-- A nil key is below every other.
abbrev pub key_less : Bytes → Bytes → Bool
key_less [] k = true
key_less (b ∷ bs) [] = false
key_less (b ∷ bs) (c ∷ cs) = bytes_lt (b ∷ bs) (c ∷ cs)

unfoldable pub insert_key : Keyed → List Keyed → List Keyed
insert_key k [] = k ∷ []
insert_key k (j ∷ l) = let rest = insert_key k l in if key_less k.0 j.0 then k ∷ j ∷ l else j ∷ rest

unfoldable pub sort_keys : List Keyed → List Keyed
unfolding insert_key
sort_keys [] = []
sort_keys (k ∷ l) = insert_key k (sort_keys l)

unfoldable pub key_all_cells : List Bytes → Result (List Keyed)
key_all_cells [] = ok []
key_all_cells (c ∷ cs) =
    Base.◌>>=◌ (deserialize_key_cell c)
      λ k. Base.◌>>=◌ (key_all_cells cs) λ rest. ok ((k.key, c) ∷ rest)

unfoldable pub sort_key_cells : List Bytes → Result (List Bytes)
unfolding sort_keys key_all_cells
sort_key_cells cells = Base.◌>>=◌ (key_all_cells cells) λ keyed. ok (unkey (sort_keys keyed))

abbrev pub middle : List Bytes → ℕ
middle cells = length cells / 2

-- What the two pages of an internal split hold, with the key that goes up.
pub record Halves : Type 0 where
  pub left : List Bytes
  pub right : List Bytes
  pub routing_key : Bytes

unfoldable pub halve_leaf : List Bytes → Result Halves
halve_leaf cells = Base.◌>>=◌ (or_panic (get_elem? cells (middle cells))) λ c.
    Base.◌>>=◌ (deserialize_kv_cell c) λ kv. ok (record {
      left = take (middle cells) cells;
      right = drop (middle cells) cells;
      routing_key = kv.key;
    })

-- The middle cell's child becomes the left-most pointer of the right page.
unfoldable pub halve_internal : List Bytes → Result Halves
halve_internal cells = Base.◌>>=◌ (or_panic (get_elem? cells (middle cells))) λ c.
    Base.◌>>=◌ (deserialize_key_cell c) λ k. ok (record {
      left = take (middle cells) cells;
      right = serialize_key_cell (new_key_cell k.child_page_id []) ∷ drop (middle cells + 1) cells;
      routing_key = k.key;
    })

abbrev pub Bubble : Type 0
Bubble = ℕ → Bytes → Op BTree (Unit {0})

-- `id, _ := tree.allocatePage(...)`: the id of a page that was not written, or 0.
abbrev pub id_or_zero : Result ℕ × BufferManager → Result ℕ × BufferManager
id_or_zero (ok id, b) = (ok id, b)
id_or_zero (err (page_not_written id), b) = (ok id, b)
id_or_zero (err e, b) = (ok 0, b)
id_or_zero (panic, b) = (panic, b)

-- `page, _ := tree.bm.FetchPageForWrite(...)`: a nil page panics when it is written to.
abbrev pub page_or_panic : Result Page × BufferManager → Result Page × BufferManager
page_or_panic (ok p, b) = (ok p, b)
page_or_panic (err e, b) = (panic, b)
page_or_panic (panic, b) = (panic, b)

unfoldable pub split_internal : ℕ → List Bytes → Page → Bubble → Op BTree (Unit {0})
unfolding allocate_page fetch_page_for_write log_full_page sort_key_cells halve_internal
split_internal page_id cells node bubble = do
  sorted ← on_pages (raise (sort_key_cells cells))
  _ ← on_pages (store page_id (init page_type_internal node))
  new_id ← on_pages (λ b. id_or_zero (allocate_page page_type_internal b))
  new_node ← on_pages (λ b. page_or_panic (fetch_page_for_write new_id page_type_internal b))
  halves ← on_pages (raise (halve_internal sorted))
  left ← on_pages (raise (insert_all halves.left (init page_type_internal node)))
  right ← on_pages (raise (insert_all halves.right new_node))
  left' ← on_pages (log_full_page (get_page_id left) left)
  right' ← on_pages (log_full_page new_id right)
  _ ← on_pages (store page_id left')
  _ ← on_pages (store new_id right')
  _ ← on_pages (unpin (get_page_id left') true)
  _ ← on_pages (unpin new_id true)
  bubble (get_page_id left') (serialize_key_cell (new_key_cell new_id halves.routing_key))

-- `metaPage != nil` is tested here.
abbrev pub update_meta : ℕ → Result Page × BufferManager → Result (Unit {0}) × BufferManager
update_meta root (ok meta, b) =
    and_then (log_full_page meta_page_id (set_root_page_id root meta) b)
      λ logged b1. and_then (store meta_page_id logged b1) λ stored. unpin meta_page_id true
update_meta root (err e, b) = (ok tt, b)
update_meta root (panic, b) = (panic, b)

abbrev pub set_root : ℕ → Op BTree (Unit {0})
set_root root t = (ok tt, record t { root_page_id = root })

-- The root was split: a new root over the two.
unfoldable pub grow_root : Bubble
unfolding allocate_page fetch_page_for_write log_full_page
grow_root left_child_id routing_cell = do
  new_root_id ← on_pages (λ b. id_or_zero (allocate_page page_type_internal b))
  new_root ← on_pages (λ b. page_or_panic (fetch_page_for_write new_root_id page_type_internal b))
  filled ← on_pages (
      raise (
        insert_all (serialize_key_cell (new_key_cell left_child_id []) ∷ routing_cell ∷ [])
          new_root))
  _ ← set_root new_root_id
  logged ← on_pages (log_full_page new_root_id filled)
  _ ← on_pages (store new_root_id logged)
  _ ← on_pages (λ b. update_meta new_root_id (fetch_page_for_write meta_page_id page_type_meta b))
  on_pages (unpin_page new_root_id true)

-- The routing cell fits the parent, whose cells are sorted again.
abbrev pub sort_parent : ℕ → Page → Pages (Unit {0})
sort_parent parent_id p = do
  cells ← raise (page_cells p)
  sorted ← raise (sort_key_cells cells)
  rebuilt ← raise (rebuild page_type_internal sorted p)
  logged ← log_full_page parent_id rebuilt
  _ ← store parent_id logged
  unpin_page parent_id true

abbrev pub after_insert : ℕ → Page → Bytes → Bubble → Result (ℕ × Page) → Op BTree (Unit {0})
after_insert parent_id parent cell bubble (ok (_, p)) = on_pages (sort_parent parent_id p)
after_insert parent_id parent cell bubble (err page_full) = do
  cells ← on_pages (raise (page_cells parent))
  split_internal parent_id (cells ++ cell ∷ []) parent bubble
after_insert parent_id parent cell bubble (err e) = do
  _ ← on_pages (unpin parent_id false)
  on_pages (raise (err e))
after_insert parent_id parent cell bubble panic = on_pages (raise panic)

unfoldable pub insert_into_parent : List ℕ → Bubble
unfolding split_internal grow_root fetch_page_for_write log_full_page sort_key_cells
insert_into_parent [] left_child_id routing_cell = grow_root left_child_id routing_cell
insert_into_parent (parent_id ∷ path) left_child_id routing_cell = do
  parent ← on_pages (fetch_page_for_write parent_id page_type_internal)
  after_insert parent_id parent routing_cell (insert_into_parent path) (insert routing_cell parent)

-- `cells` are sorted, which is the first step of the code.
unfoldable pub split_leaf_cells : ℕ → Page → List ℕ → List Bytes → Op BTree (Unit {0})
unfolding allocate_page fetch_page_for_write log_full_page halve_leaf insert_into_parent
split_leaf_cells page_id leaf path cells = do
  _ ← on_pages (store page_id (init page_type_leaf leaf))
  new_id ← on_pages (allocate_page page_type_leaf)
  new_leaf ← on_pages (fetch_page_for_write new_id page_type_leaf)
  halves ← on_pages (raise (halve_leaf cells))
  left ← on_pages (raise (insert_all halves.left (init page_type_leaf leaf)))
  right ← on_pages (raise (insert_all halves.right new_leaf))
  left' ← on_pages (log_full_page (get_page_id left) left)
  right' ← on_pages (log_full_page (get_page_id right) right)
  _ ← on_pages (store page_id left')
  _ ← on_pages (store new_id right')
  _ ← on_pages (unpin (get_page_id left') true)
  _ ← on_pages (unpin new_id true)
  insert_into_parent path (get_page_id left')
      (serialize_key_cell (new_key_cell new_id halves.routing_key))
